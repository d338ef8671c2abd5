-- ===== src/Crypto/Secret.antt =====
-- crates/otap-crypto/src/lib.rs: `SharedSecret`. Zeroing the memory on drop is not modelled.
use otap_signup_validator.Common.{ℕ, List, IsArray}

-- `SharedSecret([u8; 32])`
pub record SharedSecret : Type 0 where
  pub bytes : List ℕ

-- `SharedSecret::new`
unfoldable pub new_secret : List ℕ → SharedSecret
new_secret bytes = record { bytes = bytes }

abbrev pub IsSecret : SharedSecret → Type 0
IsSecret s = IsArray 32 s.bytes

-- ===== src/Crypto/Hmac.antt =====
-- HMAC-SHA256 of the crate `hmac`: not part of the repository, so a parameter.
use otap_signup_validator.Common.{ℕ, List}

-- `mac key message` is the tag of all the bytes passed to `update`, in order.
pub record Hmac : Type 0 where
  pub mac : List ℕ → List ℕ → List ℕ

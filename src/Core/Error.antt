-- ===== src/Core/Error.antt =====
-- crates/otap-core/src/error.rs
use Prim.Native.String.{String}
use otap_signup_validator.Common.{ℕ, Result}
use otap_signup_validator.Common.Int.{ℤ}

-- `ProtocolError`
pub data ProtocolError : Type 0 where
  wavelength_out_of_range : ℕ → ℕ → ProtocolError
  unknown_oam_mode : ℤ → ProtocolError
  authentication_failure : ProtocolError
  integrity_failure : ProtocolError
  sequence_gap : ℕ → ℕ → ProtocolError
  schema_mismatch : ℤ → ℕ → ℕ → ProtocolError
  wire_format : String → ProtocolError

-- The crate's `Result<T>`
abbrev pub ProtocolResult : Type 0 → Type 0
ProtocolResult A = Result A ProtocolError

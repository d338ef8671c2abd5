-- ===== src/Schema/Interface.antt =====
-- crates/otap-schema/src/lib.rs: the trait `Schema`, with the laws that its clients rely on.
use otap_signup_validator.Common.{ℕ, ◌≡◌, List, length, ok}
use otap_signup_validator.Core.Error.{ProtocolResult}
use otap_signup_validator.Core.Dimensions.{OamMode, IsCharge}

-- `Schema`
pub record Schema (S : Type 0) : Type 0 where
  pub oam_mode : OamMode
  pub payload_bytes : ℕ
  pub encode : S → List ℕ
  pub decode : List ℕ → ProtocolResult S

-- A schema whose payloads have their fixed size and decode to what was encoded. `IsValue` holds of
-- the values whose fields are in the range of their types.
pub record IsLawful {S : Type 0} (schema : Schema S) (IsValue : S → Type 0) : Type 0 where
  pub charge : IsCharge schema.oam_mode
  pub size : (v : S) → IsValue v → length (schema.encode v) ≡ schema.payload_bytes
  pub round_trip : (v : S) → IsValue v → schema.decode (schema.encode v) ≡ ok v

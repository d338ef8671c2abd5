-- ===== src/Flr/Handles.antt =====
-- The handles and the modes of the schemas in crates/otap-flr-client/src/lib.rs.
use otap_signup_validator.Common.{
  ◌^◌, ◌<◌, ◌≡◌, refl, ap, arith, Bool, true, false, ◌==◌, if◌then◌else◌, ◌⊎◌, inl, inr,
}
use otap_signup_validator.Common.Int.{eq_ℤ}
use otap_signup_validator.Core.Dimensions.{IsCharge}
use otap_signup_validator.Csr.Writer.{schema_word_offset}
use otap_signup_validator.Csr.PayloadTable.{IsSchemaId}
use otap_signup_validator.Schema.Registry.{SchemaId, order_id, tick_id, heartbeat_id, payload_bytes}
use otap_signup_validator.Flr.{csr_handle_for_schema_id, oam_mode_of}

abbrev pub same_id : SchemaId → SchemaId → Bool
same_id t s = csr_handle_for_schema_id t == csr_handle_for_schema_id s

same_id-cases : (t s : SchemaId) → ((t ≡ s) × (same_id t s ≡ true)) ⊎ (same_id t s ≡ false)
same_id-cases order_id order_id = inl (refl, refl)
same_id-cases order_id tick_id = inr refl
same_id-cases order_id heartbeat_id = inr refl
same_id-cases tick_id order_id = inr refl
same_id-cases tick_id tick_id = inl (refl, refl)
same_id-cases tick_id heartbeat_id = inr refl
same_id-cases heartbeat_id order_id = inr refl
same_id-cases heartbeat_id tick_id = inr refl
same_id-cases heartbeat_id heartbeat_id = inl (refl, refl)

pub same_oam : (t s : SchemaId) → eq_ℤ (oam_mode_of t).charge (oam_mode_of s).charge ≡ same_id t s
same_oam order_id order_id = refl
same_oam order_id tick_id = refl
same_oam order_id heartbeat_id = refl
same_oam tick_id order_id = refl
same_oam tick_id tick_id = refl
same_oam tick_id heartbeat_id = refl
same_oam heartbeat_id order_id = refl
same_oam heartbeat_id tick_id = refl
same_oam heartbeat_id heartbeat_id = refl

-- What is chosen for a schema, by the schema that was programmed.
pub same_choice :
    {A : Type 0} (f : SchemaId → A) (t s : SchemaId) (otherwise : A)
    → (if same_id t s then f t else otherwise) ≡ (if same_id t s then f s else otherwise)
same_choice f t s otherwise = elim (same_id-cases t s) [
  | inl (e, same) ↦ rw same (ap f e)
  | inr differs ↦ rw differs refl
]

-- The constants of the schemas.
pub record InTables (s : SchemaId) : Type 0 where
  pub id : IsSchemaId (csr_handle_for_schema_id s)
  pub byte : csr_handle_for_schema_id s < 2 ^ 8
  pub charge : IsCharge (oam_mode_of s)
  pub half : payload_bytes s < 2 ^ 16
  pub low : schema_word_offset (csr_handle_for_schema_id s) < 0x100

pub in_tables : (s : SchemaId) → InTables s
unfolding payload_bytes
in_tables order_id = record {
  id = omega arith;
  byte = omega arith;
  charge = (omega arith, omega arith);
  half = omega arith;
  low = omega arith;
}
in_tables tick_id = record {
  id = omega arith;
  byte = omega arith;
  charge = (omega arith, omega arith);
  half = omega arith;
  low = omega arith;
}
in_tables heartbeat_id = record {
  id = omega arith;
  byte = omega arith;
  charge = (omega arith, omega arith);
  half = omega arith;
  low = omega arith;
}

-- ===== src/Flr/Defaults.antt =====
-- crates/otap-flr-client/src/lib.rs: the codes of field types, and the configuration for a local registry.
use otap_signup_validator.Common.{ℕ, List}
use otap_signup_validator.Crypto.Trajectory.{ascii}
use otap_signup_validator.Flr.{FlrClientConfig}

-- `FieldType`
pub data FieldType : Type 0 where
  unspecified u8 u16 u32 u64 i8 i16 i32 i64 f32 f64 text bytes enum_u8 : FieldType

-- The numeric values that must stay as those of the registry.
unfoldable pub field_code : FieldType → ℕ
field_code unspecified = 0
field_code u8 = 1
field_code u16 = 2
field_code u32 = 3
field_code u64 = 4
field_code i8 = 5
field_code i16 = 6
field_code i32 = 7
field_code i64 = 8
field_code f32 = 9
field_code f64 = 10
field_code text = 11
field_code bytes = 12
field_code enum_u8 = 13

-- `FlrClientConfig::local`
unfoldable pub local_config : List ℕ → FlrClientConfig
local_config operator_id = record {
  base_url = ascii "http://localhost:8080";
  operator_id = operator_id;
}

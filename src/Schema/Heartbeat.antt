-- ===== src/Schema/Heartbeat.antt =====
-- crates/otap-schema/src/heartbeat.rs
pub mod Wire
use otap_signup_validator.Common.{
  ℕ, ◌^◌, ◌<◌, List, length, replicate, IsArray, to_be_bytes, from_be_bytes, slice, copy_from_slice,
  not, ok, err, ◌==◌, if◌then◌else◌,
}
use otap_signup_validator.Common.Int.{ℤ, pos, to_bits, of_bits, IsI64}
use otap_signup_validator.Core.Error.{ProtocolResult, schema_mismatch}
use otap_signup_validator.Core.Dimensions.{OamMode}
use otap_signup_validator.Schema.Interface.{Schema}

-- `Heartbeat`
pub record Heartbeat : Type 0 where
  pub node_id : ℕ
  pub clock_offset_ns : ℤ
  pub heartbeat_seq : ℕ
  pub reserved : List ℕ

-- The fields are in the range of their types.
pub record IsHeartbeat (h : Heartbeat) : Type 0 where
  pub node_id : h.node_id < 2 ^ 64
  pub clock_offset_ns : IsI64 h.clock_offset_ns
  pub heartbeat_seq : h.heartbeat_seq < 2 ^ 64
  pub reserved : IsArray 8 h.reserved

abbrev pub heartbeat_oam_mode : OamMode
heartbeat_oam_mode = record { charge = pos 4 }

abbrev pub heartbeat_payload_bytes : ℕ
heartbeat_payload_bytes = 32

-- `Heartbeat::encode`; the clock offset is written in two's complement.
unfoldable pub encode_heartbeat : Heartbeat → List ℕ
encode_heartbeat h =
    let zeros = replicate heartbeat_payload_bytes 0 in
    let with_node = copy_from_slice 0 (to_be_bytes 8 h.node_id) zeros in
    let with_clock = copy_from_slice 8 (to_be_bytes 8 (to_bits 64 h.clock_offset_ns)) with_node in
    let with_seq = copy_from_slice 16 (to_be_bytes 8 h.heartbeat_seq) with_clock in
    copy_from_slice 24 h.reserved with_seq

-- `Heartbeat::decode`
unfoldable pub decode_heartbeat : List ℕ → ProtocolResult Heartbeat
decode_heartbeat bytes =
    if not (length bytes == heartbeat_payload_bytes)
    then err (schema_mismatch heartbeat_oam_mode.charge heartbeat_payload_bytes (length bytes))
    else ok (record {
      node_id = from_be_bytes (slice 0 8 bytes);
      clock_offset_ns = of_bits 64 (from_be_bytes (slice 8 16 bytes));
      heartbeat_seq = from_be_bytes (slice 16 24 bytes);
      reserved = slice 24 32 bytes;
    })

abbrev pub heartbeat_schema : Schema Heartbeat
heartbeat_schema = record {
  oam_mode = heartbeat_oam_mode;
  payload_bytes = heartbeat_payload_bytes;
  encode = encode_heartbeat;
  decode = decode_heartbeat;
}

-- ===== src/Schema/Heartbeat/Wire.antt =====
-- The wire form of `Heartbeat`: its layout and the round trip.
use otap_signup_validator.Common.{
  ℕ, ◌≤◌, ◌≡◌, ◌↔◌, refl, arith, List, [], ◌∷◌, length, replicate, All, to_be_bytes,
  from_be_bytes-to_be_bytes, slice, ok, is_ok, true, some,
}
use otap_signup_validator.Common.Layout.{
  Field, write_fields, find_field, Fits, slice-layout, length-write_fields,
}
use otap_signup_validator.Common.Int.{to_bits, to_bits-lt, of_bits-to_bits}
use otap_signup_validator.Schema.Interface.{IsLawful}
use otap_signup_validator.Schema.Heartbeat.{
  Heartbeat, IsHeartbeat, encode_heartbeat, decode_heartbeat, heartbeat_payload_bytes,
  heartbeat_schema,
}

-- The layout of the payload, the last write first.
module _ (b : Heartbeat) where
  abbrev heartbeat_fields : List Field
  heartbeat_fields =
      record { start = 24; width = 8; content = b.reserved }
      ∷ record { start = 16; width = 8; content = to_be_bytes 8 b.heartbeat_seq }
      ∷ record { start = 8; width = 8; content = to_be_bytes 8 (to_bits 64 b.clock_offset_ns) }
      ∷ record { start = 0; width = 8; content = to_be_bytes 8 b.node_id }
      ∷ []

  encode_heartbeat-write_fields :
      encode_heartbeat b ≡ write_fields heartbeat_fields (replicate heartbeat_payload_bytes 0)
  unfolding encode_heartbeat
  encode_heartbeat-write_fields = refl

  pub length-encode_heartbeat : length (encode_heartbeat b) ≡ heartbeat_payload_bytes
  length-encode_heartbeat = rw (encode_heartbeat-write_fields, length-write_fields)

  heartbeat_fields-Fits : IsHeartbeat b → All (Fits heartbeat_payload_bytes) heartbeat_fields
  heartbeat_fields-Fits h = omega arith

  -- What a slice of the payload reads, by the layout.
  reads :
      (lo hi : ℕ) {content : List ℕ}
      → IsHeartbeat b
      → lo ≤ hi
      → find_field lo hi heartbeat_fields ≡ some content
      → slice lo hi (encode_heartbeat b) ≡ content
  reads lo hi h le e =
      rw encode_heartbeat-write_fields
        (slice-layout heartbeat_fields heartbeat_payload_bytes lo hi le (heartbeat_fields-Fits h) e)

decode_heartbeat-encode_heartbeat :
    (b : Heartbeat) → IsHeartbeat b → decode_heartbeat (encode_heartbeat b) ≡ ok b
unfolding decode_heartbeat
decode_heartbeat-encode_heartbeat b h = rw (
  length-encode_heartbeat b,
  reads b 0 8 h (omega arith) refl,
  reads b 8 16 h (omega arith) refl,
  reads b 16 24 h (omega arith) refl,
  reads b 24 32 h (omega arith) refl,
  from_be_bytes-to_be_bytes 8 b.node_id h.node_id,
  from_be_bytes-to_be_bytes 8 (to_bits 64 b.clock_offset_ns)
      (to_bits-lt b.clock_offset_ns h.clock_offset_ns),
  of_bits-to_bits b.clock_offset_ns h.clock_offset_ns,
  from_be_bytes-to_be_bytes 8 b.heartbeat_seq h.heartbeat_seq,
)

-- `Heartbeat` is a lawful schema: each value in range encodes to a payload of the fixed size that
-- decodes to it.
pub heartbeat_schema-IsLawful : IsLawful heartbeat_schema IsHeartbeat
heartbeat_schema-IsLawful = record {
  charge = omega arith;
  size = λ b h. length-encode_heartbeat b;
  round_trip = decode_heartbeat-encode_heartbeat;
}

pub decode_heartbeat_iff :
    (bytes : List ℕ)
    → (is_ok (decode_heartbeat bytes) ≡ true) ↔ (length bytes ≡ heartbeat_payload_bytes)
unfolding decode_heartbeat
decode_heartbeat_iff bytes = ground arith

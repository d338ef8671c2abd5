-- ===== src/Schema/MarketTick/Wire.antt =====
-- The wire form of `MarketTick`: its layout and the round trip.
use otap_signup_validator.Common.{
  ℕ, ◌≤◌, ◌≡◌, ◌↔◌, refl, arith, List, [], ◌∷◌, length, replicate, All, to_be_bytes,
  from_be_bytes-to_be_bytes, slice, ok, is_ok, true, some,
}
use otap_signup_validator.Common.Layout.{
  Field, write_fields, find_field, Fits, slice-layout, length-write_fields,
}
use otap_signup_validator.Schema.Interface.{IsLawful}
use otap_signup_validator.Schema.MarketTick.{
  MarketTick, IsTick, encode_tick, decode_tick, tick_payload_bytes, tick_schema,
}

-- The layout of the payload, the last write first.
module _ (t : MarketTick) where
  abbrev tick_fields : List Field
  tick_fields =
      record { start = 48; width = 16; content = t.reserved }
      ∷ record { start = 40; width = 8; content = to_be_bytes 8 t.timestamp_ns }
      ∷ record { start = 32; width = 8; content = to_be_bytes 8 t.volume }
      ∷ record { start = 24; width = 8; content = to_be_bytes 8 t.last_cents }
      ∷ record { start = 16; width = 8; content = to_be_bytes 8 t.ask_cents }
      ∷ record { start = 8; width = 8; content = to_be_bytes 8 t.bid_cents }
      ∷ record { start = 0; width = 8; content = t.symbol }
      ∷ []

  encode_tick-write_fields :
      encode_tick t ≡ write_fields tick_fields (replicate tick_payload_bytes 0)
  unfolding encode_tick
  encode_tick-write_fields = refl

  pub length-encode_tick : length (encode_tick t) ≡ tick_payload_bytes
  length-encode_tick = rw (encode_tick-write_fields, length-write_fields)

  tick_fields-Fits : IsTick t → All (Fits tick_payload_bytes) tick_fields
  tick_fields-Fits h = omega arith

  -- What a slice of the payload reads, by the layout.
  reads :
      (lo hi : ℕ) {content : List ℕ}
      → IsTick t
      → lo ≤ hi
      → find_field lo hi tick_fields ≡ some content
      → slice lo hi (encode_tick t) ≡ content
  reads lo hi h le e =
      rw encode_tick-write_fields
        (slice-layout tick_fields tick_payload_bytes lo hi le (tick_fields-Fits h) e)

decode_tick-encode_tick : (t : MarketTick) → IsTick t → decode_tick (encode_tick t) ≡ ok t
unfolding decode_tick
decode_tick-encode_tick t h = rw (
  length-encode_tick t,
  reads t 0 8 h (omega arith) refl,
  reads t 8 16 h (omega arith) refl,
  reads t 16 24 h (omega arith) refl,
  reads t 24 32 h (omega arith) refl,
  reads t 32 40 h (omega arith) refl,
  reads t 40 48 h (omega arith) refl,
  reads t 48 64 h (omega arith) refl,
  from_be_bytes-to_be_bytes 8 t.bid_cents h.bid_cents,
  from_be_bytes-to_be_bytes 8 t.ask_cents h.ask_cents,
  from_be_bytes-to_be_bytes 8 t.last_cents h.last_cents,
  from_be_bytes-to_be_bytes 8 t.volume h.volume,
  from_be_bytes-to_be_bytes 8 t.timestamp_ns h.timestamp_ns,
)

-- `MarketTick` is a lawful schema: each value in range encodes to a payload of the fixed size that
-- decodes to it.
pub tick_schema-IsLawful : IsLawful tick_schema IsTick
tick_schema-IsLawful = record {
  charge = omega arith;
  size = λ t h. length-encode_tick t;
  round_trip = decode_tick-encode_tick;
}

pub decode_tick_iff :
    (bytes : List ℕ) → (is_ok (decode_tick bytes) ≡ true) ↔ (length bytes ≡ tick_payload_bytes)
unfolding decode_tick
decode_tick_iff bytes = ground arith

-- ===== src/Schema/EquityOrder/Wire.antt =====
-- The wire form of `EquityTradeOrder`: its layout and the round trip.
use otap_signup_validator.Common.{
  ℕ, zero, suc, ◌≤◌, ◌≡◌, ◌↔◌, refl, arith, List, [], ◌∷◌, length, replicate, All, to_be_bytes,
  from_be_bytes-to_be_bytes, slice, get_or, ok, is_ok, true, some,
}
use otap_signup_validator.Common.Layout.{
  Field, write_fields, find_field, Fits, slice-layout, length-write_fields, set-eq-copy_from_slice,
  get_or-of_slice,
}
use otap_signup_validator.Schema.Interface.{IsLawful}
use otap_signup_validator.Schema.EquityOrder.{
  Side, buy, sell, side_byte, side_from_u8, EquityTradeOrder, IsOrder, encode_order, decode_order,
  order_payload_bytes, order_schema,
}

-- The layout of an order's payload, the last write first.
module _ (o : EquityTradeOrder) where
  abbrev order_fields : List Field
  order_fields =
      record { start = 40; width = 16; content = o.firm_uuid }
      ∷ record { start = 32; width = 8; content = to_be_bytes 8 o.client_order_id }
      ∷ record { start = 24; width = 8; content = to_be_bytes 8 o.timestamp_ns }
      ∷ record { start = 16; width = 8; content = to_be_bytes 8 o.price_cents }
      ∷ record { start = 8; width = 4; content = to_be_bytes 4 o.quantity }
      ∷ record { start = 4; width = 1; content = side_byte o.side ∷ [] }
      ∷ record { start = 0; width = 4; content = o.symbol }
      ∷ []

  encode_order-write_fields :
      encode_order o ≡ write_fields order_fields (replicate order_payload_bytes 0)
  unfolding encode_order
  encode_order-write_fields = rw set-eq-copy_from_slice

  pub length-encode_order : length (encode_order o) ≡ order_payload_bytes
  length-encode_order = rw (encode_order-write_fields, length-write_fields)

  order_fields-Fits : IsOrder o → All (Fits order_payload_bytes) order_fields
  order_fields-Fits h = omega arith

  -- What a slice of the payload reads, by the layout.
  reads :
      (lo hi : ℕ) {content : List ℕ}
      → IsOrder o
      → lo ≤ hi
      → find_field lo hi order_fields ≡ some content
      → slice lo hi (encode_order o) ≡ content
  reads lo hi h le e =
      rw encode_order-write_fields
        (slice-layout order_fields order_payload_bytes lo hi le (order_fields-Fits h) e)

side_from_u8-side_byte : (s : Side) → side_from_u8 (side_byte s) ≡ ok s
unfolding side_from_u8 side_byte
side_from_u8-side_byte buy = refl
side_from_u8-side_byte sell = refl

decode_order-encode_order :
    (o : EquityTradeOrder) → IsOrder o → decode_order (encode_order o) ≡ ok o
unfolding decode_order
decode_order-encode_order o h = rw (
  length-encode_order o,
  get_or-of_slice (encode_order o) 4 0 (reads o 4 5 h (omega arith) refl),
  side_from_u8-side_byte o.side,
  reads o 0 4 h (omega arith) refl,
  reads o 8 12 h (omega arith) refl,
  reads o 16 24 h (omega arith) refl,
  reads o 24 32 h (omega arith) refl,
  reads o 32 40 h (omega arith) refl,
  reads o 40 56 h (omega arith) refl,
  from_be_bytes-to_be_bytes 4 o.quantity h.quantity,
  from_be_bytes-to_be_bytes 8 o.price_cents h.price_cents,
  from_be_bytes-to_be_bytes 8 o.timestamp_ns h.timestamp_ns,
  from_be_bytes-to_be_bytes 8 o.client_order_id h.client_order_id,
)

-- `EquityTradeOrder` is a lawful schema: each order in range encodes to 256 bytes that decode to it.
pub order_schema-IsLawful : IsLawful order_schema IsOrder
order_schema-IsLawful = record {
  charge = omega arith;
  size = λ o h. length-encode_order o;
  round_trip = decode_order-encode_order;
}

side_from_u8_iff : (b : ℕ) → (is_ok (side_from_u8 b) ≡ true) ↔ (b ≤ 1)
unfolding side_from_u8
side_from_u8_iff zero = (λ _. omega arith, λ _. refl)
side_from_u8_iff (suc zero) = (λ _. omega arith, λ _. refl)
side_from_u8_iff (suc (suc b)) = (λ e. cc, λ h. absurd (omega arith))

-- `EquityTradeOrder::decode` accepts exactly the 256-byte buffers whose byte 4 is 0 or 1.
pub decode_order_iff :
    (bytes : List ℕ)
    → (is_ok (decode_order bytes) ≡ true)
      ↔ (length bytes ≡ order_payload_bytes) × (get_or bytes 4 0 ≤ 1)
unfolding decode_order
decode_order_iff bytes = ground (arith, side_from_u8_iff (get_or bytes 4 0))

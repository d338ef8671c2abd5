-- ===== src/Schema/EquityOrder.antt =====
-- crates/otap-schema/src/equity_order.rs. A price is the bit pattern of its `f64`, which is what
-- `to_be_bytes` and `from_be_bytes` move.
pub mod Wire
use otap_signup_validator.Common.{
  ℕ, zero, suc, ◌+◌, ◌^◌, ◌<◌, ◌≡◌, refl, arith, List, [], ◌∷◌, length, get_or, set, replicate, All,
  IsByte, take, IsArray, to_be_bytes, to_be_bytes-IsArray, from_be_bytes, from_be_bytes-to_be_bytes,
  slice, copy_from_slice, length-copy_from_slice, length-set, not, ok, err, ◌>>=◌, ◌==◌,
  if◌then◌else◌, some,
}
use otap_signup_validator.Common.Int.{ℤ, pos}
use otap_signup_validator.Common.Layout.{
  Field, write_fields, Fits, slice-write_fields, length-write_fields, set-eq-copy_from_slice,
  get_or-of_slice,
}
use otap_signup_validator.Core.Error.{ProtocolResult, schema_mismatch, wire_format}
use otap_signup_validator.Core.Dimensions.{OamMode}
use otap_signup_validator.Schema.Interface.{Schema, IsLawful}

-- `Side`
pub data Side : Type 0 where
  buy sell : Side

-- `self.side as u8`
unfoldable pub side_byte : Side → ℕ
side_byte buy = 0
side_byte sell = 1

-- `Side::from_u8`
unfoldable pub side_from_u8 : ℕ → ProtocolResult Side
side_from_u8 zero = ok buy
side_from_u8 (suc zero) = ok sell
side_from_u8 _ = err (wire_format "invalid side byte")

-- `EquityTradeOrder`
pub record EquityTradeOrder : Type 0 where
  pub symbol : List ℕ
  pub side : Side
  pub quantity : ℕ
  pub price_cents : ℕ
  pub timestamp_ns : ℕ
  pub client_order_id : ℕ
  pub firm_uuid : List ℕ

-- The fields are in the range of their types.
pub record IsOrder (o : EquityTradeOrder) : Type 0 where
  pub symbol : IsArray 4 o.symbol
  pub quantity : o.quantity < 2 ^ 32
  pub price_cents : o.price_cents < 2 ^ 64
  pub timestamp_ns : o.timestamp_ns < 2 ^ 64
  pub client_order_id : o.client_order_id < 2 ^ 64
  pub firm_uuid : IsArray 16 o.firm_uuid

-- The loop of `EquityTradeOrder::new` over the first bytes of the symbol.
unfoldable pub pad_symbol : List ℕ → ℕ → List ℕ → List ℕ
pad_symbol [] i sym = sym
pad_symbol (b ∷ bs) i sym = pad_symbol bs (i + 1) (set sym i b)

-- `EquityTradeOrder::new`; `symbol` is the text's bytes.
unfoldable pub new_order : List ℕ → Side → ℕ → ℕ → ℕ → ℕ → List ℕ → EquityTradeOrder
unfolding pad_symbol
new_order symbol side quantity price_cents timestamp_ns client_order_id firm_uuid = record {
  symbol = pad_symbol (take 4 symbol) 0 (replicate 4 0);
  side = side;
  quantity = quantity;
  price_cents = price_cents;
  timestamp_ns = timestamp_ns;
  client_order_id = client_order_id;
  firm_uuid = firm_uuid;
}

-- `symbol_str`: the bytes before the first zero.
unfoldable pub symbol_bytes : List ℕ → List ℕ
symbol_bytes [] = []
symbol_bytes (b ∷ bs) = if b == 0 then [] else b ∷ symbol_bytes bs

abbrev pub order_oam_mode : OamMode
order_oam_mode = record { charge = pos 1 }

abbrev pub order_payload_bytes : ℕ
order_payload_bytes = 256

-- `EquityTradeOrder::encode`
unfoldable pub encode_order : EquityTradeOrder → List ℕ
unfolding side_byte
encode_order o =
    let zeros = replicate order_payload_bytes 0 in
    let with_symbol = copy_from_slice 0 o.symbol zeros in
    let with_side = set with_symbol 4 (side_byte o.side) in
    let with_quantity = copy_from_slice 8 (to_be_bytes 4 o.quantity) with_side in
    let with_price = copy_from_slice 16 (to_be_bytes 8 o.price_cents) with_quantity in
    let with_time = copy_from_slice 24 (to_be_bytes 8 o.timestamp_ns) with_price in
    let with_id = copy_from_slice 32 (to_be_bytes 8 o.client_order_id) with_time in
    copy_from_slice 40 o.firm_uuid with_id

-- `EquityTradeOrder::decode`
unfoldable pub decode_order : List ℕ → ProtocolResult EquityTradeOrder
unfolding side_from_u8
decode_order bytes =
    if not (length bytes == order_payload_bytes)
    then err (schema_mismatch order_oam_mode.charge order_payload_bytes (length bytes))
    else (side_from_u8 (get_or bytes 4 0) >>= λ side. ok (record {
      symbol = slice 0 4 bytes;
      side = side;
      quantity = from_be_bytes (slice 8 12 bytes);
      price_cents = from_be_bytes (slice 16 24 bytes);
      timestamp_ns = from_be_bytes (slice 24 32 bytes);
      client_order_id = from_be_bytes (slice 32 40 bytes);
      firm_uuid = slice 40 56 bytes;
    }))

abbrev pub order_schema : Schema EquityTradeOrder
order_schema = record {
  oam_mode = order_oam_mode;
  payload_bytes = order_payload_bytes;
  encode = encode_order;
  decode = decode_order;
}

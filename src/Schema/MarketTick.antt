-- ===== src/Schema/MarketTick.antt =====
-- crates/otap-schema/src/market_tick.rs. A price is the bit pattern of its `f64`.
pub mod Wire
use otap_signup_validator.Common.{
  ℕ, ◌^◌, ◌<◌, List, length, replicate, IsArray, to_be_bytes, from_be_bytes, slice, copy_from_slice,
  not, ok, err, ◌==◌, if◌then◌else◌,
}
use otap_signup_validator.Common.Int.{pos}
use otap_signup_validator.Core.Error.{ProtocolResult, schema_mismatch}
use otap_signup_validator.Core.Dimensions.{OamMode}
use otap_signup_validator.Schema.Interface.{Schema}

-- `MarketTick`
pub record MarketTick : Type 0 where
  pub symbol : List ℕ
  pub bid_cents : ℕ
  pub ask_cents : ℕ
  pub last_cents : ℕ
  pub volume : ℕ
  pub timestamp_ns : ℕ
  pub reserved : List ℕ

-- The fields are in the range of their types.
pub record IsTick (t : MarketTick) : Type 0 where
  pub symbol : IsArray 8 t.symbol
  pub bid_cents : t.bid_cents < 2 ^ 64
  pub ask_cents : t.ask_cents < 2 ^ 64
  pub last_cents : t.last_cents < 2 ^ 64
  pub volume : t.volume < 2 ^ 64
  pub timestamp_ns : t.timestamp_ns < 2 ^ 64
  pub reserved : IsArray 16 t.reserved

abbrev pub tick_oam_mode : OamMode
tick_oam_mode = record { charge = pos 3 }

abbrev pub tick_payload_bytes : ℕ
tick_payload_bytes = 64

-- `MarketTick::encode`
unfoldable pub encode_tick : MarketTick → List ℕ
encode_tick t =
    let zeros = replicate tick_payload_bytes 0 in
    let with_symbol = copy_from_slice 0 t.symbol zeros in
    let with_bid = copy_from_slice 8 (to_be_bytes 8 t.bid_cents) with_symbol in
    let with_ask = copy_from_slice 16 (to_be_bytes 8 t.ask_cents) with_bid in
    let with_last = copy_from_slice 24 (to_be_bytes 8 t.last_cents) with_ask in
    let with_volume = copy_from_slice 32 (to_be_bytes 8 t.volume) with_last in
    let with_time = copy_from_slice 40 (to_be_bytes 8 t.timestamp_ns) with_volume in
    copy_from_slice 48 t.reserved with_time

-- `MarketTick::decode`
unfoldable pub decode_tick : List ℕ → ProtocolResult MarketTick
decode_tick bytes =
    if not (length bytes == tick_payload_bytes)
    then err (schema_mismatch tick_oam_mode.charge tick_payload_bytes (length bytes))
    else ok (record {
      symbol = slice 0 8 bytes;
      bid_cents = from_be_bytes (slice 8 16 bytes);
      ask_cents = from_be_bytes (slice 16 24 bytes);
      last_cents = from_be_bytes (slice 24 32 bytes);
      volume = from_be_bytes (slice 32 40 bytes);
      timestamp_ns = from_be_bytes (slice 40 48 bytes);
      reserved = slice 48 64 bytes;
    })

abbrev pub tick_schema : Schema MarketTick
tick_schema = record {
  oam_mode = tick_oam_mode;
  payload_bytes = tick_payload_bytes;
  encode = encode_tick;
  decode = decode_tick;
}

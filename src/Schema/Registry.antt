-- ===== src/Schema/Registry.antt =====
-- crates/otap-schema/src/lib.rs: `SchemaId`, `AnySchemaValue` and the dispatch by OAM mode.
pub mod Dispatch
use otap_signup_validator.Common.{
  ℕ, List, Option, none, some, Result, ok, err, ◌>>=◌, ok_or, if◌then◌else◌,
}
use otap_signup_validator.Common.Int.{pos, eq_ℤ}
use otap_signup_validator.Core.Error.{ProtocolResult, unknown_oam_mode}
use otap_signup_validator.Core.Dimensions.{OamMode}
use otap_signup_validator.Schema.EquityOrder.{EquityTradeOrder, order_payload_bytes, decode_order}
use otap_signup_validator.Schema.MarketTick.{MarketTick, tick_payload_bytes, decode_tick}
use otap_signup_validator.Schema.Heartbeat.{Heartbeat, heartbeat_payload_bytes, decode_heartbeat}

-- `SchemaId`
pub data SchemaId : Type 0 where
  order_id tick_id heartbeat_id : SchemaId

-- `SchemaId::resolve`
unfoldable pub resolve : OamMode → Option SchemaId
resolve oam =
    if eq_ℤ oam.charge (pos 1)
    then some order_id
    else if eq_ℤ oam.charge (pos 3)
    then some tick_id
    else if eq_ℤ oam.charge (pos 4)
    then some heartbeat_id
    else none

-- `SchemaId::payload_bytes`
unfoldable pub payload_bytes : SchemaId → ℕ
payload_bytes order_id = order_payload_bytes
payload_bytes tick_id = tick_payload_bytes
payload_bytes heartbeat_id = heartbeat_payload_bytes

-- `AnySchemaValue`
pub data AnySchemaValue : Type 0 where
  order : EquityTradeOrder → AnySchemaValue
  tick : MarketTick → AnySchemaValue
  heartbeat : Heartbeat → AnySchemaValue

-- The decoder of one schema, as `AnySchemaValue::decode` dispatches.
unfoldable pub decode_as : SchemaId → List ℕ → ProtocolResult AnySchemaValue
decode_as order_id payload = decode_order payload >>= λ o. ok (order o)
decode_as tick_id payload = decode_tick payload >>= λ t. ok (tick t)
decode_as heartbeat_id payload = decode_heartbeat payload >>= λ h. ok (heartbeat h)

-- `AnySchemaValue::decode`
unfoldable pub decode_any : OamMode → List ℕ → ProtocolResult AnySchemaValue
decode_any oam payload =
    ok_or (resolve oam) (unknown_oam_mode oam.charge) >>= λ id. decode_as id payload

-- `AnySchemaValue::as_equity_order`
unfoldable pub as_equity_order : AnySchemaValue → Option EquityTradeOrder
as_equity_order (order o) = some o
as_equity_order _ = none

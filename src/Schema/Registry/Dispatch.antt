-- ===== src/Schema/Registry/Dispatch.antt =====
-- The dispatch by OAM mode: round trip of every schema, and what is refused.
use otap_signup_validator.Common.{
  ℕ, ◌≤◌, ◌≡◌, inl, inr, ◌↔◌, refl, List, length, get_or, some, Option-cases, true, ok, is_ok,
  is_ok-map,
}
use otap_signup_validator.Core.Dimensions.{OamMode}
use otap_signup_validator.Schema.EquityOrder.{IsOrder, encode_order, decode_order, order_oam_mode}
use otap_signup_validator.Schema.EquityOrder.Wire.{order_schema-IsLawful, decode_order_iff}
use otap_signup_validator.Schema.MarketTick.{IsTick, encode_tick, decode_tick, tick_oam_mode}
use otap_signup_validator.Schema.MarketTick.Wire.{tick_schema-IsLawful, decode_tick_iff}
use otap_signup_validator.Schema.Heartbeat.{
  IsHeartbeat, encode_heartbeat, decode_heartbeat, heartbeat_oam_mode,
}
use otap_signup_validator.Schema.Heartbeat.Wire.{heartbeat_schema-IsLawful, decode_heartbeat_iff}
use otap_signup_validator.Schema.Registry.{
  SchemaId, order_id, tick_id, heartbeat_id, resolve, payload_bytes, AnySchemaValue, order, tick,
  heartbeat, decode_as, decode_any,
}

-- The mode, the schema and the payload of a value, as a sender gives them.
abbrev pub mode_of : AnySchemaValue → OamMode
mode_of (order o) = order_oam_mode
mode_of (tick t) = tick_oam_mode
mode_of (heartbeat h) = heartbeat_oam_mode

abbrev pub id_of : AnySchemaValue → SchemaId
id_of (order o) = order_id
id_of (tick t) = tick_id
id_of (heartbeat h) = heartbeat_id

abbrev pub encode_any : AnySchemaValue → List ℕ
encode_any (order o) = encode_order o
encode_any (tick t) = encode_tick t
encode_any (heartbeat h) = encode_heartbeat h

abbrev pub IsValue : AnySchemaValue → Type 0
IsValue (order o) = IsOrder o
IsValue (tick t) = IsTick t
IsValue (heartbeat h) = IsHeartbeat h

-- A value in range of any registered schema, encoded and dispatched by its mode, comes back; its
-- payload has the size that the registry gives for its schema.
pub decode_any-encode_any :
    (v : AnySchemaValue)
    → IsValue v
    → (decode_any (mode_of v) (encode_any v) ≡ ok v)
      × (resolve (mode_of v) ≡ some (id_of v))
      × (length (encode_any v) ≡ payload_bytes (id_of v))
unfolding decode_any decode_as resolve payload_bytes
decode_any-encode_any (order o) h =
    (rw (order_schema-IsLawful.round_trip o h), refl, order_schema-IsLawful.size o h)
decode_any-encode_any (tick t) h =
    (rw (tick_schema-IsLawful.round_trip t h), refl, tick_schema-IsLawful.size t h)
decode_any-encode_any (heartbeat b) h =
    (rw (heartbeat_schema-IsLawful.round_trip b h), refl, heartbeat_schema-IsLawful.size b h)

-- What a payload must satisfy beyond its length.
abbrev pub Accepts : SchemaId → List ℕ → Type 0
Accepts order_id bytes = get_or bytes 4 0 ≤ 1
Accepts tick_id bytes = Unit
Accepts heartbeat_id bytes = Unit

decode_as_iff :
    (id : SchemaId) (bytes : List ℕ)
    → (is_ok (decode_as id bytes) ≡ true) ↔ (length bytes ≡ payload_bytes id) × Accepts id bytes
unfolding decode_as payload_bytes
decode_as_iff order_id bytes = rw (is_ok-map (decode_order bytes) order) (decode_order_iff bytes)
decode_as_iff tick_id bytes =
    rw (is_ok-map (decode_tick bytes) tick)
      ((λ e. ((decode_tick_iff bytes).0 e, tt)), (λ w. (decode_tick_iff bytes).1 w.0))
decode_as_iff heartbeat_id bytes =
    rw (is_ok-map (decode_heartbeat bytes) heartbeat)
      ((λ e. ((decode_heartbeat_iff bytes).0 e, tt)), (λ w. (decode_heartbeat_iff bytes).1 w.0))

-- The dispatch accepts exactly the payloads whose mode is registered, whose length is the schema's
-- and, for an order, whose side byte is 0 or 1.
pub decode_any_iff :
    (oam : OamMode) (bytes : List ℕ)
    → (is_ok (decode_any oam bytes) ≡ true) ↔ (
        (id : SchemaId) × (resolve oam ≡ some id)
        × (length bytes ≡ payload_bytes id)
        × Accepts id bytes)
unfolding decode_any
decode_any_iff oam bytes = (
  λ h. elim (Option-cases (resolve oam)) [
    | inl e ↦ cc (rw e at h)
    | inr (id, e) ↦
        let (size, accepted) = (decode_as_iff id bytes).0 (rw e at h) in (id, e, size, accepted)
  ],
  λ w. rw w.1 ((decode_as_iff w.0 bytes).1 (w.2, w.3)),
)

-- ===== src/Obg/Endpoint.antt =====
-- crates/otap-obg/src/modq_backend.rs: one interface over the software and the hardware transport.
pub mod Numbering
use otap_signup_validator.Common.{
  ℕ, ◌+◌, ◌%◌, ◌^◌, List, Option, none, some, Bool, true, false, Result, ok, ◌>>=◌, map_err,
}
use otap_signup_validator.Schema.EquityOrder.{order_payload_bytes}
use otap_signup_validator.Schema.Registry.{SchemaId, order_id}
use otap_signup_validator.Modq.Bar.{BarMapping, RingError, payload_too_large, timeout, panicked}
use otap_signup_validator.Modq.Queue.{
  Os, ModqConfig, ModqError, ModqQueue, open_queue, queue_submit, queue_poll, queue_capacity,
}

-- `EndpointCompletion`
pub record EndpointCompletion : Type 0 where
  pub sequence_id : ℕ
  pub schema_id : SchemaId

-- `EndpointError`; the MODQ error stands for its text, and `ring_panicked` for a panic of the ring.
pub data EndpointError (E : Type 0) : Type 0 where
  endpoint_payload_too_large : ℕ → ℕ → EndpointError E
  ring_timeout : EndpointError E
  soft_driver : List ℕ → EndpointError E
  modq : ModqError E → EndpointError E
  ring_panicked : EndpointError E

-- `EndpointConfig` and `OtapEndpoint`
pub data EndpointConfig : Type 0 where
  software_config : EndpointConfig
  hardware_config : ModqConfig → EndpointConfig

pub data OtapEndpoint : Type 0 where
  software : ℕ → OtapEndpoint
  hardware : ModqQueue → OtapEndpoint

abbrev pub endpoint_error : {E : Type 0} → RingError → EndpointError E
endpoint_error (payload_too_large got limit) = endpoint_payload_too_large got limit
endpoint_error (timeout slot) = ring_timeout
endpoint_error panicked = ring_panicked

module _ (os : Os) where
  -- `OtapEndpoint::open`
  unfoldable pub open_endpoint : EndpointConfig → Result OtapEndpoint (EndpointError os.IoError)
  unfolding open_queue
  open_endpoint software_config = ok (software 0)
  open_endpoint (hardware_config config) =
      map_err modq (open_queue os config) >>= λ queue. ok (hardware queue)

  -- `OtapEndpoint::submit`
  unfoldable pub endpoint_submit :
      (BarMapping → BarMapping)
      → OtapEndpoint
      → SchemaId
      → List ℕ
      → Result (ℕ × OtapEndpoint) (EndpointError os.IoError)
  unfolding queue_submit
  endpoint_submit device (software next_sid) _ payload =
      ok (next_sid, software ((next_sid + 1) % 2 ^ 32))
  endpoint_submit device (hardware queue) _ payload =
      map_err endpoint_error (queue_submit device queue payload) >>= λ r. ok (r.0, hardware r.1)

  -- `OtapEndpoint::poll_completion`
  unfoldable pub poll_completion :
      OtapEndpoint → Result (Option EndpointCompletion × OtapEndpoint) (EndpointError os.IoError)
  unfolding queue_poll
  poll_completion (software next_sid) = ok (none, software next_sid)
  poll_completion (hardware queue) = map_err endpoint_error (queue_poll queue) >>= λ r. ok (
    elim r.0 [
      | none ↦ none
      | some c ↦ some (record { sequence_id = c.sequence_id; schema_id = order_id })
    ],
    hardware r.1,
  )

-- `OtapEndpoint::max_payload`
unfoldable pub max_payload : OtapEndpoint → ℕ
unfolding queue_capacity
max_payload (software next_sid) = order_payload_bytes
max_payload (hardware queue) = queue_capacity queue

-- `OtapEndpoint::is_hardware`
abbrev pub is_hardware : OtapEndpoint → Bool
is_hardware (software next_sid) = false
is_hardware (hardware queue) = true

-- ===== src/Obg/Driver.antt =====
-- crates/otap-obg/src/lib.rs: `SoftDriver`.
use otap_signup_validator.Common.{
  ℕ, List, [], ◌∷◌, bit_and, not, ok, err, ◌>>=◌, map_err, ok_or, ◌==◌, if◌then◌else◌,
}
use otap_signup_validator.Common.Int.{pos}
use otap_signup_validator.Core.Float.{Float32}
use otap_signup_validator.Core.Dimensions.{Wavelength, OamMode}
use otap_signup_validator.Core.Transient.{Transient}
use otap_signup_validator.Crypto.Secret.{SharedSecret}
use otap_signup_validator.Crypto.Hmac.{Hmac}
use otap_signup_validator.Crypto.Verify.{AuthMode, trajectory_match, topological}
use otap_signup_validator.Csr.Registers.{RegisterFile, ctrl_auth_topological}
use otap_signup_validator.Csr.View
use otap_signup_validator.Schema.EquityOrder.{order_oam_mode}
use otap_signup_validator.Schema.MarketTick.{tick_oam_mode}
use otap_signup_validator.Schema.Heartbeat.{heartbeat_oam_mode}
use otap_signup_validator.Schema.Registry.{SchemaId, order_id, tick_id, heartbeat_id}
use otap_signup_validator.Codec.Encoder.{Encoder, new_encoder, encode_raw}
use otap_signup_validator.Codec.Decoder.{Decoder, DecodeReport, decode}
use otap_signup_validator.Obg.Queues.{
  ObgResult, csr, not_armed, WorkRequest, SendQueue, Completion, CompletionQueue, push,
}

-- `DriverConfig`
pub record DriverConfig (F : Type 0) : Type 0 where
  pub wavelength : Wavelength
  pub auth_mode : AuthMode F

-- `SoftDriver`
pub record SoftDriver (F : Type 0) : Type 0 where
  pub encoder : Encoder
  pub decoder : Decoder F
  pub config : DriverConfig F

-- `oam_for_schema`
unfoldable pub oam_for_schema : SchemaId → OamMode
oam_for_schema order_id = order_oam_mode
oam_for_schema tick_id = tick_oam_mode
oam_for_schema heartbeat_id = heartbeat_oam_mode

-- The completion of a report; the cookie is zero on the receive path.
abbrev pub completion_of : DecodeReport → Completion
completion_of report = record {
  value = report.value;
  auth_ok = report.auth_ok;
  sequence = report.micro.sequence;
  cookie = 0;
}

module _ {F : Type 0} ⦃fl : Float32 F⦄ where
  open fl use {maximum, literal}

  -- The mode that `from_csr` reads off the control and the tolerance register.
  unfoldable pub auth_mode_of : ℕ → F → AuthMode F
  auth_mode_of ctrl tolerance =
      if not (bit_and ctrl ctrl_auth_topological == 0)
      then topological
      else trajectory_match (maximum tolerance (literal (pos 1) 4))

  -- The driver that `from_csr` builds.
  abbrev pub driver_with : SharedSecret → Wavelength → AuthMode F → SoftDriver F
  driver_with secret wavelength auth_mode = record {
    encoder = new_encoder secret wavelength;
    decoder = record { secret = secret; expected_wavelength = wavelength; auth_mode = auth_mode };
    config = record { wavelength = wavelength; auth_mode = auth_mode };
  }

  -- `SoftDriver::from_csr`
  unfoldable pub from_csr : RegisterFile → ObgResult (SoftDriver F)
  from_csr rf = do
    wavelength ← map_err csr (View.wavelength rf)
    found ← map_err csr (View.shared_secret rf)
    secret ← ok_or found (not_armed "shared secret not loaded")
    ctrl ← map_err csr (View.ctrl rf)
    tolerance ← map_err csr (View.auth_tolerance {F = F} rf)
    ok (driver_with secret wavelength (auth_mode_of ctrl tolerance))

  -- `SoftDriver::refresh_from_csr`
  unfoldable pub refresh_from_csr : SoftDriver F → RegisterFile → ObgResult (SoftDriver F)
  refresh_from_csr driver rf = from_csr rf

module _ {F : Type 0} ⦃fl : Float32 F⦄ ⦃hm : Hmac⦄ where
  -- The loop of `transmit_pending`, which pops the requests in order until none is left.
  unfoldable pub drain : Encoder → List (WorkRequest × List ℕ) → List (Transient F × ℕ) × Encoder
  unfolding oam_for_schema
  drain enc [] = ([], enc)
  drain enc ((wr, payload) ∷ rest) =
      let (transient, enc') = encode_raw {F = F} enc (oam_for_schema wr.schema_id) payload in
      let (out, last) = drain enc' rest in ((transient, wr.cookie) ∷ out, last)

  -- `SoftDriver::transmit_pending`: what is sent, the driver and the emptied queue.
  unfoldable pub transmit_pending :
      SoftDriver F → SendQueue → List (Transient F × ℕ) × SoftDriver F × SendQueue
  unfolding drain
  transmit_pending driver send =
      let (out, enc) = drain driver.encoder send.requests in
      (out, record driver { encoder = enc }, record send { requests = [] })

  -- `SoftDriver::receive`: what does not decode is dropped.
  unfoldable pub receive : SoftDriver F → Transient F → CompletionQueue → CompletionQueue
  receive driver t cq = elim (decode driver.decoder t) [
    | ok report ↦ push cq (completion_of report)
    | err _ ↦ cq
  ]

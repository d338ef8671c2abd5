-- ===== src/Codec/Decoder.antt =====
-- crates/otap-codec/src/lib.rs: `Decoder`.
use otap_signup_validator.Common.{Bool, not, ok, err, is_ok, ◌>>=◌, ◌==◌, if◌then◌else◌}
use otap_signup_validator.Core.Error.{ProtocolResult, wire_format}
use otap_signup_validator.Core.Float.{Float32}
use otap_signup_validator.Core.Dimensions.{Wavelength, OamMode, MicroStructure}
use otap_signup_validator.Core.Transient.{Transient}
use otap_signup_validator.Crypto.Secret.{SharedSecret}
use otap_signup_validator.Crypto.Hmac.{Hmac}
use otap_signup_validator.Crypto.Trajectory.{TrajectoryContext}
use otap_signup_validator.Crypto.Verify.{AuthMode, verify_trajectory}
use otap_signup_validator.Schema.Registry.{AnySchemaValue, decode_any}

-- `DecoderConfig`; a `Decoder` is its configuration.
pub record Decoder (F : Type 0) : Type 0 where
  pub secret : SharedSecret
  pub expected_wavelength : Wavelength
  pub auth_mode : AuthMode F

-- `DecodeReport`
pub record DecodeReport : Type 0 where
  pub value : AnySchemaValue
  pub wavelength : Wavelength
  pub oam : OamMode
  pub micro : MicroStructure
  pub auth_ok : Bool

-- The context that `decode` verifies a Transient against.
abbrev pub context_of : {F : Type 0} → Transient F → TrajectoryContext
context_of t = record {
  wavelength = t.wavelength;
  oam = t.oam;
  sequence = t.micro.sequence;
  payload = t.payload;
}

module _ {F : Type 0} ⦃fl : Float32 F⦄ ⦃hm : Hmac⦄ where
  -- `Decoder::decode`: a failed verification is reported, not an error.
  unfoldable pub decode : Decoder F → Transient F → ProtocolResult DecodeReport
  decode dec t =
      if not (t.wavelength.channel == dec.expected_wavelength.channel)
      then err (wire_format "wavelength does not match decoder binding")
      else let verified =
          verify_trajectory dec.secret (context_of t) t.polarization dec.auth_mode in
        decode_any t.oam t.payload >>= λ value. ok (record {
          value = value;
          wavelength = t.wavelength;
          oam = t.oam;
          micro = t.micro;
          auth_ok = is_ok verified;
        })

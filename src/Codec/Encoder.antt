-- ===== src/Codec/Encoder.antt =====
-- crates/otap-codec/src/lib.rs: `Encoder`.
use otap_signup_validator.Common.{ℕ, ◌+◌, ◌%◌, ◌^◌, List}
use otap_signup_validator.Core.Float.{Float32}
use otap_signup_validator.Core.Dimensions.{Wavelength, OamMode, new_micro}
use otap_signup_validator.Core.Transient.{Transient, new_transient}
use otap_signup_validator.Crypto.Secret.{SharedSecret}
use otap_signup_validator.Crypto.Hmac.{Hmac}
use otap_signup_validator.Crypto.Trajectory.{TrajectoryContext, derive_trajectory}
use otap_signup_validator.Schema.Interface.{Schema}

-- `Encoder`
pub record Encoder : Type 0 where
  pub secret : SharedSecret
  pub next_sequence : ℕ
  pub wavelength : Wavelength

-- `Encoder::new`
unfoldable pub new_encoder : SharedSecret → Wavelength → Encoder
new_encoder secret wavelength = record {
  secret = secret;
  next_sequence = 0;
  wavelength = wavelength;
}

module _ {F : Type 0} ⦃fl : Float32 F⦄ ⦃hm : Hmac⦄ where
  -- `Encoder::encode_raw`; the sequence number wraps at 16 bits.
  unfoldable pub encode_raw : Encoder → OamMode → List ℕ → Transient F × Encoder
  encode_raw enc oam payload =
      let sequence = enc.next_sequence in
      let ctx : TrajectoryContext = record {
        wavelength = enc.wavelength;
        oam = oam;
        sequence = sequence;
        payload = payload;
      } in
      (
        new_transient enc.wavelength (derive_trajectory enc.secret ctx) oam (new_micro sequence)
            payload,
        record enc { next_sequence = (sequence + 1) % 2 ^ 16 },
      )

  -- `Encoder::encode`; the assertion on the length is of debug builds.
  unfoldable pub encode : {S : Type 0} → Schema S → Encoder → S → Transient F × Encoder
  encode schema enc value = encode_raw enc schema.oam_mode (schema.encode value)

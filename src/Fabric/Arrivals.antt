-- ===== src/Fabric/Arrivals.antt =====
-- What arrives through a channel of crates/otap-sim without bit errors.
use otap_signup_validator.Common.{ℕ, ◌+◌, ◌%◌, ◌^◌, ◌≡◌, List, [], ◌∷◌, false, ok, ==-self}
use otap_signup_validator.Core.Float.{Float32}
use otap_signup_validator.Core.Dimensions.{new_micro}
use otap_signup_validator.Core.Transient.{Transient, new_transient}
use otap_signup_validator.Crypto.Hmac.{Hmac}
use otap_signup_validator.Schema.Registry.{AnySchemaValue}
use otap_signup_validator.Schema.Registry.Dispatch.{mode_of, IsValue, decode_any-encode_any}
use otap_signup_validator.Codec.Encoder.{Encoder, encode_raw}
use otap_signup_validator.Codec.Decoder.{Decoder, decode}
use otap_signup_validator.Codec.RoundTrip.{sent, verdict}
use otap_signup_validator.Obg.Queues.{Completion, CompletionQueue, push}
use otap_signup_validator.Obg.Driver.{SoftDriver, receive}
use otap_signup_validator.Obg.Loopback.{receive-eq-push}
use otap_signup_validator.Sim.{PoincareRotation, Rate, Channel, rotated, transmit}

module _ {F D : Type 0} ⦃fl : Float32 F⦄ ⦃rate : Rate F D⦄ where
  -- The channel flips no bits.
  abbrev pub Clean : Channel F D → Type 0
  Clean channel = rate.less rate.zero_rate channel.bit_error_rate ≡ false

  pub transmit-Clean :
      (channel : Channel F D) (t : Transient F)
      → Clean channel
      → transmit channel t ≡ (rotated channel.pmd_rotation t, channel)
  unfolding transmit
  transmit-Clean channel t clean = rw (clean, transmit)

module _ {F : Type 0} ⦃fl : Float32 F⦄ ⦃hm : Hmac⦄ where
  -- What arrives for the values from an encoder through a rotation: the verdict is the decoder's on
  -- the rotated trajectory.
  abbrev pub arrivals_through :
      PoincareRotation F → Decoder F → Encoder → List (AnySchemaValue × ℕ) → List Completion
  arrivals_through m dec enc [] = []
  arrivals_through m dec enc (x ∷ xs) =
      record {
        value = x.0;
        auth_ok = verdict dec (rotated m (sent enc x.0));
        sequence = enc.next_sequence;
        cookie = 0;
      }
      ∷ arrivals_through m dec (record enc { next_sequence = (enc.next_sequence + 1) % 2 ^ 16 }) xs

  pub decode-rotated :
      (m : PoincareRotation F) (enc : Encoder) (dec : Decoder F) (v : AnySchemaValue)
      → IsValue v
      → dec.expected_wavelength ≡ enc.wavelength
      → decode dec (rotated m (sent enc v))
        ≡ ok (record {
          value = v;
          wavelength = enc.wavelength;
          oam = mode_of v;
          micro = new_micro enc.next_sequence;
          auth_ok = verdict dec (rotated m (sent enc v));
        })
  unfolding encode_raw new_transient decode
  decode-rotated m enc dec v h bound = rw (bound, ==-self, (decode_any-encode_any v h).0)

  pub receive-rotated :
      (m : PoincareRotation F) (enc : Encoder) (driver : SoftDriver F) (v : AnySchemaValue)
      (cq : CompletionQueue)
      → IsValue v
      → driver.decoder.expected_wavelength ≡ enc.wavelength
      → receive driver (rotated m (sent enc v)) cq
        ≡ push cq (record {
          value = v;
          auth_ok = verdict driver.decoder (rotated m (sent enc v));
          sequence = enc.next_sequence;
          cookie = 0;
        })
  unfolding new_micro
  receive-rotated m enc driver v cq h bound =
      receive-eq-push F driver (rotated m (sent enc v)) cq
        (decode-rotated m enc driver.decoder v h bound)

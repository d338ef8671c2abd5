-- ===== src/Codec/RoundTrip.antt =====
-- What the decoder makes of a Transient, and of one that the encoder has just made.
use otap_signup_validator.Common.{
  ◌≡◌, ◌↔◌, refl, arith, length, some, Bool, true, ok, is_ok, is_ok-map, ◌>>=◌, >>=-eq-ok, ap, sym,
  ◌∙◌, ==-self,
}
use otap_signup_validator.Core.Float.{Float32}
use otap_signup_validator.Core.Dimensions.{new_micro}
use otap_signup_validator.Core.Transient.{Transient, new_transient}
use otap_signup_validator.Crypto.Hmac.{Hmac}
use otap_signup_validator.Crypto.Trajectory.{derive_trajectory}
use otap_signup_validator.Crypto.Verify.{topological, verify_trajectory}
use otap_signup_validator.Crypto.Match.{Passes, verify_trajectory_iff}
use otap_signup_validator.Schema.Registry.{
  AnySchemaValue, SchemaId, decode_any, resolve, payload_bytes,
}
use otap_signup_validator.Schema.Registry.Dispatch.{
  mode_of, encode_any, IsValue, Accepts, decode_any-encode_any, decode_any_iff,
}
use otap_signup_validator.Codec.Encoder.{Encoder, encode_raw}
use otap_signup_validator.Codec.Decoder.{Decoder, DecodeReport, decode, context_of}

module _ {F : Type 0} ⦃fl : Float32 F⦄ ⦃hm : Hmac⦄ where
  -- The Transient of a value, as a sender makes it.
  abbrev pub sent : Encoder → AnySchemaValue → Transient F
  sent enc v = (encode_raw {F = F} enc (mode_of v) (encode_any v)).0

  -- The verdict on a Transient.
  abbrev pub verdict : Decoder F → Transient F → Bool
  verdict dec t = is_ok (verify_trajectory dec.secret (context_of t) t.polarization dec.auth_mode)

  -- A decoder bound to the encoder's wavelength decodes the Transient of any value in range to that
  -- value, its mode, the encoder's sequence number with the nominal guard, and the verdict.
  pub decode-encode_raw :
      (enc : Encoder) (dec : Decoder F) (v : AnySchemaValue)
      → IsValue v
      → dec.expected_wavelength ≡ enc.wavelength
      → decode dec (sent enc v)
        ≡ ok (record {
          value = v;
          wavelength = enc.wavelength;
          oam = mode_of v;
          micro = new_micro enc.next_sequence;
          auth_ok = verdict dec (sent enc v);
        })
  unfolding encode_raw new_transient decode
  decode-encode_raw enc dec v h bound = rw (bound, ==-self, (decode_any-encode_any v h).0)

  pub verdict-sent :
      (enc : Encoder) (dec : Decoder F) (v : AnySchemaValue)
      → dec.secret ≡ enc.secret
      → dec.auth_mode ≡ topological
      → verdict dec (sent enc v) ≡ true
  unfolding encode_raw new_transient new_micro
  verdict-sent enc dec v shared mode =
      rw (shared, mode) ((verify_trajectory_iff enc.secret _ _ topological).1 refl)

  -- A decoder with the encoder's wavelength and secret, in the topological mode, decodes the
  -- Transient of any value in range to that value and reports it as authentic.
  pub decode-encode_raw_authentic :
      (enc : Encoder) (dec : Decoder F) (v : AnySchemaValue)
      → IsValue v
      → dec.expected_wavelength ≡ enc.wavelength
      → dec.secret ≡ enc.secret
      → dec.auth_mode ≡ topological
      → (r : DecodeReport) × (decode dec (sent enc v) ≡ ok r) × (r.value ≡ v) × (r.auth_ok ≡ true)
  decode-encode_raw_authentic enc dec v h bound shared mode =
      (_, decode-encode_raw enc dec v h bound, refl, verdict-sent enc dec v shared mode)

  -- The report of a value that `decode_any` returns.
  abbrev pub report : Decoder F → Transient F → AnySchemaValue → DecodeReport
  report dec t v = record {
    value = v;
    wavelength = t.wavelength;
    oam = t.oam;
    micro = t.micro;
    auth_ok = verdict dec t;
  }

  pub decode_bound :
      (dec : Decoder F) (t : Transient F)
      → t.wavelength.channel ≡ dec.expected_wavelength.channel
      → decode dec t ≡ (decode_any t.oam t.payload >>= λ v. ok (report dec t v))
  unfolding decode
  decode_bound dec t h = rw (h, ==-self)

  decode-eq-ok :
      (dec : Decoder F) (t : Transient F)
      → is_ok (decode dec t) ≡ true
      → t.wavelength.channel ≡ dec.expected_wavelength.channel
  unfolding decode
  decode-eq-ok dec t e = ground arith

  -- A Transient is decoded exactly when its wavelength is the decoder's, its mode is registered, and
  -- its payload has the length of the schema and, for an order, a side byte of 0 or 1. The verdict on
  -- its trajectory plays no part.
  pub decode_iff :
      (dec : Decoder F) (t : Transient F)
      → (is_ok (decode dec t) ≡ true)
        ↔ (t.wavelength.channel ≡ dec.expected_wavelength.channel)
          × ((id : SchemaId) × (resolve t.oam ≡ some id)
              × (length t.payload ≡ payload_bytes id)
              × Accepts id t.payload)
  decode_iff dec t = (
    λ h.
        let bound = decode-eq-ok dec t h in
        let value = is_ok-map (decode_any t.oam t.payload) (report dec t) in
        (
          bound,
          (decode_any_iff t.oam t.payload).0 (sym value ∙ rw (decode_bound dec t bound) at h),
        ),
    λ w.
        rw (decode_bound dec t w.0, is_ok-map (decode_any t.oam t.payload) (report dec t))
          ((decode_any_iff t.oam t.payload).1 w.1),
  )

  -- A report says authentic exactly when the observed trajectory passes against the one derived from
  -- the decoder's secret and the Transient's own wavelength, mode, sequence number and payload; its
  -- other fields are those of the Transient.
  pub decode-auth_ok_iff :
      (dec : Decoder F) (t : Transient F) (r : DecodeReport)
      → decode dec t ≡ ok r
      → ((r.auth_ok ≡ true)
          ↔ Passes (derive_trajectory dec.secret (context_of t)) t.polarization dec.auth_mode)
        × (r.wavelength ≡ t.wavelength)
        × (r.oam ≡ t.oam)
        × (r.micro ≡ t.micro)
        × (decode_any t.oam t.payload ≡ ok r.value)
  decode-auth_ok_iff dec t r e =
      let bound = decode-eq-ok dec t (ap is_ok e) in
      let (v, known, same) =
        >>=-eq-ok (decode_any t.oam t.payload) (λ v. ok (report dec t v))
          (sym (decode_bound dec t bound) ∙ e) in
      let whole : report dec t v ≡ r = cc in
      rw (← whole) (
        verify_trajectory_iff dec.secret (context_of t) t.polarization dec.auth_mode,
        refl,
        refl,
        refl,
        known,
      )

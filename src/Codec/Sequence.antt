-- ===== src/Codec/Sequence.antt =====
-- The sequence numbers that one encoder gives out.
use otap_signup_validator.Common.{
  ℕ, zero, suc, ◌+◌, ◌%◌, ◌^◌, ◌<◌, ◌≡◌, refl, ap, ap₂, ◌∙◌, arith, List, [], ◌∷◌, map, length,
}
use otap_signup_validator.Core.Float.{Float32}
use otap_signup_validator.Core.Dimensions.{OamMode, new_micro}
use otap_signup_validator.Core.Transient.{Transient, new_transient}
use otap_signup_validator.Crypto.Hmac.{Hmac}
use otap_signup_validator.Codec.Encoder.{Encoder, encode_raw}

-- `n` sequence numbers from `s` on, wrapping at 16 bits.
abbrev pub wrapping_from : ℕ → ℕ → List ℕ
wrapping_from zero s = []
wrapping_from (suc n) s = s ∷ wrapping_from n ((s + 1) % 2 ^ 16)

module _ (F : Type 0) ⦃fl : Float32 F⦄ ⦃hm : Hmac⦄ where
  -- A run of calls of `encode_raw`.
  abbrev pub encode_run : Encoder → List (OamMode × List ℕ) → List (Transient F) × Encoder
  encode_run enc [] = ([], enc)
  encode_run enc ((oam, payload) ∷ rest) =
      let (t, enc') = encode_raw {F = F} enc oam payload in
      let (ts, last) = encode_run enc' rest in (t ∷ ts, last)

  encode_raw_sequence :
      (enc : Encoder) (oam : OamMode) (payload : List ℕ)
      → ((encode_raw {F = F} enc oam payload).0.micro.sequence ≡ enc.next_sequence)
        × ((encode_raw {F = F} enc oam payload).1.next_sequence ≡ (enc.next_sequence + 1) % 2 ^ 16)
  unfolding encode_raw new_transient new_micro
  encode_raw_sequence enc oam payload = (refl, refl)

  -- However many Transients one encoder with a 16-bit next number makes, their sequence numbers
  -- count up by one from that number and wrap at 2^16, and it goes on from where they end.
  pub encode_run_sequences :
      (requests : List (OamMode × List ℕ)) (enc : Encoder)
      → enc.next_sequence < 2 ^ 16
      → (map (λ t. t.micro.sequence) (encode_run enc requests).0
          ≡ wrapping_from (length requests) enc.next_sequence)
        × ((encode_run enc requests).1.next_sequence
            ≡ (enc.next_sequence + length requests) % 2 ^ 16)
  encode_run_sequences [] enc h = (refl, omega arith)
  encode_run_sequences ((oam, payload) ∷ rest) enc h =
      let enc' = (encode_raw {F = F} enc oam payload).1 in
      let (first, next) = encode_raw_sequence enc oam payload in
      let (others, last) = encode_run_sequences rest enc' (omega arith) in
      (ap₂ ◌∷◌ first (others ∙ ap (wrapping_from (length rest)) next), omega arith)

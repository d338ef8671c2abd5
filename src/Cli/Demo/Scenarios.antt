-- ===== src/Cli/Demo/Scenarios.antt =====
-- What the scenarios of crates/otap-cli/src/main.rs report.
use otap_signup_validator.Common.{
  ℕ, ◌+◌, ◌*◌, ◌^◌, ◌≡◌, ◌∙◌, refl, arith, ap, List, false, ok, ◌>>=◌, copy_from_slice, slice,
}
use otap_signup_validator.Core.Float.{Float32}
use otap_signup_validator.Core.Dimensions.{new_wavelength, new_micro}
use otap_signup_validator.Core.Transient.{Transient, new_transient}
use otap_signup_validator.Crypto.Hmac.{Hmac}
use otap_signup_validator.Crypto.Label.{test_from_label}
use otap_signup_validator.Crypto.Trajectory.{ascii}
use otap_signup_validator.Schema.EquityOrder.{
  EquityTradeOrder, IsOrder, order_oam_mode, encode_order, decode_order, side_from_u8, side_byte,
}
use otap_signup_validator.Schema.Registry.{order, decode_any, decode_as, resolve, as_equity_order}
use otap_signup_validator.Codec.Encoder.{Encoder, new_encoder, encode, encode_raw}
use otap_signup_validator.Codec.Decoder.{Decoder, DecodeReport, decode}
use otap_signup_validator.Codec.RoundTrip.{sent, verdict, report, decode_bound}
use otap_signup_validator.Sim.{PoincareRotation, Trig, Rate, identity, rotated, perfect, with_pmd}
use otap_signup_validator.Fabric.Arrivals.{Clean, transmit-Clean, decode-rotated}
use otap_signup_validator.Cli.Link.{channel_40}
use otap_signup_validator.Cli.Demo.{
  original_order, demo_pmd, tamper, decoder_match, decoder_topo, demo_main,
}

original_order-IsOrder : IsOrder original_order
unfolding original_order
original_order-IsOrder = record {
  symbol = record { size = refl; bytes = omega arith };
  quantity = omega arith;
  price_cents = omega arith;
  timestamp_ns = omega arith;
  client_order_id = omega arith;
  firm_uuid = record { size = refl; bytes = omega arith };
}

-- The order whose payload the adversary has changed: byte 8 is the highest of the quantity.
abbrev pub tampered_order : EquityTradeOrder
tampered_order = record original_order { quantity = 1000 + 0xff * 2 ^ 24 }

decode-tampered :
    {F : Type 0} (t : Transient F)
    → t.payload ≡ encode_order original_order
    → decode_any order_oam_mode (tamper t).payload ≡ ok (order tampered_order)
unfolding decode_any resolve decode_as decode_order side_from_u8 encode_order side_byte
    original_order copy_from_slice slice
decode-tampered t h = rw h refl

module _ (F D : Type 0) ⦃fl : Float32 F⦄ ⦃trig : Trig F⦄ ⦃rate : Rate F D⦄ ⦃hm : Hmac⦄
    (sha256 : List ℕ → List ℕ) where
  -- The encoder of the scenarios, before it sends the Transient with a sequence number.
  abbrev pub encoder_at : ℕ → Encoder
  encoder_at sequence = record {
    secret = test_from_label sha256 (ascii "alice-bob");
    next_sequence = sequence;
    wavelength = channel_40;
  }

  -- What is received with a sequence number through a rotation.
  abbrev pub received : PoincareRotation F → ℕ → Transient F
  received m sequence = rotated m (sent (encoder_at sequence) (order original_order))

  abbrev pub match_decoder : Decoder F
  match_decoder = decoder_match F (test_from_label sha256 (ascii "alice-bob")) channel_40

  abbrev pub topo_decoder : Decoder F
  topo_decoder = decoder_topo F (test_from_label sha256 (ascii "alice-bob")) channel_40

  -- The report of a decoder on a value with a sequence number.
  abbrev pub reported : Decoder F → Transient F → ℕ → EquityTradeOrder → DecodeReport
  reported dec t sequence o = record {
    value = order o;
    wavelength = channel_40;
    oam = order_oam_mode;
    micro = new_micro sequence;
    auth_ok = verdict dec t;
  }

  decode-received :
      (m : PoincareRotation F) (sequence : ℕ) (dec : Decoder F)
      → dec.expected_wavelength ≡ channel_40
      → decode dec (received m sequence)
        ≡ ok (reported dec (received m sequence) sequence original_order)
  decode-received m sequence dec bound =
      decode-rotated m (encoder_at sequence) dec (order original_order) original_order-IsOrder bound

  decode-tamper-received :
      (m : PoincareRotation F) (sequence : ℕ)
      → decode match_decoder (tamper (received m sequence))
        ≡ ok (reported match_decoder (tamper (received m sequence)) sequence tampered_order)
  unfolding encode_raw new_transient
  decode-tamper-received m sequence =
      decode_bound match_decoder (tamper (received m sequence)) refl
      ∙ ap (λ r. r >>= λ v. ok (report match_decoder (tamper (received m sequence)) v))
          (decode-tampered (received m sequence) refl)

  -- Where the zero error rate is not below itself, `main` runs through its scenarios without a panic.
  -- Over the clean and over the rotated channel all three reports are of the original order, with the
  -- sequence numbers 0 and 1. The payload whose byte 8 is changed decodes too, under the sequence
  -- number 2: to the order with 0xff in the highest byte of its quantity, so 4278191080 in place of
  -- 1000. The rotation and the change are left to the verdicts of the decoders.
  pub demo_main_lem :
      {E : Type 0}
      → rate.less rate.zero_rate rate.zero_rate ≡ false
      → demo_main F D sha256 {E = E}
        ≡ ok (record {
          clean = reported match_decoder (received identity 0) 0 original_order;
          clean_order = original_order;
          rotated_match = reported match_decoder (received (demo_pmd F) 1) 1 original_order;
          rotated_topo = reported topo_decoder (received (demo_pmd F) 1) 1 original_order;
          tampered = reported match_decoder (tamper (received identity 2)) 2 tampered_order;
          tampered_order = tampered_order;
        })
  unfolding demo_main new_wavelength encode encode_raw new_encoder perfect with_pmd as_equity_order
  demo_main_lem never =
      let clean : Clean (perfect {F = F} {D = D}) = never in
      let rotating : Clean (with_pmd {F = F} {D = D} (demo_pmd F)) = never in
      rw
        (
          transmit-Clean (perfect {F = F} {D = D}) (sent (encoder_at 0) (order original_order))
              clean,
          transmit-Clean (with_pmd {F = F} {D = D} (demo_pmd F))
              (sent (encoder_at 1) (order original_order)) rotating,
          transmit-Clean (perfect {F = F} {D = D}) (sent (encoder_at 2) (order original_order))
              clean,
          decode-received identity 0 match_decoder refl,
          decode-received (demo_pmd F) 1 match_decoder refl,
          decode-received (demo_pmd F) 1 topo_decoder refl,
          decode-tamper-received identity 2,
        )
        refl

-- ===== src/Cli/Demo.antt =====
-- crates/otap-cli/src/main.rs: the three scenarios. An error that is unwrapped stands for the panic.
pub mod Scenarios
use Prim.Native.Nat.{bit_xor}
use otap_signup_validator.Common.{
  ℕ, List, replicate, get_or, set, Result, ok, err, ◌>>=◌, map_err, ok_or,
}
use otap_signup_validator.Common.Int.{pos}
use otap_signup_validator.Core.Float.{Float32}
use otap_signup_validator.Core.Dimensions.{Wavelength, new_wavelength}
use otap_signup_validator.Core.Transient.{Transient}
use otap_signup_validator.Crypto.Hmac.{Hmac}
use otap_signup_validator.Crypto.Label.{test_from_label}
use otap_signup_validator.Crypto.Secret.{SharedSecret}
use otap_signup_validator.Crypto.Trajectory.{ascii}
use otap_signup_validator.Crypto.Verify.{trajectory_match, topological}
use otap_signup_validator.Schema.EquityOrder.{EquityTradeOrder, buy, new_order, order_schema}
use otap_signup_validator.Schema.Registry.{as_equity_order}
use otap_signup_validator.Codec.Encoder.{Encoder, new_encoder, encode}
use otap_signup_validator.Codec.Decoder.{Decoder, DecodeReport, decode}
use otap_signup_validator.Sim.{
  PoincareRotation, Trig, Rate, about_s1, about_s2, about_s3, rotation_then, perfect, with_pmd,
  transmit,
}
use otap_signup_validator.Cli.{CliError, core, not_an_order}

-- The order that is transmitted; an `f64` is its bits.
unfoldable pub original_order : EquityTradeOrder
unfolding new_order
original_order =
    new_order (ascii "AAPL") buy 1000 0x40d3_6280_0000_0000 1_716_649_200_000_000_001
      0xDEAD_BEEF_CAFE_F00D (replicate 16 0x11)

-- The rotation of the second scenario.
unfoldable pub demo_pmd : (F : Type 0) ⦃fl : Float32 F⦄ ⦃trig : Trig F⦄ → PoincareRotation F
unfolding about_s1 about_s2 about_s3 rotation_then
demo_pmd F ⦃fl⦄ =
    rotation_then
      (rotation_then (about_s1 (fl.literal (pos 7) 1)) (about_s2 (fl.literal (pos 13) 1)))
      (about_s3 (fl.neg (fl.literal (pos 4) 1)))

-- The payload with its byte 8 changed by the adversary.
abbrev pub tamper : {F : Type 0} → Transient F → Transient F
tamper t = record t { payload = set t.payload 8 (bit_xor (get_or t.payload 8 0) 0xff) }

-- The two decoders.
abbrev pub decoder_match : (F : Type 0) ⦃fl : Float32 F⦄ → SharedSecret → Wavelength → Decoder F
decoder_match F ⦃fl⦄ secret wavelength = record {
  secret = secret;
  expected_wavelength = wavelength;
  auth_mode = trajectory_match (fl.literal (pos 1) 2);
}

abbrev pub decoder_topo : (F : Type 0) ⦃fl : Float32 F⦄ → SharedSecret → Wavelength → Decoder F
decoder_topo F secret wavelength = record {
  secret = secret;
  expected_wavelength = wavelength;
  auth_mode = topological;
}

-- The reports that `main` prints.
pub record DemoReports : Type 0 where
  pub clean : DecodeReport
  pub clean_order : EquityTradeOrder
  pub rotated_match : DecodeReport
  pub rotated_topo : DecodeReport
  pub tampered : DecodeReport
  pub tampered_order : EquityTradeOrder

-- `main`
unfoldable pub demo_main :
    (F D : Type 0) ⦃fl : Float32 F⦄ ⦃trig : Trig F⦄ ⦃rate : Rate F D⦄ ⦃hm : Hmac⦄
    → (List ℕ → List ℕ)
    → {E : Type 0} → Result DemoReports (CliError E)
unfolding original_order demo_pmd encode
demo_main F D sha256 =
    let secret = test_from_label sha256 (ascii "alice-bob") in
    map_err core (new_wavelength 40) >>= λ wavelength.
    let (sent₁, encoder₁) =
      encode {F = F} order_schema (new_encoder secret wavelength) original_order in
    let (received₁, _) = transmit (perfect {F = F} {D = D}) sent₁ in
    let (sent₂, encoder₂) = encode {F = F} order_schema encoder₁ original_order in
    let (received₂, _) = transmit (with_pmd {F = F} {D = D} (demo_pmd F)) sent₂ in
    let (sent₃, _) = encode {F = F} order_schema encoder₂ original_order in
    let (received₃, _) = transmit (perfect {F = F} {D = D}) sent₃ in
    (do
      clean ← map_err core (decode (decoder_match F secret wavelength) received₁)
      clean_order ← ok_or (as_equity_order clean.value) not_an_order
      rotated_match ← map_err core (decode (decoder_match F secret wavelength) received₂)
      rotated_topo ← map_err core (decode (decoder_topo F secret wavelength) received₂)
      tampered ← map_err core (decode (decoder_match F secret wavelength) (tamper received₃))
      tampered_order ← ok_or (as_equity_order tampered.value) not_an_order
      ok (record {
        clean = clean;
        clean_order = clean_order;
        rotated_match = rotated_match;
        rotated_topo = rotated_topo;
        tampered = tampered;
        tampered_order = tampered_order;
      }))

-- ===== src/Crypto/Preimage.antt =====
-- The bytes under the first HMAC determine the context.
use otap_signup_validator.Common.{◌%◌, ◌^◌, ◌<◌, ◌≡◌, refl, arith, length, append-injective, strip}
use otap_signup_validator.Common.Int.{to_bits}
use otap_signup_validator.Core.Dimensions.{OamMode, IsCharge, IsChannel}
use otap_signup_validator.Crypto.Trajectory.{TrajectoryContext, context_bytes, ascii}

-- The fields in the range of their types, and a payload whose length the 32-bit cast keeps.
pub record IsContext (ctx : TrajectoryContext) : Type 0 where
  pub wavelength : IsChannel ctx.wavelength
  pub oam : IsCharge ctx.oam
  pub sequence : ctx.sequence < 2 ^ 16
  pub payload : length ctx.payload < 2 ^ 32

to_bits-injective :
    (m o : OamMode)
    → IsCharge m
    → IsCharge o
    → to_bits 8 m.charge ≡ to_bits 8 o.charge
    → m.charge ≡ o.charge
to_bits-injective m o hm ho e = ground arith

to_bits-lt : (m : OamMode) → IsCharge m → to_bits 8 m.charge < 256
to_bits-lt m h = ground arith

-- Two contexts in range with the same bytes under the first HMAC are the same in their wavelength,
-- mode, sequence number and payload.
pub context_bytes-injective :
    (c d : TrajectoryContext)
    → IsContext c
    → IsContext d
    → context_bytes c ≡ context_bytes d
    → c ≡ d
unfolding context_bytes
context_bytes-injective c d hc hd e =
    let (_, e₁) =
      append-injective (ascii "OTAP-D3-TRAJECTORY-v1") _ (ascii "OTAP-D3-TRAJECTORY-v1") _ refl e in
    let (channel, e₂) =
      strip 2 c.wavelength.channel d.wavelength.channel _ _ (omega (arith, hc.wavelength))
        (omega (arith, hd.wavelength)) e₁ in
    let (charge, e₃) =
      strip 1 (to_bits 8 c.oam.charge) (to_bits 8 d.oam.charge) _ _ (to_bits-lt c.oam hc.oam)
        (to_bits-lt d.oam hd.oam) e₂ in
    let (sequence, e₄) = strip 2 c.sequence d.sequence _ _ hc.sequence hd.sequence e₃ in
    let (_, payload) =
      strip 4 (length c.payload % 2 ^ 32) (length d.payload % 2 ^ 32) _ _ (omega arith)
        (omega arith) e₄ in
    let same_charge = to_bits-injective c.oam d.oam hc.oam hd.oam charge in
    λ i. record {
      wavelength = record { channel = channel i };
      oam = record { charge = same_charge i };
      sequence = sequence i;
      payload = payload i;
    }

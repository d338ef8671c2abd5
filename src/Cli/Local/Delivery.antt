-- ===== src/Cli/Local/Delivery.antt =====
-- What crates/otap-cli/src/bin/otap-local.rs delivers.
use otap_signup_validator.Common.{
  ℕ, ◌^◌, ◌<◌, ◌≡◌, refl, arith, ap, List, [], ◌∷◌, map, true, false, IsArray, IsByte,
  All-replicate, ok,
}
use otap_signup_validator.Core.Float.{Float32}
use otap_signup_validator.Core.Dimensions.{new_wavelength}
use otap_signup_validator.Crypto.Hmac.{Hmac}
use otap_signup_validator.Csr.Registers.{new_register_file}
use otap_signup_validator.Csr.Access.{new_register_file-IsRegisterFile}
use otap_signup_validator.Schema.Registry.{AnySchemaValue, order, tick, heartbeat}
use otap_signup_validator.Codec.Encoder.{new_encoder}
use otap_signup_validator.Obg.Queues.{new_send_queue}
use otap_signup_validator.Obg.Armed.{from_csr-arm_register_file}
use otap_signup_validator.Obg.Loopback.{request_of, AllValues, queued, post-request_of}
use otap_signup_validator.Sim.{Trig, Rate, random_pmd}
use otap_signup_validator.Fabric.Arrivals.{arrivals_through}
use otap_signup_validator.Cli.Link.{channel_40, armed_driver, delivered-pump_a_to_b}
use otap_signup_validator.Cli.Local.{
  session_key, local_order, local_tick, local_heartbeat, post_local, local_main,
}

-- What Alice posts.
abbrev pub local_values : List (AnySchemaValue × ℕ)
local_values =
    (order local_order, 0xAA01)
    ∷ (tick local_tick, 0xAA02)
    ∷ (heartbeat local_heartbeat, 0xAA03)
    ∷ []

local_values-AllValues : AllValues local_values
unfolding local_order
local_values-AllValues = (
  record {
    symbol = record { size = refl; bytes = omega arith };
    quantity = omega arith;
    price_cents = omega arith;
    timestamp_ns = omega arith;
    client_order_id = omega arith;
    firm_uuid = record { size = refl; bytes = omega arith };
  },
  (
    record {
      symbol = record { size = refl; bytes = omega arith };
      bid_cents = omega arith;
      ask_cents = omega arith;
      last_cents = omega arith;
      volume = omega arith;
      timestamp_ns = omega arith;
      reserved = record { size = refl; bytes = omega arith };
    },
    (
      record {
        node_id = omega arith;
        clock_offset_ns = ground arith;
        heartbeat_seq = omega arith;
        reserved = record { size = refl; bytes = omega arith };
      },
      tt,
    ),
  ),
)

post_local_lem :
    {E : Type 0}
    → post_local {E = E} channel_40 (new_send_queue 64)
      ≡ ok (queued (map (request_of channel_40) local_values) 64)
unfolding post_local new_send_queue
post_local_lem =
    let h = local_values-AllValues.0 in
    let k = local_values-AllValues.1.0 in
    let l = local_values-AllValues.1.1.0 in
    rw
      (
        post-request_of [] 64 channel_40 (order local_order, 0xAA01) h (omega arith),
        post-request_of (request_of channel_40 (order local_order, 0xAA01) ∷ []) 64 channel_40
            (tick local_tick, 0xAA02) k (omega arith),
        post-request_of
            (request_of channel_40 (order local_order, 0xAA01)
              ∷ request_of channel_40 (tick local_tick, 0xAA02)
              ∷ [])
            64 channel_40 (heartbeat local_heartbeat, 0xAA03) l (omega arith),
      )
      refl

session_key-IsArray : IsArray 32 session_key
session_key-IsArray = record { size = refl; bytes = All-replicate IsByte 32 0x9b (omega arith) }

-- Where the cast to `u32` gives numbers below 2^32 and the zero error rate is not below itself, `main`
-- succeeds, and delivers three Transients through Alice's random rotation: Bob's completions are the
-- order, the tick and the heartbeat that Alice posted, in this order, with the sequence numbers 0, 1
-- and 2. Whether a completion counts as authentic is the verdict of Bob's decoder, armed with the
-- session key in the topological mode, on the rotated trajectory.
pub local_main_lem :
    (F D : Type 0) ⦃fl : Float32 F⦄ ⦃trig : Trig F⦄ ⦃rate : Rate F D⦄ ⦃hm : Hmac⦄ {E : Type 0}
    → ((x : F) → fl.to_u32 x < 2 ^ 32)
    → rate.less rate.zero_rate rate.zero_rate ≡ false
    → let bob = armed_driver F session_key in
      local_main F D {E = E}
      ≡ ok (
        3,
        arrivals_through
            (random_pmd {F = F} {D = D} 0x1234_DEAD).pmd_rotation
            bob.decoder
            bob.encoder
            local_values,
      )
unfolding local_main new_wavelength new_encoder
local_main_lem F D {E = E} cast never =
    let driver = armed_driver F session_key in
    let (rf, armed, valid, opened) =
      from_csr-arm_register_file F new_register_file channel_40 session_key true cast
        new_register_file-IsRegisterFile (omega arith) session_key-IsArray in
    rw (armed, opened, post_local_lem {E = E})
      (ap ok (
        delivered-pump_a_to_b F D local_values 0x1234_DEAD 0xCAFE_BABE channel_40 driver driver
          never refl local_values-AllValues (omega arith)))

-- ===== src/Cli/Local.antt =====
-- crates/otap-cli/src/bin/otap-local.rs
pub mod Delivery
use otap_signup_validator.Common.{
  ℕ, List, [], ◌∷◌, ◌++◌, length, replicate, true, Result, ok, ◌>>=◌, map_err,
}
use otap_signup_validator.Common.Int.{pos, negsuc}
use otap_signup_validator.Core.Float.{Float32}
use otap_signup_validator.Core.Dimensions.{Wavelength, new_wavelength}
use otap_signup_validator.Crypto.Hmac.{Hmac}
use otap_signup_validator.Crypto.Trajectory.{ascii}
use otap_signup_validator.Csr.Registers.{new_register_file}
use otap_signup_validator.Schema.EquityOrder.{EquityTradeOrder, buy, new_order, encode_order}
use otap_signup_validator.Schema.MarketTick.{MarketTick, encode_tick}
use otap_signup_validator.Schema.Heartbeat.{Heartbeat, encode_heartbeat}
use otap_signup_validator.Schema.Registry.{order_id, tick_id, heartbeat_id}
use otap_signup_validator.Obg.Queues.{
  SendQueue, new_request, new_send_queue, post, Completion, new_completion_queue,
}
use otap_signup_validator.Obg.Driver.{from_csr}
use otap_signup_validator.Obg.Arm.{arm_register_file}
use otap_signup_validator.Sim.{Trig, Rate}
use otap_signup_validator.Fabric.{with_random_pmd, pump_a_to_b}
use otap_signup_validator.Cli.{CliError, core, obg, drain_completions}

-- The session key, `[0x9Bu8; 32]`
abbrev pub session_key : List ℕ
session_key = replicate 32 0x9b

-- The order, the tick and the heartbeat that Alice posts; an `f64` is its bits.
unfoldable pub local_order : EquityTradeOrder
unfolding new_order
local_order =
    new_order (ascii "AAPL") buy 1000 0x4068_7000_0000_0000 1_700_000_000_000 42
      (ascii "firm-uuid-16byte")

abbrev pub local_tick : MarketTick
local_tick = record {
  symbol = ascii "AAPL" ++ replicate 4 0;
  bid_cents = 0x4068_6fae_147a_e148;
  ask_cents = 0x4068_7051_eb85_1eb8;
  last_cents = 0x4068_7000_0000_0000;
  volume = 12_500;
  timestamp_ns = 1_700_000_000_500;
  reserved = replicate 16 0;
}

abbrev pub local_heartbeat : Heartbeat
local_heartbeat = record {
  node_id = 0xA11CE;
  clock_offset_ns = negsuc 239;
  heartbeat_seq = 7;
  reserved = replicate 8 0;
}

-- The posts of `main`.
unfoldable pub post_local : {E : Type 0} → Wavelength → SendQueue → Result SendQueue (CliError E)
unfolding local_order
post_local wavelength send = do
  send₁ ← map_err obg (
      post send (new_request order_id wavelength (length (encode_order local_order)) 0xAA01)
        (encode_order local_order))
  send₂ ← map_err obg (
      post send₁ (new_request tick_id wavelength (length (encode_tick local_tick)) 0xAA02)
        (encode_tick local_tick))
  map_err obg (
      post send₂
        (new_request heartbeat_id wavelength (length (encode_heartbeat local_heartbeat)) 0xAA03)
        (encode_heartbeat local_heartbeat))

-- `main`: how many are delivered, and the completions that it prints. The other two queues of the ends
-- are not used.
unfoldable pub local_main :
    (F D : Type 0) ⦃fl : Float32 F⦄ ⦃trig : Trig F⦄ ⦃rate : Rate F D⦄ ⦃hm : Hmac⦄ {E : Type 0}
    → Result (ℕ × List Completion) (CliError E)
unfolding post_local drain_completions with_random_pmd pump_a_to_b
local_main F D = do
  wavelength ← map_err core (new_wavelength 40)
  alice_rf ← map_err obg (arm_register_file F new_register_file wavelength session_key true)
  bob_rf ← map_err obg (arm_register_file F new_register_file wavelength session_key true)
  alice ← map_err obg (from_csr {F = F} alice_rf)
  bob ← map_err obg (from_csr {F = F} bob_rf)
  alice_send ← post_local wavelength (new_send_queue 64)
  let (delivered, fabric, alice_end, bob_end) =
      pump_a_to_b (with_random_pmd {F = F} {D = D} 0x1234_DEAD 0xCAFE_BABE)
        (record { driver = alice; send = alice_send; completions = new_completion_queue 0 })
        (record { driver = bob; send = new_send_queue 0; completions = new_completion_queue 64 })
  ok (delivered, drain_completions bob_end.completions)

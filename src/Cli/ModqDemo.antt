-- ===== src/Cli/ModqDemo.antt =====
-- crates/otap-cli/src/bin/otap-modq-loopback.rs
pub mod Numbering
use otap_signup_validator.Common.{ℕ, List, [], ◌∷◌, ◌++◌, replicate, Result, ok, ◌>>=◌, map_err}
use otap_signup_validator.Common.Int.{negsuc}
use otap_signup_validator.Crypto.Trajectory.{ascii}
use otap_signup_validator.Schema.EquityOrder.{EquityTradeOrder, buy, sell, encode_order}
use otap_signup_validator.Schema.MarketTick.{MarketTick, encode_tick}
use otap_signup_validator.Schema.Heartbeat.{Heartbeat, encode_heartbeat}
use otap_signup_validator.Modq.Bar.{BarMapping}
use otap_signup_validator.Modq.Queue.{
  Os, loopback, ModqConfig, ModqQueue, open_queue, queue_submit, submitted_count,
}
use otap_signup_validator.Modq.Programs.{ProgramError, not_opened, submit_failed, submit_messages}

abbrev pub demo_config : ModqConfig
demo_config = record {
  transport = loopback (ascii "/otap_modq_demo");
  ring_depth = 1024;
  slot_size = 512;
}

-- The messages; an `f64` is its bits.
abbrev pub demo_order : EquityTradeOrder
demo_order = record {
  symbol = ascii "AAPL";
  side = buy;
  quantity = 1000;
  price_cents = 0x40d3_6280_0000_0000;
  timestamp_ns = 1_700_000_000_000_000_000;
  client_order_id = 42;
  firm_uuid = replicate 16 0xab;
}

abbrev pub demo_tick : MarketTick
demo_tick = record {
  symbol = ascii "AAPL" ++ replicate 4 0;
  bid_cents = 0x40d3_6000_0000_0000;
  ask_cents = 0x40d3_6500_0000_0000;
  last_cents = 0x40d3_6280_0000_0000;
  volume = 1_000_000;
  timestamp_ns = 1_700_000_000_000_000_001;
  reserved = replicate 16 0;
}

abbrev pub demo_heartbeat : Heartbeat
demo_heartbeat = record {
  node_id = 7;
  clock_offset_ns = negsuc 41;
  heartbeat_seq = 999;
  reserved = replicate 8 0;
}

abbrev pub throughput_order : EquityTradeOrder
throughput_order = record {
  symbol = ascii "MSFT";
  side = sell;
  quantity = 500;
  price_cents = 0x40e4_c080_0000_0000;
  timestamp_ns = 0;
  client_order_id = 0;
  firm_uuid = replicate 16 0;
}

abbrev pub iterations : ℕ
iterations = 1_000_000

-- `main`: the numbers of the three messages, and the queue after the throughput test. `device n` is what
-- works on the region while the submission after `n` others waits.
unfoldable pub modq_demo_main :
    (os : Os)
    → (ℕ → BarMapping → BarMapping)
    → Result (List ℕ × ModqQueue) (ProgramError os.IoError)
modq_demo_main os device = do
  queue ← map_err not_opened (open_queue os demo_config)
  (order_sid, queue₁) ←
      map_err submit_failed
        (queue_submit (device (submitted_count queue)) queue (encode_order demo_order))
  (tick_sid, queue₂) ←
      map_err submit_failed
        (queue_submit (device (submitted_count queue₁)) queue₁ (encode_tick demo_tick))
  (heartbeat_sid, queue₃) ←
      map_err submit_failed
        (queue_submit (device (submitted_count queue₂)) queue₂ (encode_heartbeat demo_heartbeat))
  (_, last) ←
      map_err submit_failed
        (submit_messages device (λ i. encode_order throughput_order) 0 iterations queue₃)
  ok (order_sid ∷ tick_sid ∷ heartbeat_sid ∷ [], last)

-- ===== src/Cli/ModqDemo/Numbering.antt =====
-- The numbers that crates/otap-cli/src/bin/otap-modq-loopback.rs reports.
use otap_signup_validator.Common.{◌≡◌, ◌⊎◌, inl, inr, refl, arith, [], ◌∷◌, ok, err}
use otap_signup_validator.Schema.EquityOrder.{encode_order}
use otap_signup_validator.Schema.EquityOrder.Wire.{length-encode_order}
use otap_signup_validator.Schema.MarketTick.{encode_tick}
use otap_signup_validator.Schema.MarketTick.Wire.{length-encode_tick}
use otap_signup_validator.Schema.Heartbeat.{encode_heartbeat}
use otap_signup_validator.Schema.Heartbeat.Wire.{length-encode_heartbeat}
use otap_signup_validator.Modq.Queue.{Os, ModqError, ModqQueue, open_queue, submitted_count}
use otap_signup_validator.Modq.Queue.Opened.{MapsWhole}
use otap_signup_validator.Modq.Consumer.{consumer_stride}
use otap_signup_validator.Modq.Programs.{not_opened, lazy_consumer}
use otap_signup_validator.Modq.Programs.Accepted.{queue_submit-Lazily, submit_messages-Lazily}
use otap_signup_validator.Modq.Programs.Opened.{opened-Lazily}
use otap_signup_validator.Cli.ModqDemo.{
  demo_config, demo_order, demo_tick, demo_heartbeat, throughput_order, iterations, modq_demo_main,
}

-- `main` of otap-modq-loopback.rs, beside a consumer that frees a slot only where a submission waits for
-- it: if the queue opens, the encoded order, tick and heartbeat get the numbers 0, 1 and 2, and the
-- 1000000 orders of the throughput test are all accepted after them; otherwise it stops with the error
-- of opening.
pub modq_demo_main_lem :
    (os : Os)
    → MapsWhole os
    → let device = lazy_consumer (consumer_stride demo_config.slot_size) demo_config.ring_depth in
      ((e : ModqError os.IoError) × (open_queue os demo_config ≡ err e)
        × (modq_demo_main os device ≡ err (not_opened e)))
      ⊎ ((last : ModqQueue) × (modq_demo_main os device ≡ ok (0 ∷ 1 ∷ 2 ∷ [], last))
          × (submitted_count last ≡ 1_000_003))
unfolding modq_demo_main consumer_stride
modq_demo_main_lem os m = elim (opened-Lazily os m demo_config _ refl refl (omega arith)) [
  | inl (e, failed) ↦ inl (e, failed, rw failed refl)
  | inr (q, opens, fresh) ↦
      let (q₁, order_sent, h₁) =
        queue_submit-Lazily (encode_order demo_order) fresh
          (omega (arith, length-encode_order demo_order)) (omega arith) in
      let (q₂, tick_sent, h₂) =
        queue_submit-Lazily (encode_tick demo_tick) h₁ (omega (arith, length-encode_tick demo_tick))
          (omega arith) in
      let (q₃, heartbeat_sent, h₃) =
        queue_submit-Lazily (encode_heartbeat demo_heartbeat) h₂
          (omega (arith, length-encode_heartbeat demo_heartbeat)) (omega arith) in
      let (last, throughput, done) =
        submit_messages-Lazily (λ i. encode_order throughput_order) 0 iterations 3 q₃ h₃
          (λ j. omega (arith, length-encode_order throughput_order)) (omega arith) in
      let total = done.counted in
      inr (last, rw (opens, order_sent, tick_sent, heartbeat_sent, throughput) refl, total)
]

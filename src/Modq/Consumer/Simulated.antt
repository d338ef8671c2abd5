-- ===== src/Modq/Consumer/Simulated.antt =====
-- The consumer of crates/otap-modq/src/bin/modq_bench.rs and of
-- crates/otap-cli/src/bin/otap-modq-loopback.rs beside that of modq_loopback.rs.
use otap_signup_validator.Common.{ℕ, ◌%◌, ◌≡◌, arith, Option, Result-cases, inl, inr, ok}
use otap_signup_validator.Modq.Bar.{BarMapping, read32, write32}
use otap_signup_validator.Modq.Ring.{slot_base, slot_free}
use otap_signup_validator.Modq.Consumer.{Consumed, consume_round, simulated_round}

-- Where a round of the consumer that reads length and number goes well, the one that reads the status
-- only does the same to the region and to its head.
pub simulated_round-consume_round :
    (stride depth head : ℕ) (bar : BarMapping) {read : Option Consumed} {head' : ℕ}
    {bar' : BarMapping}
    → consume_round stride depth head bar ≡ ok (read, head', bar')
    → simulated_round stride depth head bar ≡ ok (head', bar')
unfolding consume_round simulated_round
simulated_round-consume_round stride depth head bar h =
    let base = slot_base stride (head % depth) in
    elim (Result-cases (read32 bar base)) [
      | inr (e, failed) ↦ ground (arith, failed)
      | inl (status, got) ↦ elim (Result-cases (write32 bar base slot_free)) [
        | inr (e, failed) ↦ ground (arith, got, failed)
        | inl (freed, done) ↦ ground (arith, got, done)
      ]
    ]

-- ===== src/Modq/Consumer.antt =====
-- The consumer threads that stand for the FPGA in crates/otap-modq/src/bin/modq_loopback.rs,
-- crates/otap-modq/src/bin/modq_bench.rs and crates/otap-cli/src/bin/otap-modq-loopback.rs, and what those
-- programs check.
pub mod Served
pub mod Serving
pub mod Runs
pub mod Loopback
pub mod Waiting
pub mod Simulated
use otap_signup_validator.Common.{
  ℕ, zero, suc, ◌+◌, ◌*◌, ◌%◌, ◌^◌, List, [], ◌∷◌, Option, none, some, bit_and, bit_not, Result, ok,
  err, ◌>>=◌, ◌==◌, if◌then◌else◌,
}
use otap_signup_validator.Modq.Bar.{RingError, panicked, BarMapping, ring_base, read32, write32}
use otap_signup_validator.Modq.Ring.{slot_free, slot_ready, slot_base}
use otap_signup_validator.Modq.Queue.{Os, ModqError, open_shm}

-- The stride as the consumers compute it, in 64 bits.
unfoldable pub consumer_stride : ℕ → ℕ
consumer_stride slot_size = bit_and (((slot_size + 16) % 2 ^ 64 + 63) % 2 ^ 64) (bit_not 64 63)

-- The region that a consumer opens.
unfoldable pub open_consumer : (os : Os) → List ℕ → ℕ → ℕ → Result BarMapping (ModqError os.IoError)
unfolding consumer_stride open_shm
open_consumer os name ring_depth slot_size =
    open_shm os name ((ring_base + consumer_stride slot_size * ring_depth) % 2 ^ 64)

-- What a consumer has read of a slot.
pub record Consumed : Type 0 where
  pub len : ℕ
  pub sid : ℕ

-- A round of the loop of `simulated_fpga_consumer` of modq_loopback.rs, with its `local_head`
unfoldable pub consume_round :
    ℕ → ℕ → ℕ → BarMapping → Result (Option Consumed × ℕ × BarMapping) RingError
consume_round stride ring_depth local_head bar =
    if ring_depth == 0
    then err panicked
    else let base = slot_base stride (local_head % ring_depth) in
      read32 bar base >>= λ status.
      if status == slot_ready
      then (do
        len ← read32 bar (base + 0x04)
        sid ← read32 bar (base + 0x08)
        freed ← write32 bar base slot_free
        ok (some (record { len = len; sid = sid }), (local_head + 1) % 2 ^ 64, freed))
      else ok (none, local_head, bar)

-- What a waiting submission sees of the consumer: a round on the region.
abbrev pub round_of : ℕ → ℕ → ℕ → BarMapping → BarMapping
round_of stride ring_depth local_head bar = elim (consume_round stride ring_depth local_head bar) [
  | ok round ↦ round.2
  | err e ↦ bar
]

-- A round of `simulated_consumer` of modq_bench.rs and of `simulated_fpga` of otap-modq-loopback.rs,
-- which read no more than the status
unfoldable pub simulated_round : ℕ → ℕ → ℕ → BarMapping → Result (ℕ × BarMapping) RingError
simulated_round stride ring_depth head bar =
    if ring_depth == 0
    then err panicked
    else let base = slot_base stride (head % ring_depth) in
      read32 bar base >>= λ status.
      if status == slot_ready
      then (write32 bar base slot_free >>= λ freed. ok ((head + 1) % 2 ^ 64, freed))
      else ok (head, bar)

-- The ordering verification of modq_loopback.rs on the numbers that `submit` returns from round `i` on:
-- the `sequence_errors`, counted up from `errors`
unfoldable pub count_sequence_errors : ℕ → ℕ → ℕ → List ℕ → ℕ
count_sequence_errors num_messages i errors [] = errors
count_sequence_errors num_messages i errors (sid ∷ sids) =
    count_sequence_errors num_messages (i + 1)
      (if sid == (num_messages + i) % 2 ^ 64 then errors else errors + 1) sids

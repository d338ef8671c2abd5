-- ===== src/Modq/Consumer/Loopback.antt =====
-- The loopback test of crates/otap-modq/src/bin/modq_loopback.rs: a queue that is opened, a consumer that
-- starts at slot 0, and the ordering verification.
use otap_signup_validator.Common.{
  ℕ, zero, suc, ◌+◌, ◌-◌, ◌*◌, ◌/◌, ◌%◌, ◌^◌, ◌≤◌, ◌<◌, ◌≡◌, inl, inr, refl, ◌∙◌, arith, ap, ap₂,
  sym, subst, List, length, ◌++◌, true, ok, drop, ◌==◌, if◌then◌else◌, bit_and_fields, bit_and_mask,
  bit_and-zero,
}
use otap_signup_validator.Modq.Ring.{with_params}
use otap_signup_validator.Modq.Ring.Slots.{Slots}
use otap_signup_validator.Modq.Queue.{
  Os, ModqConfig, loopback, ModqQueue, is_power_of_two, open_stride, open_queue,
}
use otap_signup_validator.Modq.Queue.Freed.{stride-open_stride, stride_of-open_stride}
use otap_signup_validator.Modq.Queue.Submission.{Valid, sids, length-sids}
use otap_signup_validator.Modq.Queue.Steps.{Event, submissions, completions_of}
use otap_signup_validator.Modq.Queue.Opened.{MapsWhole, open_queue_lem}
use otap_signup_validator.Modq.Consumer.{consumer_stride, count_sequence_errors}
use otap_signup_validator.Modq.Consumer.Serving.{Shared, in_flight, InService}
use otap_signup_validator.Modq.Consumer.Runs.{ServeRun, ServeRun-Balanced}

-- The consumer counts with the stride of the queue.
pub consumer_stride-open_stride : (n : ℕ) → n + 79 < 2 ^ 32 → consumer_stride n ≡ open_stride n
unfolding consumer_stride
consumer_stride-open_stride n h =
    let sum : ((n + 16) % 2 ^ 64 + 63) % 2 ^ 64 ≡ (n + 79) / 64 * 2 ^ 6 + (n + 79) % 64 =
      omega arith in
    let fields =
      bit_and_fields 6 ((n + 79) / 64) ((n + 79) % 64) (2 ^ 58 - 1) 0 (omega arith) (omega arith) in
    let high = bit_and_mask 58 ((n + 79) / 64) in
    let queue = stride-open_stride n h in
    rw sum (omega (arith, fields, high, queue, bit_and-zero ((n + 79) % 64)))

drop-sids : (n k m : ℕ) → n ≤ m → drop n (sids k m) ≡ sids (k + n) (m - n)
drop-sids zero k m h = ap₂ sids (omega arith) (omega arith)
drop-sids (suc n) k zero h = absurd (omega arith)
drop-sids (suc n) k (suc m) h =
    let next : k + 1 + n ≡ k + suc n = omega arith in
    let left : suc m - suc n ≡ m - n = omega arith in
    drop-sids n (k + 1) m (omega arith) ∙ rw (next, left) refl

pub count_sequence_errors-sids :
    (num_messages i errors m : ℕ)
    → num_messages + i + m ≤ 2 ^ 32
    → count_sequence_errors num_messages i errors (sids (num_messages + i) m) ≡ errors
unfolding count_sequence_errors
count_sequence_errors-sids num_messages i errors zero h = refl
count_sequence_errors-sids num_messages i errors (suc m) h =
    let expected : (if (num_messages + i) % 2 ^ 32 == (num_messages + i) % 2 ^ 64
          then errors
          else errors + 1)
        ≡ errors =
      ground arith in
    let next : num_messages + i + 1 ≡ num_messages + (i + 1) = omega arith in
    ap₂ (λ n k. count_sequence_errors num_messages (i + 1) n (sids k m)) expected next
    ∙ count_sequence_errors-sids num_messages (i + 1) errors m (omega arith)

module _ (os : Os) (m : MapsWhole os) (config : ModqConfig) where
  pub opened-InService :
      {q : ModqQueue}
      → Valid q
      → q.tx ≡ with_params config.ring_depth config.slot_size
      → InService (record { queue = q; local_head = 0 })
  unfolding with_params
  opened-InService {q} v fresh =
      let none_yet : q.tx.tail ≡ 0 = ap (λ tx. tx.tail) fresh in
      let ordered = v.slots.ordered in
      let first : q.completions.head ≡ 0 = omega arith in
      record {
        slots = subst (λ h. Slots q.tx.slot_stride q.tx.depth h q.tx.tail q.bar) first v.slots;
        ready = λ k hk kt. absurd (omega arith);
        numbered = v.numbered;
      }

  -- What a run of the queue and the consumer gives, from `n` messages of the throughput test on.
  pub record Verified (n : ℕ) (es : List Event) (last : Shared) : Type 0 where
    pub numbers : submissions es ≡ sids 0 last.queue.tx.tail
    pub balance : submissions es ≡ completions_of es ++ in_flight last
    pub room : length (in_flight last) ≤ config.ring_depth
    pub ordered : count_sequence_errors n 0 0 (drop n (submissions es)) ≡ 0
    pub service : InService last

  -- Opening a queue on the loopback transport, with a depth that is a power of two and a slot size that
  -- leaves room for its header and alignment in 32 bits, and running it beside a consumer that computes
  -- the geometry for itself and starts at slot 0: after any number of submissions and rounds of the
  -- consumer in any order, the numbers given out are 0, 1, 2 and so on modulo 2^32, the consumer has
  -- read them in that order from the first on, those it has not read are at most as many as there are
  -- slots, and, up to 2^32 submissions, the ordering verification of all but the first `n` of them
  -- counts no error.
  pub loopback_lem :
      {q : ModqQueue} {es : List Event} {last : Shared} (name : List ℕ) (n : ℕ)
      → config.transport ≡ loopback name
      → is_power_of_two config.ring_depth ≡ true
      → config.slot_size + 79 < 2 ^ 32
      → open_queue os config ≡ ok q
      → ServeRun
          (consumer_stride config.slot_size)
          config.ring_depth
          (record { queue = q; local_head = 0 })
          es
          last
      → n ≤ length (submissions es)
      → length (submissions es) ≤ 2 ^ 32
      → Verified n es last
  unfolding with_params
  loopback_lem {q} {es} {last} name n transport pow small opened run some_first few =
      elim (open_queue_lem os m config name transport pow small) [
        | inl (e, closed, failed) ↦ cc
        | inr (q₁, mapped, opens, v, empty, fresh) ↦
            let same : q₁ ≡ q = cc in
            let fresh : q.tx ≡ with_params config.ring_depth config.slot_size =
              ap (λ q. q.tx) (sym same) ∙ fresh in
            let none_yet : q.tx.tail ≡ 0 = ap (λ tx. tx.tail) fresh in
            let stride : q.tx.slot_stride ≡ consumer_stride config.slot_size =
              ap (λ tx. tx.slot_stride) fresh
              ∙ stride_of-open_stride config.slot_size small
              ∙ sym (consumer_stride-open_stride config.slot_size small) in
            let depth : q.tx.depth ≡ config.ring_depth = ap (λ tx. tx.depth) fresh in
            let b =
              ServeRun-Balanced stride depth (opened-InService (subst Valid same v) fresh) run in
            let count : last.queue.tx.tail - q.tx.tail ≡ last.queue.tx.tail = omega arith in
            let numbers : submissions es ≡ sids 0 last.queue.tx.tail =
              b.numbers ∙ ap₂ sids none_yet count in
            let size = length-sids 0 last.queue.tx.tail in
            let total : length (submissions es) ≡ last.queue.tx.tail = ap length numbers ∙ size in
            let no_flight : q.tx.tail - 0 ≡ 0 = omega arith in
            let room = b.room in
            let turned : 0 + n ≡ n + 0 = omega arith in
            record {
              numbers = numbers;
              balance = ap (λ k. sids 0 k ++ submissions es) (sym no_flight) ∙ b.balance;
              room = omega arith;
              ordered =
                  ap (λ xs. count_sequence_errors n 0 0 (drop n xs)) numbers
                  ∙ ap (count_sequence_errors n 0 0)
                      (drop-sids n 0 last.queue.tx.tail (omega arith))
                  ∙ ap (λ k. count_sequence_errors n 0 0 (sids k (last.queue.tx.tail - n))) turned
                  ∙ count_sequence_errors-sids n 0 0 (last.queue.tx.tail - n) (omega arith);
              service = b.service;
            }
      ]

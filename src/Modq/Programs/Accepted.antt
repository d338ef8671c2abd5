-- ===== src/Modq/Programs/Accepted.antt =====
-- The submissions of crates/otap-modq/src/bin/modq_loopback.rs and modq_bench.rs beside a consumer.
use otap_signup_validator.Common.{
  ℕ, zero, suc, ◌+◌, ◌-◌, ◌%◌, ◌^◌, ◌≤◌, ◌<◌, ◌≡◌, inl, inr, refl, ◌∙◌, arith, ap, subst, List,
  length, ok,
}
use otap_signup_validator.Modq.Queue.{ModqQueue, queue_submit, queue_capacity, submitted_count}
use otap_signup_validator.Modq.Queue.Submission.{sids}
use otap_signup_validator.Modq.Consumer.{round_of}
use otap_signup_validator.Modq.Consumer.Served.{Served}
use otap_signup_validator.Modq.Consumer.Waiting.{queue_submit-Served}
use otap_signup_validator.Modq.Programs.{submit_messages, lazy_consumer}

-- A queue after `count` submissions, served by a consumer that has not worked more than it had to.
pub record Lazily (stride depth count : ℕ) (q : ModqQueue) : Type 0 where
  pub service : Served q.tx (count - depth) q.bar
  pub counted : q.tx.tail ≡ count
  pub same_stride : q.tx.slot_stride ≡ stride
  pub same_depth : q.tx.depth ≡ depth

module _ {stride depth : ℕ} where
  pub queue_submit-Lazily :
      {count : ℕ} {q : ModqQueue} (payload : List ℕ)
      → Lazily stride depth count q
      → length payload ≤ stride - 16
      → count + 1 < 2 ^ 64
      → (q' : ModqQueue) × (queue_submit (lazy_consumer stride depth (submitted_count q)) q payload
          ≡ ok (count % 2 ^ 32, q'))
        × Lazily stride depth (count + 1) q'
  unfolding queue_capacity
  queue_submit-Lazily {count} {q} payload i fits small =
      let counted = i.counted in
      let same_stride = i.same_stride in
      let same_depth = i.same_depth in
      let capacity : length payload ≤ queue_capacity q = omega arith in
      let (head', q', done, next, ring, moved) =
        queue_submit-Served q (count - depth) payload i.service capacity (omega arith) in
      let consumer : round_of q.tx.slot_stride q.tx.depth (count - depth)
          ≡ lazy_consumer stride depth (submitted_count q) =
        rw (same_stride, same_depth, counted) refl in
      let bounded = next.slots.bounded in
      let counted' : q'.tx.tail ≡ q.tx.tail + 1 = ap (λ tx. tx.tail) ring in
      let depth' : q'.tx.depth ≡ q.tx.depth = ap (λ tx. tx.depth) ring in
      let head : head' ≡ count + 1 - depth = elim moved [
        | inl kept ↦ omega arith
        | inr (freed, full) ↦ omega arith
      ] in
      (
        q',
        subst (λ d. queue_submit d q payload ≡ ok (count % 2 ^ 32, q')) consumer
            (done ∙ ap (λ n. ok (n % 2 ^ 32, q')) counted),
        record {
          service = subst (λ h. Served q'.tx h q'.bar) head next;
          counted = omega arith;
          same_stride = ap (λ tx. tx.slot_stride) ring ∙ same_stride;
          same_depth = depth' ∙ same_depth;
        },
      )

  pub submit_messages-Lazily :
      (payload_of : ℕ → List ℕ) (i left count : ℕ) (q : ModqQueue)
      → Lazily stride depth count q
      → ((j : ℕ) → length (payload_of j) ≤ stride - 16)
      → count + left < 2 ^ 64
      → (last : ModqQueue) × (submit_messages (lazy_consumer stride depth) payload_of i left q
          ≡ ok (sids count left, last))
        × Lazily stride depth (count + left) last
  unfolding submit_messages
  submit_messages-Lazily payload_of i zero count q h fits small =
      let all : count ≡ count + 0 = omega arith in
      (q, refl, subst (λ n. Lazily stride depth n q) all h)
  submit_messages-Lazily payload_of i (suc left) count q h fits small =
      let (q', done, next) = queue_submit-Lazily (payload_of i) h (fits i) (omega arith) in
      let (last, rest, end) =
        submit_messages-Lazily payload_of (i + 1) left (count + 1) q' next fits (omega arith) in
      let all : count + 1 + left ≡ count + suc left = omega arith in
      (last, rw (done, rest) refl, subst (λ n. Lazily stride depth n last) all end)

-- ===== src/Modq/Programs/Ordering.antt =====
-- The ordering verification of crates/otap-modq/src/bin/modq_loopback.rs.
use otap_signup_validator.Common.{
  ℕ, ◌≡◌, ◌⊎◌, inl, inr, refl, ◌∙◌, arith, ap, length, length-replicate, replicate, copy_from_slice,
  length-copy_from_slice, ok, err,
}
use otap_signup_validator.Modq.Queue.{Os, ModqError, ModqQueue, open_queue}
use otap_signup_validator.Modq.Queue.Opened.{MapsWhole}
use otap_signup_validator.Modq.Consumer.{consumer_stride}
use otap_signup_validator.Modq.Consumer.Loopback.{count_sequence_errors-sids}
use otap_signup_validator.Modq.Programs.{
  not_opened, lazy_consumer, num_messages, verify_count, loopback_config, trade_payload,
  ordering_payload, loopback_main,
}
use otap_signup_validator.Modq.Programs.Accepted.{submit_messages-Lazily}
use otap_signup_validator.Modq.Programs.Opened.{opened-Lazily}

length-ordering_payload : (i : ℕ) → length (ordering_payload i) ≡ 64
unfolding ordering_payload
length-ordering_payload i =
    length-copy_from_slice 0 _ (replicate 64 0) ∙ length-replicate {A = ℕ} 64 0

length-trade_payload : length trade_payload ≡ 128
unfolding trade_payload copy_from_slice
length-trade_payload = refl

-- `main` of modq_loopback.rs, beside a consumer that frees a slot only where a submission waits for it:
-- if the queue opens, every one of the 1010000 submissions is accepted and `main` reports no sequence
-- error; otherwise it stops with the error of opening.
pub loopback_main_lem :
    (os : Os)
    → MapsWhole os
    → let device =
        lazy_consumer (consumer_stride loopback_config.slot_size) loopback_config.ring_depth in
      ((e : ModqError os.IoError) × (open_queue os loopback_config ≡ err e)
        × (loopback_main os device ≡ err (not_opened e)))
      ⊎ ((q : ModqQueue) × (open_queue os loopback_config ≡ ok q)
          × (loopback_main os device ≡ ok 0))
unfolding loopback_main consumer_stride
loopback_main_lem os m = elim (opened-Lazily os m loopback_config _ refl refl (omega arith)) [
  | inl (e, failed) ↦ inl (e, failed, rw failed refl)
  | inr (q, opens, fresh) ↦
      let (q₁, throughput, loaded) =
        submit_messages-Lazily (λ i. trade_payload) 0 num_messages 0 q fresh
          (λ j. omega (arith, length-trade_payload)) (omega arith) in
      let (q₂, ordering, verified) =
        submit_messages-Lazily ordering_payload 0 verify_count num_messages q₁ loaded
          (λ j. omega (arith, length-ordering_payload j)) (omega arith) in
      let counted = count_sequence_errors-sids num_messages 0 0 verify_count (omega arith) in
      inr (q, opens, rw (opens, throughput, ordering) (ap ok counted))
]

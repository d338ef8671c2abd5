-- ===== src/Modq/Consumer/Waiting.antt =====
-- A submission that waits while a consumer of crates/otap-modq/src/bin/modq_loopback.rs works.
use native.Mathlib.Decide.{dec_lt}
use native.Mathlib.Nat.{add-mod_right}
use otap_signup_validator.Common.{
  ℕ, suc, ◌+◌, ◌%◌, ◌^◌, ◌≤◌, ◌<◌, ◌≡◌, ◌⊎◌, inl, inr, refl, ◌∙◌, arith, ap, sym, subst, List,
  length, ok,
}
use otap_signup_validator.Modq.Bar.{BarMapping}
use otap_signup_validator.Modq.Ring.{TxRing, slot_base, slot_ready, slot_payload_capacity, spin}
use otap_signup_validator.Modq.Ring.Slots.{Slots-Placed, status_of}
use otap_signup_validator.Modq.Ring.Spin.{read_status, spin_vacant}
use otap_signup_validator.Modq.Ring.Enqueue.{advanced, some_spins, submit_vacant, submit_spun}
use otap_signup_validator.Modq.Queue.{ModqQueue, queue_submit, queue_capacity, submitted_count}
use otap_signup_validator.Modq.Consumer.Serving.{accepted}
use otap_signup_validator.Modq.Consumer.{round_of}
use otap_signup_validator.Modq.Consumer.Served.{
  Served, consumed_region, submitted-Served, consume_waiting, consumed-Served,
}

module _ {tx : TxRing} {head : ℕ} {bar : BarMapping} (s : Served tx head bar) (payload : List ℕ)
    (fits : length payload ≤ slot_payload_capacity tx) (small : tx.tail + 1 < 2 ^ 64) where
  round_frees :
      head < tx.tail → round_of tx.slot_stride tx.depth head bar ≡ consumed_region tx head bar
  round_frees lt = rw (round_of, consume_waiting s lt (omega arith)) refl

  -- With every slot waiting, the slot of the next submission is the oldest one.
  full_status :
      tx.tail ≡ head + tx.depth → status_of tx.slot_stride bar (tx.tail % tx.depth) ≡ slot_ready
  full_status full =
      let some_slot = s.slots.some_slot in
      subst (λ i. status_of tx.slot_stride bar i ≡ slot_ready)
        (sym (ap (λ k. k % tx.depth) full ∙ add-mod_right head tx.depth))
        (s.ready head (omega arith) (omega arith))

  -- A round of the consumer ends the loop of `submit`.
  spin_served :
      (n : ℕ)
      → tx.tail ≡ head + tx.depth
      → spin
          (round_of tx.slot_stride tx.depth head)
          (suc n)
          (slot_base tx.slot_stride (tx.tail % tx.depth))
          (tx.tail % tx.depth)
          bar
        ≡ ok (consumed_region tx head bar)
  unfolding spin
  spin_served n full =
      let some_slot = s.slots.some_slot in
      let next = consumed-Served s (omega arith) in
      let freed = round_frees (omega arith) in
      let ends = spin_vacant (round_of tx.slot_stride tx.depth head) n next.slots (omega arith) in
      rw (read_status s.slots tx.tail, full_status full, freed) ends

-- While the consumer works, a submission that fits a slot to a queue in service is accepted, under the
-- number of submissions so far, also where every slot is taken: it never times out. The queue and the
-- consumer stay in service, the consumer one slot further if it had to free one, and the ring is as it
-- was but for its tail and its next number, which are one further. There have been fewer than 2^64 - 1
-- submissions.
pub queue_submit-Served :
    (q : ModqQueue) (head : ℕ) (payload : List ℕ)
    → Served q.tx head q.bar
    → length payload ≤ queue_capacity q
    → submitted_count q + 1 < 2 ^ 64
    → (head' : ℕ) × (q' : ModqQueue) × (queue_submit
          (round_of q.tx.slot_stride q.tx.depth head)
          q
          payload
        ≡ ok (submitted_count q % 2 ^ 32, q'))
      × Served q'.tx head' q'.bar
      × (q'.tx ≡ advanced q.tx)
      × ((head' ≡ head) ⊎ ((head' ≡ head + 1) × (submitted_count q ≡ head + q.tx.depth)))
unfolding queue_submit queue_capacity
queue_submit-Served q head payload s fits small =
    let device = round_of q.tx.slot_stride q.tx.depth head in
    let some_slot = s.slots.some_slot in
    let bounded = s.slots.bounded in
    elim (dec_lt q.tx.tail (head + q.tx.depth)) [
      | yes room ↦ (
        head,
        accepted q payload,
        rw (submit_vacant q.tx s.slots payload fits device s.numbered small room) refl,
        submitted-Served s payload fits room,
        refl,
        inl refl,
      )
      | no no_room ↦
          let full : q.tx.tail ≡ head + q.tx.depth = omega arith in
          let freed = consumed_region q.tx head q.bar in
          let next = consumed-Served s (omega arith) in
          let ended =
            subst
              (λ n.
                spin device n (slot_base q.tx.slot_stride (q.tx.tail % q.tx.depth))
                  (q.tx.tail % q.tx.depth) q.bar
                ≡ ok freed)
              (sym some_spins) (spin_served s payload fits small 999_999_999 full) in
          (
            head + 1,
            accepted (record q { bar = freed }) payload,
            rw
                (submit_spun q.tx (Slots-Placed next.slots) payload fits device q.bar ended
                  s.numbered small)
                refl,
            submitted-Served next payload fits (omega arith),
            refl,
            inr (refl, full),
          )
    ]

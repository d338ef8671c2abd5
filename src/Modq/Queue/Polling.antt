-- ===== src/Modq/Queue/Polling.antt =====
-- `ModqQueue::poll` of crates/otap-modq/src/lib.rs on a queue in order.
use native.Mathlib.Decide.{dec_lt, ℕ_discrete}
use otap_signup_validator.Common.{
  ℕ, suc, ◌+◌, ◌-◌, ◌%◌, ◌^◌, ◌<◌, ◌≡◌, ◌≢◌, ◌⊎◌, inl, inr, refl, arith, ap, ◌∷◌, none, some, true,
  false, ok, ◌==◌,
}
use otap_signup_validator.Modq.Bar.Words.{put, word_at-put_self, length-put, read32_at, write32_at}
use otap_signup_validator.Modq.Ring.{
  slot_free, slot_done, slot_hdr_status, slot_hdr_sid, slot_base, poll_ring,
}
use otap_signup_validator.Modq.Ring.Slots.{status_of, put-Elsewhere, released-Slots}
use otap_signup_validator.Modq.Ring.Spin.{index_inside, read_status}
use otap_signup_validator.Modq.Queue.{ModqQueue, queue_poll}
use otap_signup_validator.Modq.Queue.Submission.{Valid, pending, sids}

-- The status of the slot that `poll` looks at.
abbrev pub head_status : ModqQueue → ℕ
head_status q = status_of q.tx.slot_stride q.bar (q.completions.head % q.tx.depth)

-- The queue after a completion is taken.
abbrev pub after_poll : ModqQueue → ModqQueue
after_poll q = record q {
  bar =
      put q.bar (slot_base q.tx.slot_stride (q.completions.head % q.tx.depth) + slot_hdr_status)
        slot_free;
  completions = record q.completions { head = q.completions.head + 1 };
}

module _ {q : ModqQueue} (v : Valid q) (small : q.tx.tail < 2 ^ 64) where
  poll_waiting : head_status q ≢ slot_done → queue_poll q ≡ ok (none, q)
  unfolding queue_poll poll_ring
  poll_waiting waiting =
      let some_slot = v.slots.some_slot in
      let divisible : (q.tx.depth == 0) ≡ false = ground arith in
      let status : (head_status q == slot_done) ≡ false = ground arith in
      rw (v.same_depth, v.same_stride, divisible, read_status v.slots q.completions.head, status)
        refl

  -- A slot that is done belongs to a submission in flight.
  poll_pending : head_status q ≡ slot_done → q.completions.head < q.tx.tail
  poll_pending done =
      let some_slot = v.slots.some_slot in
      let ordered = v.slots.ordered in
      elim (dec_lt q.completions.head q.tx.tail) [
        | yes lt ↦ lt
        | no ge ↦
            let free = v.slots.vacant q.completions.head (omega arith) (omega arith) in
            omega (arith, free, done)
      ]

  pub poll_done :
      head_status q ≡ slot_done
      → queue_poll q
        ≡ ok (
          some (record {
            sequence_id = q.completions.head % 2 ^ 32;
            slot_index = q.completions.head % q.tx.depth;
          }),
          after_poll q,
        )
  unfolding queue_poll poll_ring
  poll_done done =
      let head = q.completions.head in
      let base = slot_base q.tx.slot_stride (head % q.tx.depth) in
      let wide = v.slots.room_for_header in
      let some_slot = v.slots.some_slot in
      let divisible : (q.tx.depth == 0) ≡ false = ground arith in
      let status : (head_status q == slot_done) ≡ true = ground arith in
      let lt = poll_pending done in
      let sid = (v.slots.in_flight head (omega arith) lt).numbered in
      let read_sid =
        read32_at q.bar (base + slot_hdr_sid)
          (index_inside v.slots head slot_hdr_sid 4 (omega arith)) in
      let release =
        write32_at q.bar (base + slot_hdr_status) slot_free
          (index_inside v.slots head slot_hdr_status 4 (omega arith)) in
      let whole : (head + 1) % 2 ^ 64 ≡ head + 1 = omega arith in
      rw
        (
          v.same_depth,
          v.same_stride,
          divisible,
          read_status v.slots head,
          status,
          read_sid,
          release,
          sid,
          whole,
        )
        refl

  after_poll-Valid : head_status q ≡ slot_done → Valid (after_poll q)
  after_poll-Valid done =
      let head = q.completions.head in
      let base = slot_base q.tx.slot_stride (head % q.tx.depth) in
      let wide = v.slots.room_for_header in
      record {
        same_depth = v.same_depth;
        same_stride = v.same_stride;
        narrow = v.narrow;
        numbered = v.numbered;
        slots =
            released-Slots v.slots (put q.bar (base + slot_hdr_status) slot_free)
              (poll_pending done)
              (put-Elsewhere q.tx.slot_stride (head % q.tx.depth) slot_hdr_status slot_free q.bar
                (omega arith))
              (length-put q.bar (base + slot_hdr_status) slot_free)
              (word_at-put_self q.bar (base + slot_hdr_status) slot_free
                (index_inside v.slots head slot_hdr_status 4 (omega arith)) (omega arith));
      }

  pending_poll :
      head_status q ≡ slot_done → pending q ≡ q.completions.head % 2 ^ 32 ∷ pending (after_poll q)
  pending_poll done =
      let head = q.completions.head in
      let lt = poll_pending done in
      let count : q.tx.tail - head ≡ suc (q.tx.tail - (head + 1)) = omega arith in
      ap (sids head) count

  -- A poll of a queue in order comes back with an answer. With the oldest slot not done it is that
  -- there is no completion, and the queue is as before. With the slot done it is the completion of
  -- the oldest submission in flight, with its number and its slot, and the queue stays in order with
  -- that submission gone. There have been fewer than 2^64 submissions.
  pub queue_poll_lem :
      ((head_status q ≢ slot_done) × (queue_poll q ≡ ok (none, q)))
      ⊎ ((head_status q ≡ slot_done)
          × (sid : ℕ) × (q' : ModqQueue) × (queue_poll q
              ≡ ok (
                some (record { sequence_id = sid; slot_index = q.completions.head % q.tx.depth }),
                q',
              ))
          × Valid q'
          × (pending q ≡ sid ∷ pending q'))
  queue_poll_lem = elim (ℕ_discrete (head_status q) slot_done) [
    | yes done ↦ inr (
      done,
      q.completions.head % 2 ^ 32,
      after_poll q,
      poll_done done,
      after_poll-Valid done,
      pending_poll done,
    )
    | no waiting ↦ inl (waiting, poll_waiting waiting)
  ]

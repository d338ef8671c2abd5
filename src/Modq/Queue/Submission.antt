-- ===== src/Modq/Queue/Submission.antt =====
-- `ModqQueue::submit` of crates/otap-modq/src/lib.rs on a queue in order.
use native.Mathlib.Decide.{dec_lt}
use otap_signup_validator.Common.{
  ℕ, zero, suc, ◌+◌, ◌-◌, ◌%◌, ◌^◌, ◌≤◌, ◌<◌, ◌≡◌, ◌∙◌, refl, ◌⊎◌, inl, inr, arith, ap, List, [],
  ◌∷◌, ◌++◌, length, ok, err,
}
use otap_signup_validator.Modq.Bar.{BarMapping, payload_too_large, timeout}
use otap_signup_validator.Modq.Ring.{slot_base}
use otap_signup_validator.Modq.Ring.Slots.{Slots, Slots-Placed}
use otap_signup_validator.Modq.Ring.Device.{DeviceStep}
use otap_signup_validator.Modq.Ring.Enqueue.{submit_vacant, submit_busy, submit_too_large}
use otap_signup_validator.Modq.Ring.Fill.{payload_of, filled, filled-Slots, filled_payload}
use otap_signup_validator.Modq.Queue.{ModqQueue, queue_submit, queue_capacity, submitted_count}

-- The queue is in order: both rings have the same slots, and the submissions from the completion
-- ring's head on and before the submission ring's tail are in flight.
pub record Valid (q : ModqQueue) : Type 0 where
  pub same_depth : q.completions.depth ≡ q.tx.depth
  pub same_stride : q.completions.slot_stride ≡ q.tx.slot_stride
  pub narrow : q.tx.slot_stride < 2 ^ 32
  pub numbered : q.tx.next_sid ≡ q.tx.tail % 2 ^ 32
  pub slots : Slots q.tx.slot_stride q.tx.depth q.completions.head q.tx.tail q.bar

-- The sequence numbers of `n` submissions from number `k` on.
abbrev pub sids : ℕ → ℕ → List ℕ
sids k zero = []
sids k (suc n) = k % 2 ^ 32 ∷ sids (k + 1) n

pub sids_snoc : (k n : ℕ) → sids k (n + 1) ≡ sids k n ++ ((k + n) % 2 ^ 32 ∷ [])
sids_snoc k zero = ap (λ m. m % 2 ^ 32 ∷ []) (omega arith)
sids_snoc k (suc n) =
    let rest = sids_snoc (k + 1) n in
    let one : suc n + 1 ≡ suc (n + 1) = omega arith in
    let next : k + suc n ≡ k + 1 + n = omega arith in
    rw (one, next) (ap (λ xs. k % 2 ^ 32 ∷ xs) rest)

pub length-sids : (k n : ℕ) → length (sids k n) ≡ n
length-sids k zero = refl
length-sids k (suc n) = let rest = length-sids (k + 1) n in omega (arith, rest)

-- The sequence numbers in flight, the oldest first.
abbrev pub pending : ModqQueue → List ℕ
pending q = sids q.completions.head (q.tx.tail - q.completions.head)

abbrev pub Works : ModqQueue → (BarMapping → BarMapping) → Type 0
Works q device = (b : BarMapping) → DeviceStep q.tx.slot_stride q.tx.depth b (device b)

-- The queue after a submission that is accepted.
abbrev pub after_submit : ModqQueue → List ℕ → ModqQueue
after_submit q payload = record q {
  bar =
      filled q.bar (slot_base q.tx.slot_stride (q.tx.tail % q.tx.depth)) (q.tx.tail % 2 ^ 32)
        ((q.tx.tail + 1) % 2 ^ 64 % 2 ^ 32) payload;
  tx = record q.tx { tail = q.tx.tail + 1; next_sid = (q.tx.tail + 1) % 2 ^ 32 };
}

module _ {q : ModqQueue} (v : Valid q) (device : BarMapping → BarMapping) (payload : List ℕ)
    (fits : length payload ≤ queue_capacity q) where
  pub submit_room :
      q.tx.tail + 1 < 2 ^ 64
      → q.tx.tail < q.completions.head + q.tx.depth
      → queue_submit device q payload ≡ ok (q.tx.tail % 2 ^ 32, after_submit q payload)
  unfolding queue_submit queue_capacity
  submit_room small room =
      rw (submit_vacant q.tx v.slots payload fits device v.numbered small room) refl

  submit_full :
      Works q device
      → q.tx.tail ≡ q.completions.head + q.tx.depth
      → queue_submit device q payload ≡ err (timeout (q.tx.tail % q.tx.depth))
  unfolding queue_submit queue_capacity
  submit_full works full = rw (submit_busy q.tx v.slots payload fits device works full) refl

-- A payload that is too long.
submit_large :
    (device : BarMapping → BarMapping) (q : ModqQueue) (payload : List ℕ)
    → queue_capacity q < length payload
    → queue_submit device q payload ≡ err (payload_too_large (length payload) (queue_capacity q))
unfolding queue_submit queue_capacity
submit_large device q payload h = rw (submit_too_large q.tx q.bar device payload h) refl

module _ {q : ModqQueue} (v : Valid q) (payload : List ℕ)
    (fits : length payload ≤ queue_capacity q) where
  pub after_submit-Valid :
      q.tx.tail < q.completions.head + q.tx.depth → Valid (after_submit q payload)
  unfolding queue_capacity
  after_submit-Valid room = record {
    same_depth = v.same_depth;
    same_stride = v.same_stride;
    narrow = v.narrow;
    numbered = refl;
    slots = filled-Slots v.slots payload fits ((q.tx.tail + 1) % 2 ^ 64 % 2 ^ 32) room;
  }

  pending-after_submit : pending (after_submit q payload) ≡ pending q ++ (q.tx.tail % 2 ^ 32 ∷ [])
  pending-after_submit =
      let h = q.completions.head in
      let ordered = v.slots.ordered in
      let count : q.tx.tail + 1 - h ≡ q.tx.tail - h + 1 = omega arith in
      let last : h + (q.tx.tail - h) ≡ q.tx.tail = omega arith in
      ap (sids h) count
      ∙ sids_snoc h (q.tx.tail - h)
      ∙ ap (λ k. pending q ++ (k % 2 ^ 32 ∷ [])) last

  payload-after_submit :
      payload_of q.tx.slot_stride (after_submit q payload).bar (q.tx.tail % q.tx.depth) ≡ payload
  unfolding queue_capacity
  payload-after_submit =
      filled_payload (Slots-Placed v.slots) q.tx.tail payload fits
        ((q.tx.tail + 1) % 2 ^ 64 % 2 ^ 32) v.narrow

-- A submission to a queue in order, beside a device that completes slots as `poll` expects it and leaves
-- their release to `poll`. A payload above the capacity of a slot is refused. Otherwise, with fewer
-- submissions in flight than there are slots, the submission is accepted under the number of submissions
-- so far, the queue stays in order with it as the newest one in flight, and its slot holds exactly the
-- payload. With all slots in flight the submission times out. There have been fewer than 2^64 - 1
-- submissions. Answer has the answers beside any device.
pub queue_submit_lem :
    (q : ModqQueue) (device : BarMapping → BarMapping) (payload : List ℕ)
    → Valid q
    → Works q device
    → q.tx.tail + 1 < 2 ^ 64
    → ((queue_capacity q < length payload)
        × (queue_submit device q payload
            ≡ err (payload_too_large (length payload) (queue_capacity q))))
      ⊎ ((length (pending q) < q.tx.depth)
          × (q' : ModqQueue) × (queue_submit device q payload ≡ ok (submitted_count q % 2 ^ 32, q'))
          × Valid q'
          × (pending q' ≡ pending q ++ (submitted_count q % 2 ^ 32 ∷ []))
          × (payload_of q.tx.slot_stride q'.bar (q.tx.tail % q.tx.depth) ≡ payload))
      ⊎ ((length (pending q) ≡ q.tx.depth)
          × (queue_submit device q payload ≡ err (timeout (q.tx.tail % q.tx.depth))))
queue_submit_lem q device payload v works small =
    let h = q.completions.head in
    let size = length-sids h (q.tx.tail - h) in
    let ordered = v.slots.ordered in
    let bounded = v.slots.bounded in
    elim (dec_lt (queue_capacity q) (length payload)) [
      | yes large ↦ inl (large, submit_large device q payload large)
      | no fits ↦
          let fits : length payload ≤ queue_capacity q = omega arith in
          elim (dec_lt q.tx.tail (h + q.tx.depth)) [
            | yes room ↦ inr (
                inl (
                  omega (arith, size),
                  after_submit q payload,
                  submit_room v device payload fits small room,
                  after_submit-Valid v payload fits room,
                  pending-after_submit v payload fits,
                  payload-after_submit v payload fits,
                ))
            | no full ↦
                inr
                  (inr (omega (arith, size), submit_full v device payload fits works (omega arith)))
          ]
    ]

-- ===== src/Modq/Consumer/Serving.antt =====
-- A queue and a consumer of crates/otap-modq/src/bin/modq_loopback.rs that work side by side.
use native.Mathlib.Decide.{dec_lt}
use otap_signup_validator.Common.{
  ℕ, suc, ◌+◌, ◌-◌, ◌%◌, ◌^◌, ◌≤◌, ◌<◌, ◌≡◌, refl, ◌∙◌, arith, ap, sym, subst, List, [], length,
  ◌∷◌, ◌++◌, none, some, ok,
}
use otap_signup_validator.Modq.Bar.{BarMapping}
use otap_signup_validator.Modq.Ring.{slot_payload_capacity}
use otap_signup_validator.Modq.Ring.Device.{idle}
use otap_signup_validator.Modq.Ring.Enqueue.{
  advanced, filled_region, submit_vacant, submit_busy, submit_too_large,
}
use otap_signup_validator.Modq.Queue.{ModqQueue, queue_submit}
use otap_signup_validator.Modq.Queue.Submission.{sids, sids_snoc, length-sids}
use otap_signup_validator.Modq.Queue.Steps.{
  Event, submitted, completed, silent, Fifo, enqueue, dequeue, stutter, submissions,
}
use otap_signup_validator.Modq.Consumer.{Consumed, consume_round}
use otap_signup_validator.Modq.Consumer.Served.{
  Served, consumed_region, submitted-Served, consume_waiting, consumed-Served, consume_idle,
}

-- A queue, and the `local_head` of the consumer that shares its region.
pub record Shared : Type 0 where
  pub queue : ModqQueue
  pub local_head : ℕ

abbrev pub in_flight : Shared → List ℕ
in_flight s = sids s.local_head (s.queue.tx.tail - s.local_head)

abbrev pub InService : Shared → Type 0
InService s = Served s.queue.tx s.local_head s.queue.bar

-- A step: a submission, in the round in which its loop finds the slot free, or a round of a consumer
-- with the given stride and depth.
pub data ServeStep (stride depth : ℕ) (s : Shared) : Event → Shared → Type 0 where
  submits :
      (payload : List ℕ) {sid : ℕ} {q' : ModqQueue}
      → s.queue.tx.tail + 1 < 2 ^ 64
      → queue_submit (λ bar. bar) s.queue payload ≡ ok (sid, q')
      → ServeStep stride depth s (submitted sid) (record s { queue = q' })
  consumes :
      {c : Consumed} {head : ℕ} {bar : BarMapping}
      → s.queue.tx.tail < 2 ^ 64
      → consume_round stride depth s.local_head s.queue.bar ≡ ok (some c, head, bar)
      → ServeStep stride depth s
          (completed c.sid)
          (record { queue = record s.queue { bar = bar }; local_head = head })
  waits :
      {head : ℕ} {bar : BarMapping}
      → s.queue.tx.tail < 2 ^ 64
      → consume_round stride depth s.local_head s.queue.bar ≡ ok (none, head, bar)
      → ServeStep stride depth s silent
          (record { queue = record s.queue { bar = bar }; local_head = head })

-- The queue after a submission.
abbrev pub accepted : ModqQueue → List ℕ → ModqQueue
accepted q payload = record q { tx = advanced q.tx; bar = filled_region q.tx q.bar payload }

-- What a submission to a queue in service comes back with.
serve_submit :
    (s : Shared) (payload : List ℕ) {sid : ℕ} {q' : ModqQueue}
    → InService s
    → s.queue.tx.tail + 1 < 2 ^ 64
    → queue_submit (λ bar. bar) s.queue payload ≡ ok (sid, q')
    → (length payload ≤ slot_payload_capacity s.queue.tx)
      × (s.queue.tx.tail < s.local_head + s.queue.tx.depth)
      × (s.queue.tx.tail % 2 ^ 32 ≡ sid)
      × (accepted s.queue payload ≡ q')
unfolding queue_submit
serve_submit s payload {sid} {q'} v small e =
    let q = s.queue in
    let bounded = v.slots.bounded in
    elim (dec_lt (slot_payload_capacity q.tx) (length payload)) [
      | yes large ↦ (let refused = submit_too_large q.tx q.bar (λ bar. bar) payload large in cc)
      | no fits ↦
          let fits : length payload ≤ slot_payload_capacity q.tx = omega arith in
          elim (dec_lt q.tx.tail (s.local_head + q.tx.depth)) [
            | yes room ↦
                let done =
                  submit_vacant q.tx v.slots payload fits (λ bar. bar) v.numbered small room in
                (fits, room, cc, cc)
            | no full ↦
                (let late =
                    submit_busy q.tx v.slots payload fits (λ bar. bar) (λ bar. idle)
                      (omega arith) in
                  cc)
          ]
    ]

-- The state stays in service after a step, which a first-in first-out queue makes on the numbers in
-- flight, and the consumer's geometry is still the queue's.
pub record Serves (stride depth : ℕ) (s : Shared) (e : Event) (s' : Shared) : Type 0 where
  pub service : InService s'
  pub fifo : Fifo depth (in_flight s) e (in_flight s')
  pub same_stride : s'.queue.tx.slot_stride ≡ s.queue.tx.slot_stride
  pub same_depth : s'.queue.tx.depth ≡ s.queue.tx.depth
  pub counted : sids s.queue.tx.tail (s'.queue.tx.tail - s.queue.tx.tail) ≡ submissions (e ∷ [])
  pub grows : s.queue.tx.tail ≤ s'.queue.tx.tail

in_flight-accepted :
    (s : Shared) (payload : List ℕ)
    → s.local_head ≤ s.queue.tx.tail
    → in_flight (record s { queue = accepted s.queue payload })
      ≡ in_flight s ++ (s.queue.tx.tail % 2 ^ 32 ∷ [])
in_flight-accepted s payload ordered =
    let h = s.local_head in
    let count : s.queue.tx.tail + 1 - h ≡ s.queue.tx.tail - h + 1 = omega arith in
    let last : h + (s.queue.tx.tail - h) ≡ s.queue.tx.tail = omega arith in
    ap (sids h) count
    ∙ sids_snoc h (s.queue.tx.tail - h)
    ∙ ap (λ k. in_flight s ++ (k % 2 ^ 32 ∷ [])) last

submits-Serves :
    (s : Shared) (payload : List ℕ) {sid : ℕ} {q' : ModqQueue}
    → InService s
    → s.queue.tx.tail + 1 < 2 ^ 64
    → queue_submit (λ bar. bar) s.queue payload ≡ ok (sid, q')
    → Serves s.queue.tx.slot_stride s.queue.tx.depth s (submitted sid) (record s { queue = q' })
submits-Serves s payload {sid} {q'} v small e =
    let (fits, room, number, same) = serve_submit s payload v small e in
    let ordered = v.slots.ordered in
    let size = length-sids s.local_head (s.queue.tx.tail - s.local_head) in
    let one : s.queue.tx.tail + 1 - s.queue.tx.tail ≡ 1 = omega arith in
    let done : Serves s.queue.tx.slot_stride s.queue.tx.depth s
        (submitted (s.queue.tx.tail % 2 ^ 32)) (record s { queue = accepted s.queue payload }) =
      record {
        service = submitted-Served v payload fits room;
        fifo =
            subst
              (λ xs. Fifo s.queue.tx.depth (in_flight s) (submitted (s.queue.tx.tail % 2 ^ 32)) xs)
              (sym (in_flight-accepted s payload ordered))
              (enqueue (s.queue.tx.tail % 2 ^ 32) (omega (arith, size)));
        same_stride = refl;
        same_depth = refl;
        counted = ap (sids s.queue.tx.tail) one;
        grows = omega arith;
      } in
    rw (← number, ← same) done

-- What a round of the consumer has done.
abbrev after_round : Shared → Shared
after_round s = record {
  queue = record s.queue { bar = consumed_region s.queue.tx s.local_head s.queue.bar };
  local_head = s.local_head + 1;
}

consumes-Serves :
    (s : Shared) {c : Consumed} {head : ℕ} {bar : BarMapping}
    → InService s
    → s.queue.tx.tail < 2 ^ 64
    → consume_round s.queue.tx.slot_stride s.queue.tx.depth s.local_head s.queue.bar
      ≡ ok (some c, head, bar)
    → Serves s.queue.tx.slot_stride s.queue.tx.depth s
        (completed c.sid)
        (record { queue = record s.queue { bar = bar }; local_head = head })
consumes-Serves s {c} {head} {bar} v small e = elim (dec_lt s.local_head s.queue.tx.tail) [
  | yes lt ↦
      let round = consume_waiting v lt (omega arith) in
      let number : s.local_head % 2 ^ 32 ≡ c.sid = cc in
      let moved : s.local_head + 1 ≡ head = cc in
      let region : consumed_region s.queue.tx s.local_head s.queue.bar ≡ bar = cc in
      let count : s.queue.tx.tail - s.local_head ≡ suc (s.queue.tx.tail - (s.local_head + 1)) =
        omega arith in
      let none_new : s.queue.tx.tail - s.queue.tx.tail ≡ 0 = omega arith in
      let done : Serves s.queue.tx.slot_stride s.queue.tx.depth s
          (completed (s.local_head % 2 ^ 32)) (after_round s) =
        record {
          service = consumed-Served v lt;
          fifo =
              subst
                (λ xs.
                  Fifo s.queue.tx.depth xs (completed (s.local_head % 2 ^ 32))
                    (in_flight (after_round s)))
                (sym (ap (sids s.local_head) count)) (dequeue (s.local_head % 2 ^ 32));
          same_stride = refl;
          same_depth = refl;
          counted = ap (sids s.queue.tx.tail) none_new;
          grows = omega arith;
        } in
      rw (← number, ← moved, ← region) done
  | no ge ↦ let round = consume_idle v (let ordered = v.slots.ordered in omega arith) in cc
]

waits-Serves :
    (s : Shared) {head : ℕ} {bar : BarMapping}
    → InService s
    → s.queue.tx.tail < 2 ^ 64
    → consume_round s.queue.tx.slot_stride s.queue.tx.depth s.local_head s.queue.bar
      ≡ ok (none, head, bar)
    → Serves s.queue.tx.slot_stride s.queue.tx.depth s silent
        (record { queue = record s.queue { bar = bar }; local_head = head })
waits-Serves s {head} {bar} v small e = elim (dec_lt s.local_head s.queue.tx.tail) [
  | yes lt ↦ (let round = consume_waiting v lt (omega arith) in cc)
  | no ge ↦
      let round = consume_idle v (let ordered = v.slots.ordered in omega arith) in
      let unmoved : s.local_head ≡ head = cc in
      let region : s.queue.bar ≡ bar = cc in
      let none_new : s.queue.tx.tail - s.queue.tx.tail ≡ 0 = omega arith in
      let done : Serves s.queue.tx.slot_stride s.queue.tx.depth s silent s = record {
        service = v;
        fifo = stutter;
        same_stride = refl;
        same_depth = refl;
        counted = ap (sids s.queue.tx.tail) none_new;
        grows = omega arith;
      } in
      rw (← unmoved, ← region) done
]

pub ServeStep-Serves :
    {s s' : Shared} {e : Event}
    → InService s
    → ServeStep s.queue.tx.slot_stride s.queue.tx.depth s e s'
    → Serves s.queue.tx.slot_stride s.queue.tx.depth s e s'
ServeStep-Serves {s} v (submits payload small h) = submits-Serves s payload v small h
ServeStep-Serves {s} v (consumes small h) = consumes-Serves s v small h
ServeStep-Serves {s} v (waits small h) = waits-Serves s v small h

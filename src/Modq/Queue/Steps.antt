-- ===== src/Modq/Queue/Steps.antt =====
-- The queue of crates/otap-modq, with the device beside it, as a first-in first-out queue of the
-- sequence numbers in flight.
use otap_signup_validator.Common.{
  ℕ, ◌+◌, ◌%◌, ◌^◌, ◌≤◌, ◌<◌, ◌≡◌, ◌∙◌, inl, inr, arith, sym, subst, ap, append_assoc, append-nil,
  ◌-◌, List, [], ◌∷◌, ◌++◌, length, none, some, ok,
}
use otap_signup_validator.Modq.Bar.{BarMapping}
use otap_signup_validator.Modq.Ring.{SlotCompletion}
use otap_signup_validator.Modq.Ring.Device.{DeviceStep, device-Slots}
use otap_signup_validator.Modq.Queue.{ModqQueue, queue_submit, queue_poll, submitted_count}
use otap_signup_validator.Modq.Queue.Submission.{
  Valid, pending, Works, length-sids, queue_submit_lem,
}
use otap_signup_validator.Modq.Queue.Polling.{queue_poll_lem}

-- What a client of the queue sees of a step.
pub data Event : Type 0 where
  submitted : ℕ → Event
  completed : ℕ → Event
  silent : Event

-- A step of the queue: an accepted submission, a poll, or a step of the device.
pub data Step (q : ModqQueue) : Event → ModqQueue → Type 0 where
  submits :
      (device : BarMapping → BarMapping) (payload : List ℕ) {sid : ℕ} {q' : ModqQueue}
      → Works q device
      → q.tx.tail + 1 < 2 ^ 64
      → queue_submit device q payload ≡ ok (sid, q')
      → Step q (submitted sid) q'
  takes :
      {c : SlotCompletion} {q' : ModqQueue}
      → q.tx.tail < 2 ^ 64
      → queue_poll q ≡ ok (some c, q')
      → Step q (completed c.sequence_id) q'
  waits : {q' : ModqQueue} → q.tx.tail < 2 ^ 64 → queue_poll q ≡ ok (none, q') → Step q silent q'
  works :
      (bar' : BarMapping)
      → DeviceStep q.tx.slot_stride q.tx.depth q.bar bar'
      → Step q silent (record q { bar = bar' })

-- A step of a first-in first-out queue with room for `room` numbers.
pub data Fifo (room : ℕ) : List ℕ → Event → List ℕ → Type 0 where
  enqueue :
      {xs : List ℕ} (sid : ℕ) → length xs < room → Fifo room xs (submitted sid) (xs ++ (sid ∷ []))
  dequeue : {xs : List ℕ} (sid : ℕ) → Fifo room (sid ∷ xs) (completed sid) xs
  stutter : {xs : List ℕ} → Fifo room xs silent xs

-- The queue is in order after a step, which a first-in first-out queue makes on the numbers in flight.
abbrev pub IsFifo : ModqQueue → Event → ModqQueue → Type 0
IsFifo q e q' = Valid q' × Fifo q.tx.depth (pending q) e (pending q')

submits-IsFifo :
    {q q' : ModqQueue} (device : BarMapping → BarMapping) (payload : List ℕ) {sid : ℕ}
    → Valid q
    → Works q device
    → q.tx.tail + 1 < 2 ^ 64
    → queue_submit device q payload ≡ ok (sid, q')
    → IsFifo q (submitted sid) q'
submits-IsFifo {q} {q'} device payload {sid} v w small e =
    elim (queue_submit_lem q device payload v w small) [
      | inl (large, refused) ↦ cc
      | inr (inl (room, q₁, accepted, valid, grown, held)) ↦
          let same : q₁ ≡ q' = cc in
          let number : submitted_count q % 2 ^ 32 ≡ sid = cc in
          (
            subst Valid same valid,
            subst (λ n. Fifo q.tx.depth (pending q) (submitted n) (pending q')) number
                (subst
                  (λ ys. Fifo q.tx.depth (pending q) (submitted (submitted_count q % 2 ^ 32)) ys)
                  (sym grown ∙ ap pending same) (enqueue (submitted_count q % 2 ^ 32) room)),
          )
      | inr (inr (full, late)) ↦ cc
    ]

takes-IsFifo :
    {q q' : ModqQueue} {c : SlotCompletion}
    → Valid q
    → q.tx.tail < 2 ^ 64
    → queue_poll q ≡ ok (some c, q')
    → IsFifo q (completed c.sequence_id) q'
takes-IsFifo {q} {q'} {c} v small e = elim (queue_poll_lem v small) [
  | inl (waiting, nothing) ↦ cc
  | inr (done, sid, q₁, taken, valid, shrunk) ↦
      let same : q₁ ≡ q' = cc in
      let number : sid ≡ c.sequence_id = cc in
      (
        subst Valid same valid,
        subst (λ n. Fifo q.tx.depth (pending q) (completed n) (pending q')) number
            (subst (λ xs. Fifo q.tx.depth xs (completed sid) (pending q'))
              (sym (shrunk ∙ ap (λ p. sid ∷ pending p) same)) (dequeue sid)),
      )
]

waits-IsFifo :
    {q q' : ModqQueue}
    → Valid q
    → q.tx.tail < 2 ^ 64
    → queue_poll q ≡ ok (none, q')
    → IsFifo q silent q'
waits-IsFifo {q} {q'} v small e = elim (queue_poll_lem v small) [
  | inl (waiting, nothing) ↦
      let same : q ≡ q' = cc in
      (subst Valid same v, subst (λ p. Fifo q.tx.depth (pending q) silent (pending p)) same stutter)
  | inr (done, sid, q₁, taken, valid, shrunk) ↦ cc
]

-- Every step from a queue in order, an accepted submission, a poll or a step of the device, leaves it
-- in order, and on the sequence numbers in flight it is the step of a first-in first-out queue with
-- room for one number per slot: a submission appends its number where there was room, a completion
-- takes the oldest one, and a poll that finds nothing and a step of the device change nothing. There
-- have been fewer than 2^64 submissions, the one at hand included.
pub Step-IsFifo : {q q' : ModqQueue} {e : Event} → Valid q → Step q e q' → IsFifo q e q'
Step-IsFifo v (submits device payload w small h) = submits-IsFifo device payload v w small h
Step-IsFifo v (takes small h) = takes-IsFifo v small h
Step-IsFifo v (waits small h) = waits-IsFifo v small h
Step-IsFifo {q} v (works bar' h) = (
  record {
    same_depth = v.same_depth;
    same_stride = v.same_stride;
    narrow = v.narrow;
    numbered = v.numbered;
    slots = device-Slots v.slots bar' h;
  },
  stutter,
)

-- Any number of steps, with what a client sees of them in order.
pub data Run : ModqQueue → List Event → ModqQueue → Type 0 where
  here : {q : ModqQueue} → Run q [] q
  next :
      {q q₁ q₂ : ModqQueue} {e : Event} {es : List Event}
      → Step q e q₁
      → Run q₁ es q₂
      → Run q (e ∷ es) q₂

abbrev pub submissions : List Event → List ℕ
submissions [] = []
submissions (submitted sid ∷ es) = sid ∷ submissions es
submissions (completed _ ∷ es) = submissions es
submissions (silent ∷ es) = submissions es

abbrev pub completions_of : List Event → List ℕ
completions_of [] = []
completions_of (submitted _ ∷ es) = completions_of es
completions_of (completed sid ∷ es) = sid ∷ completions_of es
completions_of (silent ∷ es) = completions_of es

pub Fifo-balance :
    {room : ℕ} {xs ys : List ℕ} {e : Event} (es : List Event) (zs : List ℕ)
    → Fifo room xs e ys
    → ys ++ submissions es ≡ completions_of es ++ zs
    → xs ++ submissions (e ∷ es) ≡ completions_of (e ∷ es) ++ zs
Fifo-balance {xs} es zs (enqueue sid _) h = sym (append_assoc xs (sid ∷ []) (submissions es)) ∙ h
Fifo-balance es zs (dequeue sid) h = ap (λ rest. sid ∷ rest) h
Fifo-balance es zs stutter h = h

-- After any number of steps from a queue in order, the queue is in order and holds at most as many
-- submissions as it has slots, and the numbers in flight at the start followed by those submitted are
-- the numbers completed followed by those still in flight: nothing is lost, repeated or reordered.
pub Run_lem :
    {q q' : ModqQueue} {es : List Event}
    → Valid q
    → Run q es q'
    → Valid q'
      × (pending q ++ submissions es ≡ completions_of es ++ pending q')
      × (length (pending q') ≤ q'.tx.depth)
Run_lem {q} v here =
    let size = length-sids q.completions.head (q.tx.tail - q.completions.head) in
    let bounded = v.slots.bounded in (v, append-nil (pending q), omega (arith, size))
Run_lem v (next {q₂} {es} s r) =
    let (v₁, fifo) = Step-IsFifo v s in
    let (v₂, balance, bound) = Run_lem v₁ r in
    (v₂, Fifo-balance es (pending q₂) fifo balance, bound)

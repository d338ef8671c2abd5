-- ===== src/Obg/QueueLaws.antt =====
-- The queues: what a post needs, the order of transmission, and what a completion queue keeps.
use Prim.Native.Nat.{max}
use native.Mathlib.Decide.{dec_le}
use otap_signup_validator.Common.{
  ℕ, suc, ◌+◌, ◌-◌, ◌%◌, ◌^◌, ◌≤◌, ◌<◌, ◌≡◌, ◌↔◌, ◌∙◌, ap, refl, arith, List, [], ◌∷◌, ◌++◌,
  append_assoc, map, length, length-append, drop, true, false, ◌⊎◌, inl, inr, Result-cases, is_ok,
  ok, append-nil, All,
}
use otap_signup_validator.Core.Float.{Float32}
use otap_signup_validator.Core.Dimensions.{new_micro}
use otap_signup_validator.Core.Transient.{new_transient}
use otap_signup_validator.Crypto.Hmac.{Hmac}
use otap_signup_validator.Schema.Registry.{payload_bytes}
use otap_signup_validator.Codec.Encoder.{Encoder, encode_raw}
use otap_signup_validator.Codec.Sequence.{wrapping_from}
use otap_signup_validator.Obg.Queues.{
  WorkRequest, validate, SendQueue, post, Completion, CompletionQueue, new_completion_queue, push,
}
use otap_signup_validator.Obg.Driver.{SoftDriver, oam_for_schema, drain, transmit_pending}

pub post_lem :
    (q : SendQueue) (wr : WorkRequest) (payload : List ℕ) {q' : SendQueue}
    → post q wr payload ≡ ok q'
    → (q'.requests ≡ q.requests ++ ((wr, payload) ∷ []))
      × (q'.capacity ≡ q.capacity)
      × (length q'.requests ≤ q'.capacity)
unfolding post validate
post_lem q wr payload h = ground (arith, length-append q.requests ((wr, payload) ∷ []))

-- A post is accepted exactly when the descriptor's length is that of its schema and the queue has
-- room, whatever the length of the payload. Either it is refused, or the queue that is left has the
-- request with its payload behind those it had, the same capacity, and is within it.
pub post_iff :
    (q : SendQueue) (wr : WorkRequest) (payload : List ℕ)
    → ((is_ok (post q wr payload) ≡ true)
        ↔ (wr.payload_len ≡ payload_bytes wr.schema_id) × (length q.requests < q.capacity))
      × ((is_ok (post q wr payload) ≡ false)
          ⊎ ((q' : SendQueue) × (post q wr payload ≡ ok q')
              × (q'.requests ≡ q.requests ++ ((wr, payload) ∷ []))
              × (q'.capacity ≡ q.capacity)
              × (length q'.requests ≤ q'.capacity)))
unfolding post validate
post_iff q wr payload = (
  ground arith,
  elim (Result-cases (post q wr payload)) [
    | inl (q', posted) ↦
        let (stored, kept, room) = post_lem q wr payload posted in
        inr (q', posted, stored, kept, room)
    | inr (e, refused) ↦ inl (ap is_ok refused)
  ],
)

-- Pushing one completion after another.
abbrev pub push_run : CompletionQueue → List Completion → CompletionQueue
push_run q [] = q
push_run q (c ∷ cs) = push_run (push q c) cs

abbrev holding : ℕ → List Completion → CompletionQueue
holding k xs = record { completions = xs; capacity = k }

push_empty : (k : ℕ) (c : Completion) → push (holding k []) c ≡ holding k (c ∷ [])
unfolding push
push_empty k c = ground arith

push_full :
    (k : ℕ) (x c : Completion) (xs : List Completion)
    → k ≤ suc (length xs)
    → push (holding k (x ∷ xs)) c ≡ holding k (xs ++ (c ∷ []))
unfolding push
push_full k x c xs h = ground arith

push_room :
    (k : ℕ) (x c : Completion) (xs : List Completion)
    → suc (length xs) < k
    → push (holding k (x ∷ xs)) c ≡ holding k (x ∷ (xs ++ (c ∷ [])))
unfolding push
push_room k x c xs h = ground arith

-- A run from a queue that holds `xs`.
push_run_from :
    (cs : List Completion) (k : ℕ) (xs : List Completion)
    → length xs ≤ max 1 k
    → (push_run (holding k xs) cs).completions ≡ drop (length xs + length cs - max 1 k) (xs ++ cs)
push_run_from [] k xs h =
    let nothing : length xs + 0 - max 1 k ≡ 0 = omega arith in rw (append-nil, nothing)
push_run_from (c ∷ cs) k [] h =
    ap (λ q. (push_run q cs).completions) (push_empty k c)
    ∙ push_run_from cs k (c ∷ []) (omega arith)
    ∙ ap (λ n. drop n (c ∷ cs)) (omega arith)
push_run_from (c ∷ cs) k (x ∷ xs) h =
    let size = length-append xs (c ∷ []) in
    let regroup = append_assoc xs (c ∷ []) cs in
    elim (dec_le k (suc (length xs))) [
      | yes full ↦
          let count : suc (length xs) + suc (length cs) - max 1 k
              ≡ suc (length (xs ++ (c ∷ [])) + length cs - max 1 k) =
            omega (arith, size) in
          ap (λ q. (push_run q cs).completions) (push_full k x c xs full)
          ∙ push_run_from cs k (xs ++ (c ∷ [])) (omega (arith, size))
          ∙ rw (regroup, count)
      | no room ↦
          let count : suc (length xs) + suc (length cs) - max 1 k
              ≡ suc (length (xs ++ (c ∷ []))) + length cs - max 1 k =
            omega (arith, size) in
          ap (λ q. (push_run q cs).completions) (push_room k x c xs (omega arith))
          ∙ push_run_from cs k (x ∷ (xs ++ (c ∷ []))) (omega (arith, size))
          ∙ rw (regroup, count)
    ]

-- A completion queue keeps the newest completions, in order, as many as its capacity but at least
-- one: a queue of capacity 0 holds the last one.
pub push_run-new :
    (capacity : ℕ) (cs : List Completion)
    → (push_run (new_completion_queue capacity) cs).completions
      ≡ drop (length cs - max 1 capacity) cs
unfolding new_completion_queue
push_run-new capacity cs =
    push_run_from cs capacity [] (omega arith) ∙ ap (λ n. drop n cs) (omega arith)

module _ (F : Type 0) ⦃fl : Float32 F⦄ ⦃hm : Hmac⦄ where
  drain_order :
      (requests : List (WorkRequest × List ℕ)) (enc : Encoder)
      → let (out, _) = drain {F = F} enc requests in
        (map (λ s. s.1) out ≡ map (λ r. r.0.cookie) requests)
        × (map (λ s. s.0.payload) out ≡ map (λ r. r.1) requests)
        × (map (λ s. s.0.oam) out ≡ map (λ r. oam_for_schema r.0.schema_id) requests)
        × (map (λ s. s.0.micro.sequence) out ≡ wrapping_from (length requests) enc.next_sequence)
  unfolding drain encode_raw new_transient new_micro
  drain_order [] enc = (refl, refl, refl, refl)
  drain_order ((wr, payload) ∷ rest) enc =
      let (cookies, payloads, modes, sequences) =
        drain_order rest (record enc { next_sequence = (enc.next_sequence + 1) % 2 ^ 16 }) in
      (
        ap (λ t. wr.cookie ∷ t) cookies,
        ap (λ t. payload ∷ t) payloads,
        ap (λ t. oam_for_schema wr.schema_id ∷ t) modes,
        ap (λ t. enc.next_sequence ∷ t) sequences,
      )

  drain_wavelength :
      (requests : List (WorkRequest × List ℕ)) (enc : Encoder)
      → All (λ s. s.0.wavelength ≡ enc.wavelength) (drain {F = F} enc requests).0
  unfolding drain encode_raw new_transient
  drain_wavelength [] enc = tt
  drain_wavelength ((wr, payload) ∷ rest) enc = (
    refl,
    drain_wavelength rest (record enc { next_sequence = (enc.next_sequence + 1) % 2 ^ 16 }),
  )

  -- `transmit_pending` sends every queued request once and in the order of posting: cookies, payloads
  -- and modes follow the queue, the sequence numbers count up from the encoder's and wrap at 2^16,
  -- every Transient goes out on the driver's own wavelength, whatever the request names, and the queue
  -- is left empty.
  pub transmit_pending_order :
      (driver : SoftDriver F) (send : SendQueue)
      → let (out, _, left) = transmit_pending driver send in
        (map (λ s. s.1) out ≡ map (λ r. r.0.cookie) send.requests)
        × (map (λ s. s.0.payload) out ≡ map (λ r. r.1) send.requests)
        × (map (λ s. s.0.oam) out ≡ map (λ r. oam_for_schema r.0.schema_id) send.requests)
        × (map (λ s. s.0.micro.sequence) out
            ≡ wrapping_from (length send.requests) driver.encoder.next_sequence)
        × All (λ s. s.0.wavelength ≡ driver.encoder.wavelength) out
        × (left.requests ≡ [])
  unfolding transmit_pending
  transmit_pending_order driver send =
      let (cookies, payloads, modes, sequences) = drain_order send.requests driver.encoder in
      (cookies, payloads, modes, sequences, drain_wavelength send.requests driver.encoder, refl)

-- ===== src/Obg/Loopback.antt =====
-- From one driver's send queue over `transmit_pending` and `receive` to another's completions.
use otap_signup_validator.Common.{
  ℕ, suc, ◌+◌, ◌%◌, ◌^◌, ◌≤◌, ◌≡◌, ◌∙◌, refl, arith, List, [], ◌∷◌, ◌++◌, append_assoc, append-nil,
  map, length, length-append, All, true, ok, ◌>>=◌,
}
use otap_signup_validator.Core.Float.{Float32}
use otap_signup_validator.Core.Dimensions.{Wavelength, new_micro}
use otap_signup_validator.Core.Transient.{Transient}
use otap_signup_validator.Crypto.Hmac.{Hmac}
use otap_signup_validator.Crypto.Verify.{topological}
use otap_signup_validator.Schema.Registry.{AnySchemaValue, order, tick, heartbeat}
use otap_signup_validator.Schema.Registry.Dispatch.{
  mode_of, id_of, encode_any, IsValue, decode_any-encode_any,
}
use otap_signup_validator.Codec.Encoder.{Encoder, encode_raw}
use otap_signup_validator.Codec.Decoder.{DecodeReport, decode}
use otap_signup_validator.Codec.RoundTrip.{sent, verdict-sent, decode-encode_raw}
use otap_signup_validator.Obg.Queues.{
  ObgResult, WorkRequest, new_request, validate, SendQueue, new_send_queue, post, Completion,
  CompletionQueue, push,
}
use otap_signup_validator.Obg.Driver.{
  SoftDriver, oam_for_schema, completion_of, drain, transmit_pending, receive,
}
use otap_signup_validator.Obg.QueueLaws.{push_run}

-- The request and the payload for a value, as an application makes them.
abbrev pub request_of : Wavelength → AnySchemaValue × ℕ → WorkRequest × List ℕ
request_of w (v, cookie) = (new_request (id_of v) w (length (encode_any v)) cookie, encode_any v)

-- Posting one value after another, up to the first refusal.
abbrev pub post_run : SendQueue → Wavelength → List (AnySchemaValue × ℕ) → ObgResult SendQueue
post_run q w [] = ok q
post_run q w (x ∷ xs) =
    let (wr, payload) = request_of w x in post q wr payload >>= λ q'. post_run q' w xs

abbrev pub queued : List (WorkRequest × List ℕ) → ℕ → SendQueue
queued requests capacity = record { requests = requests; capacity = capacity }

abbrev pub AllValues : List (AnySchemaValue × ℕ) → Type 0
AllValues xs = All (λ x. IsValue x.0) xs

pub post-request_of :
    (requests : List (WorkRequest × List ℕ)) (capacity : ℕ) (w : Wavelength)
    (x : AnySchemaValue × ℕ)
    → IsValue x.0
    → suc (length requests) ≤ capacity
    → post (queued requests capacity) (request_of w x).0 (request_of w x).1
      ≡ ok (queued (requests ++ (request_of w x ∷ [])) capacity)
unfolding post validate new_request
post-request_of requests capacity w x h room = ground (arith, (decode_any-encode_any x.0 h).2)

pub post_run_from :
    (xs : List (AnySchemaValue × ℕ)) (requests : List (WorkRequest × List ℕ)) (capacity : ℕ)
    (w : Wavelength)
    → AllValues xs
    → length requests + length xs ≤ capacity
    → post_run (queued requests capacity) w xs
      ≡ ok (queued (requests ++ map (request_of w) xs) capacity)
post_run_from [] requests capacity w h room = rw append-nil refl
post_run_from (x ∷ xs) requests capacity w (h, hs) room =
    rw (post-request_of requests capacity w x h (omega arith)) (
      post_run_from xs (requests ++ (request_of w x ∷ [])) capacity w hs
        (omega (arith, length-append requests (request_of w x ∷ [])))
      ∙ rw (append_assoc requests (request_of w x ∷ []) (map (request_of w) xs)) refl)

-- What arrives for the values, from a sequence number on.
abbrev pub arrivals : List (AnySchemaValue × ℕ) → ℕ → List Completion
arrivals [] s = []
arrivals (x ∷ xs) s =
    record { value = x.0; auth_ok = true; sequence = s; cookie = 0 }
    ∷ arrivals xs ((s + 1) % 2 ^ 16)

pub oam_for_schema-id_of : (v : AnySchemaValue) → oam_for_schema (id_of v) ≡ mode_of v
unfolding oam_for_schema
oam_for_schema-id_of (order o) = refl
oam_for_schema-id_of (tick t) = refl
oam_for_schema-id_of (heartbeat b) = refl

module _ (F : Type 0) ⦃fl : Float32 F⦄ ⦃hm : Hmac⦄ where
  -- One `receive` after another.
  abbrev pub receive_run : SoftDriver F → List (Transient F) → CompletionQueue → CompletionQueue
  receive_run driver [] cq = cq
  receive_run driver (t ∷ ts) cq = receive_run driver ts (receive driver t cq)

  -- The receiver decodes what the encoder sends, on one channel with one key.
  pub record Paired (enc : Encoder) (receiver : SoftDriver F) : Type 0 where
    pub channel : receiver.decoder.expected_wavelength ≡ enc.wavelength
    pub key : receiver.decoder.secret ≡ enc.secret
    pub mode : receiver.decoder.auth_mode ≡ topological

  pub receive-eq-push :
      (receiver : SoftDriver F) (t : Transient F) (cq : CompletionQueue) {r : DecodeReport}
      → decode receiver.decoder t ≡ ok r
      → receive receiver t cq ≡ push cq (completion_of r)
  unfolding receive
  receive-eq-push receiver t cq e = rw (e, receive)

  receive-sent :
      (enc : Encoder) (receiver : SoftDriver F) (v : AnySchemaValue) (cq : CompletionQueue)
      → Paired enc receiver
      → IsValue v
      → receive receiver (sent enc v) cq
        ≡ push cq (record { value = v; auth_ok = true; sequence = enc.next_sequence; cookie = 0 })
  unfolding new_micro
  receive-sent enc receiver v cq p h =
      receive-eq-push receiver (sent enc v) cq
        (decode-encode_raw enc receiver.decoder v h p.channel)
      ∙ rw (verdict-sent enc receiver.decoder v p.key p.mode)

  receive_run-drain :
      (xs : List (AnySchemaValue × ℕ)) (enc : Encoder) (receiver : SoftDriver F) (w : Wavelength)
      (cq : CompletionQueue)
      → Paired enc receiver
      → AllValues xs
      → receive_run receiver (map (λ s. s.0) (drain {F = F} enc (map (request_of w) xs)).0) cq
        ≡ push_run cq (arrivals xs enc.next_sequence)
  unfolding drain new_request encode_raw
  receive_run-drain [] enc receiver w cq p h = refl
  receive_run-drain (x ∷ xs) enc receiver w cq p (h, hs) =
      let enc' = record enc { next_sequence = (enc.next_sequence + 1) % 2 ^ 16 } in
      rw (oam_for_schema-id_of x.0, receive-sent enc receiver x.0 cq p h)
        (receive_run-drain xs enc' receiver w _
          (record { channel = p.channel; key = p.key; mode = p.mode }) hs)

  -- Posting values in range, of whatever schemas, to an empty queue with room for them all is
  -- accepted. When that queue is transmitted, and every Transient is received in order by a driver
  -- with the sender's wavelength and key in the topological mode, the completions pushed to the
  -- receiver's queue are exactly those values in the order of posting, each once and reported as
  -- authentic, with sequence numbers that count up from the sender's and wrap at 2^16.
  pub receive_run-transmit_pending :
      (xs : List (AnySchemaValue × ℕ)) (capacity : ℕ) (w : Wavelength)
      (sender receiver : SoftDriver F) (cq : CompletionQueue)
      → AllValues xs
      → length xs ≤ capacity
      → Paired sender.encoder receiver
      → (send : SendQueue) × (post_run (new_send_queue capacity) w xs ≡ ok send)
        × (receive_run receiver (map (λ s. s.0) (transmit_pending sender send).0) cq
            ≡ push_run cq (arrivals xs sender.encoder.next_sequence))
  unfolding transmit_pending new_send_queue
  receive_run-transmit_pending xs capacity w sender receiver cq h room p = (
    queued (map (request_of w) xs) capacity,
    post_run_from xs [] capacity w h (omega arith),
    receive_run-drain xs sender.encoder receiver w cq p h,
  )

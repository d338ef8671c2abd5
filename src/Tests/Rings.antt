-- ===== src/Tests/Rings.antt =====
-- The queue over BAR memory on a loopback region of two slots.
use otap_signup_validator.Common.{
  ℕ, zero, suc, ◌+◌, ◌%◌, ◌≤◌, ◌<◌, ◌≡◌, ◌⊎◌, refl, subst, arith, List, [], ◌∷◌, ◌++◌, length,
  replicate, length-replicate, slice, some, true, ok, err, is_ok,
}
use otap_signup_validator.Modq.Bar.{BarMapping}
use otap_signup_validator.Modq.Bar.Words.{word_at, put, word_at-put_self}
use otap_signup_validator.Modq.Ring.{with_params, slot_base, slot_hdr_status, slot_done, slot_free}
use otap_signup_validator.Modq.Ring.Slots.{Slots-Placed, status_of}
use otap_signup_validator.Modq.Ring.Device.{idle, complete}
use otap_signup_validator.Modq.Ring.Fill.{filled_status, length-filled}
use otap_signup_validator.Modq.Queue.{
  Os, ModqConfig, loopback, ModqError, ModqQueue, open_stride, open_shm, open_queue, queue_capacity,
}
use otap_signup_validator.Modq.Queue.Submission.{Valid, pending, after_submit, submit_room}
use otap_signup_validator.Modq.Queue.Polling.{head_status, after_poll, poll_done}
use otap_signup_validator.Modq.Queue.Steps.{
  Event, silent, submitted, completed, submits, takes, submissions, completions_of, Step, works,
  IsFifo, Step-IsFifo, here, next, Run_lem,
}
use otap_signup_validator.Schema.Registry.{SchemaId, order_id}
use otap_signup_validator.Modq.Queue.Opened.{MapsWhole, open_queue_lem}

-- Shared memory that is there and reads as zeros.
abbrev pub zeros_os : Os
zeros_os = record {
  Fd = ℕ;
  IoError = ℕ;
  open_file = λ path. ok 3;
  metadata_len = λ fd. ok 4224;
  shm_open = λ name. some 3;
  ftruncate = λ fd size. true;
  mmap = λ fd size. some (record { memory = replicate size 0 });
}

pub zeros_os-MapsWhole : MapsWhole zeros_os
zeros_os-MapsWhole = record {
  whole = λ fd size {bar} e.
      let same : record { memory = replicate size 0 } ≡ bar = cc in
      subst (λ b. length b.memory ≡ size) same (length-replicate {A = ℕ} size 0);
}

abbrev pub config : ModqConfig
config = record { transport = loopback (115 ∷ []); ring_depth = 2; slot_size = 16 }

open_queue_lem_example :
    ((e : ModqError ℕ) × (open_shm zeros_os (115 ∷ []) (slot_base (open_stride 16) 2) ≡ err e)
      × (open_queue zeros_os config ≡ err e))
    ⊎ ((q : ModqQueue) × (is_ok (open_shm zeros_os (115 ∷ []) (slot_base (open_stride 16) 2))
          ≡ true)
        × (open_queue zeros_os config ≡ ok q)
        × Valid q
        × (pending q ≡ [])
        × (q.tx ≡ with_params 2 16))
open_queue_lem_example =
    open_queue_lem zeros_os zeros_os-MapsWhole config (115 ∷ []) refl refl (omega arith)

-- An empty queue of two slots of 64 bytes.
abbrev pub queue : ModqQueue
queue = record {
  bar = record { memory = replicate 4224 0 };
  tx = record { depth = 2; slot_stride = 64; tail = 0; next_sid = 0 };
  completions = record { depth = 2; slot_stride = 64; head = 0 };
  config = config;
}

queue_vacant :
    (k : ℕ)
    → 0 ≤ k
    → k < 2
    → status_of 64 (record { memory = replicate 4224 0 }) (k % 2) ≡ slot_free
unfolding word_at slice
queue_vacant zero le lt = refl
queue_vacant (suc zero) le lt = refl
queue_vacant (suc (suc k)) le lt = absurd (omega arith)

pub queue-Valid : Valid queue
queue-Valid = record {
  same_depth = refl;
  same_stride = refl;
  narrow = omega arith;
  numbered = refl;
  slots = record {
    some_slot = omega arith;
    room_for_header = omega arith;
    region = omega (arith, length-replicate {A = ℕ} 4224 0);
    ordered = omega arith;
    bounded = omega arith;
    in_flight = λ k le lt. absurd (omega (arith, lt));
    vacant = queue_vacant;
  };
}

-- Three bytes are submitted, the device completes them, and the completion is taken.
abbrev pub payload : List ℕ
payload = 1 ∷ 2 ∷ 3 ∷ []

abbrev submitted_queue : ModqQueue
submitted_queue = after_submit queue payload

submission : Step queue (submitted 0) submitted_queue
unfolding queue_capacity
submission =
    submits (λ bar. bar) payload (λ bar. idle) (omega arith)
      (submit_room queue-Valid (λ bar. bar) payload (omega arith) (omega arith) (omega arith))

Step-IsFifo_example : IsFifo queue (submitted 0) submitted_queue
Step-IsFifo_example = Step-IsFifo queue-Valid submission

abbrev done_bar : BarMapping
done_bar = put submitted_queue.bar (slot_base 64 0 + slot_hdr_status) slot_done

abbrev done_queue : ModqQueue
done_queue = record submitted_queue { bar = done_bar }

completion : Step submitted_queue silent done_queue
completion = works done_bar (
    complete 0 (omega arith)
      (filled_status (Slots-Placed queue-Valid.slots) 0 payload (omega arith) 1))

done_queue-Valid : Valid done_queue
done_queue-Valid = (Step-IsFifo Step-IsFifo_valid completion).0
  where
    Step-IsFifo_valid : Valid submitted_queue
    Step-IsFifo_valid = (Step-IsFifo queue-Valid submission).0

done_status : head_status done_queue ≡ slot_done
done_status =
    word_at-put_self submitted_queue.bar (slot_base 64 0 + slot_hdr_status) slot_done
      (omega (arith, length-filled queue.bar 4096 0 1 payload, length-replicate {A = ℕ} 4224 0))
      (omega arith)

taking : Step done_queue (completed 0) (after_poll done_queue)
taking = takes (omega arith) (poll_done done_queue-Valid (omega arith) done_status)

abbrev events : List Event
events = submitted 0 ∷ silent ∷ completed 0 ∷ []

Run_lem_example :
    Valid (after_poll done_queue)
    × (pending queue ++ submissions events
        ≡ completions_of events ++ pending (after_poll done_queue))
    × (length (pending (after_poll done_queue)) ≤ 2)
Run_lem_example = Run_lem queue-Valid (next submission (next completion (next taking here)))

abbrev payloads : List (SchemaId × List ℕ)
payloads = (order_id, payload) ∷ (order_id, []) ∷ []

-- A device that releases slot 0, beside a queue whose two slots are both taken.
abbrev releases : BarMapping → BarMapping
releases bar = put bar (slot_base 64 0 + slot_hdr_status) slot_free

abbrev full_queue : ModqQueue
full_queue = after_submit submitted_queue payload

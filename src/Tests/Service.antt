-- ===== src/Tests/Service.antt =====
-- The queue and the consumer of crates/otap-modq/src/bin/modq_loopback.rs on a region of two slots.
use otap_signup_validator.Common.{
  err, ℕ, zero, suc, slice, ◌+◌, ◌%◌, ◌^◌, ◌<◌, ◌≤◌, ◌≡◌, ◌⊎◌, refl, arith, [], ◌∷◌,
  length-replicate, copy_from_slice, replicate, ◌++◌, ok,
}
use otap_signup_validator.Modq.Bar.{write32, write64}
use otap_signup_validator.Modq.Ring.{
  slot_free, with_params, stride_of, slot_payload_capacity, new_completion_ring, submit,
}
use otap_signup_validator.Modq.Ring.Enqueue.{
  some_spins, advanced, filled_region, submit_vacant, submit_unchecked_vacant,
}
use otap_signup_validator.Modq.Ring.Unchecked.{submit_unchecked-submit}
use otap_signup_validator.Modq.Queue.{
  ModqError, ModqQueue, open_queue, free_slots, open_region, init_loopback, open_shm, open_stride,
  queue_submit, queue_capacity, submitted_count,
}
use otap_signup_validator.Modq.Bar.Words.{word_at}
use otap_signup_validator.Modq.Ring.Slots.{status_of}
use otap_signup_validator.Modq.Queue.Steps.{submitted, completed}
use otap_signup_validator.Modq.Consumer.{consumer_stride, round_of}
use otap_signup_validator.Modq.Consumer.Served.{
  Served, consumed_region, consume_waiting, submitted-Served,
}
use otap_signup_validator.Modq.Consumer.Serving.{InService, Shared, submits, consumes, accepted}
use otap_signup_validator.Modq.Consumer.Runs.{ServeRun, stop, step}
use otap_signup_validator.Modq.Consumer.Waiting.{queue_submit-Served}
use otap_signup_validator.Modq.Consumer.Loopback.{Verified, loopback_lem}
use otap_signup_validator.Modq.Programs.{lazy_consumer, not_opened, loopback_config, loopback_main}
use otap_signup_validator.Modq.Programs.Ordering.{loopback_main_lem}
use otap_signup_validator.Tests.Rings.{
  zeros_os, zeros_os-MapsWhole, config, queue, queue-Valid, payload,
}

queue-Served : Served queue.tx 0 queue.bar
queue-Served = record {
  slots = queue-Valid.slots;
  ready = λ k hk kt. absurd (omega arith);
  numbered = refl;
}

submit_unchecked-submit_example :
    submit (λ bar. bar) queue.tx queue.bar payload
    ≡ ok (0, advanced queue.tx, filled_region queue.tx queue.bar payload)
unfolding slot_payload_capacity
submit_unchecked-submit_example =
    submit_unchecked-submit (λ bar. bar) queue.tx queue.bar payload {rounds = 0} (omega arith)
      (omega (arith, some_spins))
      (submit_unchecked_vacant queue.tx queue-Valid.slots payload (omega arith) (λ bar. bar) 0 refl
        (omega arith) (omega arith))

queue_submit-Served_example :
    (head' : ℕ) × (q' : ModqQueue) × (queue_submit (round_of 64 2 0) queue payload
      ≡ ok (submitted_count queue % 2 ^ 32, q'))
    × Served q'.tx head' q'.bar
    × (q'.tx ≡ advanced queue.tx)
    × ((head' ≡ 0) ⊎ ((head' ≡ 1) × (submitted_count queue ≡ 0 + 2)))
unfolding queue_capacity
queue_submit-Served_example =
    queue_submit-Served queue 0 payload queue-Served (omega arith) (omega arith)

-- The queue as it is opened: depth and slot size stand in their registers.
abbrev opened_queue : ModqQueue
opened_queue = record queue {
  bar = (record {
    memory = replicate 16 0 ++ (2 ∷ replicate 7 0) ++ (16 ∷ []) ++ replicate 4199 0;
  });
}

opened : open_queue zeros_os config ≡ ok opened_queue
unfolding open_queue open_region open_shm init_loopback free_slots open_stride with_params
    new_completion_ring write32 write64 copy_from_slice stride_of
opened = refl

-- Its slots are free.
opened_vacant : (k : ℕ) → 0 ≤ k → k < 2 → status_of 64 opened_queue.bar (k % 2) ≡ slot_free
unfolding word_at slice
opened_vacant zero le lt = refl
opened_vacant (suc zero) le lt = refl
opened_vacant (suc (suc k)) le lt = absurd (omega arith)

opened-Served : Served opened_queue.tx 0 opened_queue.bar
opened-Served = record {
  slots = record {
    some_slot = omega arith;
    room_for_header = omega arith;
    region = omega (arith, length-replicate {A = ℕ} 4199 0);
    ordered = omega arith;
    bounded = omega arith;
    in_flight = λ k le lt. absurd (omega (arith, lt));
    vacant = opened_vacant;
  };
  ready = λ k hk kt. absurd (omega arith);
  numbered = refl;
}

accepted_payload :
    queue_submit (λ bar. bar) opened_queue payload ≡ ok (0, accepted opened_queue payload)
unfolding queue_submit slot_payload_capacity
accepted_payload =
    rw
      (submit_vacant opened_queue.tx opened-Served.slots payload (omega arith) (λ bar. bar) refl
        (omega arith) (omega arith))
      refl

-- One payload is submitted, and the consumer reads it.
abbrev first_shared : Shared
first_shared = record { queue = opened_queue; local_head = 0 }

abbrev second_shared : Shared
second_shared = record first_shared { queue = accepted opened_queue payload }

abbrev last_shared : Shared
last_shared = record {
  queue = record second_shared.queue {
    bar = consumed_region second_shared.queue.tx 0 second_shared.queue.bar;
  };
  local_head = 1;
}

second-InService : InService second_shared
unfolding slot_payload_capacity
second-InService = submitted-Served opened-Served payload (omega arith) (omega arith)

service : ServeRun (consumer_stride 16) 2 first_shared (submitted 0 ∷ completed 0 ∷ []) last_shared
unfolding consumer_stride
service = step (submits payload (omega arith) accepted_payload) (
    step (consumes (omega arith) (consume_waiting second-InService (omega arith) (omega arith)))
      stop)

loopback_lem_example :
    Verified zeros_os zeros_os-MapsWhole config 1 (submitted 0 ∷ completed 0 ∷ []) last_shared
loopback_lem_example =
    loopback_lem zeros_os zeros_os-MapsWhole config (115 ∷ []) 1 refl refl (omega arith) opened
      service (omega arith) (omega arith)

-- The whole programs, on shared memory that reads as zeros.
loopback_main_lem_example :
    let device =
      lazy_consumer (consumer_stride loopback_config.slot_size) loopback_config.ring_depth in
    ((e : ModqError ℕ) × (open_queue zeros_os loopback_config ≡ err e)
      × (loopback_main zeros_os device ≡ err (not_opened e)))
    ⊎ ((q : ModqQueue) × (open_queue zeros_os loopback_config ≡ ok q)
        × (loopback_main zeros_os device ≡ ok 0))
loopback_main_lem_example = loopback_main_lem zeros_os zeros_os-MapsWhole

-- ===== src/Modq/Queue/Answer.antt =====
-- What `ModqQueue::submit` of crates/otap-modq/src/lib.rs answers, beside any device.
use otap_signup_validator.Common.{ℕ, ◌%◌, ◌^◌, ◌≡◌, List}
use otap_signup_validator.Modq.Bar.{BarMapping}
use otap_signup_validator.Modq.Ring.{slot_ready}
use otap_signup_validator.Modq.Ring.Slots.{status_of, sid_of, Elsewhere}
use otap_signup_validator.Modq.Ring.Fill.{payload_of}

-- The slot of submission `k` holds it, and every other slot holds what it held in the other region.
pub record Holds (stride depth k : ℕ) (payload : List ℕ) (before after : BarMapping) : Type 0 where
  pub status : status_of stride after (k % depth) ≡ slot_ready
  pub number : sid_of stride after (k % depth) ≡ k % 2 ^ 32
  pub content : payload_of stride after (k % depth) ≡ payload
  pub others : Elsewhere stride (k % depth) before after

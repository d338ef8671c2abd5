-- ===== src/Modq/Consumer/Served.antt =====
-- A queue that a consumer of crates/otap-modq/src/bin/modq_loopback.rs serves: the invariant of both.
use native.Mathlib.Decide.{ℕ_discrete}
use otap_signup_validator.Common.{
  ℕ, ◌+◌, ◌-◌, ◌%◌, ◌^◌, ◌≤◌, ◌<◌, ◌≡◌, ◌≢◌, refl, ◌∙◌, arith, ap, subst, List, length, none, some,
  false, ok, ◌==◌,
}
use otap_signup_validator.Modq.Bar.{BarMapping, read32, write32}
use otap_signup_validator.Modq.Bar.Words.{
  word_at, put, word_at-put_self, length-put, read32_at, write32_at,
}
use otap_signup_validator.Modq.Ring.{
  TxRing, slot_free, slot_ready, slot_hdr_status, slot_hdr_length, slot_hdr_sid, slot_base,
  slot_payload_capacity,
}
use otap_signup_validator.Modq.Ring.Slots.{
  status_of, Slots, Slots-Placed, Elsewhere, put-Elsewhere, released-Slots,
}
use otap_signup_validator.Modq.Ring.Geometry.{window_apart}
use otap_signup_validator.Modq.Ring.Spin.{index_inside, read_status}
use otap_signup_validator.Modq.Ring.Fill.{filled_status, filled-Elsewhere, filled-Slots}
use otap_signup_validator.Modq.Ring.Enqueue.{advanced, filled_region}
use otap_signup_validator.Modq.Consumer.{consume_round}

-- The submissions from the consumer's head on and before the ring's tail wait in their slots.
pub record Served (tx : TxRing) (head : ℕ) (bar : BarMapping) : Type 0 where
  pub slots : Slots tx.slot_stride tx.depth head tx.tail bar
  pub ready :
      (k : ℕ) → head ≤ k → k < tx.tail → status_of tx.slot_stride bar (k % tx.depth) ≡ slot_ready
  pub numbered : tx.next_sid ≡ tx.tail % 2 ^ 32

-- The region after a round that consumes.
abbrev pub consumed_region : TxRing → ℕ → BarMapping → BarMapping
consumed_region tx head bar =
    put bar (slot_base tx.slot_stride (head % tx.depth) + slot_hdr_status) slot_free

module _ {tx : TxRing} {head : ℕ} {bar : BarMapping} (s : Served tx head bar) where
  kept_ready :
      (i : ℕ) (bar' : BarMapping)
      → Elsewhere tx.slot_stride i bar bar'
      → (k : ℕ) → head ≤ k
      → k < tx.tail
      → i ≢ k % tx.depth
      → status_of tx.slot_stride bar' (k % tx.depth) ≡ slot_ready
  kept_ready i bar' same k hk kt ne =
      same (k % tx.depth) slot_hdr_status ne (omega (arith, s.slots.room_for_header))
      ∙ s.ready k hk kt

  pub submitted-Served :
      (payload : List ℕ)
      → length payload ≤ slot_payload_capacity tx
      → tx.tail < head + tx.depth
      → Served (advanced tx) head (filled_region tx bar payload)
  unfolding slot_payload_capacity
  submitted-Served payload fits room =
      let next_tail = (tx.tail + 1) % 2 ^ 64 % 2 ^ 32 in
      let latest = filled_status (Slots-Placed s.slots) tx.tail payload fits next_tail in
      record {
        slots = filled-Slots s.slots payload fits next_tail room;
        ready = λ k hk kt. elim (ℕ_discrete tx.tail k) [
          | yes e ↦
              subst
                (λ k.
                  status_of tx.slot_stride (filled_region tx bar payload) (k % tx.depth)
                  ≡ slot_ready)
                e latest
          | no ne ↦
              kept_ready (tx.tail % tx.depth) (filled_region tx bar payload)
                (filled-Elsewhere (Slots-Placed s.slots) tx.tail payload fits next_tail) k hk
                (omega (arith, ne))
                (window_apart tx.depth head tx.tail k s.slots.ordered room hk (omega arith) ne)
        ];
        numbered = refl;
      }

  pub consume_waiting :
      head < tx.tail
      → head < 2 ^ 64 - 1
      → consume_round tx.slot_stride tx.depth head bar
        ≡ ok (
          some (record {
            len = word_at bar (slot_base tx.slot_stride (head % tx.depth) + slot_hdr_length);
            sid = head % 2 ^ 32;
          }),
          head + 1,
          consumed_region tx head bar,
        )
  unfolding consume_round
  consume_waiting lt small =
      let base = slot_base tx.slot_stride (head % tx.depth) in
      let wide = s.slots.room_for_header in
      let some_slot = s.slots.some_slot in
      let divisible : (tx.depth == 0) ≡ false = ground arith in
      let at_base : base + slot_hdr_status ≡ base = omega arith in
      let waiting = s.ready head (omega arith) lt in
      let status =
        subst (λ o. read32 bar o ≡ ok slot_ready) at_base
          (read_status s.slots head ∙ ap ok waiting) in
      let read_len =
        read32_at bar (base + slot_hdr_length)
          (index_inside s.slots head slot_hdr_length 4 (omega arith)) in
      let read_sid =
        read32_at bar (base + slot_hdr_sid)
          (index_inside s.slots head slot_hdr_sid 4 (omega arith)) in
      let sid = (s.slots.in_flight head (omega arith) lt).numbered in
      let release =
        write32_at bar (base + slot_hdr_status) slot_free
          (index_inside s.slots head slot_hdr_status 4 (omega arith)) in
      let released =
        subst (λ o. write32 bar o slot_free ≡ ok (put bar (base + slot_hdr_status) slot_free))
          at_base release in
      let whole : (head + 1) % 2 ^ 64 ≡ head + 1 = omega (arith, small) in
      rw (divisible, status, read_len, read_sid, released, sid, whole) refl

  pub consumed-Served : head < tx.tail → Served tx (head + 1) (consumed_region tx head bar)
  consumed-Served lt =
      let i = head % tx.depth in
      let wide = s.slots.room_for_header in
      let same = put-Elsewhere tx.slot_stride i slot_hdr_status slot_free bar (omega arith) in
      let bounded = s.slots.bounded in
      record {
        slots =
            released-Slots s.slots (consumed_region tx head bar) lt same
              (length-put bar (slot_base tx.slot_stride i + slot_hdr_status) slot_free)
              (word_at-put_self bar (slot_base tx.slot_stride i + slot_hdr_status) slot_free
                (index_inside s.slots head slot_hdr_status 4 (omega arith)) (omega arith));
        ready = λ k hk kt. kept_ready i (consumed_region tx head bar) same k (omega arith) kt (
            window_apart tx.depth head head k (omega arith) (omega arith) (omega arith)
              (omega arith) (λ e. omega (arith, e)));
        numbered = s.numbered;
      }

  pub consume_idle :
      tx.tail ≡ head → consume_round tx.slot_stride tx.depth head bar ≡ ok (none, head, bar)
  unfolding consume_round
  consume_idle e =
      let base = slot_base tx.slot_stride (head % tx.depth) in
      let some_slot = s.slots.some_slot in
      let divisible : (tx.depth == 0) ≡ false = ground arith in
      let at_base : base + slot_hdr_status ≡ base = omega arith in
      let free = s.slots.vacant head (omega arith) (omega arith) in
      let status =
        subst (λ o. read32 bar o ≡ ok slot_free) at_base (read_status s.slots head ∙ ap ok free) in
      rw (divisible, status) refl

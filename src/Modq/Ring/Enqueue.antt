-- ===== src/Modq/Ring/Enqueue.antt =====
-- `TxRing::submit` of crates/otap-modq/src/ring.rs on a ring in order: a vacant slot, none, and a payload
-- that does not fit.
use otap_signup_validator.Common.{
  ℕ, zero, suc, some, ◌+◌, ◌-◌, ◌%◌, ◌^◌, ◌≤◌, ◌<◌, ◌≡◌, refl, arith, List, length, ok, err, ltb,
  ◌==◌, true, false,
}
use otap_signup_validator.Modq.Bar.{BarMapping, payload_too_large, timeout}
use otap_signup_validator.Modq.Ring.{
  TxRing, slot_base, slot_payload_offset, slot_payload_capacity, fill_slot, spin, wait_free,
  submit_within, submit, submit_unchecked, max_spins,
}
use otap_signup_validator.Modq.Ring.Slots.{Slots, Placed, Slots-Placed, Placed-inside}
use otap_signup_validator.Modq.Ring.Device.{DeviceStep}
use otap_signup_validator.Modq.Ring.Spin.{read_status, spin_vacant, spin_full}
use otap_signup_validator.Modq.Ring.Fill.{filled, fill_slot_lem}

pub some_spins : max_spins ≡ suc 999_999_999
unfolding max_spins
some_spins = refl

-- The ring after a submission.
abbrev pub advanced : TxRing → TxRing
advanced tx = record tx { tail = tx.tail + 1; next_sid = (tx.tail + 1) % 2 ^ 32 }

-- The region after the writes of a submission.
abbrev pub filled_region : TxRing → BarMapping → List ℕ → BarMapping
filled_region tx bar payload =
    filled bar (slot_base tx.slot_stride (tx.tail % tx.depth)) (tx.tail % 2 ^ 32)
      ((tx.tail + 1) % 2 ^ 64 % 2 ^ 32) payload

wait_vacant :
    {stride depth head tail : ℕ} {bar : BarMapping}
    → Slots stride depth head tail bar
    → (device : BarMapping → BarMapping) (rounds : ℕ) → tail < head + depth
    → wait_free device rounds (slot_base stride (tail % depth)) bar ≡ some (ok bar)
unfolding wait_free
wait_vacant {tail} s device zero room =
    ground (arith, read_status s tail, s.vacant tail (omega arith) room)
wait_vacant {tail} s device (suc rounds) room =
    ground (arith, read_status s tail, s.vacant tail (omega arith) room)

module _ (tx : TxRing) {freed : BarMapping} (s : Placed tx.slot_stride tx.depth freed)
    (payload : List ℕ) (fits : length payload ≤ slot_payload_capacity tx) where
  small_enough : ltb (tx.slot_stride - slot_payload_offset) (length payload) ≡ false
  unfolding slot_payload_capacity
  small_enough = ground arith

  divisible : (tx.depth == 0) ≡ false
  divisible = let some_slot = s.some_slot in ground arith

  pub fill_slot_vacant :
      tx.next_sid ≡ tx.tail % 2 ^ 32
      → fill_slot tx (slot_base tx.slot_stride (tx.tail % tx.depth)) freed payload
        ≡ ok (filled_region tx freed payload)
  unfolding slot_payload_capacity
  fill_slot_vacant numbered =
      let some_payload = s.room_for_header in
      let inside = Placed-inside s tx.tail slot_payload_offset (length payload) (omega arith) in
      let start = Placed-inside s tx.tail slot_payload_offset 1 (omega arith) in
      let fill =
        fill_slot_lem tx (slot_base tx.slot_stride (tx.tail % tx.depth)) freed payload (omega arith)
          inside (omega (arith, start)) in
      rw (← numbered) fill

  -- A submission whose loop has ended.
  pub submit_spun :
      (device : BarMapping → BarMapping) (bar : BarMapping)
      → spin device max_spins
          (slot_base tx.slot_stride (tx.tail % tx.depth))
          (tx.tail % tx.depth)
          bar
        ≡ ok freed
      → tx.next_sid ≡ tx.tail % 2 ^ 32
      → tx.tail + 1 < 2 ^ 64
      → submit device tx bar payload
        ≡ ok (tx.tail % 2 ^ 32, advanced tx, filled_region tx freed payload)
  unfolding submit submit_within
  submit_spun device bar ended numbered small =
      let whole : (tx.tail + 1) % 2 ^ 64 ≡ tx.tail + 1 = omega (arith, small) in
      let next : (tx.tail % 2 ^ 32 + 1) % 2 ^ 32 ≡ (tx.tail + 1) % 2 ^ 32 = omega arith in
      rw (small_enough, divisible, ended, fill_slot_vacant numbered, numbered, whole, next) refl

  -- A submission whose loop has run out of rounds.
  pub submit_late :
      (device : BarMapping → BarMapping)
      → spin device max_spins
          (slot_base tx.slot_stride (tx.tail % tx.depth))
          (tx.tail % tx.depth)
          freed
        ≡ err (timeout (tx.tail % tx.depth))
      → submit device tx freed payload ≡ err (timeout (tx.tail % tx.depth))
  unfolding submit submit_within
  submit_late device late = rw (small_enough, divisible, late) refl

module _ (tx : TxRing) {freed : BarMapping} {head : ℕ}
    (s : Slots tx.slot_stride tx.depth head tx.tail freed) (payload : List ℕ)
    (fits : length payload ≤ slot_payload_capacity tx) where
  pub submit_vacant :
      (device : BarMapping → BarMapping)
      → tx.next_sid ≡ tx.tail % 2 ^ 32
      → tx.tail + 1 < 2 ^ 64
      → tx.tail < head + tx.depth
      → submit device tx freed payload
        ≡ ok (tx.tail % 2 ^ 32, advanced tx, filled_region tx freed payload)
  submit_vacant device numbered small room =
      submit_spun tx (Slots-Placed s) payload fits device freed
        (spin_vacant device max_spins s room) numbered small

  -- `submit_unchecked` with a vacant slot ends at once.
  pub submit_unchecked_vacant :
      (device : BarMapping → BarMapping) (rounds : ℕ)
      → tx.next_sid ≡ tx.tail % 2 ^ 32
      → tx.tail + 1 < 2 ^ 64
      → tx.tail < head + tx.depth
      → submit_unchecked device rounds tx freed payload
        ≡ some (ok (tx.tail % 2 ^ 32, advanced tx, filled_region tx freed payload))
  unfolding submit_unchecked
  submit_unchecked_vacant device rounds numbered small room =
      let whole : (tx.tail + 1) % 2 ^ 64 ≡ tx.tail + 1 = omega (arith, small) in
      let next : (tx.tail % 2 ^ 32 + 1) % 2 ^ 32 ≡ (tx.tail + 1) % 2 ^ 32 = omega arith in
      let some_slots = divisible tx {freed = freed} (Slots-Placed s) payload fits in
      let fill = fill_slot_vacant tx {freed = freed} (Slots-Placed s) payload fits numbered in
      rw (some_slots, wait_vacant s device rounds room, fill, numbered, whole, next) refl

  pub submit_busy :
      (device : BarMapping → BarMapping)
      → ((b : BarMapping) → DeviceStep tx.slot_stride tx.depth b (device b))
      → tx.tail ≡ head + tx.depth
      → submit device tx freed payload ≡ err (timeout (tx.tail % tx.depth))
  unfolding submit submit_within
  submit_busy device works full =
      submit_late tx (Slots-Placed s) payload fits device (spin_full device max_spins works s full)

pub submit_too_large :
    (tx : TxRing) (bar : BarMapping) (device : BarMapping → BarMapping) (payload : List ℕ)
    → slot_payload_capacity tx < length payload
    → submit device tx bar payload
      ≡ err (payload_too_large (length payload) (slot_payload_capacity tx))
unfolding submit submit_within slot_payload_capacity
submit_too_large tx bar device payload h =
    let too_long : ltb (tx.slot_stride - slot_payload_offset) (length payload) ≡ true =
      ground arith in
    rw too_long refl

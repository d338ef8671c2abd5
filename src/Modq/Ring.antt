-- ===== src/Modq/Ring.antt =====
-- crates/otap-modq/src/ring.rs: the submission and the completion ring.
use otap_signup_validator.Common.{
  ℕ, zero, suc, ◌+◌, ◌-◌, ◌*◌, ◌%◌, ◌^◌, List, length, Option, none, some, map_some, true, false,
  bit_and, bit_not, Result, ok, err, ◌>>=◌, ltb, ◌==◌, if◌then◌else◌,
}
use otap_signup_validator.Modq.Bar.{
  RingError, payload_too_large, timeout, panicked, BarMapping, doorbell, ring_base, depth_reg,
  slot_size_reg, read32, write32, copy_to_slot,
}
pub mod Geometry
pub mod Slots
pub mod Device
pub mod Spin
pub mod Fill
pub mod Enqueue
pub mod Unchecked
pub mod Waits

abbrev pub slot_free : ℕ
slot_free = 0

abbrev pub slot_ready : ℕ
slot_ready = 1

abbrev pub slot_done : ℕ
slot_done = 2

abbrev pub slot_hdr_status : ℕ
slot_hdr_status = 0x00

abbrev pub slot_hdr_length : ℕ
slot_hdr_length = 0x04

abbrev pub slot_hdr_sid : ℕ
slot_hdr_sid = 0x08

abbrev pub slot_payload_offset : ℕ
slot_payload_offset = 0x10

-- `TxRing`, `CompletionRing` and `Completion`; the region that both rings share is passed to each
-- operation.
pub record TxRing : Type 0 where
  pub depth : ℕ
  pub slot_stride : ℕ
  pub tail : ℕ
  pub next_sid : ℕ

pub record CompletionRing : Type 0 where
  pub depth : ℕ
  pub slot_stride : ℕ
  pub head : ℕ

pub record SlotCompletion : Type 0 where
  pub sequence_id : ℕ
  pub slot_index : ℕ

-- The stride of a slot, in 32 bits as in a release build.
unfoldable pub stride_of : ℕ → ℕ
stride_of slot_size =
    let raw_stride = (slot_payload_offset + slot_size) % 2 ^ 32 in
    bit_and ((raw_stride + 63) % 2 ^ 32) (bit_not 32 63)

-- `TxRing::with_params`
unfoldable pub with_params : ℕ → ℕ → TxRing
with_params depth slot_size = record {
  depth = depth;
  slot_stride = stride_of slot_size;
  tail = 0;
  next_sid = 0;
}

-- `TxRing::new`
unfoldable pub new_tx_ring : BarMapping → Result TxRing RingError
unfolding with_params
new_tx_ring bar = do
  depth ← read32 bar depth_reg
  slot_size ← read32 bar slot_size_reg
  ok (with_params depth slot_size)

-- `CompletionRing::new`
unfoldable pub new_completion_ring : ℕ → ℕ → CompletionRing
new_completion_ring depth slot_stride = record {
  depth = depth;
  slot_stride = slot_stride;
  head = 0;
}

abbrev pub slot_base : ℕ → ℕ → ℕ
slot_base stride index = ring_base + index * stride

-- The limit of the loop in `submit`.
pub max_spins : ℕ
max_spins = 1_000_000_000

-- The loop that waits for the slot: with `left` more rounds to go, and what the device does to the
-- region in each of them.
unfoldable pub spin :
    (BarMapping → BarMapping) → ℕ → ℕ → ℕ → BarMapping → Result BarMapping RingError
spin device zero base index bar = read32 bar (base + slot_hdr_status) >>= λ status.
    if status == slot_free then ok bar else err (timeout index)
spin device (suc left) base index bar = read32 bar (base + slot_hdr_status) >>= λ status.
    elim (status == slot_free) [ true ↦ ok bar | false ↦ spin device left base index (device bar) ]

-- The writes of `submit` once the slot is free.
unfoldable pub fill_slot : TxRing → ℕ → BarMapping → List ℕ → Result BarMapping RingError
fill_slot tx base bar payload = do
  bar₁ ← copy_to_slot bar (base + slot_payload_offset) payload
  bar₂ ← write32 bar₁ (base + slot_hdr_length) (length payload % 2 ^ 32)
  bar₃ ← write32 bar₂ (base + slot_hdr_sid) tx.next_sid
  bar₄ ← write32 bar₃ (base + slot_hdr_status) slot_ready
  write32 bar₄ doorbell ((tx.tail + 1) % 2 ^ 64 % 2 ^ 32)

-- `TxRing::submit`, with the number of rounds that the loop is given
unfoldable pub submit_within :
    ℕ
    → (BarMapping → BarMapping)
    → TxRing
    → BarMapping
    → List ℕ
    → Result (ℕ × TxRing × BarMapping) RingError
unfolding fill_slot
submit_within spins device tx bar payload =
    let max_payload = tx.slot_stride - slot_payload_offset in
    let index = tx.tail % tx.depth in
    let base = slot_base tx.slot_stride index in
    if ltb max_payload (length payload)
    then err (payload_too_large (length payload) max_payload)
    else if tx.depth == 0
    then err panicked
    else (do
      freed ← spin device spins base index bar
      filled ← fill_slot tx base freed payload
      ok (
        tx.next_sid,
        record tx { tail = (tx.tail + 1) % 2 ^ 64; next_sid = (tx.next_sid + 1) % 2 ^ 32 },
        filled,
      ))

-- `TxRing::submit`
unfoldable pub submit :
    (BarMapping → BarMapping)
    → TxRing
    → BarMapping
    → List ℕ
    → Result (ℕ × TxRing × BarMapping) RingError
unfolding submit_within
submit device tx bar payload = submit_within max_spins device tx bar payload

-- The loop of `submit_unchecked`, which has no limit: what it ends with in its first `left` rounds and
-- the one after them, if it ends in them.
unfoldable pub wait_free :
    (BarMapping → BarMapping) → ℕ → ℕ → BarMapping → Option (Result BarMapping RingError)
wait_free device zero base bar = elim (read32 bar (base + slot_hdr_status)) [
  | ok status ↦ if status == slot_free then some (ok bar) else none
  | err e ↦ some (err e)
]
wait_free device (suc left) base bar = elim (read32 bar (base + slot_hdr_status)) [
  | ok status ↦ elim (status == slot_free) [
    | true ↦ some (ok bar)
    | false ↦ wait_free device left base (device bar)
  ]
  | err e ↦ some (err e)
]

-- `TxRing::submit_unchecked`, if its loop ends in so many rounds
unfoldable pub submit_unchecked :
    (BarMapping → BarMapping)
    → ℕ
    → TxRing
    → BarMapping
    → List ℕ
    → Option (Result (ℕ × TxRing × BarMapping) RingError)
unfolding wait_free fill_slot
submit_unchecked device rounds tx bar payload =
    if tx.depth == 0
    then some (err panicked)
    else let base = slot_base tx.slot_stride (tx.tail % tx.depth) in
      map_some
        (λ waited. (do
          freed ← waited
          filled ← fill_slot tx base freed payload
          ok (
            tx.next_sid,
            record tx { tail = (tx.tail + 1) % 2 ^ 64; next_sid = (tx.next_sid + 1) % 2 ^ 32 },
            filled,
          )))
        (wait_free device rounds base bar)

-- `TxRing::slot_payload_capacity`
unfoldable pub slot_payload_capacity : TxRing → ℕ
slot_payload_capacity tx = tx.slot_stride - slot_payload_offset

-- The part of `poll` for a slot that is done.
unfoldable pub take_slot :
    CompletionRing
    → BarMapping
    → ℕ
    → ℕ
    → Result (Option SlotCompletion × CompletionRing × BarMapping) RingError
take_slot ring bar index base = do
  sid ← read32 bar (base + slot_hdr_sid)
  bar₁ ← write32 bar (base + slot_hdr_status) slot_free
  ok (
    some (record { sequence_id = sid; slot_index = index }),
    record ring { head = (ring.head + 1) % 2 ^ 64 },
    bar₁,
  )

-- `CompletionRing::poll`
unfoldable pub poll_ring :
    CompletionRing
    → BarMapping
    → Result (Option SlotCompletion × CompletionRing × BarMapping) RingError
unfolding take_slot
poll_ring ring bar =
    if ring.depth == 0
    then err panicked
    else let index = ring.head % ring.depth in
      let base = slot_base ring.slot_stride index in
      read32 bar (base + slot_hdr_status) >>= λ status.
      if status == slot_done then take_slot ring bar index base else ok (none, ring, bar)

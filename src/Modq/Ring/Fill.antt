-- ===== src/Modq/Ring/Fill.antt =====
-- The writes of `TxRing::submit` in crates/otap-modq/src/ring.rs, once the slot is free.
use otap_signup_validator.Common.{
  ℕ, ◌+◌, ◌-◌, ◌%◌, ◌^◌, ◌≤◌, ◌<◌, ◌≡◌, ◌∙◌, refl, ap, arith, inl, inr, List, length, slice, ok,
}
use otap_signup_validator.Modq.Bar.{BarMapping, doorbell}
use otap_signup_validator.Modq.Bar.Words.{
  word_at, put, put_bytes, word_at-put_self, word_at-put_apart, length-put, length-put_bytes,
  slice-put_apart, slice-put_bytes, write32_at, copy_to_slot_at,
}
use otap_signup_validator.Modq.Ring.{
  TxRing, slot_ready, slot_hdr_status, slot_hdr_length, slot_hdr_sid, slot_payload_offset,
  slot_base, fill_slot,
}
use otap_signup_validator.Modq.Ring.Slots.{
  status_of, sid_of, Slots, Placed, Slots-Placed, Placed-inside, Elsewhere, put-Elsewhere,
  put_bytes-Elsewhere, word_at-put_register, submitted-Slots,
}

-- The payload that a slot holds, as the device reads it.
abbrev pub payload_of : ℕ → BarMapping → ℕ → List ℕ
payload_of stride bar i =
    let start = slot_base stride i + slot_payload_offset in
    slice start (start + word_at bar (slot_base stride i + slot_hdr_length)) bar.memory

module _ (bar : BarMapping) (base next_sid next_tail : ℕ) (payload : List ℕ) where
  abbrev b₁ : BarMapping
  b₁ = put_bytes bar (base + slot_payload_offset) payload

  abbrev b₂ : BarMapping
  b₂ = put b₁ (base + slot_hdr_length) (length payload % 2 ^ 32)

  abbrev b₃ : BarMapping
  b₃ = put b₂ (base + slot_hdr_sid) next_sid

  abbrev b₄ : BarMapping
  b₄ = put b₃ (base + slot_hdr_status) slot_ready

  abbrev pub filled : BarMapping
  filled = put b₄ doorbell next_tail

  length₁ : length b₁.memory ≡ length bar.memory
  length₁ = length-put_bytes bar (base + slot_payload_offset) payload

  length₂ : length b₂.memory ≡ length bar.memory
  length₂ = length-put b₁ (base + slot_hdr_length) (length payload % 2 ^ 32) ∙ length₁

  length₃ : length b₃.memory ≡ length bar.memory
  length₃ = length-put b₂ (base + slot_hdr_sid) next_sid ∙ length₂

  length₄ : length b₄.memory ≡ length bar.memory
  length₄ = length-put b₃ (base + slot_hdr_status) slot_ready ∙ length₃

  pub length-filled : length filled.memory ≡ length bar.memory
  length-filled = length-put b₄ doorbell next_tail ∙ length₄

pub fill_slot_lem :
    (tx : TxRing) (base : ℕ) (bar : BarMapping) (payload : List ℕ)
    → 0x1000 ≤ base
    → base + slot_payload_offset + length payload ≤ length bar.memory
    → base + slot_payload_offset < length bar.memory
    → fill_slot tx base bar payload
      ≡ ok (filled bar base tx.next_sid ((tx.tail + 1) % 2 ^ 64 % 2 ^ 32) payload)
unfolding fill_slot
fill_slot_lem tx base bar payload low fits start =
    let next_tail = (tx.tail + 1) % 2 ^ 64 % 2 ^ 32 in
    let l₁ = length₁ bar base tx.next_sid next_tail payload in
    let l₂ = length₂ bar base tx.next_sid next_tail payload in
    let l₃ = length₃ bar base tx.next_sid next_tail payload in
    let l₄ = length₄ bar base tx.next_sid next_tail payload in
    rw
      (
        copy_to_slot_at bar (base + slot_payload_offset) payload start,
        write32_at (b₁ bar base tx.next_sid next_tail payload) (base + slot_hdr_length)
            (length payload % 2 ^ 32) (omega (arith, l₁)),
        write32_at (b₂ bar base tx.next_sid next_tail payload) (base + slot_hdr_sid) tx.next_sid
            (omega (arith, l₂)),
        write32_at (b₃ bar base tx.next_sid next_tail payload) (base + slot_hdr_status) slot_ready
            (omega (arith, l₃)),
        write32_at (b₄ bar base tx.next_sid next_tail payload) doorbell next_tail
            (omega (arith, l₄)),
      )
      refl

-- What the region holds after the writes for the submission with number `tail`.
module _ {stride depth : ℕ} {bar : BarMapping} (s : Placed stride depth bar) (tail : ℕ)
    (payload : List ℕ) (fits : length payload ≤ stride - slot_payload_offset) (next_tail : ℕ) where
  abbrev base : ℕ
  base = slot_base stride (tail % depth)

  abbrev bar' : BarMapping
  bar' = filled bar base (tail % 2 ^ 32) next_tail payload

  pub filled-Elsewhere : Elsewhere stride (tail % depth) bar bar'
  filled-Elsewhere j a ne ha =
      let i = tail % depth in
      let sid = tail % 2 ^ 32 in
      let wide = s.room_for_header in
      word_at-put_register stride j doorbell next_tail a (b₄ bar base sid next_tail payload)
        (omega arith)
      ∙ put-Elsewhere stride i slot_hdr_status slot_ready (b₃ bar base sid next_tail payload)
          (omega arith) j a ne ha
      ∙ put-Elsewhere stride i slot_hdr_sid sid (b₂ bar base sid next_tail payload) (omega arith) j
          a ne ha
      ∙ put-Elsewhere stride i slot_hdr_length (length payload % 2 ^ 32)
          (b₁ bar base sid next_tail payload) (omega arith) j a ne ha
      ∙ put_bytes-Elsewhere stride i slot_payload_offset payload bar (omega arith) j a ne ha

  pub filled_status : status_of stride bar' (tail % depth) ≡ slot_ready
  filled_status =
      let sid = tail % 2 ^ 32 in
      let l₃ = length₃ bar base sid next_tail payload in
      let inside = Placed-inside s tail slot_hdr_status 4 (omega (arith, s.room_for_header)) in
      word_at-put_register stride (tail % depth) doorbell next_tail slot_hdr_status
        (b₄ bar base sid next_tail payload) (omega arith)
      ∙ word_at-put_self (b₃ bar base sid next_tail payload) (base + slot_hdr_status) slot_ready
          (omega (arith, l₃, inside)) (omega arith)

  pub filled_sid : sid_of stride bar' (tail % depth) ≡ tail % 2 ^ 32
  filled_sid =
      let sid = tail % 2 ^ 32 in
      let l₂ = length₂ bar base sid next_tail payload in
      let inside = Placed-inside s tail slot_hdr_sid 4 (omega (arith, s.room_for_header)) in
      word_at-put_register stride (tail % depth) doorbell next_tail slot_hdr_sid
        (b₄ bar base sid next_tail payload) (omega arith)
      ∙ word_at-put_apart (b₃ bar base sid next_tail payload) (base + slot_hdr_status)
          (base + slot_hdr_sid) slot_ready (inr (omega arith))
      ∙ word_at-put_self (b₂ bar base sid next_tail payload) (base + slot_hdr_sid) sid
          (omega (arith, l₂, inside)) (omega arith)

  filled_length : stride < 2 ^ 32 → word_at bar' (base + slot_hdr_length) ≡ length payload
  filled_length narrow =
      let sid = tail % 2 ^ 32 in
      let l₁ = length₁ bar base sid next_tail payload in
      let inside = Placed-inside s tail slot_hdr_length 4 (omega (arith, s.room_for_header)) in
      let whole : length payload % 2 ^ 32 ≡ length payload = omega arith in
      word_at-put_register stride (tail % depth) doorbell next_tail slot_hdr_length
        (b₄ bar base sid next_tail payload) (omega arith)
      ∙ word_at-put_apart (b₃ bar base sid next_tail payload) (base + slot_hdr_status)
          (base + slot_hdr_length) slot_ready (inr (omega arith))
      ∙ word_at-put_apart (b₂ bar base sid next_tail payload) (base + slot_hdr_sid)
          (base + slot_hdr_length) sid (inl (omega arith))
      ∙ word_at-put_self (b₁ bar base sid next_tail payload) (base + slot_hdr_length)
          (length payload % 2 ^ 32) (omega (arith, l₁, inside)) (omega arith)
      ∙ whole

  filled_bytes :
      slice (base + slot_payload_offset) (base + slot_payload_offset + length payload) bar'.memory
      ≡ payload
  filled_bytes =
      let sid = tail % 2 ^ 32 in
      let start = base + slot_payload_offset in
      let stop = base + slot_payload_offset + length payload in
      let inside =
        Placed-inside s tail slot_payload_offset (length payload)
          (omega (arith, s.room_for_header)) in
      slice-put_apart (b₄ bar base sid next_tail payload) doorbell next_tail start stop
        (omega arith)
      ∙ slice-put_apart (b₃ bar base sid next_tail payload) (base + slot_hdr_status) slot_ready
          start stop (omega arith)
      ∙ slice-put_apart (b₂ bar base sid next_tail payload) (base + slot_hdr_sid) sid start stop
          (omega arith)
      ∙ slice-put_apart (b₁ bar base sid next_tail payload) (base + slot_hdr_length)
          (length payload % 2 ^ 32) start stop (omega arith)
      ∙ slice-put_bytes bar start payload inside

  pub filled_payload : stride < 2 ^ 32 → payload_of stride bar' (tail % depth) ≡ payload
  filled_payload narrow =
      ap (λ n. slice (base + slot_payload_offset) (base + slot_payload_offset + n) bar'.memory)
        (filled_length narrow)
      ∙ filled_bytes

pub filled-Slots :
    {stride depth head tail : ℕ} {bar : BarMapping}
    → Slots stride depth head tail bar
    → (payload : List ℕ) → length payload ≤ stride - slot_payload_offset
    → (next_tail : ℕ) → tail < head + depth
    → Slots stride depth head
        (tail + 1)
        (filled bar (slot_base stride (tail % depth)) (tail % 2 ^ 32) next_tail payload)
filled-Slots {stride} {depth} {tail} {bar} s payload fits next_tail room =
    let p = Slots-Placed s in
    submitted-Slots s _ room (filled-Elsewhere p tail payload fits next_tail)
      (length-filled bar (slot_base stride (tail % depth)) (tail % 2 ^ 32) next_tail payload)
      (filled_status p tail payload fits next_tail) (filled_sid p tail payload fits next_tail)

-- ===== src/Modq/Queue/Freed.antt =====
-- The parts of `ModqQueue::open` of crates/otap-modq/src/lib.rs: the stride, the test of the depth, and
-- the loop that frees the slots.
use native.Mathlib.Decide.{ℕ_discrete}
use native.Mathlib.Nat.{pow-suc, one-le-pow}
use otap_signup_validator.Common.{
  ℕ, zero, suc, ◌+◌, ◌-◌, ◌*◌, ◌/◌, ◌%◌, ◌^◌, ◌≤◌, ◌<◌, ◌≡◌, ◌≢◌, ◌∙◌, refl, arith, sym, subst, ap,
  length, true, ok, bit_and, bit_not, bit_and_fields, bit_and_mask, bit_and-zero,
}
use otap_signup_validator.Modq.Bar.{BarMapping, to_le_bytes, write64}
use otap_signup_validator.Modq.Bar.Words.{
  word_at, put, put_bytes, word_at-put_self, length-put, write32_at,
}
use otap_signup_validator.Modq.Ring.{slot_free, slot_base, slot_hdr_status, stride_of}
use otap_signup_validator.Modq.Ring.Geometry.{slot_base_mono}
use otap_signup_validator.Modq.Ring.Slots.{status_of, put-Elsewhere}
use otap_signup_validator.Modq.Queue.{power_of_two_below, free_slots, open_stride}

pub write64_at :
    (bar : BarMapping) (o v : ℕ)
    → o + 8 ≤ length bar.memory
    → write64 bar o v ≡ ok (put_bytes bar o (to_le_bytes 8 v))
unfolding write64 put_bytes
write64_at bar o v h = ground arith

-- The stride of the slots, for a size that does not pass 32 bits.
pub stride-open_stride : (n : ℕ) → n + 79 < 2 ^ 32 → open_stride n ≡ (n + 79) / 64 * 64
unfolding open_stride
stride-open_stride n h =
    let sum : ((n + 16) % 2 ^ 32 + 63) % 2 ^ 32 ≡ (n + 79) / 64 * 2 ^ 6 + (n + 79) % 64 =
      omega arith in
    let fields =
      bit_and_fields 6 ((n + 79) / 64) ((n + 79) % 64) (2 ^ 26 - 1) 0 (omega arith) (omega arith) in
    let high = bit_and_mask 26 ((n + 79) / 64) in
    rw sum (omega (arith, fields, high, bit_and-zero ((n + 79) % 64)))

pub stride_of-open_stride : (n : ℕ) → n + 79 < 2 ^ 32 → stride_of n ≡ open_stride n
unfolding open_stride stride_of
stride_of-open_stride n h =
    let same : ((16 + n) % 2 ^ 32 + 63) % 2 ^ 32 ≡ ((n + 16) % 2 ^ 32 + 63) % 2 ^ 32 =
      omega arith in
    ap (λ x. bit_and x (bit_not 32 63)) same

pub power_of_two_below-bounds : (k d : ℕ) → power_of_two_below k d ≡ true → (0 < d) × (d < 2 ^ k)
power_of_two_below-bounds zero d h = cc
power_of_two_below-bounds (suc k) d h =
    let shorter = power_of_two_below-bounds k d in
    let double = pow-suc 2 k in let some = one-le-pow k 2 in ground arith

-- The write that frees a slot.
freed_status :
    (stride i : ℕ) (bar : BarMapping)
    → slot_base stride i + 4 ≤ length bar.memory
    → status_of stride (put bar (slot_base stride i) slot_free) i ≡ slot_free
freed_status stride i bar h =
    let status : slot_base stride i + slot_hdr_status ≡ slot_base stride i = omega arith in
    ap (word_at (put bar (slot_base stride i) slot_free)) status
    ∙ word_at-put_self bar (slot_base stride i) slot_free h (omega arith)

kept_status :
    (stride i j : ℕ) (bar : BarMapping)
    → 16 < stride
    → i ≢ j
    → status_of stride (put bar (slot_base stride i) slot_free) j ≡ status_of stride bar j
kept_status stride i j bar wide ne =
    let status : slot_base stride i + slot_hdr_status ≡ slot_base stride i = omega arith in
    subst
      (λ o.
        word_at (put bar o slot_free) (slot_base stride j + slot_hdr_status)
        ≡ status_of stride bar j)
      status
      (put-Elsewhere stride i slot_hdr_status slot_free bar (omega arith) j slot_hdr_status ne
        (omega arith))

-- The loop of `open` succeeds, and frees the slots that it visits.
pub free_slots_lem :
    (stride i n : ℕ) (bar : BarMapping)
    → 16 < stride
    → slot_base stride (i + n) ≤ length bar.memory
    → (bar' : BarMapping) × (free_slots stride i n bar ≡ ok bar')
      × (length bar'.memory ≡ length bar.memory)
      × ((j : ℕ) → j < i → status_of stride bar' j ≡ status_of stride bar j)
      × ((j : ℕ) → i ≤ j → j < i + n → status_of stride bar' j ≡ slot_free)
unfolding free_slots
free_slots_lem stride i zero bar wide h =
    (bar, refl, refl, λ j lt. refl, λ j le lt. omega (arith, le, lt))
free_slots_lem stride i (suc n) bar wide h =
    let fits = slot_base_mono stride i (i + suc n) (omega arith) in
    let written = put bar (slot_base stride i) slot_free in
    let same_size = length-put bar (slot_base stride i) slot_free in
    let regroup : suc i + n ≡ i + suc n = omega arith in
    let (bar', looped, size, before, freed) = free_slots_lem stride (suc i) n written wide (
      subst (λ m. slot_base stride m ≤ length written.memory) (sym regroup)
        (omega (arith, h, same_size))) in
    (
      bar',
      rw (write32_at bar (slot_base stride i) slot_free (omega (arith, h, fits))) looped,
      size ∙ same_size,
      λ j lt. before j (omega arith) ∙ kept_status stride i j bar wide (λ e. omega (arith, e)),
      λ j le lt. elim (ℕ_discrete i j) [
        | yes e ↦
            subst (λ m. status_of stride bar' m ≡ slot_free) e
              (before i (omega arith) ∙ freed_status stride i bar (omega (arith, h, fits)))
        | no ne ↦ freed j (omega (arith, ne)) (omega arith)
      ],
    )

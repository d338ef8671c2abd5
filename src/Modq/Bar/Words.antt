-- ===== src/Modq/Bar/Words.antt =====
-- Words of the region: what a read finds after a write.
use otap_signup_validator.Common.{
  ℕ, ◌+◌, ◌^◌, ◌<◌, ◌≤◌, ◌≡◌, ◌⊎◌, inl, inr, ap, refl, arith, List, length, slice, copy_from_slice,
  length-copy_from_slice, slice-copy_from_slice_self, slice-copy_from_slice_apart, ok,
}
use otap_signup_validator.Modq.Bar.{
  BarMapping, to_le_bytes, from_le_bytes, read32, write32, copy_to_slot,
}

-- The word at an offset, and the region with a word written.
unfoldable pub word_at : BarMapping → ℕ → ℕ
word_at bar offset = from_le_bytes (slice offset (offset + 4) bar.memory)

unfoldable pub put : BarMapping → ℕ → ℕ → BarMapping
put bar offset value = record { memory = copy_from_slice offset (to_le_bytes 4 value) bar.memory }

unfoldable pub put_bytes : BarMapping → ℕ → List ℕ → BarMapping
put_bytes bar offset bytes = record { memory = copy_from_slice offset bytes bar.memory }

abbrev pub Inside : BarMapping → ℕ → ℕ → Type 0
Inside bar offset n = offset + n ≤ length bar.memory

pub length-put : (bar : BarMapping) (o v : ℕ) → length (put bar o v).memory ≡ length bar.memory
unfolding put
length-put bar o v = length-copy_from_slice o (to_le_bytes 4 v) bar.memory

pub length-put_bytes :
    (bar : BarMapping) (o : ℕ) (b : List ℕ) → length (put_bytes bar o b).memory ≡ length bar.memory
unfolding put_bytes
length-put_bytes bar o b = length-copy_from_slice o b bar.memory

pub read32_at : (bar : BarMapping) (o : ℕ) → Inside bar o 4 → read32 bar o ≡ ok (word_at bar o)
unfolding read32 word_at
read32_at bar o h = ground arith

pub write32_at : (bar : BarMapping) (o v : ℕ) → Inside bar o 4 → write32 bar o v ≡ ok (put bar o v)
unfolding write32 put
write32_at bar o v h = ground arith

pub copy_to_slot_at :
    (bar : BarMapping) (o : ℕ) (b : List ℕ)
    → o < length bar.memory
    → copy_to_slot bar o b ≡ ok (put_bytes bar o b)
unfolding copy_to_slot put_bytes
copy_to_slot_at bar o b h = ground arith

pub from_le_bytes-to_le_bytes : (v : ℕ) → v < 2 ^ 32 → from_le_bytes (to_le_bytes 4 v) ≡ v
from_le_bytes-to_le_bytes v h = omega arith

pub word_at-put_self :
    (bar : BarMapping) (o v : ℕ) → Inside bar o 4 → v < 2 ^ 32 → word_at (put bar o v) o ≡ v
unfolding word_at put
word_at-put_self bar o v h small =
    rw (slice-copy_from_slice_self o (o + 4) (to_le_bytes 4 v) bar.memory (omega arith) h)
      (from_le_bytes-to_le_bytes v small)

pub word_at-put_apart :
    (bar : BarMapping) (o p v : ℕ)
    → (p + 4 ≤ o) ⊎ (o + 4 ≤ p)
    → word_at (put bar o v) p ≡ word_at bar p
unfolding word_at put
word_at-put_apart bar o p v (inl h) =
    ap from_le_bytes
      (slice-copy_from_slice_apart p (p + 4) o (to_le_bytes 4 v) bar.memory (inl (omega arith, h)))
word_at-put_apart bar o p v (inr h) =
    ap from_le_bytes (slice-copy_from_slice_apart p (p + 4) o (to_le_bytes 4 v) bar.memory (inr h))

pub word_at-put_bytes :
    (bar : BarMapping) (o p : ℕ) (b : List ℕ)
    → (p + 4 ≤ o) ⊎ (o + length b ≤ p)
    → word_at (put_bytes bar o b) p ≡ word_at bar p
unfolding word_at put_bytes
word_at-put_bytes bar o p b (inl h) =
    ap from_le_bytes (slice-copy_from_slice_apart p (p + 4) o b bar.memory (inl (omega arith, h)))
word_at-put_bytes bar o p b (inr h) =
    ap from_le_bytes (slice-copy_from_slice_apart p (p + 4) o b bar.memory (inr h))

-- The bytes behind a word that is written, and bytes that are copied.
pub slice-put_apart :
    (bar : BarMapping) (o v p q : ℕ)
    → o + 4 ≤ p
    → slice p q (put bar o v).memory ≡ slice p q bar.memory
unfolding put
slice-put_apart bar o v p q h =
    slice-copy_from_slice_apart p q o (to_le_bytes 4 v) bar.memory (inr h)

pub slice-put_bytes :
    (bar : BarMapping) (o : ℕ) (b : List ℕ)
    → o + length b ≤ length bar.memory
    → slice o (o + length b) (put_bytes bar o b).memory ≡ b
unfolding put_bytes
slice-put_bytes bar o b h = slice-copy_from_slice_self o (o + length b) b bar.memory refl h

-- ===== src/Common/Bytes.antt =====
-- Bytes, big-endian words and slices, as the source uses them from the standard library.
use Prim.Native.Nat.{ℕ, zero, suc, ◌+◌, ◌-◌, ◌*◌, ◌/◌, ◌%◌, ◌^◌, ◌<◌, ◌≤◌}
use mathlib.Core.Path.{◌≡◌, refl, ap, sym, ◌∙◌}
use mathlib.Core.Logic.{◌⊎◌, inl, inr}
use mathlib.Core.List.{List, [], ◌∷◌, ◌++◌}
use native.Mathlib.Nat.{pow-suc, one-le-pow, div-add-mod', mod-lt, mod-eq_of_lt}
use native.Mathlib.Omega.{arith}
use otap_signup_validator.Common.Lists.{
  All, length, take, drop, length-take, length-drop, take-all, append-injective,
}

abbrev pub IsByte : ℕ → Type 0
IsByte b = b < 256

-- `[u8; n]`
pub record IsArray (n : ℕ) (xs : List ℕ) : Type 0 where
  pub size : length xs ≡ n
  pub bytes : All IsByte xs

-- `to_be_bytes` of an unsigned integer of `n` bytes.
abbrev pub to_be_bytes : ℕ → ℕ → List ℕ
to_be_bytes zero v = []
to_be_bytes (suc n) v = (v / 256 ^ n) % 256 ∷ to_be_bytes n v

abbrev pub from_be_bytes_acc : ℕ → List ℕ → ℕ
from_be_bytes_acc acc [] = acc
from_be_bytes_acc acc (b ∷ bs) = from_be_bytes_acc (acc * 256 + b) bs

-- `from_be_bytes`
abbrev pub from_be_bytes : List ℕ → ℕ
from_be_bytes bs = from_be_bytes_acc 0 bs

-- `&xs[lo..hi]`
unfoldable pub slice {ℓ} : {A : Type ℓ} → ℕ → ℕ → List A → List A
slice lo hi xs = take (hi - lo) (drop lo xs)

-- `xs[lo..lo + src.len()].copy_from_slice(&src)`; what does not fit is dropped, where the source
-- panics.
unfoldable pub copy_from_slice {ℓ} : {A : Type ℓ} → ℕ → List A → List A → List A
copy_from_slice lo src [] = []
copy_from_slice (suc lo) src (x ∷ xs) = x ∷ copy_from_slice lo src xs
copy_from_slice zero [] (x ∷ xs) = x ∷ xs
copy_from_slice zero (y ∷ ys) (x ∷ xs) = y ∷ copy_from_slice zero ys xs

module _ {ℓ} {A : Type ℓ} where
  pub length-copy_from_slice :
      (lo : ℕ) (src xs : List A) → length (copy_from_slice lo src xs) ≡ length xs
  unfolding copy_from_slice
  length-copy_from_slice zero src [] = refl
  length-copy_from_slice (suc lo) src [] = refl
  length-copy_from_slice (suc lo) src (x ∷ xs) = ap suc (length-copy_from_slice lo src xs)
  length-copy_from_slice zero [] (x ∷ xs) = refl
  length-copy_from_slice zero (y ∷ ys) (x ∷ xs) = ap suc (length-copy_from_slice zero ys xs)

  take-copy_from_slice :
      (src xs : List A)
      → length src ≤ length xs
      → take (length src) (copy_from_slice 0 src xs) ≡ src
  unfolding copy_from_slice
  take-copy_from_slice [] xs h = refl
  take-copy_from_slice (y ∷ ys) [] h = absurd (omega arith)
  take-copy_from_slice (y ∷ ys) (x ∷ xs) h =
      ap (λ t. y ∷ t) (take-copy_from_slice ys xs (omega arith))

  drop-copy_from_slice :
      (lo : ℕ) (src xs : List A)
      → drop lo (copy_from_slice lo src xs) ≡ copy_from_slice 0 src (drop lo xs)
  unfolding copy_from_slice
  drop-copy_from_slice zero src xs = refl
  drop-copy_from_slice (suc lo) src [] = refl
  drop-copy_from_slice (suc lo) src (x ∷ xs) = drop-copy_from_slice lo src xs

  -- A slice reads back what was copied to its place.
  pub slice-copy_from_slice_self :
      (lo hi : ℕ) (src xs : List A)
      → hi ≡ lo + length src
      → hi ≤ length xs
      → slice lo hi (copy_from_slice lo src xs) ≡ src
  unfolding slice
  slice-copy_from_slice_self lo hi src xs e h =
      let width : hi - lo ≡ length src = omega arith in
      rw (width, drop-copy_from_slice)
        (take-copy_from_slice src (drop lo xs) (omega (arith, length-drop lo xs)))

  take_below-copy_from_slice :
      (n lo : ℕ) (src xs : List A) → n ≤ lo → take n (copy_from_slice lo src xs) ≡ take n xs
  unfolding copy_from_slice
  take_below-copy_from_slice zero lo src xs h = refl
  take_below-copy_from_slice (suc n) lo src [] h = refl
  take_below-copy_from_slice (suc n) zero src (x ∷ xs) h = absurd (omega arith)
  take_below-copy_from_slice (suc n) (suc lo) src (x ∷ xs) h =
      ap (λ t. x ∷ t) (take_below-copy_from_slice n lo src xs (omega arith))

  take-drop_below :
      (a n lo : ℕ) (src xs : List A)
      → a + n ≤ lo
      → take n (drop a (copy_from_slice lo src xs)) ≡ take n (drop a xs)
  unfolding copy_from_slice
  take-drop_below zero n lo src xs h = take_below-copy_from_slice n lo src xs (omega arith)
  take-drop_below (suc a) n lo src [] h = refl
  take-drop_below (suc a) n zero src (x ∷ xs) h = absurd (omega arith)
  take-drop_below (suc a) n (suc lo) src (x ∷ xs) h = take-drop_below a n lo src xs (omega arith)

  drop_above :
      (a lo : ℕ) (src xs : List A)
      → lo + length src ≤ a
      → drop a (copy_from_slice lo src xs) ≡ drop a xs
  unfolding copy_from_slice
  drop_above a zero src [] h = refl
  drop_above a (suc lo) src [] h = refl
  drop_above a zero [] (x ∷ xs) h = refl
  drop_above zero zero (y ∷ ys) (x ∷ xs) h = absurd (omega arith)
  drop_above (suc a) zero (y ∷ ys) (x ∷ xs) h = drop_above a zero ys xs (omega arith)
  drop_above zero (suc lo) src (x ∷ xs) h = absurd (omega arith)
  drop_above (suc a) (suc lo) src (x ∷ xs) h = drop_above a lo src xs (omega arith)

  -- A slice apart from the place of a copy does not see it.
  pub slice-copy_from_slice_apart :
      (a b lo : ℕ) (src xs : List A)
      → (a ≤ b) × (b ≤ lo) ⊎ (lo + length src ≤ a)
      → slice a b (copy_from_slice lo src xs) ≡ slice a b xs
  unfolding slice
  slice-copy_from_slice_apart a b lo src xs (inl h) =
      take-drop_below a (b - a) lo src xs (omega arith)
  slice-copy_from_slice_apart a b lo src xs (inr h) = rw (drop_above a lo src xs h)

  pub length-slice :
      (lo hi : ℕ) (xs : List A) → lo ≤ hi → hi ≤ length xs → length (slice lo hi xs) ≡ hi - lo
  unfolding slice
  length-slice lo hi xs h k = omega (arith, length-take (hi - lo) (drop lo xs), length-drop lo xs)

  take-append_left : (n : ℕ) (xs ys : List A) → n ≤ length xs → take n (xs ++ ys) ≡ take n xs
  take-append_left zero xs ys h = refl
  take-append_left (suc n) [] ys h = absurd (omega arith)
  take-append_left (suc n) (x ∷ xs) ys h = ap (λ t. x ∷ t) (take-append_left n xs ys (omega arith))

  drop-append_left : (n : ℕ) (xs ys : List A) → n ≤ length xs → drop n (xs ++ ys) ≡ drop n xs ++ ys
  drop-append_left zero xs ys h = refl
  drop-append_left (suc n) [] ys h = absurd (omega arith)
  drop-append_left (suc n) (x ∷ xs) ys h = drop-append_left n xs ys (omega arith)

  pub slice-append_left :
      (lo hi : ℕ) (xs ys : List A)
      → lo ≤ hi
      → hi ≤ length xs
      → slice lo hi (xs ++ ys) ≡ slice lo hi xs
  unfolding slice
  slice-append_left lo hi xs ys h k =
      rw (drop-append_left lo xs ys (omega arith))
        (take-append_left (hi - lo) (drop lo xs) ys (omega (arith, length-drop lo xs)))

  -- What is written over a prefix, and then over the rest, is the concatenation.
  pub slice_whole : (xs : List A) (n : ℕ) → n ≡ length xs → slice 0 n xs ≡ xs
  unfolding slice
  slice_whole xs n e = let w : n - 0 ≡ length xs = omega arith in rw w (take-all xs)

pub length-to_be_bytes : (n v : ℕ) → length (to_be_bytes n v) ≡ n
length-to_be_bytes zero v = refl
length-to_be_bytes (suc n) v = ap suc (length-to_be_bytes n v)

to_be_bytes-IsByte : (n v : ℕ) → All IsByte (to_be_bytes n v)
to_be_bytes-IsByte zero v = tt
to_be_bytes-IsByte (suc n) v = (omega arith, to_be_bytes-IsByte n v)

pub to_be_bytes-IsArray : (n v : ℕ) → IsArray n (to_be_bytes n v)
to_be_bytes-IsArray n v = record { size = length-to_be_bytes n v; bytes = to_be_bytes-IsByte n v }

mod_unique : (m q r v : ℕ) → v ≡ q * m + r → r < m → v % m ≡ r
mod_unique m q r v e h = grind arith

top_digit : (p v : ℕ) → 0 < p → v % (p * 256) ≡ (v / p) % 256 * p + v % p
top_digit p v h =
    mod_unique (p * 256) (v / p / 256) ((v / p) % 256 * p + v % p) v
      (omega (arith, div-add-mod' v p, ap (λ (t : ℕ). t * p) (div-add-mod' (v / p) 256)))
      (digit_room ((v / p) % 256) (v % p) p (omega arith) (mod-lt v h))
  where
    digit_room : (d r p : ℕ) → d < 256 → r < p → d * p + r < p * 256
    digit_room d r p hd hr = grind arith

-- The digits from the top, carried by an accumulator.
from-to_acc : (n v acc : ℕ) → from_be_bytes_acc acc (to_be_bytes n v) ≡ acc * 256 ^ n + v % 256 ^ n
from-to_acc zero v acc = omega arith
from-to_acc (suc n) v acc = omega (
  arith,
  from-to_acc n v (acc * 256 + (v / 256 ^ n) % 256),
  pow-suc 256 n,
  ap (λ (t : ℕ). acc * t) (pow-suc 256 n),
  ap (λ (t : ℕ). v % t) (pow-suc 256 n),
  top_digit (256 ^ n) v (omega (arith, one-le-pow n 256)),
)

-- An integer that fits its bytes comes back.
pub from_be_bytes-to_be_bytes : (n v : ℕ) → v < 256 ^ n → from_be_bytes (to_be_bytes n v) ≡ v
from_be_bytes-to_be_bytes n v h = omega (arith, from-to_acc n v 0, mod-eq_of_lt h)

-- Copying just behind a prefix.
pub copy_from_slice-append {ℓ} :
    {A : Type ℓ} (n : ℕ) (pre src xs : List A)
    → length pre ≡ n
    → copy_from_slice n src (pre ++ xs) ≡ pre ++ copy_from_slice 0 src xs
unfolding copy_from_slice
copy_from_slice-append zero [] src xs h = refl
copy_from_slice-append zero (x ∷ pre) src xs h = absurd (omega arith)
copy_from_slice-append (suc n) [] src xs h = absurd (omega arith)
copy_from_slice-append (suc n) (x ∷ pre) src xs h =
    ap (λ t. x ∷ t) (copy_from_slice-append n pre src xs (omega arith))

pub copy_from_slice-nil {ℓ} : {A : Type ℓ} (xs : List A) → copy_from_slice 0 [] xs ≡ xs
unfolding copy_from_slice
copy_from_slice-nil [] = refl
copy_from_slice-nil (x ∷ xs) = refl

to_be_bytes-injective :
    (n v w : ℕ) → v < 256 ^ n → w < 256 ^ n → to_be_bytes n v ≡ to_be_bytes n w → v ≡ w
to_be_bytes-injective n v w hv hw e =
    sym (from_be_bytes-to_be_bytes n v hv) ∙ ap from_be_bytes e ∙ from_be_bytes-to_be_bytes n w hw

-- A fixed-width prefix of a concatenation can be taken off.
pub strip :
    (n v w : ℕ) (xs ys : List ℕ)
    → v < 256 ^ n
    → w < 256 ^ n
    → to_be_bytes n v ++ xs ≡ to_be_bytes n w ++ ys
    → (v ≡ w) × (xs ≡ ys)
strip n v w xs ys hv hw e =
    let same : length (to_be_bytes n v) ≡ length (to_be_bytes n w) =
      length-to_be_bytes n v ∙ sym (length-to_be_bytes n w) in
    let (first, rest) = append-injective (to_be_bytes n v) xs (to_be_bytes n w) ys same e in
    (to_be_bytes-injective n v w hv hw first, rest)

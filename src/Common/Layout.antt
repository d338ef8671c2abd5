-- ===== src/Common/Layout.antt =====
-- A buffer filled field by field, and what a slice of it reads.
use Prim.Native.Nat.{ℕ, suc, zero, ◌+◌, ◌-◌, ◌≤◌}
use mathlib.Core.Path.{◌≡◌, refl, ap}
use mathlib.Core.Bool.{◌&&◌, ◌||◌}
use mathlib.Core.Option.{Option, none, some}
use mathlib.Core.List.{List, [], ◌∷◌}
use native.Mathlib.Omega.{arith}
use otap_signup_validator.Common.Tests.{leb, ◌==◌, if◌then◌else◌}
use otap_signup_validator.Common.Lists.{
  All, length, get_or, set, take, drop, replicate, length-replicate,
}
use otap_signup_validator.Common.Bytes.{
  slice, copy_from_slice, length-copy_from_slice, slice-copy_from_slice_self,
  slice-copy_from_slice_apart, copy_from_slice-nil,
}

-- `content` is copied to offset `start`; it should be `width` long.
pub record Field : Type 0 where
  pub start : ℕ
  pub width : ℕ
  pub content : List ℕ

-- The fields are written from the last one to the first.
abbrev pub write_fields : List Field → List ℕ → List ℕ
write_fields [] buf = buf
write_fields (f ∷ fs) buf = copy_from_slice f.start f.content (write_fields fs buf)

abbrev pub Fits : ℕ → Field → Type 0
Fits size f = (length f.content ≡ f.width) × (f.start + f.width ≤ size)

-- The content of the field at `lo..hi`, if no field before it in the list meets that range.
abbrev pub find_field : ℕ → ℕ → List Field → Option (List ℕ)
find_field lo hi [] = none
find_field lo hi (f ∷ fs) =
    let rest = find_field lo hi fs in
    if f.start == lo && f.start + f.width == hi
    then some f.content
    else if leb hi f.start || leb (f.start + f.width) lo
    then rest
    else none

pub length-write_fields :
    (fs : List Field) (buf : List ℕ) → length (write_fields fs buf) ≡ length buf
length-write_fields [] buf = refl
length-write_fields (f ∷ fs) buf = omega (
  arith,
  length-copy_from_slice f.start f.content (write_fields fs buf),
  length-write_fields fs buf,
)

-- A slice reads the field found at its range.
pub slice-write_fields :
    (fs : List Field) (buf : List ℕ) (lo hi : ℕ) {content : List ℕ}
    → lo ≤ hi
    → All (Fits (length buf)) fs
    → find_field lo hi fs ≡ some content
    → slice lo hi (write_fields fs buf) ≡ content
slice-write_fields [] buf lo hi h fit e = cc
slice-write_fields (f ∷ fs) buf lo hi {content} h fit e = ground (
  arith,
  length-write_fields fs buf,
  slice-copy_from_slice_self f.start hi f.content (write_fields fs buf),
  slice-copy_from_slice_apart lo hi f.start f.content (write_fields fs buf),
  slice-write_fields fs buf lo hi {content = content} h fit.1,
)

-- The same over a zeroed buffer.
pub slice-layout :
    (fs : List Field) (size lo hi : ℕ) {content : List ℕ}
    → lo ≤ hi
    → All (Fits size) fs
    → find_field lo hi fs ≡ some content
    → slice lo hi (write_fields fs (replicate size 0)) ≡ content
slice-layout fs size lo hi h fit e =
    slice-write_fields fs (replicate size 0) lo hi h (rw (length-replicate {A = ℕ} size 0) fit) e

-- A write of one element is a copy of one.
pub set-eq-copy_from_slice : (xs : List ℕ) (i v : ℕ) → set xs i v ≡ copy_from_slice i (v ∷ []) xs
unfolding copy_from_slice
set-eq-copy_from_slice [] i v = refl
set-eq-copy_from_slice (x ∷ xs) zero v = rw copy_from_slice-nil
set-eq-copy_from_slice (x ∷ xs) (suc i) v = ap (λ t. x ∷ t) (set-eq-copy_from_slice xs i v)

get_or-of_drop : (xs : List ℕ) (i d : ℕ) {v : ℕ} → take 1 (drop i xs) ≡ v ∷ [] → get_or xs i d ≡ v
get_or-of_drop [] zero d e = cc
get_or-of_drop [] (suc i) d e = cc
get_or-of_drop (x ∷ xs) zero d e = cc
get_or-of_drop (x ∷ xs) (suc i) d e = get_or-of_drop xs i d e

pub get_or-of_slice :
    (xs : List ℕ) (i d : ℕ) {v : ℕ} → slice i (i + 1) xs ≡ v ∷ [] → get_or xs i d ≡ v
unfolding slice
get_or-of_slice xs i d e =
    let one : i + 1 - i ≡ 1 = omega arith in get_or-of_drop xs i d (rw one at e)

-- ===== src/Modq/Ring/Geometry.antt =====
-- Where the slots of crates/otap-modq/src/ring.rs lie: they do not overlap, and the positions of a
-- window of `depth` slots stand in different ones.
use native.Mathlib.Nat.{mul-le-mul_left, mul-le-mul_right, div-add-mod}
use native.Mathlib.Decide.{dec_lt}
use otap_signup_validator.Common.{ℕ, ◌+◌, ◌/◌, ◌%◌, ◌≤◌, ◌<◌, ◌≢◌, ◌⊎◌, inl, inr, sym, arith}
use otap_signup_validator.Modq.Ring.{slot_base}

pub slot_base_mono : (stride i j : ℕ) → i < j → slot_base stride i + stride ≤ slot_base stride j
slot_base_mono stride i j h = let m = mul-le-mul_right stride h in omega (arith, m)

-- A field of one slot and a field of another are apart.
pub slot_fields_apart :
    (stride i j a n b m : ℕ)
    → i ≢ j
    → a + n ≤ stride
    → b + m ≤ stride
    → (slot_base stride j + b + m ≤ slot_base stride i + a)
      ⊎ (slot_base stride i + a + n ≤ slot_base stride j + b)
slot_fields_apart stride i j a n b m ne ha hb = elim (dec_lt i j) [
  | yes lt ↦ inr (let g = slot_base_mono stride i j lt in omega (arith, g))
  | no ge ↦ inl (let g = slot_base_mono stride j i (omega arith) in omega (arith, g))
]

-- A field of a slot lies inside a region that holds `depth` slots.
pub slot_field_inside :
    (stride depth i a n size : ℕ)
    → i < depth
    → a + n ≤ stride
    → slot_base stride depth ≤ size
    → slot_base stride i + a + n ≤ size
slot_field_inside stride depth i a n size h ha fits =
    let g = slot_base_mono stride i depth h in omega (arith, g)

-- Two positions that lie less than `depth` from each other stand in different slots.
window_distinct : (depth k l : ℕ) → k < l → l < k + depth → k % depth ≢ l % depth
window_distinct depth k l lt near e =
    let dk = div-add-mod k depth in
    let dl = div-add-mod l depth in
    elim (dec_lt (k / depth) (l / depth)) [
      | yes up ↦ (let g = mul-le-mul_left depth up in omega (arith, g, dk, dl, e))
      | no down ↦
          (let le : l / depth ≤ k / depth = omega arith in
            let g = mul-le-mul_left depth le in omega (arith, g, dk, dl, e))
    ]

pub window_apart :
    (depth h k l : ℕ)
    → h ≤ k
    → k < h + depth
    → h ≤ l
    → l < h + depth
    → k ≢ l
    → k % depth ≢ l % depth
window_apart depth h k l hk kd hl ld ne = elim (dec_lt k l) [
  | yes lt ↦ window_distinct depth k l lt (omega arith)
  | no ge ↦ λ e. window_distinct depth l k (omega arith) (omega arith) (sym e)
]

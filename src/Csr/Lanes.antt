-- ===== src/Csr/Lanes.antt =====
-- The packed table words: replacing a half or a byte and reading the halves and bytes back.
use native.Mathlib.Nat.{mod-mod_of_dvd, dvd-mul_right, one-le-pow}
use otap_signup_validator.Common.{
  ℕ, zero, suc, ◌+◌, ◌-◌, ◌*◌, ◌/◌, ◌%◌, ◌^◌, ◌<◌, ◌≡◌, ◌⊎◌, arith, bit_and, bit_or, shr,
  bit_and_mask, bit_and_fields, bit_and-zero, bit_or_fields, bit_or-zero, bit_or_disjoint,
  bit_or_disjoint_left, ◌==◌, if◌then◌else◌, ap,
}
use otap_signup_validator.Csr.Writer.{put_half, put_lane}
use otap_signup_validator.Csr.View.{get_half, get_lane}

-- Clearing the low half of a 32-bit word.
clear_low : (w : ℕ) → w < 2 ^ 32 → bit_and w 0xffff_0000 ≡ w / 2 ^ 16 * 2 ^ 16
clear_low w h =
    let whole : w ≡ w / 2 ^ 16 * 2 ^ 16 + w % 2 ^ 16 = omega arith in
    omega (
      arith,
      ap (λ (t : ℕ). bit_and t 0xffff_0000) whole,
      bit_and_fields 16 (w / 2 ^ 16) (w % 2 ^ 16) 0xffff 0 (omega arith) (omega arith),
      bit_and_mask 16 (w / 2 ^ 16),
      bit_and-zero (w % 2 ^ 16),
    )

-- The halves of a word after `put_half`.
put_half_value :
    (e w n : ℕ)
    → w < 2 ^ 32
    → n < 2 ^ 16
    → put_half e w n ≡ (if e % 2 == 0 then w / 2 ^ 16 * 2 ^ 16 + n else n * 2 ^ 16 + w % 2 ^ 16)
unfolding put_half
put_half_value e w n hw hn = ground (
  arith,
  clear_low w hw,
  bit_and_mask 16 w,
  bit_or_disjoint 16 (w / 2 ^ 16) n hn,
  bit_or_disjoint_left 16 n (w % 2 ^ 16),
)

pub put_half-lt : (e w n : ℕ) → w < 2 ^ 32 → n < 2 ^ 16 → put_half e w n < 2 ^ 32
put_half-lt e w n hw hn = ground (arith, put_half_value e w n hw hn)

-- Reading an entry of the same word gives the new value for the same half and the old one otherwise.
pub get_half-put_half :
    (e d w n : ℕ)
    → w < 2 ^ 32
    → n < 2 ^ 16
    → get_half d (put_half e w n) ≡ (if e % 2 == d % 2 then n else get_half d w)
unfolding get_half
get_half-put_half e d w n hw hn = ground (
  arith,
  put_half_value e w n hw hn,
  bit_and_mask 16 w,
  bit_and_mask 16 (shr w 16),
  bit_and_mask 16 (put_half e w n),
  bit_and_mask 16 (shr (put_half e w n) 16),
)

-- Clearing the byte between bits `k` and `t` of a word of `t + m` bits.
clear_field :
    (k t m w : ℕ)
    → 2 ^ t ≡ 2 ^ k * 256
    → bit_and w ((2 ^ m - 1) * 2 ^ t + (2 ^ k - 1)) ≡ (w / 2 ^ t) % 2 ^ m * 2 ^ t + w % 2 ^ k
clear_field k t m w e =
    let whole : w ≡ w / 2 ^ t * 2 ^ t + w % 2 ^ t = omega (arith, one-le-pow t 2) in
    omega (
      arith,
      ap (λ (x : ℕ). bit_and x ((2 ^ m - 1) * 2 ^ t + (2 ^ k - 1))) whole,
      bit_and_fields t (w / 2 ^ t) (w % 2 ^ t) (2 ^ m - 1) (2 ^ k - 1)
          (omega (arith, one-le-pow t 2)) (omega (arith, one-le-pow k 2)),
      ap (λ (x : ℕ). x * 2 ^ t) (bit_and_mask m (w / 2 ^ t)),
      bit_and_mask k (w % 2 ^ t),
      mod-mod_of_dvd (2 ^ k) {b = 2 ^ t} w (rw e (dvd-mul_right (2 ^ k) 256)),
    )

-- Filling a cleared byte.
fill_field :
    (k t hi lo s : ℕ)
    → 2 ^ t ≡ 2 ^ k * 256
    → lo < 2 ^ k
    → s < 256
    → bit_or (hi * 2 ^ t + lo) (s * 2 ^ k) ≡ hi * 2 ^ t + s * 2 ^ k + lo
fill_field k t hi lo s e hl hs =
    let low : s * 2 ^ k ≡ 0 * 2 ^ t + s * 2 ^ k = omega arith in
    let fits : s * 2 ^ k < 2 ^ t = grind arith in
    omega (
      arith,
      ap (λ (x : ℕ). bit_or (hi * 2 ^ t + lo) x) low,
      bit_or_fields t hi lo 0 (s * 2 ^ k) (omega arith) fits,
      ap (λ (x : ℕ). x * 2 ^ t) (bit_or-zero hi),
      bit_or_disjoint_left k s lo hl,
    )

-- One byte of four replaced, as arithmetic.
replace_field :
    (k t m w s : ℕ)
    → 2 ^ t ≡ 2 ^ k * 256
    → s < 256
    → bit_or (bit_and w ((2 ^ m - 1) * 2 ^ t + (2 ^ k - 1))) (s * 2 ^ k)
      ≡ (w / 2 ^ t) % 2 ^ m * 2 ^ t + s * 2 ^ k + w % 2 ^ k
replace_field k t m w s e hs =
    rw (clear_field k t m w e)
      (fill_field k t ((w / 2 ^ t) % 2 ^ m) (w % 2 ^ k) s e (omega (arith, one-le-pow k 2)) hs)

put_lane_value :
    (lane w s : ℕ)
    → lane < 4
    → w < 2 ^ 32
    → s < 256
    → put_lane lane w s
      ≡ w / (2 ^ (lane * 8) * 256) * (2 ^ (lane * 8) * 256)
        + s * 2 ^ (lane * 8)
        + w % 2 ^ (lane * 8)
unfolding put_lane
put_lane_value zero w s hl hw hs = ground (arith, replace_field 0 8 24 w s (omega arith) hs)
put_lane_value (suc zero) w s hl hw hs = ground (arith, replace_field 8 16 16 w s (omega arith) hs)
put_lane_value (suc (suc zero)) w s hl hw hs =
    ground (arith, replace_field 16 24 8 w s (omega arith) hs)
put_lane_value (suc (suc (suc zero))) w s hl hw hs =
    ground (arith, replace_field 24 32 0 w s (omega arith) hs)
put_lane_value (suc (suc (suc (suc lane)))) w s hl hw hs = absurd (omega arith)

lane_cases : (lane : ℕ) → lane < 4 → (lane ≡ 0) ⊎ (lane ≡ 1) ⊎ (lane ≡ 2) ⊎ (lane ≡ 3)
lane_cases lane h = omega arith

pub put_lane-lt : (lane w s : ℕ) → lane < 4 → w < 2 ^ 32 → s < 256 → put_lane lane w s < 2 ^ 32
put_lane-lt lane w s hl hw hs = ground (arith, put_lane_value lane w s hl hw hs, lane_cases lane hl)

get_lane_value : (lane w : ℕ) → get_lane lane w ≡ w / 2 ^ (lane * 8) % 256
unfolding get_lane
get_lane_value lane w = omega (arith, bit_and_mask 8 (w / 2 ^ (lane * 8)))

-- Byte `l` of a word whose byte `k` was replaced, as arithmetic.
abbrev Replaced : ℕ → ℕ → ℕ → ℕ → Type 0
Replaced k l w s =
    (w / (2 ^ (k * 8) * 256) * (2 ^ (k * 8) * 256) + s * 2 ^ (k * 8) + w % 2 ^ (k * 8))
      / 2 ^ (l * 8)
      % 256
    ≡ (if k == l then s else w / 2 ^ (l * 8) % 256)

Replaced-below : (k l w s : ℕ) → k < 4 → l < 4 → s < 256 → Replaced k l w s
Replaced-below k l w s hk hl hs = ground (arith, lane_cases k hk, lane_cases l hl)

-- Reading a byte of the word gives the new value for the same byte and the old one otherwise.
pub get_lane-put_lane :
    (k l w s : ℕ)
    → k < 4
    → l < 4
    → w < 2 ^ 32
    → s < 256
    → get_lane l (put_lane k w s) ≡ (if k == l then s else get_lane l w)
get_lane-put_lane k l w s hk hl hw hs =
    rw (get_lane_value, get_lane_value l w, put_lane_value k w s hk hw hs)
      (Replaced-below k l w s hk hl hs)

pub get_lane-lt : (l w : ℕ) → get_lane l w < 256
get_lane-lt l w = omega (arith, get_lane_value l w)

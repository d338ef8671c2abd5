-- ===== src/Common/Bits.antt =====
-- `&`, `|`, `^` and the shifts of unsigned words as arithmetic.
use Prim.Native.Nat.{
  ℕ, zero, suc, ◌+◌, ◌-◌, ◌*◌, ◌/◌, ◌%◌, ◌^◌, ◌<◌, ◌≤◌, min, max, digits, bitwise, bit_and, bit_or,
  bit_and-bitwise, bit_or-bitwise,
}
use mathlib.Core.Path.{◌≡◌, refl, ap}
use native.Mathlib.Nat.{pow-suc, one-le-pow}
use native.Mathlib.Omega.{arith}

-- `x << k` cut to `w` bits, `x >> k`, and `!x` on `w` bits.
abbrev pub shl : ℕ → ℕ → ℕ → ℕ
shl w x k = (x * 2 ^ k) % 2 ^ w

abbrev pub shr : ℕ → ℕ → ℕ
shr x k = x / 2 ^ k

abbrev pub bit_not : ℕ → ℕ → ℕ
bit_not w x = 2 ^ w - 1 - x

-- The fuel of the library's digit recursion does not matter once it covers the first number.
module _ (rest : ℕ → ℕ) (digit : ℕ → ℕ → ℕ) where
  digits_enough : (k l x y : ℕ) → x ≤ k → x ≤ l → digits rest digit k x y ≡ digits rest digit l x y
  digits_enough zero zero x y h h' = refl
  digits_enough zero (suc l) zero y h h' = refl
  digits_enough (suc k) zero zero y h h' = refl
  digits_enough (suc k) (suc l) zero y h h' = refl
  digits_enough zero (suc l) (suc x) y h h' = absurd (omega arith)
  digits_enough (suc k) zero (suc x) y h h' = absurd (omega arith)
  digits_enough (suc k) (suc l) (suc x) y h h' =
      omega (arith, digits_enough k l (suc x / 2) (y / 2) (omega arith) (omega arith))

  bitwise_step :
      (a b : ℕ)
      → bitwise rest digit (suc a) b
        ≡ bitwise rest digit (suc a / 2) (b / 2) * 2 + digit (suc a % 2) (b % 2)
  bitwise_step a b =
      omega (arith, digits_enough a (suc a / 2) (suc a / 2) (b / 2) (omega arith) (omega arith))

low_digit_of_and : (x y : ℕ) → bit_and x y ≡ bit_and (x / 2) (y / 2) * 2 + min (x % 2) (y % 2)
low_digit_of_and zero y = simp bit_and-bitwise (omega arith)
low_digit_of_and (suc x) y = simp bit_and-bitwise (bitwise_step (λ rest. 0) min x y)

low_digit_of_or : (x y : ℕ) → bit_or x y ≡ bit_or (x / 2) (y / 2) * 2 + max (x % 2) (y % 2)
low_digit_of_or zero y = simp bit_or-bitwise (omega arith)
low_digit_of_or (suc x) y = simp bit_or-bitwise (bitwise_step (λ rest. rest) max x y)

-- A digitwise operation works on the high and the low part of its arguments apart.
module _ (op digit : ℕ → ℕ → ℕ)
    (step : (a b : ℕ) → op a b ≡ op (a / 2) (b / 2) * 2 + digit (a % 2) (b % 2))
    (zeros : op 0 0 ≡ 0) where
  op_fields :
      (k q r p s : ℕ)
      → r < 2 ^ k
      → s < 2 ^ k
      → op (q * 2 ^ k + r) (p * 2 ^ k + s) ≡ op q p * 2 ^ k + op r s
  op_fields zero q r p s hr hs =
      let er : r ≡ 0 = omega arith in
      let es : s ≡ 0 = omega arith in
      let eq : q * 2 ^ 0 + r ≡ q = omega arith in
      let ep : p * 2 ^ 0 + s ≡ p = omega arith in rw (eq, ep, er, es, zeros) (omega arith)
  op_fields (suc k) q r p s hr hs =
      let half_q : (q * 2 ^ suc k + r) / 2 ≡ q * 2 ^ k + r / 2 =
        omega (arith, pow-suc 2 k, ap (λ (t : ℕ). q * t) (pow-suc 2 k)) in
      let half_p : (p * 2 ^ suc k + s) / 2 ≡ p * 2 ^ k + s / 2 =
        omega (arith, pow-suc 2 k, ap (λ (t : ℕ). p * t) (pow-suc 2 k)) in
      let low_q : (q * 2 ^ suc k + r) % 2 ≡ r % 2 =
        omega (arith, pow-suc 2 k, ap (λ (t : ℕ). q * t) (pow-suc 2 k)) in
      let low_p : (p * 2 ^ suc k + s) % 2 ≡ s % 2 =
        omega (arith, pow-suc 2 k, ap (λ (t : ℕ). p * t) (pow-suc 2 k)) in
      let ih =
        op_fields k q (r / 2) p (s / 2) (omega (arith, pow-suc 2 k)) (omega (arith, pow-suc 2 k)) in
      rw (step (q * 2 ^ suc k + r) (p * 2 ^ suc k + s), half_q, half_p, low_q, low_p, ih, pow-suc)
        (omega (arith, step r s))

pub bit_and_fields :
    (k q r p s : ℕ)
    → r < 2 ^ k
    → s < 2 ^ k
    → bit_and (q * 2 ^ k + r) (p * 2 ^ k + s) ≡ bit_and q p * 2 ^ k + bit_and r s
bit_and_fields = op_fields bit_and min low_digit_of_and refl

pub bit_or_fields :
    (k q r p s : ℕ)
    → r < 2 ^ k
    → s < 2 ^ k
    → bit_or (q * 2 ^ k + r) (p * 2 ^ k + s) ≡ bit_or q p * 2 ^ k + bit_or r s
bit_or_fields = op_fields bit_or max low_digit_of_or refl

-- Zero and all-ones arguments, by the number of digits.
bit_and-zero_below : (bound x : ℕ) → x ≤ bound → bit_and x 0 ≡ 0
bit_and-zero_below zero (suc x) h = absurd (omega arith)
bit_and-zero_below bound zero h = refl
bit_and-zero_below (suc bound) (suc x) h =
    let shorter = bit_and-zero_below bound (suc x / 2) (omega arith) in
    omega (arith, low_digit_of_and (suc x) 0, shorter)

pub bit_and-zero : (a : ℕ) → bit_and a 0 ≡ 0
bit_and-zero a = bit_and-zero_below a a (omega arith)

bit_or-zero_below : (n a : ℕ) → a ≤ n → bit_or a 0 ≡ a
bit_or-zero_below n zero h = refl
bit_or-zero_below zero (suc a) h = absurd (omega arith)
bit_or-zero_below (suc n) (suc a) h =
    omega (arith, low_digit_of_or (suc a) 0, bit_or-zero_below n (suc a / 2) (omega arith))

pub bit_or-zero : (a : ℕ) → bit_or a 0 ≡ a
bit_or-zero a = bit_or-zero_below a a (omega arith)

pub zero-bit_or : (a : ℕ) → bit_or 0 a ≡ a
zero-bit_or a = simp bit_or-bitwise

bit_and-ones_below : (k a : ℕ) → a < 2 ^ k → bit_and a (2 ^ k - 1) ≡ a
bit_and-ones_below zero a h = let e : a ≡ 0 = omega arith in rw e refl
bit_and-ones_below (suc k) a h =
    let half : (2 ^ suc k - 1) / 2 ≡ 2 ^ k - 1 = omega (arith, pow-suc 2 k, one-le-pow k 2) in
    let low : (2 ^ suc k - 1) % 2 ≡ 1 = omega (arith, pow-suc 2 k, one-le-pow k 2) in
    let ih = bit_and-ones_below k (a / 2) (omega (arith, pow-suc 2 k)) in
    rw (low_digit_of_and a (2 ^ suc k - 1), half, low, ih) (omega arith)

-- A mask of `k` low ones keeps the remainder by `2 ^ k`.
pub bit_and_mask : (k a : ℕ) → bit_and a (2 ^ k - 1) ≡ a % 2 ^ k
bit_and_mask k a =
    let whole : a ≡ a / 2 ^ k * 2 ^ k + a % 2 ^ k = omega (arith, one-le-pow k 2) in
    let fields =
      bit_and_fields k (a / 2 ^ k) (a % 2 ^ k) 0 (2 ^ k - 1) (omega (arith, one-le-pow k 2))
        (omega (arith, one-le-pow k 2)) in
    let mask : 2 ^ k - 1 ≡ 0 * 2 ^ k + (2 ^ k - 1) = omega arith in
    omega (
      arith,
      ap (λ (t : ℕ). bit_and t (2 ^ k - 1)) whole,
      ap (λ (t : ℕ). bit_and (a / 2 ^ k * 2 ^ k + a % 2 ^ k) t) mask,
      fields,
      ap (λ (t : ℕ). t * 2 ^ k) (bit_and-zero (a / 2 ^ k)),
      bit_and-ones_below k (a % 2 ^ k) (omega (arith, one-le-pow k 2)),
    )

-- Fields that do not meet: `|` of a multiple of `2 ^ k` and a number below it is their sum.
pub bit_or_disjoint : (k q r : ℕ) → r < 2 ^ k → bit_or (q * 2 ^ k) r ≡ q * 2 ^ k + r
bit_or_disjoint k q r h =
    let high : q * 2 ^ k ≡ q * 2 ^ k + 0 = omega arith in
    let low : r ≡ 0 * 2 ^ k + r = omega arith in
    omega (
      arith,
      ap (λ (t : ℕ). bit_or t r) high,
      ap (λ (t : ℕ). bit_or (q * 2 ^ k + 0) t) low,
      bit_or_fields k q 0 0 r (omega (arith, one-le-pow k 2)) h,
      ap (λ (t : ℕ). t * 2 ^ k) (bit_or-zero q),
      zero-bit_or r,
    )

pub bit_or_disjoint_left : (k q r : ℕ) → r < 2 ^ k → bit_or r (q * 2 ^ k) ≡ q * 2 ^ k + r
bit_or_disjoint_left k q r h =
    let high : q * 2 ^ k ≡ q * 2 ^ k + 0 = omega arith in
    let low : r ≡ 0 * 2 ^ k + r = omega arith in
    omega (
      arith,
      ap (λ (t : ℕ). bit_or r t) high,
      ap (λ (t : ℕ). bit_or t (q * 2 ^ k + 0)) low,
      bit_or_fields k 0 r q 0 h (omega (arith, one-le-pow k 2)),
      ap (λ (t : ℕ). t * 2 ^ k) (zero-bit_or q),
      bit_or-zero r,
    )

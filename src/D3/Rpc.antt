-- ===== src/D3/Rpc.antt =====
-- crates/luxstream-otap-d3/src/rpc.rs: the rolling photon checksum.
use native.Mathlib.Nat.{mul-le-mul_right}
use otap_signup_validator.Common.{
  ℕ, ◌+◌, ◌*◌, ◌%◌, ◌^◌, ◌<◌, ◌≤◌, ◌≡◌, arith, List, [], ◌∷◌, All, bit_and, bit_and_mask,
}

-- `Polarization`
pub data Polarization : Type 0 where
  horizontal : Polarization
  vertical : Polarization
  diagonal : Polarization
  antidiagonal : Polarization

-- The discriminant, as a cast gives it.
abbrev pub pol_weight : Polarization → ℕ
pol_weight horizontal = 1
pol_weight vertical = 2
pol_weight diagonal = 3
pol_weight antidiagonal = 5

-- `Symbol`
pub record Symbol : Type 0 where
  pub value : ℕ
  pub lambda : ℕ
  pub pol : Polarization

-- The fields within their types.
pub record IsSymbol (s : Symbol) : Type 0 where
  pub value : s.value < 2 ^ 16
  pub lambda : s.lambda < 2 ^ 8

-- `RpcDomain`
pub data RpcDomain : Type 0 where
  link_data : RpcDomain
  control_plane : RpcDomain

abbrev pub domain_tag : RpcDomain → ℕ
domain_tag link_data = 0
domain_tag control_plane = 1

abbrev pub prime : ℕ
prime = 7919

-- The term of one symbol in the loop of `calculate_rpc`.
unfoldable pub term : Symbol → ℕ
term s = let w_i = s.lambda * prime % 2 ^ 64 in (s.value * w_i % 2 ^ 64) * pol_weight s.pol % 2 ^ 64

-- The loop of `calculate_rpc`.
unfoldable pub accumulate : ℕ → List Symbol → ℕ
accumulate acc [] = acc
accumulate acc (s ∷ rest) = accumulate ((acc + term s) % 2 ^ 64) rest

-- `calculate_rpc`
unfoldable pub calculate_rpc : List Symbol → ℕ → ℕ → ℕ
unfolding accumulate
calculate_rpc symbols domain epoch_nonce =
    bit_and (accumulate ((epoch_nonce + domain * 31 % 2 ^ 64) % 2 ^ 64) symbols) 0xffff_ffff

-- `S_i · W_λ · P_i` of the formula.
abbrev pub weight : Symbol → ℕ
weight s = s.value * (s.lambda * prime) * pol_weight s.pol

abbrev pub total : List Symbol → ℕ
total [] = 0
total (s ∷ rest) = weight s + total rest

pol_weight-exact :
    (p : Polarization) (x : ℕ) → x < 2 ^ 60 → x * pol_weight p % 2 ^ 64 ≡ x * pol_weight p
pol_weight-exact horizontal x h = omega arith
pol_weight-exact vertical x h = omega arith
pol_weight-exact diagonal x h = omega arith
pol_weight-exact antidiagonal x h = omega arith

term-weight : (s : Symbol) → IsSymbol s → term s ≡ weight s
unfolding term
term-weight s h =
    let w_i = s.lambda * prime in
    let w_exact : w_i % 2 ^ 64 ≡ w_i = omega (arith, h.lambda) in
    let bounded : s.value * w_i ≤ 65536 * w_i = mul-le-mul_right w_i (omega (arith, h.value)) in
    let v_exact : s.value * w_i % 2 ^ 64 ≡ s.value * w_i = omega (arith, h.lambda) in
    rw (w_exact, v_exact, pol_weight-exact s.pol (s.value * w_i) (omega (arith, h.lambda)))

accumulate-total :
    (symbols : List Symbol) (acc : ℕ)
    → All IsSymbol symbols
    → accumulate acc symbols % 2 ^ 32 ≡ (acc + total symbols) % 2 ^ 32
unfolding accumulate
accumulate-total [] acc h = omega arith
accumulate-total (s ∷ rest) acc (h, hs) =
    let step = term-weight s h in omega (arith, accumulate-total rest ((acc + term s) % 2 ^ 64) hs)

-- The checksum of symbols within their types is the documented sum: the nonce, 31 times the domain
-- tag and the weighted values, modulo 2^32, with no other effect of the 64-bit wrap-around.
pub calculate_rpc_lem :
    (symbols : List Symbol) (domain epoch_nonce : ℕ)
    → All IsSymbol symbols
    → calculate_rpc symbols domain epoch_nonce
      ≡ (epoch_nonce + domain * 31 + total symbols) % 2 ^ 32
unfolding calculate_rpc
calculate_rpc_lem symbols domain epoch_nonce h = omega (
  arith,
  bit_and_mask 32 (accumulate ((epoch_nonce + domain * 31 % 2 ^ 64) % 2 ^ 64) symbols),
  accumulate-total symbols ((epoch_nonce + domain * 31 % 2 ^ 64) % 2 ^ 64) h,
)

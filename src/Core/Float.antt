-- ===== src/Core/Float.antt =====
-- The `f32` operations that the source uses. Their values are left open: only the order in which
-- the code applies them is modelled.
use otap_signup_validator.Common.{ℕ, Bool}
use otap_signup_validator.Common.Int.{ℤ}

pub record Float32 (F : Type 0) : Type 0 where
  -- `literal m e` is the number written m × 10^-e.
  pub literal : ℤ → ℕ → F
  pub pi : F
  pub add : F → F → F
  pub sub : F → F → F
  pub mul : F → F → F
  pub div : F → F → F
  pub neg : F → F
  pub maximum : F → F → F
  pub clamp : F → F → F → F
  pub sqrt : F → F
  pub acos : F → F
  pub atan2 : F → F → F
  pub round : F → F
  pub gt : F → F → Bool
  pub le : F → F → Bool
  -- the casts `as i32`, `as u32`, and those from `i16` and `u32`
  pub to_i32 : F → ℤ
  pub to_u32 : F → ℕ
  pub of_i16 : ℤ → F
  pub of_u32 : ℕ → F

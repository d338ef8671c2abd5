-- ===== src/Core/Stokes.antt =====
-- crates/otap-core/src/dimensions.rs: polarization (D3) on the Poincaré sphere.
use otap_signup_validator.Common.{ℕ, zero, suc, ◌+◌, ◌%◌, true, false, List, get_or}
use otap_signup_validator.Common.Int.{ℤ, pos, negsuc}
use otap_signup_validator.Core.Float.{Float32}

-- `StokesVector`
pub record StokesVector (F : Type 0) : Type 0 where
  pub s1 : F
  pub s2 : F
  pub s3 : F

-- `TRAJECTORY_SAMPLES`
abbrev pub trajectory_samples : ℕ
trajectory_samples = 16

-- `PolarizationTrajectory`; the list has `trajectory_samples` elements.
pub record PolarizationTrajectory (F : Type 0) : Type 0 where
  pub samples : List (StokesVector F)

-- The loops of the source end by their tests after at most one round on a difference of two
-- results of `atan2`; `wrap_fuel` rounds are given.
abbrev pub wrap_fuel : ℕ
wrap_fuel = 2

module _ {F : Type 0} ⦃fl : Float32 F⦄ where
  open fl use {
    literal, pi, add, sub, mul, div, neg, maximum, clamp, sqrt, acos, atan2, round, gt, le, to_i32,
  }

  -- `StokesVector::H`
  abbrev pub horizontal : StokesVector F
  horizontal = record { s1 = literal (pos 1) 0; s2 = literal (pos 0) 0; s3 = literal (pos 0) 0 }

  -- `StokesVector::V`, `StokesVector::D` and `StokesVector::R`
  abbrev pub vertical : StokesVector F
  vertical = record { s1 = neg (literal (pos 1) 0); s2 = literal (pos 0) 0; s3 = literal (pos 0) 0 }

  abbrev pub diagonal : StokesVector F
  diagonal = record { s1 = literal (pos 0) 0; s2 = literal (pos 1) 0; s3 = literal (pos 0) 0 }

  abbrev pub right_circular : StokesVector F
  right_circular = record { s1 = literal (pos 0) 0; s2 = literal (pos 0) 0; s3 = literal (pos 1) 0 }

  -- `StokesVector::new`
  unfoldable pub new_stokes : F → F → F → StokesVector F
  new_stokes s1 s2 s3 =
      let norm = sqrt (add (add (mul s1 s1) (mul s2 s2)) (mul s3 s3)) in
      let mag = maximum norm (literal (pos 1) 9) in
      record { s1 = div s1 mag; s2 = div s2 mag; s3 = div s3 mag }

  -- `StokesVector::angular_distance`
  unfoldable pub angular_distance : StokesVector F → StokesVector F → F
  angular_distance v o =
      let dot = add (add (mul v.s1 o.s1) (mul v.s2 o.s2)) (mul v.s3 o.s3) in
      acos (clamp dot (literal (negsuc 0) 0) (literal (pos 1) 0))

  unfoldable pub two_pi : F
  two_pi = mul (literal (pos 2) 0) pi

  -- `while d > PI { d -= 2.0 * PI; }`
  unfoldable pub wrap_down : ℕ → F → F
  unfolding two_pi
  wrap_down zero d = d
  wrap_down (suc fuel) d = elim (gt d pi) [ true ↦ wrap_down fuel (sub d two_pi) | false ↦ d ]

  -- `while d <= -PI { d += 2.0 * PI; }`
  unfoldable pub wrap_up : ℕ → F → F
  unfolding two_pi
  wrap_up zero d = d
  wrap_up (suc fuel) d = elim (le d (neg pi)) [ true ↦ wrap_up fuel (add d two_pi) | false ↦ d ]

  -- The signed step of the angle between two samples.
  unfoldable pub angle_step : StokesVector F → StokesVector F → F
  unfolding wrap_down wrap_up
  angle_step a b =
      let d = sub (atan2 b.s2 b.s1) (atan2 a.s2 a.s1) in wrap_up wrap_fuel (wrap_down wrap_fuel d)

  -- The loop over the samples from index `i`, with `left` rounds to go.
  unfoldable pub total_angle : List (StokesVector F) → ℕ → ℕ → F → F
  unfolding angle_step
  total_angle samples zero i total = total
  total_angle samples (suc left) i total =
      let a = get_or samples i horizontal in
      let b = get_or samples ((i + 1) % trajectory_samples) horizontal in
      total_angle samples left (i + 1) (add total (angle_step a b))

  -- `PolarizationTrajectory::winding_number_s3`
  unfoldable pub winding_number_s3 : PolarizationTrajectory F → ℤ
  unfolding total_angle two_pi
  winding_number_s3 t =
      let total = total_angle t.samples trajectory_samples 0 (literal (pos 0) 0) in
      to_i32 (round (div total two_pi))

-- ===== src/Crypto/Match.antt =====
-- What `verify_trajectory` accepts.
use native.Mathlib.Decide.{ℕ_discrete}
use otap_signup_validator.Common.{
  ℕ, zero, suc, ◌+◌, ◌<◌, ◌≤◌, ◌≡◌, ◌↔◌, refl, arith, List, get_or, true, false, is_ok, Bool-cases,
  inl, inr, subst,
}
use otap_signup_validator.Common.Int.{eq_ℤ_iff}
use otap_signup_validator.Core.Float.{Float32}
use otap_signup_validator.Core.Stokes.{
  StokesVector, PolarizationTrajectory, trajectory_samples, horizontal, angular_distance,
  winding_number_s3,
}
use otap_signup_validator.Crypto.Secret.{SharedSecret}
use otap_signup_validator.Crypto.Hmac.{Hmac}
use otap_signup_validator.Crypto.Trajectory.{TrajectoryContext, derive_trajectory}
use otap_signup_validator.Crypto.Verify.{
  AuthMode, trajectory_match, topological, match_samples, verify_trajectory,
}

module _ {F : Type 0} ⦃fl : Float32 F⦄ where
  -- Sample `i` of one trajectory lies within the tolerance of sample `i` of the other.
  abbrev pub Within : F → List (StokesVector F) → List (StokesVector F) → ℕ → Type 0
  Within tolerance expected observed i =
      fl.gt (angular_distance (get_or expected i horizontal) (get_or observed i horizontal))
        tolerance
      ≡ false

  match_samples_iff :
      (tolerance : F) (expected observed : List (StokesVector F)) (left i : ℕ)
      → (is_ok (match_samples tolerance expected observed left i) ≡ true)
        ↔ ((j : ℕ) → i ≤ j → j < i + left → Within tolerance expected observed j)
  unfolding match_samples
  match_samples_iff tolerance expected observed zero i =
      (λ _ j p q. absurd (omega arith), λ _. refl)
  match_samples_iff tolerance expected observed (suc left) i =
      let ih = match_samples_iff tolerance expected observed left (i + 1) in
      elim (Bool-cases (
        fl.gt (angular_distance (get_or expected i horizontal) (get_or observed i horizontal))
          tolerance)) [
            | inl far ↦
                rw far ((λ e. cc), (λ all. let near = all i (omega arith) (omega arith) in cc))
            | inr near ↦ rw near (
              (λ e j p q. elim (ℕ_discrete i j) [
                | yes same ↦ subst (λ k. Within tolerance expected observed k) same near
                | no other ↦ ih.0 e j (omega arith) (omega arith)
              ]),
              (λ all. ih.1 (λ j p q. all j (omega arith) (omega arith))),
            )
          ]

-- What each mode asks of an observed trajectory.
abbrev pub Passes :
    {F : Type 0} ⦃fl : Float32 F⦄
    → PolarizationTrajectory F
    → PolarizationTrajectory F
    → AuthMode F
    → Type 0
Passes expected observed (trajectory_match tolerance) =
    (j : ℕ) → 0 ≤ j → j < trajectory_samples → Within tolerance expected.samples observed.samples j
Passes expected observed topological = winding_number_s3 expected ≡ winding_number_s3 observed

-- `verify_trajectory` accepts an observed trajectory exactly when, in the mode of sample matching,
-- none of the 16 samples is farther than the tolerance from the derived one, and, in the topological
-- mode, its winding number is that of the derived trajectory.
pub verify_trajectory_iff :
    {F : Type 0} ⦃fl : Float32 F⦄ ⦃hm : Hmac⦄ (secret : SharedSecret) (ctx : TrajectoryContext)
    (observed : PolarizationTrajectory F) (mode : AuthMode F)
    → (is_ok (verify_trajectory secret ctx observed mode) ≡ true)
      ↔ Passes (derive_trajectory secret ctx) observed mode
unfolding verify_trajectory
verify_trajectory_iff {F} ⦃fl⦄ ⦃hm⦄ secret ctx observed (trajectory_match tolerance) =
    let expected : PolarizationTrajectory F = derive_trajectory secret ctx in
    match_samples_iff tolerance expected.samples observed.samples trajectory_samples 0
verify_trajectory_iff {F} ⦃fl⦄ ⦃hm⦄ secret ctx observed topological =
    let expected : PolarizationTrajectory F = derive_trajectory secret ctx in
    ground (arith, eq_ℤ_iff (winding_number_s3 expected) (winding_number_s3 observed))

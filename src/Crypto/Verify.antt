-- ===== src/Crypto/Verify.antt =====
-- crates/otap-crypto/src/lib.rs: `AuthMode` and `verify_trajectory`.
use otap_signup_validator.Common.{ℕ, zero, suc, ◌+◌, List, get_or, ok, err, if◌then◌else◌}
use otap_signup_validator.Common.Int.{eq_ℤ, pos}
use otap_signup_validator.Core.Error.{ProtocolResult, authentication_failure}
use otap_signup_validator.Core.Float.{Float32}
use otap_signup_validator.Core.Stokes.{
  StokesVector, PolarizationTrajectory, trajectory_samples, horizontal, angular_distance,
  winding_number_s3,
}
use otap_signup_validator.Crypto.Secret.{SharedSecret}
use otap_signup_validator.Crypto.Hmac.{Hmac}
use otap_signup_validator.Crypto.Trajectory.{TrajectoryContext, derive_trajectory}

-- `AuthMode`
pub data AuthMode (F : Type 0) : Type 0 where
  trajectory_match : F → AuthMode F
  topological : AuthMode F

module _ {F : Type 0} ⦃fl : Float32 F⦄ where
  open fl use {gt, literal}

  -- `AuthMode::default`
  abbrev pub default_auth_mode : AuthMode F
  default_auth_mode = trajectory_match (literal (pos 1) 1)

  -- The loop of the sample-by-sample check from index `i`, with `left` rounds to go.
  unfoldable pub match_samples :
      F → List (StokesVector F) → List (StokesVector F) → ℕ → ℕ → ProtocolResult (Unit {0})
  match_samples tolerance expected observed zero i = ok tt
  match_samples tolerance expected observed (suc left) i =
      let rest = match_samples tolerance expected observed left (i + 1) in
      let d = angular_distance (get_or expected i horizontal) (get_or observed i horizontal) in
      if gt d tolerance then err authentication_failure else rest

module _ {F : Type 0} ⦃fl : Float32 F⦄ ⦃hm : Hmac⦄ where
  -- `verify_trajectory`
  unfoldable pub verify_trajectory :
      SharedSecret
      → TrajectoryContext
      → PolarizationTrajectory F
      → AuthMode F
      → ProtocolResult (Unit {0})
  unfolding match_samples
  verify_trajectory secret ctx observed (trajectory_match tolerance) =
      let expected : PolarizationTrajectory F = derive_trajectory secret ctx in
      match_samples tolerance expected.samples observed.samples trajectory_samples 0
  verify_trajectory secret ctx observed topological =
      let expected : PolarizationTrajectory F = derive_trajectory secret ctx in
      if eq_ℤ (winding_number_s3 expected) (winding_number_s3 observed)
      then ok tt
      else err authentication_failure

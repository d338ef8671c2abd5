-- ===== src/Crypto/Trajectory.antt =====
-- crates/otap-crypto/src/lib.rs: `derive_trajectory`.
use Prim.Native.Char.{code}
use Prim.Native.String.{String}
use otap_signup_validator.Common.{
  ℕ, zero, suc, ◌+◌, ◌%◌, ◌^◌, List, [], ◌∷◌, ◌++◌, length, get_or, slice, to_be_bytes,
  from_be_bytes,
}
use otap_signup_validator.Common.Int.{pos, to_bits, of_bits}
use otap_signup_validator.Core.Float.{Float32}
use otap_signup_validator.Core.Dimensions.{Wavelength, OamMode}
use otap_signup_validator.Core.Stokes.{
  StokesVector, PolarizationTrajectory, trajectory_samples, new_stokes,
}
use otap_signup_validator.Crypto.Secret.{SharedSecret}
use otap_signup_validator.Crypto.Hmac.{Hmac}

-- The bytes of an ASCII literal `b"…"`.
abbrev pub ascii : String → List ℕ
ascii String.[] = []
ascii (String.◌∷◌ c s) = code c ∷ ascii s

-- `TrajectoryContext`
pub record TrajectoryContext : Type 0 where
  pub wavelength : Wavelength
  pub oam : OamMode
  pub sequence : ℕ
  pub payload : List ℕ

-- What `derive_trajectory` feeds to the first HMAC: the domain separator, then each field at a fixed
-- width, then the payload. The length is cut to 32 bits by the cast.
unfoldable pub context_bytes : TrajectoryContext → List ℕ
context_bytes ctx =
    ascii "OTAP-D3-TRAJECTORY-v1"
    ++ (to_be_bytes 2 ctx.wavelength.channel
        ++ (to_be_bytes 1 (to_bits 8 ctx.oam.charge)
            ++ (to_be_bytes 2 ctx.sequence
                ++ (to_be_bytes 4 (length ctx.payload % 2 ^ 32) ++ ctx.payload))))

module _ {F : Type 0} ⦃fl : Float32 F⦄ ⦃hm : Hmac⦄ where
  open fl use {div, of_i16, literal}
  open hm use {mac}

  -- `to_signed` in `stokes_from_bytes`
  unfoldable pub to_signed : ℕ → ℕ → F
  to_signed hi lo = div (of_i16 (of_bits 16 (from_be_bytes (hi ∷ lo ∷ [])))) (literal (pos 32768) 0)

  -- `stokes_from_bytes`
  unfoldable pub stokes_from_bytes : List ℕ → StokesVector F
  unfolding to_signed
  stokes_from_bytes bytes =
      new_stokes (to_signed (get_or bytes 0 0) (get_or bytes 1 0))
        (to_signed (get_or bytes 2 0) (get_or bytes 3 0))
        (to_signed (get_or bytes 4 0) (get_or bytes 5 0))

  -- The loop over the samples from index `i`, with `left` rounds to go.
  unfoldable pub derive_samples : SharedSecret → List ℕ → ℕ → ℕ → List (StokesVector F)
  derive_samples secret tag zero i = []
  derive_samples secret tag (suc left) i =
      stokes_from_bytes
        (slice 0 6 (mac secret.bytes (ascii "OTAP-D3-SAMPLE-v1" ++ (tag ++ to_be_bytes 2 i))))
      ∷ derive_samples secret tag left (i + 1)

  -- `derive_trajectory`
  unfoldable pub derive_trajectory : SharedSecret → TrajectoryContext → PolarizationTrajectory F
  derive_trajectory secret ctx = record {
    samples = derive_samples secret (mac secret.bytes (context_bytes ctx)) trajectory_samples 0;
  }

-- ===== src/Core/Transient.antt =====
-- crates/otap-core/src/transient.rs
use otap_signup_validator.Common.{ℕ, List, length}
use otap_signup_validator.Core.Dimensions.{Wavelength, OamMode, MicroStructure}
use otap_signup_validator.Core.Stokes.{PolarizationTrajectory}

-- `Transient`
pub record Transient (F : Type 0) : Type 0 where
  pub wavelength : Wavelength
  pub polarization : PolarizationTrajectory F
  pub oam : OamMode
  pub micro : MicroStructure
  pub payload : List ℕ

-- `Transient::new`
unfoldable pub new_transient :
    {F : Type 0}
    → Wavelength
    → PolarizationTrajectory F
    → OamMode
    → MicroStructure
    → List ℕ
    → Transient F
new_transient wavelength polarization oam micro payload = record {
  wavelength = wavelength;
  polarization = polarization;
  oam = oam;
  micro = micro;
  payload = payload;
}

-- `reference_size_bytes`
pub reference_size_bytes : {F : Type 0} → Transient F → ℕ
reference_size_bytes t = length t.payload

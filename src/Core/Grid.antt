-- ===== src/Core/Grid.antt =====
-- crates/otap-core/src/dimensions.rs: the frequencies of the ITU grid.
use otap_signup_validator.Common.{ℕ}
use otap_signup_validator.Core.Dimensions.{Wavelength}

-- The `f64` operations that it uses, as a parameter: `decimal m e` is the number written m × 10^-e.
pub record Float64 (D : Type 0) : Type 0 where
  pub decimal : ℕ → ℕ → D
  pub of_u16 : ℕ → D
  pub add : D → D → D
  pub mul : D → D → D
  pub div : D → D → D

module _ {D : Type 0} ⦃fl : Float64 D⦄ where
  open fl use {decimal, of_u16, add, mul, div}

  -- `Wavelength::SPACING_GHZ` and `Wavelength::ANCHOR_THZ`
  abbrev pub spacing_ghz : D
  spacing_ghz = decimal 250 1

  abbrev pub anchor_thz : D
  anchor_thz = decimal 1931 1

  -- `Wavelength::frequency_thz`
  unfoldable pub frequency_thz : Wavelength → D
  frequency_thz w = add anchor_thz (mul (of_u16 w.channel) (div spacing_ghz (decimal 10000 1)))

  -- `Wavelength::wavelength_nm`
  unfoldable pub wavelength_nm : Wavelength → D
  unfolding frequency_thz
  wavelength_nm w = div (decimal 299792458 3) (frequency_thz w)

-- ===== src/Core/Dimensions.antt =====
-- crates/otap-core/src/dimensions.rs: wavelength (D2), OAM mode (D4), microstructure (D5).
use otap_signup_validator.Common.{
  ℕ, ◌≤◌, ◌≡◌, ◌↔◌, arith, not, ◌&&◌, ◌||◌, Option, none, some, ok, err, ltb, if◌then◌else◌,
}
use otap_signup_validator.Common.Int.{ℤ, pos, negsuc, ltb_ℤ, ◌≤ℤ◌}
use otap_signup_validator.Core.Error.{ProtocolResult, wavelength_out_of_range, unknown_oam_mode}

-- `Wavelength(u16)`
pub record Wavelength : Type 0 where
  pub channel : ℕ

abbrev pub max_channel : ℕ
max_channel = 351

-- `Wavelength::new`
unfoldable pub new_wavelength : ℕ → ProtocolResult Wavelength
new_wavelength channel =
    if ltb max_channel channel
    then err (wavelength_out_of_range channel max_channel)
    else ok (record { channel = channel })

-- `OamMode(i8)`
pub record OamMode : Type 0 where
  pub charge : ℤ

-- `OamMode::MIN` and `OamMode::MAX`
abbrev pub min_charge : ℤ
min_charge = negsuc 15

abbrev pub max_charge : ℤ
max_charge = pos 16

-- `OamMode::new`
unfoldable pub new_oam_mode : ℤ → ProtocolResult OamMode
new_oam_mode charge =
    if ltb_ℤ charge min_charge || ltb_ℤ max_charge charge
    then err (unknown_oam_mode charge)
    else ok (record { charge = charge })

-- `OamMode::RAW`
abbrev pub raw_mode : OamMode
raw_mode = record { charge = pos 0 }

-- `OamMode::new_const`; `none` is the panic
unfoldable pub new_const_mode : ℤ → Option OamMode
new_const_mode charge =
    if not (ltb_ℤ charge min_charge) && not (ltb_ℤ max_charge charge)
    then some (record { charge = charge })
    else none

-- The two constructors let the same charges through.
new_const_mode_lem :
    (charge : ℤ) (m : OamMode) → (new_const_mode charge ≡ some m) ↔ (new_oam_mode charge ≡ ok m)
unfolding new_const_mode new_oam_mode
new_const_mode_lem charge m = ground arith

-- `GuardInterval`
pub data GuardInterval : Type 0 where
  nominal priority end_of_message retransmission keepalive : GuardInterval

-- `MicroStructure`
pub record MicroStructure : Type 0 where
  pub sequence : ℕ
  pub guard : GuardInterval

-- `MicroStructure::new`
unfoldable pub new_micro : ℕ → MicroStructure
new_micro sequence = record { sequence = sequence; guard = nominal }

-- `MicroStructure::with_eom` and `with_priority`
unfoldable pub with_eom : MicroStructure → MicroStructure
with_eom m = record m { guard = end_of_message }

unfoldable pub with_priority : MicroStructure → MicroStructure
with_priority m = record m { guard = priority }

-- What the constructors let through; the fields are private, so every value in the program is such.
abbrev pub IsChannel : Wavelength → Type 0
IsChannel w = w.channel ≤ max_channel

abbrev pub IsCharge : OamMode → Type 0
IsCharge m = (min_charge ≤ℤ m.charge) × (m.charge ≤ℤ max_charge)

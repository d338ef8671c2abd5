-- ===== src/Csr/Channel.antt =====
-- crates/otap-csr/src/lib.rs: the wavelength register.
use otap_signup_validator.Common.{ℕ, ◌%◌, ◌^◌, ◌≤◌, ◌≡◌, refl, arith, bit_and, bit_and_mask, ok}
use otap_signup_validator.Core.Dimensions.{Wavelength, IsChannel, max_channel, new_wavelength}
use otap_signup_validator.Csr.Registers.{RegisterFile, IsRegisterFile, reg_wavelength}
use otap_signup_validator.Csr.Writer.{set_wavelength}
use otap_signup_validator.Csr.View.{wavelength}
use otap_signup_validator.Csr.Access.{
  IsRegister, word_at, put, read_u32_at, write_u32_at, put-IsRegisterFile, word_at-put_self,
}

pub wavelength-IsRegister : IsRegister reg_wavelength
wavelength-IsRegister = record { inside = omega arith; aligned = refl }

low_half : (c : ℕ) → c ≤ max_channel → bit_and c 0xffff % 2 ^ 16 ≡ c
low_half c h = omega (arith, bit_and_mask 16 c)

pub wavelength_held :
    (rf : RegisterFile) (w : Wavelength)
    → IsChannel w
    → word_at rf reg_wavelength ≡ w.channel
    → wavelength rf ≡ ok w
unfolding wavelength new_wavelength
wavelength_held rf w h e =
    ground (arith, read_u32_at rf reg_wavelength wavelength-IsRegister, low_half w.channel h)

-- `set_wavelength` with a channel up to `MAX_CHANNEL` succeeds on any well-formed register file and
-- keeps it well formed, and then the view returns that wavelength.
pub wavelength-set_wavelength :
    (rf : RegisterFile) (w : Wavelength)
    → IsRegisterFile rf
    → IsChannel w
    → (rf' : RegisterFile) × (set_wavelength rf w ≡ ok rf')
      × IsRegisterFile rf'
      × (wavelength rf' ≡ ok w)
unfolding set_wavelength
wavelength-set_wavelength rf w valid h = (
  put rf reg_wavelength w.channel,
  write_u32_at rf reg_wavelength w.channel wavelength-IsRegister,
  put-IsRegisterFile rf reg_wavelength w.channel (omega arith) valid,
  wavelength_held _ w h (word_at-put_self rf reg_wavelength w.channel wavelength-IsRegister valid),
)

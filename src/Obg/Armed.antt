-- ===== src/Obg/Armed.antt =====
-- A register file armed by `arm_register_file` gives the driver that was asked for.
use otap_signup_validator.Common.{
  ℕ, ◌^◌, ◌<◌, ◌≡◌, ◌≢◌, ◌∙◌, sym, true, false, refl, arith, List, IsArray, Bool, ok, inl,
}
use otap_signup_validator.Common.Int.{pos}
use otap_signup_validator.Core.Float.{Float32}
use otap_signup_validator.Core.Dimensions.{Wavelength, IsChannel}
use otap_signup_validator.Crypto.Secret.{new_secret}
use otap_signup_validator.Csr.Registers.{
  RegisterFile, IsRegisterFile, reg_wavelength, reg_ctrl, reg_auth_tolerance, reg_secret_valid,
}
use otap_signup_validator.Csr.Writer.{
  set_wavelength, set_secret, set_ctrl, set_auth_tolerance, milliradians,
}
use otap_signup_validator.Csr.View.{ctrl, auth_tolerance}
use otap_signup_validator.Csr.Access.{
  IsRegister, word_at, put, read_u32_at, write_u32_at, put-IsRegisterFile, word_at-put_self,
  word_at-put_ne, SameBelow,
}
use otap_signup_validator.Csr.Channel.{wavelength-IsRegister, wavelength_held}
use otap_signup_validator.Csr.Secret.{
  HoldsSecret, set_secret-SecretSet, shared_secret_held, secret_flag-IsRegister,
  secret_register-IsRegister,
}
use otap_signup_validator.Csr.PayloadTable.{set_schema_payload_below}
use otap_signup_validator.Csr.OamTable.{set_oam_to_schema_below}
use otap_signup_validator.Schema.EquityOrder.{order_oam_mode, order_payload_bytes}
use otap_signup_validator.Schema.MarketTick.{tick_oam_mode, tick_payload_bytes}
use otap_signup_validator.Schema.Heartbeat.{heartbeat_oam_mode, heartbeat_payload_bytes}
use otap_signup_validator.Obg.Driver.{auth_mode_of, driver_with, from_csr}
use otap_signup_validator.Obg.Arm.{arm_ctrl, register_schemas, arm_register_file}

pub ctrl-IsRegister : IsRegister reg_ctrl
ctrl-IsRegister = record { inside = omega arith; aligned = refl }

pub tolerance-IsRegister : IsRegister reg_auth_tolerance
tolerance-IsRegister = record { inside = omega arith; aligned = refl }

-- The registers that `from_csr` reads.
pub record Configured (rf : RegisterFile) (w : Wavelength) (s : List ℕ) (control_word mrad : ℕ)
    : Type 0 where
  pub valid : IsRegisterFile rf
  pub wavelength : word_at rf reg_wavelength ≡ w.channel
  pub control : word_at rf reg_ctrl ≡ control_word
  pub tolerance : word_at rf reg_auth_tolerance ≡ mrad
  pub secret : HoldsSecret rf s

pub Configured-SameBelow :
    {rf rf' : RegisterFile} {w : Wavelength} {s : List ℕ} {control mrad : ℕ}
    → Configured rf w s control mrad
    → IsRegisterFile rf'
    → SameBelow rf rf'
    → Configured rf' w s control mrad
Configured-SameBelow c valid same = record {
  valid = valid;
  wavelength = same reg_wavelength wavelength-IsRegister (omega arith) ∙ c.wavelength;
  control = same reg_ctrl ctrl-IsRegister (omega arith) ∙ c.control;
  tolerance = same reg_auth_tolerance tolerance-IsRegister (omega arith) ∙ c.tolerance;
  secret = record {
    flag = same reg_secret_valid secret_flag-IsRegister (omega arith) ∙ c.secret.flag;
    words = λ j h. same _ (secret_register-IsRegister j h) (omega arith) ∙ c.secret.words j h;
  };
}

register_schemas_below :
    (rf : RegisterFile)
    → IsRegisterFile rf
    → (rf' : RegisterFile) × (register_schemas rf ≡ ok rf') × IsRegisterFile rf' × SameBelow rf rf'
unfolding register_schemas
register_schemas_below rf valid =
    let (rf₁, e₁, v₁, s₁) =
      set_schema_payload_below rf 1 order_payload_bytes valid (omega arith) (omega arith) in
    let (rf₂, e₂, v₂, s₂) =
      set_schema_payload_below rf₁ 2 tick_payload_bytes v₁ (omega arith) (omega arith) in
    let (rf₃, e₃, v₃, s₃) =
      set_schema_payload_below rf₂ 3 heartbeat_payload_bytes v₂ (omega arith) (omega arith) in
    let (rf₄, e₄, v₄, s₄) =
      set_oam_to_schema_below rf₃ order_oam_mode 1 v₃ (omega arith) (omega arith) in
    let (rf₅, e₅, v₅, s₅) =
      set_oam_to_schema_below rf₄ tick_oam_mode 2 v₄ (omega arith) (omega arith) in
    let (rf₆, e₆, v₆, s₆) =
      set_oam_to_schema_below rf₅ heartbeat_oam_mode 3 v₅ (omega arith) (omega arith) in
    (
      rf₆,
      rw (e₁, e₂, e₃, e₄, e₅, e₆),
      v₆,
      λ p h b. s₆ p h b ∙ s₅ p h b ∙ s₄ p h b ∙ s₃ p h b ∙ s₂ p h b ∙ s₁ p h b,
    )

pub arm_ctrl-lt : (topological_auth : Bool) → arm_ctrl topological_auth < 2 ^ 32
arm_ctrl-lt true = omega arith
arm_ctrl-lt false = omega arith

-- The four writes of `arm_register_file` before it registers the schemas.
pub Configured-writes :
    (rf : RegisterFile) (w : Wavelength) (s : List ℕ) (control_word mrad : ℕ)
    → control_word < 2 ^ 32
    → mrad < 2 ^ 32
    → IsRegisterFile rf
    → IsChannel w
    → IsArray 32 s
    → (rf₂ : RegisterFile) × (set_secret (put rf reg_wavelength w.channel) s ≡ ok rf₂)
      × Configured
          (put (put rf₂ reg_ctrl control_word) reg_auth_tolerance mrad)
          w
          s
          control_word
          mrad
Configured-writes rf w s control_word mrad hc hm valid hw hs =
    let rf₁ = put rf reg_wavelength w.channel in
    let v₁ = put-IsRegisterFile rf reg_wavelength w.channel (omega arith) valid in
    let (rf₂, done) = set_secret-SecretSet rf₁ s v₁ hs in
    let rf₃ = put rf₂ reg_ctrl control_word in
    let v₃ = put-IsRegisterFile rf₂ reg_ctrl control_word hc done.valid in
    let kept : (p : ℕ)
        → IsRegister p
        → p ≢ reg_ctrl
        → p ≢ reg_auth_tolerance
        → word_at (put rf₃ reg_auth_tolerance mrad) p ≡ word_at rf₂ p =
      λ p h n m.
        word_at-put_ne rf₃ reg_auth_tolerance p mrad tolerance-IsRegister h (λ e. m (sym e))
        ∙ word_at-put_ne rf₂ reg_ctrl p control_word ctrl-IsRegister h (λ e. n (sym e)) in
    (
      rf₂,
      done.returns,
      record {
        valid = put-IsRegisterFile rf₃ reg_auth_tolerance mrad hm v₃;
        wavelength =
            kept reg_wavelength wavelength-IsRegister (omega arith) (omega arith)
            ∙ done.others reg_wavelength wavelength-IsRegister (inl (omega arith))
            ∙ word_at-put_self rf reg_wavelength w.channel wavelength-IsRegister valid;
        control =
            word_at-put_ne rf₃ reg_auth_tolerance reg_ctrl mrad tolerance-IsRegister ctrl-IsRegister
              (omega arith)
            ∙ word_at-put_self rf₂ reg_ctrl control_word ctrl-IsRegister done.valid;
        tolerance = word_at-put_self rf₃ reg_auth_tolerance mrad tolerance-IsRegister v₃;
        secret = record {
          flag =
              kept reg_secret_valid secret_flag-IsRegister (omega arith) (omega arith)
              ∙ done.holds.flag;
          words = λ j h.
              kept _ (secret_register-IsRegister j h) (omega arith) (omega arith)
              ∙ done.holds.words j h;
        };
      },
    )

module _ (F : Type 0) ⦃fl : Float32 F⦄ where
  -- The tolerance that the driver reads for a register value.
  abbrev pub tolerance_of : ℕ → F
  tolerance_of mrad = fl.div (fl.of_u32 mrad) (fl.literal (pos 1000) 0)

  pub milliradians-lt :
      ((x : F) → fl.to_u32 x < 2 ^ 32) → (radians : F) → milliradians radians < 2 ^ 32
  unfolding milliradians
  milliradians-lt cast radians = cast _

  pub from_csr-Configured :
      (rf : RegisterFile) (w : Wavelength) (s : List ℕ) (control mrad : ℕ)
      → IsChannel w
      → IsArray 32 s
      → Configured rf w s control mrad
      → from_csr rf ≡ ok (driver_with (new_secret s) w (auth_mode_of control (tolerance_of mrad)))
  unfolding from_csr ctrl auth_tolerance
  from_csr-Configured rf w s control mrad hw hs c = rw (
    wavelength_held rf w hw c.wavelength,
    shared_secret_held rf s hs c.secret,
    read_u32_at rf reg_ctrl ctrl-IsRegister,
    c.control,
    read_u32_at rf reg_auth_tolerance tolerance-IsRegister,
    c.tolerance,
  )

  -- Where the cast to `u32` gives numbers below 2^32, arming a well-formed register file with a
  -- wavelength up to `MAX_CHANNEL` and a key of 32 bytes succeeds and keeps it well formed. The
  -- driver read back from it is bound to that wavelength and that key, in its encoder, which starts
  -- at sequence 0, and in its decoder, with the mode of the control word and the tolerance that
  -- were written.
  pub from_csr-arm_register_file :
      (rf : RegisterFile) (w : Wavelength) (s : List ℕ) (topological_auth : Bool)
      → ((x : F) → fl.to_u32 x < 2 ^ 32)
      → IsRegisterFile rf
      → IsChannel w
      → IsArray 32 s
      → (rf' : RegisterFile) × (arm_register_file F rf w s topological_auth ≡ ok rf')
        × IsRegisterFile rf'
        × (from_csr rf'
            ≡ ok (
                driver_with (new_secret s) w (
                  auth_mode_of
                    (arm_ctrl topological_auth)
                    (tolerance_of (milliradians (fl.literal (pos 1) 2))))))
  unfolding arm_register_file set_wavelength set_ctrl set_auth_tolerance
  from_csr-arm_register_file rf w s topological_auth cast valid hw hs =
      let control_word = arm_ctrl topological_auth in
      let mrad = milliradians (fl.literal (pos 1) 2) in
      let (rf₂, secret_set, c) =
        Configured-writes rf w s control_word mrad (arm_ctrl-lt topological_auth)
          (milliradians-lt cast _) valid hw hs in
      let rf₃ = put rf₂ reg_ctrl control_word in
      let (rf', registered, valid', same) =
        register_schemas_below (put rf₃ reg_auth_tolerance mrad) c.valid in
      (
        rf',
        rw
            (
              write_u32_at rf reg_wavelength w.channel wavelength-IsRegister,
              secret_set,
              write_u32_at rf₂ reg_ctrl control_word ctrl-IsRegister,
              write_u32_at rf₃ reg_auth_tolerance mrad tolerance-IsRegister,
            )
            registered,
        valid',
        from_csr-Configured rf' w s control_word mrad hw hs (Configured-SameBelow c valid' same),
      )

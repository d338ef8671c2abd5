-- ===== src/Flr/Refresh.antt =====
-- What the registry can do to the driver through `program_register_file` and `refresh_loop` of
-- crates/otap-flr-client/src/lib.rs.
use otap_signup_validator.Common.{
  All, subst, ap, ℕ, ◌+◌, ◌%◌, ◌^◌, ◌<◌, ◌≡◌, ◌∙◌, refl, arith, List, [], ◌∷◌, IsArray, Option,
  none, some, Bool, true, false, ok, if◌then◌else◌,
}
use otap_signup_validator.Common.Int.{pos, to_bits}
use otap_signup_validator.Core.Float.{Float32}
use otap_signup_validator.Core.Dimensions.{Wavelength, IsChannel}
use otap_signup_validator.Crypto.Secret.{new_secret}
use otap_signup_validator.Csr.Registers.{
  RegisterFile, IsRegisterFile, reg_wavelength, reg_ctrl, reg_auth_tolerance,
}
use otap_signup_validator.Csr.Writer.{set_wavelength, set_ctrl, set_auth_tolerance, milliradians}
use otap_signup_validator.Csr.Access.{put, write_u32_at, SameBelow}
use otap_signup_validator.Csr.Channel.{wavelength-IsRegister}
use otap_signup_validator.Csr.PayloadTable.{set_schema_payload_below}
use otap_signup_validator.Csr.OamTable.{set_oam_to_schema_below}
use otap_signup_validator.Schema.Registry.{SchemaId}
use otap_signup_validator.Obg.Driver.{auth_mode_of, driver_with, from_csr}
use otap_signup_validator.Obg.Arm.{arm_ctrl}
use otap_signup_validator.Obg.Armed.{
  Configured, Configured-SameBelow, Configured-writes, arm_ctrl-lt, milliradians-lt,
  from_csr-Configured, tolerance_of, ctrl-IsRegister, tolerance-IsRegister,
}
use otap_signup_validator.Flr.{
  FlrClientConfig, ApplicationSchema, Rest, Programmed, map_oam_to_schema_id,
  csr_handle_for_schema_id, oam_mode_of, program_schema, program_schemas, with_write, for_known,
  list_active_schemas, program_register_file,
}
use otap_signup_validator.Flr.Handles.{in_tables}
use otap_signup_validator.Flr.Tables.{SizeAgrees, count_known, program_schemas_lem}
use otap_signup_validator.Schema.Registry.{order_id}

-- A well-formed register file that differs from another one in the schema tables at most.
record Kept (before after : RegisterFile) : Type 0 where
  valid : IsRegisterFile after
  same : SameBelow before after

if_holds : {A : Type 0} (P : A → Type 0) (b : Bool) {x y : A} → P x → P y → P (if b then x else y)
if_holds P true h k = h
if_holds P false h k = k

for_known_holds :
    {A : Type 0} (P : A → Type 0) (id : Option SchemaId) {x : A} {f : SchemaId → A}
    → P x
    → ((t : SchemaId) → P (f t))
    → P (for_known id x f)
for_known_holds P none h k = h
for_known_holds P (some t) h k = k t

module _ (Fault : Type 0) where
  program_schema-Kept :
      (t : SchemaId) (schema : ApplicationSchema) (rf : RegisterFile)
      (next : RegisterFile → Programmed Fault)
      → IsRegisterFile rf
      → ((rf₁ : RegisterFile) → IsRegisterFile rf₁ → Kept rf₁ (next rf₁).0)
      → Kept rf (program_schema t schema rf next).0
  unfolding program_schema with_write
  program_schema-Kept t schema rf next valid rest =
      let k = in_tables t in
      let (rf₁, e₁, v₁, s₁) =
        set_schema_payload_below rf (csr_handle_for_schema_id t)
          (to_bits 64 schema.schema_bytes % 2 ^ 16) valid k.id (omega arith) in
      let (rf₂, e₂, v₂, s₂) =
        set_oam_to_schema_below rf₁ (oam_mode_of t) (csr_handle_for_schema_id t) v₁ k.charge
          k.byte in
      let last = rest rf₂ v₂ in
      rw (e₁, e₂)
        (if_holds (λ (r : Programmed Fault). Kept rf r.0) _
          (record { valid = valid; same = λ p h b. refl })
          (record { valid = last.valid; same = λ p h b. last.same p h b ∙ s₂ p h b ∙ s₁ p h b }))

  program_schemas-Kept :
      (mapped : ℕ) (schemas : List ApplicationSchema) (rf : RegisterFile)
      → IsRegisterFile rf
      → Kept rf (program_schemas {Fault = Fault} mapped schemas rf).0
  unfolding program_schemas
  program_schemas-Kept mapped [] rf valid = record { valid = valid; same = λ p h b. refl }
  program_schemas-Kept mapped (schema ∷ schemas) rf valid =
      for_known_holds (λ (r : Programmed Fault). Kept rf r.0) (map_oam_to_schema_id schema.oam_mode)
        (program_schemas-Kept mapped schemas rf valid)
        (λ t.
          program_schema-Kept t schema rf (program_schemas (mapped + 1) schemas) valid
            (program_schemas-Kept (mapped + 1) schemas))

-- The registers of the driver are set as `program_register_file` asks.
abbrev IsProgrammed :
    (F : Type 0) ⦃fl : Float32 F⦄ → Wavelength → List ℕ → Bool → RegisterFile → Type 0
IsProgrammed F ⦃fl⦄ w s topological_auth rf =
    Configured rf w s (arm_ctrl topological_auth) (milliradians {F = F} (fl.literal (pos 1) 2))

module _ (F : Type 0) ⦃fl : Float32 F⦄ {Fault : Type 0} (cfg : FlrClientConfig) (w : Wavelength)
    (s : List ℕ) (topological_auth : Bool) (cast : (x : F) → fl.to_u32 x < 2 ^ 32)
    (hw : IsChannel w) (hs : IsArray 32 s) where
  -- A registry whose known schemas have the sizes that this code expects.
  pub program_register_file_lem :
      (rest : Rest Fault) (rf : RegisterFile) (schemas : List ApplicationSchema)
      → IsRegisterFile rf
      → list_active_schemas rest cfg ≡ ok schemas
      → All SizeAgrees schemas
      → (rf' : RegisterFile) × (program_register_file F rest cfg rf w s topological_auth
          ≡ (rf', ok (count_known schemas)))
        × (from_csr rf'
            ≡ ok (
                driver_with (new_secret s) w (
                  auth_mode_of
                    (arm_ctrl topological_auth)
                    (tolerance_of F (milliradians (fl.literal (pos 1) 2))))))
  unfolding program_register_file with_write set_wavelength set_ctrl set_auth_tolerance
  program_register_file_lem rest rf schemas valid listed sizes =
      let control_word = arm_ctrl topological_auth in
      let mrad = milliradians {F = F} (fl.literal (pos 1) 2) in
      let (rf₂, secret_set, c) =
        Configured-writes rf w s control_word mrad (arm_ctrl-lt topological_auth)
          (milliradians-lt F cast _) valid hw hs in
      let rf₃ = put rf₂ reg_ctrl control_word in
      let rf₄ = put rf₃ reg_auth_tolerance mrad in
      let (rf', looped, valid', entries) =
        program_schemas_lem {Fault = Fault} order_id 0 schemas rf₄ c.valid sizes in
      let k = program_schemas-Kept Fault 0 schemas rf₄ c.valid in
      let same : (program_schemas {Fault = Fault} 0 schemas rf₄).0 ≡ rf' =
        ap (λ (r : Programmed Fault). r.0) looped in
      let kept : SameBelow rf₄ rf' = subst (SameBelow rf₄) same k.same in
      let count : 0 + count_known schemas ≡ count_known schemas = omega arith in
      (
        rf',
        rw
            (
              write_u32_at rf reg_wavelength w.channel wavelength-IsRegister,
              secret_set,
              write_u32_at rf₂ reg_ctrl control_word ctrl-IsRegister,
              write_u32_at rf₃ reg_auth_tolerance mrad tolerance-IsRegister,
              listed,
              looped,
              count,
            )
            refl,
        from_csr-Configured F _ w s _ _ hw hs (Configured-SameBelow c valid' kept),
      )

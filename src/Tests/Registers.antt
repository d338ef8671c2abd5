-- ===== src/Tests/Registers.antt =====
-- The register file and the checked constructors on concrete values.
use otap_signup_validator.Common.{
  ℕ, ◌+◌, ◌-◌, ◌*◌, ◌%◌, ◌≡◌, ◌⊎◌, refl, arith, ok, some, not, leb, if◌then◌else◌, ◌==◌,
}
use otap_signup_validator.Common.Int.{pos, negsuc, pos_part}
use otap_signup_validator.Core.Dimensions.{OamMode}
use otap_signup_validator.Core.Stokes.{StokesVector, two_pi, wrap_down, wrap_up, angle_step}
use otap_signup_validator.Core.Float.{Float32}
use otap_signup_validator.Core.Angle.{Arithmetic, InRange, angle_step-InRange}
use otap_signup_validator.Crypto.Secret.{new_secret}
use otap_signup_validator.Csr.Registers.{RegisterFile, IsRegisterFile, new_register_file, read_u32}
use otap_signup_validator.Csr.Writer.{
  set_secret, set_schema_payload, put_half, schema_word_offset, set_oam_to_schema, oam_word_offset,
  put_lane,
}
use otap_signup_validator.Csr.View.{shared_secret, schema_payload_bytes, schema_id_for_oam}
use otap_signup_validator.Csr.Access.{word_at}
use otap_signup_validator.Csr.Secret.{shared_secret-set_secret}
use otap_signup_validator.Csr.PayloadTable.{set_schema_payload_lem}
use otap_signup_validator.Csr.OamTable.{slot, set_oam_to_schema_lem}
use otap_signup_validator.Tests.Values.{
  whole_numbers, key, key-IsArray, new_register_file-IsRegisterFile,
}

shared_secret-set_secret_example :
    (rf' : RegisterFile) × (set_secret new_register_file key ≡ ok rf')
    × IsRegisterFile rf'
    × (shared_secret rf' ≡ ok (some (new_secret key)))
shared_secret-set_secret_example =
    shared_secret-set_secret new_register_file key new_register_file-IsRegisterFile key-IsArray

abbrev plus_one : OamMode
plus_one = record { charge = pos 1 }

abbrev minus_one : OamMode
minus_one = record { charge = negsuc 0 }

set_oam_to_schema_lem_example :
    (rf' : RegisterFile) × (set_oam_to_schema new_register_file plus_one 9 ≡ ok rf')
    × IsRegisterFile rf'
    × (schema_id_for_oam rf' minus_one ≡ schema_id_for_oam new_register_file minus_one)
    × (read_u32 rf' 0x110 ≡ (
        if oam_word_offset (slot plus_one) == 0x110
        then ok (
            put_lane
              (slot plus_one % 4)
              (word_at new_register_file (oam_word_offset (slot plus_one)))
              9)
        else read_u32 new_register_file 0x110))
set_oam_to_schema_lem_example =
    set_oam_to_schema_lem new_register_file plus_one minus_one 9 0x110
      new_register_file-IsRegisterFile (ground arith, ground arith) (ground arith, ground arith)
      (omega arith)

set_schema_payload_lem_example :
    (rf' : RegisterFile) × (set_schema_payload new_register_file 2 64 ≡ ok rf')
    × IsRegisterFile rf'
    × (schema_payload_bytes rf' 3 ≡ schema_payload_bytes new_register_file 3)
    × (read_u32 rf' 0x44 ≡ (
        if schema_word_offset 2 == 0x44
        then ok (put_half 2 (word_at new_register_file (schema_word_offset 2)) 64)
        else read_u32 new_register_file 0x44))
set_schema_payload_lem_example =
    set_schema_payload_lem new_register_file 2 64 3 0x44 new_register_file-IsRegisterFile
      (omega arith, omega arith) (omega arith)

-- Numbers from -100, each written 100 above itself, with 3 for π.
abbrev biased : Float32 ℕ
biased = record whole_numbers {
  literal = λ m e. 100 + pos_part m;
  neg = λ x. 200 - x;
  pi = 103;
  mul = λ x y. (x - 100) * (y - 100) + 100;
  sub = λ x y. x + 100 - y;
  add = λ x y. x + y - 100;
  le = leb;
  gt = λ x y. not (leb x y);
  atan2 = λ y x. 97 + y % 7;
}

biased-Arithmetic : Arithmetic ℕ ⦃fl = biased⦄
unfolding two_pi
biased-Arithmetic = record {
  zero_angle = 100;
  le-trans = λ x y z h g. ground arith;
  le-numbers = λ x y h. ground arith;
  le-gt = λ x y h. ground arith;
  gt-le = λ x y h. ground arith;
  linear = λ x y hx hy h. ground arith;
  zero_above = refl;
  zero_below = refl;
  turn_range = (refl, refl);
  back_range = (refl, refl);
  half_range = (refl, refl);
  turn-turn = refl;
  back-turn = refl;
  pi-turn = refl;
  half-turn = refl;
  difference = λ x y hx hy. ground arith;
  sub-mono = λ x y hx hy h. ground arith;
  sub-strict = λ x hx h. ground arith;
  add-mono = λ x y hx hy h. ground arith;
}

abbrev sample : ℕ → StokesVector ℕ
sample s2 = record { s1 = 100; s2 = s2; s3 = 100 }

-- The angles are -π and π: the first loop is entered.
angle_step-InRange_example :
    (wrap_up ⦃fl = biased⦄ 6 (wrap_down ⦃fl = biased⦄ 5 106)
      ≡ angle_step ⦃fl = biased⦄ (sample 0) (sample 6))
    × InRange ⦃fl = biased⦄ (angle_step ⦃fl = biased⦄ (sample 0) (sample 6))
    × ((angle_step ⦃fl = biased⦄ (sample 0) (sample 6) ≡ 106)
        ⊎ (angle_step ⦃fl = biased⦄ (sample 0) (sample 6) ≡ biased.sub 106 (two_pi ⦃fl = biased⦄))
        ⊎ (angle_step ⦃fl = biased⦄ (sample 0) (sample 6) ≡ biased.add 106 (two_pi ⦃fl = biased⦄)))
angle_step-InRange_example =
    angle_step-InRange ⦃fl = biased⦄ (sample 0) (sample 6) 4 5 biased-Arithmetic (refl, refl)
      (refl, refl)

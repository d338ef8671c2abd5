-- ===== src/Csr/OamTable.antt =====
-- crates/otap-csr/src/lib.rs: the OAM mode → schema id table, four entries to a word.
use otap_signup_validator.Common.{ℕ, ◌%◌, ◌^◌, ◌<◌, ◌≡◌, arith, ok, ◌==◌, if◌then◌else◌}
use otap_signup_validator.Common.Int.{pos, pos_part, eq_ℤ}
use otap_signup_validator.Core.Dimensions.{OamMode, IsCharge}
use otap_signup_validator.Csr.Registers.{RegisterFile, IsRegisterFile, read_u32}
use otap_signup_validator.Csr.Writer.{set_oam_to_schema, put_lane, oam_word_offset, oam_index}
use otap_signup_validator.Csr.View.{schema_id_for_oam}
use otap_signup_validator.Csr.Access.{
  IsRegister, word_at, put, read_u32_at, write_u32_at, put-IsRegisterFile, word_at-lt,
  word_at-put_self, word_at-put_ne, read_u32-write_u32, SameBelow,
}
use otap_signup_validator.Csr.Lanes.{put_lane-lt, get_lane-put_lane}

-- The entry of a mode.
abbrev pub slot : OamMode → ℕ
slot m = pos_part (oam_index m)

-- The modes have 33 entries, one each.
oam_index_pos : (m : OamMode) → IsCharge m → (oam_index m ≡ pos (slot m)) × (slot m < 33)
unfolding oam_index
oam_index_pos m h = ground arith

slot_eq : (m o : OamMode) → IsCharge m → IsCharge o → (slot m == slot o) ≡ eq_ℤ m.charge o.charge
unfolding oam_index
slot_eq m o h k = ground arith

slot-IsRegister : (m : OamMode) → IsCharge m → IsRegister (oam_word_offset (slot m))
slot-IsRegister m h = record {
  inside = omega (arith, oam_index_pos m h);
  aligned = omega (arith, oam_index_pos m h);
}

module _ (rf : RegisterFile) (valid : IsRegisterFile rf) (m : OamMode) (id : ℕ)
    (charge : IsCharge m) (fits : id < 2 ^ 8) where
  entry_word : ℕ
  entry_word = let off = oam_word_offset (slot m) in put_lane (slot m % 4) (word_at rf off) id

  written : RegisterFile
  unfolding entry_word
  written = put rf (oam_word_offset (slot m)) entry_word

  set_oam_to_schema-written : set_oam_to_schema rf m id ≡ ok written
  unfolding set_oam_to_schema written
  set_oam_to_schema-written = ground (
    arith,
    oam_index_pos m charge,
    read_u32_at rf (oam_word_offset (slot m)) (slot-IsRegister m charge),
    write_u32_at rf (oam_word_offset (slot m)) entry_word (slot-IsRegister m charge),
  )

  entry_word-lt : entry_word < 2 ^ 32
  unfolding entry_word
  entry_word-lt =
      put_lane-lt (slot m % 4) _ id (omega arith) (word_at-lt rf (oam_word_offset (slot m)) valid)
        fits

  schema_id_written :
      (o : OamMode)
      → IsCharge o
      → schema_id_for_oam written o
        ≡ (if eq_ℤ m.charge o.charge then ok id else schema_id_for_oam rf o)
  unfolding written schema_id_for_oam
  schema_id_written o h = rw (← slot_eq m o charge h) (
      ground (
        arith,
        oam_index_pos o h,
        oam_index_pos m charge,
        read_u32_at written (oam_word_offset (slot o)) (slot-IsRegister o h),
        read_u32_at rf (oam_word_offset (slot o)) (slot-IsRegister o h),
        word_at-lt rf (oam_word_offset (slot m)) valid,
        word_at-put_self rf (oam_word_offset (slot m)) entry_word (slot-IsRegister m charge) valid,
        word_at-put_ne rf (oam_word_offset (slot m)) (oam_word_offset (slot o)) entry_word,
        get_lane-put_lane (slot m % 4) (slot o % 4) (word_at rf (oam_word_offset (slot m))) id,
      ))

-- On a well-formed register file, for a charge from -16 to 16 and an 8-bit schema id,
-- `set_oam_to_schema` succeeds and keeps the register file well formed. Afterwards the view gives
-- the id for that charge and what it gave before for every other charge in the range, and only the
-- table word of the charge has changed among all offsets.
pub set_oam_to_schema_lem :
    (rf : RegisterFile) (m o : OamMode) (id p : ℕ)
    → IsRegisterFile rf
    → IsCharge m
    → IsCharge o
    → id < 2 ^ 8
    → (rf' : RegisterFile) × (set_oam_to_schema rf m id ≡ ok rf')
      × IsRegisterFile rf'
      × (schema_id_for_oam rf' o
          ≡ (if eq_ℤ m.charge o.charge then ok id else schema_id_for_oam rf o))
      × (read_u32 rf' p ≡ (
          if oam_word_offset (slot m) == p
          then ok (put_lane (slot m % 4) (word_at rf (oam_word_offset (slot m))) id)
          else read_u32 rf p))
unfolding written entry_word
set_oam_to_schema_lem rf m o id p valid hm ho fits =
    let off = oam_word_offset (slot m) in
    let value = put_lane (slot m % 4) (word_at rf off) id in
    (
      written rf valid m id hm fits,
      set_oam_to_schema-written rf valid m id hm fits,
      put-IsRegisterFile rf off value (entry_word-lt rf valid m id hm fits) valid,
      schema_id_written rf valid m id hm fits o ho,
      read_u32-write_u32 rf off p value valid (write_u32_at rf off value (slot-IsRegister m hm)),
    )

pub set_oam_to_schema_below :
    (rf : RegisterFile) (m : OamMode) (id : ℕ)
    → IsRegisterFile rf
    → IsCharge m
    → id < 2 ^ 8
    → (rf' : RegisterFile) × (set_oam_to_schema rf m id ≡ ok rf')
      × IsRegisterFile rf'
      × SameBelow rf rf'
unfolding written entry_word
set_oam_to_schema_below rf m id valid hm fits =
    let off = oam_word_offset (slot m) in
    let value = put_lane (slot m % 4) (word_at rf off) id in
    (
      written rf valid m id hm fits,
      set_oam_to_schema-written rf valid m id hm fits,
      put-IsRegisterFile rf off value (entry_word-lt rf valid m id hm fits) valid,
      λ p h below. word_at-put_ne rf off p value (slot-IsRegister m hm) h (omega arith),
    )

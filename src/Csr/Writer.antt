-- ===== src/Csr/Writer.antt =====
-- crates/otap-csr/src/lib.rs: module `writer`.
use otap_signup_validator.Common.{
  ℕ, zero, suc, ◌+◌, ◌*◌, ◌/◌, ◌%◌, List, [], ◌∷◌, get_or, bit_and, bit_or, bit_not, shl, not, ◌||◌,
  ◌&&◌, Bool, ok, err, ◌>>=◌, leb, ◌==◌, if◌then◌else◌, from_be_bytes,
}
use otap_signup_validator.Common.Int.{ℤ, pos, pos_part, ltb_ℤ, ◌+ℤ◌}
use otap_signup_validator.Core.Dimensions.{Wavelength, OamMode}
use otap_signup_validator.Core.Float.{Float32}
use otap_signup_validator.Csr.Registers.{
  RegisterFile, CsrResult, read_u32, write_u32, reg_wavelength, reg_ctrl, reg_auth_tolerance,
  reg_secret_base, secret_words, reg_secret_valid, reg_schema_payload_base, schema_table_entries,
  reg_oam_table_base, schema_id_out_of_range, oam_out_of_range,
}

-- `writer::set_wavelength`
unfoldable pub set_wavelength : RegisterFile → Wavelength → CsrResult RegisterFile
set_wavelength rf w = write_u32 rf reg_wavelength w.channel

-- `writer::set_ctrl`
unfoldable pub set_ctrl : RegisterFile → ℕ → CsrResult RegisterFile
set_ctrl rf value = write_u32 rf reg_ctrl value

-- `(radians * 1000.0).round().max(0.0) as u32`
unfoldable pub milliradians : {F : Type 0} ⦃fl : Float32 F⦄ → F → ℕ
milliradians ⦃fl⦄ radians =
    fl.to_u32
      (fl.maximum (fl.round (fl.mul radians (fl.literal (pos 1000) 0))) (fl.literal (pos 0) 0))

-- `writer::set_auth_tolerance`
unfoldable pub set_auth_tolerance :
    {F : Type 0} ⦃fl : Float32 F⦄ → RegisterFile → F → CsrResult RegisterFile
set_auth_tolerance rf radians = write_u32 rf reg_auth_tolerance (milliradians radians)

-- Word `i` of the secret, from its four bytes.
unfoldable pub secret_word : List ℕ → ℕ → ℕ
secret_word secret i = from_be_bytes (
    get_or secret (i * 4) 0
    ∷ get_or secret (i * 4 + 1) 0
    ∷ get_or secret (i * 4 + 2) 0
    ∷ get_or secret (i * 4 + 3) 0
    ∷ [])

-- The loop of `set_secret` from word `i`, with `left` words to go.
unfoldable pub write_secret_words : ℕ → ℕ → List ℕ → RegisterFile → CsrResult RegisterFile
write_secret_words zero i secret rf = ok rf
write_secret_words (suc left) i secret rf =
    write_u32 rf (reg_secret_base + i * 4) (secret_word secret i)
    >>= write_secret_words left (i + 1) secret

-- `writer::set_secret`
unfoldable pub set_secret : RegisterFile → List ℕ → CsrResult RegisterFile
set_secret rf secret = do
  written ← write_secret_words secret_words 0 secret rf
  write_u32 written reg_secret_valid 1

-- The guard on a schema id that the writer and the view share.
abbrev pub bad_schema_id : ℕ → Bool
bad_schema_id schema_id = schema_id == 0 || leb schema_table_entries schema_id

abbrev pub schema_word_offset : ℕ → ℕ
schema_word_offset entry = reg_schema_payload_base + entry / 2 * 4

-- The word of `set_schema_payload` with the entry's half replaced.
unfoldable pub put_half : ℕ → ℕ → ℕ → ℕ
put_half entry word payload_bytes =
    if entry % 2 == 0
    then bit_or (bit_and word 0xffff_0000) payload_bytes
    else bit_or (bit_and word 0x0000_ffff) (shl 32 payload_bytes 16)

-- `writer::set_schema_payload`
unfoldable pub set_schema_payload : RegisterFile → ℕ → ℕ → CsrResult RegisterFile
set_schema_payload rf schema_id payload_bytes =
    if bad_schema_id schema_id
    then err (schema_id_out_of_range schema_id schema_table_entries)
    else do
      word ← read_u32 rf (schema_word_offset schema_id)
      write_u32 rf (schema_word_offset schema_id) (put_half schema_id word payload_bytes)

-- `(oam.charge() as i32) + 16`
unfoldable pub oam_index : OamMode → ℤ
unfolding ◌+ℤ◌
oam_index oam = oam.charge +ℤ pos 16

-- `!(0..=32).contains(&idx)`
abbrev pub bad_oam_index : ℤ → Bool
bad_oam_index idx = not (not (ltb_ℤ idx (pos 0)) && not (ltb_ℤ (pos 32) idx))

abbrev pub oam_word_offset : ℕ → ℕ
oam_word_offset idx = reg_oam_table_base + idx / 4 * 4

-- The word of `set_oam_to_schema` with byte `lane` replaced.
unfoldable pub put_lane : ℕ → ℕ → ℕ → ℕ
put_lane lane word schema_id =
    let shift = lane * 8 in
    bit_or (bit_and word (bit_not 32 (shl 32 0xff shift))) (shl 32 schema_id shift)

-- `writer::set_oam_to_schema`
unfoldable pub set_oam_to_schema : RegisterFile → OamMode → ℕ → CsrResult RegisterFile
set_oam_to_schema rf oam schema_id =
    if bad_oam_index (oam_index oam)
    then err (oam_out_of_range oam.charge)
    else let idx = pos_part (oam_index oam) in
      read_u32 rf (oam_word_offset idx) >>= λ word.
      write_u32 rf (oam_word_offset idx) (put_lane (idx % 4) word schema_id)

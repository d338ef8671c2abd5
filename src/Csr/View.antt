-- ===== src/Csr/View.antt =====
-- crates/otap-csr/src/lib.rs: module `view`. A view is the register file that it borrows.
use otap_signup_validator.Common.{
  ℕ, zero, suc, ◌+◌, ◌*◌, ◌%◌, ◌^◌, List, replicate, bit_and, shr, not, Bool, Option, none, some,
  ok, err, ◌>>=◌, map_err, ◌==◌, if◌then◌else◌, to_be_bytes, copy_from_slice,
}
use otap_signup_validator.Common.Int.{pos, pos_part}
use otap_signup_validator.Core.Dimensions.{Wavelength, OamMode, new_wavelength}
use otap_signup_validator.Core.Float.{Float32}
use otap_signup_validator.Crypto.Secret.{SharedSecret, new_secret}
use otap_signup_validator.Csr.Registers.{
  RegisterFile, CsrResult, read_u32, reg_wavelength, reg_ctrl, reg_auth_tolerance, reg_secret_base,
  secret_words, reg_secret_valid, schema_table_entries, schema_id_out_of_range, oam_out_of_range,
  protocol,
}
use otap_signup_validator.Csr.Writer.{
  bad_schema_id, schema_word_offset, oam_index, bad_oam_index, oam_word_offset,
}

-- `CsrView::wavelength`
unfoldable pub wavelength : RegisterFile → CsrResult Wavelength
wavelength rf = do
  v ← read_u32 rf reg_wavelength
  map_err protocol (new_wavelength (bit_and v 0xffff % 2 ^ 16))

-- `CsrView::ctrl`
unfoldable pub ctrl : RegisterFile → CsrResult ℕ
ctrl rf = read_u32 rf reg_ctrl

-- `CsrView::auth_tolerance`
unfoldable pub auth_tolerance : {F : Type 0} ⦃fl : Float32 F⦄ → RegisterFile → CsrResult F
auth_tolerance ⦃fl⦄ rf = do
  v ← read_u32 rf reg_auth_tolerance
  ok (fl.div (fl.of_u32 v) (fl.literal (pos 1000) 0))

-- `CsrView::secret_valid`
unfoldable pub secret_valid : RegisterFile → CsrResult Bool
secret_valid rf = do v ← read_u32 rf reg_secret_valid; ok (not (bit_and v 1 == 0))

-- The loop of `shared_secret` from word `i`, with `left` words to go.
unfoldable pub read_secret_words : ℕ → ℕ → RegisterFile → List ℕ → CsrResult (List ℕ)
read_secret_words zero i rf bytes = ok bytes
read_secret_words (suc left) i rf bytes = read_u32 rf (reg_secret_base + i * 4) >>= λ w.
    read_secret_words left (i + 1) rf (copy_from_slice (i * 4) (to_be_bytes 4 w) bytes)

-- `CsrView::shared_secret`
unfoldable pub shared_secret : RegisterFile → CsrResult (Option SharedSecret)
shared_secret rf = do
  valid ← secret_valid rf
  if not valid
      then ok none
      else (read_secret_words secret_words 0 rf (replicate 32 0) >>= λ bytes.
          ok (some (new_secret bytes)))

-- The entry's half of a word.
unfoldable pub get_half : ℕ → ℕ → ℕ
get_half entry word = if entry % 2 == 0 then bit_and word 0xffff else bit_and (shr word 16) 0xffff

-- `CsrView::schema_payload_bytes`
unfoldable pub schema_payload_bytes : RegisterFile → ℕ → CsrResult ℕ
schema_payload_bytes rf schema_id =
    if bad_schema_id schema_id
    then err (schema_id_out_of_range schema_id schema_table_entries)
    else (read_u32 rf (schema_word_offset schema_id) >>= λ word.
        ok (get_half schema_id word % 2 ^ 16))

-- Byte `lane` of a word.
unfoldable pub get_lane : ℕ → ℕ → ℕ
get_lane lane word = bit_and (shr word (lane * 8)) 0xff % 2 ^ 8

-- `CsrView::schema_id_for_oam`
unfoldable pub schema_id_for_oam : RegisterFile → OamMode → CsrResult ℕ
schema_id_for_oam rf oam =
    if bad_oam_index (oam_index oam)
    then err (oam_out_of_range oam.charge)
    else let idx = pos_part (oam_index oam) in
      read_u32 rf (oam_word_offset idx) >>= λ word. ok (get_lane (idx % 4) word)

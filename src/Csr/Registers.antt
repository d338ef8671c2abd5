-- ===== src/Csr/Registers.antt =====
-- crates/otap-csr/src/lib.rs: register map, errors and `RegisterFile`.
use otap_signup_validator.Common.{
  ℕ, ◌/◌, ◌^◌, ◌<◌, ◌≡◌, List, All, length, get_or, set, replicate, bit_and, not, Result, ok, err,
  leb, ◌==◌, if◌then◌else◌,
}
use otap_signup_validator.Common.Int.{ℤ}
use otap_signup_validator.Core.Error.{ProtocolError}

abbrev pub reg_wavelength : ℕ
reg_wavelength = 0x000

abbrev pub reg_ctrl : ℕ
reg_ctrl = 0x004

abbrev pub reg_auth_tolerance : ℕ
reg_auth_tolerance = 0x008

abbrev pub reg_status : ℕ
reg_status = 0x00c

abbrev pub reg_secret_base : ℕ
reg_secret_base = 0x010

abbrev pub secret_words : ℕ
secret_words = 8

abbrev pub reg_secret_valid : ℕ
reg_secret_valid = 0x030

abbrev pub reg_schema_payload_base : ℕ
reg_schema_payload_base = 0x040

abbrev pub schema_table_entries : ℕ
schema_table_entries = 32

abbrev pub reg_oam_table_base : ℕ
reg_oam_table_base = 0x100

abbrev pub oam_table_entries : ℕ
oam_table_entries = 33

abbrev pub reg_peer_wavelength_base : ℕ
reg_peer_wavelength_base = 0x200

abbrev pub peer_table_entries : ℕ
peer_table_entries = 16

abbrev pub csr_space_bytes : ℕ
csr_space_bytes = 0x400

abbrev pub csr_space_words : ℕ
csr_space_words = csr_space_bytes / 4

abbrev pub map_version : ℕ
map_version = 1

-- Bits of REG_STATUS, which no operation of the crate sets.
abbrev pub status_armed : ℕ
status_armed = 1

abbrev pub status_peer_ready : ℕ
status_peer_ready = 2

abbrev pub status_error : ℕ
status_error = 2 ^ 31

-- Bits of REG_CTRL.
abbrev pub ctrl_enable_tx : ℕ
ctrl_enable_tx = 1

abbrev pub ctrl_enable_rx : ℕ
ctrl_enable_rx = 2

abbrev pub ctrl_auth_topological : ℕ
ctrl_auth_topological = 4

-- `CsrError`
pub data CsrError : Type 0 where
  out_of_range : ℕ → ℕ → CsrError
  misaligned : ℕ → CsrError
  schema_id_out_of_range : ℕ → ℕ → CsrError
  oam_out_of_range : ℤ → CsrError
  protocol : ProtocolError → CsrError

-- `CsrResult<T>`
abbrev pub CsrResult : Type 0 → Type 0
CsrResult A = Result A CsrError

-- `RegisterFile`
pub record RegisterFile : Type 0 where
  pub words : List ℕ

-- `RegisterFile::new`
unfoldable pub new_register_file : RegisterFile
new_register_file = record { words = replicate csr_space_words 0 }

-- `RegisterFile::snapshot`
unfoldable pub snapshot : RegisterFile → List ℕ
snapshot rf = rf.words

-- `RegisterFile::read_u32`; the index is in range once the guards have passed.
unfoldable pub read_u32 : RegisterFile → ℕ → CsrResult ℕ
read_u32 rf offset =
    if leb csr_space_bytes offset
    then err (out_of_range offset csr_space_bytes)
    else if not (bit_and offset 0x3 == 0)
    then err (misaligned offset)
    else ok (get_or rf.words (offset / 4) 0)

-- `RegisterFile::write_u32`
unfoldable pub write_u32 : RegisterFile → ℕ → ℕ → CsrResult RegisterFile
write_u32 rf offset value =
    if leb csr_space_bytes offset
    then err (out_of_range offset csr_space_bytes)
    else if not (bit_and offset 0x3 == 0)
    then err (misaligned offset)
    else ok (record { words = set rf.words (offset / 4) value })

-- `[u32; CSR_SPACE_WORDS]`
pub record IsRegisterFile (rf : RegisterFile) : Type 0 where
  pub size : length rf.words ≡ csr_space_words
  pub words : All (λ w. w < 2 ^ 32) rf.words

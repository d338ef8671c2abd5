-- ===== src/Csr/PayloadTable.antt =====
-- crates/otap-csr/src/lib.rs: the schema id → payload bytes table, two entries to a word.
use otap_signup_validator.Common.{ℕ, ◌^◌, ◌<◌, ◌≡◌, arith, ok, ◌==◌, if◌then◌else◌}
use otap_signup_validator.Csr.Registers.{
  RegisterFile, IsRegisterFile, read_u32, schema_table_entries,
}
use otap_signup_validator.Csr.Writer.{set_schema_payload, put_half, schema_word_offset}
use otap_signup_validator.Csr.View.{schema_payload_bytes}
use otap_signup_validator.Csr.Access.{
  IsRegister, word_at, put, read_u32_at, write_u32_at, put-IsRegisterFile, word_at-lt,
  word_at-put_self, word_at-put_ne, read_u32-write_u32, SameBelow,
}
use otap_signup_validator.Csr.Lanes.{put_half-lt, get_half-put_half}

-- The ids that the table has an entry for.
abbrev pub IsSchemaId : ℕ → Type 0
IsSchemaId id = (0 < id) × (id < schema_table_entries)

schema_word_offset-IsRegister : (d : ℕ) → IsSchemaId d → IsRegister (schema_word_offset d)
schema_word_offset-IsRegister d h = record { inside = omega arith; aligned = omega arith }

module _ (rf : RegisterFile) (valid : IsRegisterFile rf) (id n : ℕ) (in_table : IsSchemaId id)
    (fits : n < 2 ^ 16) where
  written : RegisterFile
  written = let off = schema_word_offset id in put rf off (put_half id (word_at rf off) n)

  set_schema_payload-written : set_schema_payload rf id n ≡ ok written
  unfolding set_schema_payload written
  set_schema_payload-written = ground (
    arith,
    read_u32_at rf (schema_word_offset id),
    write_u32_at rf (schema_word_offset id) (put_half id (word_at rf (schema_word_offset id)) n),
  )

  schema_payload_written :
      (d : ℕ)
      → schema_payload_bytes written d ≡ (if id == d then ok n else schema_payload_bytes rf d)
  unfolding written schema_payload_bytes
  schema_payload_written d = ground (
    arith,
    read_u32_at written (schema_word_offset d),
    read_u32_at rf (schema_word_offset d),
    word_at-lt rf (schema_word_offset id) valid,
    put_half-lt id (word_at rf (schema_word_offset id)) n,
    word_at-put_self rf (schema_word_offset id)
        (put_half id (word_at rf (schema_word_offset id)) n),
    word_at-put_ne rf (schema_word_offset id) (schema_word_offset d)
        (put_half id (word_at rf (schema_word_offset id)) n),
    get_half-put_half id d (word_at rf (schema_word_offset id)) n,
  )

-- On a well-formed register file, for an id from 1 to 31 and a 16-bit size, `set_schema_payload`
-- succeeds and keeps the register file well formed. Afterwards the view gives the size for that id
-- and what it gave before for every other id, and only the table word of the id has changed among
-- all offsets.
pub set_schema_payload_lem :
    (rf : RegisterFile) (id n d p : ℕ)
    → IsRegisterFile rf
    → IsSchemaId id
    → n < 2 ^ 16
    → (rf' : RegisterFile) × (set_schema_payload rf id n ≡ ok rf')
      × IsRegisterFile rf'
      × (schema_payload_bytes rf' d ≡ (if id == d then ok n else schema_payload_bytes rf d))
      × (read_u32 rf' p ≡ (
          if schema_word_offset id == p
          then ok (put_half id (word_at rf (schema_word_offset id)) n)
          else read_u32 rf p))
unfolding written
set_schema_payload_lem rf id n d p valid in_table fits =
    let off = schema_word_offset id in
    let value = put_half id (word_at rf off) n in
    (
      written rf valid id n in_table fits,
      set_schema_payload-written rf valid id n in_table fits,
      put-IsRegisterFile rf off value (put_half-lt id _ n (word_at-lt rf off valid) fits) valid,
      schema_payload_written rf valid id n in_table fits d,
      read_u32-write_u32 rf off p value valid
          (write_u32_at rf off value (schema_word_offset-IsRegister id in_table)),
    )

pub set_schema_payload_below :
    (rf : RegisterFile) (id n : ℕ)
    → IsRegisterFile rf
    → IsSchemaId id
    → n < 2 ^ 16
    → (rf' : RegisterFile) × (set_schema_payload rf id n ≡ ok rf')
      × IsRegisterFile rf'
      × SameBelow rf rf'
unfolding written
set_schema_payload_below rf id n valid in_table fits =
    let off = schema_word_offset id in
    let value = put_half id (word_at rf off) n in
    (
      written rf valid id n in_table fits,
      set_schema_payload-written rf valid id n in_table fits,
      put-IsRegisterFile rf off value (put_half-lt id _ n (word_at-lt rf off valid) fits) valid,
      λ p h below.
          word_at-put_ne rf off p value (schema_word_offset-IsRegister id in_table) h (omega arith),
    )

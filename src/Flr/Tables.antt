-- ===== src/Flr/Tables.antt =====
-- What `program_register_file` of crates/otap-flr-client/src/lib.rs does to the schema tables.
use otap_signup_validator.Common.{
  ℕ, ◌+◌, ◌%◌, ◌^◌, ◌≡◌, ◌∙◌, refl, ap, arith, List, [], ◌∷◌, some, Option-cases, Bool, true, false,
  ◌||◌, Result, ok, ◌==◌, if◌then◌else◌, All, inl, inr,
}
use otap_signup_validator.Common.Int.{to_bits}
use otap_signup_validator.Core.Dimensions.{OamMode}
use otap_signup_validator.Csr.Registers.{RegisterFile, IsRegisterFile, read_u32}
use otap_signup_validator.Csr.Writer.{schema_word_offset, oam_word_offset}
use otap_signup_validator.Csr.View.{schema_payload_bytes, schema_id_for_oam}
use otap_signup_validator.Csr.PayloadTable.{set_schema_payload_lem}
use otap_signup_validator.Csr.OamTable.{set_oam_to_schema_lem, slot}
use otap_signup_validator.Schema.Registry.{SchemaId, payload_bytes}
use otap_signup_validator.Flr.{
  FlrClientError, ApplicationSchema, map_oam_to_schema_id, csr_handle_for_schema_id, oam_mode_of,
  program_schema, program_schemas, with_write, for_known,
}
use otap_signup_validator.Flr.Handles.{same_id, same_oam, same_choice, in_tables}

-- Whether the schema that the registry sends is the given one of this code.
abbrev pub is_schema : SchemaId → ApplicationSchema → Bool
is_schema s schema = for_known (map_oam_to_schema_id schema.oam_mode) false (λ t. same_id t s)

abbrev pub listed : SchemaId → List ApplicationSchema → Bool
listed s [] = false
listed s (schema ∷ schemas) = is_schema s schema || listed s schemas

-- The schemas of the list that this code knows.
abbrev pub count_known : List ApplicationSchema → ℕ
count_known [] = 0
count_known (schema ∷ schemas) =
    for_known (map_oam_to_schema_id schema.oam_mode) (count_known schemas)
      (λ t. 1 + count_known schemas)

-- A schema that this code knows has the size that it expects.
abbrev pub SizeAgrees : ApplicationSchema → Type 0
SizeAgrees schema =
    (t : SchemaId)
    → map_oam_to_schema_id schema.oam_mode ≡ some t
    → to_bits 64 schema.schema_bytes ≡ payload_bytes t

-- The entries of a schema in both tables: as before, or the schema's own.
pub record Entries (s : SchemaId) (programmed : Bool) (before after : RegisterFile) : Type 0 where
  pub payload : schema_payload_bytes after (csr_handle_for_schema_id s) ≡ (
      if programmed
      then ok (payload_bytes s)
      else schema_payload_bytes before (csr_handle_for_schema_id s))
  pub binding : schema_id_for_oam after (oam_mode_of s) ≡ (
      if programmed
      then ok (csr_handle_for_schema_id s)
      else schema_id_for_oam before (oam_mode_of s))

-- Each table's view reads one word.
payload_of_word :
    (rf rf' : RegisterFile) (d : ℕ)
    → read_u32 rf' (schema_word_offset d) ≡ read_u32 rf (schema_word_offset d)
    → schema_payload_bytes rf' d ≡ schema_payload_bytes rf d
unfolding schema_payload_bytes
payload_of_word rf rf' d h = rw h refl

binding_of_word :
    (rf rf' : RegisterFile) (o : OamMode)
    → read_u32 rf' (oam_word_offset (slot o)) ≡ read_u32 rf (oam_word_offset (slot o))
    → schema_id_for_oam rf' o ≡ schema_id_for_oam rf o
unfolding schema_id_for_oam
binding_of_word rf rf' o h = rw h refl

program_schema_lem :
    {Fault : Type 0} (t s : SchemaId) (schema : ApplicationSchema) (rf : RegisterFile)
    (next : RegisterFile → RegisterFile × Result ℕ (FlrClientError Fault))
    → IsRegisterFile rf
    → to_bits 64 schema.schema_bytes ≡ payload_bytes t
    → (rf' : RegisterFile) × IsRegisterFile rf'
      × (program_schema t schema rf next ≡ next rf')
      × Entries s (same_id t s) rf rf'
unfolding program_schema with_write
program_schema_lem t s schema rf next valid size =
    let kt = in_tables t in
    let ks = in_tables s in
    let entry = csr_handle_for_schema_id s in
    let half = kt.half in
    let low = kt.low in
    let fits : payload_bytes t % 2 ^ 16 ≡ payload_bytes t = omega (arith, half) in
    let agrees : (payload_bytes t == payload_bytes t) ≡ true = ground arith in
    let (rf₁, e₁, v₁, pay₁, read₁) =
      set_schema_payload_lem rf (csr_handle_for_schema_id t) (payload_bytes t) entry
        (oam_word_offset (slot (oam_mode_of s))) valid kt.id half in
    let (rf₂, e₂, v₂, bind₂, read₂) =
      set_oam_to_schema_lem rf₁ (oam_mode_of t) (oam_mode_of s) (csr_handle_for_schema_id t)
        (schema_word_offset entry) v₁ kt.charge ks.charge kt.byte in
    let kept_binding : schema_id_for_oam rf₁ (oam_mode_of s)
        ≡ schema_id_for_oam rf (oam_mode_of s) =
      binding_of_word rf rf₁ (oam_mode_of s) (
        let apart : (schema_word_offset (csr_handle_for_schema_id t)
              == oam_word_offset (slot (oam_mode_of s)))
            ≡ false =
          ground arith in
        read₁ ∙ rw apart refl) in
    let kept_payload : schema_payload_bytes rf₂ entry ≡ schema_payload_bytes rf₁ entry =
      payload_of_word rf₁ rf₂ entry (
        let low = ks.low in
        let apart : (oam_word_offset (slot (oam_mode_of t)) == schema_word_offset entry) ≡ false =
          ground arith in
        read₂ ∙ rw apart refl) in
    (
      rf₂,
      v₂,
      rw (size, agrees, fits, e₁, e₂) refl,
      record {
        payload =
            kept_payload
            ∙ pay₁
            ∙ same_choice (λ u. ok (payload_bytes u)) t s (schema_payload_bytes rf entry);
        binding =
            bind₂
            ∙ rw (same_oam t s, kept_binding)
                (same_choice (λ u. ok (csr_handle_for_schema_id u)) t s
                  (schema_id_for_oam rf (oam_mode_of s)));
      },
    )

Entries-same : {s : SchemaId} {rf : RegisterFile} → Entries s false rf rf
Entries-same = record { payload = refl; binding = refl }

Entries-after :
    {s : SchemaId} {a b : RegisterFile} {c : RegisterFile} (first second : Bool)
    → Entries s first a b
    → Entries s second b c
    → Entries s (first || second) a c
Entries-after true true e f = record { payload = f.payload; binding = f.binding }
Entries-after false true e f = record { payload = f.payload; binding = f.binding }
Entries-after true false e f = record {
  payload = f.payload ∙ e.payload;
  binding = f.binding ∙ e.binding;
}
Entries-after false false e f = record {
  payload = f.payload ∙ e.payload;
  binding = f.binding ∙ e.binding;
}

-- For a list whose known schemas have the sizes that this code expects, the loop of
-- `program_register_file` succeeds on a well-formed register file, keeps it well formed, and counts
-- the known schemas. For each schema of this code, if it is in the list, the payload table gives its
-- size and the table of modes its handle; if it is not, both tables give what they gave before.
pub program_schemas_lem :
    {Fault : Type 0} (s : SchemaId) (mapped : ℕ) (schemas : List ApplicationSchema)
    (rf : RegisterFile)
    → IsRegisterFile rf
    → All SizeAgrees schemas
    → (rf' : RegisterFile) × (program_schemas {Fault = Fault} mapped schemas rf
        ≡ (rf', ok (mapped + count_known schemas)))
      × IsRegisterFile rf'
      × Entries s (listed s schemas) rf rf'
unfolding program_schemas
program_schemas_lem {Fault} s mapped [] rf valid sizes =
    (rf, ap (λ n. (rf, ok n)) (omega arith), valid, Entries-same)
program_schemas_lem {Fault} s mapped (schema ∷ schemas) rf valid sizes =
    elim (Option-cases (map_oam_to_schema_id schema.oam_mode)) [
      | inl unknown ↦
          let (rf', e, v, entries) =
            program_schemas_lem {Fault = Fault} s mapped schemas rf valid sizes.1 in
          rw unknown (rf', e, v, entries)
      | inr (t, known) ↦
          let (rf₁, v₁, e₁, entries₁) =
            program_schema_lem {Fault = Fault} t s schema rf (program_schemas (mapped + 1) schemas)
              valid (sizes.0 t known) in
          let (rf₂, e₂, v₂, entries₂) =
            program_schemas_lem {Fault = Fault} s (mapped + 1) schemas rf₁ v₁ sizes.1 in
          let count : mapped + 1 + count_known schemas ≡ mapped + (1 + count_known schemas) =
            omega arith in
          rw (known, e₁, e₂, count)
            (rf₂, refl, v₂, Entries-after (same_id t s) (listed s schemas) entries₁ entries₂)
    ]

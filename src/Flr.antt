-- ===== src/Flr.antt =====
-- crates/otap-flr-client/src/lib.rs: the client of the registry of schemas.
pub mod Url
pub mod Escapes
pub mod Utf8
pub mod Handles
pub mod Tables
pub mod Refresh
pub mod Defaults
use otap_signup_validator.Common.{
  ℕ, zero, suc, ◌+◌, ◌*◌, ◌/◌, ◌%◌, ◌^◌, List, [], ◌∷◌, ◌++◌, Option, none, some, Bool, true, false,
  not, ◌&&◌, ◌||◌, bit_or, Result, ok, err, ◌>>=◌, map_err, leb, ltb, ◌==◌, if◌then◌else◌,
}
use otap_signup_validator.Common.Int.{ℤ, pos, negsuc, eq_ℤ, to_bits}
use otap_signup_validator.Core.Float.{Float32}
use otap_signup_validator.Core.Dimensions.{OamMode, Wavelength}
use otap_signup_validator.Crypto.Trajectory.{ascii}
use otap_signup_validator.Csr.Registers.{
  RegisterFile, CsrError, CsrResult, ctrl_enable_tx, ctrl_enable_rx, ctrl_auth_topological,
}
use otap_signup_validator.Csr.Writer.{
  set_wavelength, set_secret, set_ctrl, set_auth_tolerance, set_schema_payload, set_oam_to_schema,
}
use otap_signup_validator.Schema.EquityOrder.{order_oam_mode}
use otap_signup_validator.Schema.MarketTick.{tick_oam_mode}
use otap_signup_validator.Schema.Heartbeat.{heartbeat_oam_mode}
use otap_signup_validator.Schema.Registry.{SchemaId, order_id, tick_id, heartbeat_id, payload_bytes}
use otap_signup_validator.Flr.Url.{urlencode, trim_slashes, decimal_i32}

-- `FlrClientError`, over the errors of the HTTP and the JSON library.
pub data FlrClientError (Fault : Type 0) : Type 0 where
  http : Fault → FlrClientError Fault
  json : Fault → FlrClientError Fault
  bad_response : ℕ → List ℕ → FlrClientError Fault
  no_active_schema : List ℕ → ℤ → FlrClientError Fault
  csr : CsrError → FlrClientError Fault
  hex : Fault → FlrClientError Fault
  unknown_schema : ℤ → FlrClientError Fault

-- `FieldDef`, `SchemaStatus` and `ApplicationSchema`; a layout is its list of fields.
pub record FieldDef : Type 0 where
  pub name : List ℕ
  pub offset : ℤ
  pub length : ℤ
  pub type_code : ℤ
  pub description : List ℕ

pub data SchemaStatus : Type 0 where
  unspecified active deprecated revoked : SchemaStatus

pub record ApplicationSchema : Type 0 where
  pub id : List ℕ
  pub oam_mode : ℤ
  pub schema_bytes : ℤ
  pub name : List ℕ
  pub version : ℤ
  pub layout : List FieldDef
  pub operator_id : List ℕ
  pub status : Option SchemaStatus
  pub created_at : List ℕ
  pub updated_at : List ℕ
  pub signature : Option (List ℕ)

-- `map_oam_to_schema_id`
unfoldable pub map_oam_to_schema_id : ℤ → Option SchemaId
map_oam_to_schema_id oam =
    if eq_ℤ oam order_oam_mode.charge
    then some order_id
    else if eq_ℤ oam tick_oam_mode.charge
    then some tick_id
    else if eq_ℤ oam heartbeat_oam_mode.charge
    then some heartbeat_id
    else none

-- `let Some(local_id) = … else { continue; }`: what is done for a schema that this code knows, and
-- otherwise.
abbrev pub for_known : {A : Type 0} → Option SchemaId → A → (SchemaId → A) → A
for_known none otherwise use_id = otherwise
for_known (some id) otherwise use_id = use_id id

-- `csr_handle_for_schema_id`
abbrev pub csr_handle_for_schema_id : SchemaId → ℕ
csr_handle_for_schema_id order_id = 1
csr_handle_for_schema_id tick_id = 2
csr_handle_for_schema_id heartbeat_id = 3

-- The mode that `program_register_file` binds to a schema.
abbrev pub oam_mode_of : SchemaId → OamMode
oam_mode_of order_id = order_oam_mode
oam_mode_of tick_id = tick_oam_mode
oam_mode_of heartbeat_id = heartbeat_oam_mode

-- `FlrClientConfig`, without the timeouts of the HTTP client.
pub record FlrClientConfig : Type 0 where
  pub base_url : List ℕ
  pub operator_id : List ℕ

-- The HTTP client, a status and a body for a URL, and the JSON parser.
pub record Rest (Fault : Type 0) : Type 0 where
  pub get : List ℕ → Result (ℕ × List ℕ) Fault
  pub parse_list : List ℕ → Result (List ApplicationSchema) Fault
  pub parse_schema : List ℕ → Result ApplicationSchema Fault

abbrev pub is_success : ℕ → Bool
is_success status = leb 200 status && ltb status 300

module _ {Fault : Type 0} (rest : Rest Fault) where
  -- `FlrClient::list_active_schemas`
  unfoldable pub list_active_schemas :
      FlrClientConfig → Result (List ApplicationSchema) (FlrClientError Fault)
  unfolding urlencode trim_slashes
  list_active_schemas cfg = do
    (status, body) ← map_err http (
        rest.get (
          trim_slashes cfg.base_url
          ++ (ascii "/v1/schemas?operator_id="
              ++ (urlencode cfg.operator_id ++ ascii "&status=ACTIVE"))))
    if not (is_success status)
        then err (bad_response status body)
        else map_err json (rest.parse_list body)

  -- `FlrClient::get_schema`
  unfoldable pub get_schema :
      FlrClientConfig → List ℕ → Result ApplicationSchema (FlrClientError Fault)
  unfolding urlencode trim_slashes
  get_schema cfg id = do
    (status, body) ←
        map_err http
          (rest.get (trim_slashes cfg.base_url ++ (ascii "/v1/schemas/" ++ urlencode id)))
    if not (is_success status)
        then err (bad_response status body)
        else map_err json (rest.parse_schema body)

  -- `FlrClient::get_active_schema_for_oam`
  unfoldable pub get_active_schema_for_oam :
      FlrClientConfig → List ℕ → ℤ → Result ApplicationSchema (FlrClientError Fault)
  unfolding urlencode trim_slashes
  get_active_schema_for_oam cfg operator oam = do
    (status, body) ← map_err http (
        rest.get (
          trim_slashes cfg.base_url
          ++ (ascii "/v1/schemas/active/"
              ++ (urlencode operator ++ (ascii "/" ++ decimal_i32 oam)))))
    if status == 404
        then err (no_active_schema operator oam)
        else if not (is_success status)
        then err (bad_response status body)
        else map_err json (rest.parse_schema body)

-- A write to the register file inside `program_register_file`: the file afterwards, also when the
-- rest fails, and the answer.
abbrev pub Programmed : Type 0 → Type 0
Programmed Fault = RegisterFile × Result ℕ (FlrClientError Fault)

unfoldable pub with_write :
    {Fault : Type 0}
    → RegisterFile
    → CsrResult RegisterFile
    → (RegisterFile → Programmed Fault)
    → Programmed Fault
with_write before (ok after) rest = rest after
with_write before (err e) rest = (before, err (csr e))

-- The text of the mismatch that `program_register_file` reports.
unfoldable pub size_mismatch : ApplicationSchema → ℕ → List ℕ
unfolding decimal_i32
size_mismatch schema local_bytes =
    ascii "schema "
    ++ (schema.id
        ++ (ascii " (oam "
            ++ (decimal_i32 schema.oam_mode
                ++ (ascii ") FLR says "
                    ++ (decimal_i32 schema.schema_bytes
                        ++ (ascii " bytes but local enum says "
                            ++ decimal_i32 (pos local_bytes)))))))

-- One schema of the loop, and the rest of it.
unfoldable pub program_schema :
    {Fault : Type 0}
    → SchemaId
    → ApplicationSchema
    → RegisterFile
    → (RegisterFile → Programmed Fault)
    → Programmed Fault
unfolding with_write
program_schema local_id schema rf next =
    let handle = csr_handle_for_schema_id local_id in
    let local_bytes = payload_bytes local_id in
    if not (local_bytes == to_bits 64 schema.schema_bytes)
    then (rf, err (bad_response 0 (size_mismatch schema local_bytes)))
    else with_write rf (set_schema_payload rf handle (to_bits 64 schema.schema_bytes % 2 ^ 16))
        λ rf₁. with_write rf₁ (set_oam_to_schema rf₁ (oam_mode_of local_id) handle) next

-- The loop of `program_register_file` over the schemas, with `mapped` of them done.
unfoldable pub program_schemas :
    {Fault : Type 0} → ℕ → List ApplicationSchema → RegisterFile → Programmed Fault
unfolding program_schema
program_schemas mapped [] rf = (rf, ok mapped)
program_schemas mapped (schema ∷ schemas) rf =
    let skipped = program_schemas mapped schemas rf in
    for_known (map_oam_to_schema_id schema.oam_mode) skipped
      λ local_id. program_schema local_id schema rf (program_schemas (mapped + 1) schemas)

-- `FlrClient::program_register_file`
unfoldable pub program_register_file :
    (F : Type 0) ⦃fl : Float32 F⦄ {Fault : Type 0}
    → Rest Fault
    → FlrClientConfig
    → RegisterFile
    → Wavelength
    → List ℕ
    → Bool
    → Programmed Fault
unfolding with_write list_active_schemas program_schemas
program_register_file F ⦃fl⦄ rest cfg rf wavelength secret_bytes topological_auth =
    let ctrl =
      bit_or (bit_or ctrl_enable_tx ctrl_enable_rx)
        (if topological_auth then ctrl_auth_topological else 0) in
    with_write rf (set_wavelength rf wavelength) λ rf₁.
      with_write rf₁ (set_secret rf₁ secret_bytes) λ rf₂. with_write rf₂ (set_ctrl rf₂ ctrl) λ rf₃.
        with_write rf₃ (set_auth_tolerance {F = F} rf₃ (fl.literal (pos 1) 2)) λ rf₄.
          elim (list_active_schemas rest cfg) [
            | ok schemas ↦ program_schemas 0 schemas rf₄
            | err e ↦ (rf₄, err e)
          ]

-- `FlrClient::refresh_loop`, until `should_stop` holds: with what the HTTP client answers in each
-- round before that
unfoldable pub refresh_loop :
    (F : Type 0) ⦃fl : Float32 F⦄ {Fault : Type 0}
    → List (Rest Fault)
    → FlrClientConfig
    → RegisterFile
    → Wavelength
    → List ℕ
    → Bool
    → RegisterFile
unfolding program_register_file
refresh_loop F [] cfg rf wavelength secret_bytes topological_auth = rf
refresh_loop F (rest ∷ rounds) cfg rf wavelength secret_bytes topological_auth =
    let (rf', _) = program_register_file F rest cfg rf wavelength secret_bytes topological_auth in
    refresh_loop F rounds cfg rf' wavelength secret_bytes topological_auth

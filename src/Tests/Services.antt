-- ===== src/Tests/Services.antt =====
-- The registry client and the fabric on concrete values.
use otap_signup_validator.Common.{
  ℕ, ◌+◌, ◌<◌, ◌≡◌, ◌↔◌, All, refl, ap, arith, List, [], ◌∷◌, none, some, not, leb, ok, err,
}
use otap_signup_validator.Common.Int.{ℤ, pos}
use otap_signup_validator.Crypto.Secret.{new_secret}
use otap_signup_validator.Crypto.Trajectory.{ascii}
use otap_signup_validator.Crypto.Verify.{topological}
use otap_signup_validator.Csr.Registers.{RegisterFile, IsRegisterFile, new_register_file}
use otap_signup_validator.Schema.Registry.{
  AnySchemaValue, order, heartbeat, heartbeat_id, payload_bytes,
}
use otap_signup_validator.Codec.Encoder.{new_encoder}
use otap_signup_validator.Obg.Queues.{SendQueue, new_send_queue, new_completion_queue}
use otap_signup_validator.Obg.Driver.{SoftDriver, driver_with}
use otap_signup_validator.Obg.QueueLaws.{push_run}
use otap_signup_validator.Obg.Loopback.{post_run}
use otap_signup_validator.Flr.{
  FlrClientConfig, ApplicationSchema, Rest, map_oam_to_schema_id, program_schemas,
}
use otap_signup_validator.Flr.Url.{urlencode}
use otap_signup_validator.Flr.Escapes.{percent_decode, percent_decode-urlencode}
use otap_signup_validator.Flr.Utf8.{utf8}
use otap_signup_validator.Flr.Tables.{SizeAgrees, listed, count_known, Entries, program_schemas_lem}
use otap_signup_validator.Sim.{Rate, Channel, identity}
use otap_signup_validator.Fabric.{Fabric, pump_both}
use otap_signup_validator.Fabric.Arrivals.{arrivals_through}
use otap_signup_validator.Fabric.Pump.{pump_both_lem}
use otap_signup_validator.Tests.Values.{
  whole_numbers, sum_tag, key, channel, new_register_file-IsRegisterFile, an_order,
  an_order-IsOrder, a_heartbeat, a_heartbeat-IsHeartbeat,
}

abbrev operator_path : List ℕ
operator_path = ascii "op/a b"

abbrev accented : List ℕ
accented = 111 ∷ 233 ∷ 0x20ac ∷ []

percent_decode-urlencode_example :
    (percent_decode (urlencode accented) ≡ some (utf8 accented)) ↔ All (λ c. c < 0x80) accented
percent_decode-urlencode_example =
    percent_decode-urlencode accented (omega arith, (omega arith, (omega arith, tt)))

abbrev pub schema : ℤ → ℕ → ApplicationSchema
schema oam bytes = record {
  id = ascii "s";
  oam_mode = oam;
  schema_bytes = pos bytes;
  name = [];
  version = pos 1;
  layout = [];
  operator_id = [];
  status = none;
  created_at = [];
  updated_at = [];
  signature = none;
}

-- One schema that the code knows and one that it does not.
abbrev pub schemas : List ApplicationSchema
schemas = schema (pos 4) (payload_bytes heartbeat_id) ∷ schema (pos 99) 5 ∷ []

pub heartbeat-SizeAgrees : SizeAgrees (schema (pos 4) (payload_bytes heartbeat_id))
unfolding map_oam_to_schema_id
heartbeat-SizeAgrees t e = let same : heartbeat_id ≡ t = cc in ap payload_bytes same

pub unknown-SizeAgrees : SizeAgrees (schema (pos 99) 5)
unfolding map_oam_to_schema_id
unknown-SizeAgrees t e = absurd cc

program_schemas_lem_example :
    (rf' : RegisterFile) × (program_schemas {Fault = ℕ} 0 schemas new_register_file
      ≡ (rf', ok (0 + count_known schemas)))
    × IsRegisterFile rf'
    × Entries heartbeat_id (listed heartbeat_id schemas) new_register_file rf'
program_schemas_lem_example =
    program_schemas_lem heartbeat_id 0 schemas new_register_file new_register_file-IsRegisterFile
      (heartbeat-SizeAgrees, (unknown-SizeAgrees, tt))

-- A registry that does not answer, and one that answers with these schemas.
abbrev silent_registry : Rest ℕ
silent_registry = record {
  get = λ url. err 7;
  parse_list = λ body. err 8;
  parse_schema = λ body. err 8;
}

abbrev pub registry : Rest ℕ
registry = record {
  get = λ url. ok (200, []);
  parse_list = λ body. ok schemas;
  parse_schema = λ body. err 8;
}

abbrev client : FlrClientConfig
client = record { base_url = ascii "http://flr"; operator_id = operator_path }

instance abbrev pub whole_rate : Rate ℕ ℕ
whole_rate = record { zero_rate = 0; widen = λ x. x; less = λ x y. not (leb y x) }

abbrev clean_channel : Channel ℕ ℕ
clean_channel = record { pmd_rotation = identity; bit_error_rate = 0; rng = record { state = 42 } }

abbrev fabric : Fabric ℕ ℕ
fabric = record { a_to_b = clean_channel; b_to_a = clean_channel }

abbrev driver : SoftDriver ℕ
driver = driver_with (new_secret key) channel topological

abbrev upward : List (AnySchemaValue × ℕ)
upward = (order an_order, 11) ∷ []

abbrev downward : List (AnySchemaValue × ℕ)
downward = (heartbeat a_heartbeat, 12) ∷ []

pump_both_lem_example :
    (send_a : SendQueue) × (send_b : SendQueue) × (post_run (new_send_queue 4) channel upward
      ≡ ok send_a)
    × (post_run (new_send_queue 4) channel downward ≡ ok send_b)
    × (a' : SoftDriver ℕ) × (b' : SoftDriver ℕ) × (pump_both fabric
          (record { driver = driver; send = send_a; completions = new_completion_queue 8 })
          (record { driver = driver; send = send_b; completions = new_completion_queue 8 })
        ≡ (
          (1, 1),
          fabric,
          record {
            driver = a';
            send = new_send_queue 4;
            completions =
                push_run
                  (new_completion_queue 8)
                  (arrivals_through identity driver.decoder driver.encoder downward);
          },
          record {
            driver = b';
            send = new_send_queue 4;
            completions =
                push_run
                  (new_completion_queue 8)
                  (arrivals_through identity driver.decoder driver.encoder upward);
          },
        ))
unfolding new_encoder
pump_both_lem_example =
    pump_both_lem upward downward 4 4 channel driver driver (new_completion_queue 8)
      (new_completion_queue 8) fabric (an_order-IsOrder, tt) (a_heartbeat-IsHeartbeat, tt)
      (omega arith) (omega arith) refl refl refl refl

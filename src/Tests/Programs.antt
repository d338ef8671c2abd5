-- ===== src/Tests/Programs.antt =====
-- The programs of crates/otap-cli with whole numbers for `f32` and a sum for the hashes.
use otap_signup_validator.Common.{
  to_be_bytes, from_be_bytes, ℕ, ◌%◌, ◌^◌, ◌≡◌, refl, arith, List, [], ◌∷◌, ok,
}
use otap_signup_validator.Crypto.Trajectory.{ascii}
use otap_signup_validator.Common.Int.{pos}
use otap_signup_validator.Schema.Registry.{heartbeat_id, payload_bytes}
use otap_signup_validator.Sim.{Trig, identity, random_pmd}
use otap_signup_validator.Fabric.Arrivals.{arrivals_through}
use otap_signup_validator.Flr.{list_active_schemas}
use otap_signup_validator.Flr.Tables.{count_known}
use otap_signup_validator.Cli.Link.{armed_driver}
use otap_signup_validator.Cli.Local.{session_key, local_main}
use otap_signup_validator.Cli.Local.Delivery.{local_values, local_main_lem}
use otap_signup_validator.Cli.Fullstack.{parse_args, config_of, fullstack_key, fullstack_main}
use otap_signup_validator.Cli.Fullstack.Delivery.{orders_from, fullstack_main_lem}
use otap_signup_validator.Cli.Demo.{original_order, demo_pmd, tamper, demo_main}
use otap_signup_validator.Cli.Demo.Scenarios.{
  tampered_order, received, reported, match_decoder, topo_decoder, demo_main_lem,
}
use otap_signup_validator.Tests.Values.{whole_numbers, sum_tag}
use otap_signup_validator.Tests.Services.{
  whole_rate, schemas, schema, registry, heartbeat-SizeAgrees, unknown-SizeAgrees,
}

instance abbrev whole_trig : Trig ℕ
whole_trig = record { sin = λ x. x; cos = λ x. x; sum_start = 0 }

local_main_lem_example :
    local_main ℕ ℕ {E = ℕ}
    ≡ ok (
      3,
      arrivals_through
          (random_pmd {F = ℕ} {D = ℕ} 0x1234_DEAD).pmd_rotation
          (armed_driver ℕ session_key).decoder
          (armed_driver ℕ session_key).encoder
          local_values,
    )
local_main_lem_example = local_main_lem ℕ ℕ (λ x. omega arith) refl

-- The command line `--operator op-bob`.
abbrev command_line : List (List ℕ)
command_line = ascii "--operator" ∷ ascii "op-bob" ∷ []

registry_lists : list_active_schemas registry (config_of (parse_args command_line)) ≡ ok schemas
unfolding list_active_schemas
registry_lists = refl

fullstack_main_lem_example :
    fullstack_main ℕ ℕ (λ i. i % 2 ^ 64) registry registry registry command_line
    ≡ ok (record {
      mapped_a = count_known schemas;
      mapped_b = count_known schemas;
      delivered = 5;
      completions =
          arrivals_through
            (random_pmd {F = ℕ} {D = ℕ} 0xDEAD_BEEF).pmd_rotation
            (armed_driver ℕ fullstack_key).decoder
            (armed_driver ℕ fullstack_key).encoder
            (orders_from (λ i. i % 2 ^ 64) 0 5);
    })
fullstack_main_lem_example =
    fullstack_main_lem ℕ ℕ (λ i. i % 2 ^ 64) registry registry registry command_line
      (schema (pos 4) (payload_bytes heartbeat_id)) (schema (pos 99) 5 ∷ []) schemas schemas
      (λ x. omega arith) refl (λ i. omega arith) registry_lists registry_lists registry_lists
      (heartbeat-SizeAgrees, (unknown-SizeAgrees, tt))
      (heartbeat-SizeAgrees, (unknown-SizeAgrees, tt))

abbrev hash : List ℕ → List ℕ
hash message = to_be_bytes 32 (from_be_bytes message)

demo_main_lem_example :
    demo_main ℕ ℕ hash {E = ℕ}
    ≡ ok (record {
      clean =
          reported ℕ ℕ hash
            (match_decoder ℕ ℕ hash)
            (received ℕ ℕ hash identity 0)
            0
            original_order;
      clean_order = original_order;
      rotated_match =
          reported ℕ ℕ hash
            (match_decoder ℕ ℕ hash)
            (received ℕ ℕ hash (demo_pmd ℕ) 1)
            1
            original_order;
      rotated_topo =
          reported ℕ ℕ hash
            (topo_decoder ℕ ℕ hash)
            (received ℕ ℕ hash (demo_pmd ℕ) 1)
            1
            original_order;
      tampered =
          reported ℕ ℕ hash
            (match_decoder ℕ ℕ hash)
            (tamper (received ℕ ℕ hash identity 2))
            2
            tampered_order;
      tampered_order = tampered_order;
    })
demo_main_lem_example = demo_main_lem ℕ ℕ hash refl

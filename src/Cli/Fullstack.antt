-- ===== src/Cli/Fullstack.antt =====
-- crates/otap-cli/src/bin/otap-fullstack.rs
pub mod Delivery
use otap_signup_validator.Common.{
  same_text, ℕ, zero, suc, ◌+◌, ◌*◌, ◌%◌, ◌^◌, List, [], ◌∷◌, length, replicate, true, Bool, Result,
  ok, err, ◌>>=◌, map_err, ◌==◌, if◌then◌else◌, bit_or,
}
use otap_signup_validator.Core.Float.{Float32}
use otap_signup_validator.Core.Dimensions.{Wavelength, new_wavelength}
use otap_signup_validator.Crypto.Hmac.{Hmac}
use otap_signup_validator.Crypto.Trajectory.{ascii}
use otap_signup_validator.Csr.Registers.{RegisterFile, new_register_file}
use otap_signup_validator.Schema.EquityOrder.{EquityTradeOrder, buy, sell, new_order, encode_order}
use otap_signup_validator.Schema.Registry.{order_id}
use otap_signup_validator.Obg.Queues.{
  SendQueue, new_request, new_send_queue, post, Completion, new_completion_queue,
}
use otap_signup_validator.Obg.Driver.{from_csr}
use otap_signup_validator.Sim.{Trig, Rate}
use otap_signup_validator.Fabric.{with_random_pmd, pump_a_to_b}
use otap_signup_validator.Flr.{
  FlrClientConfig, FlrClientError, Rest, Programmed, list_active_schemas, program_register_file,
}
use otap_signup_validator.Cli.{CliError, core, obg, registry, no_active_schemas, drain_completions}

-- `Args`
pub record Args : Type 0 where
  pub flr_url : List ℕ
  pub operator : List ℕ

-- The loop of `parse_args`: a flag takes the next argument, and a flag without one leaves its setting.
unfoldable pub parse_flags : Args → List (List ℕ) → Args
parse_flags args [] = args
parse_flags args (flag ∷ []) = args
parse_flags args (flag ∷ (value ∷ rest)) =
    let as_url = parse_flags (record args { flr_url = value }) rest in
    let as_operator = parse_flags (record args { operator = value }) rest in
    let skipped = parse_flags args (value ∷ rest) in
    if same_text flag (ascii "--flr")
    then as_url
    else if same_text flag (ascii "--operator")
    then as_operator
    else skipped

-- `parse_args`, on the arguments behind the program's name
unfoldable pub parse_args : List (List ℕ) → Args
unfolding parse_flags
parse_args argv =
    parse_flags (record { flr_url = ascii "http://localhost:8080"; operator = ascii "op-alice" })
      argv

-- The session key, `[0xBEu8; 32]`
abbrev pub fullstack_key : List ℕ
fullstack_key = replicate 32 0xbe

-- The order of round `i`; `price i` is the bits of `195.50 + (i as f64) * 0.25`.
unfoldable pub order_at : (ℕ → ℕ) → ℕ → EquityTradeOrder
unfolding new_order
order_at price i =
    new_order (ascii "AAPL") (if i % 2 == 0 then buy else sell) (100 + i * 50) (price i)
      (1_700_000_000_000 + i * 1_000_000) (42 + i) (ascii "firm-uuid-16byte")

-- The loop of posts from round `i` on, with `left` rounds to go.
unfoldable pub post_orders :
    {E : Type 0} → (ℕ → ℕ) → Wavelength → ℕ → ℕ → SendQueue → Result SendQueue (CliError E)
unfolding order_at
post_orders price wavelength i zero send = ok send
post_orders price wavelength i (suc left) send = do
  send' ← map_err obg (
      post send
        (new_request order_id wavelength (length (encode_order (order_at price i)))
          (bit_or 0xABCD_0000 i))
        (encode_order (order_at price i)))
  post_orders price wavelength (i + 1) left send'

-- What `main` has found in the end.
pub record Outcome : Type 0 where
  pub mapped_a : ℕ
  pub mapped_b : ℕ
  pub delivered : ℕ
  pub completions : List Completion

-- The configuration of the registry client.
abbrev pub config_of : Args → FlrClientConfig
config_of args = record { base_url = args.flr_url; operator_id = args.operator }

-- A register file that is programmed, or the error.
abbrev pub programmed :
    {Fault : Type 0}
    → Programmed Fault
    → Result (ℕ × RegisterFile) (CliError (FlrClientError Fault))
programmed (rf, answer) = map_err registry answer >>= λ mapped. ok (mapped, rf)

-- `main`, with what the HTTP client answers to the first listing and to the one for each register file.
unfoldable pub fullstack_main :
    (F D : Type 0) ⦃fl : Float32 F⦄ ⦃trig : Trig F⦄ ⦃rate : Rate F D⦄ ⦃hm : Hmac⦄ {Fault : Type 0}
    → (ℕ → ℕ)
    → Rest Fault
    → Rest Fault
    → Rest Fault
    → List (List ℕ)
    → Result Outcome (CliError (FlrClientError Fault))
unfolding parse_args list_active_schemas program_register_file post_orders drain_completions
fullstack_main F D price rest rest_a rest_b argv =
    let args = parse_args argv in
    let cfg = config_of args in
    map_err registry (list_active_schemas rest cfg) >>= λ schemas.
    if length schemas == 0 then err no_active_schemas else (do
      wavelength ← map_err core (new_wavelength 40)
      (mapped_a, alice_rf) ←
          programmed
            (program_register_file F rest_a cfg new_register_file wavelength fullstack_key true)
      (mapped_b, bob_rf) ←
          programmed
            (program_register_file F rest_b cfg new_register_file wavelength fullstack_key true)
      alice ← map_err obg (from_csr {F = F} alice_rf)
      bob ← map_err obg (from_csr {F = F} bob_rf)
      alice_send ← post_orders price wavelength 0 5 (new_send_queue 64)
      let (delivered, fabric, alice_end, bob_end) =
          pump_a_to_b (with_random_pmd {F = F} {D = D} 0xDEAD_BEEF 0xFEED_FACE)
            (record { driver = alice; send = alice_send; completions = new_completion_queue 0 })
            (record {
              driver = bob;
              send = new_send_queue 0;
              completions = new_completion_queue 64;
            })
      ok (record {
        mapped_a = mapped_a;
        mapped_b = mapped_b;
        delivered = delivered;
        completions = drain_completions bob_end.completions;
      }))

-- ===== src/Cli/Fullstack/Delivery.antt =====
-- What crates/otap-cli/src/bin/otap-fullstack.rs delivers.
use otap_signup_validator.Common.{
  ℕ, zero, suc, ◌+◌, ◌^◌, ◌≤◌, ◌<◌, ◌≡◌, ◌∙◌, refl, arith, ap, List, [], ◌∷◌, map, length, true,
  false, IsArray, IsByte, All, All-replicate, Result-cases, inl, inr, ok, map_err, bit_or, ◌==◌,
}
use otap_signup_validator.Core.Float.{Float32}
use otap_signup_validator.Core.Dimensions.{new_wavelength}
use otap_signup_validator.Crypto.Hmac.{Hmac}
use otap_signup_validator.Csr.Registers.{new_register_file}
use otap_signup_validator.Csr.Access.{new_register_file-IsRegisterFile}
use otap_signup_validator.Schema.EquityOrder.{IsOrder}
use otap_signup_validator.Schema.Registry.{AnySchemaValue, order}
use otap_signup_validator.Codec.Encoder.{new_encoder}
use otap_signup_validator.Obg.Queues.{Completion, SendQueue, new_send_queue, post}
use otap_signup_validator.Obg.Loopback.{request_of, AllValues, queued, post_run, post_run_from}
use otap_signup_validator.Sim.{Trig, Rate, random_pmd}
use otap_signup_validator.Fabric.Arrivals.{arrivals_through}
use otap_signup_validator.Flr.{ApplicationSchema, Rest, list_active_schemas}
use otap_signup_validator.Flr.Tables.{SizeAgrees, count_known}
use otap_signup_validator.Flr.Refresh.{program_register_file_lem}
use otap_signup_validator.Cli.{obg}
use otap_signup_validator.Cli.Link.{channel_40, armed_driver, delivered-pump_a_to_b}
use otap_signup_validator.Cli.Fullstack.{
  config_of, parse_args, fullstack_key, order_at, post_orders, fullstack_main,
}

-- The orders of `left` rounds from round `i` on, with their cookies.
abbrev pub orders_from : (ℕ → ℕ) → ℕ → ℕ → List (AnySchemaValue × ℕ)
orders_from price i zero = []
orders_from price i (suc left) =
    (order (order_at price i), bit_or 0xABCD_0000 i) ∷ orders_from price (i + 1) left

order_at-IsOrder : (price : ℕ → ℕ) (i : ℕ) → i < 5 → price i < 2 ^ 64 → IsOrder (order_at price i)
unfolding order_at
order_at-IsOrder price i few small = record {
  symbol = record { size = refl; bytes = omega arith };
  quantity = omega arith;
  price_cents = small;
  timestamp_ns = omega arith;
  client_order_id = omega arith;
  firm_uuid = record { size = refl; bytes = omega arith };
}

orders_from-AllValues :
    (price : ℕ → ℕ) (i left : ℕ)
    → i + left ≤ 5
    → ((j : ℕ) → price j < 2 ^ 64)
    → AllValues (orders_from price i left)
orders_from-AllValues price i zero few small = tt
orders_from-AllValues price i (suc left) few small = (
  order_at-IsOrder price i (omega arith) (small i),
  orders_from-AllValues price (i + 1) left (omega arith) small,
)

post_orders-post_run :
    {E : Type 0} (price : ℕ → ℕ) (i left : ℕ) (send : SendQueue)
    → post_orders {E = E} price channel_40 i left send
      ≡ map_err obg (post_run send channel_40 (orders_from price i left))
unfolding post_orders
post_orders-post_run price i zero send = refl
post_orders-post_run {E} price i (suc left) send =
    let (wr, payload) = request_of channel_40 (order (order_at price i), bit_or 0xABCD_0000 i) in
    elim (Result-cases (post send wr payload)) [
      | inl (send', posted) ↦ rw posted (post_orders-post_run {E = E} price (i + 1) left send')
      | inr (e, refused) ↦ rw refused refl
    ]

fullstack_key-IsArray : IsArray 32 fullstack_key
fullstack_key-IsArray = record { size = refl; bytes = All-replicate IsByte 32 0xbe (omega arith) }

posted_orders :
    {E : Type 0} (price : ℕ → ℕ)
    → ((i : ℕ) → price i < 2 ^ 64)
    → post_orders {E = E} price channel_40 0 5 (new_send_queue 64)
      ≡ ok (queued (map (request_of channel_40) (orders_from price 0 5)) 64)
unfolding new_send_queue
posted_orders price small =
    post_orders-post_run price 0 5 (new_send_queue 64)
    ∙ ap (map_err obg) (
        post_run_from (orders_from price 0 5) [] 64 channel_40
          (orders_from-AllValues price 0 5 (omega arith) small) (omega arith))

-- Where the cast to `u32` gives numbers below 2^32, the zero error rate is not below itself and the
-- prices are 64-bit: if the registry answers every listing, the first one not with an empty list, and
-- the schemas known to this code have the expected sizes in the listings for the register files, `main`
-- succeeds. It reports the known schemas of either listing, five Transients delivered, and Bob's
-- completions: the five orders in the order of posting, with the sequence numbers 0 to 4, each with
-- the verdict of Bob's decoder, armed with the session key in the topological mode, on the trajectory
-- rotated by the channel.
pub fullstack_main_lem :
    (F D : Type 0) ⦃fl : Float32 F⦄ ⦃trig : Trig F⦄ ⦃rate : Rate F D⦄ ⦃hm : Hmac⦄ {Fault : Type 0}
    (price : ℕ → ℕ) (rest rest_a rest_b : Rest Fault) (argv : List (List ℕ))
    (schema : ApplicationSchema) (schemas schemas_a schemas_b : List ApplicationSchema)
    → ((x : F) → fl.to_u32 x < 2 ^ 32)
    → rate.less rate.zero_rate rate.zero_rate ≡ false
    → ((i : ℕ) → price i < 2 ^ 64)
    → list_active_schemas rest (config_of (parse_args argv)) ≡ ok (schema ∷ schemas)
    → list_active_schemas rest_a (config_of (parse_args argv)) ≡ ok schemas_a
    → list_active_schemas rest_b (config_of (parse_args argv)) ≡ ok schemas_b
    → All SizeAgrees schemas_a
    → All SizeAgrees schemas_b
    → let bob = armed_driver F fullstack_key in
      fullstack_main F D price rest rest_a rest_b argv
      ≡ ok (record {
        mapped_a = count_known schemas_a;
        mapped_b = count_known schemas_b;
        delivered = 5;
        completions =
            arrivals_through
              (random_pmd {F = F} {D = D} 0xDEAD_BEEF).pmd_rotation
              bob.decoder
              bob.encoder
              (orders_from price 0 5);
      })
unfolding fullstack_main new_wavelength new_encoder
fullstack_main_lem F D {Fault} price rest rest_a rest_b argv schema schemas schemas_a schemas_b cast
      never small first listed_a listed_b sizes_a sizes_b =
    let cfg = config_of (parse_args argv) in
    let driver = armed_driver F fullstack_key in
    let xs = orders_from price 0 5 in
    let values = orders_from-AllValues price 0 5 (omega arith) small in
    let (rf_a, programmed_a, opened_a) =
      program_register_file_lem F cfg channel_40 fullstack_key true cast (omega arith)
        fullstack_key-IsArray rest_a new_register_file schemas_a new_register_file-IsRegisterFile
        listed_a sizes_a in
    let (rf_b, programmed_b, opened_b) =
      program_register_file_lem F cfg channel_40 fullstack_key true cast (omega arith)
        fullstack_key-IsArray rest_b new_register_file schemas_b new_register_file-IsRegisterFile
        listed_b sizes_b in
    let some_schemas : (length (schema ∷ schemas) == 0) ≡ false = ground arith in
    rw
      (
        first,
        programmed_a,
        programmed_b,
        opened_a,
        opened_b,
        posted_orders price small,
        some_schemas,
      )
      (ap
        (λ (r : ℕ × List Completion). ok (record {
          mapped_a = count_known schemas_a;
          mapped_b = count_known schemas_b;
          delivered = r.0;
          completions = r.1;
        }))
        (delivered-pump_a_to_b F D xs 0xDEAD_BEEF 0xFEED_FACE channel_40 driver driver never refl
          values (omega arith)))

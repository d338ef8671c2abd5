-- ===== src/Cli/Link.antt =====
-- What the programs of crates/otap-cli have in common: two drivers with one key, a fabric of random
-- rotations, and the completions that are polled at the end.
use otap_signup_validator.Common.{
  ℕ, suc, ◌-◌, ◌≤◌, ◌≡◌, ◌∙◌, refl, arith, ap, List, [], ◌∷◌, map, length, drop, true, false,
}
use otap_signup_validator.Core.Float.{Float32}
use otap_signup_validator.Core.Dimensions.{Wavelength}
use otap_signup_validator.Crypto.Hmac.{Hmac}
use otap_signup_validator.Schema.Registry.{AnySchemaValue}
use otap_signup_validator.Codec.Encoder.{Encoder}
use otap_signup_validator.Codec.Decoder.{Decoder}
use otap_signup_validator.Obg.Queues.{
  new_send_queue, Completion, CompletionQueue, new_completion_queue, poll,
}
use otap_signup_validator.Crypto.Secret.{new_secret}
use otap_signup_validator.Common.Int.{pos}
use otap_signup_validator.Csr.Writer.{milliradians}
use otap_signup_validator.Obg.Arm.{arm_ctrl}
use otap_signup_validator.Obg.Armed.{tolerance_of}
use otap_signup_validator.Obg.Driver.{SoftDriver, auth_mode_of, driver_with}
use otap_signup_validator.Obg.QueueLaws.{push_run, push_run-new}
use otap_signup_validator.Obg.Loopback.{request_of, AllValues, queued}
use otap_signup_validator.Sim.{PoincareRotation, Trig, Rate, Channel, random_pmd}
use otap_signup_validator.Fabric.{Fabric, End, with_random_pmd, pump_a_to_b}
use otap_signup_validator.Fabric.Arrivals.{Clean, arrivals_through}
use otap_signup_validator.Fabric.Pump.{pump_lem}
use otap_signup_validator.Cli.{poll_all, drain_completions}

abbrev pub channel_40 : Wavelength
channel_40 = record { channel = 40 }

-- The driver of both ends, armed with a key and the topological mode.
abbrev pub armed_driver : (F : Type 0) ⦃fl : Float32 F⦄ → List ℕ → SoftDriver F
armed_driver F ⦃fl⦄ key =
    driver_with (new_secret key) channel_40
      (auth_mode_of (arm_ctrl true) (tolerance_of F (milliradians (fl.literal (pos 1) 2))))

poll_all-completions :
    (cs : List Completion) (capacity : ℕ)
    → poll_all (suc (length cs)) (record { completions = cs; capacity = capacity }) ≡ cs
unfolding poll_all poll
poll_all-completions [] capacity = refl
poll_all-completions (c ∷ cs) capacity = ap (λ rest. c ∷ rest) (poll_all-completions cs capacity)

drain_completions-completions : (cq : CompletionQueue) → drain_completions cq ≡ cq.completions
unfolding drain_completions
drain_completions-completions cq = poll_all-completions cq.completions cq.capacity

module _ {F : Type 0} ⦃fl : Float32 F⦄ ⦃hm : Hmac⦄ where
  length-arrivals_through :
      (m : PoincareRotation F) (dec : Decoder F) (xs : List (AnySchemaValue × ℕ)) (enc : Encoder)
      → length (arrivals_through m dec enc xs) ≡ length xs
  length-arrivals_through m dec [] enc = refl
  length-arrivals_through m dec (x ∷ xs) enc = ap suc (length-arrivals_through m dec xs _)

module _ (F D : Type 0) ⦃fl : Float32 F⦄ ⦃trig : Trig F⦄ ⦃rate : Rate F D⦄ ⦃hm : Hmac⦄ where
  random_pmd-Clean :
      (seed : ℕ)
      → rate.less rate.zero_rate rate.zero_rate ≡ false
      → Clean (random_pmd {F = F} {D = D} seed)
  unfolding random_pmd
  random_pmd-Clean seed h = h

  -- What the programs have from a pump: how many were delivered, and the completions.
  abbrev pub delivered_by : ℕ × Fabric F D × End F × End F → ℕ × List Completion
  delivered_by r = (r.0, drain_completions r.3.completions)

  pub delivered-pump_a_to_b :
      (xs : List (AnySchemaValue × ℕ)) (seed_ab seed_ba : ℕ) (w : Wavelength) (a b : SoftDriver F)
      → rate.less rate.zero_rate rate.zero_rate ≡ false
      → b.decoder.expected_wavelength ≡ a.encoder.wavelength
      → AllValues xs
      → length xs ≤ 64
      → delivered_by (
          pump_a_to_b
            (with_random_pmd {F = F} {D = D} seed_ab seed_ba)
            (record {
              driver = a;
              send = queued (map (request_of w) xs) 64;
              completions = new_completion_queue 0;
            })
            (record { driver = b; send = new_send_queue 0; completions = new_completion_queue 64 }))
        ≡ (
          length xs,
          arrivals_through (random_pmd {F = F} {D = D} seed_ab).pmd_rotation b.decoder a.encoder xs,
        )
  unfolding pump_a_to_b with_random_pmd
  delivered-pump_a_to_b xs seed_ab seed_ba w a b never bound h few =
      let cs =
        arrivals_through (random_pmd {F = F} {D = D} seed_ab).pmd_rotation b.decoder a.encoder xs in
      let size : length cs ≡ length xs = length-arrivals_through _ b.decoder xs a.encoder in
      let all_fit : length cs - 64 ≡ 0 = omega arith in
      ap (λ (r : ℕ × Channel F D × End F × End F). (r.0, drain_completions r.3.completions))
        (pump_lem xs (random_pmd {F = F} {D = D} seed_ab) 64 w a (new_completion_queue 0)
          (record { driver = b; send = new_send_queue 0; completions = new_completion_queue 64 })
          (random_pmd-Clean seed_ab never) bound h)
      ∙ ap (λ ys. (length xs, ys))
          (drain_completions-completions (push_run (new_completion_queue 64) cs)
            ∙ push_run-new 64 cs
            ∙ ap (λ n. drop n cs) all_fit)

-- ===== src/Fabric/Pump.antt =====
-- What the pumps of crates/otap-fabric/src/lib.rs deliver over channels without bit errors.
use otap_signup_validator.Common.{
  ℕ, suc, ◌+◌, ◌%◌, ◌^◌, ◌≤◌, ◌≡◌, ◌∙◌, refl, ap, arith, List, [], ◌∷◌, map, length, ok,
}
use otap_signup_validator.Core.Float.{Float32}
use otap_signup_validator.Core.Dimensions.{Wavelength}
use otap_signup_validator.Crypto.Hmac.{Hmac}
use otap_signup_validator.Schema.Registry.{AnySchemaValue}
use otap_signup_validator.Codec.Encoder.{Encoder, encode_raw}
use otap_signup_validator.Codec.RoundTrip.{sent}
use otap_signup_validator.Obg.Queues.{SendQueue, new_send_queue, new_request, CompletionQueue}
use otap_signup_validator.Obg.Driver.{SoftDriver, drain, transmit_pending}
use otap_signup_validator.Obg.QueueLaws.{push_run}
use otap_signup_validator.Obg.Loopback.{
  request_of, post_run, AllValues, queued, oam_for_schema-id_of, post_run_from,
}
use otap_signup_validator.Sim.{Rate, Channel}
use otap_signup_validator.Fabric.{Fabric, End, deliver, pump, pump_a_to_b, pump_b_to_a, pump_both}
use otap_signup_validator.Fabric.Arrivals.{Clean, transmit-Clean, arrivals_through, receive-rotated}

module _ (F : Type 0) ⦃fl : Float32 F⦄ ⦃hm : Hmac⦄ where
  length-drain :
      (w : Wavelength) (xs : List (AnySchemaValue × ℕ)) (enc : Encoder)
      → length (drain {F = F} enc (map (request_of w) xs)).0 ≡ length xs
  unfolding drain encode_raw
  length-drain w [] enc = refl
  length-drain w (x ∷ xs) enc =
      ap suc (length-drain w xs (record enc { next_sequence = (enc.next_sequence + 1) % 2 ^ 16 }))

module _ {F D : Type 0} ⦃fl : Float32 F⦄ ⦃rate : Rate F D⦄ ⦃hm : Hmac⦄ where
  deliver-drain :
      (xs : List (AnySchemaValue × ℕ)) (channel : Channel F D) (enc : Encoder)
      (driver : SoftDriver F) (w : Wavelength) (cq : CompletionQueue)
      → Clean channel
      → driver.decoder.expected_wavelength ≡ enc.wavelength
      → AllValues xs
      → deliver channel driver (drain {F = F} enc (map (request_of w) xs)).0 cq
        ≡ (channel, push_run cq (arrivals_through channel.pmd_rotation driver.decoder enc xs))
  unfolding deliver drain new_request encode_raw
  deliver-drain [] channel enc driver w cq clean bound h = refl
  deliver-drain (x ∷ xs) channel enc driver w cq clean bound (h, hs) =
      let enc' = record enc { next_sequence = (enc.next_sequence + 1) % 2 ^ 16 } in
      rw
        (
          oam_for_schema-id_of x.0,
          transmit-Clean channel (sent enc x.0) clean,
          receive-rotated channel.pmd_rotation enc driver x.0 cq h bound,
        )
        (deliver-drain xs channel enc' driver w _ clean bound hs)

  pub pump_lem :
      (xs : List (AnySchemaValue × ℕ)) (channel : Channel F D) (capacity : ℕ) (w : Wavelength)
      (from : SoftDriver F) (cq : CompletionQueue) (to : End F)
      → Clean channel
      → to.driver.decoder.expected_wavelength ≡ from.encoder.wavelength
      → AllValues xs
      → pump channel
          (record {
            driver = from;
            send = queued (map (request_of w) xs) capacity;
            completions = cq;
          })
          to
        ≡ (
          length xs,
          channel,
          record {
            driver = record from {
              encoder = (drain {F = F} from.encoder (map (request_of w) xs)).1;
            };
            send = queued [] capacity;
            completions = cq;
          },
          record to {
            completions =
                push_run to.completions
                  (arrivals_through channel.pmd_rotation to.driver.decoder from.encoder xs);
          },
        )
  unfolding pump transmit_pending
  pump_lem xs channel capacity w from cq to clean bound h =
      rw
        (
          deliver-drain xs channel from.encoder to.driver w to.completions clean bound h,
          length-drain F w xs from.encoder,
        )
        refl

  -- The rest of `pump_both` after its first and after its second pump.
  unfoldable both_pumped :
      Fabric F D → ℕ → ℕ × Channel F D × End F × End F → (ℕ × ℕ) × Fabric F D × End F × End F
  both_pumped fabric ab (ba, channel, b', a') =
      ((ab, ba), record fabric { b_to_a = channel }, a', b')

  unfoldable second_pump :
      Fabric F D → ℕ × Channel F D × End F × End F → (ℕ × ℕ) × Fabric F D × End F × End F
  unfolding both_pumped
  second_pump fabric (ab, channel, a', b') =
      both_pumped (record fabric { a_to_b = channel }) ab (pump fabric.b_to_a b' a')

  -- Values in range are posted at both ends to empty queues with room for them, and both directions
  -- are pumped once, over channels that flip no bits, whatever their rotations. Then as many are
  -- delivered in each direction as were posted, both send queues are empty, the channels are as
  -- before, and what is pushed to each completion queue is exactly the other end's values in the order
  -- of posting, with sequence numbers that count up from that end's and wrap at 2^16. Only the flag
  -- for authenticity depends on the rotation: it is the receiver's verdict on the rotated trajectory.
  pub pump_both_lem :
      (xs ys : List (AnySchemaValue × ℕ)) (room_a room_b : ℕ) (w : Wavelength) (a b : SoftDriver F)
      (cq_a cq_b : CompletionQueue) (fabric : Fabric F D)
      → AllValues xs
      → AllValues ys
      → length xs ≤ room_a
      → length ys ≤ room_b
      → Clean fabric.a_to_b
      → Clean fabric.b_to_a
      → b.decoder.expected_wavelength ≡ a.encoder.wavelength
      → a.decoder.expected_wavelength ≡ b.encoder.wavelength
      → (send_a : SendQueue) × (send_b : SendQueue) × (post_run (new_send_queue room_a) w xs
          ≡ ok send_a)
        × (post_run (new_send_queue room_b) w ys ≡ ok send_b)
        × (a' : SoftDriver F) × (b' : SoftDriver F) × (pump_both fabric
              (record { driver = a; send = send_a; completions = cq_a })
              (record { driver = b; send = send_b; completions = cq_b })
            ≡ (
              (length xs, length ys),
              fabric,
              record {
                driver = a';
                send = new_send_queue room_a;
                completions =
                    push_run cq_a
                      (arrivals_through fabric.b_to_a.pmd_rotation a.decoder b.encoder ys);
              },
              record {
                driver = b';
                send = new_send_queue room_b;
                completions =
                    push_run cq_b
                      (arrivals_through fabric.a_to_b.pmd_rotation b.decoder a.encoder xs);
              },
            ))
  unfolding pump_both pump_a_to_b pump_b_to_a new_send_queue second_pump both_pumped
  pump_both_lem xs ys room_a room_b w a b cq_a cq_b fabric hx hy fits_a fits_b clean_ab clean_ba
        to_b to_a =
      (
        queued (map (request_of w) xs) room_a,
        queued (map (request_of w) ys) room_b,
        post_run_from xs [] room_a w hx (omega arith),
        post_run_from ys [] room_b w hy (omega arith),
        record a { encoder = (drain {F = F} a.encoder (map (request_of w) xs)).1 },
        record b { encoder = (drain {F = F} b.encoder (map (request_of w) ys)).1 },
        ap (second_pump fabric) (
              pump_lem xs fabric.a_to_b room_a w a cq_a
                (record {
                  driver = b;
                  send = queued (map (request_of w) ys) room_b;
                  completions = cq_b;
                })
                clean_ab to_b hx)
            ∙ ap (both_pumped fabric (length xs)) (
                pump_lem ys fabric.b_to_a room_b w b
                  (push_run cq_b
                    (arrivals_through fabric.a_to_b.pmd_rotation b.decoder a.encoder xs))
                  (record {
                    driver = record a {
                      encoder = (drain {F = F} a.encoder (map (request_of w) xs)).1;
                    };
                    send = queued [] room_a;
                    completions = cq_a;
                  })
                  clean_ba to_a hy),
      )

-- ===== src/Tests/Link.antt =====
-- The codec and the driver on concrete values.
use otap_signup_validator.Common.{
  ℕ, ◌<◌, ◌≤◌, ◌≡◌, ◌⊎◌, ◌↔◌, refl, arith, List, [], ◌∷◌, ◌++◌, length, map, true, false, is_ok, ok,
  some,
}
use otap_signup_validator.Core.Dimensions.{new_micro}
use otap_signup_validator.Crypto.Secret.{new_secret}
use otap_signup_validator.Crypto.Trajectory.{TrajectoryContext, derive_trajectory}
use otap_signup_validator.Crypto.Verify.{topological}
use otap_signup_validator.Crypto.Match.{Passes}
use otap_signup_validator.Crypto.Preimage.{IsContext, context_bytes-injective}
use otap_signup_validator.Csr.Registers.{RegisterFile, IsRegisterFile, new_register_file}
use otap_signup_validator.Csr.Writer.{milliradians}
use otap_signup_validator.Schema.EquityOrder.{order_oam_mode, encode_order}
use otap_signup_validator.Schema.Registry.{
  AnySchemaValue, order, heartbeat, SchemaId, order_id, resolve, payload_bytes, decode_any,
}
use otap_signup_validator.Schema.Registry.Dispatch.{Accepts}
use otap_signup_validator.Codec.Encoder.{Encoder, new_encoder}
use otap_signup_validator.Codec.Decoder.{Decoder, DecodeReport, decode, context_of}
use otap_signup_validator.Codec.RoundTrip.{
  sent, verdict, decode-encode_raw, decode-encode_raw_authentic, decode-auth_ok_iff, decode_iff,
}
use otap_signup_validator.Codec.Sequence.{encode_run, encode_run_sequences}
use otap_signup_validator.Obg.Queues.{
  WorkRequest, new_request, SendQueue, new_send_queue, post, Completion, new_completion_queue,
}
use otap_signup_validator.Obg.Driver.{
  SoftDriver, driver_with, auth_mode_of, from_csr, transmit_pending,
}
use otap_signup_validator.Obg.Arm.{arm_ctrl, arm_register_file}
use otap_signup_validator.Obg.Armed.{tolerance_of, from_csr-arm_register_file}
use otap_signup_validator.Obg.QueueLaws.{push_run, push_run-new, post_iff}
use otap_signup_validator.Obg.Loopback.{
  post_run, arrivals, receive_run, receive_run-transmit_pending,
}
use otap_signup_validator.Tests.Values.{
  whole_numbers, sum_tag, key, key-IsArray, channel, channel-IsChannel,
  new_register_file-IsRegisterFile, an_order, an_order-IsOrder, a_heartbeat,
  a_heartbeat-IsHeartbeat,
}

abbrev driver : SoftDriver ℕ
driver = driver_with (new_secret key) channel topological

abbrev encoder : Encoder
encoder = new_encoder (new_secret key) channel

abbrev decoder : Decoder ℕ
decoder = driver.decoder

abbrev two_values : List (AnySchemaValue × ℕ)
two_values = (order an_order, 11) ∷ (heartbeat a_heartbeat, 12) ∷ []

receive_run-transmit_pending_example :
    (send : SendQueue) × (post_run (new_send_queue 4) channel two_values ≡ ok send)
    × (receive_run ℕ driver
          (map (λ s. s.0) (transmit_pending driver send).0)
          (new_completion_queue 8)
        ≡ push_run (new_completion_queue 8) (arrivals two_values 0))
unfolding new_encoder
receive_run-transmit_pending_example =
    receive_run-transmit_pending ℕ two_values 4 channel driver driver (new_completion_queue 8)
      (an_order-IsOrder, (a_heartbeat-IsHeartbeat, tt)) (omega arith)
      (record { channel = refl; key = refl; mode = refl })

from_csr-arm_register_file_example :
    (rf' : RegisterFile) × (arm_register_file ℕ new_register_file channel key true ≡ ok rf')
    × IsRegisterFile rf'
    × (from_csr {F = ℕ} rf'
        ≡ ok (
            driver_with
              (new_secret key)
              channel
              (auth_mode_of (arm_ctrl true) (tolerance_of ℕ (milliradians {F = ℕ} 1)))))
from_csr-arm_register_file_example =
    from_csr-arm_register_file ℕ new_register_file channel key true (λ x. omega arith)
      new_register_file-IsRegisterFile channel-IsChannel key-IsArray

decode-encode_raw_example :
    decode decoder (sent encoder (order an_order))
    ≡ ok (record {
      value = order an_order;
      wavelength = channel;
      oam = order_oam_mode;
      micro = new_micro 0;
      auth_ok = verdict decoder (sent encoder (order an_order));
    })
unfolding new_encoder
decode-encode_raw_example = decode-encode_raw encoder decoder (order an_order) an_order-IsOrder refl

decode-encode_raw_authentic_example :
    (r : DecodeReport) × (decode decoder (sent encoder (order an_order)) ≡ ok r)
    × (r.value ≡ order an_order)
    × (r.auth_ok ≡ true)
unfolding new_encoder
decode-encode_raw_authentic_example =
    decode-encode_raw_authentic encoder decoder (order an_order) an_order-IsOrder refl refl refl

abbrev order_report : DecodeReport
order_report = record {
  value = order an_order;
  wavelength = channel;
  oam = order_oam_mode;
  micro = new_micro 0;
  auth_ok = verdict decoder (sent encoder (order an_order));
}

decode-auth_ok_iff_example :
    ((order_report.auth_ok ≡ true)
      ↔ Passes {F = ℕ}
          (derive_trajectory decoder.secret (context_of (sent {F = ℕ} encoder (order an_order))))
          (sent {F = ℕ} encoder (order an_order)).polarization
          decoder.auth_mode)
    × (order_report.wavelength ≡ (sent {F = ℕ} encoder (order an_order)).wavelength)
    × (order_report.oam ≡ (sent {F = ℕ} encoder (order an_order)).oam)
    × (order_report.micro ≡ (sent {F = ℕ} encoder (order an_order)).micro)
    × (decode_any
          (sent {F = ℕ} encoder (order an_order)).oam
          (sent {F = ℕ} encoder (order an_order)).payload
        ≡ ok order_report.value)
decode-auth_ok_iff_example =
    decode-auth_ok_iff decoder (sent encoder (order an_order)) order_report
      decode-encode_raw_example

decode_iff_example :
    (is_ok (decode decoder (sent encoder (order an_order))) ≡ true)
    ↔ ((sent {F = ℕ} encoder (order an_order)).wavelength.channel
        ≡ decoder.expected_wavelength.channel)
      × ((id : SchemaId) × (resolve (sent {F = ℕ} encoder (order an_order)).oam ≡ some id)
          × (length (sent {F = ℕ} encoder (order an_order)).payload ≡ payload_bytes id)
          × Accepts id (sent {F = ℕ} encoder (order an_order)).payload)
decode_iff_example = decode_iff decoder (sent encoder (order an_order))

abbrev context : TrajectoryContext
context = record { wavelength = channel; oam = order_oam_mode; sequence = 5; payload = 1 ∷ 2 ∷ [] }

context-IsContext : IsContext context
context-IsContext = record {
  wavelength = channel-IsChannel;
  oam = (ground arith, ground arith);
  sequence = omega arith;
  payload = omega arith;
}

context_bytes-injective_example : context ≡ context
context_bytes-injective_example =
    context_bytes-injective context context context-IsContext context-IsContext refl

abbrev two_requests : List (WorkRequest × List ℕ)
two_requests =
    (new_request order_id channel 256 11, encode_order an_order)
    ∷ (new_request order_id (record { channel = 7 }) 256 12, encode_order an_order)
    ∷ []

abbrev two_queued : SendQueue
two_queued = record { requests = two_requests; capacity = 2 }

abbrev completion : ℕ → Completion
completion sequence = record {
  value = order an_order;
  auth_ok = true;
  sequence = sequence;
  cookie = 0;
}

push_run-new_example :
    (push_run
      (new_completion_queue 2)
      (completion 1 ∷ completion 2 ∷ completion 3 ∷ [])).completions
    ≡ completion 2 ∷ completion 3 ∷ []
push_run-new_example = push_run-new 2 (completion 1 ∷ completion 2 ∷ completion 3 ∷ [])

post_iff_example :
    ((is_ok (post two_queued (new_request order_id channel 256 1) (encode_order an_order)) ≡ true)
      ↔ ((new_request order_id channel 256 1).payload_len ≡ payload_bytes order_id)
        × (length two_requests < 2))
    × ((is_ok (post two_queued (new_request order_id channel 256 1) (encode_order an_order))
          ≡ false)
        ⊎ ((q' : SendQueue) × (post two_queued
                (new_request order_id channel 256 1)
                (encode_order an_order)
              ≡ ok q')
            × (q'.requests
                ≡ two_requests
                  ++ ((new_request order_id channel 256 1, encode_order an_order) ∷ []))
            × (q'.capacity ≡ 2)
            × (length q'.requests ≤ q'.capacity)))
unfolding new_request
post_iff_example = post_iff two_queued (new_request order_id channel 256 1) (encode_order an_order)

encode_run_sequences_example :
    (map
        (λ t. t.micro.sequence)
        (encode_run ℕ
          (record encoder { next_sequence = 65535 })
          ((order_oam_mode, []) ∷ (order_oam_mode, []) ∷ [])).0
      ≡ 65535 ∷ 0 ∷ [])
    × ((encode_run ℕ
          (record encoder { next_sequence = 65535 })
          ((order_oam_mode, []) ∷ (order_oam_mode, []) ∷ [])).1.next_sequence
        ≡ 1)
encode_run_sequences_example =
    encode_run_sequences ℕ ((order_oam_mode, []) ∷ (order_oam_mode, []) ∷ [])
      (record encoder { next_sequence = 65535 }) (omega arith)

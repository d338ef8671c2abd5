-- ===== src/Tests/Handshake.antt =====
-- The handshake and the transport of the D3 envelope on concrete values.
use otap_signup_validator.Common.{
  ℕ, ◌≡◌, refl, arith, List, ◌++◌, replicate, All-replicate, length-replicate, IsByte, IsArray,
  true, ok,
}
use otap_signup_validator.Crypto.Trajectory.{ascii}
use otap_signup_validator.D3.Keys.{
  Ed25519, D3SigningKey, as_bytes, verifying_key, sign_raw, verify_raw,
}
use otap_signup_validator.D3.Handshake.{
  HsMsg1, HsMsg2, HsMsg3, InitiatorWaitMsg2, EstablishedInitiator, Responder, ResponderWaitMsg3,
  EstablishedResponder, hash_nonces, derive_epoch_nonce, finish,
}
use otap_signup_validator.D3.Handshake.Agreement.{ClientRun}
use otap_signup_validator.D3.Transport.Exchange.{Connected, run_initiator-run_responder}
use otap_signup_validator.Tests.Signature.{same_bytes, toy_signature, toy_signature-Signs}

abbrev of_byte : ℕ → ℕ → List ℕ
of_byte n b = replicate n b

of_byte-IsArray : (n : ℕ) → IsArray n (of_byte n 7)
of_byte-IsArray n = record {
  size = length-replicate {A = ℕ} n 7;
  bytes = All-replicate IsByte n 7 (omega arith);
}

abbrev msg1 : HsMsg1
msg1 = record { client_pk = of_byte 32 7; nonce_i = of_byte 32 7 }

abbrev msg2 : HsMsg2
msg2 = record { server_pk = of_byte 32 7; nonce_r = of_byte 32 7; sig_r = of_byte 64 7 }

abbrev msg3 : HsMsg3
msg3 = record { client_pk = of_byte 32 7; sig_i = of_byte 64 7 }

abbrev client_sk : D3SigningKey
client_sk = record { secret = of_byte 32 7 }

abbrev server_sk : D3SigningKey
server_sk = record { secret = of_byte 32 8 }

run_initiator-run_responder_example :
    Connected client_sk server_sk (λ key. true) (of_byte 32 7) (of_byte 32 7) 200
run_initiator-run_responder_example =
    run_initiator-run_responder client_sk server_sk (λ key. true) (of_byte 32 7) (of_byte 32 7) 200
      toy_signature-Signs (of_byte-IsArray 32) (of_byte-IsArray 32) (omega arith) refl

-- The concrete signatures with a hash that keeps its input.
instance abbrev readable : Ed25519
readable = record toy_signature { sha256 = λ message. message }

abbrev nonce_i : List ℕ
nonce_i = of_byte 32 1

abbrev nonce_r : List ℕ
nonce_r = of_byte 32 2

abbrev client_digest : List ℕ
client_digest = ascii "HELLO-I" ++ (nonce_r ++ nonce_i)

abbrev responder : Responder
responder = record { sk = server_sk; is_authorized = λ key. same_bytes key (of_byte 32 7) }

abbrev first_msg : HsMsg1
first_msg = record { client_pk = of_byte 32 7; nonce_i = nonce_i }

abbrev second_msg : HsMsg2
second_msg = record {
  server_pk = of_byte 32 8;
  nonce_r = nonce_r;
  sig_r = readable.sign server_sk.secret (ascii "HELLO-R" ++ (nonce_i ++ nonce_r));
}

abbrev third_msg : HsMsg3
third_msg = record {
  client_pk = of_byte 32 7;
  sig_i = readable.sign client_sk.secret client_digest;
}

abbrev responder_wait : ResponderWaitMsg3
responder_wait = record {
  sk = server_sk;
  client_pk = record { public = of_byte 32 7 };
  nonce_i = nonce_i;
  nonce_r = nonce_r;
}

abbrev wait_msg2 : InitiatorWaitMsg2
wait_msg2 = record { sk = client_sk; peer_pk = record { public = of_byte 32 8 }; nonce_i = nonce_i }

abbrev responder_done : EstablishedResponder
responder_done = record {
  epoch_nonce = derive_epoch_nonce ⦃ed = readable⦄ nonce_i nonce_r;
  peer_pk = record { public = of_byte 32 7 };
}

abbrev initiator_done : EstablishedInitiator
initiator_done = record {
  epoch_nonce = derive_epoch_nonce ⦃ed = readable⦄ nonce_i nonce_r;
  peer_pk = record { public = of_byte 32 8 };
}

client_finishes : finish ⦃ed = readable⦄ wait_msg2 second_msg ≡ ok (initiator_done, third_msg)
unfolding finish verify_raw sign_raw verifying_key as_bytes hash_nonces
client_finishes = refl

abbrev client_run : ClientRun ⦃ed = readable⦄
client_run = record {
  wait = wait_msg2;
  msg2 = second_msg;
  established = initiator_done;
  msg3 = third_msg;
  done = client_finishes;
}

-- The client has completed this one run.
abbrev OneRun : ClientRun ⦃ed = readable⦄ → Type 0
OneRun run = (run.wait ≡ wait_msg2) × (run.msg2 ≡ second_msg)

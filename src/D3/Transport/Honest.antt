-- ===== src/D3/Transport/Honest.antt =====
-- The messages of two honest ends, and each end's run of
-- crates/luxstream-otap-d3/src/transport.rs on them.
use otap_signup_validator.Common.{
  ℕ, ◌+◌, ◌-◌, ◌≤◌, ◌≡◌, refl, arith, List, [], ◌++◌, length, IsArray, Bool, true, ok,
}
use otap_signup_validator.Crypto.Trajectory.{ascii}
use otap_signup_validator.D3.Keys.{
  Ed25519, Signs, nonce_len, D3SigningKey, verifying_key, as_bytes, sign_raw, verify_raw,
  verifying_key_from_bytes,
}
use otap_signup_validator.D3.Session.{D3Session}
use otap_signup_validator.D3.Handshake.{
  HsMsg1, HsMsg2, HsMsg3, msg1_len, msg2_len, msg3_len, encode_msg1, decode_msg1, encode_msg2,
  decode_msg2, encode_msg3, decode_msg3, hash_nonces, derive_epoch_nonce, start, finish,
  handle_msg1, handle_msg3,
}
use otap_signup_validator.D3.Handshake.Wire.{
  decode-encode_msg1, decode-encode_msg2, decode-encode_msg3,
}
use otap_signup_validator.D3.Transport.{
  Stream, from_client_handshake, from_server_handshake, run_initiator, run_responder,
}
use otap_signup_validator.D3.Transport.Streams.{read_exact-append, write_all-room}

-- Two keys, two nonces, and the messages of their honest run.
module _ ⦃ed : Ed25519⦄ (client_sk server_sk : D3SigningKey) (nonce_i nonce_r : List ℕ) where
  abbrev pub first_msg : HsMsg1
  first_msg = record { client_pk = as_bytes (verifying_key client_sk); nonce_i = nonce_i }

  abbrev pub second_msg : HsMsg2
  second_msg = record {
    server_pk = as_bytes (verifying_key server_sk);
    nonce_r = nonce_r;
    sig_r = sign_raw server_sk (hash_nonces (ascii "HELLO-R") nonce_i nonce_r);
  }

  abbrev pub third_msg : HsMsg3
  third_msg = record {
    client_pk = as_bytes (verifying_key client_sk);
    sig_i = sign_raw client_sk (hash_nonces (ascii "HELLO-I") nonce_r nonce_i);
  }

  finish_honest :
      Signs ed
      → finish
          (record { sk = client_sk; peer_pk = verifying_key server_sk; nonce_i = nonce_i })
          second_msg
        ≡ ok (
          record {
            epoch_nonce = derive_epoch_nonce nonce_i nonce_r;
            peer_pk = verifying_key server_sk;
          },
          third_msg,
        )
  unfolding finish verify_raw sign_raw verifying_key as_bytes
  finish_honest law = rw law.verifies

  handle_msg1_honest :
      (is_authorized : List ℕ → Bool)
      → Signs ed
      → is_authorized (as_bytes (verifying_key client_sk)) ≡ true
      → handle_msg1 (record { sk = server_sk; is_authorized = is_authorized }) first_msg nonce_r
        ≡ ok (
          record {
            sk = server_sk;
            client_pk = verifying_key client_sk;
            nonce_i = nonce_i;
            nonce_r = nonce_r;
          },
          second_msg,
        )
  unfolding handle_msg1 verifying_key_from_bytes verifying_key as_bytes
  handle_msg1_honest is_authorized law allowed = rw (allowed, law.valid)

  handle_msg3_honest :
      Signs ed
      → handle_msg3
          (record {
            sk = server_sk;
            client_pk = verifying_key client_sk;
            nonce_i = nonce_i;
            nonce_r = nonce_r;
          })
          third_msg
        ≡ ok (record {
          epoch_nonce = derive_epoch_nonce nonce_i nonce_r;
          peer_pk = verifying_key client_sk;
        })
  unfolding handle_msg3 verify_raw sign_raw verifying_key
  handle_msg3_honest law = rw law.verifies

  -- The streams of the two ends when each end's incoming bytes are what the other sends.
  abbrev pub client_stream : ℕ → Stream
  client_stream accepts = record {
    incoming = encode_msg2 second_msg ++ [];
    outgoing = [];
    accepts = accepts;
  }

  abbrev pub server_stream : ℕ → Stream
  server_stream accepts = record {
    incoming = encode_msg1 first_msg ++ (encode_msg3 third_msg ++ []);
    outgoing = [];
    accepts = accepts;
  }

  abbrev pub client_session : D3Session
  client_session = record {
    epoch_nonce = derive_epoch_nonce nonce_i nonce_r;
    signing_key = client_sk;
    peer_key = verifying_key server_sk;
  }

  abbrev pub server_session : D3Session
  server_session = record {
    epoch_nonce = derive_epoch_nonce nonce_i nonce_r;
    signing_key = server_sk;
    peer_key = verifying_key client_sk;
  }

  module _ (law : Signs ed) (size_i : IsArray nonce_len nonce_i)
      (size_r : IsArray nonce_len nonce_r) where
    first_wire :
        (decode_msg1 (encode_msg1 first_msg) ≡ ok first_msg)
        × (length (encode_msg1 first_msg) ≡ msg1_len)
    unfolding as_bytes verifying_key
    first_wire =
        decode-encode_msg1 first_msg
          (record { client_pk = law.key_size client_sk.secret; nonce_i = size_i })

    second_wire :
        (decode_msg2 (encode_msg2 second_msg) ≡ ok second_msg)
        × (length (encode_msg2 second_msg) ≡ msg2_len)
    unfolding as_bytes verifying_key sign_raw
    second_wire = decode-encode_msg2 second_msg (record {
      server_pk = law.key_size server_sk.secret;
      nonce_r = size_r;
      sig_r = law.signature_size server_sk.secret _;
    })

    third_wire :
        (decode_msg3 (encode_msg3 third_msg) ≡ ok third_msg)
        × (length (encode_msg3 third_msg) ≡ msg3_len)
    unfolding as_bytes verifying_key sign_raw
    third_wire = decode-encode_msg3 third_msg (record {
      client_pk = law.key_size client_sk.secret;
      sig_i = law.signature_size client_sk.secret _;
    })

    pub run_initiator_honest :
        (accepts : ℕ)
        → msg1_len + msg3_len ≤ accepts
        → run_initiator (client_stream accepts) client_sk (verifying_key server_sk) nonce_i
          ≡ ok (
            client_session,
            record {
              incoming = [];
              outgoing = encode_msg1 first_msg ++ encode_msg3 third_msg;
              accepts = accepts - msg1_len - msg3_len;
            },
          )
    unfolding run_initiator start from_client_handshake
    run_initiator_honest accepts room =
        let (back₂, size₂) = second_wire in
        let (_, size₁) = first_wire in
        let (_, size₃) = third_wire in
        rw
          (
            write_all-room (encode_msg2 second_msg ++ []) [] (encode_msg1 first_msg) accepts
                (omega arith),
            read_exact-append (encode_msg2 second_msg) [] ([] ++ encode_msg1 first_msg)
                (accepts - length (encode_msg1 first_msg)) msg2_len size₂,
            back₂,
            finish_honest law,
            write_all-room [] ([] ++ encode_msg1 first_msg) (encode_msg3 third_msg)
                (accepts - length (encode_msg1 first_msg)) (omega arith),
            size₁,
            size₃,
          )
          refl

    pub run_responder_honest :
        (accepts : ℕ) (is_authorized : List ℕ → Bool)
        → msg2_len ≤ accepts
        → is_authorized (as_bytes (verifying_key client_sk)) ≡ true
        → run_responder (server_stream accepts) server_sk is_authorized nonce_r
          ≡ ok (
            server_session,
            record {
              incoming = [];
              outgoing = encode_msg2 second_msg;
              accepts = accepts - msg2_len;
            },
          )
    unfolding run_responder from_server_handshake
    run_responder_honest accepts is_authorized room allowed =
        let (back₁, size₁) = first_wire in
        let (_, size₂) = second_wire in
        let (back₃, size₃) = third_wire in
        rw
          (
            read_exact-append (encode_msg1 first_msg) (encode_msg3 third_msg ++ []) [] accepts
                msg1_len size₁,
            back₁,
            handle_msg1_honest is_authorized law allowed,
            write_all-room (encode_msg3 third_msg ++ []) [] (encode_msg2 second_msg) accepts
                (omega arith),
            read_exact-append (encode_msg3 third_msg) [] ([] ++ encode_msg2 second_msg)
                (accepts - length (encode_msg2 second_msg)) msg3_len size₃,
            back₃,
            handle_msg3_honest law,
            size₂,
          )
          refl

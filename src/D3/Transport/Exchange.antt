-- ===== src/D3/Transport/Exchange.antt =====
-- Two honest ends of one connection.
use otap_signup_validator.Common.{
  ℕ, ◌+◌, ◌≤◌, ◌≡◌, refl, arith, List, [], append-nil, IsArray, Bool, true, ok,
}
use otap_signup_validator.D3.Keys.{Ed25519, Signs, nonce_len, D3SigningKey, verifying_key, as_bytes}
use otap_signup_validator.D3.Rpc.{Symbol, RpcDomain}
use otap_signup_validator.D3.Session.{D3Session, seal, open_frame}
use otap_signup_validator.D3.Session.Seal.{open_frame-seal}
use otap_signup_validator.D3.Handshake.{msg1_len, msg3_len}
use otap_signup_validator.D3.Transport.{Stream, run_initiator, run_responder}
use otap_signup_validator.D3.Transport.Honest.{
  client_stream, server_stream, client_session, server_session, run_initiator_honest,
  run_responder_honest,
}

-- What an exchange of the bytes `up` and `down` gives: each end, fed what the other sends, completes
-- with a session and has sent what the other was fed, and in either direction every frame that one
-- session seals is opened by the other.
pub record Connected ⦃ed : Ed25519⦄ (client_sk server_sk : D3SigningKey)
    (is_authorized : List ℕ → Bool) (nonce_i nonce_r : List ℕ) (accepts : ℕ) : Type 0 where
  pub up : List ℕ
  pub down : List ℕ
  pub client : D3Session
  pub server : D3Session
  pub client_end : Stream
  pub server_end : Stream
  pub initiated :
      run_initiator
        (record { incoming = down; outgoing = []; accepts = accepts })
        client_sk
        (verifying_key server_sk)
        nonce_i
      ≡ ok (client, client_end)
  pub responded :
      run_responder
        (record { incoming = up; outgoing = []; accepts = accepts })
        server_sk
        is_authorized
        nonce_r
      ≡ ok (server, server_end)
  pub client_sent : client_end.outgoing ≡ up
  pub server_sent : server_end.outgoing ≡ down
  pub same_epoch : client.epoch_nonce ≡ server.epoch_nonce
  pub up_frames :
      (domain : RpcDomain) (symbols : List Symbol)
      → open_frame server domain (seal client domain symbols) ≡ ok symbols
  pub down_frames :
      (domain : RpcDomain) (symbols : List Symbol)
      → open_frame client domain (seal server domain symbols) ≡ ok symbols

-- Over a connection that takes 160 bytes in each direction, a client whose key the server authorizes
-- and that knows the server's key completes the handshake with it, for any two nonces of 32 bytes:
-- each end, fed exactly what the other sends, returns a session, the epoch nonces are equal, and
-- every frame that one of the sessions seals is opened by the other.
pub run_initiator-run_responder :
    ⦃ed : Ed25519⦄ (client_sk server_sk : D3SigningKey) (is_authorized : List ℕ → Bool)
    (nonce_i nonce_r : List ℕ) (accepts : ℕ)
    → Signs ed
    → IsArray nonce_len nonce_i
    → IsArray nonce_len nonce_r
    → msg1_len + msg3_len ≤ accepts
    → is_authorized (as_bytes (verifying_key client_sk)) ≡ true
    → Connected client_sk server_sk is_authorized nonce_i nonce_r accepts
run_initiator-run_responder client_sk server_sk is_authorized nonce_i nonce_r accepts law size_i
      size_r room allowed =
    let client = client_session client_sk server_sk nonce_i nonce_r in
    let server = server_session client_sk server_sk nonce_i nonce_r in
    record {
      up = (server_stream client_sk server_sk nonce_i nonce_r accepts).incoming;
      down = (client_stream client_sk server_sk nonce_i nonce_r accepts).incoming;
      client = client;
      server = server;
      client_end = _;
      server_end = _;
      initiated =
          run_initiator_honest client_sk server_sk nonce_i nonce_r law size_i size_r accepts room;
      responded =
          run_responder_honest client_sk server_sk nonce_i nonce_r law size_i size_r accepts
            is_authorized (omega arith) allowed;
      client_sent = rw append-nil;
      server_sent = rw append-nil;
      same_epoch = refl;
      up_frames = λ domain symbols. open_frame-seal client server domain symbols law refl refl;
      down_frames = λ domain symbols. open_frame-seal server client domain symbols law refl refl;
    }

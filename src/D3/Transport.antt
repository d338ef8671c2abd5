-- ===== src/D3/Transport.antt =====
-- crates/luxstream-otap-d3/src/transport.rs: the handshake over a byte stream.
use otap_signup_validator.Common.{
  ℕ, ◌+◌, ◌-◌, List, [], ◌∷◌, ◌++◌, length, take, drop, Bool, Result, ok, err, ◌>>=◌, leb,
  if◌then◌else◌,
}
use otap_signup_validator.D3.Keys.{Ed25519, D3SigningKey, D3VerifyingKey}
use otap_signup_validator.D3.Session.{D3Session}
use otap_signup_validator.D3.Handshake.{
  HsError, transport, HsMsg1, HsMsg2, HsMsg3, msg1_len, msg2_len, msg3_len, Initiator, Responder,
  EstablishedInitiator, EstablishedResponder, encode_msg1, decode_msg1, encode_msg2, decode_msg2,
  encode_msg3, decode_msg3, start, finish, handle_msg1, handle_msg3,
}
pub mod Streams
pub mod Honest
pub mod Exchange

-- One end of a TCP connection: the bytes that are still to arrive before it ends or fails, the bytes
-- sent so far, and the number of bytes that it takes before a write fails.
pub record Stream : Type 0 where
  pub incoming : List ℕ
  pub outgoing : List ℕ
  pub accepts : ℕ

-- `write_all`
unfoldable pub write_all : Stream → List ℕ → Result Stream HsError
write_all s bytes =
    if leb (length bytes) s.accepts
    then ok (record s { outgoing = s.outgoing ++ bytes; accepts = s.accepts - length bytes })
    else err transport

-- `read_exact` into a buffer of `n` bytes
unfoldable pub read_exact : Stream → ℕ → Result (List ℕ × Stream) HsError
read_exact s n =
    if leb n (length s.incoming)
    then ok (take n s.incoming, record s { incoming = drop n s.incoming })
    else err transport

-- `D3Session::from_client_handshake`
unfoldable pub from_client_handshake : EstablishedInitiator → D3SigningKey → D3Session
from_client_handshake established our_sk = record {
  epoch_nonce = established.epoch_nonce;
  signing_key = our_sk;
  peer_key = established.peer_pk;
}

-- `D3Session::from_server_handshake`
unfoldable pub from_server_handshake : EstablishedResponder → D3SigningKey → D3Session
from_server_handshake established our_sk = record {
  epoch_nonce = established.epoch_nonce;
  signing_key = our_sk;
  peer_key = established.peer_pk;
}

module _ ⦃ed : Ed25519⦄ where
  -- `run_initiator`, with the stream that is left, and the bytes of the generator for the nonce
  unfoldable pub run_initiator :
      Stream → D3SigningKey → D3VerifyingKey → List ℕ → Result (D3Session × Stream) HsError
  run_initiator stream client_sk server_pk nonce_i = do
    let (wait_msg2, msg1) = start (record { sk = client_sk; peer_pk = server_pk }) nonce_i
    sent₁ ← write_all stream (encode_msg1 msg1)
    (buf₂, received) ← read_exact sent₁ msg2_len
    msg2 ← decode_msg2 buf₂
    (established, msg3) ← finish wait_msg2 msg2
    sent₃ ← write_all received (encode_msg3 msg3)
    ok (from_client_handshake established client_sk, sent₃)

  -- `run_responder`, likewise
  unfoldable pub run_responder :
      Stream → D3SigningKey → (List ℕ → Bool) → List ℕ → Result (D3Session × Stream) HsError
  run_responder stream server_sk is_authorized nonce_r = do
    (buf₁, received₁) ← read_exact stream msg1_len
    msg1 ← decode_msg1 buf₁
    (wait_msg3, msg2) ←
        handle_msg1 (record { sk = server_sk; is_authorized = is_authorized }) msg1 nonce_r
    sent₂ ← write_all received₁ (encode_msg2 msg2)
    (buf₃, received₃) ← read_exact sent₂ msg3_len
    msg3 ← decode_msg3 buf₃
    established ← handle_msg3 wait_msg3 msg3
    ok (from_server_handshake established server_sk, received₃)

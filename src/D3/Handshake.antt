-- ===== src/D3/Handshake.antt =====
-- crates/luxstream-otap-d3/src/handshake.rs: messages and states of the three-way handshake.
use otap_signup_validator.Common.{
  ℕ, true, ◌+◌, List, [], ◌∷◌, ◌++◌, slice, copy_from_slice, replicate, from_be_bytes, Bool, not,
  Result, ok, err, ◌>>=◌, map_err, if◌then◌else◌,
}
use otap_signup_validator.Crypto.Trajectory.{ascii}
use otap_signup_validator.D3.Keys.{
  Ed25519, pubkey_len, nonce_len, sig_len, D3SigningKey, D3VerifyingKey, verifying_key, as_bytes,
  sign_raw, verifying_key_from_bytes, verify_raw,
}
pub mod Wire
pub mod Agreement

-- `HsError`
pub data HsError : Type 0 where
  malformed : ℕ → ℕ → HsError
  bad_server_sig : HsError
  bad_client_sig : HsError
  not_authorized : HsError
  transport : HsError

-- `HsMsg1`, `HsMsg2` and `HsMsg3`
pub record HsMsg1 : Type 0 where
  pub client_pk : List ℕ
  pub nonce_i : List ℕ

pub record HsMsg2 : Type 0 where
  pub server_pk : List ℕ
  pub nonce_r : List ℕ
  pub sig_r : List ℕ

pub record HsMsg3 : Type 0 where
  pub client_pk : List ℕ
  pub sig_i : List ℕ

-- `MSG1_LEN`, `MSG2_LEN` and `MSG3_LEN`
abbrev pub msg1_len : ℕ
msg1_len = pubkey_len + nonce_len

abbrev pub msg2_len : ℕ
msg2_len = pubkey_len + nonce_len + sig_len

abbrev pub msg3_len : ℕ
msg3_len = pubkey_len + sig_len

-- `HsMsg1::encode` and `decode`
unfoldable pub encode_msg1 : HsMsg1 → List ℕ
encode_msg1 m =
    let buf₀ = replicate msg1_len 0 in
    let buf₁ = copy_from_slice 0 m.client_pk buf₀ in copy_from_slice pubkey_len m.nonce_i buf₁

unfoldable pub decode_msg1 : List ℕ → Result HsMsg1 HsError
decode_msg1 buf =
    ok (record { client_pk = slice 0 pubkey_len buf; nonce_i = slice pubkey_len msg1_len buf })

-- `HsMsg2::encode` and `decode`
unfoldable pub encode_msg2 : HsMsg2 → List ℕ
encode_msg2 m =
    let buf₀ = replicate msg2_len 0 in
    let buf₁ = copy_from_slice 0 m.server_pk buf₀ in
    let buf₂ = copy_from_slice pubkey_len m.nonce_r buf₁ in
    copy_from_slice (pubkey_len + nonce_len) m.sig_r buf₂

unfoldable pub decode_msg2 : List ℕ → Result HsMsg2 HsError
decode_msg2 buf = ok (record {
  server_pk = slice 0 pubkey_len buf;
  nonce_r = slice pubkey_len (pubkey_len + nonce_len) buf;
  sig_r = slice (pubkey_len + nonce_len) msg2_len buf;
})

-- `HsMsg3::encode` and `decode`
unfoldable pub encode_msg3 : HsMsg3 → List ℕ
encode_msg3 m =
    let buf₀ = replicate msg3_len 0 in
    let buf₁ = copy_from_slice 0 m.client_pk buf₀ in copy_from_slice pubkey_len m.sig_i buf₁

unfoldable pub decode_msg3 : List ℕ → Result HsMsg3 HsError
decode_msg3 buf =
    ok (record { client_pk = slice 0 pubkey_len buf; sig_i = slice pubkey_len msg3_len buf })

-- `Initiator`, `InitiatorWaitMsg2` and `EstablishedInitiator`
pub record Initiator : Type 0 where
  pub sk : D3SigningKey
  pub peer_pk : D3VerifyingKey

pub record InitiatorWaitMsg2 : Type 0 where
  pub sk : D3SigningKey
  pub peer_pk : D3VerifyingKey
  pub nonce_i : List ℕ

pub record EstablishedInitiator : Type 0 where
  pub epoch_nonce : ℕ
  pub peer_pk : D3VerifyingKey

-- `Responder`, with the access list as the test of `ClientAcl`, `ResponderWaitMsg3` and
-- `EstablishedResponder`
pub record Responder : Type 0 where
  pub sk : D3SigningKey
  pub is_authorized : List ℕ → Bool

-- `AllowAll`
abbrev pub allow_all : List ℕ → Bool
allow_all client_pk = true

-- `Initiator::new` and `Responder::new`
abbrev pub new_initiator : D3SigningKey → D3VerifyingKey → Initiator
new_initiator sk peer_pk = record { sk = sk; peer_pk = peer_pk }

abbrev pub new_responder : D3SigningKey → (List ℕ → Bool) → Responder
new_responder sk acl = record { sk = sk; is_authorized = acl }

pub record ResponderWaitMsg3 : Type 0 where
  pub sk : D3SigningKey
  pub client_pk : D3VerifyingKey
  pub nonce_i : List ℕ
  pub nonce_r : List ℕ

pub record EstablishedResponder : Type 0 where
  pub epoch_nonce : ℕ
  pub peer_pk : D3VerifyingKey

module _ ⦃ed : Ed25519⦄ where
  -- `hash_nonces`
  unfoldable pub hash_nonces : List ℕ → List ℕ → List ℕ → List ℕ
  hash_nonces prefix n₁ n₂ = ed.sha256 (prefix ++ (n₁ ++ n₂))

  -- `derive_epoch_nonce`
  unfoldable pub derive_epoch_nonce : List ℕ → List ℕ → ℕ
  derive_epoch_nonce n_i n_r =
      from_be_bytes (slice 0 8 (hash_nonces (ascii "OTAP-EPOCH-v1") n_i n_r))

  -- `Initiator::start`, with the bytes that the generator gives for the nonce
  unfoldable pub start : Initiator → List ℕ → InitiatorWaitMsg2 × HsMsg1
  start initiator nonce_i = (
    record { sk = initiator.sk; peer_pk = initiator.peer_pk; nonce_i = nonce_i },
    record { client_pk = as_bytes (verifying_key initiator.sk); nonce_i = nonce_i },
  )

  -- `InitiatorWaitMsg2::finish`
  unfoldable pub finish :
      InitiatorWaitMsg2 → HsMsg2 → Result (EstablishedInitiator × HsMsg3) HsError
  finish wait msg2 = do
    let digest = hash_nonces (ascii "HELLO-R") wait.nonce_i msg2.nonce_r
    _ ← map_err (λ _. bad_server_sig) (verify_raw wait.peer_pk digest msg2.sig_r)
    let our_digest = hash_nonces (ascii "HELLO-I") msg2.nonce_r wait.nonce_i
    let sig_i = sign_raw wait.sk our_digest
    ok (
      record { epoch_nonce = derive_epoch_nonce wait.nonce_i msg2.nonce_r; peer_pk = wait.peer_pk },
      record { client_pk = as_bytes (verifying_key wait.sk); sig_i = sig_i },
    )

  -- `Responder::handle_msg1`, with the bytes that the generator gives for the nonce
  unfoldable pub handle_msg1 :
      Responder → HsMsg1 → List ℕ → Result (ResponderWaitMsg3 × HsMsg2) HsError
  handle_msg1 responder msg1 nonce_r =
      if not (responder.is_authorized msg1.client_pk) then err not_authorized else do
        client_pk ← map_err (λ _. bad_client_sig) (verifying_key_from_bytes msg1.client_pk)
        let digest = hash_nonces (ascii "HELLO-R") msg1.nonce_i nonce_r
        ok (
          record {
            sk = responder.sk;
            client_pk = client_pk;
            nonce_i = msg1.nonce_i;
            nonce_r = nonce_r;
          },
          record {
            server_pk = as_bytes (verifying_key responder.sk);
            nonce_r = nonce_r;
            sig_r = sign_raw responder.sk digest;
          },
        )

  -- `ResponderWaitMsg3::handle_msg3`
  unfoldable pub handle_msg3 : ResponderWaitMsg3 → HsMsg3 → Result EstablishedResponder HsError
  handle_msg3 wait msg3 = do
    let digest = hash_nonces (ascii "HELLO-I") wait.nonce_r wait.nonce_i
    _ ← map_err (λ _. bad_client_sig) (verify_raw wait.client_pk digest msg3.sig_i)
    ok (record {
      epoch_nonce = derive_epoch_nonce wait.nonce_i wait.nonce_r;
      peer_pk = wait.client_pk;
    })

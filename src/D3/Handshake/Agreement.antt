-- ===== src/D3/Handshake/Agreement.antt =====
-- What a completed handshake tells each side.
use otap_signup_validator.Common.{ℕ, ◌≡◌, arith, List, ◌++◌, length, true, ok}
use otap_signup_validator.Crypto.Trajectory.{ascii}
use otap_signup_validator.D3.Keys.{
  Ed25519, D3SigningKey, verifying_key, nonce_len, sign_raw, verify_raw, verifying_key_from_bytes,
}
use otap_signup_validator.D3.Handshake.{
  HsMsg1, HsMsg2, HsMsg3, InitiatorWaitMsg2, EstablishedInitiator, Responder, ResponderWaitMsg3,
  EstablishedResponder, hash_nonces, derive_epoch_nonce, finish, handle_msg1, handle_msg3,
}
use otap_signup_validator.D3.Rpc.{Symbol, RpcDomain}
use otap_signup_validator.D3.Session.{preimage_bytes}

module _ ⦃ed : Ed25519⦄ where
  -- The digest that each side signs.
  abbrev pub hello_r : List ℕ → List ℕ → List ℕ
  hello_r nonce_i nonce_r = hash_nonces (ascii "HELLO-R") nonce_i nonce_r

  abbrev pub hello_i : List ℕ → List ℕ → List ℕ
  hello_i nonce_i nonce_r = hash_nonces (ascii "HELLO-I") nonce_r nonce_i

  pub finish-eq-ok :
      (wait : InitiatorWaitMsg2) (msg2 : HsMsg2) {e : EstablishedInitiator} {msg3 : HsMsg3}
      → finish wait msg2 ≡ ok (e, msg3)
      → (ed.verify wait.peer_pk.public (hello_r wait.nonce_i msg2.nonce_r) msg2.sig_r ≡ true)
        × (e.epoch_nonce ≡ derive_epoch_nonce wait.nonce_i msg2.nonce_r)
        × (e.peer_pk ≡ wait.peer_pk)
        × (msg3.sig_i ≡ sign_raw wait.sk (hello_i wait.nonce_i msg2.nonce_r))
  unfolding finish verify_raw
  finish-eq-ok wait msg2 h = ground arith

  pub handle_msg3-eq-ok :
      (wait : ResponderWaitMsg3) (msg3 : HsMsg3) {e : EstablishedResponder}
      → handle_msg3 wait msg3 ≡ ok e
      → (ed.verify wait.client_pk.public (hello_i wait.nonce_i wait.nonce_r) msg3.sig_i ≡ true)
        × (e.epoch_nonce ≡ derive_epoch_nonce wait.nonce_i wait.nonce_r)
        × (e.peer_pk ≡ wait.client_pk)
  unfolding handle_msg3 verify_raw
  handle_msg3-eq-ok wait msg3 h = ground arith

  pub handle_msg1-eq-ok :
      (responder : Responder) (msg1 : HsMsg1) (nonce_r : List ℕ) {wait : ResponderWaitMsg3}
      {msg2 : HsMsg2}
      → handle_msg1 responder msg1 nonce_r ≡ ok (wait, msg2)
      → (responder.is_authorized msg1.client_pk ≡ true)
        × (wait.client_pk.public ≡ msg1.client_pk)
        × (wait.nonce_i ≡ msg1.nonce_i)
        × (wait.nonce_r ≡ nonce_r)
        × (msg2.nonce_r ≡ nonce_r)
        × (msg2.sig_r ≡ sign_raw responder.sk (hello_r msg1.nonce_i nonce_r))
  unfolding handle_msg1 verifying_key_from_bytes
  handle_msg1-eq-ok responder msg1 nonce_r h = ground arith

  -- A run of the client that has sent its third message.
  pub record ClientRun : Type 0 where
    pub wait : InitiatorWaitMsg2
    pub msg2 : HsMsg2
    pub established : EstablishedInitiator
    pub msg3 : HsMsg3
    pub done : finish wait msg2 ≡ ok (established, msg3)

  abbrev pub input_i : List ℕ → List ℕ → List ℕ
  input_i nonce_i nonce_r = ascii "HELLO-I" ++ (nonce_r ++ nonce_i)

  -- What the owner of a signing key has hashed before signing, in each of the uses that the crate makes
  -- of such a key: as the client of a run, as a responder, and in sealing a frame.
  pub data Hashed (sk : D3SigningKey) (Happened : ClientRun → Type 0) : List ℕ → Type 0 where
    as_client :
        (run : ClientRun)
        → Happened run
        → run.wait.sk ≡ sk
        → Hashed sk Happened (input_i run.wait.nonce_i run.msg2.nonce_r)
    as_responder :
        (nonce_i nonce_r : List ℕ) → Hashed sk Happened (ascii "HELLO-R" ++ (nonce_i ++ nonce_r))
    as_sealer :
        (domain : RpcDomain) (epoch_nonce : ℕ) (symbols : List Symbol) (rpc_tag : ℕ)
        → Hashed sk Happened (preimage_bytes domain epoch_nonce symbols rpc_tag)

  -- What is assumed in the face of a network that may send anything, of the one signature that it
  -- delivers and the owner of the key: if the signature verifies, the owner has signed this digest,
  -- in whatever use of the key; the nonces of the owner's runs have 32 bytes; and SHA-256 does not
  -- collide on what the owner has hashed and what the responder hashes.
  pub record Unforged (sk : D3SigningKey) (nonce_i nonce_r sig_i : List ℕ)
      (Happened : ClientRun → Type 0) : Type 0 where
    pub signed :
        ed.verify (verifying_key sk).public (hello_i nonce_i nonce_r) sig_i ≡ true
        → (input : List ℕ) × Hashed sk Happened input × (hello_i nonce_i nonce_r ≡ ed.sha256 input)
    pub sizes : (run : ClientRun) → Happened run → length run.msg2.nonce_r ≡ nonce_len
    pub no_collision :
        (input : List ℕ)
        → Hashed sk Happened input
        → ed.sha256 (input_i nonce_i nonce_r) ≡ ed.sha256 input
        → input_i nonce_i nonce_r ≡ input

-- ===== src/D3/Session/Seal.antt =====
-- Opening what was sealed.
use otap_signup_validator.Common.{◌≡◌, List, ok, ==-self}
use otap_signup_validator.D3.Rpc.{Symbol, RpcDomain}
use otap_signup_validator.D3.Keys.{Ed25519, Signs, verifying_key, sign_raw, verify_raw}
use otap_signup_validator.D3.Session.{D3Session, seal, open_frame}

module _ ⦃ed : Ed25519⦄ where
  -- Where a public key verifies what its secret key has signed, a frame that one session seals is
  -- opened to its symbols, in the same domain, by a session with the same nonce whose peer key is
  -- that of the sealing one.
  pub open_frame-seal :
      (sender receiver : D3Session) (domain : RpcDomain) (symbols : List Symbol)
      → Signs ed
      → receiver.epoch_nonce ≡ sender.epoch_nonce
      → receiver.peer_key ≡ verifying_key sender.signing_key
      → open_frame receiver domain (seal sender domain symbols) ≡ ok symbols
  unfolding open_frame seal verify_raw sign_raw verifying_key
  open_frame-seal sender receiver domain symbols law nonce key =
      rw (nonce, key, law.verifies, ==-self)

-- ===== src/D3/Keys.antt =====
-- crates/luxstream-otap-d3/src/key_domain.rs: the keys of the data plane.
use otap_signup_validator.Common.{
  ℕ, ◌≡◌, List, Bool, true, Option, ok_or, ◌>>=◌, Result, ok, err, if◌then◌else◌, IsArray,
}

-- SHA-256 of the crate `sha2` and Ed25519 of the crate `ed25519_dalek`: not part of the repository,
-- so parameters. Keys and signatures are the bytes that stand for them, and `valid_key` says which
-- bytes are a public key.
pub record Ed25519 : Type 0 where
  pub sha256 : List ℕ → List ℕ
  pub public_key : List ℕ → List ℕ
  pub valid_key : List ℕ → Bool
  pub sign : List ℕ → List ℕ → List ℕ
  pub verify : List ℕ → List ℕ → List ℕ → Bool

-- `PUBKEY_LEN`, `NONCE_LEN` and `SIG_LEN`
abbrev pub pubkey_len : ℕ
pubkey_len = 32

abbrev pub nonce_len : ℕ
nonce_len = 32

abbrev pub sig_len : ℕ
sig_len = 64

-- The documented behaviour of Ed25519 and SHA-256: a public key verifies what its secret key has
-- signed, it is a valid key of 32 bytes, signatures have 64 bytes and digests 32.
pub record Signs (ed : Ed25519) : Type 0 where
  pub verifies :
      (secret msg : List ℕ) → ed.verify (ed.public_key secret) msg (ed.sign secret msg) ≡ true
  pub valid : (secret : List ℕ) → ed.valid_key (ed.public_key secret) ≡ true
  pub key_size : (secret : List ℕ) → IsArray pubkey_len (ed.public_key secret)
  pub signature_size : (secret msg : List ℕ) → IsArray sig_len (ed.sign secret msg)

-- `D3SigningKey` and `D3VerifyingKey`
pub record D3SigningKey : Type 0 where
  pub secret : List ℕ

pub record D3VerifyingKey : Type 0 where
  pub public : List ℕ

-- The messages of the key types.
pub data KeyError : Type 0 where
  invalid_public_key : KeyError
  verification_failed : KeyError

-- ECDSA on P-256 of the crate `p256`: not part of the repository either.
pub record P256 : Type 1 where
  pub SecretKey : Type 0
  pub PublicKey : Type 0
  pub Signature : Type 0
  pub secret_from_slice : List ℕ → Option SecretKey
  pub public_of : SecretKey → PublicKey
  pub sign_message : SecretKey → List ℕ → Signature
  pub verify_message : PublicKey → List ℕ → Signature → Bool

-- `FlrSigningKey` and `FlrVerifyingKey`: other types than those of the data plane.
pub record FlrSigningKey (p : P256) : Type 0 where
  pub secret : p.SecretKey

pub record FlrVerifyingKey (p : P256) : Type 0 where
  pub public : p.PublicKey

pub data FlrKeyError : Type 0 where
  invalid_secret_key : FlrKeyError
  schema_verification_failed : FlrKeyError

module _ (p : P256) where
  -- `FlrSigningKey::from_bytes`
  unfoldable pub flr_signing_key : List ℕ → Result (FlrSigningKey p) FlrKeyError
  flr_signing_key bytes = ok_or (p.secret_from_slice bytes) invalid_secret_key >>= λ secret.
      ok (record { secret = secret })

  -- `FlrSigningKey::verifying_key`
  unfoldable pub flr_verifying_key : FlrSigningKey p → FlrVerifyingKey p
  flr_verifying_key key = record { public = p.public_of key.secret }

  -- `FlrSigningKey::sign_schema`
  unfoldable pub sign_schema : FlrSigningKey p → List ℕ → p.Signature
  sign_schema key schema_hash = p.sign_message key.secret schema_hash

  -- `FlrVerifyingKey::verify_schema`
  unfoldable pub verify_schema :
      FlrVerifyingKey p → List ℕ → p.Signature → Result (Unit {0}) FlrKeyError
  verify_schema key schema_hash sig =
      if p.verify_message key.public schema_hash sig then ok tt else err schema_verification_failed

-- `D3SigningKey::from_bytes`
unfoldable pub signing_key_from_bytes : List ℕ → D3SigningKey
signing_key_from_bytes bytes = record { secret = bytes }

-- `D3VerifyingKey::as_bytes`
unfoldable pub as_bytes : D3VerifyingKey → List ℕ
as_bytes key = key.public

module _ ⦃ed : Ed25519⦄ where
  -- `D3SigningKey::verifying_key`
  unfoldable pub verifying_key : D3SigningKey → D3VerifyingKey
  verifying_key key = record { public = ed.public_key key.secret }

  -- `D3SigningKey::sign_raw`
  unfoldable pub sign_raw : D3SigningKey → List ℕ → List ℕ
  sign_raw key msg = ed.sign key.secret msg

  -- `D3VerifyingKey::from_bytes`
  unfoldable pub verifying_key_from_bytes : List ℕ → Result D3VerifyingKey KeyError
  verifying_key_from_bytes bytes =
      if ed.valid_key bytes then ok (record { public = bytes }) else err invalid_public_key

  -- `D3VerifyingKey::verify_raw`
  unfoldable pub verify_raw : D3VerifyingKey → List ℕ → List ℕ → Result (Unit {0}) KeyError
  verify_raw key msg sig = if ed.verify key.public msg sig then ok tt else err verification_failed

-- ===== src/D3/Session.antt =====
-- crates/luxstream-otap-d3/src/session.rs: sealing and opening authenticated frames.
use Prim.Native.String.{String}
use otap_signup_validator.Common.{
  ℕ, ◌+◌, ◌*◌, ◌%◌, ◌/◌, ◌^◌, ◌<◌, ◌≡◌, List, [], ◌∷◌, ◌++◌, length, to_be_bytes, Bool, not, Result,
  ok, err, ◌>>=◌, map_err, ◌==◌, if◌then◌else◌,
}
use otap_signup_validator.Crypto.Trajectory.{ascii}
use otap_signup_validator.D3.Keys.{Ed25519, D3SigningKey, D3VerifyingKey, sign_raw, verify_raw}
use otap_signup_validator.D3.Rpc.{Symbol, pol_weight, RpcDomain, domain_tag, calculate_rpc}
pub mod Seal
pub mod Preimage

-- The bytes of one symbol in the preimage.
abbrev pub symbol_bytes : Symbol → List ℕ
symbol_bytes s = to_be_bytes 2 s.value ++ (s.lambda ∷ pol_weight s.pol ∷ [])

abbrev pub symbols_bytes : List Symbol → List ℕ
symbols_bytes [] = []
symbols_bytes (s ∷ rest) = symbol_bytes s ++ symbols_bytes rest

-- The bytes that `canonical_preimage` passes to SHA-256, in order.
unfoldable pub preimage_bytes : RpcDomain → ℕ → List Symbol → ℕ → List ℕ
preimage_bytes domain epoch_nonce symbols rpc_tag =
    ascii "LUXSTREAM-OTAP-D3-v1"
    ++ (to_be_bytes 4 (domain_tag domain)
        ++ (to_be_bytes 8 epoch_nonce
            ++ (to_be_bytes 4 (length symbols % 2 ^ 32)
                ++ (symbols_bytes symbols ++ to_be_bytes 4 rpc_tag))))

-- `AuthenticatedFrame`
pub record AuthenticatedFrame : Type 0 where
  pub symbols : List Symbol
  pub rpc_tag : ℕ
  pub d3_sig : List ℕ

-- `D3Session`
pub record D3Session : Type 0 where
  pub epoch_nonce : ℕ
  pub signing_key : D3SigningKey
  pub peer_key : D3VerifyingKey

-- The messages of `open`.
pub data OpenError : Type 0 where
  signature_failed : OpenError
  rpc_failed : OpenError

module _ ⦃ed : Ed25519⦄ where
  -- `canonical_preimage`
  unfoldable pub canonical_preimage : RpcDomain → ℕ → List Symbol → ℕ → List ℕ
  unfolding preimage_bytes
  canonical_preimage domain epoch_nonce symbols rpc_tag =
      ed.sha256 (preimage_bytes domain epoch_nonce symbols rpc_tag)

  -- `D3Session::seal`
  unfoldable pub seal : D3Session → RpcDomain → List Symbol → AuthenticatedFrame
  unfolding canonical_preimage sign_raw
  seal session domain symbols =
      let rpc_tag = calculate_rpc symbols (domain_tag domain) session.epoch_nonce in
      let preimage = canonical_preimage domain session.epoch_nonce symbols rpc_tag in
      record {
        symbols = symbols;
        rpc_tag = rpc_tag;
        d3_sig = sign_raw session.signing_key preimage;
      }

  -- `D3Session::open`
  unfoldable pub open_frame :
      D3Session → RpcDomain → AuthenticatedFrame → Result (List Symbol) OpenError
  unfolding canonical_preimage verify_raw
  open_frame session domain frame = do
    _ ←
        map_err (λ _. signature_failed)
          (verify_raw session.peer_key
            (canonical_preimage domain session.epoch_nonce frame.symbols frame.rpc_tag)
            frame.d3_sig)
    if not (calculate_rpc frame.symbols (domain_tag domain) session.epoch_nonce == frame.rpc_tag)
        then err rpc_failed
        else ok frame.symbols

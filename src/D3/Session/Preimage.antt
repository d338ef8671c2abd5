-- ===== src/D3/Session/Preimage.antt =====
-- The bytes under the D3 signature determine the frame and where it belongs.
use otap_signup_validator.Common.{
  ℕ, ◌%◌, ◌^◌, ◌<◌, ◌≡◌, ◌∙◌, sym, ap, refl, arith, List, [], ◌∷◌, ◌++◌, append_assoc, length, All,
  to_be_bytes, append-injective, strip,
}
use otap_signup_validator.Crypto.Trajectory.{ascii}
use otap_signup_validator.D3.Rpc.{Symbol, IsSymbol, Polarization, pol_weight, RpcDomain, domain_tag}
use otap_signup_validator.D3.Session.{symbol_bytes, symbols_bytes, preimage_bytes}

pol_weight-injective : (p q : Polarization) → pol_weight p ≡ pol_weight q → p ≡ q
pol_weight-injective p q e = ground arith

domain_tag-injective : (c d : RpcDomain) → domain_tag c ≡ domain_tag d → c ≡ d
domain_tag-injective c d e = ground arith

domain_tag-lt : (c : RpcDomain) → domain_tag c < 256 ^ 4
domain_tag-lt c = ground arith

symbol-injective :
    (s t : Symbol) (xs ys : List ℕ)
    → IsSymbol s
    → IsSymbol t
    → symbol_bytes s ++ xs ≡ symbol_bytes t ++ ys
    → (s ≡ t) × (xs ≡ ys)
symbol-injective s t xs ys hs ht e =
    let (value, rest) =
      strip 2 s.value t.value (s.lambda ∷ pol_weight s.pol ∷ xs) (t.lambda ∷ pol_weight t.pol ∷ ys)
        (omega (arith, hs.value)) (omega (arith, ht.value)) e in
    let lambda : s.lambda ≡ t.lambda = cc in
    let weights : pol_weight s.pol ≡ pol_weight t.pol = cc in
    let pol = pol_weight-injective s.pol t.pol weights in
    (λ i. record { value = value i; lambda = lambda i; pol = pol i }, cc)

symbols-injective :
    (ss ts : List Symbol) (xs ys : List ℕ)
    → All IsSymbol ss
    → All IsSymbol ts
    → length ss ≡ length ts
    → symbols_bytes ss ++ xs ≡ symbols_bytes ts ++ ys
    → (ss ≡ ts) × (xs ≡ ys)
symbols-injective [] [] xs ys hs ht same e = (refl, e)
symbols-injective [] (t ∷ ts) xs ys hs ht same e = absurd (omega arith)
symbols-injective (s ∷ ss) [] xs ys hs ht same e = absurd (omega arith)
symbols-injective (s ∷ ss) (t ∷ ts) xs ys (h, hs) (k, ht) same e =
    let (first, rest) = symbol-injective s t (symbols_bytes ss ++ xs) (symbols_bytes ts ++ ys) h k (
      sym (append_assoc (symbol_bytes s) (symbols_bytes ss) xs)
      ∙ e
      ∙ append_assoc (symbol_bytes t) (symbols_bytes ts) ys) in
    let (others, last) = symbols-injective ss ts xs ys hs ht (omega arith) rest in (cc, last)

-- Two frames in range with the same bytes under the signature agree in the domain, the epoch nonce,
-- the symbols and the tag.
pub preimage_bytes-injective :
    (c d : RpcDomain) (nonce nonce' : ℕ) (ss ts : List Symbol) (tag tag' : ℕ)
    → nonce < 2 ^ 64
    → nonce' < 2 ^ 64
    → All IsSymbol ss
    → All IsSymbol ts
    → length ss < 2 ^ 32
    → length ts < 2 ^ 32
    → tag < 2 ^ 32
    → tag' < 2 ^ 32
    → preimage_bytes c nonce ss tag ≡ preimage_bytes d nonce' ts tag'
    → (c ≡ d) × (nonce ≡ nonce') × (ss ≡ ts) × (tag ≡ tag')
unfolding preimage_bytes
preimage_bytes-injective c d nonce nonce' ss ts tag tag' hn hn' hs ht ns nt htag htag' e =
    let (_, e₁) =
      append-injective (ascii "LUXSTREAM-OTAP-D3-v1") _ (ascii "LUXSTREAM-OTAP-D3-v1") _ refl e in
    let (domain, e₂) =
      strip 4 (domain_tag c) (domain_tag d) _ _ (domain_tag-lt c) (domain_tag-lt d) e₁ in
    let (same_nonce, e₃) = strip 8 nonce nonce' _ _ hn hn' e₂ in
    let (sizes, e₄) =
      strip 4 (length ss % 2 ^ 32) (length ts % 2 ^ 32) _ _ (omega arith) (omega arith) e₃ in
    let (symbols, e₅) =
      symbols-injective ss ts (to_be_bytes 4 tag) (to_be_bytes 4 tag') hs ht (omega arith) e₄ in
    let (tags, _) = strip 4 tag tag' [] [] htag htag' (ap (λ b. b ++ []) e₅) in
    (domain_tag-injective c d domain, same_nonce, symbols, tags)

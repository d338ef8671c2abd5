-- ===== src/Tests/Signature.antt =====
-- A concrete signature scheme for the tests: a signature is a sum of the key and the message.
use otap_signup_validator.Common.{
  ℕ, ◌+◌, ◌≡◌, ◌↔◌, refl, List, [], ◌∷◌, Bool, true, false, ◌&&◌, ◌==◌, ==_iff, Bool-cases, inl,
  inr, to_be_bytes, from_be_bytes, to_be_bytes-IsArray, length,
}
use otap_signup_validator.D3.Keys.{Ed25519, Signs}

abbrev pub same_bytes : List ℕ → List ℕ → Bool
same_bytes [] [] = true
same_bytes [] (b ∷ ys) = false
same_bytes (a ∷ xs) [] = false
same_bytes (a ∷ xs) (b ∷ ys) = a == b && same_bytes xs ys

pub same_bytes_iff : (a b : List ℕ) → (same_bytes a b ≡ true) ↔ (a ≡ b)
same_bytes_iff [] [] = (λ _. refl, λ _. refl)
same_bytes_iff [] (b ∷ ys) = (λ e. absurd cc, λ e. absurd cc)
same_bytes_iff (a ∷ xs) [] = (λ e. absurd cc, λ e. absurd cc)
same_bytes_iff (a ∷ xs) (b ∷ ys) = elim (Bool-cases (a == b)) [
  | inl e ↦
      let same : a ≡ b = (==_iff a b).0 e in
      rw e (
        (λ t. let rest : xs ≡ ys = (same_bytes_iff xs ys).0 t in cc),
        (λ t. (same_bytes_iff xs ys).1 cc),
      )
  | inr e ↦ rw e (
    (λ t. absurd cc),
    (λ t. let same : a ≡ b = cc in absurd (let yes_same = (==_iff a b).1 same in cc)),
  )
]

abbrev sum_of : List ℕ → List ℕ → List ℕ
sum_of public message = to_be_bytes 64 (from_be_bytes public + from_be_bytes message)

instance abbrev pub toy_signature : Ed25519
toy_signature = record {
  sha256 = λ message. to_be_bytes 32 (from_be_bytes message);
  public_key = λ secret. to_be_bytes 32 (from_be_bytes secret);
  valid_key = λ public. length public == 32;
  sign = λ secret message. sum_of (to_be_bytes 32 (from_be_bytes secret)) message;
  verify = λ public message signature. same_bytes signature (sum_of public message);
}

pub toy_signature-Signs : Signs toy_signature
toy_signature-Signs = record {
  verifies = λ secret message.
      (same_bytes_iff (toy_signature.sign secret message) (toy_signature.sign secret message)).1
        refl;
  valid = λ secret. refl;
  key_size = λ secret. to_be_bytes-IsArray 32 (from_be_bytes secret);
  signature_size = λ secret message. to_be_bytes-IsArray 64 _;
}

-- ===== src/Csr/Secret.antt =====
-- crates/otap-csr/src/lib.rs: the shared secret across eight registers.
use otap_signup_validator.Common.{
  ℕ, zero, suc, ◌+◌, ◌*◌, ◌^◌, ◌<◌, ◌≤◌, ◌≡◌, ◌∙◌, ◌⊎◌, refl, arith, List, [], ◌∷◌, ◌++◌, length,
  take, replicate, get_or, All, All-get_or, IsByte, IsArray, take-suc, length-take, take-all,
  append_assoc, append-nil, copy_from_slice, copy_from_slice-append, copy_from_slice-nil,
  to_be_bytes, ok, some,
}
use otap_signup_validator.Crypto.Secret.{new_secret}
use otap_signup_validator.Csr.Registers.{
  RegisterFile, IsRegisterFile, reg_secret_base, secret_words, reg_secret_valid,
}
use otap_signup_validator.Csr.Writer.{secret_word, write_secret_words, set_secret}
use otap_signup_validator.Csr.View.{secret_valid, read_secret_words, shared_secret}
use otap_signup_validator.Csr.Access.{
  IsRegister, word_at, put, read_u32_at, write_u32_at, put-IsRegisterFile, word_at-put_self,
  word_at-put_ne,
}

abbrev pub secret_register : ℕ → ℕ
secret_register i = reg_secret_base + i * 4

pub secret_register-IsRegister : (i : ℕ) → i < secret_words → IsRegister (secret_register i)
secret_register-IsRegister i h = record { inside = omega arith; aligned = omega arith }

-- The bytes of word `i`.
abbrev four : List ℕ → ℕ → List ℕ
four s i =
    get_or s (i * 4) 0
    ∷ get_or s (i * 4 + 1) 0
    ∷ get_or s (i * 4 + 2) 0
    ∷ get_or s (i * 4 + 3) 0
    ∷ []

byte_of : (s : List ℕ) (i : ℕ) → All IsByte s → get_or s i 0 < 256
byte_of s i h = All-get_or IsByte s i 0 h (omega arith)

module _ (s : List ℕ) (bytes : All IsByte s) where
  secret_word-lt : (i : ℕ) → secret_word s i < 2 ^ 32
  unfolding secret_word
  secret_word-lt i = omega (
    arith,
    byte_of s (i * 4) bytes,
    byte_of s (i * 4 + 1) bytes,
    byte_of s (i * 4 + 2) bytes,
    byte_of s (i * 4 + 3) bytes,
  )

  to_be_bytes-secret_word : (i : ℕ) → to_be_bytes 4 (secret_word s i) ≡ four s i
  unfolding secret_word
  to_be_bytes-secret_word i = ground (
    arith,
    byte_of s (i * 4) bytes,
    byte_of s (i * 4 + 1) bytes,
    byte_of s (i * 4 + 2) bytes,
    byte_of s (i * 4 + 3) bytes,
  )

-- `rf'` holds the words of the secret from index `i` on, and is `rf` outside their registers.
record Wrote (rf : RegisterFile) (s : List ℕ) (i : ℕ) (rf' : RegisterFile) : Type 0 where
  valid : IsRegisterFile rf'
  words : (j : ℕ) → i ≤ j → j < secret_words → word_at rf' (secret_register j) ≡ secret_word s j
  others :
      (p : ℕ)
      → IsRegister p
      → (p < secret_register i) ⊎ (secret_register secret_words ≤ p)
      → word_at rf' p ≡ word_at rf p

write_secret_words-Wrote :
    (left i : ℕ) (s : List ℕ) (rf : RegisterFile)
    → All IsByte s
    → IsRegisterFile rf
    → i + left ≡ secret_words
    → (rf' : RegisterFile) × (write_secret_words left i s rf ≡ ok rf') × Wrote rf s i rf'
unfolding write_secret_words
write_secret_words-Wrote zero i s rf hs valid e = (
  rf,
  refl,
  record { valid = valid; words = λ j p q. absurd (omega arith); others = λ p h q. refl },
)
write_secret_words-Wrote (suc left) i s rf hs valid e =
    let here : IsRegister (secret_register i) = secret_register-IsRegister i (omega arith) in
    let word = secret_word s i in
    let next = put rf (secret_register i) word in
    let next_valid = put-IsRegisterFile rf (secret_register i) word (secret_word-lt s hs i) valid in
    let (rf', returns, rest) =
      write_secret_words-Wrote left (i + 1) s next hs next_valid (omega arith) in
    (
      rf',
      rw (write_u32_at rf (secret_register i) word here) returns,
      record {
        valid = rest.valid;
        words = λ j p q. ground (
          arith,
          rest.words j,
          rest.others (secret_register j) (secret_register-IsRegister j q),
          word_at-put_self rf (secret_register i) word here valid,
        );
        others = λ p h q.
            ground (arith, rest.others p h, word_at-put_ne rf (secret_register i) p word here h);
      },
    )

-- Four more bytes of a prefix.
take-four :
    (s : List ℕ) (i : ℕ) → i * 4 + 4 ≤ length s → take ((i + 1) * 4) s ≡ take (i * 4) s ++ four s i
take-four s i h =
    let n = i * 4 in
    let end : (i + 1) * 4 ≡ suc (suc (suc (suc n))) = omega arith in
    let one : suc n ≡ n + 1 = omega arith in
    let two : suc (suc n) ≡ n + 2 = omega arith in
    let three : suc (suc (suc n)) ≡ n + 3 = omega arith in
    rw end (
      simp
        (
          take-suc (suc (suc (suc n))) s 0 (omega arith),
          take-suc (suc (suc n)) s 0 (omega arith),
          take-suc (suc n) s 0 (omega arith),
          take-suc n s 0 (omega arith),
          append_assoc,
        )
        (rw (three, two, one)))

copy_four :
    (s : List ℕ) (i left : ℕ)
    → i * 4 + 4 ≤ length s
    → length (take (i * 4) s) ≡ i * 4
    → copy_from_slice (i * 4) (four s i) (take (i * 4) s ++ replicate (suc left * 4) 0)
      ≡ take ((i + 1) * 4) s ++ replicate (left * 4) 0
unfolding copy_from_slice
copy_four s i left room prefix =
    let more : suc left * 4 ≡ suc (suc (suc (suc (left * 4)))) = omega arith in
    rw (more, copy_from_slice-append (i * 4) (take (i * 4) s) _ _ prefix, take-four s i room)
      (simp (append_assoc, copy_from_slice-nil))

-- Reading from word `i` on completes the secret.
read_secret_words-take :
    (left i : ℕ) (s : List ℕ) (rf : RegisterFile)
    → IsArray 32 s
    → ((j : ℕ) → i ≤ j → j < secret_words → word_at rf (secret_register j) ≡ secret_word s j)
    → i + left ≡ secret_words
    → read_secret_words left i rf (take (i * 4) s ++ replicate (left * 4) 0) ≡ ok s
unfolding read_secret_words
read_secret_words-take zero i s rf hs words e =
    let whole : i * 4 ≡ length s = omega (arith, hs.size) in rw (append-nil, whole, take-all s)
read_secret_words-take (suc left) i s rf hs words e =
    let room : i * 4 + 4 ≤ length s = omega (arith, hs.size) in
    let prefix : length (take (i * 4) s) ≡ i * 4 = omega (arith, length-take (i * 4) s) in
    let copied : copy_from_slice (i * 4) (four s i) (take (i * 4) s ++ replicate (suc left * 4) 0)
        ≡ take ((i + 1) * 4) s ++ replicate (left * 4) 0 =
      copy_four s i left room prefix in
    rw
      (
        read_u32_at rf (secret_register i) (secret_register-IsRegister i (omega arith)),
        words i (omega arith) (omega arith),
        to_be_bytes-secret_word s hs.bytes i,
        copied,
      )
      (read_secret_words-take left (i + 1) s rf hs (λ j p q. words j (omega arith) q) (omega arith))

-- The registers of the secret hold `s`, and the flag is set.
pub record HoldsSecret (rf : RegisterFile) (s : List ℕ) : Type 0 where
  pub flag : word_at rf reg_secret_valid ≡ 1
  pub words : (j : ℕ) → j < secret_words → word_at rf (secret_register j) ≡ secret_word s j

-- What `set_secret` has done when it returns `rf'`.
pub record SecretSet (rf : RegisterFile) (s : List ℕ) (rf' : RegisterFile) : Type 0 where
  pub returns : set_secret rf s ≡ ok rf'
  pub valid : IsRegisterFile rf'
  pub holds : HoldsSecret rf' s
  pub others :
      (p : ℕ)
      → IsRegister p
      → (p < reg_secret_base) ⊎ (reg_secret_valid < p)
      → word_at rf' p ≡ word_at rf p

pub secret_flag-IsRegister : IsRegister reg_secret_valid
secret_flag-IsRegister = record { inside = omega arith; aligned = refl }

pub set_secret-SecretSet :
    (rf : RegisterFile) (s : List ℕ)
    → IsRegisterFile rf
    → IsArray 32 s
    → (rf' : RegisterFile) × SecretSet rf s rf'
unfolding set_secret
set_secret-SecretSet rf s valid hs =
    let flag = secret_flag-IsRegister in
    let (mid, returns, wrote) = write_secret_words-Wrote 8 0 s rf hs.bytes valid refl in
    (
      put mid reg_secret_valid 1,
      record {
        returns = rw (returns, write_u32_at mid reg_secret_valid 1 flag) refl;
        valid = put-IsRegisterFile mid reg_secret_valid 1 (omega arith) wrote.valid;
        holds = record {
          flag = word_at-put_self mid reg_secret_valid 1 flag wrote.valid;
          words = λ j q.
              word_at-put_ne mid reg_secret_valid (secret_register j) 1 flag
                (secret_register-IsRegister j q) (omega arith)
              ∙ wrote.words j (omega arith) q;
        };
        others = λ p h q.
            ground (arith, wrote.others p h, word_at-put_ne mid reg_secret_valid p 1 flag h);
      },
    )

pub shared_secret_held :
    (rf : RegisterFile) (s : List ℕ)
    → IsArray 32 s
    → HoldsSecret rf s
    → shared_secret rf ≡ ok (some (new_secret s))
unfolding shared_secret secret_valid
shared_secret_held rf s hs held = rw (
  read_u32_at rf reg_secret_valid secret_flag-IsRegister,
  held.flag,
  read_secret_words-take 8 0 s rf hs (λ j _ q. held.words j q) refl,
)

-- `set_secret` with a key of 32 bytes succeeds on any well-formed register file and keeps it well
-- formed, and then `shared_secret` returns that key.
pub shared_secret-set_secret :
    (rf : RegisterFile) (s : List ℕ)
    → IsRegisterFile rf
    → IsArray 32 s
    → (rf' : RegisterFile) × (set_secret rf s ≡ ok rf')
      × IsRegisterFile rf'
      × (shared_secret rf' ≡ ok (some (new_secret s)))
shared_secret-set_secret rf s valid hs =
    let (rf', done) = set_secret-SecretSet rf s valid hs in
    (rf', done.returns, done.valid, shared_secret_held rf' s hs done.holds)

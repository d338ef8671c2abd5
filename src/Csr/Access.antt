-- ===== src/Csr/Access.antt =====
-- `RegisterFile::read_u32` and `write_u32`: the guards, and reading after writing.
use otap_signup_validator.Common.{
  ℕ, ◌/◌, ◌%◌, ◌^◌, ◌<◌, ◌≤◌, ◌≡◌, ◌≢◌, ◌∙◌, arith, get_or, set, length-set, get_or-set_self,
  get_or-set_ne, All-set, All-get_or, All-replicate, length-replicate, bit_and, bit_and_mask, ok,
  err, ◌==◌, if◌then◌else◌,
}
use otap_signup_validator.Csr.Registers.{
  RegisterFile, IsRegisterFile, new_register_file, read_u32, write_u32, csr_space_bytes,
  csr_space_words, out_of_range, misaligned,
}

-- A 32-bit register's byte offset.
pub record IsRegister (offset : ℕ) : Type 0 where
  pub inside : offset < csr_space_bytes
  pub aligned : offset % 4 ≡ 0

abbrev pub word_at : RegisterFile → ℕ → ℕ
word_at rf offset = get_or rf.words (offset / 4) 0

abbrev pub put : RegisterFile → ℕ → ℕ → RegisterFile
put rf offset value = record { words = set rf.words (offset / 4) value }

low_two : (offset : ℕ) → bit_and offset 3 ≡ offset % 4
low_two offset = bit_and_mask 2 offset

pub read_u32_at : (rf : RegisterFile) (o : ℕ) → IsRegister o → read_u32 rf o ≡ ok (word_at rf o)
unfolding read_u32
read_u32_at rf o h = ground (arith, low_two o)

pub write_u32_at : (rf : RegisterFile) (o v : ℕ) → IsRegister o → write_u32 rf o v ≡ ok (put rf o v)
unfolding write_u32
write_u32_at rf o v h = ground (arith, low_two o)

pub write_u32-eq-ok :
    (rf : RegisterFile) (o v : ℕ) {rf' : RegisterFile}
    → write_u32 rf o v ≡ ok rf'
    → IsRegister o × (rf' ≡ put rf o v)
unfolding write_u32
write_u32-eq-ok rf o v h = ground (arith, low_two o)

-- Both accesses refuse an offset past the space first, a misaligned one next, and accept any other.
pub access_guards :
    (rf : RegisterFile) (o v : ℕ)
    → (csr_space_bytes ≤ o
        → (read_u32 rf o ≡ err (out_of_range o csr_space_bytes))
          × (write_u32 rf o v ≡ err (out_of_range o csr_space_bytes)))
      × (o < csr_space_bytes
          → o % 4 ≢ 0
          → (read_u32 rf o ≡ err (misaligned o)) × (write_u32 rf o v ≡ err (misaligned o)))
unfolding read_u32 write_u32
access_guards rf o v = ground (arith, low_two o)

pub put-IsRegisterFile :
    (rf : RegisterFile) (o v : ℕ) → v < 2 ^ 32 → IsRegisterFile rf → IsRegisterFile (put rf o v)
put-IsRegisterFile rf o v h k = record {
  size = length-set rf.words (o / 4) v ∙ k.size;
  words = All-set (λ w. w < 2 ^ 32) rf.words (o / 4) v k.words h;
}

pub word_at-lt : (rf : RegisterFile) (o : ℕ) → IsRegisterFile rf → word_at rf o < 2 ^ 32
word_at-lt rf o h = All-get_or (λ w. w < 2 ^ 32) rf.words (o / 4) 0 h.words (omega arith)

pub word_at-put_self :
    (rf : RegisterFile) (o v : ℕ) → IsRegister o → IsRegisterFile rf → word_at (put rf o v) o ≡ v
word_at-put_self rf o v h k = get_or-set_self rf.words (o / 4) v 0 (omega (arith, k.size, h.inside))

pub word_at-put_ne :
    (rf : RegisterFile) (o p v : ℕ)
    → IsRegister o
    → IsRegister p
    → o ≢ p
    → word_at (put rf o v) p ≡ word_at rf p
word_at-put_ne rf o p v h k ne = get_or-set_ne rf.words (o / 4) (p / 4) v 0 (omega arith)

-- After a write to a well-formed register file that succeeds, the register written reads as the
-- value, and every other offset reads as before, errors included.
pub read_u32-write_u32 :
    (rf : RegisterFile) (o p v : ℕ) {rf' : RegisterFile}
    → IsRegisterFile rf
    → write_u32 rf o v ≡ ok rf'
    → read_u32 rf' p ≡ (if o == p then ok v else read_u32 rf p)
unfolding read_u32
read_u32-write_u32 rf o p v valid h = ground (
  arith,
  write_u32-eq-ok rf o v h,
  valid.size,
  low_two p,
  get_or-set_self rf.words (o / 4) v 0,
  get_or-set_ne rf.words (o / 4) (p / 4) v 0,
)

-- The registers below the tables are as before.
abbrev pub SameBelow : RegisterFile → RegisterFile → Type 0
SameBelow rf rf' = (p : ℕ) → IsRegister p → p < 0x40 → word_at rf' p ≡ word_at rf p

pub new_register_file-IsRegisterFile : IsRegisterFile new_register_file
unfolding new_register_file
new_register_file-IsRegisterFile = record {
  size = length-replicate {A = ℕ} csr_space_words 0;
  words = All-replicate (λ w. w < 2 ^ 32) csr_space_words 0 (omega arith);
}

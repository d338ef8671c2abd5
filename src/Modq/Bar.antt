-- ===== src/Modq/Bar.antt =====
-- crates/otap-modq/src/bar.rs: the mapped region as a memory of bytes, and its registers.
use otap_signup_validator.Common.{
  ℕ, zero, suc, ◌+◌, ◌*◌, ◌/◌, ◌%◌, List, [], ◌∷◌, length, slice, copy_from_slice, Result, ok, err,
  ltb, leb, if◌then◌else◌,
}
pub mod Words

-- `RingError`; `panicked` stands for an assertion that fails and for a division by zero.
pub data RingError : Type 0 where
  payload_too_large : ℕ → ℕ → RingError
  timeout : ℕ → RingError
  panicked : RingError

-- `BarMapping`
pub record BarMapping : Type 0 where
  pub memory : List ℕ

-- module `regs`
abbrev pub head_reg : ℕ
head_reg = 0x0000

abbrev pub tail_reg : ℕ
tail_reg = 0x0008

abbrev pub depth_reg : ℕ
depth_reg = 0x0010

abbrev pub slot_size_reg : ℕ
slot_size_reg = 0x0018

abbrev pub doorbell : ℕ
doorbell = 0x0040

abbrev pub ingress_sid : ℕ
ingress_sid = 0x0048

abbrev pub commit_ptr : ℕ
commit_ptr = 0x0050

abbrev pub hw_cycle_count : ℕ
hw_cycle_count = 0x0058

abbrev pub hw_drop_count : ℕ
hw_drop_count = 0x0060

abbrev pub ring_base : ℕ
ring_base = 0x1000

-- A word in the byte order of the hosts, which is little-endian.
abbrev pub to_le_bytes : ℕ → ℕ → List ℕ
to_le_bytes zero v = []
to_le_bytes (suc n) v = v % 256 ∷ to_le_bytes n (v / 256)

abbrev pub from_le_bytes : List ℕ → ℕ
from_le_bytes [] = 0
from_le_bytes (b ∷ bs) = b + 256 * from_le_bytes bs

-- `read32` and `read64`
unfoldable pub read32 : BarMapping → ℕ → Result ℕ RingError
read32 bar offset =
    if leb (offset + 4) (length bar.memory)
    then ok (from_le_bytes (slice offset (offset + 4) bar.memory))
    else err panicked

unfoldable pub read64 : BarMapping → ℕ → Result ℕ RingError
read64 bar offset =
    if leb (offset + 8) (length bar.memory)
    then ok (from_le_bytes (slice offset (offset + 8) bar.memory))
    else err panicked

-- `write32` and `write64`
unfoldable pub write32 : BarMapping → ℕ → ℕ → Result BarMapping RingError
write32 bar offset value =
    if leb (offset + 4) (length bar.memory)
    then ok (record { memory = copy_from_slice offset (to_le_bytes 4 value) bar.memory })
    else err panicked

unfoldable pub write64 : BarMapping → ℕ → ℕ → Result BarMapping RingError
write64 bar offset value =
    if leb (offset + 8) (length bar.memory)
    then ok (record { memory = copy_from_slice offset (to_le_bytes 8 value) bar.memory })
    else err panicked

-- The bytes copied to `slot_ptr`; what passes the end of the region is dropped, where the source
-- writes outside it.
unfoldable pub copy_to_slot : BarMapping → ℕ → List ℕ → Result BarMapping RingError
copy_to_slot bar offset payload =
    if ltb offset (length bar.memory)
    then ok (record { memory = copy_from_slice offset payload bar.memory })
    else err panicked

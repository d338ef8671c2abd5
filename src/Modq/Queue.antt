-- ===== src/Modq/Queue.antt =====
-- crates/otap-modq/src/lib.rs: a queue over one region, and bar.rs: how the region is mapped.
use otap_signup_validator.Common.{
  ℕ, zero, suc, ◌+◌, ◌*◌, ◌%◌, ◌^◌, List, [], ◌∷◌, length, Option, none, some, map_some, Bool, true,
  false, bit_and, bit_not, Result, ok, err, ◌>>=◌, map_err, ok_or, ◌==◌, ◌||◌, if◌then◌else◌,
}
use otap_signup_validator.Modq.Bar.{
  RingError, BarMapping, head_reg, tail_reg, depth_reg, slot_size_reg, ring_base, ingress_sid,
  commit_ptr, hw_cycle_count, hw_drop_count, read32, read64, write32, write64,
}
use otap_signup_validator.Modq.Ring.{
  TxRing, CompletionRing, SlotCompletion, with_params, new_completion_ring, slot_free, submit,
  submit_unchecked, poll_ring, slot_payload_capacity,
}
pub mod Steps
pub mod Submission
pub mod Answer
pub mod Polling
pub mod Freed
pub mod Opened

-- What the operating system does for `BarMapping`: files, shared memory objects, and maps of them.
pub record Os : Type 1 where
  pub Fd : Type 0
  pub IoError : Type 0
  pub open_file : List ℕ → Result Fd IoError
  pub metadata_len : Fd → Result ℕ IoError
  pub shm_open : List ℕ → Option Fd
  pub ftruncate : Fd → ℕ → Bool
  pub mmap : Fd → ℕ → Option BarMapping

-- `TransportMode` and `ModqConfig`
pub data TransportMode : Type 0 where
  pci_bar : List ℕ → TransportMode
  loopback : List ℕ → TransportMode

pub record ModqConfig : Type 0 where
  pub transport : TransportMode
  pub ring_depth : ℕ
  pub slot_size : ℕ

-- `ModqError`; `assertion_failed` stands for a panic.
pub data ModqError (E : Type 0) : Type 0 where
  bar_open : List ℕ → E → ModqError E
  bar_empty : List ℕ → ModqError E
  mmap_failed : List ℕ → ModqError E
  invalid_ring_depth : ℕ → ModqError E
  invalid_shm_name : List ℕ → ModqError E
  shm_open_failed : List ℕ → ModqError E
  shm_truncate_failed : List ℕ → ModqError E
  assertion_failed : ModqError E

-- `ModqQueue`
pub record ModqQueue : Type 0 where
  pub bar : BarMapping
  pub tx : TxRing
  pub completions : CompletionRing
  pub config : ModqConfig

-- What `u32::is_power_of_two` tells.
abbrev pub power_of_two_below : ℕ → ℕ → Bool
power_of_two_below zero d = false
power_of_two_below (suc k) d = d == 2 ^ k || power_of_two_below k d

abbrev pub is_power_of_two : ℕ → Bool
is_power_of_two d = power_of_two_below 32 d

abbrev pub contains_nul : List ℕ → Bool
contains_nul [] = false
contains_nul (b ∷ bs) = b == 0 || contains_nul bs

-- The loop of `open` that frees the slots from `i` on.
unfoldable pub free_slots : ℕ → ℕ → ℕ → BarMapping → Result BarMapping RingError
free_slots stride i zero bar = ok bar
free_slots stride i (suc n) bar =
    write32 bar (ring_base + i * stride) slot_free >>= free_slots stride (suc i) n

-- The writes of `open` to a region of the loopback transport.
unfoldable pub init_loopback : ModqConfig → ℕ → BarMapping → Result BarMapping RingError
unfolding free_slots
init_loopback config stride mapping = do
  m₁ ← write32 mapping depth_reg config.ring_depth
  m₂ ← write32 m₁ slot_size_reg config.slot_size
  m₃ ← write64 m₂ head_reg 0
  m₄ ← write64 m₃ tail_reg 0
  free_slots stride 0 config.ring_depth m₄

-- The stride as `open` computes it, in 32 bits.
unfoldable pub open_stride : ℕ → ℕ
open_stride slot_size = bit_and (((slot_size + 16) % 2 ^ 32 + 63) % 2 ^ 32) (bit_not 32 63)

module _ (os : Os) where
  -- `BarMapping::open`
  unfoldable pub open_bar : List ℕ → Result BarMapping (ModqError os.IoError)
  open_bar path = do
    file ← map_err (bar_open path) (os.open_file path)
    size ← map_err (bar_open path) (os.metadata_len file)
    if size == 0 then err (bar_empty path) else ok_or (os.mmap file size) (mmap_failed path)

  -- `BarMapping::open_shm`
  unfoldable pub open_shm : List ℕ → ℕ → Result BarMapping (ModqError os.IoError)
  open_shm name size =
      if contains_nul name
      then err (invalid_shm_name name)
      else ok_or (os.shm_open name) (shm_open_failed name) >>= λ fd.
          if os.ftruncate fd size
          then ok_or (os.mmap fd size) (mmap_failed name)
          else err (shm_truncate_failed name)

  -- The region that `open` works on.
  unfoldable pub open_region :
      TransportMode → ModqConfig → ℕ → ℕ → Result BarMapping (ModqError os.IoError)
  unfolding open_bar open_shm init_loopback
  open_region (pci_bar path) config stride total_size = open_bar path
  open_region (loopback name) config stride total_size = open_shm name total_size >>= λ mapping.
      map_err (λ _. assertion_failed) (init_loopback config stride mapping)

  -- `ModqQueue::open`
  unfoldable pub open_queue : ModqConfig → Result ModqQueue (ModqError os.IoError)
  unfolding open_region open_stride with_params new_completion_ring
  open_queue config =
      if is_power_of_two config.ring_depth
      then (do
        let stride = open_stride config.slot_size
        let total_size = (ring_base + stride * config.ring_depth) % 2 ^ 64
        bar ← open_region config.transport config stride total_size
        ok (record {
          bar = bar;
          tx = with_params config.ring_depth config.slot_size;
          completions = new_completion_ring config.ring_depth stride;
          config = config;
        }))
      else err (invalid_ring_depth config.ring_depth)

-- `ModqQueue::submit`, while `device` works on the region
unfoldable pub queue_submit :
    (BarMapping → BarMapping) → ModqQueue → List ℕ → Result (ℕ × ModqQueue) RingError
unfolding submit
queue_submit device q payload = do
  (sid, tx, bar) ← submit device q.tx q.bar payload
  ok (sid, record q { tx = tx; bar = bar })

-- `ModqQueue::submit_unchecked`
unfoldable pub queue_submit_unchecked :
    (BarMapping → BarMapping) → ℕ → ModqQueue → List ℕ → Option (Result (ℕ × ModqQueue) RingError)
unfolding submit_unchecked
queue_submit_unchecked device rounds q payload =
    map_some (λ answer. answer >>= λ r. ok (r.0, record q { tx = r.1; bar = r.2 }))
      (submit_unchecked device rounds q.tx q.bar payload)

-- `ModqQueue::poll`
unfoldable pub queue_poll : ModqQueue → Result (Option SlotCompletion × ModqQueue) RingError
unfolding poll_ring
queue_poll q = do
  (done, completions, bar) ← poll_ring q.completions q.bar
  ok (done, record q { completions = completions; bar = bar })

-- The accessors of `ModqQueue`.
unfoldable pub queue_capacity : ModqQueue → ℕ
unfolding slot_payload_capacity
queue_capacity q = slot_payload_capacity q.tx

abbrev pub submitted_count : ModqQueue → ℕ
submitted_count q = q.tx.tail

abbrev pub fpga_ingress_sid : ModqQueue → Result ℕ RingError
fpga_ingress_sid q = read32 q.bar ingress_sid

abbrev pub fpga_commit_ptr : ModqQueue → Result ℕ RingError
fpga_commit_ptr q = read32 q.bar commit_ptr

abbrev pub hardware_timestamp : ModqQueue → Result ℕ RingError
hardware_timestamp q = read64 q.bar hw_cycle_count

abbrev pub hardware_drop_count : ModqQueue → Result ℕ RingError
hardware_drop_count q = read32 q.bar hw_drop_count

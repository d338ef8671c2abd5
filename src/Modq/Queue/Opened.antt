-- ===== src/Modq/Queue/Opened.antt =====
-- `ModqQueue::open` of crates/otap-modq/src/lib.rs, for the loopback transport.
use native.Mathlib.Nat.{mul-le-mul, mul_comm, mod-lt}
use otap_signup_validator.Common.{
  ℕ, ◌+◌, ◌-◌, ◌*◌, ◌%◌, ◌^◌, ◌≤◌, ◌<◌, ◌≡◌, ◌∙◌, ◌⊎◌, inl, inr, refl, arith, sym, subst, ap, List,
  [], length, true, some, Result, ok, err, Result-cases, ◌>>=◌, map_err, Option-cases, is_ok,
}
use otap_signup_validator.Modq.Bar.{
  BarMapping, to_le_bytes, head_reg, tail_reg, depth_reg, slot_size_reg, ring_base,
}
use otap_signup_validator.Modq.Bar.Words.{put, put_bytes, length-put, length-put_bytes, write32_at}
use otap_signup_validator.Modq.Ring.{slot_free, slot_base, with_params, new_completion_ring}
use otap_signup_validator.Modq.Ring.Slots.{status_of, Slots}
use otap_signup_validator.Modq.Queue.{
  Os, ModqConfig, loopback, ModqError, ModqQueue, is_power_of_two, init_loopback, open_stride,
  open_shm, open_region, open_queue, assertion_failed,
}
use otap_signup_validator.Modq.Queue.Submission.{Valid, pending}
use otap_signup_validator.Modq.Queue.Freed.{
  write64_at, stride-open_stride, stride_of-open_stride, power_of_two_below-bounds, free_slots_lem,
}

-- What the operating system says of a map: it has the size that is asked for.
pub record MapsWhole (os : Os) : Type 0 where
  pub whole :
      (fd : os.Fd) (size : ℕ) {bar : BarMapping}
      → os.mmap fd size ≡ some bar
      → length bar.memory ≡ size

module _ (os : Os) (m : MapsWhole os) (config : ModqConfig) where
  open_shm-eq-ok :
      (name : List ℕ) (size : ℕ) {bar : BarMapping}
      → open_shm os name size ≡ ok bar
      → length bar.memory ≡ size
  unfolding open_shm
  open_shm-eq-ok name size h = elim (Option-cases (os.shm_open name)) [
    | inl closed ↦ ground arith
    | inr (fd, opened) ↦ elim (Option-cases (os.mmap fd size)) [
      | inl unmapped ↦ ground arith
      | inr (mapping, mapped) ↦ (let whole = m.whole fd size mapped in ground arith)
    ]
  ]

  init_loopback_lem :
      (stride : ℕ) (bar : BarMapping)
      → 16 < stride
      → slot_base stride config.ring_depth ≤ length bar.memory
      → (bar' : BarMapping) × (init_loopback config stride bar ≡ ok bar')
        × (length bar'.memory ≡ length bar.memory)
        × ((j : ℕ) → j < config.ring_depth → status_of stride bar' j ≡ slot_free)
  unfolding init_loopback
  init_loopback_lem stride bar wide h =
      let m₁ = put bar depth_reg config.ring_depth in
      let m₂ = put m₁ slot_size_reg config.slot_size in
      let m₃ = put_bytes m₂ head_reg (to_le_bytes 8 0) in
      let m₄ = put_bytes m₃ tail_reg (to_le_bytes 8 0) in
      let l₁ = length-put bar depth_reg config.ring_depth in
      let l₂ = length-put m₁ slot_size_reg config.slot_size in
      let l₃ = length-put_bytes m₂ head_reg (to_le_bytes 8 0) in
      let l₄ = length-put_bytes m₃ tail_reg (to_le_bytes 8 0) in
      let (bar', looped, size, before, freed) =
        free_slots_lem stride 0 config.ring_depth m₄ wide (omega (arith, h, l₁, l₂, l₃, l₄)) in
      (
        bar',
        rw
            (
              write32_at bar depth_reg config.ring_depth (omega (arith, h)),
              write32_at m₁ slot_size_reg config.slot_size (omega (arith, h, l₁)),
              write64_at m₂ head_reg 0 (omega (arith, h, l₁, l₂)),
              write64_at m₃ tail_reg 0 (omega (arith, h, l₁, l₂, l₃)),
            )
            looped,
        size ∙ l₄ ∙ l₃ ∙ l₂ ∙ l₁,
        λ j lt. freed j (omega arith) (omega arith),
      )

  -- The size that `open` asks for does not pass 64 bits, and holds the slots.
  region_size :
      is_power_of_two config.ring_depth ≡ true
      → config.slot_size + 79 < 2 ^ 32
      → let stride = open_stride config.slot_size in
        (16 < stride)
        × (stride < 2 ^ 32)
        × ((ring_base + stride * config.ring_depth) % 2 ^ 64 ≡ slot_base stride config.ring_depth)
  region_size pow small =
      let stride = open_stride config.slot_size in
      let rounded = stride-open_stride config.slot_size small in
      let (some_slot, few) = power_of_two_below-bounds 32 config.ring_depth pow in
      let narrow : stride ≤ 2 ^ 32 - 64 = omega (arith, rounded, small) in
      let slots : config.ring_depth ≤ 2 ^ 32 = omega (arith, few) in
      let area = mul-le-mul narrow slots in
      let turned = mul_comm stride config.ring_depth in
      (omega (arith, rounded), omega (arith, narrow), omega (arith, area, turned))

  abbrev opened : BarMapping → ModqQueue
  opened bar = record {
    bar = bar;
    tx = with_params config.ring_depth config.slot_size;
    completions = new_completion_ring config.ring_depth (open_stride config.slot_size);
    config = config;
  }

  region : ℕ → Result BarMapping (ModqError os.IoError)
  region size = open_region os config.transport config (open_stride config.slot_size) size

  region_failed :
      (name : List ℕ) (size : ℕ) {e : ModqError os.IoError}
      → config.transport ≡ loopback name
      → open_shm os name size ≡ err e
      → region size ≡ err e
  unfolding open_region region
  region_failed name size transport failed =
      ap (λ t. open_region os t config (open_stride config.slot_size) size) transport
      ∙ ap
          (λ r. r >>= λ mapping.
            map_err (λ _. assertion_failed)
              (init_loopback config (open_stride config.slot_size) mapping))
          failed

  region_mapped :
      (name : List ℕ) (size : ℕ) (mapping bar : BarMapping)
      → config.transport ≡ loopback name
      → open_shm os name size ≡ ok mapping
      → init_loopback config (open_stride config.slot_size) mapping ≡ ok bar
      → region size ≡ ok bar
  unfolding open_region region
  region_mapped name size mapping bar transport mapped written =
      ap (λ t. open_region os t config (open_stride config.slot_size) size) transport
      ∙ ap
          (λ r. r >>= λ mapping.
            map_err (λ _. assertion_failed)
              (init_loopback config (open_stride config.slot_size) mapping))
          mapped
      ∙ ap (map_err (λ _. assertion_failed)) written

  open_queue-region :
      (size : ℕ)
      → is_power_of_two config.ring_depth ≡ true
      → (ring_base + open_stride config.slot_size * config.ring_depth) % 2 ^ 64 ≡ size
      → open_queue os config ≡ (region size >>= λ bar. ok (opened bar))
  unfolding open_queue region
  open_queue-region size pow whole = rw (pow, whole) refl

  opened-Valid :
      (bar : BarMapping)
      → config.slot_size + 79 < 2 ^ 32
      → let stride = open_stride config.slot_size in
        16 < stride
        → stride < 2 ^ 32
        → 0 < config.ring_depth
        → slot_base stride config.ring_depth ≤ length bar.memory
        → ((j : ℕ) → j < config.ring_depth → status_of stride bar j ≡ slot_free)
        → Valid (opened bar)
  unfolding with_params new_completion_ring
  opened-Valid bar small wide narrow some_slot region free =
      let same = stride_of-open_stride config.slot_size small in
      record {
        same_depth = refl;
        same_stride = sym same;
        narrow = omega (arith, same, narrow);
        numbered = refl;
        slots =
            subst (λ stride. Slots stride config.ring_depth 0 0 bar) (sym same)
              (record {
                some_slot = some_slot;
                room_for_header = wide;
                region = region;
                ordered = omega arith;
                bounded = omega arith;
                in_flight = λ k le lt. omega (arith, lt);
                vacant = λ k le lt. free (k % config.ring_depth) (mod-lt k some_slot);
              });
      }

  -- Opening a queue on the loopback transport comes back with a failure of the shared memory or with
  -- an empty queue in order; no assertion fails. The ring depth is a power of two and the slot size
  -- leaves room for its header and its alignment in 32 bits.
  pub open_queue_lem :
      (name : List ℕ)
      → config.transport ≡ loopback name
      → is_power_of_two config.ring_depth ≡ true
      → config.slot_size + 79 < 2 ^ 32
      → let size = slot_base (open_stride config.slot_size) config.ring_depth in
        ((e : ModqError os.IoError) × (open_shm os name size ≡ err e)
          × (open_queue os config ≡ err e))
        ⊎ ((q : ModqQueue) × (is_ok (open_shm os name size) ≡ true)
            × (open_queue os config ≡ ok q)
            × Valid q
            × (pending q ≡ [])
            × (q.tx ≡ with_params config.ring_depth config.slot_size))
  unfolding with_params new_completion_ring
  open_queue_lem name transport pow small =
      let stride = open_stride config.slot_size in
      let size = slot_base stride config.ring_depth in
      let (wide, narrow, whole) = region_size pow small in
      let (some_slot, few) = power_of_two_below-bounds 32 config.ring_depth pow in
      elim (Result-cases (open_shm os name size)) [
        | inr (e, failed) ↦ inl (
          e,
          failed,
          open_queue-region size pow whole
              ∙ ap (λ r. r >>= λ bar. ok (opened bar)) (region_failed name size transport failed),
        )
        | inl (mapping, mapped) ↦
            let length_mapped = open_shm-eq-ok name size mapped in
            let (bar, written, same_size, free) =
              init_loopback_lem stride mapping wide (omega (arith, length_mapped)) in
            inr (
              opened bar,
              ap is_ok mapped,
              open_queue-region size pow whole
                  ∙ ap (λ r. r >>= λ bar. ok (opened bar))
                      (region_mapped name size mapping bar transport mapped written),
              opened-Valid bar small wide narrow some_slot (omega (arith, same_size, length_mapped))
                  free,
              refl,
              refl,
            )
      ]

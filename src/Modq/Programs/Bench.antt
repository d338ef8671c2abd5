-- ===== src/Modq/Programs/Bench.antt =====
-- The benchmark of crates/otap-modq/src/bin/modq_bench.rs.
use otap_signup_validator.Common.{
  ℕ, ◌+◌, ◌-◌, ◌^◌, ◌≤◌, ◌<◌, ◌≡◌, ◌⊎◌, inl, inr, refl, arith, List, [], ◌∷◌, length-replicate,
  replicate, true, false, ltb, ok, err, All,
}
use otap_signup_validator.Crypto.Trajectory.{ascii}
use otap_signup_validator.Modq.Queue.{
  Os, loopback, ModqError, ModqQueue, open_queue, queue_capacity, submitted_count,
}
use otap_signup_validator.Modq.Queue.Opened.{MapsWhole}
use otap_signup_validator.Modq.Consumer.{consumer_stride}
use otap_signup_validator.Modq.Programs.{
  not_opened, lazy_consumer, mentions, bench_transport, bench_config, payload_sizes, iterations_of,
  bench_size, bench_sizes, bench_main,
}
use otap_signup_validator.Modq.Programs.Accepted.{Lazily, submit_messages-Lazily}
use otap_signup_validator.Modq.Programs.Opened.{opened-Lazily}

-- How often a list of sizes is submitted, where they all fit.
abbrev pub rounds_of : List ℕ → ℕ
rounds_of [] = 0
rounds_of (payload_size ∷ sizes) = 1000 + iterations_of payload_size + rounds_of sizes

module _ {E : Type 0} {stride depth : ℕ} where
  bench_size-Lazily :
      (payload_size count : ℕ) (q : ModqQueue)
      → Lazily stride depth count q
      → payload_size ≤ stride - 16
      → count + (1000 + iterations_of payload_size) < 2 ^ 64
      → (last : ModqQueue) × (bench_size {E = E} (lazy_consumer stride depth) payload_size q
          ≡ ok last)
        × Lazily stride depth (count + 1000 + iterations_of payload_size) last
  unfolding bench_size queue_capacity
  bench_size-Lazily payload_size count q h fits small =
      let same_stride = h.same_stride in
      let room : ltb (queue_capacity q) payload_size ≡ false = ground arith in
      let size = length-replicate {A = ℕ} payload_size 0xaa in
      let (q₁, warm, warmed) =
        submit_messages-Lazily (λ i. replicate payload_size 0xaa) 0 1000 count q h
          (λ j. omega (arith, size)) (omega arith) in
      let (q₂, timed, done) =
        submit_messages-Lazily (λ i. replicate payload_size 0xaa) 0 (iterations_of payload_size)
          (count + 1000) q₁ warmed (λ j. omega (arith, size)) (omega arith) in
      (q₂, rw (room, warm, timed) refl, done)

  bench_sizes-Lazily :
      (sizes : List ℕ) (count : ℕ) (q : ModqQueue)
      → Lazily stride depth count q
      → All (λ payload_size. payload_size ≤ stride - 16) sizes
      → count + rounds_of sizes < 2 ^ 64
      → (last : ModqQueue) × (bench_sizes {E = E} (lazy_consumer stride depth) sizes q ≡ ok last)
        × (last.tx.tail ≡ count + rounds_of sizes)
  unfolding bench_sizes
  bench_sizes-Lazily [] count q h fits small = let counted = h.counted in (q, refl, omega arith)
  bench_sizes-Lazily (payload_size ∷ sizes) count q h fits small =
      let (q₁, ran, next) = bench_size-Lazily payload_size count q h fits.0 (omega arith) in
      let (last, rest, total) =
        bench_sizes-Lazily sizes (count + 1000 + iterations_of payload_size) q₁ next fits.1
          (omega arith) in
      (last, rw ran rest, omega (arith, total))

-- `main` of modq_bench.rs with the argument `--loopback`, beside a consumer that frees a slot only where
-- a submission waits for it: if the queue opens, all six sizes fit and every one of the 36006000
-- submissions is accepted; otherwise it stops with the error of opening.
pub bench_main_lem :
    (os : Os) (args : List (List ℕ))
    → MapsWhole os
    → mentions (ascii "--loopback") args ≡ true
    → let config = bench_config (loopback (ascii "/otap_modq_bench")) in
      let device = lazy_consumer (consumer_stride config.slot_size) config.ring_depth in
      ((e : ModqError os.IoError) × (open_queue os config ≡ err e)
        × (bench_main os device args ≡ err (not_opened e)))
      ⊎ ((last : ModqQueue) × (bench_main os device args ≡ ok last)
          × (submitted_count last ≡ 36_006_000))
unfolding bench_main bench_transport consumer_stride iterations_of
bench_main_lem os args m asked =
    let config = bench_config (loopback (ascii "/otap_modq_bench")) in
    elim (opened-Lazily os m config _ refl refl (omega arith)) [
      | inl (e, failed) ↦ inl (e, failed, rw (asked, failed) refl)
      | inr (q, opens, fresh) ↦
          let (last, ran, total) =
            bench_sizes-Lazily {E = os.IoError} payload_sizes 0 q fresh
              (
                omega arith,
                (omega arith, (omega arith, (omega arith, (omega arith, (omega arith, tt))))),
              )
              (omega arith) in
          inr (last, rw (asked, opens) ran, total)
    ]

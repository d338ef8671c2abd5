-- ===== src/Modq/Programs.antt =====
-- What the programs crates/otap-modq/src/bin/modq_loopback.rs and modq_bench.rs submit, without their
-- printing and their clocks. A message that is expected stands for the panic.
pub mod Accepted
pub mod Opened
pub mod Ordering
pub mod Bench
use otap_signup_validator.Common.{
  ℕ, zero, suc, ◌+◌, ◌-◌, List, [], ◌∷◌, replicate, Option, none, some, Bool, true, false, ◌||◌,
  ltb, leb, Result, ok, err, ◌>>=◌, map_err, ok_or, copy_from_slice, same_text, if◌then◌else◌,
}
use otap_signup_validator.Crypto.Trajectory.{ascii}
use otap_signup_validator.Modq.Bar.{to_le_bytes, BarMapping, RingError}
use otap_signup_validator.Modq.Queue.{
  Os, TransportMode, pci_bar, loopback, ModqConfig, ModqError, ModqQueue, open_queue, queue_submit,
  queue_capacity, submitted_count,
}
use otap_signup_validator.Modq.Consumer.{round_of, count_sequence_errors}

-- The messages with which the programs stop.
pub data ProgramError (E : Type 0) : Type 0 where
  usage : ProgramError E
  pci_without_path : ProgramError E
  not_opened : ModqError E → ProgramError E
  submit_failed : RingError → ProgramError E

-- A loop of so many submissions, of round `i` and on: the numbers that `submit` returns. `device n` is
-- what works on the region while the submission after `n` others waits.
unfoldable pub submit_messages :
    (ℕ → BarMapping → BarMapping)
    → (ℕ → List ℕ)
    → ℕ
    → ℕ
    → ModqQueue
    → Result (List ℕ × ModqQueue) RingError
submit_messages device payload_of i zero q = ok ([], q)
submit_messages device payload_of i (suc left) q = do
  (sid, q') ← queue_submit (device (submitted_count q)) q (payload_of i)
  (sids, last) ← submit_messages device payload_of (i + 1) left q'
  ok (sid ∷ sids, last)

-- A consumer that works no more than it has to: while submission `n` waits, it frees the slot that the
-- submission `depth` before it has filled.
abbrev pub lazy_consumer : ℕ → ℕ → ℕ → BarMapping → BarMapping
lazy_consumer stride depth n = round_of stride depth (n - depth)

-- modq_loopback.rs

abbrev pub num_messages : ℕ
num_messages = 1_000_000

abbrev pub verify_count : ℕ
verify_count = 10_000

abbrev pub loopback_config : ModqConfig
loopback_config = record {
  transport = loopback (ascii "/otap_modq_loopback");
  ring_depth = 1024;
  slot_size = 256;
}

unfoldable pub trade_payload : List ℕ
trade_payload =
    let with_symbol = copy_from_slice 0 (ascii "AAPL") (replicate 128 0) in
    let with_side = copy_from_slice 4 (0 ∷ []) with_symbol in
    let with_quantity = copy_from_slice 5 (to_le_bytes 4 1000) with_side in
    copy_from_slice 9 (to_le_bytes 8 19850) with_quantity

unfoldable pub ordering_payload : ℕ → List ℕ
ordering_payload i = copy_from_slice 0 (to_le_bytes 8 i) (replicate 64 0)

-- `main` of modq_loopback.rs: the `sequence_errors` that it reports
unfoldable pub loopback_main :
    (os : Os) → (ℕ → BarMapping → BarMapping) → Result ℕ (ProgramError os.IoError)
loopback_main os device = do
  queue ← map_err not_opened (open_queue os loopback_config)
  (_, queue₁) ←
      map_err submit_failed (submit_messages device (λ i. trade_payload) 0 num_messages queue)
  (sids, _) ← map_err submit_failed (submit_messages device ordering_payload 0 verify_count queue₁)
  ok (count_sequence_errors num_messages 0 0 sids)

-- modq_bench.rs

abbrev pub mentions : List ℕ → List (List ℕ) → Bool
mentions flag [] = false
mentions flag (arg ∷ args) = same_text arg flag || mentions flag args

-- What stands behind the first argument that is the flag, where there is one.
abbrev pub behind : List ℕ → List (List ℕ) → Option (Option (List ℕ))
behind flag [] = none
behind flag (arg ∷ []) = if same_text arg flag then some none else none
behind flag (arg ∷ (next ∷ args)) =
    let later = behind flag (next ∷ args) in if same_text arg flag then some (some next) else later

-- The transport that the arguments of modq_bench.rs ask for
unfoldable pub bench_transport :
    {E : Type 0} → List (List ℕ) → Result TransportMode (ProgramError E)
bench_transport args =
    if mentions (ascii "--loopback") args
    then ok (loopback (ascii "/otap_modq_bench"))
    else ok_or (behind (ascii "--pci") args) usage >>= λ path.
        ok_or path pci_without_path >>= λ path. ok (pci_bar path)

abbrev pub bench_config : TransportMode → ModqConfig
bench_config transport = record { transport = transport; ring_depth = 1024; slot_size = 4096 }

abbrev pub payload_sizes : List ℕ
payload_sizes = 64 ∷ 128 ∷ 256 ∷ 512 ∷ 1024 ∷ 4096 ∷ []

unfoldable pub iterations_of : ℕ → ℕ
iterations_of payload_size =
    if leb payload_size 128
    then 10_000_000
    else if leb payload_size 1024
    then 5_000_000
    else 1_000_000

-- The rounds of the benchmark for one size: the warm-up and the timed run
unfoldable pub bench_size :
    {E : Type 0} → (ℕ → BarMapping → BarMapping) → ℕ → ModqQueue → Result ModqQueue (ProgramError E)
bench_size device payload_size queue =
    if ltb (queue_capacity queue) payload_size then ok queue else (do
      (_, queue₁) ←
          map_err submit_failed
            (submit_messages device (λ i. replicate payload_size 0xaa) 0 1000 queue)
      (_, queue₂) ← map_err submit_failed (
          submit_messages device (λ i. replicate payload_size 0xaa) 0 (iterations_of payload_size)
            queue₁)
      ok queue₂)

unfoldable pub bench_sizes :
    {E : Type 0}
    → (ℕ → BarMapping → BarMapping)
    → List ℕ
    → ModqQueue
    → Result ModqQueue (ProgramError E)
bench_sizes device [] queue = ok queue
bench_sizes device (payload_size ∷ sizes) queue =
    bench_size device payload_size queue >>= bench_sizes device sizes

-- `main` of modq_bench.rs: the queue in the end
unfoldable pub bench_main :
    (os : Os)
    → (ℕ → BarMapping → BarMapping)
    → List (List ℕ)
    → Result ModqQueue (ProgramError os.IoError)
bench_main os device args = do
  transport ← bench_transport args
  queue ← map_err not_opened (open_queue os (bench_config transport))
  bench_sizes device payload_sizes queue

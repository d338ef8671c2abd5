-- ===== src/Tests/Envelope.antt =====
-- The replay cache and the session of the D3 envelope on concrete values.
use otap_signup_validator.Common.{
  take, min, ◌==◌, if◌then◌else◌, ℕ, zero, suc, ◌+◌, ◌*◌, ◌%◌, ◌^◌, ◌<◌, ◌≡◌, refl, arith, List, [],
  ◌∷◌, ◌++◌, length, get_or, slice, replicate, All, copy_from_slice, true, some, ok, err,
}
use otap_signup_validator.D3.ReplayCache.{
  ConstantTimeEq, Disk, remember, extended, replay_detected, ReplayCache, load, open_cache,
  check_and_insert,
}
use otap_signup_validator.D3.ReplayCache.Ring.{IsEquality, Works, IsCache, block, accepted}
use otap_signup_validator.D3.ReplayCache.Window.{insert_run, check_and_insert-window}
use otap_signup_validator.D3.ReplayCache.Restart.{open_cache-restarts, restart-refuses}
use otap_signup_validator.D3.ReplayCache.Opening.{
  FileOps, Reads, load_with, open_with, whole_reads, open_with_lem,
}
use otap_signup_validator.D3.Rpc.{
  Symbol, IsSymbol, horizontal, diagonal, link_data, calculate_rpc, total, calculate_rpc_lem,
}
use otap_signup_validator.D3.Keys.{verifying_key}
use otap_signup_validator.D3.Session.{D3Session, seal, open_frame}
use otap_signup_validator.D3.Session.Seal.{open_frame-seal}
use otap_signup_validator.D3.Session.Preimage.{preimage_bytes-injective}
use otap_signup_validator.Tests.Values.{key}
use otap_signup_validator.Tests.Signature.{
  same_bytes, same_bytes_iff, toy_signature, toy_signature-Signs,
}

instance abbrev byte_eq : ConstantTimeEq
byte_eq = record { ct_eq = same_bytes }

byte_eq-IsEquality : IsEquality byte_eq
byte_eq-IsEquality = record { decides = same_bytes_iff }

instance abbrev memory_disk : Disk
memory_disk = record {
  seek = λ offset. true;
  write_all = λ file offset bytes. (true, copy_from_slice offset bytes file);
  sync_data = λ file. true;
}

memory_disk-Works : Works memory_disk
memory_disk-Works = record {
  seeks = λ offset. refl;
  writes = λ file offset bytes h. refl;
  syncs = λ file. refl;
}

abbrev hash_one : List ℕ
hash_one = replicate 32 1

abbrev hash_two : List ℕ
hash_two = replicate 32 2

-- A cache of two places that holds the first hash.
abbrev cache : ReplayCache
cache = record {
  file = hash_one ++ replicate 32 0;
  capacity = 2;
  current_idx = 1;
  in_memory_cache = hash_one ∷ [];
}

cache-mirror : (i : ℕ) → i < 1 → get_or (hash_one ∷ []) i [] ≡ block i (hash_one ++ replicate 32 0)
unfolding slice
cache-mirror zero h = refl
cache-mirror (suc i) h = absurd (omega arith)

cache-IsCache : IsCache cache
cache-IsCache = record {
  room = omega arith;
  bound = omega arith;
  next = λ h. refl;
  file = ground arith;
  mirror = cache-mirror;
}

hash_two-accepted : check_and_insert cache hash_two ≡ (ok tt, accepted cache hash_two)
unfolding check_and_insert remember
hash_two-accepted = refl

hash_one-refused : check_and_insert cache hash_one ≡ (err replay_detected, cache)
unfolding check_and_insert
hash_one-refused = refl

check_and_insert-window_example :
    check_and_insert (insert_run (accepted cache hash_two) (replicate 32 3 ∷ [])) hash_two
    ≡ (err replay_detected, insert_run (accepted cache hash_two) (replicate 32 3 ∷ []))
check_and_insert-window_example =
    check_and_insert-window byte_eq-IsEquality memory_disk-Works cache hash_two
      (replicate 32 3 ∷ []) cache-IsCache refl (refl, tt) (omega arith) hash_two-accepted

restart-refuses_example :
    (cache' : ReplayCache) × (open_cache (hash_one ++ replicate 32 0) 2 ≡ some cache')
    × (check_and_insert cache' hash_one ≡ (err replay_detected, cache'))
restart-refuses_example =
    restart-refuses cache hash_one byte_eq-IsEquality memory_disk-Works cache-IsCache refl
      hash_one-refused

abbrev reopened : ReplayCache
reopened = record {
  file = hash_one ++ replicate 32 0;
  capacity = 2;
  current_idx = 0;
  in_memory_cache = hash_one ∷ replicate 32 0 ∷ [];
}

cache-reopened : open_cache cache.file cache.capacity ≡ some reopened
unfolding open_cache load extended
cache-reopened = refl

open_cache-restarts_example :
    (reopened.current_idx ≡ 0) × (length reopened.in_memory_cache ≡ cache.capacity)
open_cache-restarts_example = open_cache-restarts cache cache-IsCache cache-reopened

abbrev two_symbols : List Symbol
two_symbols =
    record { value = 1023; lambda = 34; pol = horizontal }
    ∷ record { value = 500; lambda = 34; pol = diagonal }
    ∷ []

two_symbols-IsSymbol : All IsSymbol two_symbols
two_symbols-IsSymbol = (
  record { value = omega arith; lambda = omega arith },
  (record { value = omega arith; lambda = omega arith }, tt),
)

calculate_rpc_lem_example :
    calculate_rpc two_symbols 1 42 ≡ (42 + 1 * 31 + total two_symbols) % 2 ^ 32
calculate_rpc_lem_example = calculate_rpc_lem two_symbols 1 42 two_symbols-IsSymbol

abbrev session : D3Session
session = record {
  epoch_nonce = 42;
  signing_key = record { secret = key };
  peer_key = record { public = toy_signature.public_key key };
}

open_frame-seal_example :
    open_frame session link_data (seal session link_data two_symbols) ≡ ok two_symbols
unfolding verifying_key
open_frame-seal_example =
    open_frame-seal session session link_data two_symbols toy_signature-Signs refl refl

abbrev tag : ℕ
tag = 9

preimage_bytes-injective_example :
    (link_data ≡ link_data) × (session.epoch_nonce ≡ 42) × (two_symbols ≡ two_symbols) × (tag ≡ tag)
preimage_bytes-injective_example =
    preimage_bytes-injective link_data link_data session.epoch_nonce 42 two_symbols two_symbols tag
      tag (omega arith) (omega arith) two_symbols-IsSymbol two_symbols-IsSymbol (omega arith)
      (omega arith) (omega arith) (omega arith) refl

-- Files of two hashes: one whose operations succeed, and one whose second read fails.
abbrev files : FileOps ℕ
files = record {
  open_or_create = λ path. ok (hash_one ++ hash_two);
  seek_start = ok tt;
  read_count = λ i left. ok (min 32 left);
  metadata_len = λ file. ok (length file);
  set_len = λ file n. ok (extended n file);
}

abbrev failing_files : FileOps ℕ
failing_files = record files { read_count = λ i left. if i == 1 then err 5 else ok (min 32 left) }

failing_files-Reads : Reads failing_files
failing_files-Reads = record { bounded = λ i left n e. ground (arith, e) }

abbrev half_loaded : ReplayCache
half_loaded = record {
  file = hash_one ++ hash_two;
  capacity = 2;
  current_idx = 1;
  in_memory_cache = hash_one ∷ [];
}

half_opened : open_with failing_files [] 2 ≡ ok half_loaded
unfolding open_with load_with
half_opened = refl

open_with_lem_example :
    (file : List ℕ) × (failing_files.open_or_create [] ≡ ok file)
    × (0 < 2)
    × (half_loaded.capacity ≡ 2)
    × (half_loaded.in_memory_cache ≡ take (whole_reads failing_files 0 2 file) (load 2 file))
    × (half_loaded.current_idx ≡ length half_loaded.in_memory_cache % half_loaded.capacity)
open_with_lem_example = open_with_lem failing_files [] 2 failing_files-Reads half_opened

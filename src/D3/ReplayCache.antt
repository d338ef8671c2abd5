-- ===== src/D3/ReplayCache.antt =====
-- crates/luxstream-otap-d3/src/replay_cache.rs: the replay cache and its file.
use otap_signup_validator.Common.{
  ℕ, zero, suc, ◌+◌, ◌-◌, ◌*◌, ◌%◌, ◌<◌, ◌≤◌, ◌≡◌, List, [], ◌∷◌, ◌++◌, length, set, take, drop,
  replicate, copy_from_slice, IsArray, Bool, true, not, ◌||◌, false, Option, none, some, Result, ok,
  err, ltb, leb, ◌==◌, if◌then◌else◌,
}
pub mod Opening
pub mod Ring
pub mod Restart
pub mod Window

-- `HASH_SIZE`
abbrev pub hash_size : ℕ
hash_size = 32

-- `ConstantTimeEq` of the crate `subtle`: not part of the repository, so a parameter.
pub record ConstantTimeEq : Type 0 where
  pub ct_eq : List ℕ → List ℕ → Bool

-- The file operations of the standard library, which may fail: whether a seek succeeds, what a
-- write leaves in the file, and whether the data reaches the disk.
pub record Disk : Type 0 where
  pub seek : ℕ → Bool
  pub write_all : List ℕ → ℕ → List ℕ → Bool × List ℕ
  pub sync_data : List ℕ → Bool

-- The errors of `check_and_insert`, one for each message.
pub data CacheError : Type 0 where
  replay_detected : CacheError
  disk_seek_error : CacheError
  disk_write_error : CacheError
  disk_sync_error : CacheError

-- `PersistentReplayCache`, with the bytes of its file.
pub record ReplayCache : Type 0 where
  pub file : List ℕ
  pub capacity : ℕ
  pub current_idx : ℕ
  pub in_memory_cache : List (List ℕ)

-- The loop of `open` from the file position where `rest` starts, with `left` hashes to go: a read
-- returns what the file still has, up to the size of the buffer.
unfoldable pub load : ℕ → List ℕ → List (List ℕ)
load zero rest = []
load (suc left) rest =
    let more = load left (drop hash_size rest) in
    if length (take hash_size rest) == hash_size then take hash_size rest ∷ more else []

-- `file.set_len` where the file is shorter than expected.
unfoldable pub extended : ℕ → List ℕ → List ℕ
extended expected file =
    if ltb (length file) expected then file ++ replicate (expected - length file) 0 else file

-- `PersistentReplayCache::open` on a file with these bytes. For a capacity of 0 the code divides by
-- zero and panics.
unfoldable pub open_cache : List ℕ → ℕ → Option ReplayCache
open_cache file capacity =
    if capacity == 0
    then none
    else let loaded = load capacity file in
      some (record {
        file = extended (capacity * hash_size) file;
        capacity = capacity;
        current_idx = length loaded % capacity;
        in_memory_cache = loaded;
      })

-- The hash in memory: appended while there is room, else in place of the one at the index.
unfoldable pub remember : ReplayCache → List ℕ → ReplayCache
remember cache transcript = record cache {
  in_memory_cache =
      if ltb (length cache.in_memory_cache) cache.capacity
      then cache.in_memory_cache ++ (transcript ∷ [])
      else set cache.in_memory_cache cache.current_idx transcript;
}

module _ ⦃eq : ConstantTimeEq⦄ where
  -- The scan of `check_and_insert`.
  unfoldable pub scan : List (List ℕ) → List ℕ → Bool
  scan [] transcript = false
  scan (prev ∷ rest) transcript = eq.ct_eq prev transcript || scan rest transcript

  -- `PersistentReplayCache::check_and_insert`: the result and the cache that is left, whatever the
  -- result.
  unfoldable pub check_and_insert :
      ⦃disk : Disk⦄ → ReplayCache → List ℕ → Result (Unit {0}) CacheError × ReplayCache
  unfolding scan remember
  check_and_insert ⦃disk⦄ cache transcript =
      if scan cache.in_memory_cache transcript
      then (err replay_detected, cache)
      else let inserted = remember cache transcript in
        let offset = cache.current_idx * hash_size in
        if not (disk.seek offset)
        then (err disk_seek_error, inserted)
        else let (written, file) = disk.write_all cache.file offset transcript in
          let persisted = record inserted { file = file } in
          if not written
          then (err disk_write_error, persisted)
          else if not (disk.sync_data file)
          then (err disk_sync_error, persisted)
          else (ok tt, record persisted { current_idx = (cache.current_idx + 1) % cache.capacity })

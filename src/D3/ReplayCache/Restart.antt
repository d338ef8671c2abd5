-- ===== src/D3/ReplayCache/Restart.antt =====
-- Opening the file: the cache that a restart finds.
use native.Mathlib.Nat.{mod-eq_of_lt, mod_self}
use native.Mathlib.Decide.{dec_lt}
use otap_signup_validator.Common.{
  ◌⊎◌, ℕ, zero, suc, ◌+◌, ◌-◌, ◌*◌, ◌%◌, ◌<◌, ◌≤◌, ◌≡◌, ◌∙◌, ap, sym, refl, arith, List, [], ◌∷◌,
  length, length-append, length-replicate, replicate, take, drop, length-take, length-drop,
  drop-drop, get_or, slice, slice-append_left, true, some, ok, err, Bool-cases, inl, inr,
}
use otap_signup_validator.D3.ReplayCache.{
  hash_size, ConstantTimeEq, Disk, replay_detected, ReplayCache, load, extended, open_cache, scan,
  check_and_insert,
}
use otap_signup_validator.D3.ReplayCache.Ring.{
  IsEquality, Works, IsCache, block, accepted, scan_iff, check_and_insert_lem,
}

length-load : (left : ℕ) (rest : List ℕ) → length (load left rest) ≤ left
unfolding load
length-load zero rest = omega arith
length-load (suc left) rest = ground (arith, length-load left (drop hash_size rest))

length-load_enough :
    (left : ℕ) (rest : List ℕ) → left * hash_size ≤ length rest → length (load left rest) ≡ left
unfolding load
length-load_enough zero rest h = refl
length-load_enough (suc left) rest h = ground (
  arith,
  length-load_enough left (drop hash_size rest),
  length-drop hash_size rest,
  length-take hash_size rest,
)

block-drop : (i : ℕ) (rest : List ℕ) → block i (drop hash_size rest) ≡ block (suc i) rest
unfolding slice
block-drop i rest =
    let width : i * hash_size + hash_size - i * hash_size ≡ 32 = omega arith in
    let width' : suc i * hash_size + hash_size - suc i * hash_size ≡ 32 = omega arith in
    let place : 32 + i * hash_size ≡ suc i * hash_size = omega arith in
    rw (width, width', drop-drop 32 (i * hash_size) rest, place)

-- One round of the loop.
load-suc :
    (left : ℕ) (rest : List ℕ)
    → (hash_size ≤ length rest)
        × (load (suc left) rest ≡ take hash_size rest ∷ load left (drop hash_size rest))
      ⊎ (load (suc left) rest ≡ [])
unfolding load
load-suc left rest = elim (dec_lt (length rest) hash_size) [
  | yes short ↦ inr (ground (arith, length-take hash_size rest))
  | no full ↦ inl (omega arith, ground (arith, length-take hash_size rest))
]

get_or-load :
    (left i : ℕ) (rest : List ℕ)
    → i < length (load left rest)
    → (i * hash_size + hash_size ≤ length rest) × (get_or (load left rest) i [] ≡ block i rest)
unfolding slice
get_or-load zero i rest h = absurd (let none_left = length-load 0 rest in omega arith)
get_or-load (suc left) zero rest h = elim (load-suc left rest) [
  | inr none_left ↦ absurd (let empty = ap length none_left in omega arith)
  | inl (room, first) ↦ rw first (room, refl)
]
get_or-load (suc left) (suc i) rest h = elim (load-suc left rest) [
  | inr none_left ↦ absurd (let empty = ap length none_left in omega arith)
  | inl (room, first) ↦
      let size = ap length first in
      let (inside, same) = get_or-load left i (drop hash_size rest) (omega arith) in
      rw first (omega (arith, length-drop hash_size rest), same ∙ block-drop i rest)
]

length-extended : (expected : ℕ) (file : List ℕ) → expected ≤ length (extended expected file)
unfolding extended
length-extended expected file = ground (
  arith,
  length-append file (replicate (expected - length file) 0),
  length-replicate {A = ℕ} (expected - length file) 0,
)

block-extended :
    (i expected : ℕ) (file : List ℕ)
    → i * hash_size + hash_size ≤ length file
    → block i (extended expected file) ≡ block i file
unfolding extended
block-extended i expected file h = ground (
  arith,
  slice-append_left (i * hash_size) (i * hash_size + hash_size) file
      (replicate (expected - length file) 0),
)

-- Opening any file with a capacity that is not 0 gives a well-formed cache of that capacity, whose
-- memory is what the loop read, mirrored in the file, with the index behind it.
pub open_cache-IsCache :
    (file : List ℕ) (capacity : ℕ)
    → 0 < capacity
    → (cache : ReplayCache) × (open_cache file capacity ≡ some cache)
      × IsCache cache
      × (cache.capacity ≡ capacity)
      × (cache.in_memory_cache ≡ load capacity file)
      × (cache.current_idx ≡ length (load capacity file) % capacity)
unfolding open_cache
open_cache-IsCache file capacity h = (
  _,
  ground arith,
  record {
    room = omega arith;
    bound = length-load capacity file;
    next = λ p. mod-eq_of_lt p;
    file = length-extended (capacity * hash_size) file;
    mirror = λ i p.
        let (inside, same) = get_or-load capacity i file p in
        same ∙ sym (block-extended i (capacity * hash_size) file inside);
  },
  refl,
  refl,
  refl,
)

-- With a comparison that decides equality and a disk without faults, every transcript of 32 bytes
-- that a well-formed cache refuses is refused as well by the cache that opening its file with the
-- same capacity gives.
pub restart-refuses :
    ⦃eq : ConstantTimeEq⦄ ⦃disk : Disk⦄ (cache : ReplayCache) (h : List ℕ)
    → IsEquality eq
    → Works disk
    → IsCache cache
    → length h ≡ hash_size
    → check_and_insert cache h ≡ (err replay_detected, cache)
    → (cache' : ReplayCache) × (open_cache cache.file cache.capacity ≡ some cache')
      × (check_and_insert cache' h ≡ (err replay_detected, cache'))
restart-refuses cache h law works c size refused =
    let (cache', opened, c', whole, loaded, place) =
      open_cache-IsCache cache.file cache.capacity (omega (arith, c.room)) in
    let seen : scan cache.in_memory_cache h ≡ true =
      elim (Bool-cases (scan cache.in_memory_cache h)) [
        | inl seen ↦ seen
        | inr fresh ↦
            let r : check_and_insert cache h ≡ (ok tt, accepted cache h) =
              check_and_insert_lem law cache h works c size ∙ rw fresh in
            absurd cc
      ] in
    let (i, inside, here) = (scan_iff law cache.in_memory_cache h).0 seen in
    let all_loaded : length cache'.in_memory_cache ≡ cache.capacity =
      ap length loaded ∙ length-load_enough cache.capacity cache.file c.file in
    let inside' : i < length cache'.in_memory_cache = omega (arith, c.bound) in
    let (_, same) = get_or-load cache.capacity i cache.file (rw (← loaded) inside') in
    let here' : get_or cache'.in_memory_cache i [] ≡ h =
      ap (λ m. get_or m i []) loaded ∙ same ∙ sym (c.mirror i inside) ∙ here in
    let seen' = (scan_iff law cache'.in_memory_cache h).1 (i, inside', here') in
    (cache', opened, check_and_insert_lem law cache' h works c' size ∙ rw seen')

-- Opening the file of a well-formed cache again with its capacity gives a cache whose memory is
-- full and whose index is 0, wherever the index was and however few hashes the memory held.
pub open_cache-restarts :
    (cache : ReplayCache) {cache' : ReplayCache}
    → IsCache cache
    → open_cache cache.file cache.capacity ≡ some cache'
    → (cache'.current_idx ≡ 0) × (length cache'.in_memory_cache ≡ cache.capacity)
open_cache-restarts cache {cache' = cache'} c e =
    let full = length-load_enough cache.capacity cache.file c.file in
    let (found, opened, c', whole, loaded, place) =
      open_cache-IsCache cache.file cache.capacity (omega (arith, c.room)) in
    let same : found ≡ cache' = cc in
    let wrapped : length (load cache.capacity cache.file) % cache.capacity ≡ 0 =
      rw full (mod_self cache.capacity) in
    rw (← same) (place ∙ wrapped, ap length loaded ∙ full)

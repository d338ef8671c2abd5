-- ===== src/D3/ReplayCache/Ring.antt =====
-- The ring in memory and its copy in the file.
use native.Mathlib.Decide.{dec_lt}
use native.Mathlib.Nat.{mod-eq_of_lt}
use otap_signup_validator.Common.{
  ℕ, zero, suc, ◌+◌, ◌*◌, ◌%◌, ◌<◌, ◌≤◌, ◌≡◌, ◌≢◌, ◌↔◌, ◌∙◌, ap, sym, refl, arith, List, [], ◌∷◌,
  length, length-append, length-set, get_or, slice, copy_from_slice, length-copy_from_slice,
  slice-copy_from_slice_self, slice-copy_from_slice_apart, true, false, Bool-cases, inl, inr, ok,
  err, get_or-set_self, get_or-set_ne, get_or-append_last, get_or-append_left, ltb, if◌then◌else◌,
  ◌⊎◌,
}
use otap_signup_validator.D3.ReplayCache.{
  hash_size, ConstantTimeEq, Disk, replay_detected, ReplayCache, scan, remember, check_and_insert,
}

-- The documented behaviour of `subtle`: the comparison decides equality.
pub record IsEquality (eq : ConstantTimeEq) : Type 0 where
  pub decides : (a b : List ℕ) → (eq.ct_eq a b ≡ true) ↔ (a ≡ b)

-- A disk without faults: seeks, writes and syncs succeed, and a write within the file replaces the
-- bytes at its offset.
pub record Works (disk : Disk) : Type 0 where
  pub seeks : (offset : ℕ) → disk.seek offset ≡ true
  pub writes :
      (file : List ℕ) (offset : ℕ) (bytes : List ℕ)
      → offset + length bytes ≤ length file
      → disk.write_all file offset bytes ≡ (true, copy_from_slice offset bytes file)
  pub syncs : (file : List ℕ) → disk.sync_data file ≡ true

-- Hash `i` of a file.
abbrev pub block : ℕ → List ℕ → List ℕ
block i file = slice (i * hash_size) (i * hash_size + hash_size) file

-- Memory mirrors the first hashes of the file, and the index is where the next one goes.
pub record IsCache (cache : ReplayCache) : Type 0 where
  pub room : cache.current_idx < cache.capacity
  pub bound : length cache.in_memory_cache ≤ cache.capacity
  pub next :
      length cache.in_memory_cache < cache.capacity
      → cache.current_idx ≡ length cache.in_memory_cache
  pub file : cache.capacity * hash_size ≤ length cache.file
  pub mirror :
      (i : ℕ)
      → i < length cache.in_memory_cache
      → get_or cache.in_memory_cache i [] ≡ block i cache.file

-- The cache after an accepted transcript.
abbrev pub accepted : ReplayCache → List ℕ → ReplayCache
accepted cache transcript = record {
  file = copy_from_slice (cache.current_idx * hash_size) transcript cache.file;
  capacity = cache.capacity;
  current_idx = (cache.current_idx + 1) % cache.capacity;
  in_memory_cache = (remember cache transcript).in_memory_cache;
}

block-copy_self :
    (i : ℕ) (h file : List ℕ)
    → length h ≡ hash_size
    → i * hash_size + hash_size ≤ length file
    → block i (copy_from_slice (i * hash_size) h file) ≡ h
block-copy_self i h file size room =
    slice-copy_from_slice_self (i * hash_size) (i * hash_size + hash_size) h file (omega arith) room

block-copy_ne :
    (i j : ℕ) (h file : List ℕ)
    → length h ≡ hash_size
    → i ≢ j
    → block j (copy_from_slice (i * hash_size) h file) ≡ block j file
block-copy_ne i j h file size ne =
    slice-copy_from_slice_apart (j * hash_size) (j * hash_size + hash_size) (i * hash_size) h file
      (elim (dec_lt j i) [ yes p ↦ inl (omega arith, omega arith) | no n ↦ inr (omega arith) ])

pub length-remember :
    (cache : ReplayCache) (h : List ℕ)
    → length cache.in_memory_cache ≤ length (remember cache h).in_memory_cache
unfolding remember
length-remember cache h = ground (
  arith,
  length-append cache.in_memory_cache (h ∷ []),
  length-set cache.in_memory_cache cache.current_idx h,
)

-- What is remembered at each place.
pub get_or-remember :
    (cache : ReplayCache) (h : List ℕ) (i : ℕ)
    → IsCache cache
    → i < length (remember cache h).in_memory_cache
    → (i ≡ cache.current_idx) × (get_or (remember cache h).in_memory_cache i [] ≡ h)
      ⊎ (i ≢ cache.current_idx)
        × (i < length cache.in_memory_cache)
        × (get_or (remember cache h).in_memory_cache i [] ≡ get_or cache.in_memory_cache i [])
unfolding remember
get_or-remember cache h i c p = ground (
  arith,
  c.next,
  c.bound,
  length-append cache.in_memory_cache (h ∷ []),
  length-set cache.in_memory_cache cache.current_idx h,
  get_or-append_last cache.in_memory_cache h [],
  get_or-append_left cache.in_memory_cache (h ∷ []) i [],
  get_or-set_self cache.in_memory_cache cache.current_idx h [],
  get_or-set_ne cache.in_memory_cache cache.current_idx i h [],
)

pub length-remember_room :
    (cache : ReplayCache) (h : List ℕ)
    → length (remember cache h).in_memory_cache ≡ (
        if ltb (length cache.in_memory_cache) cache.capacity
        then suc (length cache.in_memory_cache)
        else length cache.in_memory_cache)
unfolding remember
length-remember_room cache h = ground (
  arith,
  length-append cache.in_memory_cache (h ∷ []),
  length-set cache.in_memory_cache cache.current_idx h,
)

next_place :
    (size place capacity size' : ℕ)
    → size' ≡ (if ltb size capacity then suc size else size)
    → size ≤ capacity
    → (size < capacity → place ≡ size)
    → size' < capacity
    → (place + 1) % capacity ≡ size'
next_place size place capacity size' e bound here h =
    let room : size < capacity = ground arith in
    let one : size' ≡ place + 1 = ground (arith, here room) in mod-eq_of_lt (omega arith) ∙ sym one

pub accepted-IsCache :
    (cache : ReplayCache) (h : List ℕ)
    → IsCache cache
    → length h ≡ hash_size
    → IsCache (accepted cache h)
accepted-IsCache cache h c size = record {
  room = omega (arith, c.room);
  bound = ground (arith, length-remember_room cache h, c.bound);
  next = λ p. next_place _ _ _ _ (length-remember_room cache h) c.bound c.next p;
  file = omega (arith, c.file, length-copy_from_slice (cache.current_idx * hash_size) h cache.file);
  mirror = λ i p. elim (get_or-remember cache h i c p) [
    | inl (e, v) ↦
        v
        ∙ sym (block-copy_self i h cache.file size (omega (arith, c.file, c.room)))
        ∙ ap (λ k. block i (copy_from_slice (k * hash_size) h cache.file)) e
    | inr (ne, q, v) ↦
        v
        ∙ c.mirror i q
        ∙ sym (block-copy_ne cache.current_idx i h cache.file size (λ e. ne (sym e)))
  ];
}

module _ ⦃eq : ConstantTimeEq⦄ (law : IsEquality eq) where
  scan_rest :
      (prev : List ℕ) (rest : List (List ℕ)) (h : List ℕ) (i : ℕ)
      → eq.ct_eq prev h ≡ false
      → i < length (prev ∷ rest)
      → get_or (prev ∷ rest) i [] ≡ h
      → (j : ℕ) × (j < length rest) × (get_or rest j [] ≡ h)
  scan_rest prev rest h zero other p e = let same = (law.decides prev h).1 e in absurd (cc)
  scan_rest prev rest h (suc i) other p e = (i, omega arith, e)

  pub scan_iff :
      (hashes : List (List ℕ)) (h : List ℕ)
      → (scan hashes h ≡ true) ↔ ((i : ℕ) × (i < length hashes) × (get_or hashes i [] ≡ h))
  unfolding scan
  scan_iff [] h = (λ e. absurd (cc), λ w. absurd (omega (arith, w.1)))
  scan_iff (prev ∷ rest) h = elim (Bool-cases (eq.ct_eq prev h)) [
    | inl same ↦ rw same ((λ _. (0, omega arith, (law.decides prev h).0 same)), (λ _. refl))
    | inr other ↦ rw other (
      (λ e. let (i, p, q) = (scan_iff rest h).0 e in (suc i, omega arith, q)),
      (λ w. (scan_iff rest h).1 (scan_rest prev rest h w.0 other w.1 w.2)),
    )
  ]

  -- On a disk without faults, a transcript of 32 bytes is refused as a replay, with the cache
  -- unchanged, exactly when memory holds it, and is accepted into memory and the file otherwise.
  pub check_and_insert_lem :
      ⦃disk : Disk⦄ (cache : ReplayCache) (h : List ℕ)
      → Works disk
      → IsCache cache
      → length h ≡ hash_size
      → check_and_insert cache h ≡ (
          if scan cache.in_memory_cache h
          then (err replay_detected, cache)
          else (ok tt, accepted cache h))
  unfolding check_and_insert
  check_and_insert_lem cache h works c size =
      rw
        (
          works.seeks (cache.current_idx * hash_size),
          works.writes cache.file (cache.current_idx * hash_size) h (omega (arith, c.file, c.room)),
          works.syncs (copy_from_slice (cache.current_idx * hash_size) h cache.file),
        )
        refl

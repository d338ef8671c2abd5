-- ===== src/D3/ReplayCache/Opening.antt =====
-- `PersistentReplayCache::open` of crates/luxstream-otap-d3/src/replay_cache.rs over file operations that
-- may fail, and reads that may be short.
use otap_signup_validator.Common.{
  ℕ, zero, suc, ◌+◌, ◌*◌, ◌%◌, ◌≤◌, ◌<◌, ◌≡◌, inl, inr, refl, arith, ap, List, [], ◌∷◌, length,
  take, drop, length-take, min, Bool, Bool-cases, subst, true, false, Result, ok, err, Result-cases,
  ◌>>=◌, map_err, ok_or, ltb, ◌==◌, if◌then◌else◌,
}
use otap_signup_validator.D3.ReplayCache.{hash_size, ReplayCache, load, extended, open_cache}

-- The file operations of the standard library: the bytes of the file that is opened or created, what
-- read number `i` returns where so many bytes are left, and the file with another length.
pub record FileOps (E : Type 0) : Type 0 where
  pub open_or_create : List ℕ → Result (List ℕ) E
  pub seek_start : Result (Unit {0}) E
  pub read_count : ℕ → ℕ → Result ℕ E
  pub metadata_len : List ℕ → Result ℕ E
  pub set_len : List ℕ → ℕ → Result (List ℕ) E

-- The documented behaviour of `read`: it returns no more bytes than are left.
pub record Reads {E : Type 0} (ops : FileOps E) : Type 0 where
  pub bounded : (i left n : ℕ) → ops.read_count i left ≡ ok n → n ≤ left

-- How opening ends without a cache; the panic is the division by a capacity of 0.
pub data OpenError (E : Type 0) : Type 0 where
  io : E → OpenError E
  divided_by_zero : OpenError E

-- `Ok(bytes_read)` with `bytes_read == HASH_SIZE`
abbrev pub count_fills : {E : Type 0} → Result ℕ E → Bool
count_fills (ok n) = n == hash_size
count_fills (err e) = false

module _ {E : Type 0} (ops : FileOps E) where
  -- Read number `i` fills the buffer.
  abbrev pub fills : ℕ → List ℕ → Bool
  fills i rest = count_fills (ops.read_count i (length rest))

  -- The loop of `open`: a read that fails or is short ends it.
  unfoldable pub load_with : ℕ → ℕ → List ℕ → List (List ℕ)
  load_with i zero rest = []
  load_with i (suc left) rest =
      let more = load_with (i + 1) left (drop hash_size rest) in
      if fills i rest then take hash_size rest ∷ more else []

  -- `PersistentReplayCache::open`
  unfoldable pub open_with : List ℕ → ℕ → Result ReplayCache (OpenError E)
  open_with path capacity = do
    file ← map_err io (ops.open_or_create path)
    _ ← map_err io ops.seek_start
    let loaded = load_with 0 capacity file
    if capacity == 0 then err divided_by_zero else (do
      size ← map_err io (ops.metadata_len file)
      sized ←
          if ltb size (capacity * hash_size)
          then map_err io (ops.set_len file (capacity * hash_size))
          else ok file
      ok (record {
        file = sized;
        capacity = capacity;
        current_idx = length loaded % capacity;
        in_memory_cache = loaded;
      }))

  -- How many reads of the loop fill the buffer, before one does not.
  unfoldable pub whole_reads : ℕ → ℕ → List ℕ → ℕ
  whole_reads i zero rest = 0
  whole_reads i (suc left) rest =
      let more = whole_reads (i + 1) left (drop hash_size rest) in
      if fills i rest then suc more else 0

  fills-eq-true :
      Reads ops → (i : ℕ) (rest : List ℕ) → fills i rest ≡ true → hash_size ≤ length rest
  fills-eq-true r i rest h = elim (Result-cases (ops.read_count i (length rest))) [
    | inl (n, got) ↦
        let few = r.bounded i (length rest) n got in
        let full : (n == hash_size) ≡ true = subst (λ c. count_fills c ≡ true) got h in
        ground (arith, few, full)
    | inr (e, failed) ↦
        let none_filled : false ≡ true = subst (λ c. count_fills c ≡ true) failed h in absurd cc
  ]

  load_with-take :
      Reads ops
      → (i left : ℕ) (rest : List ℕ)
      → load_with i left rest ≡ take (whole_reads i left rest) (load left rest)
  unfolding load_with whole_reads load
  load_with-take r i zero rest = refl
  load_with-take r i (suc left) rest =
      let more = load_with-take r (i + 1) left (drop hash_size rest) in
      elim (Bool-cases (fills i rest)) [
        | inl full ↦
            let enough = fills-eq-true r i rest full in
            let size = length-take hash_size rest in
            let whole : (length (take hash_size rest) == hash_size) ≡ true =
              ground (arith, enough, size) in
            rw (full, whole) (ap (λ hs. take hash_size rest ∷ hs) more)
        | inr short ↦ rw short refl
      ]

  -- Where opening gives a cache, its capacity is not 0 and its memory holds the hashes of the file up to
  -- the first read that fails or is short, with the index behind them: the hashes after such a read
  -- are left out without an error. Reads return no more than is left.
  pub open_with_lem :
      (path : List ℕ) (capacity : ℕ) {cache : ReplayCache}
      → Reads ops
      → open_with path capacity ≡ ok cache
      → (file : List ℕ) × (ops.open_or_create path ≡ ok file)
        × (0 < capacity)
        × (cache.capacity ≡ capacity)
        × (cache.in_memory_cache ≡ take (whole_reads 0 capacity file) (load capacity file))
        × (cache.current_idx ≡ length cache.in_memory_cache % capacity)
  unfolding open_with
  open_with_lem path capacity {cache} r h = elim (Result-cases (ops.open_or_create path)) [
    | inr (e, failed) ↦ ground (arith, failed)
    | inl (file, opened) ↦
        let loaded = load_with-take r 0 capacity file in
        elim (Result-cases ops.seek_start) [
          | inr (e, failed) ↦ ground (arith, opened, failed)
          | inl (start, sought) ↦ elim (Result-cases (ops.metadata_len file)) [
            | inr (e, failed) ↦ ground (arith, opened, sought, failed)
            | inl (size, measured) ↦ ground (arith, opened, sought, measured, loaded)
          ]
        ]
  ]

  -- File operations that succeed, with reads that fill the buffer where the file has enough bytes.
  pub record Whole (path file : List ℕ) : Type 0 where
    pub opened : ops.open_or_create path ≡ ok file
    pub sought : ops.seek_start ≡ ok tt
    pub read : (i left : ℕ) → ops.read_count i left ≡ ok (min hash_size left)
    pub measured : ops.metadata_len file ≡ ok (length file)
    pub sized : (n : ℕ) → ops.set_len file n ≡ ok (extended n file)

  load_with-load :
      {path file : List ℕ}
      → Whole path file
      → (i left : ℕ) (rest : List ℕ) → load_with i left rest ≡ load left rest
  unfolding load_with load
  load_with-load w i zero rest = refl
  load_with-load w i (suc left) rest =
      let more = load_with-load w (i + 1) left (drop hash_size rest) in
      rw (w.read i (length rest), length-take hash_size rest, more) refl

  -- With such file operations, opening is `open_cache` on the bytes of the file.
  pub open_with-open_cache :
      (path : List ℕ) (capacity : ℕ) {file : List ℕ}
      → Whole path file
      → open_with path capacity ≡ ok_or (open_cache file capacity) divided_by_zero
  unfolding open_with open_cache extended
  open_with-open_cache path capacity {file} w =
      let loaded = load_with-load w 0 capacity file in
      let opened = w.opened in
      let sought = w.sought in
      let measured = w.measured in
      let sized = w.sized (capacity * hash_size) in
      elim (Bool-cases (capacity == 0)) [
        | inl none_left ↦ rw (opened, sought, none_left) refl
        | inr some_left ↦ elim (Bool-cases (ltb (length file) (capacity * hash_size))) [
          | inl small ↦
              rw (opened, loaded, sought, some_left, measured, small, sized) (rw small refl)
          | inr large ↦ rw (opened, loaded, sought, some_left, measured, large) refl
        ]
      ]

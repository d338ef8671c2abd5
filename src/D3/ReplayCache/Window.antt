-- ===== src/D3/ReplayCache/Window.antt =====
-- How long the cache remembers a transcript.
use native.Mathlib.Nat.{mod-eq_of_lt, mod_self}
use native.Mathlib.Decide.{ℕ_discrete}
use otap_signup_validator.Common.{
  ℕ, zero, suc, ◌+◌, ◌-◌, ◌%◌, ◌<◌, ◌≤◌, ◌≡◌, ◌∙◌, refl, arith, List, [], ◌∷◌, length, get_or, All,
  Bool-cases, inl, inr, ok, err, leb, if◌then◌else◌, ◌≢◌,
}
use otap_signup_validator.D3.ReplayCache.{
  hash_size, ConstantTimeEq, Disk, replay_detected, ReplayCache, remember, scan, check_and_insert,
}
use otap_signup_validator.D3.ReplayCache.Ring.{
  IsEquality, Works, IsCache, accepted, get_or-remember, length-remember, length-remember_room,
  accepted-IsCache, scan_iff, check_and_insert_lem,
}

-- The number of inserts before place `i` is overwritten.
abbrev distance : ℕ → ℕ → ℕ → ℕ
distance current i capacity = if leb current i then i - current else i + capacity - current

next_idx :
    (current capacity : ℕ)
    → current < capacity
    → (current + 1) % capacity ≡ (if leb capacity (current + 1) then 0 else current + 1)
next_idx current capacity h = elim (ℕ_discrete (current + 1) capacity) [
  | yes e ↦ let wraps : (current + 1) % capacity ≡ 0 = rw e (mod_self capacity) in ground arith
  | no n ↦
      let stays : (current + 1) % capacity ≡ current + 1 = mod-eq_of_lt (omega arith) in
      ground arith
]

-- The transcript stands at place `i`, which the next `d` inserts leave alone.
record Held (cache : ReplayCache) (h : List ℕ) (i d : ℕ) : Type 0 where
  inside : i < length cache.in_memory_cache
  here : get_or cache.in_memory_cache i [] ≡ h
  away : d ≤ distance cache.current_idx i cache.capacity

-- One call after another, whatever the results.
abbrev pub insert_run :
    ⦃eq : ConstantTimeEq⦄ ⦃disk : Disk⦄ → ReplayCache → List (List ℕ) → ReplayCache
insert_run cache [] = cache
insert_run cache (h ∷ hs) = insert_run (check_and_insert cache h).1 hs

Held-accepted :
    (cache : ReplayCache) (h k : List ℕ) (i d : ℕ)
    → IsCache cache
    → Held cache h i (suc d)
    → Held (accepted cache k) h i d
Held-accepted cache h k i d c held =
    let inside : i < length (remember cache k).in_memory_cache =
      omega (arith, length-remember cache k, held.inside) in
    let apart : i ≢ cache.current_idx = ground (arith, held.away) in
    record {
      inside = inside;
      here = elim (get_or-remember cache k i c inside) [
        | inl w ↦ absurd (apart w.0)
        | inr w ↦ w.2 ∙ held.here
      ];
      away = ground (
        arith,
        held.away,
        held.inside,
        c.bound,
        c.room,
        next_idx cache.current_idx cache.capacity c.room,
      );
    }

Held-new :
    (cache : ReplayCache) (h : List ℕ)
    → IsCache cache
    → Held (accepted cache h) h cache.current_idx (cache.capacity - 1)
Held-new cache h c =
    let inside : cache.current_idx < length (remember cache h).in_memory_cache =
      ground (arith, length-remember_room cache h, c.next, c.bound, c.room) in
    record {
      inside = inside;
      here = elim (get_or-remember cache h cache.current_idx c inside) [
        | inl w ↦ w.1
        | inr w ↦ absurd (w.0 refl)
      ];
      away = ground (arith, c.room, next_idx cache.current_idx cache.capacity c.room);
    }

module _ ⦃eq : ConstantTimeEq⦄ ⦃disk : Disk⦄ (law : IsEquality eq) (works : Works disk) where
  Held-refused :
      (cache : ReplayCache) (h : List ℕ) (i d : ℕ)
      → IsCache cache
      → length h ≡ hash_size
      → Held cache h i d
      → check_and_insert cache h ≡ (err replay_detected, cache)
  Held-refused cache h i d c size held =
      let seen = (scan_iff law cache.in_memory_cache h).1 (i, held.inside, held.here) in
      check_and_insert_lem law cache h works c size ∙ rw seen

  insert_run-Held :
      (hs : List (List ℕ)) (cache : ReplayCache) (h : List ℕ) (i d : ℕ)
      → IsCache cache
      → All (λ k. length k ≡ hash_size) hs
      → length hs ≤ d
      → Held cache h i d
      → IsCache (insert_run cache hs) × ((e : ℕ) × Held (insert_run cache hs) h i e)
  insert_run-Held [] cache h i d c sizes few held = (c, (d, held))
  insert_run-Held (k ∷ ks) cache h i zero c sizes few held = absurd (omega arith)
  insert_run-Held (k ∷ ks) cache h i (suc d) c (size, sizes) few held =
      elim (Bool-cases (scan cache.in_memory_cache k)) [
        | inl seen ↦
            rw (check_and_insert_lem law cache k works c size, seen)
              (insert_run-Held ks cache h i (suc d) c sizes (omega arith) held)
        | inr fresh ↦
            rw (check_and_insert_lem law cache k works c size, fresh)
              (insert_run-Held ks (accepted cache k) h i d (accepted-IsCache cache k c size) sizes
                (omega arith) (Held-accepted cache h k i d c held))
      ]

  -- With a comparison that decides equality and a disk without faults, a transcript of 32 bytes
  -- that a well-formed cache accepts is refused as a replay after any later calls with transcripts
  -- of 32 bytes, accepted or not, as long as they are fewer than the capacity.
  pub check_and_insert-window :
      (cache : ReplayCache) (h : List ℕ) (hs : List (List ℕ)) {cache' : ReplayCache}
      → IsCache cache
      → length h ≡ hash_size
      → All (λ k. length k ≡ hash_size) hs
      → length hs < cache.capacity
      → check_and_insert cache h ≡ (ok tt, cache')
      → check_and_insert (insert_run cache' hs) h ≡ (err replay_detected, insert_run cache' hs)
  check_and_insert-window cache h hs {cache' = cache'} c size sizes few e =
      let after : cache' ≡ accepted cache h = elim (Bool-cases (scan cache.in_memory_cache h)) [
        | inl seen ↦
            let r : check_and_insert cache h ≡ (err replay_detected, cache) =
              check_and_insert_lem law cache h works c size ∙ rw seen in
            absurd cc
        | inr fresh ↦
            let r : check_and_insert cache h ≡ (ok tt, accepted cache h) =
              check_and_insert_lem law cache h works c size ∙ rw fresh in
            cc
      ] in
      let (c', (_, held)) =
        insert_run-Held hs (accepted cache h) h cache.current_idx (cache.capacity - 1)
          (accepted-IsCache cache h c size) sizes (omega arith) (Held-new cache h c) in
      rw after (Held-refused (insert_run (accepted cache h) hs) h cache.current_idx _ c' size held)

  -- With a comparison that decides equality and a disk without faults, `check_and_insert` of 32
  -- bytes keeps a cache well formed, whatever its result.
  pub check_and_insert-IsCache :
      (cache : ReplayCache) (h : List ℕ)
      → IsCache cache
      → length h ≡ hash_size
      → IsCache (check_and_insert cache h).1
  check_and_insert-IsCache cache h c size = elim (Bool-cases (scan cache.in_memory_cache h)) [
    | inl seen ↦ rw (check_and_insert_lem law cache h works c size, seen) c
    | inr fresh ↦
        rw (check_and_insert_lem law cache h works c size, fresh) (accepted-IsCache cache h c size)
  ]

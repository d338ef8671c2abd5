-- ===== src/Flr/Utf8.antt =====
-- UTF-8, in which the text of a query stands, and how many of its bytes are not ASCII.
use otap_signup_validator.Common.{
  ℕ, suc, ◌+◌, ◌/◌, ◌%◌, ◌<◌, ◌≤◌, ◌≡◌, List, [], ◌∷◌, ◌++◌, true, false, ltb, if◌then◌else◌, All,
  Bool-cases, inl, inr, arith, refl, ap,
}

-- UTF-8, the encoding of a `str`.
unfoldable pub utf8_char : ℕ → List ℕ
utf8_char c =
    if ltb c 0x80
    then c ∷ []
    else if ltb c 0x800
    then (0xc0 + c / 64) ∷ (0x80 + c % 64) ∷ []
    else if ltb c 0x10000
    then (0xe0 + c / 4096) ∷ (0x80 + c / 64 % 64) ∷ (0x80 + c % 64) ∷ []
    else (0xf0 + c / 262144) ∷ (0x80 + c / 4096 % 64) ∷ (0x80 + c / 64 % 64) ∷ (0x80 + c % 64) ∷ []

unfoldable pub utf8 : List ℕ → List ℕ
utf8 [] = []
utf8 (c ∷ cs) = utf8_char c ++ utf8 cs

pub utf8-ascii : (s : List ℕ) → All (λ c. c < 0x80) s → utf8 s ≡ s
unfolding utf8 utf8_char
utf8-ascii [] h = refl
utf8-ascii (c ∷ s) h =
    let short : ltb c 0x80 ≡ true = ground (arith, h) in
    rw short (ap (λ cs. c ∷ cs) (utf8-ascii s h.1))

-- How many bytes, or characters, are not ASCII.
abbrev pub high : List ℕ → ℕ
high [] = 0
high (x ∷ xs) = if ltb x 0x80 then high xs else suc (high xs)

pub high-append : (xs ys : List ℕ) → high (xs ++ ys) ≡ high xs + high ys
high-append [] ys = omega arith
high-append (x ∷ xs) ys = ground (arith, high-append xs ys)

-- UTF-8 has two bytes or more that are not ASCII for each such character, and none for another.
high-utf8_short : (c : ℕ) → ltb c 0x80 ≡ true → high (utf8_char c) ≡ 0
unfolding utf8_char
high-utf8_short c h = ground (arith, h)

high-utf8_wide : (c : ℕ) → ltb c 0x80 ≡ false → 2 ≤ high (utf8_char c)
unfolding utf8_char
high-utf8_wide c h = ground (arith, h)

high-utf8 : (s : List ℕ) → high s ≤ high (utf8 s)
unfolding utf8
high-utf8 [] = omega arith
high-utf8 (c ∷ s) =
    let rest = high-utf8 s in
    let split = high-append (utf8_char c) (utf8 s) in
    elim (Bool-cases (ltb c 0x80)) [
      | inl short ↦ rw short (omega (arith, rest, split, high-utf8_short c short))
      | inr wide ↦ rw wide (omega (arith, rest, split, high-utf8_wide c wide))
    ]

-- A text has no fewer such characters than its encoding has such bytes only if all of it is ASCII.
pub utf8-high_ascii : (s : List ℕ) → high (utf8 s) ≤ high s → All (λ c. c < 0x80) s
unfolding utf8
utf8-high_ascii [] h = tt
utf8-high_ascii (c ∷ s) h =
    let longer = high-utf8 s in
    let split = high-append (utf8_char c) (utf8 s) in
    elim (Bool-cases (ltb c 0x80)) [
      | inl short ↦
          let first = high-utf8_short c short in
          (ground (arith, short), utf8-high_ascii s (ground (arith, short, split, first)))
      | inr wide ↦
          let first = high-utf8_wide c wide in absurd (ground (arith, wide, split, first, longer))
    ]

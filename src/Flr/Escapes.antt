-- ===== src/Flr/Escapes.antt =====
-- What `urlencode` of crates/otap-flr-client/src/lib.rs means to the server that reads the query.
use native.Mathlib.Decide.{dec_lt}
use otap_signup_validator.Common.{
  ℕ, zero, suc, ◌^◌, ◌+◌, ◌-◌, ◌*◌, ◌/◌, ◌%◌, ◌<◌, ◌≤◌, ◌≡◌, ◌↔◌, List, [], ◌∷◌, ◌++◌, Option, none,
  some, true, false, ◌&&◌, leb, ltb, ◌==◌, if◌then◌else◌, All, All-append, Bool-cases, inl, inr,
  arith, refl, ap, sym, ◌∙◌,
}
use otap_signup_validator.Flr.Url.{is_unreserved, hex_digit, hex_digits, encode_char, urlencode}
use otap_signup_validator.Flr.Utf8.{utf8, utf8-ascii, high, high-append, utf8-high_ascii}

-- The bytes of a percent-encoded text as RFC 3986 reads it: `%` and two hexadecimal digits stand for a
-- byte, and an ASCII character for its own.
abbrev pub hex_value : ℕ → Option ℕ
hex_value c =
    if leb 48 c && leb c 57
    then some (c - 48)
    else if leb 65 c && leb c 70
    then some (c - 55)
    else none

abbrev percent : Option ℕ → Option ℕ → Option (List ℕ) → Option (List ℕ)
percent (some h) (some l) (some rest) = some ((h * 16 + l) ∷ rest)
percent _ _ _ = none

abbrev keep : ℕ → Option (List ℕ) → Option (List ℕ)
keep c (some rest) = some (c ∷ rest)
keep c none = none

unfoldable pub percent_decode : List ℕ → Option (List ℕ)
percent_decode [] = some []
percent_decode (c ∷ []) = if c == 37 then none else some (c ∷ [])
percent_decode (c ∷ h ∷ []) = if c == 37 then none else keep c (percent_decode (h ∷ []))
percent_decode (c ∷ h ∷ l ∷ cs) =
    let escaped = percent_decode cs in
    let plain = percent_decode (h ∷ l ∷ cs) in
    if c == 37 then percent (hex_value h) (hex_value l) escaped else keep c plain

percent_decode-plain :
    (c : ℕ) (rest : List ℕ)
    → c == 37 ≡ false
    → percent_decode (c ∷ rest) ≡ keep c (percent_decode rest)
unfolding percent_decode
percent_decode-plain c [] h = rw h refl
percent_decode-plain c (x ∷ []) h = rw h refl
percent_decode-plain c (x ∷ y ∷ rest) h = rw h refl

hex_value-hex_digit : (d : ℕ) → d < 16 → hex_value (hex_digit d) ≡ some d
hex_value-hex_digit d h = ground arith

percent-keep :
    (h l : ℕ) (rest : Option (List ℕ)) → percent (some h) (some l) rest ≡ keep (h * 16 + l) rest
percent-keep h l none = refl
percent-keep h l (some rest) = refl

percent_decode-encode_char :
    (c : ℕ) (rest : List ℕ)
    → c < 256
    → percent_decode (encode_char c ++ rest) ≡ keep c (percent_decode rest)
unfolding encode_char percent_decode
percent_decode-encode_char c rest h = elim (Bool-cases (is_unreserved c)) [
  | inl kept ↦
      let plain : c == 37 ≡ false = ground arith in rw kept (percent_decode-plain c rest plain)
  | inr escaped ↦
      let byte : ltb c 256 ≡ true = ground arith in
      let high = hex_value-hex_digit (c / 16) (omega arith) in
      let low = hex_value-hex_digit (c % 16) (omega arith) in
      let whole : c / 16 * 16 + c % 16 ≡ c = omega arith in
      rw (escaped, byte, high, low, percent-keep, whole) refl
]

percent_decode-urlencode_ascii :
    (s : List ℕ) → All (λ c. c < 0x80) s → percent_decode (urlencode s) ≡ some s
unfolding urlencode percent_decode
percent_decode-urlencode_ascii [] h = refl
percent_decode-urlencode_ascii (c ∷ s) h =
    percent_decode-encode_char c (urlencode s) (omega (arith, h))
    ∙ ap (keep c) (percent_decode-urlencode_ascii s h.1)

-- The characters of hexadecimal digits.
abbrev Plain : ℕ → Type 0
Plain x = (x < 0x80) × (x == 37 ≡ false)

hex_digit-Plain : (d : ℕ) → d < 16 → Plain (hex_digit d)
hex_digit-Plain d h = (ground arith, ground arith)

-- Two digits or more.
hex_digits_lem :
    (left n : ℕ)
    → n < 256 * 16 ^ left
    → (h : ℕ) × (l : ℕ) × (tail : List ℕ) × (h < 16)
      × (l < 16)
      × All Plain tail
      × (hex_digits left n ≡ hex_digit h ∷ hex_digit l ∷ tail)
hex_digits_lem zero n b = (n / 16, n % 16, [], omega (arith, b), omega arith, tt, refl)
hex_digits_lem (suc left) n b = elim (Bool-cases (ltb n 256)) [
  | inl small ↦
      let small_n : n < 256 = ground arith in
      (n / 16, n % 16, [], omega arith, omega arith, tt, rw small refl)
  | inr large ↦
      let (h, l, tail, hh, ll, plain, e) = hex_digits_lem left (n / 16) (omega (arith, b)) in
      (
        h,
        l,
        tail ++ (hex_digit (n % 16) ∷ []),
        hh,
        ll,
        All-append Plain tail (hex_digit (n % 16) ∷ []) plain
            (hex_digit-Plain (n % 16) (omega arith), tt),
        rw (large, e) refl,
      )
]

percent_decode-Plain :
    (xs rest out : List ℕ)
    → All Plain xs
    → percent_decode rest ≡ some out
    → percent_decode (xs ++ rest) ≡ some (xs ++ out)
percent_decode-Plain [] rest out plain e = e
percent_decode-Plain (x ∷ xs) rest out plain e =
    percent_decode-plain x (xs ++ rest) plain.0.1
    ∙ ap (keep x) (percent_decode-Plain xs rest out plain.1 e)

high-Plain : (xs : List ℕ) → All Plain xs → high xs ≡ 0
high-Plain [] h = refl
high-Plain (x ∷ xs) h = ground (arith, h, high-Plain xs h.1)

high_first : (x : ℕ) (xs : List ℕ) → high xs ≡ 0 → high (x ∷ xs) ≤ 1
high_first x xs h = ground (arith, h)

-- A character above 255 is read back as one byte and digits.
percent_decode-wide :
    (c : ℕ) (rest out : List ℕ)
    → 256 ≤ c
    → c < 0x110000
    → percent_decode rest ≡ some out
    → (bytes : List ℕ) × (high bytes ≤ 1)
      × (percent_decode (encode_char c ++ rest) ≡ some (bytes ++ out))
unfolding encode_char percent_decode
percent_decode-wide c rest out wide bound e =
    let escaped : is_unreserved c ≡ false = ground (arith, wide) in
    let (h, l, tail, hh, ll, plain, digits) = hex_digits_lem 4 c (omega (arith, bound)) in
    let read = percent_decode-Plain tail rest out plain e in
    let high_digit = hex_value-hex_digit h hh in
    let low_digit = hex_value-hex_digit l ll in
    (
      (h * 16 + l) ∷ tail,
      high_first (h * 16 + l) tail (high-Plain tail plain),
      rw (escaped, digits, high_digit, low_digit, read) refl,
    )

-- What is read back has at most one byte for each character that is not ASCII.
percent_decode-urlencode_few :
    (s : List ℕ)
    → All (λ c. c < 0x110000) s
    → (out : List ℕ) × (percent_decode (urlencode s) ≡ some out) × (high out ≤ high s)
unfolding urlencode percent_decode
percent_decode-urlencode_few [] h = ([], refl, omega arith)
percent_decode-urlencode_few (c ∷ s) h =
    let (out, read, few) = percent_decode-urlencode_few s h.1 in
    elim (dec_lt c 256) [
      | yes byte ↦ (
        c ∷ out,
        percent_decode-encode_char c (urlencode s) byte ∙ ap (keep c) read,
        ground (arith, few),
      )
      | no wide ↦
          let (bytes, one, e) =
            percent_decode-wide c (urlencode s) out (omega (arith, wide)) h.0 read in
          let split = high-append bytes out in
          let wide_c : ltb c 0x80 ≡ false = ground (arith, wide) in
          (bytes ++ out, e, rw wide_c (omega (arith, split, one, few)))
    ]

-- What `urlencode` makes of any text is read back as the bytes of that text, in UTF-8, exactly when all
-- of it is ASCII: a text with any other character, which is escaped by its code point in place of its
-- bytes, is not.
pub percent_decode-urlencode :
    (s : List ℕ)
    → All (λ c. c < 0x110000) s
    → (percent_decode (urlencode s) ≡ some (utf8 s)) ↔ All (λ c. c < 0x80) s
percent_decode-urlencode s h =
    let (out, read, few) = percent_decode-urlencode_few s h in
    (
      λ e.
          let same : out ≡ utf8 s = cc in
          utf8-high_ascii s (let size = ap high same in omega (arith, size, few)),
      λ ascii. percent_decode-urlencode_ascii s ascii ∙ ap some (sym (utf8-ascii s ascii)),
    )

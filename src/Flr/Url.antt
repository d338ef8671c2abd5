-- ===== src/Flr/Url.antt =====
-- crates/otap-flr-client/src/lib.rs: the texts of a URL, as lists of characters by code point.
use otap_signup_validator.Common.{
  ℕ, zero, suc, ◌+◌, ◌/◌, ◌%◌, List, [], ◌∷◌, ◌++◌, Bool, ◌&&◌, ◌||◌, leb, ltb, ◌==◌, if◌then◌else◌,
}
use otap_signup_validator.Common.Int.{ℤ, pos, negsuc}

-- The characters that `urlencode` keeps: letters, digits, and - _ . ~
abbrev pub is_unreserved : ℕ → Bool
is_unreserved c =
    (leb 97 c && leb c 122)
    || (leb 65 c && leb c 90)
    || (leb 48 c && leb c 57)
    || c == 45
    || c == 95
    || c == 46
    || c == 126

-- An upper-case hexadecimal digit.
abbrev pub hex_digit : ℕ → ℕ
hex_digit d = if ltb d 10 then 48 + d else 55 + d

-- `{:02X}`: hexadecimal with at least two digits, for a number below 16 ^ (left + 2)
abbrev pub hex_digits : ℕ → ℕ → List ℕ
hex_digits zero n = hex_digit (n / 16) ∷ hex_digit (n % 16) ∷ []
hex_digits (suc left) n =
    if ltb n 256
    then hex_digit (n / 16) ∷ hex_digit (n % 16) ∷ []
    else hex_digits left (n / 16) ++ (hex_digit (n % 16) ∷ [])

-- The text of a character; a code point has at most six digits.
unfoldable pub encode_char : ℕ → List ℕ
encode_char c = if is_unreserved c then c ∷ [] else 37 ∷ hex_digits 4 c

-- `urlencode`
unfoldable pub urlencode : List ℕ → List ℕ
unfolding encode_char
urlencode [] = []
urlencode (c ∷ cs) = encode_char c ++ urlencode cs

-- `trim_end_matches('/')`
unfoldable pub trim_slashes : List ℕ → List ℕ
trim_slashes [] = []
trim_slashes (c ∷ cs) =
    let rest = trim_slashes cs in
    elim rest [ [] ↦ if c == 47 then [] else c ∷ [] | r ∷ rs ↦ c ∷ r ∷ rs ]

-- The decimal digits of a number below 10 ^ (left + 1).
abbrev pub decimal : ℕ → ℕ → List ℕ
decimal zero n = (48 + n) ∷ []
decimal (suc left) n =
    if ltb n 10 then (48 + n) ∷ [] else decimal left (n / 10) ++ ((48 + n % 10) ∷ [])

-- `{}` of an `i32`
unfoldable pub decimal_i32 : ℤ → List ℕ
decimal_i32 (pos n) = decimal 9 n
decimal_i32 (negsuc n) = 45 ∷ decimal 9 (n + 1)

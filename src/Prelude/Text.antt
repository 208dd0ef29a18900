-- ===== src/Prelude/Text.antt =====
-- Python's operations on `str` that the components share, by the codes of the characters.
use Prim.Native.Nat.{ℕ, zero, suc, ◌+◌, ◌-◌, ◌*◌, ◌/◌, ◌%◌}
use Prim.Native.Char.{Char, code}
use Prim.Native.String.{String, ◌++◌, count, char_at}
use mathlib.Core.Bool.{Bool, true, false, ◌&&◌, ◌||◌}
use mathlib.Core.Option.{Option, none, some}
use text.Mathlib.Text.{starts_with}
use claude_code_codex_review.Prelude.Tests.{leb, nat_beq, if◌then◌else◌}

abbrev pub between : ℕ → ℕ → Char → Bool
between lo hi c = leb lo (code c) && leb (code c) hi

abbrev pub is_upper : Char → Bool
is_upper c = between 65 90 c

abbrev pub is_lower : Char → Bool
is_lower c = between 97 122 c

abbrev pub is_digit : Char → Bool
is_digit c = between 48 57 c

-- `[0-9a-f]`.
abbrev pub is_hex : Char → Bool
is_hex c = is_digit c || between 97 102 c

unfoldable pub all_chars : (Char → Bool) → String → Bool
all_chars p String.[] = true
all_chars p (String.◌∷◌ c s) = p c && all_chars p s

abbrev pub is_blank : String → Bool
is_blank String.[] = true
is_blank (String.◌∷◌ c s) = false

-- A text of exactly n characters of `[0-9a-f]`, as `[0-9a-f]{n}\Z` matches it.
unfoldable pub is_hex_of : ℕ → String → Bool
is_hex_of n s = nat_beq (count s) n && all_chars is_hex s

unfoldable pub ends_with : String → String → Bool
ends_with String.[] t = is_blank t
ends_with (String.◌∷◌ c s) t =
    let rest = ends_with s t in
    if nat_beq (suc (count s)) (count t) then starts_with (String.◌∷◌ c s) t else rest

-- `t in s`.
unfoldable pub contains : String → String → Bool
contains String.[] t = is_blank t
contains (String.◌∷◌ c s) t = starts_with (String.◌∷◌ c s) t || contains s t

-- `s.lower()` as far as ASCII: the letters A to Z. No other character has an ASCII letter, a bracket
-- or a digit of the texts that the sources compare in its lower case.
abbrev lower_of : Char → Char
lower_of c = if is_upper c then char_at "abcdefghijklmnopqrstuvwxyz" (code c - 65) else c

unfoldable pub lower : String → String
lower String.[] = String.[]
lower (String.◌∷◌ c s) = String.◌∷◌ (lower_of c) (lower s)

-- `s.upper()` as far as the search for the reserved token reads it: the letters a to z, and the two
-- other characters of Unicode whose upper case can be part of CC_REVIEW_META, U+0131 and U+1E9A.
abbrev upper_of : Char → String
upper_of c =
    if is_lower c
    then String.◌∷◌ (char_at "ABCDEFGHIJKLMNOPQRSTUVWXYZ" (code c - 97)) String.[]
    else if nat_beq (code c) 305
    then "I"
    else if nat_beq (code c) 7834
    then "Aʾ"
    else String.◌∷◌ c String.[]

unfoldable pub upper : String → String
upper String.[] = String.[]
upper (String.◌∷◌ c s) = upper_of c ++ upper s

-- `s.removeprefix(t)` where s begins with t.
unfoldable pub strip_prefix : String → String → Option String
strip_prefix String.[] s = some s
strip_prefix (String.◌∷◌ d t) String.[] = none
strip_prefix (String.◌∷◌ d t) (String.◌∷◌ c s) =
    let rest = strip_prefix t s in if nat_beq (code c) (code d) then rest else none

-- The longest prefix of characters that pass the test, and what follows it.
unfoldable pub span : (Char → Bool) → String → String × String
span p String.[] = (String.[], String.[])
span p (String.◌∷◌ c s) =
    let rest = span p s in
    if p c then (String.◌∷◌ c rest.0, rest.1) else (String.[], String.◌∷◌ c s)

abbrev pub digit_of : ℕ → Char
digit_of d = char_at "0123456789abcdef" d

-- `str(n)`: each round divides by ten, so that n rounds are enough.
unfoldable pub digits : ℕ → ℕ → String
digits zero n = String.[]
digits (suc fuel) n = elim (leb n 9) [
  | true ↦ String.◌∷◌ (digit_of n) String.[]
  | false ↦ digits fuel (n / 10) ++ String.◌∷◌ (digit_of (n % 10)) String.[]
]

unfoldable pub decimal : ℕ → String
decimal n = digits (suc n) n

-- `int(s)` for a text of decimal digits.
unfoldable pub value_from : ℕ → String → ℕ
value_from n String.[] = n
value_from n (String.◌∷◌ c s) = value_from (n * 10 + (code c - 48)) s

-- `s.count(t)` for a text t no two occurrences of which overlap.
unfoldable pub occurrences : String → String → ℕ
occurrences String.[] t = 0
occurrences (String.◌∷◌ c s) t =
    let rest = occurrences s t in if starts_with (String.◌∷◌ c s) t then suc rest else rest

-- `f"{n:08d}"`: at least eight digits.
abbrev zeros : ℕ → String
zeros zero = ""
zeros (suc k) = String.◌∷◌ (char_at "0" 0) (zeros k)

unfoldable pub padded : ℕ → String
padded n = zeros (8 - count (decimal n)) ++ decimal n

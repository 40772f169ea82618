-- ===== src/Strings.antt =====
-- What the program uses of Go's `strings`, `strconv` and `slices`.
use Prim.Native.Char.{Char, code}
use Prim.Native.String.{[] as nil, ◌∷◌ as cons}
use fabricator.Common.{
  ℕ, ◌+◌, ◌-◌, ◌*◌, ◌^◌, ◌==◌, ltb, leb, String, str_eq, Bool, true, false, ◌&&◌, ◌||◌, Option,
  none, some, List, [], ◌∷◌, if◌then◌else◌,
}
pub mod Laws

-- `slices.Contains` on strings
abbrev pub contains_string : List String → String → Bool
contains_string [] s = false
contains_string (x ∷ xs) s = str_eq x s || contains_string xs s

-- `strings.HasPrefix`
unfoldable pub has_prefix : String → String → Bool
has_prefix s nil = true
has_prefix nil (cons d t) = false
has_prefix (cons c s) (cons d t) = (code c == code d) && has_prefix s t

abbrev cons_part : Char → List String → List String
cons_part c [] = cons c nil ∷ []
cons_part c (p ∷ ps) = cons c p ∷ ps

-- `strings.Split` at a separator of one character, which is given by its code.
unfoldable pub split : ℕ → String → List String
split sep nil = nil ∷ []
split sep (cons c s) =
    let rest = split sep s in if code c == sep then nil ∷ rest else cons_part c rest

-- The loop of `strconv.ParseUint` in base 10: digits only, and within the bound at each digit.
parse_digits : ℕ → ℕ → String → Option ℕ
parse_digits limit n nil = some n
parse_digits limit n (cons c s) =
    let m = n * 10 + (code c - 48) in
    let rest = parse_digits limit m s in
    if leb 48 (code c) && leb (code c) 57 && ltb m limit then rest else none

-- `strconv.ParseUint(s, 10, bits)`, with `none` for an error.
unfoldable pub parse_uint : String → ℕ → Option ℕ
unfolding parse_digits
parse_uint nil bits = none
parse_uint (cons c s) bits = parse_digits (2 ^ bits) 0 (cons c s)

-- ===== src/Vlab/Text.antt =====
-- The formats %d, %02d and %02x of Go's fmt, and `strings.TrimSpace` and `strconv.Atoi`, as
-- pkg/hhfab/vlabbuilder.go uses them.
use Prim.Native.Char.{Char, code}
use Prim.Native.String.{[] as nil, ◌∷◌ as cons, ◌++◌ as append}
use fabricator.Common.{
  ℕ, zero, suc, ◌-◌, ◌/◌, ◌%◌, ◌^◌, ◌==◌, ltb, leb, String, Bool, ◌&&◌, ◌||◌, Option, none, some,
  List, [], ◌∷◌, if◌then◌else◌, get_elem?,
}
use fabricator.Strings.{parse_uint}

abbrev digit_texts : List String
digit_texts =
    "0" ∷ "1" ∷ "2" ∷ "3" ∷ "4" ∷ "5" ∷ "6" ∷ "7" ∷ "8" ∷ "9" ∷ "a" ∷ "b" ∷ "c" ∷ "d" ∷ "e" ∷ "f"
    ∷ []

abbrev digit_text : Option String → String
digit_text none = "?"
digit_text (some s) = s

-- The digits of a number in a base; each step takes one.
digits : ℕ → ℕ → ℕ → String
digits base zero n = digit_text (get_elem? digit_texts (n % base))
digits base (suc fuel) n =
    let d = digit_text (get_elem? digit_texts (n % base)) in
    let more = append (digits base fuel (n / base)) d in if ltb n base then d else more

-- `%d`: a 64-bit number has at most 20 digits.
unfoldable pub decimal : ℕ → String
unfolding digits
decimal n = digits 10 19 n

-- `%02d`
unfoldable pub decimal2 : ℕ → String
unfolding decimal
decimal2 n = if ltb n 10 then append "0" (decimal n) else decimal n

-- `%02x`
unfoldable pub hex2 : ℕ → String
unfolding digits
hex2 n = if ltb n 16 then append "0" (digits 16 15 n) else digits 16 15 n

abbrev is_space : Char → Bool
is_space c = code c == 32 || leb 9 (code c) && leb (code c) 13

trim_left : String → String
trim_left nil = nil
trim_left (cons c s) = let rest = trim_left s in if is_space c then rest else cons c s

abbrev keep : Char → String → String
keep c nil = if is_space c then nil else cons c nil
keep c (cons d s) = cons c (cons d s)

trim_right : String → String
trim_right nil = nil
trim_right (cons c s) = keep c (trim_right s)

-- `strings.TrimSpace`, for the spaces of ASCII.
unfoldable pub trim_space : String → String
unfolding trim_left trim_right
trim_space s = trim_right (trim_left s)

abbrev negated : Option ℕ → Option ℕ
negated none = none
negated (some n) = if leb n (2 ^ 63) then some ((256 - n % 256) % 256) else none

abbrev byte : Option ℕ → Option ℕ
byte none = none
byte (some n) = some (n % 256)

-- `strconv.Atoi`, of which only the lowest byte is used.
unfoldable pub atoi_byte : String → Option ℕ
atoi_byte nil = none
atoi_byte (cons c s) =
    if code c == 45
    then negated (parse_uint s 64)
    else byte (if code c == 43 then parse_uint s 63 else parse_uint (cons c s) 63)

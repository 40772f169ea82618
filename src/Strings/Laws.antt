-- ===== src/Strings/Laws.antt =====
-- Laws of the parsers of strings.
use Prim.Native.Char.{code}
use Prim.Native.String.{[] as nil, ◌∷◌ as cons}
use fabricator.Common.{ℕ, ◌+◌, ◌-◌, ◌*◌, ◌^◌, ◌<◌, ◌≡◌, String, some, arith}
use fabricator.Strings.{parse_digits, parse_uint}

parse_digits-bound :
    (limit n m : ℕ) (s : String) → n < limit → parse_digits limit n s ≡ some m → m < limit
unfolding parse_digits
parse_digits-bound limit n m nil h e = ground arith
parse_digits-bound limit n m (cons c s) h e =
    ground (arith, parse_digits-bound limit (n * 10 + (code c - 48)) m s)

-- A number that is parsed fits in its width.
pub parse_uint-bound : (s : String) (bits n : ℕ) → parse_uint s bits ≡ some n → n < 2 ^ bits
unfolding parse_uint
parse_uint-bound nil bits n e = cc
parse_uint-bound (cons c s) bits n e = parse_digits-bound (2 ^ bits) 0 n (cons c s) (grind arith) e

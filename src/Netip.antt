-- ===== src/Netip.antt =====
-- What the program uses of Go's `net/netip`, with the parsers of api/meta/netip.go.
use fabricator.Common.{
  ℕ, ◌+◌, ◌-◌, ◌*◌, ◌/◌, ◌%◌, ◌^◌, ◌≤◌, ◌<◌, String, Bool, true, false, ◌&&◌, ◌||◌, ltb, leb, ◌==◌,
  if◌then◌else◌, Result, ok, err, ◌>>=◌, ◌>>◌, require, str_eq,
}
pub mod Laws

-- `netip.Addr`: the zero value, an IPv4 or an IPv6 address.
pub data Addr : Type 0 where
  invalid : Addr
  v4 : ℕ → Addr
  v6 : ℕ → Addr

-- `netip.Prefix`
pub record Prefix : Type 0 where
  pub addr : Addr
  pub bits : ℕ

-- `==` on addresses
abbrev pub addr_eq : Addr → Addr → Bool
addr_eq invalid invalid = true
addr_eq (v4 a) (v4 b) = a == b
addr_eq (v6 a) (v6 b) = a == b
addr_eq _ _ = false

abbrev pub prefix_eq : Prefix → Prefix → Bool
prefix_eq p q = addr_eq p.addr q.addr && (p.bits == q.bits)

-- `a.Compare(b) < 0`: shorter addresses come first.
abbrev pub addr_less : Addr → Addr → Bool
addr_less invalid invalid = false
addr_less invalid _ = true
addr_less (v4 a) invalid = false
addr_less (v4 a) (v4 b) = ltb a b
addr_less (v4 a) (v6 b) = true
addr_less (v6 a) (v6 b) = ltb a b
addr_less (v6 a) _ = false

-- `Addr.Next`: the zero value after the last address.
unfoldable pub next : Addr → Addr
next invalid = invalid
next (v4 a) = if ltb (a + 1) (2 ^ 32) then v4 (a + 1) else invalid
next (v6 a) = if ltb (a + 1) (2 ^ 128) then v6 (a + 1) else invalid

abbrev pub is_v4 : Addr → Bool
is_v4 (v4 _) = true
is_v4 _ = false

abbrev valid_bits : Addr → ℕ → Bool
valid_bits invalid n = false
valid_bits (v4 a) n = ltb a (2 ^ 32) && leb n 32
valid_bits (v6 a) n = ltb a (2 ^ 128) && leb n 128

-- `Prefix.IsValid`
abbrev pub is_valid : Prefix → Bool
is_valid p = valid_bits p.addr p.bits

-- `v & mask`: `v` without its lowest `n` bits.
abbrev pub clear_low : ℕ → ℕ → ℕ
clear_low v n = v - v % 2 ^ n

abbrev mask_addr : Addr → ℕ → Addr
mask_addr invalid n = invalid
mask_addr (v4 a) n = v4 (clear_low a (32 - n))
mask_addr (v6 a) n = v6 (clear_low a (128 - n))

-- `Prefix.Masked`
abbrev pub masked : Prefix → Prefix
masked p = record { addr = mask_addr p.addr p.bits; bits = p.bits }

abbrev contains_at : Addr → ℕ → Addr → Bool
contains_at (v4 a) n (v4 b) = a / 2 ^ (32 - n) == b / 2 ^ (32 - n)
contains_at (v6 a) n (v6 b) = a / 2 ^ (128 - n) == b / 2 ^ (128 - n)
contains_at _ _ _ = false

-- `Prefix.Contains`
unfoldable pub contains : Prefix → Addr → Bool
contains p a = is_valid p && contains_at p.addr p.bits a

-- What a string field holds, as `netip.ParsePrefix` reads it: nothing, something that it refuses,
-- or the canonical text of a prefix. The text of an IPv4 prefix is unique.
pub data PrefixText : Type 0 where
  blank : PrefixText
  malformed : String → PrefixText
  text : Prefix → PrefixText

-- `==` on the two strings
unfoldable pub text_eq : PrefixText → PrefixText → Bool
text_eq blank blank = true
text_eq (malformed s) (malformed t) = str_eq s t
text_eq (text p) (text q) = prefix_eq p q
text_eq _ _ = false

abbrev pub is_blank : PrefixText → Bool
is_blank blank = true
is_blank _ = false

pub data ParseError : Type 0 where
  bad_syntax ipv4_only : ParseError

-- `netip.ParsePrefix`
unfoldable pub parse_prefix : PrefixText → Result ParseError Prefix
parse_prefix (text p) = if is_valid p then ok p else err bad_syntax
parse_prefix _ = err bad_syntax

-- `meta.Prefix.Parse`
unfoldable pub parse_v4_prefix : PrefixText → Result ParseError Prefix
unfolding parse_prefix
parse_v4_prefix t = do p ← parse_prefix t; require (is_v4 p.addr) ipv4_only; ok p

-- As `PrefixText`, for `netip.ParseAddr`.
pub data AddrText : Type 0 where
  malformed_addr : String → AddrText
  addr_text : Addr → AddrText

abbrev valid_addr : Addr → Bool
valid_addr a = valid_bits a 0

-- `meta.Addr.Parse`
unfoldable pub parse_v4_addr : AddrText → Result ParseError Addr
parse_v4_addr (malformed_addr s) = err bad_syntax
parse_v4_addr (addr_text a) = do
  require (valid_addr a) bad_syntax
  require (is_v4 a) ipv4_only
  ok a

abbrev overlaps_at : Addr → Addr → ℕ → Bool
overlaps_at (v4 a) (v4 b) n = a / 2 ^ (32 - n) == b / 2 ^ (32 - n)
overlaps_at (v6 a) (v6 b) n = a / 2 ^ (128 - n) == b / 2 ^ (128 - n)
overlaps_at _ _ _ = false

-- `Prefix.Overlaps`: the addresses agree under the shorter mask.
unfoldable pub overlaps : Prefix → Prefix → Bool
overlaps p q =
    is_valid p
    && is_valid q
    && overlaps_at p.addr q.addr (if ltb p.bits q.bits then p.bits else q.bits)

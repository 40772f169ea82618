-- ===== src/Netip/Laws.antt =====
-- Laws of addresses and prefixes.
use fabricator.Common.{
  eq_refl, ℕ, zero, suc, ◌*◌, ◌+◌, ◌-◌, ◌/◌, ◌%◌, ◌^◌, ◌≤◌, ◌<◌, ◌≡◌, refl, subst, true, ok, arith,
}
use native.Mathlib.Nat.{div-div-eq-div-mul, pow-suc}
use fabricator.Netip.{
  Addr, invalid, v4, v6, text, PrefixText, blank, malformed, text_eq, addr_eq, next, contains,
  overlaps, Prefix, parse_prefix, parse_v4_prefix, clear_low,
}

pub addr_eq_sound : (a b : Addr) → addr_eq a b ≡ true → a ≡ b
addr_eq_sound invalid invalid h = refl
addr_eq_sound (v4 a) (v4 b) h = ground arith
addr_eq_sound (v6 a) (v6 b) h = ground arith
addr_eq_sound _ _ h = cc

pub addr_eq_refl : (a : Addr) → addr_eq a a ≡ true
addr_eq_refl invalid = refl
addr_eq_refl (v4 a) = ground arith
addr_eq_refl (v6 a) = ground arith

pub next-v4 : (a : ℕ) → a + 1 < 2 ^ 32 → next (v4 a) ≡ v4 (a + 1)
unfolding next
next-v4 a h = ground arith

pub next-next-v4 : (a : ℕ) → a + 2 < 2 ^ 32 → next (next (v4 a)) ≡ v4 (a + 2)
unfolding next
next-next-v4 a h = ground arith

-- The text of a valid IPv4 prefix parses to it.
pub parse_v4_prefix-text :
    (a n : ℕ)
    → a < 2 ^ 32
    → n ≤ 32
    → parse_v4_prefix (text (record { addr = v4 a; bits = n }))
      ≡ ok (record { addr = v4 a; bits = n })
unfolding parse_v4_prefix
parse_v4_prefix-text a n h k = ground arith

pub parse_prefix-text :
    (a n : ℕ)
    → a < 2 ^ 32
    → n ≤ 32
    → parse_prefix (text (record { addr = v4 a; bits = n })) ≡ ok (record { addr = v4 a; bits = n })
unfolding parse_prefix
parse_prefix-text a n h k = ground arith

-- An address whose high bits are cleared, and a number that fits in the low bits.
div-clear_low : (a m i : ℕ) → i < m → (a - a % m + i) / m ≡ a / m
div-clear_low a m i h = grind arith

-- A prefix contains the addresses that follow its first one, as many as its size.
pub contains-masked :
    (a n i : ℕ)
    → a < 2 ^ 32
    → n ≤ 32
    → i < 2 ^ (32 - n)
    → contains (record { addr = v4 a; bits = n }) (v4 (clear_low a (32 - n) + i)) ≡ true
unfolding contains
contains-masked a n i h k l = ground (arith, div-clear_low a (2 ^ (32 - n)) i)

pub text_eq_refl : (t : PrefixText) → text_eq t t ≡ true
unfolding text_eq
text_eq_refl blank = refl
text_eq_refl (malformed s) = eq_refl s
text_eq_refl (text p) = ground (arith, addr_eq_refl p.addr)

-- The same by the range of its numbers, for a prefix whose address is its first one.
pub contains-range :
    (a n x : ℕ)
    → a + 2 ^ (32 - n) ≤ 2 ^ 32
    → a % 2 ^ (32 - n) ≡ 0
    → n ≤ 32
    → a ≤ x
    → x < a + 2 ^ (32 - n)
    → contains (record { addr = v4 a; bits = n }) (v4 x) ≡ true
contains-range a n x h m k lo hi =
    let e : clear_low a (32 - n) + (x - a) ≡ x = omega arith in
    subst (λ y. contains (record { addr = v4 a; bits = n }) (v4 y) ≡ true) e
      (contains-masked a n (x - a) (omega arith) k (omega arith))

-- A power of two of a sum.
pow_add : (i j : ℕ) → 2 ^ (i + j) ≡ 2 ^ i * 2 ^ j
pow_add i zero = grind arith
pow_add i (suc j) =
    let e : i + suc j ≡ suc (i + j) = omega arith in
    rw (e, pow-suc 2 (i + j), pow-suc 2 j, pow_add i j) (grind arith)

-- The quotients by powers of two agree under a shorter mask.
shorter :
    (a x n m : ℕ)
    → m ≤ n
    → n ≤ 32
    → a / 2 ^ (32 - n) ≡ x / 2 ^ (32 - n)
    → a / 2 ^ (32 - m) ≡ x / 2 ^ (32 - m)
shorter a x n m h k e =
    let s : 32 - m ≡ (32 - n) + (n - m) = omega arith in
    rw
      (
        s,
        pow_add (32 - n) (n - m),
        ← div-div-eq-div-mul a (2 ^ (32 - n)) (2 ^ (n - m)),
        ← div-div-eq-div-mul x (2 ^ (32 - n)) (2 ^ (n - m)),
        e,
      )
      refl

common :
    (a b : Addr) (n m x : ℕ)
    → contains (record { addr = a; bits = n }) (v4 x) ≡ true
    → contains (record { addr = b; bits = m }) (v4 x) ≡ true
    → overlaps (record { addr = a; bits = n }) (record { addr = b; bits = m }) ≡ true
unfolding overlaps contains
common (v4 a) (v4 b) n m x h k = ground (arith, shorter a x n m, shorter b x m n)
common invalid b n m x h k = ground arith
common (v6 a) b n m x h k = ground arith
common (v4 a) invalid n m x h k = ground arith
common (v4 a) (v6 b) n m x h k = ground arith

-- Two prefixes that have a common IPv4 address overlap.
pub overlaps-contains :
    (p q : Prefix) (x : ℕ)
    → contains p (v4 x) ≡ true
    → contains q (v4 x) ≡ true
    → overlaps p q ≡ true
overlaps-contains p q x h k = common p.addr q.addr p.bits q.bits x h k

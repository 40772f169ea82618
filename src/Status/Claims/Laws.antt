-- ===== src/Status/Claims/Laws.antt =====
-- What accepted addresses satisfy, and when an address is accepted.
use fabricator.Common.{
  ℕ, zero, suc, ◌+◌, ◌*◌, ◌<◌, ◌≤◌, ◌≡◌, refl, Bool, true, false, not, ◌&&◌, List, [], ◌∷◌, ok,
  arith, All,
}
use fabricator.Netip.{Addr, v4, invalid, Prefix, contains}
use fabricator.Status.Types.{has_addr}
use fabricator.Status.Claims.{claim, claim_management}

-- No address is there twice.
abbrev pub distinct : List Addr → Bool
distinct [] = true
distinct (a ∷ rest) = not (has_addr a rest) && distinct rest

-- Every address lies in the subnet.
abbrev pub inside : Prefix → List Addr → Bool
inside subnet [] = true
inside subnet (a ∷ rest) = contains subnet a && inside subnet rest

-- An IPv4 address before the address with the number `n`.
abbrev pub IsBelow : ℕ → Addr → Type 0
IsBelow n (v4 a) = a < n
IsBelow n _ = ⊥

pub has_addr-below :
    (n : ℕ) (used : List Addr) → All (IsBelow n) used → has_addr (v4 n) used ≡ false
has_addr-below n [] h = refl
has_addr-below n (v4 a ∷ used) h = ground (arith, has_addr-below n used h.1)
has_addr-below n (invalid ∷ used) h = absurd h.0
has_addr-below n (_ ∷ used) h = absurd h.0

pub All-IsBelow : (m n : ℕ) (used : List Addr) → m ≤ n → All (IsBelow m) used → All (IsBelow n) used
All-IsBelow m n [] k h = tt
All-IsBelow m n (v4 a ∷ used) k h = (omega arith, All-IsBelow m n used k h.1)
All-IsBelow m n (invalid ∷ used) k h = absurd h.0
All-IsBelow m n (_ ∷ used) k h = absurd h.0

-- `count` addresses from `a` on, `step` apart, each put in front of those before it.
unfoldable pub push : (step count a : ℕ) → List Addr → List Addr
push step zero a used = used
push step (suc k) a used = push step k (a + step) (v4 a ∷ used)

pub All-push :
    (step count a : ℕ) (used : List Addr)
    → 0 < step
    → All (IsBelow a) used
    → All (IsBelow (a + step * count)) (push step count a used)
unfolding push
All-push step zero a used p h = All-IsBelow a (a + step * 0) used (omega arith) h
All-push step (suc k) a used p h =
    All-IsBelow (a + step + step * k) (a + step * suc k) (push step k (a + step) (v4 a ∷ used))
      (grind arith)
      (All-push step k (a + step) (v4 a ∷ used) p
        (omega arith, All-IsBelow a (a + step) used (omega arith) h))

-- The two ends of `count` links from `a` on.
unfoldable pub push_pairs : (count a : ℕ) → List Addr → List Addr
push_pairs zero a used = used
push_pairs (suc k) a used = push_pairs k (a + 2) (v4 (a + 1) ∷ v4 a ∷ used)

-- A fresh address that follows all that are taken is accepted.
pub claim_fresh :
    (n : ℕ) (subnet : Prefix) (a : ℕ) (used : List Addr)
    → contains subnet (v4 a) ≡ true
    → All (IsBelow a) used
    → claim n subnet used (record { addr = v4 a; bits = n }) ≡ ok (v4 a ∷ used)
unfolding claim
claim_fresh n subnet a used h k = ground (arith, has_addr-below a used k)

pub claim_management_fresh :
    (subnet : Prefix) (stop bits a : ℕ) (used : List Addr)
    → contains subnet (v4 a) ≡ true
    → a < stop
    → All (IsBelow a) used
    → claim_management subnet (v4 stop) used (record { addr = v4 a; bits = bits })
      ≡ ok (v4 a ∷ used)
unfolding claim_management
claim_management_fresh subnet stop bits a used h l k = ground (arith, has_addr-below a used k)

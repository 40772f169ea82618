-- ===== src/Common/Lists.antt =====
-- Lists over the native numbers, under the library's names.
use Prim.Native.Nat.{ℕ, zero, suc, ◌+◌}
use mathlib.Core.Option.{Option, none, some}
use mathlib.Core.Path.{◌≡◌, refl, sym, subst}
use mathlib.Core.Logic.{◌⊎◌, inl, inr}
use mathlib.Core.List.{List, [], ◌∷◌, ◌++◌}
use native.Mathlib.Omega.{arith}

module _ {ℓ} {A : Type ℓ} where
  abbrev pub length : List A → ℕ
  length [] = 0
  length (x ∷ xs) = suc (length xs)

  abbrev pub get_elem? : List A → ℕ → Option A
  get_elem? [] i = none
  get_elem? (x ∷ xs) zero = some x
  get_elem? (x ∷ xs) (suc i) = get_elem? xs i

  pub length-append : (xs ys : List A) → length (xs ++ ys) ≡ length xs + length ys
  length-append [] ys = omega arith
  length-append (x ∷ xs) ys = omega (arith, length-append xs ys)

module _ {ℓ κ} {A : Type ℓ} where
  -- A predicate of every element.
  abbrev pub All : (A → Type κ) → List A → Type κ
  All P [] = Unit
  All P (x ∷ xs) = P x × All P xs

module _ {ℓ κ ν} {A : Type ℓ} {P : A → Type κ} {Q : A → Type ν} where
  pub All-map : (xs : List A) → ((x : A) → P x → Q x) → All P xs → All Q xs
  All-map [] f h = tt
  All-map (x ∷ xs) f h = (f x h.0, All-map xs f h.1)

pub some-injective {ℓ} : {A : Type ℓ} {x y : A} → some x ≡ some y → x ≡ y
some-injective e = cc e

module _ {ℓ κ} {A : Type ℓ} (P : A → Type κ) where
  -- A predicate of every element holds of the one at a position.
  pub All-at : (xs : List A) (i : ℕ) (x : A) → All P xs → get_elem? xs i ≡ some x → P x
  All-at [] i x h e = absurd (cc e)
  All-at (y ∷ xs) zero x h e = subst P (some-injective e) h.0
  All-at (y ∷ xs) (suc i) x h e = All-at xs i x h.1 e

-- An element of a list of which a predicate holds.
abbrev pub Among : {A : Type 0} → (A → Type 0) → List A → Type 0
Among {A} P xs = (i : ℕ) × (a : A) × (get_elem? xs i ≡ some a) × P a

module _ {A : Type 0} (P : A → Type 0) (x : A) (xs : List A) where
  pub Among-or : P x ⊎ Among P xs → Among P (x ∷ xs)
  Among-or (inl p) = (0, x, refl, p)
  Among-or (inr (i, a, e, p)) = (suc i, a, e, p)

  pub or_Among : Among P (x ∷ xs) → P x ⊎ Among P xs
  or_Among (zero, a, e, p) = inl (subst P (sym (some-injective e)) p)
  or_Among (suc i, a, e, p) = inr (i, a, e, p)

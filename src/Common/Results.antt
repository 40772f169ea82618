-- ===== src/Common/Results.antt =====
-- Go's `(T, error)` results: a value or an error, never both.
use mathlib.Core.Path.{◌≡◌, refl}
use mathlib.Core.Logic.{◌⊎◌, inl, inr}
use mathlib.Core.Bool.{Bool, true, false}
use mathlib.Core.List.{List, [], ◌∷◌}

pub data Result {ℓ κ} (E : Type ℓ) (A : Type κ) : Type (ℓ ⊔ κ) where
  ok : A → Result E A
  err : E → Result E A

infixl 5 ◌>>=◌ ◌>>◌
abbrev pub ◌>>=◌ {ℓ κ ν} :
    {E : Type ℓ} {A : Type κ} {B : Type ν} → Result E A → (A → Result E B) → Result E B
ok a >>= f = f a
err e >>= f = err e

abbrev pub ◌>>◌ {ℓ ν} : {E : Type ℓ} {B : Type ν} → Result E (Unit {0}) → Result E B → Result E B
m >> k = m >>= λ _. k

-- `if !cond { return err }`
abbrev pub require {ℓ} : {E : Type ℓ} → Bool → E → Result E (Unit {0})
require true e = ok tt
require false e = err e

-- `if cond { return err }`
abbrev pub refuse {ℓ} : {E : Type ℓ} → Bool → E → Result E (Unit {0})
refuse true e = err e
refuse false e = ok tt

-- An error with the context that the caller adds: `fmt.Errorf("...: %w", err)`.
abbrev pub map_err {ℓ κ ν} :
    {E : Type ℓ} {F : Type κ} {A : Type ν} → (E → F) → Result E A → Result F A
map_err f (ok a) = ok a
map_err f (err e) = err (f e)

-- Inversion of a successful bind.
pub bind-eq-ok {ℓ κ ν} :
    {E : Type ℓ} {A : Type κ} {B : Type ν} (m : Result E A) (f : A → Result E B) {b : B}
    → (m >>= f) ≡ ok b
    → (a : A) × (m ≡ ok a) × (f a ≡ ok b)
bind-eq-ok (ok a) f h = (a, refl, h)
bind-eq-ok (err e) f h = cc

pub Result-cases {ℓ κ} :
    {E : Type ℓ} {A : Type κ} (r : Result E A) → ((a : A) × (r ≡ ok a)) ⊎ ((e : E) × (r ≡ err e))
Result-cases (ok a) = inl (a, refl)
Result-cases (err e) = inr (e, refl)

-- A loop over a slice whose body may return an error and updates a state.
abbrev pub fold_ok {ℓ κ ν} :
    {E : Type ℓ} {S : Type κ} {A : Type ν} → (A → S → Result E S) → List A → S → Result E S
fold_ok f [] s = ok s
fold_ok f (x ∷ xs) s = f x s >>= fold_ok f xs

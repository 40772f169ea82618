-- ===== src/Common/Steps.antt =====
-- Loops and sequences of steps that may fail, over a state: invariants and counters, one rule for
-- each way to build a step.
use Prim.Native.Nat.{ℕ, ◌+◌}
use mathlib.Core.Path.{◌≡◌, subst, ap}
use mathlib.Core.List.{List, [], ◌∷◌}
use native.Mathlib.Omega.{arith}
use fabricator.Common.Results.{Result, ok, err, ◌>>=◌, ◌>>◌, fold_ok, bind-eq-ok}

pub ok-injective {ℓ κ} :
    {E : Type ℓ} {A : Type κ} {a b : A} → ◌≡◌ {A = Result E A} (ok a) (ok b) → a ≡ b
ok-injective h = cc

module _ {E S : Type 0} where
  -- What follows a test that passed.
  pub then-eq-ok :
      (m : Result E (Unit {0})) (r : Result E S) {s' : S} → (m >> r) ≡ ok s' → r ≡ ok s'
  then-eq-ok (ok x) r h = h
  then-eq-ok (err e) r h = cc

  -- What holds before a step that succeeds holds after it.
  pub record Keeps (P : S → Type 0) (f : S → Result E S) : Type 0 where
    pub at : (s s' : S) → f s ≡ ok s' → P s → P s'

  -- A step that succeeds adds `n` to a counter.
  pub record Adds (counter : S → ℕ) (n : ℕ) (f : S → Result E S) : Type 0 where
    pub at : (s s' : S) → f s ≡ ok s' → counter s' ≡ counter s + n

module _ {E S : Type 0} {P : S → Type 0} where
  pub Keeps-bind : (f g : S → Result E S) → Keeps P f → Keeps P g → Keeps P (λ s. f s >>= g)
  Keeps-bind f g kf kg = record {
    at = λ s s' h p. let (t, e, e') = bind-eq-ok (f s) g h in kg.at t s' e' (kf.at s t e p);
  }

  -- A test that changes nothing.
  pub Keeps-then :
      (m : Result E (Unit {0})) (f : S → Result E S) → Keeps P f → Keeps P (λ s. m >> f s)
  Keeps-then m f kf = record { at = λ s s' h p. kf.at s s' (then-eq-ok m (f s) h) p }

  pub Keeps-ok : Keeps P (λ s. let r : Result E S = ok s in r)
  Keeps-ok = record { at = λ s s' h p. subst P (ok-injective h) p }

  pub Keeps-fold :
      {A : Type 0} (f : A → S → Result E S) (xs : List A)
      → ((a : A) → Keeps P (f a))
      → Keeps P (fold_ok f xs)
  Keeps-fold f [] k = Keeps-ok
  Keeps-fold f (x ∷ xs) k = Keeps-bind (f x) (fold_ok f xs) (k x) (Keeps-fold f xs k)

abbrev pub sum_of {ℓ} : {A : Type ℓ} → (A → ℕ) → List A → ℕ
sum_of f [] = 0
sum_of f (x ∷ xs) = f x + sum_of f xs

module _ {E S : Type 0} (counter : S → ℕ) where
  pub Adds-bind :
      (m n : ℕ) (f g : S → Result E S)
      → Adds counter m f
      → Adds counter n g
      → Adds counter (m + n) (λ s. f s >>= g)
  Adds-bind m n f g kf kg = record {
    at = λ s s' h.
        let (t, e, e') = bind-eq-ok (f s) g h in omega (arith, kf.at s t e, kg.at t s' e');
  }

  pub Adds-then :
      (m : Result E (Unit {0})) (n : ℕ) (f : S → Result E S)
      → Adds counter n f
      → Adds counter n (λ s. m >> f s)
  Adds-then m n f kf = record { at = λ s s' h. kf.at s s' (then-eq-ok m (f s) h) }

  pub Adds-fold :
      {A : Type 0} (size : A → ℕ) (f : A → S → Result E S) (xs : List A)
      → ((a : A) → Adds counter (size a) (f a))
      → Adds counter (sum_of size xs) (fold_ok f xs)
  Adds-fold size f [] k = record { at = λ s s' h. omega (arith, ap counter (ok-injective h)) }
  Adds-fold size f (x ∷ xs) k =
      Adds-bind (size x) (sum_of size xs) (f x) (fold_ok f xs) (k x) (Adds-fold size f xs k)

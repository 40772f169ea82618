-- ===== src/Reach/Decided.antt =====
-- When an answer of the checks in pkg/hhfab/testing.go says reachable: one rule for each way in
-- which they are composed.
use fabricator.Common.{
  Among, Among-or, or_Among, ◌≡◌, ◌↔◌, ◌⊎◌, inl, inr, refl, sym, subst, ◌∙◌, String, Bool, true,
  false, Option, none, some, some-injective, List, [], ◌∷◌, Result, ok, err, ok-injective, ◌>>=◌,
  ◌>>◌, then-eq-ok, bind-eq-ok, if◌then◌else◌,
}
use fabricator.Reach.{Reachability, unreachable, ReachError, failing, first_reachable}
use fabricator.Reach.Servers.{full_name}

-- An answer says reachable exactly when `P`.
pub record Decides (P : Type 0) (m : Result ReachError Reachability) : Type 0 where
  pub at : (r : Reachability) → m ≡ ok r → (r.reachable ≡ true) ↔ P

module _ {P Q : Type 0} {m : Result ReachError Reachability} where
  pub Decides-iff : (P → Q) → (Q → P) → Decides P m → Decides Q m
  Decides-iff f g d = record { at = λ r e. (λ h. f ((d.at r e).0 h), λ q. (d.at r e).1 (g q)) }

module _ {P : Type 0} where
  pub Decides-then :
      (t : Result ReachError (Unit {0})) (m : Result ReachError Reachability)
      → Decides P m
      → Decides P (t >> m)
  Decides-then t m d = record { at = λ r e. d.at r (then-eq-ok t m e) }

  pub Decides-ok : (r : Reachability) → (r.reachable ≡ true) ↔ P → Decides P (ok r)
  Decides-ok r h = record { at = λ s e. subst (λ t. (t.reachable ≡ true) ↔ P) (ok-injective e) h }

  pub Decides-if :
      {m k : Result ReachError Reachability} (b : Bool)
      → (b ≡ true → Decides P m)
      → (b ≡ false → Decides P k)
      → Decides P (if b then m else k)
  Decides-if true f g = f refl
  Decides-if false f g = g refl

  pub Decides-bind :
      {A : Type 0} (m : Result ReachError A) (f : A → Result ReachError Reachability)
      → ((a : A) → m ≡ ok a → Decides P (f a))
      → Decides P (m >>= f)
  Decides-bind m f d = record { at = λ r e. let (a, e₀, e₁) = bind-eq-ok m f e in (d a e₀).at r e₁ }

-- The answer of one test.
pub Decides-test :
    (b : Bool) (r : Reachability)
    → r.reachable ≡ true
    → Decides (b ≡ true) (ok (if b then r else unreachable))
Decides-test true r h = Decides-ok r (λ _. refl, λ _. h)
Decides-test false r h = Decides-ok unreachable (λ e. absurd (cc e), λ e. absurd (cc e))

module _ {P Q : Type 0} (k : Result ReachError Reachability) where
  -- The second question is asked when the first one says no.
  pub Decides-or :
      (m : Result ReachError Reachability)
      → Decides P m
      → Decides Q k
      → Decides (P ⊎ Q) (m >>= λ r. if r.reachable then ok r else k)
  Decides-or m dm dk = Decides-bind m _ (λ r e.
      Decides-if r.reachable (λ h. Decides-ok r ((λ _. inl ((dm.at r e).0 h)), λ _. h))
        (λ h.
          Decides-iff inr
            (λ s. elim s [
              | inl p ↦ let w : true ≡ false = sym ((dm.at r e).1 p) ∙ h in absurd (cc w)
              | inr q ↦ q
            ])
            dk))

module _ {A : Type 0} (P : A → Type 0) (f : A → Result ReachError Reachability) where
  pub Decides-first :
      ((a : A) → Decides (P a) (f a)) → (xs : List A) → Decides (Among P xs) (first_reachable f xs)
  unfolding first_reachable
  Decides-first d [] = Decides-ok unreachable (λ h. absurd (cc h), λ a. absurd (cc a.2))
  Decides-first d (x ∷ xs) =
      Decides-iff (Among-or P x xs) (or_Among P x xs)
        (Decides-or (first_reachable f xs) (f x) (d x) (Decides-first d xs))

failing-ok : {A : Type 0} (m : Result String A) (a : A) → failing m ≡ ok a → m ≡ ok a
failing-ok (ok b) a e = cc
failing-ok (err x) a e = cc

full_name-ok :
    (o : Option (String × String)) (message : String) (a : String × String)
    → full_name o message ≡ ok a
    → o ≡ some a
full_name-ok none message a e = cc
full_name-ok (some b) message a e = cc

module _ {A : Type 0} (P : A → Type 0) (f : A → Result ReachError Reachability) where
  -- What is decided about a value that was read.
  pub Decides-read :
      (m : Result String A)
      → ((a : A) → Decides (P a) (f a))
      → Decides ((a : A) × (m ≡ ok a) × P a) (failing m >>= f)
  Decides-read m d = Decides-bind (failing m) f (λ a e.
      let e' = failing-ok m a e in
      Decides-iff (λ p. (a, e', p)) (λ (b, h, p). subst P (ok-injective (sym h ∙ e')) p) (d a))

module _ (P : String × String → Type 0) (f : String × String → Result ReachError Reachability) where
  pub Decides-named :
      (o : Option (String × String)) (message : String)
      → ((a : String × String) → Decides (P a) (f a))
      → Decides ((a : String × String) × (o ≡ some a) × P a) (full_name o message >>= f)
  Decides-named o message d = Decides-bind (full_name o message) f (λ a e.
      let e' = full_name-ok o message a e in
      Decides-iff (λ p. (a, e', p)) (λ (b, h, p). subst P (some-injective (sym h ∙ e')) p) (d a))

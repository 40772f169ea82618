-- ===== src/Action.antt =====
-- A method with a receiver of state `S`: a result or an error, and what it left of the state.
use fabricator.Common.{
  ◌≡◌, refl, subst, Bool, true, false, if◌then◌else◌, Result, ok, err, List, [], ◌∷◌,
}

abbrev pub Action : Type 0 → Type 0 → Type 0 → Type 0
Action E S A = S → Result E A × S

module _ {E S A : Type 0} where
  unfoldable pub pure : A → Action E S A
  pure a s = (ok a, s)

  unfoldable pub lift : Result E A → Action E S A
  lift r s = (r, s)

  -- A call that only reads.
  unfoldable pub reads : (S → Result E A) → Action E S A
  reads f s = (f s, s)

module _ {E S A B : Type 0} where
  abbrev pub continue : (A → Action E S B) → Result E A × S → Result E B × S
  continue f (ok a, s) = f a s
  continue f (err e, s) = (err e, s)

-- A state about which nothing is known.
abbrev pub Anything : {A : Type 0} → A → Type 0
Anything a = Unit

infixl 5 ◌>>=◌ ◌>>◌
unfoldable pub ◌>>=◌ : {E S A B : Type 0} → Action E S A → (A → Action E S B) → Action E S B
◌>>=◌ m f s = continue f (m s)

abbrev pub ◌>>◌ : {E S B : Type 0} → Action E S (Unit {0}) → Action E S B → Action E S B
m >> k = m >>= λ _. k

abbrev pub for_each :
    {E S A : Type 0} → (A → Action E S (Unit {0})) → List A → Action E S (Unit {0})
for_each f [] = pure tt
for_each f (x ∷ xs) = f x >> for_each f xs

module _ {E S A : Type 0} where
  -- `Q` of a result and what is left, or `R` of what an error leaves.
  abbrev pub Outcome : (A → S → Type 0) → (E → S → Type 0) → Result E A × S → Type 0
  Outcome Q R (ok a, s) = Q a s
  Outcome Q R (err e, s) = R e s

  -- From a state with `P`, a success establishes `Q` and an error `R`.
  pub record Ensures (P : S → Type 0) (m : Action E S A) (Q : A → S → Type 0) (R : E → S → Type 0)
      : Type 0 where
    pub at : (s : S) → P s → Outcome Q R (m s)

module _ {E S A B : Type 0} (Q : A → S → Type 0) (Q' : B → S → Type 0) (R : E → S → Type 0) where
  continue-Outcome :
      (f : A → Action E S B)
      → ((a : A) → Ensures (Q a) (f a) Q' R)
      → (p : Result E A × S) → Outcome Q R p
      → Outcome Q' R (continue f p)
  continue-Outcome f k (ok a, s) h = (k a).at s h
  continue-Outcome f k (err e, s) h = h

  pub Ensures-bind :
      {P : S → Type 0} (m : Action E S A) (f : A → Action E S B)
      → Ensures P m Q R
      → ((a : A) → Ensures (Q a) (f a) Q' R)
      → Ensures P (m >>= f) Q' R
  unfolding ◌>>=◌
  Ensures-bind m f h k = record { at = λ s p. continue-Outcome f k (m s) (h.at s p) }

module _ {E S A : Type 0} (Q : A → S → Type 0) (R : E → S → Type 0) where
  pub Ensures-ok :
      {P : S → Type 0} {m : Action E S A} {s : S} {a : A} {s' : S}
      → Ensures P m Q R
      → P s
      → m s ≡ (ok a, s')
      → Q a s'
  Ensures-ok {P} {m} {s} h p e = subst (Outcome {E = E} Q R) e (h.at s p)

  pub Ensures-err :
      {P : S → Type 0} {m : Action E S A} {s : S} {e : E} {s' : S}
      → Ensures P m Q R
      → P s
      → m s ≡ (err e, s')
      → R e s'
  Ensures-err {P} {m} {s} h p e = subst (Outcome {E = E} Q R) e (h.at s p)

  pub Ensures-if :
      {P : S → Type 0} {m : Action E S A} {k : Action E S A} (b : Bool)
      → (b ≡ true → Ensures P m Q R)
      → (b ≡ false → Ensures P k Q R)
      → Ensures P (if b then m else k) Q R
  Ensures-if true h k = h refl
  Ensures-if false h k = k refl

module _ {E S A : Type 0} (Q Q' : A → S → Type 0) (R : E → S → Type 0) where
  post-Outcome :
      (p : Result E A × S) → Outcome Q R p → ((a : A) (s : S) → Q a s → Q' a s) → Outcome Q' R p
  post-Outcome (ok a, s) h k = k a s h
  post-Outcome (err e, s) h k = h

  pub Ensures-post :
      {P : S → Type 0} {m : Action E S A}
      → Ensures P m Q R
      → ((a : A) (s : S) → Q a s → Q' a s)
      → Ensures P m Q' R
  Ensures-post {P} {m} h k = record { at = λ s p. post-Outcome (m s) (h.at s p) k }

module _ {E S A : Type 0} (Q : S → Type 0) where
  -- What holds whatever the result.
  pub state-Outcome : (p : Result E A × S) → Outcome (λ _ s. Q s) (λ _ s. Q s) p → Q p.1
  state-Outcome (ok a, s) h = h
  state-Outcome (err e, s) h = h

-- What follows from a premise that does not depend on the state.
module _ {E S A : Type 0} {Q : A → S → Type 0} {R : E → S → Type 0} where
  pub Ensures-with :
      {C : Type 0} {P : S → Type 0} {m : Action E S A}
      → (C → Ensures P m Q R)
      → Ensures (λ s. C × P s) m Q R
  Ensures-with k = record { at = λ s p. (k p.0).at s p.1 }

  -- A premise that the state was said to have, and that does not speak of it.
  pub Ensures-with_all :
      {C : Type 0} {m : Action E S A}
      → (C → Ensures (λ s. Anything s) m Q R)
      → Ensures (λ s. C) m Q R
  Ensures-with_all k = record { at = λ s p. (k p).at s tt }

  pub Ensures-weaken :
      {P P' : S → Type 0} {m : Action E S A}
      → ((s : S) → P' s → P s)
      → Ensures P m Q R
      → Ensures P' m Q R
  Ensures-weaken k h = record { at = λ s p. h.at s (k s p) }

module _ {E S A : Type 0} where
  result-Outcome :
      (Q : S → Type 0) (r : Result E A) (s : S) → Q s → Outcome (λ _ t. Q t) (λ _ t. Q t) (r, s)
  result-Outcome Q (ok a) s p = p
  result-Outcome Q (err e) s p = p

module _ {E S A : Type 0} {P : S → Type 0} where
  pub Ensures-pure :
      {Q : A → S → Type 0} {R : E → S → Type 0} (a : A)
      → ((s : S) → P s → Q a s)
      → Ensures P (pure a) Q R
  unfolding pure
  Ensures-pure a h = record { at = h }

  -- A result that does not come from the state.
  pub Ensures-lift : (r : Result E A) → Ensures P (lift r) (λ _ s. P s) (λ _ s. P s)
  unfolding lift
  Ensures-lift r = record { at = λ s p. result-Outcome P r s p }

  -- A read leaves what there is.
  pub Ensures-reads : (f : S → Result E A) → Ensures P (reads f) (λ _ s. P s) (λ _ s. P s)
  unfolding reads
  Ensures-reads f = record { at = λ s p. result-Outcome P (f s) s p }

module _ {E S A : Type 0} {P : S → Type 0} (R : E → S → Type 0) where
  -- An invariant of each body is one of the loop.
  pub Ensures-for_each :
      (f : A → Action E S (Unit {0})) (xs : List A)
      → ((a : A) → Ensures P (f a) (λ _ s. P s) R)
      → Ensures P (for_each f xs) (λ _ s. P s) R
  unfolding pure
  Ensures-for_each f [] k = record { at = λ s p. p }
  Ensures-for_each f (x ∷ xs) k =
      Ensures-bind (λ _ s. P s) (λ _ s. P s) R (f x) (λ _. for_each f xs) (k x)
        (λ _. Ensures-for_each f xs k)

module _ {E S A : Type 0} where
  Outcome-Anything : (p : Result E A × S) → Outcome (λ _ _. Unit {0}) (λ _ _. Unit {0}) p
  Outcome-Anything (ok a, s) = tt
  Outcome-Anything (err e, s) = tt

  forget-Outcome :
      (Q : A → S → Type 0) (R : E → S → Type 0) (p : Result E A × S)
      → Outcome Q R p
      → Outcome Q (λ _ t. Anything t) p
  forget-Outcome Q R (ok a, s) h = h
  forget-Outcome Q R (err e, s) h = tt

  pub Ensures-forget :
      {P : S → Type 0} {m : Action E S A} {Q : A → S → Type 0} (R : E → S → Type 0)
      → Ensures P m Q R
      → Ensures P m Q (λ _ t. Anything t)
  Ensures-forget {P} {m} {Q} R h = record { at = λ s p. forget-Outcome Q R (m s) (h.at s p) }

  pub Ensures-Anything :
      {P : S → Type 0} (m : Action E S A) → Ensures P m (λ _ t. Anything t) (λ _ t. Anything t)
  Ensures-Anything m = record { at = λ s p. Outcome-Anything (m s) }

module _ {E S A : Type 0} (Q : A → S → Type 0) (R R' : E → S → Type 0) where
  error-Outcome :
      (p : Result E A × S) → Outcome Q R p → ((e : E) (s : S) → R e s → R' e s) → Outcome Q R' p
  error-Outcome (ok a, s) h k = h
  error-Outcome (err e, s) h k = k e s h

  pub Ensures-error :
      {P : S → Type 0} {m : Action E S A}
      → Ensures P m Q R
      → ((e : E) (s : S) → R e s → R' e s)
      → Ensures P m Q R'
  Ensures-error {P} {m} h k = record { at = λ s p. error-Outcome (m s) (h.at s p) k }

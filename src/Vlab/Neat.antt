-- ===== src/Vlab/Neat.antt =====
-- The steps of the builders of pkg/hhfab/vlabbuilder.go that leave no port unconnected.
use fabricator.Common.{
  ℕ, zero, suc, ◌+◌, String, Bool, true, false, List, [], ◌∷◌, ◌++◌, arith, Result, if◌then◌else◌,
}
use fabricator.Action.{
  Action, pure, lift, ◌>>=◌, Ensures, Ensures-bind, Ensures-pure, Ensures-lift, Ensures-forget,
  Anything,
}
use fabricator.Vlab.{Port, ServerLink, SwitchLink, BuilderBase, Lab}
use fabricator.Vlab.Loops.{repeat_with, count_with, each_with, collect}
use fabricator.Vlab.Servers.{server_link}
use fabricator.Vlab.Fabric.{switch_link}
use fabricator.Vlab.Used.{
  Tidy, Tidy-move, uses-append, all_ends, server_ends, switch_ends, next_switch_port-Tidy,
  next_server_port-Tidy,
}

abbrev pub Broken : String → Lab → Type 0
Broken e s = Anything s

-- A step from a tidy lab, with no port unconnected, to a tidy lab.
abbrev pub Neat : {A : Type 0} → Action String Lab A → Type 0
Neat m = Ensures (Tidy []) m (λ _ t. Tidy [] t) Broken

module _ {A : Type 0} where
  pub Neat-bind :
      {B : Type 0} (m : Action String Lab A) (f : A → Action String Lab B)
      → Neat m
      → ((a : A) → Neat (f a))
      → Neat (m >>= f)
  Neat-bind m f h k = Ensures-bind (λ _ t. Tidy [] t) (λ _ t. Tidy [] t) Broken m f h k

  pub Neat-pure : (a : A) → Neat (pure a)
  Neat-pure a = Ensures-pure a (λ s h. h)

  pub Neat-lift : (r : Result String A) → Neat (lift r)
  Neat-lift r = Ensures-forget (λ _ t. Tidy [] t) (Ensures-lift r)

  pub Neat-if : (b : Bool) (m k : Action String Lab A) → Neat m → Neat k → Neat (if b then m else k)
  Neat-if true m k h h' = h
  Neat-if false m k h h' = h'

  pub Neat-repeat_with :
      (n : ℕ) (f : A → Action String Lab A) (a : A)
      → ((x : A) → Neat (f x))
      → Neat (repeat_with n f a)
  unfolding repeat_with
  Neat-repeat_with zero f a h = Neat-pure a
  Neat-repeat_with (suc n) f a h =
      Neat-bind (f a) (repeat_with n f) (h a) (λ x. Neat-repeat_with n f x h)

  pub Neat-count_with :
      (n i : ℕ) (f : ℕ → A → Action String Lab A) (a : A)
      → ((k : ℕ) (x : A) → Neat (f k x))
      → Neat (count_with n i f a)
  unfolding count_with
  Neat-count_with zero i f a h = Neat-pure a
  Neat-count_with (suc n) i f a h =
      Neat-bind (f i a) (count_with n (i + 1) f) (h i a) (λ x. Neat-count_with n (i + 1) f x h)

  pub Neat-each_with :
      {B : Type 0} (xs : List B) (f : B → A → Action String Lab A) (a : A)
      → ((b : B) (x : A) → Neat (f b x))
      → Neat (each_with xs f a)
  unfolding each_with
  Neat-each_with [] f a h = Neat-pure a
  Neat-each_with (b ∷ xs) f a h =
      Neat-bind (f b a) (each_with xs f) (h b a) (λ x. Neat-each_with xs f x h)

module _ {A : Type 0} where
  pub Neat-collect :
      {B : Type 0} (xs : List B) (f : B → Action String Lab A)
      → ((b : B) → Neat (f b))
      → Neat (collect xs f)
  unfolding collect
  Neat-collect [] f h = Ensures-pure [] (λ s p. p)
  Neat-collect (b ∷ xs) f h = Neat-bind (f b) _ (h b) (λ a.
      Neat-bind (collect xs f) _ (Neat-collect xs f h) (λ as'. Ensures-pure (a ∷ as') (λ s p. p)))

module _ {L B : Type 0} (ends : L → List Port) (f : B → Action String Lab L) where
  -- A loop that makes links: their ends are still to be connected.
  pub collect-Tidy :
      (pending : List Port) (xs : List B)
      → ((ps : List Port) (b : B) → Ensures (Tidy ps) (f b) (λ l t. Tidy (ends l ++ ps) t) Broken)
      → Ensures (Tidy pending) (collect xs f) (λ ls t. Tidy (all_ends ends ls ++ pending) t) Broken
  unfolding collect
  collect-Tidy pending [] h = Ensures-pure [] (λ s p. p)
  collect-Tidy pending (b ∷ xs) h =
      let Q = λ (ls : List L) (t : Lab). Tidy (all_ends ends ls ++ pending) t in
      Ensures-bind (λ l t. Tidy (ends l ++ pending) t) Q Broken (f b) _ (h pending b)
        (λ l.
          Ensures-bind (λ ls t. Tidy (all_ends ends ls ++ (ends l ++ pending)) t) Q Broken
            (collect xs f) _ (collect-Tidy (ends l ++ pending) xs h)
            (λ ls. Ensures-pure (l ∷ ls) (λ s p.
              Tidy-move (all_ends ends ls ++ (ends l ++ pending))
                ((ends l ++ all_ends ends ls) ++ pending) s
                (λ name slot. omega (
                  arith,
                  uses-append name slot (all_ends ends ls) (ends l ++ pending),
                  uses-append name slot (ends l) pending,
                  uses-append name slot (ends l ++ all_ends ends ls) pending,
                  uses-append name slot (ends l) (all_ends ends ls),
                ))
                p)))

module _ (pending : List Port) where
  pub server_link-Tidy :
      (b : BuilderBase) (server leaf : String)
      → Ensures
          (Tidy pending)
          (server_link b server leaf)
          (λ l t. Tidy (server_ends l ++ pending) t)
          Broken
  unfolding server_link
  server_link-Tidy b server leaf =
      let Q = λ (l : ServerLink) (t : Lab). Tidy (server_ends l ++ pending) t in
      Ensures-bind (λ p t. Tidy (p ∷ pending) t) Q Broken _ _
        (next_server_port-Tidy pending b server)
        (λ p.
          Ensures-bind (λ q t. Tidy (q ∷ p ∷ pending) t) Q Broken _ _
            (next_switch_port-Tidy (p ∷ pending) leaf)
            (λ q.
              Ensures-pure (record { server_port = p; switch_port = q })
                (λ s h.
                  Tidy-move (q ∷ p ∷ pending) (p ∷ q ∷ pending) s (λ name slot. omega arith) h)))

  pub switch_link-Tidy :
      (a b : String)
      → Ensures (Tidy pending) (switch_link a b) (λ l t. Tidy (switch_ends l ++ pending) t) Broken
  unfolding switch_link
  switch_link-Tidy a b =
      let Q = λ (l : SwitchLink) (t : Lab). Tidy (switch_ends l ++ pending) t in
      Ensures-bind (λ p t. Tidy (p ∷ pending) t) Q Broken _ _ (next_switch_port-Tidy pending a)
        (λ p.
          Ensures-bind (λ q t. Tidy (q ∷ p ∷ pending) t) Q Broken _ _
            (next_switch_port-Tidy (p ∷ pending) b)
            (λ q.
              Ensures-pure (record { first = p; second = q })
                (λ s h.
                  Tidy-move (q ∷ p ∷ pending) (p ∷ q ∷ pending) s (λ name slot. omega arith) h)))

-- ===== src/Vlab/Loops.antt =====
-- The loops of pkg/hhfab/vlabbuilder.go.
use fabricator.Common.{
  ℕ, zero, suc, ◌+◌, ◌-◌, ◌==◌, String, Option, none, some, List, [], ◌∷◌, Result, ok, err,
  get_elem?, if◌then◌else◌,
}
use fabricator.Action.{Action, pure, ◌>>=◌}

module _ {E S A : Type 0} where
  -- `for i := 0; i < n; i++`, whose body does not use `i`, with what it updates.
  unfoldable pub repeat_with : ℕ → (A → Action E S A) → A → Action E S A
  repeat_with zero f a = pure a
  repeat_with (suc n) f a = f a >>= repeat_with n f

  -- `for i := 0; i < n; i++`, from a first `i`.
  unfoldable pub count_with : ℕ → ℕ → (ℕ → A → Action E S A) → A → Action E S A
  count_with zero i f a = pure a
  count_with (suc n) i f a = f i a >>= count_with n (i + 1) f

  unfoldable pub each_with : {B : Type 0} → List B → (B → A → Action E S A) → A → Action E S A
  each_with [] f a = pure a
  each_with (x ∷ xs) f a = f x a >>= each_with xs f

  -- A loop that makes a list.
  unfoldable pub collect : {B : Type 0} → List B → (B → Action E S A) → Action E S (List A)
  collect [] f = pure []
  collect (x ∷ xs) f = f x >>= λ a. (collect xs f >>= λ as'. pure (a ∷ as'))

abbrev pub count_from : ℕ → ℕ → List ℕ
count_from a zero = []
count_from a (suc n) = a ∷ count_from (a + 1) n

-- `for i := a; i <= n; i++` on `uint8`: with 255 for `n` it does not end.
unfoldable pub up_to : ℕ → ℕ → Result String (List ℕ)
up_to a n = if n == 255 then err "endless loop" else ok (count_from a (n + 1 - a))

abbrev pub or_panic : Option String → Result String String
or_panic none = err "index out of range"
or_panic (some s) = ok s

unfoldable pub at_index : List String → ℕ → Result String String
at_index xs i = or_panic (get_elem? xs i)

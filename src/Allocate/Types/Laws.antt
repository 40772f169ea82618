-- ===== src/Allocate/Types/Laws.antt =====
-- Sorting, the length and the elements.
use Prim.Native.Nat.{Ordering}
use fabricator.Common.{◌+◌, ◌≡◌, refl, List, [], ◌∷◌, arith, All, length}
use fabricator.Allocate.Types.{insert_sorted, sort_func}

module _ {A : Type 0} (cmp : A → A → Ordering) where
  length-insert_sorted : (x : A) (ys : List A) → length (insert_sorted cmp x ys) ≡ length ys + 1
  unfolding insert_sorted
  length-insert_sorted x [] = refl
  length-insert_sorted x (y ∷ ys) = ground (arith, length-insert_sorted x ys)

  pub length-sort_func : (xs : List A) → length (sort_func cmp xs) ≡ length xs
  unfolding sort_func
  length-sort_func [] = refl
  length-sort_func (x ∷ xs) =
      omega (arith, length-insert_sorted x (sort_func cmp xs), length-sort_func xs)

  module _ (P : A → Type 0) where
    All-insert_sorted : (x : A) (ys : List A) → P x → All P ys → All P (insert_sorted cmp x ys)
    unfolding insert_sorted
    All-insert_sorted x [] p h = (p, tt)
    All-insert_sorted x (y ∷ ys) p h =
        elim (cmp x y)
          as (λ o. All P (elim o [ Ordering.gt ↦ y ∷ insert_sorted cmp x ys | _ ↦ x ∷ y ∷ ys ])) [
            | Ordering.gt ↦ (h.0, All-insert_sorted x ys p h.1)
            | _ ↦ (p, h)
          ]

    pub All-sort_func : (xs : List A) → All P xs → All P (sort_func cmp xs)
    unfolding sort_func
    All-sort_func [] h = tt
    All-sort_func (x ∷ xs) h = All-insert_sorted x (sort_func cmp xs) h.0 (All-sort_func xs h.1)

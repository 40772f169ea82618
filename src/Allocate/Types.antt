-- ===== src/Allocate/Types.antt =====
-- The errors of `hydrate` in pkg/hhfab/hydrate.go, sorting, and the text of an address.
use Prim.Native.Nat.{Ordering}
pub mod Laws
use fabricator.Common.{ℕ, String, Option, none, some, List, [], ◌∷◌, Result, ok, err}
use fabricator.Netip.{Addr, PrefixText, text}
use fabricator.Status.Types.{HydrationError, Kind}

pub data AllocateError : Type 0 where
  of_config : HydrationError → AllocateError
  vip_not_first : AllocateError
  role_unset role_invalid : String → AllocateError
  get_failed : String → AllocateError
  update_failed : Kind → String → AllocateError
  no_interface : String → String → AllocateError
  bad_switch_ip : String → ℕ → AllocateError
  no_switch_asn : String → AllocateError
  too_many_gateways : AllocateError

-- A call of the API that may fail.
abbrev pub lifted : {A : Type 0} → AllocateError → Option A → Result AllocateError A
lifted e none = err e
lifted e (some a) = ok a

-- `netip.PrefixFrom(a, bits).String()`, and `a.String() + "/31"`. Of no address it is a text that
-- `ParsePrefix` refuses.
abbrev pub prefix_text : Addr → ℕ → PrefixText
prefix_text a n = text (record { addr = a; bits = n })

-- `slices.SortFunc`: the names of objects are unique, so that a comparison decides the order.
module _ {A : Type 0} (cmp : A → A → Ordering) where
  insert_sorted : A → List A → List A
  insert_sorted x [] = x ∷ []
  insert_sorted x (y ∷ ys) = elim (cmp x y) [
    | Ordering.gt ↦ y ∷ insert_sorted x ys
    | _ ↦ x ∷ y ∷ ys
  ]

  unfoldable pub sort_func : List A → List A
  unfolding insert_sorted
  sort_func [] = []
  sort_func (x ∷ xs) = insert_sorted x (sort_func xs)

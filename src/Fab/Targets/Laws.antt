-- ===== src/Fab/Targets/Laws.antt =====
-- The defaults of the targets in `Default`, applied twice.
use fabricator.Common.{
  ◌≡◌, refl, String, true, List, [], ◌∷◌, ◌++◌, arith, All, ap, eq_refl, some, Option,
}
use fabricator.Fab.Types.{Table, Target, PrometheusTarget, OldTarget}
use fabricator.Fab.Targets.{
  has_key, made, add_missing, label_target, on_value, default_prometheus, default_loki,
  default_pyroscope,
}

module _ {A B : Type 0} (f : A → B) where
  has_key-append : (k : String) (m n : Table B) → has_key k m ≡ true → has_key k (m ++ n) ≡ true
  has_key-append k [] n h = cc
  has_key-append k ((j, x) ∷ m) n h = ground (arith, has_key-append k m n)

  has_key-append_last : (k : String) (x : B) (m : Table B) → has_key k (m ++ (k, x) ∷ []) ≡ true
  has_key-append_last k x [] = ground (arith, eq_refl k)
  has_key-append_last k x ((j, y) ∷ m) = ground (arith, has_key-append_last k x m)

  -- What a map has, it keeps.
  has_key-add_missing :
      (k : String) (l : List (String × A)) (m : Table B)
      → has_key k m ≡ true
      → has_key k (add_missing f l m) ≡ true
  has_key-add_missing k [] m h = h
  has_key-add_missing k ((j, v) ∷ l) m h =
      has_key-add_missing k l _ (ground (arith, has_key-append k m ((j, f v) ∷ []) h))

  -- Afterwards the map has every key.
  All-add_missing :
      (l : List (String × A)) (m : Table B)
      → All (λ (e : String × A). has_key e.0 (add_missing f l m) ≡ true) l
  All-add_missing [] m = tt
  All-add_missing ((k, v) ∷ l) m = (
    has_key-add_missing k l _ (ground (arith, has_key-append_last k (f v) m)),
    All-add_missing l _,
  )

  -- A map that has every key is left as it is.
  add_missing_none :
      (l : List (String × A)) (m : Table B)
      → All (λ (e : String × A). has_key e.0 m ≡ true) l
      → add_missing f l m ≡ m
  add_missing_none [] m h = refl
  add_missing_none ((k, v) ∷ l) m h = rw (h.0) (add_missing_none l m h.1)

  pub add_missing_twice :
      (l : List (String × A)) (m : Table B)
      → add_missing f l (add_missing f l m) ≡ add_missing f l m
  add_missing_twice l m = add_missing_none l (add_missing f l m) (All-add_missing l m)

pub label_target_twice :
    (labels : Table String) (t : Target)
    → label_target labels (label_target labels t) ≡ label_target labels t
unfolding label_target
label_target_twice labels t = rw (add_missing_twice (λ v. v) labels (made t.labels)) refl

on_value_twice :
    {A : Type 0} (f : A → A) (m : Table A)
    → ((x : A) → f (f x) ≡ f x)
    → on_value f (on_value f m) ≡ on_value f m
on_value_twice f [] h = refl
on_value_twice f ((k, x) ∷ m) h = rw (h x, on_value_twice f m h) refl

-- Once the old configuration is cleared, the second pass changes nothing.
pub default_prometheus_twice :
    (labels : Table String) (old : Table OldTarget) (m : Option (Table PrometheusTarget))
    → default_prometheus labels [] (default_prometheus labels old m)
      ≡ default_prometheus labels old m
unfolding default_prometheus
default_prometheus_twice labels old m =
    ap some (on_value_twice _ _ (λ t. rw (label_target_twice labels t.target) refl))

pub default_loki_twice :
    (labels : Table String) (old : Table OldTarget) (m : Option (Table Target))
    → default_loki labels [] (default_loki labels old m) ≡ default_loki labels old m
unfolding default_loki
default_loki_twice labels old m = ap some (on_value_twice _ _ (label_target_twice labels))

pub default_pyroscope_twice :
    (labels : Table String) (m : Option (Table Target))
    → default_pyroscope labels (default_pyroscope labels m) ≡ default_pyroscope labels m
unfolding default_pyroscope
default_pyroscope_twice labels m = ap some (on_value_twice _ _ (label_target_twice labels))

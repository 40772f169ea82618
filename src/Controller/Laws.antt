-- ===== src/Controller/Laws.antt =====
-- What the controller relies on of the Kubernetes API: documented behaviour of the conditions and of
-- the writes of a status and of an object, and of reads, which are from a cache and may be stale.
use fabricator.Common.{ℕ, ◌≤◌, String, str_eq, false, Option, some, List, ◌≡◌, ◌⊎◌, ok, err}
use fabricator.Controller.{State, Api, Condition, FabObject, condition_applied}

-- An object as it was sent, and as the answer gives it back. An update of an object that has changed
-- since it was read is refused, so the generation is that of the object sent.
pub record SameStatus {V : Type 0} (f g : FabObject V) : Type 0 where
  pub generation : g.generation ≡ f.generation
  pub conditions : g.status.conditions ≡ f.status.conditions
  pub components : g.status.components ≡ f.status.components
  pub attempt_gen : g.status.last_attempt_gen ≡ f.status.last_attempt_gen
  pub applied_gen : g.status.last_applied_gen ≡ f.status.last_applied_gen
  pub applied_controller : g.status.last_applied_controller ≡ f.status.last_applied_controller

module _ {E W O N V : Type 0} (api : Api E W O N V) where
  -- What anything but a write of the attempt leaves alone: the spec may change, and with it the
  -- generation grows; so may the other conditions.
  pub record KeepsRecord (f g : FabObject V) : Type 0 where
    pub generation : f.generation ≤ g.generation
    pub is_applied :
        api.is_status_condition_true g.status.conditions condition_applied
        ≡ api.is_status_condition_true f.status.conditions condition_applied
    pub attempt_gen : g.status.last_attempt_gen ≡ f.status.last_attempt_gen
    pub applied_gen : g.status.last_applied_gen ≡ f.status.last_applied_gen
    pub applied_controller : g.status.last_applied_controller ≡ f.status.last_applied_controller

  -- `stored`: the object that the cluster holds under `key`.
  pub record ApiLaws (key : String × String) (stored : W → Option (FabObject V)) : Type 0 where
    -- `SetStatusCondition`
    pub is_true-set :
        (cs : List Condition) (c : Condition)
        → api.is_status_condition_true (api.set_status_condition cs c) c.kind ≡ c.is_true
    pub is_true-set_ne :
        (cs : List Condition) (c : Condition) (kind : String)
        → str_eq c.kind kind ≡ false
        → api.is_status_condition_true (api.set_status_condition cs c) kind
          ≡ api.is_status_condition_true cs kind
    pub update_ok :
        (f g : FabObject V) (w w' : W)
        → api.update_status f w ≡ (ok g, w')
        → (stored w' ≡ some g) × SameStatus f g
    -- An update that failed was not made, or its answer was lost.
    pub update_err :
        (f : FabObject V) (w w' : W) (e : E)
        → api.update_status f w ≡ (err e, w')
        → (stored w' ≡ stored w) ⊎ ((g : FabObject V) × (stored w' ≡ some g) × SameStatus f g)
    pub create_lem :
        (n : ℕ) (o : O) (w : W) (f : FabObject V)
        → stored w ≡ some f
        → (g : FabObject V) × (stored (api.create_or_update n o w).1 ≡ some g) × KeepsRecord f g
    pub delete_lem : (name : String) (w : W) → stored (api.delete_chart name w).1 ≡ stored w

  -- A read from the cache that is not stale gives the object that is stored.
  abbrev pub IsFresh : String × String → (W → Option (FabObject V)) → State W → Type 0
  IsFresh key stored s =
      (f : FabObject V) → api.get key s.cluster ≡ ok f → stored s.cluster ≡ some f

  -- `held`: the versions of the object that the cluster has or had. A read, which may be stale, gives
  -- one of them; a write adds at most the version that it makes.
  pub record ReadLaws (key : String × String) (held : W → FabObject V → Type 0) : Type 0 where
    pub get_held : (w : W) (f : FabObject V) → api.get key w ≡ ok f → held w f
    pub update_held :
        (f x : FabObject V) (w : W) → held (api.update_status f w).1 x → held w x ⊎ SameStatus f x
    pub create_held :
        (n : ℕ) (o : O) (w : W) (x : FabObject V)
        → held (api.create_or_update n o w).1 x
        → held w x ⊎ ((f : FabObject V) × held w f × KeepsRecord f x)
    pub delete_held :
        (name : String) (w : W) (x : FabObject V) → held (api.delete_chart name w).1 x → held w x

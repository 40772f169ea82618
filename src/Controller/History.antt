-- ===== src/Controller/History.antt =====
-- Histories of the object that the controller, pkg/controller/fabricator_ctrl.go, looks after:
-- reconciliations by controllers of any version, turns of the watcher, and edits of the spec.
use fabricator.Common.{String, Option, ◌⊎◌, inl, inr}
use fabricator.Controller.{Api, FabObject, State}
use fabricator.Controller.Check.{watch_once}
use fabricator.Controller.Reconcile.{reconcile}
use fabricator.Controller.Laws.{ApiLaws, ReadLaws, KeepsRecord}
use fabricator.Controller.Consistent.{IsConsistent, KeepsRecord-IsConsistent}
use fabricator.Controller.Preserved.{Valid, reconcile-IsConsistent, watch_once-IsConsistent}

module _ {E W O N V : Type 0} (api : Api E W O N V) (key : String × String)
    (stored : W → Option (FabObject V)) (L : ApiLaws api key stored)
    (held : W → FabObject V → Type 0) (M : ReadLaws api key held) where
  -- What happens to the cluster: a request is served by a controller of some version, the watcher
  -- wakes up, or anything else: the cache catches up, or somebody writes to the object and leaves
  -- the record of the attempts alone. Its versions are then old ones, or come from old ones.
  pub data Move (s : State W) : State W → Type 0 where
    reconciled : (version : String) → Move s (reconcile api version key s).1
    watched : Move s (watch_once api key s)
    edited :
        (w : W)
        → ((x : FabObject V)
            → held w x
            → held s.cluster x ⊎ ((f : FabObject V) × held s.cluster f × KeepsRecord api f x))
        → Move s (record s { cluster = w })

  Move-IsConsistent :
      {s t : State W} → Move s t → Valid api key stored L held M s → Valid api key stored L held M t
  Move-IsConsistent {s} (reconciled version) h x e =
      reconcile-IsConsistent api key stored L held M version s h x e
  Move-IsConsistent {s} watched h x e = watch_once-IsConsistent api key stored L held M s h x e
  Move-IsConsistent (edited w k) h x e = elim (k x e) [
    | inl old ↦ h x old
    | inr (f, old, keeps) ↦ KeepsRecord-IsConsistent api f x keeps (h f old)
  ]

  pub data History (s : State W) : State W → Type 0 where
    start : History s s
    next : {t u : State W} → History s t → Move t u → History s u

  -- In every history of reconciliations by controllers of any version, turns of the watcher and
  -- edits of the spec, where reads may be stale: if the versions of the object that the cluster has
  -- or had, and so those that may be read, are consistent at the start, they are so at the end.
  pub History-IsConsistent :
      {s t : State W}
      → History s t
      → ((f : FabObject V) → held s.cluster f → IsConsistent api f)
      → (f : FabObject V) → held t.cluster f
      → IsConsistent api f
  History-IsConsistent start h = h
  History-IsConsistent (next p m) h = Move-IsConsistent m (History-IsConsistent p h)

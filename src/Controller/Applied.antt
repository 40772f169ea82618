-- ===== src/Controller/Applied.antt =====
-- What a successful `Reconcile` of pkg/controller/fabricator_ctrl.go leaves.
use fabricator.Common.{
  ℕ, String, eq_iff, true, false, Option, some, List, ◌≡◌, refl, sym, ap, ◌∙◌, Result, ok, err,
  map_err, if◌then◌else◌, arith,
}
use fabricator.Fab.Ready.{ComponentsStatus, RoleNode}
use fabricator.Controller.{Api, FabObject, State, Condition, ReconcileError, condition_applied}
use fabricator.Action.{
  Outcome, reads, Ensures, Ensures-bind, Ensures-lift, Ensures-reads, Ensures-pure, Ensures-if,
  Ensures-with, Ensures-weaken, Ensures-forget, Ensures-post, Ensures-ok, Anything,
  Ensures-Anything,
}
use fabricator.Controller.Check.{is_true, status_check, checked}
use fabricator.Controller.Reconcile.{
  prepare, applied, needs_apply, install_and_record, end_attempt, apply, apply_if_needed,
  reconcile_object, reconcile, is_ignored,
}
use fabricator.Controller.Laws.{ApiLaws, SameStatus, IsFresh}
use fabricator.Controller.Writes.{Holds, answer-Ensures, status_check-Ensures}
use fabricator.Controller.Consistent.{checked-KeepsRecord}

-- Applied, by this version of the controller, at the generation of the spec.
pub record IsApplied {E W O N V : Type 0} (api : Api E W O N V) (version : String) (f : FabObject V)
    : Type 0 where
  pub condition : is_true api condition_applied f ≡ true
  pub gen : f.status.last_applied_gen ≡ f.generation
  pub controller : f.status.last_applied_controller ≡ version

module _ {E W O N V : Type 0} (api : Api E W O N V) (version : String) where
  -- The test of the controller, as a property of the object.
  pub needs_apply-IsApplied :
      (f : FabObject V) → needs_apply api version f ≡ false → IsApplied api version f
  unfolding needs_apply
  needs_apply-IsApplied f h = record {
    condition = ground arith;
    gen = ground arith;
    controller = ground (arith, eq_iff f.status.last_applied_controller version);
  }

  pub IsApplied-needs_apply :
      (f : FabObject V) → IsApplied api version f → needs_apply api version f ≡ false
  unfolding needs_apply
  IsApplied-needs_apply f a =
      ground
        (arith, eq_iff f.status.last_applied_controller version, a.condition, a.gen, a.controller)

  SameStatus-IsApplied :
      (f g : FabObject V) → SameStatus f g → IsApplied api version f → IsApplied api version g
  SameStatus-IsApplied f g k a = record {
    condition =
        ap (λ (cs : List Condition). api.is_status_condition_true cs condition_applied) k.conditions
        ∙ a.condition;
    gen = k.applied_gen ∙ a.gen ∙ sym k.generation;
    controller = k.applied_controller ∙ a.controller;
  }

module _ {E W O N V : Type 0} (api : Api E W O N V) (key : String × String)
    (stored : W → Option (FabObject V)) (L : ApiLaws api key stored) (version : String) where
  applied-IsApplied :
      (now : ℕ) (f : FabObject V) → IsApplied api version (applied api version now f)
  unfolding applied
  applied-IsApplied now f = record { condition = L.is_true-set _ _; gen = refl; controller = refl }

  checked-IsApplied :
      (now : ℕ) (nodes : List RoleNode) (c : ComponentsStatus) (f : FabObject V)
      → IsApplied api version f
      → IsApplied api version (checked api now nodes c f)
  unfolding checked
  checked-IsApplied now nodes c f a = record {
    condition = (checked-KeepsRecord api stored L now nodes c f).is_applied ∙ a.condition;
    gen = a.gen;
    controller = a.controller;
  }

  -- An answer that is applied, in a state whose object is.
  abbrev Answered : FabObject V → State W → Type 0
  Answered g s = IsApplied api version g × Holds stored (IsApplied api version) s

  abbrev R : ReconcileError E → State W → Type 0
  R e s = Anything s

  end_attempt-Ensures :
      (f : FabObject V) → Ensures (λ t. Anything t) (end_attempt api version f) Answered R
  unfolding end_attempt
  end_attempt-Ensures f =
      Ensures-bind (λ (now : ℕ) t. Anything t) Answered R _ _ (Ensures-Anything _)
        (λ now.
          Ensures-post _ Answered R (answer-Ensures api stored L ReconcileError.updating_applied _)
            (λ g t h.
              let a = SameStatus-IsApplied api version _ g h.1 (applied-IsApplied now f) in
              (a, (g, h.0, a))))

  apply-Ensures : (f : FabObject V) → Ensures (λ t. Anything t) (apply api version f) Answered R
  unfolding apply install_and_record
  apply-Ensures f =
      Ensures-bind (λ (c : N × String) t. Anything t) Answered R _ _ (Ensures-Anything _)
        (λ c.
          Ensures-bind (λ (g : FabObject V) t. Anything t) Answered R _ _ (Ensures-Anything _)
            (λ g.
              Ensures-bind (λ (h : FabObject V) t. Anything t) Answered R _ _ (Ensures-Anything _)
                (λ h.
                  Ensures-bind (λ (u : Unit {0}) t. Anything t) Answered R _ _ (Ensures-Anything _)
                    (λ _. end_attempt-Ensures h))))

  -- The object that was read, in the state that holds it.
  abbrev Read : FabObject V → State W → Type 0
  Read f s = stored s.cluster ≡ some f

  get-Outcome :
      (s : State W) (r : Result E (FabObject V))
      → api.get key s.cluster ≡ r
      → IsFresh api key stored s
      → Outcome Read R (map_err {F = ReconcileError E} ReconcileError.fetching r, s)
  get-Outcome s (ok f) e h = h f e
  get-Outcome s (err x) e h = tt

  get-Ensures :
      Ensures
        (IsFresh api key stored)
        (reads
          (λ s. map_err {F = ReconcileError E} ReconcileError.fetching (api.get key s.cluster)))
        Read
        R
  unfolding reads
  get-Ensures = record { at = λ s h. get-Outcome s (api.get key s.cluster) refl h }

  prepare-IsApplied :
      (channel : String) (f : FabObject V)
      → needs_apply api version (prepare api channel f) ≡ false
      → IsApplied api version f
  unfolding prepare needs_apply
  prepare-IsApplied channel f h = needs_apply-IsApplied api version f h

  apply_if_needed-Ensures :
      (channel : String) (f : FabObject V)
      → Ensures (Read f) (apply_if_needed api version (prepare api channel f)) Answered R
  unfolding apply_if_needed prepare
  apply_if_needed-Ensures channel f =
      Ensures-if Answered R (needs_apply api version (prepare api channel f))
        (λ _. Ensures-weaken (λ s p. tt) (apply-Ensures (prepare api channel f)))
        (λ h.
          Ensures-pure _
            (λ s p. (needs_apply-IsApplied api version _ h, (f, p, prepare-IsApplied channel f h))))

  check-Ensures :
      (f : FabObject V) (nodes : List RoleNode)
      → IsApplied api version f
      → Ensures
          (Holds stored (IsApplied api version))
          (status_check api f nodes)
          (λ _ t. Holds stored (IsApplied api version) t)
          R
  check-Ensures f nodes a =
      Ensures-forget (λ _ t. Holds stored (IsApplied api version) t)
        (status_check-Ensures api stored L (IsApplied api version) f nodes
          (λ now c g e. SameStatus-IsApplied api version _ g e (checked-IsApplied now nodes c f a)))

  reconcile_object-Ensures :
      Ensures
        (IsFresh api key stored)
        (reconcile_object api version key)
        (λ _ t. Holds stored (IsApplied api version) t)
        R
  unfolding reconcile_object
  reconcile_object-Ensures =
      let H = λ (u : Unit {0}) (t : State W). Holds stored (IsApplied api version) t in
      Ensures-bind Read H R _ _ get-Ensures (λ f.
        Ensures-bind (λ (channel : String) t. Read f t) H R _ _
          (Ensures-forget (λ _ t. Read f t) (Ensures-lift _))
          (λ channel.
            Ensures-bind (λ (nodes : List RoleNode) t. Read f t) H R _ _
              (Ensures-forget (λ _ t. Read f t) (Ensures-reads _))
              (λ nodes.
                Ensures-bind Answered H R _ _ (apply_if_needed-Ensures channel f)
                  (λ g. Ensures-with (λ a. check-Ensures g nodes a)))))

  -- A reconciliation that returns no error on a request it does not drop, and whose read of the
  -- object is not stale, leaves a stored object that is applied, at the generation of its spec and by the version of the controller that ran.
  pub reconcile-IsApplied :
      (s s' : State W)
      → is_ignored key ≡ false
      → IsFresh api key stored s
      → reconcile api version key s ≡ (ok tt, s')
      → Holds stored (IsApplied api version) s'
  unfolding reconcile
  reconcile-IsApplied s s' h fresh e =
      Ensures-ok (λ _ t. Holds stored (IsApplied api version) t) R reconcile_object-Ensures fresh
        (ap (λ b. if b then (ok tt, s) else reconcile_object api version key s) (sym h) ∙ e)

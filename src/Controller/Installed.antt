-- ===== src/Controller/Installed.antt =====
-- The installs of a whole `Reconcile` of pkg/controller/fabricator_ctrl.go, and of a second one.
use fabricator.Common.{
  String, Bool, true, false, Option, some-injective, List, [], ◌∷◌, ◌++◌, ◌≡◌, refl, subst, sym, ap,
  ◌∙◌, Result, ok, err, ok-injective, map_err, if◌then◌else◌,
}
use mathlib.Core.List.{append_assoc}
use fabricator.Fab.Ready.{RoleNode}
use fabricator.Controller.{Api, FabObject, State, InstallStep, ReconcileError}
use fabricator.Action.{
  Outcome, reads, Ensures, Ensures-bind, Ensures-lift, Ensures-reads, Ensures-pure, Ensures-if,
  Ensures-with, Ensures-forget, Ensures-ok, Anything, state-Outcome,
}
use fabricator.Controller.Install.{installs_before, installs_after}
use fabricator.Controller.Check.{status_check, check_components, update_ready, is_fresh}
use fabricator.Controller.Reconcile.{
  prepare, needs_apply, before_attempt, begin_attempt, install_and_record, end_attempt, apply,
  apply_if_needed, reconcile_object, reconcile, is_ignored, one_control, or_missing,
  secret_password,
}
use fabricator.Controller.Laws.{ApiLaws, IsFresh}
use fabricator.Controller.Applied.{IsApplied, IsApplied-needs_apply, reconcile-IsApplied}
use fabricator.Controller.Trace.{
  Begun, all_installs, Same, Same-bind, calls-Begun, enforce-Adds, enforce_all-Adds,
}

module _ {E W O N V : Type 0} (api : Api E W O N V) (ks : List InstallStep) where
  abbrev Unknown : ReconcileError E → State W → Type 0
  Unknown e s = Anything s

  before_attempt-Adds :
      (f : FabObject V)
      → Ensures
          (Begun ks)
          (before_attempt api f)
          (λ _ t. Begun (ks ++ InstallStep.fab_and_control ∷ []) t)
          Unknown
  unfolding before_attempt
  before_attempt-Adds f =
      let Old = λ (t : State W). Begun ks t in
      let New = λ (t : State W). Begun (ks ++ InstallStep.fab_and_control ∷ []) t in
      Ensures-bind (λ (cs : List N) t. Old t) (λ _ t. New t) Unknown _ _
        (Ensures-forget (λ _ t. Old t) (Ensures-reads _))
        (λ cs.
          Ensures-bind (λ (c : N) t. Old t) (λ _ t. New t) Unknown _ _
            (Ensures-forget (λ _ t. Old t) (Ensures-lift (one_control cs)))
            (λ c.
              Ensures-bind (λ (u : Unit {0}) t. New t) (λ _ t. New t) Unknown _ _
                (Ensures-forget (λ _ t. New t)
                  (enforce-Adds api ks (api.default_control c) "" f InstallStep.fab_and_control))
                (λ _.
                  Ensures-bind (λ secret t. New t) (λ _ t. New t) Unknown _ _
                    (Ensures-forget (λ _ t. New t) (Ensures-reads _))
                    (λ secret.
                      Ensures-bind (λ (p : String) t. New t) (λ _ t. New t) Unknown _ _
                        (Ensures-forget (λ _ t. New t)
                          (Ensures-lift (or_missing (secret_password secret))))
                        (λ p. Ensures-pure (api.default_control c, p) (λ s h. h))))))

  begin_attempt-Same : (f : FabObject V) → Same api ks (begin_attempt api f)
  unfolding begin_attempt
  begin_attempt-Same f =
      Same-bind api ks _ _ (Ensures-reads _)
        (λ now. calls-Begun ReconcileError.updating_attempt ks _)

  end_attempt-Same : (version : String) (f : FabObject V) → Same api ks (end_attempt api version f)
  unfolding end_attempt
  end_attempt-Same version f =
      Same-bind api ks _ _ (Ensures-reads _)
        (λ now. calls-Begun ReconcileError.updating_applied ks _)

  check_components-Same :
      (f : FabObject V) (nodes : List RoleNode) → Same api ks (check_components api f nodes)
  unfolding check_components update_ready
  check_components-Same f nodes = Same-bind api ks _ _ (Ensures-reads _) (λ c.
      Same-bind api ks _ _ (Ensures-reads _) (λ now.
        Same-bind api ks _ _ (calls-Begun ReconcileError.updating_ready ks _)
          (λ g. Ensures-pure tt (λ s h. h))))

  check-Outcome :
      (b : Bool) (s : State W) (f : FabObject V) (nodes : List RoleNode)
      → Begun ks s
      → Outcome {E = ReconcileError E}
          (λ _ t. Begun ks t)
          (λ _ t. Begun ks t)
          (if b then (ok tt, s) else check_components api f nodes s)
  check-Outcome true s f nodes h = h
  check-Outcome false s f nodes h = (check_components-Same f nodes).at s h

  check-Same : (f : FabObject V) (nodes : List RoleNode) → Same api ks (status_check api f nodes)
  unfolding status_check
  check-Same f nodes = record {
    at = λ s h. check-Outcome (is_fresh api (api.now s.cluster) f) s f nodes h;
  }

module _ {E W O N V : Type 0} (api : Api E W O N V) (version : String) (key : String × String) where
  apply-Adds :
      (ks : List InstallStep) (f : FabObject V)
      → Ensures
          (Begun ks)
          (apply api version f)
          (λ _ t. Begun (ks ++ all_installs) t)
          (λ _ t. Anything t)
  unfolding apply install_and_record
  apply-Adds ks f =
      let one = ks ++ InstallStep.fab_and_control ∷ [] in
      let all = (one ++ installs_before) ++ installs_after in
      let R = λ (e : ReconcileError E) (t : State W). Anything t in
      subst
        (λ (xs : List InstallStep).
          Ensures (Begun ks) (apply api version f) (λ _ t. Begun xs t) (λ _ t. Anything t))
        (ap (λ (xs : List InstallStep). xs ++ installs_after)
            (append_assoc ks (InstallStep.fab_and_control ∷ []) installs_before)
          ∙ append_assoc ks (InstallStep.fab_and_control ∷ installs_before) installs_after)
        (Ensures-bind (λ (c : N × String) t. Begun one t) (λ _ t. Begun all t) R _ _
          (before_attempt-Adds api ks f)
          (λ c.
            Ensures-bind (λ (g : FabObject V) t. Begun one t) (λ _ t. Begun all t) R _ _
              (Ensures-forget (λ _ t. Begun one t) (begin_attempt-Same api one f))
              (λ g.
                Ensures-bind (λ (h : FabObject V) t. Begun one t) (λ _ t. Begun all t) R _ _
                  (Ensures-forget (λ _ t. Begun one t) (Ensures-lift _))
                  (λ h.
                    Ensures-bind (λ (u : Unit {0}) t. Begun all t) (λ _ t. Begun all t) R _ _
                      (enforce_all-Adds api one c.0 c.1 h)
                      (λ _.
                        Ensures-forget (λ _ t. Begun all t)
                          (end_attempt-Same api all version h))))))

  -- An object that was read, and the installs begun.
  abbrev Read : (FabObject V → Type 0) → List InstallStep → FabObject V → State W → Type 0
  Read C ks f s = C f × Begun ks s

  get-Outcome :
      (C : FabObject V → Type 0) (ks : List InstallStep) (s : State W) (r : Result E (FabObject V))
      → ((f : FabObject V) → r ≡ ok f → C f)
      → Begun ks s
      → Outcome
          (Read C ks)
          (λ _ t. Begun ks t)
          (map_err {F = ReconcileError E} ReconcileError.fetching r, s)
  get-Outcome C ks s (ok f) c h = (c f refl, h)
  get-Outcome C ks s (err x) c h = h

  get-Ensures :
      (C : FabObject V → Type 0) (ks : List InstallStep)
      → Ensures
          (λ t. ((f : FabObject V) → api.get key t.cluster ≡ ok f → C f) × Begun ks t)
          (reads
            (λ s. map_err {F = ReconcileError E} ReconcileError.fetching (api.get key s.cluster)))
          (Read C ks)
          (λ _ t. Begun ks t)
  unfolding reads
  get-Ensures C ks = record { at = λ s h. get-Outcome C ks s (api.get key s.cluster) h.0 h.1 }

  apply_if_needed-Adds :
      (ks : List InstallStep) (channel : String) (f : FabObject V)
      → needs_apply api version f ≡ true
      → Ensures
          (Begun ks)
          (apply_if_needed api version (prepare api channel f))
          (λ _ t. Begun (ks ++ all_installs) t)
          (λ _ t. Anything t)
  unfolding apply_if_needed prepare needs_apply
  apply_if_needed-Adds ks channel f h =
      Ensures-if (λ _ t. Begun (ks ++ all_installs) t) (λ _ t. Anything t)
        (needs_apply api version f) (λ _. apply-Adds ks (prepare api channel f))
        (λ e. let w : true ≡ false = sym h ∙ e in absurd (cc w))

  apply_if_needed-Same :
      (ks : List InstallStep) (channel : String) (f : FabObject V)
      → needs_apply api version f ≡ false
      → Same api ks (apply_if_needed api version (prepare api channel f))
  unfolding apply_if_needed prepare needs_apply
  apply_if_needed-Same ks channel f h =
      Ensures-if (λ _ t. Begun ks t) (λ _ t. Begun ks t) (needs_apply api version f)
        (λ e. let w : true ≡ false = sym e ∙ h in absurd (cc w))
        (λ _. Ensures-pure (prepare api channel f) (λ s p. p))

  reconcile_object-Adds :
      (ks : List InstallStep)
      → Ensures
          (λ t.
            ((f : FabObject V) → api.get key t.cluster ≡ ok f → needs_apply api version f ≡ true)
            × Begun ks t)
          (reconcile_object api version key)
          (λ _ t. Begun (ks ++ all_installs) t)
          (λ _ t. Anything t)
  unfolding reconcile_object
  reconcile_object-Adds ks =
      let all = ks ++ all_installs in
      let R = λ (e : ReconcileError E) (t : State W). Anything t in
      let H = λ (u : Unit {0}) (t : State W). Begun all t in
      Ensures-bind (Read (λ (f : FabObject V). needs_apply api version f ≡ true) ks) H R _ _
        (Ensures-forget (λ _ t. Begun ks t)
          (get-Ensures (λ (f : FabObject V). needs_apply api version f ≡ true) ks))
        (λ f. Ensures-with (λ e.
          Ensures-bind (λ (channel : String) t. Begun ks t) H R _ _
            (Ensures-forget (λ _ t. Begun ks t) (Ensures-lift _))
            (λ channel.
              Ensures-bind (λ (nodes : List RoleNode) t. Begun ks t) H R _ _
                (Ensures-forget (λ _ t. Begun ks t) (Ensures-reads _))
                (λ nodes.
                  Ensures-bind (λ (g : FabObject V) t. Begun all t) H R _ _
                    (apply_if_needed-Adds ks channel f e)
                    (λ g. Ensures-forget (λ _ t. Begun all t) (check-Same api all g nodes))))))

  reconcile_object-Same :
      (ks : List InstallStep)
      → Ensures
          (λ t.
            ((f : FabObject V) → api.get key t.cluster ≡ ok f → needs_apply api version f ≡ false)
            × Begun ks t)
          (reconcile_object api version key)
          (λ _ t. Begun ks t)
          (λ _ t. Begun ks t)
  unfolding reconcile_object
  reconcile_object-Same ks =
      Ensures-bind (Read (λ (f : FabObject V). needs_apply api version f ≡ false) ks)
        (λ _ t. Begun ks t) (λ _ t. Begun ks t) _ _
        (get-Ensures (λ (f : FabObject V). needs_apply api version f ≡ false) ks)
        (λ f. Ensures-with (λ e. Same-bind api ks _ _ (Ensures-lift _) (λ channel.
          Same-bind api ks _ _ (Ensures-reads _) (λ nodes.
            Same-bind api ks _ _ (apply_if_needed-Same ks channel f e)
              (λ g. check-Same api ks g nodes)))))

  -- A reconciliation that returns no error on a request it does not drop, when the object it reads
  -- must be applied, begins twelve installs, each once and in this order: the defaults of the
  -- fabricator and the control node, the reloader, cert-manager, Zot, the fabric, the DHCP of the
  -- management network, NTP, the control proxy, the registries of the nodes, the configuration of
  -- the nodes, Alloy, and the fabricator itself.
  pub reconcile-installs :
      (f : FabObject V) (s s' : State W)
      → is_ignored key ≡ false
      → api.get key s.cluster ≡ ok f
      → needs_apply api version f ≡ true
      → reconcile api version key s ≡ (ok tt, s')
      → s'.installs ≡ s.installs ++ all_installs
  unfolding reconcile
  reconcile-installs f s s' h e n r =
      Ensures-ok (λ _ t. Begun (s.installs ++ all_installs) t) (λ _ t. Anything t)
        (reconcile_object-Adds s.installs)
        (
          (λ g e'.
              subst (λ (x : FabObject V). needs_apply api version x ≡ true)
                (ok-injective (sym e ∙ e')) n),
          refl,
        )
        (ap (λ b. if b then (ok tt, s) else reconcile_object api version key s) (sym h) ∙ r)

  skipped-Begun :
      (b : Bool) (s : State W)
      → ((f : FabObject V) → api.get key s.cluster ≡ ok f → needs_apply api version f ≡ false)
      → (if b then (ok tt, s) else reconcile_object api version key s).1.installs ≡ s.installs
  skipped-Begun true s k = refl
  skipped-Begun false s k =
      state-Outcome (Begun s.installs) (reconcile_object api version key s)
        ((reconcile_object-Same s.installs).at s (k, refl))

  reconcile-Same :
      (s : State W)
      → ((f : FabObject V) → api.get key s.cluster ≡ ok f → needs_apply api version f ≡ false)
      → (reconcile api version key s).1.installs ≡ s.installs
  unfolding reconcile
  reconcile-Same s k = skipped-Begun (is_ignored key) s k

-- After a reconciliation that returned no error on a request it does not drop, another one by the
-- same version of the controller, with nothing in between, begins no install, whatever its result,
-- when neither of the two reads a stale object.
pub reconcile-reconcile :
    {E W O N V : Type 0} (api : Api E W O N V) (key : String × String)
    (stored : W → Option (FabObject V))
    → ApiLaws api key stored
    → (version : String) (s s' : State W) → is_ignored key ≡ false
    → IsFresh api key stored s
    → IsFresh api key stored s'
    → reconcile api version key s ≡ (ok tt, s')
    → (reconcile api version key s').1.installs ≡ s'.installs
reconcile-reconcile api key stored L version s s' h fresh fresh' e =
    let (g, stored_g, a) = reconcile-IsApplied api key stored L version s s' h fresh e in
    reconcile-Same api version key s' (λ f e'.
      IsApplied-needs_apply api version f
        (subst (IsApplied api version) (some-injective (sym stored_g ∙ fresh' f e')) a))

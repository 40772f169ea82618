-- ===== src/Controller/Trace.antt =====
-- The installs that `Reconcile` of pkg/controller/fabricator_ctrl.go makes, and their order.
use fabricator.Common.{
  String, List, [], ◌∷◌, ◌++◌, ◌≡◌, subst, sym, ap, ◌∙◌, Result, ok, err, map_err,
}
use mathlib.Core.List.{append-nil, append_assoc}
use fabricator.Controller.{Api, FabObject, State, InstallStep, ReconcileError}
use fabricator.Action.{
  Action, Outcome, pure, lift, ◌>>=◌, for_each, Ensures, Ensures-bind, Ensures-lift,
  Ensures-for_each, Ensures-forget, Anything,
}
use fabricator.Controller.Install.{
  calls, enforce_object, enforce_kube_install, delete_chart, enforce_all, installs_before,
  installs_after,
}

-- All that one reconciliation installs.
abbrev pub all_installs : List InstallStep
all_installs =
    InstallStep.fab_and_control ∷ InstallStep.reloader ∷ InstallStep.cert_manager ∷ InstallStep.zot
    ∷ InstallStep.fabric ∷ InstallStep.management_dhcp ∷ InstallStep.ntp ∷ InstallStep.control_proxy
    ∷ InstallStep.node_registries ∷ InstallStep.node_config ∷ InstallStep.alloy
    ∷ InstallStep.fabricator_itself ∷ []

-- The installs begun so far.
abbrev pub Begun : {W : Type 0} → List InstallStep → State W → Type 0
Begun ks s = s.installs ≡ ks

module _ {F E W A : Type 0} (context : E → F) (ks : List InstallStep) where
  calls-Outcome :
      (r : Result E A) (s : State W)
      → Begun ks s
      → Outcome {E = F} (λ _ t. Begun ks t) (λ _ t. Begun ks t) (map_err context r, s)
  calls-Outcome (ok a) s h = h
  calls-Outcome (err e) s h = h

  pub calls-Begun :
      (m : W → Result E A × W)
      → Ensures (Begun ks) (calls context m) (λ _ t. Begun ks t) (λ _ t. Begun ks t)
  unfolding calls
  calls-Begun m = record {
    at = λ s h. calls-Outcome (m s.cluster).0 (record s { cluster = (m s.cluster).1 }) h;
  }

module _ {E W O N V : Type 0} (api : Api E W O N V) where
  abbrev pub Same : {A : Type 0} → List InstallStep → Action (ReconcileError E) (State W) A → Type 0
  Same ks m = Ensures (Begun ks) m (λ _ t. Begun ks t) (λ _ t. Begun ks t)

  pub Same-bind :
      {A B : Type 0} (ks : List InstallStep) (m : Action (ReconcileError E) (State W) A)
      (f : A → Action (ReconcileError E) (State W) B)
      → Same ks m
      → ((a : A) → Same ks (f a))
      → Same ks (m >>= f)
  Same-bind ks m f h k =
      Ensures-bind (λ _ t. Begun ks t) (λ _ t. Begun ks t) (λ _ t. Begun ks t) m f h k

  enforce_object-Same :
      (ks : List InstallStep) (k : InstallStep) (f : FabObject V) (o : O)
      → Same ks (enforce_object api k f o)
  unfolding enforce_object
  enforce_object-Same ks k f o =
      Same-bind ks _ _ (Ensures-lift _) (λ typed. calls-Begun (ReconcileError.enforcing k) ks _)

  objects-Same :
      (ks : List InstallStep) (k : InstallStep) (f : FabObject V)
      (r : Result (ReconcileError E) (List O))
      → Same ks (lift r >>= for_each (enforce_object api k f))
  objects-Same ks k f r = Same-bind ks _ _ (Ensures-lift r) (λ os.
      Ensures-for_each (λ _ t. Begun ks t) (enforce_object api k f) os
        (λ o. enforce_object-Same ks k f o))

  pub enforce-Adds :
      (ks : List InstallStep) (c : N) (p : String) (f : FabObject V) (k : InstallStep)
      → Ensures
          (Begun ks)
          (enforce_kube_install api c p f k)
          (λ _ t. Begun (ks ++ k ∷ []) t)
          (λ _ t. Begun (ks ++ k ∷ []) t)
  unfolding enforce_kube_install
  enforce-Adds ks c p f k = record {
    at = λ s h.
        let objects = map_err (ReconcileError.enforcing k) (api.objects k c p f) in
        (objects-Same (ks ++ k ∷ []) k f objects).at (record s { installs = s.installs ++ k ∷ [] })
          (ap (λ (xs : List InstallStep). xs ++ k ∷ []) h);
  }

  each-Adds :
      (ks : List InstallStep) (c : N) (p : String) (f : FabObject V) (steps : List InstallStep)
      → Ensures
          (Begun ks)
          (for_each (enforce_kube_install api c p f) steps)
          (λ _ t. Begun (ks ++ steps) t)
          (λ _ t. Anything t)
  unfolding pure
  each-Adds ks c p f [] = record { at = λ s h. h ∙ sym (append-nil ks) }
  each-Adds ks c p f (k ∷ steps) =
      Ensures-bind (λ (_ : Unit {0}) t. Begun (ks ++ k ∷ []) t) (λ _ t. Begun (ks ++ k ∷ steps) t)
        (λ _ t. Anything t) _ _
        (Ensures-forget (λ _ t. Begun (ks ++ k ∷ []) t) (enforce-Adds ks c p f k))
        (λ _.
          subst
            (λ (xs : List InstallStep).
              Ensures (Begun (ks ++ k ∷ [])) (for_each (enforce_kube_install api c p f) steps)
                (λ _ t. Begun xs t) (λ _ t. Anything t))
            (append_assoc ks (k ∷ []) steps) (each-Adds (ks ++ k ∷ []) c p f steps))

  delete-Same : (ks : List InstallStep) (name : String) → Same ks (delete_chart api name)
  unfolding delete_chart
  delete-Same ks name = calls-Begun ReconcileError.deleting_chart ks _

  pub enforce_all-Adds :
      (ks : List InstallStep) (c : N) (p : String) (f : FabObject V)
      → Ensures
          (Begun ks)
          (enforce_all api c p f)
          (λ _ t. Begun ((ks ++ installs_before) ++ installs_after) t)
          (λ _ t. Anything t)
  unfolding enforce_all
  enforce_all-Adds ks c p f =
      let Q = λ (_ : Unit {0}) (t : State W). Begun ((ks ++ installs_before) ++ installs_after) t in
      let B = λ (_ : Unit {0}) (t : State W). Begun (ks ++ installs_before) t in
      let none_known = λ (_ : ReconcileError E) (t : State W). Anything t in
      Ensures-bind B Q none_known _ _ (each-Adds ks c p f installs_before) (λ _.
        Ensures-bind B Q none_known _ _
          (Ensures-forget (λ _ t. Begun (ks ++ installs_before) t)
            (delete-Same (ks ++ installs_before) "fabric-proxy"))
          (λ _. each-Adds (ks ++ installs_before) c p f installs_after))

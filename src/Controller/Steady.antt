-- ===== src/Controller/Steady.antt =====
-- A property of the cluster that the calls of the controller keep, pkg/controller/fabricator_ctrl.go:
-- one rule for each kind of call.
use fabricator.Common.{
  ℕ, String, Bool, true, false, List, [], ◌∷◌, ◌++◌, Result, ok, err, map_err, if◌then◌else◌,
}
use fabricator.Fab.Ready.{ComponentsStatus, RoleNode}
use fabricator.Controller.{Api, FabObject, State, InstallStep, ReconcileError}
use fabricator.Action.{
  Action, Outcome, lift, ◌>>=◌, for_each, Ensures, Ensures-bind, Ensures-lift, Ensures-reads,
  Ensures-pure, Ensures-for_each,
}
use fabricator.Controller.Install.{
  calls, enforce_object, enforce_kube_install, delete_chart, enforce_all, installs_before,
  installs_after,
}
use fabricator.Controller.Check.{checked, is_fresh, update_ready, check_components, status_check}

module _ {W : Type 0} (H : W → Type 0) where
  abbrev pub HoldsIn : State W → Type 0
  HoldsIn s = H s.cluster

  -- What holds before holds after, whatever the result.
  abbrev pub Steady : {E A : Type 0} → Action E (State W) A → Type 0
  Steady m = Ensures HoldsIn m (λ _ t. HoldsIn t) (λ _ t. HoldsIn t)

  called-Outcome :
      {E F A : Type 0} (context : E → F) (r : Result E A) (s : State W)
      → HoldsIn s
      → Outcome (λ _ t. HoldsIn t) (λ _ t. HoldsIn t) (map_err context r, s)
  called-Outcome context (ok a) s h = h
  called-Outcome context (err e) s h = h

  pub calls-Steady :
      {E F A : Type 0} (context : E → F) (m : W → Result E A × W)
      → ((w : W) → H w → H (m w).1)
      → Steady (calls context m)
  unfolding calls
  calls-Steady context m k = record {
    at = λ s h.
        called-Outcome context (m s.cluster).0 (record s { cluster = (m s.cluster).1 })
          (k s.cluster h);
  }

  pub Steady-bind :
      {E A B : Type 0} (m : Action E (State W) A) (f : A → Action E (State W) B)
      → Steady m
      → ((a : A) → Steady (f a))
      → Steady (m >>= f)
  Steady-bind m f h k =
      Ensures-bind (λ _ t. HoldsIn t) (λ _ t. HoldsIn t) (λ _ t. HoldsIn t) m f h k

module _ {E W O N V : Type 0} (api : Api E W O N V) (H : W → Type 0)
    (creates : (n : ℕ) (o : O) (w : W) → H w → H (api.create_or_update n o w).1)
    (deletes : (name : String) (w : W) → H w → H (api.delete_chart name w).1) where
  objects-Steady :
      (k : InstallStep) (f : FabObject V) (r : Result (ReconcileError E) (List O))
      → Steady H (lift r >>= for_each (enforce_object api k f))
  unfolding enforce_object
  objects-Steady k f r = Steady-bind H (lift r) _ (Ensures-lift r) (λ os.
      Ensures-for_each (λ _ t. HoldsIn H t) (enforce_object api k f) os
        (λ o.
          Steady-bind H (lift (map_err (ReconcileError.enforcing k) (api.ensure_kind o))) _
            (Ensures-lift _)
            (λ typed. calls-Steady H (ReconcileError.enforcing k) _ (creates _ typed))))

  pub enforce-Steady :
      (c : N) (password : String) (f : FabObject V) (k : InstallStep)
      → Steady H (enforce_kube_install api c password f k)
  unfolding enforce_kube_install
  enforce-Steady c password f k = record {
    at = λ s h.
        let objects = map_err (ReconcileError.enforcing k) (api.objects k c password f) in
        (objects-Steady k f objects).at (record s { installs = s.installs ++ k ∷ [] }) h;
  }

  delete-Steady : (name : String) → Steady H (delete_chart api name)
  unfolding delete_chart
  delete-Steady name = calls-Steady H ReconcileError.deleting_chart _ (deletes name)

  pub enforce_all-Steady :
      (c : N) (password : String) (f : FabObject V) → Steady H (enforce_all api c password f)
  unfolding enforce_all
  enforce_all-Steady c password f =
      Steady-bind H _ _
        (Ensures-for_each (λ _ t. HoldsIn H t) _ installs_before (enforce-Steady c password f))
        (λ _. Steady-bind H _ _ (delete-Steady "fabric-proxy") (λ _.
          Ensures-for_each (λ _ t. HoldsIn H t) _ installs_after (enforce-Steady c password f)))

module _ {E W O N V : Type 0} (api : Api E W O N V) (H : W → Type 0) (f : FabObject V)
    (nodes : List RoleNode)
    (updates : (now : ℕ) (c : ComponentsStatus) (w : W)
      → H w
      → H (api.update_status (checked api now nodes c f) w).1) where
  check_components-Steady : Steady H (check_components api f nodes)
  unfolding check_components update_ready
  check_components-Steady = Steady-bind H _ _ (Ensures-reads _) (λ c.
      Steady-bind H _ _ (Ensures-reads _) (λ now.
        Steady-bind H _ _ (calls-Steady H ReconcileError.updating_ready _ (updates now c))
          (λ g. Ensures-pure tt (λ s h. h))))

  status_check-Outcome :
      (b : Bool) (s : State W)
      → HoldsIn H s
      → Outcome {E = ReconcileError E}
          (λ _ t. HoldsIn H t)
          (λ _ t. HoldsIn H t)
          (if b then (ok tt, s) else check_components api f nodes s)
  status_check-Outcome true s h = h
  status_check-Outcome false s h = check_components-Steady.at s h

  pub status_check-Steady : Steady H (status_check api f nodes)
  unfolding status_check
  status_check-Steady = record {
    at = λ s h. status_check-Outcome (is_fresh api (api.now s.cluster) f) s h;
  }

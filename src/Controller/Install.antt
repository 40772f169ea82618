-- ===== src/Controller/Install.antt =====
-- `EnforceKubeInstall` of pkg/fab/comp/kube.go, and the installs that `Reconcile` of
-- pkg/controller/fabricator_ctrl.go makes with it.
use fabricator.Common.{
  ℕ, String, Bool, List, [], ◌∷◌, ◌++◌, Result, ok, err, map_err, if◌then◌else◌,
}
use fabricator.Controller.{Api, FabObject, State, InstallStep, ReconcileError}
use fabricator.Action.{Action, lift, ◌>>=◌, ◌>>◌, for_each}

-- The steps of the retries of one object.
abbrev pub backoff_steps : Bool → ℕ
backoff_steps is_install = if is_install then 17 else 1

-- The installs before and after the old proxy is deleted.
abbrev pub installs_before : List InstallStep
installs_before =
    InstallStep.reloader ∷ InstallStep.cert_manager ∷ InstallStep.zot ∷ InstallStep.fabric
    ∷ InstallStep.management_dhcp ∷ InstallStep.ntp ∷ InstallStep.control_proxy ∷ []

abbrev pub installs_after : List InstallStep
installs_after =
    InstallStep.node_registries ∷ InstallStep.node_config ∷ InstallStep.alloy
    ∷ InstallStep.fabricator_itself ∷ []

module _ {E W : Type 0} where
  -- A call that may write to the cluster.
  unfoldable pub calls : {F A : Type 0} → (E → F) → (W → Result E A × W) → Action F (State W) A
  calls context f s = let r = f s.cluster in (map_err context r.0, record s { cluster = r.1 })

module _ {E W O N V : Type 0} (api : Api E W O N V) where
  unfoldable pub enforce_object :
      InstallStep → FabObject V → O → Action (ReconcileError E) (State W) (Unit {0})
  enforce_object k f o =
      lift (map_err (ReconcileError.enforcing k) (api.ensure_kind o)) >>= λ typed.
      calls (ReconcileError.enforcing k)
        (api.create_or_update (backoff_steps f.status.is_install) typed)

  -- The install is begun, and its objects are enforced one by one.
  unfoldable pub enforce_kube_install :
      N → String → FabObject V → InstallStep → Action (ReconcileError E) (State W) (Unit {0})
  enforce_kube_install control password f k s =
      (lift (map_err (ReconcileError.enforcing k) (api.objects k control password f))
          >>= for_each (enforce_object k f))
        (record s { installs = s.installs ++ k ∷ [] })

  -- `DeleteIfPresent`: what is not there is deleted.
  abbrev pub if_present : Result E (Unit {0}) → Result E (Unit {0})
  if_present (ok x) = ok x
  if_present (err e) = if api.is_not_found e then ok tt else err e

  -- `DeleteHelmChartIfPresent`
  unfoldable pub delete_chart : String → Action (ReconcileError E) (State W) (Unit {0})
  delete_chart name =
      calls ReconcileError.deleting_chart
        (λ w. let r = api.delete_chart name w in (if_present r.0, r.1))

  -- The installs between the two writes of the status.
  unfoldable pub enforce_all :
      N → String → FabObject V → Action (ReconcileError E) (State W) (Unit {0})
  unfolding enforce_kube_install delete_chart
  enforce_all control password f =
      for_each (enforce_kube_install control password f) installs_before
      >> (delete_chart "fabric-proxy"
          >> for_each (enforce_kube_install control password f) installs_after)

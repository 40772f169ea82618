-- ===== src/Controller/Reconcile.antt =====
-- `Reconcile` of pkg/controller/fabricator_ctrl.go.
use fabricator.Common.{
  ℕ, ◌==◌, String, str_eq, Bool, true, false, not, ◌&&◌, ◌||◌, Option, none, some, List, [], ◌∷◌,
  Result, ok, err, map_err, if◌then◌else◌,
}
use fabricator.Fab.Types.{Table}
use fabricator.Fab.Default.{default}
use fabricator.Controller.{
  Api, FabObject, State, InstallStep, ReconcileError, condition_applied, condition_ready,
  condition_gateway_ready,
}
use fabricator.Action.{Action, pure, lift, reads, ◌>>=◌, ◌>>◌}
use fabricator.Controller.Install.{calls, enforce_kube_install, enforce_all}
use fabricator.Controller.Check.{fab_name, fab_namespace, set, is_true, status_check}

-- A request is dropped when neither its name nor its namespace is the fabricator's.
unfoldable pub is_ignored : String × String → Bool
is_ignored key = not (str_eq key.0 fab_name) && not (str_eq key.1 fab_namespace)

-- The value of a key of a secret, if it is there and not empty.
unfoldable pub secret_password : Table String → Option String
secret_password [] = none
secret_password ((k, v) ∷ rest) =
    if str_eq k "password" then (if str_eq v "" then none else some v) else secret_password rest

abbrev pub one_control : {E N : Type 0} → List N → Result (ReconcileError E) N
one_control [] = err ReconcileError.no_controls
one_control (n ∷ []) = ok n
one_control (n ∷ m ∷ ns) = err ReconcileError.multiple_controls

abbrev pub or_missing : {E : Type 0} → Option String → Result (ReconcileError E) String
or_missing none = err ReconcileError.missing_password
or_missing (some p) = ok p

module _ {E W O N V : Type 0} (api : Api E W O N V) where
  -- What is set before the test: defaults, and the release.
  unfoldable pub prepare : String → FabObject V → FabObject V
  prepare channel f = record f {
    spec = default f.spec;
    status = record f.status {
      is_bootstrap = false;
      is_install = false;
      release_channel = channel;
      release = api.release;
    };
  }

  -- `version` is that of the controller that runs.
  unfoldable pub needs_apply : String → FabObject V → Bool
  needs_apply version f =
      not (str_eq f.status.last_applied_controller version)
      || not (f.status.last_applied_gen == f.generation)
      || not (is_true api condition_applied f)

  -- The three conditions become false, and the attempt is noted.
  unfoldable pub attempted : ℕ → FabObject V → FabObject V
  attempted now f =
      let g = set api condition_gateway_ready false "ApplyPending" (
        set api condition_ready false "ApplyPending"
          (set api condition_applied false "ApplyPending" f)) in
      record g {
        status = record g.status { last_attempt_gen = g.generation; last_attempt_time = now };
      }

  unfoldable pub applied : String → ℕ → FabObject V → FabObject V
  applied version now f =
      let g = set api condition_applied true "ApplySucceeded" f in
      record g {
        status = record g.status {
          last_applied_gen = g.generation;
          last_applied_time = now;
          last_applied_controller = version;
        };
      }

  abbrev pub time : Action (ReconcileError E) (State W) ℕ
  time = reads (λ s. ok (api.now s.cluster))

  -- What is checked and read before the attempt: the control node and the password.
  unfoldable pub before_attempt : FabObject V → Action (ReconcileError E) (State W) (N × String)
  unfolding enforce_kube_install secret_password
  before_attempt f =
      reads (λ s. map_err ReconcileError.listing_controls (api.list_controls s.cluster))
      >>= λ controls. lift (one_control controls) >>= λ c.
          (enforce_kube_install api (api.default_control c) "" f InstallStep.fab_and_control
            >> (reads (λ s. map_err ReconcileError.getting_secret (api.get_secret s.cluster))
                >>= λ secret. lift (or_missing (secret_password secret)) >>= λ password.
                    pure (api.default_control c, password)))

  unfoldable pub begin_attempt : FabObject V → Action (ReconcileError E) (State W) (FabObject V)
  unfolding attempted
  begin_attempt f =
      time >>= λ now. calls ReconcileError.updating_attempt (api.update_status (attempted now f))

  abbrev pub set_versions : FabObject V → Result E V → Result (ReconcileError E) (FabObject V)
  set_versions f (ok v) = ok (record f { status = record f.status { versions = v } })
  set_versions f (err e) = err (ReconcileError.calculating_versions e)

  abbrev pub with_versions : FabObject V → Result (ReconcileError E) (FabObject V)
  with_versions f = set_versions f (api.calculate_versions f.spec)

  unfoldable pub end_attempt :
      String → FabObject V → Action (ReconcileError E) (State W) (FabObject V)
  unfolding applied
  end_attempt version f = time >>= λ now.
      calls ReconcileError.updating_applied (api.update_status (applied version now f))

  unfoldable pub install_and_record :
      String → N × String → FabObject V → Action (ReconcileError E) (State W) (FabObject V)
  unfolding enforce_all end_attempt
  install_and_record version c f = enforce_all api c.0 c.1 f >> end_attempt version f

  unfoldable pub apply : String → FabObject V → Action (ReconcileError E) (State W) (FabObject V)
  unfolding before_attempt begin_attempt install_and_record
  apply version f = before_attempt f >>= λ c.
      begin_attempt f >>= λ g. lift (with_versions g) >>= λ h. install_and_record version c h

  unfoldable pub apply_if_needed :
      String → FabObject V → Action (ReconcileError E) (State W) (FabObject V)
  unfolding needs_apply apply
  apply_if_needed version f = if needs_apply version f then apply version f else pure f

  unfoldable pub reconcile_object :
      String → String × String → Action (ReconcileError E) (State W) (Unit {0})
  unfolding prepare apply_if_needed status_check
  reconcile_object version key =
      reads (λ s. map_err ReconcileError.fetching (api.get key s.cluster)) >>= λ f.
      lift (map_err ReconcileError.getting_channel api.release_channel) >>= λ channel.
      reads (λ s. map_err ReconcileError.listing_nodes (api.list_nodes s.cluster)) >>= λ nodes.
      apply_if_needed version (prepare channel f) >>= λ g. status_check api g nodes

  unfoldable pub reconcile :
      String → String × String → Action (ReconcileError E) (State W) (Unit {0})
  unfolding is_ignored reconcile_object
  reconcile version key s = if is_ignored key then (ok tt, s) else reconcile_object version key s

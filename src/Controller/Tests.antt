-- ===== src/Controller/Tests.antt =====
-- Runs of the controller, pkg/controller/fabricator_ctrl.go, on a small cluster.
use fabricator.Common.{
  ◌==◌, ==_iff, String, str_eq, eq_refl, Bool, true, false, Option, some, List, [], ◌∷◌, ◌++◌, ◌≡◌,
  refl, sym, ap, ◌∙◌, ◌⊎◌, inl, inr, Result, ok, err, ok-injective, subst, if◌then◌else◌, arith,
}
use fabricator.Fab.Types.{Table}
use fabricator.Fab.Samples.{fab}
use fabricator.Fab.Ready.{ComponentStatus, ComponentsStatus, RoleNode}
use fabricator.Controller.{
  Api, FabObject, State, Condition, InstallStep, Component, GatewayComponent, ReconcileError,
}
use fabricator.Action.{pure, lift, reads, ◌>>=◌}
use fabricator.Controller.Install.{
  calls, enforce_object, enforce_kube_install, delete_chart, enforce_all,
}
use fabricator.Controller.Components.{components}
use fabricator.Controller.Check.{checked, is_fresh, update_ready, check_components, status_check}
use fabricator.Controller.Reconcile.{
  prepare, attempted, applied, needs_apply, secret_password, before_attempt, begin_attempt,
  install_and_record, end_attempt, apply, apply_if_needed, reconcile_object, reconcile, is_ignored,
}
use fabricator.Controller.Consistent.{IsConsistent}
use fabricator.Controller.Writes.{Holds}
use fabricator.Controller.Applied.{IsApplied, reconcile-IsApplied}
use fabricator.Controller.Trace.{all_installs}
use fabricator.Controller.Installed.{reconcile-installs, reconcile-reconcile}
use fabricator.Controller.History.{start, next, reconciled as reconciled_move, History-IsConsistent}
use fabricator.Controller.Retry.{IsDue, apply-retried}
use fabricator.Controller.Laws.{ApiLaws, ReadLaws, IsFresh, KeepsRecord, SameStatus}

abbrev set_condition : List Condition → Condition → List Condition
set_condition cs c = c ∷ cs

abbrev condition_true : List Condition → String → Bool
condition_true [] kind = false
condition_true (c ∷ cs) kind = if str_eq c.kind kind then c.is_true else condition_true cs kind

condition_true-set :
    (cs : List Condition) (c : Condition) → condition_true (set_condition cs c) c.kind ≡ c.is_true
condition_true-set cs c = rw (eq_refl c.kind) refl

condition_true-set_ne :
    (cs : List Condition) (c : Condition) (kind : String)
    → str_eq c.kind kind ≡ false
    → condition_true (set_condition cs c) kind ≡ condition_true cs kind
condition_true-set_ne cs c kind e = rw e refl

-- The cluster is the object itself; a status is taken when its generation is the current one.
abbrev Cluster : Type 0
Cluster = FabObject String

abbrev take : Bool → Cluster → Cluster → Result String Cluster × Cluster
take true f w = (ok (record w { status = f.status }), record w { status = f.status })
take false f w = (err "conflict", w)

abbrev update : Cluster → Cluster → Result String Cluster × Cluster
update f w = take (f.generation == w.generation) f w

abbrev makes : Bool → InstallStep → String → String → Cluster → Result String (List String)
makes broken InstallStep.ntp n p f = if broken then err "no chart" else ok []
makes broken k n p f = ok ("deployment" ∷ [])

abbrev dataplane :
    GatewayComponent → Cluster → List RoleNode → Cluster → Result String (Table ComponentStatus)
dataplane g f nodes w = ok []

abbrev status_of : Component → ComponentStatus
status_of Component.gateway_alloy = ComponentStatus.skipped
status_of c = ComponentStatus.ready

-- A cluster at one time, of which the installer of the time server may be broken.
abbrev small : Bool → Api String Cluster String String String
small broken = record {
  set_status_condition = set_condition;
  is_status_condition_true = condition_true;
  now = λ w. 120_000_000_000;
  release = "v0.40.0";
  release_channel = ok "0.40";
  get = λ key w. ok w;
  list_nodes = λ w. ok [];
  list_controls = λ w. ok ("control-1" ∷ []);
  default_control = λ n. n;
  get_secret = λ w. ok (("password", "secret") ∷ []);
  update_status = update;
  calculate_versions = λ f. ok "v1";
  objects = makes broken;
  ensure_kind = λ o. ok o;
  create_or_update = λ n o w. (ok tt, w);
  delete_chart = λ name w. (ok tt, w);
  is_not_found = λ e. false;
  component = λ c f w. ok (status_of c);
  gateway_component = dataplane;
}

abbrev key : String × String
key = ("default", "fab")

abbrev stored : Cluster → Option Cluster
stored w = some w

ok_part :
    {a b : Cluster} {v w : Cluster}
    → ◌≡◌ {A = Result String Cluster × Cluster} (ok a, v) (ok b, w)
    → a ≡ b
ok_part e = ok-injective (ap (λ (p : Result String Cluster × Cluster). p.0) e)

take_ok :
    (b : Bool) (f g w w' : Cluster)
    → (b ≡ true → f.generation ≡ w.generation)
    → take b f w ≡ (ok g, w')
    → (stored w' ≡ some g) × SameStatus f g
take_ok true f g w w' h e = (
  ap (λ (x : Cluster). some x)
      (sym (ap (λ (p : Result String Cluster × Cluster). p.1) e) ∙ ok_part e),
  subst (SameStatus f) (ok_part e) (record {
    generation = sym (h refl);
    conditions = refl;
    components = refl;
    attempt_gen = refl;
    applied_gen = refl;
    applied_controller = refl;
  }),
)
take_ok false f g w w' h e = cc (ap (λ (p : Result String Cluster × Cluster). p.0) e)

take_err :
    (b : Bool) (f w w' : Cluster) (x : String) → take b f w ≡ (err x, w') → stored w' ≡ stored w
take_err true f w w' x e = cc (ap (λ (p : Result String Cluster × Cluster). p.0) e)
take_err false f w w' x e = sym (ap (λ (p : Result String Cluster × Cluster). stored p.1) e)

unchanged : (b : Bool) (f : Cluster) → KeepsRecord (small b) f f
unchanged b f = record {
  generation = omega arith;
  is_applied = refl;
  attempt_gen = refl;
  applied_gen = refl;
  applied_controller = refl;
}

small-ApiLaws : (b : Bool) → ApiLaws (small b) key stored
small-ApiLaws b = record {
  is_true-set = condition_true-set;
  is_true-set_ne = condition_true-set_ne;
  update_ok = λ f g w w' e.
      take_ok (f.generation == w.generation) f g w w' ((==_iff f.generation w.generation).0) e;
  update_err = λ f w w' x e. inl (take_err (f.generation == w.generation) f w w' x e);
  create_lem = λ n o w f e. (f, e, unchanged b f);
  delete_lem = λ name w. refl;
}

-- A fabricator that was just created.
abbrev no_components : ComponentsStatus
no_components = record {
  fabricator_api = ComponentStatus.unknown;
  fabricator_ctrl = ComponentStatus.unknown;
  fabricator_node_config = ComponentStatus.unknown;
  cert_manager_ctrl = ComponentStatus.unknown;
  cert_manager_webhook = ComponentStatus.unknown;
  reloader = ComponentStatus.unknown;
  zot = ComponentStatus.unknown;
  ntp = ComponentStatus.unknown;
  fabric_api = ComponentStatus.unknown;
  fabric_ctrl = ComponentStatus.unknown;
  fabric_boot = ComponentStatus.unknown;
  fabric_dhcp = ComponentStatus.unknown;
  control_proxy = ComponentStatus.unknown;
  control_alloy = ComponentStatus.unknown;
  gateway_alloy = ComponentStatus.unknown;
  gateway_dataplane = [];
  gateway_frr = [];
}

abbrev created : Cluster
created = record {
  spec = fab;
  generation = 1;
  status = record {
    is_bootstrap = false;
    is_install = false;
    versions = "";
    last_attempt_time = 0;
    last_attempt_gen = 0;
    last_applied_time = 0;
    last_applied_gen = 0;
    last_applied_controller = "";
    last_status_check = 0;
    conditions = [];
    components = no_components;
    release = "";
    release_channel = "";
  };
}

abbrev begun : State Cluster
begun = record { cluster = created; installs = [] }

created-IsConsistent : (b : Bool) → IsConsistent (small b) created
created-IsConsistent b = record {
  applied_bound = omega arith;
  attempt_bound = omega arith;
  agrees = λ h. cc h;
}

abbrev version : String
version = "v0.40.0"

abbrev reconciled : State Cluster
reconciled = (reconcile (small false) version key begun).1

not_ignored : is_ignored key ≡ false
unfolding is_ignored
not_ignored = refl

succeeds : reconcile (small false) version key begun ≡ (ok tt, reconciled)
unfolding reconcile reconcile_object apply_if_needed apply before_attempt begin_attempt
    install_and_record end_attempt enforce_all enforce_kube_install enforce_object delete_chart
    status_check check_components update_ready components checked attempted applied needs_apply
    prepare is_fresh is_ignored secret_password calls pure lift reads ◌>>=◌
succeeds = refl

-- The status after the first run, and that the next one is skipped.
reconciled-gens :
    (reconciled.cluster.status.last_applied_gen ≡ 1)
    × (reconciled.cluster.status.last_applied_controller ≡ version)
unfolding reconcile reconcile_object apply_if_needed apply before_attempt begin_attempt
    install_and_record end_attempt enforce_all enforce_kube_install enforce_object delete_chart
    status_check check_components update_ready components checked attempted applied needs_apply
    prepare is_fresh is_ignored secret_password calls pure lift reads ◌>>=◌
reconciled-gens = (refl, refl)

-- This cluster has no cache.
fresh : (s : State Cluster) → IsFresh (small false) key stored s
fresh s f e = ap (λ (x : Cluster). some x) (ok-injective e)

reconcile-IsApplied_example : Holds stored (IsApplied (small false) version) reconciled
reconcile-IsApplied_example =
    reconcile-IsApplied (small false) key stored (small-ApiLaws false) version begun reconciled
      not_ignored (fresh begun) succeeds

reconcile-installs_example : reconciled.installs ≡ [] ++ all_installs
unfolding needs_apply
reconcile-installs_example =
    reconcile-installs (small false) version key created begun reconciled not_ignored refl refl
      succeeds

reconcile-reconcile_example :
    (reconcile (small false) version key reconciled).1.installs ≡ reconciled.installs
reconcile-reconcile_example =
    reconcile-reconcile (small false) key stored (small-ApiLaws false) version begun reconciled
      not_ignored (fresh begun) (fresh reconciled) succeeds

-- The object that is stored, and the one in the cache, which only a move of its own brings up to date.
abbrev Cached : Type 0
Cached = Cluster × Cluster

abbrev stale : Api String Cached String String String
stale = record {
  set_status_condition = set_condition;
  is_status_condition_true = condition_true;
  now = λ w. 120_000_000_000;
  release = "v0.40.0";
  release_channel = ok "0.40";
  get = λ key w. ok w.1;
  list_nodes = λ w. ok [];
  list_controls = λ w. ok ("control-1" ∷ []);
  default_control = λ n. n;
  get_secret = λ w. ok (("password", "secret") ∷ []);
  update_status = λ f w. let r = update f w.0 in (r.0, (r.1, w.1));
  calculate_versions = λ f. ok "v1";
  objects = makes false;
  ensure_kind = λ o. ok o;
  create_or_update = λ n o w. (ok tt, w);
  delete_chart = λ name w. (ok tt, w);
  is_not_found = λ e. false;
  component = λ c f w. ok (status_of c);
  gateway_component = λ g f nodes w. ok [];
}

abbrev stored_now : Cached → Option Cluster
stored_now w = some w.0

abbrev Held : Cached → Cluster → Type 0
Held w x = (x ≡ w.0) ⊎ (x ≡ w.1)

-- What the write did to the stored object.
abbrev to_stored : Result String Cluster × Cached → Result String Cluster × Cluster
to_stored p = (p.0, p.1.0)

stale-ApiLaws : ApiLaws stale key stored_now
stale-ApiLaws = record {
  is_true-set = condition_true-set;
  is_true-set_ne = condition_true-set_ne;
  update_ok = λ f g w w' e.
      take_ok (f.generation == w.0.generation) f g w.0 w'.0 ((==_iff f.generation w.0.generation).0)
        (ap to_stored e);
  update_err =
      λ f w w' x e. inl (take_err (f.generation == w.0.generation) f w.0 w'.0 x (ap to_stored e));
  create_lem = λ n o w f e. (
    f,
    e,
    record {
      generation = omega arith;
      is_applied = refl;
      attempt_gen = refl;
      applied_gen = refl;
      applied_controller = refl;
    },
  );
  delete_lem = λ name w. refl;
}

take_held :
    (b : Bool) (f w x : Cluster)
    → (b ≡ true → f.generation ≡ w.generation)
    → x ≡ (take b f w).1
    → (x ≡ w) ⊎ SameStatus f x
take_held true f w x h e = inr (
    subst (SameStatus f) (sym e) (record {
      generation = sym (h refl);
      conditions = refl;
      components = refl;
      attempt_gen = refl;
      applied_gen = refl;
      applied_controller = refl;
    }))
take_held false f w x h e = inl e

update-Held :
    (f x : Cluster) (w : Cached) → Held (stale.update_status f w).1 x → Held w x ⊎ SameStatus f x
update-Held f x w (inl e) =
    elim (take_held (f.generation == w.0.generation) f w.0 x
      ((==_iff f.generation w.0.generation).0) e) [ inl old ↦ inl (inl old) | inr same ↦ inr same ]
update-Held f x w (inr e) = inl (inr e)

stale-ReadLaws : ReadLaws stale key Held
stale-ReadLaws = record {
  get_held = λ w f e. inr (sym (ok-injective e));
  update_held = update-Held;
  create_held = λ n o w x e. inl e;
  delete_held = λ name w x e. e;
}

abbrev cached : State Cached
cached = record { cluster = (created, created); installs = [] }

new-IsConsistent : IsConsistent stale created
new-IsConsistent = record {
  applied_bound = omega arith;
  attempt_bound = omega arith;
  agrees = λ h. cc h;
}

cached-IsConsistent : (f : Cluster) → Held cached.cluster f → IsConsistent stale f
cached-IsConsistent f (inl e) = subst (IsConsistent stale) (sym e) new-IsConsistent
cached-IsConsistent f (inr e) = subst (IsConsistent stale) (sym e) new-IsConsistent

-- Two reconciliations in a row, of which the second reads the object from before the first.
abbrev twice : State Cached
twice = (reconcile stale version key (reconcile stale version key cached).1).1

History-IsConsistent_example : IsConsistent stale twice.cluster.0
History-IsConsistent_example =
    History-IsConsistent stale key stored_now stale-ApiLaws Held stale-ReadLaws
      (next (next start (reconciled_move version)) (reconciled_move version)) cached-IsConsistent
      twice.cluster.0 (inl refl)

-- The installer of the time server fails.
abbrev failed : Result (ReconcileError String) Cluster × State Cluster
failed = apply (small true) version (prepare (small true) "0.40" created) begun

fails : failed ≡ (err (ReconcileError.enforcing InstallStep.ntp "no chart"), failed.1)
unfolding apply before_attempt begin_attempt install_and_record end_attempt enforce_all
    enforce_kube_install enforce_object delete_chart attempted applied prepare secret_password calls
    pure lift reads ◌>>=◌
fails = refl

created-IsDue : IsDue (small true) version created
unfolding needs_apply
created-IsDue = record { consistent = created-IsConsistent true; due = refl }

apply-retried_example : Holds stored (IsDue (small true) version) failed.1
apply-retried_example =
    apply-retried (small true) key stored (small-ApiLaws true) version "0.40" created begun failed.1
      (ReconcileError.enforcing InstallStep.ntp "no chart") (created-IsConsistent true)
      (created, refl, created-IsDue) fails refl

abbrev checked_state : State Cluster
checked_state = (status_check (small false) created [] begun).1

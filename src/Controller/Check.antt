-- ===== src/Controller/Check.antt =====
-- `statusCheck` of pkg/controller/fabricator_ctrl.go, and the watcher `Start` that calls it.
use fabricator.Common.{ℕ, ◌+◌, String, Bool, ◌&&◌, List, [], ◌∷◌, ok, map_err, ltb, if◌then◌else◌}
use fabricator.Fab.Ready.{ComponentsStatus, RoleNode, is_ready, is_gateway_ready}
use fabricator.Controller.{
  Api, FabObject, State, ReconcileError, condition_ready, condition_gateway_ready,
}
use fabricator.Action.{Action, pure, reads, ◌>>=◌}
use fabricator.Controller.Install.{calls}
use fabricator.Controller.Components.{components}

-- One minute.
abbrev pub status_period : ℕ
status_period = 60_000_000_000

abbrev pub fab_name : String
fab_name = "default"

abbrev pub fab_namespace : String
fab_namespace = "fab"

pub data Wake : Type 0 where
  context_done ten_seconds : Wake

module _ {E W O N V : Type 0} (api : Api E W O N V) where
  abbrev pub set : String → Bool → String → FabObject V → FabObject V
  set kind value reason f = record f {
    status = record f.status {
      conditions = api.set_status_condition f.status.conditions (record {
        kind = kind;
        is_true = value;
        reason = reason;
        observed_generation = f.generation;
      });
    };
  }

  abbrev pub is_true : String → FabObject V → Bool
  is_true kind f = api.is_status_condition_true f.status.conditions kind

  abbrev pub mark_ready : Bool → FabObject V → FabObject V
  mark_ready b = set condition_ready b (if b then "ComponentsReady" else "ComponentsPending")

  abbrev pub mark_gateway_ready : Bool → FabObject V → FabObject V
  mark_gateway_ready b =
      set condition_gateway_ready b (if b then "GatewaysReady" else "GatewaysPending")

  -- The object that is written: the statuses, both conditions, and the time.
  unfoldable pub checked : ℕ → List RoleNode → ComponentsStatus → FabObject V → FabObject V
  checked now nodes c f =
      let enable = f.spec.config.gateway.enable in
      let g = record f { status = record f.status { components = c } } in
      let h =
        mark_gateway_ready (is_gateway_ready enable nodes c)
          (mark_ready (is_ready enable nodes c) g) in
      record h { status = record h.status { last_status_check = now } }

  -- Ready, and checked less than a minute ago.
  unfoldable pub is_fresh : ℕ → FabObject V → Bool
  is_fresh now f = ltb now (f.status.last_status_check + status_period) && is_true condition_ready f

  unfoldable pub update_ready :
      ℕ
      → List RoleNode
      → ComponentsStatus
      → FabObject V
      → Action (ReconcileError E) (State W) (FabObject V)
  unfolding checked
  update_ready now nodes c f =
      calls ReconcileError.updating_ready (api.update_status (checked now nodes c f))

  unfoldable pub check_components :
      FabObject V → List RoleNode → Action (ReconcileError E) (State W) (Unit {0})
  unfolding components update_ready
  check_components f nodes = reads (λ s. components api f nodes s.cluster) >>= λ c.
      reads (λ s. ok (api.now s.cluster)) >>= λ now. update_ready now nodes c f >>= λ g. pure tt

  unfoldable pub status_check :
      FabObject V → List RoleNode → Action (ReconcileError E) (State W) (Unit {0})
  unfolding is_fresh check_components
  status_check f nodes s =
      if is_fresh (api.now s.cluster) f then (ok tt, s) else check_components f nodes s

  unfoldable pub watch : String × String → Action (ReconcileError E) (State W) (Unit {0})
  unfolding status_check
  watch key = reads (λ s. map_err ReconcileError.fetching (api.get key s.cluster)) >>= λ f.
      reads (λ s. map_err ReconcileError.listing_nodes (api.list_nodes s.cluster)) >>= λ nodes.
      status_check f nodes

  -- One turn of the loop: an error is logged, and the loop goes on.
  unfoldable pub watch_once : String × String → State W → State W
  unfolding watch
  watch_once key s = (watch key s).1

  -- The loop of `Start`: what it wakes up for, until the context is done.
  unfoldable pub watcher : List Wake → State W → State W
  unfolding watch_once
  watcher [] s = s
  watcher (Wake.context_done ∷ rest) s = s
  watcher (Wake.ten_seconds ∷ rest) s = watcher rest (watch_once (fab_name, fab_namespace) s)

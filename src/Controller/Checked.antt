-- ===== src/Controller/Checked.antt =====
-- What `statusCheck` of pkg/controller/fabricator_ctrl.go writes.
use fabricator.Common.{String, Option, some, List, ◌≡◌, ok}
use fabricator.Fab.Ready.{ComponentsStatus, RoleNode, is_ready, is_gateway_ready}
use fabricator.Controller.{
  Api, FabObject, State, ReconcileError, condition_ready, condition_gateway_ready,
  condition_applied,
}
use fabricator.Action.{Anything}
use fabricator.Controller.Components.{components}
use fabricator.Controller.Check.{is_true}
use fabricator.Controller.Laws.{ApiLaws}

-- The object `g` that is stored holds what a check of `f` found: the statuses `c`, whether they are
-- ready, and what `f` says of the attempts.
pub record Reports {E W O N V : Type 0} (api : Api E W O N V) (f : FabObject V)
    (nodes : List RoleNode) (c : ComponentsStatus) (g : FabObject V) : Type 0 where
  pub statuses : g.status.components ≡ c
  pub ready : is_true api condition_ready g ≡ is_ready f.spec.config.gateway.enable nodes c
  pub gateway_ready :
      is_true api condition_gateway_ready g ≡ is_gateway_ready f.spec.config.gateway.enable nodes c
  pub applied : is_true api condition_applied g ≡ is_true api condition_applied f
  pub applied_gen : g.status.last_applied_gen ≡ f.status.last_applied_gen
  pub attempt_gen : g.status.last_attempt_gen ≡ f.status.last_attempt_gen

module _ {E W O N V : Type 0} (api : Api E W O N V) (key : String × String)
    (stored : W → Option (FabObject V)) (L : ApiLaws api key stored) (f : FabObject V)
    (nodes : List RoleNode) where
  abbrev Found : W → ComponentsStatus → State W → Type 0
  Found w c s = components api f nodes w ≡ ok c

  abbrev Stored : ComponentsStatus → State W → Type 0
  Stored c s = (g : FabObject V) × (stored s.cluster ≡ some g) × Reports api f nodes c g

  abbrev Unknown : ReconcileError E → State W → Type 0
  Unknown e s = Anything s

  -- The statuses that the components have at `w`, reported by the object stored.
  abbrev Checked : W → State W → Type 0
  Checked w s = (c : ComponentsStatus) × (components api f nodes w ≡ ok c) × Stored c s

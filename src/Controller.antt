-- ===== src/Controller.antt =====
-- The controller of the fabricator, pkg/controller/fabricator_ctrl.go: the object it reconciles, and
-- the calls it makes of the cluster.
use fabricator.Common.{ℕ, String, Bool, true, false, Option, List, Result}
use fabricator.Fab.Types.{Table, Fabricator}
use fabricator.Fab.Ready.{ComponentStatus, ComponentsStatus, RoleNode}
pub mod Install
pub mod Components
pub mod Check
pub mod Reconcile
pub mod Laws
pub mod Steady
pub mod Writes
pub mod Consistent
pub mod Preserved
pub mod History
pub mod Applied
pub mod Trace
pub mod Installed
pub mod Retry
pub mod Checked
mod Tests

-- A condition of an object's status; `is_true` is `Status == ConditionTrue`. The controller sets
-- true and false only.
pub record Condition : Type 0 where
  pub kind : String
  pub is_true : Bool
  pub reason : String
  pub observed_generation : ℕ

abbrev pub condition_applied : String
condition_applied = "Applied"

abbrev pub condition_ready : String
condition_ready = "Ready"

abbrev pub condition_gateway_ready : String
condition_gateway_ready = "GatewayReady"

-- `V`: the versions that the components are installed at. Times are in nanoseconds, 0 for none.
pub record FabricatorStatus (V : Type 0) : Type 0 where
  pub is_bootstrap : Bool
  pub is_install : Bool
  pub versions : V
  pub last_attempt_time : ℕ
  pub last_attempt_gen : ℕ
  pub last_applied_time : ℕ
  pub last_applied_gen : ℕ
  pub last_applied_controller : String
  pub last_status_check : ℕ
  pub conditions : List Condition
  pub components : ComponentsStatus
  pub release : String
  pub release_channel : String

-- The object of the cluster: the fabricator, the generation of its spec, and its status.
pub record FabObject (V : Type 0) : Type 0 where
  pub spec : Fabricator
  pub generation : ℕ
  pub status : FabricatorStatus V

pub data InstallStep : Type 0 where
  fab_and_control reloader cert_manager zot fabric : InstallStep
  management_dhcp ntp control_proxy node_registries node_config : InstallStep
  alloy fabricator_itself : InstallStep

pub data Component : Type 0 where
  fabricator_api fabricator_ctrl fabricator_node_config cert_manager_ctrl : Component
  cert_manager_webhook reloader_deployment zot_registry ntp_server fabric_api fabric_ctrl :
      Component
  fabric_boot fabric_dhcp proxy gateway_alloy control_alloy : Component

pub data GatewayComponent : Type 0 where
  gateway_dataplane gateway_frr : GatewayComponent

pub data ReconcileError (E : Type 0) : Type 0 where
  fetching getting_channel listing_nodes listing_controls : E → ReconcileError E
  no_controls multiple_controls missing_password : ReconcileError E
  enforcing : InstallStep → E → ReconcileError E
  getting_secret updating_attempt calculating_versions : E → ReconcileError E
  deleting_chart updating_applied : E → ReconcileError E
  component_status : Component → E → ReconcileError E
  gateway_status : GatewayComponent → E → ReconcileError E
  updating_ready : E → ReconcileError E

-- What the controller takes from the Kubernetes client and from the installers. `W` is the cluster,
-- `O` an object that an installer makes, `N` a control node, `E` an error.
pub record Api (E W O N V : Type 0) : Type 0 where
  pub set_status_condition : List Condition → Condition → List Condition
  pub is_status_condition_true : List Condition → String → Bool
  pub now : W → ℕ
  pub release : String
  pub release_channel : Result E String
  pub get : String × String → W → Result E (FabObject V)
  pub list_nodes : W → Result E (List RoleNode)
  pub list_controls : W → Result E (List N)
  pub default_control : N → N
  pub get_secret : W → Result E (Table String)
  pub update_status : FabObject V → W → Result E (FabObject V) × W
  pub calculate_versions : Fabricator → Result E V
  pub objects : InstallStep → N → String → FabObject V → Result E (List O)
  pub ensure_kind : O → Result E O
  -- `retry.OnError` around `CreateOrUpdate`, with a number of steps.
  pub create_or_update : ℕ → O → W → Result E (Unit {0}) × W
  pub delete_chart : String → W → Result E (Unit {0}) × W
  pub is_not_found : E → Bool
  pub component : Component → FabObject V → W → Result E ComponentStatus
  pub gateway_component :
      GatewayComponent → FabObject V → List RoleNode → W → Result E (Table ComponentStatus)

-- The cluster, and the installs that were begun, in order.
pub record State (W : Type 0) : Type 0 where
  pub cluster : W
  pub installs : List InstallStep

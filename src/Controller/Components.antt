-- ===== src/Controller/Components.antt =====
-- The statuses of the components that `statusCheck` of pkg/controller/fabricator_ctrl.go reads.
use fabricator.Common.{List, Result, ok, map_err, ◌>>=◌}
use fabricator.Fab.Ready.{ComponentsStatus, RoleNode}
use fabricator.Controller.{Api, FabObject, Component, GatewayComponent, ReconcileError}

module _ {E W O N V : Type 0} (api : Api E W O N V) where
  -- The status of each component, read in this order; the first error ends it.
  unfoldable pub components :
      FabObject V → List RoleNode → W → Result (ReconcileError E) ComponentsStatus
  components f nodes w =
      let one =
        λ (c : Component). map_err (ReconcileError.component_status c) (api.component c f w) in
      let gateways = λ (c : GatewayComponent).
        map_err (ReconcileError.gateway_status c) (api.gateway_component c f nodes w) in
      one Component.fabricator_api >>= λ fabricator_api.
      one Component.fabricator_ctrl >>= λ fabricator_ctrl.
      one Component.fabricator_node_config >>= λ fabricator_node_config.
      one Component.cert_manager_ctrl >>= λ cert_manager_ctrl.
      one Component.cert_manager_webhook >>= λ cert_manager_webhook.
      one Component.reloader_deployment >>= λ reloader. one Component.zot_registry >>= λ zot.
      one Component.ntp_server >>= λ ntp. one Component.fabric_api >>= λ fabric_api.
      one Component.fabric_ctrl >>= λ fabric_ctrl. one Component.fabric_boot >>= λ fabric_boot.
      one Component.fabric_dhcp >>= λ fabric_dhcp. one Component.proxy >>= λ control_proxy.
      gateways GatewayComponent.gateway_dataplane >>= λ gateway_dataplane.
      gateways GatewayComponent.gateway_frr >>= λ gateway_frr.
      one Component.gateway_alloy >>= λ gateway_alloy.
      one Component.control_alloy >>= λ control_alloy. ok (record {
        fabricator_api = fabricator_api;
        fabricator_ctrl = fabricator_ctrl;
        fabricator_node_config = fabricator_node_config;
        cert_manager_ctrl = cert_manager_ctrl;
        cert_manager_webhook = cert_manager_webhook;
        reloader = reloader;
        zot = zot;
        ntp = ntp;
        fabric_api = fabric_api;
        fabric_ctrl = fabric_ctrl;
        fabric_boot = fabric_boot;
        fabric_dhcp = fabric_dhcp;
        control_proxy = control_proxy;
        control_alloy = control_alloy;
        gateway_alloy = gateway_alloy;
        gateway_dataplane = gateway_dataplane;
        gateway_frr = gateway_frr;
      })

-- ===== src/Fab/Ready/Tests.antt =====
-- Readiness with one gateway, and with one that is not ready.
use fabricator.Common.{◌≡◌, ◌≢◌, ◌↔◌, inl, refl, true, false, List, [], ◌∷◌}
use fabricator.Fab.Ready.{
  ComponentStatus, ComponentsStatus, RoleNode, ready, pending, IsControlReady, is_ready,
  is_gateway_ready, is_gateway, all_gateways, is_ready-is_gateway_ready, is_gateway_ready-frr,
}

abbrev nodes : List RoleNode
nodes = (record { name = "gw-1"; roles = "gateway" ∷ [] }) ∷ []

abbrev status : ComponentStatus → ComponentsStatus
status frr = record {
  fabricator_api = ready;
  fabricator_ctrl = ready;
  fabricator_node_config = ready;
  cert_manager_ctrl = ready;
  cert_manager_webhook = ready;
  reloader = ready;
  zot = ready;
  ntp = ready;
  fabric_api = ready;
  fabric_ctrl = ready;
  fabric_boot = ready;
  fabric_dhcp = ready;
  control_proxy = ready;
  control_alloy = pending;
  gateway_alloy = ready;
  gateway_dataplane = ("gw-1", ready) ∷ [];
  gateway_frr = ("gw-1", frr) ∷ [];
}

gateway_is_ready : is_gateway_ready true nodes (status ready) ≡ true
unfolding is_gateway_ready all_gateways is_gateway
gateway_is_ready = refl

is_ready-is_gateway_ready_example :
    (is_ready true nodes (status ready) ≡ true) ↔ IsControlReady (status ready)
is_ready-is_gateway_ready_example = is_ready-is_gateway_ready nodes (status ready) gateway_is_ready

pending_ne_ready : pending ≢ ready
pending_ne_ready e = cc e

is_gateway_ready-frr_example : is_gateway_ready true nodes (status pending) ≡ false
is_gateway_ready-frr_example =
    is_gateway_ready-frr nodes (status pending) 0 "gw-1" pending refl (inl pending_ne_ready)

-- ===== src/Fab/Nodes/Tests.antt =====
-- A node that is accepted beside a control node and another node.
use fabricator.Common.{ℕ, ◌≡◌, refl, false, inr, none, some, [], ◌∷◌, ok}
use fabricator.Netip.{v4, Prefix, addr_text, contains, parse_prefix, parse_v4_prefix, addr_eq}
use fabricator.Samples.{ip, net}
use fabricator.Fab.Samples.{roles_api, numbered}
use fabricator.Fab.Types.{ControlConfig}
use fabricator.Fab.Nodes.{
  NodeLists, field_of, check_addresses, taken, listed_nodes, check_unused, check_hydrated,
  validate_node,
}
use fabricator.Fab.Nodes.Laws.{IsOther, validate_node-management, validate_node-dummy}

abbrev control_config : ControlConfig
control_config = record {
  management_subnet = net (ip 172 30 0 0) 21;
  vip = net (ip 172 30 0 1) 32;
  kube_cluster_subnet = net (ip 172 28 0 0) 16;
  kube_service_subnet = net (ip 172 29 0 0) 16;
  kube_cluster_dns = addr_text (v4 (ip 172 29 0 10));
  dummy_subnet = net (ip 172 30 90 0) 24;
  default_user = record { password_hash = "$5$abc"; authorized_keys = [] };
  no_pass_auth = false;
  ntp_servers = [];
  observability = none;
}

abbrev lists : NodeLists
lists = record {
  controls = some (numbered "control-1" 5 0 ∷ []);
  nodes = some (numbered "gw-1" 6 2 ∷ numbered "gw-2" 7 4 ∷ []);
}

accepted :
    validate_node roles_api (some control_config) false (some lists) (numbered "gw-1" 6 2) ≡ ok tt
unfolding validate_node check_hydrated check_addresses check_unused field_of taken listed_nodes
    contains parse_prefix parse_v4_prefix
accepted = refl

other :
    IsOther
      (numbered "gw-1" 6 2)
      (numbered "control-1" 5 0 ∷ [])
      (numbered "gw-1" 6 2 ∷ numbered "gw-2" 7 4 ∷ [])
      (numbered "gw-2" 7 4)
other = inr (1, refl, refl)

abbrev prefix : ℕ → ℕ → Prefix
prefix a n = record { addr = v4 a; bits = n }

validate_node-management_example : addr_eq (v4 (ip 172 30 0 6)) (v4 (ip 172 30 0 7)) ≡ false
unfolding parse_prefix parse_v4_prefix
validate_node-management_example =
    validate_node-management roles_api control_config lists (numbered "gw-1" 6 2)
      (numbered "gw-2" 7 4) (numbered "control-1" 5 0 ∷ [])
      (numbered "gw-1" 6 2 ∷ numbered "gw-2" 7 4 ∷ []) (prefix (ip 172 30 0 6) 21)
      (prefix (ip 172 30 0 7) 21) refl refl accepted other refl refl

validate_node-dummy_example : addr_eq (v4 (ip 172 30 90 2)) (v4 (ip 172 30 90 4)) ≡ false
unfolding parse_prefix parse_v4_prefix
validate_node-dummy_example =
    validate_node-dummy roles_api control_config lists (numbered "gw-1" 6 2) (numbered "gw-2" 7 4)
      (numbered "control-1" 5 0 ∷ []) (numbered "gw-1" 6 2 ∷ numbered "gw-2" 7 4 ∷ [])
      (prefix (ip 172 30 90 2) 31) (prefix (ip 172 30 90 4) 31) refl refl accepted other refl refl

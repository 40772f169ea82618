-- ===== src/Fab/Samples.antt =====
-- A small Fabricator object, and nodes that go with it.
use fabricator.Common.{ℕ, ◌≡◌, refl, String, str_eq, true, false, none, [], ◌∷◌, ok}
use fabricator.Netip.{
  v4, addr_text, blank, contains, overlaps, parse_prefix, parse_v4_prefix, parse_v4_addr,
}
use fabricator.Fab.Nodes.{dhcp, NodeSpec, RolesApi}
use fabricator.Samples.{ip, net}
use fabricator.Fab.Types.{FabConfig, Fabricator}
use fabricator.Fab.Targets.{default_prometheus, default_loki, default_pyroscope}
use fabricator.Fab.Default.{
  default, default_config, default_asns, default_control, default_fabric, default_gateway,
  default_observability, default_irb_vlans, default_proxy,
}
use fabricator.Fab.Users.{
  check_control_user, check_switch_user, scan_switch_users, check_switch_users, check_known_users,
  known_switch_users,
}
use fabricator.Fab.Validate.{
  FabricApi, validate, check_defaulted, check_config, check_management, prefix_of, addr_of,
  check_asns, check_apart, check_all_apart, check_communities,
}
use fabricator.Strings.{has_prefix, split, parse_uint}

abbrev pub fabric_api : FabricApi
fabric_api = record {
  struct_ok = λ f. true;
  is_fabric_mode = λ m. str_eq m "spine-leaf";
  is_spine_leaf = λ m. str_eq m "spine-leaf";
  vlans_apart = λ vs. true;
  agent_user = "hhagent";
  alloy_user = "alloy";
}

abbrev pub fab_config : FabConfig
fab_config = record {
  control = record {
    management_subnet = net (ip 172 30 0 0) 21;
    vip = net (ip 172 30 0 1) 32;
    kube_cluster_subnet = net (ip 172 28 0 0) 16;
    kube_service_subnet = net (ip 172 29 0 0) 16;
    kube_cluster_dns = addr_text (v4 (ip 172 29 0 10));
    dummy_subnet = net (ip 172 30 90 0) 24;
    default_user = record { password_hash = "$5$abc"; authorized_keys = [] };
    no_pass_auth = false;
    ntp_servers = [];
    observability = none;
  };
  registry = record { mode = "airgap"; upstream = none };
  fabric = record {
    mode = "spine-leaf";
    management_dhcp_start = addr_text (v4 (ip 172 30 4 0));
    management_dhcp_end = addr_text (v4 (ip 172 30 7 254));
    spine_asn = 65100;
    leaf_asn_start = 65101;
    leaf_asn_end = 65534;
    protocol_subnet = net (ip 172 30 8 0) 22;
    vtep_subnet = net (ip 172 30 12 0) 22;
    fabric_subnet = net (ip 172 30 128 0) 17;
    proxy_external_subnet = blank;
    base_vpc_community = "50000:0";
    vpc_irb_vlans = (record { from = 3000; to = 3999 }) ∷ [];
    loopback_workaround_disable = true;
    vpc_workaround_vlans = (record { from = 100; to = 3999 }) ∷ [];
    vpc_workaround_subnet = net (ip 172 30 96 0) 19;
    th5_workaround_vlans = [];
    eslag_mac_base = "f2:00:00:00:00:00";
    eslag_esi_prefix = "00:f2:00:00:";
    mclag_session_subnet = net (ip 172 30 95 0) 31;
    default_switch_users =
        ("admin", record { password_hash = "$5$abc"; role = "admin" })
        ∷ ("op", record { password_hash = "$5$def"; role = "operator" })
        ∷ [];
    default_alloy_config = record { prometheus_targets = []; loki_targets = [] };
    include_bcm = false;
    include_clsp = false;
    include_cumulus = false;
    observability = none;
  };
  gateway = record { enable = true; asn = 0; observability = none; communities = [] };
  observability = record {
    defaults = "minimal";
    labels = ("env", "lab") ∷ [];
    prometheus = none;
    loki = none;
    pyroscope = none;
  };
}

abbrev pub fab : Fabricator
fab = record { name = "default"; namespace = "fab"; config = fab_config }

-- The object as `Validate` leaves it.
abbrev pub done : Fabricator
done = default fab

pub accepts : validate fabric_api fab ≡ ok done
unfolding validate check_defaulted check_config default default_config default_asns default_control
    default_fabric default_gateway default_observability default_irb_vlans default_proxy
    default_prometheus default_loki default_pyroscope check_management prefix_of addr_of check_asns
    check_apart check_all_apart check_communities check_control_user check_switch_user
    scan_switch_users check_switch_users check_known_users known_switch_users has_prefix split
    parse_uint contains overlaps parse_v4_prefix parse_v4_addr parse_prefix
accepts = refl

abbrev pub roles_api : RolesApi
roles_api = record { uniq = λ l. l; every = λ l m. true }

abbrev pub numbered : String → ℕ → ℕ → NodeSpec
numbered name mgmt dummy = record {
  name = name;
  namespace = "fab";
  roles = "gateway" ∷ [];
  disk = "/dev/sda";
  management_ip = net (ip 172 30 0 mgmt) 21;
  management_interface = "eth0";
  external_ip = dhcp;
  external_interface = "eth1";
  dummy_ip = net (ip 172 30 90 dummy) 31;
}

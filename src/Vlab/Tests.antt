-- ===== src/Vlab/Tests.antt =====
-- Runs of the builders of pkg/hhfab/vlabbuilder.go on small labs.
use fabricator.Common.{◌≤◌, ◌<◌, String, str_eq, true, false, none, [], ◌∷◌, length, ◌≡◌, refl, ok}
use fabricator.Strings.{split, parse_uint, has_prefix}
use fabricator.Action.{pure, lift, ◌>>=◌}
use fabricator.Fab.Ready.{RoleNode}
use fabricator.Vlab.{ConnectionSpec, BuilderBase, Lab, LabApi}
use fabricator.Vlab.Text.{trim_space}
use fabricator.Vlab.Options.{Options, check_options}
use fabricator.Vlab.Build.{build}
use fabricator.Vlab.Rail.{RailOptions, build_rail}
use fabricator.Vlab.Used.{uses, lab_ports}
use fabricator.Vlab.Accepted.{IsBuildable, check_options-IsBuildable}
use fabricator.Vlab.TidyBuild.{build-uses}
use fabricator.Vlab.TidyRail.{build_rail-uses}

abbrev kind_of : ConnectionSpec → String
kind_of (ConnectionSpec.eslag ls) = "eslag"
kind_of (ConnectionSpec.unbundled l) = "unbundled"
kind_of (ConnectionSpec.bundled ls) = "bundled"
kind_of (ConnectionSpec.fabric ls) = "fabric"
kind_of (ConnectionSpec.mesh ls) = "mesh"
kind_of (ConnectionSpec.gateway_links ls) = "gateway"
kind_of (ConnectionSpec.external_link p) = "external"

abbrev lab_api : LabApi
lab_api = record {
  is_spine_leaf = λ mode. str_eq mode "spine-leaf";
  virtual_switch_profiles = "vs" ∷ [];
  gateway_log_levels = "info" ∷ "debug" ∷ [];
  default_gateway_group = "default";
  p2p_annotation = "p2p";
  route_summ_annotation = "route-summ";
  generate_name = kind_of;
  refuses = λ os o. none;
}

abbrev base : BuilderBase
base = record {
  default_switch_profile = "vs";
  switch_profile_overrides = [];
  server_port_base = "";
}

-- The options of a lab without flags, but for one server of each kind.
abbrev options : Options
options = record {
  spines_count = 0;
  fabric_links_count = 0;
  mesh_links_count = 0;
  eslag_leaf_groups = "";
  orphan_leafs_count = 0;
  eslag_servers = 1;
  unbundled_servers = 1;
  bundled_servers = 1;
  multi_homed_servers = 1;
  no_switches = false;
  gateway_uplinks = 0;
  gateway_driver = "";
  gateway_workers = 0;
  gateway_log_level = "info";
  gateway_tags = [];
  ext_bgp_count = 1;
  ext_static_count = 1;
  ext_static_proxy_count = 0;
  ext_eslag_conn_count = 1;
  ext_orphan_conn_count = 0;
  yes_flag = false;
  base = base;
}

abbrev gateway_node : RoleNode
gateway_node = record { name = "gateway-1"; roles = "gateway" ∷ [] }

abbrev empty : Lab
empty = record { iface_tracker = []; switch_id = 0; too_many = []; objects = [] }

abbrev built : Lab
built = (build lab_api "spine-leaf" (gateway_node ∷ []) options empty).1

runs : build lab_api "spine-leaf" (gateway_node ∷ []) options empty ≡ (ok tt, built)
unfolding build split parse_uint has_prefix trim_space pure lift ◌>>=◌
runs = refl

few_interfaces : built.too_many ≡ []
unfolding build split parse_uint has_prefix trim_space pure lift ◌>>=◌
few_interfaces = refl

-- How many objects there are, and two ports of a leaf.
counts :
    (length built.objects ≡ 37)
    × (uses "leaf-01" 1 (lab_ports built.objects) ≡ 1)
    × (uses "leaf-01" 9 (lab_ports built.objects) ≡ 0)
unfolding build split parse_uint has_prefix trim_space pure lift ◌>>=◌
counts = (refl, refl, refl)

build-uses_example :
    (uses "leaf-01" 1 (lab_ports built.objects) ≤ 1)
    × (76 < 1 → uses "leaf-01" 1 (lab_ports built.objects) ≡ 0)
build-uses_example =
    build-uses lab_api "spine-leaf" (gateway_node ∷ []) options empty built "leaf-01" 1 refl runs
      few_interfaces

accepted :
    check_options lab_api "spine-leaf" true options
    ≡ ok (
      record options {
        spines_count = 2;
        fabric_links_count = 2;
        eslag_leaf_groups = "2";
        orphan_leafs_count = 1;
        gateway_driver = "kernel";
        gateway_workers = 8;
        gateway_uplinks = 2;
      },
      2 ∷ [],
    )
unfolding check_options split parse_uint trim_space
accepted = refl

check_options-IsBuildable_example :
    IsBuildable true
      (record options {
        spines_count = 2;
        fabric_links_count = 2;
        eslag_leaf_groups = "2";
        orphan_leafs_count = 1;
        gateway_driver = "kernel";
        gateway_workers = 8;
        gateway_uplinks = 2;
      })
      (2 ∷ [])
check_options-IsBuildable_example =
    check_options-IsBuildable lab_api "spine-leaf" true options _ (2 ∷ []) accepted

abbrev rail_options : RailOptions
rail_options = record {
  scalable_units = 1;
  vpcs = 1;
  servers_per_vpc_per_unit = 1;
  p2p = true;
  base = base;
}

abbrev rail_lab : Lab
rail_lab = (build_rail lab_api rail_options empty).1

rail_runs : build_rail lab_api rail_options empty ≡ (ok tt, rail_lab)
unfolding build_rail pure lift ◌>>=◌
rail_runs = refl

rail_few : rail_lab.too_many ≡ []
unfolding build_rail pure lift ◌>>=◌
rail_few = refl

build_rail-uses_example :
    (uses "spine-s00" 16 (lab_ports rail_lab.objects) ≤ 1)
    × (76 < 16 → uses "spine-s00" 16 (lab_ports rail_lab.objects) ≡ 0)
build_rail-uses_example =
    build_rail-uses lab_api rail_options empty rail_lab "spine-s00" 16 refl rail_runs rail_few

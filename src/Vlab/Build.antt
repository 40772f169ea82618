-- ===== src/Vlab/Build.antt =====
-- `Build` of `VLABBuilderDefault`, pkg/hhfab/vlabbuilder.go.
use fabricator.Common.{
  ℕ, zero, suc, ◌+◌, ◌%◌, ltb, String, str_compare, Bool, true, false, ◌&&◌, List, [], ◌∷◌, length,
  ok, if◌then◌else◌,
}
use fabricator.Strings.{contains_string}
use fabricator.Allocate.Types.{sort_func}
use fabricator.Action.{Action, pure, lift, ◌>>=◌, ◌>>◌}
use fabricator.Fab.Ready.{RoleNode}
use fabricator.Vlab.{Object, Lab, LabApi}
use fabricator.Vlab.Create.{add, create_gateway, create_gateway_group, create_switch_group}
use fabricator.Vlab.Options.{Options, check_options, total_leafs}
use fabricator.Vlab.Loops.{each_with, up_to}
use fabricator.Vlab.Leafs.{Progress, start, eslag_groups, orphan_leafs, multi_homed_servers}
use fabricator.Vlab.Fabric.{gateway_of, spines, mesh, mesh_gateways}
use fabricator.Vlab.Externals.{externals}

abbrev pub is_gateway_node : RoleNode → Bool
is_gateway_node n = contains_string n.roles "gateway"

unfoldable pub gateway_nodes : List RoleNode → List RoleNode
gateway_nodes [] = []
gateway_nodes (n ∷ nodes) =
    if is_gateway_node n then n ∷ gateway_nodes nodes else gateway_nodes nodes

abbrev pub is_some_gateway : List RoleNode → Bool
is_some_gateway [] = false
is_some_gateway (n ∷ nodes) = true

abbrev take : {A : Type 0} → ℕ → List A → List A
take zero xs = []
take (suc n) [] = []
take (suc n) (x ∷ xs) = x ∷ take n xs

-- The loop over the groups counts them in a `uint8`.
abbrev pub counted_groups : List ℕ → List ℕ
counted_groups groups = take (length groups % 256) groups

-- `b.ifaceTracker = map[string]uint8{}`
unfoldable pub reset_tracker : Action String Lab (Unit {0})
reset_tracker s = (ok tt, record s { iface_tracker = [] })

module _ (api : LabApi) where
  unfoldable pub create_namespaces : Action String Lab (Unit {0})
  unfolding add
  create_namespaces =
      add api (Object.vlan_namespace 1000 2999) >> add api (Object.ipv4_namespace "10.0.0.0/16")

  -- The group of the gateways, and the gateways, in the order of the nodes.
  unfoldable pub create_gateways : Options → List RoleNode → Action String Lab (Unit {0})
  unfolding create_gateway create_gateway_group gateway_of up_to each_with
  create_gateways o gws =
      if is_some_gateway gws
      then (create_gateway_group api api.default_gateway_group
          >> (lift (up_to 1 o.gateway_uplinks) >>= λ uplinks.
              each_with gws (λ n u. create_gateway api (gateway_of api o uplinks n)) tt))
      else pure tt

  unfoldable pub mesh_uplinks : Options → List RoleNode → ℕ → Action String Lab (Unit {0})
  unfolding mesh_gateways up_to
  mesh_uplinks o gws leafs =
      if ltb 0 o.mesh_links_count && is_some_gateway gws
      then (lift (up_to 1 leafs) >>= λ ids. mesh_gateways api o gws ids 0)
      else pure tt

  -- From the leafs to the multi-homed servers.
  unfoldable pub build_leafs : Options → List ℕ → Action String Lab Progress
  unfolding eslag_groups orphan_leafs multi_homed_servers
  build_leafs o groups = eslag_groups api o 0 (counted_groups groups) start >>= λ p.
      (orphan_leafs api o p >>= λ q. multi_homed_servers api o q)

  -- What is built of options that were checked; `gws` are the gateways by name.
  unfoldable pub build_checked :
      Options → List ℕ → List RoleNode → List RoleNode → Action String Lab (Unit {0})
  unfolding create_namespaces reset_tracker create_gateways create_switch_group build_leafs spines
      mesh mesh_uplinks externals total_leafs
  build_checked o groups nodes gws =
      let leafs = (o.orphan_leafs_count + total_leafs groups) % 256 in
      create_namespaces
      >> (reset_tracker
          >> (create_gateways o nodes
              >> (create_switch_group api "empty"
                  >> (build_leafs o groups >>= λ p.
                      (spines api o (is_some_gateway gws) gws leafs p.switch_id >>= λ id.
                      (mesh api o leafs
                        >> (mesh_uplinks o gws leafs >> externals api o p.external_conns)))))))

  unfoldable pub build : String → List RoleNode → Options → Action String Lab (Unit {0})
  unfolding check_options build_checked gateway_nodes sort_func
  build mode nodes o =
      lift (check_options api mode (is_some_gateway (gateway_nodes nodes)) o) >>= λ r.
      build_checked r.0 r.1 (gateway_nodes nodes)
        (sort_func (λ a b. str_compare a.name b.name) (gateway_nodes nodes))

-- ===== src/Vlab/Fabric.antt =====
-- The spines, the mesh and the links of the gateways of the default builder,
-- pkg/hhfab/vlabbuilder.go.
use Prim.Native.String.{◌++◌ as append}
use fabricator.Common.{
  ℕ, ◌+◌, ◌%◌, ltb, leb, String, str_eq, Bool, ◌&&◌, none, List, [], ◌∷◌, if◌then◌else◌,
}
use fabricator.Action.{Action, pure, lift, ◌>>=◌, ◌>>◌}
use fabricator.Fab.Ready.{RoleNode}
use fabricator.Vlab.{Device, Port, SwitchLink, ConnectionSpec, SwitchRole, Gateway, Lab, LabApi}
use fabricator.Vlab.Text.{decimal, decimal2}
use fabricator.Vlab.Ports.{next_switch_port}
use fabricator.Vlab.Create.{create_switch, create_connection}
use fabricator.Vlab.Options.{Options}
use fabricator.Vlab.Loops.{collect, each_with, up_to, count_from}
use fabricator.Vlab.Servers.{leaf_name}
use fabricator.Vlab.Leafs.{plain_switch}

unfoldable pub spine_name : ℕ → String
unfolding decimal2
spine_name n = append "spine-" (decimal2 n)

-- A link between the next ports of two switches.
unfoldable pub switch_link : String → String → Action String Lab SwitchLink
unfolding next_switch_port
switch_link a b = next_switch_port a >>= λ p.
    (next_switch_port b >>= λ q. pure (record { first = p; second = q }))

-- The interface of a gateway with the number: `enp2s` of the kernel, `port` of DPDK.
abbrev pub interface_base : String → String
interface_base driver =
    if str_eq driver "kernel" then "enp2s" else (if str_eq driver "dpdk" then "port" else "")

abbrev interface_entry : String → ℕ → String × String
interface_entry driver i =
    if str_eq driver "kernel"
    then (append "enp2s" (decimal i), "")
    else (append "port" (decimal i), append "0000:02:" (append (decimal2 i) ".0"))

abbrev interfaces : String → List ℕ → List (String × String)
interfaces driver [] = []
interfaces driver (i ∷ is) = interface_entry driver i ∷ interfaces driver is

module _ (api : LabApi) (o : Options) where
  -- The gateway of one node, with an interface for each uplink.
  unfoldable pub gateway_of : List ℕ → RoleNode → Gateway
  unfolding decimal decimal2
  gateway_of uplinks node = record {
    name = node.name;
    group = api.default_gateway_group;
    interfaces = interfaces o.gateway_driver uplinks;
    workers = o.gateway_workers;
    log_level = o.gateway_log_level;
    log_tags = o.gateway_tags;
  }

  -- The link of a switch to each gateway, at the interface with a number.
  unfoldable pub gateway_link : String → ℕ → RoleNode → Unit {0} → Action String Lab (Unit {0})
  unfolding next_switch_port create_connection
  gateway_link switch_name i gw _ = next_switch_port switch_name >>= λ p.
      (let port : Port = record {
        device = Device.gateway_node gw.name;
        base = interface_base o.gateway_driver;
        slot = i;
      } in
        create_connection api
          (ConnectionSpec.gateway_links ((record { first = p; second = port }) ∷ []))
        >>= λ c. pure tt)

  -- `n` links between two switches, as one connection.
  unfoldable pub fabric_connection : String → ℕ → Unit {0} → Action String Lab (Unit {0})
  unfolding switch_link create_connection collect leaf_name
  fabric_connection spine leaf_id _ =
      collect (count_from 0 o.fabric_links_count) (λ i. switch_link spine (leaf_name leaf_id))
      >>= λ links. (create_connection api (ConnectionSpec.fabric links) >>= λ c. pure tt)

  unfoldable pub mesh_connection : String → ℕ → Unit {0} → Action String Lab (Unit {0})
  unfolding switch_link create_connection collect leaf_name
  mesh_connection leaf1 leaf2_id _ =
      collect (count_from 0 o.mesh_links_count) (λ i. switch_link leaf1 (leaf_name leaf2_id))
      >>= λ links. (create_connection api (ConnectionSpec.mesh links) >>= λ c. pure tt)

  -- A spine: the switch, its links to every leaf, and to every gateway. `leafs` is the number of
  -- leafs, and the number of the switch is counted.
  unfoldable pub spine : Bool → List RoleNode → ℕ → ℕ → ℕ → Action String Lab ℕ
  unfolding create_switch fabric_connection gateway_link up_to each_with spine_name decimal2
  spine is_gw gws leafs id switch_id =
      create_switch api o.base (
        plain_switch (spine_name id) SwitchRole.spine_role (append "VS-" (decimal2 switch_id)) none)
      >> (lift (up_to 1 leafs) >>= λ ids.
          (each_with ids (fabric_connection (spine_name id)) tt
            >> ((if is_gw && leb id o.gateway_uplinks
                  then each_with gws (gateway_link (spine_name id) id) tt
                  else pure tt)
                >> pure ((switch_id + 1) % 256))))

  unfoldable pub spines : Bool → List RoleNode → ℕ → ℕ → Action String Lab ℕ
  unfolding spine up_to each_with
  spines is_gw gws leafs switch_id =
      lift (up_to 1 o.spines_count) >>= λ ids. each_with ids (spine is_gw gws leafs) switch_id

  -- The links of one leaf to all that come after it.
  unfoldable pub mesh_leaf : ℕ → ℕ → Unit {0} → Action String Lab (Unit {0})
  unfolding mesh_connection up_to each_with leaf_name
  mesh_leaf leafs id _ =
      lift (up_to (id + 1) leafs) >>= λ ids. each_with ids (mesh_connection (leaf_name id)) tt

  unfoldable pub mesh : ℕ → Action String Lab (Unit {0})
  unfolding mesh_leaf up_to each_with
  mesh leafs =
      if ltb 0 o.mesh_links_count
      then (lift (up_to 1 leafs) >>= λ ids. each_with ids (mesh_leaf leafs) tt)
      else pure tt

  -- The first leafs, as many as there are uplinks; `connected` counts them.
  unfoldable pub mesh_gateways : List RoleNode → List ℕ → ℕ → Action String Lab (Unit {0})
  unfolding gateway_link each_with leaf_name
  mesh_gateways gws [] connected = pure tt
  mesh_gateways gws (id ∷ ids) connected =
      if ltb connected o.gateway_uplinks
      then (each_with gws (gateway_link (leaf_name id) (connected + 1)) tt
          >> mesh_gateways gws ids (connected + 1))
      else pure tt

-- ===== src/Vlab/Rail.antt =====
-- `Build` of `VLABBuilderGPURail`, pkg/hhfab/vlabbuilder.go. The counts are `uint`.
use Prim.Native.String.{◌++◌ as append}
use fabricator.Common.{ℕ, ◌+◌, ◌*◌, ◌%◌, String, str_eq, Bool, none, [], ◌∷◌, ◌++◌, if◌then◌else◌}
use fabricator.Action.{Action, pure, ◌>>=◌, ◌>>◌}
use fabricator.Fab.Types.{Table}
use fabricator.Vlab.{SwitchRole, Switch, ConnectionSpec, Object, BuilderBase, Lab, LabApi}
use fabricator.Vlab.Text.{decimal, decimal2}
use fabricator.Vlab.Create.{
  add, create_switch, create_server, create_connection, create_connection_with_name, create_vpc,
  create_vpc_attachment,
}
use fabricator.Vlab.Loops.{count_with, collect, count_from}
use fabricator.Vlab.Servers.{server_link}
use fabricator.Vlab.Fabric.{switch_link}
use fabricator.Vlab.Build.{reset_tracker}

-- `VLABBuilderGPURail`
pub record RailOptions : Type 0 where
  pub scalable_units : ℕ
  pub vpcs : ℕ
  pub servers_per_vpc_per_unit : ℕ
  pub p2p : Bool
  pub base : BuilderBase

abbrev pub rail_spines : ℕ
rail_spines = 2

abbrev pub leafs_per_scalable_unit : ℕ
leafs_per_scalable_unit = 4

abbrev pub starting_vlan : ℕ
starting_vlan = 1000

abbrev pub fabric_links : ℕ
fabric_links = 4

abbrev pub rails : ℕ
rails = 8

-- `leafNameFor`
unfoldable pub leaf_name_for : ℕ → ℕ → String
unfolding decimal decimal2
leaf_name_for su leaf = append "leaf-su" (append (decimal2 su) (append "-r" (decimal leaf)))

unfoldable pub rail_spine_name : ℕ → String
unfolding decimal2
rail_spine_name id = append "spine-s" (decimal2 id)

unfoldable pub rail_server_name : ℕ → ℕ → String
unfolding decimal2
rail_server_name su id = append "server-su" (append (decimal2 su) (append "-n" (decimal2 id)))

unfoldable pub vpc_name : ℕ → String
unfolding decimal
vpc_name id = append "vpc-" (decimal id)

abbrev pub rail_switch : String → SwitchRole → Table String → Switch
rail_switch name role annotations = record {
  name = name;
  role = role;
  description = "";
  group = none;
  vlan_namespaces = "default" ∷ [];
  profile = "";
  boot_mac = "";
  annotations = annotations;
}

-- `routeSumm`: the hints of the leafs, in order.
abbrev pub Hints : Type 0
Hints = Table String

abbrev add_hint : String → String → String
add_hint h text = if str_eq text "" then h else append h (append "," text)

-- The hints of one leaf, with commas between them.
unfoldable pub hints_of : Hints → String → String
hints_of [] leaf = ""
hints_of ((name, h) ∷ rest) leaf =
    let others = hints_of rest leaf in if str_eq name leaf then add_hint h others else others

unfoldable pub rail_namespaces : LabApi → Action String Lab (Unit {0})
unfolding add
rail_namespaces api =
    add api (Object.vlan_namespace starting_vlan 2999)
    >> add api (Object.ipv4_namespace "10.0.0.0/8")

-- The hint of a VPC for the leaf of a rail in a unit.
unfoldable pub rail_hint : ℕ → ℕ → ℕ → String × String
unfolding leaf_name_for vpc_name decimal
rail_hint vpc su rail = (
  leaf_name_for su (rail % leafs_per_scalable_unit),
  append (vpc_name vpc) (
      append "=10."
        (append (decimal (rails * vpc + rail)) (append "." (append (decimal su) ".0/24")))),
)

module _ (api : LabApi) (o : RailOptions) where
  -- The links of a spine to one leaf, as one connection.
  unfoldable pub rail_fabric : String → ℕ → ℕ → Unit {0} → Action String Lab (Unit {0})
  unfolding switch_link create_connection collect leaf_name_for
  rail_fabric spine su leaf _ =
      collect (count_from 0 fabric_links) (λ i. switch_link spine (leaf_name_for su leaf))
      >>= λ links. (create_connection api (ConnectionSpec.fabric links) >>= λ c. pure tt)

  unfoldable pub rail_spine : ℕ → Unit {0} → Action String Lab (Unit {0})
  unfolding create_switch rail_fabric count_with rail_spine_name
  rail_spine id _ =
      create_switch api o.base (rail_switch (rail_spine_name id) SwitchRole.spine_role [])
      >> count_with o.scalable_units 0
          (λ su u. count_with leafs_per_scalable_unit 0 (rail_fabric (rail_spine_name id) su) tt) tt

  unfoldable pub p2p_link : ℕ → ℕ → ℕ → ℕ → String
  unfolding decimal
  p2p_link vpc su server rail =
      if o.p2p
      then append "10." (
          append (decimal (rails * vpc + rail))
            (append "." (append (decimal su) (append "." (append (decimal (2 * server)) "/31")))))
      else ""

  -- One rail of a server: the connection to its leaf, and the attachment of the VPC. `server` counts
  -- the servers of the VPC in the unit.
  unfoldable pub rail_link : ℕ → ℕ → ℕ → ℕ → Unit {0} → Action String Lab (Unit {0})
  unfolding server_link create_connection_with_name create_vpc_attachment leaf_name_for
      rail_server_name vpc_name p2p_link decimal
  rail_link vpc su server rail _ =
      let name = rail_server_name su (server + vpc * o.servers_per_vpc_per_unit) in
      let leaf = leaf_name_for su (rail % leafs_per_scalable_unit) in
      let conn = append name (append "-r" (append (decimal rail) (append "-" leaf))) in
      server_link o.base name leaf >>= λ l.
      (create_connection_with_name api conn (ConnectionSpec.unbundled l) >>= λ c.
      create_vpc_attachment api (append (vpc_name vpc) (append "-" conn)) conn
        (append (vpc_name vpc) "/default") ((api.p2p_annotation, p2p_link vpc su server rail) ∷ []))

  unfoldable pub rail_server : ℕ → ℕ → ℕ → Unit {0} → Action String Lab (Unit {0})
  unfolding create_server rail_link count_with rail_server_name
  rail_server vpc su server _ =
      create_server api (rail_server_name su (server + vpc * o.servers_per_vpc_per_unit)) ""
      >> count_with rails 0 (rail_link vpc su server) tt

  -- A VPC in one unit: its servers, and the hints for the leafs.
  unfoldable pub rail_unit : ℕ → ℕ → Hints → Action String Lab Hints
  unfolding rail_server rail_hint count_with
  rail_unit vpc su hints =
      count_with o.servers_per_vpc_per_unit 0 (rail_server vpc su) tt
      >> count_with rails 0 (λ rail hs. pure (hs ++ rail_hint vpc su rail ∷ [])) hints

  unfoldable pub rail_vpc : ℕ → Hints → Action String Lab Hints
  unfolding create_vpc rail_unit count_with vpc_name decimal
  rail_vpc vpc hints =
      create_vpc api (vpc_name vpc) (append "10." (append (decimal (rails * vpc)) ".0.0/13"))
        ((starting_vlan + vpc) % 65536)
      >> count_with o.scalable_units 0 (rail_unit vpc) hints

  unfoldable pub rail_leaf : Hints → ℕ → ℕ → Unit {0} → Action String Lab (Unit {0})
  unfolding create_switch hints_of leaf_name_for
  rail_leaf hints su leaf _ = create_switch api o.base (
      rail_switch (leaf_name_for su leaf) SwitchRole.server_leaf_role
        ((api.route_summ_annotation, hints_of hints (leaf_name_for su leaf)) ∷ []))

  unfoldable pub rail_leafs : Hints → Action String Lab (Unit {0})
  unfolding rail_leaf count_with
  rail_leafs hints =
      count_with o.scalable_units 0
        (λ su u. count_with leafs_per_scalable_unit 0 (rail_leaf hints su) tt) tt

  unfoldable pub build_rail : Action String Lab (Unit {0})
  unfolding rail_namespaces reset_tracker rail_spine rail_vpc rail_leafs count_with
  build_rail =
      rail_namespaces api
      >> (reset_tracker
          >> (count_with rail_spines 0 rail_spine tt
              >> (count_with o.vpcs 0 rail_vpc [] >>= rail_leafs)))

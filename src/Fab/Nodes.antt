-- ===== src/Fab/Nodes.antt =====
-- `ControlNode.Validate` and `FabNode.Validate` of api/fabricator/v1beta1/controlnode_types.go and
-- fabnode_types.go.
use fabricator.Common.{
  ℕ, ◌==◌, length, String, str_eq, Bool, true, false, not, ◌&&◌, ◌||◌, Option, none, some, List, [],
  ◌∷◌, ◌++◌, Result, ok, err, ◌>>=◌, ◌>>◌, require, refuse, map_err, if◌then◌else◌,
}
use fabricator.Netip.{
  Addr, Prefix, PrefixText, ParseError, contains, parse_v4_prefix, parse_prefix, is_v4, ipv4_only,
}
use fabricator.Status.Types.{has_addr}
use fabricator.Fab.Types.{ControlConfig}
pub mod Laws
mod Tests

-- `meta.PrefixOrDHCP`
pub data PrefixOrDhcp : Type 0 where
  dhcp : PrefixOrDhcp
  static : PrefixText → PrefixOrDhcp

-- `PrefixOrDHCP.Parse`; `none` is DHCP.
unfoldable pub parse_prefix_or_dhcp : PrefixOrDhcp → Result ParseError (Option Prefix)
parse_prefix_or_dhcp dhcp = ok none
parse_prefix_or_dhcp (static t) = do
  p ← parse_prefix t
  require (is_v4 p.addr) ipv4_only
  ok (some p)

-- `roles` is empty for a control node, and `external` and its interface for the others.
pub record NodeSpec : Type 0 where
  pub name : String
  pub namespace : String
  pub roles : List String
  pub disk : String
  pub management_ip : PrefixText
  pub management_interface : String
  pub external_ip : PrefixOrDhcp
  pub external_interface : String
  pub dummy_ip : PrefixText

pub data NodeField : Type 0 where
  dummy_ip dummy_subnet management_ip management_subnet control_vip : NodeField

pub data NodeError : Type 0 where
  nil_config bad_namespace duplicate_roles unexpected_roles : NodeError
  unparsable : NodeField → ParseError → NodeError
  external_unparsable : ParseError → NodeError
  dummy_outside dummy_bits management_outside management_bits : NodeError
  dummy_in_use management_in_use : NodeError
  controls_failed nodes_failed : NodeError
  no_management_interface no_external_interface no_disk : NodeError

unfoldable pub field_of : NodeField → PrefixText → Result NodeError Prefix
field_of f t = map_err (unparsable f) (parse_v4_prefix t)

-- The two addresses of a node, in their subnets: the same block in both functions.
unfoldable pub check_addresses : ControlConfig → NodeSpec → Result NodeError (Prefix × Prefix)
unfolding field_of
check_addresses c n = do
  dummy ← field_of dummy_ip n.dummy_ip
  dummy_net ← field_of dummy_subnet c.dummy_subnet
  require (contains dummy_net dummy.addr) dummy_outside
  require (dummy.bits == 31) dummy_bits
  mgmt ← field_of management_ip n.management_ip
  mgmt_net ← field_of management_subnet c.management_subnet
  require (contains mgmt_net mgmt.addr) management_outside
  require (mgmt.bits == mgmt_net.bits) management_bits
  ok (dummy, mgmt)

-- `ControlNode.Validate`; the configuration is a pointer that may be nil.
unfoldable pub validate_control :
    Option ControlConfig → Bool → NodeSpec → Result NodeError (Unit {0})
validate_control none allow n = err nil_config
validate_control (some c) allow n = do
  require (str_eq n.namespace "fab") bad_namespace
  if allow then ok tt else (do a ← check_addresses c n; ok tt)
  ext ← map_err external_unparsable (parse_prefix_or_dhcp n.external_ip)
  refuse (str_eq n.management_interface "") no_management_interface
  refuse (str_eq n.external_interface "") no_external_interface
  refuse (str_eq n.disk "") no_disk

-- An address that does not parse takes nothing.
abbrev pub parsed_addr : PrefixText → List Addr → List Addr
parsed_addr t used = elim (parse_v4_prefix t) [ ok p ↦ p.addr ∷ used | err _ ↦ used ]

-- The addresses of one kind that nodes have, without those of the node called `skip`.
unfoldable pub taken :
    (NodeSpec → PrefixText) → Option String → List NodeSpec → List Addr → List Addr
taken get skip [] used = used
taken get skip (n ∷ nodes) used =
    let rest = taken get skip nodes (parsed_addr (get n) used) in
    let without = taken get skip nodes used in
    elim skip [ none ↦ rest | some s ↦ if str_eq n.name s then without else rest ]

-- What the Kubernetes client lists; `none` is an error. Nodes of a kind that the API does not know
-- are listed as none at all.
pub record NodeLists : Type 0 where
  pub controls : Option (List NodeSpec)
  pub nodes : Option (List NodeSpec)

unfoldable pub listed_nodes : NodeError → Option (List NodeSpec) → Result NodeError (List NodeSpec)
listed_nodes e none = err e
listed_nodes e (some ns) = ok ns

-- No other node has the addresses.
unfoldable pub check_unused :
    ControlConfig → NodeLists → NodeSpec → Prefix × Prefix → Result NodeError (Unit {0})
unfolding taken listed_nodes
check_unused c lists n addrs = do
  vip ← field_of control_vip c.vip
  controls ← listed_nodes controls_failed lists.controls
  nodes ← listed_nodes nodes_failed lists.nodes
  let dummies =
      taken (λ o. o.dummy_ip) (some n.name) nodes (taken (λ o. o.dummy_ip) none controls [])
  let mgmts =
      taken (λ o. o.management_ip) (some n.name) nodes
        (taken (λ o. o.management_ip) none controls (vip.addr ∷ []))
  refuse (has_addr addrs.0.addr dummies) dummy_in_use
  refuse (has_addr addrs.1.addr mgmts) management_in_use

-- What stands outside: `lo.Uniq` and `lo.Every` of github.com/samber/lo.
pub record RolesApi : Type 0 where
  pub uniq : List String → List String
  pub every : List String → List String → Bool

unfoldable pub check_hydrated :
    ControlConfig → Option NodeLists → NodeSpec → Result NodeError (Unit {0})
check_hydrated c kube n = do
  a ← check_addresses c n
  elim kube [ none ↦ ok tt | some lists ↦ check_unused c lists n a ]

-- `FabNode.Validate`; the client may be nil.
unfoldable pub validate_node :
    RolesApi
    → Option ControlConfig
    → Bool
    → Option NodeLists
    → NodeSpec
    → Result NodeError (Unit {0})
validate_node api none allow kube n = err nil_config
validate_node api (some c) allow kube n = do
  require (str_eq n.namespace "fab") bad_namespace
  require (length (api.uniq n.roles) == length n.roles) duplicate_roles
  require (api.every ("gateway" ∷ []) n.roles) unexpected_roles
  if allow then ok tt else check_hydrated c kube n
  refuse (str_eq n.management_interface "") no_management_interface
  refuse (str_eq n.disk "") no_disk

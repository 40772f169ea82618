-- ===== src/Fab/Validate.antt =====
-- `Validate` of api/fabricator/v1beta1/fabricator_types.go, a function for each group of its checks.
use fabricator.Common.{
  ℕ, ◌+◌, ◌==◌, ltb, leb, String, str_eq, Bool, true, false, not, ◌&&◌, ◌||◌, Option, none, some,
  List, [], ◌∷◌, ◌++◌, Result, ok, err, ◌>>=◌, ◌>>◌, require, refuse, map_err, if◌then◌else◌,
}
use fabricator.Netip.{
  Addr, Prefix, PrefixText, AddrText, ParseError, contains, overlaps, parse_v4_prefix,
  parse_v4_addr,
}
use fabricator.Strings.{contains_string, split, parse_uint}
use fabricator.Fab.Types.{
  Table, VlanRange, ControlConfig, RegistryConfig, FabricConfig, GatewayConfig, FabConfig,
  Fabricator,
}
use fabricator.Fab.Default.{default}
use fabricator.Fab.Users.{
  UserError, is_empty, check_control_user, check_switch_users, check_known_users,
  known_switch_users,
}
pub mod Laws
pub mod Accepted
pub mod Communities

-- What stands outside: the struct validator, and `fmeta` of go.githedgehog.com/fabric.
pub record FabricApi : Type 0 where
  pub struct_ok : Fabricator → Bool
  pub is_fabric_mode : String → Bool
  pub is_spine_leaf : String → Bool
  -- `fmeta.CheckVLANRangesOverlap(...) == nil`
  pub vlans_apart : List VlanRange → Bool
  pub agent_user : String
  pub alloy_user : String

pub data Field : Type 0 where
  management_subnet management_dhcp_start management_dhcp_end control_vip : Field
  kube_service_subnet kube_cluster_subnet kube_cluster_dns dummy_subnet : Field
  protocol_subnet vtep_subnet fabric_subnet mclag_session_subnet vpc_workaround_subnet : Field

-- One constructor for each error.
pub data ValidateError : Type 0 where
  bad_name bad_namespace struct_invalid : ValidateError
  bad_registry_mode airgap_upstream no_upstream no_repo : ValidateError
  unparsable : Field → ParseError → ValidateError
  dhcp_start_outside dhcp_end_outside vip_outside vip_bits : ValidateError
  dns_outside cluster_service_overlap management_service_overlap : ValidateError
  management_cluster_overlap : ValidateError
  of_user : UserError → ValidateError
  bad_mode no_spine_asn spine_in_leaf_range no_leaf_start no_leaf_end leaf_order : ValidateError
  no_gateway_asn gateway_is_spine gateway_in_leaf_range : ValidateError
  no_vpc_community no_irb_vlans no_workaround_vlans no_th5_vlans vlans_overlap : ValidateError
  no_mac_base no_esi_prefix : ValidateError
  subnets_overlap : Prefix → Prefix → ValidateError
  bad_defaults : ValidateError
  bad_priority bad_community_format bad_community : String → ValidateError

unfoldable pub prefix_of : Field → PrefixText → Result ValidateError Prefix
prefix_of f t = map_err (unparsable f) (parse_v4_prefix t)

unfoldable pub addr_of : Field → AddrText → Result ValidateError Addr
addr_of f t = map_err (unparsable f) (parse_v4_addr t)

abbrev is_airgap : RegistryConfig → Bool
is_airgap r = str_eq r.mode "airgap"

abbrev is_none {ℓ} : {A : Type ℓ} → Option A → Bool
is_none none = true
is_none (some _) = false

check_registry : RegistryConfig → Result ValidateError (Unit {0})
check_registry r = do
  require (is_airgap r || str_eq r.mode "upstream") bad_registry_mode
  refuse (is_airgap r && not (is_none r.upstream)) airgap_upstream
  if is_airgap r
      then ok tt
      else elim r.upstream [ none ↦ err no_upstream | some repo ↦ refuse (str_eq repo "") no_repo ]

-- The management subnet with its DHCP range and the control VIP.
unfoldable pub check_management : ControlConfig → FabricConfig → Result ValidateError Prefix
unfolding prefix_of addr_of
check_management c f = do
  mgmt ← prefix_of management_subnet c.management_subnet
  start ← addr_of management_dhcp_start f.management_dhcp_start
  require (contains mgmt start) dhcp_start_outside
  stop ← addr_of management_dhcp_end f.management_dhcp_end
  require (contains mgmt stop) dhcp_end_outside
  vip ← prefix_of control_vip c.vip
  require (contains mgmt vip.addr) vip_outside
  require (vip.bits == 32) vip_bits
  ok mgmt

pub check_kube : ControlConfig → Prefix → Result ValidateError (Unit {0})
unfolding prefix_of addr_of
check_kube c mgmt = do
  service ← prefix_of kube_service_subnet c.kube_service_subnet
  cluster ← prefix_of kube_cluster_subnet c.kube_cluster_subnet
  dns ← addr_of kube_cluster_dns c.kube_cluster_dns
  require (contains service dns) dns_outside
  refuse (overlaps cluster service) cluster_service_overlap
  refuse (overlaps mgmt service) management_service_overlap
  refuse (overlaps mgmt cluster) management_cluster_overlap

abbrev pub in_leaf_range : FabricConfig → ℕ → Bool
in_leaf_range f asn = leb f.leaf_asn_start asn && leb asn f.leaf_asn_end

unfoldable pub check_asns : FabricConfig → GatewayConfig → Result ValidateError (Unit {0})
check_asns f g = do
  refuse (f.spine_asn == 0) no_spine_asn
  refuse (in_leaf_range f f.spine_asn) spine_in_leaf_range
  refuse (f.leaf_asn_start == 0) no_leaf_start
  refuse (f.leaf_asn_end == 0) no_leaf_end
  refuse (leb f.leaf_asn_end f.leaf_asn_start) leaf_order
  refuse (g.asn == 0) no_gateway_asn
  refuse (g.asn == f.spine_asn) gateway_is_spine
  refuse (in_leaf_range f g.asn) gateway_in_leaf_range

-- `some.Overlaps(other)` for the other prefixes; `i` and `j` are the indexes.
unfoldable pub check_apart : ℕ → Prefix → ℕ → List Prefix → Result ValidateError (Unit {0})
check_apart i p j [] = ok tt
check_apart i p j (q ∷ qs) =
    let rest = check_apart i p (j + 1) qs in
    if i == j then rest else (do refuse (overlaps p q) (subnets_overlap p q); rest)

unfoldable pub check_all_apart : List Prefix → ℕ → List Prefix → Result ValidateError (Unit {0})
check_all_apart all i [] = ok tt
check_all_apart all i (p ∷ ps) = do check_apart i p 0 all; check_all_apart all (i + 1) ps

-- A community is two numbers of 16 bits.
check_parts : String → List String → Result ValidateError (Unit {0})
check_parts comm (a ∷ b ∷ []) = do
  refuse (is_none (parse_uint a 16)) (bad_community comm)
  refuse (is_none (parse_uint b 16)) (bad_community comm)
check_parts comm _ = err (bad_community_format comm)

-- The code of `:` is 58.
unfoldable pub check_communities : Table String → Result ValidateError (Unit {0})
unfolding check_parts
check_communities [] = ok tt
check_communities ((prio, comm) ∷ rest) = do
  refuse (is_none (parse_uint prio 32)) (bad_priority prio)
  check_parts comm (split 58 comm)
  check_communities rest

-- The five subnets of the fabric.
pub fabric_subnets :
    FabricConfig → Result ValidateError (Prefix × Prefix × Prefix × Prefix × Prefix)
unfolding prefix_of
fabric_subnets f = do
  protocol ← prefix_of protocol_subnet f.protocol_subnet
  vtep ← prefix_of vtep_subnet f.vtep_subnet
  fabric ← prefix_of fabric_subnet f.fabric_subnet
  mclag ← prefix_of mclag_session_subnet f.mclag_session_subnet
  vpc ← prefix_of vpc_workaround_subnet f.vpc_workaround_subnet
  ok (protocol, vtep, fabric, mclag, vpc)

module _ (api : FabricApi) where
  pub check_mode : FabricConfig → GatewayConfig → Result ValidateError (Unit {0})
  unfolding check_asns
  check_mode f g = do
    require (api.is_fabric_mode f.mode) bad_mode
    if api.is_spine_leaf f.mode then check_asns f g else ok tt

  pub check_vlans : FabricConfig → Result ValidateError (Unit {0})
  check_vlans f = do
    refuse (str_eq f.base_vpc_community "") no_vpc_community
    refuse (is_empty f.vpc_irb_vlans) no_irb_vlans
    refuse (is_empty f.vpc_workaround_vlans) no_workaround_vlans
    refuse (is_empty f.th5_workaround_vlans) no_th5_vlans
    require (api.vlans_apart (f.th5_workaround_vlans ++ f.vpc_irb_vlans)) vlans_overlap
    refuse (str_eq f.eslag_mac_base "") no_mac_base
    refuse (str_eq f.eslag_esi_prefix "") no_esi_prefix

  -- The checks of a configuration that was defaulted.
  unfoldable pub check_config : FabConfig → Result ValidateError (Unit {0})
  unfolding check_registry check_kube check_mode check_vlans fabric_subnets
  check_config c = do
    check_registry c.registry
    mgmt ← check_management c.control c.fabric
    check_kube c.control mgmt
    dummy ← prefix_of dummy_subnet c.control.dummy_subnet
    map_err of_user (check_control_user c.control.no_pass_auth c.control.default_user)
    map_err of_user (check_switch_users c.fabric.default_switch_users)
    check_mode c.fabric c.gateway
    s ← fabric_subnets c.fabric
    check_vlans c.fabric
    let reserved = mgmt ∷ s.0 ∷ s.1 ∷ s.2 ∷ dummy ∷ s.3 ∷ s.4 ∷ []
    check_all_apart reserved 0 reserved
    require (contains_string ("" ∷ "none" ∷ "minimal" ∷ []) c.observability.defaults) bad_defaults
    check_communities c.gateway.communities
    map_err of_user (
        check_known_users (known_switch_users api.agent_user api.alloy_user)
          c.fabric.default_switch_users)

  -- What follows `f.Default()`.
  unfoldable pub check_defaulted : Fabricator → Result ValidateError Fabricator
  unfolding check_config
  check_defaulted f = do
    require (str_eq f.name "default") bad_name
    require (str_eq f.namespace "fab") bad_namespace
    require (api.struct_ok f) struct_invalid
    check_config f.config
    ok f

  -- `Validate`, which leaves the object defaulted.
  unfoldable pub validate : Fabricator → Result ValidateError Fabricator
  unfolding check_defaulted
  validate f = check_defaulted (default f)

-- ===== src/Wiring.antt =====
-- The objects that hydration reads and writes, and what stands outside of the repository: the
-- wiring API of go.githedgehog.com/fabric and the Kubernetes client.
use fabricator.Common.{ℕ, String, Bool, Option, List}
use fabricator.Netip.{Addr, PrefixText, AddrText}

-- The wiring API's methods on roles, redundancy types and port names, taken as a parameter.
pub record WiringApi : Type 0 where
  -- `slices.Contains(wiringapi.SwitchRoles, role)`
  pub is_known : String → Bool
  pub is_spine : String → Bool
  pub is_leaf : String → Bool
  -- `== fmeta.RedundancyTypeMCLAG`
  pub is_mclag : String → Bool
  pub device_name : String → String
  pub local_port_name : String → String

-- fabapi.ControlNode and fabapi.FabNode: the name and the two addresses in use.
pub record Node : Type 0 where
  pub name : String
  pub management_ip : PrefixText
  pub dummy_ip : PrefixText

pub record Switch : Type 0 where
  pub name : String
  pub role : String
  pub ip : PrefixText
  pub protocol_ip : PrefixText
  pub asn : ℕ
  pub vtep_ip : PrefixText
  pub redundancy_type : String
  pub redundancy_group : String

-- One end of a link: its port and its address.
pub record LinkEnd : Type 0 where
  pub port : String
  pub ip : PrefixText

-- `first` and `second` are Spine and Leaf, Leaf1 and Leaf2, or Switch and Gateway.
pub record Link : Type 0 where
  pub first : LinkEnd
  pub second : LinkEnd

-- The connection kinds that carry addresses; the pointers of the others are not read.
pub record Connection : Type 0 where
  pub name : String
  pub fabric : Option (List Link)
  pub mesh : Option (List Link)
  pub gateway : Option (List Link)

pub record GatewayInterface : Type 0 where
  pub ips : List PrefixText
  pub mtu : ℕ

-- `ip` is kept as the address whose text the field holds.
pub record GatewayBgpNeighbor : Type 0 where
  pub source : String
  pub ip : Addr
  pub asn : ℕ

-- `vtep_mac` is the final octet of "CA:FE:BA:BE:01:xx".
pub record Gateway : Type 0 where
  pub name : String
  pub asn : ℕ
  pub protocol_ip : PrefixText
  pub vtep_ip : PrefixText
  pub vtep_mac : ℕ
  pub vtep_mtu : ℕ
  pub interfaces : List (String × GatewayInterface)
  pub neighbors : List GatewayBgpNeighbor

-- The part of the Fabricator's spec that hydration reads, with the nodes of the project.
pub record Config : Type 0 where
  pub management_subnet : PrefixText
  pub control_vip : PrefixText
  pub management_dhcp_start : AddrText
  pub management_dhcp_end : AddrText
  pub dummy_subnet : PrefixText
  pub vtep_subnet : PrefixText
  pub protocol_subnet : PrefixText
  pub fabric_subnet : PrefixText
  pub spine_asn : ℕ
  pub leaf_asn_start : ℕ
  pub leaf_asn_end : ℕ
  pub gateway_asn : ℕ
  pub controls : List Node
  pub nodes : List Node

-- The Kubernetes client over the objects of the wiring; `none` is an error of the API.
pub record Kube : Type 1 where
  pub Store : Type 0
  pub list_switches : Store → Option (List Switch)
  pub list_connections : Store → Option (List Connection)
  pub list_gateways : Store → Option (List Gateway)
  pub get_gateway : Store → String → Option Gateway
  pub update_switch : Switch → Store → Option Store
  pub update_connection : Connection → Store → Option Store
  pub update_gateway : Gateway → Store → Option Store

-- ===== src/Vlab.antt =====
-- What the builders of pkg/hhfab/vlabbuilder.go make: the objects of a virtual lab, and the state
-- of the builder.
use fabricator.Common.{ℕ, String, Bool, Option, List}
use fabricator.Fab.Types.{Table}
pub mod Text
pub mod Ports
pub mod Create
pub mod Options
pub mod Loops
pub mod Servers
pub mod Leafs
pub mod Fabric
pub mod Externals
pub mod Build
pub mod Used
pub mod Neat
pub mod TidyLeafs
pub mod Bare
pub mod TidyBuild
pub mod Accepted
pub mod Rail
pub mod TidyRail
mod Tests

-- A device by the kind of its name: the names of switches and of servers begin differently.
pub data Device : Type 0 where
  switch server gateway_node : String → Device

-- `<device>/<base><slot>`
pub record Port : Type 0 where
  pub device : Device
  pub base : String
  pub slot : ℕ

pub record ServerLink : Type 0 where
  pub server_port : Port
  pub switch_port : Port

-- A link between two switches, or of a switch to a gateway.
pub record SwitchLink : Type 0 where
  pub first : Port
  pub second : Port

pub data ConnectionSpec : Type 0 where
  eslag : List ServerLink → ConnectionSpec
  unbundled : ServerLink → ConnectionSpec
  bundled : List ServerLink → ConnectionSpec
  fabric mesh gateway_links : List SwitchLink → ConnectionSpec
  external_link : Port → ConnectionSpec

pub record Connection : Type 0 where
  pub name : String
  pub spec : ConnectionSpec

pub data SwitchRole : Type 0 where
  spine_role server_leaf_role : SwitchRole

pub record Switch : Type 0 where
  pub name : String
  pub role : SwitchRole
  pub description : String
  -- The group, with redundancy of type ESLAG.
  pub group : Option String
  pub vlan_namespaces : List String
  pub profile : String
  pub boot_mac : String
  pub annotations : Table String

-- `static`: the prefixes of a static external; else the communities of a BGP external.
pub data ExternalSpec : Type 0 where
  static : List String → ExternalSpec
  bgp : String → String → ExternalSpec

pub record External : Type 0 where
  pub name : String
  pub ipv4_namespace : String
  pub spec : ExternalSpec
  pub annotations : Table String

pub data AttachmentSpec : Type 0 where
  -- The remote address, the VLAN, whether it is a proxy, and the address.
  static_attachment : String → ℕ → Bool → String → AttachmentSpec
  -- The VLAN and the address of the switch, the ASN and the address of the neighbor.
  bgp_attachment : ℕ → String → ℕ → String → AttachmentSpec

pub record ExternalAttachment : Type 0 where
  pub name : String
  pub external : String
  pub connection : String
  pub spec : AttachmentSpec

pub record Gateway : Type 0 where
  pub name : String
  pub group : String
  -- The interfaces, with their PCI addresses.
  pub interfaces : Table String
  pub workers : ℕ
  pub log_level : String
  pub log_tags : Table String

pub data Object : Type 0 where
  vlan_namespace : ℕ → ℕ → Object
  ipv4_namespace : String → Object
  gateway_group : String → Object
  gateway : Gateway → Object
  switch_group : String → Object
  a_switch : Switch → Object
  -- The name and the description.
  a_server : String → String → Object
  connection : Connection → Object
  external : External → Object
  external_attachment : ExternalAttachment → Object
  -- The name, the subnet and the VLAN.
  vpc : String → String → ℕ → Object
  -- The name, the connection, the subnet and the annotations.
  vpc_attachment : String → String → String → Table String → Object

-- `VLABBuilderBase`
pub record BuilderBase : Type 0 where
  pub default_switch_profile : String
  pub switch_profile_overrides : Table String
  pub server_port_base : String

-- `iface_tracker`: the last entry of a device counts. `too_many`: the switches for which the error
-- about too many interfaces was logged. `objects`: what the loader holds, the newest first.
pub record Lab : Type 0 where
  pub iface_tracker : List (Device × ℕ)
  pub switch_id : ℕ
  pub too_many : List String
  pub objects : List Object

-- What the builders take from other packages: the fabric's lists of names, the name of a
-- connection, and whether the loader refuses an object.
pub record LabApi : Type 0 where
  pub is_spine_leaf : String → Bool
  pub virtual_switch_profiles : List String
  pub gateway_log_levels : List String
  pub default_gateway_group : String
  pub p2p_annotation : String
  pub route_summ_annotation : String
  pub generate_name : ConnectionSpec → String
  pub refuses : List Object → Object → Option String

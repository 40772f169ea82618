-- ===== src/Status/Types.antt =====
-- The hydration status, its errors, and what the checks of pkg/hhfab/hydrate.go have seen so far.
use fabricator.Common.{ℕ, String, Bool, false, ◌||◌, ◌==◌, List, [], ◌∷◌}
use fabricator.Netip.{Addr, addr_eq, ParseError}
use fabricator.Wiring.{Switch}

pub data HydrationStatus : Type 0 where
  none partial full : HydrationStatus

-- Why one address was refused.
pub data Fault : Type 0 where
  unparsable : ParseError → Fault
  wrong_bits outside_subnet past_dhcp_start in_use : Fault

pub data ConfigField : Type 0 where
  management_subnet control_vip management_dhcp_start management_dhcp_end : ConfigField
  dummy_subnet vtep_subnet protocol_subnet fabric_subnet : ConfigField

pub data Kind : Type 0 where
  switches connections gateways : Kind

-- One constructor for each error that is returned, with the object that it names.
pub data HydrationError : Type 0 where
  bad_config : ConfigField → ParseError → HydrationError
  dhcp_start_outside dhcp_end_outside dhcp_order dummy_too_small : HydrationError
  node_management node_dummy : String → Fault → HydrationError
  list_failed : Kind → HydrationError
  role_unset role_invalid : String → HydrationError
  switch_ip switch_protocol_ip switch_vtep_ip : String → Fault → HydrationError
  leaf_asn_range leaf_asn_in_use spine_asn spine_vtep : String → HydrationError
  mclag_asn mclag_vtep : String → String → HydrationError
  link_first link_second : String → ℕ → Fault → HydrationError
  link_subnets : String → ℕ → HydrationError
  gateway_asn : String → HydrationError
  gateway_protocol_ip gateway_vtep_ip : String → Fault → HydrationError
  bad_total : HydrationError

-- The local variables of `getHydration`: the counters and the maps. A `map[netip.Addr]bool` is the
-- list of its keys.
pub record Seen : Type 0 where
  pub total : ℕ
  pub missing : ℕ
  pub mgmt_ips : List Addr
  pub dummy_ips : List Addr
  pub vtep_ips : List Addr
  pub protocol_ips : List Addr
  pub fabric_ips : List Addr
  pub leaf_asns : List ℕ
  pub mclag_peer : List (String × Switch)

-- `_, exist := ips[a]`
abbrev pub has_addr : Addr → List Addr → Bool
has_addr a [] = false
has_addr a (b ∷ bs) = addr_eq a b || has_addr a bs

abbrev pub has_asn : ℕ → List ℕ → Bool
has_asn n [] = false
has_asn n (m ∷ ms) = (n == m) || has_asn n ms

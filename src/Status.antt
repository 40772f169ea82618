-- ===== src/Status.antt =====
-- `getHydration` of pkg/hhfab/hydrate.go: how far the wiring is hydrated, and whether the addresses
-- and ASNs that it has are usable.
pub mod Types
pub mod Laws
pub mod Claims
pub mod Pools
pub mod Pushes
pub mod Taken
pub mod Nodes
pub mod Switches
pub mod Links
pub mod Gateways
use fabricator.Common.{
  ℕ, ◌==◌, ltb, Option, none, some, List, [], ◌∷◌, Bool, true, false, Result, ok, err, ◌>>=◌, ◌>>◌,
  require, refuse, map_err, if◌then◌else◌, ◌&&◌,
}
use fabricator.Netip.{
  Addr, Prefix, PrefixText, AddrText, addr_less, contains, parse_v4_prefix, parse_v4_addr,
}
use fabricator.Wiring.{WiringApi, Config, Kube}
use Types.{
  HydrationStatus, HydrationError, Seen, ConfigField, Kind, bad_config, dhcp_start_outside,
  dhcp_end_outside, dhcp_order, dummy_too_small, list_failed, bad_total,
}
use Nodes.{process_nodes}
use Switches.{check_switches}
use Links.{check_connections}
use Gateways.{check_gateways}

-- `c.Fab.Spec.Config....Parse()`
unfoldable pub subnet_of : ConfigField → PrefixText → Result HydrationError Prefix
subnet_of f t = map_err (bad_config f) (parse_v4_prefix t)

unfoldable pub addr_of : ConfigField → AddrText → Result HydrationError Addr
addr_of f t = map_err (bad_config f) (parse_v4_addr t)

-- The list of a kind of object from the API.
unfoldable pub listed {ℓ} : {A : Type ℓ} → Kind → Option (List A) → Result HydrationError (List A)
listed k none = err (list_failed k)
listed k (some xs) = ok xs

-- What the management part of the configuration gives.
pub record Management : Type 0 where
  pub subnet : Prefix
  pub vip : Prefix
  pub dhcp_start : Addr
  pub dummy : Prefix

unfoldable pub read_management : Config → Result HydrationError Management
unfolding subnet_of addr_of
read_management c = do
  mgmt ← subnet_of ConfigField.management_subnet c.management_subnet
  vip ← subnet_of ConfigField.control_vip c.control_vip
  start ← addr_of ConfigField.management_dhcp_start c.management_dhcp_start
  require (contains mgmt start) dhcp_start_outside
  stop ← addr_of ConfigField.management_dhcp_end c.management_dhcp_end
  require (contains mgmt stop) dhcp_end_outside
  require (addr_less start stop) dhcp_order
  dummy ← subnet_of ConfigField.dummy_subnet c.dummy_subnet
  refuse (ltb 24 dummy.bits) dummy_too_small
  ok (record { subnet = mgmt; vip = vip; dhcp_start = start; dummy = dummy })

-- Before the first node: only the control VIP is taken.
unfoldable pub start_seen : Addr → Seen
start_seen vip = record {
  total = 0;
  missing = 0;
  mgmt_ips = vip ∷ [];
  dummy_ips = [];
  vtep_ips = [];
  protocol_ips = [];
  fabric_ips = [];
  leaf_asns = [];
  mclag_peer = [];
}

-- The `switch` at the end.
unfoldable pub status_of : ℕ → ℕ → Result HydrationError HydrationStatus
status_of total missing =
    if missing == total
    then ok HydrationStatus.none
    else if ltb 0 total && missing == 0
    then ok HydrationStatus.full
    else if ltb 0 total && ltb 0 missing
    then ok HydrationStatus.partial
    else err bad_total

module _ (api : WiringApi) (kube : Kube) (c : Config) where
  -- All the loops: what has been seen at the end.
  unfoldable pub survey : kube.Store → Result HydrationError Seen
  unfolding read_management start_seen addr_of
  survey st = do
    m ← read_management c
    s₁ ← process_nodes m.subnet m.dhcp_start m.dummy c.controls (start_seen m.vip.addr)
    s₂ ← process_nodes m.subnet m.dhcp_start m.dummy c.nodes s₁
    vtep ← subnet_of ConfigField.vtep_subnet c.vtep_subnet
    protocol ← subnet_of ConfigField.protocol_subnet c.protocol_subnet
    sws ← listed Kind.switches (kube.list_switches st)
    s₃ ← check_switches api c m.subnet m.dhcp_start vtep protocol sws s₂
    fabric ← subnet_of ConfigField.fabric_subnet c.fabric_subnet
    conns ← listed Kind.connections (kube.list_connections st)
    s₄ ← check_connections fabric conns s₃
    gws ← listed Kind.gateways (kube.list_gateways st)
    check_gateways c vtep protocol gws s₄

  unfoldable pub get_hydration : kube.Store → Result HydrationError HydrationStatus
  get_hydration st = do s ← survey st; status_of s.total s.missing

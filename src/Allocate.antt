-- ===== src/Allocate.antt =====
-- `hydrate` of pkg/hhfab/hydrate.go: every node, switch, link and gateway is given its addresses and
-- ASN, in order of names, from the start of each subnet.
pub mod Types
pub mod Nodes
pub mod Switches
pub mod Links
pub mod Gateways
mod Tests
use fabricator.Common.{
  ℕ, ◌+◌, ltb, Option, none, some, List, [], ◌∷◌, Bool, true, false, Result, ok, err, ◌>>=◌, ◌>>◌,
  require, refuse, map_err, length, ◌^◌,
}
use fabricator.Netip.{Addr, Prefix, addr_eq, next, masked}
use fabricator.Wiring.{WiringApi, Config, Kube, Switch}
use fabricator.Status.{subnet_of, listed}
use fabricator.Status.Types.{HydrationError, ConfigField, Kind}
use Types.{AllocateError, of_config, vip_not_first, update_failed, too_many_gateways, lifted}
use Nodes.{assign_nodes, sort_nodes}
use Switches.{SwitchCursors, assign_switches, sort_switches}
use Links.{assign_connections, sort_connections}
use Gateways.{assign_gateways, sort_gateways, max_vtep_macs}

-- `for i := 0; i < 4; i++ { nextMgmtIP = nextMgmtIP.Next() }`
abbrev reserve : Addr → Addr
reserve a = next (next (next (next a)))

module _ (api : WiringApi) (kube : Kube) where
  update_switches : List Switch → kube.Store → Result AllocateError kube.Store
  update_switches [] st = ok st
  update_switches (sw ∷ sws) st = do
    st' ← lifted (update_failed Kind.switches sw.name) (kube.update_switch sw st)
    update_switches sws st'

  -- The new configuration, with the nodes' addresses, and the new store.
  unfoldable pub hydrate : Config → kube.Store → Result AllocateError (Config × kube.Store)
  unfolding update_switches
  hydrate c st = do
    mgmt ← map_err of_config (subnet_of ConfigField.management_subnet c.management_subnet)
    vip ← map_err of_config (subnet_of ConfigField.control_vip c.control_vip)
    require (addr_eq vip.addr (next (masked mgmt).addr)) vip_not_first
    dummy ← map_err of_config (subnet_of ConfigField.dummy_subnet c.dummy_subnet)
    let controls =
        assign_nodes mgmt.bits (sort_nodes c.controls) (reserve vip.addr) (masked dummy).addr
    let nodes = assign_nodes mgmt.bits c.nodes controls.1 controls.2
    let c' = record c { controls = controls.0; nodes = nodes.0 }
    vtep ← map_err of_config (subnet_of ConfigField.vtep_subnet c.vtep_subnet)
    protocol ← map_err of_config (subnet_of ConfigField.protocol_subnet c.protocol_subnet)
    listed_switches ← map_err of_config (listed Kind.switches (kube.list_switches st))
    sws ← assign_switches api c mgmt.bits (sort_switches api listed_switches) (record {
      mgmt = nodes.1;
      protocol = (masked protocol).addr;
      vtep = (masked vtep).addr;
      leaf_asn = c.leaf_asn_start;
      peers = [];
    })
    st₁ ← update_switches sws.0 st
    fabric ← map_err of_config (subnet_of ConfigField.fabric_subnet c.fabric_subnet)
    conns ← map_err of_config (listed Kind.connections (kube.list_connections st₁))
    st₂ ← assign_connections api kube sws.0 (sort_connections conns) (masked fabric).addr st₁
    gws ← map_err of_config (listed Kind.gateways (kube.list_gateways st₂))
    refuse (ltb max_vtep_macs (length gws)) too_many_gateways
    st₃ ← assign_gateways kube c.gateway_asn (sort_gateways gws) sws.1.protocol sws.1.vtep 1 st₂
    ok (c', st₃)

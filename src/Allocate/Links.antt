-- ===== src/Allocate/Links.antt =====
-- The connections in `hydrate` of pkg/hhfab/hydrate.go.
pub mod Laws
use fabricator.Common.{
  ℕ, ◌+◌, ◌==◌, String, str_eq, str_compare, Option, none, some, List, [], ◌∷◌, ◌++◌, Result, ok,
  err, ◌>>=◌, ◌>>◌, refuse, map_err, if◌then◌else◌,
}
use fabricator.Netip.{Addr, next, PrefixText, parse_prefix}
use fabricator.Wiring.{
  WiringApi, Kube, Switch, Link, Connection, Gateway, GatewayInterface, GatewayBgpNeighbor,
}
use fabricator.Status.Types.{Kind}
use fabricator.Allocate.Types.{
  AllocateError, lifted, get_failed, update_failed, no_interface, bad_switch_ip, no_switch_asn,
  prefix_text, sort_func,
}

unfoldable pub sort_connections : List Connection → List Connection
unfolding sort_func
sort_connections = sort_func (λ a b. str_compare a.name b.name)

-- The two ends take the next two addresses.
pub assign_link : Addr → Link → Link
assign_link a link = record {
  first = record link.first { ip = prefix_text a 31 };
  second = record link.second { ip = prefix_text (next a) 31 };
}

-- A fabric or mesh connection: its links, and the next free address.
pub assign_links : Addr → List Link → List Link × Addr
assign_links a [] = ([], a)
assign_links a (link ∷ links) =
    let rest = assign_links (next (next a)) links in (assign_link a link ∷ rest.0, rest.1)

-- `fabric.MTU` of pkg/fab/comp/fabric/fabric.go
abbrev fabric_mtu : ℕ
fabric_mtu = 9100

find_interface : String → List (String × GatewayInterface) → Option GatewayInterface
find_interface port [] = none
find_interface port ((p, i) ∷ rest) = if str_eq p port then some i else find_interface port rest

set_interface :
    String → GatewayInterface → List (String × GatewayInterface) → List (String × GatewayInterface)
set_interface port new [] = (port, new) ∷ []
set_interface port new ((p, i) ∷ rest) =
    if str_eq p port then (port, new) ∷ rest else (p, i) ∷ set_interface port new rest

-- The ASN of the first switch of that name; 0 if there is none.
switch_asn : String → List Switch → ℕ
switch_asn name [] = 0
switch_asn name (sw ∷ sws) = if str_eq sw.name name then sw.asn else switch_asn name sws

module _ (api : WiringApi) (kube : Kube) (sws : List Switch) where
  -- The gateway of a link: its interface has the link's address, and the switch is its neighbour.
  connect_gateway : ℕ → Link → Gateway → Result AllocateError Gateway
  connect_gateway idx link gw = do
    let port = api.local_port_name link.second.port
    let gw_name = api.device_name link.second.port
    iface ← lifted (no_interface gw_name port) (find_interface port gw.interfaces)
    ip ← map_err (λ _. bad_switch_ip gw_name idx) (parse_prefix link.first.ip)
    let asn = switch_asn (api.device_name link.first.port) sws
    refuse (asn == 0) (no_switch_asn (api.device_name link.first.port))
    ok (record gw {
      interfaces =
          set_interface port (record iface { ips = link.second.ip ∷ []; mtu = fabric_mtu })
            gw.interfaces;
      neighbors = gw.neighbors ++ (record { source = port; ip = ip.addr; asn = asn }) ∷ [];
    })

  pub assign_gateway_links :
      ℕ → Addr → List Link → kube.Store → Result AllocateError (List Link × Addr × kube.Store)
  assign_gateway_links idx a [] st = ok ([], a, st)
  assign_gateway_links idx a (link ∷ links) st = do
    let link' = assign_link a link
    let gw_name = api.device_name link.second.port
    gw ← lifted (get_failed gw_name) (kube.get_gateway st gw_name)
    gw' ← connect_gateway idx link' gw
    st' ← lifted (update_failed Kind.gateways gw.name) (kube.update_gateway gw' st)
    rest ← assign_gateway_links (idx + 1) (next (next a)) links st'
    ok (link' ∷ rest.0, rest.1, rest.2)

  -- The connection with its addresses, the next free address, and the store.
  assign_branch :
      Connection
      → Option (List Link)
      → Option (List Link)
      → Option (List Link)
      → Addr
      → kube.Store
      → Result AllocateError (Addr × kube.Store)
  assign_branch conn (some links) _ _ a st = do
    let r = assign_links a links
    st' ←
        lifted (update_failed Kind.connections conn.name)
          (kube.update_connection (record conn { fabric = some r.0 }) st)
    ok (r.1, st')
  assign_branch conn none (some links) _ a st = do
    let r = assign_links a links
    st' ←
        lifted (update_failed Kind.connections conn.name)
          (kube.update_connection (record conn { mesh = some r.0 }) st)
    ok (r.1, st')
  assign_branch conn none none (some links) a st = do
    r ← assign_gateway_links 0 a links st
    st' ←
        lifted (update_failed Kind.connections conn.name)
          (kube.update_connection (record conn { gateway = some r.0 }) r.2)
    ok (r.1, st')
  assign_branch conn none none none a st = ok (a, st)

  unfoldable pub assign_connections :
      List Connection → Addr → kube.Store → Result AllocateError kube.Store
  unfolding assign_branch assign_gateway_links connect_gateway assign_links assign_link
      find_interface set_interface switch_asn
  assign_connections [] a st = ok st
  assign_connections (conn ∷ conns) a st = do
    r ← assign_branch conn conn.fabric conn.mesh conn.gateway a st
    assign_connections conns r.0 r.1

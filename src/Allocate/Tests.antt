-- ===== src/Allocate/Tests.antt =====
-- The theorems about what `hydrate` assigns, at the subnets of the sample fabric.
use fabricator.Common.{
  ℕ, ◌+◌, ◌≤◌, ◌<◌, ◌≡◌, ◌≢◌, refl, true, List, [], ◌∷◌, ok, some, inl, inr, arith, get_elem?, map,
  All,
}
use fabricator.Netip.{v4, Prefix, contains}
use fabricator.Netip.Laws.{contains-range}
use fabricator.Wiring.{Switch}
use fabricator.Samples.{ip, api, node, link, switch, gateway, config}
use fabricator.Status.Types.{Seen}
use fabricator.Status.Claims.Laws.{push, push_pairs}
use fabricator.Status.Nodes.{process_nodes}
use fabricator.Status.Links.{check_links}
use fabricator.Status.Gateways.{check_gateways}
use fabricator.Allocate.Nodes.{assign_nodes}
use fabricator.Allocate.Nodes.Laws.{process_nodes-assign_nodes}
use fabricator.Allocate.Links.{assign_links}
use fabricator.Allocate.Links.Laws.{check_links-IsAssigned, direct}
use fabricator.Allocate.Gateways.{assigned}
use fabricator.Allocate.Gateways.Laws.{vtep_mac-assigned, check_gateways-assigned}
use fabricator.Allocate.Switches.{SwitchCursors}
use fabricator.Allocate.Switches.Laws.{IsAhead}
use fabricator.Allocate.Switches.Accepted.{
  IsPlain, Suffices, IsAccepted, assign_switches-IsAccepted,
}

abbrev mgmt : Prefix
mgmt = record { addr = v4 (ip 172 30 0 0); bits = 21 }

abbrev dummy : Prefix
dummy = record { addr = v4 (ip 172 30 90 0); bits = 24 }

abbrev vtep : Prefix
vtep = record { addr = v4 (ip 172 30 12 0); bits = 22 }

abbrev protocol : Prefix
protocol = record { addr = v4 (ip 172 30 8 0); bits = 22 }

abbrev fabric : Prefix
fabric = record { addr = v4 (ip 172 30 128 0); bits = 17 }

abbrev stop : ℕ
stop = ip 172 30 4 0

-- Only the control VIP is taken.
abbrev seen : Seen
seen = record {
  total = 0;
  missing = 0;
  mgmt_ips = v4 (ip 172 30 0 1) ∷ [];
  dummy_ips = [];
  vtep_ips = [];
  protocol_ips = [];
  fabric_ips = [];
  leaf_asns = [];
  mclag_peer = [];
}

in_mgmt : (x : ℕ) → ip 172 30 0 5 ≤ x → x < stop → contains mgmt (v4 x) ≡ true
in_mgmt x h k =
    contains-range (ip 172 30 0 0) 21 x (omega arith) (omega arith) (omega arith) (omega arith)
      (omega arith)

in_dummy : (x : ℕ) → ip 172 30 90 0 ≤ x → x < ip 172 30 91 0 → contains dummy (v4 x) ≡ true
in_dummy x h k =
    contains-range (ip 172 30 90 0) 24 x (omega arith) (omega arith) (omega arith) (omega arith)
      (omega arith)

in_vtep : (x : ℕ) → ip 172 30 12 0 ≤ x → x < ip 172 30 16 0 → contains vtep (v4 x) ≡ true
in_vtep x h k =
    contains-range (ip 172 30 12 0) 22 x (omega arith) (omega arith) (omega arith) (omega arith)
      (omega arith)

in_protocol : (x : ℕ) → ip 172 30 8 0 ≤ x → x < ip 172 30 12 0 → contains protocol (v4 x) ≡ true
in_protocol x h k =
    contains-range (ip 172 30 8 0) 22 x (omega arith) (omega arith) (omega arith) (omega arith)
      (omega arith)

in_fabric : (x : ℕ) → ip 172 30 128 0 ≤ x → x < ip 172 31 0 0 → contains fabric (v4 x) ≡ true
in_fabric x h k =
    contains-range (ip 172 30 128 0) 17 x (omega arith) (omega arith) (omega arith) (omega arith)
      (omega arith)

process_nodes-assign_nodes_example :
    process_nodes mgmt
      (v4 stop)
      dummy
      (assign_nodes 21 (node "a" ∷ node "b" ∷ []) (v4 (ip 172 30 0 5)) (v4 (ip 172 30 90 0))).0
      seen
    ≡ ok (record seen {
      total = seen.total + 2;
      mgmt_ips = push 1 2 (ip 172 30 0 5) seen.mgmt_ips;
      dummy_ips = push 2 2 (ip 172 30 90 0) seen.dummy_ips;
    })
process_nodes-assign_nodes_example =
    process_nodes-assign_nodes mgmt dummy 21 stop (omega arith) (omega arith) (ip 172 30 0 5)
      (ip 172 30 90 0) (ip 172 30 91 0) (omega arith) in_mgmt in_dummy (node "a" ∷ node "b" ∷ [])
      (ip 172 30 0 5) (ip 172 30 90 0) seen (omega arith) (omega arith) (omega arith) (omega arith)
      (omega arith) tt

check_links-IsAssigned_example :
    check_links fabric "c" 0 (assign_links (v4 (ip 172 30 128 0)) (link "a/1" "b/1" ∷ [])).0 seen
    ≡ ok (record seen {
      total = seen.total + 2;
      fabric_ips = push_pairs 1 (ip 172 30 128 0) seen.fabric_ips;
    })
check_links-IsAssigned_example =
    check_links-IsAssigned fabric (ip 172 30 128 0) (ip 172 31 0 0) (omega arith) in_fabric "c" 0
      (link "a/1" "b/1" ∷ []) (assign_links (v4 (ip 172 30 128 0)) (link "a/1" "b/1" ∷ [])).0
      (ip 172 30 128 0) seen (direct refl) (omega arith) (omega arith) (omega arith) tt

gateway_asn_ne_0 : config.gateway_asn ≢ 0
gateway_asn_ne_0 = omega arith

check_gateways-assigned_example :
    check_gateways config vtep protocol
      (assigned 65534 (gateway "g" ∷ []) (v4 (ip 172 30 8 2)) (v4 (ip 172 30 12 1)) 1)
      seen
    ≡ ok (record seen {
      total = seen.total + 3;
      protocol_ips = push 1 1 (ip 172 30 8 2) seen.protocol_ips;
      vtep_ips = push 1 1 (ip 172 30 12 1) seen.vtep_ips;
    })
check_gateways-assigned_example =
    check_gateways-assigned config vtep protocol (ip 172 30 8 0) (ip 172 30 12 0) (ip 172 30 12 0)
      (ip 172 30 16 0) (omega arith) (omega arith) in_protocol in_vtep gateway_asn_ne_0
      (gateway "g" ∷ []) (ip 172 30 8 2) (ip 172 30 12 1) 1 seen (omega arith) (omega arith)
      (omega arith) (omega arith) tt tt

vtep_mac-assigned_example :
    get_elem?
      (map (λ gw. gw.vtep_mac) (assigned 65534 (gateway "g" ∷ gateway "h" ∷ []) (v4 0) (v4 0) 1))
      1
    ≡ some 2
vtep_mac-assigned_example =
    vtep_mac-assigned 65534 (gateway "g" ∷ gateway "h" ∷ []) (v4 0) (v4 0) 1 1 (omega arith)

abbrev sws : List Switch
sws = switch "spine-1" "spine" ∷ switch "leaf-1" "server-leaf" ∷ []

abbrev cur : SwitchCursors
cur = record {
  mgmt = v4 (ip 172 30 0 7);
  protocol = v4 (ip 172 30 8 0);
  vtep = v4 (ip 172 30 12 0);
  leaf_asn = 65101;
  peers = [];
}

sws-IsPlain : All (IsPlain api) sws
sws-IsPlain = (
  record { set = refl; known = refl; plain = refl; kind = inr (refl, refl, refl) },
  (record { set = refl; known = refl; plain = refl; kind = inl (refl, refl) }, tt),
)

room :
    Suffices api config mgmt vtep protocol 21 stop
      (ip 172 30 0 7)
      (ip 172 30 8 0)
      (ip 172 30 12 0)
      65101
      2
room = record {
  bits_fit = omega arith;
  stop_fits = omega arith;
  mgmt_room = omega arith;
  protocol_room = omega arith;
  vtep_room = omega arith;
  asn_room = omega arith;
  asn_start = omega arith;
  asn_pos = omega arith;
  asn_end = omega arith;
  spine_pos = omega arith;
  in_mgmt = λ x h. in_mgmt x (omega arith);
  in_protocol = λ x h k. in_protocol x h (omega arith);
  in_vtep = λ x h k. in_vtep x h (omega arith);
}

ahead :
    IsAhead api config mgmt vtep protocol 21 stop
      (ip 172 30 0 7)
      (ip 172 30 8 0)
      (ip 172 30 12 0)
      65101
      seen
ahead = record { mgmt_below = omega arith; protocol_below = tt; vtep_below = tt; asn_below = tt }

assign_switches-IsAccepted_example : IsAccepted api config mgmt vtep protocol 21 stop sws cur seen
assign_switches-IsAccepted_example =
    assign_switches-IsAccepted api config mgmt vtep protocol 21 stop sws (ip 172 30 0 7)
      (ip 172 30 8 0) (ip 172 30 12 0) 65101 cur seen room sws-IsPlain ahead

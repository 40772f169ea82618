-- ===== src/Status/Switches/Tests.antt =====
-- The first member of an MCLAG group, with a VTEP address that another switch has.
use fabricator.Common.{◌≡◌, refl, arith, [], ◌∷◌, ok}
use fabricator.Netip.{v4, Prefix, contains}
use fabricator.Wiring.{Switch}
use fabricator.Samples.{ip, net, api, switch, config}
use fabricator.Status.Types.{Seen}
use fabricator.Status.Claims.{read_prefix}
use fabricator.Status.Switches.{find_peer, check_asn, check_vtep}
use fabricator.Status.Switches.Mclag.{first_mclag_vtep}

abbrev vtep : Prefix
vtep = record { addr = v4 (ip 172 30 12 0); bits = 22 }

abbrev address : Prefix
address = record { addr = v4 (ip 172 30 12 7); bits = 32 }

abbrev leaf : Switch
leaf = record (switch "leaf-2" "server-leaf") {
  asn = 65101;
  vtep_ip = net (ip 172 30 12 7) 32;
  redundancy_type = "mclag";
  redundancy_group = "g";
}

abbrev seen : Seen
seen = record {
  total = 4;
  missing = 0;
  mgmt_ips = [];
  dummy_ips = [];
  vtep_ips = address.addr ∷ [];
  protocol_ips = [];
  fabric_ips = [];
  leaf_asns = [];
  mclag_peer = [];
}

abbrev seen' : Seen
seen' = record seen { total = 5; leaf_asns = 65101 ∷ []; mclag_peer = ("g", leaf) ∷ [] }

asn_taken : check_asn api config leaf seen ≡ ok seen'
unfolding check_asn
asn_taken = refl

first_mclag_vtep_example :
    check_vtep api vtep leaf (record seen' { vtep_ips = address.addr ∷ [] })
    ≡ ok (record seen' { total = 6; vtep_ips = address.addr ∷ (address.addr ∷ []) })
unfolding find_peer read_prefix contains
first_mclag_vtep_example =
    first_mclag_vtep api config vtep leaf seen seen' address (address.addr ∷ []) refl refl
      (omega arith) refl asn_taken refl refl refl

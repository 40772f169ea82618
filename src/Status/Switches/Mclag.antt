-- ===== src/Status/Switches/Mclag.antt =====
-- The first member of an MCLAG group: `mclagPeer` is filled by the check of its ASN, so that the
-- check of its VTEP address, which reads the same map, meets the switch itself as its peer.
use fabricator.Common.{eq_refl, ◌+◌, ◌<◌, ◌≡◌, refl, true, false, none, some, List, ◌∷◌, ok, arith}
use fabricator.Netip.{Addr, Prefix, PrefixText, blank, malformed, text, contains, is_blank}
use fabricator.Netip.Laws.{text_eq_refl}
use fabricator.Wiring.{WiringApi, Config, Switch}
use fabricator.Status.Types.{Seen}
use fabricator.Status.Claims.{read_prefix}
use fabricator.Status.Switches.{find_peer, check_asn, check_vtep}

not_blank : (t : PrefixText) {p : Prefix} → read_prefix t ≡ ok p → is_blank t ≡ false
unfolding read_prefix
not_blank blank e = absurd (cc)
not_blank (text q) e = refl
not_blank (malformed s) e = refl

module _ (api : WiringApi) (cfg : Config) (vtep : Prefix) where
  -- After its ASN is accepted, the first member of a group is its own peer.
  peer-check_asn :
      (sw : Switch) (s s' : Seen)
      → api.is_leaf sw.role ≡ true
      → api.is_mclag sw.redundancy_type ≡ true
      → 0 < sw.asn
      → find_peer sw.redundancy_group s.mclag_peer ≡ none
      → check_asn api cfg sw s ≡ ok s'
      → find_peer sw.redundancy_group s'.mclag_peer ≡ some sw
  unfolding check_asn
  peer-check_asn sw s s' l m p f h = ground (arith, eq_refl sw.redundancy_group)

  -- An MCLAG leaf that has an ASN and is the first of its group is accepted with any /32 VTEP address
  -- of the subnet, whatever addresses are taken already, once its ASN is accepted.
  pub first_mclag_vtep :
      (sw : Switch) (s s' : Seen) (p : Prefix) (taken : List Addr)
      → api.is_leaf sw.role ≡ true
      → api.is_mclag sw.redundancy_type ≡ true
      → 0 < sw.asn
      → find_peer sw.redundancy_group s.mclag_peer ≡ none
      → check_asn api cfg sw s ≡ ok s'
      → read_prefix sw.vtep_ip ≡ ok p
      → p.bits ≡ 32
      → contains vtep p.addr ≡ true
      → check_vtep api vtep sw (record s' { vtep_ips = taken })
        ≡ ok (record s' { total = s'.total + 1; vtep_ips = p.addr ∷ taken })
  unfolding check_vtep
  first_mclag_vtep sw s s' p taken l m a f h r b c =
      ground
        (arith, peer-check_asn sw s s' l m a f h, text_eq_refl sw.vtep_ip, not_blank sw.vtep_ip r)

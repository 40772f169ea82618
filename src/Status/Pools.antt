-- ===== src/Status/Pools.antt =====
-- The invariant of `getHydration`: what it keeps of the addresses of each kind.
use fabricator.Common.{◌≡◌, true}
use fabricator.Netip.{Prefix}
use fabricator.Status.Types.{Seen}
use fabricator.Status.Claims.Laws.{distinct, inside}

module _ (dummy vtep protocol fabric : Prefix) where
  pub record IsSound (s : Seen) : Type 0 where
    pub mgmt_distinct : distinct s.mgmt_ips ≡ true
    pub dummy_distinct : distinct s.dummy_ips ≡ true
    pub dummy_inside : inside dummy s.dummy_ips ≡ true
    pub protocol_distinct : distinct s.protocol_ips ≡ true
    pub protocol_inside : inside protocol s.protocol_ips ≡ true
    pub vtep_inside : inside vtep s.vtep_ips ≡ true
    pub fabric_distinct : distinct s.fabric_ips ≡ true
    pub fabric_inside : inside fabric s.fabric_ips ≡ true

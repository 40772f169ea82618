-- ===== src/Status/Switches.antt =====
-- The loop over the switches in `getHydration` of pkg/hhfab/hydrate.go.
pub mod Laws
pub mod Taken
pub mod Mclag
mod Tests
use fabricator.Common.{
  ℕ, ◌+◌, ◌<◌, ltb, ◌==◌, String, str_eq, Bool, not, ◌&&◌, ◌||◌, Option, none, some, List, [], ◌∷◌,
  Result, ok, err, ◌>>=◌, ◌>>◌, require, refuse, map_err, fold_ok, if◌then◌else◌,
}
use fabricator.Netip.{Addr, Prefix, PrefixText, is_blank, text_eq, contains}
use fabricator.Wiring.{WiringApi, Config, Switch}
use fabricator.Status.Types.{
  Seen, HydrationError, role_unset, role_invalid, switch_ip, switch_protocol_ip, switch_vtep_ip,
  leaf_asn_range, leaf_asn_in_use, spine_asn, spine_vtep, mclag_asn, mclag_vtep, in_use, wrong_bits,
  outside_subnet, Fault, has_asn, has_addr,
}
use fabricator.Status.Claims.{read_prefix, claim, claim_management}

-- `mclagPeer[group]`
unfoldable pub find_peer : String → List (String × Switch) → Option Switch
find_peer g [] = none
find_peer g ((h, sw) ∷ rest) = if str_eq h g then some sw else find_peer g rest

-- `total++`
count_one : Seen → Seen
count_one s = record s { total = s.total + 1 }

-- `missing++`
miss_one : Seen → Seen
miss_one s = record s { missing = s.missing + 1 }

module _ (api : WiringApi) where
  check_role : Switch → Result HydrationError (Unit {0})
  check_role sw = do
    refuse (str_eq sw.role "") (role_unset sw.name)
    require (api.is_known sw.role) (role_invalid sw.name)

  check_management : Prefix → Addr → Switch → Seen → Result HydrationError Seen
  unfolding count_one miss_one
  check_management subnet start sw seen =
      if is_blank sw.ip then ok (miss_one (count_one seen)) else (do
        ips ←
            map_err (switch_ip sw.name)
              (read_prefix sw.ip >>= claim_management subnet start seen.mgmt_ips)
        ok (record (count_one seen) { mgmt_ips = ips }))

  check_protocol : Prefix → Switch → Seen → Result HydrationError Seen
  unfolding count_one miss_one
  check_protocol subnet sw seen =
      if is_blank sw.protocol_ip then ok (miss_one (count_one seen)) else (do
        ips ←
            map_err (switch_protocol_ip sw.name)
              (read_prefix sw.protocol_ip >>= claim 32 subnet seen.protocol_ips)
        ok (record (count_one seen) { protocol_ips = ips }))

  -- The first member of an MCLAG group takes the ASN, the others have the same.
  check_mclag_asn : Switch → Option Switch → Seen → Result HydrationError Seen
  check_mclag_asn sw (some peer) seen = do
    require (peer.asn == sw.asn) (mclag_asn sw.name peer.name)
    ok seen
  check_mclag_asn sw none seen = do
    refuse (has_asn sw.asn seen.leaf_asns) (leaf_asn_in_use sw.name)
    ok (record seen { mclag_peer = (sw.redundancy_group, sw) ∷ seen.mclag_peer })

  check_leaf_asn : Config → Switch → Seen → Result HydrationError Seen
  unfolding check_mclag_asn find_peer
  check_leaf_asn cfg sw seen = do
    refuse (ltb sw.asn cfg.leaf_asn_start || ltb cfg.leaf_asn_end sw.asn) (leaf_asn_range sw.name)
    s ←
        if api.is_mclag sw.redundancy_type
        then check_mclag_asn sw (find_peer sw.redundancy_group seen.mclag_peer) seen
        else (do refuse (has_asn sw.asn seen.leaf_asns) (leaf_asn_in_use sw.name); ok seen)
    ok (record s { leaf_asns = sw.asn ∷ s.leaf_asns })

  pub check_asn : Config → Switch → Seen → Result HydrationError Seen
  unfolding count_one miss_one check_leaf_asn
  check_asn cfg sw seen =
      if ltb 0 sw.asn
      then (do
        s ←
            if api.is_leaf sw.role
            then check_leaf_asn cfg sw (count_one seen)
            else ok (count_one seen)
        refuse (api.is_spine sw.role && not (sw.asn == cfg.spine_asn)) (spine_asn sw.name)
        ok s)
      else ok (miss_one (count_one seen))

  check_spine_vtep : Switch → Result HydrationError (Unit {0})
  check_spine_vtep sw =
      refuse (not (is_blank sw.vtep_ip) && api.is_spine sw.role) (spine_vtep sw.name)

  -- As for the ASN: a peer that is already known makes the test for a taken address unnecessary.
  check_mclag_vtep : Switch → Addr → Option Switch → Seen → Result HydrationError Seen
  check_mclag_vtep sw ip (some peer) seen = do
    require (text_eq peer.vtep_ip sw.vtep_ip) (mclag_vtep sw.name peer.name)
    ok seen
  check_mclag_vtep sw ip none seen = do
    refuse (has_addr ip seen.vtep_ips) (switch_vtep_ip sw.name in_use)
    ok (record seen { mclag_peer = (sw.redundancy_group, sw) ∷ seen.mclag_peer })

  check_leaf_vtep : Prefix → Switch → Seen → Result HydrationError Seen
  unfolding check_mclag_vtep find_peer
  check_leaf_vtep subnet sw seen = do
    p ← map_err (switch_vtep_ip sw.name) (read_prefix sw.vtep_ip)
    require (p.bits == 32) (switch_vtep_ip sw.name wrong_bits)
    require (contains subnet p.addr) (switch_vtep_ip sw.name outside_subnet)
    s ←
        if api.is_mclag sw.redundancy_type
        then check_mclag_vtep sw p.addr (find_peer sw.redundancy_group seen.mclag_peer) seen
        else (do refuse (has_addr p.addr seen.vtep_ips) (switch_vtep_ip sw.name in_use); ok seen)
    ok (record s { vtep_ips = p.addr ∷ s.vtep_ips })

  pub check_vtep : Prefix → Switch → Seen → Result HydrationError Seen
  unfolding count_one miss_one check_leaf_vtep
  check_vtep subnet sw seen =
      if api.is_leaf sw.role
      then (if is_blank sw.vtep_ip
          then ok (miss_one (count_one seen))
          else check_leaf_vtep subnet sw (count_one seen))
      else ok seen

  module _ (cfg : Config) (mgmt : Prefix) (dhcp_start : Addr) (vtep protocol : Prefix) where
    -- The body of the loop.
    unfoldable pub check_switch : Switch → Seen → Result HydrationError Seen
    unfolding check_role check_management check_protocol check_asn check_spine_vtep check_vtep
    check_switch sw seen = do
      check_role sw
      s₁ ← check_management mgmt dhcp_start sw seen
      s₂ ← check_protocol protocol sw s₁
      s₃ ← check_asn cfg sw s₂
      check_spine_vtep sw
      check_vtep vtep sw s₃

    unfoldable pub check_switches : List Switch → Seen → Result HydrationError Seen
    check_switches = fold_ok check_switch

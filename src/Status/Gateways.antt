-- ===== src/Status/Gateways.antt =====
-- The loop over the gateways in `getHydration` of pkg/hhfab/hydrate.go.
pub mod Laws
pub mod Taken
use fabricator.Common.{
  ℕ, ◌+◌, ◌==◌, Bool, List, ◌∷◌, Result, ok, ◌>>=◌, ◌>>◌, require, map_err, fold_ok, if◌then◌else◌,
}
use fabricator.Netip.{Prefix, is_blank}
use fabricator.Wiring.{Config, Gateway}
use fabricator.Status.Types.{
  Seen, HydrationError, gateway_asn, gateway_protocol_ip, gateway_vtep_ip,
}
use fabricator.Status.Claims.{read_prefix, claim}

check_gateway_asn : Config → Gateway → Seen → Result HydrationError Seen
check_gateway_asn cfg gw seen =
    let s = record seen { total = seen.total + 1 } in
    if gw.asn == 0
    then ok (record s { missing = s.missing + 1 })
    else (do require (gw.asn == cfg.gateway_asn) (gateway_asn gw.name); ok s)

check_gateway_protocol : Prefix → Gateway → Seen → Result HydrationError Seen
check_gateway_protocol subnet gw seen =
    let s = record seen { total = seen.total + 1 } in
    if is_blank gw.protocol_ip then ok (record s { missing = s.missing + 1 }) else (do
      ips ←
          map_err (gateway_protocol_ip gw.name)
            (read_prefix gw.protocol_ip >>= claim 32 subnet s.protocol_ips)
      ok (record s { protocol_ips = ips }))

check_gateway_vtep : Prefix → Gateway → Seen → Result HydrationError Seen
check_gateway_vtep subnet gw seen =
    let s = record seen { total = seen.total + 1 } in
    if is_blank gw.vtep_ip then ok (record s { missing = s.missing + 1 }) else (do
      ips ←
          map_err (gateway_vtep_ip gw.name) (read_prefix gw.vtep_ip >>= claim 32 subnet s.vtep_ips)
      ok (record s { vtep_ips = ips }))

module _ (cfg : Config) (vtep protocol : Prefix) where
  unfoldable pub check_gateway : Gateway → Seen → Result HydrationError Seen
  unfolding check_gateway_asn check_gateway_protocol check_gateway_vtep
  check_gateway gw seen = do
    s₁ ← check_gateway_asn cfg gw seen
    s₂ ← check_gateway_protocol protocol gw s₁
    check_gateway_vtep vtep gw s₂

  unfoldable pub check_gateways : List Gateway → Seen → Result HydrationError Seen
  check_gateways = fold_ok check_gateway

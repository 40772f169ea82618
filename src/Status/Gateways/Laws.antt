-- ===== src/Status/Gateways/Laws.antt =====
-- The check of the gateways in `getHydration` (pkg/hhfab/hydrate.go): its invariant and its counters.
use fabricator.Common.{ℕ, ◌+◌, ◌==◌, List, arith, Keeps, Keeps-fold, Adds, Adds-fold, sum_of}
use fabricator.Netip.{Prefix, is_blank}
use fabricator.Wiring.{Config, Gateway}
use fabricator.Status.Types.{Seen}
use fabricator.Status.Claims.{claim}
use fabricator.Status.Pools.{IsSound}
use fabricator.Status.Switches.Laws.{one_if}
use fabricator.Status.Gateways.{
  check_gateway_asn, check_gateway_protocol, check_gateway_vtep, check_gateway, check_gateways,
}

module _ (cfg : Config) (dummy vtep protocol fabric : Prefix) where
  check_gateway-IsSound :
      (gw : Gateway)
      → Keeps (IsSound dummy vtep protocol fabric) (check_gateway cfg vtep protocol gw)
  unfolding check_gateway check_gateway_asn check_gateway_protocol check_gateway_vtep claim
  check_gateway-IsSound gw = record { at = λ s s' h p. ground arith }

  pub check_gateways-IsSound :
      (gws : List Gateway)
      → Keeps (IsSound dummy vtep protocol fabric) (check_gateways cfg vtep protocol gws)
  unfolding check_gateways
  check_gateways-IsSound gws = Keeps-fold _ gws check_gateway-IsSound

abbrev pub gateway_blanks : Gateway → ℕ
gateway_blanks gw =
    one_if (gw.asn == 0) + one_if (is_blank gw.protocol_ip) + one_if (is_blank gw.vtep_ip)

module _ (cfg : Config) (vtep protocol : Prefix) where
  check_gateway-missing :
      (gw : Gateway)
      → Adds (λ s. s.missing) (gateway_blanks gw) (check_gateway cfg vtep protocol gw)
  unfolding check_gateway check_gateway_asn check_gateway_protocol check_gateway_vtep
  check_gateway-missing gw = record { at = λ s s' h. ground arith }

  pub check_gateways-missing :
      (gws : List Gateway)
      → Adds (λ s. s.missing) (sum_of gateway_blanks gws) (check_gateways cfg vtep protocol gws)
  unfolding check_gateways
  check_gateways-missing gws =
      Adds-fold (λ (s : Seen). s.missing) gateway_blanks _ gws check_gateway-missing

  check_gateway-total : (gw : Gateway) → Adds (λ s. s.total) 3 (check_gateway cfg vtep protocol gw)
  unfolding check_gateway check_gateway_asn check_gateway_protocol check_gateway_vtep
  check_gateway-total gw = record { at = λ s s' h. ground arith }

  pub check_gateways-total :
      (gws : List Gateway)
      → Adds (λ s. s.total) (sum_of (λ _. 3) gws) (check_gateways cfg vtep protocol gws)
  unfolding check_gateways
  check_gateways-total gws = Adds-fold (λ (s : Seen). s.total) (λ _. 3) _ gws check_gateway-total

-- ===== src/Status/Gateways/Taken.antt =====
-- The addresses that the check of the gateways in `getHydration` (pkg/hhfab/hydrate.go) takes.
use fabricator.Common.{List, arith}
use fabricator.Netip.{Prefix}
use fabricator.Wiring.{Config, Gateway}
use fabricator.Status.Claims.{claim}
use fabricator.Status.Pushes.{Pool, Pushes, pushed, Pushes-fold, gateway_addrs}
use fabricator.Status.Gateways.{
  check_gateway_asn, check_gateway_protocol, check_gateway_vtep, check_gateway, check_gateways,
}

module _ (cfg : Config) (vteps protocols : Prefix) where
  check_gateway-Pushes :
      (k : Pool) (gw : Gateway)
      → Pushes k (gateway_addrs k gw) (check_gateway cfg vteps protocols gw)
  unfolding check_gateway check_gateway_asn check_gateway_protocol check_gateway_vtep claim
  check_gateway-Pushes Pool.management gw = record { at = λ s s' h. ground arith }
  check_gateway-Pushes Pool.dummy gw = record { at = λ s s' h. ground arith }
  check_gateway-Pushes Pool.vtep gw = record { at = λ s s' h. ground arith }
  check_gateway-Pushes Pool.protocol gw = record { at = λ s s' h. ground arith }
  check_gateway-Pushes Pool.fabric gw = record { at = λ s s' h. ground arith }

  pub check_gateways-Pushes :
      (k : Pool) (gws : List Gateway)
      → Pushes k (pushed (gateway_addrs k) gws) (check_gateways cfg vteps protocols gws)
  unfolding check_gateways
  check_gateways-Pushes k gws = Pushes-fold k _ _ gws (check_gateway-Pushes k)

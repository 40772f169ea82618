-- ===== src/Allocate/Gateways.antt =====
-- The gateways in `hydrate` of pkg/hhfab/hydrate.go.
pub mod Laws
use fabricator.Common.{ℕ, ◌+◌, ◌%◌, str_compare, List, [], ◌∷◌, Result, ok, ◌>>=◌}
use fabricator.Netip.{Addr, next}
use fabricator.Wiring.{Kube, Gateway}
use fabricator.Status.Types.{Kind}
use fabricator.Allocate.Types.{AllocateError, lifted, update_failed, prefix_text, sort_func}

abbrev pub max_vtep_macs : ℕ
max_vtep_macs = 254

-- `fabric.ServerFacingMTU` of pkg/fab/comp/fabric/fabric.go
abbrev server_facing_mtu : ℕ
server_facing_mtu = 9036

unfoldable pub sort_gateways : List Gateway → List Gateway
unfolding sort_func
sort_gateways = sort_func (λ a b. str_compare a.name b.name)

pub assign_gateway : ℕ → Addr → Addr → ℕ → Gateway → Gateway
assign_gateway asn protocol vtep mac gw = record gw {
  asn = asn;
  protocol_ip = prefix_text protocol 32;
  vtep_ip = prefix_text vtep 32;
  vtep_mac = mac;
  vtep_mtu = server_facing_mtu;
}

-- The gateways as they are written; `nextMACFinalOctet` is a `uint8`.
pub assigned : ℕ → List Gateway → Addr → Addr → ℕ → List Gateway
unfolding assign_gateway
assigned asn [] protocol vtep mac = []
assigned asn (gw ∷ gws) protocol vtep mac =
    assign_gateway asn protocol vtep mac gw
    ∷ assigned asn gws (next protocol) (next vtep) ((mac + 1) % 256)

module _ (kube : Kube) where
  update_gateways : List Gateway → kube.Store → Result AllocateError kube.Store
  update_gateways [] st = ok st
  update_gateways (gw ∷ gws) st = do
    st' ← lifted (update_failed Kind.gateways gw.name) (kube.update_gateway gw st)
    update_gateways gws st'

  unfoldable pub assign_gateways :
      ℕ → List Gateway → Addr → Addr → ℕ → kube.Store → Result AllocateError kube.Store
  unfolding assigned update_gateways
  assign_gateways asn gws protocol vtep mac st =
      update_gateways (assigned asn gws protocol vtep mac) st

-- ===== src/Allocate/Gateways/Laws.antt =====
-- The gateways that `hydrate` has assigned: their MAC addresses, and the check of `getHydration`.
use fabricator.Common.{
  ℕ, zero, suc, ◌+◌, ◌*◌, ◌%◌, ◌^◌, ◌≤◌, ◌<◌, ◌≡◌, ◌≢◌, true, ltb, some, none, List, [], ◌∷◌, map,
  ok, arith, All, length, get_elem?, if◌then◌else◌,
}
use fabricator.Netip.{Addr, v4, Prefix, next, contains}
use fabricator.Netip.Laws.{next-v4, parse_prefix-text}
use fabricator.Wiring.{Config, Gateway}
use fabricator.Status.Types.{Seen}
use fabricator.Status.Claims.{read_prefix}
use fabricator.Status.Claims.Laws.{IsBelow, All-IsBelow, push, claim_fresh}
use fabricator.Status.Gateways.{check_gateway, check_gateways}
use fabricator.Allocate.Gateways.{assign_gateway, assigned}

-- As long as the octet does not wrap, the gateway at position `i` has the octet `mac + i`; beyond the
-- list there is none.
pub vtep_mac-assigned :
    (asn : ℕ) (gws : List Gateway) (protocol vtep : Addr) (mac i : ℕ)
    → mac + length gws ≤ 256
    → get_elem? (map (λ gw. gw.vtep_mac) (assigned asn gws protocol vtep mac)) i
      ≡ (if ltb i (length gws) then some (mac + i) else none)
unfolding assigned assign_gateway
vtep_mac-assigned asn [] protocol vtep mac i h = ground arith
vtep_mac-assigned asn (gw ∷ gws) protocol vtep mac zero h = ground arith
vtep_mac-assigned asn (gw ∷ []) protocol vtep mac (suc i) h = ground arith
vtep_mac-assigned asn (gw ∷ gw' ∷ gws) protocol vtep mac (suc i) h = ground (
  arith,
  vtep_mac-assigned asn (gw' ∷ gws) (next protocol) (next vtep) ((mac + 1) % 256) i (omega arith),
)

module _ (cfg : Config) (vtep protocol : Prefix) where
  check_gateway-assigned :
      (gw : Gateway) (p v mac : ℕ) (seen : Seen)
      → cfg.gateway_asn ≢ 0
      → p < 2 ^ 32
      → v < 2 ^ 32
      → contains protocol (v4 p) ≡ true
      → contains vtep (v4 v) ≡ true
      → All (IsBelow p) seen.protocol_ips
      → All (IsBelow v) seen.vtep_ips
      → check_gateway cfg vtep protocol (assign_gateway cfg.gateway_asn (v4 p) (v4 v) mac gw) seen
        ≡ ok (record seen {
          total = seen.total + 3;
          protocol_ips = v4 p ∷ seen.protocol_ips;
          vtep_ips = v4 v ∷ seen.vtep_ips;
        })
  unfolding check_gateway assign_gateway read_prefix
  check_gateway-assigned gw p v mac seen z h k m n b e = ground (
    arith,
    parse_prefix-text p 32 h,
    parse_prefix-text v 32 k,
    claim_fresh 32 protocol p seen.protocol_ips m b,
    claim_fresh 32 vtep v seen.vtep_ips n e,
  )

  module _ (p_lo p_hi v_lo v_hi : ℕ) (p_fits : p_hi < 2 ^ 32) (v_fits : v_hi < 2 ^ 32)
      (in_protocol : (x : ℕ) → p_lo ≤ x → x < p_hi → contains protocol (v4 x) ≡ true)
      (in_vtep : (x : ℕ) → v_lo ≤ x → x < v_hi → contains vtep (v4 x) ≡ true)
      (has_asn : cfg.gateway_asn ≢ 0) where
    -- What is assigned to the gateways passes their check, which takes the addresses and finds no
    -- field missing: from cursors that the seen addresses are below, as long as the protocol and the
    -- VTEP subnet reach, with a gateway ASN that is not 0.
    pub check_gateways-assigned :
        (gws : List Gateway) (p v mac : ℕ) (seen : Seen)
        → p_lo ≤ p
        → p + length gws ≤ p_hi
        → v_lo ≤ v
        → v + length gws ≤ v_hi
        → All (IsBelow p) seen.protocol_ips
        → All (IsBelow v) seen.vtep_ips
        → check_gateways cfg vtep protocol (assigned cfg.gateway_asn gws (v4 p) (v4 v) mac) seen
          ≡ ok (record seen {
            total = seen.total + 3 * length gws;
            protocol_ips = push 1 (length gws) p seen.protocol_ips;
            vtep_ips = push 1 (length gws) v seen.vtep_ips;
          })
    unfolding check_gateways assigned push
    check_gateways-assigned [] p v mac seen h₁ h₂ h₃ h₄ b e = ground arith
    check_gateways-assigned (gw ∷ gws) p v mac seen h₁ h₂ h₃ h₄ b e =
        rw
          (
            next-v4 p (omega arith),
            next-v4 v (omega arith),
            check_gateway-assigned gw p v mac seen has_asn (omega arith) (omega arith)
                (in_protocol p h₁ (omega arith)) (in_vtep v h₃ (omega arith)) b e,
          )
          (ground (
            arith,
            check_gateways-assigned gws (p + 1) (v + 1) ((mac + 1) % 256)
                (record seen {
                  total = seen.total + 3;
                  protocol_ips = v4 p ∷ seen.protocol_ips;
                  vtep_ips = v4 v ∷ seen.vtep_ips;
                })
                (omega arith) (omega arith) (omega arith) (omega arith)
                (omega arith, All-IsBelow p (p + 1) seen.protocol_ips (omega arith) b)
                (omega arith, All-IsBelow v (v + 1) seen.vtep_ips (omega arith) e),
          ))

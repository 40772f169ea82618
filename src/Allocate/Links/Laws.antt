-- ===== src/Allocate/Links/Laws.antt =====
-- The links as `hydrate` assigns them, under the check of `getHydration` (pkg/hhfab/hydrate.go).
use fabricator.Common.{
  sym, ap, ◌∙◌, bind-eq-ok, ok-injective, ℕ, ◌+◌, ◌*◌, ◌%◌, ◌^◌, ◌≤◌, ◌<◌, ◌≡◌, true, String, List,
  [], ◌∷◌, ok, arith, All, length,
}
use fabricator.Netip.{Addr, next, v4, Prefix, contains}
use fabricator.Netip.Laws.{next-v4, next-next-v4, parse_prefix-text}
use fabricator.Wiring.{WiringApi, Kube, Switch, Link}
use fabricator.Status.Types.{Seen, Kind}
use fabricator.Status.Claims.{read_prefix}
use fabricator.Status.Claims.Laws.{IsBelow, All-IsBelow, push_pairs, claim_fresh}
use fabricator.Status.Links.{check_link, check_links}
use fabricator.Allocate.Links.{assign_link, assign_links, connect_gateway, assign_gateway_links}
use fabricator.Allocate.Types.{lifted, get_failed, update_failed}

module _ (api : WiringApi) (kube : Kube) (sws : List Switch) where
  -- The links of a gateway connection get the addresses that those of another would.
  assign_gateway_links-assign_links :
      (idx : ℕ) (a : Addr) (links : List Link) (st : kube.Store) (r : List Link × Addr × kube.Store)
      → assign_gateway_links api kube sws idx a links st ≡ ok r
      → r.0 ≡ (assign_links a links).0
  unfolding assign_gateway_links assign_links
  assign_gateway_links-assign_links idx a [] st r h =
      ap (λ (x : List Link × Addr × kube.Store). x.0) (sym (ok-injective h))
  assign_gateway_links-assign_links idx a (link ∷ links) st r h =
      let gw_name = api.device_name link.second.port in
      let (gw, _, h₁) =
        bind-eq-ok (lifted (get_failed gw_name) (kube.get_gateway st gw_name)) _ h in
      let (gw', _, h₂) =
        bind-eq-ok (connect_gateway api kube sws idx (assign_link a link) gw) _ h₁ in
      let (st', _, h₃) =
        bind-eq-ok (lifted (update_failed Kind.gateways gw.name) (kube.update_gateway gw' st)) _
          h₂ in
      let (rest, e, h₄) =
        bind-eq-ok (assign_gateway_links api kube sws (idx + 1) (next (next a)) links st') _ h₃ in
      ap (λ (x : List Link × Addr × kube.Store). x.0) (sym (ok-injective h₄))
      ∙ ap (λ (xs : List Link). assign_link a link ∷ xs)
          (assign_gateway_links-assign_links (idx + 1) (next (next a)) links st' rest e)

-- The links of a connection, with the addresses from the cursor on: of a fabric or mesh connection,
-- or of a gateway connection in any store.
pub data IsAssigned (links : List Link) (a : Addr) (new : List Link) : Type 1 where
  direct : new ≡ (assign_links a links).0 → IsAssigned links a new
  by_gateway :
      (api : WiringApi) (kube : Kube) (sws : List Switch) (idx : ℕ) (st : kube.Store)
      (r : List Link × Addr × kube.Store)
      → assign_gateway_links api kube sws idx a links st ≡ ok r
      → new ≡ r.0
      → IsAssigned links a new

IsAssigned-assign_links :
    (links : List Link) (a : Addr) (new : List Link)
    → IsAssigned links a new
    → new ≡ (assign_links a links).0
IsAssigned-assign_links links a new (direct e) = e
IsAssigned-assign_links links a new (by_gateway api kube sws idx st r h e) =
    e ∙ assign_gateway_links-assign_links api kube sws idx a links st r h

module _ (fabric : Prefix) where
  -- The two ends share a /31 because the first of them is even.
  check_link-assigned :
      (name : String) (idx : ℕ) (link : Link) (a : ℕ) (seen : Seen)
      → a % 2 ≡ 0
      → a + 1 < 2 ^ 32
      → contains fabric (v4 a) ≡ true
      → contains fabric (v4 (a + 1)) ≡ true
      → All (IsBelow a) seen.fabric_ips
      → check_link fabric name idx (assign_link (v4 a) link) seen
        ≡ ok (record seen {
          total = seen.total + 2;
          fabric_ips = v4 (a + 1) ∷ v4 a ∷ seen.fabric_ips;
        })
  unfolding check_link assign_link read_prefix
  check_link-assigned name idx link a seen even h m n b =
      rw
        (
          next-v4 a h,
          parse_prefix-text a 31 (omega arith) (omega arith),
          parse_prefix-text (a + 1) 31 h (omega arith),
          claim_fresh 31 fabric a seen.fabric_ips m b,
          claim_fresh 31 fabric (a + 1) (v4 a ∷ seen.fabric_ips) n
              (omega arith, All-IsBelow a (a + 1) seen.fabric_ips (omega arith) b),
        )
        (ground arith)

  module _ (lo hi : ℕ) (hi_fits : hi < 2 ^ 32)
      (in_fabric : (x : ℕ) → lo ≤ x → x < hi → contains fabric (v4 x) ≡ true) where
    check_links-assign_links :
        (name : String) (idx : ℕ) (links : List Link) (a : ℕ) (seen : Seen)
        → a % 2 ≡ 0
        → lo ≤ a
        → a + 2 * length links ≤ hi
        → All (IsBelow a) seen.fabric_ips
        → check_links fabric name idx (assign_links (v4 a) links).0 seen
          ≡ ok (record seen {
            total = seen.total + 2 * length links;
            fabric_ips = push_pairs (length links) a seen.fabric_ips;
          })
    unfolding check_links assign_links push_pairs
    check_links-assign_links name idx [] a seen even h k b = ground arith
    check_links-assign_links name idx (link ∷ links) a seen even h k b =
        rw
          (
            next-next-v4 a (omega arith),
            check_link-assigned name idx link a seen even (omega arith)
                (in_fabric a h (omega arith)) (in_fabric (a + 1) (omega arith) (omega arith)) b,
          )
          (ground (
            arith,
            check_links-assign_links name (idx + 1) links (a + 2)
                (record seen {
                  total = seen.total + 2;
                  fabric_ips = v4 (a + 1) ∷ v4 a ∷ seen.fabric_ips;
                })
                (omega arith) (omega arith) (omega arith)
                (omega arith, (omega arith, All-IsBelow a (a + 2) seen.fabric_ips (omega arith) b)),
          ))

    -- What is assigned to the links of a fabric, a mesh or a gateway connection passes the check of
    -- its links, which takes the addresses and finds none missing: from an even cursor that the seen
    -- addresses are below, as long as the fabric subnet reaches.
    pub check_links-IsAssigned :
        (name : String) (idx : ℕ) (links new : List Link) (a : ℕ) (seen : Seen)
        → IsAssigned links (v4 a) new
        → a % 2 ≡ 0
        → lo ≤ a
        → a + 2 * length links ≤ hi
        → All (IsBelow a) seen.fabric_ips
        → check_links fabric name idx new seen
          ≡ ok (record seen {
            total = seen.total + 2 * length links;
            fabric_ips = push_pairs (length links) a seen.fabric_ips;
          })
    check_links-IsAssigned name idx links new a seen d even h k b =
        rw (IsAssigned-assign_links links (v4 a) new d)
          (check_links-assign_links name idx links a seen even h k b)

-- ===== src/Allocate/Switches/Laws.antt =====
-- One switch as `hydrate` assigns it, under the check of `getHydration` (pkg/hhfab/hydrate.go), where
-- no MCLAG groups are in use.
use fabricator.Common.{
  ℕ, ◌+◌, ◌^◌, ◌≤◌, ◌<◌, ◌≡◌, refl, true, false, List, [], ◌∷◌, ok, arith, All, str_eq,
}
use fabricator.Netip.{v4, Prefix, contains, is_blank}
use fabricator.Netip.Laws.{next-v4, parse_prefix-text}
use fabricator.Wiring.{WiringApi, Config, Switch}
use fabricator.Status.Types.{Seen, has_asn}
use fabricator.Status.Claims.{read_prefix}
use fabricator.Status.Claims.Laws.{IsBelow, has_addr-below, claim_fresh, claim_management_fresh}
use fabricator.Status.Switches.{check_switch}
use fabricator.Allocate.Types.{prefix_text}
use fabricator.Allocate.Switches.{SwitchCursors, assign_switch}

has_asn-below : (n : ℕ) (ms : List ℕ) → All (λ m. m < n) ms → has_asn n ms ≡ false
has_asn-below n [] h = refl
has_asn-below n (m ∷ ms) h = ground (arith, has_asn-below n ms h.1)

pub All-lt : (m n : ℕ) (ks : List ℕ) → m ≤ n → All (λ k. k < m) ks → All (λ k. k < n) ks
All-lt m n [] h k = tt
All-lt m n (x ∷ ks) h k = (omega arith, All-lt m n ks h k.1)

module _ (api : WiringApi) (cfg : Config) (mgmt vtep protocol : Prefix) (bits stop : ℕ) where
  -- The cursors stand at these numbers, and everything that is taken lies before them.
  pub record IsAhead (a p v n : ℕ) (s : Seen) : Type 0 where
    pub mgmt_below : All (IsBelow a) s.mgmt_ips
    pub protocol_below : All (IsBelow p) s.protocol_ips
    pub vtep_below : All (IsBelow v) s.vtep_ips
    pub asn_below : All (λ k. k < n) s.leaf_asns

  abbrev pub cursors : ℕ → ℕ → ℕ → ℕ → SwitchCursors → SwitchCursors
  cursors a p v n cur = record cur { mgmt = v4 a; protocol = v4 p; vtep = v4 v; leaf_asn = n }

  -- There is room at the cursors for one more switch.
  pub record HasRoom (a p v n : ℕ) : Type 0 where
    pub bits_fit : bits ≤ 32
    pub stop_fits : stop < 2 ^ 32
    pub mgmt_room : a < stop
    pub protocol_room : p + 1 < 2 ^ 32
    pub vtep_room : v + 1 < 2 ^ 32
    pub asn_room : n + 1 < 2 ^ 32
    pub asn_start : cfg.leaf_asn_start ≤ n
    pub asn_pos : 0 < n
    pub asn_end : n ≤ cfg.leaf_asn_end
    pub in_mgmt : contains mgmt (v4 a) ≡ true
    pub in_protocol : contains protocol (v4 p) ≡ true
    pub in_vtep : contains vtep (v4 v) ≡ true

  -- What is written to a switch, and what the check has seen after it.
  abbrev pub base : Switch → ℕ → ℕ → Switch
  base sw a p = record sw { ip = prefix_text (v4 a) bits; protocol_ip = prefix_text (v4 p) 32 }

  abbrev pub leaf : Switch → ℕ → ℕ → ℕ → ℕ → Switch
  leaf sw a p v n = record (base sw a p) { asn = n; vtep_ip = prefix_text (v4 v) 32 }

  abbrev pub spine : Switch → ℕ → ℕ → Switch
  spine sw a p = record (base sw a p) { asn = cfg.spine_asn }

  abbrev pub seen_spine : ℕ → ℕ → Seen → Seen
  seen_spine a p s = record s {
    total = s.total + 3;
    mgmt_ips = v4 a ∷ s.mgmt_ips;
    protocol_ips = v4 p ∷ s.protocol_ips;
  }

  abbrev pub seen_leaf : ℕ → ℕ → ℕ → ℕ → Seen → Seen
  seen_leaf a p v n s = record s {
    total = s.total + 4;
    mgmt_ips = v4 a ∷ s.mgmt_ips;
    protocol_ips = v4 p ∷ s.protocol_ips;
    leaf_asns = n ∷ s.leaf_asns;
    vtep_ips = v4 v ∷ s.vtep_ips;
  }

  module _ (sw : Switch) (a p v n : ℕ) (r : HasRoom a p v n) (set : str_eq sw.role "" ≡ false)
      (known : api.is_known sw.role ≡ true) (plain : api.is_mclag sw.redundancy_type ≡ false) where
    pub assign_leaf_switch :
        (cur : SwitchCursors)
        → api.is_leaf sw.role ≡ true
        → api.is_spine sw.role ≡ false
        → assign_switch api cfg bits sw (cursors a p v n cur)
          ≡ ok (leaf sw a p v n, cursors (a + 1) (p + 1) (v + 1) (n + 1) cur)
    unfolding assign_switch
    assign_leaf_switch cur l q =
        rw (next-v4 a (omega arith), next-v4 p (omega arith), next-v4 v (omega arith))
          (ground arith)

    pub assign_spine_switch :
        (cur : SwitchCursors)
        → api.is_leaf sw.role ≡ false
        → api.is_spine sw.role ≡ true
        → assign_switch api cfg bits sw (cursors a p v n cur)
          ≡ ok (spine sw a p, cursors (a + 1) (p + 1) v n cur)
    unfolding assign_switch
    assign_spine_switch cur l q =
        rw (next-v4 a (omega arith), next-v4 p (omega arith)) (ground arith)

    module _ (s : Seen) (b : IsAhead a p v n s) where
      pub check_leaf_switch :
          api.is_leaf sw.role ≡ true
          → api.is_spine sw.role ≡ false
          → check_switch api cfg mgmt (v4 stop) vtep protocol (leaf sw a p v n) s
            ≡ ok (seen_leaf a p v n s)
      unfolding check_switch read_prefix
      check_leaf_switch l q =
          rw
            (
              set,
              parse_prefix-text a bits (omega arith) r.bits_fit,
              claim_management_fresh mgmt stop bits a s.mgmt_ips r.in_mgmt r.mgmt_room b.mgmt_below,
              parse_prefix-text p 32 (omega arith) (omega arith),
              claim_fresh 32 protocol p s.protocol_ips r.in_protocol b.protocol_below,
              parse_prefix-text v 32 (omega arith) (omega arith),
            )
            (ground (
              arith,
              has_addr-below v s.vtep_ips b.vtep_below,
              has_asn-below n s.leaf_asns b.asn_below,
              r.in_vtep,
              r.asn_start,
              r.asn_end,
              r.asn_pos,
            ))

      pub check_spine_switch :
          api.is_leaf sw.role ≡ false
          → api.is_spine sw.role ≡ true
          → is_blank sw.vtep_ip ≡ true
          → 0 < cfg.spine_asn
          → check_switch api cfg mgmt (v4 stop) vtep protocol (spine sw a p) s
            ≡ ok (seen_spine a p s)
      unfolding check_switch read_prefix
      check_spine_switch l q t z =
          rw
            (
              set,
              parse_prefix-text a bits (omega arith) r.bits_fit,
              claim_management_fresh mgmt stop bits a s.mgmt_ips r.in_mgmt r.mgmt_room b.mgmt_below,
              parse_prefix-text p 32 (omega arith) (omega arith),
              claim_fresh 32 protocol p s.protocol_ips r.in_protocol b.protocol_below,
            )
            (ground arith)

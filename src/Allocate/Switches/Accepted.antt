-- ===== src/Allocate/Switches/Accepted.antt =====
-- The loop over the switches: `hydrate`, and then the check of `getHydration` (pkg/hhfab/hydrate.go).
use fabricator.Common.{
  ℕ, suc, ◌+◌, ◌^◌, ◌≤◌, ◌<◌, ◌≡◌, refl, true, false, ◌⊎◌, inl, inr, List, [], ◌∷◌, ok, arith, All,
  length, str_eq, ◌∙◌,
}
use fabricator.Netip.{v4, Prefix, contains, is_blank}
use fabricator.Wiring.{WiringApi, Config, Switch}
use fabricator.Status.Types.{Seen}
use fabricator.Status.Claims.Laws.{All-IsBelow}
use fabricator.Status.Switches.{check_switch, check_switches}
use fabricator.Allocate.Switches.{SwitchCursors, assign_switch, assign_switches}
use fabricator.Allocate.Switches.Laws.{
  IsAhead, HasRoom, cursors, seen_leaf, seen_spine, assign_leaf_switch, assign_spine_switch,
  check_leaf_switch, check_spine_switch, All-lt,
}

module _ (api : WiringApi) where
  -- A switch of a known role that is in no MCLAG group; a spine has no VTEP address.
  pub record IsPlain (sw : Switch) : Type 0 where
    pub set : str_eq sw.role "" ≡ false
    pub known : api.is_known sw.role ≡ true
    pub plain : api.is_mclag sw.redundancy_type ≡ false
    pub kind :
        ((api.is_leaf sw.role ≡ true) × (api.is_spine sw.role ≡ false))
        ⊎ ((api.is_leaf sw.role ≡ false)
            × (api.is_spine sw.role ≡ true)
            × (is_blank sw.vtep_ip ≡ true))

module _ (api : WiringApi) (cfg : Config) (mgmt vtep protocol : Prefix) (bits stop : ℕ) where
  -- The addresses and ASNs from the cursors on suffice for `k` switches.
  pub record Suffices (a p v n k : ℕ) : Type 0 where
    pub bits_fit : bits ≤ 32
    pub stop_fits : stop < 2 ^ 32
    pub mgmt_room : a + k ≤ stop
    pub protocol_room : p + k < 2 ^ 32
    pub vtep_room : v + k < 2 ^ 32
    pub asn_room : n + k < 2 ^ 32
    pub asn_start : cfg.leaf_asn_start ≤ n
    pub asn_pos : 0 < n
    pub asn_end : n + k ≤ cfg.leaf_asn_end + 1
    pub spine_pos : 0 < cfg.spine_asn
    pub in_mgmt : (x : ℕ) → a ≤ x → x < stop → contains mgmt (v4 x) ≡ true
    pub in_protocol : (x : ℕ) → p ≤ x → x < p + k → contains protocol (v4 x) ≡ true
    pub in_vtep : (x : ℕ) → v ≤ x → x < v + k → contains vtep (v4 x) ≡ true

  -- The switches are assigned, accepted as they are assigned, and nothing is missing.
  pub record IsAccepted (sws : List Switch) (cur : SwitchCursors) (s : Seen) : Type 0 where
    pub result : List Switch × SwitchCursors
    pub seen : Seen
    pub assigns : assign_switches api cfg bits sws cur ≡ ok result
    pub accepts : check_switches api cfg mgmt (v4 stop) vtep protocol result.0 s ≡ ok seen
    pub complete : seen.missing ≡ s.missing

  IsAccepted-cons :
      (sw sw' : Switch) (sws : List Switch) (cur cur' : SwitchCursors) (s s' : Seen)
      → assign_switch api cfg bits sw cur ≡ ok (sw', cur')
      → check_switch api cfg mgmt (v4 stop) vtep protocol sw' s ≡ ok s'
      → s'.missing ≡ s.missing
      → IsAccepted sws cur' s'
      → IsAccepted (sw ∷ sws) cur s
  unfolding assign_switches check_switches
  IsAccepted-cons sw sw' sws cur cur' s s' h k e r = record {
    result = (sw' ∷ r.result.0, r.result.1);
    seen = r.seen;
    assigns = rw (h, r.assigns);
    accepts = rw k r.accepts;
    complete = r.complete ∙ e;
  }

  room_for_one :
      {a p v n k : ℕ}
      → Suffices a p v n (suc k)
      → HasRoom api cfg mgmt vtep protocol bits stop a p v n
  room_for_one {a} {p} {v} {n} {k} r = record {
    bits_fit = r.bits_fit;
    stop_fits = r.stop_fits;
    mgmt_room = omega arith;
    protocol_room = omega arith;
    vtep_room = omega arith;
    asn_room = omega arith;
    asn_start = r.asn_start;
    asn_pos = r.asn_pos;
    asn_end = omega arith;
    in_mgmt = r.in_mgmt a (omega arith) (omega arith);
    in_protocol = r.in_protocol p (omega arith) (omega arith);
    in_vtep = r.in_vtep v (omega arith) (omega arith);
  }

  room_after_leaf :
      {a p v n k : ℕ} → Suffices a p v n (suc k) → Suffices (a + 1) (p + 1) (v + 1) (n + 1) k
  room_after_leaf r = record {
    bits_fit = r.bits_fit;
    stop_fits = r.stop_fits;
    mgmt_room = omega arith;
    protocol_room = omega arith;
    vtep_room = omega arith;
    asn_room = omega arith;
    asn_start = omega arith;
    asn_pos = omega arith;
    asn_end = omega arith;
    spine_pos = r.spine_pos;
    in_mgmt = λ x h. r.in_mgmt x (omega arith);
    in_protocol = λ x h k. r.in_protocol x (omega arith) (omega arith);
    in_vtep = λ x h k. r.in_vtep x (omega arith) (omega arith);
  }

  room_after_spine : {a p v n k : ℕ} → Suffices a p v n (suc k) → Suffices (a + 1) (p + 1) v n k
  room_after_spine r = record {
    bits_fit = r.bits_fit;
    stop_fits = r.stop_fits;
    mgmt_room = omega arith;
    protocol_room = omega arith;
    vtep_room = omega arith;
    asn_room = omega arith;
    asn_start = r.asn_start;
    asn_pos = r.asn_pos;
    asn_end = omega arith;
    spine_pos = r.spine_pos;
    in_mgmt = λ x h. r.in_mgmt x (omega arith);
    in_protocol = λ x h k. r.in_protocol x (omega arith) (omega arith);
    in_vtep = λ x h k. r.in_vtep x h (omega arith);
  }

  IsAhead-leaf :
      {a p v n : ℕ} {s : Seen}
      → IsAhead api cfg mgmt vtep protocol bits stop a p v n s
      → IsAhead api cfg mgmt vtep protocol bits stop
          (a + 1)
          (p + 1)
          (v + 1)
          (n + 1)
          (seen_leaf api cfg mgmt vtep protocol bits stop a p v n s)
  IsAhead-leaf {a} {p} {v} {n} {s} b = record {
    mgmt_below = (omega arith, All-IsBelow a (a + 1) s.mgmt_ips (omega arith) b.mgmt_below);
    protocol_below =
        (omega arith, All-IsBelow p (p + 1) s.protocol_ips (omega arith) b.protocol_below);
    vtep_below = (omega arith, All-IsBelow v (v + 1) s.vtep_ips (omega arith) b.vtep_below);
    asn_below = (omega arith, All-lt n (n + 1) s.leaf_asns (omega arith) b.asn_below);
  }

  IsAhead-spine :
      {a p v n : ℕ} {s : Seen}
      → IsAhead api cfg mgmt vtep protocol bits stop a p v n s
      → IsAhead api cfg mgmt vtep protocol bits stop
          (a + 1)
          (p + 1)
          v
          n
          (seen_spine api cfg mgmt vtep protocol bits stop a p s)
  IsAhead-spine {a} {p} {v} {n} {s} b = record {
    mgmt_below = (omega arith, All-IsBelow a (a + 1) s.mgmt_ips (omega arith) b.mgmt_below);
    protocol_below =
        (omega arith, All-IsBelow p (p + 1) s.protocol_ips (omega arith) b.protocol_below);
    vtep_below = b.vtep_below;
    asn_below = b.asn_below;
  }

  -- Where the subnets and the ASN range suffice, and what was seen is behind the cursors, every list
  -- of plain switches is assigned, and the check accepts what was assigned with no field missing.
  pub assign_switches-IsAccepted :
      (sws : List Switch) (a p v n : ℕ) (cur : SwitchCursors) (s : Seen)
      → Suffices a p v n (length sws)
      → All (IsPlain api) sws
      → IsAhead api cfg mgmt vtep protocol bits stop a p v n s
      → IsAccepted sws (cursors api cfg mgmt vtep protocol bits stop a p v n cur) s
  unfolding assign_switches check_switches
  assign_switches-IsAccepted [] a p v n cur s r h b = record {
    result = ([], cursors api cfg mgmt vtep protocol bits stop a p v n cur);
    seen = s;
    assigns = refl;
    accepts = refl;
    complete = refl;
  }
  assign_switches-IsAccepted (sw ∷ sws) a p v n cur s r h b =
      let room = room_for_one r in
      let plain = h.0 in
      elim plain.kind [
        | inl l ↦
            IsAccepted-cons sw _ sws _ _ s _
              (assign_leaf_switch api cfg mgmt vtep protocol bits stop sw a p v n room plain.set
                plain.known plain.plain cur l.0 l.1)
              (check_leaf_switch api cfg mgmt vtep protocol bits stop sw a p v n room plain.set
                plain.known plain.plain s b l.0 l.1)
              refl
              (assign_switches-IsAccepted sws (a + 1) (p + 1) (v + 1) (n + 1) cur _
                (room_after_leaf r) h.1 (IsAhead-leaf b))
        | inr q ↦
            IsAccepted-cons sw _ sws _ _ s _
              (assign_spine_switch api cfg mgmt vtep protocol bits stop sw a p v n room plain.set
                plain.known plain.plain cur q.0 q.1)
              (check_spine_switch api cfg mgmt vtep protocol bits stop sw a p v n room plain.set
                plain.known plain.plain s b q.0 q.1 q.2 r.spine_pos)
              refl
              (assign_switches-IsAccepted sws (a + 1) (p + 1) v n cur _ (room_after_spine r) h.1
                (IsAhead-spine b))
      ]

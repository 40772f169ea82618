-- ===== src/Allocate/Switches.antt =====
-- The switches in `hydrate` of pkg/hhfab/hydrate.go.
pub mod Laws
pub mod Accepted
use Prim.Native.Nat.{Ordering}
use fabricator.Common.{
  ℕ, ◌+◌, ◌%◌, ◌^◌, String, str_eq, str_compare, Option, none, some, List, [], ◌∷◌, Result, ok,
  ◌>>=◌, ◌>>◌, require, refuse, if◌then◌else◌,
}
use fabricator.Netip.{Addr, next}
use fabricator.Wiring.{WiringApi, Config, Switch}
use fabricator.Status.Switches.{find_peer}
use fabricator.Allocate.Types.{AllocateError, role_unset, role_invalid, prefix_text, sort_func}

-- The variables of the loop: the next free addresses and ASN, and the first member of each MCLAG
-- group, as it stands when the loop has gone past it.
pub record SwitchCursors : Type 0 where
  pub mgmt : Addr
  pub protocol : Addr
  pub vtep : Addr
  pub leaf_asn : ℕ
  pub peers : List (String × Switch)

module _ (api : WiringApi) where
  -- Spines first, then by role, and by name in a role.
  compare_switches : Switch → Switch → Ordering
  compare_switches a b =
      if str_eq a.role b.role
      then str_compare a.name b.name
      else if api.is_spine a.role
      then Ordering.lt
      else if api.is_spine b.role
      then Ordering.gt
      else str_compare a.role b.role

  unfoldable pub sort_switches : List Switch → List Switch
  unfolding compare_switches sort_func
  sort_switches = sort_func compare_switches

  -- A leaf takes the next ASN and the next VTEP address.
  assign_leaf : Switch → SwitchCursors → Switch × SwitchCursors
  assign_leaf sw cur =
      if api.is_leaf sw.role
      then (
        record sw { asn = cur.leaf_asn; vtep_ip = prefix_text cur.vtep 32 },
        record cur { leaf_asn = (cur.leaf_asn + 1) % 2 ^ 32; vtep = next cur.vtep },
      )
      else (sw, cur)

  -- A later member of an MCLAG group copies the first one.
  assign_mclag : Option Switch → Switch → SwitchCursors → Switch × SwitchCursors
  unfolding assign_leaf
  assign_mclag (some peer) sw cur = (record sw { asn = peer.asn; vtep_ip = peer.vtep_ip }, cur)
  assign_mclag none sw cur =
      let (sw', cur') = assign_leaf sw cur in
      (sw', record cur' { peers = (sw.redundancy_group, sw') ∷ cur'.peers })

  module _ (c : Config) (bits : ℕ) where
    -- What is set before the redundancy is looked at.
    assign_base : Switch → SwitchCursors → Switch
    assign_base sw cur = record sw {
      ip = prefix_text cur.mgmt bits;
      protocol_ip = prefix_text cur.protocol 32;
      asn = if api.is_spine sw.role then c.spine_asn else sw.asn;
    }

    unfoldable pub assign_switch :
        Switch → SwitchCursors → Result AllocateError (Switch × SwitchCursors)
    unfolding assign_base assign_leaf assign_mclag find_peer
    assign_switch sw cur = do
      refuse (str_eq sw.role "") (role_unset sw.name)
      require (api.is_known sw.role) (role_invalid sw.name)
      let sw₁ = assign_base sw cur
      let cur₁ = record cur { mgmt = next cur.mgmt; protocol = next cur.protocol }
      ok (
          if api.is_mclag sw.redundancy_type
          then assign_mclag (find_peer sw.redundancy_group cur.peers) sw₁ cur₁
          else assign_leaf sw₁ cur₁)

    unfoldable pub assign_switches :
        List Switch → SwitchCursors → Result AllocateError (List Switch × SwitchCursors)
    unfolding assign_switch
    assign_switches [] cur = ok ([], cur)
    assign_switches (sw ∷ sws) cur = do
      r ← assign_switch sw cur
      rest ← assign_switches sws r.1
      ok (r.0 ∷ rest.0, rest.1)

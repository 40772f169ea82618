-- ===== src/Status/Switches/Laws.antt =====
-- The check of the switches in `getHydration` (pkg/hhfab/hydrate.go): its invariant and its counters.
use fabricator.Common.{
  ℕ, ◌+◌, ◌==◌, Bool, true, false, ◌&&◌, List, arith, Keeps, Keeps-bind, Keeps-then, Keeps-fold,
  Adds, Adds-bind, Adds-then, Adds-fold, sum_of,
}
use fabricator.Netip.{Addr, Prefix, is_blank}
use fabricator.Wiring.{WiringApi, Config, Switch}
use fabricator.Status.Types.{Seen}
use fabricator.Status.Claims.{claim, claim_management}
use fabricator.Status.Pools.{IsSound}
use fabricator.Status.Switches.{
  check_role, check_management, check_protocol, check_asn, check_spine_vtep, check_vtep,
  check_switch, check_switches,
}

module _ (api : WiringApi) (cfg : Config) (mgmt : Prefix) (start : Addr) where
  module _ (dummy vtep protocol fabric : Prefix) where
    management-IsSound :
        (sw : Switch)
        → Keeps (IsSound dummy vtep protocol fabric) (check_management api mgmt start sw)
    unfolding check_management claim_management
    management-IsSound sw = record { at = λ s s' h p. ground arith }

    protocol-IsSound :
        (sw : Switch) → Keeps (IsSound dummy vtep protocol fabric) (check_protocol api protocol sw)
    unfolding check_protocol claim
    protocol-IsSound sw = record { at = λ s s' h p. ground arith }

    asn-IsSound : (sw : Switch) → Keeps (IsSound dummy vtep protocol fabric) (check_asn api cfg sw)
    unfolding check_asn
    asn-IsSound sw = record { at = λ s s' h p. ground arith }

    vtep-IsSound :
        (sw : Switch) → Keeps (IsSound dummy vtep protocol fabric) (check_vtep api vtep sw)
    unfolding check_vtep
    vtep-IsSound sw = record { at = λ s s' h p. ground arith }

    check_switch-IsSound :
        (sw : Switch)
        → Keeps
            (IsSound dummy vtep protocol fabric)
            (check_switch api cfg mgmt start vtep protocol sw)
    unfolding check_switch
    check_switch-IsSound sw = Keeps-then (check_role api sw) _ (
        Keeps-bind (check_management api mgmt start sw) _ (management-IsSound sw) (
          Keeps-bind (check_protocol api protocol sw) _ (protocol-IsSound sw) (
            Keeps-bind (check_asn api cfg sw) _ (asn-IsSound sw)
              (Keeps-then (check_spine_vtep api sw) (check_vtep api vtep sw) (vtep-IsSound sw)))))

    pub check_switches-IsSound :
        (sws : List Switch)
        → Keeps
            (IsSound dummy vtep protocol fabric)
            (check_switches api cfg mgmt start vtep protocol sws)
    unfolding check_switches
    check_switches-IsSound sws = Keeps-fold _ sws check_switch-IsSound

abbrev pub one_if : Bool → ℕ
one_if true = 1
one_if false = 0

-- The fields of a switch that are not set, of those that hydration sets.
abbrev pub switch_blanks : WiringApi → Switch → ℕ
switch_blanks api sw =
    one_if (is_blank sw.ip)
    + (one_if (is_blank sw.protocol_ip)
        + (one_if (sw.asn == 0) + one_if (api.is_leaf sw.role && is_blank sw.vtep_ip)))

abbrev pub switch_fields : WiringApi → Switch → ℕ
switch_fields api sw = 1 + (1 + (1 + one_if (api.is_leaf sw.role)))

module _ (api : WiringApi) (cfg : Config) (mgmt : Prefix) (start : Addr)
    (vtep protocol : Prefix) where
  management-missing :
      (sw : Switch)
      → Adds (λ s. s.missing) (one_if (is_blank sw.ip)) (check_management api mgmt start sw)
  unfolding check_management
  management-missing sw = record { at = λ s s' h. ground arith }

  protocol-missing :
      (sw : Switch)
      → Adds (λ s. s.missing) (one_if (is_blank sw.protocol_ip)) (check_protocol api protocol sw)
  unfolding check_protocol
  protocol-missing sw = record { at = λ s s' h. ground arith }

  asn-missing : (sw : Switch) → Adds (λ s. s.missing) (one_if (sw.asn == 0)) (check_asn api cfg sw)
  unfolding check_asn
  asn-missing sw = record { at = λ s s' h. ground arith }

  vtep-missing :
      (sw : Switch)
      → Adds
          (λ s. s.missing)
          (one_if (api.is_leaf sw.role && is_blank sw.vtep_ip))
          (check_vtep api vtep sw)
  unfolding check_vtep
  vtep-missing sw = record { at = λ s s' h. ground arith }

  management-total : (sw : Switch) → Adds (λ s. s.total) 1 (check_management api mgmt start sw)
  unfolding check_management
  management-total sw = record { at = λ s s' h. ground arith }

  protocol-total : (sw : Switch) → Adds (λ s. s.total) 1 (check_protocol api protocol sw)
  unfolding check_protocol
  protocol-total sw = record { at = λ s s' h. ground arith }

  asn-total : (sw : Switch) → Adds (λ s. s.total) 1 (check_asn api cfg sw)
  unfolding check_asn
  asn-total sw = record { at = λ s s' h. ground arith }

  vtep-total :
      (sw : Switch) → Adds (λ s. s.total) (one_if (api.is_leaf sw.role)) (check_vtep api vtep sw)
  unfolding check_vtep
  vtep-total sw = record { at = λ s s' h. ground arith }

  -- The counter's steps, put together as the body of the loop puts them.
  module _ (counter : Seen → ℕ) (m p a v : Switch → ℕ)
      (km : (sw : Switch) → Adds counter (m sw) (check_management api mgmt start sw))
      (kp : (sw : Switch) → Adds counter (p sw) (check_protocol api protocol sw))
      (ka : (sw : Switch) → Adds counter (a sw) (check_asn api cfg sw))
      (kv : (sw : Switch) → Adds counter (v sw) (check_vtep api vtep sw)) where
    check_switch-Adds :
        (sw : Switch)
        → Adds counter
            (m sw + (p sw + (a sw + v sw)))
            (check_switch api cfg mgmt start vtep protocol sw)
    unfolding check_switch
    check_switch-Adds sw = Adds-then counter (check_role api sw) _ _ (
        Adds-bind counter _ _ (check_management api mgmt start sw) _ (km sw) (
          Adds-bind counter _ _ (check_protocol api protocol sw) _ (kp sw) (
            Adds-bind counter _ _ (check_asn api cfg sw) _ (ka sw)
              (Adds-then counter (check_spine_vtep api sw) _ (check_vtep api vtep sw) (kv sw)))))

    check_switches-Adds :
        (sws : List Switch)
        → Adds counter
            (sum_of (λ sw. m sw + (p sw + (a sw + v sw))) sws)
            (check_switches api cfg mgmt start vtep protocol sws)
    unfolding check_switches
    check_switches-Adds sws = Adds-fold counter _ _ sws check_switch-Adds

  pub check_switches-missing :
      (sws : List Switch)
      → Adds
          (λ s. s.missing)
          (sum_of (switch_blanks api) sws)
          (check_switches api cfg mgmt start vtep protocol sws)
  check_switches-missing =
      check_switches-Adds (λ s. s.missing) _ _ _ _ management-missing protocol-missing asn-missing
        vtep-missing

  pub check_switches-total :
      (sws : List Switch)
      → Adds
          (λ s. s.total)
          (sum_of (switch_fields api) sws)
          (check_switches api cfg mgmt start vtep protocol sws)
  check_switches-total =
      check_switches-Adds (λ s. s.total) (λ _. 1) (λ _. 1) (λ _. 1)
        (λ sw. one_if (api.is_leaf sw.role)) management-total protocol-total asn-total vtep-total

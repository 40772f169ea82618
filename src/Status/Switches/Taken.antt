-- ===== src/Status/Switches/Taken.antt =====
-- The addresses that the check of the switches in `getHydration` (pkg/hhfab/hydrate.go) takes.
use fabricator.Common.{◌≡◌, refl, ◌∙◌, subst, List, [], ◌++◌, arith}
use mathlib.Core.List.{append-nil}
use fabricator.Netip.{Addr, Prefix}
use fabricator.Wiring.{WiringApi, Config, Switch}
use fabricator.Status.Claims.{claim, claim_management}
use fabricator.Status.Pushes.{
  Pool, Pushes, pushed, Pushes-bind, Pushes-then, Pushes-fold, switch_addrs,
}
use fabricator.Status.Switches.{
  check_role, check_management, check_protocol, check_asn, check_spine_vtep, check_vtep,
  check_switch, check_switches,
}

module _ (api : WiringApi) (cfg : Config) (mgmt : Prefix) (start : Addr)
    (vteps protocols : Prefix) where
  -- What each of the checks of a switch takes.
  abbrev by_management : Pool → Switch → List Addr
  by_management Pool.management sw = switch_addrs api Pool.management sw
  by_management _ sw = []

  abbrev by_protocol : Pool → Switch → List Addr
  by_protocol Pool.protocol sw = switch_addrs api Pool.protocol sw
  by_protocol _ sw = []

  abbrev by_vtep : Pool → Switch → List Addr
  by_vtep Pool.vtep sw = switch_addrs api Pool.vtep sw
  by_vtep _ sw = []

  management-Pushes :
      (k : Pool) (sw : Switch) → Pushes k (by_management k sw) (check_management api mgmt start sw)
  unfolding check_management claim_management
  management-Pushes Pool.management sw = record { at = λ s s' h. ground arith }
  management-Pushes Pool.dummy sw = record { at = λ s s' h. ground arith }
  management-Pushes Pool.vtep sw = record { at = λ s s' h. ground arith }
  management-Pushes Pool.protocol sw = record { at = λ s s' h. ground arith }
  management-Pushes Pool.fabric sw = record { at = λ s s' h. ground arith }

  protocol-Pushes :
      (k : Pool) (sw : Switch) → Pushes k (by_protocol k sw) (check_protocol api protocols sw)
  unfolding check_protocol claim
  protocol-Pushes Pool.management sw = record { at = λ s s' h. ground arith }
  protocol-Pushes Pool.dummy sw = record { at = λ s s' h. ground arith }
  protocol-Pushes Pool.vtep sw = record { at = λ s s' h. ground arith }
  protocol-Pushes Pool.protocol sw = record { at = λ s s' h. ground arith }
  protocol-Pushes Pool.fabric sw = record { at = λ s s' h. ground arith }

  asn-Pushes : (k : Pool) (sw : Switch) → Pushes k [] (check_asn api cfg sw)
  unfolding check_asn
  asn-Pushes Pool.management sw = record { at = λ s s' h. ground arith }
  asn-Pushes Pool.dummy sw = record { at = λ s s' h. ground arith }
  asn-Pushes Pool.vtep sw = record { at = λ s s' h. ground arith }
  asn-Pushes Pool.protocol sw = record { at = λ s s' h. ground arith }
  asn-Pushes Pool.fabric sw = record { at = λ s s' h. ground arith }

  vtep-Pushes : (k : Pool) (sw : Switch) → Pushes k (by_vtep k sw) (check_vtep api vteps sw)
  unfolding check_vtep
  vtep-Pushes Pool.management sw = record { at = λ s s' h. ground arith }
  vtep-Pushes Pool.dummy sw = record { at = λ s s' h. ground arith }
  vtep-Pushes Pool.vtep sw = record { at = λ s s' h. ground arith }
  vtep-Pushes Pool.protocol sw = record { at = λ s s' h. ground arith }
  vtep-Pushes Pool.fabric sw = record { at = λ s s' h. ground arith }

  together :
      (k : Pool) (sw : Switch)
      → ((by_vtep k sw ++ []) ++ by_protocol k sw) ++ by_management k sw ≡ switch_addrs api k sw
  together Pool.management sw = refl
  together Pool.dummy sw = refl
  together Pool.vtep sw = append-nil _ ∙ append-nil _ ∙ append-nil (switch_addrs api Pool.vtep sw)
  together Pool.protocol sw = append-nil (switch_addrs api Pool.protocol sw)
  together Pool.fabric sw = refl

  check_switch-Pushes :
      (k : Pool) (sw : Switch)
      → Pushes k (switch_addrs api k sw) (check_switch api cfg mgmt start vteps protocols sw)
  unfolding check_switch
  check_switch-Pushes k sw =
      subst (λ xs. Pushes k xs (check_switch api cfg mgmt start vteps protocols sw)) (together k sw)
        (Pushes-then k (check_role api sw) _ _ (
          Pushes-bind k _ _ (check_management api mgmt start sw) _ (management-Pushes k sw) (
            Pushes-bind k _ _ (check_protocol api protocols sw) _ (protocol-Pushes k sw) (
              Pushes-bind k _ _ (check_asn api cfg sw) _ (asn-Pushes k sw) (
                Pushes-then k (check_spine_vtep api sw) _ (check_vtep api vteps sw)
                  (vtep-Pushes k sw))))))

  pub check_switches-Pushes :
      (k : Pool) (sws : List Switch)
      → Pushes k
          (pushed (switch_addrs api k) sws)
          (check_switches api cfg mgmt start vteps protocols sws)
  unfolding check_switches
  check_switches-Pushes k sws = Pushes-fold k _ _ sws (check_switch-Pushes k)

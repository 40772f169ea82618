-- ===== src/Fab/Default/Laws.antt =====
-- The defaults of api/fabricator/v1beta1/fabricator_types.go, applied twice.
use fabricator.Common.{
  ℕ, ◌≡◌, refl, String, Bool, true, false, not, ◌&&◌, ◌||◌, Option, none, some, List, [], ◌∷◌,
  arith,
}
use fabricator.Netip.{PrefixText, blank, malformed, text}
use fabricator.Fab.Types.{
  VlanRange, ControlConfig, FabConfig, AlloyConfig, FabricConfig, GatewayConfig,
  ObservabilityConfig, Fabricator,
}
use fabricator.Fab.Targets.Laws.{
  default_prometheus_twice, default_loki_twice, default_pyroscope_twice,
}
use fabricator.Fab.Default.{
  or_else, or_new, default_asns, default_irb_vlans, default_proxy, default_control, default_fabric,
  default_gateway, default_observability, default_config, default,
}

default_asns_twice :
    (e g : ℕ) → default_asns (default_asns e g).0 (default_asns e g).1 ≡ default_asns e g
unfolding default_asns
default_asns_twice e g = ground arith

default_irb_vlans_twice :
    (vs : List VlanRange) → default_irb_vlans (default_irb_vlans vs) ≡ default_irb_vlans vs
unfolding default_irb_vlans
default_irb_vlans_twice [] = refl
default_irb_vlans_twice (v ∷ []) = ground arith
default_irb_vlans_twice (v ∷ w ∷ vs) = refl

default_proxy_twice : (t : PrefixText) → default_proxy (default_proxy t) ≡ default_proxy t
unfolding default_proxy
default_proxy_twice blank = refl
default_proxy_twice (malformed s) = refl
default_proxy_twice (text p) = refl

or_else_twice :
    {A : Type 0} (x : A) (xs ys : List A)
    → or_else (x ∷ xs) (or_else (x ∷ xs) ys) ≡ or_else (x ∷ xs) ys
or_else_twice x xs [] = refl
or_else_twice x xs (y ∷ ys) = refl

or_new_twice : {A : Type 0} (x : A) (o : Option A) → or_new x (or_new x o) ≡ or_new x o
or_new_twice x none = refl
or_new_twice x (some y) = refl

include_twice : (b c d : Bool) → (b || not c && not d) || not c && not d ≡ (b || not c && not d)
include_twice true c d = refl
include_twice false true d = refl
include_twice false false true = refl
include_twice false false false = refl

default_control_twice :
    (d : String) (c : ControlConfig) → default_control d (default_control d c) ≡ default_control d c
unfolding default_control
default_control_twice d c =
    rw (or_else_twice _ _ c.ntp_servers, or_new_twice _ c.observability) refl

default_fabric_twice :
    (d : String) (e : ℕ) (c : FabricConfig)
    → default_fabric d e (default_fabric d e c) ≡ default_fabric d e c
unfolding default_fabric
default_fabric_twice d e c =
    rw
      (
        or_else_twice _ _ c.th5_workaround_vlans,
        or_new_twice _ c.observability,
        default_irb_vlans_twice c.vpc_irb_vlans,
        default_proxy_twice c.proxy_external_subnet,
        include_twice c.include_bcm c.include_clsp c.include_cumulus,
      )
      refl

default_gateway_twice :
    (d : String) (asn : ℕ) (c : GatewayConfig)
    → default_gateway d asn (default_gateway d asn c) ≡ default_gateway d asn c
unfolding default_gateway
default_gateway_twice d asn c =
    rw (or_else_twice _ _ c.communities, or_new_twice _ c.observability) refl

abbrev cleared : AlloyConfig
cleared = record { prometheus_targets = []; loki_targets = [] }

default_observability_twice :
    (old : AlloyConfig) (c : ObservabilityConfig)
    → default_observability cleared (default_observability old c) ≡ default_observability old c
unfolding default_observability
default_observability_twice old c =
    rw
      (
        default_prometheus_twice c.labels old.prometheus_targets c.prometheus,
        default_loki_twice c.labels old.loki_targets c.loki,
        default_pyroscope_twice c.labels c.pyroscope,
      )
      refl

-- The fields that the parts read of one another.
leaf_asn_end-default_fabric :
    (d : String) (e : ℕ) (c : FabricConfig) → (default_fabric d e c).leaf_asn_end ≡ e
unfolding default_fabric
leaf_asn_end-default_fabric d e c = refl

asn-default_gateway : (d : String) (a : ℕ) (c : GatewayConfig) → (default_gateway d a c).asn ≡ a
unfolding default_gateway
asn-default_gateway d a c = refl

alloy-default_fabric :
    (d : String) (e : ℕ) (c : FabricConfig) → (default_fabric d e c).default_alloy_config ≡ cleared
unfolding default_fabric
alloy-default_fabric d e c = refl

defaults-default_observability :
    (old : AlloyConfig) (c : ObservabilityConfig)
    → (default_observability old c).defaults ≡ c.defaults
unfolding default_observability
defaults-default_observability old c = refl

default_config_twice : (c : FabConfig) → default_config (default_config c) ≡ default_config c
unfolding default_config
default_config_twice c =
    let d = c.observability.defaults in
    let e = c.fabric.leaf_asn_end in
    let g = c.gateway.asn in
    let asns = default_asns e g in
    rw
      (
        defaults-default_observability c.fabric.default_alloy_config c.observability,
        leaf_asn_end-default_fabric d asns.0 c.fabric,
        asn-default_gateway d asns.1 c.gateway,
        alloy-default_fabric d asns.0 c.fabric,
        default_asns_twice e g,
        default_control_twice d c.control,
        default_fabric_twice d asns.0 c.fabric,
        default_gateway_twice d asns.1 c.gateway,
        default_observability_twice c.fabric.default_alloy_config c.observability,
      )
      refl

-- Defaulting an object that was defaulted changes nothing.
pub default_twice : (f : Fabricator) → default (default f) ≡ default f
unfolding default
default_twice f = rw (default_config_twice f.config) refl

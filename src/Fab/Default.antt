-- ===== src/Fab/Default.antt =====
-- `Default` of api/fabricator/v1beta1/fabricator_types.go. Each field is set by one function; they
-- are put together in `default`.
use fabricator.Common.{
  ℕ, ◌+◌, ◌*◌, ◌==◌, String, str_eq, Bool, true, false, not, ◌&&◌, ◌||◌, Option, none, some, List,
  [], ◌∷◌, if◌then◌else◌,
}
use fabricator.Netip.{v4, PrefixText, text, is_blank}
use fabricator.Fab.Types.{
  Table, VlanRange, ScrapeRelabelRule, Metrics, ControlObservability, FabricObservability,
  GatewayObservability, AlloyConfig, ControlConfig, FabricConfig, GatewayConfig,
  ObservabilityConfig, FabConfig, Fabricator,
}
use fabricator.Fab.Targets.{default_prometheus, default_loki, default_pyroscope}
pub mod Laws

abbrev pub or_else {ℓ} : {A : Type ℓ} → List A → List A → List A
or_else xs [] = xs
or_else xs (y ∷ ys) = y ∷ ys

abbrev pub or_new {ℓ} : {A : Type ℓ} → A → Option A → Option A
or_new x none = some x
or_new x (some y) = some y

abbrev pub default_servers : List String
default_servers =
    "time.cloudflare.com" ∷ "time1.google.com" ∷ "time2.google.com" ∷ "time3.google.com"
    ∷ "time4.google.com" ∷ []

-- The end of the leaf ASNs and the ASN of the gateways.
unfoldable pub default_asns : ℕ → ℕ → ℕ × ℕ
default_asns leaf_end gateway =
    if leaf_end == 65534 && (gateway == 0 || gateway == 65534)
    then (65533, 65534)
    else (leaf_end, gateway)

-- The old default of the IRB VLANs becomes the new one.
unfoldable pub default_irb_vlans : List VlanRange → List VlanRange
default_irb_vlans [] = []
default_irb_vlans (v ∷ []) =
    if v.from == 3000 && v.to == 3999 then (record v { to = 3899 }) ∷ [] else v ∷ []
default_irb_vlans (v ∷ w ∷ vs) = v ∷ w ∷ vs

abbrev pub default_th5_vlans : List VlanRange
default_th5_vlans = (record { from = 3900; to = 3999 }) ∷ []

-- 172.30.16.0/22
abbrev pub proxy_external_subnet : PrefixText
proxy_external_subnet = text (record { addr = v4 (((172 * 256 + 30) * 256 + 16) * 256); bits = 22 })

unfoldable pub default_proxy : PrefixText → PrefixText
default_proxy t = if is_blank t then proxy_external_subnet else t

abbrev pub default_communities : Table String
default_communities =
    ("0", "50001:0")
    ∷ ("1", "50001:1")
    ∷ ("2", "50001:2")
    ∷ ("3", "50001:3")
    ∷ ("4", "50001:4")
    ∷ ("5", "50001:5")
    ∷ ("6", "50001:6")
    ∷ ("7", "50001:7")
    ∷ ("8", "50001:8")
    ∷ ("9", "50001:9")
    ∷ []

abbrev pub is_on : String → Bool
is_on defaults = not (str_eq defaults "none")

abbrev pub is_minimal : String → Bool
is_minimal defaults = str_eq defaults "minimal"

abbrev keep_rule : String → List ScrapeRelabelRule
keep_rule regex = (record { action = "keep"; regex = regex; source_labels = "__name__" ∷ [] }) ∷ []

abbrev pub control_observability : String → ControlObservability
control_observability defaults = record {
  kube_pod_logs = is_on defaults;
  kube_events = is_on defaults;
}

abbrev unix_collectors : List String
unix_collectors = "cpu" ∷ "loadavg" ∷ "meminfo" ∷ "filesystem" ∷ []

abbrev unix_metrics : String → Metrics
unix_metrics defaults = record {
  metrics = is_on defaults;
  metrics_interval = 60;
  metrics_relabel = if is_minimal defaults then keep_rule ".*(_load).*" else [];
  metrics_collectors = unix_collectors;
}

abbrev pub fabric_observability : String → FabricObservability
fabric_observability defaults = record {
  agent = record {
    metrics = is_on defaults;
    metrics_interval = 60;
    metrics_relabel =
        if is_minimal defaults
        then keep_rule ".*(_in_bits|_status|_generation|_temperature|_transceiver).*"
        else [];
    metrics_collectors = [];
  };
  logs = true;
  unix = unix_metrics defaults;
  syslog = true;
}

abbrev plain_metrics : String → Metrics
plain_metrics defaults = record {
  metrics = is_on defaults;
  metrics_interval = 60;
  metrics_relabel = [];
  metrics_collectors = [];
}

abbrev pub gateway_observability : String → GatewayObservability
gateway_observability defaults = record {
  dataplane = plain_metrics defaults;
  frr = plain_metrics defaults;
  unix = unix_metrics defaults;
}

unfoldable pub default_control : String → ControlConfig → ControlConfig
default_control defaults c = record c {
  ntp_servers = or_else default_servers c.ntp_servers;
  observability = or_new (control_observability defaults) c.observability;
}

unfoldable pub default_fabric : String → ℕ → FabricConfig → FabricConfig
unfolding default_irb_vlans default_proxy
default_fabric defaults leaf_end c = record c {
  leaf_asn_end = leaf_end;
  proxy_external_subnet = default_proxy c.proxy_external_subnet;
  vpc_irb_vlans = default_irb_vlans c.vpc_irb_vlans;
  loopback_workaround_disable = false;
  th5_workaround_vlans = or_else default_th5_vlans c.th5_workaround_vlans;
  default_alloy_config = record { prometheus_targets = []; loki_targets = [] };
  include_bcm = c.include_bcm || not c.include_clsp && not c.include_cumulus;
  observability = or_new (fabric_observability defaults) c.observability;
}

unfoldable pub default_gateway : String → ℕ → GatewayConfig → GatewayConfig
default_gateway defaults asn c = record c {
  asn = asn;
  observability = or_new (gateway_observability defaults) c.observability;
  communities = or_else default_communities c.communities;
}

unfoldable pub default_observability : AlloyConfig → ObservabilityConfig → ObservabilityConfig
default_observability old c = record c {
  prometheus = default_prometheus c.labels old.prometheus_targets c.prometheus;
  loki = default_loki c.labels old.loki_targets c.loki;
  pyroscope = default_pyroscope c.labels c.pyroscope;
}

unfoldable pub default_config : FabConfig → FabConfig
unfolding default_asns default_control default_fabric default_gateway default_observability
default_config c =
    let asns = default_asns c.fabric.leaf_asn_end c.gateway.asn in
    let defaults = c.observability.defaults in
    record c {
      control = default_control defaults c.control;
      fabric = default_fabric defaults asns.0 c.fabric;
      gateway = default_gateway defaults asns.1 c.gateway;
      observability = default_observability c.fabric.default_alloy_config c.observability;
    }

unfoldable pub default : Fabricator → Fabricator
unfolding default_config
default f = record f { config = default_config f.config }

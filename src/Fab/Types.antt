-- ===== src/Fab/Types.antt =====
-- The parts of a Fabricator's spec that `Default` and `Validate` of
-- api/fabricator/v1beta1/fabricator_types.go read or write.
use fabricator.Common.{ℕ, String, Bool, Option, List}
use fabricator.Netip.{PrefixText, AddrText}

-- A map with string keys.
abbrev pub Table {ℓ} : Type ℓ → Type ℓ
Table A = List (String × A)

pub record ControlUser : Type 0 where
  pub password_hash : String
  pub authorized_keys : List String

pub record ControlObservability : Type 0 where
  pub kube_pod_logs : Bool
  pub kube_events : Bool

pub record ControlConfig : Type 0 where
  pub management_subnet : PrefixText
  pub vip : PrefixText
  pub kube_cluster_subnet : PrefixText
  pub kube_service_subnet : PrefixText
  pub kube_cluster_dns : AddrText
  pub dummy_subnet : PrefixText
  pub default_user : ControlUser
  pub no_pass_auth : Bool
  pub ntp_servers : List String
  pub observability : Option ControlObservability

-- `upstream` is the repository of the upstream registry.
pub record RegistryConfig : Type 0 where
  pub mode : String
  pub upstream : Option String

-- `fmeta.VLANRange`
pub record VlanRange : Type 0 where
  pub from : ℕ
  pub to : ℕ

pub record SwitchUser : Type 0 where
  pub password_hash : String
  pub role : String

-- `alloy.ScrapeRelabelRule`
pub record ScrapeRelabelRule : Type 0 where
  pub action : String
  pub regex : String
  pub source_labels : List String

-- One part of an observability setting; the fields that a part does not have are left empty.
pub record Metrics : Type 0 where
  pub metrics : Bool
  pub metrics_interval : ℕ
  pub metrics_relabel : List ScrapeRelabelRule
  pub metrics_collectors : List String

-- `fmeta.Observability`: `logs` of the agent and `syslog` of the unix part.
pub record FabricObservability : Type 0 where
  pub agent : Metrics
  pub logs : Bool
  pub unix : Metrics
  pub syslog : Bool

pub record GatewayObservability : Type 0 where
  pub dataplane : Metrics
  pub frr : Metrics
  pub unix : Metrics

-- `alloy.Target`; a map that is nil is `none`.
pub record BasicAuth : Type 0 where
  pub username : String
  pub password : String

pub record Target : Type 0 where
  pub url : String
  pub basic_auth : Option BasicAuth
  pub bearer_token : String
  pub labels : Option (Table String)
  pub insecure_skip_verify : Bool
  pub ca_pem : String
  pub cert_pem : String

pub record PrometheusTarget : Type 0 where
  pub target : Target
  pub send_interval_seconds : ℕ

-- `fmeta.AlloyTarget`, of the configuration that is kept for backward compatibility.
pub record OldTarget : Type 0 where
  pub url : String
  pub basic_auth : BasicAuth
  pub bearer_token : String
  pub labels : Option (Table String)
  pub insecure_skip_verify : Bool
  pub ca_pem : String
  pub cert_pem : String
  pub send_interval_seconds : ℕ

-- `fmeta.AlloyConfig`
pub record AlloyConfig : Type 0 where
  pub prometheus_targets : Table OldTarget
  pub loki_targets : Table OldTarget

pub record FabricConfig : Type 0 where
  pub mode : String
  pub management_dhcp_start : AddrText
  pub management_dhcp_end : AddrText
  pub spine_asn : ℕ
  pub leaf_asn_start : ℕ
  pub leaf_asn_end : ℕ
  pub protocol_subnet : PrefixText
  pub vtep_subnet : PrefixText
  pub fabric_subnet : PrefixText
  pub proxy_external_subnet : PrefixText
  pub base_vpc_community : String
  pub vpc_irb_vlans : List VlanRange
  pub loopback_workaround_disable : Bool
  pub vpc_workaround_vlans : List VlanRange
  pub vpc_workaround_subnet : PrefixText
  pub th5_workaround_vlans : List VlanRange
  pub eslag_mac_base : String
  pub eslag_esi_prefix : String
  pub mclag_session_subnet : PrefixText
  pub default_switch_users : Table SwitchUser
  pub default_alloy_config : AlloyConfig
  pub include_bcm : Bool
  pub include_clsp : Bool
  pub include_cumulus : Bool
  pub observability : Option FabricObservability

pub record GatewayConfig : Type 0 where
  pub enable : Bool
  pub asn : ℕ
  pub observability : Option GatewayObservability
  pub communities : Table String

pub record ObservabilityConfig : Type 0 where
  pub defaults : String
  pub labels : Table String
  pub prometheus : Option (Table PrometheusTarget)
  pub loki : Option (Table Target)
  pub pyroscope : Option (Table Target)

pub record FabConfig : Type 0 where
  pub control : ControlConfig
  pub registry : RegistryConfig
  pub fabric : FabricConfig
  pub gateway : GatewayConfig
  pub observability : ObservabilityConfig

pub record Fabricator : Type 0 where
  pub name : String
  pub namespace : String
  pub config : FabConfig

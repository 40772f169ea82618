-- ===== src/Fab/Tests.antt =====
-- The theorems about a Fabricator object, at the sample.
use fabricator.Common.{
  ℕ, ◌≡◌, ◌≢◌, refl, String, true, false, some, [], ◌∷◌, ok, arith, All, get_elem?,
}
use fabricator.Netip.{v4, Prefix, contains, parse_prefix, parse_v4_prefix}
use fabricator.Fab.Samples.{fabric_api, fab, done, accepts}
use fabricator.Samples.{ip, net, node}
use fabricator.Status.{read_management, subnet_of}
use fabricator.Status.Types.{ConfigField}
use fabricator.Fab.Types.{SwitchUser}
use fabricator.Fab.Default.{default, default_config, default_control, default_fabric}
use fabricator.Fab.Default.Laws.{default_twice}
use fabricator.Fab.Users.{known_switch_users}
use fabricator.Fab.Users.Laws.{IsUser, has_admin}
use fabricator.Fab.Validate.{validate}
use fabricator.Fab.Validate.Laws.{subnet_texts, validate-apart}
use fabricator.Fab.Validate.Accepted.{AreAsns, validate_twice, validate-AreAsns, validate-IsUser}
use fabricator.Fab.Validate.Communities.{IsCommunity, validate-IsCommunity}
use fabricator.Fab.Hydration.{hydration_config, IsReadable, validate-IsReadable}
use fabricator.Strings.{contains_string}

default_twice_example : default (default fab) ≡ default fab
default_twice_example = default_twice fab

validate_twice_example : validate fabric_api done ≡ ok done
validate_twice_example = validate_twice fabric_api fab done accepts

abbrev mgmt : Prefix
mgmt = record { addr = v4 (ip 172 30 0 0); bits = 21 }

abbrev protocol : Prefix
protocol = record { addr = v4 (ip 172 30 8 0); bits = 22 }

first : get_elem? (subnet_texts done.config) 0 ≡ some (net (ip 172 30 0 0) 21)
unfolding default default_config default_control
first = refl

second : get_elem? (subnet_texts done.config) 1 ≡ some (net (ip 172 30 8 0) 22)
unfolding default default_config default_fabric
second = refl

mgmt_reads : parse_v4_prefix (net (ip 172 30 0 0) 21) ≡ ok mgmt
unfolding parse_v4_prefix parse_prefix
mgmt_reads = refl

protocol_reads : parse_v4_prefix (net (ip 172 30 8 0) 22) ≡ ok protocol
unfolding parse_v4_prefix parse_prefix
protocol_reads = refl

vip_inside : contains mgmt (v4 (ip 172 30 0 1)) ≡ true
unfolding contains
vip_inside = refl

apart : ◌≢◌ {A = ℕ} 0 1
apart = λ e. omega arith

validate-apart_example : contains protocol (v4 (ip 172 30 0 1)) ≡ false
validate-apart_example =
    validate-apart fabric_api fab done 0 1 (net (ip 172 30 0 0) 21) (net (ip 172 30 8 0) 22) mgmt
      protocol (ip 172 30 0 1) accepts first second apart mgmt_reads protocol_reads vip_inside

in_spine_leaf : fabric_api.is_spine_leaf done.config.fabric.mode ≡ true
unfolding default default_config default_fabric
in_spine_leaf = refl

validate-AreAsns_example : AreAsns done.config.fabric done.config.gateway
validate-AreAsns_example = validate-AreAsns fabric_api fab done accepts in_spine_leaf

validate-IsUser_example :
    All IsUser done.config.fabric.default_switch_users
    × All
        (λ (u : String × SwitchUser).
          contains_string (known_switch_users "hhagent" "alloy") u.0 ≡ false)
        done.config.fabric.default_switch_users
    × (has_admin done.config.fabric.default_switch_users ≡ true)
validate-IsUser_example = validate-IsUser fabric_api fab done accepts

validate-IsCommunity_example : All IsCommunity done.config.gateway.communities
validate-IsCommunity_example = validate-IsCommunity fabric_api fab done accepts

validate-IsReadable_example :
    IsReadable (read_management (hydration_config done.config (node "control-1" ∷ []) []))
    × ((p : Prefix) × (subnet_of ConfigField.vtep_subnet done.config.fabric.vtep_subnet ≡ ok p))
    × ((p : Prefix) × (subnet_of ConfigField.protocol_subnet done.config.fabric.protocol_subnet
          ≡ ok p))
    × ((p : Prefix) × (subnet_of ConfigField.fabric_subnet done.config.fabric.fabric_subnet ≡ ok p))
validate-IsReadable_example =
    validate-IsReadable fabric_api fab done (node "control-1" ∷ []) [] accepts

-- ===== src/Vlab/Options.antt =====
-- The options of the default builder and their checks: the first half of `Build` of
-- `VLABBuilderDefault`, pkg/hhfab/vlabbuilder.go. The counts are `uint8`, and so are their sums.
use fabricator.Common.{
  ℕ, ◌+◌, ◌%◌, ◌==◌, ltb, String, str_eq, Bool, not, ◌&&◌, ◌||◌, Option, none, some, List, [], ◌∷◌,
  Result, ok, err, ◌>>=◌, ◌>>◌, require, refuse, if◌then◌else◌,
}
use fabricator.Strings.{contains_string, split, parse_uint}
use fabricator.Fab.Types.{Table}
use fabricator.Vlab.{BuilderBase, LabApi}
use fabricator.Vlab.Text.{trim_space, atoi_byte}

-- `VLABBuilderDefault`
pub record Options : Type 0 where
  pub spines_count : ℕ
  pub fabric_links_count : ℕ
  pub mesh_links_count : ℕ
  pub eslag_leaf_groups : String
  pub orphan_leafs_count : ℕ
  pub eslag_servers : ℕ
  pub unbundled_servers : ℕ
  pub bundled_servers : ℕ
  pub multi_homed_servers : ℕ
  pub no_switches : Bool
  pub gateway_uplinks : ℕ
  pub gateway_driver : String
  pub gateway_workers : ℕ
  pub gateway_log_level : String
  pub gateway_tags : Table String
  pub ext_bgp_count : ℕ
  pub ext_static_count : ℕ
  pub ext_static_proxy_count : ℕ
  pub ext_eslag_conn_count : ℕ
  pub ext_orphan_conn_count : ℕ
  pub yes_flag : Bool
  pub base : BuilderBase

abbrev pub or_count : ℕ → ℕ → ℕ
or_count n count = if count == 0 then n else count

-- Without any leaf, one ESLAG group of two and one orphan.
unfoldable pub default_leafs : Options → Options
default_leafs o =
    if o.orphan_leafs_count == 0 && str_eq o.eslag_leaf_groups ""
    then record o { eslag_leaf_groups = "2"; orphan_leafs_count = 1 }
    else o

-- The defaults of the two topologies.
unfoldable pub default_switches : Options → Result String Options
unfolding default_leafs
default_switches o =
    if o.mesh_links_count == 0
    then ok (
        default_leafs (record o {
          spines_count = or_count 2 o.spines_count;
          fabric_links_count = or_count 2 o.fabric_links_count;
        }))
    else (if o.spines_count == 0
        then ok (default_leafs o)
        else err "spines not supported for when using mesh connections")

unfoldable pub default_topology : Bool → Options → Result String Options
unfolding default_switches
default_topology spine_leaf o =
    require spine_leaf "unsupported fabric mode"
    >> refuse (ltb 0 o.mesh_links_count && ltb 0 o.fabric_links_count)
        "cannot use both mesh and fabric links at the same time"
    >> (if o.no_switches then ok o else default_switches o)

pub check_overrides : List String → Table String → Result String (Unit {0})
check_overrides profiles [] = ok tt
check_overrides profiles ((name, profile) ∷ rest) =
    require (contains_string profiles profile) "unsupported switch profile override"
    >> check_overrides profiles rest

unfoldable pub check_profiles : List String → BuilderBase → Result String (Unit {0})
unfolding check_overrides
check_profiles profiles b =
    require (contains_string profiles b.default_switch_profile) "unsupported default switch profile"
    >> check_overrides profiles b.switch_profile_overrides

abbrev pub gateway_drivers : List String
gateway_drivers = "kernel" ∷ "dpdk" ∷ []

pub check_tags : List String → Table String → Result String (Unit {0})
check_tags levels [] = ok tt
check_tags levels ((target, level) ∷ rest) =
    require (contains_string levels level) "invalid gateway log level for tag target"
    >> check_tags levels rest

abbrev add_byte : Option ℕ → ℕ → ℕ
add_byte none n = n
add_byte (some m) n = (m + n) % 256

-- The leafs of the groups that are numbers, for the uplinks of the gateways.
unfoldable pub count_leafs : List String → ℕ
count_leafs [] = 0
count_leafs (g ∷ groups) = add_byte (atoi_byte (trim_space g)) (count_leafs groups)

abbrev pub split_groups : String → List String
split_groups s = if str_eq s "" then [] else split 44 s

-- `GatewayUplinks`: the default, or the check of the one given. `leafs`: `uint8(totalESLAGLeafs)`.
unfoldable pub gateway_uplinks : ℕ → Options → Result String ℕ
gateway_uplinks leafs o =
    let all = (leafs + o.orphan_leafs_count) % 256 in
    let least = λ (n : ℕ). if ltb n 2 then n else 2 in
    if o.gateway_uplinks == 0
    then (if ltb 0 o.spines_count
        then ok (least o.spines_count)
        else (if ltb 0 o.mesh_links_count then ok (least all) else ok 0))
    else (if ltb 0 o.mesh_links_count
        then (if ltb all o.gateway_uplinks
            then err "gateway uplinks count must be ≤ total leaf switches (ESLAG + orphan)"
            else ok o.gateway_uplinks)
        else (if ltb o.spines_count o.gateway_uplinks
            then err "gateway uplinks count must be ≤ spines count"
            else ok o.gateway_uplinks))

unfoldable pub gateway_options : List String → Options → Result String Options
unfolding check_tags count_leafs gateway_uplinks
gateway_options levels o =
    let driver = if str_eq o.gateway_driver "" then "kernel" else o.gateway_driver in
    require (contains_string gateway_drivers driver) "unsupported gateway driver"
    >> require (contains_string levels o.gateway_log_level) "invalid gateway log level"
    >> check_tags levels o.gateway_tags
    >> (gateway_uplinks (count_leafs (split_groups o.eslag_leaf_groups)) o >>= λ uplinks.
        ok (record o {
          gateway_driver = driver;
          gateway_workers = or_count 8 o.gateway_workers;
          gateway_uplinks = uplinks;
        }))

abbrev pub group_size : Option ℕ → Result String ℕ
group_size none = err "invalid ESLAG leaf group"
group_size (some n) =
    if ltb n 2 || ltb 4 n then err "ESLAG leaf group must have 2-4 leafs" else ok n

-- `eslagLeafGroups`
unfoldable pub leaf_groups : List String → Result String (List ℕ)
leaf_groups [] = ok []
leaf_groups (part ∷ parts) =
    group_size (parse_uint (trim_space part) 8) >>= λ n. (leaf_groups parts >>= λ ns. ok (n ∷ ns))

-- `totalESLAGLeafs`
unfoldable pub total_leafs : List ℕ → ℕ
total_leafs [] = 0
total_leafs (n ∷ ns) = (n + total_leafs ns) % 256

unfoldable pub check_counts : ℕ → Options → Result String (Unit {0})
check_counts total o =
    refuse (ltb 0 o.multi_homed_servers && ltb ((o.orphan_leafs_count + total) % 256) 2)
      "at least two leaves are needed for multihomed servers"
    >> refuse (ltb total o.ext_eslag_conn_count)
        "external ESLAG connections count must be less than or equal to total ESLAG leaves"
    >> refuse (ltb o.orphan_leafs_count o.ext_orphan_conn_count)
        "external orphan connections count must be less than or equal to orphan leaves"
    >> refuse (ltb 1 ((o.ext_eslag_conn_count + o.ext_orphan_conn_count) % 256) && not o.yes_flag)
        "Multiple external connections are not supported if using virtual switches"
    >> refuse (ltb 1 o.ext_static_count) "multiple non-proxy static externals are not supported"

unfoldable pub no_eslag_servers : ℕ → Options → Options
no_eslag_servers total o = if total == 0 then record o { eslag_servers = 0 } else o

-- The groups, and the counts that depend on them.
unfoldable pub check_groups : Options → Result String (Options × List ℕ)
unfolding leaf_groups total_leafs check_counts no_eslag_servers
check_groups o = leaf_groups (split_groups o.eslag_leaf_groups) >>= λ groups.
    (check_counts (total_leafs groups) (no_eslag_servers (total_leafs groups) o)
      >> ok (no_eslag_servers (total_leafs groups) o, groups))

-- The options with their defaults, and the sizes of the ESLAG groups.
unfoldable pub check_options : LabApi → String → Bool → Options → Result String (Options × List ℕ)
unfolding default_topology check_profiles gateway_options check_groups
check_options api mode is_gw o = default_topology (api.is_spine_leaf mode) o >>= λ o1.
    (check_profiles api.virtual_switch_profiles o1.base
      >> ((if is_gw then gateway_options api.gateway_log_levels o1 else ok o1) >>= check_groups))

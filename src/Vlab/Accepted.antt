-- ===== src/Vlab/Accepted.antt =====
-- What the options hold that the checks of `Build` of `VLABBuilderDefault` accept,
-- pkg/hhfab/vlabbuilder.go.
use fabricator.Common.{
  ℕ, ◌+◌, ◌%◌, ◌≤◌, ◌<◌, ◌==◌, String, Bool, true, false, Option, none, some, List, [], ◌∷◌, All,
  ◌≡◌, refl, subst, Result, ok, err, ok-injective, bind-eq-ok, then-eq-ok, ◌>>◌, if◌then◌else◌,
  arith,
}
use fabricator.Strings.{parse_uint}
use fabricator.Vlab.{LabApi}
use fabricator.Vlab.Text.{trim_space}
use fabricator.Vlab.Options.{
  Options, default_topology, check_profiles, gateway_options, gateway_uplinks, group_size,
  leaf_groups, total_leafs, check_counts, no_eslag_servers, split_groups, check_options,
  check_groups,
}

group_size-bounds : (p : Option ℕ) (n : ℕ) → group_size p ≡ ok n → (2 ≤ n) × (n ≤ 4)
group_size-bounds none n e = cc
group_size-bounds (some m) n e = ground arith

leaf_groups-bounds :
    (parts : List String) (groups : List ℕ)
    → leaf_groups parts ≡ ok groups
    → All (λ n. (2 ≤ n) × (n ≤ 4)) groups
unfolding leaf_groups
leaf_groups-bounds [] groups e = subst (All (λ n. (2 ≤ n) × (n ≤ 4))) (ok-injective e) tt
leaf_groups-bounds (part ∷ parts) groups e =
    let (n, en, e1) = bind-eq-ok (group_size (parse_uint (trim_space part) 8)) _ e in
    let (ns, ens, e2) = bind-eq-ok (leaf_groups parts) _ e1 in
    subst (All (λ n. (2 ≤ n) × (n ≤ 4))) (ok-injective e2)
      (group_size-bounds (parse_uint (trim_space part) 8) n en, leaf_groups-bounds parts ns ens)

-- The options as they are built, with the sizes of the ESLAG groups.
pub record IsBuildable (is_gw : Bool) (o : Options) (groups : List ℕ) : Type 0 where
  pub sizes : All (λ n. (2 ≤ n) × (n ≤ 4)) groups
  pub multi_homed :
      0 < o.multi_homed_servers → 2 ≤ (o.orphan_leafs_count + total_leafs groups) % 256
  pub eslag_conns : o.ext_eslag_conn_count ≤ total_leafs groups
  pub orphan_conns : o.ext_orphan_conn_count ≤ o.orphan_leafs_count
  pub statics : o.ext_static_count ≤ 1
  pub eslag_servers : total_leafs groups ≡ 0 → o.eslag_servers ≡ 0
  pub uplinks : is_gw ≡ true → o.mesh_links_count ≡ 0 → o.gateway_uplinks ≤ o.spines_count

-- The bounds that `check_counts` leaves.
check_counts-bounds :
    (total : ℕ) (o : Options)
    → check_counts total o ≡ ok tt
    → (0 < o.multi_homed_servers → 2 ≤ (o.orphan_leafs_count + total) % 256)
      × (o.ext_eslag_conn_count ≤ total)
      × (o.ext_orphan_conn_count ≤ o.orphan_leafs_count)
      × (o.ext_static_count ≤ 1)
unfolding check_counts
check_counts-bounds total o e = (λ more. ground arith, ground arith, ground arith, ground arith)

gateway_uplinks-bound :
    (leafs : ℕ) (o : Options) (u : ℕ)
    → gateway_uplinks leafs o ≡ ok u
    → o.mesh_links_count ≡ 0
    → u ≤ o.spines_count
unfolding gateway_uplinks
gateway_uplinks-bound leafs o u e none_meshed = ground arith

gateway_options-bound :
    (levels : List String) (o o' : Options)
    → gateway_options levels o ≡ ok o'
    → o'.mesh_links_count ≡ 0
    → o'.gateway_uplinks ≤ o'.spines_count
unfolding gateway_options
gateway_options-bound levels o o' e none_meshed =
    let e3 = then-eq-ok _ _ e in
    let (u, eu, e4) = bind-eq-ok (gateway_uplinks _ o) _ e3 in
    subst (λ (x : Options). x.mesh_links_count ≡ 0 → x.gateway_uplinks ≤ x.spines_count)
      (ok-injective e4) (λ h. gateway_uplinks-bound _ o u eu h) none_meshed

optional_gateway :
    (is_gw : Bool) (levels : List String) (o o' : Options)
    → (if is_gw then gateway_options levels o else ok o) ≡ ok o'
    → is_gw ≡ true
    → o'.mesh_links_count ≡ 0
    → o'.gateway_uplinks ≤ o'.spines_count
optional_gateway true levels o o' e g h = gateway_options-bound levels o o' e h
optional_gateway false levels o o' e g h = cc g

counted-IsBuildable :
    (is_gw : Bool) (o : Options) (groups : List ℕ) (b : Bool)
    → (total_leafs groups == 0) ≡ b
    → All (λ n. (2 ≤ n) × (n ≤ 4)) groups
    → check_counts (total_leafs groups) (if b then record o { eslag_servers = 0 } else o) ≡ ok tt
    → (is_gw ≡ true → o.mesh_links_count ≡ 0 → o.gateway_uplinks ≤ o.spines_count)
    → IsBuildable is_gw (if b then record o { eslag_servers = 0 } else o) groups
counted-IsBuildable is_gw o groups true e sizes c up =
    let (m, l, r, s) =
      check_counts-bounds (total_leafs groups) (record o { eslag_servers = 0 }) c in
    record {
      sizes = sizes;
      multi_homed = m;
      eslag_conns = l;
      orphan_conns = r;
      statics = s;
      eslag_servers = λ h. refl;
      uplinks = up;
    }
counted-IsBuildable is_gw o groups false e sizes c up =
    let (m, l, r, s) = check_counts-bounds (total_leafs groups) o c in
    record {
      sizes = sizes;
      multi_homed = m;
      eslag_conns = l;
      orphan_conns = r;
      statics = s;
      eslag_servers = λ h. ground arith;
      uplinks = up;
    }

finish-IsBuildable :
    (is_gw : Bool) (o o' : Options) (groups gs : List ℕ) (r : Result String (Unit {0}))
    → All (λ n. (2 ≤ n) × (n ≤ 4)) gs
    → check_counts (total_leafs gs) (no_eslag_servers (total_leafs gs) o) ≡ r
    → ◌>>◌ {B = Options × List ℕ} r (ok (no_eslag_servers (total_leafs gs) o, gs)) ≡ ok (o', groups)
    → (is_gw ≡ true → o.mesh_links_count ≡ 0 → o.gateway_uplinks ≤ o.spines_count)
    → IsBuildable is_gw o' groups
unfolding no_eslag_servers
finish-IsBuildable is_gw o o' groups gs (ok x) sizes c e up =
    subst (λ (q : Options × List ℕ). IsBuildable is_gw q.0 q.1) (ok-injective e)
      (counted-IsBuildable is_gw o gs (total_leafs gs == 0) refl sizes c up)
finish-IsBuildable is_gw o o' groups gs (err x) sizes c e up = cc e

check_groups-IsBuildable :
    (is_gw : Bool) (o o' : Options) (groups : List ℕ)
    → check_groups o ≡ ok (o', groups)
    → (is_gw ≡ true → o.mesh_links_count ≡ 0 → o.gateway_uplinks ≤ o.spines_count)
    → IsBuildable is_gw o' groups
unfolding check_groups
check_groups-IsBuildable is_gw o o' groups e up =
    let (gs, en, e1) = bind-eq-ok (leaf_groups (split_groups o.eslag_leaf_groups)) _ e in
    finish-IsBuildable is_gw o o' groups gs
      (check_counts (total_leafs gs) (no_eslag_servers (total_leafs gs) o))
      (leaf_groups-bounds (split_groups o.eslag_leaf_groups) gs en) refl e1 up

-- Options that the checks accept are as they are built: every ESLAG group has two to four leafs,
-- there are two leafs for multi-homed servers, no more external connections than leafs of their
-- kind, one static external without proxy at most, servers at ESLAG groups only with such groups,
-- and, with gateways and without a mesh, no more uplinks than spines.
pub check_options-IsBuildable :
    (api : LabApi) (mode : String) (is_gw : Bool) (o o' : Options) (groups : List ℕ)
    → check_options api mode is_gw o ≡ ok (o', groups)
    → IsBuildable is_gw o' groups
unfolding check_options
check_options-IsBuildable api mode is_gw o o' groups e =
    let (o1, e1, f1) = bind-eq-ok (default_topology (api.is_spine_leaf mode) o) _ e in
    let f2 = then-eq-ok (check_profiles api.virtual_switch_profiles o1.base) _ f1 in
    let (o2, e2, f3) =
      bind-eq-ok (if is_gw then gateway_options api.gateway_log_levels o1 else ok o1) check_groups
        f2 in
    check_groups-IsBuildable is_gw o2 o' groups f3
      (optional_gateway is_gw api.gateway_log_levels o1 o2 e2)

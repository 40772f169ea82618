-- ===== src/Fab/Load.antt =====
-- `GetFabAndNodes` of pkg/fab/fabutil.go: the Fabricator and its nodes, read and validated.
use Prim.Native.Nat.{Ordering}
use fabricator.Common.{
  ℕ, ◌==◌, ltb, String, str_eq, str_compare, Bool, true, false, not, ◌&&◌, ◌||◌, Option, none, some,
  List, [], ◌∷◌, Result, ok, err, ◌>>=◌, ◌>>◌, require, refuse, map_err, length, if◌then◌else◌,
}
use fabricator.Strings.{contains_string}
use fabricator.Allocate.Types.{sort_func}
use fabricator.Fab.Types.{FabConfig, ControlConfig, Fabricator}
use fabricator.Fab.Validate.{FabricApi, ValidateError, validate}
use fabricator.Fab.Nodes.{NodeSpec, NodeLists, NodeError, RolesApi, validate_control, validate_node}
pub mod Laws
mod Tests

pub record Options : Type 0 where
  pub allow_not_hydrated : Bool
  pub allow_no_controls : Bool
  pub no_calculate_versions : Bool

-- An option holds if one of the given ones has it.
unfoldable pub merge_options : List Options → Options
merge_options [] = record {
  allow_not_hydrated = false;
  allow_no_controls = false;
  no_calculate_versions = false;
}
merge_options (o ∷ os) =
    let rest = merge_options os in
    record {
      allow_not_hydrated = o.allow_not_hydrated || rest.allow_not_hydrated;
      allow_no_controls = o.allow_no_controls || rest.allow_no_controls;
      no_calculate_versions = o.no_calculate_versions || rest.no_calculate_versions;
    }

-- What stands outside: the Kubernetes client, `mergo.Merge` with the default configuration, and the
-- merge of the versions, which is outside of the spec. `none` is an error.
pub record LoadApi : Type 0 where
  pub get_fabricator : Option Fabricator
  pub count_fabricators : Option ℕ
  pub merge_defaults : FabConfig → Option FabConfig
  pub calculate_versions : Fabricator → Option (Unit {0})
  pub all_controls : Option (List NodeSpec)
  pub all_nodes : Option (List NodeSpec)
  -- The lists of the namespace, for the validation of a node.
  pub in_namespace : NodeLists

pub data LoadError : Type 0 where
  getting_fabricator listing_fabricators not_one_fabricator merging_defaults : LoadError
  invalid_fabricator : ValidateError → LoadError
  calculating_versions listing_controls no_controls many_controls : LoadError
  invalid_control invalid_node : String → NodeError → LoadError
  listing_nodes : LoadError
  duplicate_name : String → LoadError

abbrev called {ℓ} : {A : Type ℓ} → LoadError → Option A → Result LoadError A
called e none = err e
called e (some a) = ok a

unfoldable pub compare_nodes : NodeSpec → NodeSpec → Ordering
compare_nodes a b = str_compare a.name b.name

-- The loop over the control nodes, with the names that are taken.
unfoldable pub check_controls :
    ControlConfig → Bool → List NodeSpec → List String → Result LoadError (List String)
check_controls c allow [] names = ok names
check_controls c allow (n ∷ ns) names = do
  map_err (invalid_control n.name) (validate_control (some c) allow n)
  check_controls c allow ns (n.name ∷ names)

unfoldable pub check_nodes :
    RolesApi
    → ControlConfig
    → Bool
    → NodeLists
    → List NodeSpec
    → List String
    → Result LoadError (List String)
check_nodes api c allow lists [] names = ok names
check_nodes api c allow lists (n ∷ ns) names = do
  map_err (invalid_node n.name) (validate_node api (some c) allow (some lists) n)
  refuse (contains_string names n.name) (duplicate_name n.name)
  check_nodes api c allow lists ns (n.name ∷ names)

module _ (fabric_api : FabricApi) (roles_api : RolesApi) (api : LoadApi) where
  pub check_versions : Options → Fabricator → Result LoadError (Unit {0})
  check_versions opts f =
      if opts.no_calculate_versions
      then ok tt
      else called calculating_versions (api.calculate_versions f)

  -- The Fabricator, with its defaults and validated.
  unfoldable pub load_fabricator : Options → Result LoadError Fabricator
  unfolding check_versions
  load_fabricator opts = do
    f ← called getting_fabricator api.get_fabricator
    count ← called listing_fabricators api.count_fabricators
    require (count == 1) not_one_fabricator
    merged ← called merging_defaults (api.merge_defaults f.config)
    f' ← map_err invalid_fabricator (validate fabric_api (record f { config = merged }))
    check_versions opts f'
    ok f'

  -- `GetFabAndNodes`
  unfoldable pub get_fab_and_nodes :
      List Options → Result LoadError (Fabricator × List NodeSpec × List NodeSpec)
  get_fab_and_nodes options = do
    let opts = merge_options options
    f ← load_fabricator opts
    controls ← called listing_controls api.all_controls
    refuse (not opts.allow_no_controls && (length controls == 0)) no_controls
    refuse (ltb 1 (length controls)) many_controls
    names ← check_controls f.config.control opts.allow_not_hydrated controls []
    nodes ← called listing_nodes api.all_nodes
    all_names ←
        check_nodes roles_api f.config.control opts.allow_not_hydrated api.in_namespace nodes names
    ok (f, sort_func compare_nodes controls, sort_func compare_nodes nodes)

-- ===== src/Fab/Load/Laws.antt =====
-- What `GetFabAndNodes` returns.
use fabricator.Common.{
  ◌≤◌, ◌==◌, ltb, ◌≡◌, refl, ◌⊎◌, inl, inr, subst, sym, ap, ok-injective, String, str_eq, Bool,
  true, false, not, ◌&&◌, some, List, [], ◌∷◌, Result, ok, err, arith, All, All-map, length,
  bind-eq-ok, require, refuse, map_err,
}
use fabricator.Strings.{contains_string}
use fabricator.Allocate.Types.{sort_func}
use fabricator.Allocate.Types.Laws.{length-sort_func, All-sort_func}
use fabricator.Fab.Types.{ControlConfig, Fabricator}
use fabricator.Fab.Validate.{FabricApi, validate}
use fabricator.Fab.Validate.Accepted.{validate_twice}
use fabricator.Fab.Nodes.{NodeSpec, NodeLists, RolesApi, validate_control, validate_node}
use fabricator.Fab.Load.{
  Options, LoadApi, called, merge_options, compare_nodes, check_controls, check_nodes,
  load_fabricator, check_versions, get_fab_and_nodes, invalid_control, invalid_node, duplicate_name,
  invalid_fabricator, getting_fabricator, listing_fabricators, not_one_fabricator, merging_defaults,
  listing_controls, no_controls, many_controls, listing_nodes,
}

ok-map_err :
    {E F : Type 0} (f : E → F) (r : Result {0, 0} E (Unit {0})) → map_err f r ≡ ok tt → r ≡ ok tt
ok-map_err f (ok b) h = refl
ok-map_err f (err e) h = cc

value-map_err :
    {E F A : Type 0} (f : E → F) (r : Result E A) (a : A) → map_err f r ≡ ok a → r ≡ ok a
value-map_err f (ok b) a h = ap ok (ok-injective h)
value-map_err f (err e) a h = cc

module _ (c : ControlConfig) (allow : Bool) where
  abbrev IsControl : NodeSpec → Type 0
  IsControl n = validate_control (some c) allow n ≡ ok tt

  check_controls-IsControl :
      (ns : List NodeSpec) (names names' : List String)
      → check_controls c allow ns names ≡ ok names'
      → All IsControl ns
  unfolding check_controls
  check_controls-IsControl [] names names' h = tt
  check_controls-IsControl (n ∷ ns) names names' h =
      let (_, e, k) =
        bind-eq-ok (map_err (invalid_control n.name) (validate_control (some c) allow n)) _ h in
      (ok-map_err _ _ e, check_controls-IsControl ns _ names' k)

  -- The names of the control nodes are taken.
  check_controls-names :
      (ns : List NodeSpec) (names names' : List String) (name : String)
      → check_controls c allow ns names ≡ ok names'
      → contains_string names' name ≡ false
      → (contains_string names name ≡ false) × All (λ n. str_eq n.name name ≡ false) ns
  unfolding check_controls
  check_controls-names [] names names' name h k =
      (subst (λ l. contains_string l name ≡ false) (sym (ok-injective h)) k, tt)
  check_controls-names (n ∷ ns) names names' name h k =
      let (_, e, h) =
        bind-eq-ok (map_err (invalid_control n.name) (validate_control (some c) allow n)) _ h in
      let (a, r) = check_controls-names ns (n.name ∷ names) names' name h k in
      (ground arith, (ground arith, r))

  module _ (api : RolesApi) (lists : NodeLists) where
    abbrev IsNode : NodeSpec → Type 0
    IsNode n = validate_node api (some c) allow (some lists) n ≡ ok tt

    -- Every node is valid, and has none of the names that were taken before.
    check_nodes-IsNode :
        (ns : List NodeSpec) (names names' : List String)
        → check_nodes api c allow lists ns names ≡ ok names'
        → All (λ n. IsNode n × (contains_string names n.name ≡ false)) ns
    unfolding check_nodes
    check_nodes-IsNode [] names names' h = tt
    check_nodes-IsNode (n ∷ ns) names names' h =
        let (_, e, h) =
          bind-eq-ok
            (map_err (invalid_node n.name) (validate_node api (some c) allow (some lists) n)) _ h in
        let (_, d, h) =
          bind-eq-ok (refuse (contains_string names n.name) (duplicate_name n.name)) _ h in
        (
          (ok-map_err _ _ e, ground arith),
          All-map ns (λ m k. (k.0, ground arith)) (check_nodes-IsNode ns (n.name ∷ names) names' h),
        )

at_least :
    (b : Bool) (l : List NodeSpec)
    → refuse (not b && (length l == 0)) no_controls ≡ ok tt
    → (ltb 1 (length l) ≡ false)
    → (b ≡ true) ⊎ (length l ≡ 1)
at_least true l h k = inl refl
at_least false [] h k = cc
at_least false (n ∷ []) h k = inr refl
at_least false (n ∷ m ∷ l) h k = ground arith

module _ (fabric_api : FabricApi) (roles_api : RolesApi) (api : LoadApi)
    (options : List Options) where
  abbrev allow : Bool
  allow = (merge_options options).allow_not_hydrated

  -- The object is valid as it is; there is one control node, or none where that is allowed; the nodes
  -- are valid, and no node has the name of a control node.
  pub record IsLoaded (f : Fabricator) (controls nodes : List NodeSpec) : Type 0 where
    pub fabricator_valid : validate fabric_api f ≡ ok f
    pub at_most_one : length controls ≤ 1
    pub at_least_one : ((merge_options options).allow_no_controls ≡ true) ⊎ (length controls ≡ 1)
    pub controls_valid :
        All (λ n. validate_control (some f.config.control) allow n ≡ ok tt) controls
    pub nodes_valid :
        All
          (λ n.
            validate_node roles_api (some f.config.control) allow (some api.in_namespace) n ≡ ok tt)
          nodes
    pub names_apart : All (λ n. All (λ m. str_eq m.name n.name ≡ false) controls) nodes

  loaded-valid :
      (f : Fabricator)
      → load_fabricator fabric_api roles_api api (merge_options options) ≡ ok f
      → validate fabric_api f ≡ ok f
  unfolding load_fabricator
  loaded-valid f h =
      let (g, _, h) = bind-eq-ok (called getting_fabricator api.get_fabricator) _ h in
      let (n, _, h) = bind-eq-ok (called listing_fabricators api.count_fabricators) _ h in
      let (_, _, h) = bind-eq-ok (require (n == 1) not_one_fabricator) _ h in
      let (m, _, h) = bind-eq-ok (called merging_defaults (api.merge_defaults g.config)) _ h in
      let g' : Fabricator = record g { config = m } in
      let (v, e, h) = bind-eq-ok (map_err invalid_fabricator (validate fabric_api g')) _ h in
      let (_, _, h) =
        bind-eq-ok (check_versions fabric_api roles_api api (merge_options options) v) _ h in
      let e' = value-map_err _ (validate fabric_api g') v e in
      subst (λ x. validate fabric_api x ≡ ok x) (ok-injective h) (validate_twice fabric_api g' v e')

  -- When `GetFabAndNodes` returns, the Fabricator is valid as it is, there is one control node or,
  -- where that is allowed, none, every node is valid, and no node has the name of a control node.
  pub get_fab_and_nodes-IsLoaded :
      (r : Fabricator × List NodeSpec × List NodeSpec)
      → get_fab_and_nodes fabric_api roles_api api options ≡ ok r
      → IsLoaded r.0 r.1 r.2
  unfolding get_fab_and_nodes
  get_fab_and_nodes-IsLoaded r h =
      let opts = merge_options options in
      let (f, v, h) = bind-eq-ok (load_fabricator fabric_api roles_api api opts) _ h in
      let (controls, _, h) = bind-eq-ok (called listing_controls api.all_controls) _ h in
      let (_, k, h) =
        bind-eq-ok (refuse (not opts.allow_no_controls && (length controls == 0)) no_controls) _
          h in
      let (_, l, h) = bind-eq-ok (refuse (ltb 1 (length controls)) many_controls) _ h in
      let (names, c, h) = bind-eq-ok (check_controls f.config.control allow controls []) _ h in
      let (nodes, _, h) = bind-eq-ok (called listing_nodes api.all_nodes) _ h in
      let (all_names, n, h) =
        bind-eq-ok (check_nodes roles_api f.config.control allow api.in_namespace nodes names) _
          h in
      let valid =
        check_nodes-IsNode f.config.control allow roles_api api.in_namespace nodes names all_names
          n in
      let loaded : IsLoaded f (sort_func compare_nodes controls) (sort_func compare_nodes nodes) =
        record {
          fabricator_valid = loaded-valid f v;
          at_most_one = rw (length-sort_func compare_nodes controls) (ground arith);
          at_least_one =
              rw (length-sort_func compare_nodes controls)
                (at_least opts.allow_no_controls controls k (ground arith));
          controls_valid =
              All-sort_func compare_nodes _ controls
                (check_controls-IsControl f.config.control allow controls [] names c);
          nodes_valid = All-sort_func compare_nodes _ nodes (All-map nodes (λ m k. k.0) valid);
          names_apart = All-sort_func compare_nodes _ nodes (
              All-map nodes
                (λ m k.
                  All-sort_func compare_nodes _ controls
                    (check_controls-names f.config.control allow controls [] names m.name c k.1).1)
                valid);
        } in
      subst (λ (x : Fabricator × List NodeSpec × List NodeSpec). IsLoaded x.0 x.1 x.2)
        (ok-injective h) loaded

-- ===== src/Fab/Load/Tests.antt =====
-- A Fabricator with a control node and two other nodes, loaded.
use fabricator.Common.{◌≡◌, refl, some, List, [], ◌∷◌, ok}
use fabricator.Netip.{contains, parse_prefix, parse_v4_prefix}
use fabricator.Fab.Samples.{fabric_api, roles_api, fab, done, accepts, numbered}
use fabricator.Fab.Default.{default, default_config, default_control}
use fabricator.Fab.Nodes.{
  NodeSpec, parse_prefix_or_dhcp, field_of, check_addresses, taken, listed_nodes, check_unused,
  check_hydrated, validate_control, validate_node,
}
use fabricator.Fab.Load.{
  LoadApi, check_controls, check_nodes, merge_options, get_fab_and_nodes, load_fabricator,
  compare_nodes,
}
use fabricator.Allocate.Types.{sort_func}
use fabricator.Fab.Load.Laws.{IsLoaded, get_fab_and_nodes-IsLoaded}

abbrev controls : List NodeSpec
controls = numbered "control-1" 5 0 ∷ []

abbrev nodes : List NodeSpec
nodes = numbered "gw-2" 7 4 ∷ numbered "gw-1" 6 2 ∷ []

abbrev load_api : LoadApi
load_api = record {
  get_fabricator = some fab;
  count_fabricators = some 1;
  merge_defaults = λ c. some c;
  calculate_versions = λ f. some tt;
  all_controls = some controls;
  all_nodes = some nodes;
  in_namespace = record { controls = some controls; nodes = some nodes };
}

abbrev sorted : List NodeSpec
sorted = numbered "gw-1" 6 2 ∷ numbered "gw-2" 7 4 ∷ []

loads : get_fab_and_nodes fabric_api roles_api load_api [] ≡ ok (done, controls, sorted)
unfolding get_fab_and_nodes load_fabricator merge_options check_controls check_nodes compare_nodes
    sort_func default default_config default_control validate_control validate_node
    parse_prefix_or_dhcp check_hydrated check_addresses check_unused field_of taken listed_nodes
    contains parse_prefix parse_v4_prefix
loads = rw accepts refl

get_fab_and_nodes-IsLoaded_example : IsLoaded fabric_api roles_api load_api [] done controls sorted
get_fab_and_nodes-IsLoaded_example =
    get_fab_and_nodes-IsLoaded fabric_api roles_api load_api [] (done, controls, sorted) loads

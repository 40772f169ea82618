-- ===== src/Allocate/Nodes.antt =====
-- The control nodes and the other nodes in `hydrate` of pkg/hhfab/hydrate.go.
pub mod Laws
use fabricator.Common.{ℕ, List, [], ◌∷◌, str_compare}
use fabricator.Netip.{Addr, next}
use fabricator.Wiring.{Node}
use fabricator.Allocate.Types.{prefix_text, sort_func}

unfoldable pub sort_nodes : List Node → List Node
unfolding sort_func
sort_nodes = sort_func (λ a b. str_compare a.name b.name)

-- The nodes with their addresses, and the next free management and dummy address.
unfoldable pub assign_nodes : ℕ → List Node → Addr → Addr → List Node × Addr × Addr
assign_nodes bits [] mgmt dummy = ([], mgmt, dummy)
assign_nodes bits (node ∷ nodes) mgmt dummy =
    let rest = assign_nodes bits nodes (next mgmt) (next (next dummy)) in
    let node' = record node {
      management_ip = prefix_text mgmt bits;
      dummy_ip = prefix_text dummy 31;
    } in
    (node' ∷ rest.0, rest.1, rest.2)

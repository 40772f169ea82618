-- ===== src/Status/Nodes/Laws.antt =====
-- The check of the nodes in `getHydration` (pkg/hhfab/hydrate.go): its invariant and its counters.
use fabricator.Common.{ℕ, List, arith, Keeps, Keeps-fold, Adds, Adds-fold, sum_of, if◌then◌else◌}
use fabricator.Netip.{Addr, Prefix, is_blank}
use fabricator.Wiring.{Node}
use fabricator.Status.Types.{Seen}
use fabricator.Status.Claims.{claim, claim_management}
use fabricator.Status.Pools.{IsSound}
use fabricator.Status.Nodes.{claim_node, process_node, process_nodes}

module _ (mgmt : Prefix) (start : Addr) (dummy vtep protocol fabric : Prefix) where
  process_node-IsSound :
      (node : Node)
      → Keeps (IsSound dummy vtep protocol fabric) (process_node mgmt start dummy node)
  unfolding process_node claim_node claim claim_management
  process_node-IsSound node = record { at = λ s s' h p. ground arith }

  pub process_nodes-IsSound :
      (nodes : List Node)
      → Keeps (IsSound dummy vtep protocol fabric) (process_nodes mgmt start dummy nodes)
  unfolding process_nodes
  process_nodes-IsSound nodes =
      Keeps-fold (process_node mgmt start dummy) nodes process_node-IsSound

abbrev pub node_blanks : Node → ℕ
node_blanks node = if is_blank node.management_ip then 1 else 0

module _ (mgmt : Prefix) (start : Addr) (dummy : Prefix) where
  process_node-missing :
      (node : Node) → Adds (λ s. s.missing) (node_blanks node) (process_node mgmt start dummy node)
  unfolding process_node claim_node
  process_node-missing node = record { at = λ s s' h. ground arith }

  pub process_nodes-missing :
      (nodes : List Node)
      → Adds (λ s. s.missing) (sum_of node_blanks nodes) (process_nodes mgmt start dummy nodes)
  unfolding process_nodes
  process_nodes-missing nodes =
      Adds-fold (λ (s : Seen). s.missing) node_blanks (process_node mgmt start dummy) nodes
        process_node-missing

  process_node-total : (node : Node) → Adds (λ s. s.total) 1 (process_node mgmt start dummy node)
  unfolding process_node claim_node
  process_node-total node = record { at = λ s s' h. ground arith }

  pub process_nodes-total :
      (nodes : List Node)
      → Adds (λ s. s.total) (sum_of (λ _. 1) nodes) (process_nodes mgmt start dummy nodes)
  unfolding process_nodes
  process_nodes-total nodes =
      Adds-fold (λ (s : Seen). s.total) (λ _. 1) (process_node mgmt start dummy) nodes
        process_node-total

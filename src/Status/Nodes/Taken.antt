-- ===== src/Status/Nodes/Taken.antt =====
-- The addresses that the check of the nodes in `getHydration` (pkg/hhfab/hydrate.go) takes.
use fabricator.Common.{List, arith}
use fabricator.Netip.{Addr, Prefix}
use fabricator.Wiring.{Node}
use fabricator.Status.Claims.{claim, claim_management}
use fabricator.Status.Pushes.{Pool, Pushes, pushed, Pushes-fold, node_addrs}
use fabricator.Status.Nodes.{claim_node, process_node, process_nodes}

module _ (mgmt : Prefix) (start : Addr) (dummies : Prefix) where
  process_node-Pushes :
      (k : Pool) (n : Node) → Pushes k (node_addrs k n) (process_node mgmt start dummies n)
  unfolding process_node claim_node claim claim_management
  process_node-Pushes Pool.management n = record { at = λ s s' h. ground arith }
  process_node-Pushes Pool.dummy n = record { at = λ s s' h. ground arith }
  process_node-Pushes Pool.vtep n = record { at = λ s s' h. ground arith }
  process_node-Pushes Pool.protocol n = record { at = λ s s' h. ground arith }
  process_node-Pushes Pool.fabric n = record { at = λ s s' h. ground arith }

  pub process_nodes-Pushes :
      (k : Pool) (nodes : List Node)
      → Pushes k (pushed (node_addrs k) nodes) (process_nodes mgmt start dummies nodes)
  unfolding process_nodes
  process_nodes-Pushes k nodes = Pushes-fold k _ _ nodes (process_node-Pushes k)

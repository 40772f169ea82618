-- ===== src/Status/Nodes.antt =====
-- `processNode` of `getHydration` in pkg/hhfab/hydrate.go, and its two loops.
pub mod Laws
pub mod Taken
use fabricator.Common.{
  ℕ, ◌+◌, ◌==◌, List, ◌∷◌, Result, ok, ◌>>=◌, ◌>>◌, map_err, fold_ok, if◌then◌else◌,
}
use fabricator.Netip.{Addr, Prefix, is_blank}
use fabricator.Wiring.{Node}
use fabricator.Status.Types.{Seen, HydrationError, node_management, node_dummy}
use fabricator.Status.Claims.{read_v4_prefix, claim, claim_management}

module _ (mgmt_subnet : Prefix) (dhcp_start : Addr) (dummy_subnet : Prefix) where
  -- The addresses of a node whose management address is set.
  claim_node : Node → Seen → Result HydrationError Seen
  claim_node node seen = do
    mgmt_ips ← map_err (node_management node.name) (
        read_v4_prefix node.management_ip >>= claim_management mgmt_subnet dhcp_start seen.mgmt_ips)
    dummy_ips ←
        map_err (node_dummy node.name)
          (read_v4_prefix node.dummy_ip >>= claim 31 dummy_subnet seen.dummy_ips)
    ok (record seen { mgmt_ips = mgmt_ips; dummy_ips = dummy_ips })

  unfoldable pub process_node : Node → Seen → Result HydrationError Seen
  unfolding claim_node
  process_node node seen =
      let s = record seen { total = seen.total + 1 } in
      if is_blank node.management_ip
      then ok (record s { missing = s.missing + 1 })
      else claim_node node s

  unfoldable pub process_nodes : List Node → Seen → Result HydrationError Seen
  process_nodes = fold_ok process_node

-- ===== src/Allocate/Nodes/Laws.antt =====
-- The nodes as `hydrate` assigns them, under the check of `getHydration` (pkg/hhfab/hydrate.go).
use fabricator.Common.{ℕ, ◌+◌, ◌*◌, ◌^◌, ◌≤◌, ◌<◌, ◌≡◌, true, List, [], ◌∷◌, ok, arith, All, length}
use fabricator.Netip.{v4, Prefix, contains}
use fabricator.Netip.Laws.{next-v4, next-next-v4, parse_v4_prefix-text}
use fabricator.Wiring.{Node}
use fabricator.Status.Types.{Seen}
use fabricator.Status.Claims.{read_v4_prefix}
use fabricator.Status.Claims.Laws.{IsBelow, All-IsBelow, push, claim_fresh, claim_management_fresh}
use fabricator.Status.Nodes.{process_node, process_nodes}
use fabricator.Allocate.Types.{prefix_text}
use fabricator.Allocate.Nodes.{assign_nodes}

-- The cursors after the loop, where the addresses do not run out.
pub cursor-assign_nodes :
    (bits : ℕ) (nodes : List Node) (a d : ℕ)
    → a + length nodes < 2 ^ 32
    → d + 2 * length nodes < 2 ^ 32
    → ((assign_nodes bits nodes (v4 a) (v4 d)).1 ≡ v4 (a + length nodes))
      × ((assign_nodes bits nodes (v4 a) (v4 d)).2 ≡ v4 (d + 2 * length nodes))
unfolding assign_nodes
cursor-assign_nodes bits [] a d h k = (ground arith, ground arith)
cursor-assign_nodes bits (node ∷ nodes) a d h k =
    rw (next-v4 a (omega arith), next-next-v4 d (omega arith))
      (ground (arith, cursor-assign_nodes bits nodes (a + 1) (d + 2)))

module _ (mgmt dummy : Prefix) (bits stop : ℕ) (bits_fit : bits ≤ 32)
    (stop_fits : stop < 2 ^ 32) where
  -- One node with the next free addresses.
  process_node-assigned :
      (node : Node) (a d : ℕ) (seen : Seen)
      → a < stop
      → d < 2 ^ 32
      → contains mgmt (v4 a) ≡ true
      → contains dummy (v4 d) ≡ true
      → All (IsBelow a) seen.mgmt_ips
      → All (IsBelow d) seen.dummy_ips
      → process_node mgmt
          (v4 stop)
          dummy
          (record node {
            management_ip = prefix_text (v4 a) bits;
            dummy_ip = prefix_text (v4 d) 31;
          })
          seen
        ≡ ok (record seen {
          total = seen.total + 1;
          mgmt_ips = v4 a ∷ seen.mgmt_ips;
          dummy_ips = v4 d ∷ seen.dummy_ips;
        })
  unfolding process_node read_v4_prefix
  process_node-assigned node a d seen h k m n b e = rw (
    parse_v4_prefix-text a bits (omega arith) bits_fit,
    parse_v4_prefix-text d 31 k (omega arith),
    claim_management_fresh mgmt stop bits a seen.mgmt_ips m h b,
    claim_fresh 31 dummy d seen.dummy_ips n e,
  )

  module _ (lo dummy_lo dummy_hi : ℕ) (dummy_fits : dummy_hi < 2 ^ 32)
      (in_mgmt : (x : ℕ) → lo ≤ x → x < stop → contains mgmt (v4 x) ≡ true)
      (in_dummy : (x : ℕ) → dummy_lo ≤ x → x < dummy_hi → contains dummy (v4 x) ≡ true) where
    -- What is assigned to the nodes passes the check of the nodes, which takes its addresses and
    -- finds none missing: from cursors that the seen addresses are below, as long as the addresses
    -- reach, below the DHCP range and in the dummy range.
    pub process_nodes-assign_nodes :
        (nodes : List Node) (a d : ℕ) (seen : Seen)
        → lo ≤ a
        → a + length nodes ≤ stop
        → dummy_lo ≤ d
        → d + 2 * length nodes ≤ dummy_hi
        → All (IsBelow a) seen.mgmt_ips
        → All (IsBelow d) seen.dummy_ips
        → process_nodes mgmt (v4 stop) dummy (assign_nodes bits nodes (v4 a) (v4 d)).0 seen
          ≡ ok (record seen {
            total = seen.total + length nodes;
            mgmt_ips = push 1 (length nodes) a seen.mgmt_ips;
            dummy_ips = push 2 (length nodes) d seen.dummy_ips;
          })
    unfolding process_nodes assign_nodes push
    process_nodes-assign_nodes [] a d seen h₁ h₂ h₃ h₄ b e = ground arith
    process_nodes-assign_nodes (node ∷ nodes) a d seen h₁ h₂ h₃ h₄ b e =
        rw
          (
            next-v4 a (omega arith),
            next-next-v4 d (omega arith),
            process_node-assigned node a d seen (omega arith) (omega arith)
                (in_mgmt a h₁ (omega arith)) (in_dummy d h₃ (omega arith)) b e,
          )
          (ground (
            arith,
            process_nodes-assign_nodes nodes (a + 1) (d + 2)
                (record seen {
                  total = seen.total + 1;
                  mgmt_ips = v4 a ∷ seen.mgmt_ips;
                  dummy_ips = v4 d ∷ seen.dummy_ips;
                })
                (omega arith) (omega arith) (omega arith) (omega arith)
                (omega arith, All-IsBelow a (a + 1) seen.mgmt_ips (omega arith) b)
                (omega arith, All-IsBelow d (d + 2) seen.dummy_ips (omega arith) e),
          ))

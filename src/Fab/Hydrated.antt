-- ===== src/Fab/Hydrated.antt =====
-- The nodes as `hydrate` (pkg/hhfab/hydrate.go) assigns them, under the checks of addresses in
-- `ControlNode.Validate` and `FabNode.Validate`.
use fabricator.Common.{
  ℕ, ◌+◌, ◌*◌, ◌^◌, ◌≤◌, ◌<◌, ◌≡◌, refl, Bool, true, false, List, [], ◌∷◌, Result, ok, err, arith,
  All, length,
}
use fabricator.Netip.{v4, Prefix, contains, parse_v4_prefix}
use fabricator.Netip.Laws.{next-v4, next-next-v4, parse_v4_prefix-text}
use fabricator.Wiring.{Node}
use fabricator.Allocate.Types.{prefix_text}
use fabricator.Allocate.Nodes.{assign_nodes}
use fabricator.Fab.Types.{ControlConfig}
use fabricator.Fab.Nodes.{NodeSpec, field_of, check_addresses}
mod Tests

abbrev pub is_ok : {E A : Type 0} → Result E A → Bool
is_ok (ok a) = true
is_ok (err e) = false

-- The spec of a node, with the addresses that it has been given.
abbrev pub with_addresses : NodeSpec → Node → NodeSpec
with_addresses s n = record s { management_ip = n.management_ip; dummy_ip = n.dummy_ip }

module _ (c : ControlConfig) (mgmt dummy : Prefix)
    (mgmt_reads : parse_v4_prefix c.management_subnet ≡ ok mgmt)
    (dummy_reads : parse_v4_prefix c.dummy_subnet ≡ ok dummy) (bits_fit : mgmt.bits ≤ 32) where
  one-check_addresses :
      (s : NodeSpec) (node : Node) (a d : ℕ)
      → a < 2 ^ 32
      → d < 2 ^ 32
      → contains mgmt (v4 a) ≡ true
      → contains dummy (v4 d) ≡ true
      → is_ok (
          check_addresses c (
            with_addresses s (record node {
              management_ip = prefix_text (v4 a) mgmt.bits;
              dummy_ip = prefix_text (v4 d) 31;
            })))
        ≡ true
  unfolding check_addresses field_of
  one-check_addresses s node a d h k m n =
      rw
        (
          parse_v4_prefix-text d 31 k (omega arith),
          dummy_reads,
          n,
          parse_v4_prefix-text a mgmt.bits h bits_fit,
          mgmt_reads,
          m,
        )
        (ground arith)

  module _ (lo hi dummy_lo dummy_hi : ℕ) (fits : hi < 2 ^ 32) (dummy_fits : dummy_hi < 2 ^ 32)
      (in_mgmt : (x : ℕ) → lo ≤ x → x < hi → contains mgmt (v4 x) ≡ true)
      (in_dummy : (x : ℕ) → dummy_lo ≤ x → x < dummy_hi → contains dummy (v4 x) ≡ true) where
    -- As long as the management and the dummy subnet reach, every node that `hydrate` assigns passes
    -- the checks of its addresses in `ControlNode.Validate` and `FabNode.Validate`.
    pub assign_nodes-check_addresses :
        (s : NodeSpec) (nodes : List Node) (a d : ℕ)
        → lo ≤ a
        → a + length nodes ≤ hi
        → dummy_lo ≤ d
        → d + 2 * length nodes ≤ dummy_hi
        → All
            (λ n. is_ok (check_addresses c (with_addresses s n)) ≡ true)
            (assign_nodes mgmt.bits nodes (v4 a) (v4 d)).0
    unfolding assign_nodes
    assign_nodes-check_addresses s [] a d h₁ h₂ h₃ h₄ = tt
    assign_nodes-check_addresses s (node ∷ nodes) a d h₁ h₂ h₃ h₄ = (
      one-check_addresses s node a d (omega arith) (omega arith) (in_mgmt a h₁ (omega arith))
          (in_dummy d h₃ (omega arith)),
      rw (next-v4 a (omega arith), next-next-v4 d (omega arith))
          (assign_nodes-check_addresses s nodes (a + 1) (d + 2) (omega arith) (omega arith)
            (omega arith) (omega arith)),
    )

-- ===== src/Fab/Hydrated/Tests.antt =====
-- Two nodes in the subnets of the sample.
use fabricator.Common.{ℕ, ◌≤◌, ◌<◌, ◌≡◌, refl, true, [], ◌∷◌, ok, arith, All}
use fabricator.Netip.{v4, Prefix, contains, parse_prefix, parse_v4_prefix}
use fabricator.Netip.Laws.{contains-range}
use fabricator.Samples.{ip, net, node}
use fabricator.Allocate.Nodes.{assign_nodes}
use fabricator.Fab.Samples.{fab_config, numbered}
use fabricator.Fab.Nodes.{check_addresses}
use fabricator.Fab.Hydrated.{is_ok, with_addresses, assign_nodes-check_addresses}

abbrev mgmt : Prefix
mgmt = record { addr = v4 (ip 172 30 0 0); bits = 21 }

abbrev dummy : Prefix
dummy = record { addr = v4 (ip 172 30 90 0); bits = 24 }

mgmt_reads : parse_v4_prefix (net (ip 172 30 0 0) 21) ≡ ok mgmt
unfolding parse_v4_prefix parse_prefix
mgmt_reads = refl

dummy_reads : parse_v4_prefix (net (ip 172 30 90 0) 24) ≡ ok dummy
unfolding parse_v4_prefix parse_prefix
dummy_reads = refl

in_mgmt : (x : ℕ) → ip 172 30 0 5 ≤ x → x < ip 172 30 4 0 → contains mgmt (v4 x) ≡ true
in_mgmt x h k =
    contains-range (ip 172 30 0 0) 21 x (omega arith) (omega arith) (omega arith) (omega arith)
      (omega arith)

in_dummy : (x : ℕ) → ip 172 30 90 0 ≤ x → x < ip 172 30 91 0 → contains dummy (v4 x) ≡ true
in_dummy x h k =
    contains-range (ip 172 30 90 0) 24 x (omega arith) (omega arith) (omega arith) (omega arith)
      (omega arith)

assign_nodes-check_addresses_example :
    All
      (λ n. is_ok (check_addresses fab_config.control (with_addresses (numbered "a" 0 0) n)) ≡ true)
      (assign_nodes 21 (node "a" ∷ node "b" ∷ []) (v4 (ip 172 30 0 5)) (v4 (ip 172 30 90 0))).0
assign_nodes-check_addresses_example =
    assign_nodes-check_addresses fab_config.control mgmt dummy mgmt_reads dummy_reads (omega arith)
      (ip 172 30 0 5) (ip 172 30 4 0) (ip 172 30 90 0) (ip 172 30 91 0) (omega arith) (omega arith)
      in_mgmt in_dummy (numbered "a" 0 0) (node "a" ∷ node "b" ∷ []) (ip 172 30 0 5)
      (ip 172 30 90 0) (omega arith) (omega arith) (omega arith) (omega arith)

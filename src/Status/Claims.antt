-- ===== src/Status/Claims.antt =====
-- The block of tests that pkg/hhfab/hydrate.go repeats for every kind of address: parse the text,
-- look at its length and subnet, refuse an address that is taken, and take it.
pub mod Laws
use fabricator.Common.{ℕ, ◌==◌, List, ◌∷◌, Result, ok, ◌>>=◌, ◌>>◌, require, refuse, map_err}
use fabricator.Netip.{Addr, Prefix, PrefixText, addr_less, contains, parse_prefix, parse_v4_prefix}
use fabricator.Status.Types.{
  Fault, unparsable, wrong_bits, outside_subnet, past_dhcp_start, in_use, has_addr,
}

-- `netip.ParsePrefix`, with its error as a fault
unfoldable pub read_prefix : PrefixText → Result Fault Prefix
unfolding parse_prefix
read_prefix t = map_err unparsable (parse_prefix t)

-- `meta.Prefix.Parse`, with its error as a fault
unfoldable pub read_v4_prefix : PrefixText → Result Fault Prefix
unfolding parse_v4_prefix
read_v4_prefix t = map_err unparsable (parse_v4_prefix t)

-- Take an address of a fixed prefix length: /32 or /31.
unfoldable pub claim : ℕ → Prefix → List Addr → Prefix → Result Fault (List Addr)
claim n subnet used p = do
  require (p.bits == n) wrong_bits
  require (contains subnet p.addr) outside_subnet
  refuse (has_addr p.addr used) in_use
  ok (p.addr ∷ used)

-- Take a management address: of any length, below the range that DHCP hands out.
unfoldable pub claim_management : Prefix → Addr → List Addr → Prefix → Result Fault (List Addr)
claim_management subnet dhcp_start used p = do
  require (contains subnet p.addr) outside_subnet
  require (addr_less p.addr dhcp_start) past_dhcp_start
  refuse (has_addr p.addr used) in_use
  ok (p.addr ∷ used)

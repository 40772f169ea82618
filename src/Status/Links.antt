-- ===== src/Status/Links.antt =====
-- The loop over the connections in `getHydration` of pkg/hhfab/hydrate.go. Its three branches are
-- the same block over the links of a fabric, a mesh or a gateway connection.
pub mod Laws
pub mod Taken
use fabricator.Common.{
  ℕ, ◌+◌, ◌||◌, String, Bool, true, false, Option, none, some, List, [], ◌∷◌, Result, ok, ◌>>=◌,
  ◌>>◌, require, map_err, fold_ok, if◌then◌else◌,
}
use fabricator.Netip.{Prefix, PrefixText, is_blank, prefix_eq, masked}
use fabricator.Wiring.{Link, Connection}
use fabricator.Status.Types.{Seen, HydrationError, link_first, link_second, link_subnets}
use fabricator.Status.Claims.{read_prefix, claim}

abbrev pub count_blank : PrefixText → ℕ
count_blank t = if is_blank t then 1 else 0

module _ (subnet : Prefix) where
  -- The addresses of a link that has both.
  claim_link : String → ℕ → Link → Seen → Result HydrationError Seen
  claim_link name idx link seen = do
    p ← map_err (link_first name idx) (read_prefix link.first.ip)
    ips₁ ← map_err (link_first name idx) (claim 31 subnet seen.fabric_ips p)
    q ← map_err (link_second name idx) (read_prefix link.second.ip)
    ips₂ ← map_err (link_second name idx) (claim 31 subnet ips₁ q)
    require (prefix_eq (masked p) (masked q)) (link_subnets name idx)
    ok (record seen { fabric_ips = ips₂ })

  unfoldable pub check_link : String → ℕ → Link → Seen → Result HydrationError Seen
  unfolding claim_link
  check_link name idx link seen =
      let s = record seen {
        total = seen.total + 2;
        missing = seen.missing + count_blank link.first.ip + count_blank link.second.ip;
      } in
      if is_blank link.first.ip || is_blank link.second.ip then ok s else claim_link name idx link s

  unfoldable pub check_links : String → ℕ → List Link → Seen → Result HydrationError Seen
  check_links name idx [] seen = ok seen
  check_links name idx (link ∷ links) seen =
      check_link name idx link seen >>= check_links name (idx + 1) links

-- The links of the branch that is taken: the first pointer that is not nil.
unfoldable pub links_of : Option (List Link) → Option (List Link) → Option (List Link) → List Link
links_of (some links) _ _ = links
links_of none (some links) _ = links
links_of none none (some links) = links
links_of none none none = []

module _ (subnet : Prefix) where
  unfoldable pub check_connection : Connection → Seen → Result HydrationError Seen
  check_connection conn =
      check_links subnet conn.name 0 (links_of conn.fabric conn.mesh conn.gateway)

  unfoldable pub check_connections : List Connection → Seen → Result HydrationError Seen
  check_connections = fold_ok check_connection

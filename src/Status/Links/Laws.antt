-- ===== src/Status/Links/Laws.antt =====
-- The check of the connections in `getHydration` (pkg/hhfab/hydrate.go): its invariant and its counters.
use fabricator.Common.{
  ℕ, ◌+◌, List, [], ◌∷◌, arith, Keeps, Keeps-bind, Keeps-fold, Adds, Adds-bind, Adds-fold, sum_of,
  String, ap, ok-injective,
}
use fabricator.Netip.{Prefix}
use fabricator.Wiring.{Link, Connection}
use fabricator.Status.Types.{Seen}
use fabricator.Status.Claims.{claim}
use fabricator.Status.Pools.{IsSound}
use fabricator.Status.Links.{
  count_blank, claim_link, check_link, check_links, links_of, check_connection, check_connections,
}

module _ (dummy vtep protocol fabric : Prefix) where
  claim_link-IsSound :
      (name : String) (idx : ℕ) (link : Link)
      → Keeps (IsSound dummy vtep protocol fabric) (claim_link fabric name idx link)
  unfolding claim_link claim
  claim_link-IsSound name idx link = record { at = λ s s' h p. ground arith }

  check_link-IsSound :
      (name : String) (idx : ℕ) (link : Link)
      → Keeps (IsSound dummy vtep protocol fabric) (check_link fabric name idx link)
  unfolding check_link claim_link claim
  check_link-IsSound name idx link = record { at = λ s s' h p. ground arith }

  check_links-IsSound :
      (name : String) (idx : ℕ) (links : List Link)
      → Keeps (IsSound dummy vtep protocol fabric) (check_links fabric name idx links)
  unfolding check_links
  check_links-IsSound name idx [] = record { at = λ s s' h p. ground arith }
  check_links-IsSound name idx (link ∷ links) =
      Keeps-bind (check_link fabric name idx link) _ (check_link-IsSound name idx link)
        (check_links-IsSound name (idx + 1) links)

  pub check_connections-IsSound :
      (conns : List Connection)
      → Keeps (IsSound dummy vtep protocol fabric) (check_connections fabric conns)
  unfolding check_connections check_connection
  check_connections-IsSound conns =
      Keeps-fold _ conns
        λ conn. check_links-IsSound conn.name 0 (links_of conn.fabric conn.mesh conn.gateway)

abbrev pub link_blanks : Link → ℕ
link_blanks link = count_blank link.first.ip + count_blank link.second.ip

abbrev pub connection_links : Connection → List Link
connection_links conn = links_of conn.fabric conn.mesh conn.gateway

module _ (fabric : Prefix) where
  check_link-missing :
      (name : String) (idx : ℕ) (link : Link)
      → Adds (λ s. s.missing) (link_blanks link) (check_link fabric name idx link)
  unfolding check_link claim_link
  check_link-missing name idx link = record { at = λ s s' h. ground arith }

  check_link-total :
      (name : String) (idx : ℕ) (link : Link)
      → Adds (λ s. s.total) 2 (check_link fabric name idx link)
  unfolding check_link claim_link
  check_link-total name idx link = record { at = λ s s' h. ground arith }

  module _ (counter : Seen → ℕ) (size : Link → ℕ)
      (k : (name : String) (idx : ℕ) (link : Link)
        → Adds counter (size link) (check_link fabric name idx link)) where
    check_links-Adds :
        (name : String) (idx : ℕ) (links : List Link)
        → Adds counter (sum_of size links) (check_links fabric name idx links)
    unfolding check_links
    check_links-Adds name idx [] = record {
      at = λ s s' h. omega (arith, ap counter (ok-injective h));
    }
    check_links-Adds name idx (link ∷ links) =
        Adds-bind counter _ _ (check_link fabric name idx link) _ (k name idx link)
          (check_links-Adds name (idx + 1) links)

    check_connections-Adds :
        (conns : List Connection)
        → Adds counter
            (sum_of (λ conn. sum_of size (connection_links conn)) conns)
            (check_connections fabric conns)
    unfolding check_connections check_connection
    check_connections-Adds conns =
        Adds-fold counter _ _ conns λ conn. check_links-Adds conn.name 0 (connection_links conn)

  pub check_connections-missing :
      (conns : List Connection)
      → Adds
          (λ s. s.missing)
          (sum_of (λ conn. sum_of link_blanks (connection_links conn)) conns)
          (check_connections fabric conns)
  check_connections-missing = check_connections-Adds (λ s. s.missing) link_blanks check_link-missing

  pub check_connections-total :
      (conns : List Connection)
      → Adds
          (λ s. s.total)
          (sum_of (λ conn. sum_of (λ _. 2) (connection_links conn)) conns)
          (check_connections fabric conns)
  check_connections-total = check_connections-Adds (λ s. s.total) (λ _. 2) check_link-total

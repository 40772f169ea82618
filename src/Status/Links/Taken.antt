-- ===== src/Status/Links/Taken.antt =====
-- The addresses that the check of the connections in `getHydration` (pkg/hhfab/hydrate.go) takes.
use fabricator.Common.{ℕ, ◌+◌, String, List, [], ◌∷◌, arith}
use fabricator.Netip.{Prefix}
use fabricator.Wiring.{Link, Connection}
use fabricator.Status.Claims.{claim}
use fabricator.Status.Pushes.{Pool, Pushes, pushed, Pushes-bind, Pushes-ok, Pushes-fold, link_addrs}
use fabricator.Status.Links.{
  claim_link, check_link, check_links, check_connection, check_connections,
}
use fabricator.Status.Links.Laws.{connection_links}

module _ (fabrics : Prefix) where
  check_link-Pushes :
      (k : Pool) (name : String) (idx : ℕ) (link : Link)
      → Pushes k (link_addrs k link) (check_link fabrics name idx link)
  unfolding check_link claim_link claim
  check_link-Pushes Pool.management name idx link = record { at = λ s s' h. ground arith }
  check_link-Pushes Pool.dummy name idx link = record { at = λ s s' h. ground arith }
  check_link-Pushes Pool.vtep name idx link = record { at = λ s s' h. ground arith }
  check_link-Pushes Pool.protocol name idx link = record { at = λ s s' h. ground arith }
  check_link-Pushes Pool.fabric name idx link = record { at = λ s s' h. ground arith }

  check_links-Pushes :
      (k : Pool) (name : String) (idx : ℕ) (links : List Link)
      → Pushes k (pushed (link_addrs k) links) (check_links fabrics name idx links)
  unfolding check_links
  check_links-Pushes k name idx [] = Pushes-ok k
  check_links-Pushes k name idx (link ∷ links) =
      Pushes-bind k (link_addrs k link) (pushed (link_addrs k) links)
        (check_link fabrics name idx link) _ (check_link-Pushes k name idx link)
        (check_links-Pushes k name (idx + 1) links)

  pub check_connections-Pushes :
      (k : Pool) (conns : List Connection)
      → Pushes k
          (pushed (λ conn. pushed (link_addrs k) (connection_links conn)) conns)
          (check_connections fabrics conns)
  unfolding check_connections check_connection
  check_connections-Pushes k conns =
      Pushes-fold k _ _ conns (λ conn. check_links-Pushes k conn.name 0 (connection_links conn))

-- ===== src/Reach/Populate.antt =====
-- `populateConnectivityMatrix` of pkg/hhfab/testing.go.
use fabricator.Common.{
  ◌==◌, String, str_eq, Bool, true, false, Option, none, some, List, [], ◌∷◌, Result, ok, err,
  ◌>>=◌, fold_ok, if◌then◌else◌,
}
use fabricator.Netip.{Prefix}
use fabricator.Matrix.Types.{
  allow, unknown, ServerEndpoint, ExternalEndpoint, Endpoint, EndpointPair, ConnectivityExpectation,
  ConnectivityMatrix, zero_port,
}
use fabricator.Matrix.{add}
use fabricator.Reach.{Reachability, ReachError, ReachApi}
use fabricator.Reach.Servers.{is_server_reachable, is_external_subnet_reachable}
pub mod Laws

abbrev pub allowed : EndpointPair → Reachability → ConnectivityExpectation
allowed pair r = record {
  pair = pair;
  verdict = allow;
  nat = none;
  reason = r.reason;
  peering = r.peering;
  detail = "";
  proto_port = zero_port;
}

abbrev pub undecided : EndpointPair → String → ConnectivityExpectation
undecided pair detail = record {
  pair = pair;
  verdict = unknown;
  nat = none;
  reason = "";
  peering = "";
  detail = detail;
  proto_port = zero_port;
}

-- What the answer for a pair of servers adds.
abbrev pub record_answer :
    EndpointPair
    → Result ReachError Reachability
    → ConnectivityMatrix
    → Result String ConnectivityMatrix
record_answer pair (ok r) m = ok (if r.reachable then add (allowed pair r) m else m)
record_answer pair (err (ReachError.unsupported d)) m = ok (add (undecided pair d) m)
record_answer pair (err (ReachError.failed e)) m = err e

-- What the answer for a prefix of an external adds: the first that is reachable ends the loop.
abbrev pub prefix_step :
    EndpointPair
    → (ConnectivityMatrix → Result String ConnectivityMatrix)
    → Result ReachError Reachability
    → ConnectivityMatrix
    → Result String ConnectivityMatrix
prefix_step pair rest (ok r) m = if r.reachable then ok (add (allowed pair r) m) else rest m
prefix_step pair rest (err (ReachError.unsupported d)) m = rest (add (undecided pair d) m)
prefix_step pair rest (err (ReachError.failed e)) m = err e

unfoldable pub scan_prefixes :
    EndpointPair
    → (Prefix → Result ReachError Reachability)
    → List Prefix
    → ConnectivityMatrix
    → Result String ConnectivityMatrix
scan_prefixes pair f [] = λ m. ok m
scan_prefixes pair f (p ∷ ps) = prefix_step pair (scan_prefixes pair f ps) (f p)

-- `prefix_string` is `netip.Prefix.String`.
module _ (prefix_string : Prefix → String) (api : ReachApi) (gateway_enabled : Bool) where
  abbrev pub by_kind :
      EndpointPair
      → Option ServerEndpoint
      → Option ServerEndpoint
      → Option ExternalEndpoint
      → ConnectivityMatrix
      → Result String ConnectivityMatrix
  by_kind pair (some s) (some d) x m =
      if str_eq s.name d.name
      then ok m
      else record_answer pair (is_server_reachable api gateway_enabled s.name d.name) m
  by_kind pair (some s) none (some x) m =
      scan_prefixes pair
        (λ p. is_external_subnet_reachable api gateway_enabled s.name (prefix_string p)) x.prefixes
        m
  by_kind pair (some s) none none m = ok m
  by_kind pair none d x m = ok m

  unfoldable pub pair_step :
      Endpoint → Endpoint → ConnectivityMatrix → Result String ConnectivityMatrix
  unfolding scan_prefixes
  pair_step src dst m =
      if src.ref == dst.ref
      then ok m
      else by_kind (record { source = some src; destination = some dst }) src.server dst.server
          dst.external m

  unfoldable pub populate : ConnectivityMatrix → Result String ConnectivityMatrix
  unfolding pair_step
  populate m =
      fold_ok (λ src. fold_ok (pair_step src) m.all_endpoints) m.all_endpoints
        (record m { entries = [] })

-- ===== src/Matrix/Tests.antt =====
-- The theorems about the matrix, at a matrix of two servers and an external.
use fabricator.Common.{
  ℕ, String, arith, ◌≡◌, refl, Bool, true, false, none, some, [], ◌∷◌, Result, ok, ◌==◌,
  if◌then◌else◌,
}
use fabricator.Netip.{v4}
use fabricator.Matrix.Types.{
  ConnectivityVerdict, allow, deny, unknown, TranslatedAddress, Endpoint, EndpointPair, ProtoPort,
  ConnectivityExpectation, ConnectivityMatrix, zero_port, no_translation, empty_matrix, pair_eq,
  port_eq,
}
use fabricator.Matrix.{
  add, lookup, has_proto_port_entries, validate, is_empty, find_pair, find_port,
}
use fabricator.Matrix.Laws.{find, resolve, lookup-resolve, lookup-add_self, lookup-add_default}
use fabricator.Matrix.Overlay.{
  overlay_matrix_nat, overlaid, overlay_all, overlay_source, overlay_pair,
}
use fabricator.Matrix.Overlay.Laws.{overlay_matrix_nat-allows, overlay_matrix_nat-untouched}
use fabricator.Matrix.Valid.{Excused, validate-Excused}
use fabricator.Matrix.Replace.{replace_server_endpoints}
use fabricator.Matrix.Replace.Laws.{IsClosed, replace_server_endpoints-IsClosed}

abbrev server : ℕ → String → Endpoint
server r n = record {
  ref = r;
  server = some (record { name = n; vpc = "v"; subnet = "s"; host_bgp = false; ip = v4 r });
  external = none;
}

abbrev a : Endpoint
a = server 1 "a"

abbrev b : Endpoint
b = server 2 "b"

abbrev ext : Endpoint
ext = record {
  ref = 3;
  server = none;
  external = some (record { external_name = "e"; prefixes = []; source_ip = v4 9 });
}

abbrev https : ProtoPort
https = record { protocol = "tcp"; port = 443 }

abbrev pair : EndpointPair
pair = record { source = some a; destination = some b }

abbrev entry : ConnectivityVerdict → ProtoPort → ConnectivityExpectation
entry v pp = record {
  pair = pair;
  verdict = v;
  nat = none;
  reason = "peering";
  peering = "p";
  detail = "";
  proto_port = pp;
}

abbrev bare : ConnectivityMatrix
bare = record empty_matrix { all_endpoints = a ∷ b ∷ ext ∷ [] }

-- An unknown default entry beside an allowed port.
abbrev m : ConnectivityMatrix
m = add (entry unknown zero_port) (add (entry allow https) bare)

lookup-resolve_example : lookup (some a) (some b) https m ≡ resolve pair https m
lookup-resolve_example = lookup-resolve (some a) (some b) https m

lookup-add_self_example :
    lookup (some a) (some b) https (add (entry allow https) m) ≡ entry allow https
lookup-add_self_example = lookup-add_self (entry allow https) m

is_default : port_eq (entry deny zero_port).proto_port zero_port ≡ true
unfolding port_eq
is_default = refl

lookup-add_default_example : lookup (some a) (some b) https (add (entry deny zero_port) m) ≡ (
    if pair_eq pair pair
    then (if port_eq https zero_port
        then entry deny zero_port
        else elim (find pair https m) [ some x ↦ x | none ↦ entry deny zero_port ])
    else lookup (some a) (some b) https m)
lookup-add_default_example =
    lookup-add_default (entry deny zero_port) m (some a) (some b) https is_default

-- Masquerading from the first server to the second.
abbrev from_a : Endpoint → Bool
from_a e = e.ref == 1

abbrev to_b : Endpoint → Bool
to_b e = e.ref == 2

abbrev forward : Endpoint → Endpoint → TranslatedAddress → Result {0, 0} Unit TranslatedAddress
forward src dst nat = ok (record nat { destination_port = 8443 })

abbrev overlaid_matrix : ConnectivityMatrix
overlaid_matrix =
    add
      (record (entry allow zero_port) {
        nat = some (record no_translation { destination_port = 8443 });
      })
      m

runs : overlay_matrix_nat "gw" from_a to_b forward m ≡ ok overlaid_matrix
unfolding overlay_matrix_nat add pair_eq port_eq find_pair find_port lookup overlaid overlay_all
    overlay_source overlay_pair
runs = refl

overlay_matrix_nat-allows_example :
    (lookup (some a) (some b) zero_port overlaid_matrix).verdict ≡ allow
unfolding add
overlay_matrix_nat-allows_example =
    overlay_matrix_nat-allows "gw" from_a to_b forward m overlaid_matrix 0 1 a b runs refl refl refl
      refl

not_back :
    (src dst : Endpoint)
    → from_a src ≡ true
    → to_b dst ≡ true
    → pair_eq
        (record { source = some src; destination = some dst })
        (record { source = some b; destination = some a })
      ≡ false
unfolding pair_eq
not_back src dst h k = ground arith

overlay_matrix_nat-untouched_example :
    lookup (some b) (some a) zero_port overlaid_matrix ≡ lookup (some b) (some a) zero_port m
overlay_matrix_nat-untouched_example =
    overlay_matrix_nat-untouched "gw" from_a to_b forward m overlaid_matrix (some b) (some a)
      zero_port runs not_back

no_errors : validate (some m) ≡ []
unfolding validate add pair_eq port_eq has_proto_port_entries find_pair
no_errors = refl

validate-Excused_example :
    (is_empty m.all_endpoints ≡ false) × (m.dropped ≡ []) × Excused m m.entries
validate-Excused_example = validate-Excused m no_errors

-- Server `a` moves to another subnet: its entry goes, and the new endpoint is appended.
abbrev moved : Endpoint
moved = record {
  ref = 4;
  server = some (record { name = "a"; vpc = "v"; subnet = "t"; host_bgp = false; ip = v4 4 });
  external = none;
}

closed : IsClosed m
unfolding add pair_eq port_eq
closed = ((refl, refl), tt)

moves :
    replace_server_endpoints "a" (moved ∷ []) m
    ≡ record empty_matrix { all_endpoints = b ∷ ext ∷ moved ∷ [] }
unfolding replace_server_endpoints add pair_eq port_eq
moves = refl

replace_server_endpoints-IsClosed_example : IsClosed (replace_server_endpoints "a" (moved ∷ []) m)
replace_server_endpoints-IsClosed_example =
    replace_server_endpoints-IsClosed "a" (moved ∷ []) m closed

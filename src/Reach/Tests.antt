-- ===== src/Reach/Tests.antt =====
-- The theorems about reachability, at two servers whose VPCs have a gateway peering.
use fabricator.Common.{
  ℕ, String, str_eq, ◌≡◌, ◌↔◌, refl, true, false, none, some, List, [], ◌∷◌, ok, if◌then◌else◌,
}
use fabricator.Netip.{v4, Prefix}
use fabricator.Matrix.Types.{
  Endpoint, EndpointPair, ConnectivityMatrix, zero_port, empty_matrix, pair_eq, port_eq,
}
use fabricator.Matrix.{add, find_pair, find_port}
use fabricator.Matrix.Laws.{find}
use fabricator.Reach.{Reachability, Expose, ReachApi}
use fabricator.Reach.Peerings.{by_switch, by_gateway, is_switch_reachable, is_gateway_reachable}
use fabricator.Reach.Servers.{is_server_reachable, is_external_subnet_reachable}
use fabricator.Reach.Populate.{allowed, populate}
use fabricator.Reach.Laws.{Connected, is_server_reachable-Connected}
use fabricator.Reach.Populate.Laws.{Justified, populate-Justified}

abbrev exposing : String → List Expose
exposing subnet =
    record {
      default_destination = false;
      as_blocks = [];
      ips = record { vpc_subnet = subnet; cidr = ""; excluded = "" } ∷ [];
    }
    ∷ []

-- The permit of the VPC peering allows another subnet.
abbrev api : ReachApi
api = record {
  is_external_subnet_reachable = λ server dest. ok true;
  attached_subnets =
      λ server. ok ((if str_eq server "server-1" then "vpc-1/a" else "vpc-2/b") ∷ []);
  is_reachable_within_vpc = λ vpc s d. ok true;
  vpc_subnets = λ vpc. ok ("a" ∷ "b" ∷ "c" ∷ []);
  vpc_peerings = λ v1 v2. ok (
      record { name = "vpc-1--vpc-2"; permits = (("vpc-1", "c" ∷ []) ∷ ("vpc-2", []) ∷ []) ∷ [] }
      ∷ []);
  vpc_info_subnets = λ vpc. ok (("a", "10.0.1.0/24") ∷ ("b", "10.0.2.0/24") ∷ []);
  gateway_peerings = λ v1 v2. ok (
      record { name = "gw"; peering = ("vpc-1", exposing "a") ∷ ("vpc-2", exposing "b") ∷ [] }
      ∷ []);
  externals = ok ("ext" ∷ []);
  vpc_info_ext_prefix = "ext.";
}

reached : is_server_reachable api true "server-1" "server-2" ≡ ok (by_gateway "gw")
unfolding is_server_reachable is_switch_reachable is_gateway_reachable
reached = refl

not_without_gateway :
    is_server_reachable api false "server-1" "server-2"
    ≡ ok (record { reachable = false; reason = ""; peering = "" })
unfolding is_server_reachable is_switch_reachable
not_without_gateway = refl

is_server_reachable-Connected_example :
    ((by_gateway "gw").reachable ≡ true) ↔ Connected api true "server-1" "server-2"
is_server_reachable-Connected_example =
    is_server_reachable-Connected api true "server-1" "server-2" (by_gateway "gw") reached

abbrev server : ℕ → String → Endpoint
server r n = record {
  ref = r;
  server = some (record { name = n; vpc = "v"; subnet = "s"; host_bgp = false; ip = v4 r });
  external = none;
}

abbrev ext : Endpoint
ext = record {
  ref = 3;
  server = none;
  external = some (record {
    external_name = "ext";
    prefixes = record { addr = v4 0; bits = 0 } ∷ [];
    source_ip = v4 9;
  });
}

abbrev one : Endpoint
one = server 1 "server-1"

abbrev two : Endpoint
two = server 2 "server-2"

abbrev of : Endpoint → Endpoint → EndpointPair
of src dst = record { source = some src; destination = some dst }

abbrev bare : ConnectivityMatrix
bare = record empty_matrix { all_endpoints = one ∷ two ∷ ext ∷ [] }

abbrev direct : Reachability
direct = by_switch ""

abbrev text : Prefix → String
text p = "0.0.0.0/0"

abbrev filled : ConnectivityMatrix
filled = add (allowed (of two ext) direct) (
    add (allowed (of two one) (by_gateway "gw"))
      (add (allowed (of one ext) direct) (add (allowed (of one two) (by_gateway "gw")) bare)))

fills : populate text api true bare ≡ ok filled
unfolding populate is_server_reachable is_external_subnet_reachable is_switch_reachable
    is_gateway_reachable
fills = refl

has_entry : find (of one ext) zero_port filled ≡ some (allowed (of one ext) direct)
unfolding find add pair_eq port_eq find_pair find_port
has_entry = refl

populate-Justified_example : Justified text api true (allowed (of one ext) direct)
populate-Justified_example =
    populate-Justified text api true bare filled (of one ext) zero_port
      (allowed (of one ext) direct) fills has_entry

-- ===== src/Samples.antt =====
-- A small fabric, as the tests use it: a Kubernetes store that is three lists, and the values of the
-- wiring API.
use Prim.Native.Char.{code}
use Prim.Native.String.{[] as nil, ◌∷◌ as cons}
use fabricator.Common.{
  ℕ, ◌+◌, ◌*◌, ◌==◌, String, str_eq, ◌||◌, Option, none, some, List, [], ◌∷◌, if◌then◌else◌,
}
use fabricator.Netip.{v4, PrefixText, blank, text, addr_text}
use fabricator.Wiring.{WiringApi, Node, Switch, Link, Connection, Gateway, Config, Kube}

-- The dotted address, and the text of a prefix.
abbrev pub ip : ℕ → ℕ → ℕ → ℕ → ℕ
ip a b c d = ((a * 256 + b) * 256 + c) * 256 + d

abbrev pub net : ℕ → ℕ → PrefixText
net a n = text (record { addr = v4 a; bits = n })

unfoldable pub before_slash : String → String
before_slash nil = ""
before_slash (cons c s) = if code c == 47 then "" else cons c (before_slash s)

unfoldable pub after_slash : String → String
after_slash nil = ""
after_slash (cons c s) = if code c == 47 then s else after_slash s

abbrev pub api : WiringApi
api = record {
  is_known = λ r. str_eq r "spine" || str_eq r "server-leaf";
  is_spine = λ r. str_eq r "spine";
  is_leaf = λ r. str_eq r "server-leaf";
  is_mclag = λ t. str_eq t "mclag";
  device_name = before_slash;
  local_port_name = after_slash;
}

-- The store: the objects of each kind, replaced by name.
pub record Objects : Type 0 where
  pub sws : List Switch
  pub conns : List Connection
  pub gws : List Gateway

unfoldable pub put_switch : Switch → List Switch → List Switch
put_switch n [] = []
put_switch n (x ∷ xs) = if str_eq x.name n.name then n ∷ xs else x ∷ put_switch n xs

unfoldable pub put_connection : Connection → List Connection → List Connection
put_connection n [] = []
put_connection n (x ∷ xs) = if str_eq x.name n.name then n ∷ xs else x ∷ put_connection n xs

unfoldable pub put_gateway : Gateway → List Gateway → List Gateway
put_gateway n [] = []
put_gateway n (x ∷ xs) = if str_eq x.name n.name then n ∷ xs else x ∷ put_gateway n xs

unfoldable pub get_gateway : String → List Gateway → Option Gateway
get_gateway n [] = none
get_gateway n (x ∷ xs) = if str_eq x.name n then some x else get_gateway n xs

abbrev pub kube : Kube
kube = record {
  Store = Objects;
  list_switches = λ o. some o.sws;
  list_connections = λ o. some o.conns;
  list_gateways = λ o. some o.gws;
  get_gateway = λ o n. get_gateway n o.gws;
  update_switch = λ x o. some (record o { sws = put_switch x o.sws });
  update_connection = λ x o. some (record o { conns = put_connection x o.conns });
  update_gateway = λ x o. some (record o { gws = put_gateway x o.gws });
}

abbrev pub node : String → Node
node n = record { name = n; management_ip = blank; dummy_ip = blank }

abbrev pub switch : String → String → Switch
switch n r = record {
  name = n;
  role = r;
  ip = blank;
  protocol_ip = blank;
  asn = 0;
  vtep_ip = blank;
  redundancy_type = "";
  redundancy_group = "";
}

abbrev pub link : String → String → Link
link a b = record {
  first = record { port = a; ip = blank };
  second = record { port = b; ip = blank };
}

abbrev pub gateway : String → Gateway
gateway n = record {
  name = n;
  asn = 0;
  protocol_ip = blank;
  vtep_ip = blank;
  vtep_mac = 0;
  vtep_mtu = 0;
  interfaces = ("eth1", record { ips = []; mtu = 0 }) ∷ [];
  neighbors = [];
}

abbrev pub fabric_connection : Connection
fabric_connection = record {
  name = "spine-1--fabric--leaf-1";
  fabric = some (link "spine-1/E1" "leaf-1/E1" ∷ []);
  mesh = none;
  gateway = none;
}

abbrev pub gateway_connection : Connection
gateway_connection = record {
  name = "spine-1--gateway--gateway-1";
  fabric = none;
  mesh = none;
  gateway = some (link "spine-1/E2" "gateway-1/eth1" ∷ []);
}

abbrev pub start : Objects
start = record {
  sws = switch "leaf-1" "server-leaf" ∷ switch "spine-1" "spine" ∷ [];
  conns = gateway_connection ∷ fabric_connection ∷ [];
  gws = gateway "gateway-1" ∷ [];
}

abbrev pub config : Config
config = record {
  management_subnet = net (ip 172 30 0 0) 21;
  control_vip = net (ip 172 30 0 1) 32;
  management_dhcp_start = addr_text (v4 (ip 172 30 4 0));
  management_dhcp_end = addr_text (v4 (ip 172 30 7 254));
  dummy_subnet = net (ip 172 30 90 0) 24;
  vtep_subnet = net (ip 172 30 12 0) 22;
  protocol_subnet = net (ip 172 30 8 0) 22;
  fabric_subnet = net (ip 172 30 128 0) 17;
  spine_asn = 65100;
  leaf_asn_start = 65101;
  leaf_asn_end = 65533;
  gateway_asn = 65534;
  controls = node "control-1" ∷ [];
  nodes = node "gateway-1" ∷ [];
}

-- ===== src/Matrix/Types.antt =====
-- The data of pkg/hhfab/matrix.go.
use fabricator.Common.{
  ℕ, String, Bool, true, false, ◌&&◌, ◌==◌, str_eq, Option, none, some, List, [],
}
use fabricator.Netip.{Addr, Prefix}

pub data ConnectivityVerdict : Type 0 where
  allow deny unknown : ConnectivityVerdict

pub record TranslatedAddress : Type 0 where
  pub source_pool : Prefix
  pub destination_ip : Addr
  pub destination_port : ℕ

pub record ProtoPort : Type 0 where
  pub protocol : String
  pub port : ℕ

pub record ServerEndpoint : Type 0 where
  pub name : String
  pub vpc : String
  pub subnet : String
  pub host_bgp : Bool
  pub ip : Addr

pub record ExternalEndpoint : Type 0 where
  pub external_name : String
  pub prefixes : List Prefix
  pub source_ip : Addr

-- A `*Endpoint`: `ref` is the identity of the object that is pointed to.
pub record Endpoint : Type 0 where
  pub ref : ℕ
  pub server : Option ServerEndpoint
  pub external : Option ExternalEndpoint

-- A pointer that may be nil.
abbrev pub Pointer : Type 0
Pointer = Option Endpoint

pub record EndpointPair : Type 0 where
  pub source : Pointer
  pub destination : Pointer

pub record ConnectivityExpectation : Type 0 where
  pub pair : EndpointPair
  pub verdict : ConnectivityVerdict
  pub nat : Option TranslatedAddress
  pub reason : String
  pub peering : String
  pub detail : String
  pub proto_port : ProtoPort

-- `map[ProtoPort]ConnectivityExpectation`
abbrev pub ByProtoPort : Type 0
ByProtoPort = List (ProtoPort × ConnectivityExpectation)

-- `dropped` holds the texts of the attachments that discovery gave up on.
pub record ConnectivityMatrix : Type 0 where
  pub all_endpoints : List Endpoint
  pub entries : List (EndpointPair × ByProtoPort)
  pub dropped : List String

abbrev pub empty_matrix : ConnectivityMatrix
empty_matrix = record { all_endpoints = []; entries = []; dropped = [] }

-- `ProtoPort{}`
abbrev pub zero_port : ProtoPort
zero_port = record { protocol = ""; port = 0 }

-- The zero `TranslatedAddress`.
abbrev pub no_translation : TranslatedAddress
no_translation = record {
  source_pool = record { addr = Addr.invalid; bits = 0 };
  destination_ip = Addr.invalid;
  destination_port = 0;
}

-- `==` on pointers, pairs and keys
unfoldable pub ptr_eq : Pointer → Pointer → Bool
ptr_eq none none = true
ptr_eq (some a) (some b) = a.ref == b.ref
ptr_eq _ _ = false

unfoldable pub pair_eq : EndpointPair → EndpointPair → Bool
unfolding ptr_eq
pair_eq p q = ptr_eq p.source q.source && ptr_eq p.destination q.destination

unfoldable pub port_eq : ProtoPort → ProtoPort → Bool
port_eq p q = str_eq p.protocol q.protocol && (p.port == q.port)

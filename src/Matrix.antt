-- ===== src/Matrix.antt =====
-- The connectivity matrix of pkg/hhfab/matrix.go: the expectations for pairs of endpoints, and what
-- is read and checked of them.
pub mod Types
pub mod Laws
pub mod Overlay
pub mod Excuses
pub mod Valid
pub mod Replace
mod Tests
use fabricator.Common.{
  ℕ, ◌+◌, ◌==◌, String, str_eq, Bool, true, false, not, ◌&&◌, ◌||◌, Option, none, some, List, [],
  ◌∷◌, ◌++◌, Result, ok, err, ◌>>=◌, if◌then◌else◌,
}
use fabricator.Netip.{is_valid}
use Types.{
  ConnectivityVerdict, allow, deny, unknown, TranslatedAddress, ProtoPort, Endpoint, Pointer,
  EndpointPair, ConnectivityExpectation, ByProtoPort, ConnectivityMatrix, zero_port, no_translation,
  ptr_eq, pair_eq, port_eq,
}

-- `m.entries[pair]`
unfoldable pub find_pair : EndpointPair → List (EndpointPair × ByProtoPort) → Option ByProtoPort
find_pair pair [] = none
find_pair pair ((p, by_pp) ∷ rest) = if pair_eq p pair then some by_pp else find_pair pair rest

-- `byPP[pp]`
unfoldable pub find_port : ProtoPort → ByProtoPort → Option ConnectivityExpectation
find_port pp [] = none
find_port pp ((q, e) ∷ rest) = if port_eq q pp then some e else find_port pp rest

-- `byPP[pp] = e`
set_port : ProtoPort → ConnectivityExpectation → ByProtoPort → ByProtoPort
set_port pp e [] = (pp, e) ∷ []
set_port pp e ((q, x) ∷ rest) = if port_eq q pp then (q, e) ∷ rest else (q, x) ∷ set_port pp e rest

-- The write through the inner map, which is made where the pair has none.
set_entry :
    ConnectivityExpectation → List (EndpointPair × ByProtoPort) → List (EndpointPair × ByProtoPort)
unfolding set_port
set_entry e [] = (e.pair, set_port e.proto_port e []) ∷ []
set_entry e ((p, by_pp) ∷ rest) =
    if pair_eq p e.pair
    then (p, set_port e.proto_port e by_pp) ∷ rest
    else (p, by_pp) ∷ set_entry e rest

-- `Add`
unfoldable pub add : ConnectivityExpectation → ConnectivityMatrix → ConnectivityMatrix
unfolding set_entry
add e m = record m { entries = set_entry e m.entries }

-- `Lookup`: the entry of the key, the default entry of the pair, or isolation.
pub default_deny : EndpointPair → ProtoPort → ConnectivityExpectation
default_deny pair pp = record {
  pair = pair;
  verdict = deny;
  nat = none;
  reason = "";
  peering = "";
  detail = "";
  proto_port = pp;
}

or_default :
    ByProtoPort → ProtoPort → Option ConnectivityExpectation → Option ConnectivityExpectation
or_default by_pp pp (some e) = some e
or_default by_pp pp none = if port_eq pp zero_port then none else find_port zero_port by_pp

lookup_in : ProtoPort → Option ByProtoPort → Option ConnectivityExpectation
unfolding or_default
lookup_in pp none = none
lookup_in pp (some by_pp) = or_default by_pp pp (find_port pp by_pp)

or_deny : EndpointPair → ProtoPort → Option ConnectivityExpectation → ConnectivityExpectation
unfolding default_deny
or_deny pair pp none = default_deny pair pp
or_deny pair pp (some e) = e

pub lookup : Pointer → Pointer → ProtoPort → ConnectivityMatrix → ConnectivityExpectation
unfolding lookup_in or_deny
lookup src dst pp m =
    let pair : EndpointPair = record { source = src; destination = dst } in
    or_deny pair pp (lookup_in pp (find_pair pair m.entries))

-- `HasProtoPortEntries`
any_port : ByProtoPort → Bool
any_port [] = false
any_port ((pp, e) ∷ rest) = not (port_eq pp zero_port) || any_port rest

any_port_in : Option ByProtoPort → Bool
unfolding any_port
any_port_in none = false
any_port_in (some by_pp) = any_port by_pp

pub has_proto_port_entries : Pointer → Pointer → ConnectivityMatrix → Bool
unfolding any_port_in
has_proto_port_entries src dst m =
    any_port_in (find_pair (record { source = src; destination = dst }) m.entries)

-- `IsSameEndpointNode`
pub is_same_endpoint_node : Pointer → Pointer → Bool
is_same_endpoint_node (some a) (some b) =
    elim a.external [
      | none ↦ false
      | some x ↦ elim b.external [ none ↦ false | some y ↦ str_eq x.external_name y.external_name ]
    ]
    || elim a.server [
      | none ↦ false
      | some x ↦ elim b.server [ none ↦ false | some y ↦ str_eq x.name y.name ]
    ]
is_same_endpoint_node _ _ = false

abbrev is_allow : ConnectivityVerdict → Bool
is_allow allow = true
is_allow _ = false

abbrev pub is_unknown : ConnectivityVerdict → Bool
is_unknown unknown = true
is_unknown _ = false

abbrev is_some {ℓ} : {A : Type ℓ} → Option A → Bool
is_some none = false
is_some (some _) = true

-- `e.NAT != nil && !e.NAT.SourcePool.IsValid()`
abbrev no_source_pool : Option TranslatedAddress → Bool
no_source_pool none = false
no_source_pool (some n) = not (is_valid n.source_pool)

-- `externalCurlAllowed`: the first external that the source may reach.
first_external : ConnectivityMatrix → Endpoint → List Endpoint → Option ConnectivityExpectation
first_external m src [] = none
first_external m src (dst ∷ rest) =
    let e = lookup (some src) (some dst) zero_port m in
    if is_some dst.external && is_allow e.verdict && not (no_source_pool e.nat)
    then some e
    else first_external m src rest

pub external_curl_allowed : Pointer → ConnectivityMatrix → Option ConnectivityExpectation
unfolding first_external
external_curl_allowed none m = none
external_curl_allowed (some src) m =
    if is_some src.server then first_external m src m.all_endpoints else none

abbrev has_server : Pointer → Bool
has_server none = false
has_server (some e) = is_some e.server

abbrev pub has_external : Pointer → Bool
has_external none = false
has_external (some e) = is_some e.external

abbrev forwards_port : Option TranslatedAddress → Bool
forwards_port none = false
forwards_port (some n) = not (n.destination_port == 0)

-- `defaultEntryShadowed`
pub default_entry_shadowed :
    EndpointPair → ProtoPort → ConnectivityExpectation → ConnectivityMatrix → Bool
default_entry_shadowed pair pp e m =
    port_eq pp zero_port
    && has_server pair.source
    && has_server pair.destination
    && not (forwards_port e.nat)
    && has_proto_port_entries pair.source pair.destination m

-- `extAllowBySource[src]`: whether one of the matrix's endpoints is this pointer and may reach an
-- external.
pub source_allowed : ConnectivityMatrix → Pointer → List Endpoint → Bool
source_allowed m src [] = false
source_allowed m src (ep ∷ rest) =
    ptr_eq (some ep) src && is_some (external_curl_allowed (some ep) m) || source_allowed m src rest

-- What `Validate` says of one entry.
pub is_unresolved : ConnectivityMatrix → EndpointPair → ProtoPort → ConnectivityExpectation → Bool
unfolding source_allowed default_entry_shadowed
is_unresolved m pair pp e =
    is_unknown e.verdict
    && not (has_external pair.destination && source_allowed m pair.source m.all_endpoints)
    && not (default_entry_shadowed pair pp e m)

unresolved_ports : ConnectivityMatrix → EndpointPair → ByProtoPort → List (EndpointPair × ProtoPort)
unfolding is_unresolved
unresolved_ports m pair [] = []
unresolved_ports m pair ((pp, e) ∷ rest) =
    let others = unresolved_ports m pair rest in
    if is_unresolved m pair pp e then (pair, pp) ∷ others else others

unresolved :
    ConnectivityMatrix → List (EndpointPair × ByProtoPort) → List (EndpointPair × ProtoPort)
unfolding unresolved_ports
unresolved m [] = []
unresolved m ((pair, by_pp) ∷ rest) = unresolved_ports m pair by_pp ++ unresolved m rest

pub data MatrixError : Type 0 where
  nil_matrix no_endpoints : MatrixError
  partially_visible : List String → MatrixError
  unknown_entries : List (EndpointPair × ProtoPort) → MatrixError

abbrev pub is_empty {ℓ} : {A : Type ℓ} → List A → Bool
is_empty [] = true
is_empty (_ ∷ _) = false

-- `Validate`: the errors that it joins; none is `nil`.
pub validate : Option ConnectivityMatrix → List MatrixError
unfolding unresolved
validate none = nil_matrix ∷ []
validate (some m) =
    (if is_empty m.all_endpoints then no_endpoints ∷ [] else [])
    ++ ((if is_empty m.dropped then [] else partially_visible m.dropped ∷ [])
        ++ (let unknowns = unresolved m m.entries in
            if is_empty unknowns then [] else unknown_entries unknowns ∷ []))

-- ===== src/Matrix/Laws.antt =====
-- The matrix as a partial function of pairs and keys: what `Add` writes and `Lookup` reads.
use fabricator.Common.{
  ◌≡◌, refl, true, false, ◌&&◌, eq_iff, eq_refl, Option, none, some, List, [], ◌∷◌, arith,
  if◌then◌else◌, Bool-cases, inl, inr,
}
use fabricator.Matrix.Types.{
  deny, ProtoPort, Pointer, EndpointPair, ConnectivityExpectation, ByProtoPort, ConnectivityMatrix,
  zero_port, ptr_eq, pair_eq, port_eq,
}
use fabricator.Matrix.{
  find_pair, find_port, set_port, set_entry, add, default_deny, lookup_in, or_deny, lookup,
}

pub ptr_eq_cong : (p q r : Pointer) → ptr_eq p q ≡ true → ptr_eq p r ≡ ptr_eq q r
unfolding ptr_eq
ptr_eq_cong none none r h = refl
ptr_eq_cong none (some b) r h = cc
ptr_eq_cong (some a) none r h = cc
ptr_eq_cong (some a) (some b) none h = refl
ptr_eq_cong (some a) (some b) (some c) h = ground arith

pub ptr_eq_refl : (p : Pointer) → ptr_eq p p ≡ true
unfolding ptr_eq
ptr_eq_refl none = refl
ptr_eq_refl (some a) = ground arith

pub pair_eq_cong : (p q r : EndpointPair) → pair_eq p q ≡ true → pair_eq p r ≡ pair_eq q r
unfolding pair_eq
pair_eq_cong p q r h = ground (
  arith,
  ptr_eq_cong p.source q.source r.source,
  ptr_eq_cong p.destination q.destination r.destination,
)

pub port_eq_cong : (p q r : ProtoPort) → port_eq p q ≡ true → port_eq p r ≡ port_eq q r
unfolding port_eq
port_eq_cong p q r h = ground (
  arith,
  eq_iff p.protocol q.protocol,
  eq_iff p.protocol r.protocol,
  eq_iff q.protocol r.protocol,
)

pub port_eq_refl : (p : ProtoPort) → port_eq p p ≡ true
unfolding port_eq
port_eq_refl p = ground (arith, eq_refl p.protocol)

port_eq_same : (pp q : ProtoPort) → port_eq pp zero_port ≡ true → port_eq q pp ≡ port_eq q zero_port
unfolding port_eq
port_eq_same pp q h =
    ground (arith, eq_iff pp.protocol "", eq_iff q.protocol pp.protocol, eq_iff q.protocol "")

-- A key that differs from one of two equal keys differs from the other.
port_eq_apart : (q p r : ProtoPort) → port_eq q p ≡ false → port_eq q r ≡ true → port_eq p r ≡ false
unfolding port_eq
port_eq_apart q p r h k = ground (
  arith,
  eq_iff q.protocol p.protocol,
  eq_iff q.protocol r.protocol,
  eq_iff p.protocol r.protocol,
)

ptr_eq_apart : (q p r : Pointer) → ptr_eq q p ≡ false → ptr_eq q r ≡ true → ptr_eq p r ≡ false
unfolding ptr_eq
ptr_eq_apart none none r h k = cc
ptr_eq_apart none (some b) none h k = refl
ptr_eq_apart none (some b) (some c) h k = cc
ptr_eq_apart (some a) none none h k = cc
ptr_eq_apart (some a) none (some c) h k = refl
ptr_eq_apart (some a) (some b) none h k = refl
ptr_eq_apart (some a) (some b) (some c) h k = ground arith

pair_eq_apart :
    (q p r : EndpointPair) → pair_eq q p ≡ false → pair_eq q r ≡ true → pair_eq p r ≡ false
unfolding pair_eq
pair_eq_apart q p r h k = ground (
  arith,
  ptr_eq_apart q.source p.source r.source,
  ptr_eq_apart q.destination p.destination r.destination,
)

port_eq_sym : (p q : ProtoPort) → port_eq p q ≡ port_eq q p
unfolding port_eq
port_eq_sym p q = ground (arith, eq_iff p.protocol q.protocol, eq_iff q.protocol p.protocol)

pub pair_eq_refl : (p : EndpointPair) → pair_eq p p ≡ true
unfolding pair_eq
pair_eq_refl p = ground (arith, ptr_eq_refl p.source, ptr_eq_refl p.destination)

find_port-set_port :
    (pp qq : ProtoPort) (e : ConnectivityExpectation) (b : ByProtoPort)
    → find_port qq (set_port pp e b) ≡ (if port_eq pp qq then some e else find_port qq b)
unfolding find_port set_port
find_port-set_port pp qq e [] = refl
find_port-set_port pp qq e ((q, x) ∷ b) = elim (Bool-cases (port_eq q pp)) [
  | inl h ↦ rw (h, port_eq_cong q pp qq h) (ground arith)
  | inr h ↦ rw h (ground (arith, find_port-set_port pp qq e b, port_eq_apart q pp qq h))
]

-- The entry of a pair and a key.
unfoldable pub find_in : ProtoPort → Option ByProtoPort → Option ConnectivityExpectation
find_in pp none = none
find_in pp (some b) = find_port pp b

unfoldable pub find : EndpointPair → ProtoPort → ConnectivityMatrix → Option ConnectivityExpectation
unfolding find_in
find pair pp m = find_in pp (find_pair pair m.entries)

find-set_entry :
    (e : ConnectivityExpectation) (pair : EndpointPair) (pp : ProtoPort)
    (entries : List (EndpointPair × ByProtoPort))
    → find_in pp (find_pair pair (set_entry e entries)) ≡ (
        if pair_eq e.pair pair && port_eq e.proto_port pp
        then some e
        else find_in pp (find_pair pair entries))
unfolding find_in find_pair set_entry find_port
find-set_entry e pair pp [] = ground arith
find-set_entry e pair pp ((p, b) ∷ rest) = elim (Bool-cases (pair_eq p e.pair)) [
  | inl h ↦
      rw (h, pair_eq_cong p e.pair pair h) (ground (arith, find_port-set_port e.proto_port pp e b))
  | inr h ↦ rw h (ground (arith, find-set_entry e pair pp rest, pair_eq_apart p e.pair pair h))
]

-- `add` sets the entry of its pair and key, and changes no other.
pub find-add :
    (e : ConnectivityExpectation) (m : ConnectivityMatrix) (pair : EndpointPair) (pp : ProtoPort)
    → find pair pp (add e m)
      ≡ (if pair_eq e.pair pair && port_eq e.proto_port pp then some e else find pair pp m)
unfolding find add
find-add e m pair pp = find-set_entry e pair pp m.entries

find_zero :
    (pp : ProtoPort) (b : ByProtoPort)
    → port_eq pp zero_port ≡ true
    → find_port pp b ≡ find_port zero_port b
unfolding find_port
find_zero pp [] h = refl
find_zero pp ((q, x) ∷ b) h = rw (port_eq_same pp q h) (ground (arith, find_zero pp b h))

find_default_in :
    (pp : ProtoPort) (o : Option ByProtoPort)
    → port_eq pp zero_port ≡ true
    → find_in pp o ≡ find_in zero_port o
unfolding find_in
find_default_in pp none h = refl
find_default_in pp (some b) h = find_zero pp b h

-- Isolation: the traffic is denied, and nothing explains or translates it.
abbrev pub isolated : EndpointPair → ProtoPort → ConnectivityExpectation
isolated pair pp = record {
  pair = pair;
  verdict = deny;
  nat = none;
  reason = "";
  peering = "";
  detail = "";
  proto_port = pp;
}

-- The entry of the key, or else the default entry of the pair, or else isolation.
abbrev pub resolve : EndpointPair → ProtoPort → ConnectivityMatrix → ConnectivityExpectation
resolve pair pp m = elim (find pair pp m) [
  | some e ↦ e
  | none ↦ elim (find pair zero_port m) [ some e ↦ e | none ↦ isolated pair pp ]
]

-- `resolve` over the inner map of the pair.
resolve_in : EndpointPair → ProtoPort → Option ByProtoPort → ConnectivityExpectation
resolve_in pair pp o = elim (find_in pp o) [
  | some e ↦ e
  | none ↦ elim (find_in zero_port o) [ some e ↦ e | none ↦ isolated pair pp ]
]

lookup_in-resolve_in :
    (pair : EndpointPair) (pp : ProtoPort) (o : Option ByProtoPort)
    → or_deny pair pp (lookup_in pp o) ≡ resolve_in pair pp o
unfolding or_deny default_deny lookup_in find_in resolve_in
lookup_in-resolve_in pair pp none = refl
lookup_in-resolve_in pair pp (some b) = ground (arith, find_zero pp b)

-- `lookup` gives the entry of the key, or else the default entry of the pair, or else isolation, as
-- the partial function `find` has them.
pub lookup-resolve :
    (src dst : Pointer) (pp : ProtoPort) (m : ConnectivityMatrix)
    → lookup src dst pp m ≡ resolve (record { source = src; destination = dst }) pp m
unfolding lookup find resolve_in
lookup-resolve src dst pp m =
    lookup_in-resolve_in (record { source = src; destination = dst }) pp
      (find_pair (record { source = src; destination = dst }) m.entries)

-- Looking up what was just added gives it back, for its pair and key.
pub lookup-add_self :
    (e : ConnectivityExpectation) (m : ConnectivityMatrix)
    → lookup e.pair.source e.pair.destination e.proto_port (add e m) ≡ e
lookup-add_self e m = rw lookup-resolve (
    ground
      (arith, find-add e m e.pair e.proto_port, pair_eq_refl e.pair, port_eq_refl e.proto_port))

-- Two spellings of the default key have the same entry.
find_default :
    (src dst : Pointer) (pp : ProtoPort) (m : ConnectivityMatrix)
    → port_eq pp zero_port ≡ true
    → find (record { source = src; destination = dst }) pp m
      ≡ find (record { source = src; destination = dst }) zero_port m
unfolding find find_in
find_default src dst pp m h =
    find_default_in pp (find_pair (record { source = src; destination = dst }) m.entries) h

-- A default entry that is added answers the default key and every key of its pair that has no entry
-- of its own, and changes the answer for no other pair.
pub lookup-add_default :
    (e : ConnectivityExpectation) (m : ConnectivityMatrix) (src dst : Pointer) (pp : ProtoPort)
    → port_eq e.proto_port zero_port ≡ true
    → lookup src dst pp (add e m) ≡ (
        if pair_eq e.pair (record { source = src; destination = dst })
        then (if port_eq pp zero_port
            then e
            else elim (find (record { source = src; destination = dst }) pp m) [
              | some x ↦ x
              | none ↦ e
            ])
        else lookup src dst pp m)
lookup-add_default e m src dst pp h =
    rw (lookup-resolve src dst pp (add e m), lookup-resolve src dst pp m)
      (ground (
        arith,
        find-add e m (record { source = src; destination = dst }) pp,
        find-add e m (record { source = src; destination = dst }) zero_port,
        port_eq_cong e.proto_port zero_port pp,
        port_eq_sym zero_port pp,
        find_default src dst pp m,
      ))

-- ===== src/Matrix/Excuses.antt =====
-- What `Validate` of pkg/hhfab/matrix.go excuses an entry of an unknown verdict by.
use fabricator.Common.{
  and_true, or_true, ◌≢◌, inl, inr, Bool, not, ◌&&◌, Among, Among-or, if◌then◌else◌, ◌≡◌, refl, ◌⊎◌,
  true, false, Option, none, some, List, [], ◌∷◌, arith,
}
use fabricator.Netip.{is_valid}
use fabricator.Matrix.Types.{
  ConnectivityVerdict, allow, deny, unknown, TranslatedAddress, ServerEndpoint, ExternalEndpoint,
  Endpoint, ptr_eq, ProtoPort, Pointer, EndpointPair, ConnectivityExpectation, ByProtoPort,
  ConnectivityMatrix, zero_port, port_eq,
}
use fabricator.Matrix.{
  lookup, is_some, is_allow, no_source_pool, forwards_port, has_server, first_external,
  external_curl_allowed, find_pair, any_port, any_port_in, has_proto_port_entries,
  default_entry_shadowed, source_allowed, is_unresolved, has_external, is_unknown,
}

-- A pointer to an endpoint of a server, and to one of an external.
abbrev pub IsServer : Pointer → Type 0
IsServer none = ⊥
IsServer (some ep) = (s : ServerEndpoint) × (ep.server ≡ some s)

abbrev pub IsExternal : Pointer → Type 0
IsExternal none = ⊥
IsExternal (some ep) = (x : ExternalEndpoint) × (ep.external ≡ some x)

-- There is no translation, or one with a pool of sources.
abbrev pub HasSourcePool : Option TranslatedAddress → Type 0
HasSourcePool none = Unit
HasSourcePool (some n) = is_valid n.source_pool ≡ true

-- There is no translation, or one that forwards no port.
abbrev pub ForwardsNoPort : Option TranslatedAddress → Type 0
ForwardsNoPort none = Unit
ForwardsNoPort (some n) = n.destination_port ≡ 0

-- The source is expected to reach the external by the default entry.
abbrev pub Reaches : ConnectivityMatrix → Endpoint → Endpoint → Type 0
Reaches m src dst =
    let e = lookup (some src) (some dst) zero_port m in
    IsExternal (some dst) × ((e.verdict ≡ allow) × HasSourcePool e.nat)

-- The source is a server of the matrix that is expected to reach one of its externals.
abbrev pub IsCurlable : ConnectivityMatrix → Pointer → Type 0
IsCurlable m src =
    Among
      (λ ep.
        (ptr_eq (some ep) src ≡ true) × (IsServer (some ep) × Among (Reaches m ep) m.all_endpoints))
      m.all_endpoints

-- A default entry between servers that forwards no port, whose pair has an entry under a port.
abbrev pub IsShadowed :
    ConnectivityMatrix → EndpointPair → ProtoPort → ConnectivityExpectation → Type 0
IsShadowed m pair pp e =
    (port_eq pp zero_port ≡ true)
    × (IsServer pair.source
        × (IsServer pair.destination
            × (ForwardsNoPort e.nat
                × ((b : ByProtoPort) × (find_pair pair m.entries ≡ some b)
                    × Among (λ x. port_eq x.0 zero_port ≡ false) b))))

-- An entry that a test can read: its verdict is known, or it is an external destination that the
-- curl test reaches through another, or a default entry that the keyed entries of its pair shadow.
abbrev pub IsExcused :
    ConnectivityMatrix → EndpointPair → ProtoPort → ConnectivityExpectation → Type 0
IsExcused m pair pp e =
    (e.verdict ≢ unknown)
    ⊎ ((IsExternal pair.destination × IsCurlable m pair.source) ⊎ IsShadowed m pair pp e)

some_of : {A : Type 0} (o : Option A) → is_some o ≡ true → (a : A) × (o ≡ some a)
some_of none h = absurd (cc h)
some_of (some a) h = (a, refl)

has_server-IsServer : (p : Pointer) → has_server p ≡ true → IsServer p
has_server-IsServer none h = absurd (cc h)
has_server-IsServer (some ep) h = some_of ep.server h

has_external-IsExternal : (p : Pointer) → has_external p ≡ true → IsExternal p
has_external-IsExternal none h = absurd (cc h)
has_external-IsExternal (some ep) h = some_of ep.external h

is_allow-allow : (v : ConnectivityVerdict) → is_allow v ≡ true → v ≡ allow
is_allow-allow allow h = refl
is_allow-allow deny h = absurd (cc h)
is_allow-allow unknown h = absurd (cc h)

known : (v : ConnectivityVerdict) → is_unknown v ≡ false → v ≢ unknown
known allow h e = cc e
known deny h e = cc e
known unknown h e = cc h

pool-HasSourcePool : (n : Option TranslatedAddress) → no_source_pool n ≡ false → HasSourcePool n
pool-HasSourcePool none h = tt
pool-HasSourcePool (some n) h = ground arith

forwards-ForwardsNoPort :
    (n : Option TranslatedAddress) → forwards_port n ≡ false → ForwardsNoPort n
forwards-ForwardsNoPort none h = tt
forwards-ForwardsNoPort (some n) h = ground arith

not-true : (b : Bool) → not b ≡ true → b ≡ false
not-true true h = absurd (cc h)
not-true false h = refl

chosen :
    {A : Type 0} (b : Bool) (a : A) (o : Option A)
    → is_some (if b then some a else o) ≡ true
    → (b ≡ true) ⊎ (is_some o ≡ true)
chosen true a o h = inl refl
chosen false a o h = inr h

first_external-Reaches :
    (m : ConnectivityMatrix) (src : Endpoint) (eps : List Endpoint)
    → is_some (first_external m src eps) ≡ true
    → Among (Reaches m src) eps
unfolding first_external
first_external-Reaches m src [] h = absurd (cc h)
first_external-Reaches m src (dst ∷ eps) h =
    let e = lookup (some src) (some dst) zero_port m in
    Among-or (Reaches m src) dst eps (elim (chosen _ e (first_external m src eps) h) [
      | inl t ↦
          let (r, p) = and_true _ _ t in
          let (x, a) = and_true _ _ r in
          inl (
            some_of dst.external x,
            (is_allow-allow e.verdict a, pool-HasSourcePool e.nat (not-true _ p)),
          )
      | inr t ↦ inr (first_external-Reaches m src eps t)
    ])

served :
    {A : Type 0} (b : Bool) (o : Option A)
    → is_some (if b then o else none) ≡ true
    → (b ≡ true) × (is_some o ≡ true)
served true o h = (refl, h)
served false o h = absurd (cc h)

source_allowed-Among :
    (m : ConnectivityMatrix) (src : Pointer) (eps : List Endpoint)
    → source_allowed m src eps ≡ true
    → Among
        (λ ep.
          (ptr_eq (some ep) src ≡ true)
          × (IsServer (some ep) × Among (Reaches m ep) m.all_endpoints))
        eps
unfolding source_allowed external_curl_allowed
source_allowed-Among m src [] h = absurd (cc h)
source_allowed-Among m src (ep ∷ eps) h = Among-or _ ep eps (elim (or_true _ _ h) [
  | inl t ↦
      let (p, c) = and_true _ _ t in
      let (s, x) = served (is_some ep.server) (first_external m ep m.all_endpoints) c in
      inl (p, (some_of ep.server s, first_external-Reaches m ep m.all_endpoints x))
  | inr t ↦ inr (source_allowed-Among m src eps t)
])

any_port-Among :
    (b : ByProtoPort) → any_port b ≡ true → Among (λ x. port_eq x.0 zero_port ≡ false) b
unfolding any_port
any_port-Among [] h = absurd (cc h)
any_port-Among ((pp, e) ∷ b) h =
    Among-or _ (pp, e) b
      (elim (or_true _ _ h) [ inl t ↦ inl (not-true _ t) | inr t ↦ inr (any_port-Among b t) ])

any_port_in-Among :
    (o : Option ByProtoPort)
    → any_port_in o ≡ true
    → (b : ByProtoPort) × (o ≡ some b) × Among (λ x. port_eq x.0 zero_port ≡ false) b
unfolding any_port_in
any_port_in-Among none h = absurd (cc h)
any_port_in-Among (some b) h = (b, refl, any_port-Among b h)

default_entry_shadowed-IsShadowed :
    (m : ConnectivityMatrix) (pair : EndpointPair) (pp : ProtoPort) (e : ConnectivityExpectation)
    → default_entry_shadowed pair pp e m ≡ true
    → IsShadowed m pair pp e
unfolding default_entry_shadowed has_proto_port_entries
default_entry_shadowed-IsShadowed m pair pp e h = (
  ground arith,
  (
    has_server-IsServer pair.source (ground arith),
    (
      has_server-IsServer pair.destination (ground arith),
      (
        forwards-ForwardsNoPort e.nat (ground arith),
        any_port_in-Among (find_pair pair m.entries) (ground arith),
      ),
    ),
  ),
)

resolved_test :
    (u x s : Bool) → u && not x && not s ≡ false → (u ≡ false) ⊎ ((x ≡ true) ⊎ (s ≡ true))
resolved_test false x s h = inl refl
resolved_test true true s h = inr (inl refl)
resolved_test true false true h = inr (inr refl)
resolved_test true false false h = absurd (cc h)

pub resolved-IsExcused :
    (m : ConnectivityMatrix) (pair : EndpointPair) (pp : ProtoPort) (e : ConnectivityExpectation)
    → is_unresolved m pair pp e ≡ false
    → IsExcused m pair pp e
unfolding is_unresolved
resolved-IsExcused m pair pp e h =
    elim (resolved_test (is_unknown e.verdict)
      (has_external pair.destination && source_allowed m pair.source m.all_endpoints)
      (default_entry_shadowed pair pp e m) h) [
        | inl u ↦ inl (known e.verdict u)
        | inr r ↦ inr (elim r [
          | inl x ↦
              let (d, s) = and_true _ _ x in
              inl (
                has_external-IsExternal pair.destination d,
                source_allowed-Among m pair.source m.all_endpoints s,
              )
          | inr s ↦ inr (default_entry_shadowed-IsShadowed m pair pp e s)
        ])
      ]

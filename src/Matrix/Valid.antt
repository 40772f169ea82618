-- ===== src/Matrix/Valid.antt =====
-- What `Validate` accepts, and what `HasProtoPortEntries` decides.
use fabricator.Common.{◌≡◌, refl, true, false, Option, none, some, List, [], ◌∷◌, ◌++◌, arith, All}
use fabricator.Matrix.Types.{
  ProtoPort, Pointer, EndpointPair, ConnectivityExpectation, ByProtoPort, ConnectivityMatrix,
  zero_port, port_eq,
}
use fabricator.Matrix.{
  find_pair, find_port, any_port, any_port_in, has_proto_port_entries, unresolved_ports, unresolved,
  validate, is_empty,
}
use fabricator.Matrix.Laws.{find, find_in, port_eq_cong}
use fabricator.Matrix.Excuses.{IsExcused, resolved-IsExcused}

module _ (m : ConnectivityMatrix) where
  abbrev pub Excused : List (EndpointPair × ByProtoPort) → Type 0
  Excused = All (λ (entry : EndpointPair × ByProtoPort).
      All (λ (x : ProtoPort × ConnectivityExpectation). IsExcused m entry.0 x.0 x.1) entry.1)

  ports-Excused :
      (pair : EndpointPair) (b : ByProtoPort)
      → unresolved_ports m pair b ≡ []
      → All (λ (x : ProtoPort × ConnectivityExpectation). IsExcused m pair x.0 x.1) b
  unfolding unresolved_ports
  ports-Excused pair [] h = tt
  ports-Excused pair ((pp, e) ∷ b) h =
      (resolved-IsExcused m pair pp e (ground arith), ports-Excused pair b (ground arith))

  entries-Excused :
      (entries : List (EndpointPair × ByProtoPort)) → unresolved m entries ≡ [] → Excused entries
  unfolding unresolved
  entries-Excused [] h = tt
  entries-Excused ((pair, b) ∷ rest) h =
      let (l, r) = append-eq-nil (unresolved_ports m pair b) (unresolved m rest) h in
      (ports-Excused pair b l, entries-Excused rest r)
    where
      append-eq-nil : {A : Type 0} (xs ys : List A) → xs ++ ys ≡ [] → (xs ≡ []) × (ys ≡ [])
      append-eq-nil [] ys e = (refl, e)
      append-eq-nil (x ∷ xs) ys e = absurd (cc e)

  -- A matrix without errors has endpoints and nothing dropped, and each of its entries is known or
  -- excused: its destination is an external and its source a server of the matrix that is expected
  -- to reach one of its externals, without translation or from a pool; or it is a default entry
  -- between servers that forwards no port, and its pair has an entry under a port.
  pub validate-Excused :
      validate (some m) ≡ []
      → (is_empty m.all_endpoints ≡ false) × (m.dropped ≡ []) × Excused m.entries
  unfolding validate
  validate-Excused h = (ground arith, ground arith, entries-Excused m.entries (ground arith))

any_port-find :
    (b : ByProtoPort) (pp : ProtoPort) (e : ConnectivityExpectation)
    → any_port b ≡ false
    → find_port pp b ≡ some e
    → port_eq pp zero_port ≡ true
unfolding any_port find_port
any_port-find [] pp e h k = cc
any_port-find ((q, x) ∷ b) pp e h k =
    ground (arith, any_port-find b pp e, port_eq_cong q pp zero_port)

-- A pair for which `HasProtoPortEntries` says no has no entry under any other key than the default.
has_proto_port_entries-find :
    (src dst : Pointer) (m : ConnectivityMatrix) (pp : ProtoPort) (e : ConnectivityExpectation)
    → has_proto_port_entries src dst m ≡ false
    → find (record { source = src; destination = dst }) pp m ≡ some e
    → port_eq pp zero_port ≡ true
unfolding has_proto_port_entries find find_in any_port_in
has_proto_port_entries-find src dst m pp e h k =
    in_pair (find_pair (record { source = src; destination = dst }) m.entries) h k
  where
    in_pair :
        (o : Option ByProtoPort)
        → any_port_in o ≡ false
        → find_in pp o ≡ some e
        → port_eq pp zero_port ≡ true
    in_pair none h k = absurd (cc k)
    in_pair (some b) h k = any_port-find b pp e h k

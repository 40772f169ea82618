-- ===== src/Reach/Populate/Laws.antt =====
-- What the entries that `populateConnectivityMatrix` of pkg/hhfab/testing.go writes come from.
use fabricator.Common.{
  Among, Among-or, ◌≡◌, refl, subst, sym, ◌==◌, ◌&&◌, String, str_eq, Bool, true, false, Option,
  none, some, some-injective, ◌∙◌, List, [], ◌∷◌, Result, ok, err, ok-injective, inl, inr, Keeps,
  Keeps-fold, fold_ok, if◌then◌else◌,
}
use fabricator.Netip.{Prefix}
use fabricator.Matrix.Types.{
  ConnectivityVerdict, allow, unknown, zero_port, ServerEndpoint, ExternalEndpoint, Endpoint,
  EndpointPair, ProtoPort, ConnectivityExpectation, ConnectivityMatrix, pair_eq, port_eq,
}
use fabricator.Matrix.{add, find_pair}
use fabricator.Matrix.Laws.{find, find-add}
use fabricator.Reach.{Reachability, ReachError, ReachApi}
use fabricator.Reach.Servers.{is_server_reachable, is_external_subnet_reachable}
use fabricator.Reach.Populate.{
  allowed, undecided, record_answer, prefix_step, scan_prefixes, by_kind, pair_step, populate,
}

-- Every entry has a property.
abbrev pub Every : (ConnectivityExpectation → Type 0) → ConnectivityMatrix → Type 0
Every P m =
    (pair : EndpointPair) (pp : ProtoPort) (e : ConnectivityExpectation)
    → find pair pp m ≡ some e
    → P e

module _ (P : ConnectivityExpectation → Type 0) where
  chosen :
      (b : Bool) (e e' : ConnectivityExpectation) (o : Option ConnectivityExpectation)
      → P e
      → (o ≡ some e' → P e')
      → (if b then some e else o) ≡ some e'
      → P e'
  chosen true e e' o p k h = subst P (some-injective h) p
  chosen false e e' o p k h = k h

  add-Every :
      (e : ConnectivityExpectation) (m : ConnectivityMatrix) → P e → Every P m → Every P (add e m)
  add-Every e m p k pair pp e' h =
      chosen (pair_eq e.pair pair && port_eq e.proto_port pp) e e' (find pair pp m) p (k pair pp e')
        (sym (find-add e m pair pp) ∙ h)

  add_if-Every :
      (b : Bool) (e : ConnectivityExpectation) (m : ConnectivityMatrix)
      → (b ≡ true → P e)
      → Every P m
      → Every P (if b then add e m else m)
  add_if-Every true e m p k = add-Every e m (p refl) k
  add_if-Every false e m p k = k

-- An entry under the default key, without translation.
abbrev pub entry_of :
    EndpointPair → ConnectivityVerdict → String → String → String → ConnectivityExpectation
entry_of pair v reason peering detail = record {
  pair = pair;
  verdict = v;
  nat = none;
  reason = reason;
  peering = peering;
  detail = detail;
  proto_port = zero_port;
}

-- The answer that an expectation records.
pub data Records (e : ConnectivityExpectation) (a : Result ReachError Reachability) : Type 0 where
  as_allowed :
      (r : Reachability)
      → a ≡ ok r
      → r.reachable ≡ true
      → e ≡ entry_of e.pair allow r.reason r.peering ""
      → Records e a
  as_undecided :
      (d : String)
      → a ≡ err (ReachError.unsupported d)
      → e ≡ entry_of e.pair unknown "" "" d
      → Records e a

module _ {P : ConnectivityMatrix → Type 0}
    {f g : ConnectivityMatrix → Result String ConnectivityMatrix} where
  Keeps-if :
      (b : Bool)
      → (b ≡ true → Keeps P f)
      → (b ≡ false → Keeps P g)
      → Keeps P (λ s. if b then f s else g s)
  Keeps-if true kf kg = kf refl
  Keeps-if false kf kg = kg refl

module _ {P : ConnectivityMatrix → Type 0} where
  -- A step that always succeeds.
  Keeps-pure :
      (f : ConnectivityMatrix → ConnectivityMatrix)
      → ((m : ConnectivityMatrix) → P m → P (f m))
      → Keeps {E = String} P (λ m. ok (f m))
  Keeps-pure f k = record { at = λ s s' h p. subst P (ok-injective h) (k s p) }

  Keeps-refused :
      (e : String) → Keeps P (λ m. let r : Result String ConnectivityMatrix = err e in r)
  Keeps-refused e = record { at = λ s s' h p. absurd (cc h) }

module _ (P : ConnectivityExpectation → Type 0) (pair : EndpointPair) where
  record_answer-Keeps :
      (a : Result ReachError Reachability)
      → ((e : ConnectivityExpectation) → e.pair ≡ pair → Records e a → P e)
      → Keeps (Every P) (record_answer pair a)
  record_answer-Keeps (ok r) j =
      Keeps-pure (λ m. if r.reachable then add (allowed pair r) m else m)
        (λ m k.
          add_if-Every P r.reachable (allowed pair r) m
            (λ b. j (allowed pair r) refl (as_allowed r refl b refl)) k)
  record_answer-Keeps (err (ReachError.unsupported d)) j =
      Keeps-pure (λ m. add (undecided pair d) m)
        (λ m k.
          add-Every P (undecided pair d) m (j (undecided pair d) refl (as_undecided d refl refl)) k)
  record_answer-Keeps (err (ReachError.failed e)) j = Keeps-refused e

  prefix_step-Keeps :
      (a : Result ReachError Reachability)
      (rest : ConnectivityMatrix → Result String ConnectivityMatrix)
      → ((e : ConnectivityExpectation) → e.pair ≡ pair → Records e a → P e)
      → Keeps (Every P) rest
      → Keeps (Every P) (prefix_step pair rest a)
  prefix_step-Keeps (ok r) rest j kr =
      Keeps-if r.reachable
        (λ b.
          Keeps-pure (λ m. add (allowed pair r) m)
            (λ m k.
              add-Every P (allowed pair r) m (j (allowed pair r) refl (as_allowed r refl b refl))
                k))
        (λ _. kr)
  prefix_step-Keeps (err (ReachError.unsupported d)) rest j kr = record {
    at = λ s s' h k.
        kr.at (add (undecided pair d) s) s' h (
          add-Every P (undecided pair d) s (j (undecided pair d) refl (as_undecided d refl refl))
            k);
  }
  prefix_step-Keeps (err (ReachError.failed e)) rest j kr = Keeps-refused e

  scan_prefixes-Keeps :
      (f : Prefix → Result ReachError Reachability) (ps : List Prefix)
      → ((e : ConnectivityExpectation) → e.pair ≡ pair → Among (λ p. Records e (f p)) ps → P e)
      → Keeps (Every P) (scan_prefixes pair f ps)
  unfolding scan_prefixes
  scan_prefixes-Keeps f [] j = Keeps-pure (λ m. m) (λ m k. k)
  scan_prefixes-Keeps f (p ∷ ps) j =
      prefix_step-Keeps (f p) (scan_prefixes pair f ps) (λ e q a. j e q (Among-or _ p ps (inl a)))
        (scan_prefixes-Keeps f ps (λ e q a. j e q (Among-or _ p ps (inr a))))

module _ (prefix_string : Prefix → String) (api : ReachApi) (gateway_enabled : Bool) where
  -- The check that an entry records: of two servers, or of a server and a prefix of an external.
  pub data Justified (e : ConnectivityExpectation) : Type 0 where
    of_servers :
        (src dst : Endpoint) (s d : ServerEndpoint)
        → e.pair ≡ record { source = some src; destination = some dst }
        → (src.ref == dst.ref) ≡ false
        → src.server ≡ some s
        → dst.server ≡ some d
        → str_eq s.name d.name ≡ false
        → Records e (is_server_reachable api gateway_enabled s.name d.name)
        → Justified e
    of_external :
        (src dst : Endpoint) (s : ServerEndpoint) (x : ExternalEndpoint)
        → e.pair ≡ record { source = some src; destination = some dst }
        → (src.ref == dst.ref) ≡ false
        → src.server ≡ some s
        → dst.server ≡ none
        → dst.external ≡ some x
        → Among
            (λ p.
              Records e (is_external_subnet_reachable api gateway_enabled s.name (prefix_string p)))
            x.prefixes
        → Justified e

  by_kind-Keeps :
      (src dst : Endpoint) (s d : Option ServerEndpoint) (x : Option ExternalEndpoint)
      → (src.ref == dst.ref) ≡ false
      → src.server ≡ s
      → dst.server ≡ d
      → dst.external ≡ x
      → Keeps (Every Justified) (
          by_kind prefix_string api gateway_enabled
            (record { source = some src; destination = some dst })
            s
            d
            x)
  by_kind-Keeps src dst (some s) (some d) x a es ed ex =
      Keeps-if (str_eq s.name d.name) (λ _. Keeps-pure (λ m. m) (λ m k. k))
        (λ n.
          record_answer-Keeps Justified _ (is_server_reachable api gateway_enabled s.name d.name)
            (λ e q r. of_servers src dst s d q a es ed n r))
  by_kind-Keeps src dst (some s) none (some x) a es ed ex =
      scan_prefixes-Keeps Justified _ _ x.prefixes (λ e q r. of_external src dst s x q a es ed ex r)
  by_kind-Keeps src dst (some s) none none a es ed ex = Keeps-pure (λ m. m) (λ m k. k)
  by_kind-Keeps src dst none d x a es ed ex = Keeps-pure (λ m. m) (λ m k. k)

  pair_step-Keeps :
      (src dst : Endpoint)
      → Keeps (Every Justified) (pair_step prefix_string api gateway_enabled src dst)
  unfolding pair_step
  pair_step-Keeps src dst =
      Keeps-if (src.ref == dst.ref) (λ _. Keeps-pure (λ m. m) (λ m k. k))
        (λ a. by_kind-Keeps src dst src.server dst.server dst.external a refl refl refl)

  empty-Every : (m : ConnectivityMatrix) → Every Justified (record m { entries = [] })
  unfolding find find_pair
  empty-Every m pair pp e h = absurd (cc h)

  -- Every entry of a matrix that `populateConnectivityMatrix` has filled without an error records
  -- what a check said: for two servers of different names, `IsServerReachable` of the two; else, for
  -- a server and an external, `IsExternalSubnetReachable` of one of its prefixes. It is allowed with
  -- the reason and the peering of an answer that is reachable, or unknown with the text of an error
  -- that says that the check is not supported.
  pub populate-Justified :
      (m m' : ConnectivityMatrix) (pair : EndpointPair) (pp : ProtoPort)
      (e : ConnectivityExpectation)
      → populate prefix_string api gateway_enabled m ≡ ok m'
      → find pair pp m' ≡ some e
      → Justified e
  unfolding populate
  populate-Justified m m' pair pp e h =
      (Keeps-fold (λ src. fold_ok (pair_step prefix_string api gateway_enabled src) m.all_endpoints)
          m.all_endpoints
          (λ src.
            Keeps-fold (pair_step prefix_string api gateway_enabled src) m.all_endpoints
              (pair_step-Keeps src))).at
        (record m { entries = [] }) m' h (empty-Every m) pair pp e

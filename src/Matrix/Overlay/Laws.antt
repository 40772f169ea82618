-- ===== src/Matrix/Overlay/Laws.antt =====
-- What `OverlayMatrixNAT` leaves in the matrix.
use fabricator.Common.{
  sym, ok-injective, subst, All-map, All-at, get_elem?, ◌∙◌, ℕ, ◌+◌, ◌≡◌, refl, String, Bool, true,
  false, List, [], ◌∷◌, Result, ok, err, arith, All, some, bind-eq-ok, Bool-cases, inl, inr,
}
use fabricator.Matrix.Types.{
  ConnectivityExpectation, allow, TranslatedAddress, Endpoint, Pointer, EndpointPair,
  ConnectivityMatrix, ProtoPort, zero_port, pair_eq,
}
use fabricator.Matrix.{add, lookup}
use fabricator.Matrix.Overlay.{
  overlaid, overlay_pair, overlay_source, overlay_all, finish_overlay, overlay_matrix_nat,
}
use fabricator.Matrix.Laws.{lookup-add_default, port_eq_refl, pair_eq_refl}

abbrev pub pair_of : Endpoint → Endpoint → EndpointPair
pair_of src dst = record { source = some src; destination = some dst }

-- The default expectation of a pair is `allow`.
abbrev pub Allows : ConnectivityMatrix → Endpoint → Endpoint → Type 0
Allows m src dst = (lookup (some src) (some dst) zero_port m).verdict ≡ allow

module _ {E : Type 0} (gateway_peering : String) (src_pred dst_pred : Endpoint → Bool)
    (mutator : Endpoint → Endpoint → TranslatedAddress → Result E TranslatedAddress) where
  abbrev over :
      Endpoint → Endpoint → TranslatedAddress → ConnectivityMatrix → ConnectivityExpectation
  over = overlaid gateway_peering src_pred dst_pred mutator

  added :
      (src dst : Endpoint) (m m' : ConnectivityMatrix)
      → overlay_pair gateway_peering src_pred dst_pred mutator src dst m ≡ ok m'
      → (nat : TranslatedAddress) × (m' ≡ add (over src dst nat m) m)
  unfolding overlay_pair
  added src dst m m' h =
      let (nat, _, e) = bind-eq-ok (mutator src dst _) _ h in (nat, sym (ok-injective e))

  module _ (src dst : Endpoint) (m m' : ConnectivityMatrix)
      (h : overlay_pair gateway_peering src_pred dst_pred mutator src dst m ≡ ok m') where
    -- The pair is allowed, and what was allowed still is.
    pair_allows : Allows m' src dst
    unfolding overlaid
    pair_allows =
        let (nat, e) = added src dst m m' h in
        rw e (
          ground (
            arith,
            lookup-add_default (over src dst nat m) m (some src) (some dst) zero_port
                (port_eq_refl zero_port),
            pair_eq_refl (pair_of src dst),
            port_eq_refl zero_port,
          ))

    pair_keeps : (s d : Endpoint) → Allows m s d → Allows m' s d
    unfolding overlaid
    pair_keeps s d k =
        let (nat, e) = added src dst m m' h in
        rw e (
          ground (
            arith,
            lookup-add_default (over src dst nat m) m (some s) (some d) zero_port
                (port_eq_refl zero_port),
            port_eq_refl zero_port,
          ))

    pair_untouched :
        (src' dst' : Pointer) (pp : ProtoPort)
        → pair_eq (pair_of src dst) (record { source = src'; destination = dst' }) ≡ false
        → lookup src' dst' pp m' ≡ lookup src' dst' pp m
    unfolding overlaid
    pair_untouched src' dst' pp k =
        let (nat, e) = added src dst m m' h in
        rw e (
          ground (
            arith,
            lookup-add_default (over src dst nat m) m src' dst' pp (port_eq_refl zero_port),
          ))

  -- A property of matrices that every step keeps is kept by the loops.
  module _ (P : ConnectivityMatrix → Type 0)
      (step : (src dst : Endpoint) (m m' : ConnectivityMatrix)
        → src_pred src ≡ true
        → dst_pred dst ≡ true
        → overlay_pair gateway_peering src_pred dst_pred mutator src dst m ≡ ok m'
        → P m
        → P m') where
    source_keeps :
        (src : Endpoint) (l : List Endpoint) (s s' : ConnectivityMatrix × ℕ)
        → src_pred src ≡ true
        → overlay_source gateway_peering src_pred dst_pred mutator src l s ≡ ok s'
        → P s.0
        → P s'.0
    unfolding overlay_source
    source_keeps src [] s s' q h k =
        subst (λ (t : ConnectivityMatrix × ℕ). P t.0) (ok-injective h) k
    source_keeps src (dst ∷ l) s s' q h k = elim (Bool-cases (dst_pred dst)) [
      | inl yes_dst ↦
          let h' = rw yes_dst at h in
          let (m', e, r) =
            bind-eq-ok (overlay_pair gateway_peering src_pred dst_pred mutator src dst s.0) _ h' in
          source_keeps src l (m', s.1 + 1) s' q r (step src dst s.0 m' q yes_dst e k)
      | inr no_dst ↦ source_keeps src l s s' q (rw no_dst at h) k
    ]

    all_keeps :
        (all l : List Endpoint) (s s' : ConnectivityMatrix × ℕ)
        → overlay_all gateway_peering src_pred dst_pred mutator all l s ≡ ok s'
        → P s.0
        → P s'.0
    unfolding overlay_all
    all_keeps all [] s s' h k = subst (λ (t : ConnectivityMatrix × ℕ). P t.0) (ok-injective h) k
    all_keeps all (src ∷ l) s s' h k = elim (Bool-cases (src_pred src)) [
      | inl yes_src ↦
          let h' = rw yes_src at h in
          let (t, e, r) =
            bind-eq-ok (overlay_source gateway_peering src_pred dst_pred mutator src all s) _ h' in
          all_keeps all l t s' r (source_keeps src all s t yes_src e k)
      | inr no_src ↦ all_keeps all l s s' (rw no_src at h) k
    ]

  abbrev step_allows :
      (s d src dst : Endpoint) (m m' : ConnectivityMatrix)
      → src_pred src ≡ true
      → dst_pred dst ≡ true
      → overlay_pair gateway_peering src_pred dst_pred mutator src dst m ≡ ok m'
      → Allows m s d
      → Allows m' s d
  step_allows s d src dst m m' _ _ h = pair_keeps src dst m m' h s d

  source_allows :
      (src : Endpoint) (l : List Endpoint) (s s' : ConnectivityMatrix × ℕ)
      → src_pred src ≡ true
      → overlay_source gateway_peering src_pred dst_pred mutator src l s ≡ ok s'
      → All (λ dst. dst_pred dst ≡ true → Allows s'.0 src dst) l
  unfolding overlay_source
  source_allows src [] s s' q h = tt
  source_allows src (dst ∷ l) s s' q h = elim (Bool-cases (dst_pred dst)) [
    | inl yes_dst ↦
        let h' = rw yes_dst at h in
        let (m', e, r) =
          bind-eq-ok (overlay_pair gateway_peering src_pred dst_pred mutator src dst s.0) _ h' in
        (
          (λ _.
              source_keeps (λ m. Allows m src dst) (step_allows src dst) src l (m', s.1 + 1) s' q r
                (pair_allows src dst s.0 m' e)),
          source_allows src l (m', s.1 + 1) s' q r,
        )
    | inr no_dst ↦ ((λ yes_dst. absurd (cc yes_dst)), source_allows src l s s' q (rw no_dst at h))
  ]

  All-allows :
      (all l : List Endpoint) (s s' : ConnectivityMatrix × ℕ)
      → overlay_all gateway_peering src_pred dst_pred mutator all l s ≡ ok s'
      → All
          (λ src. src_pred src ≡ true → All (λ dst. dst_pred dst ≡ true → Allows s'.0 src dst) all)
          l
  unfolding overlay_all
  All-allows all [] s s' h = tt
  All-allows all (src ∷ l) s s' h = elim (Bool-cases (src_pred src)) [
    | inl yes_src ↦
        let h' = rw yes_src at h in
        let (t, e, r) =
          bind-eq-ok (overlay_source gateway_peering src_pred dst_pred mutator src all s) _ h' in
        (
          (λ _.
              All-map all
                (λ dst k d.
                  all_keeps (λ m. Allows m src dst) (step_allows src dst) all l t s' r (k d))
                (source_allows src all s t yes_src e)),
          All-allows all l t s' r,
        )
    | inr no_src ↦ ((λ yes_src. absurd (cc yes_src)), All-allows all l s s' (rw no_src at h))
  ]

  finished :
      (r : Result E (ConnectivityMatrix × ℕ)) (m' : ConnectivityMatrix)
      → finish_overlay gateway_peering src_pred dst_pred mutator r ≡ ok m'
      → (s : ConnectivityMatrix × ℕ) × (r ≡ ok s) × (s.0 ≡ m')
  unfolding finish_overlay
  finished (err e) m' h = absurd (cc h)
  finished (ok s) m' h = (s, refl, ground arith)

  -- After an overlay that succeeds, the default expectation of a pair of the matrix's endpoints is
  -- `allow` when the predicates select the source and the destination.
  pub overlay_matrix_nat-allows :
      (m m' : ConnectivityMatrix) (i j : ℕ) (src dst : Endpoint)
      → overlay_matrix_nat gateway_peering src_pred dst_pred mutator m ≡ ok m'
      → get_elem? m.all_endpoints i ≡ some src
      → get_elem? m.all_endpoints j ≡ some dst
      → src_pred src ≡ true
      → dst_pred dst ≡ true
      → (lookup (some src) (some dst) zero_port m').verdict ≡ allow
  unfolding overlay_matrix_nat
  overlay_matrix_nat-allows m m' i j src dst h at_src at_dst q r =
      let (s, e, e') =
        finished
          (overlay_all gateway_peering src_pred dst_pred mutator m.all_endpoints m.all_endpoints
            (m, 0))
          m' h in
      let of_sources = All-allows m.all_endpoints m.all_endpoints (m, 0) s e in
      let of_src = All-at _ m.all_endpoints i src of_sources at_src q in
      subst (λ n. Allows n src dst) e' (All-at _ m.all_endpoints j dst of_src at_dst r)

  -- An overlay that succeeds changes no answer for a pair that is not one of a selected source and a
  -- selected destination.
  pub overlay_matrix_nat-untouched :
      (m m' : ConnectivityMatrix) (src' dst' : Pointer) (pp : ProtoPort)
      → overlay_matrix_nat gateway_peering src_pred dst_pred mutator m ≡ ok m'
      → ((src dst : Endpoint)
          → src_pred src ≡ true
          → dst_pred dst ≡ true
          → pair_eq (pair_of src dst) (record { source = src'; destination = dst' }) ≡ false)
      → lookup src' dst' pp m' ≡ lookup src' dst' pp m
  unfolding overlay_matrix_nat
  overlay_matrix_nat-untouched m m' src' dst' pp h apart =
      let (s, e, e') =
        finished
          (overlay_all gateway_peering src_pred dst_pred mutator m.all_endpoints m.all_endpoints
            (m, 0))
          m' h in
      rw (← e') (
        all_keeps (λ n. lookup src' dst' pp n ≡ lookup src' dst' pp m)
          (λ src dst n n' q r k same.
            pair_untouched src dst n n' k src' dst' pp (apart src dst q r) ∙ same)
          m.all_endpoints m.all_endpoints (m, 0) s e refl)

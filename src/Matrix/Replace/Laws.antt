-- ===== src/Matrix/Replace/Laws.antt =====
-- The entries of the matrix point to its own endpoints, also after `ReplaceServerEndpoints` of
-- pkg/hhfab/endpoints.go.
use fabricator.Common.{
  ℕ, ◌≡◌, refl, ◌∙◌, ap, String, Bool, true, false, not, ◌||◌, none, some, List, [], ◌∷◌, ◌++◌, map,
  All, All-map, if◌then◌else◌,
}
use fabricator.Matrix.Types.{Endpoint, Pointer, EndpointPair, ByProtoPort, ConnectivityMatrix}
use fabricator.Matrix.Replace.{
  has_ref, filter_list, Fate, other, updated, stale, fate, apply_fate, keep_fate, kept, stale_ref,
  stale_refs, refs, touched, touch_entry, is_stale, is_live, live_entries, matched_refs,
  replace_server_endpoints,
}

-- A pointer is nil or to one of the endpoints.
abbrev pub PointsTo : List ℕ → Pointer → Type 0
PointsTo all none = Unit
PointsTo all (some ep) = has_ref all ep.ref ≡ true

abbrev pub EntryPointsTo : List ℕ → EndpointPair × ByProtoPort → Type 0
EntryPointsTo all entry = PointsTo all entry.0.source × PointsTo all entry.0.destination

-- The entries are of pairs of endpoints of the matrix.
abbrev pub IsClosed : ConnectivityMatrix → Type 0
IsClosed m = All (EntryPointsTo (refs m.all_endpoints)) m.entries

or_later : (a b c : Bool) → (b ≡ true → c ≡ true) → (a || b) ≡ true → (a || c) ≡ true
or_later true b c k h = refl
or_later false b c k h = k h

or_gone :
    (a b s c : Bool)
    → (b ≡ true → s ≡ false → c ≡ true)
    → (a || b) ≡ true
    → (a || s) ≡ false
    → c ≡ true
or_gone true b s c k h g = absurd (cc g)
or_gone false b s c k h g = k h g

module _ (r : ℕ) where
  keep_fate-ref :
      (ep : Endpoint) (x : Fate) (eps rest : List Endpoint) (gone : List ℕ)
      → (has_ref (refs eps) r ≡ true → has_ref gone r ≡ false → has_ref (refs rest) r ≡ true)
      → has_ref (refs (ep ∷ eps)) r ≡ true
      → has_ref (stale_ref ep x gone) r ≡ false
      → has_ref (refs (keep_fate ep x rest)) r ≡ true
  keep_fate-ref ep other eps rest gone k h g = or_later _ _ _ (λ t. k t g) h
  keep_fate-ref ep (updated s n) eps rest gone k h g = or_later _ _ _ (λ t. k t g) h
  keep_fate-ref ep stale eps rest gone k h g = or_gone _ _ _ _ k h g

  -- What is not dropped stays.
  kept-ref :
      (f : Endpoint → Fate) (eps : List Endpoint)
      → has_ref (refs eps) r ≡ true
      → has_ref (stale_refs f eps) r ≡ false
      → has_ref (refs (kept f eps)) r ≡ true
  kept-ref f [] h g = h
  kept-ref f (ep ∷ eps) h g =
      keep_fate-ref ep (f ep) eps (kept f eps) (stale_refs f eps) (kept-ref f eps) h g

  append-ref :
      (xs ys : List Endpoint) → has_ref (refs xs) r ≡ true → has_ref (refs (xs ++ ys)) r ≡ true
  append-ref [] ys h = absurd (cc h)
  append-ref (x ∷ xs) ys h = or_later _ _ _ (append-ref xs ys) h

apply_fate-ref : (ep : Endpoint) (x : Fate) → (apply_fate ep x).ref ≡ ep.ref
apply_fate-ref ep other = refl
apply_fate-ref ep (updated s n) = refl
apply_fate-ref ep stale = refl

touched_if-ref :
    (b : Bool) (ep : Endpoint) (x : Fate) → (if b then apply_fate ep x else ep).ref ≡ ep.ref
touched_if-ref true ep x = apply_fate-ref ep x
touched_if-ref false ep x = refl

-- An update in place leaves a pointer as it is.
touched-PointsTo :
    (f : Endpoint → Fate) (all : List ℕ) (p : Pointer)
    → PointsTo all p
    → PointsTo all (touched f all p)
touched-PointsTo f all none h = h
touched-PointsTo f all (some ep) h =
    ap (has_ref all) (touched_if-ref (has_ref all ep.ref) ep (f ep)) ∙ h

module _ (f : Endpoint → Fate) (all : List ℕ) where
  touched-entries :
      (entries : List (EndpointPair × ByProtoPort))
      → All (EntryPointsTo all) entries
      → All (EntryPointsTo all) (map (touch_entry f all) entries)
  touched-entries [] h = tt
  touched-entries (e ∷ es) h = (
    (touched-PointsTo f all e.0.source h.0.0, touched-PointsTo f all e.0.destination h.0.1),
    touched-entries es h.1,
  )

module _ {A : Type 0} (P : A → Type 0) (f : A → Bool) where
  filter-step :
      (b : Bool) (x : A) (rest : List A)
      → f x ≡ b
      → P x
      → All (λ a. P a × (f a ≡ true)) rest
      → All (λ a. P a × (f a ≡ true)) (if b then x ∷ rest else rest)
  filter-step true x rest e p k = ((p, e), k)
  filter-step false x rest e p k = k

  filter_list-All : (xs : List A) → All P xs → All (λ a. P a × (f a ≡ true)) (filter_list f xs)
  filter_list-All [] h = tt
  filter_list-All (x ∷ xs) h =
      filter-step (f x) x (filter_list f xs) refl h.0 (filter_list-All xs h.1)

none_stale :
    (p q : Pointer)
    → (if is_stale [] p then false else (if is_stale [] q then false else true)) ≡ true
none_stale none none = refl
none_stale none (some b) = refl
none_stale (some a) none = refl
none_stale (some a) (some b) = refl

module _ (P : EndpointPair × ByProtoPort → Type 0) where
  live_entries-All :
      (gone : List ℕ) (entries : List (EndpointPair × ByProtoPort))
      → All P entries
      → All (λ e. P e × (is_live gone e ≡ true)) (live_entries gone entries)
  live_entries-All [] entries h =
      All-map entries (λ e p. (p, none_stale e.0.source e.0.destination)) h
  live_entries-All (g ∷ gs) [] h = tt
  live_entries-All (g ∷ gs) (e ∷ es) h = filter_list-All P (is_live (g ∷ gs)) (e ∷ es) h

live_both :
    (a b : Bool)
    → (if a then false else (if b then false else true)) ≡ true
    → (a ≡ false) × (b ≡ false)
live_both true b h = absurd (cc h)
live_both false true h = absurd (cc h)
live_both false false h = (refl, refl)

module _ (f : Endpoint → Fate) (all more : List Endpoint) where
  live-PointsTo :
      (p : Pointer)
      → PointsTo (refs all) p
      → is_stale (stale_refs f all) p ≡ false
      → PointsTo (refs (kept f all ++ more)) p
  live-PointsTo none h g = tt
  live-PointsTo (some ep) h g = append-ref ep.ref (kept f all) more (kept-ref ep.ref f all h g)

  live-EntryPointsTo :
      (e : EndpointPair × ByProtoPort)
      → EntryPointsTo (refs all) e × (is_live (stale_refs f all) e ≡ true)
      → EntryPointsTo (refs (kept f all ++ more)) e
  live-EntryPointsTo e h =
      let (s, d) = live_both _ _ h.1 in
      (live-PointsTo e.0.source h.0.0 s, live-PointsTo e.0.destination h.0.1 d)

-- When the entries of a matrix are of pairs of its own endpoints, they are so after
-- ReplaceServerEndpoints, whatever the new endpoints: no entry is left of an endpoint that was
-- dropped.
pub replace_server_endpoints-IsClosed :
    (name : String) (eps : List Endpoint) (m : ConnectivityMatrix)
    → IsClosed m
    → IsClosed (replace_server_endpoints name eps m)
unfolding replace_server_endpoints
replace_server_endpoints-IsClosed name eps m h =
    let f = fate name eps in
    let all = refs m.all_endpoints in
    let matched = matched_refs f m.all_endpoints in
    All-map _
      (live-EntryPointsTo f m.all_endpoints (filter_list (λ ep. not (has_ref matched ep.ref)) eps))
      (live_entries-All (EntryPointsTo all) (stale_refs f m.all_endpoints)
        (map (touch_entry f all) m.entries) (touched-entries f all m.entries h))

-- ===== src/Fab/Validate/Laws.antt =====
-- The steps of `Validate` (api/fabricator/v1beta1/fabricator_types.go), and the reserved subnets.
use fabricator.Common.{
  ℕ, zero, suc, ◌+◌, ◌≡◌, ◌≢◌, require, str_eq, map_err, subst, some-injective, ap, sym, ◌∙◌, true,
  false, List, [], ◌∷◌, some, ok, arith, get_elem?, Bool-cases, inl, inr, bind-eq-ok, ok-injective,
}
use fabricator.Netip.{v4, Prefix, PrefixText, contains, overlaps, parse_v4_prefix}
use fabricator.Netip.Laws.{overlaps-contains}
use fabricator.Fab.Types.{FabConfig, FabricConfig, Fabricator}
use fabricator.Fab.Default.{default}
use fabricator.Fab.Users.{
  check_control_user, check_switch_users, check_known_users, known_switch_users,
}
use fabricator.Strings.{contains_string}
use fabricator.Fab.Validate.{
  FabricApi, Field, check_communities, bad_defaults, prefix_of, check_management, check_mode,
  check_apart, check_all_apart, fabric_subnets, check_config, validate, check_defaulted,
  check_registry, check_kube, check_vlans, of_user, bad_name, bad_namespace, struct_invalid,
}

check_apart-overlaps :
    (i : ℕ) (p : Prefix) (j : ℕ) (qs : List Prefix) (k : ℕ) (q : Prefix)
    → check_apart i p j qs ≡ ok tt
    → get_elem? qs k ≡ some q
    → i ≢ j + k
    → overlaps p q ≡ false
unfolding check_apart
check_apart-overlaps i p j [] k q h e n = absurd (cc e)
check_apart-overlaps i p j (r ∷ qs) zero q h e n = ground arith
check_apart-overlaps i p j (r ∷ qs) (suc k) q h e n =
    check_apart-overlaps i p (j + 1) qs k q (ground arith) e (λ e'. n (omega arith))

check_all_apart-overlaps :
    (all : List Prefix) (i : ℕ) (ps : List Prefix) (k l : ℕ) (p q : Prefix)
    → check_all_apart all i ps ≡ ok tt
    → get_elem? ps k ≡ some p
    → get_elem? all l ≡ some q
    → i + k ≢ l
    → overlaps p q ≡ false
unfolding check_all_apart
check_all_apart-overlaps all i [] k l p q h e f n = absurd (cc e)
check_all_apart-overlaps all i (r ∷ ps) zero l p q h e f n =
    let (u, c, _) = bind-eq-ok (check_apart i r 0 all) _ h in
    subst (λ r. overlaps r q ≡ false) (some-injective e)
      (check_apart-overlaps i r 0 all l q c f (λ e'. n (omega arith)))
check_all_apart-overlaps all i (r ∷ ps) (suc k) l p q h e f n =
    let (u, _, c) = bind-eq-ok (check_apart i r 0 all) _ h in
    check_all_apart-overlaps all (i + 1) ps k l p q c e f (λ e'. n (omega arith))

-- The texts of the reserved subnets, in the order of `reservedSubnets`.
abbrev pub subnet_texts : FabConfig → List PrefixText
subnet_texts c =
    c.control.management_subnet ∷ c.fabric.protocol_subnet ∷ c.fabric.vtep_subnet
    ∷ c.fabric.fabric_subnet ∷ c.control.dummy_subnet ∷ c.fabric.mclag_session_subnet
    ∷ c.fabric.vpc_workaround_subnet ∷ []

-- The prefixes are what the texts parse to.
abbrev AreRead : List PrefixText → List Prefix → Type 0
AreRead [] [] = Unit
AreRead (t ∷ ts) (p ∷ ps) = (parse_v4_prefix t ≡ ok p) × AreRead ts ps
AreRead _ _ = ⊥

pub prefix_of-parse :
    (f : Field) (t : PrefixText) (p : Prefix) → prefix_of f t ≡ ok p → parse_v4_prefix t ≡ ok p
unfolding prefix_of
prefix_of-parse f t p h = ground arith

AreRead-at :
    (ts : List PrefixText) (ps : List Prefix) (i : ℕ) (t : PrefixText) (p : Prefix)
    → AreRead ts ps
    → get_elem? ts i ≡ some t
    → parse_v4_prefix t ≡ ok p
    → get_elem? ps i ≡ some p
AreRead-at [] ps i t p r e h = absurd (cc e)
AreRead-at (u ∷ ts) [] i t p r e h = absurd r
AreRead-at (u ∷ ts) (q ∷ ps) zero t p r e h =
    ap some (ok-injective (sym r.0 ∙ (ap parse_v4_prefix (some-injective e) ∙ h)))
AreRead-at (u ∷ ts) (q ∷ ps) (suc i) t p r e h = AreRead-at ts ps i t p r.1 e h

check_management-parse :
    (c : FabConfig) (p : Prefix)
    → check_management c.control c.fabric ≡ ok p
    → parse_v4_prefix c.control.management_subnet ≡ ok p
unfolding check_management prefix_of
check_management-parse c p h = ground arith

pub fabric_subnets-parse :
    (f : FabricConfig) (s : Prefix × Prefix × Prefix × Prefix × Prefix)
    → fabric_subnets f ≡ ok s
    → (parse_v4_prefix f.protocol_subnet ≡ ok s.0)
      × (parse_v4_prefix f.vtep_subnet ≡ ok s.1)
      × (parse_v4_prefix f.fabric_subnet ≡ ok s.2)
      × (parse_v4_prefix f.mclag_session_subnet ≡ ok s.3)
      × (parse_v4_prefix f.vpc_workaround_subnet ≡ ok s.4)
unfolding fabric_subnets prefix_of
fabric_subnets-parse f s h = ground arith

pub validated :
    (api : FabricApi) (f f' : Fabricator)
    → validate api f ≡ ok f'
    → (f' ≡ default f) × (check_config api f'.config ≡ ok tt)
unfolding validate check_defaulted
validated api f f' h =
    let g = default f in
    let (_, _, h) = bind-eq-ok (require (str_eq g.name "default") bad_name) _ h in
    let (_, _, h) = bind-eq-ok (require (str_eq g.namespace "fab") bad_namespace) _ h in
    let (_, _, h) = bind-eq-ok (require (api.struct_ok g) struct_invalid) _ h in
    let (_, e, h) = bind-eq-ok (check_config api g.config) _ h in
    (sym (ok-injective h), subst (λ g. check_config api g.config ≡ ok tt) (ok-injective h) e)

-- `reservedSubnets`
abbrev reserved : Prefix → Prefix → Prefix × Prefix × Prefix × Prefix × Prefix → List Prefix
reserved mgmt dummy s = mgmt ∷ s.0 ∷ s.1 ∷ s.2 ∷ dummy ∷ s.3 ∷ s.4 ∷ []

module _ (api : FabricApi) where
  -- The steps of the checks, each of which succeeded.
  pub record IsChecked (c : FabConfig) : Type 0 where
    pub mgmt : Prefix
    pub dummy : Prefix
    pub five : Prefix × Prefix × Prefix × Prefix × Prefix
    pub management : check_management c.control c.fabric ≡ ok mgmt
    pub kube : check_kube c.control mgmt ≡ ok tt
    pub dummy_read : prefix_of Field.dummy_subnet c.control.dummy_subnet ≡ ok dummy
    pub users : map_err of_user (check_switch_users c.fabric.default_switch_users) ≡ ok tt
    pub mode : check_mode api c.fabric c.gateway ≡ ok tt
    pub five_read : fabric_subnets c.fabric ≡ ok five
    pub vlans : check_vlans api c.fabric ≡ ok tt
    pub apart : check_all_apart (reserved mgmt dummy five) 0 (reserved mgmt dummy five) ≡ ok tt
    pub communities : check_communities c.gateway.communities ≡ ok tt
    pub known :
        map_err of_user (
          check_known_users
            (known_switch_users api.agent_user api.alloy_user)
            c.fabric.default_switch_users)
        ≡ ok tt

  pub config-IsChecked : (c : FabConfig) → check_config api c ≡ ok tt → IsChecked c
  unfolding check_config
  config-IsChecked c h =
      let (_, _, h) = bind-eq-ok (check_registry c.registry) _ h in
      let (mgmt, m, h) = bind-eq-ok (check_management c.control c.fabric) _ h in
      let (_, k, h) = bind-eq-ok (check_kube c.control mgmt) _ h in
      let (dummy, d, h) = bind-eq-ok (prefix_of Field.dummy_subnet c.control.dummy_subnet) _ h in
      let (_, _, h) =
        bind-eq-ok
          (map_err of_user (check_control_user c.control.no_pass_auth c.control.default_user)) _
          h in
      let (_, u, h) =
        bind-eq-ok (map_err of_user (check_switch_users c.fabric.default_switch_users)) _ h in
      let (_, o, h) = bind-eq-ok (check_mode api c.fabric c.gateway) _ h in
      let (s, e, h) = bind-eq-ok (fabric_subnets c.fabric) _ h in
      let (_, v, h) = bind-eq-ok (check_vlans api c.fabric) _ h in
      let all = reserved mgmt dummy s in
      let (_, a, h) = bind-eq-ok (check_all_apart all 0 all) _ h in
      let (_, _, h) =
        bind-eq-ok
          (require (contains_string ("" ∷ "none" ∷ "minimal" ∷ []) c.observability.defaults)
            bad_defaults)
          _ h in
      let (_, x, h) = bind-eq-ok (check_communities c.gateway.communities) _ h in
      record {
        mgmt = mgmt;
        dummy = dummy;
        five = s;
        management = m;
        kube = k;
        dummy_read = d;
        users = u;
        mode = o;
        five_read = e;
        vlans = v;
        apart = a;
        communities = x;
        known = h;
      }

  -- The subnets that are accepted parse, and were compared with one another.
  config-AreRead :
      (c : FabConfig)
      → check_config api c ≡ ok tt
      → (ps : List Prefix) × AreRead (subnet_texts c) ps × (check_all_apart ps 0 ps ≡ ok tt)
  config-AreRead c h =
      let i = config-IsChecked c h in
      let (p, v, f, l, w) = fabric_subnets-parse c.fabric i.five i.five_read in
      (
        reserved i.mgmt i.dummy i.five,
        (
          check_management-parse c i.mgmt i.management,
          (p, (v, (f, (prefix_of-parse _ _ _ i.dummy_read, (l, (w, tt)))))),
        ),
        i.apart,
      )

  -- An object that `Validate` accepts reserves subnets that are apart: no IPv4 address is in two of
  -- the seven.
  pub validate-apart :
      (f f' : Fabricator) (i j : ℕ) (t u : PrefixText) (p q : Prefix) (x : ℕ)
      → validate api f ≡ ok f'
      → get_elem? (subnet_texts f'.config) i ≡ some t
      → get_elem? (subnet_texts f'.config) j ≡ some u
      → i ≢ j
      → parse_v4_prefix t ≡ ok p
      → parse_v4_prefix u ≡ ok q
      → contains p (v4 x) ≡ true
      → contains q (v4 x) ≡ false
  validate-apart f f' i j t u p q x h at_i at_j ne hp hq inside =
      let (ps, r, a) = config-AreRead f'.config (validated api f f' h).1 in
      let apart =
        check_all_apart-overlaps ps 0 ps i j p q a
          (AreRead-at (subnet_texts f'.config) ps i t p r at_i hp)
          (AreRead-at (subnet_texts f'.config) ps j u q r at_j hq) (λ e. ne (omega arith)) in
      elim (Bool-cases (contains q (v4 x))) [
        | inl both ↦
            let w : true ≡ false = sym (overlaps-contains p q x inside both) ∙ apart in
            absurd (cc w)
        | inr outside ↦ outside
      ]

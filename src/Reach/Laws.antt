-- ===== src/Reach/Laws.antt =====
-- When `IsServerReachable` of pkg/hhfab/testing.go says yes, from the peerings of the cluster.
use fabricator.Common.{
  Among, ◌≡◌, ◌↔◌, inl, inr, refl, sym, ap, ◌∙◌, String, str_eq, Bool, true, false, some, List, ok,
}
use fabricator.Fab.Types.{Table}
use fabricator.Strings.{contains_string}
use fabricator.Reach.{
  Reachability, unreachable, VpcPeering, GatewayPeering, ReachApi, entry, failing,
}
use fabricator.Reach.Peerings.{
  is_switch_reachable, apart, has_source, has_destination, has_key, is_gateway_reachable,
}
use fabricator.Reach.Servers.{
  split_name, within, gateway_answer, across, between, is_subnet_reachable, is_server_reachable,
}
use fabricator.Reach.Decided.{
  Decides, Decides-iff, Decides-then, Decides-ok, Decides-if, Decides-bind, Decides-or,
  Decides-first, Decides-read, Decides-named,
}
use fabricator.Reach.Permitted.{Permits, Exposes, switch_step-Decides, gateway_step-Decides}

module _ (api : ReachApi) (v1 s1 v2 s2 : String) where
  -- One of the peerings of the two VPCs permits it.
  abbrev pub Permitted : Type 0
  Permitted =
      (ps : List VpcPeering) × (api.vpc_peerings v1 v2 ≡ ok ps) × Among (Permits v1 s1 v2 s2) ps

  -- One of the gateway peerings of the two VPCs exposes both.
  abbrev pub Exposed : Type 0
  Exposed =
      (i1 : Table String) × (api.vpc_info_subnets v1 ≡ ok i1)
      × ((i2 : Table String) × (api.vpc_info_subnets v2 ≡ ok i2)
          × ((ps : List GatewayPeering) × (api.gateway_peerings v1 v2 ≡ ok ps)
              × Among (Exposes v1 s1 v2 s2 i1 i2) ps))

  is_switch_reachable-Decides : Decides Permitted (is_switch_reachable api v1 s1 v2 s2)
  unfolding is_switch_reachable
  is_switch_reachable-Decides = Decides-then (apart v1 v2) _ (
      Decides-bind (failing (api.vpc_subnets v1)) _ (λ subnets1 _.
        Decides-bind (failing (api.vpc_subnets v2)) _ (λ subnets2 _.
          Decides-then (has_source (contains_string subnets1 s1)) _ (
            Decides-then (has_destination (contains_string subnets2 s2)) _ (
              Decides-read _ _ (api.vpc_peerings v1 v2)
                (Decides-first (Permits v1 s1 v2 s2) _ (switch_step-Decides v1 s1 v2 s2)))))))

  is_gateway_reachable-Decides : Decides Exposed (is_gateway_reachable api v1 s1 v2 s2)
  unfolding is_gateway_reachable
  is_gateway_reachable-Decides = Decides-then (apart v1 v2) _ (
      Decides-read _ _ (api.vpc_info_subnets v1) (λ i1.
        Decides-read _ _ (api.vpc_info_subnets v2) (λ i2.
          Decides-then (has_source (has_key (entry i1 s1))) _ (
            Decides-then (has_destination (has_key (entry i2 s2))) _ (
              Decides-read _ _ (api.gateway_peerings v1 v2) (
                Decides-first (Exposes v1 s1 v2 s2 i1 i2) _
                  (gateway_step-Decides v1 s1 v2 s2 i1 i2)))))))

module _ (api : ReachApi) (check_gateway : Bool) where
  -- Why two subnets, each with its VPC, reach each other.
  pub data Reaches (a b : String × String) : Type 0 where
    same_vpc :
        str_eq a.0 b.0 ≡ true → api.is_reachable_within_vpc a.0 a.1 b.1 ≡ ok true → Reaches a b
    permitted : str_eq a.0 b.0 ≡ false → Permitted api a.0 a.1 b.0 b.1 → Reaches a b
    exposed :
        str_eq a.0 b.0 ≡ false → check_gateway ≡ true → Exposed api a.0 a.1 b.0 b.1 → Reaches a b

  gateway_answer-Decides :
      (a b : String × String)
      → Decides
          ((check_gateway ≡ true) × Exposed api a.0 a.1 b.0 b.1)
          (gateway_answer api check_gateway a b)
  gateway_answer-Decides a b =
      Decides-if check_gateway
        (λ h.
          Decides-iff
            (λ s. elim s [ inl p ↦ (h, p) | inr e ↦ let w : false ≡ true = e in absurd (cc w) ])
            (λ p. inl p.1)
            (Decides-or (ok unreachable) _ (is_gateway_reachable-Decides api a.0 a.1 b.0 b.1)
              (Decides-ok unreachable (λ e. e, λ e. e))))
        (λ h.
          Decides-ok unreachable
            (λ e. absurd (cc e), λ p. let w : true ≡ false = sym p.0 ∙ h in absurd (cc w)))

  across-Decides :
      (a b : String × String)
      → str_eq a.0 b.0 ≡ false
      → Decides (Reaches a b) (across api check_gateway a b)
  across-Decides a b h =
      Decides-iff (λ s. elim s [ inl p ↦ permitted h p | inr p ↦ exposed h p.0 p.1 ])
        (λ s. elim s [
          | same_vpc e _ ↦ let w : true ≡ false = sym e ∙ h in absurd (cc w)
          | permitted _ p ↦ inl p
          | exposed _ g p ↦ inr (g, p)
        ])
        (Decides-or (gateway_answer api check_gateway a b) _
          (is_switch_reachable-Decides api a.0 a.1 b.0 b.1) (gateway_answer-Decides a b))

  between-Decides : (a b : String × String) → Decides (Reaches a b) (between api check_gateway a b)
  between-Decides a b =
      Decides-if (str_eq a.0 b.0)
        (λ h.
          Decides-iff (λ (x, e, p). same_vpc h (e ∙ ap ok p))
            (λ s. elim s [
              | same_vpc _ e ↦ (true, e, refl)
              | permitted g _ ↦ let w : true ≡ false = sym h ∙ g in absurd (cc w)
              | exposed g _ _ ↦ let w : true ≡ false = sym h ∙ g in absurd (cc w)
            ])
            (Decides-read (λ x. x ≡ true) _ (api.is_reachable_within_vpc a.0 a.1 b.1)
              (λ x. Decides-ok (within x) (λ e. e, λ e. e))))
        (across-Decides a b)

  -- Two subnets by their full names.
  abbrev pub Linked : String → String → Type 0
  Linked s d =
      (a : String × String) × (split_name s ≡ some a)
      × ((b : String × String) × (split_name d ≡ some b) × Reaches a b)

  is_subnet_reachable-Decides :
      (s d : String) → Decides (Linked s d) (is_subnet_reachable api check_gateway s d)
  unfolding is_subnet_reachable
  is_subnet_reachable-Decides s d =
      Decides-named _ _ (split_name s) "source must be full VPC subnet name" (λ a.
        Decides-named (Reaches a) _ (split_name d) "dest must be full VPC subnet name"
          (between-Decides a))

  -- One of the subnets of a server reaches one of those of the other.
  abbrev pub Connected : String → String → Type 0
  Connected source dest =
      (ss : List String) × (api.attached_subnets source ≡ ok ss)
      × ((ds : List String) × (api.attached_subnets dest ≡ ok ds)
          × Among (λ s. Among (Linked s) ds) ss)

  is_server_reachable-Decides :
      (source dest : String)
      → Decides (Connected source dest) (is_server_reachable api check_gateway source dest)
  unfolding is_server_reachable
  is_server_reachable-Decides source dest = Decides-read _ _ (api.attached_subnets source) (λ ss.
      Decides-read _ _ (api.attached_subnets dest) (λ ds.
        Decides-first (λ s. Among (Linked s) ds) _
          (λ s. Decides-first (Linked s) _ (is_subnet_reachable-Decides s) ds) ss))

  -- When `IsServerReachable` returns no error, its answer is reachable exactly when one of the
  -- subnets that are attached to the source reaches one of those of the destination: in the same
  -- VPC, by what the fabric's library says; else because a permit of one of the VPC peerings of the
  -- two names both VPCs and allows both subnets, or, where the gateway is checked, because one of
  -- their gateway peerings has both VPCs and exposes both subnets.
  pub is_server_reachable-Connected :
      (source dest : String) (r : Reachability)
      → is_server_reachable api check_gateway source dest ≡ ok r
      → (r.reachable ≡ true) ↔ Connected source dest
  is_server_reachable-Connected source dest = (is_server_reachable-Decides source dest).at

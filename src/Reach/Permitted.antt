-- ===== src/Reach/Permitted.antt =====
-- When one peering lets two subnets reach each other (pkg/hhfab/testing.go).
use fabricator.Common.{
  or_true, Option, none, subst, some-injective, bind-eq-ok, ◌&&◌, Among, Among-or, or_Among, ◌≡◌,
  ◌↔◌, ◌⊎◌, inl, inr, refl, sym, ap, ◌∙◌, String, str_eq, Bool, true, false, some, List, [], ◌∷◌,
  ok, ok-injective, ◌||◌,
}
use fabricator.Fab.Types.{Table}
use fabricator.Strings.{contains_string}
use fabricator.Reach.{Expose, Permit, VpcPeering, GatewayPeering, entry}
use fabricator.Reach.Peerings.{
  allows, both_allow, is_present, both_present, some_permit, by_switch, by_gateway, switch_step,
  peers, gateway_step,
}
use fabricator.Reach.Decided.{Decides, Decides-iff, Decides-bind, Decides-test}

-- A list of subnets allows a subnet when it is empty or has it.
abbrev pub Allows : List String → String → Type 0
Allows l s = (l ≡ []) ⊎ Among (λ x. str_eq x s ≡ true) l

true_or : (a b : Bool) → (a ≡ true) ⊎ (b ≡ true) → (a || b) ≡ true
true_or true b h = refl
true_or false b (inl h) = absurd (cc h)
true_or false b (inr h) = h

contains_string-Among :
    (l : List String) (s : String) → (contains_string l s ≡ true) ↔ Among (λ x. str_eq x s ≡ true) l
contains_string-Among [] s = (λ h. absurd (cc h), λ a. absurd (cc a.2))
contains_string-Among (x ∷ l) s =
    let (f, g) = contains_string-Among l s in
    (
      λ h. Among-or _ x l (elim (or_true _ _ h) [ inl h' ↦ inl h' | inr h' ↦ inr (f h') ]),
      λ a. true_or _ _ (elim (or_Among _ x l a) [ inl p ↦ inl p | inr b ↦ inr (g b) ]),
    )

allows-Allows : (l : List String) (s : String) → (allows l s ≡ true) ↔ Allows l s
allows-Allows [] s = (λ h. inl refl, λ h. refl)
allows-Allows (x ∷ l) s =
    let (f, g) = contains_string-Among (x ∷ l) s in
    (λ h. inr (f h), λ h. elim h [ inl e ↦ absurd (cc e) | inr a ↦ g a ])

and_iff : (a b : Bool) → ((a && b) ≡ true) ↔ ((a ≡ true) × (b ≡ true))
and_iff true b = (λ h. (refl, h), λ h. h.1)
and_iff false b = (λ h. absurd (cc h), λ h. absurd (cc h.0))

-- Both lists are there, and allow the subnets.
abbrev pub BothAllow : Option (List String) → Option (List String) → String → String → Type 0
BothAllow o1 o2 s1 s2 =
    (l1 : List String) × (o1 ≡ some l1)
    × ((l2 : List String) × (o2 ≡ some l2) × (Allows l1 s1 × Allows l2 s2))

both_allow-BothAllow :
    (o1 o2 : Option (List String)) (s1 s2 : String)
    → (both_allow o1 o2 s1 s2 ≡ true) ↔ BothAllow o1 o2 s1 s2
both_allow-BothAllow none o2 s1 s2 = (λ h. absurd (cc h), λ h. absurd (cc h.1))
both_allow-BothAllow (some l1) none s1 s2 = (λ h. absurd (cc h), λ h. absurd (cc h.2.1))
both_allow-BothAllow (some l1) (some l2) s1 s2 =
    let (f, g) = and_iff (allows l1 s1) (allows l2 s2) in
    (
      λ h.
          let (a, b) = f h in
          (l1, refl, (l2, refl, ((allows-Allows l1 s1).0 a, (allows-Allows l2 s2).0 b))),
      λ (m1, e1, (m2, e2, (a, b))). g (
        (allows-Allows l1 s1).1 (subst (λ l. Allows l s1) (sym (some-injective e1)) a),
        (allows-Allows l2 s2).1 (subst (λ l. Allows l s2) (sym (some-injective e2)) b),
      ),
    )

module _ (v1 s1 v2 s2 : String) where
  -- A permit names both VPCs and allows both subnets.
  abbrev pub PermitsIn : Permit → Type 0
  PermitsIn q = BothAllow (entry q v1) (entry q v2) s1 s2

  -- A permit of a peering does.
  abbrev pub Permits : VpcPeering → Type 0
  Permits p = Among PermitsIn p.permits

  some_permit-permits :
      (qs : List Permit) → (some_permit v1 s1 v2 s2 qs ≡ true) ↔ Among PermitsIn qs
  unfolding some_permit
  some_permit-permits [] = (λ h. absurd (cc h), λ a. absurd (cc a.2))
  some_permit-permits (q ∷ qs) =
      let (f, g) = some_permit-permits qs in
      let (k, l) = both_allow-BothAllow (entry q v1) (entry q v2) s1 s2 in
      (
        λ h. Among-or _ q qs (elim (or_true _ _ h) [ inl h' ↦ inl (k h') | inr h' ↦ inr (f h') ]),
        λ a. true_or _ _ (elim (or_Among _ q qs a) [ inl p ↦ inl (l p) | inr b ↦ inr (g b) ]),
      )

  pub switch_step-Decides : (p : VpcPeering) → Decides (Permits p) (switch_step v1 s1 v2 s2 p)
  switch_step-Decides p =
      let (f, g) = some_permit-permits p.permits in
      Decides-iff f g (Decides-test (some_permit v1 s1 v2 s2 p.permits) (by_switch p.name) refl)

  module _ (i1 i2 : Table String) where
    -- A peering has both VPCs, and exposes both subnets.
    abbrev pub Exposes : GatewayPeering → Type 0
    Exposes p =
        (e1 : List Expose) × (entry p.peering v1 ≡ some e1)
        × ((e2 : List Expose) × (entry p.peering v2 ≡ some e2)
            × ((is_present i1 s1 e1 ≡ ok true) × (is_present i2 s2 e2 ≡ ok true)))

    both_present-Exposes :
        (o1 o2 : Option (List Expose)) (r : Bool)
        → both_present i1 i2 s1 s2 o1 o2 ≡ ok r
        → (r ≡ true) ↔ (
            (e1 : List Expose) × (o1 ≡ some e1)
            × ((e2 : List Expose) × (o2 ≡ some e2)
                × ((is_present i1 s1 e1 ≡ ok true) × (is_present i2 s2 e2 ≡ ok true))))
    both_present-Exposes none o2 r h = (
      λ e. let w : true ≡ false = sym e ∙ sym (ok-injective h) in absurd (cc w),
      λ x. absurd (cc x.1),
    )
    both_present-Exposes (some e1) none r h = (
      λ e. let w : true ≡ false = sym e ∙ sym (ok-injective h) in absurd (cc w),
      λ x. absurd (cc x.2.1),
    )
    both_present-Exposes (some e1) (some e2) r h =
        let (f1, h1, h') = bind-eq-ok (is_present i1 s1 e1) _ h in
        let (f2, h2, h'') = bind-eq-ok (is_present i2 s2 e2) _ h' in
        let (f, g) = and_iff f1 f2 in
        (
          λ e.
              let (a, b) = f (ok-injective h'' ∙ e) in
              (e1, refl, (e2, refl, (h1 ∙ ap ok a, h2 ∙ ap ok b))),
          λ (m1, d1, (m2, d2, (a, b))).
              sym (ok-injective h'')
              ∙ g (
                ok-injective (sym h1 ∙ ap (is_present i1 s1) (some-injective d1) ∙ a),
                ok-injective (sym h2 ∙ ap (is_present i2 s2) (some-injective d2) ∙ b),
              ),
        )

    pub gateway_step-Decides :
        (p : GatewayPeering) → Decides (Exposes p) (gateway_step i1 i2 v1 s1 v2 s2 p)
    gateway_step-Decides p = Decides-bind (peers i1 i2 v1 s1 v2 s2 p) _ (λ b e.
        let (f, g) = both_present-Exposes (entry p.peering v1) (entry p.peering v2) b e in
        Decides-iff f g (Decides-test b (by_gateway p.name) refl))

-- ===== src/Fab/Validate/Accepted.antt =====
-- What else holds of an object that `Validate` accepts.
use fabricator.Common.{
  ℕ, ltb, ◌⊎◌, inl, inr, Bool-cases, ◌≡◌, ◌≢◌, ◌<◌, sym, ◌∙◌, ap, true, false, String, Result, ok,
  err, require, arith, All, bind-eq-ok, map_err, ok-injective,
}
use fabricator.Strings.{contains_string}
use fabricator.Fab.Types.{SwitchUser, FabricConfig, GatewayConfig, Fabricator}
use fabricator.Fab.Default.{default}
use fabricator.Fab.Default.Laws.{default_twice}
use fabricator.Fab.Users.{known_switch_users}
use fabricator.Fab.Users.Laws.{IsUser, has_admin, check_switch_users-IsUser, check_known_users-All}
use fabricator.Fab.Validate.{
  FabricApi, check_asns, check_mode, validate, check_defaulted, bad_mode, in_leaf_range, of_user,
}
use fabricator.Fab.Validate.Laws.{validated, config-IsChecked}

ok-map_err : {E F A : Type 0} (f : E → F) (r : Result E A) (a : A) → map_err f r ≡ ok a → r ≡ ok a
ok-map_err f (ok b) a h = ap ok (ok-injective h)
ok-map_err f (err e) a h = cc

-- What spine-leaf mode asks of the ASNs.
pub record AreAsns (f : FabricConfig) (g : GatewayConfig) : Type 0 where
  pub spine_set : f.spine_asn ≢ 0
  pub spine_outside : (f.spine_asn < f.leaf_asn_start) ⊎ (f.leaf_asn_end < f.spine_asn)
  pub leaf_start : 0 < f.leaf_asn_start
  pub leaf_order : f.leaf_asn_start < f.leaf_asn_end
  pub gateway_set : g.asn ≢ 0
  pub gateway_differs : g.asn ≢ f.spine_asn
  pub gateway_outside : (g.asn < f.leaf_asn_start) ⊎ (f.leaf_asn_end < g.asn)

out_of_range :
    (f : FabricConfig) (asn : ℕ)
    → in_leaf_range f asn ≡ false
    → (asn < f.leaf_asn_start) ⊎ (f.leaf_asn_end < asn)
out_of_range f asn h = elim (Bool-cases (ltb asn f.leaf_asn_start)) [
  | inl k ↦ inl (ground arith)
  | inr k ↦ inr (ground arith)
]

check_asns-AreAsns : (f : FabricConfig) (g : GatewayConfig) → check_asns f g ≡ ok tt → AreAsns f g
unfolding check_asns
check_asns-AreAsns f g h = record {
  spine_set = ground arith;
  spine_outside = out_of_range f f.spine_asn (ground arith);
  leaf_start = ground arith;
  leaf_order = ground arith;
  gateway_set = ground arith;
  gateway_differs = ground arith;
  gateway_outside = out_of_range f g.asn (ground arith);
}

mode-check_asns :
    (api : FabricApi) (f : FabricConfig) (g : GatewayConfig)
    → check_mode api f g ≡ ok tt
    → api.is_spine_leaf f.mode ≡ true
    → check_asns f g ≡ ok tt
unfolding check_mode
mode-check_asns api f g h k =
    let (_, _, h) = bind-eq-ok (require (api.is_fabric_mode f.mode) bad_mode) _ h in rw k at h

module _ (api : FabricApi) where
  -- An object that `Validate` accepts is a fixed point: it was defaulted, and validating it again
  -- accepts it as it is.
  pub validate_twice : (f f' : Fabricator) → validate api f ≡ ok f' → validate api f' ≡ ok f'
  unfolding validate
  validate_twice f f' h =
      let (e, _) = validated api f f' h in
      let fixed : default f' ≡ f' = ap default e ∙ (default_twice f ∙ sym e) in
      ap (check_defaulted api) (fixed ∙ e) ∙ h

  -- In spine-leaf mode, the ASNs of an object that `Validate` accepts are set, the leaves have a
  -- range of at least two, and the spines and the gateways have different ASNs, each below its start
  -- or above its end.
  pub validate-AreAsns :
      (f f' : Fabricator)
      → validate api f ≡ ok f'
      → api.is_spine_leaf f'.config.fabric.mode ≡ true
      → AreAsns f'.config.fabric f'.config.gateway
  validate-AreAsns f f' h k =
      let i = config-IsChecked api f'.config (validated api f f' h).1 in
      check_asns-AreAsns _ _ (mode-check_asns api _ _ i.mode k)

  -- The switch users of an object that `Validate` accepts have known roles and hashes of the
  -- required kind, none has a name that the switches use themselves, and one is the admin.
  pub validate-IsUser :
      (f f' : Fabricator)
      → validate api f ≡ ok f'
      → All IsUser f'.config.fabric.default_switch_users
        × All
            (λ (u : String × SwitchUser).
              contains_string (known_switch_users api.agent_user api.alloy_user) u.0 ≡ false)
            f'.config.fabric.default_switch_users
        × (has_admin f'.config.fabric.default_switch_users ≡ true)
  validate-IsUser f f' h =
      let i = config-IsChecked api f'.config (validated api f f' h).1 in
      let (us, a) = check_switch_users-IsUser _ (ok-map_err of_user _ _ i.users) in
      (us, check_known_users-All _ _ (ok-map_err of_user _ _ i.known), a)

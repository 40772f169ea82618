-- ===== src/Ensure/Laws.antt =====
-- A run of `ensureHydrated` (pkg/hhfab/hydrate.go) that succeeds.
use fabricator.Common.{refl, ◌≢◌, ◌≡◌, ok, arith}
use fabricator.Wiring.{WiringApi, Config, Kube}
use fabricator.Status.{get_hydration}
use fabricator.Status.Types.{HydrationStatus}
use fabricator.Ensure.{HydrateMode, ensure_hydrated}

module _ (api : WiringApi) (kube : Kube) (c : Config) (st : kube.Store) where
  -- Whatever the mode, a configuration and a store that `ensure_hydrated` returns are reported as
  -- fully hydrated.
  pub ensure_hydrated-full :
      (mode : HydrateMode) (r : Config × kube.Store)
      → ensure_hydrated api kube mode c st ≡ ok r
      → get_hydration api kube r.0 r.1 ≡ ok HydrationStatus.full
  unfolding ensure_hydrated
  ensure_hydrated-full HydrateMode.never r h = ground arith
  ensure_hydrated-full _ r h = ground arith

  -- When `ensure_hydrated` succeeds in a mode other than `override`, on a wiring that is not reported
  -- as `none`, it changes nothing.
  pub ensure_hydrated-unchanged :
      (mode : HydrateMode) (r : Config × kube.Store)
      → ensure_hydrated api kube mode c st ≡ ok r
      → mode ≢ HydrateMode.override
      → get_hydration api kube c st ≢ ok HydrationStatus.none
      → r ≡ (c, st)
  unfolding ensure_hydrated
  ensure_hydrated-unchanged HydrateMode.never r h m n = ground arith
  ensure_hydrated-unchanged HydrateMode.override r h m n = absurd (m refl)
  ensure_hydrated-unchanged HydrateMode.unknown r h m n = ground arith
  ensure_hydrated-unchanged HydrateMode.if_not_present r h m n = ground arith

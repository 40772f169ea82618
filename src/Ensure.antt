-- ===== src/Ensure.antt =====
-- `ensureHydrated` of pkg/hhfab/hydrate.go: what each hydration mode does.
pub mod Laws
mod Tests
use fabricator.Common.{
  Bool, true, false, not, Result, ok, err, ◌>>=◌, ◌>>◌, require, refuse, map_err, if◌then◌else◌,
}
use fabricator.Wiring.{WiringApi, Config, Kube}
use fabricator.Status.{get_hydration}
use fabricator.Status.Types.{HydrationStatus, HydrationError}
use fabricator.Allocate.{hydrate}
use fabricator.Allocate.Types.{AllocateError}

-- The flag's values; any other string is refused.
pub data HydrateMode : Type 0 where
  never if_not_present override unknown : HydrateMode

pub data EnsureError : Type 0 where
  checking after : HydrationError → EnsureError
  hydrating : AllocateError → EnsureError
  not_full partially_hydrated not_full_after unknown_mode : EnsureError

abbrev pub is_full : HydrationStatus → Bool
is_full HydrationStatus.full = true
is_full _ = false

abbrev pub is_none : HydrationStatus → Bool
is_none HydrationStatus.none = true
is_none _ = false

module _ (api : WiringApi) (kube : Kube) where
  -- `c.hydrate`, and the check that follows it.
  hydrate_and_check : Config → kube.Store → Result EnsureError (Config × kube.Store)
  hydrate_and_check c st = do
    r ← map_err hydrating (hydrate api kube c st)
    h ← map_err after (get_hydration api kube r.0 r.1)
    require (is_full h) not_full_after
    ok r

  by_mode :
      HydrateMode → HydrationStatus → Config → kube.Store → Result EnsureError (Config × kube.Store)
  unfolding hydrate_and_check
  by_mode HydrateMode.never h c st = do require (is_full h) not_full; ok (c, st)
  by_mode HydrateMode.if_not_present h c st =
      if is_full h
      then ok (c, st)
      else (do require (is_none h) partially_hydrated; hydrate_and_check c st)
  by_mode HydrateMode.override h c st = hydrate_and_check c st
  by_mode HydrateMode.unknown h c st = err unknown_mode

  pub ensure_hydrated : HydrateMode → Config → kube.Store → Result EnsureError (Config × kube.Store)
  unfolding by_mode
  ensure_hydrated mode c st = do
    h ← map_err checking (get_hydration api kube c st)
    by_mode mode h c st

-- ===== src/Ensure/Tests.antt =====
-- The sample fabric: hydrated from nothing, and then left alone.
use fabricator.Common.{err, ◌≢◌, ◌≡◌, refl, ok, Result}
use fabricator.Netip.{v4, next, contains, text_eq, parse_prefix, parse_v4_prefix, parse_v4_addr}
use fabricator.Wiring.{Config}
use fabricator.Samples.{
  api, kube, start, config, Objects, put_switch, put_connection, put_gateway, get_gateway,
  before_slash, after_slash,
}
use fabricator.Status.Laws
use fabricator.Status.Taken
use fabricator.Status.{start_seen, survey, get_hydration, status_of, subnet_of, listed}
use fabricator.Status.Types.{HydrationStatus, HydrationError, Seen}
use fabricator.Status.Claims.{read_prefix, read_v4_prefix, claim, claim_management}
use fabricator.Status.Nodes.{process_node, process_nodes}
use fabricator.Status.Switches.{check_switch, check_switches}
use fabricator.Status.Links.{check_link, check_links, links_of, check_connection, check_connections}
use fabricator.Status.Gateways.{check_gateway, check_gateways}
use fabricator.Allocate.{hydrate}
use fabricator.Allocate.Nodes.{sort_nodes, assign_nodes}
use fabricator.Allocate.Switches.{sort_switches, assign_switches}
use fabricator.Allocate.Links.{sort_connections, assign_connections}
use fabricator.Allocate.Gateways.{sort_gateways, assign_gateways}
use fabricator.Ensure.{HydrateMode, EnsureError, ensure_hydrated}
use fabricator.Ensure.Laws.{ensure_hydrated-full, ensure_hydrated-unchanged}

-- What the run returns.
run : Result EnsureError (Config × Objects)
unfolding get_hydration survey status_of subnet_of listed process_nodes process_node read_prefix
    read_v4_prefix claim claim_management check_switches check_switch check_connections
    check_connection check_links check_link links_of check_gateways check_gateway contains text_eq
    parse_prefix parse_v4_prefix parse_v4_addr next hydrate sort_nodes assign_nodes sort_switches
    assign_switches sort_connections assign_connections sort_gateways assign_gateways
    ensure_hydrated put_switch put_connection put_gateway get_gateway before_slash after_slash
run = ensure_hydrated api kube HydrateMode.if_not_present config start

of_run : Result EnsureError (Config × Objects) → Config × Objects
of_run (ok r) = r
of_run (err e) = (config, start)

hydrated : Config × Objects
unfolding of_run run
hydrated = of_run run

run-hydrated : ensure_hydrated api kube HydrateMode.if_not_present config start ≡ ok hydrated
unfolding run hydrated
run-hydrated = refl

of_survey : Result HydrationError Seen → Seen
unfolding start_seen
of_survey (ok s) = s
of_survey (err e) = start_seen (v4 0)

seen_at_start : Seen
unfolding run of_survey
seen_at_start = of_survey (survey api kube config start)

survey-seen_at_start : survey api kube config start ≡ ok seen_at_start
unfolding seen_at_start
survey-seen_at_start = refl

status-hydrated : get_hydration api kube hydrated.0 hydrated.1 ≡ ok HydrationStatus.full
unfolding hydrated
status-hydrated = refl

-- Nothing of the sample is set at the start.
status_at_start : get_hydration api kube config start ≡ ok HydrationStatus.none
unfolding run
status_at_start = refl

keep-hydrated :
    ensure_hydrated api kube HydrateMode.if_not_present hydrated.0 hydrated.1 ≡ ok hydrated
unfolding hydrated
keep-hydrated = refl

ensure_hydrated-full_example :
    get_hydration api kube hydrated.0 hydrated.1 ≡ ok HydrationStatus.full
ensure_hydrated-full_example =
    ensure_hydrated-full api kube config start HydrateMode.if_not_present hydrated run-hydrated

if_not_present_ne : HydrateMode.if_not_present ≢ HydrateMode.override
if_not_present_ne e = cc

hydrated_ne_none : get_hydration api kube hydrated.0 hydrated.1 ≢ ok HydrationStatus.none
hydrated_ne_none e = cc status-hydrated

ensure_hydrated-unchanged_example : hydrated ≡ (hydrated.0, hydrated.1)
ensure_hydrated-unchanged_example =
    ensure_hydrated-unchanged api kube hydrated.0 hydrated.1 HydrateMode.if_not_present hydrated
      keep-hydrated if_not_present_ne hydrated_ne_none

get_hydration-full_example :
    (s : Seen) × (survey api kube hydrated.0 hydrated.1 ≡ ok s)
    × (o : Taken.Objects) × Laws.IsSurveyed api kube hydrated.0 hydrated.1 o s
    × (Laws.blanks api hydrated.0 o ≡ 0)
get_hydration-full_example = Laws.get_hydration-full api kube hydrated.0 hydrated.1 status-hydrated

get_hydration-status_example :
    (o : Taken.Objects) × Laws.IsSurveyed api kube config start o seen_at_start
    × (get_hydration api kube config start
        ≡ ok (Laws.status_spec (Laws.fields api config o) (Laws.blanks api config o)))
get_hydration-status_example =
    Laws.get_hydration-status api kube config start seen_at_start survey-seen_at_start

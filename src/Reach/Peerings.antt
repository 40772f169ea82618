-- ===== src/Reach/Peerings.antt =====
-- `IsSubnetReachableWithSwitchPeering`, `IsSubnetReachableWithGatewayPeering` and
-- `isVPCSubnetPresentInPeering` of pkg/hhfab/testing.go.
use fabricator.Common.{
  String, str_eq, Bool, true, false, ◌&&◌, ◌||◌, Option, none, some, List, [], ◌∷◌, Result, ok, err,
  ◌>>=◌, ◌>>◌, require, refuse, if◌then◌else◌,
}
use fabricator.Strings.{contains_string}
use fabricator.Fab.Types.{Table}
use fabricator.Fab.Users.{is_empty}
use fabricator.Reach.{
  Reachability, unreachable, ReachError, Permit, VpcPeering, ExposeEntry, Expose, GatewayPeering,
  ReachApi, entry, first_reachable, failing, reason_switch_peering, reason_gateway_peering,
}

-- The subnets that a permit names allow a subnet.
abbrev pub allows : List String → String → Bool
allows subnets s = is_empty subnets || contains_string subnets s

abbrev pub both_allow : Option (List String) → Option (List String) → String → String → Bool
both_allow (some l1) (some l2) s1 s2 = allows l1 s1 && allows l2 s2
both_allow (some l1) none s1 s2 = false
both_allow none _ s1 s2 = false

abbrev pub permits : String → String → String → String → Permit → Bool
permits v1 s1 v2 s2 p = both_allow (entry p v1) (entry p v2) s1 s2

unfoldable pub some_permit : String → String → String → String → List Permit → Bool
some_permit v1 s1 v2 s2 [] = false
some_permit v1 s1 v2 s2 (p ∷ ps) = permits v1 s1 v2 s2 p || some_permit v1 s1 v2 s2 ps

abbrev pub by_switch : String → Reachability
by_switch name = record { reachable = true; reason = reason_switch_peering; peering = name }

abbrev pub by_gateway : String → Reachability
by_gateway name = record { reachable = true; reason = reason_gateway_peering; peering = name }

-- One peering of the loop.
abbrev pub switch_step :
    String → String → String → String → VpcPeering → Result ReachError Reachability
switch_step v1 s1 v2 s2 p =
    ok (if some_permit v1 s1 v2 s2 p.permits then by_switch p.name else unreachable)

-- What an entry exposes: the name of the subnet, empty where there is none.
abbrev named_subnet : Table String → String → Option String → Result ReachError String
named_subnet subnets s none = err (ReachError.failed "subnet not found in VPC")
named_subnet subnets s (some cidr) = ok s

-- The last subnet with the CIDR, in the order in which the map is read.
abbrev with_cidr : Table String → String → String → String
with_cidr [] cidr found = found
with_cidr ((name, c) ∷ rest) cidr found =
    with_cidr rest cidr (if str_eq c cidr then name else found)

abbrev pub exposed_subnet : Table String → ExposeEntry → Result ReachError String
exposed_subnet subnets e =
    if str_eq e.vpc_subnet ""
    then (if str_eq e.cidr ""
        then err (ReachError.unsupported "gw peering with non-empty expose 'not' in IPs")
        else ok (with_cidr subnets e.cidr ""))
    else named_subnet subnets e.vpc_subnet (entry subnets e.vpc_subnet)

unfoldable pub scan_ips : Table String → String → List ExposeEntry → Result ReachError Bool
scan_ips subnets s [] = ok false
scan_ips subnets s (e ∷ es) =
    let rest = scan_ips subnets s es in
    exposed_subnet subnets e >>= λ name. if str_eq name s then ok true else rest

abbrev found_or : Result ReachError Bool → Bool → Result ReachError Bool
found_or rest true = ok true
found_or rest false = rest

-- `isVPCSubnetPresentInPeering`
unfoldable pub is_present : Table String → String → List Expose → Result ReachError Bool
unfolding scan_ips
is_present subnets s [] = ok false
is_present subnets s (x ∷ xs) =
    let rest = is_present subnets s xs in
    if x.default_destination
    then ok true
    else (refuse (if is_empty x.as_blocks then false else true)
          (ReachError.unsupported "gw peering with non-empty expose 'As'")
        >> (scan_ips subnets s x.ips >>= found_or rest))

abbrev pub both_present :
    Table String
    → Table String
    → String
    → String
    → Option (List Expose)
    → Option (List Expose)
    → Result ReachError Bool
both_present i1 i2 s1 s2 (some e1) (some e2) =
    is_present i1 s1 e1 >>= λ f1. (is_present i2 s2 e2 >>= λ f2. ok (f1 && f2))
both_present i1 i2 s1 s2 (some e1) none = ok false
both_present i1 i2 s1 s2 none _ = ok false

-- Both VPCs are in the peering, and expose the subnets.
abbrev pub peers :
    Table String
    → Table String
    → String
    → String
    → String
    → String
    → GatewayPeering
    → Result ReachError Bool
peers i1 i2 v1 s1 v2 s2 p = both_present i1 i2 s1 s2 (entry p.peering v1) (entry p.peering v2)

-- One peering of the loop.
abbrev pub gateway_step :
    Table String
    → Table String
    → String
    → String
    → String
    → String
    → GatewayPeering
    → Result ReachError Reachability
gateway_step i1 i2 v1 s1 v2 s2 p =
    peers i1 i2 v1 s1 v2 s2 p >>= λ found. ok (if found then by_gateway p.name else unreachable)

abbrev pub has_key : {A : Type 0} → Option A → Bool
has_key none = false
has_key (some a) = true

-- The VPCs are two.
abbrev pub apart : String → String → Result ReachError (Unit {0})
apart v1 v2 = refuse (str_eq v1 v2) (ReachError.failed "VPCs are the same")

abbrev pub has_source : Bool → Result ReachError (Unit {0})
has_source b = require b (ReachError.failed "source subnet not found in VPC")

abbrev pub has_destination : Bool → Result ReachError (Unit {0})
has_destination b = require b (ReachError.failed "destination subnet not found in VPC")

module _ (api : ReachApi) where
  unfoldable pub is_switch_reachable :
      String → String → String → String → Result ReachError Reachability
  unfolding some_permit first_reachable
  is_switch_reachable v1 s1 v2 s2 =
      apart v1 v2
      >> (failing (api.vpc_subnets v1) >>= λ subnets1.
          (failing (api.vpc_subnets v2) >>= λ subnets2.
          (has_source (contains_string subnets1 s1)
            >> (has_destination (contains_string subnets2 s2)
                >> (failing (api.vpc_peerings v1 v2)
                    >>= first_reachable (switch_step v1 s1 v2 s2))))))

  unfoldable pub is_gateway_reachable :
      String → String → String → String → Result ReachError Reachability
  unfolding is_present first_reachable
  is_gateway_reachable v1 s1 v2 s2 =
      apart v1 v2
      >> (failing (api.vpc_info_subnets v1) >>= λ i1.
          (failing (api.vpc_info_subnets v2) >>= λ i2.
          (has_source (has_key (entry i1 s1))
            >> (has_destination (has_key (entry i2 s2))
                >> (failing (api.gateway_peerings v1 v2)
                    >>= first_reachable (gateway_step i1 i2 v1 s1 v2 s2))))))

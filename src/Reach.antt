-- ===== src/Reach.antt =====
-- Which servers and externals are expected to reach each other: the data of the checks in
-- pkg/hhfab/testing.go, and what they read.
use fabricator.Common.{
  String, str_eq, Bool, true, false, Option, none, some, List, [], ◌∷◌, Result, ok, err, ◌>>=◌,
  map_err, if◌then◌else◌,
}
use fabricator.Fab.Types.{Table}
pub mod Peerings
pub mod Servers
pub mod Populate
pub mod Decided
pub mod Permitted
pub mod Laws
mod Tests

pub record Reachability : Type 0 where
  pub reachable : Bool
  pub reason : String
  pub peering : String

abbrev pub unreachable : Reachability
unreachable = record { reachable = false; reason = ""; peering = "" }

abbrev pub reason_intra_vpc : String
reason_intra_vpc = "intra-vpc"

abbrev pub reason_switch_peering : String
reason_switch_peering = "switch-peering"

abbrev pub reason_gateway_peering : String
reason_gateway_peering = "gateway-peering"

-- `unsupported` wraps `reachCheckUnsupported`.
pub data ReachError : Type 0 where
  unsupported failed : String → ReachError

-- A permit: the subnets of each VPC, all of them where none is named.
abbrev pub Permit : Type 0
Permit = Table (List String)

pub record VpcPeering : Type 0 where
  pub name : String
  pub permits : List Permit

pub record ExposeEntry : Type 0 where
  pub vpc_subnet : String
  pub cidr : String
  pub excluded : String

pub record Expose : Type 0 where
  pub default_destination : Bool
  pub as_blocks : List String
  pub ips : List ExposeEntry

pub record GatewayPeering : Type 0 where
  pub name : String
  pub peering : Table (List Expose)

-- What is read from the cluster, and what the fabric's own library answers. Subnets of a VPC are
-- their names, of a `VPCInfo` also their CIDRs.
pub record ReachApi : Type 0 where
  pub is_external_subnet_reachable : String → String → Result String Bool
  pub attached_subnets : String → Result String (List String)
  pub is_reachable_within_vpc : String → String → String → Result String Bool
  pub vpc_subnets : String → Result String (List String)
  pub vpc_peerings : String → String → Result String (List VpcPeering)
  pub vpc_info_subnets : String → Result String (Table String)
  pub gateway_peerings : String → String → Result String (List GatewayPeering)
  pub externals : Result String (List String)
  pub vpc_info_ext_prefix : String

-- The value of a key of a map.
abbrev pub entry {ℓ} : {A : Type ℓ} → Table A → String → Option A
entry [] k = none
entry ((j, a) ∷ t) k = if str_eq j k then some a else entry t k

-- A failed read, with the context that the caller adds.
abbrev pub failing : {A : Type 0} → Result String A → Result ReachError A
failing r = map_err ReachError.failed r

-- A loop that returns at the first error and at the first answer that is reachable.
unfoldable pub first_reachable :
    {A : Type 0} → (A → Result ReachError Reachability) → List A → Result ReachError Reachability
first_reachable f [] = ok unreachable
first_reachable f (x ∷ xs) =
    let rest = first_reachable f xs in f x >>= λ r. if r.reachable then ok r else rest

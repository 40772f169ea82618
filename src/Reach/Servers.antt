-- ===== src/Reach/Servers.antt =====
-- `IsSubnetReachable`, `IsServerReachable` and `IsExternalSubnetReachable` of pkg/hhfab/testing.go.
use Prim.Native.Char.{Char, code}
use Prim.Native.String.{[] as nil, ◌∷◌ as cons, ◌++◌ as append}
use fabricator.Common.{
  ◌==◌, String, str_eq, Bool, true, Option, none, some, List, Result, ok, err, ◌>>=◌, if◌then◌else◌,
}
use fabricator.Fab.Users.{is_empty}
use fabricator.Reach.{
  Reachability, unreachable, ReachError, ReachApi, failing, first_reachable, reason_intra_vpc,
  reason_switch_peering,
}
use fabricator.Reach.Peerings.{is_switch_reachable, is_gateway_reachable}

abbrev longer : Char → Option (String × String) → Option (String × String)
longer c none = none
longer c (some p) = some (cons c p.0, p.1)

-- `strings.SplitN(s, "/", 2)` of a text that contains the separator.
unfoldable pub split_name : String → Option (String × String)
split_name nil = none
split_name (cons c s) =
    let rest = split_name s in if code c == 47 then some (nil, s) else longer c rest

abbrev pub full_name : Option (String × String) → String → Result ReachError (String × String)
full_name none message = err (ReachError.failed message)
full_name (some p) message = ok p

abbrev pub within : Bool → Reachability
within b = record { reachable = b; reason = reason_intra_vpc; peering = "" }

module _ (api : ReachApi) (check_gateway : Bool) where
  -- Subnets of two VPCs, by a gateway.
  abbrev pub gateway_answer : String × String → String × String → Result ReachError Reachability
  gateway_answer a b =
      if check_gateway
      then (is_gateway_reachable api a.0 a.1 b.0 b.1 >>= λ g.
          if g.reachable then ok g else ok unreachable)
      else ok unreachable

  -- Subnets of two VPCs: the switches first.
  abbrev pub across : String × String → String × String → Result ReachError Reachability
  across a b = is_switch_reachable api a.0 a.1 b.0 b.1 >>= λ r.
      if r.reachable then ok r else gateway_answer a b

  abbrev pub between : String × String → String × String → Result ReachError Reachability
  between a b =
      if str_eq a.0 b.0
      then (failing (api.is_reachable_within_vpc a.0 a.1 b.1) >>= λ r. ok (within r))
      else across a b

  unfoldable pub is_subnet_reachable : String → String → Result ReachError Reachability
  unfolding split_name
  is_subnet_reachable source dest =
      full_name (split_name source) "source must be full VPC subnet name" >>= λ a.
      (full_name (split_name dest) "dest must be full VPC subnet name" >>= between a)

  unfoldable pub is_server_reachable : String → String → Result ReachError Reachability
  unfolding is_subnet_reachable first_reachable
  is_server_reachable source dest = failing (api.attached_subnets source) >>= λ ss.
      (failing (api.attached_subnets dest) >>= λ ds.
      first_reachable (λ s. first_reachable (is_subnet_reachable s) ds) ss)

  -- By a gateway peering with one of the externals.
  abbrev by_externals : List String → List String → Result ReachError Reachability
  by_externals subnets externals =
      if is_empty externals
      then ok unreachable
      else first_reachable
          (λ s. full_name (split_name s) "source must be full VPC subnet name" >>= λ a.
            first_reachable
              (λ e. is_gateway_reachable api a.0 a.1 (append api.vpc_info_ext_prefix e) "external")
              externals)
          subnets

  unfoldable pub is_external_subnet_reachable : String → String → Result ReachError Reachability
  is_external_subnet_reachable source dest =
      failing (api.is_external_subnet_reachable source dest) >>= λ direct.
      if direct
      then ok (record { reachable = true; reason = reason_switch_peering; peering = "" })
      else (if check_gateway
          then (failing (api.attached_subnets source) >>= λ ss.
              (failing api.externals >>= λ es. by_externals ss es))
          else ok unreachable)

-- ===== src/Fab/Hydration.antt =====
-- What hydration (pkg/hhfab/hydrate.go) finds in the configuration of a Fabricator that `Validate`
-- of api/fabricator/v1beta1/fabricator_types.go has accepted.
use fabricator.Common.{◌≡◌, refl, ◌⊎◌, inl, inr, true, false, Bool, List, Result, ok, err, arith}
use fabricator.Netip.{Prefix, PrefixText, parse_v4_prefix}
use fabricator.Wiring.{Node, Config}
use fabricator.Status.{read_management, Management, subnet_of, addr_of}
use fabricator.Status.Types.{HydrationError, dhcp_order, dummy_too_small, ConfigField}
use fabricator.Fab.Types.{FabConfig, Fabricator}
use fabricator.Fab.Validate.{FabricApi, prefix_of, check_management, validate}
use fabricator.Fab.Validate.Laws.{
  validated, config-IsChecked, fabric_subnets-parse, prefix_of-parse,
}

-- The fields of `c.Fab.Spec.Config` that hydration reads, and the nodes of the project.
abbrev pub hydration_config : FabConfig → List Node → List Node → Config
hydration_config c controls nodes = record {
  management_subnet = c.control.management_subnet;
  control_vip = c.control.vip;
  management_dhcp_start = c.fabric.management_dhcp_start;
  management_dhcp_end = c.fabric.management_dhcp_end;
  dummy_subnet = c.control.dummy_subnet;
  vtep_subnet = c.fabric.vtep_subnet;
  protocol_subnet = c.fabric.protocol_subnet;
  fabric_subnet = c.fabric.fabric_subnet;
  spine_asn = c.fabric.spine_asn;
  leaf_asn_start = c.fabric.leaf_asn_start;
  leaf_asn_end = c.fabric.leaf_asn_end;
  gateway_asn = c.gateway.asn;
  controls = controls;
  nodes = nodes;
}

-- The management part reads, or fails in one of the two ways that `Validate` does not look at.
abbrev pub IsReadable : Result HydrationError Management → Type 0
IsReadable r = (r ≡ err dhcp_order) ⊎ ((r ≡ err dummy_too_small) ⊎ ((m : Management) × (r ≡ ok m)))

abbrev is_readable : Result HydrationError Management → Bool
is_readable (ok m) = true
is_readable (err dhcp_order) = true
is_readable (err dummy_too_small) = true
is_readable (err e) = false

of_IsReadable : (r : Result HydrationError Management) → is_readable r ≡ true → IsReadable r
of_IsReadable (ok m) h = inr (inr (m, refl))
of_IsReadable (err dhcp_order) h = inl refl
of_IsReadable (err dummy_too_small) h = inr (inl refl)
of_IsReadable (err e) h = cc

managed-readable :
    (c : FabConfig) (controls nodes : List Node) (mgmt dummy : Prefix)
    → check_management c.control c.fabric ≡ ok mgmt
    → parse_v4_prefix c.control.dummy_subnet ≡ ok dummy
    → is_readable (read_management (hydration_config c controls nodes)) ≡ true
unfolding check_management read_management prefix_of subnet_of addr_of
managed-readable c controls nodes mgmt dummy h k = ground arith

read_subnet :
    (f : ConfigField) (t : PrefixText) (p : Prefix)
    → parse_v4_prefix t ≡ ok p
    → subnet_of f t ≡ ok p
unfolding subnet_of
read_subnet f t p h = ground arith

module _ (api : FabricApi) where
  -- Of the configuration of an object that `Validate` accepts, hydration reads the VTEP, protocol and
  -- fabric subnets, and its management part up to two tests: the order of the DHCP range, and the
  -- size of the dummy subnet.
  pub validate-IsReadable :
      (f f' : Fabricator) (controls nodes : List Node)
      → validate api f ≡ ok f'
      → IsReadable (read_management (hydration_config f'.config controls nodes))
        × ((p : Prefix) × (subnet_of ConfigField.vtep_subnet f'.config.fabric.vtep_subnet ≡ ok p))
        × ((p : Prefix) × (subnet_of ConfigField.protocol_subnet f'.config.fabric.protocol_subnet
              ≡ ok p))
        × ((p : Prefix) × (subnet_of ConfigField.fabric_subnet f'.config.fabric.fabric_subnet
              ≡ ok p))
  validate-IsReadable f f' controls nodes h =
      let i = config-IsChecked api f'.config (validated api f f' h).1 in
      let (p, v, s, _, _) = fabric_subnets-parse f'.config.fabric i.five i.five_read in
      let dummy = prefix_of-parse _ _ _ i.dummy_read in
      (
        of_IsReadable _
            (managed-readable f'.config controls nodes i.mgmt i.dummy i.management dummy),
        (i.five.1, read_subnet _ _ _ v),
        (i.five.0, read_subnet _ _ _ p),
        (i.five.2, read_subnet _ _ _ s),
      )

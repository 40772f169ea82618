-- ===== src/Vlab/TidyRail.antt =====
-- The ports that a `Build` of `VLABBuilderGPURail` uses, pkg/hhfab/vlabbuilder.go.
use fabricator.Common.{ℕ, ◌+◌, ◌*◌, ◌%◌, ◌≤◌, ◌<◌, String, [], ◌∷◌, ◌++◌, ◌≡◌, refl, ok}
use fabricator.Action.{Ensures, Ensures-bind, Ensures-ok}
use fabricator.Vlab.{Device, SwitchRole, ConnectionSpec, Object, Lab, LabApi}
use fabricator.Vlab.Ports.{iface}
use fabricator.Vlab.Loops.{count_from}
use fabricator.Vlab.Rail.{
  RailOptions, rail_spines, leafs_per_scalable_unit, fabric_links, rails, leaf_name_for,
  rail_spine_name, rail_server_name, rail_switch, Hints, hints_of, rail_fabric, rail_spine,
  rail_link, rail_server, rail_hint, rail_unit, rail_vpc, rail_leaf, rail_namespaces, rail_leafs,
  build_rail,
}
use fabricator.Vlab.Used.{
  Tidy, uses, lab_ports, spec_ports, server_ends, switch_ends, add-Tidy, create_connection-Tidy,
  create_connection_with_name-Tidy,
}
use fabricator.Vlab.Neat.{
  Broken, Neat, Neat-bind, Neat-pure, Neat-count_with, collect-Tidy, switch_link-Tidy,
  server_link-Tidy,
}
use fabricator.Vlab.Bare.{Bare, add-Bare, reset_tracker-Tidy, uses_bound}
use fabricator.Vlab.TidyLeafs.{create_switch-Neat, create_server-Neat}

module _ (api : LabApi) (o : RailOptions) where
  rail_fabric-Neat :
      (spine : String) (su leaf : ℕ) (u : Unit {0}) → Neat (rail_fabric api o spine su leaf u)
  unfolding rail_fabric
  rail_fabric-Neat spine su leaf u =
      Ensures-bind (λ ls t. Tidy (spec_ports (ConnectionSpec.fabric ls) ++ []) t) (λ _ t. Tidy [] t)
        Broken _ _
        (collect-Tidy switch_ends _ [] (count_from 0 fabric_links)
          (λ ps i. switch_link-Tidy ps spine (leaf_name_for su leaf)))
        (λ ls.
          Ensures-bind (λ _ t. Tidy [] t) (λ _ t. Tidy [] t) Broken _ _
            (create_connection-Tidy api [] (ConnectionSpec.fabric ls)) (λ c. Neat-pure tt))

  rail_spine-Neat : (id : ℕ) (u : Unit {0}) → Neat (rail_spine api o id u)
  unfolding rail_spine
  rail_spine-Neat id u =
      Neat-bind _ _
        (create_switch-Neat api o.base (rail_switch (rail_spine_name id) SwitchRole.spine_role []))
        (λ _. Neat-count_with o.scalable_units 0 _ tt (λ su u'.
          Neat-count_with leafs_per_scalable_unit 0 _ tt
            (rail_fabric-Neat (rail_spine_name id) su)))

  rail_link-Neat :
      (vpc su server rail : ℕ) (u : Unit {0}) → Neat (rail_link api o vpc su server rail u)
  unfolding rail_link
  rail_link-Neat vpc su server rail u =
      Ensures-bind (λ l t. Tidy (server_ends l ++ []) t) (λ _ t. Tidy [] t) Broken _ _
        (server_link-Tidy [] o.base
          (rail_server_name su (server + vpc * o.servers_per_vpc_per_unit))
          (leaf_name_for su (rail % leafs_per_scalable_unit)))
        (λ l.
          Ensures-bind (λ _ t. Tidy [] t) (λ _ t. Tidy [] t) Broken _ _
            (create_connection_with_name-Tidy api [] _ (ConnectionSpec.unbundled l))
            (λ c. add-Tidy api [] (Object.vpc_attachment _ _ _ _)))

  rail_server-Neat : (vpc su server : ℕ) (u : Unit {0}) → Neat (rail_server api o vpc su server u)
  unfolding rail_server
  rail_server-Neat vpc su server u =
      Neat-bind _ _ (create_server-Neat api _ _)
        (λ _. Neat-count_with rails 0 _ tt (rail_link-Neat vpc su server))

  rail_unit-Neat : (vpc su : ℕ) (hints : Hints) → Neat (rail_unit api o vpc su hints)
  unfolding rail_unit
  rail_unit-Neat vpc su hints =
      Neat-bind _ _ (Neat-count_with o.servers_per_vpc_per_unit 0 _ tt (rail_server-Neat vpc su))
        (λ _.
          Neat-count_with rails 0 _ hints (λ rail hs. Neat-pure (hs ++ rail_hint vpc su rail ∷ [])))

  rail_vpc-Neat : (vpc : ℕ) (hints : Hints) → Neat (rail_vpc api o vpc hints)
  unfolding rail_vpc
  rail_vpc-Neat vpc hints =
      Neat-bind _ _ (add-Tidy api [] (Object.vpc _ _ _))
        (λ _. Neat-count_with o.scalable_units 0 _ hints (rail_unit-Neat vpc))

  rail_leaf-Neat :
      (hints : Hints) (su leaf : ℕ) (u : Unit {0}) → Neat (rail_leaf api o hints su leaf u)
  unfolding rail_leaf
  rail_leaf-Neat hints su leaf u = create_switch-Neat api o.base (
      rail_switch (leaf_name_for su leaf) SwitchRole.server_leaf_role
        ((api.route_summ_annotation, hints_of hints (leaf_name_for su leaf)) ∷ []))

  rail_leafs-Neat : (hints : Hints) → Neat (rail_leafs api o hints)
  unfolding rail_leafs
  rail_leafs-Neat hints =
      Neat-count_with o.scalable_units 0 _ tt
        (λ su u. Neat-count_with leafs_per_scalable_unit 0 _ tt (rail_leaf-Neat hints su))

  rail_namespaces-Bare : Ensures Bare (rail_namespaces api) (λ _ t. Bare t) Broken
  unfolding rail_namespaces
  rail_namespaces-Bare =
      Ensures-bind (λ _ t. Bare t) (λ _ t. Bare t) Broken _ _
        (add-Bare api (Object.vlan_namespace _ _) refl)
        (λ _. add-Bare api (Object.ipv4_namespace _) refl)

  build_rail-Tidy : Ensures Bare (build_rail api o) (λ _ t. Tidy [] t) Broken
  unfolding build_rail
  build_rail-Tidy =
      Ensures-bind (λ _ t. Bare t) (λ _ t. Tidy [] t) Broken _ _ rail_namespaces-Bare
        (λ _.
          Ensures-bind (λ _ t. Tidy [] t) (λ _ t. Tidy [] t) Broken _ _ reset_tracker-Tidy
            (λ _.
              Neat-bind _ _ (Neat-count_with rail_spines 0 _ tt rail_spine-Neat)
                (λ _. Neat-bind _ _ (Neat-count_with o.vpcs 0 _ [] rail_vpc-Neat) rail_leafs-Neat)))

  -- Of a build that returns no error, from a loader without connections, and that did not log that
  -- a switch has too many interfaces: the connections use each port of a switch at most once, and
  -- no port above 76.
  pub build_rail-uses :
      (s s' : Lab) (name : String) (slot : ℕ)
      → lab_ports s.objects ≡ []
      → build_rail api o s ≡ (ok tt, s')
      → s'.too_many ≡ []
      → (uses name slot (lab_ports s'.objects) ≤ 1)
        × (76 < slot → uses name slot (lab_ports s'.objects) ≡ 0)
  build_rail-uses s s' name slot bare e few =
      let tidy = Ensures-ok (λ (_ : Unit {0}) t. Tidy [] t) Broken build_rail-Tidy bare e in
      let known = tidy.at few name slot in
      uses_bound _ (iface s'.iface_tracker (Device.switch name)) slot known.0 known.1

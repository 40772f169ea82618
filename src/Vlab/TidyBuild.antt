-- ===== src/Vlab/TidyBuild.antt =====
-- The ports that a whole `Build` of `VLABBuilderDefault` uses, pkg/hhfab/vlabbuilder.go.
use Prim.Native.String.{◌++◌ as append}
use fabricator.Common.{
  ℕ, ◌+◌, ◌%◌, ◌≤◌, ◌<◌, ltb, leb, String, Bool, ◌&&◌, none, List, [], ◌∷◌, ◌++◌, ◌≡◌, refl, ok,
  arith,
}
use fabricator.Action.{
  Action, pure, ◌>>=◌, Ensures, Ensures-bind, Ensures-ok, Ensures-lift, Ensures-forget,
}
use fabricator.Fab.Ready.{RoleNode}
use fabricator.Vlab.{
  Device, Port, SwitchLink, ConnectionSpec, Connection, SwitchRole, External, Object, Lab, LabApi,
}
use fabricator.Vlab.Text.{decimal2}
use fabricator.Vlab.Ports.{iface}
use fabricator.Vlab.Create.{create_connection, create_external}
use fabricator.Vlab.Options.{Options, check_options, total_leafs}
use fabricator.Vlab.Loops.{collect, up_to, count_from}
use fabricator.Vlab.Servers.{leaf_name}
use fabricator.Vlab.Leafs.{start, plain_switch}
use fabricator.Vlab.Fabric.{
  spine_name, switch_link, gateway_of, gateway_link, fabric_connection, mesh_connection, spine,
  spines, mesh_leaf, mesh, mesh_gateways, interface_base,
}
use fabricator.Vlab.Externals.{
  check_externals, bgp_external, static_external, attach, attach_all, externals,
}
use fabricator.Vlab.Build.{
  is_some_gateway, gateway_nodes, counted_groups, create_namespaces, create_gateways, mesh_uplinks,
  build_leafs, build_checked, build,
}
use fabricator.Vlab.Used.{
  Tidy, Tidy-same, uses, lab_ports, spec_ports, switch_ends, add-Tidy, create_connection-Tidy,
  next_switch_port-Tidy,
}
use fabricator.Vlab.Neat.{
  Broken, Neat, Neat-bind, Neat-pure, Neat-lift, Neat-if, Neat-each_with, Neat-collect,
  collect-Tidy, switch_link-Tidy,
}
use fabricator.Vlab.Bare.{Bare, add-Bare, reset_tracker-Tidy, uses_bound}
use fabricator.Vlab.TidyLeafs.{
  create_switch-Neat, create_switch_group-Neat, eslag_groups-Neat, orphan_leafs-Neat,
  multi_homed_servers-Neat,
}

module _ (api : LabApi) (o : Options) where
  to_gateway-Tidy :
      (p q : Port) (gw : String)
      → q.device ≡ Device.gateway_node gw
      → Ensures
          (Tidy (p ∷ []))
          (create_connection api
            (ConnectionSpec.gateway_links ((record { first = p; second = q }) ∷ [])))
          (λ _ t. Tidy [] t)
          Broken
  to_gateway-Tidy p q gw e =
      Tidy-same (p ∷ []) (p ∷ q ∷ []) (λ name slot. rw e (omega arith))
        (create_connection-Tidy api []
          (ConnectionSpec.gateway_links ((record { first = p; second = q }) ∷ [])))

  -- A port of a switch, and one of a gateway, become a connection.
  gateway_link-Neat :
      (name : String) (i : ℕ) (gw : RoleNode) (u : Unit {0}) → Neat (gateway_link api o name i gw u)
  unfolding gateway_link
  gateway_link-Neat name i gw u =
      Ensures-bind (λ p t. Tidy (p ∷ []) t) (λ _ t. Tidy [] t) Broken _ _
        (next_switch_port-Tidy [] name)
        (λ p.
          Ensures-bind (λ _ t. Tidy [] t) (λ _ t. Tidy [] t) Broken _ _
            (to_gateway-Tidy p
              (record {
                device = Device.gateway_node gw.name;
                base = interface_base o.gateway_driver;
                slot = i;
              })
              gw.name refl)
            (λ c. Neat-pure tt))

  links_connection :
      (links : Action String Lab (List SwitchLink)) (spec : List SwitchLink → ConnectionSpec)
      → Ensures (Tidy []) links (λ l t. Tidy (spec_ports (spec l) ++ []) t) Broken
      → Neat (links >>= λ l. (create_connection api (spec l) >>= λ c. pure tt))
  links_connection links spec h =
      Ensures-bind (λ l t. Tidy (spec_ports (spec l) ++ []) t) (λ _ t. Tidy [] t) Broken _ _ h
        (λ l.
          Ensures-bind (λ _ t. Tidy [] t) (λ _ t. Tidy [] t) Broken _ _
            (create_connection-Tidy api [] (spec l)) (λ c. Neat-pure tt))

  fabric_connection-Neat :
      (name : String) (id : ℕ) (u : Unit {0}) → Neat (fabric_connection api o name id u)
  unfolding fabric_connection
  fabric_connection-Neat name id u =
      links_connection (collect _ (λ i. switch_link name (leaf_name id))) ConnectionSpec.fabric (
        collect-Tidy switch_ends _ [] (count_from 0 o.fabric_links_count)
          (λ ps i. switch_link-Tidy ps name (leaf_name id)))

  mesh_connection-Neat :
      (name : String) (id : ℕ) (u : Unit {0}) → Neat (mesh_connection api o name id u)
  unfolding mesh_connection
  mesh_connection-Neat name id u =
      links_connection (collect _ (λ i. switch_link name (leaf_name id))) ConnectionSpec.mesh (
        collect-Tidy switch_ends _ [] (count_from 0 o.mesh_links_count)
          (λ ps i. switch_link-Tidy ps name (leaf_name id)))

  spine-Neat :
      (is_gw : Bool) (gws : List RoleNode) (leafs id switch_id : ℕ)
      → Neat (spine api o is_gw gws leafs id switch_id)
  unfolding spine
  spine-Neat is_gw gws leafs id switch_id =
      Neat-bind _ _
        (create_switch-Neat api o.base (
          plain_switch (spine_name id) SwitchRole.spine_role (append "VS-" (decimal2 switch_id))
            none))
        (λ _. Neat-bind _ _ (Neat-lift (up_to 1 leafs)) (λ ids.
          Neat-bind _ _ (Neat-each_with ids _ tt (fabric_connection-Neat (spine_name id))) (λ _.
            Neat-bind _ _
              (Neat-if (is_gw && leb id o.gateway_uplinks) _ _
                (Neat-each_with gws _ tt (gateway_link-Neat (spine_name id) id)) (Neat-pure tt))
              (λ _. Neat-pure _))))

  spines-Neat :
      (is_gw : Bool) (gws : List RoleNode) (leafs switch_id : ℕ)
      → Neat (spines api o is_gw gws leafs switch_id)
  unfolding spines
  spines-Neat is_gw gws leafs switch_id =
      Neat-bind _ _ (Neat-lift (up_to 1 o.spines_count))
        (λ ids. Neat-each_with ids _ switch_id (spine-Neat is_gw gws leafs))

  mesh_leaf-Neat : (leafs id : ℕ) (u : Unit {0}) → Neat (mesh_leaf api o leafs id u)
  unfolding mesh_leaf
  mesh_leaf-Neat leafs id u =
      Neat-bind _ _ (Neat-lift _)
        (λ ids. Neat-each_with ids _ tt (mesh_connection-Neat (leaf_name id)))

  mesh-Neat : (leafs : ℕ) → Neat (mesh api o leafs)
  unfolding mesh
  mesh-Neat leafs =
      Neat-if (ltb 0 o.mesh_links_count) _ _
        (Neat-bind _ _ (Neat-lift _) (λ ids. Neat-each_with ids _ tt (mesh_leaf-Neat leafs)))
        (Neat-pure tt)

  mesh_gateways-Neat :
      (gws : List RoleNode) (ids : List ℕ) (n : ℕ) → Neat (mesh_gateways api o gws ids n)
  unfolding mesh_gateways
  mesh_gateways-Neat gws [] n = Neat-pure tt
  mesh_gateways-Neat gws (id ∷ ids) n =
      Neat-if (ltb n o.gateway_uplinks) _ _
        (Neat-bind _ _ (Neat-each_with gws _ tt (gateway_link-Neat (leaf_name id) (n + 1)))
          (λ _. mesh_gateways-Neat gws ids (n + 1)))
        (Neat-pure tt)

  create_external-Neat : (e : External) → Neat (create_external api e)
  unfolding create_external
  create_external-Neat e = Neat-bind _ _ (add-Tidy api [] (Object.external e)) (λ _. Neat-pure e)

  attach-Neat :
      (octet : ℕ) (c : Connection) (e : External) (vlan : ℕ) → Neat (attach api octet c e vlan)
  unfolding attach
  attach-Neat octet c e vlan =
      Neat-bind _ _ (add-Tidy api [] (Object.external_attachment _)) (λ _. Neat-pure _)

  attach_all-Neat :
      (es : List External) (c : Connection) (octet : ℕ) → Neat (attach_all api es c octet)
  unfolding attach_all
  attach_all-Neat es c octet =
      Neat-bind _ _ (Neat-each_with es _ 10 (attach-Neat ((octet + 1) % 256) c)) (λ v. Neat-pure _)

  externals-Neat : (conns : List Connection) → Neat (externals api o conns)
  unfolding externals
  externals-Neat conns = Neat-bind _ _ (Neat-lift (check_externals o)) (λ _.
      Neat-bind _ _ (Neat-collect _ _ (λ i. create_external-Neat (bgp_external i))) (λ bgps.
        Neat-bind _ _
          (Neat-collect _ _
            (λ i. create_external-Neat (static_external o.ext_static_proxy_count i)))
          (λ statics.
            Neat-bind _ _ (Neat-each_with conns _ 0 (attach_all-Neat (bgps ++ statics)))
              (λ n. Neat-pure tt))))

  create_gateways-Neat : (gws : List RoleNode) → Neat (create_gateways api o gws)
  unfolding create_gateways
  create_gateways-Neat gws =
      Neat-if (is_some_gateway gws) _ _
        (Neat-bind _ _ (add-Tidy api [] (Object.gateway_group api.default_gateway_group)) (λ _.
          Neat-bind _ _ (Neat-lift (up_to 1 o.gateway_uplinks)) (λ uplinks.
            Neat-each_with gws _ tt
              (λ n u. add-Tidy api [] (Object.gateway (gateway_of api o uplinks n))))))
        (Neat-pure tt)

  build_leafs-Neat : (groups : List ℕ) → Neat (build_leafs api o groups)
  unfolding build_leafs
  build_leafs-Neat groups =
      Neat-bind _ _ (eslag_groups-Neat api o 0 (counted_groups groups) start)
        (λ p. Neat-bind _ _ (orphan_leafs-Neat api o p) (λ q. multi_homed_servers-Neat api o q))

  mesh_uplinks-Neat : (gws : List RoleNode) (leafs : ℕ) → Neat (mesh_uplinks api o gws leafs)
  unfolding mesh_uplinks
  mesh_uplinks-Neat gws leafs =
      Neat-if (ltb 0 o.mesh_links_count && is_some_gateway gws) _ _
        (Neat-bind _ _ (Neat-lift (up_to 1 leafs)) (λ ids. mesh_gateways-Neat gws ids 0))
        (Neat-pure tt)

  create_namespaces-Bare : Ensures Bare (create_namespaces api) (λ _ t. Bare t) Broken
  unfolding create_namespaces
  create_namespaces-Bare =
      Ensures-bind (λ _ t. Bare t) (λ _ t. Bare t) Broken _ _
        (add-Bare api (Object.vlan_namespace 1000 2999) refl)
        (λ _. add-Bare api (Object.ipv4_namespace "10.0.0.0/16") refl)

  build_checked-Tidy :
      (groups : List ℕ) (nodes gws : List RoleNode)
      → Ensures Bare (build_checked api o groups nodes gws) (λ _ t. Tidy [] t) Broken
  unfolding build_checked
  build_checked-Tidy groups nodes gws =
      let leafs = (o.orphan_leafs_count + total_leafs groups) % 256 in
      Ensures-bind (λ _ t. Bare t) (λ _ t. Tidy [] t) Broken _ _ create_namespaces-Bare
        (λ _.
          Ensures-bind (λ _ t. Tidy [] t) (λ _ t. Tidy [] t) Broken _ _ reset_tracker-Tidy
            (λ _. Neat-bind _ _ (create_gateways-Neat nodes) (λ _.
              Neat-bind _ _ (create_switch_group-Neat api o "empty") (λ _.
                Neat-bind _ _ (build_leafs-Neat groups) (λ p.
                  Neat-bind _ _ (spines-Neat (is_some_gateway gws) gws leafs p.switch_id) (λ id.
                    Neat-bind _ _ (mesh-Neat leafs) (λ _.
                      Neat-bind _ _ (mesh_uplinks-Neat gws leafs)
                        (λ _. externals-Neat p.external_conns))))))))

module _ (api : LabApi) where
  build-Tidy :
      (mode : String) (nodes : List RoleNode) (o : Options)
      → Ensures (λ s. lab_ports s.objects ≡ []) (build api mode nodes o) (λ _ t. Tidy [] t) Broken
  unfolding build
  build-Tidy mode nodes o =
      Ensures-bind (λ r t. lab_ports t.objects ≡ []) (λ _ t. Tidy [] t) Broken _ _
        (Ensures-forget (λ _ t. lab_ports t.objects ≡ [])
          (Ensures-lift (check_options api mode (is_some_gateway (gateway_nodes nodes)) o)))
        (λ r. build_checked-Tidy api r.0 r.1 (gateway_nodes nodes) _)

  -- Of a build that returns no error, from a loader without connections, and that did not log that
  -- a switch has too many interfaces: the connections use each port of a switch at most once, and
  -- no port above 76.
  pub build-uses :
      (mode : String) (nodes : List RoleNode) (o : Options) (s s' : Lab) (name : String) (slot : ℕ)
      → lab_ports s.objects ≡ []
      → build api mode nodes o s ≡ (ok tt, s')
      → s'.too_many ≡ []
      → (uses name slot (lab_ports s'.objects) ≤ 1)
        × (76 < slot → uses name slot (lab_ports s'.objects) ≡ 0)
  build-uses mode nodes o s s' name slot bare e few =
      let tidy =
        Ensures-ok (λ (_ : Unit {0}) t. Tidy [] t) Broken (build-Tidy mode nodes o) bare e in
      let known = tidy.at few name slot in
      uses_bound _ (iface s'.iface_tracker (Device.switch name)) slot known.0 known.1

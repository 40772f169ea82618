-- ===== src/Vlab/TidyLeafs.antt =====
-- The ports that the servers and the leafs of the default builder use, pkg/hhfab/vlabbuilder.go.
use Prim.Native.String.{◌++◌ as append}
use fabricator.Vlab.Text.{decimal2}
use fabricator.Common.{ℕ, ◌+◌, ◌%◌, ltb, String, none, some, List, [], ◌∷◌, ◌++◌}
use fabricator.Action.{Action, ◌>>=◌, Ensures, Ensures-bind}
use fabricator.Vlab.{
  ConnectionSpec, Connection, Object, Switch, SwitchRole, BuilderBase, Lab, LabApi,
}
use fabricator.Vlab.Create.{
  create_switch_group, create_switch, create_server, create_connection, add_external_connection,
}
use fabricator.Vlab.Options.{Options}
use fabricator.Vlab.Loops.{collect, up_to, at_index}
use fabricator.Vlab.Servers.{
  leaf_name, server_link, server_name, eslag_server, unbundled_server, bundled_server,
  multi_homed_server,
}
use fabricator.Vlab.Leafs.{
  Progress, plain_switch, eslag_text, servers, eslag_external, eslag_leaf, group_servers,
  eslag_group, eslag_groups, orphan_external, orphan_leaf, orphan_leafs, multi_homed,
  multi_homed_servers,
}
use fabricator.Vlab.Used.{
  Tidy, spec_ports, server_ends, add-Tidy, create_connection-Tidy, next_switch_port-Tidy,
}
use fabricator.Vlab.Neat.{
  Broken, Neat, Neat-bind, Neat-pure, Neat-lift, Neat-if, Neat-repeat_with, Neat-count_with,
  Neat-each_with, collect-Tidy, server_link-Tidy,
}

module _ (api : LabApi) where
  pub create_switch-Neat : (b : BuilderBase) (w : Switch) → Neat (create_switch api b w)
  unfolding create_switch
  create_switch-Neat b w = record {
    at = λ s h.
        (add-Tidy api [] (Object.a_switch (record w { profile = _; boot_mac = _ }))).at _
          (record { at = h.at });
  }

  pub create_server-Neat : (name text : String) → Neat (create_server api name text)
  unfolding create_server
  create_server-Neat name text = add-Tidy api [] (Object.a_server name text)

  -- Links that were made become a connection.
  pub connect-Neat :
      {A : Type 0} (links : Action String Lab A) (spec : A → ConnectionSpec)
      (k : A → Connection → Action String Lab ℕ)
      → Ensures (Tidy []) links (λ l t. Tidy (spec_ports (spec l) ++ []) t) Broken
      → ((l : A) (c : Connection) → Neat (k l c))
      → Neat (links >>= λ l. (create_connection api (spec l) >>= k l))
  connect-Neat links spec k h hk =
      Ensures-bind (λ l t. Tidy (spec_ports (spec l) ++ []) t) (λ _ t. Tidy [] t) Broken _ _ h
        (λ l.
          Ensures-bind (λ _ t. Tidy [] t) (λ _ t. Tidy [] t) Broken _ _
            (create_connection-Tidy api [] (spec l)) (hk l))

  module _ (b : BuilderBase) where
    eslag_server-Neat : (leafs : List String) (id : ℕ) → Neat (eslag_server api b leafs id)
    unfolding eslag_server
    eslag_server-Neat leafs id = Neat-bind _ _ (create_server-Neat _ _) (λ _.
        connect-Neat (collect leafs (server_link b (server_name id))) ConnectionSpec.eslag _
          (collect-Tidy server_ends _ [] leafs
            (λ ps leaf. server_link-Tidy ps b (server_name id) leaf))
          (λ l c. Neat-pure _))

    unbundled_server-Neat : (leaf : String) (id : ℕ) → Neat (unbundled_server api b leaf id)
    unfolding unbundled_server
    unbundled_server-Neat leaf id = Neat-bind _ _ (create_server-Neat _ _) (λ _.
        connect-Neat (server_link b (server_name id) leaf) ConnectionSpec.unbundled _
          (server_link-Tidy [] b (server_name id) leaf) (λ l c. Neat-pure _))

    bundled_server-Neat : (leaf : String) (id : ℕ) → Neat (bundled_server api b leaf id)
    unfolding bundled_server
    bundled_server-Neat leaf id = Neat-bind _ _ (create_server-Neat _ _) (λ _.
        connect-Neat (collect (leaf ∷ leaf ∷ []) (server_link b (server_name id)))
          ConnectionSpec.bundled _
          (collect-Tidy server_ends _ [] (leaf ∷ leaf ∷ [])
            (λ ps l. server_link-Tidy ps b (server_name id) l))
          (λ l c. Neat-pure _))

    multi_homed_server-Neat :
        (leaf1 leaf2 : String) (id : ℕ) → Neat (multi_homed_server api b leaf1 leaf2 id)
    unfolding multi_homed_server
    multi_homed_server-Neat leaf1 leaf2 id = Neat-bind _ _ (create_server-Neat _ _) (λ _.
        connect-Neat (server_link b (server_name id) leaf1) ConnectionSpec.unbundled _
          (server_link-Tidy [] b (server_name id) leaf1)
          (λ l1 c1.
            connect-Neat (server_link b (server_name id) leaf2) ConnectionSpec.unbundled _
              (server_link-Tidy [] b (server_name id) leaf2) (λ l c. Neat-pure _)))

  add_external_connection-Neat :
      (cs : List Connection) (name : String) → Neat (add_external_connection api cs name)
  unfolding add_external_connection
  add_external_connection-Neat cs name =
      Ensures-bind (λ p t. Tidy (p ∷ []) t) (λ _ t. Tidy [] t) Broken _ _
        (next_switch_port-Tidy [] name)
        (λ p.
          Ensures-bind (λ _ t. Tidy [] t) (λ _ t. Tidy [] t) Broken _ _
            (create_connection-Tidy api [] (ConnectionSpec.external_link p))
            (λ c. Neat-pure (cs ++ c ∷ [])))

  Neat-servers :
      (n : ℕ) (f : ℕ → Action String Lab ℕ) (p : Progress)
      → ((id : ℕ) → Neat (f id))
      → Neat (servers n f p)
  Neat-servers n f p h =
      Neat-bind _ _ (Neat-repeat_with n f p.server_id h)
        (λ id. Neat-pure (record p { server_id = id }))

  module _ (o : Options) where
    eslag_external-Neat : (name : String) (p : Progress) → Neat (eslag_external api o name p)
    unfolding eslag_external
    eslag_external-Neat name p =
        Neat-if (ltb p.ext_eslag_conns o.ext_eslag_conn_count) _ _
          (Neat-bind _ _ (add_external_connection-Neat p.external_conns name) (λ cs. Neat-pure _))
          (Neat-pure p)

    eslag_leaf-Neat :
        (sg : String) (eslag_id k : ℕ) (st : List String × Progress)
        → Neat (eslag_leaf api o sg eslag_id k st)
    unfolding eslag_leaf
    eslag_leaf-Neat sg eslag_id k st =
        Neat-bind _ _
          (create_switch-Neat o.base (
            plain_switch (leaf_name ((st.1.leaf_id + k) % 256)) SwitchRole.server_leaf_role
              (eslag_text st.1.switch_id k eslag_id) (some sg)))
          (λ _. Neat-bind _ _ (eslag_external-Neat _ _) (λ r. Neat-pure _))

    group_servers-Neat :
        (leafs : ℕ) (names : List String) (p : Progress) → Neat (group_servers api o leafs names p)
    unfolding group_servers
    group_servers-Neat leafs names p =
        Neat-bind _ _ (Neat-servers o.eslag_servers _ p (eslag_server-Neat o.base names)) (λ p1.
          Neat-bind _ _
            (Neat-servers o.unbundled_servers _ p1 (λ id.
              Neat-bind _ _ (Neat-lift (at_index names 0))
                (λ leaf. unbundled_server-Neat o.base leaf id)))
            (λ p2.
              Neat-if (ltb 1 leafs) _ _
                (Neat-servers o.bundled_servers _ p2 (λ id.
                  Neat-bind _ _ (Neat-lift (at_index names 1))
                    (λ leaf. bundled_server-Neat o.base leaf id)))
                (Neat-pure p2)))

    pub create_switch_group-Neat : (name : String) → Neat (create_switch_group api name)
    unfolding create_switch_group
    create_switch_group-Neat name = add-Tidy api [] (Object.switch_group name)

    eslag_group-Neat : (id leafs : ℕ) (p : Progress) → Neat (eslag_group api o id leafs p)
    unfolding eslag_group
    eslag_group-Neat id leafs p = Neat-bind _ _ (create_switch_group-Neat _) (λ _.
        Neat-bind _ _ (Neat-count_with leafs 0 _ ([], p) (eslag_leaf-Neat _ id))
          (λ st. group_servers-Neat leafs st.0 _))

    pub eslag_groups-Neat :
        (id : ℕ) (groups : List ℕ) (p : Progress) → Neat (eslag_groups api o id groups p)
    unfolding eslag_groups
    eslag_groups-Neat id [] p = Neat-pure p
    eslag_groups-Neat id (leafs ∷ groups) p =
        Neat-bind _ _ (eslag_group-Neat id leafs p) (λ q. eslag_groups-Neat (id + 1) groups q)

    orphan_external-Neat : (name : String) (p : Progress) → Neat (orphan_external api o name p)
    unfolding orphan_external
    orphan_external-Neat name p =
        Neat-if (ltb p.ext_orphan_conns o.ext_orphan_conn_count) _ _
          (Neat-bind _ _ (add_external_connection-Neat p.external_conns name) (λ cs. Neat-pure _))
          (Neat-pure p)

    orphan_leaf-Neat : (idx : ℕ) (p : Progress) → Neat (orphan_leaf api o idx p)
    unfolding orphan_leaf
    orphan_leaf-Neat idx p =
        Neat-bind _ _
          (create_switch-Neat o.base (
            plain_switch (leaf_name p.leaf_id) SwitchRole.server_leaf_role
              (append "VS-" (decimal2 p.switch_id)) none))
          (λ _. Neat-bind _ _ (orphan_external-Neat _ _) (λ q.
            Neat-bind _ _ (Neat-servers o.unbundled_servers _ _ (unbundled_server-Neat o.base _))
              (λ r. Neat-servers o.bundled_servers _ r (bundled_server-Neat o.base _))))

    pub orphan_leafs-Neat : (p : Progress) → Neat (orphan_leafs api o p)
    unfolding orphan_leafs
    orphan_leafs-Neat p =
        Neat-bind _ _ (Neat-lift (up_to 1 o.orphan_leafs_count))
          (λ ids. Neat-each_with ids _ p orphan_leaf-Neat)

    multi_homed-Neat : (names : List String) (st : ℕ × ℕ) → Neat (multi_homed api o names st)
    unfolding multi_homed
    multi_homed-Neat names st = Neat-bind _ _ (Neat-lift _) (λ leaf1.
        Neat-bind _ _ (Neat-lift _) (λ leaf2.
          Neat-bind _ _ (multi_homed_server-Neat o.base leaf1 leaf2 st.1) (λ id. Neat-pure _)))

    pub multi_homed_servers-Neat : (p : Progress) → Neat (multi_homed_servers api o p)
    unfolding multi_homed_servers
    multi_homed_servers-Neat p =
        Neat-bind _ _ (Neat-repeat_with o.multi_homed_servers _ _ (multi_homed-Neat p.mh_leaves))
          (λ st. Neat-pure _)

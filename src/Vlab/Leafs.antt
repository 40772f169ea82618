-- ===== src/Vlab/Leafs.antt =====
-- The leafs of the default builder, pkg/hhfab/vlabbuilder.go, with their servers: the ESLAG groups,
-- the orphans, and the servers at two leafs.
use Prim.Native.String.{◌++◌ as append}
use fabricator.Common.{
  ℕ, ◌+◌, ◌%◌, ltb, String, Option, none, some, List, [], ◌∷◌, ◌++◌, length, if◌then◌else◌,
}
use fabricator.Action.{Action, pure, lift, ◌>>=◌, ◌>>◌}
use fabricator.Vlab.{Connection, SwitchRole, Switch, Lab, LabApi}
use fabricator.Vlab.Text.{decimal, decimal2}
use fabricator.Vlab.Create.{create_switch_group, create_switch, add_external_connection}
use fabricator.Vlab.Options.{Options}
use fabricator.Vlab.Loops.{repeat_with, count_with, each_with, up_to, at_index}
use fabricator.Vlab.Servers.{
  leaf_name, eslag_server, unbundled_server, bundled_server, multi_homed_server,
}

-- The counters and lists of the loops.
pub record Progress : Type 0 where
  pub switch_id : ℕ
  pub leaf_id : ℕ
  pub server_id : ℕ
  pub external_conns : List Connection
  pub ext_eslag_conns : ℕ
  pub ext_orphan_conns : ℕ
  pub mh_leaves : List String

abbrev pub start : Progress
start = record {
  switch_id = 1;
  leaf_id = 1;
  server_id = 1;
  external_conns = [];
  ext_eslag_conns = 0;
  ext_orphan_conns = 0;
  mh_leaves = [];
}

abbrev pub plain_switch : String → SwitchRole → String → Option String → Switch
plain_switch name role description group = record {
  name = name;
  role = role;
  description = description;
  group = group;
  vlan_namespaces = [];
  profile = "";
  boot_mac = "";
  annotations = [];
}

unfoldable pub eslag_text : ℕ → ℕ → ℕ → String
unfolding decimal decimal2
eslag_text switch_id k eslag_id =
    append "VS-"
      (append (decimal2 ((switch_id + k) % 256)) (append " ESLAG " (decimal (eslag_id + 1))))

-- What follows in order for the servers of one kind, from the number of the first.
abbrev pub servers : ℕ → (ℕ → Action String Lab ℕ) → Progress → Action String Lab Progress
servers n f p = repeat_with n f p.server_id >>= λ id. pure (record p { server_id = id })

module _ (api : LabApi) (o : Options) where
  unfoldable pub eslag_external : String → Progress → Action String Lab Progress
  unfolding add_external_connection
  eslag_external name p =
      if ltb p.ext_eslag_conns o.ext_eslag_conn_count
      then (add_external_connection api p.external_conns name >>= λ cs.
          pure (record p { external_conns = cs; ext_eslag_conns = (p.ext_eslag_conns + 1) % 256 }))
      else pure p

  -- One leaf of a group; the names of the group's leafs so far come first.
  unfoldable pub eslag_leaf :
      String → ℕ → ℕ → List String × Progress → Action String Lab (List String × Progress)
  unfolding create_switch eslag_external leaf_name eslag_text
  eslag_leaf sg eslag_id k st =
      let p = st.1 in
      let name = leaf_name ((p.leaf_id + k) % 256) in
      let q = record p {
        mh_leaves = if ltb o.orphan_leafs_count 2 then p.mh_leaves ++ name ∷ [] else p.mh_leaves;
      } in
      create_switch api o.base (
        plain_switch name SwitchRole.server_leaf_role (eslag_text p.switch_id k eslag_id) (some sg))
      >> (eslag_external name q >>= λ r. pure (st.0 ++ name ∷ [], r))

  -- The servers of a group: at all its leafs, at the first, and at the second.
  unfoldable pub group_servers : ℕ → List String → Progress → Action String Lab Progress
  unfolding eslag_server unbundled_server bundled_server repeat_with at_index
  group_servers leafs names p = servers o.eslag_servers (eslag_server api o.base names) p >>= λ p1.
      (servers o.unbundled_servers
          (λ id. lift (at_index names 0) >>= λ leaf. unbundled_server api o.base leaf id) p1
        >>= λ p2.
            (if ltb 1 leafs
              then servers o.bundled_servers
                  (λ id. lift (at_index names 1) >>= λ leaf. bundled_server api o.base leaf id) p2
              else pure p2))

  unfoldable pub eslag_group : ℕ → ℕ → Progress → Action String Lab Progress
  unfolding create_switch_group eslag_leaf group_servers count_with decimal
  eslag_group eslag_id leafs p =
      let sg = append "eslag-" (decimal (eslag_id + 1)) in
      create_switch_group api sg
      >> (count_with leafs 0 (eslag_leaf sg eslag_id) ([], p) >>= λ st.
          (let q = st.1 in
            group_servers leafs st.0 (record q {
              switch_id = (q.switch_id + leafs) % 256;
              leaf_id = (q.leaf_id + leafs) % 256;
            })))

  unfoldable pub eslag_groups : ℕ → List ℕ → Progress → Action String Lab Progress
  unfolding eslag_group
  eslag_groups eslag_id [] p = pure p
  eslag_groups eslag_id (leafs ∷ groups) p =
      eslag_group eslag_id leafs p >>= eslag_groups (eslag_id + 1) groups

  unfoldable pub orphan_external : String → Progress → Action String Lab Progress
  unfolding add_external_connection
  orphan_external name p =
      if ltb p.ext_orphan_conns o.ext_orphan_conn_count
      then (add_external_connection api p.external_conns name >>= λ cs.
          pure
            (record p { external_conns = cs; ext_orphan_conns = (p.ext_orphan_conns + 1) % 256 }))
      else pure p

  unfoldable pub orphan_leaf : ℕ → Progress → Action String Lab Progress
  unfolding create_switch orphan_external unbundled_server bundled_server repeat_with leaf_name
      decimal2
  orphan_leaf idx p =
      let name = leaf_name p.leaf_id in
      create_switch api o.base
        (plain_switch name SwitchRole.server_leaf_role (append "VS-" (decimal2 p.switch_id)) none)
      >> (orphan_external name (record p { mh_leaves = p.mh_leaves ++ name ∷ [] }) >>= λ q.
          (servers o.unbundled_servers (unbundled_server api o.base name)
              (record q { switch_id = (q.switch_id + 1) % 256; leaf_id = (q.leaf_id + 1) % 256 })
            >>= λ r. servers o.bundled_servers (bundled_server api o.base name) r))

  unfoldable pub orphan_leafs : Progress → Action String Lab Progress
  unfolding orphan_leaf up_to each_with
  orphan_leafs p = lift (up_to 1 o.orphan_leafs_count) >>= λ ids. each_with ids orphan_leaf p

  abbrev next_index : List String → ℕ → ℕ
  next_index names i = (i + 1) % length names

  -- A server at two leafs that follow each other in the list; `i` is the index of the first.
  unfoldable pub multi_homed : List String → ℕ × ℕ → Action String Lab (ℕ × ℕ)
  unfolding multi_homed_server at_index
  multi_homed names st = lift (at_index names st.0) >>= λ leaf1.
      (lift (at_index names (next_index names st.0)) >>= λ leaf2.
      (multi_homed_server api o.base leaf1 leaf2 st.1 >>= λ id.
      pure (next_index names (next_index names st.0), id)))

  unfoldable pub multi_homed_servers : Progress → Action String Lab Progress
  unfolding multi_homed repeat_with
  multi_homed_servers p =
      repeat_with o.multi_homed_servers (multi_homed p.mh_leaves) (0, p.server_id) >>= λ st.
      pure (record p { server_id = st.1 })

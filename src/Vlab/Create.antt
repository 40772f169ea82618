-- ===== src/Vlab/Create.antt =====
-- The methods of `VLABBuilderBase`, pkg/hhfab/vlabbuilder.go, that add an object to the loader.
use Prim.Native.String.{◌++◌ as append}
use fabricator.Common.{
  ℕ, ◌+◌, String, str_eq, Option, none, some, List, [], ◌∷◌, ◌++◌, ok, err, if◌then◌else◌,
}
use fabricator.Fab.Types.{Table}
use fabricator.Action.{Action, pure, ◌>>=◌, ◌>>◌}
use fabricator.Vlab.{
  ConnectionSpec, Connection, Switch, External, ExternalAttachment, Gateway, Object, BuilderBase,
  Lab, LabApi,
}
use fabricator.Vlab.Text.{hex2}
use fabricator.Vlab.Ports.{next_switch_port}

abbrev pub override : Table String → String → String → String
override [] name profile = profile
override ((n, p) ∷ rest) name profile = if str_eq n name then p else override rest name profile

module _ (api : LabApi) where
  abbrev pub added : Object → Option String → Action String Lab (Unit {0})
  added o none s = (ok tt, record s { objects = o ∷ s.objects })
  added o (some e) s = (err e, s)

  -- `Loader.Add` of one object
  unfoldable pub add : Object → Action String Lab (Unit {0})
  add o s = added o (api.refuses s.objects o) s

  unfoldable pub create_switch_group : String → Action String Lab (Unit {0})
  unfolding add
  create_switch_group name = add (Object.switch_group name)

  -- `boot_mac` is made from the number of the switch, which is then counted.
  unfoldable pub create_switch : BuilderBase → Switch → Action String Lab (Unit {0})
  unfolding add
  create_switch b spec s =
      let profile = override b.switch_profile_overrides spec.name b.default_switch_profile in
      let mac = append "0c:20:12:ff:" (append (hex2 s.switch_id) ":00") in
      add (Object.a_switch (record spec { profile = profile; boot_mac = mac }))
        (record s { switch_id = s.switch_id + 1 })

  unfoldable pub create_server : String → String → Action String Lab (Unit {0})
  unfolding add
  create_server name description = add (Object.a_server name description)

  unfoldable pub create_gateway : Gateway → Action String Lab (Unit {0})
  unfolding add
  create_gateway g = add (Object.gateway g)

  unfoldable pub create_gateway_group : String → Action String Lab (Unit {0})
  unfolding add
  create_gateway_group name = add (Object.gateway_group name)

  unfoldable pub create_connection_with_name :
      String → ConnectionSpec → Action String Lab Connection
  unfolding add
  create_connection_with_name name spec =
      let conn : Connection = record { name = name; spec = spec } in
      add (Object.connection conn) >> pure conn

  unfoldable pub create_connection : ConnectionSpec → Action String Lab Connection
  unfolding create_connection_with_name
  create_connection spec = create_connection_with_name (api.generate_name spec) spec

  unfoldable pub create_external : External → Action String Lab External
  unfolding add
  create_external e = add (Object.external e) >> pure e

  unfoldable pub create_external_attach : ExternalAttachment → Action String Lab (Unit {0})
  unfolding add
  create_external_attach a = add (Object.external_attachment a)

  unfoldable pub create_vpc : String → String → ℕ → Action String Lab (Unit {0})
  unfolding add
  create_vpc name subnet vlan = add (Object.vpc name subnet vlan)

  unfoldable pub create_vpc_attachment :
      String → String → String → Table String → Action String Lab (Unit {0})
  unfolding add
  create_vpc_attachment name conn subnet anns = add (Object.vpc_attachment name conn subnet anns)

  unfoldable pub add_external_connection :
      List Connection → String → Action String Lab (List Connection)
  unfolding next_switch_port create_connection
  add_external_connection conns name = next_switch_port name >>= λ p.
      create_connection (ConnectionSpec.external_link p) >>= λ c. pure (conns ++ c ∷ [])

-- ===== src/Status/Laws.antt =====
-- What a survey of the wiring that succeeds has established, and what the status says of it.
use fabricator.Common.{
  sym, ◌∙◌, ℕ, ◌+◌, ◌≤◌, ◌==◌, ◌≡◌, refl, Option, none, some, List, [], ◌∷◌, Result, ok, arith,
  bind-eq-ok, sum_of, if◌then◌else◌,
}
use fabricator.Netip.{Addr, Prefix}
use fabricator.Wiring.{WiringApi, Config, Kube}
use fabricator.Status.{
  subnet_of, listed, Management, read_management, start_seen, status_of, survey, get_hydration,
}
use fabricator.Status.Types.{HydrationStatus, HydrationError, Seen, ConfigField, Kind}
use fabricator.Status.Pools.{IsSound}
use fabricator.Status.Pushes.{Pool, pool_of}
use fabricator.Status.Taken.{Objects, addresses, taken_all}
use fabricator.Status.Nodes.Laws.{
  node_blanks, process_nodes-IsSound, process_nodes-missing, process_nodes-total,
}
use fabricator.Status.Nodes.{process_nodes}
use fabricator.Status.Switches.{check_switches}
use fabricator.Status.Switches.Laws.{
  switch_blanks, switch_fields, check_switches-IsSound, check_switches-missing,
  check_switches-total,
}
use fabricator.Status.Links.{check_connections}
use fabricator.Status.Links.Laws.{
  link_blanks, connection_links, check_connections-IsSound, check_connections-missing,
  check_connections-total,
}
use fabricator.Status.Gateways.Laws.{
  gateway_blanks, check_gateways-IsSound, check_gateways-missing, check_gateways-total,
}

-- The fields of the objects that hydration has still to set.
abbrev pub blanks : WiringApi → Config → Objects → ℕ
blanks api c o =
    sum_of node_blanks c.controls
    + sum_of node_blanks c.nodes
    + sum_of (switch_blanks api) o.sws
    + sum_of (λ conn. sum_of link_blanks (connection_links conn)) o.conns
    + sum_of gateway_blanks o.gws

abbrev pub fields : WiringApi → Config → Objects → ℕ
fields api c o =
    sum_of (λ _. 1) c.controls
    + sum_of (λ _. 1) c.nodes
    + sum_of (switch_fields api) o.sws
    + sum_of (λ conn. sum_of (λ _. 2) (connection_links conn)) o.conns
    + sum_of (λ _. 3) o.gws

five_steps :
    {a₀ a₁ a₂ a₃ a₄ a₅ : ℕ} (n₁ n₂ n₃ n₄ n₅ : ℕ)
    → a₀ ≡ 0
    → a₁ ≡ a₀ + n₁
    → a₂ ≡ a₁ + n₂
    → a₃ ≡ a₂ + n₃
    → a₄ ≡ a₃ + n₄
    → a₅ ≡ a₄ + n₅
    → a₅ ≡ n₁ + n₂ + n₃ + n₄ + n₅
five_steps n₁ n₂ n₃ n₄ n₅ h₀ h₁ h₂ h₃ h₄ h₅ = omega arith

module _ (api : WiringApi) (kube : Kube) (c : Config) (st : kube.Store) where
  -- The survey read these objects, counted their fields and took their addresses, and what it took
  -- is sound for these subnets.
  pub record IsSurveyed (o : Objects) (s : Seen) : Type 0 where
    pub dummy : Prefix
    pub vtep : Prefix
    pub protocol : Prefix
    pub fabric : Prefix
    pub is_dummy : subnet_of ConfigField.dummy_subnet c.dummy_subnet ≡ ok dummy
    pub is_vtep : subnet_of ConfigField.vtep_subnet c.vtep_subnet ≡ ok vtep
    pub is_protocol : subnet_of ConfigField.protocol_subnet c.protocol_subnet ≡ ok protocol
    pub is_fabric : subnet_of ConfigField.fabric_subnet c.fabric_subnet ≡ ok fabric
    pub has_switches : kube.list_switches st ≡ some o.sws
    pub has_connections : kube.list_connections st ≡ some o.conns
    pub has_gateways : kube.list_gateways st ≡ some o.gws
    pub missing : s.missing ≡ blanks api c o
    pub total : s.total ≡ fields api c o
    pub vip : Prefix
    pub is_vip : subnet_of ConfigField.control_vip c.control_vip ≡ ok vip
    pub taken : (k : Pool) → pool_of k s ≡ addresses api k c o vip.addr
    pub sound : IsSound dummy vtep protocol fabric s

  listed-eq-ok :
      {A : Type 0} (k : Kind) (r : Option (List A)) (xs : List A) → listed k r ≡ ok xs → r ≡ some xs
  unfolding listed
  listed-eq-ok k none xs h = cc
  listed-eq-ok k (some ys) xs h = cc

  start_seen-IsSound :
      (dummy vtep protocol fabric : Prefix) (vip : Addr)
      → IsSound dummy vtep protocol fabric (start_seen vip)
  unfolding start_seen
  start_seen-IsSound dummy vtep protocol fabric vip = ground arith

  start_seen-counts : (vip : Addr) → ((start_seen vip).total ≡ 0) × ((start_seen vip).missing ≡ 0)
  unfolding start_seen
  start_seen-counts vip = (refl, refl)

  read_management-dummy :
      {m : Management}
      → read_management c ≡ ok m
      → subnet_of ConfigField.dummy_subnet c.dummy_subnet ≡ ok m.dummy
  unfolding read_management
  read_management-dummy h = ground arith

  read_management-vip :
      {m : Management}
      → read_management c ≡ ok m
      → subnet_of ConfigField.control_vip c.control_vip ≡ ok m.vip
  unfolding read_management
  read_management-vip h = ground arith

  pub survey-IsSurveyed : (s : Seen) → survey api kube c st ≡ ok s → (o : Objects) × IsSurveyed o s
  unfolding survey
  survey-IsSurveyed s h =
      let (m, e₀, h₀) = bind-eq-ok (read_management c) _ h in
      let start = start_seen m.vip.addr in
      let (s₁, e₁, h₁) =
        bind-eq-ok (process_nodes m.subnet m.dhcp_start m.dummy c.controls start) _ h₀ in
      let (s₂, e₂, h₂) = bind-eq-ok (process_nodes m.subnet m.dhcp_start m.dummy c.nodes s₁) _ h₁ in
      let (vtep, ev, h₃) = bind-eq-ok (subnet_of ConfigField.vtep_subnet c.vtep_subnet) _ h₂ in
      let (protocol, ep, h₄) =
        bind-eq-ok (subnet_of ConfigField.protocol_subnet c.protocol_subnet) _ h₃ in
      let (sws, esw, h₅) = bind-eq-ok (listed Kind.switches (kube.list_switches st)) _ h₄ in
      let (s₃, e₃, h₆) =
        bind-eq-ok (check_switches api c m.subnet m.dhcp_start vtep protocol sws s₂) _ h₅ in
      let (fabric, ef, h₇) =
        bind-eq-ok (subnet_of ConfigField.fabric_subnet c.fabric_subnet) _ h₆ in
      let (conns, ec, h₈) = bind-eq-ok (listed Kind.connections (kube.list_connections st)) _ h₇ in
      let (s₄, e₄, h₉) = bind-eq-ok (check_connections fabric conns s₃) _ h₈ in
      let (gws, eg, e₅) = bind-eq-ok (listed Kind.gateways (kube.list_gateways st)) _ h₉ in
      let k₁ =
        process_nodes-IsSound m.subnet m.dhcp_start m.dummy vtep protocol fabric c.controls in
      let k₂ = process_nodes-IsSound m.subnet m.dhcp_start m.dummy vtep protocol fabric c.nodes in
      let k₃ =
        check_switches-IsSound api c m.subnet m.dhcp_start m.dummy vtep protocol fabric sws in
      let k₄ = check_connections-IsSound m.dummy vtep protocol fabric conns in
      let k₅ = check_gateways-IsSound c m.dummy vtep protocol fabric gws in
      let i₀ = start_seen-IsSound m.dummy vtep protocol fabric m.vip.addr in
      (
        record { sws = sws; conns = conns; gws = gws },
        record {
          dummy = m.dummy;
          vtep = vtep;
          protocol = protocol;
          fabric = fabric;
          is_dummy = read_management-dummy e₀;
          is_vtep = ev;
          is_protocol = ep;
          is_fabric = ef;
          has_switches = listed-eq-ok _ _ _ esw;
          has_connections = listed-eq-ok _ _ _ ec;
          has_gateways = listed-eq-ok _ _ _ eg;
          missing =
              five_steps _ _ _ _ _ ((start_seen-counts m.vip.addr).1)
                ((process_nodes-missing m.subnet m.dhcp_start m.dummy c.controls).at _ _ e₁)
                ((process_nodes-missing m.subnet m.dhcp_start m.dummy c.nodes).at _ _ e₂)
                ((check_switches-missing api c m.subnet m.dhcp_start vtep protocol sws).at _ _ e₃)
                ((check_connections-missing fabric conns).at _ _ e₄)
                ((check_gateways-missing c vtep protocol gws).at _ _ e₅);
          total =
              five_steps _ _ _ _ _ ((start_seen-counts m.vip.addr).0)
                ((process_nodes-total m.subnet m.dhcp_start m.dummy c.controls).at _ _ e₁)
                ((process_nodes-total m.subnet m.dhcp_start m.dummy c.nodes).at _ _ e₂)
                ((check_switches-total api c m.subnet m.dhcp_start vtep protocol sws).at _ _ e₃)
                ((check_connections-total fabric conns).at _ _ e₄)
                ((check_gateways-total c vtep protocol gws).at _ _ e₅);
          vip = m.vip;
          is_vip = read_management-vip e₀;
          taken =
              taken_all api c m vtep protocol fabric
                (record { sws = sws; conns = conns; gws = gws }) s₁ s₂ s₃ s₄ s e₁ e₂ e₃ e₄ e₅;
          sound =
              k₅.at s₄ s e₅
                (k₄.at s₃ s₄ e₄ (k₃.at s₂ s₃ e₃ (k₂.at s₁ s₂ e₂ (k₁.at start s₁ e₁ i₀))));
        },
      )

-- The fields that are not set are at most the fields.
sum_of_mono :
    {A : Type 0} (f g : A → ℕ) (xs : List A) → ((a : A) → f a ≤ g a) → sum_of f xs ≤ sum_of g xs
sum_of_mono f g [] h = omega arith
sum_of_mono f g (x ∷ xs) h = omega (arith, h x, sum_of_mono f g xs h)

pub blanks-le-fields :
    (api : WiringApi) (c : Config) (o : Objects) → blanks api c o ≤ fields api c o
blanks-le-fields api c o = omega (
  arith,
  sum_of_mono node_blanks (λ _. 1) c.controls (λ n. ground arith),
  sum_of_mono node_blanks (λ _. 1) c.nodes (λ n. ground arith),
  sum_of_mono (switch_blanks api) (switch_fields api) o.sws (λ sw. ground arith),
  sum_of_mono (λ conn. sum_of link_blanks (connection_links conn))
      (λ conn. sum_of (λ _. 2) (connection_links conn)) o.conns
      (λ conn. sum_of_mono link_blanks (λ _. 2) (connection_links conn) (λ l. ground arith)),
  sum_of_mono gateway_blanks (λ _. 3) o.gws (λ gw. ground arith),
)

-- The status that the counters stand for.
abbrev pub status_spec : ℕ → ℕ → HydrationStatus
status_spec total missing =
    if missing == total
    then HydrationStatus.none
    else if missing == 0
    then HydrationStatus.full
    else HydrationStatus.partial

status_of_lem :
    (total missing : ℕ) → missing ≤ total → status_of total missing ≡ ok (status_spec total missing)
unfolding status_of
status_of_lem total missing h = ground arith

module _ (api : WiringApi) (kube : Kube) (c : Config) (st : kube.Store) where
  -- A survey that succeeds has a status: `none` if no field of the objects that it read is set,
  -- else `full` if all are, else `partial`. The error at the end is not reached.
  pub get_hydration-status :
      (s : Seen)
      → survey api kube c st ≡ ok s
      → (o : Objects) × IsSurveyed api kube c st o s
        × (get_hydration api kube c st ≡ ok (status_spec (fields api c o) (blanks api c o)))
  unfolding get_hydration
  get_hydration-status s h =
      let (o, v) = survey-IsSurveyed api kube c st s h in
      (o, v, rw (h, v.missing, v.total) (status_of_lem _ _ (blanks-le-fields api c o)))

  -- Of a wiring that is reported as fully hydrated, the survey succeeded, and none of the fields that
  -- it counts is left to set in the objects that it read: the management addresses of the nodes, the
  -- addresses and ASNs of the switches and gateways, and the addresses of the links. What it took of
  -- each kind are the addresses that are set in these objects, and the control VIP. The management,
  -- dummy, protocol and fabric addresses are distinct, and all but the management addresses are in
  -- their subnets, as the VTEP addresses are.
  pub get_hydration-full :
      get_hydration api kube c st ≡ ok HydrationStatus.full
      → (s : Seen) × (survey api kube c st ≡ ok s)
        × (o : Objects) × IsSurveyed api kube c st o s
        × (blanks api c o ≡ 0)
  unfolding get_hydration
  get_hydration-full h =
      let (s, e, _) = bind-eq-ok (survey api kube c st) _ h in
      let (o, v, e') = get_hydration-status s e in
      (s, e, o, v, no_blanks (fields api c o) (blanks api c o) (sym e' ∙ h))
    where
      no_blanks :
          (t m : ℕ)
          → ◌≡◌ {A = Result HydrationError HydrationStatus}
              (ok (status_spec t m))
              (ok HydrationStatus.full)
          → m ≡ 0
      no_blanks t m e = ground arith

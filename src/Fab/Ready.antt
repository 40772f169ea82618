-- ===== src/Fab/Ready.antt =====
-- `IsReady` and `IsGatewayReady` of api/fabricator/v1beta1/fabricator_types.go.
use fabricator.Common.{
  and_true, ◌≢◌, ◌↔◌, ◌⊎◌, inl, inr, ◌∙◌, Bool-cases, All, ℕ, zero, suc, some, get_elem?,
  some-injective, subst, sym, ◌≡◌, refl, String, str_eq, Bool, true, false, not, ◌&&◌, ◌||◌, List,
  [], ◌∷◌, arith, if◌then◌else◌,
}
use fabricator.Strings.{contains_string}
use fabricator.Fab.Types.{Table}
use fabricator.Fab.Users.{is_empty}
mod Tests

pub data ComponentStatus : Type 0 where
  unknown not_found pending ready skipped : ComponentStatus

abbrev pub is_ready_status : ComponentStatus → Bool
is_ready_status ready = true
is_ready_status _ = false

abbrev pub is_unknown_status : ComponentStatus → Bool
is_unknown_status unknown = true
is_unknown_status _ = false

abbrev is_skipped : ComponentStatus → Bool
is_skipped skipped = true
is_skipped _ = false

pub record ComponentsStatus : Type 0 where
  pub fabricator_api : ComponentStatus
  pub fabricator_ctrl : ComponentStatus
  pub fabricator_node_config : ComponentStatus
  pub cert_manager_ctrl : ComponentStatus
  pub cert_manager_webhook : ComponentStatus
  pub reloader : ComponentStatus
  pub zot : ComponentStatus
  pub ntp : ComponentStatus
  pub fabric_api : ComponentStatus
  pub fabric_ctrl : ComponentStatus
  pub fabric_boot : ComponentStatus
  pub fabric_dhcp : ComponentStatus
  pub control_proxy : ComponentStatus
  pub control_alloy : ComponentStatus
  pub gateway_alloy : ComponentStatus
  pub gateway_dataplane : Table ComponentStatus
  pub gateway_frr : Table ComponentStatus

-- The name and the roles of a node.
pub record RoleNode : Type 0 where
  pub name : String
  pub roles : List String

-- `gws`: the nodes with the role of a gateway.
unfoldable pub is_gateway : List RoleNode → String → Bool
is_gateway [] name = false
is_gateway (n ∷ nodes) name =
    contains_string n.roles "gateway" && str_eq n.name name || is_gateway nodes name

-- The loop over the statuses of the gateways.
unfoldable pub all_gateways :
    (ComponentStatus → Bool) → List RoleNode → Table ComponentStatus → Bool
all_gateways good nodes [] = true
all_gateways good nodes ((name, s) ∷ rest) =
    is_gateway nodes name && good s && all_gateways good nodes rest

unfoldable pub control_ready : ComponentsStatus → Bool
control_ready c =
    is_ready_status c.fabricator_api
    && is_ready_status c.fabricator_ctrl
    && not (is_unknown_status c.fabricator_node_config)
    && is_ready_status c.cert_manager_ctrl
    && is_ready_status c.cert_manager_webhook
    && is_ready_status c.reloader
    && is_ready_status c.zot
    && is_ready_status c.ntp
    && is_ready_status c.fabric_api
    && is_ready_status c.fabric_ctrl
    && is_ready_status c.fabric_boot
    && is_ready_status c.fabric_dhcp
    && is_ready_status c.control_proxy
    && is_ready_status c.control_alloy

-- `IsReady`; `enable` is `Spec.Config.Gateway.Enable`.
pub is_ready : Bool → List RoleNode → ComponentsStatus → Bool
unfolding control_ready
is_ready enable nodes c =
    if enable
    then (control_ready c
        && is_ready_status c.fabric_api
        && is_ready_status c.fabric_ctrl
        && not (is_unknown_status c.gateway_alloy)
        && all_gateways (λ s. not (is_unknown_status s)) nodes c.gateway_dataplane
        && all_gateways (λ s. not (is_unknown_status s)) nodes c.gateway_frr)
    else (control_ready c
        && is_skipped c.gateway_alloy
        && is_empty c.gateway_dataplane
        && is_empty c.gateway_frr)

-- `IsGatewayReady`
pub is_gateway_ready : Bool → List RoleNode → ComponentsStatus → Bool
is_gateway_ready enable nodes c =
    if enable
    then (is_ready_status c.fabric_api
        && is_ready_status c.fabric_ctrl
        && is_ready_status c.gateway_alloy
        && not (is_unknown_status c.fabricator_node_config)
        && all_gateways is_ready_status nodes c.gateway_dataplane
        && all_gateways is_ready_status nodes c.gateway_frr)
    else true

all_gateways-known :
    (nodes : List RoleNode) (t : Table ComponentStatus)
    → all_gateways is_ready_status nodes t ≡ true
    → all_gateways (λ s. not (is_unknown_status s)) nodes t ≡ true
unfolding all_gateways
all_gateways-known nodes [] h = refl
all_gateways-known nodes ((name, s) ∷ t) h = ground (arith, all_gateways-known nodes t)

is_ready-control_ready :
    (nodes : List RoleNode) (c : ComponentsStatus)
    → is_gateway_ready true nodes c ≡ true
    → is_ready true nodes c ≡ control_ready c
unfolding is_gateway_ready is_ready
is_ready-control_ready nodes c h =
    ground
      (arith, all_gateways-known nodes c.gateway_dataplane, all_gateways-known nodes c.gateway_frr)

ready_iff : (s : ComponentStatus) → (is_ready_status s ≡ true) ↔ (s ≡ ready)
ready_iff ready = (λ h. refl, λ h. refl)
ready_iff unknown = (λ h. absurd (cc h), λ h. absurd (cc h))
ready_iff not_found = (λ h. absurd (cc h), λ h. absurd (cc h))
ready_iff pending = (λ h. absurd (cc h), λ h. absurd (cc h))
ready_iff skipped = (λ h. absurd (cc h), λ h. absurd (cc h))

known_iff : (s : ComponentStatus) → (not (is_unknown_status s) ≡ true) ↔ (s ≢ unknown)
known_iff unknown = (λ h. absurd (cc h), λ h. absurd (h refl))
known_iff ready = (λ h e. cc e, λ h. refl)
known_iff not_found = (λ h e. cc e, λ h. refl)
known_iff pending = (λ h e. cc e, λ h. refl)
known_iff skipped = (λ h e. cc e, λ h. refl)

-- The components of the control node, but for the configuration of the nodes.
abbrev pub control_components : ComponentsStatus → List ComponentStatus
control_components c =
    c.fabricator_api ∷ c.fabricator_ctrl ∷ c.cert_manager_ctrl ∷ c.cert_manager_webhook ∷ c.reloader
    ∷ c.zot ∷ c.ntp ∷ c.fabric_api ∷ c.fabric_ctrl ∷ c.fabric_boot ∷ c.fabric_dhcp ∷ c.control_proxy
    ∷ c.control_alloy ∷ []

abbrev pub IsControlReady : ComponentsStatus → Type 0
IsControlReady c =
    All (λ s. s ≡ ready) (control_components c) × (c.fabricator_node_config ≢ unknown)

all_ready : List ComponentStatus → Bool
all_ready [] = true
all_ready (s ∷ ss) = is_ready_status s && all_ready ss

all_ready_iff : (ss : List ComponentStatus) → (all_ready ss ≡ true) ↔ All (λ s. s ≡ ready) ss
unfolding all_ready
all_ready_iff [] = (λ h. tt, λ h. refl)
all_ready_iff (s ∷ ss) = (
  λ h. ((ready_iff s).0 (ground arith), (all_ready_iff ss).0 (ground arith)),
  λ h. ground (arith, (ready_iff s).1 h.0, (all_ready_iff ss).1 h.1),
)

control_ready-all_ready :
    (c : ComponentsStatus)
    → control_ready c
      ≡ (all_ready (control_components c) && not (is_unknown_status c.fabricator_node_config))
unfolding control_ready all_ready
control_ready-all_ready c = ground arith

control_ready_iff : (c : ComponentsStatus) → (control_ready c ≡ true) ↔ IsControlReady c
control_ready_iff c =
    let e = control_ready-all_ready c in
    let (f, g) = all_ready_iff (control_components c) in
    let (k, l) = known_iff c.fabricator_node_config in
    (
      λ h. let (a, b) = and_true _ _ (sym e ∙ h) in (f a, k b),
      λ h. e ∙ ground (arith, g h.0, l h.1),
    )

-- With the gateway enabled and ready, the whole is ready exactly when the control components are:
-- those of the fabricator, cert-manager, the reloader, Zot, NTP, the fabric, the proxy and Alloy are
-- ready, and the status of the configuration of the nodes is known.
pub is_ready-is_gateway_ready :
    (nodes : List RoleNode) (c : ComponentsStatus)
    → is_gateway_ready true nodes c ≡ true
    → (is_ready true nodes c ≡ true) ↔ IsControlReady c
is_ready-is_gateway_ready nodes c h =
    let (f, g) = control_ready_iff c in
    let e = is_ready-control_ready nodes c h in (λ r. f (sym e ∙ r), λ r. e ∙ g r)

-- A gateway whose status is there, at any position.
all_gateways-at :
    (good : ComponentStatus → Bool) (nodes : List RoleNode) (t : Table ComponentStatus) (i : ℕ)
    (name : String) (s : ComponentStatus)
    → get_elem? t i ≡ some (name, s)
    → is_gateway nodes name && good s ≡ false
    → all_gateways good nodes t ≡ false
unfolding all_gateways
all_gateways-at good nodes [] i name s e h = absurd (cc e)
all_gateways-at good nodes ((n, r) ∷ t) zero name s e h =
    subst
      (λ (x : String × ComponentStatus).
        is_gateway nodes x.0 && good x.1 && all_gateways good nodes t ≡ false)
      (sym (some-injective e)) (ground arith)
all_gateways-at good nodes ((n, r) ∷ t) (suc i) name s e h =
    ground (arith, all_gateways-at good nodes t i name s e h)

-- No node of the name has the role of a gateway.
abbrev pub HasNoRole : List RoleNode → String → Type 0
HasNoRole nodes name =
    All (λ (n : RoleNode). str_eq n.name name ≡ true → contains_string n.roles "gateway" ≡ false)
      nodes

no_role-is_gateway :
    (nodes : List RoleNode) (name : String) → HasNoRole nodes name → is_gateway nodes name ≡ false
unfolding is_gateway
no_role-is_gateway [] name h = refl
no_role-is_gateway (n ∷ nodes) name h = elim (Bool-cases (str_eq n.name name)) [
  | inl e ↦ ground (arith, h.0 e, no_role-is_gateway nodes name h.1)
  | inr e ↦ ground (arith, no_role-is_gateway nodes name h.1)
]

not_ready : (s : ComponentStatus) → s ≢ ready → is_ready_status s ≡ false
not_ready ready h = absurd (h refl)
not_ready unknown h = refl
not_ready not_found h = refl
not_ready pending h = refl
not_ready skipped h = refl

not_counted :
    (nodes : List RoleNode) (name : String) (s : ComponentStatus)
    → (s ≢ ready) ⊎ HasNoRole nodes name
    → is_gateway nodes name && is_ready_status s ≡ false
not_counted nodes name s (inl h) = ground (arith, not_ready s h)
not_counted nodes name s (inr h) = ground (arith, no_role-is_gateway nodes name h)

-- With the gateway enabled, it is not ready as long as one of the FRR statuses is not, or has a name
-- with which no node has the role of a gateway.
pub is_gateway_ready-frr :
    (nodes : List RoleNode) (c : ComponentsStatus) (i : ℕ) (name : String) (s : ComponentStatus)
    → get_elem? c.gateway_frr i ≡ some (name, s)
    → (s ≢ ready) ⊎ HasNoRole nodes name
    → is_gateway_ready true nodes c ≡ false
unfolding is_gateway_ready
is_gateway_ready-frr nodes c i name s e h = ground (
  arith,
  all_gateways-at is_ready_status nodes c.gateway_frr i name s e (not_counted nodes name s h),
)

-- ===== src/Status/Taken.antt =====
-- The addresses that `getHydration` of pkg/hhfab/hydrate.go has taken at its end.
use fabricator.Common.{◌≡◌, refl, ap, ◌∙◌, List, [], ◌∷◌, ◌++◌, ok}
use fabricator.Netip.{Addr, Prefix}
use fabricator.Wiring.{WiringApi, Config, Switch, Connection, Gateway}
use fabricator.Status.{Management, start_seen}
use fabricator.Status.Types.{Seen}
use fabricator.Status.Pushes.{
  Pool, pool_of, pushed, node_addrs, switch_addrs, link_addrs, gateway_addrs,
}
use fabricator.Status.Nodes.{process_nodes}
use fabricator.Status.Switches.{check_switches}
use fabricator.Status.Links.{check_connections}
use fabricator.Status.Gateways.{check_gateways}
use fabricator.Status.Links.Laws.{connection_links}
use fabricator.Status.Nodes.Taken.{process_nodes-Pushes}
use fabricator.Status.Switches.Taken.{check_switches-Pushes}
use fabricator.Status.Links.Taken.{check_connections-Pushes}
use fabricator.Status.Gateways.Taken.{check_gateways-Pushes}

-- The objects of the wiring.
pub record Objects : Type 0 where
  pub sws : List Switch
  pub conns : List Connection
  pub gws : List Gateway

-- What is taken before the first node.
abbrev pub at_start : Pool → Addr → List Addr
at_start Pool.management vip = vip ∷ []
at_start _ vip = []

-- The addresses of a kind that are set in the objects, and the control VIP among the management
-- addresses.
abbrev pub addresses : WiringApi → Pool → Config → Objects → Addr → List Addr
addresses api k c o vip =
    pushed (gateway_addrs k) o.gws
    ++ (pushed (λ conn. pushed (link_addrs k) (connection_links conn)) o.conns
        ++ (pushed (switch_addrs api k) o.sws
            ++ (pushed (node_addrs k) c.nodes
                ++ (pushed (node_addrs k) c.controls ++ at_start k vip))))

onto : {a b : List Addr} (xs ys : List Addr) → a ≡ xs ++ b → b ≡ ys → a ≡ xs ++ ys
onto xs ys h k = h ∙ ap (λ (zs : List Addr). xs ++ zs) k

start_seen-pool : (k : Pool) (vip : Addr) → pool_of k (start_seen vip) ≡ at_start k vip
unfolding start_seen
start_seen-pool Pool.management vip = refl
start_seen-pool Pool.dummy vip = refl
start_seen-pool Pool.vtep vip = refl
start_seen-pool Pool.protocol vip = refl
start_seen-pool Pool.fabric vip = refl

-- The five loops, one after the other.
pub taken_all :
    (api : WiringApi) (c : Config) (m : Management) (vtep protocol fabric : Prefix) (o : Objects)
    (s₁ s₂ s₃ s₄ s : Seen)
    → process_nodes m.subnet m.dhcp_start m.dummy c.controls (start_seen m.vip.addr) ≡ ok s₁
    → process_nodes m.subnet m.dhcp_start m.dummy c.nodes s₁ ≡ ok s₂
    → check_switches api c m.subnet m.dhcp_start vtep protocol o.sws s₂ ≡ ok s₃
    → check_connections fabric o.conns s₃ ≡ ok s₄
    → check_gateways c vtep protocol o.gws s₄ ≡ ok s
    → (k : Pool) → pool_of k s ≡ addresses api k c o m.vip.addr
taken_all api c m vtep protocol fabric o s₁ s₂ s₃ s₄ s e₁ e₂ e₃ e₄ e₅ k =
    let p₁ = (process_nodes-Pushes m.subnet m.dhcp_start m.dummy k c.controls).at _ s₁ e₁ in
    let p₂ = (process_nodes-Pushes m.subnet m.dhcp_start m.dummy k c.nodes).at s₁ s₂ e₂ in
    let p₃ =
      (check_switches-Pushes api c m.subnet m.dhcp_start vtep protocol k o.sws).at s₂ s₃ e₃ in
    let p₄ = (check_connections-Pushes fabric k o.conns).at s₃ s₄ e₄ in
    let p₅ = (check_gateways-Pushes c vtep protocol k o.gws).at s₄ s e₅ in
    onto _ _ p₅
      (onto _ _ p₄ (onto _ _ p₃ (onto _ _ p₂ (onto _ _ p₁ (start_seen-pool k m.vip.addr)))))

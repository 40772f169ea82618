-- ===== src/Status/Pushes.antt =====
-- Which addresses of the objects `getHydration` of pkg/hhfab/hydrate.go takes: one list for each of
-- its maps, and rules for what a sequence of checks puts in front of it.
use fabricator.Common.{
  ◌≡◌, sym, ap, ◌∙◌, List, [], ◌∷◌, ◌++◌, Result, ok, err, ◌>>=◌, ◌>>◌, bind-eq-ok, then-eq-ok,
  ok-injective, fold_ok, ◌||◌, if◌then◌else◌,
}
use mathlib.Core.List.{append_assoc}
use fabricator.Netip.{Addr, Prefix, is_blank}
use fabricator.Wiring.{WiringApi, Node, Switch, Link, Gateway}
use fabricator.Status.Types.{Seen, Fault, HydrationError}
use fabricator.Status.Claims.{read_prefix, read_v4_prefix}

pub data Pool : Type 0 where
  management dummy vtep protocol fabric : Pool

abbrev pub pool_of : Pool → Seen → List Addr
pool_of management s = s.mgmt_ips
pool_of dummy s = s.dummy_ips
pool_of vtep s = s.vtep_ips
pool_of protocol s = s.protocol_ips
pool_of fabric s = s.fabric_ips

-- A step that succeeds puts `xs` in front of what is taken.
pub record Pushes (k : Pool) (xs : List Addr) (f : Seen → Result HydrationError Seen) : Type 0 where
  pub at : (s s' : Seen) → f s ≡ ok s' → pool_of k s' ≡ xs ++ pool_of k s

-- What the elements of a list put there, the last one in front.
abbrev pub pushed {ℓ} : {A : Type ℓ} → (A → List Addr) → List A → List Addr
pushed f [] = []
pushed f (x ∷ xs) = pushed f xs ++ f x

module _ (k : Pool) where
  pub Pushes-bind :
      (xs ys : List Addr) (f g : Seen → Result HydrationError Seen)
      → Pushes k xs f
      → Pushes k ys g
      → Pushes k (ys ++ xs) (λ s. f s >>= g)
  Pushes-bind xs ys f g kf kg = record {
    at = λ s s' h.
        let (t, e, e') = bind-eq-ok (f s) g h in
        kg.at t s' e'
        ∙ ap (λ (zs : List Addr). ys ++ zs) (kf.at s t e)
        ∙ sym (append_assoc ys xs (pool_of k s));
  }

  pub Pushes-then :
      (m : Result HydrationError (Unit {0})) (xs : List Addr)
      (f : Seen → Result HydrationError Seen)
      → Pushes k xs f
      → Pushes k xs (λ s. m >> f s)
  Pushes-then m xs f kf = record { at = λ s s' h. kf.at s s' (then-eq-ok m (f s) h) }

  pub Pushes-ok : Pushes k [] (λ s. ok s)
  Pushes-ok = record { at = λ s s' h. ap (pool_of k) (sym (ok-injective h)) }

  pub Pushes-fold :
      {A : Type 0} (adds : A → List Addr) (f : A → Seen → Result HydrationError Seen) (xs : List A)
      → ((a : A) → Pushes k (adds a) (f a))
      → Pushes k (pushed adds xs) (fold_ok f xs)
  Pushes-fold adds f [] h = Pushes-ok
  Pushes-fold adds f (x ∷ xs) h =
      Pushes-bind (adds x) (pushed adds xs) (f x) (fold_ok f xs) (h x) (Pushes-fold adds f xs h)

-- The address of a field that reads as a prefix.
abbrev pub read_addr : Result Fault Prefix → List Addr
read_addr (ok p) = p.addr ∷ []
read_addr (err e) = []

-- The addresses of a node, when its management address is set.
abbrev pub node_addrs : Pool → Node → List Addr
node_addrs management n =
    if is_blank n.management_ip then [] else read_addr (read_v4_prefix n.management_ip)
node_addrs dummy n = if is_blank n.management_ip then [] else read_addr (read_v4_prefix n.dummy_ip)
node_addrs vtep n = []
node_addrs protocol n = []
node_addrs fabric n = []

-- The addresses of a switch, of which only a leaf has a VTEP.
abbrev pub switch_addrs : WiringApi → Pool → Switch → List Addr
switch_addrs api management sw = if is_blank sw.ip then [] else read_addr (read_prefix sw.ip)
switch_addrs api dummy sw = []
switch_addrs api vtep sw =
    if api.is_leaf sw.role
    then (if is_blank sw.vtep_ip then [] else read_addr (read_prefix sw.vtep_ip))
    else []
switch_addrs api protocol sw =
    if is_blank sw.protocol_ip then [] else read_addr (read_prefix sw.protocol_ip)
switch_addrs api fabric sw = []

-- The addresses of a link that has both.
abbrev pub link_addrs : Pool → Link → List Addr
link_addrs fabric link =
    if is_blank link.first.ip || is_blank link.second.ip
    then []
    else read_addr (read_prefix link.second.ip) ++ read_addr (read_prefix link.first.ip)
link_addrs _ link = []

abbrev pub gateway_addrs : Pool → Gateway → List Addr
gateway_addrs vtep gw = if is_blank gw.vtep_ip then [] else read_addr (read_prefix gw.vtep_ip)
gateway_addrs protocol gw =
    if is_blank gw.protocol_ip then [] else read_addr (read_prefix gw.protocol_ip)
gateway_addrs _ gw = []

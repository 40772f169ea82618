-- ===== src/Fab/Nodes/Laws.antt =====
-- What the accepted nodes satisfy.
use fabricator.Common.{
  ℕ, zero, suc, ◌≡◌, refl, ok-injective, ◌∙◌, subst, sym, String, str_eq, Bool, true, false, ◌⊎◌,
  inl, inr, Option, none, some, List, [], ◌∷◌, ok, arith, get_elem?, some-injective, bind-eq-ok,
  require, refuse, Bool-cases, length, ◌==◌,
}
use fabricator.Netip.{Addr, Prefix, PrefixText, parse_v4_prefix, addr_eq}
use fabricator.Netip.Laws.{addr_eq_refl, addr_eq_sound}
use fabricator.Status.Types.{has_addr}
use fabricator.Fab.Types.{ControlConfig}
use fabricator.Fab.Nodes.{
  NodeSpec, NodeLists, RolesApi, NodeError, field_of, check_addresses, parsed_addr, taken,
  check_unused, check_hydrated, validate_node, listed_nodes, dummy_in_use, management_in_use,
  bad_namespace, duplicate_roles, unexpected_roles, NodeField,
}

has_addr-parsed_addr :
    (a : Addr) (t : PrefixText) (used : List Addr)
    → has_addr a used ≡ true
    → has_addr a (parsed_addr t used) ≡ true
has_addr-parsed_addr a t used h = ground arith

-- What is taken stays taken.
has_addr-taken :
    (a : Addr) (get : NodeSpec → PrefixText) (skip : Option String) (l : List NodeSpec)
    (used : List Addr)
    → has_addr a used ≡ true
    → has_addr a (taken get skip l used) ≡ true
unfolding taken
has_addr-taken a get skip [] used h = h
has_addr-taken a get none (n ∷ l) used h =
    has_addr-taken a get none l (parsed_addr (get n) used) (has_addr-parsed_addr a (get n) used h)
has_addr-taken a get (some s) (n ∷ l) used h = ground (
  arith,
  has_addr-taken a get (some s) l used h,
  has_addr-taken a get (some s) l (parsed_addr (get n) used)
      (has_addr-parsed_addr a (get n) used h),
)

-- The name is the one that is left out.
abbrev is_skipped : Option String → String → Bool
is_skipped none name = false
is_skipped (some s) name = str_eq name s

-- The address of the first node, which is not left out, is taken.
has_addr-taken_head :
    (get : NodeSpec → PrefixText) (skip : Option String) (l : List NodeSpec) (o : NodeSpec)
    (used : List Addr) (p : Prefix)
    → is_skipped skip o.name ≡ false
    → parse_v4_prefix (get o) ≡ ok p
    → has_addr p.addr (taken get skip (o ∷ l) used) ≡ true
unfolding taken
has_addr-taken_head get none l o used p h k =
    has_addr-taken p.addr get none l _ (ground (arith, addr_eq_refl p.addr))
has_addr-taken_head get (some s) l o used p h k =
    rw h (has_addr-taken p.addr get (some s) l _ (ground (arith, addr_eq_refl p.addr)))

-- The address of a node that is not left out is taken.
has_addr-taken_at :
    (get : NodeSpec → PrefixText) (skip : Option String) (l : List NodeSpec) (i : ℕ) (o : NodeSpec)
    (used : List Addr) (p : Prefix)
    → get_elem? l i ≡ some o
    → is_skipped skip o.name ≡ false
    → parse_v4_prefix (get o) ≡ ok p
    → has_addr p.addr (taken get skip l used) ≡ true
unfolding taken
has_addr-taken_at get skip [] i o used p e h k = absurd (cc e)
has_addr-taken_at get skip (n ∷ l) zero o used p e h k =
    subst (λ m. has_addr p.addr (taken get skip (m ∷ l) used) ≡ true) (sym (some-injective e))
      (has_addr-taken_head get skip l o used p h k)
has_addr-taken_at get none (n ∷ l) (suc i) o used p e h k =
    has_addr-taken_at get none l i o (parsed_addr (get n) used) p e h k
has_addr-taken_at get (some s) (n ∷ l) (suc i) o used p e h k = ground (
  arith,
  has_addr-taken_at get (some s) l i o used p e h k,
  has_addr-taken_at get (some s) l i o (parsed_addr (get n) used) p e h k,
)

refused : (b : Bool) (x : NodeError) → refuse b x ≡ ok tt → b ≡ false
refused true x h = cc
refused false x h = refl

abbrev dummy_of : NodeSpec → PrefixText
dummy_of o = o.dummy_ip

abbrev management_of : NodeSpec → PrefixText
management_of o = o.management_ip

-- A control node, or a node of another name.
abbrev pub IsOther : NodeSpec → List NodeSpec → List NodeSpec → NodeSpec → Type 0
IsOther n controls nodes o =
    ((i : ℕ) × (get_elem? controls i ≡ some o))
    ⊎ ((i : ℕ) × (get_elem? nodes i ≡ some o) × (str_eq o.name n.name ≡ false))

-- The addresses of the others are among those that are taken.
has_addr-others :
    (get : NodeSpec → PrefixText) (n o : NodeSpec) (controls nodes : List NodeSpec)
    (start : List Addr) (p : Prefix)
    → IsOther n controls nodes o
    → parse_v4_prefix (get o) ≡ ok p
    → has_addr p.addr (taken get (some n.name) nodes (taken get none controls start)) ≡ true
has_addr-others get n o controls nodes start p (inl (i, e)) k =
    has_addr-taken p.addr get (some n.name) nodes _
      (has_addr-taken_at get none controls i o start p e refl k)
has_addr-others get n o controls nodes start p (inr (i, e, h)) k =
    has_addr-taken_at get (some n.name) nodes i o _ p e h k

apart_of :
    (a b : Addr) (used : List Addr)
    → has_addr a used ≡ false
    → has_addr b used ≡ true
    → addr_eq a b ≡ false
apart_of a b used h k = elim (Bool-cases (addr_eq a b)) [
  | inl same ↦
      let e = addr_eq_sound a b same in
      let w : true ≡ false = sym k ∙ subst (λ x. has_addr x used ≡ false) e h in absurd (cc w)
  | inr differs ↦ differs
]

-- The checks that nothing else has the addresses.
unused-ok :
    (c : ControlConfig) (lists : NodeLists) (n : NodeSpec) (addrs : Prefix × Prefix)
    (controls nodes : List NodeSpec)
    → lists.controls ≡ some controls
    → lists.nodes ≡ some nodes
    → check_unused c lists n addrs ≡ ok tt
    → (vip : Prefix) × (has_addr addrs.0.addr
          (taken dummy_of (some n.name) nodes (taken dummy_of none controls []))
        ≡ false)
      × (has_addr addrs.1.addr (
            taken management_of
              (some n.name)
              nodes
              (taken management_of none controls (vip.addr ∷ [])))
          ≡ false)
unfolding check_unused listed_nodes
unused-ok c lists n addrs controls nodes ec en h =
    let (vip, _, h) = bind-eq-ok (field_of NodeField.control_vip c.vip) _ h in
    let h' = rw (ec, en) at h in
    let (_, d, m) = bind-eq-ok (refuse _ dummy_in_use) _ h' in
    (vip, refused _ dummy_in_use d, refused _ management_in_use m)

addresses-ok :
    (c : ControlConfig) (n : NodeSpec) (a : Prefix × Prefix)
    → check_addresses c n ≡ ok a
    → (parse_v4_prefix n.dummy_ip ≡ ok a.0) × (parse_v4_prefix n.management_ip ≡ ok a.1)
unfolding check_addresses field_of
addresses-ok c n a h = ground arith

hydrated-ok :
    (api : RolesApi) (c : ControlConfig) (lists : NodeLists) (n : NodeSpec)
    → validate_node api (some c) false (some lists) n ≡ ok tt
    → (a : Prefix × Prefix) × (check_addresses c n ≡ ok a) × (check_unused c lists n a ≡ ok tt)
unfolding validate_node check_hydrated
hydrated-ok api c lists n h =
    let (_, _, h) = bind-eq-ok (require (str_eq n.namespace "fab") bad_namespace) _ h in
    let (_, _, h) =
      bind-eq-ok (require (length (api.uniq n.roles) == length n.roles) duplicate_roles) _ h in
    let (_, _, h) =
      bind-eq-ok (require (api.every ("gateway" ∷ []) n.roles) unexpected_roles) _ h in
    let (_, e, _) = bind-eq-ok (check_hydrated c (some lists) n) _ h in
    bind-eq-ok (check_addresses c n) _ e

module _ (api : RolesApi) (c : ControlConfig) (lists : NodeLists) (n o : NodeSpec)
    (controls nodes : List NodeSpec) (p q : Prefix) where
  -- A node that `FabNode.Validate` accepts as hydrated, with a client, has another management address
  -- than every control node and every node of another name.
  pub validate_node-management :
      lists.controls ≡ some controls
      → lists.nodes ≡ some nodes
      → validate_node api (some c) false (some lists) n ≡ ok tt
      → IsOther n controls nodes o
      → parse_v4_prefix n.management_ip ≡ ok p
      → parse_v4_prefix o.management_ip ≡ ok q
      → addr_eq p.addr q.addr ≡ false
  validate_node-management ec en h other kp kq =
      let (a, e, u) = hydrated-ok api c lists n h in
      let (vip, _, m) = unused-ok c lists n a controls nodes ec en u in
      let same = ok-injective (sym (addresses-ok c n a e).1 ∙ kp) in
      subst (λ r. addr_eq r.addr q.addr ≡ false) same
        (apart_of a.1.addr q.addr _ m
          (has_addr-others management_of n o controls nodes _ q other kq))

  -- A node that `FabNode.Validate` accepts as hydrated, with a client, has another dummy address than
  -- every control node and every node of another name.
  pub validate_node-dummy :
      lists.controls ≡ some controls
      → lists.nodes ≡ some nodes
      → validate_node api (some c) false (some lists) n ≡ ok tt
      → IsOther n controls nodes o
      → parse_v4_prefix n.dummy_ip ≡ ok p
      → parse_v4_prefix o.dummy_ip ≡ ok q
      → addr_eq p.addr q.addr ≡ false
  validate_node-dummy ec en h other kp kq =
      let (a, e, u) = hydrated-ok api c lists n h in
      let (vip, d, _) = unused-ok c lists n a controls nodes ec en u in
      let same = ok-injective (sym (addresses-ok c n a e).0 ∙ kp) in
      subst (λ r. addr_eq r.addr q.addr ≡ false) same
        (apart_of a.0.addr q.addr _ d (has_addr-others dummy_of n o controls nodes _ q other kq))

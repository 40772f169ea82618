-- ===== src/Vlab/Used.antt =====
-- The ports of switches that the connections of a lab use, pkg/hhfab/vlabbuilder.go, and how the
-- methods of `VLABBuilderBase` use them.
use fabricator.Common.{
  ℕ, ◌+◌, ◌%◌, ◌≤◌, ◌==◌, ltb, leb, String, str_eq, eq_iff, Bool, true, false, List, [], ◌∷◌, ◌++◌,
  ◌≡◌, refl, sym, ap, subst, Option, none, some, if◌then◌else◌, arith,
}
use fabricator.Action.{Action, Outcome, Ensures, Ensures-bind, Ensures-pure, Anything}
use fabricator.Vlab.{
  Device, Port, ServerLink, SwitchLink, ConnectionSpec, Object, BuilderBase, Lab, LabApi,
}
use fabricator.Vlab.Ports.{iface, next_switch_port, next_server_port}
use fabricator.Vlab.Create.{add, added, create_connection, create_connection_with_name}

-- The ends of all links of a list.
abbrev pub all_ends : {L : Type 0} → (L → List Port) → List L → List Port
all_ends ends [] = []
all_ends ends (l ∷ ls) = ends l ++ all_ends ends ls

abbrev pub server_ends : ServerLink → List Port
server_ends l = l.server_port ∷ l.switch_port ∷ []

abbrev pub switch_ends : SwitchLink → List Port
switch_ends l = l.first ∷ l.second ∷ []

-- The ports at the ends of a connection.
abbrev pub spec_ports : ConnectionSpec → List Port
spec_ports (ConnectionSpec.eslag ls) = all_ends server_ends ls
spec_ports (ConnectionSpec.unbundled l) = server_ends l
spec_ports (ConnectionSpec.bundled ls) = all_ends server_ends ls
spec_ports (ConnectionSpec.fabric ls) = all_ends switch_ends ls
spec_ports (ConnectionSpec.mesh ls) = all_ends switch_ends ls
spec_ports (ConnectionSpec.gateway_links ls) = all_ends switch_ends ls
spec_ports (ConnectionSpec.external_link p) = p ∷ []

abbrev pub object_ports : Object → List Port
object_ports (Object.connection c) = spec_ports c.spec
object_ports _ = []

abbrev pub lab_ports : List Object → List Port
lab_ports [] = []
lab_ports (o ∷ os) = object_ports o ++ lab_ports os

abbrev is_device : String → Device → Bool
is_device name (Device.switch n) = str_eq n name
is_device name _ = false

-- How often the port of a switch with a number stands in a list.
abbrev pub uses : String → ℕ → List Port → ℕ
uses name slot [] = 0
uses name slot (p ∷ ps) =
    (if is_device name p.device then (if p.slot == slot then 1 else 0) else 0) + uses name slot ps

pub uses-append :
    (name : String) (slot : ℕ) (ps qs : List Port)
    → uses name slot (ps ++ qs) ≡ uses name slot ps + uses name slot qs
uses-append name slot [] qs = omega arith
uses-append name slot (p ∷ ps) qs = omega (arith, uses-append name slot ps qs)

-- One for the ports that a switch has given out, of which `last` is the number of the last.
abbrev room : ℕ → ℕ → ℕ
room last slot = if leb slot last then 1 else 0

-- While no switch has too many interfaces: the connections, and the ports that are still to be
-- connected, use each port once at most, and only ports that were given out.
pub record Tidy (pending : List Port) (s : Lab) : Type 0 where
  pub at :
      s.too_many ≡ []
      → (name : String) (slot : ℕ)
      → (iface s.iface_tracker (Device.switch name) ≤ 76)
        × (uses name slot pending + uses name slot (lab_ports s.objects)
            ≤ room (iface s.iface_tracker (Device.switch name)) slot)

next_room :
    (t slot x : ℕ)
    → t ≤ 76
    → ltb 76 ((t + (if leb 48 t then 4 else 1)) % 256) ≡ false
    → x ≤ room t slot
    → (if (t + 1) % 256 == slot then 1 else 0) + x
      ≤ room ((t + (if leb 48 t then 4 else 1)) % 256) slot
next_room t slot x h k le = ground arith

-- The tracker after a port was given out, where `b` says whether it is of the switch looked at.
next_uses :
    (slot t x y last : ℕ) (b : Bool)
    → (b ≡ true → last ≡ t)
    → t ≤ 76
    → last ≤ 76
    → ltb 76 ((t + (if leb 48 t then 4 else 1)) % 256) ≡ false
    → x + y ≤ room last slot
    → ((if b then (t + (if leb 48 t then 4 else 1)) % 256 else last) ≤ 76)
      × ((if b then (if (t + 1) % 256 == slot then 1 else 0) else 0) + x + y
          ≤ room (if b then (t + (if leb 48 t then 4 else 1)) % 256 else last) slot)
next_uses slot t x y last true same h h' k le = (
  ground arith,
  omega
      (arith, next_room t slot (x + y) h k (subst (λ (n : ℕ). x + y ≤ room n slot) (same refl) le)),
)
next_uses slot t x y last false same h h' k le = (h', omega (arith, le))

no_more :
    (b : Bool) (name : String) (xs : List String)
    → (if b then name ∷ xs else xs) ≡ []
    → (b ≡ false) × (xs ≡ [])
no_more true name xs e = absurd (cc e)
no_more false name xs e = (refl, e)

module _ {R : String → Lab → Type 0} (pending : List Port) where
  pub next_switch_port-Tidy :
      (d : String) → Ensures (Tidy pending) (next_switch_port d) (λ p s. Tidy (p ∷ pending) s) R
  unfolding next_switch_port
  next_switch_port-Tidy d = record {
    at = λ s h. record {
      at = λ e name slot.
          let t = iface s.iface_tracker (Device.switch d) in
          let (k, e') = no_more (ltb 76 ((t + (if leb 48 t then 4 else 1)) % 256)) d s.too_many e in
          let there = h.at e' name slot in
          next_uses slot t (uses name slot pending) (uses name slot (lab_ports s.objects)) _
            (str_eq d name)
            (λ same.
              ap (λ (n : String). iface s.iface_tracker (Device.switch n))
                (sym ((eq_iff d name).0 same)))
            (h.at e' d slot).0 there.0 k there.1;
    };
  }

  pub next_server_port-Tidy :
      (b : BuilderBase) (d : String)
      → Ensures (Tidy pending) (next_server_port b d) (λ p s. Tidy (p ∷ pending) s) R
  unfolding next_server_port
  next_server_port-Tidy b d = record {
    at = λ s h. record {
      at = λ e name slot. let old = h.at e name slot in (old.0, omega (arith, old.1));
    };
  }

module _ (pending others : List Port) where
  -- The order of the ports that are still to be connected does not matter.
  pub Tidy-move :
      (s : Lab)
      → ((name : String) (slot : ℕ) → uses name slot pending ≡ uses name slot others)
      → Tidy pending s
      → Tidy others s
  Tidy-move s same h = record {
    at = λ e name slot. let old = h.at e name slot in (old.0, omega (arith, old.1, same name slot));
  }

module _ {A : Type 0} {Q : A → Lab → Type 0} {R : String → Lab → Type 0} where
  pub Tidy-same :
      {m : Action String Lab A} (pending others : List Port)
      → ((name : String) (slot : ℕ) → uses name slot pending ≡ uses name slot others)
      → Ensures (Tidy others) m Q R
      → Ensures (Tidy pending) m Q R
  Tidy-same pending others same h = record {
    at = λ s p. h.at s (Tidy-move pending others s same p);
  }

module _ (api : LabApi) (pending : List Port) where
  abbrev Broken : String → Lab → Type 0
  Broken e s = Anything s

  added-Outcome :
      (o : Object) (r : Option String) (s : Lab)
      → Tidy (object_ports o ++ pending) s
      → Outcome (λ _ t. Tidy pending t) Broken (added api o r s)
  added-Outcome o none s h = record {
    at = λ e name slot.
        let old = h.at e name slot in
        (
          old.0,
          omega (
            arith,
            old.1,
            uses-append name slot (object_ports o) pending,
            uses-append name slot (object_ports o) (lab_ports s.objects),
          ),
        );
  }
  added-Outcome o (some e) s h = tt

  pub add-Tidy :
      (o : Object)
      → Ensures (Tidy (object_ports o ++ pending)) (add api o) (λ _ t. Tidy pending t) Broken
  unfolding add
  add-Tidy o = record { at = λ s h. added-Outcome o (api.refuses s.objects o) s h }

  -- A connection takes the ports at its ends.
  pub create_connection_with_name-Tidy :
      (name : String) (spec : ConnectionSpec)
      → Ensures
          (Tidy (spec_ports spec ++ pending))
          (create_connection_with_name api name spec)
          (λ _ t. Tidy pending t)
          Broken
  unfolding create_connection_with_name
  create_connection_with_name-Tidy name spec =
      Ensures-bind (λ _ t. Tidy pending t) (λ _ t. Tidy pending t) Broken _ _
        (add-Tidy (Object.connection (record { name = name; spec = spec })))
        (λ _. Ensures-pure (record { name = name; spec = spec }) (λ s h. h))

  pub create_connection-Tidy :
      (spec : ConnectionSpec)
      → Ensures
          (Tidy (spec_ports spec ++ pending))
          (create_connection api spec)
          (λ _ t. Tidy pending t)
          Broken
  unfolding create_connection
  create_connection-Tidy spec = create_connection_with_name-Tidy (api.generate_name spec) spec

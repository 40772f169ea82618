-- ===== src/Vlab/Bare.antt =====
-- Labs without connections, with which a `Build` of pkg/hhfab/vlabbuilder.go begins.
use fabricator.Common.{
  ℕ, ◌+◌, ◌≤◌, ◌<◌, leb, String, Option, none, some, List, [], ◌≡◌, refl, sym, subst, arith,
  if◌then◌else◌,
}
use fabricator.Action.{Outcome, Ensures}
use fabricator.Vlab.{Port, Object, Lab, LabApi}
use fabricator.Vlab.Create.{add, added}
use fabricator.Vlab.Build.{reset_tracker}
use fabricator.Vlab.Used.{Tidy, uses, lab_ports, object_ports}
use fabricator.Vlab.Neat.{Broken}

-- A lab without connections.
abbrev pub Bare : Lab → Type 0
Bare s = lab_ports s.objects ≡ []

module _ (api : LabApi) where
  added-Bare :
      (x : Object) (r : Option String) (s : Lab)
      → object_ports x ≡ []
      → Bare s
      → Outcome (λ _ t. Bare t) Broken (added api x r s)
  added-Bare x none s e h = rw e (rw h refl)
  added-Bare x (some m) s e h = tt

  pub add-Bare :
      (x : Object) → object_ports x ≡ [] → Ensures Bare (add api x) (λ _ t. Bare t) Broken
  unfolding add
  add-Bare x e = record { at = λ s h. added-Bare x (api.refuses s.objects x) s e h }

pub reset_tracker-Tidy : Ensures Bare reset_tracker (λ _ t. Tidy [] t) Broken
unfolding reset_tracker
reset_tracker-Tidy = record {
  at = λ s h. record {
    at = λ e name slot. (
      omega arith,
      subst
          (λ (ps : List Port).
            uses name slot [] + uses name slot ps ≤ (if leb slot 0 then 1 else 0))
          (sym h) (omega arith),
    );
  };
}

-- What the bound of a tidy lab says of the ports that connections use.
pub uses_bound :
    (n last slot : ℕ)
    → last ≤ 76
    → 0 + n ≤ (if leb slot last then 1 else 0)
    → (n ≤ 1) × (76 < slot → n ≡ 0)
uses_bound n last slot h k = (ground arith, λ above. ground arith)

-- ===== src/Controller/Consistent.antt =====
-- The record of the attempts in the status, and what the writes of the controller,
-- pkg/controller/fabricator_ctrl.go, do to it.
use fabricator.Common.{ℕ, ◌≤◌, String, true, false, Option, List, ◌≡◌, refl, sym, ◌∙◌, ap, arith}
use fabricator.Fab.Ready.{RoleNode, ComponentsStatus}
use fabricator.Controller.{Api, FabObject, Condition, condition_applied}
use fabricator.Controller.Check.{is_true, checked}
use fabricator.Controller.Reconcile.{prepare, attempted, applied}
use fabricator.Controller.Laws.{ApiLaws, KeepsRecord, SameStatus}

module _ {E W O N V : Type 0} (api : Api E W O N V) where
  -- What was applied was attempted, nothing newer than the spec was, and while the last attempt
  -- counts as applied it is the last one made.
  pub record IsConsistent (f : FabObject V) : Type 0 where
    pub applied_bound : f.status.last_applied_gen ≤ f.status.last_attempt_gen
    pub attempt_bound : f.status.last_attempt_gen ≤ f.generation
    pub agrees :
        is_true api condition_applied f ≡ true
        → f.status.last_applied_gen ≡ f.status.last_attempt_gen

  pub KeepsRecord-IsConsistent :
      (f g : FabObject V) → KeepsRecord api f g → IsConsistent f → IsConsistent g
  KeepsRecord-IsConsistent f g k c = record {
    applied_bound = omega (arith, k.applied_gen, k.attempt_gen, c.applied_bound);
    attempt_bound = omega (arith, k.generation, k.attempt_gen, c.attempt_bound);
    agrees = λ h. k.applied_gen ∙ c.agrees (sym k.is_applied ∙ h) ∙ sym k.attempt_gen;
  }

  pub SameStatus-IsConsistent :
      (f g : FabObject V) → SameStatus f g → IsConsistent f → IsConsistent g
  SameStatus-IsConsistent f g k c = record {
    applied_bound = omega (arith, k.applied_gen, k.attempt_gen, c.applied_bound);
    attempt_bound = omega (arith, k.generation, k.attempt_gen, c.attempt_bound);
    agrees = λ h.
        k.applied_gen
        ∙ c.agrees (
            ap (λ (cs : List Condition). api.is_status_condition_true cs condition_applied)
              (sym k.conditions)
            ∙ h)
        ∙ sym k.attempt_gen;
  }

  pub prepare-IsConsistent :
      (channel : String) (f : FabObject V) → IsConsistent f → IsConsistent (prepare api channel f)
  unfolding prepare
  prepare-IsConsistent channel f c = record {
    applied_bound = c.applied_bound;
    attempt_bound = c.attempt_bound;
    agrees = c.agrees;
  }

module _ {E W O N V : Type 0} (api : Api E W O N V) {key : String × String}
    (stored : W → Option (FabObject V)) (L : ApiLaws api key stored) where
  pub attempted-is_true :
      (now : ℕ) (f : FabObject V) → is_true api condition_applied (attempted api now f) ≡ false
  unfolding attempted
  attempted-is_true now f =
      L.is_true-set_ne _ _ condition_applied refl
      ∙ L.is_true-set_ne _ _ condition_applied refl
      ∙ L.is_true-set _ _

  pub attempted-IsConsistent :
      (now : ℕ) (f : FabObject V) → IsConsistent api f → IsConsistent api (attempted api now f)
  unfolding attempted
  attempted-IsConsistent now f c = record {
    applied_bound = omega (arith, c.applied_bound, c.attempt_bound);
    attempt_bound = omega arith;
    agrees = λ h. let w : true ≡ false = sym h ∙ attempted-is_true now f in absurd (cc w);
  }

  pub applied-IsConsistent :
      (version : String) (now : ℕ) (f : FabObject V)
      → f.status.last_attempt_gen ≡ f.generation
      → IsConsistent api (applied api version now f)
  unfolding applied
  applied-IsConsistent version now f e = record {
    applied_bound = omega (arith, e);
    attempt_bound = omega (arith, e);
    agrees = λ h. sym e;
  }

  -- The record of the attempts that a check leaves.
  pub checked-KeepsRecord :
      (now : ℕ) (nodes : List RoleNode) (c : ComponentsStatus) (f : FabObject V)
      → KeepsRecord api f (checked api now nodes c f)
  unfolding checked
  checked-KeepsRecord now nodes c f = record {
    generation = omega arith;
    is_applied =
        L.is_true-set_ne _ _ condition_applied refl ∙ L.is_true-set_ne _ _ condition_applied refl;
    attempt_gen = refl;
    applied_gen = refl;
    applied_controller = refl;
  }

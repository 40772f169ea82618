-- ===== src/Controller/Retry.antt =====
-- What a `Reconcile` of pkg/controller/fabricator_ctrl.go that failed leaves: the object is tried
-- again.
use fabricator.Common.{
  ℕ, ◌≤◌, ◌==◌, String, str_eq, Bool, true, false, not, ◌||◌, Option, List, ◌≡◌, ap, ◌∙◌, Result,
  ok, err, map_err, arith,
}
use fabricator.Controller.{
  Api, FabObject, State, InstallStep, Condition, ReconcileError, condition_applied,
}
use fabricator.Action.{
  Action, Outcome, Ensures, Ensures-bind, Ensures-lift, Ensures-reads, Ensures-pure, Ensures-post,
  Ensures-err, Ensures-error, Anything,
}
use fabricator.Controller.Install.{calls}
use fabricator.Controller.Check.{is_true}
use fabricator.Controller.Reconcile.{
  prepare, attempted, applied, needs_apply, before_attempt, begin_attempt, install_and_record,
  end_attempt, apply, one_control, or_missing, secret_password,
}
use fabricator.Controller.Laws.{ApiLaws, KeepsRecord, SameStatus}
use fabricator.Controller.Writes.{Holds, update-Ensures, enforce-Ensures, enforce_all-Ensures}
use fabricator.Controller.Consistent.{
  IsConsistent, KeepsRecord-IsConsistent, SameStatus-IsConsistent, prepare-IsConsistent,
  attempted-is_true, attempted-IsConsistent,
}

-- The error of the write of the success, whose answer may be all that was lost.
abbrev pub is_last_write : {E : Type 0} → ReconcileError E → Bool
is_last_write (ReconcileError.updating_applied e) = true
is_last_write _ = false

module _ {E W O N V : Type 0} (api : Api E W O N V) (version : String) where
  -- A consistent object that the controller would apply.
  pub record IsDue (f : FabObject V) : Type 0 where
    pub consistent : IsConsistent api f
    pub due : needs_apply api version f ≡ true

  -- Between two generations the test cannot turn around: what was applied is no newer than the first.
  due-grows :
      (x y x' : String) (m m' n n' : ℕ) (b b' : Bool)
      → not (str_eq x y) || not (m == n) || not b ≡ true
      → x' ≡ x
      → m' ≡ m
      → b' ≡ b
      → m ≤ n
      → n ≤ n'
      → not (str_eq x' y) || not (m' == n') || not b' ≡ true
  due-grows x y x' m m' n n' b b' h ex em eb p q = rw ex (rw em (rw eb (ground (arith, h))))

  KeepsRecord-IsDue : (f g : FabObject V) → KeepsRecord api f g → IsDue f → IsDue g
  unfolding needs_apply
  KeepsRecord-IsDue f g k d = record {
    consistent = KeepsRecord-IsConsistent api f g k d.consistent;
    due =
        due-grows f.status.last_applied_controller version _ f.status.last_applied_gen _
          f.generation _ (is_true api condition_applied f) _ d.due k.applied_controller
          k.applied_gen k.is_applied
          (omega (arith, d.consistent.applied_bound, d.consistent.attempt_bound)) k.generation;
  }

  not_applied-IsDue :
      (f g : FabObject V)
      → is_true api condition_applied f ≡ false
      → IsConsistent api f
      → SameStatus f g
      → IsDue g
  unfolding needs_apply
  not_applied-IsDue f g e c k = record {
    consistent = SameStatus-IsConsistent api f g k c;
    due =
        let now_false =
          ap (λ (cs : List Condition). api.is_status_condition_true cs condition_applied)
            k.conditions
          ∙ e in
        ground (arith, now_false);
  }

module _ {E W O N V : Type 0} (api : Api E W O N V) (key : String × String)
    (stored : W → Option (FabObject V)) (L : ApiLaws api key stored) (version : String) where
  abbrev Due : State W → Type 0
  Due s = Holds stored (IsDue api version) s

  abbrev Failed : ReconcileError E → State W → Type 0
  Failed e s = is_last_write e ≡ false → Due s

  -- A step whose every error leaves the object due.
  still :
      {A : Type 0} {P : State W → Type 0} {m : Action (ReconcileError E) (State W) A}
      {Q : A → State W → Type 0}
      → Ensures P m Q (λ _ t. Due t)
      → Ensures P m Q Failed
  still h = Ensures-error _ (λ _ t. Due t) Failed h (λ e t d l. d)

  before_attempt-Due : (f : FabObject V) → Ensures Due (before_attempt api f) (λ _ t. Due t) Failed
  unfolding before_attempt
  before_attempt-Due f =
      let D = λ (t : State W). Due t in
      Ensures-bind (λ _ t. Due t) (λ _ t. Due t) Failed _ _ (still (Ensures-reads _))
        (λ cs.
          Ensures-bind (λ _ t. Due t) (λ _ t. Due t) Failed _ _
            (still (Ensures-lift (one_control cs)))
            (λ c.
              Ensures-bind (λ _ t. Due t) (λ _ t. Due t) Failed _ _
                (still (
                  enforce-Ensures api stored L (IsDue api version) (KeepsRecord-IsDue api version)
                    (api.default_control c) "" f InstallStep.fab_and_control))
                (λ _.
                  Ensures-bind (λ _ t. Due t) (λ _ t. Due t) Failed _ _ (still (Ensures-reads _))
                    (λ secret.
                      Ensures-bind (λ _ t. Due t) (λ _ t. Due t) Failed _ _
                        (still (Ensures-lift (or_missing (secret_password secret))))
                        (λ p. Ensures-pure (api.default_control c, p) (λ s h. h))))))

  begin_attempt-Due :
      (f : FabObject V)
      → IsConsistent api f
      → Ensures Due (begin_attempt api f) (λ _ t. Due t) Failed
  unfolding begin_attempt
  begin_attempt-Due f c =
      Ensures-bind (λ (now : ℕ) t. Due t) (λ _ t. Due t) Failed _ _ (still (Ensures-reads _))
        (λ now.
          let due = λ (g : FabObject V) (k : SameStatus (attempted api now f) g).
            not_applied-IsDue api version (attempted api now f) g
              (attempted-is_true api stored L now f) (attempted-IsConsistent api stored L now f c)
              k in
          still (
            Ensures-post _ (λ _ t. Due t) (λ _ t. Due t)
              (update-Ensures api stored L (IsDue api version) ReconcileError.updating_attempt _
                due)
              (λ g t h. (g, h.0, due g h.1))))

  last-Outcome :
      (s : State W) (r : Result E (FabObject V)) (w : W)
      → Outcome
          (λ _ t. Anything t)
          Failed
          (map_err ReconcileError.updating_applied r, record s { cluster = w })
  last-Outcome s (ok a) w = tt
  last-Outcome s (err e) w = λ h. let x : true ≡ false = h in absurd (cc x)

  end_attempt-Due :
      (f : FabObject V) → Ensures Due (end_attempt api version f) (λ _ t. Anything t) Failed
  unfolding end_attempt calls
  end_attempt-Due f =
      Ensures-bind (λ (now : ℕ) t. Due t) (λ _ t. Anything t) Failed _ _ (still (Ensures-reads _))
        (λ now. record {
          at = λ s h.
              last-Outcome s (api.update_status (applied api version now f) s.cluster).0
                (api.update_status (applied api version now f) s.cluster).1;
        })

  apply-Due :
      (f : FabObject V)
      → IsConsistent api f
      → Ensures Due (apply api version f) (λ _ t. Anything t) Failed
  unfolding apply install_and_record
  apply-Due f k =
      Ensures-bind (λ (c : N × String) t. Due t) (λ _ t. Anything t) Failed _ _
        (before_attempt-Due f)
        (λ c.
          Ensures-bind (λ (g : FabObject V) t. Due t) (λ _ t. Anything t) Failed _ _
            (begin_attempt-Due f k)
            (λ g.
              Ensures-bind (λ (h : FabObject V) t. Due t) (λ _ t. Anything t) Failed _ _
                (still (Ensures-lift _))
                (λ h.
                  Ensures-bind (λ (u : Unit {0}) t. Due t) (λ _ t. Anything t) Failed _ _
                    (still (
                      enforce_all-Ensures api stored L (IsDue api version)
                        (KeepsRecord-IsDue api version) c.0 c.1 h))
                    (λ _. end_attempt-Due h))))

  -- When applying a consistent object, while the stored one is consistent and due, ends in any error
  -- but that of the last write, the stored object is consistent and due still.
  pub apply-retried :
      (channel : String) (f : FabObject V) (s s' : State W) (e : ReconcileError E)
      → IsConsistent api f
      → Holds stored (IsDue api version) s
      → apply api version (prepare api channel f) s ≡ (err e, s')
      → is_last_write e ≡ false
      → Holds stored (IsDue api version) s'
  apply-retried channel f s s' e k d r l =
      Ensures-err (λ _ t. Anything t) Failed
        (apply-Due (prepare api channel f) (prepare-IsConsistent api channel f k)) d r l

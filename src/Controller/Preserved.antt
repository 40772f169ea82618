-- ===== src/Controller/Preserved.antt =====
-- The record of the attempts over one reconciliation, and over one turn of the watcher, of
-- pkg/controller/fabricator_ctrl.go.
use fabricator.Common.{
  inl, inr, ℕ, String, Bool, true, false, Option, List, ◌≡◌, refl, sym, ◌∙◌, Result, ok, err,
  map_err, if◌then◌else◌,
}
use fabricator.Fab.Ready.{RoleNode}
use fabricator.Controller.{Api, FabObject, State, InstallStep, ReconcileError}
use fabricator.Action.{
  Action, Outcome, lift, reads, ◌>>=◌, Ensures, Ensures-bind, Ensures-lift, Ensures-reads,
  Ensures-pure, Ensures-if, Ensures-with, Ensures-post, state-Outcome,
}
use fabricator.Controller.Install.{calls}
use fabricator.Controller.Check.{checked, status_check, watch, watch_once}
use fabricator.Controller.Reconcile.{
  prepare, attempted, applied, needs_apply, before_attempt, begin_attempt, install_and_record,
  end_attempt, apply, apply_if_needed, reconcile_object, reconcile, is_ignored, secret_password,
  set_versions, or_missing, one_control,
}
use fabricator.Controller.Laws.{ApiLaws, ReadLaws, SameStatus}
use fabricator.Controller.Steady.{enforce-Steady, enforce_all-Steady, status_check-Steady}
use fabricator.Controller.Consistent.{
  IsConsistent, KeepsRecord-IsConsistent, SameStatus-IsConsistent, prepare-IsConsistent,
  attempted-IsConsistent, applied-IsConsistent, checked-KeepsRecord,
}

module _ {E W O N V : Type 0} (api : Api E W O N V) (key : String × String)
    (stored : W → Option (FabObject V)) (L : ApiLaws api key stored)
    (held : W → FabObject V → Type 0) (M : ReadLaws api key held) where
  -- Every version of the object, current or stale, is consistent.
  abbrev pub Versions : W → Type 0
  Versions w = (f : FabObject V) → held w f → IsConsistent api f

  abbrev pub Valid : State W → Type 0
  Valid s = Versions s.cluster

  updates :
      (f : FabObject V) (w : W)
      → IsConsistent api f
      → Versions w
      → Versions (api.update_status f w).1
  updates f w c h x e = elim (M.update_held f x w e) [
    | inl old ↦ h x old
    | inr same ↦ SameStatus-IsConsistent api f x same c
  ]

  creates : (n : ℕ) (o : O) (w : W) → Versions w → Versions (api.create_or_update n o w).1
  creates n o w h x e = elim (M.create_held n o w x e) [
    | inl old ↦ h x old
    | inr (f, old, k) ↦ KeepsRecord-IsConsistent api f x k (h f old)
  ]

  deletes : (name : String) (w : W) → Versions w → Versions (api.delete_chart name w).1
  deletes name w h x e = h x (M.delete_held name w x e)

  answer-Outcome :
      {F : Type 0} (context : E → F) (f : FabObject V) (s : State W)
      (p : Result E (FabObject V) × W)
      → api.update_status f s.cluster ≡ p
      → Versions p.1
      → Outcome
          (λ g t. SameStatus f g × Valid t)
          (λ _ t. Valid t)
          (map_err context p.0, record s { cluster = p.1 })
  answer-Outcome context f s (ok g, w) e h = ((L.update_ok f g s.cluster w e).1, h)
  answer-Outcome context f s (err x, w) e h = h

  -- A write of a status that is consistent, and its answer.
  update-Ensures :
      {F : Type 0} (context : E → F) (f : FabObject V)
      → IsConsistent api f
      → Ensures Valid
          (calls context (api.update_status f))
          (λ g t. SameStatus f g × Valid t)
          (λ _ t. Valid t)
  unfolding calls
  update-Ensures context f c = record {
    at = λ s h.
        answer-Outcome context f s (api.update_status f s.cluster) refl (updates f s.cluster c h);
  }

  abbrev pub Stays : {A : Type 0} → Action (ReconcileError E) (State W) A → Type 0
  Stays m = Ensures Valid m (λ _ t. Valid t) (λ _ t. Valid t)

  Stays-bind :
      {A B : Type 0} (m : Action (ReconcileError E) (State W) A)
      (f : A → Action (ReconcileError E) (State W) B)
      → Stays m
      → ((a : A) → Stays (f a))
      → Stays (m >>= f)
  Stays-bind m f h k = Ensures-bind (λ _ t. Valid t) (λ _ t. Valid t) (λ _ t. Valid t) m f h k

  before_attempt-Stays : (f : FabObject V) → Stays (before_attempt api f)
  unfolding before_attempt
  before_attempt-Stays f = Stays-bind _ _ (Ensures-reads _) (λ cs.
      Stays-bind _ _ (Ensures-lift (one_control cs)) (λ c.
        Stays-bind _ _
          (enforce-Steady api Versions creates deletes (api.default_control c) "" f
            InstallStep.fab_and_control)
          (λ _. Stays-bind _ _ (Ensures-reads _) (λ secret.
            Stays-bind _ _ (Ensures-lift (or_missing (secret_password secret)))
              (λ p. Ensures-pure (api.default_control c, p) (λ s h. h))))))

  -- An object of which the attempt is written, as the answer gives it back.
  abbrev Begun : FabObject V → State W → Type 0
  Begun g s = (g.status.last_attempt_gen ≡ g.generation) × Valid s

  attempt-Ensures :
      (now : ℕ) (f : FabObject V)
      → IsConsistent api f
      → Ensures Valid
          (calls ReconcileError.updating_attempt (api.update_status (attempted api now f)))
          Begun
          (λ _ t. Valid t)
  unfolding attempted
  attempt-Ensures now f c =
      Ensures-post _ _ _
        (update-Ensures ReconcileError.updating_attempt (attempted api now f)
          (attempted-IsConsistent api stored L now f c))
        (λ g t h. (h.0.attempt_gen ∙ sym h.0.generation, h.1))

  begin_attempt-Ensures :
      (f : FabObject V)
      → IsConsistent api f
      → Ensures Valid (begin_attempt api f) Begun (λ _ t. Valid t)
  unfolding begin_attempt
  begin_attempt-Ensures f c =
      Ensures-bind (λ (now : ℕ) t. Valid t) Begun (λ _ t. Valid t) _ _ (Ensures-reads _)
        (λ now. attempt-Ensures now f c)

  -- An answer that is consistent, in a state whose object is.
  abbrev Answered : FabObject V → State W → Type 0
  Answered g s = IsConsistent api g × Valid s

  end_attempt-Ensures :
      (version : String) (f : FabObject V)
      → f.status.last_attempt_gen ≡ f.generation
      → Ensures Valid (end_attempt api version f) Answered (λ _ t. Valid t)
  unfolding end_attempt
  end_attempt-Ensures version f e =
      Ensures-bind (λ (now : ℕ) t. Valid t) Answered (λ _ t. Valid t) _ _ (Ensures-reads _)
        (λ now.
          let c = applied-IsConsistent api stored L version now f e in
          Ensures-post _ _ _
            (update-Ensures ReconcileError.updating_applied (applied api version now f) c)
            (λ g t h. (SameStatus-IsConsistent api _ g h.0 c, h.1)))

  install_and_record-Ensures :
      (version : String) (c : N × String) (f : FabObject V)
      → f.status.last_attempt_gen ≡ f.generation
      → Ensures Valid (install_and_record api version c f) Answered (λ _ t. Valid t)
  unfolding install_and_record
  install_and_record-Ensures version c f e =
      Ensures-bind (λ (_ : Unit {0}) t. Valid t) Answered (λ _ t. Valid t) _ _
        (enforce_all-Steady api Versions creates deletes c.0 c.1 f)
        (λ _. end_attempt-Ensures version f e)

  versions-Ensures :
      (f : FabObject V) (r : Result E V)
      → f.status.last_attempt_gen ≡ f.generation
      → Ensures Valid (lift (set_versions api f r)) Begun (λ _ t. Valid t)
  unfolding lift
  versions-Ensures f (ok v) e = record { at = λ s p. (e, p) }
  versions-Ensures f (err x) e = record { at = λ s p. p }

  apply-Ensures :
      (version : String) (f : FabObject V)
      → IsConsistent api f
      → Ensures Valid (apply api version f) Answered (λ _ t. Valid t)
  unfolding apply
  apply-Ensures version f k =
      let R = λ (e : ReconcileError E) (t : State W). Valid t in
      Ensures-bind (λ (c : N × String) t. Valid t) Answered R _ _ (before_attempt-Stays f)
        (λ c. Ensures-bind Begun Answered R _ _ (begin_attempt-Ensures f k) (λ g.
          Ensures-bind Begun Answered R _ _
            (Ensures-with (λ e. versions-Ensures g (api.calculate_versions g.spec) e))
            (λ h. Ensures-with (λ e. install_and_record-Ensures version c h e))))

  apply_if_needed-Ensures :
      (version : String) (f : FabObject V)
      → IsConsistent api f
      → Ensures Valid (apply_if_needed api version f) Answered (λ _ t. Valid t)
  unfolding apply_if_needed
  apply_if_needed-Ensures version f k =
      Ensures-if Answered (λ _ t. Valid t) (needs_apply api version f)
        (λ _. apply-Ensures version f k) (λ _. Ensures-pure f (λ s h. (k, h)))

  check-Stays :
      (f : FabObject V) (nodes : List RoleNode)
      → IsConsistent api f
      → Stays (status_check api f nodes)
  check-Stays f nodes k = status_check-Steady api Versions f nodes (λ now c w.
      updates (checked api now nodes c f) w
        (KeepsRecord-IsConsistent api f _ (checked-KeepsRecord api stored L now nodes c f) k))

  get-Outcome :
      (s : State W) (r : Result E (FabObject V))
      → api.get key s.cluster ≡ r
      → Valid s
      → Outcome Answered
          (λ _ t. Valid t)
          (map_err {F = ReconcileError E} ReconcileError.fetching r, s)
  get-Outcome s (ok f) e h = (h f (M.get_held s.cluster f e), h)
  get-Outcome s (err x) e h = h

  get-Ensures :
      Ensures Valid
        (reads
          (λ s. map_err {F = ReconcileError E} ReconcileError.fetching (api.get key s.cluster)))
        Answered
        (λ _ t. Valid t)
  unfolding reads
  get-Ensures = record { at = λ s h. get-Outcome s (api.get key s.cluster) refl h }

  reconcile_object-Stays : (version : String) → Stays (reconcile_object api version key)
  unfolding reconcile_object
  reconcile_object-Stays version =
      let R = λ (e : ReconcileError E) (t : State W). Valid t in
      let H = λ (u : Unit {0}) (t : State W). Valid t in
      Ensures-bind Answered H R _ _ get-Ensures (λ f. Ensures-with (λ k.
        Stays-bind _ _ (Ensures-lift _) (λ channel. Stays-bind _ _ (Ensures-reads _) (λ nodes.
          Ensures-bind Answered H R _ _
            (apply_if_needed-Ensures version (prepare api channel f)
              (prepare-IsConsistent api channel f k))
            (λ g. Ensures-with (λ k'. check-Stays g nodes k'))))))

  ignored-Outcome :
      (version : String) (b : Bool) (s : State W)
      → Valid s
      → Valid (if b then (ok tt, s) else reconcile_object api version key s).1
  ignored-Outcome version true s h = h
  ignored-Outcome version false s h =
      state-Outcome Valid (reconcile_object api version key s)
        ((reconcile_object-Stays version).at s h)

  pub reconcile-IsConsistent :
      (version : String) (s : State W) → Valid s → Valid (reconcile api version key s).1
  unfolding reconcile
  reconcile-IsConsistent version s h = ignored-Outcome version (is_ignored key) s h

  watch-Stays : Stays (watch api key)
  unfolding watch
  watch-Stays =
      let R = λ (e : ReconcileError E) (t : State W). Valid t in
      let H = λ (u : Unit {0}) (t : State W). Valid t in
      Ensures-bind Answered H R _ _ get-Ensures
        (λ f. Ensures-with (λ k. Stays-bind _ _ (Ensures-reads _) (λ nodes. check-Stays f nodes k)))

  pub watch_once-IsConsistent : (s : State W) → Valid s → Valid (watch_once api key s)
  unfolding watch_once
  watch_once-IsConsistent s h = state-Outcome Valid (watch api key s) (watch-Stays.at s h)

-- ===== src/Controller/Writes.antt =====
-- What the calls of the controller do to the stored object: one rule for each kind of call.
use fabricator.Common.{
  ℕ, String, Option, some, List, ◌≡◌, refl, ◌∙◌, inl, inr, Result, ok, err, map_err,
}
use fabricator.Fab.Ready.{ComponentsStatus, RoleNode}
use fabricator.Controller.{Api, FabObject, State, InstallStep}
use fabricator.Action.{Outcome, Ensures, Anything}
use fabricator.Controller.Install.{calls, enforce_kube_install, enforce_all}
use fabricator.Controller.Check.{checked, status_check}
use fabricator.Controller.Steady.{Steady, enforce-Steady, enforce_all-Steady, status_check-Steady}
use fabricator.Controller.Laws.{ApiLaws, KeepsRecord, SameStatus}

-- The stored object has a property.
abbrev pub Stored :
    {W V : Type 0} → (W → Option (FabObject V)) → (FabObject V → Type 0) → W → Type 0
Stored stored K w = (f : FabObject _) × (stored w ≡ some f) × K f

abbrev pub Holds :
    {W V : Type 0} → (W → Option (FabObject V)) → (FabObject V → Type 0) → State W → Type 0
Holds stored K s = Stored stored K s.cluster

module _ {E W O N V : Type 0} (api : Api E W O N V) {key : String × String}
    (stored : W → Option (FabObject V)) (L : ApiLaws api key stored) where
  answer-Outcome :
      (f : FabObject V) (s : State W) (p : Result E (FabObject V) × W)
      → api.update_status f s.cluster ≡ p
      → {F : Type 0} → (context : E → F)
      → Outcome
          (λ g t. (stored t.cluster ≡ some g) × SameStatus f g)
          (λ _ t. Anything t)
          (map_err context p.0, record s { cluster = p.1 })
  answer-Outcome f s (ok g, w) e context = L.update_ok f g s.cluster w e
  answer-Outcome f s (err x, w) e context = tt

  -- A write of a status that succeeded, whatever was stored.
  pub answer-Ensures :
      {P : State W → Type 0} {F : Type 0} (context : E → F) (f : FabObject V)
      → Ensures P
          (calls context (api.update_status f))
          (λ g t. (stored t.cluster ≡ some g) × SameStatus f g)
          (λ _ t. Anything t)
  unfolding calls
  answer-Ensures context f = record {
    at = λ s h. answer-Outcome f s (api.update_status f s.cluster) refl context;
  }

module _ {E W O N V : Type 0} (api : Api E W O N V) {key : String × String}
    (stored : W → Option (FabObject V)) (L : ApiLaws api key stored)
    (K : FabObject V → Type 0) where
  update-Outcome :
      (f : FabObject V) (s : State W) (p : Result E (FabObject V) × W)
      → api.update_status f s.cluster ≡ p
      → {F : Type 0} → (context : E → F) → ((g : FabObject V) → SameStatus f g → K g)
      → Holds stored K s
      → Outcome
          (λ g t. (stored t.cluster ≡ some g) × SameStatus f g)
          (λ _ t. Holds stored K t)
          (map_err context p.0, record s { cluster = p.1 })
  update-Outcome f s (ok g, w) e context k h = L.update_ok f g s.cluster w e
  update-Outcome f s (err x, w) e context k (f0, stored_f, k0) =
      elim (L.update_err f s.cluster w x e) [
        | inl same ↦ (f0, same ∙ stored_f, k0)
        | inr (g, stored_g, same) ↦ (g, stored_g, k g same)
      ]

  -- A write of a status: the stored object is the answer, or has the property still.
  pub update-Ensures :
      {F : Type 0} (context : E → F) (f : FabObject V)
      → ((g : FabObject V) → SameStatus f g → K g)
      → Ensures
          (Holds stored K)
          (calls context (api.update_status f))
          (λ g t. (stored t.cluster ≡ some g) × SameStatus f g)
          (λ _ t. Holds stored K t)
  unfolding calls
  update-Ensures context f k = record {
    at = λ s h. update-Outcome f s (api.update_status f s.cluster) refl context k h;
  }

  update-Stored :
      (f : FabObject V) (w : W) (p : Result E (FabObject V) × W)
      → api.update_status f w ≡ p
      → ((g : FabObject V) → SameStatus f g → K g)
      → Stored stored K w
      → Stored stored K p.1
  update-Stored f w (ok g, w') e k h = let (e', same) = L.update_ok f g w w' e in (g, e', k g same)
  update-Stored f w (err x, w') e k (f0, stored_f, k0) = elim (L.update_err f w w' x e) [
    | inl same ↦ (f0, same ∙ stored_f, k0)
    | inr (g, stored_g, same) ↦ (g, stored_g, k g same)
  ]

  module _ (stable : (f g : FabObject V) → KeepsRecord api f g → K f → K g) where
    creates :
        (n : ℕ) (o : O) (w : W) → Stored stored K w → Stored stored K (api.create_or_update n o w).1
    creates n o w (f, e, k) = let (g, e', r) = L.create_lem n o w f e in (g, e', stable f g r k)

    deletes :
        (name : String) (w : W) → Stored stored K w → Stored stored K (api.delete_chart name w).1
    deletes name w (f, e, k) = (f, L.delete_lem name w ∙ e, k)

    pub enforce-Ensures :
        (c : N) (password : String) (f : FabObject V) (k : InstallStep)
        → Steady (Stored stored K) (enforce_kube_install api c password f k)
    enforce-Ensures = enforce-Steady api (Stored stored K) creates deletes

    pub enforce_all-Ensures :
        (c : N) (password : String) (f : FabObject V)
        → Steady (Stored stored K) (enforce_all api c password f)
    enforce_all-Ensures = enforce_all-Steady api (Stored stored K) creates deletes

  -- A check writes what the object checked becomes, or nothing.
  pub status_check-Ensures :
      (f : FabObject V) (nodes : List RoleNode)
      → ((now : ℕ) (c : ComponentsStatus) (g : FabObject V)
          → SameStatus (checked api now nodes c f) g
          → K g)
      → Steady (Stored stored K) (status_check api f nodes)
  status_check-Ensures f nodes k =
      status_check-Steady api (Stored stored K) f nodes
        (λ now c w. update-Stored (checked api now nodes c f) w _ refl (k now c))

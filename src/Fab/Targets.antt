-- ===== src/Fab/Targets.antt =====
-- The targets of observability in `Default` of api/fabricator/v1beta1/fabricator_types.go: those of
-- the old configuration are taken over, and every target gets the common labels.
use fabricator.Common.{
  ℕ, String, str_eq, Bool, true, false, ◌||◌, Option, none, some, List, [], ◌∷◌, ◌++◌, map,
  if◌then◌else◌,
}
use fabricator.Fab.Types.{Table, Target, PrometheusTarget, OldTarget}
pub mod Laws

-- `_, ok := m[k]`
abbrev pub has_key {ℓ} : {A : Type ℓ} → String → Table A → Bool
has_key k [] = false
has_key k ((j, x) ∷ m) = str_eq j k || has_key k m

-- A map that may be nil, made where it is.
abbrev pub made {ℓ} : {A : Type ℓ} → Option (Table A) → Table A
made none = []
made (some m) = m

-- The loop that puts what is missing: `if _, ok := m[k]; !ok { m[k] = v }`.
abbrev pub add_missing {ℓ κ} :
    {A : Type ℓ} {B : Type κ} → (A → B) → List (String × A) → Table B → Table B
add_missing f [] m = m
add_missing f ((k, v) ∷ rest) m = add_missing f rest (if has_key k m then m else m ++ (k, f v) ∷ [])

abbrev pub of_old : OldTarget → Target
of_old t = record {
  url = t.url;
  basic_auth = some t.basic_auth;
  bearer_token = t.bearer_token;
  labels = t.labels;
  insecure_skip_verify = t.insecure_skip_verify;
  ca_pem = t.ca_pem;
  cert_pem = t.cert_pem;
}

abbrev pub prometheus_of_old : OldTarget → PrometheusTarget
prometheus_of_old t = record { target = of_old t; send_interval_seconds = t.send_interval_seconds }

-- The labels that a target has stay as they are.
unfoldable pub label_target : Table String → Target → Target
label_target labels t = record t { labels = some (add_missing (λ v. v) labels (made t.labels)) }

abbrev pub on_value {ℓ} : {A : Type ℓ} → (A → A) → Table A → Table A
on_value f [] = []
on_value f ((k, x) ∷ m) = (k, f x) ∷ on_value f m

unfoldable pub default_prometheus :
    Table String
    → Table OldTarget
    → Option (Table PrometheusTarget)
    → Option (Table PrometheusTarget)
unfolding label_target
default_prometheus labels old m = some (
    on_value (λ t. record t { target = label_target labels t.target })
      (add_missing prometheus_of_old old (made m)))

unfoldable pub default_loki :
    Table String → Table OldTarget → Option (Table Target) → Option (Table Target)
unfolding label_target
default_loki labels old m = some (on_value (label_target labels) (add_missing of_old old (made m)))

unfoldable pub default_pyroscope : Table String → Option (Table Target) → Option (Table Target)
unfolding label_target
default_pyroscope labels m = some (on_value (label_target labels) (made m))

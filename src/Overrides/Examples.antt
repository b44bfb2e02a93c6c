-- ===== src/Overrides/Examples.antt =====
-- Overrides of one session, and the theorems at them.
use adaptive_model_router.Common.{List, Option, String, [], none, refl, some, true, ℕ, ◌∷◌, ◌≡◌}
use adaptive_model_router.Gate.{Context}
use adaptive_model_router.ModelSlug.{
  has_dot_segment, is_model_slug, is_secret, is_slug, is_uri_path, is_windows_absolute,
  normalize_model,
}
use adaptive_model_router.Overrides.{
  GlobalKeys, LockMode, OverrideRow, Resolved, Scope, Wish, Written, normalized_model,
  resolve_override, set_override,
}
use adaptive_model_router.Overrides.Precedence.{set-resolve}
use adaptive_model_router.Policy.{AllowedModel}
use adaptive_model_router.Vocabulary.{Effort}

abbrev keys_of_all : GlobalKeys
keys_of_all = record { project_id = "*"; context_key = "*" }

abbrev session_here : Context
session_here = record { project_id = "project"; context_key = "task" }

abbrev allowed_models : List AllowedModel
allowed_models = record { model = "gpt-6-sol"; efforts = Effort.high ∷ [] } ∷ []

abbrev lock_sol : Wish
lock_sol = record { mode = LockMode.locked; model = some "gpt-6-sol"; effort = some Effort.high }

-- The same as it may be typed.
abbrev spaced_sol : Wish
spaced_sol = record lock_sol { model = some " gpt-6-sol " }

abbrev project_row : OverrideRow
project_row = record {
  id = 1;
  scope = Scope.project;
  project_id = "project";
  context_key = "*";
  wish = record { mode = LockMode.disabled; model = none; effort = none };
}

abbrev once_row : OverrideRow
once_row = record {
  id = 2;
  scope = Scope.once;
  project_id = "project";
  context_key = "task";
  wish = lock_sol;
}

stores :
    set_override keys_of_all allowed_models 2 session_here Scope.once spaced_sol (project_row ∷ [])
    ≡ Written.stores (project_row ∷ once_row ∷ [])
unfolding set_override normalize_model is_model_slug is_slug is_secret is_windows_absolute
    is_uri_path has_dot_segment
stores = refl

-- A lock on a model that the policy does not allow is refused.
refuses :
    set_override keys_of_all allowed_models 2 session_here Scope.once
      (record lock_sol { model = some "other" })
      []
    ≡ Written.scope_denied
unfolding set_override normalize_model is_model_slug is_slug is_secret is_windows_absolute
    is_uri_path has_dot_segment
refuses = refl

-- A path is no model.
rejects :
    set_override keys_of_all allowed_models 2 session_here Scope.once
      (record lock_sol { model = some "../gpt" })
      []
    ≡ Written.invalid_format
unfolding set_override normalize_model is_model_slug is_slug is_secret is_windows_absolute
    is_uri_path has_dot_segment
rejects = refl

set-resolve_example :
    (model : Option String) × (used : ℕ) × (normalized_model (some " gpt-6-sol ") ≡ some model)
    × (resolve_override keys_of_all session_here none true (project_row ∷ once_row ∷ [])
        ≡ Resolved.stored Scope.once (record spaced_sol { model = model }) (some used))
set-resolve_example =
    set-resolve keys_of_all allowed_models 2 session_here spaced_sol true (project_row ∷ [])
      (project_row ∷ once_row ∷ []) stores

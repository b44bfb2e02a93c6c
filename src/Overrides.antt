-- ===== src/Overrides.antt =====
-- The stored overrides of a target: `overrideKeys`, `setOverride`, `clearOverrides` and
-- `resolveOverride` of scripts/lib/database.mjs. The table has one row for each scope, project and
-- context; a new row's identifier is an argument, and times are left out.
mod Precedence
mod Examples
use adaptive_model_router.Common.{
  Bool, List, Option, String, [], any, bool_eq, false, filter, find?, if◌then◌else◌, includes,
  nat_beq, nat_eq, none, not, some, string_eq, text_beq_eq, text_eq, true, ℕ, ◌&&◌, ◌++◌, ◌==◌, ◌∷◌,
}
use adaptive_model_router.Gate.{Context, update}
use adaptive_model_router.ModelSlug.{normalize_model}
use adaptive_model_router.Policy.{AllowedModel}
use adaptive_model_router.Policy.Resolve.{Override}
use adaptive_model_router.Vocabulary.{
  Effort, category_eq, effort_eq, failure_eq, gate_eq, level_eq, signal_eq,
}

pub data Scope : Type 0 where
  once session project global : Scope

abbrev pub scope_index : Scope → ℕ
scope_index Scope.once = 0
scope_index Scope.session = 1
scope_index Scope.project = 2
scope_index Scope.global = 3

pub data LockMode : Type 0 where
  locked disabled : LockMode

-- What an override says; a model or an effort may be left open.
pub record Wish : Type 0 where
  pub mode : LockMode
  pub model : Option String
  pub effort : Option Effort

-- A row of the table overrides.
pub record OverrideRow : Type 0 where
  pub id : ℕ
  pub scope : Scope
  pub project_id : String
  pub context_key : String
  pub wish : Wish

-- GLOBAL_PROJECT and GLOBAL_CONTEXT.
pub record GlobalKeys : Type 0 where
  pub project_id : String
  pub context_key : String

abbrev pub is_locked : LockMode → Bool
is_locked LockMode.locked = true
is_locked LockMode.disabled = false

-- `normalizedModel`; the inner `none` is a model left open, the outer one an invalid format.
unfoldable pub normalized_model : Option String → Option (Option String)
normalized_model none = some none
normalized_model (some m) = elim (normalize_model m) [ none ↦ none | some n ↦ some (some n) ]

abbrev names_model : Option String → String → Bool
names_model none model = true
names_model (some m) model = model == m

abbrev names_effort : Option Effort → List Effort → Bool
names_effort none efforts = true
names_effort (some e) efforts = includes efforts e

-- A lock is within the models and efforts that the policy allows.
unfoldable pub lock_allowed : List AllowedModel → Wish → Bool
lock_allowed allowed w =
    any (λ a. names_model w.model a.model && names_effort w.effort a.efforts) allowed

-- A request names a model or an effort. Of a row: the scope, the override, and the identifier of a row that is used once.
pub data Resolved : Type 0 where
  requested : Override → Resolved
  stored : Scope → Wish → Option ℕ → Resolved
  nothing : Resolved

-- `resolved.override?.mode === "disabled"`; the override of a request has no mode.
abbrev pub is_disabled : Resolved → Bool
is_disabled (Resolved.stored scope w id) = not (is_locked w.mode)
is_disabled _ = false

-- `scope === "once" ? row.id : null`.
abbrev pub once_id : Scope → ℕ → Option ℕ
once_id Scope.once id = some id
once_id Scope.session id = none
once_id Scope.project id = none
once_id Scope.global id = none

-- The rows of `setOverride`, or its error: "model has an invalid format" or MODEL_SCOPE_DENIED.
pub data Written : Type 0 where
  stores : List OverrideRow → Written
  invalid_format scope_denied : Written

module _ (g : GlobalKeys) where
  unfoldable pub override_keys : Context → Scope → Context
  override_keys c Scope.global = record { project_id = g.project_id; context_key = g.context_key }
  override_keys c Scope.project = record { project_id = c.project_id; context_key = g.context_key }
  override_keys c Scope.once = c
  override_keys c Scope.session = c

  -- `WHERE scope = ? AND project_id = ? AND context_key = ?`.
  abbrev pub keyed : Scope → Context → OverrideRow → Bool
  keyed scope keys r =
      nat_beq (scope_index r.scope) (scope_index scope)
      && (r.project_id == keys.project_id && r.context_key == keys.context_key)

  -- The transaction, on a wish whose model is normalised.
  unfoldable pub write_override :
      List AllowedModel → ℕ → Context → Scope → Wish → List OverrideRow → Written
  unfolding override_keys lock_allowed
  write_override allowed id c scope w rows =
      let keys = override_keys c scope in
      if is_locked w.mode && not (lock_allowed allowed w)
      then Written.scope_denied
      else if any (keyed scope keys) rows
      then Written.stores (update (keyed scope keys) (λ r. record r { wish = w }) rows)
      else Written.stores (
          rows
          ++ record {
            id = id;
            scope = scope;
            project_id = keys.project_id;
            context_key = keys.context_key;
            wish = w;
          }
            ∷ [])

  unfoldable pub set_override :
      List AllowedModel → ℕ → Context → Scope → Wish → List OverrideRow → Written
  unfolding write_override normalized_model
  set_override allowed id c scope w rows = elim (normalized_model w.model) [
    | none ↦ Written.invalid_format
    | some model ↦ write_override allowed id c scope (record w { model = model }) rows
  ]

  abbrev pub clear_scopes : Context → List Scope → List OverrideRow → List OverrideRow
  clear_scopes c [] rows = rows
  clear_scopes c (scope ∷ scopes) rows =
      clear_scopes c scopes (filter (λ r. not (keyed scope (override_keys c scope) r)) rows)

  -- `none` stands for all scopes.
  unfoldable pub clear_overrides : Context → Option Scope → List OverrideRow → List OverrideRow
  clear_overrides c none rows =
      clear_scopes c (Scope.once ∷ Scope.session ∷ Scope.project ∷ Scope.global ∷ []) rows
  clear_overrides c (some scope) rows = clear_scopes c (scope ∷ []) rows

  -- The loop over the scopes.
  unfoldable pub first_override : Context → List Scope → List OverrideRow → Resolved
  first_override c [] rows = Resolved.nothing
  first_override c (scope ∷ scopes) rows =
      let rest = first_override c scopes rows in
      elim (find? (keyed scope (override_keys c scope)) rows) [
        | none ↦ rest
        | some r ↦ Resolved.stored scope r.wish (once_id scope r.id)
      ]

  unfoldable pub resolve_override : Context → Option Override → Bool → List OverrideRow → Resolved
  unfolding first_override
  resolve_override c (some w) allow_global rows = Resolved.requested w
  resolve_override c none allow_global rows =
      first_override c
        (Scope.once
          ∷ Scope.session
          ∷ Scope.project
          ∷ (if allow_global then Scope.global ∷ [] else []))
        rows

-- ===== src/Router/Input.antt =====
-- `validateRouteInput` of scripts/lib/router.mjs on a request that fits ROUTE_INPUT_SCHEMA.
use adaptive_model_router.Common.{
  Bool, List, Option, Text, [], all, bool_eq, false, if◌then◌else◌, includes, inl, inr,
  is_duplicate_free, is_some, map, nat_eq, none, not, some, string_eq, text_eq, true, ◌&&◌, ◌==◌,
  ◌||◌, ◌∷◌, ◌⊎◌,
}
use adaptive_model_router.ModelSlug.{normalize_model_slug}
use adaptive_model_router.Policy.Resolve.{available, is_empty}
use adaptive_model_router.Task.{Evidence}
use adaptive_model_router.Vocabulary.{
  Effort, category_eq, effort_eq, failure_eq, gate_eq, level_eq, signal_eq,
}

-- `hostCapabilities.delegation`.
pub record Delegable : Type 0 where
  pub model : Text
  pub efforts : List Effort

pub record Delegation : Type 0 where
  pub is_available : Bool
  pub targets : List Delegable

pub record InputOverride : Type 0 where
  pub model : Option Text
  pub effort : Option Effort

-- What the validation reads of a request.
pub record Input : Type 0 where
  pub override : Option InputOverride
  pub names_previous : Bool
  pub evidence : Evidence
  pub delegation : Option Delegation

pub data InputFault : Type 0 where
  empty_override invalid_override_model : InputFault
  predecessor_required failure_type_required : InputFault
  availability_conflict targets_without_delegation : InputFault
  invalid_target_model duplicate_targets : InputFault

-- The override with a normalised model.
unfoldable pub check_override : Option InputOverride → InputFault ⊎ Option InputOverride
check_override none = inr none
check_override (some o) = elim o.model [
  | none ↦ if is_some o.effort then inr (some o) else inl InputFault.empty_override
  | some model ↦ elim (normalize_model_slug model) [
    | none ↦ inl InputFault.invalid_override_model
    | some normalized ↦ inr (some (record o { model = some normalized }))
  ]
]

unfoldable pub check_failure : Bool → Evidence → Option InputFault
check_failure names_previous e =
    if not e.verification_failed
    then none
    else if not names_previous
    then some InputFault.predecessor_required
    else if not (is_some e.failure_type)
    then some InputFault.failure_type_required
    else none

abbrev pub is_exact_model : Text → Bool
is_exact_model model = elim (normalize_model_slug model) [ none ↦ false | some m ↦ m == model ]

-- The loop over the targets, with the models seen.
unfoldable pub check_targets : List Text → List Delegable → Option InputFault
check_targets seen [] = none
check_targets seen (t ∷ ts) =
    let rest = check_targets (t.model ∷ seen) ts in
    if not (is_exact_model t.model)
    then some InputFault.invalid_target_model
    else if includes seen t.model || not (is_duplicate_free t.efforts)
    then some InputFault.duplicate_targets
    else rest

abbrev pub contradicts : Option Bool → Bool → Bool
contradicts none available = false
contradicts (some claimed) available = not (claimed == available)

unfoldable pub check_delegation : Evidence → Option Delegation → Option InputFault
unfolding check_targets
check_delegation e none = none
check_delegation e (some d) =
    if contradicts e.host_can_delegate d.is_available
    then some InputFault.availability_conflict
    else if not d.is_available && not (is_empty d.targets)
    then some InputFault.targets_without_delegation
    else check_targets [] d.targets

unfoldable pub validate_route_input : Input → InputFault ⊎ Input
unfolding check_override check_failure check_delegation
validate_route_input i = elim (check_override i.override) [
  | inl fault ↦ inl fault
  | inr override ↦ elim (check_failure i.names_previous i.evidence) [
    | some fault ↦ inl fault
    | none ↦ elim (check_delegation i.evidence i.delegation) [
      | some fault ↦ inl fault
      | none ↦ inr (record i { override = override })
    ]
  ]
]

-- What a request has to be, without the order of the tests.
abbrev pub is_good_override : Option InputOverride → Bool
is_good_override none = true
is_good_override (some o) = elim o.model [
  | none ↦ is_some o.effort
  | some model ↦ is_some (normalize_model_slug model)
]

abbrev pub is_good_target : Delegable → Bool
is_good_target t = is_exact_model t.model && is_duplicate_free t.efforts

abbrev pub models_of_targets : List Delegable → List Text
models_of_targets ts = map (λ (t : Delegable). t.model) ts

abbrev pub is_good_delegation : Evidence → Option Delegation → Bool
is_good_delegation e none = true
is_good_delegation e (some d) =
    not (contradicts e.host_can_delegate d.is_available)
    && ((d.is_available || is_empty d.targets)
        && (all is_good_target d.targets && is_duplicate_free (models_of_targets d.targets)))

abbrev pub is_acceptable : Input → Bool
is_acceptable i =
    is_good_override i.override
    && ((not i.evidence.verification_failed
          || (i.names_previous && is_some i.evidence.failure_type))
        && is_good_delegation i.evidence i.delegation)

abbrev pub is_returned {ℓ κ} : {A : Type ℓ} → {B : Type κ} → A ⊎ B → Bool
is_returned (inl a) = false
is_returned (inr b) = true

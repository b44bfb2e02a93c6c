-- ===== src/Router.antt =====
-- The routing of one stage, scripts/lib/router.mjs: the rows of `routes` and `outcomes` that it reads,
-- and the predecessor of a retry. The validation of a request is in Router.Input, the plan of a retry in
-- Router.Plan, the choice of a target in Router.Choose, the transaction `commitRoute` of scripts/lib/database.mjs in
-- Router.Commit.
pub mod Input
pub mod Acceptance
pub mod Plan
pub mod Choose
pub mod Commit
pub mod Retries
pub mod Targets
pub mod Levels
pub mod Answers
pub mod Walk
pub mod Stages
pub mod Opened
pub mod Counts
pub mod Disabled
pub mod Request
pub mod Routed
pub mod Sample
mod Examples
use adaptive_model_router.Common.{
  Bool, List, Option, String, [], bool_eq, false, find?, if◌then◌else◌, inl, inr, nat_eq, none, not,
  opt_beq, some, string_eq, text_beq_eq, text_eq, true, ℕ, ◌&&◌, ◌==◌, ◌||◌, ◌∷◌, ◌⊎◌,
}
use adaptive_model_router.Gate.{Context}
use adaptive_model_router.Policy.{Target}
use adaptive_model_router.Task.{Evidence}
use adaptive_model_router.Vocabulary.{
  FailureType, WorkLevel, category_eq, effort_eq, failure_eq, gate_eq, level_eq, signal_eq,
}

pub data Action : Type 0 where
  delegate continue ask_user : Action

abbrev pub is_delegate : Action → Bool
is_delegate Action.delegate = true
is_delegate _ = false

abbrev pub is_continue : Action → Bool
is_continue Action.continue = true
is_continue _ = false

-- `decision_json`. A work level that is no level's name is left out.
pub record Decision : Type 0 where
  pub policy_digest : String
  pub work_level : Option WorkLevel

-- A row of the table routes.
pub record Route : Type 0 where
  pub route_id : String
  pub project_id : String
  pub context_key : String
  pub action : Action
  pub target : Option Target
  pub stage_key : Option String
  pub escalation_count : ℕ
  pub previous_route_id : Option String
  pub decision : Option Decision

pub data Status : Type 0 where
  passed failed unknown : Status

abbrev pub is_passed : Status → Bool
is_passed Status.passed = true
is_passed _ = false

abbrev pub is_failed : Status → Bool
is_failed Status.failed = true
is_failed _ = false

-- A row of the table outcomes.
pub record Outcome : Type 0 where
  pub route_id : String
  pub status : Status
  pub failure_type : Option FailureType

-- The errors of a retry.
pub data RetryFault : Type 0 where
  predecessor_invalid stage_mismatch outcome_required : RetryFault

abbrev pub owned : Context → Route → Bool
owned c r = r.project_id == c.project_id && r.context_key == c.context_key

abbrev pub find_route : Context → String → List Route → Option Route
find_route c id rs = find? (λ r. r.route_id == id && owned c r) rs

abbrev pub outcome_of : String → List Outcome → Option Outcome
outcome_of id os = find? (λ o. o.route_id == id) os

abbrev pub last_match {ℓ} : {A : Type ℓ} → (A → Bool) → List A → Option A
last_match p [] = none
last_match p (x ∷ xs) = elim (last_match p xs) [
  | some y ↦ some y
  | none ↦ if p x then some x else none
]

-- The latest delegated attempt of the stage: `ORDER BY r.rowid DESC LIMIT 1`.
abbrev pub latest_of_stage : Context → String → List Route → Option Route
latest_of_stage c stage rs =
    last_match (λ r. owned c r && (opt_beq r.stage_key (some stage) && is_delegate r.action)) rs

abbrev pub status_passed : Option Outcome → Bool
status_passed none = false
status_passed (some o) = is_passed o.status

-- What `previousRouteId` names: none if it is absent.
unfoldable pub find_previous :
    Context → Option String → Bool → List Route → RetryFault ⊎ Option Route
find_previous c none verification_failed rs = inr none
find_previous c (some id) verification_failed rs = elim (find_route c id rs) [
  | none ↦ inl RetryFault.predecessor_invalid
  | some r ↦
      if is_delegate r.action || (is_continue r.action && verification_failed)
      then inr (some r)
      else inl RetryFault.predecessor_invalid
]

-- The stage of the request: that of the predecessor, if it has one.
unfoldable pub stage_of : Option Route → Bool → String → RetryFault ⊎ String
stage_of none names_stage key = inr key
stage_of (some r) names_stage key = elim r.stage_key [
  | none ↦ inr key
  | some stage ↦
      if names_stage && not (stage == key) then inl RetryFault.stage_mismatch else inr stage
]

-- The predecessor against the latest attempt of the stage, and the evidence with the failure of an
-- attempt that the request does not name.
unfoldable pub link_previous :
    Option Route → Option Route → List Outcome → Evidence → RetryFault ⊎ (Option Route × Evidence)
link_previous none none os e = inr (none, e)
link_previous none (some prior) os e =
    let final = outcome_of prior.route_id os in
    if status_passed final
    then inr (none, e)
    else inr (
      some prior,
      elim final [
        | none ↦ e
        | some o ↦
            if is_failed o.status
            then record e { verification_failed = true; failure_type = o.failure_type }
            else e
      ],
    )
link_previous (some previous) none os e = inr (some previous, e)
link_previous (some previous) (some prior) os e =
    if not (previous.route_id == prior.route_id)
      && (is_delegate previous.action || not (status_passed (outcome_of prior.route_id os)))
    then inl RetryFault.predecessor_invalid
    else inr (some previous, e)

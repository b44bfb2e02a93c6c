-- ===== src/Router/Plan.antt =====
-- The plan of a retry in `routeWithStore` of scripts/lib/router.mjs: what the predecessor of a request
-- and its outcome make of the demand.
use adaptive_model_router.Common.{
  Bool, List, Option, bool_eq, false, if◌then◌else◌, leb, nat_eq, none, not, or_else, some,
  string_eq, text_eq, true, ℕ, ◌&&◌, ◌+◌, ◌==◌,
}
use adaptive_model_router.Policy.{Definition, Policy, Target, level_for_target}
use adaptive_model_router.Policy.Decide.{DecisionRule, Demand}
use adaptive_model_router.Policy.Escalate.{next_work_level}
use adaptive_model_router.Router.{
  Outcome, RetryFault, Route, is_delegate, is_failed, outcome_of, status_passed,
}
use adaptive_model_router.Task.{Evidence}
use adaptive_model_router.Vocabulary.{
  FailureType, WorkLevel, category_eq, effort_eq, failure_eq, gate_eq, level_eq, signal_eq,
}

pub data EscalationState : Type 0 where
  fresh increased held exhausted unavailable : EscalationState

abbrev pub is_increased : EscalationState → Bool
is_increased EscalationState.increased = true
is_increased _ = false

pub data Failure : Type 0 where
  stage_policy_changed limit_reached monotonic_unavailable : Failure

-- What the retry asks of the choice of a target. The level is absent where the code has null.
pub record Retry : Type 0 where
  pub demand : Demand
  pub level : Option WorkLevel
  pub state : EscalationState
  pub count : ℕ
  pub previous_target : Option Target
  pub held_target : Option Target

pub data Planned : Type 0 where
  refused : RetryFault → Planned
  stopped : Failure → EscalationState → ℕ → Planned
  goes : Retry → Planned

abbrev pub first_try : Demand → Retry
first_try demand = record {
  demand = demand;
  level = some demand.work_level;
  state = EscalationState.fresh;
  count = 0;
  previous_target = none;
  held_target = none;
}

abbrev pub with_level : Demand → Option WorkLevel → DecisionRule → Demand
with_level demand none rule = record demand { rule = rule }
with_level demand (some level) rule = record demand { work_level = level; rule = rule }

abbrev pub same_failure : Option FailureType → Option FailureType → Bool
same_failure none none = true
same_failure none (some g) = false
same_failure (some f) none = false
same_failure (some f) (some g) = f == g

-- `outcome?.status !== "failed" || outcome.failure_type !== evidence.failureType` does not hold.
abbrev pub matches_failure : Option Outcome → Evidence → Bool
matches_failure none e = false
matches_failure (some o) e = is_failed o.status && same_failure o.failure_type e.failure_type

abbrev pub is_reasoning : Option FailureType → Bool
is_reasoning none = false
is_reasoning (some f) = f == FailureType.reasoning

abbrev pub hold : Demand → Option WorkLevel → DecisionRule → ℕ → Target → Retry
hold demand level rule count target = record {
  demand = with_level demand level rule;
  level = level;
  state = EscalationState.held;
  count = count;
  previous_target = some target;
  held_target = some target;
}

-- An explicit choice of the user neither replenishes nor consumes the budget of the stage.
abbrev pub hold_for_user : Demand → ℕ → Retry
hold_for_user demand count = record (first_try demand) {
  state = EscalationState.held;
  count = count;
}

-- `levelForTarget(...) ? nextWorkLevel(...) : null`.
abbrev pub next_from : Definition → Option WorkLevel → Option WorkLevel → Option WorkLevel
next_from d level none = none
next_from d none (some own) = none
next_from d (some l) (some own) = next_work_level d l

unfoldable pub escalate : Definition → Demand → Option WorkLevel → ℕ → Target → Planned
escalate d demand level count target =
    let next = next_from d level (level_for_target d target) in
    if leb d.escalation_limit count
    then Planned.stopped Failure.limit_reached EscalationState.exhausted count
    else elim next [
      | none ↦ Planned.stopped Failure.monotonic_unavailable EscalationState.unavailable count
      | some up ↦ Planned.goes (record {
        demand = with_level demand (some up) DecisionRule.reasoning_escalation;
        level = some up;
        state = EscalationState.increased;
        count = count + 1;
        previous_target = some target;
        held_target = none;
      })
    ]

abbrev pub prior_level : Definition → Route → Target → Option WorkLevel
prior_level d previous target = elim previous.decision [
  | none ↦ level_for_target d target
  | some own ↦ or_else own.work_level (level_for_target d target)
]

abbrev pub same_policy : Policy → Route → Bool
same_policy p previous = elim previous.decision [
  | none ↦ false
  | some own ↦ own.policy_digest == p.digest
]

unfoldable pub plan_delegated :
    Policy → Route → Target → Option Outcome → Evidence → Bool → Demand → Planned
unfolding escalate
plan_delegated p previous target outcome e by_request demand =
    let level = prior_level p.definition previous target in
    let count = previous.escalation_count in
    if not (same_policy p previous)
    then Planned.stopped Failure.stage_policy_changed EscalationState.unavailable count
    else if e.verification_failed
    then (if not (matches_failure outcome e)
        then Planned.refused RetryFault.outcome_required
        else if by_request
        then Planned.goes (hold_for_user demand count)
        else if is_reasoning e.failure_type
        then escalate p.definition demand level count target
        else Planned.goes (hold demand level DecisionRule.non_reasoning_failure count target))
    else if status_passed outcome
    then Planned.goes (first_try demand)
    else if by_request
    then Planned.goes (hold_for_user demand count)
    else Planned.goes (hold demand level DecisionRule.model_stage_held count target)

-- A delegated route has a target; a continued one leaves the request as it is.
unfoldable pub plan_retry :
    Policy → Option Route → List Outcome → Evidence → Bool → Demand → Planned
unfolding plan_delegated
plan_retry p none os e by_request demand = Planned.goes (first_try demand)
plan_retry p (some previous) os e by_request demand = elim previous.target [
  | none ↦ Planned.goes (first_try demand)
  | some target ↦
      if is_delegate previous.action
      then plan_delegated p previous target (outcome_of previous.route_id os) e by_request demand
      else Planned.goes (first_try demand)
]

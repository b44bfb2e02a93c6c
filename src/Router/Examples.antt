-- ===== src/Router/Examples.antt =====
-- A failed stage that is routed again, and the theorems at it.
use adaptive_model_router.Overrides
use adaptive_model_router.Common.{
  Text, [], arith, false, inl, is_some, none, refl, some, true, ◌++◌, ◌∷◌, ◌≡◌,
}
use adaptive_model_router.Gate.Admission.{
  insert_delegation_attempt, inspect_free_disk, inspect_router_child_budget, new_attempt,
  unresolved_attempt,
}
use adaptive_model_router.ModelSlug.{
  has_dot_segment, is_secret, is_slug, is_uri_path, is_windows_absolute, normalize_model_slug,
}
use adaptive_model_router.Policy.{
  compare_operands, level_for_target, minimum_effort_for_level, target_allowed,
}
use adaptive_model_router.Policy.Compile.{
  check_binding, check_conditions, check_models, check_pair, check_pairs, check_version,
  compile_model_policy, fits_schema,
}
use adaptive_model_router.Policy.Decide.{DecisionRule, Demand, decide_work_level}
use adaptive_model_router.Policy.Escalate.{next_work_level}
use adaptive_model_router.Policy.Resolve.{
  available, delegate_request, resolve_model_target, satisfies_gate,
}
use adaptive_model_router.Policy.Scope.{meets_minimum, passes_previous}
use adaptive_model_router.Policy.Shipped.{any_slug, digest_of_id, economy, economy_policy}
use adaptive_model_router.Router.{Action, Route, find_previous, link_previous, stage_of}
use adaptive_model_router.Router.Acceptance.{validate_route_input-is_acceptable}
use adaptive_model_router.Router.Choose.{Choice, Code, choose, request_of, select, settle}
use adaptive_model_router.Router.Commit.{
  Store, commit_delegate, commit_plain, insert_route, inspect_limits, use_once,
}
use adaptive_model_router.Router.Counts.{
  AreWithin, IsClaimed, route_stage-AreWithin, route_stage-IsOpened,
}
use adaptive_model_router.Router.Input.{
  Input, InputFault, check_delegation, check_failure, check_override, check_targets, is_acceptable,
  is_returned, validate_route_input,
}
use adaptive_model_router.Router.Levels.{choose-level_named}
use adaptive_model_router.Router.Plan.{
  EscalationState, Planned, Retry, hold, plan_retry, with_level,
}
use adaptive_model_router.Router.Request.{Answer, level_named, plain_route}
use adaptive_model_router.Router.Retries.{IsEarned, plan_retry-IsEarned}
use adaptive_model_router.Router.Routed.{route_stage}
use adaptive_model_router.Router.Sample.{
  again, alone, astra_high, escalated, failed_once, first_outcome, first_route, is_reasoned,
  no_crypto, no_keys, scored_high, second_route, sol_high, three_models,
}
use adaptive_model_router.Router.Targets.{choose-allowed, choose-passes_previous, choose_held}
use adaptive_model_router.Vocabulary.{Effort, WorkLevel}

routes_again :
    route_stage no_crypto none no_keys again alone failed_once
    ≡ Answer.routed escalated second_route
unfolding route_stage commit_plain commit_delegate insert_route use_once inspect_limits
    inspect_free_disk inspect_router_child_budget insert_delegation_attempt new_attempt plan_retry
    choose select settle find_previous stage_of link_previous resolve_model_target satisfies_gate
    available compare_operands level_for_target target_allowed decide_work_level next_work_level
    unresolved_attempt delegate_request Overrides.resolve_override
routes_again = refl

abbrev asked : Demand
asked = decide_work_level scored_high is_reasoned economy

abbrev increased_retry : Retry
increased_retry = record {
  demand = with_level asked (some WorkLevel.max) DecisionRule.reasoning_escalation;
  level = some WorkLevel.max;
  state = EscalationState.increased;
  count = 1;
  previous_target = some sol_high;
  held_target = none;
}

plans_again :
    plan_retry economy_policy (some first_route) (first_outcome ∷ []) is_reasoned false asked
    ≡ Planned.goes increased_retry
unfolding plan_retry next_work_level level_for_target compare_operands decide_work_level
plans_again = refl

plan_retry-IsEarned_example :
    IsEarned economy_policy (some first_route) (first_outcome ∷ []) is_reasoned increased_retry
plan_retry-IsEarned_example =
    plan_retry-IsEarned economy_policy (some first_route) (first_outcome ∷ []) is_reasoned false
      asked increased_retry plans_again refl

is_accepted : compile_model_policy any_slug digest_of_id economy ≡ inl economy_policy
unfolding compile_model_policy fits_schema check_version check_models check_conditions check_binding
    check_pair check_pairs compare_operands target_allowed level_for_target minimum_effort_for_level
is_accepted = refl

chooses_again :
    choose economy three_models false Overrides.Resolved.nothing 0 increased_retry
    ≡ Choice.delegates astra_high (inl WorkLevel.max) increased_retry
unfolding choose select settle resolve_model_target satisfies_gate available compare_operands
    level_for_target target_allowed decide_work_level delegate_request
chooses_again = refl

-- A disabled override finishes the claim, and the request.
abbrev switched_off : Overrides.Wish
switched_off = record { mode = Overrides.LockMode.disabled; model = none; effort = none }

finishes_off :
    choose economy three_models false
      (Overrides.Resolved.stored Overrides.Scope.session switched_off none)
      0
      increased_retry
    ≡ Choice.finishes Action.continue Code.router_disabled increased_retry.state
        increased_retry.count
unfolding choose
finishes_off = refl

abbrev switched_store : Store
switched_store = record failed_once {
  overrides =
      record {
        id = 1;
        scope = Overrides.Scope.session;
        project_id = "project";
        context_key = "task";
        wish = switched_off;
      }
      ∷ [];
}

abbrev direct_route : Route
direct_route = plain_route again Action.continue none 0

abbrev switched_after : Store
switched_after = record switched_store { routes = first_route ∷ direct_route ∷ [] }

choose-allowed_example :
    (available three_models astra_high ≡ true)
    × (target_allowed economy astra_high ≡ true)
    × (meets_minimum economy (request_of none increased_retry) astra_high ≡ true)
choose-allowed_example =
    choose-allowed any_slug digest_of_id economy {p = economy_policy} is_accepted three_models false
      Overrides.Resolved.nothing 0 increased_retry increased_retry astra_high (inl WorkLevel.max)
      chooses_again

choose-passes_previous_example : passes_previous economy sol_high astra_high ≡ true
choose-passes_previous_example =
    choose-passes_previous any_slug digest_of_id economy {p = economy_policy} is_accepted
      three_models false Overrides.Resolved.nothing 0 increased_retry increased_retry astra_high
      (inl WorkLevel.max) chooses_again sol_high refl refl

abbrev held_retry : Retry
held_retry = hold asked (some WorkLevel.high) DecisionRule.non_reasoning_failure 0 sol_high

holds_again :
    choose economy three_models false Overrides.Resolved.nothing 0 held_retry
    ≡ Choice.delegates sol_high (inl WorkLevel.high) held_retry
unfolding choose select settle resolve_model_target satisfies_gate available compare_operands
    level_for_target target_allowed decide_work_level delegate_request
holds_again = refl

choose_held_example : sol_high ≡ sol_high
choose_held_example =
    choose_held economy three_models false Overrides.Resolved.nothing 0 held_retry held_retry
      sol_high sol_high (inl WorkLevel.high) refl refl holds_again

route_stage-AreWithin_example : AreWithin no_crypto none no_keys again 2 escalated
route_stage-AreWithin_example =
    route_stage-AreWithin no_crypto none no_keys again 2 alone failed_once escalated second_route
      (omega arith, tt) (omega arith)
      (record { planning = λ s i. i; first = λ s i. i; second = λ s i. i }) routes_again

route_stage-IsOpened_example :
    IsClaimed no_crypto none no_keys again alone failed_once escalated second_route
route_stage-IsOpened_example =
    route_stage-IsOpened no_crypto none no_keys again alone failed_once escalated second_route
      routes_again refl

-- "sol", " sol " and a request that repeats a model.
abbrev sol : Text
sol = b's' ∷ b'o' ∷ b'l' ∷ []

abbrev twice : Input
twice = record {
  override = some (record { model = some (32 ∷ sol ++ 32 ∷ []); effort = none });
  names_previous = true;
  evidence = is_reasoned;
  delegation = some (record {
    is_available = true;
    targets =
        record { model = sol; efforts = Effort.high ∷ [] }
        ∷ record { model = sol; efforts = Effort.low ∷ [] }
        ∷ [];
  });
}

repeats : validate_route_input twice ≡ inl InputFault.duplicate_targets
unfolding validate_route_input check_override check_failure check_delegation check_targets
    normalize_model_slug is_slug is_secret is_windows_absolute is_uri_path has_dot_segment
repeats = refl

abbrev of_dots : Text
of_dots = b'a' ∷ b'/' ∷ b'.' ∷ b'.' ∷ []

refuses_dots : normalize_model_slug of_dots ≡ none
unfolding normalize_model_slug is_slug is_secret is_windows_absolute is_uri_path has_dot_segment
refuses_dots = refl

validate_route_input-is_acceptable_example :
    is_returned (validate_route_input twice) ≡ is_acceptable twice
validate_route_input-is_acceptable_example = validate_route_input-is_acceptable twice

choose-level_named_example : is_some (level_named (inl WorkLevel.max)) ≡ true
choose-level_named_example =
    choose-level_named any_slug digest_of_id economy {p = economy_policy} is_accepted three_models
      false Overrides.Resolved.nothing 0 increased_retry increased_retry astra_high
      (inl WorkLevel.max) chooses_again

-- ===== src/Router/Retries.antt =====
-- What the plan of a retry may do: `routeWithStore` of scripts/lib/router.mjs.
use adaptive_model_router.Common.{
  Bool, Bool-cases, List, Option, Option-cases, arith, false, inl, inr, none, refl, some, true, ℕ,
  ◌+◌, ◌<◌, ◌≡◌, ◌≤◌, ◌⊎◌,
}
use adaptive_model_router.Policy.{Definition, Policy, Target}
use adaptive_model_router.Policy.Decide.{Demand}
use adaptive_model_router.Router.{Outcome, Route, is_delegate, is_failed, outcome_of}
use adaptive_model_router.Router.Plan.{
  Planned, Retry, escalate, first_try, is_increased, is_reasoning, matches_failure, plan_delegated,
  plan_retry, prior_level, same_policy,
}
use adaptive_model_router.Task.{Evidence}
use adaptive_model_router.Vocabulary.{FailureType, WorkLevel}

-- Everything that an increase needs.
pub record IsEarned (p : Policy) (previous : Option Route) (os : List Outcome) (e : Evidence)
    (r : Retry) : Type 0 where
  pub route : Route
  pub target : Target
  pub outcome : Outcome
  pub names : previous ≡ some route
  pub delegated : is_delegate route.action ≡ true
  pub has_target : route.target ≡ some target
  pub recorded : outcome_of route.route_id os ≡ some outcome
  pub failed : is_failed outcome.status ≡ true
  pub reasoning : outcome.failure_type ≡ some FailureType.reasoning
  pub policy : same_policy p route ≡ true
  pub one_more : r.count ≡ route.escalation_count + 1
  pub within : r.count ≤ p.definition.escalation_limit
  pub kept : r.previous_target ≡ some target

escalate_within :
    (d : Definition) (demand : Demand) (level : Option WorkLevel) (count : ℕ) (target : Target)
    (r : Retry)
    → escalate d demand level count target ≡ Planned.goes r
    → (r.count ≡ count + 1) × (count < d.escalation_limit) × (r.previous_target ≡ some target)
unfolding escalate
escalate_within d demand level count target r h = ground arith

module _ (p : Policy) (previous : Route) (target : Target) (outcome : Option Outcome) (e : Evidence)
    (by_request : Bool) (demand : Demand) (r : Retry)
    (goes : plan_delegated p previous target outcome e by_request demand ≡ Planned.goes r) where
  plan_delegated_increased :
      is_increased r.state ≡ true
      → (same_policy p previous ≡ true)
        × (matches_failure outcome e ≡ true)
        × (is_reasoning e.failure_type ≡ true)
        × (r.count ≡ previous.escalation_count + 1)
        × (previous.escalation_count < p.definition.escalation_limit)
        × (r.previous_target ≡ some target)
  unfolding plan_delegated
  plan_delegated_increased up = ground (
    arith,
    escalate_within p.definition demand (prior_level p.definition previous target)
        previous.escalation_count target r,
  )

  -- Every plan that goes on keeps the count of the predecessor, adds one to it, or starts again.
  plan_delegated_count :
      (r.count ≡ 0)
      ⊎ ((r.count ≡ previous.escalation_count)
          ⊎ ((r.count ≡ previous.escalation_count + 1)
              × (previous.escalation_count < p.definition.escalation_limit)))
  unfolding plan_delegated
  plan_delegated_count = ground (
    arith,
    escalate_within p.definition demand (prior_level p.definition previous target)
        previous.escalation_count target r,
  )

matches_failure_inv :
    (outcome : Option Outcome) (e : Evidence)
    → matches_failure outcome e ≡ true
    → is_reasoning e.failure_type ≡ true
    → (o : Outcome) × (outcome ≡ some o)
      × (is_failed o.status ≡ true)
      × (o.failure_type ≡ some FailureType.reasoning)
matches_failure_inv none e h reason = cc
matches_failure_inv (some o) e h reason = (o, refl, ground arith, ground arith)

fresh_try :
    (demand : Demand) (r : Retry)
    → Planned.goes (first_try demand) ≡ Planned.goes r
    → (is_increased r.state ≡ false) × (r.count ≡ 0)
fresh_try demand r h = ground arith

-- An escalation is earned: the plan of a retry increases the level only if the predecessor is a
-- delegated route under the policy in force whose recorded outcome is a failure of reasoning; it takes
-- one more from the budget of the stage, within the limit of the policy, and the target of the
-- predecessor is the one to exceed.
pub plan_retry-IsEarned :
    (p : Policy) (previous : Option Route) (os : List Outcome) (e : Evidence) (by_request : Bool)
    (demand : Demand) (r : Retry)
    → plan_retry p previous os e by_request demand ≡ Planned.goes r
    → is_increased r.state ≡ true
    → IsEarned p previous os e r
unfolding plan_retry
plan_retry-IsEarned p none os e by_request demand r h up = cc
plan_retry-IsEarned p (some previous) os e by_request demand r h up =
    elim (Option-cases previous.target) [
      | inl t ↦ cc ((fresh_try demand r (rw (t, plan_retry) at h)).0)
      | inr (target, t) ↦ elim (Bool-cases (is_delegate previous.action)) [
        | inr a ↦ cc ((fresh_try demand r (rw (t, a, plan_retry) at h)).0)
        | inl a ↦
            let (policy, matched, reason, one_more, below, kept) =
              plan_delegated_increased p previous target (outcome_of previous.route_id os) e
                by_request demand r (rw (t, a, plan_retry) at h) up in
            let (o, recorded, failed, kind) =
              matches_failure_inv (outcome_of previous.route_id os) e matched reason in
            record {
              route = previous;
              target = target;
              outcome = o;
              names = refl;
              delegated = a;
              has_target = t;
              recorded = recorded;
              failed = failed;
              reasoning = kind;
              policy = policy;
              one_more = one_more;
              within = omega (arith, one_more, below);
              kept = kept;
            }
      ]
    ]

-- The count that a plan leads to stays within a bound on the counts and on the limit.
pub plan_retry_bound :
    (p : Policy) (previous : Option Route) (os : List Outcome) (e : Evidence) (by_request : Bool)
    (demand : Demand) (r : Retry) (bound : ℕ)
    → plan_retry p previous os e by_request demand ≡ Planned.goes r
    → ((q : Route) → previous ≡ some q → q.escalation_count ≤ bound)
    → p.definition.escalation_limit ≤ bound
    → r.count ≤ bound
unfolding plan_retry
plan_retry_bound p none os e by_request demand r bound h kept limit = ground arith
plan_retry_bound p (some previous) os e by_request demand r bound h kept limit =
    elim (Option-cases previous.target) [
      | inl t ↦ omega (arith, (fresh_try demand r (rw (t, plan_retry) at h)).1)
      | inr (target, t) ↦ elim (Bool-cases (is_delegate previous.action)) [
        | inr a ↦ omega (arith, (fresh_try demand r (rw (t, a, plan_retry) at h)).1)
        | inl a ↦ ground (
          arith,
          kept previous refl,
          plan_delegated_count p previous target (outcome_of previous.route_id os) e by_request
              demand r (rw (t, a, plan_retry) at h),
        )
      ]
    ]

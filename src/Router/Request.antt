-- ===== src/Router/Request.antt =====
-- What `routeWithStore` of scripts/lib/router.mjs is given, what it answers, and the routes that it makes.
use adaptive_model_router.Overrides
use adaptive_model_router.Host
use adaptive_model_router.Common.{
  Bool, List, Option, String, bool_eq, false, find?, inl, inr, nat_eq, none, some, string_eq,
  text_eq, true, ℕ, ◌==◌, ◌⊎◌,
}
use adaptive_model_router.Gate.{Context}
use adaptive_model_router.Policy.{Policy, Target}
use adaptive_model_router.Policy.Decide.{DecisionRule}
use adaptive_model_router.Policy.Resolve.{CatalogEntry, Override}
use adaptive_model_router.Router.{Action, Decision, RetryFault, Route}
use adaptive_model_router.Router.Commit.{Admission, Store}
use adaptive_model_router.Router.Plan.{Retry}
use adaptive_model_router.Task.{Evidence, Scored}
use adaptive_model_router.Vocabulary.{
  Effort, WorkLevel, category_eq, effort_eq, failure_eq, gate_eq, level_effort, level_eq, signal_eq,
  work_levels,
}

pub record Facts : Type 0 where
  pub context : Context
  pub route_id : String
  pub previous_route_id : Option String
  pub wish : Option Override
  pub evidence : Evidence
  pub enabled : Bool
  pub allow_global : Bool
  pub task_mode : Host.ShownMode
  pub delegation_direct : Bool
  pub proven_direct : Bool
  pub tooling_rejected : Bool
  pub names_stage : Bool
  pub stage_key : String
  pub is_trivial : Evidence → Bool
  pub scored : Evidence → Scored
  pub catalog : List CatalogEntry
  pub package_accepted : Bool
  pub hooks_ready : Bool
  pub admission : Admission

-- What other processes do to the store while a catalog or the hooks are awaited.
pub record Others : Type 0 where
  pub planning : Store → Store
  pub first : Store → Store
  pub second : Store → Store

pub data Answer : Type 0 where
  routed : Store → Route → Answer
  busy : String → Answer
  refused : RetryFault → Answer
  contradiction : Answer
  raises : Answer
  fail_open : Answer

abbrev pub plain_route : Facts → Action → Option String → ℕ → Route
plain_route f action stage count = record {
  route_id = f.route_id;
  project_id = f.context.project_id;
  context_key = f.context.context_key;
  action = action;
  target = none;
  stage_key = stage;
  escalation_count = count;
  previous_route_id = none;
  decision = none;
}

-- The level of a decision: a level, or the effort with the name of one.
abbrev pub level_named : WorkLevel ⊎ Effort → Option WorkLevel
level_named (inl l) = some l
level_named (inr e) = find? (λ l. level_effort l == e) work_levels

abbrev pub delegate_route :
    Facts → Policy → String → Option Route → Target → WorkLevel ⊎ Effort → Retry → Route
delegate_route f p stage previous target level r = record {
  route_id = f.route_id;
  project_id = f.context.project_id;
  context_key = f.context.context_key;
  action = Action.delegate;
  target = some target;
  stage_key = some stage;
  escalation_count = r.count;
  previous_route_id = elim previous [ none ↦ none | some q ↦ some q.route_id ];
  decision = some (record { policy_digest = p.digest; work_level = level_named level });
}

-- `decision(workLevel, rule)`, of what a later stage reads.
abbrev pub decide : Policy → Option WorkLevel → Decision
decide p level = record { policy_digest = p.digest; work_level = level }

abbrev pub count_of : Option Route → ℕ
count_of none = 0
count_of (some r) = r.escalation_count

abbrev pub is_automatic : Host.ShownMode → Bool
is_automatic Host.ShownMode.automatic = true
is_automatic _ = false

abbrev pub is_exact : DecisionRule → Bool
is_exact DecisionRule.exact_mechanical = true
is_exact _ = false

abbrev pub is_nothing : Overrides.Resolved → Bool
is_nothing Overrides.Resolved.nothing = true
is_nothing _ = false

-- ===== src/Router/Choose.antt =====
-- The choice of a target in `routeWithStore` of scripts/lib/router.mjs, from a planned retry to the
-- route of one claim.
use adaptive_model_router.Overrides
use adaptive_model_router.Common.{
  Bool, List, Option, bool_eq, false, filter, find?, if◌then◌else◌, inl, inr, is_some, nat_eq, none,
  opt_beq, or_else, some, string_eq, text_eq, true, ℕ, ◌&&◌, ◌==◌, ◌||◌, ◌⊎◌,
}
use adaptive_model_router.Policy.{Definition, Target}
use adaptive_model_router.Policy.Resolve.{
  CatalogEntry, DenyReason, FallbackReason, Override, Request, Selection, available,
  delegate_request, deny_gate, is_empty, level_or_effort, resolve_model_target, satisfies_gate,
  targets_of_effort,
}
use adaptive_model_router.Router.{Action}
use adaptive_model_router.Router.Plan.{EscalationState, Failure, Retry, is_increased}
use adaptive_model_router.Vocabulary.{
  Effort, WorkLevel, category_eq, effort_eq, failure_eq, gate_eq, level_eq, signal_eq,
}

-- The reason codes of a route that delegates nothing.
pub data Code : Type 0 where
  retry_failed : Failure → Code
  denied : DenyReason → Code
  ultra_parallel_write_risk router_disabled : Code

-- A route before its commit; `raises` is the TypeError of a level that is not there.
pub data Choice : Type 0 where
  finishes : Action → Code → EscalationState → ℕ → Choice
  raises : Choice
  delegates : Target → WorkLevel ⊎ Effort → Retry → Choice

abbrev pub is_ultra : Option WorkLevel → Bool
is_ultra none = false
is_ultra (some l) = l == WorkLevel.ultra

abbrev pub effort_is_ultra : Option Override → Bool
effort_is_ultra none = false
effort_is_ultra (some o) = opt_beq o.effort (some Effort.ultra)

abbrev pub sum_is_ultra : WorkLevel ⊎ Effort → Bool
sum_is_ultra (inl l) = l == WorkLevel.ultra
sum_is_ultra (inr e) = e == Effort.ultra

abbrev pub override_of : Overrides.Resolved → Option Override
override_of (Overrides.Resolved.requested o) = some o
override_of (Overrides.Resolved.stored scope w id) =
    some (record { model = w.model; effort = w.effort })
override_of Overrides.Resolved.nothing = none

abbrev pub once_of : Overrides.Resolved → Option ℕ
once_of (Overrides.Resolved.requested w) = none
once_of (Overrides.Resolved.stored scope w id) = id
once_of Overrides.Resolved.nothing = none

abbrev pub is_request : Overrides.Resolved → Bool
is_request (Overrides.Resolved.requested w) = true
is_request _ = false

abbrev pub held_override : Retry → Option Override
held_override r = elim r.held_target [
  | none ↦ none
  | some t ↦ some (record { model = some t.model; effort = some t.effort })
]

-- `resolved.override || heldTarget`.
abbrev pub effective : Option Override → Retry → Option Override
effective override r = or_else override (held_override r)

-- An override of the effort alone under version 2, with no preferred target.
unfoldable pub resolve_unlevelled : Definition → List CatalogEntry → Request → Effort → Selection
resolve_unlevelled d catalog r effort =
    let eligible = filter (satisfies_gate d r) (targets_of_effort d effort) in
    if is_empty (targets_of_effort d effort)
    then Selection.denied DenyReason.model_scope_denied
    else if is_empty eligible
    then Selection.denied (deny_gate r)
    else elim (find? (available catalog) eligible) [
      | none ↦ Selection.denied DenyReason.explicit_target_unavailable
      | some v ↦ Selection.chosen v (level_or_effort d v) FallbackReason.direct
    ]

-- `resolveModelTarget` where the level may be null; `none` is the TypeError.
unfoldable pub select :
    Definition → List CatalogEntry → Request → Option WorkLevel → Option Override → Option Selection
unfolding resolve_unlevelled
select d catalog r (some level) override = some (resolve_model_target d catalog r override)
select d catalog r none none = none
select d catalog r none (some o) = elim o.model [
  | some model ↦ some (resolve_model_target d catalog r (some o))
  | none ↦ elim o.effort [
    | none ↦ none
    | some effort ↦
        if d.schema_version == 2 then some (resolve_unlevelled d catalog r effort) else none
  ]
]

abbrev pub asks_or_continues : Bool → Action
asks_or_continues true = Action.ask_user
asks_or_continues false = Action.continue

abbrev pub request_of : Option Override → Retry → Request
request_of override r =
    delegate_request r.demand (is_some override) r.previous_target (is_increased r.state)

-- `finish(...)` after a denial: an increase is taken back.
abbrev pub deny : Option Override → Retry → ℕ → DenyReason → Choice
deny chosen r previous_count reason =
    Choice.finishes (asks_or_continues (is_some chosen || is_some r.previous_target))
      (Code.denied reason) (if is_increased r.state then EscalationState.unavailable else r.state)
      (if is_increased r.state then previous_count else r.count)

unfoldable pub settle : Selection → Option Override → Bool → ℕ → Retry → Choice
settle (Selection.denied reason) chosen write_risk previous_count r =
    deny chosen r previous_count reason
settle (Selection.chosen target level reason) chosen write_risk previous_count r =
    if sum_is_ultra level && write_risk
    then Choice.finishes Action.ask_user Code.ultra_parallel_write_risk r.state r.count
    else Choice.delegates target level r

-- One pass of the loop over the claims, up to the route that it would commit.
unfoldable pub choose :
    Definition → List CatalogEntry → Bool → Overrides.Resolved → ℕ → Retry → Choice
unfolding settle select
choose d catalog write_risk resolved previous_count r =
    let override = effective (override_of resolved) r in
    if Overrides.is_disabled resolved
    then Choice.finishes Action.continue Code.router_disabled r.state r.count
    else if effort_is_ultra override && write_risk
    then Choice.finishes Action.ask_user Code.ultra_parallel_write_risk r.state r.count
    else elim (select d catalog (request_of override r) r.level override) [
      | none ↦ Choice.raises
      | some selection ↦ settle selection (override_of resolved) write_risk previous_count r
    ]

-- ===== src/Router/Commit.antt =====
-- The transaction of one route: `commitRoute` and `activeDelegationRouteId` of scripts/lib/database.mjs.
-- The score snapshot, the retained policy, the qualification and the runtime stage of a route are left
-- out. The pending children are counted before and after a reclamation of reservations.
use adaptive_model_router.Overrides
use adaptive_model_router.Common.{
  Bool, List, Option, String, [], any, bool_eq, false, filter, if◌then◌else◌, nat_beq, nat_eq, none,
  not, or_else, some, string_eq, text_eq, true, ℕ, ◌&&◌, ◌++◌, ◌==◌, ◌∷◌,
}
use adaptive_model_router.Gate.{Context, Db}
use adaptive_model_router.Gate.Admission.{
  Budget, BudgetOptions, BudgetReason, Disk, Unresolved, insert_delegation_attempt,
  inspect_free_disk, inspect_router_child_budget, new_attempt, unresolved_attempt,
}
use adaptive_model_router.Gate.Ticket.{Crypto}
use adaptive_model_router.Policy.{Policy, Target, target_allowed}
use adaptive_model_router.Router.{Outcome, Route}
use adaptive_model_router.Router.Plan.{same_policy}
use adaptive_model_router.Vocabulary.{
  Effort, category_eq, effort_eq, failure_eq, gate_eq, level_eq, signal_eq,
}

pub record Store : Type 0 where
  pub routes : List Route
  pub outcomes : List Outcome
  pub overrides : List Overrides.OverrideRow
  pub gate : Db
  pub policy : Policy

-- What an admission measures, and the ticket that it stores.
pub record Admission : Type 0 where
  pub capacity_allowed : Bool
  pub budget : BudgetOptions
  pub pending : ℕ
  pub pending_reclaimed : ℕ
  pub free_bytes : Option ℕ
  pub minimum_bytes : Option ℕ
  pub ticket_hash : String
  pub sealed : String
  pub sealed_bytes : ℕ
  pub now : ℕ

pub data Fallback : Type 0 where
  capacity policy_changed scope_denied storage_untrusted disk_unavailable low_disk : Fallback
  over_budget : Option BudgetReason → Fallback

pub data Committed : Type 0 where
  stored : Store → Committed
  busy : String → Committed
  retry : Committed
  fallback : Fallback → Committed
  raises : Committed

pub data Active : Type 0 where
  none_active : Active
  active : String → Active
  broken : Active

abbrev pub effort_name : Effort → String
effort_name Effort.none = "none"
effort_name Effort.minimal = "minimal"
effort_name Effort.low = "low"
effort_name Effort.medium = "medium"
effort_name Effort.high = "high"
effort_name Effort.xhigh = "xhigh"
effort_name Effort.max = "max"
effort_name Effort.ultra = "ultra"

-- `none` is the constraint error of the primary key.
unfoldable pub insert_route : Route → Store → Committed
insert_route r s =
    if any (λ x. x.route_id == r.route_id) s.routes
    then Committed.raises
    else Committed.stored (record s { routes = s.routes ++ r ∷ [] })

-- The row of an override that is used once is deleted; a row that is gone asks for another claim.
unfoldable pub use_once : Context → Option ℕ → Store → Option Store
use_once c none s = some s
use_once c (some id) s =
    if any
      (λ (o : Overrides.OverrideRow).
        o.id == id
        && (nat_beq (Overrides.scope_index o.scope) 0
            && (o.project_id == c.project_id && o.context_key == c.context_key)))
      s.overrides
    then some (record s {
      overrides = filter (λ (o : Overrides.OverrideRow). not (o.id == id)) s.overrides;
    })
    else none

abbrev pub budget_allowed : Budget → Bool
budget_allowed Budget.untrusted = false
budget_allowed (Budget.inspected allowed reason next) = allowed

abbrev pub budget_reason : Budget → Option BudgetReason
budget_reason Budget.untrusted = none
budget_reason (Budget.inspected allowed reason next) = reason

abbrev pub is_pending_limit : Option BudgetReason → Bool
is_pending_limit (some BudgetReason.global_pending_limit) = true
is_pending_limit _ = false

unfoldable pub inspect_disk : Admission → ℕ → Option Fallback
inspect_disk a reserved = elim (inspect_free_disk a.free_bytes (some reserved) a.minimum_bytes) [
  | Disk.untrusted ↦ some Fallback.disk_unavailable
  | Disk.measured allowed ↦ if allowed then none else some Fallback.low_disk
]

-- The limits on children and on the disk.
unfoldable pub inspect_limits : Admission → Db → Option Fallback
unfolding inspect_disk
inspect_limits a db = elim (inspect_router_child_budget a.budget a.pending db) [
  | Budget.untrusted ↦ some Fallback.storage_untrusted
  | Budget.inspected allowed reason next ↦ or_else (inspect_disk a next) (
      let again =
        if is_pending_limit reason
        then inspect_router_child_budget a.budget a.pending_reclaimed db
        else Budget.inspected allowed reason next in
      if budget_allowed again then none else some (Fallback.over_budget (budget_reason again)))
]

module _ (x : Crypto) (legacy_block : Option String) where
  unfoldable pub active_delegation : Context → Db → Active
  active_delegation c db = elim (unresolved_attempt x c db) [
    | Unresolved.active r ↦ Active.active r.route_id
    | Unresolved.broken p ↦ Active.broken
    | Unresolved.idle ↦ elim legacy_block [ none ↦ Active.none_active | some id ↦ Active.active id ]
  ]

  -- A route that delegates nothing.
  unfoldable pub commit_plain : Context → Route → Bool → Store → Committed
  unfolding insert_route active_delegation
  commit_plain c r require_idle s =
      if not require_idle then insert_route r s else elim (active_delegation c s.gate) [
        | Active.broken ↦ Committed.raises
        | Active.active id ↦ Committed.busy id
        | Active.none_active ↦ insert_route r s
      ]

  unfoldable pub insert_delegation : Context → Route → Target → Admission → Store → Committed
  unfolding insert_route
  insert_delegation c r target a s =
      let row =
        new_attempt c r.route_id a.ticket_hash target.model (effort_name target.effort) a.sealed
          a.sealed_bytes a.now in
      elim (insert_delegation_attempt row s.gate) [
        | none ↦ Committed.raises
        | some gate ↦ insert_route r (record s { gate = gate })
      ]

  unfoldable pub admit : Context → Route → Target → Option ℕ → Admission → Store → Committed
  unfolding insert_delegation use_once
  admit c r target once a s = elim (inspect_limits a s.gate) [
    | some reason ↦ Committed.fallback reason
    | none ↦ elim (use_once c once s) [
      | none ↦ Committed.retry
      | some s1 ↦ insert_delegation c r target a s1
    ]
  ]

  unfoldable pub commit_delegate :
      Context → Route → Target → Option ℕ → Admission → Store → Committed
  unfolding admit active_delegation
  commit_delegate c r target once a s =
      if not a.capacity_allowed
      then Committed.fallback Fallback.capacity
      else if not (same_policy s.policy r)
      then Committed.fallback Fallback.policy_changed
      else if not (target_allowed s.policy.definition target)
      then Committed.fallback Fallback.scope_denied
      else elim (active_delegation c s.gate) [
        | Active.broken ↦ Committed.raises
        | Active.active id ↦ Committed.busy id
        | Active.none_active ↦ admit c r target once a s
      ]

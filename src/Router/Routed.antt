-- ===== src/Router/Routed.antt =====
-- `routeWithStore` of scripts/lib/router.mjs on a validated request. What it computes outside the store
-- (the stage key, the score, the triviality of the goal, the catalog, the package, the readiness of the
-- hooks, the measures of an admission) is an argument; a lifecycle qualification and the classifier,
-- whose score selects nothing here, are left out. Between the choice and the commit of a claim other
-- processes may change the store.
use adaptive_model_router.Overrides
use adaptive_model_router.Common.{
  Bool, List, Option, String, [], false, if◌then◌else◌, inl, inr, is_some, leb, none, not, some,
  true, ℕ, ◌&&◌, ◌||◌, ◌∷◌, ◌⊎◌,
}
use adaptive_model_router.Gate.Ticket.{Crypto}
use adaptive_model_router.Policy.{Policy}
use adaptive_model_router.Policy.Decide.{Demand, decide_work_level}
use adaptive_model_router.Router.{
  Action, Decision, RetryFault, Route, find_previous, latest_of_stage, link_previous, stage_of,
}
use adaptive_model_router.Router.Choose.{
  Choice, asks_or_continues, choose, is_request, is_ultra, once_of,
}
use adaptive_model_router.Router.Commit.{
  Active, Committed, Store, active_delegation, commit_delegate, commit_plain,
}
use adaptive_model_router.Router.Plan.{Planned, Retry, plan_retry}
use adaptive_model_router.Router.Request.{
  Answer, Facts, Others, count_of, decide, delegate_route, is_automatic, is_exact, is_nothing,
  plain_route,
}
use adaptive_model_router.Task.{Evidence}

module _ (x : Crypto) (legacy_block : Option String) (g : Overrides.GlobalKeys) (f : Facts) where
  abbrev pub answer_plain : Route → Committed → Answer
  answer_plain r (Committed.stored s) = Answer.routed s r
  answer_plain r (Committed.busy id) = Answer.busy id
  answer_plain r Committed.retry = Answer.raises
  answer_plain r (Committed.fallback reason) = Answer.raises
  answer_plain r Committed.raises = Answer.raises

  abbrev pub plain : Action → Option String → Bool → Store → Answer
  plain action stage require_idle s =
      let r = plain_route f action stage 0 in
      answer_plain r (commit_plain x legacy_block f.context r require_idle s)

  -- The `continue` route of a delegation that is not committed.
  abbrev pub fall_back : ℕ → Store → Answer
  fall_back count s =
      let r = plain_route f Action.continue none count in
      answer_plain r (commit_plain x legacy_block f.context r true s)

  -- `finish`: the count of the escalations and the decision are kept in the route.
  abbrev pub finish : Action → String → Option Route → ℕ → Decision → Store → Answer
  finish action stage previous count own s =
      let r = record (plain_route f action (some stage) count) {
        previous_route_id = elim previous [ none ↦ none | some q ↦ some q.route_id ];
        decision = some own;
      } in
      answer_plain r (commit_plain x legacy_block f.context r true s)

  abbrev pub resolved_in : Store → Overrides.Resolved
  resolved_in s = Overrides.resolve_override g f.context f.wish f.allow_global s.overrides

  -- What a claim does with its committed route; the last claim does not try again.
  abbrev pub settle_claim : Answer → Route → ℕ → Store → Committed → Answer
  settle_claim next r count before (Committed.stored s) = Answer.routed s r
  settle_claim next r count before (Committed.busy id) = Answer.busy id
  settle_claim next r count before Committed.retry = next
  settle_claim next r count before (Committed.fallback reason) = fall_back count before
  settle_claim next r count before Committed.raises = Answer.raises

  -- `s` is the store of the choice, `s'` that of the commit.
  unfoldable pub commit_choice :
      Answer
      → Policy
      → String
      → Option Route
      → Overrides.Resolved
      → Decision
      → Store
      → Store
      → Choice
      → Answer
  commit_choice next p stage previous resolved own s s' (Choice.finishes action code state count) =
      finish action stage previous count own s
  commit_choice next p stage previous resolved own s s' Choice.raises = Answer.raises
  commit_choice next p stage previous resolved own s s' (Choice.delegates target level r) =
      if not f.package_accepted
      then fall_back r.count s
      else elim (active_delegation x legacy_block f.context s.gate) [
        | Active.broken ↦ Answer.raises
        | Active.active id ↦ Answer.busy id
        | Active.none_active ↦
            if not f.hooks_ready
            then fall_back r.count s'
            else (let route = delegate_route f p stage previous target level r in
                settle_claim next route r.count s' (
                  commit_delegate x legacy_block f.context route target (once_of resolved)
                    f.admission s'))
      ]

  -- The claims that are left, each with what others do to the store before its commit.
  unfoldable pub claim :
      List (Store → Store) → Policy → String → Option Route → Bool → Retry → Store → Answer
  unfolding commit_choice
  claim [] p stage previous write_risk r s = Answer.fail_open
  claim (other ∷ others) p stage previous write_risk r s =
      let resolved = resolved_in s in
      let s' = other s in
      commit_choice (claim others p stage previous write_risk r s') p stage previous resolved
        (decide p r.level) s s'
        (choose p.definition f.catalog write_risk resolved (count_of previous) r)

  unfoldable pub route_planned :
      Others → Policy → String → Option Route → Evidence → Demand → Planned → Store → Answer
  unfolding claim
  route_planned o p stage previous e demand (Planned.refused fault) s = Answer.refused fault
  route_planned o p stage previous e demand (Planned.stopped failure state count) s =
      finish Action.ask_user stage previous count (decide p (some demand.work_level)) s
  route_planned o p stage previous e demand (Planned.goes r) s =
      if is_ultra r.level && e.parallel_write_risk
      then finish Action.ask_user stage previous r.count (decide p r.level) s
      else claim (o.first ∷ o.second ∷ []) p stage previous e.parallel_write_risk r s

  -- The catalog is awaited before the plan.
  unfoldable pub route_linked : Others → String → Option Route → Evidence → Store → Answer
  unfolding route_planned
  route_linked o stage previous e s =
      let resolved = resolved_in s in
      let demand = decide_work_level (f.scored e) e s.policy.definition in
      let free = is_nothing resolved && not (is_some previous) in
      let s' = o.planning s in
      if free && f.is_trivial e
      then plain Action.continue none true s
      else if free && (is_exact demand.rule && leb e.batch_size 1)
      then plain Action.continue none true s
      else route_planned o s.policy stage previous e demand
          (plan_retry s.policy previous s'.outcomes e (is_request resolved) demand) s'

  unfoldable pub route_in_stage : Others → Option Route → Store → RetryFault ⊎ String → Answer
  unfolding route_linked
  route_in_stage o previous s (inl fault) = Answer.refused fault
  route_in_stage o previous s (inr stage) =
      if not f.admission.capacity_allowed
      then plain Action.continue (some stage) true s
      else elim (link_previous previous (latest_of_stage f.context stage s.routes) s.outcomes
          f.evidence) [
            | inl fault ↦ Answer.refused fault
            | inr (linked, e) ↦ route_linked o stage linked e s
          ]

  unfoldable pub route_idle : Others → Option Route → Store → Answer
  unfolding route_in_stage
  route_idle o previous s =
      if not f.delegation_direct && (f.proven_direct && not f.tooling_rejected)
      then Answer.contradiction
      else if not f.delegation_direct
      then plain (asks_or_continues (not (is_nothing (resolved_in s)))) none true s
      else route_in_stage o previous s (stage_of previous f.names_stage f.stage_key)

  -- The whole request.
  unfoldable pub route_stage : Others → Store → Answer
  unfolding route_idle
  route_stage o s =
      elim (find_previous f.context f.previous_route_id f.evidence.verification_failed s.routes) [
        | inl fault ↦ Answer.refused fault
        | inr previous ↦
            if not (is_automatic f.task_mode)
            then plain Action.continue none false s
            else if not f.enabled || Overrides.is_disabled (resolved_in s)
            then plain Action.continue none false s
            else elim (active_delegation x legacy_block f.context s.gate) [
              | Active.broken ↦ Answer.raises
              | Active.active id ↦ Answer.busy id
              | Active.none_active ↦ route_idle o previous s
            ]
      ]

-- ===== src/Router/Stages.antt =====
-- A property of the two commits holds of every answer of `routeWithStore` of scripts/lib/router.mjs: the
-- stages of a request, from the claims up.
use adaptive_model_router.Overrides
use adaptive_model_router.Common.{
  All, Bool, Bool-cases, List, Option, String, [], false, if◌then◌else◌, inl, inr, is_some, leb,
  none, not, refl, some, true, ℕ, ◌&&◌, ◌||◌, ◌∷◌, ◌⊎◌,
}
use adaptive_model_router.Gate.Ticket.{Crypto}
use adaptive_model_router.Policy.{Policy}
use adaptive_model_router.Policy.Decide.{Demand, decide_work_level}
use adaptive_model_router.Router.{Action, Outcome, RetryFault, Route, latest_of_stage, stage_of}
use adaptive_model_router.Router.Answers.{
  OfAnswer, OfFound, OfLinked, OfPlanned, OfPrevious, asks_or_continues-lem, choose-OfChoice,
  choose_live, find_previous-OfFound, last_match-OfPrevious, link_previous-OfLinked,
}
use adaptive_model_router.Router.Choose.{is_request, is_ultra}
use adaptive_model_router.Router.Commit.{Active, Store, active_delegation}
use adaptive_model_router.Router.Plan.{Planned, Retry, plan_retry}
use adaptive_model_router.Router.Request.{
  Answer, Facts, Others, count_of, decide, is_automatic, is_exact, is_nothing,
}
use adaptive_model_router.Router.Routed.{
  claim, plain, resolved_in, route_idle, route_in_stage, route_linked, route_planned, route_stage,
}
use adaptive_model_router.Router.Walk.{
  Basis, Keeps, Pairs, commit_choice-OfAnswer, finish-OfAnswer, idle-OfAnswer, plain-OfAnswer,
}
use adaptive_model_router.Task.{Evidence}

module _ (x : Crypto) (legacy_block : Option String) (g : Overrides.GlobalKeys) (f : Facts) where
  module _ {J : ℕ → Type 0} {I : Store → Type 0} {C : Store → Store → Type 0}
      {R : Store → Route → Type 0} (b : Basis x legacy_block g f J I C R) where
    module _ (p : Policy) (stage : String) (previous : Option Route)
        (before : OfPrevious J previous) where
      claim-OfAnswer :
          (others : List (Store → Store)) (write_risk : Bool) (r : Retry) (s : Store)
          → All (λ (other : Store → Store). (s : Store) → I s → I (other s)) others
          → Pairs x legacy_block g f C others s
          → I s
          → J r.count
          → OfAnswer R (claim x legacy_block g f others p stage previous write_risk r s)
      unfolding claim
      claim-OfAnswer [] write_risk r s h pairs i j = tt
      claim-OfAnswer (other ∷ others) write_risk r s h pairs i j =
          commit_choice-OfAnswer x legacy_block g f b _ p stage previous (decide p r.level) s
            (other s) _ (claim-OfAnswer others write_risk r (other s) h.1 pairs.1 (h.0 s i) j)
            pairs.0
            (λ target level r'.
              choose_live p.definition f.catalog write_risk (resolved_in x legacy_block g f s)
                (count_of previous) r r' target level)
            i (h.0 s i)
            (choose-OfChoice J previous before b.zero p.definition f.catalog write_risk
              (resolved_in x legacy_block g f s) r j)

      route_planned-OfAnswer :
          (o : Others) (e : Evidence) (demand : Demand) (plan : Planned) (s : Store)
          → Keeps x legacy_block g f I o
          → Pairs x legacy_block g f C (o.first ∷ o.second ∷ []) s
          → I s
          → OfPlanned J plan
          → OfAnswer R (route_planned x legacy_block g f o p stage previous e demand plan s)
      unfolding route_planned
      route_planned-OfAnswer o e demand (Planned.refused fault) s k pairs i j = tt
      route_planned-OfAnswer o e demand (Planned.stopped failure state count) s k pairs i j =
          finish-OfAnswer x legacy_block g f b Action.ask_user stage previous count
            (decide p (some demand.work_level)) s refl i j
      route_planned-OfAnswer o e demand (Planned.goes r) s k pairs i j =
          elim (Bool-cases (is_ultra r.level && e.parallel_write_risk)) [
            | inl h ↦
                rw (h, route_planned)
                  (finish-OfAnswer x legacy_block g f b Action.ask_user stage previous r.count
                    (decide p r.level) s refl i j)
            | inr h ↦
                rw (h, route_planned)
                  (claim-OfAnswer (o.first ∷ o.second ∷ []) e.parallel_write_risk r s
                    (k.first, (k.second, tt)) pairs i j)
          ]

    -- Every plan under the policy of the store keeps the property of the counts.
    abbrev pub PlansKeep : Store → Type 0
    PlansKeep s =
        (previous : Option Route) (os : List Outcome) (e : Evidence) (is_request : Bool)
        (demand : Demand)
        → OfPrevious J previous
        → OfPlanned J (plan_retry s.policy previous os e is_request demand)

    module _ (o : Others) (k : Keeps x legacy_block g f I o) (s : Store) (i : I s)
        (plans : PlansKeep s)
        (pairs : Pairs x legacy_block g f C (o.first ∷ o.second ∷ []) (o.planning s)) where
      route_linked-OfAnswer :
          (stage : String) (previous : Option Route) (e : Evidence)
          → OfPrevious J previous
          → OfAnswer R (route_linked x legacy_block g f o stage previous e s)
      unfolding route_linked
      route_linked-OfAnswer stage previous e before =
          let free = is_nothing (resolved_in x legacy_block g f s) && not (is_some previous) in
          let demand = decide_work_level (f.scored e) e s.policy.definition in
          let idle = plain-OfAnswer x legacy_block g f b Action.continue none true s refl i in
          elim (Bool-cases (free && f.is_trivial e)) [
            | inl h ↦ rw (h, route_linked) idle
            | inr h ↦ elim (Bool-cases (free && (is_exact demand.rule && leb e.batch_size 1))) [
              | inl q ↦ rw (h, q, route_linked) idle
              | inr q ↦
                  rw (h, q, route_linked)
                    (route_planned-OfAnswer s.policy stage previous before o e demand _
                      (o.planning s) k pairs (k.planning s i)
                      (plans previous (o.planning s).outcomes e
                        (is_request (resolved_in x legacy_block g f s)) demand before))
            ]
          ]

      route_in_stage-OfAnswer :
          (previous : Option Route) (found : RetryFault ⊎ String)
          → OfPrevious J previous
          → OfAnswer R (route_in_stage x legacy_block g f o previous s found)
      unfolding route_in_stage
      route_in_stage-OfAnswer previous (inl fault) before = tt
      route_in_stage-OfAnswer previous (inr stage) before =
          elim (Bool-cases f.admission.capacity_allowed) [
            | inr h ↦
                rw (h, route_in_stage)
                  (plain-OfAnswer x legacy_block g f b Action.continue (some stage) true s refl i)
            | inl h ↦
                rw (h, route_in_stage)
                  (go _ (
                    link_previous-OfLinked J previous (latest_of_stage f.context stage s.routes)
                      s.outcomes f.evidence before
                      (last_match-OfPrevious J _ s.routes (b.counts s i))))
          ]
        where
          go :
              (linked : RetryFault ⊎ (Option Route × Evidence))
              → OfLinked J linked
              → OfAnswer R (elim linked [
                | inl fault ↦ Answer.refused fault
                | inr (linked, e) ↦ route_linked x legacy_block g f o stage linked e s
              ])
          go (inl fault) h = tt
          go (inr (q, e)) h = route_linked-OfAnswer stage q e h

      route_idle-OfAnswer :
          (previous : Option Route)
          → OfPrevious J previous
          → OfAnswer R (route_idle x legacy_block g f o previous s)
      unfolding route_idle
      route_idle-OfAnswer previous before =
          elim (Bool-cases
            (not f.delegation_direct && (f.proven_direct && not f.tooling_rejected))) [
              | inl h ↦ rw (h, route_idle) tt
              | inr h ↦ elim (Bool-cases f.delegation_direct) [
                | inr q ↦
                    rw (h, q, route_idle)
                      (plain-OfAnswer x legacy_block g f b _ none true s
                        (asks_or_continues-lem
                          (not (is_nothing (resolved_in x legacy_block g f s))))
                        i)
                | inl q ↦
                    rw (h, q, route_idle)
                      (route_in_stage-OfAnswer previous
                        (stage_of previous f.names_stage f.stage_key) before)
              ]
            ]

      pub route_stage-OfAnswer : OfAnswer R (route_stage x legacy_block g f o s)
      unfolding route_stage
      route_stage-OfAnswer = go _ (
          find_previous-OfFound J f.context f.previous_route_id f.evidence.verification_failed
            s.routes (b.counts s i))
        where
          go :
              (found : RetryFault ⊎ Option Route)
              → OfFound J found
              → OfAnswer R (elim found [
                | inl fault ↦ Answer.refused fault
                | inr previous ↦
                    if not (is_automatic f.task_mode)
                    then plain x legacy_block g f Action.continue none false s
                    else if not f.enabled
                        || Overrides.is_disabled (resolved_in x legacy_block g f s)
                    then plain x legacy_block g f Action.continue none false s
                    else elim (active_delegation x legacy_block f.context s.gate) [
                      | Active.broken ↦ Answer.raises
                      | Active.active id ↦ Answer.busy id
                      | Active.none_active ↦ route_idle x legacy_block g f o previous s
                    ]
              ])
          go (inl fault) h = tt
          go (inr previous) h = elim (Bool-cases (is_automatic f.task_mode)) [
            | inr q ↦ rw q (plain-OfAnswer x legacy_block g f b Action.continue none false s refl i)
            | inl q ↦
                elim (Bool-cases
                  (not f.enabled || Overrides.is_disabled (resolved_in x legacy_block g f s))) [
                    | inl e ↦
                        rw (q, e)
                          (plain-OfAnswer x legacy_block g f b Action.continue none false s refl i)
                    | inr e ↦
                        rw (q, e)
                          (idle-OfAnswer x legacy_block g f b
                            (route_idle x legacy_block g f o previous s)
                            (active_delegation x legacy_block f.context s.gate)
                            (route_idle-OfAnswer previous h))
                  ]
          ]

-- ===== src/Router/Counts.antt =====
-- What `routeWithStore` of scripts/lib/router.mjs leaves in the store, on every path.
use adaptive_model_router.Overrides
use adaptive_model_router.Common.{
  All-append, Bool, Bool-cases, List, Option, Option-cases, String, [], ap, arith, false, inl, inr,
  none, refl, some, subst, sym, true, ℕ, ◌++◌, ◌∷◌, ◌≡◌, ◌≤◌, ◌⊎◌,
}
use adaptive_model_router.Gate.Ticket.{Crypto}
use adaptive_model_router.Policy.{Policy, Target}
use adaptive_model_router.Policy.Decide.{Demand}
use adaptive_model_router.Router.{Outcome, Route, is_delegate, outcome_of}
use adaptive_model_router.Router.Answers.{OfAnswer, OfPlanned, OfPrevious, OfRoutes}
use adaptive_model_router.Router.Choose.{once_of}
use adaptive_model_router.Router.Commit.{Store}
use adaptive_model_router.Router.Opened.{IsOpened, commit_delegate-IsOpened, commit_plain-gains}
use adaptive_model_router.Router.Plan.{
  EscalationState, Failure, Planned, escalate, plan_delegated, plan_retry,
}
use adaptive_model_router.Router.Request.{Answer, Facts, Others}
use adaptive_model_router.Router.Retries.{plan_retry_bound}
use adaptive_model_router.Router.Routed.{resolved_in, route_stage}
use adaptive_model_router.Router.Stages.{route_stage-OfAnswer}
use adaptive_model_router.Router.Walk.{Basis, Keeps}
use adaptive_model_router.Task.{Evidence}

plan_delegated_stopped :
    (p : Policy) (previous : Route) (target : Target) (outcome : Option Outcome) (e : Evidence)
    (by_request : Bool) (demand : Demand) (failure : Failure) (state : EscalationState) (count : ℕ)
    → plan_delegated p previous target outcome e by_request demand
      ≡ Planned.stopped failure state count
    → count ≡ previous.escalation_count
unfolding plan_delegated escalate
plan_delegated_stopped p previous target outcome e by_request demand failure state count h =
    ground arith

plan_retry_stopped :
    (p : Policy) (previous : Option Route) (os : List Outcome) (e : Evidence) (by_request : Bool)
    (demand : Demand) (failure : Failure) (state : EscalationState) (count : ℕ)
    → plan_retry p previous os e by_request demand ≡ Planned.stopped failure state count
    → (q : Route) × (previous ≡ some q) × (count ≡ q.escalation_count)
unfolding plan_retry
plan_retry_stopped p none os e by_request demand failure state count h = cc
plan_retry_stopped p (some q) os e by_request demand failure state count h =
    elim (Option-cases q.target) [
      | inl t ↦ cc (rw (t, plan_retry) at h)
      | inr (target, t) ↦ elim (Bool-cases (is_delegate q.action)) [
        | inr a ↦ cc (rw (t, a, plan_retry) at h)
        | inl a ↦ (
          q,
          refl,
          plan_delegated_stopped p q target (outcome_of q.route_id os) e by_request demand failure
              state count (rw (t, a, plan_retry) at h),
        )
      ]
    ]

module _ (bound : ℕ) where
  abbrev pub IsWithin : ℕ → Type 0
  IsWithin n = n ≤ bound

  IsWithin-previous :
      (previous : Option Route) (q : Route)
      → OfPrevious IsWithin previous
      → previous ≡ some q
      → q.escalation_count ≤ bound
  IsWithin-previous previous q h e = subst (OfPrevious IsWithin) e h

  plan_retry-IsWithin :
      (p : Policy)
      → p.definition.escalation_limit ≤ bound
      → (previous : Option Route) (os : List Outcome) (e : Evidence) (by_request : Bool)
        (demand : Demand)
      → OfPrevious IsWithin previous
      → OfPlanned IsWithin (plan_retry p previous os e by_request demand)
  plan_retry-IsWithin p limit previous os e by_request demand before = go _ refl
    where
      go :
          (plan : Planned)
          → plan_retry p previous os e by_request demand ≡ plan
          → OfPlanned IsWithin plan
      go (Planned.refused fault) h = tt
      go (Planned.goes r) h =
          plan_retry_bound p previous os e by_request demand r bound h
            (λ q. IsWithin-previous previous q before) limit
      go (Planned.stopped failure state count) h =
          let (q, names, same) =
            plan_retry_stopped p previous os e by_request demand failure state count h in
          omega (arith, same, IsWithin-previous previous q before names)

module _ (x : Crypto) (legacy_block : Option String) (g : Overrides.GlobalKeys) (f : Facts) where
  module _ (bound : ℕ) where
    -- Every stored route has a count of escalations within the bound.
    abbrev pub AreWithin : Store → Type 0
    AreWithin s = OfRoutes (IsWithin bound) s.routes

    gains-AreWithin :
        (r : Route) (s s' : Store)
        → AreWithin s
        → r.escalation_count ≤ bound
        → s'.routes ≡ s.routes ++ r ∷ []
        → AreWithin s'
    gains-AreWithin r s s' i j e =
        subst (OfRoutes (IsWithin bound)) (sym e) (All-append _ s.routes (r ∷ []) i (j, tt))

    IsWithin-basis :
        Basis x legacy_block g f (IsWithin bound) AreWithin (λ s s'. Unit) (λ s r. AreWithin s)
    IsWithin-basis = record {
      zero = omega arith;
      counts = λ s i. i;
      plain_ok = λ r require_idle s s' i plain_action j h. gains-AreWithin r s s' i j (
          ap (λ (t : Store). t.routes)
            (commit_plain-gains x legacy_block f.context r require_idle s s' h));
      delegate_ok = λ r target choice s s' pair live i has j h.
          gains-AreWithin r s s' i j
            (commit_delegate-IsOpened x legacy_block f.context r target
              (once_of (resolved_in x legacy_block g f choice)) f.admission s s' has h).gains;
    }

    -- The budget of escalations is never exceeded: if every stored route counts at most `bound`
    -- escalations, the limit of the policy in force is at most `bound` and other processes keep it so,
    -- then every answer that commits a route leaves a store where every route counts at most `bound`.
    pub route_stage-AreWithin :
        (o : Others) (s s' : Store) (r : Route)
        → AreWithin s
        → s.policy.definition.escalation_limit ≤ bound
        → Keeps x legacy_block g f AreWithin o
        → route_stage x legacy_block g f o s ≡ Answer.routed s' r
        → AreWithin s'
    route_stage-AreWithin o s s' r i limit keeps h = subst (OfAnswer (λ s r. AreWithin s)) h (
        route_stage-OfAnswer x legacy_block g f IsWithin-basis o keeps s i
          (plan_retry-IsWithin bound s.policy limit) (tt, (tt, tt)))

  -- The first claim chooses in the store after the catalog is awaited and commits after what others do
  -- meanwhile; the second chooses in that store.
  abbrev pub IsClaim : Others → Store → Store → Store → Type 0
  IsClaim o s choice before =
      ((choice ≡ o.planning s) × (before ≡ o.first choice))
      ⊎ ((choice ≡ o.first (o.planning s)) × (before ≡ o.second choice))

  -- A delegation was opened by one of the two claims.
  abbrev pub IsClaimed : Others → Store → Store → Route → Type 0
  IsClaimed o s s' r =
      (choice : Store) × (before : Store) × IsClaim o s choice before
      × (Overrides.is_disabled (resolved_in x legacy_block g f choice) ≡ false)
      × IsOpened x legacy_block f.context f.admission
          (once_of (resolved_in x legacy_block g f choice)) before s' r

  -- A route that delegates nothing opens nothing.
  abbrev OfDelegate : Others → Store → Store → Route → Type 0
  OfDelegate o s s' r = is_delegate r.action ≡ true → IsClaimed o s s' r

  all_units : (rs : List Route) → OfRoutes (λ n. Unit) rs
  all_units [] = tt
  all_units (r ∷ rs) = (tt, all_units rs)

  opened_basis :
      (o : Others) (s : Store)
      → Basis x legacy_block g f (λ n. Unit) (λ s. Unit) (IsClaim o s) (OfDelegate o s)
  opened_basis o s0 = record {
    zero = tt;
    counts = λ s i. all_units s.routes;
    plain_ok = λ r require_idle s s' i plain_action j h delegates. cc;
    delegate_ok = λ r target choice s s' pair live i has j h delegates. (
      choice,
      s,
      pair,
      live,
      commit_delegate-IsOpened x legacy_block f.context r target
          (once_of (resolved_in x legacy_block g f choice)) f.admission s s' has h,
    );
  }

  any_plan : (plan : Planned) → OfPlanned (λ n. Unit) plan
  any_plan (Planned.refused fault) = tt
  any_plan (Planned.stopped failure state count) = tt
  any_plan (Planned.goes r) = tt

  -- A delegation is a single admitted opening: whenever the whole request answers with a route that
  -- delegates, whatever other processes did meanwhile, one of the two claims committed it, whose choice
  -- found no disabled override, and in the store just before that commit the context had no open
  -- delegation, the policy in force was the one that the route was decided under and allowed its target,
  -- the limits on children, bytes and disk admitted it and its identifier was unused; the commit added
  -- exactly that route and exactly its attempt, and the override for one use that the claim's choice
  -- had found, if any, is gone.
  pub route_stage-IsOpened :
      (o : Others) (s s' : Store) (r : Route)
      → route_stage x legacy_block g f o s ≡ Answer.routed s' r
      → is_delegate r.action ≡ true
      → (choice : Store) × (before : Store) × IsClaim o s choice before
        × (Overrides.is_disabled (resolved_in x legacy_block g f choice) ≡ false)
        × IsOpened x legacy_block f.context f.admission
            (once_of (resolved_in x legacy_block g f choice))
            before
            s'
            r
  route_stage-IsOpened o s s' r h = subst (OfAnswer (OfDelegate o s)) h (
      route_stage-OfAnswer x legacy_block g f (opened_basis o s) o
        (record { planning = λ s i. tt; first = λ s i. tt; second = λ s i. tt }) s tt
        (λ previous os e by_request demand before.
          any_plan (plan_retry s.policy previous os e by_request demand))
        (inl (refl, refl), (inr (refl, refl), tt)))

-- ===== src/Router/Answers.antt =====
-- What holds of every answer of `routeWithStore` of scripts/lib/router.mjs, if the two commits and the
-- plan of a retry give it.

use adaptive_model_router.Overrides
use adaptive_model_router.Common.{
  All, All-find?, Bool, Bool-cases, List, Option, Option-cases, String, [], bool_eq, false, inl,
  inr, nat_eq, none, not, refl, some, string_eq, subst, text_eq, true, ℕ, ◌&&◌, ◌==◌, ◌||◌, ◌∷◌,
  ◌≡◌, ◌⊎◌,
}
use adaptive_model_router.Gate.{Context}
use adaptive_model_router.Policy.{Definition, Target}
use adaptive_model_router.Policy.Resolve.{CatalogEntry, Override, Selection}
use adaptive_model_router.Router.{
  Outcome, RetryFault, Route, find_previous, find_route, is_continue, is_delegate, last_match,
  link_previous, outcome_of, status_passed,
}
use adaptive_model_router.Router.Choose.{
  Choice, asks_or_continues, choose, effective, effort_is_ultra, override_of, request_of, select,
  settle, sum_is_ultra,
}
use adaptive_model_router.Router.Commit.{Store}
use adaptive_model_router.Router.Plan.{Planned, Retry, is_increased}
use adaptive_model_router.Router.Request.{Answer, count_of}
use adaptive_model_router.Task.{Evidence}
use adaptive_model_router.Vocabulary.{
  Effort, WorkLevel, category_eq, effort_eq, failure_eq, gate_eq, level_eq, signal_eq,
}

-- A count of the predecessor, if there is one.
abbrev pub OfPrevious : (ℕ → Type 0) → Option Route → Type 0
OfPrevious J none = Unit
OfPrevious J (some q) = J q.escalation_count

abbrev pub OfPlanned : (ℕ → Type 0) → Planned → Type 0
OfPlanned J (Planned.refused fault) = Unit
OfPlanned J (Planned.stopped failure state count) = J count
OfPlanned J (Planned.goes r) = J r.count

abbrev pub OfChoice : (ℕ → Type 0) → Choice → Type 0
OfChoice J (Choice.finishes action code state count) = (is_delegate action ≡ false) × J count
OfChoice J Choice.raises = Unit
OfChoice J (Choice.delegates v level r) = J r.count

abbrev pub OfAnswer : (Store → Route → Type 0) → Answer → Type 0
OfAnswer R (Answer.routed s r) = R s r
OfAnswer R _ = Unit

-- The routes that a search finds are among those stored.
module _ (J : ℕ → Type 0) where
  abbrev pub OfRoutes : List Route → Type 0
  OfRoutes rs = All (λ (q : Route). J q.escalation_count) rs

  pub last_match-OfPrevious :
      (p : Route → Bool) (rs : List Route) → OfRoutes rs → OfPrevious J (last_match p rs)
  last_match-OfPrevious p [] h = tt
  last_match-OfPrevious p (q ∷ rs) h = elim (Option-cases (last_match p rs)) [
    | inr (r, e) ↦ rw e (subst (OfPrevious J) e (last_match-OfPrevious p rs h.1))
    | inl e ↦ elim (Bool-cases (p q)) [ inl f ↦ rw (e, f) h.0 | inr f ↦ rw (e, f) tt ]
  ]

  abbrev pub OfFound : RetryFault ⊎ Option Route → Type 0
  OfFound (inl fault) = Unit
  OfFound (inr previous) = OfPrevious J previous

  abbrev pub OfLinked : RetryFault ⊎ (Option Route × Evidence) → Type 0
  OfLinked (inl fault) = Unit
  OfLinked (inr (previous, e)) = OfPrevious J previous

  pub find_previous-OfFound :
      (c : Context) (id : Option String) (failed : Bool) (rs : List Route)
      → OfRoutes rs
      → OfFound (find_previous c id failed rs)
  unfolding find_previous
  find_previous-OfFound c none failed rs h = tt
  find_previous-OfFound c (some id) failed rs h = elim (Option-cases (find_route c id rs)) [
    | inl f ↦ rw (f, find_previous) tt
    | inr (r, f) ↦ elim (Bool-cases (is_delegate r.action || (is_continue r.action && failed))) [
      | inr g ↦ rw (f, g, find_previous) tt
      | inl g ↦ rw (f, g, find_previous) (All-find? (λ (q : Route). J q.escalation_count) _ rs h f)
    ]
  ]

  pub link_previous-OfLinked :
      (previous prior : Option Route) (os : List Outcome) (e : Evidence)
      → OfPrevious J previous
      → OfPrevious J prior
      → OfLinked (link_previous previous prior os e)
  unfolding link_previous
  link_previous-OfLinked none none os e h g = tt
  link_previous-OfLinked none (some prior) os e h g =
      elim (Bool-cases (status_passed (outcome_of prior.route_id os))) [
        | inl f ↦ rw (f, link_previous) tt
        | inr f ↦ rw (f, link_previous) g
      ]
  link_previous-OfLinked (some previous) none os e h g = h
  link_previous-OfLinked (some previous) (some prior) os e h g =
      elim (Bool-cases (
        not (previous.route_id == prior.route_id)
        && (is_delegate previous.action || not (status_passed (outcome_of prior.route_id os))))) [
          | inl f ↦ rw (f, link_previous) tt
          | inr f ↦ rw (f, link_previous) h
        ]

pub asks_or_continues-lem : (b : Bool) → is_delegate (asks_or_continues b) ≡ false
asks_or_continues-lem true = refl
asks_or_continues-lem false = refl

-- A choice keeps the count of the retry, or goes back to that of the predecessor, and finishes
-- without a delegation.
module _ (J : ℕ → Type 0) (previous : Option Route) (before : OfPrevious J previous)
    (zero : J 0) where
  count_of-lem : J (count_of previous)
  count_of-lem = go previous before
    where
      go : (o : Option Route) → OfPrevious J o → J (count_of o)
      go none h = zero
      go (some q) h = h

  settle-OfChoice :
      (s : Selection) (chosen : Option Override) (write_risk : Bool) (r : Retry)
      → J r.count
      → OfChoice J (settle s chosen write_risk (count_of previous) r)
  unfolding settle
  settle-OfChoice (Selection.denied reason) chosen write_risk r h =
      elim (Bool-cases (is_increased r.state)) [
        | inl e ↦ (asks_or_continues-lem _, rw (e, settle) (count_of-lem))
        | inr e ↦ (asks_or_continues-lem _, rw (e, settle) h)
      ]
  settle-OfChoice (Selection.chosen v level reason) chosen write_risk r h =
      elim (Bool-cases (sum_is_ultra level && write_risk)) [
        | inl e ↦ rw (e, settle) (refl, h)
        | inr e ↦ rw (e, settle) h
      ]

  pub choose-OfChoice :
      (d : Definition) (catalog : List CatalogEntry) (write_risk : Bool)
      (resolved : Overrides.Resolved) (r : Retry)
      → J r.count
      → OfChoice J (choose d catalog write_risk resolved (count_of previous) r)
  unfolding choose
  choose-OfChoice d catalog write_risk resolved r h =
      let o = effective (override_of resolved) r in
      elim (Bool-cases (Overrides.is_disabled resolved)) [
        | inl off ↦ rw (off, choose) (refl, h)
        | inr on ↦ elim (Bool-cases (effort_is_ultra o && write_risk)) [
          | inl e ↦ rw (on, e, choose) (refl, h)
          | inr e ↦ elim (Option-cases (select d catalog (request_of o r) r.level o)) [
            | inl f ↦ rw (on, e, f, choose) tt
            | inr (s, f) ↦
                rw (on, e, f, choose) (settle-OfChoice s (override_of resolved) write_risk r h)
          ]
        ]
      ]

-- Only a claim whose override is not disabled delegates.
pub choose_live :
    (d : Definition) (catalog : List CatalogEntry) (write_risk : Bool)
    (resolved : Overrides.Resolved) (before : ℕ) (r r' : Retry) (v : Target)
    (level : WorkLevel ⊎ Effort)
    → choose d catalog write_risk resolved before r ≡ Choice.delegates v level r'
    → Overrides.is_disabled resolved ≡ false
unfolding choose
choose_live d catalog write_risk resolved before r r' v level h =
    elim (Bool-cases (Overrides.is_disabled resolved)) [
      | inl off ↦ cc (rw (off, choose) at h)
      | inr on ↦ on
    ]

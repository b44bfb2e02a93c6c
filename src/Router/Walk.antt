-- ===== src/Router/Walk.antt =====
-- A property of the store and the route of every answer of `routeWithStore` of scripts/lib/router.mjs
-- follows from the same of its two commits.
use adaptive_model_router.Overrides
use adaptive_model_router.Common.{
  Bool, Bool-cases, List, Option, String, [], false, inl, inr, refl, some, true, ℕ, ◌∷◌, ◌≡◌, ◌⊎◌,
}
use adaptive_model_router.Gate.Ticket.{Crypto}
use adaptive_model_router.Policy.{Policy, Target}
use adaptive_model_router.Router.{Action, Decision, Route, is_delegate}
use adaptive_model_router.Router.Answers.{OfAnswer, OfChoice, OfRoutes}
use adaptive_model_router.Router.Choose.{Choice, once_of}
use adaptive_model_router.Router.Commit.{
  Active, Committed, Store, active_delegation, commit_delegate, commit_plain,
}
use adaptive_model_router.Router.Plan.{Retry}
use adaptive_model_router.Router.Request.{Answer, Facts, Others, delegate_route}
use adaptive_model_router.Router.Routed.{
  answer_plain, commit_choice, fall_back, finish, plain, resolved_in, settle_claim,
}
use adaptive_model_router.Vocabulary.{Effort, WorkLevel}

module _ (x : Crypto) (legacy_block : Option String) (g : Overrides.GlobalKeys) (f : Facts) where
  -- What a proof on every answer gives: an invariant of the stores, a property of the counts that every
  -- plan keeps, and that a commit of either kind has the property. `C` relates the store of a choice, from
  -- which the override of a delegation comes, to the store of its commit.
  pub record Basis (J : ℕ → Type 0) (I : Store → Type 0) (C : Store → Store → Type 0)
      (R : Store → Route → Type 0) : Type 0 where
    pub zero : J 0
    pub counts : (s : Store) → I s → OfRoutes J s.routes
    pub plain_ok :
        (r : Route) (require_idle : Bool) (s s' : Store)
        → I s
        → is_delegate r.action ≡ false
        → J r.escalation_count
        → commit_plain x legacy_block f.context r require_idle s ≡ Committed.stored s'
        → R s' r
    pub delegate_ok :
        (r : Route) (target : Target) (choice s s' : Store)
        → C choice s
        → Overrides.is_disabled (resolved_in x legacy_block g f choice) ≡ false
        → I s
        → r.target ≡ some target
        → J r.escalation_count
        → commit_delegate x legacy_block f.context r target
            (once_of (resolved_in x legacy_block g f choice))
            f.admission
            s
          ≡ Committed.stored s'
        → R s' r

  -- What claims with these steps of others between choice and commit run through, from `s` on.
  abbrev pub Pairs : (Store → Store → Type 0) → List (Store → Store) → Store → Type 0
  Pairs C [] s = Unit
  Pairs C (other ∷ others) s = C s (other s) × Pairs C others (other s)

  -- Other processes keep the invariant.
  pub record Keeps (I : Store → Type 0) (o : Others) : Type 0 where
    pub planning : (s : Store) → I s → I (o.planning s)
    pub first : (s : Store) → I s → I (o.first s)
    pub second : (s : Store) → I s → I (o.second s)

  module _ {J : ℕ → Type 0} {I : Store → Type 0} {C : Store → Store → Type 0}
      {R : Store → Route → Type 0} (b : Basis J I C R) where
    answer_plain-OfAnswer :
        (r : Route) (c : Committed)
        → ((s : Store) → c ≡ Committed.stored s → R s r)
        → OfAnswer R (answer_plain x legacy_block g f r c)
    answer_plain-OfAnswer r (Committed.stored s) h = h s refl
    answer_plain-OfAnswer r (Committed.busy id) h = tt
    answer_plain-OfAnswer r Committed.retry h = tt
    answer_plain-OfAnswer r (Committed.fallback reason) h = tt
    answer_plain-OfAnswer r Committed.raises h = tt

    pub plain-OfAnswer :
        (action : Action) (stage : Option String) (require_idle : Bool) (s : Store)
        → is_delegate action ≡ false
        → I s
        → OfAnswer R (plain x legacy_block g f action stage require_idle s)
    plain-OfAnswer action stage require_idle s plain_action i =
        answer_plain-OfAnswer _ _ (λ s'. b.plain_ok _ require_idle s s' i plain_action b.zero)

    fall_back-OfAnswer :
        (count : ℕ) (s : Store) → I s → J count → OfAnswer R (fall_back x legacy_block g f count s)
    fall_back-OfAnswer count s i j =
        answer_plain-OfAnswer _ _ (λ s'. b.plain_ok _ true s s' i refl j)

    pub finish-OfAnswer :
        (action : Action) (stage : String) (previous : Option Route) (count : ℕ) (own : Decision)
        (s : Store)
        → is_delegate action ≡ false
        → I s
        → J count
        → OfAnswer R (finish x legacy_block g f action stage previous count own s)
    finish-OfAnswer action stage previous count own s plain_action i j =
        answer_plain-OfAnswer _ _ (λ s'. b.plain_ok _ true s s' i plain_action j)

    settle_claim-OfAnswer :
        (next : Answer) (r : Route) (count : ℕ) (before : Store) (c : Committed)
        → OfAnswer R next
        → I before
        → J count
        → ((s : Store) → c ≡ Committed.stored s → R s r)
        → OfAnswer R (settle_claim x legacy_block g f next r count before c)
    settle_claim-OfAnswer next r count before (Committed.stored s) n i j h = h s refl
    settle_claim-OfAnswer next r count before (Committed.busy id) n i j h = tt
    settle_claim-OfAnswer next r count before Committed.retry n i j h = n
    settle_claim-OfAnswer next r count before (Committed.fallback reason) n i j h =
        fall_back-OfAnswer count before i j
    settle_claim-OfAnswer next r count before Committed.raises n i j h = tt

    pub idle-OfAnswer :
        (y : Answer) (a : Active)
        → OfAnswer R y
        → OfAnswer R (elim a [
          | Active.broken ↦ Answer.raises
          | Active.active id ↦ Answer.busy id
          | Active.none_active ↦ y
        ])
    idle-OfAnswer y Active.broken h = tt
    idle-OfAnswer y (Active.active id) h = tt
    idle-OfAnswer y Active.none_active h = h

    pub commit_choice-OfAnswer :
        (next : Answer) (p : Policy) (stage : String) (previous : Option Route) (own : Decision)
        (s s' : Store) (c : Choice)
        → OfAnswer R next
        → C s s'
        → ((target : Target) (level : WorkLevel ⊎ Effort) (r : Retry)
            → c ≡ Choice.delegates target level r
            → Overrides.is_disabled (resolved_in x legacy_block g f s) ≡ false)
        → I s
        → I s'
        → OfChoice J c
        → OfAnswer R (
            commit_choice x legacy_block g f next p stage previous
              (resolved_in x legacy_block g f s)
              own
              s
              s'
              c)
    unfolding commit_choice
    commit_choice-OfAnswer next p stage previous own s s' (Choice.finishes action code state count)
          n pair live i i' (plain_action, j) =
        finish-OfAnswer action stage previous count own s plain_action i j
    commit_choice-OfAnswer next p stage previous own s s' Choice.raises n pair live i i' h = tt
    commit_choice-OfAnswer next p stage previous own s s' (Choice.delegates target level r) n pair
          live i i' j =
        elim (Bool-cases f.package_accepted) [
          | inr e ↦ rw (e, commit_choice) (fall_back-OfAnswer r.count s i j)
          | inl e ↦
              rw (e, commit_choice)
                (idle-OfAnswer _ (active_delegation x legacy_block f.context s.gate)
                  (elim (Bool-cases f.hooks_ready) [
                    | inr h ↦ rw h (fall_back-OfAnswer r.count s' i' j)
                    | inl h ↦ rw h (
                        settle_claim-OfAnswer next
                          (delegate_route f p stage previous target level r) r.count s' _ n i' j
                          (λ s2.
                            b.delegate_ok _ target s s' s2 pair (live target level r refl) i' refl
                              j))
                  ]))
        ]

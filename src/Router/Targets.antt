-- ===== src/Router/Targets.antt =====
-- Which targets a stage may be delegated to: the choice of scripts/lib/router.mjs under an accepted
-- policy.
use adaptive_model_router.Overrides
use adaptive_model_router.Common.{
  All, All-find?, Bool, Bool-cases, List, Option, Option-cases, String, arith, bool_eq, false,
  filter, find?, find?-holds, inl, inr, nat_eq, none, some, string_eq, subst, text_eq, true, ℕ,
  ◌&&◌, ◌==◌, ◌≡◌, ◌⊎◌,
}
use adaptive_model_router.Overrides.{resolve_override}
use adaptive_model_router.Policy.{Definition, Policy, Target, target_allowed}
use adaptive_model_router.Policy.Bindings.{compile-IsBound}
use adaptive_model_router.Policy.Compile.{compile_model_policy}
use adaptive_model_router.Policy.Resolve.{
  CatalogEntry, FallbackReason, Override, Request, Selection, available, delegate_request, is_empty,
  resolve_model, resolve_model_target, resolve_value, satisfies_gate, targets_of_effort,
}
use adaptive_model_router.Policy.Scope.{gate_minimum, gate_stronger, meets_minimum, passes_previous}
use adaptive_model_router.Policy.Select.{
  Chosen, IsFit, gate_filter, resolve_model_target-IsFit, scope_of_effort,
}
use adaptive_model_router.Router.Choose.{
  Choice, choose, effective, effort_is_ultra, override_of, request_of, resolve_unlevelled, select,
  settle, sum_is_ultra,
}
use adaptive_model_router.Router.Plan.{Retry, is_increased}
use adaptive_model_router.Vocabulary.{
  Effort, WorkLevel, category_eq, effort_eq, failure_eq, gate_eq, level_eq, signal_eq,
}

-- The tests on a level of effort leave a fit target, or nothing.
module _ (d : Definition) (catalog : List CatalogEntry) (q : Request)
    (bound : (l : WorkLevel) → target_allowed d (d.targets l) ≡ true) where
  eligible-IsFit :
      (eligible : List Target) (v : Target)
      → All (λ v. (satisfies_gate d q v ≡ true) × (target_allowed d v ≡ true)) eligible
      → find? (available catalog) eligible ≡ some v
      → IsFit d catalog q bound v
  eligible-IsFit eligible v h found =
      let (gate, scope) =
        All-find? (λ v. (satisfies_gate d q v ≡ true) × (target_allowed d v ≡ true))
          (available catalog) eligible h found in
      (find?-holds (available catalog) eligible found, gate, scope)

  resolve_unlevelled-IsFit :
      (effort : Effort) → Chosen (IsFit d catalog q bound) (resolve_unlevelled d catalog q effort)
  unfolding resolve_unlevelled
  resolve_unlevelled-IsFit effort = elim (Bool-cases (is_empty (targets_of_effort d effort))) [
    | inl e ↦ rw (e, resolve_unlevelled) tt
    | inr e ↦
        let eligible = filter (satisfies_gate d q) (targets_of_effort d effort) in
        elim (Bool-cases (is_empty eligible)) [
          | inl f ↦ rw (e, f, resolve_unlevelled) tt
          | inr f ↦ elim (Option-cases (find? (available catalog) eligible)) [
            | inl g ↦ rw (e, f, g, resolve_unlevelled) tt
            | inr (v, g) ↦
                rw (e, f, g, resolve_unlevelled)
                  (eligible-IsFit eligible v
                    (gate_filter d catalog q bound (targets_of_effort d effort)
                      (scope_of_effort d catalog q bound effort))
                    g)
          ]
        ]
  ]

  -- What `select` gives is a selection of the resolver, or none.
  abbrev pub AllChosen : Option Selection → Type 0
  AllChosen none = Unit
  AllChosen (some s) = Chosen (IsFit d catalog q bound) s

  select-IsFit :
      (level : Option WorkLevel) (o : Option Override) → AllChosen (select d catalog q level o)
  unfolding select
  select-IsFit (some level) o = resolve_model_target-IsFit d catalog q bound o
  select-IsFit none none = tt
  select-IsFit none (some o) = elim (Option-cases o.model) [
    | inr (model, e) ↦ rw (e, select) (resolve_model_target-IsFit d catalog q bound (some o))
    | inl e ↦ elim (Option-cases o.effort) [
      | inl f ↦ rw (e, f, select) tt
      | inr (effort, f) ↦ elim (Bool-cases (d.schema_version == 2)) [
        | inl g ↦ rw (e, f, g, select) (resolve_unlevelled-IsFit effort)
        | inr g ↦ rw (e, f, g, select) tt
      ]
    ]
  ]

-- A delegation comes from a chosen target, and the retry is the planned one.
settle_inv :
    (s : Selection) (chosen : Option Override) (write_risk : Bool) (before : ℕ) (r r' : Retry)
    (v : Target) (level : WorkLevel ⊎ Effort)
    → settle s chosen write_risk before r ≡ Choice.delegates v level r'
    → (reason : FallbackReason) × (s ≡ Selection.chosen v level reason)
      × ((sum_is_ultra level && write_risk) ≡ false)
      × (r' ≡ r)
unfolding settle
settle_inv (Selection.denied reason) chosen write_risk before r r' v level h = cc
settle_inv (Selection.chosen w l reason) chosen write_risk before r r' v level h =
    elim (Bool-cases (sum_is_ultra l && write_risk)) [
      | inl e ↦ cc (rw e at h)
      | inr e ↦ (reason, cc (rw e at h), cc (rw e at h), cc (rw e at h))
    ]

module _ (d : Definition) (catalog : List CatalogEntry) (write_risk : Bool)
    (resolved : Overrides.Resolved) (before : ℕ) (r r' : Retry) (v : Target)
    (level : WorkLevel ⊎ Effort)
    (h : choose d catalog write_risk resolved before r ≡ Choice.delegates v level r') where
  pub choose_inv :
      (reason : FallbackReason) × (select d catalog
          (request_of (effective (override_of resolved) r) r)
          r.level
          (effective (override_of resolved) r)
        ≡ some (Selection.chosen v level reason))
      × ((sum_is_ultra level && write_risk) ≡ false)
      × (r' ≡ r)
  unfolding choose
  choose_inv =
      let o = effective (override_of resolved) r in
      elim (Bool-cases (Overrides.is_disabled resolved)) [
        | inl off ↦ cc (rw (off, choose) at h)
        | inr on ↦ elim (Bool-cases (effort_is_ultra o && write_risk)) [
          | inl e ↦ cc (rw (on, e, choose) at h)
          | inr e ↦ elim (Option-cases (select d catalog (request_of o r) r.level o)) [
            | inl f ↦ cc (rw (on, e, f, choose) at h)
            | inr (s, f) ↦
                let (reason, is_chosen, risk, same) =
                  settle_inv s (override_of resolved) write_risk before r r' v level
                    (rw (on, e, f, choose) at h) in
                (reason, cc, risk, same)
          ]
        ]
      ]

module _ (is_exact_slug : String → Bool) (digest_of : Definition → String) (d : Definition)
    {p : Policy} (accepted : compile_model_policy is_exact_slug digest_of d ≡ inl p)
    (catalog : List CatalogEntry) (write_risk : Bool) (resolved : Overrides.Resolved) (before : ℕ)
    (r r' : Retry) (v : Target) (level : WorkLevel ⊎ Effort)
    (h : choose p.definition catalog write_risk resolved before r
      ≡ Choice.delegates v level r') where
  pub choose-fit :
      (available catalog v ≡ true)
      × (satisfies_gate p.definition (request_of (effective (override_of resolved) r) r) v ≡ true)
      × (target_allowed p.definition v ≡ true)
  choose-fit =
      let o = effective (override_of resolved) r in
      let q = request_of o r in
      let bound =
        λ (l : WorkLevel). (compile-IsBound is_exact_slug digest_of d accepted l).allowed in
      let (reason, selected, risk, same) =
        choose_inv p.definition catalog write_risk resolved before r r' v level h in
      subst (AllChosen p.definition catalog q bound) selected
        (select-IsFit p.definition catalog q bound r.level o)

  -- Under an accepted policy, whatever the overrides and the plan of the retry, a claim delegates only
  -- to a target that the catalog offers, that the policy allows and that is no weaker than the minimum
  -- of the demand.
  pub choose-allowed :
      (available catalog v ≡ true)
      × (target_allowed p.definition v ≡ true)
      × (meets_minimum p.definition (request_of (effective (override_of resolved) r) r) v ≡ true)
  choose-allowed =
      let (offered, gate, allowed) = choose-fit in
      (
        offered,
        allowed,
        gate_minimum p.definition (request_of (effective (override_of resolved) r) r) v gate,
      )

  -- Under an accepted policy, also where the user overrides the target, a claim whose retry is increased
  -- delegates, under schema version 2, only to a target above the failed one in the order of the policy
  -- and, under version 1, only to another model, or to the same one with a greater effort.
  pub choose-passes_previous :
      (t : Target)
      → r.previous_target ≡ some t
      → is_increased r.state ≡ true
      → passes_previous p.definition t v ≡ true
  unfolding delegate_request
  choose-passes_previous t was up =
      gate_stronger p.definition (request_of (effective (override_of resolved) r) r) t v was up
        choose-fit.1

module _ (d : Definition) (catalog : List CatalogEntry) where
  resolve_value-chosen :
      (q : Request) (w v : Target) (level : WorkLevel ⊎ Effort) (reason : FallbackReason)
      → resolve_value d catalog q w ≡ Selection.chosen v level reason
      → v ≡ w
  unfolding resolve_value
  resolve_value-chosen q w v level reason h = ground arith

  select-chosen :
      (q : Request) (level : Option WorkLevel) (w v : Target) (l : WorkLevel ⊎ Effort)
      (reason : FallbackReason)
      → select d catalog q level (some (record { model = some w.model; effort = some w.effort }))
        ≡ some (Selection.chosen v l reason)
      → v ≡ w
  unfolding select resolve_model_target resolve_override resolve_model
  select-chosen q (some own) w v l reason h = resolve_value-chosen q w v l reason (ground arith)
  select-chosen q none w v l reason h = resolve_value-chosen q w v l reason (ground arith)

  -- A stage that is held keeps its target: if a retry holds the target of its predecessor and neither
  -- the request nor a stored override names another, a claim delegates to that very target or not at
  -- all.
  pub choose_held :
      (write_risk : Bool) (resolved : Overrides.Resolved) (before : ℕ) (r r' : Retry)
      (held v : Target) (level : WorkLevel ⊎ Effort)
      → override_of resolved ≡ none
      → r.held_target ≡ some held
      → choose d catalog write_risk resolved before r ≡ Choice.delegates v level r'
      → v ≡ held
  choose_held write_risk resolved before r r' held v level free holds h =
      let (reason, selected, risk, same) =
        choose_inv d catalog write_risk resolved before r r' v level h in
      select-chosen _ r.level held v level reason (rw (free, holds) at selected)

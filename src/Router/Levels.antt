-- ===== src/Router/Levels.antt =====
-- The work level that scripts/lib/router.mjs records of a delegation.
use adaptive_model_router.Policy.Resolve
use adaptive_model_router.Overrides
use adaptive_model_router.Common.{
  Bool, Bool-cases, List, Option, Option-cases, String, [], any, arith, bool_eq, false, filter,
  find?, includes, inl, inr, is_some, leb, nat_eq, none, not, refl, some, string_eq, subst, sym,
  text_eq, true, ℕ, ◌&&◌, ◌==◌, ◌||◌, ◌∷◌, ◌≡◌, ◌⊎◌,
}
use adaptive_model_router.Policy.{
  Definition, Policy, Target, level_for_target, same_target, target_allowed,
}
use adaptive_model_router.Policy.Anchors.{compile-anchors}
use adaptive_model_router.Policy.Bindings.{compile-schema}
use adaptive_model_router.Policy.Compile.{compile_model_policy}
use adaptive_model_router.Policy.Resolve.{
  CatalogEntry, DenyReason, FallbackReason, Override, Request, Selection, available,
  default_effort_of, is_empty, level_or_effort, pick_effort, resolve_effort, resolve_model,
  resolve_model_target, resolve_value, satisfies_gate, targets_of_effort, try_levels,
}
use adaptive_model_router.Policy.Scope.{gate_minimum, meets_minimum}
use adaptive_model_router.Router.Choose.{
  Choice, choose, effective, override_of, request_of, resolve_unlevelled, select,
}
use adaptive_model_router.Router.Plan.{Retry}
use adaptive_model_router.Router.Request.{level_named}
use adaptive_model_router.Router.Targets.{choose-fit, choose_inv}
use adaptive_model_router.Vocabulary.{
  Effort, WorkLevel, category_eq, effort_eq, effort_index, failure_eq, gate_eq, level_effort,
  level_eq, signal_eq,
}

-- The level of a chosen target is a level's name, or its effort if it is no level's target.
abbrev Own : Definition → Target → WorkLevel ⊎ Effort → Type 0
Own d v (inl l) = Unit
Own d v (inr effort) = (level_for_target d v ≡ none) × (effort ≡ v.effort)

abbrev HasOwn : Definition → Selection → Type 0
HasOwn d (Selection.chosen v level reason) = Own d v level
HasOwn d (Selection.denied reason) = Unit

module _ (d : Definition) (catalog : List CatalogEntry) (q : Request) where
  level_or_effort-Own : (v : Target) → Own d v (level_or_effort d v)
  level_or_effort-Own v = go (level_for_target d v) refl
    where
      go :
          (o : Option WorkLevel)
          → level_for_target d v ≡ o
          → Own d v (elim o [ none ↦ inr v.effort | some l ↦ inl l ])
      go none e = (e, refl)
      go (some l) e = tt

  try_levels-HasOwn : (ls : List WorkLevel) → HasOwn d (try_levels d catalog q ls)
  unfolding try_levels
  try_levels-HasOwn [] = tt
  try_levels-HasOwn (l ∷ ls) =
      elim (Bool-cases (
        includes q.exclude_models (d.targets l).model
        || not (satisfies_gate d q (d.targets l))
        || not (available catalog (d.targets l)))) [
          | inl e ↦ rw (e, try_levels) (try_levels-HasOwn ls)
          | inr e ↦ rw (e, try_levels) tt
        ]

  resolve_value-HasOwn : (v : Target) → HasOwn d (resolve_value d catalog q v)
  unfolding resolve_value
  resolve_value-HasOwn v = elim (Bool-cases (target_allowed d v)) [
    | inr a ↦ rw (a, resolve_value) tt
    | inl a ↦ elim (Bool-cases (satisfies_gate d q v)) [
      | inr b ↦ rw (a, b, resolve_value) tt
      | inl b ↦ elim (Bool-cases (available catalog v)) [
        | inr c ↦ rw (a, b, c, resolve_value) tt
        | inl c ↦ rw (a, b, c, resolve_value) (level_or_effort-Own v)
      ]
    ]
  ]

  -- A search of the targets of an effort.
  found-HasOwn :
      (p : Target → Bool) (xs : List Target)
      → HasOwn d (elim (find? p xs) [
        | none ↦ Selection.denied DenyReason.explicit_target_unavailable
        | some w ↦ Selection.chosen w (level_or_effort d w) FallbackReason.direct
      ])
  found-HasOwn p xs = elim (Option-cases (find? p xs)) [
    | inl e ↦ rw e tt
    | inr (w, e) ↦ rw e (level_or_effort-Own w)
  ]

  pick_effort-HasOwn : (vs : List Target) → HasOwn d (pick_effort d catalog q vs)
  unfolding pick_effort
  pick_effort-HasOwn [] = tt
  pick_effort-HasOwn (v ∷ vs) =
      found-HasOwn (λ w. any (same_target w) (v ∷ vs) && available catalog w)
        (d.targets q.requested_level ∷ v ∷ vs)

  resolve_effort-HasOwn : (effort : Effort) → HasOwn d (resolve_effort d catalog q effort)
  unfolding resolve_effort
  resolve_effort-HasOwn effort = elim (Bool-cases (is_empty (targets_of_effort d effort))) [
    | inl e ↦ rw (e, resolve_effort) tt
    | inr e ↦ rw (e, resolve_effort) (pick_effort-HasOwn _)
  ]

  resolve_unlevelled-HasOwn : (effort : Effort) → HasOwn d (resolve_unlevelled d catalog q effort)
  unfolding resolve_unlevelled
  resolve_unlevelled-HasOwn effort = elim (Bool-cases (is_empty (targets_of_effort d effort))) [
    | inl e ↦ rw (e, resolve_unlevelled) tt
    | inr e ↦
        elim (Bool-cases (is_empty (filter (satisfies_gate d q) (targets_of_effort d effort)))) [
          | inl f ↦ rw (e, f, resolve_unlevelled) tt
          | inr f ↦
              rw (e, f, resolve_unlevelled)
                (found-HasOwn (available catalog)
                  (filter (satisfies_gate d q) (targets_of_effort d effort)))
        ]
  ]

  resolve_model-HasOwn :
      (model : String) (effort : Option Effort) → HasOwn d (resolve_model d catalog q model effort)
  unfolding resolve_model
  resolve_model-HasOwn model (some effort) = resolve_value-HasOwn _
  resolve_model-HasOwn model none = elim (Option-cases (default_effort_of d model)) [
    | inl e ↦ rw (e, resolve_model) tt
    | inr (effort, e) ↦ rw (e, resolve_model) (resolve_value-HasOwn _)
  ]

  resolve_override-HasOwn :
      (model : Option String) (effort : Option Effort)
      → HasOwn d (Resolve.resolve_override d catalog q model effort)
  unfolding Resolve.resolve_override
  resolve_override-HasOwn (some model) effort = resolve_model-HasOwn model effort
  resolve_override-HasOwn none none = resolve_model-HasOwn _ none
  resolve_override-HasOwn none (some effort) = elim (Bool-cases (d.schema_version == 2)) [
    | inl e ↦ rw (e, Resolve.resolve_override) (resolve_effort-HasOwn effort)
    | inr e ↦ rw (e, Resolve.resolve_override) (resolve_model-HasOwn _ (some effort))
  ]

  resolve_model_target-HasOwn :
      (o : Option Override) → HasOwn d (resolve_model_target d catalog q o)
  unfolding resolve_model_target
  resolve_model_target-HasOwn none =
      try_levels-HasOwn (q.requested_level ∷ d.fallbacks q.requested_level)
  resolve_model_target-HasOwn (some o) = resolve_override-HasOwn o.model o.effort

  abbrev SomeOwn : Option Selection → Type 0
  SomeOwn none = Unit
  SomeOwn (some s) = HasOwn d s

  select-SomeOwn :
      (level : Option WorkLevel) (o : Option Override) → SomeOwn (select d catalog q level o)
  unfolding select
  select-SomeOwn (some level) o = resolve_model_target-HasOwn o
  select-SomeOwn none none = tt
  select-SomeOwn none (some o) = elim (Option-cases o.model) [
    | inr (model, e) ↦ rw (e, select) (resolve_model_target-HasOwn (some o))
    | inl e ↦ elim (Option-cases o.effort) [
      | inl f ↦ rw (e, f, select) tt
      | inr (effort, f) ↦ elim (Bool-cases (d.schema_version == 2)) [
        | inl g ↦ rw (e, f, g, select) (resolve_unlevelled-HasOwn effort)
        | inr g ↦ rw (e, f, g, select) tt
      ]
    ]
  ]

-- The efforts from `low` up are named as the levels.
effort_named :
    (l : WorkLevel) (e : Effort)
    → leb (effort_index (level_effort l)) (effort_index e) ≡ true
    → is_some (level_named (inr e)) ≡ true
effort_named l Effort.none h = ground arith
effort_named l Effort.minimal h = ground arith
effort_named l Effort.low h = refl
effort_named l Effort.medium h = refl
effort_named l Effort.high h = refl
effort_named l Effort.xhigh h = refl
effort_named l Effort.max h = refl
effort_named l Effort.ultra h = refl

module _ (is_exact_slug : String → Bool) (digest_of : Definition → String) (d : Definition)
    {p : Policy} (accepted : compile_model_policy is_exact_slug digest_of d ≡ inl p) where
  Own-level_named :
      (q : Request) (v : Target) (level : WorkLevel ⊎ Effort)
      → Own p.definition v level
      → satisfies_gate p.definition q v ≡ true
      → target_allowed p.definition v ≡ true
      → is_some (level_named level) ≡ true
  Own-level_named q v (inl l) own gate allowed = refl
  Own-level_named q v (inr effort) own gate allowed =
      elim (compile-schema is_exact_slug digest_of d accepted).2 [
        | inr two ↦
            let anchored : is_some (level_for_target p.definition v) ≡ true =
              compile-anchors is_exact_slug digest_of d p accepted two v allowed in
            cc
        | inl one ↦
            let first : (p.definition.schema_version == 2) ≡ false = ground arith in
            let least = rw (first, meets_minimum) at (gate_minimum p.definition q v gate) in
            subst (λ e. is_some (level_named (inr e)) ≡ true) (sym own.1)
              (effort_named q.minimum v.effort least)
      ]

  -- Under an accepted policy every delegation has a work level for its decision: what the choice gives
  -- for a level is the name of one of the six levels, also where it falls back on the name of an effort.
  pub choose-level_named :
      (catalog : List CatalogEntry) (write_risk : Bool) (resolved : Overrides.Resolved) (before : ℕ)
      (r r' : Retry) (v : Target) (level : WorkLevel ⊎ Effort)
      → choose p.definition catalog write_risk resolved before r ≡ Choice.delegates v level r'
      → is_some (level_named level) ≡ true
  choose-level_named catalog write_risk resolved before r r' v level h =
      let o = effective (override_of resolved) r in
      let q = request_of o r in
      let (reason, selected, risk, same) =
        choose_inv p.definition catalog write_risk resolved before r r' v level h in
      let own =
        subst (SomeOwn p.definition catalog q) selected
          (select-SomeOwn p.definition catalog q r.level o) in
      let (offered, gate, allowed) =
        choose-fit is_exact_slug digest_of d accepted catalog write_risk resolved before r r' v
          level h in
      Own-level_named q v level own gate allowed

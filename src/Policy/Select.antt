-- ===== src/Policy/Select.antt =====
-- What a selection of `resolveModelTarget` satisfies, and when it is denied.
use mathlib.Core.Bool.{false≢true}
use adaptive_model_router.Common.{
  &&-true, All, All-filter, Bool, Bool-cases, List, Option, Option-cases, String, [], any, arith,
  bool_eq, false, filter, find?, find?-holds, if◌then◌else◌, includes, inl, inr, map, nat_eq, none,
  not, refl, some, string_eq, subst, sym, true, ◌&&◌, ◌==◌, ◌||◌, ◌∷◌, ◌≡◌, ◌⊎◌,
}
use adaptive_model_router.Policy.{Definition, Target, same_target, same_target-eq, target_allowed}
use adaptive_model_router.Policy.Resolve.{
  CatalogEntry, DenyReason, FallbackReason, Override, Request, Selection, available,
  default_effort_of, is_empty, pick_effort, resolve_effort, resolve_model, resolve_model_target,
  resolve_override, resolve_value, satisfies_gate, targets_of_effort, try_levels,
}
use adaptive_model_router.Vocabulary.{
  Effort, WorkLevel, effort_eq, failure_eq, gate_eq, level_eq, signal_eq, work_levels,
}

-- A chosen target satisfies `P`.
abbrev pub Chosen {ℓ} : (Target → Type ℓ) → Selection → Type ℓ
Chosen P (Selection.chosen v level reason) = P v
Chosen P (Selection.denied reason) = Unit

module _ {ℓ} (P : Target → Type ℓ) where
  All-any : (w : Target) (xs : List Target) → All P xs → any (same_target w) xs ≡ true → P w
  All-any w [] a h = absurd (false≢true h)
  All-any w (x ∷ xs) a h = elim (Bool-cases (same_target w x)) [
    | inl e ↦ subst P (sym (same_target-eq w x e)) a.0
    | inr e ↦ All-any w xs a.1 (rw e at h)
  ]

  All-map :
      (f : WorkLevel → Target) (ls : List WorkLevel)
      → ((l : WorkLevel) → P (f l))
      → All P (map f ls)
  All-map f [] h = tt
  All-map f (l ∷ ls) h = (h l, All-map f ls h)

-- Three tests in a row, and a choice if all hold.
three_tests :
    (P : Target → Type 0) (a g v : Bool) (x y z : DenyReason) (t : Target) (l : WorkLevel ⊎ Effort)
    (s : FallbackReason)
    → (v ≡ true → g ≡ true → a ≡ true → P t)
    → Chosen P (
        if not a
        then Selection.denied x
        else if not g
        then Selection.denied y
        else if not v
        then Selection.denied z
        else Selection.chosen t l s)
three_tests P true true true x y z t l s h = h refl refl refl
three_tests P true true false x y z t l s h = tt
three_tests P true false v x y z t l s h = tt
three_tests P false g v x y z t l s h = tt

module _ (d : Definition) (catalog : List CatalogEntry) (r : Request)
    (bound : (l : WorkLevel) → target_allowed d (d.targets l) ≡ true) where
  -- A fit target is on offer, passes the gate and lies in the policy's scope.
  abbrev pub IsFit : Target → Type 0
  IsFit v =
      (available catalog v ≡ true) × (satisfies_gate d r v ≡ true) × (target_allowed d v ≡ true)

  try_levels-IsFit : (ls : List WorkLevel) → Chosen IsFit (try_levels d catalog r ls)
  unfolding try_levels
  try_levels-IsFit [] = tt
  try_levels-IsFit (l ∷ ls) =
      elim (Bool-cases (
        includes r.exclude_models (d.targets l).model
        || not (satisfies_gate d r (d.targets l))
        || not (available catalog (d.targets l)))) [
          | inl e ↦ rw (e, try_levels) (try_levels-IsFit ls)
          | inr e ↦ rw (e, try_levels) (fit _ _ _ e)
        ]
    where
      fit :
          (x g a : Bool)
          → (x || not g || not a) ≡ false
          → (a ≡ true) × (g ≡ true) × (target_allowed d (d.targets l) ≡ true)
      fit x g a h = (ground arith, ground arith, bound l)

  resolve_value-IsFit : (v : Target) → Chosen IsFit (resolve_value d catalog r v)
  unfolding resolve_value
  resolve_value-IsFit v =
      three_tests IsFit (target_allowed d v) (satisfies_gate d r v) (available catalog v) _ _ _ v _
        _ (λ offered gate scope. (offered, gate, scope))

  -- What `filter` keeps passes the gate and keeps what held before.
  pub gate_filter :
      (xs : List Target)
      → All (λ v. target_allowed d v ≡ true) xs
      → All
          (λ v. (satisfies_gate d r v ≡ true) × (target_allowed d v ≡ true))
          (filter (satisfies_gate d r) xs)
  gate_filter [] h = tt
  gate_filter (x ∷ xs) h = elim (Bool-cases (satisfies_gate d r x)) [
    | inl e ↦ rw e ((e, h.0), gate_filter xs h.1)
    | inr e ↦ rw e (gate_filter xs h.1)
  ]

  pick_effort-IsFit :
      (eligible : List Target)
      → All (λ v. (satisfies_gate d r v ≡ true) × (target_allowed d v ≡ true)) eligible
      → Chosen IsFit (pick_effort d catalog r eligible)
  unfolding pick_effort
  pick_effort-IsFit [] h = tt
  pick_effort-IsFit (v ∷ vs) h =
      elim (Option-cases (find? is_eligible (d.targets r.requested_level ∷ v ∷ vs))) [
        | inl e ↦ rw (e, pick_effort) tt
        | inr (w, e) ↦
            rw (e, pick_effort)
              (found w (find?-holds is_eligible (d.targets r.requested_level ∷ v ∷ vs) e))
      ]
    where
      is_eligible : Target → Bool
      is_eligible w = any (same_target w) (v ∷ vs) && available catalog w

      found : (w : Target) → is_eligible w ≡ true → IsFit w
      found w g =
          let (same, offered) = &&-true (any (same_target w) (v ∷ vs)) (available catalog w) g in
          let (gate, scope) = All-any _ w (v ∷ vs) h same in (offered, gate, scope)

  pub scope_of_effort :
      (effort : Effort) → All (λ v. target_allowed d v ≡ true) (targets_of_effort d effort)
  unfolding targets_of_effort
  scope_of_effort effort =
      All-filter (λ v. target_allowed d v ≡ true) (λ v. v.effort == effort)
        (map d.targets work_levels)
        (All-map (λ v. target_allowed d v ≡ true) d.targets work_levels bound)

  resolve_effort-IsFit : (effort : Effort) → Chosen IsFit (resolve_effort d catalog r effort)
  unfolding resolve_effort
  resolve_effort-IsFit effort = elim (Bool-cases (is_empty (targets_of_effort d effort))) [
    | inl e ↦ rw (e, resolve_effort) tt
    | inr e ↦
        rw (e, resolve_effort)
          (pick_effort-IsFit (filter (satisfies_gate d r) (targets_of_effort d effort))
            (gate_filter (targets_of_effort d effort) (scope_of_effort effort)))
  ]

  resolve_model-IsFit :
      (model : String) (effort : Option Effort)
      → Chosen IsFit (resolve_model d catalog r model effort)
  unfolding resolve_model
  resolve_model-IsFit model (some effort) = resolve_value-IsFit _
  resolve_model-IsFit model none = elim (Option-cases (default_effort_of d model)) [
    | inl e ↦ rw (e, resolve_model) tt
    | inr (effort, e) ↦ rw (e, resolve_model) (resolve_value-IsFit _)
  ]

  resolve_override-IsFit :
      (model : Option String) (effort : Option Effort)
      → Chosen IsFit (resolve_override d catalog r model effort)
  unfolding resolve_override
  resolve_override-IsFit (some model) effort = resolve_model-IsFit model effort
  resolve_override-IsFit none none = resolve_model-IsFit _ none
  resolve_override-IsFit none (some effort) = elim (Bool-cases (d.schema_version == 2)) [
    | inl e ↦ rw (e, resolve_override) (resolve_effort-IsFit effort)
    | inr e ↦ rw (e, resolve_override) (resolve_model-IsFit _ (some effort))
  ]

  pub resolve_model_target-IsFit :
      (o : Option Override) → Chosen IsFit (resolve_model_target d catalog r o)
  unfolding resolve_model_target
  resolve_model_target-IsFit none =
      try_levels-IsFit (r.requested_level ∷ d.fallbacks r.requested_level)
  resolve_model_target-IsFit (some o) = resolve_override-IsFit o.model o.effort

-- The loop without an override: a denial names a level for each refusal.
module _ (d : Definition) (catalog : List CatalogEntry) (r : Request) where
  -- The test that the loop puts to a level.
  abbrev pub is_usable : WorkLevel → Bool
  is_usable l =
      not (includes r.exclude_models (d.targets l).model)
      && satisfies_gate d r (d.targets l)
      && available catalog (d.targets l)

  -- A selection answers a search: it is denied, or it chooses that level's target.
  abbrev pub Answers : Option WorkLevel → Selection → Type 0
  Answers none s =
      s
      ≡ Selection.denied (
          if r.escalation
          then DenyReason.monotonic_escalation_unavailable
          else DenyReason.no_allowed_target)
  Answers (some l) s =
      (reason : FallbackReason) × (s ≡ Selection.chosen (d.targets l) (inl l) reason)

  try_levels-Answers :
      (ls : List WorkLevel) → Answers (find? is_usable ls) (try_levels d catalog r ls)
  unfolding try_levels
  try_levels-Answers [] = refl
  try_levels-Answers (l ∷ ls) =
      step (includes r.exclude_models (d.targets l).model) (satisfies_gate d r (d.targets l))
        (available catalog (d.targets l)) (find? is_usable ls) (try_levels d catalog r ls)
        (if l == r.requested_level
          then FallbackReason.direct
          else if d.schema_version == 2
          then FallbackReason.model_capability_fallback
          else FallbackReason.effort_capability_fallback)
        (try_levels-Answers ls)
    where
      step :
          (x g a : Bool) (o : Option WorkLevel) (s : Selection) (reason : FallbackReason)
          → Answers o s
          → Answers
              (if not x && g && a then some l else o)
              (if x || not g || not a then s else Selection.chosen (d.targets l) (inl l) reason)
      step true g a o s k h = h
      step false false a o s k h = h
      step false true false o s k h = h
      step false true true o s k h = (k, refl)

  -- Without an override the loop is a search for the first usable level among the requested level and
  -- its fallbacks: it chooses that level's target, and is denied exactly if there is none.
  pub resolve_first :
      Answers
        (find? is_usable (r.requested_level ∷ d.fallbacks r.requested_level))
        (resolve_model_target d catalog r none)
  unfolding resolve_model_target
  resolve_first = try_levels-Answers (r.requested_level ∷ d.fallbacks r.requested_level)

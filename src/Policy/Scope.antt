-- ===== src/Policy/Scope.antt =====
-- What the router may rely on when a target comes from an accepted policy.
use adaptive_model_router.Common.{
  &&-true, Bool, List, Option, String, [], arith, bool_eq, false, if◌then◌else◌, inl, leb, max,
  nat_eq, not, some, string_eq, subst, true, ◌&&◌, ◌+◌, ◌==◌, ◌||◌, ◌∷◌, ◌≡◌, ◌⊎◌,
}
use adaptive_model_router.Policy.{
  Definition, Policy, Target, same_target, target_above, target_allowed, target_below,
}
use adaptive_model_router.Policy.Bindings.{compile-IsBound}
use adaptive_model_router.Policy.Compile.{compile_model_policy}
use adaptive_model_router.Policy.Resolve.{
  CatalogEntry, FallbackReason, Override, Request, Selection, available, gate_v1, gate_v2,
  is_max_level, keeps_v1, keeps_v2, level_of_previous, may_top_v2, may_ultra_v1, previous_effort_in,
  resolve_model_target, satisfies_gate,
}
use adaptive_model_router.Policy.Select.{Chosen, resolve_model_target-IsFit}
use adaptive_model_router.Vocabulary.{
  Effort, WorkLevel, effort_eq, effort_index, failure_eq, gate_eq, level_effort, level_eq,
  signal_eq,
}

-- `v` is no weaker than the request's minimum level allows.
abbrev pub meets_minimum : Definition → Request → Target → Bool
meets_minimum d r v =
    if d.schema_version == 2
    then not (target_below d v (d.targets r.minimum))
    else leb (effort_index (level_effort r.minimum)) (effort_index v.effort)

-- `v` is above `previous` in the policy's order of targets; under version 1, greater in effort where the
-- model is the same.
abbrev pub passes_previous : Definition → Target → Target → Bool
passes_previous d previous v =
    if d.schema_version == 2
    then target_above d v previous
    else not (v.model == previous.model)
      || leb (effort_index previous.effort + 1) (effort_index v.effort)

-- `v` is the exceptional target: of the top level, or of effort `ultra`.
abbrev pub is_top : Definition → Target → Bool
is_top d v =
    if d.schema_version == 2
    then same_target v (d.targets WorkLevel.ultra)
    else v.effort == Effort.ultra

-- The previous target is the one just below the top.
abbrev pub was_max : Definition → Option Target → Bool
was_max d previous =
    if d.schema_version == 2
    then is_max_level (level_of_previous d previous)
    else previous_effort_in previous (Effort.max ∷ [])

gate_v2-parts :
    (d : Definition) (r : Request) (v : Target)
    → gate_v2 d r v ≡ true
    → (not (target_below d v (d.targets r.minimum)) ≡ true)
      × (keeps_v2 d r.escalation r.previous v ≡ true)
      × (may_top_v2 d r v ≡ true)
unfolding gate_v2
gate_v2-parts d r v h =
    let (minimum, rest) = &&-true (not (target_below d v (d.targets r.minimum))) _ h in
    let (keeps, top) = &&-true (keeps_v2 d r.escalation r.previous v) _ rest in
    (minimum, keeps, top)

gate_v1-parts :
    (r : Request) (v : Target)
    → gate_v1 r v ≡ true
    → (leb (effort_index (level_effort r.minimum)) (effort_index v.effort) ≡ true)
      × (keeps_v1 r.escalation r.previous v ≡ true)
      × (may_ultra_v1 r v ≡ true)
unfolding gate_v1
gate_v1-parts r v h =
    let (minimum, rest) =
      &&-true (leb (effort_index (level_effort r.minimum)) (effort_index v.effort)) _ h in
    let (keeps, exceptional) = &&-true (keeps_v1 r.escalation r.previous v) _ rest in
    (minimum, keeps, (&&-true (may_ultra_v1 r v) _ exceptional).0)

-- The gate under either version.
gate_cases {ℓ} :
    (P : Bool → Type ℓ) (d : Definition) (r : Request) (v : Target)
    → satisfies_gate d r v ≡ true
    → (gate_v2 d r v ≡ true → P true)
    → (gate_v1 r v ≡ true → P false)
    → P (d.schema_version == 2)
unfolding satisfies_gate
gate_cases P d r v h second first = go (d.schema_version == 2) h
  where
    go : (b : Bool) → (if b then gate_v2 d r v else gate_v1 r v) ≡ true → P b
    go true g = second g
    go false g = first g

pub gate_minimum :
    (d : Definition) (r : Request) (v : Target)
    → satisfies_gate d r v ≡ true
    → meets_minimum d r v ≡ true
gate_minimum d r v h =
    gate_cases
      (λ b.
        (if b
          then not (target_below d v (d.targets r.minimum))
          else leb (effort_index (level_effort r.minimum)) (effort_index v.effort))
        ≡ true)
      d r v h (λ g. (gate_v2-parts d r v g).0) (λ g. (gate_v1-parts r v g).0)

keeps_v2-up :
    (d : Definition) (up : Bool) (o : Option Target) (previous v : Target)
    → o ≡ some previous
    → up ≡ true
    → keeps_v2 d up o v ≡ true
    → target_above d v previous ≡ true
keeps_v2-up d up o previous v e f h = rw (e, f) at h

keeps_v1-up :
    (up : Bool) (o : Option Target) (previous v : Target)
    → o ≡ some previous
    → up ≡ true
    → keeps_v1 up o v ≡ true
    → (not (v.model == previous.model)
        || leb (effort_index previous.effort + 1) (effort_index v.effort))
      ≡ true
keeps_v1-up up o previous v e f h = rw (e, f) at h

pub gate_stronger :
    (d : Definition) (r : Request) (previous v : Target)
    → r.previous ≡ some previous
    → r.escalation ≡ true
    → satisfies_gate d r v ≡ true
    → passes_previous d previous v ≡ true
gate_stronger d r previous v was up h =
    gate_cases
      (λ b.
        (if b
          then target_above d v previous
          else not (v.model == previous.model)
            || leb (effort_index previous.effort + 1) (effort_index v.effort))
        ≡ true)
      d r v h
      (λ g. keeps_v2-up d r.escalation r.previous previous v was up (gate_v2-parts d r v g).1)
      (λ g. keeps_v1-up r.escalation r.previous previous v was up (gate_v1-parts r v g).1)

-- An exceptional target without an override needs an escalation from the level below it.
exception :
    (top override up max : Bool)
    → override ≡ false
    → top ≡ true
    → (not top || override || (up && max)) ≡ true
    → (up ≡ true) × (max ≡ true)
exception top override up max e f h = ground arith

gate_top :
    (d : Definition) (r : Request) (v : Target)
    → r.has_override ≡ false
    → is_top d v ≡ true
    → satisfies_gate d r v ≡ true
    → (r.escalation ≡ true) × (was_max d r.previous ≡ true)
gate_top d r v free top h =
    gate_cases
      (λ b.
        (if b then same_target v (d.targets WorkLevel.ultra) else v.effort == Effort.ultra) ≡ true
        → (r.escalation ≡ true)
          × ((if b
                then is_max_level (level_of_previous d r.previous)
                else previous_effort_in r.previous (Effort.max ∷ []))
              ≡ true))
      d r v h (λ g t. exception _ r.has_override r.escalation _ free t (gate_v2-parts d r v g).2)
      (λ g t.
        exception (v.effort == Effort.ultra) r.has_override r.escalation _ free t
          (gate_v1-parts r v g).2)
      top

module _ (is_exact_slug : String → Bool) (digest_of : Definition → String) (d : Definition)
    {p : Policy} (accepted : compile_model_policy is_exact_slug digest_of d ≡ inl p)
    (catalog : List CatalogEntry) (r : Request) (o : Option Override) where
  -- Under an accepted policy, every target that the resolver chooses, with or without an override, is
  -- on offer in the catalog, passes the gate of the request and lies in the policy's scope.
  pub accepted-resolve :
      (v : Target) (level : WorkLevel ⊎ Effort) (reason : FallbackReason)
      → resolve_model_target p.definition catalog r o ≡ Selection.chosen v level reason
      → (available catalog v ≡ true)
        × (satisfies_gate p.definition r v ≡ true)
        × (target_allowed p.definition v ≡ true)
  accepted-resolve v level reason h =
      subst
        (Chosen (λ v.
          (available catalog v ≡ true)
          × (satisfies_gate p.definition r v ≡ true)
          × (target_allowed p.definition v ≡ true)))
        h
        (resolve_model_target-IsFit p.definition catalog r
          (λ l. (compile-IsBound is_exact_slug digest_of d accepted l).allowed) o)

  -- Under an accepted policy a chosen target is never weaker than the minimum level of the request,
  -- and an escalation from a previous target chooses one above it in the policy's order of targets under
  -- schema version 2, and one of another model or of greater effort under version 1.
  pub accepted-escalates :
      (v previous : Target) (level : WorkLevel ⊎ Effort) (reason : FallbackReason)
      → resolve_model_target p.definition catalog r o ≡ Selection.chosen v level reason
      → r.previous ≡ some previous
      → r.escalation ≡ true
      → (meets_minimum p.definition r v ≡ true) × (passes_previous p.definition previous v ≡ true)
  accepted-escalates v previous level reason h was up =
      let gate = (accepted-resolve v level reason h).1 in
      (gate_minimum p.definition r v gate, gate_stronger p.definition r previous v was up gate)

  -- Under an accepted policy the exceptional top target is chosen without an override only by an
  -- escalation from the target just below it.
  pub accepted-top_guarded :
      (v : Target) (level : WorkLevel ⊎ Effort) (reason : FallbackReason)
      → resolve_model_target p.definition catalog r o ≡ Selection.chosen v level reason
      → r.has_override ≡ false
      → is_top p.definition v ≡ true
      → (r.escalation ≡ true) × (was_max p.definition r.previous ≡ true)
  accepted-top_guarded v level reason h free top =
      gate_top p.definition r v free top (accepted-resolve v level reason h).1

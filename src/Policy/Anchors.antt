-- ===== src/Policy/Anchors.antt =====
-- The upgrade anchors of schema version 2: `compileModelPolicy` of scripts/lib/model-policy.mjs gives
-- every allowed target a level.
use adaptive_model_router.Common.{
  &&-true, All, Bool, Bool-cases, List, Option, Option-cases, String, [], any, arith, bool_eq,
  false, includes, inl, inr, is_some, nat_eq, none, string_eq, subst, text_eq, true, ◌&&◌, ◌==◌,
  ◌∷◌, ◌≡◌,
}
use adaptive_model_router.Policy.{
  AllowedModel, Definition, Policy, Target, level_for_target, sorted_levels, target_allowed,
}
use adaptive_model_router.Policy.Bindings.{
  >>-none, compile-first_invalid, for_each-none, require-none,
}
use adaptive_model_router.Policy.Compile.{
  Invalid, check_anchors, check_binding, check_models, check_pairs, check_v2, check_version,
  compile_model_policy, first_invalid, for_each, require, ◌>>◌,
}
use adaptive_model_router.Vocabulary.{
  Effort, category_eq, effort_eq, failure_eq, gate_eq, level_eq, signal_eq, work_levels,
}

module _ {ℓ} (d : Definition) (P : Target → Type ℓ) where
  anchor_effort :
      (model : String) (efforts : List Effort) (effort : Effort)
      → All (λ e. P (record { model = model; effort = e })) efforts
      → includes efforts effort ≡ true
      → P (record { model = model; effort = effort })
  anchor_effort model [] effort h i = cc
  anchor_effort model (e ∷ es) effort h i = elim (Bool-cases (e == effort)) [
    | inl q ↦
        subst (λ e. P (record { model = model; effort = e })) ((effort_eq.equal_iff e effort).0 q)
          h.0
    | inr q ↦ anchor_effort model es effort h.1 (ground arith)
  ]

  anchor_entry :
      (entries : List AllowedModel) (v : Target)
      → All
          (λ (a : AllowedModel). All (λ e. P (record { model = a.model; effort = e })) a.efforts)
          entries
      → any (λ (a : AllowedModel). a.model == v.model && includes a.efforts v.effort) entries ≡ true
      → P v
  anchor_entry [] v h i = cc
  anchor_entry (a ∷ rest) v h i =
      elim (Bool-cases (a.model == v.model && includes a.efforts v.effort)) [
        | inr q ↦ anchor_entry rest v h.1 (ground arith)
        | inl q ↦
            let (same, kept) = &&-true (a.model == v.model) _ q in
            subst (λ m. P (record { model = m; effort = v.effort }))
              ((string_eq.equal_iff a.model v.model).0 same)
              (anchor_effort a.model a.efforts v.effort h.0 kept)
      ]

check_v2-anchors : (d : Definition) → check_v2 d ≡ none → check_anchors d ≡ none
unfolding check_v2
check_v2-anchors d h = elim (Option-cases d.model_order) [
  | inl e ↦ cc (rw (e, check_v2) at h)
  | inr (order, e) ↦ (>>-none _ (check_anchors d) (rw (e, check_v2) at h)).1
]

check_version-anchors :
    (d : Definition) → d.schema_version ≡ 2 → check_version d ≡ none → check_anchors d ≡ none
unfolding check_version
check_version-anchors d e h =
    let other : (d.schema_version == 1) ≡ false = ground arith in
    check_v2-anchors d (rw (other, check_version) at h)

check_anchors-All :
    (d : Definition)
    → check_anchors d ≡ none
    → All
        (λ (a : AllowedModel).
          All
            (λ e. is_some (level_for_target d (record { model = a.model; effort = e })) ≡ true)
            a.efforts)
        d.allowed_models
unfolding check_anchors
check_anchors-All d h = go d.allowed_models (for_each-none d.allowed_models _ h)
  where
    test : String → Effort → Option Invalid
    test model effort =
        require (is_some (level_for_target d (record { model = model; effort = effort })))
          Invalid.unbound_target

    one :
        (model : String) (es : List Effort)
        → All (λ e. test model e ≡ none) es
        → All (λ e. is_some (level_for_target d (record { model = model; effort = e })) ≡ true) es
    one model [] k = tt
    one model (e ∷ es) k = (require-none _ _ k.0, one model es k.1)

    go :
        (rest : List AllowedModel)
        → All (λ (a : AllowedModel). for_each a.efforts (test a.model) ≡ none) rest
        → All
            (λ (a : AllowedModel).
              All
                (λ e. is_some (level_for_target d (record { model = a.model; effort = e })) ≡ true)
                a.efforts)
            rest
    go [] k = tt
    go (a ∷ rest) k = (one a.model a.efforts (for_each-none a.efforts _ k.0), go rest k.1)

-- Under an accepted policy of version 2 every allowed target is the target of a level.
pub compile-anchors :
    (is_exact_slug : String → Bool) (digest_of : Definition → String) (d : Definition) (p : Policy)
    → compile_model_policy is_exact_slug digest_of d ≡ inl p
    → p.definition.schema_version ≡ 2
    → (v : Target) → target_allowed p.definition v ≡ true
    → is_some (level_for_target p.definition v) ≡ true
unfolding first_invalid target_allowed
compile-anchors is_exact_slug digest_of d p h two v allowed =
    let (valid, e) = compile-first_invalid is_exact_slug digest_of d h in
    let (upto, _) = >>-none (_ >> for_each sorted_levels (check_binding d)) _ valid in
    let (upto2, _) =
      >>-none (_ >> check_pairs d work_levels) (for_each sorted_levels (check_binding d)) upto in
    let (upto3, _) = >>-none (_ >> check_version d) (check_pairs d work_levels) upto2 in
    let (_, version) =
      >>-none (_ >> check_models is_exact_slug [] d.allowed_models) (check_version d) upto3 in
    rw e (
      anchor_entry d (λ v. is_some (level_for_target d v) ≡ true) d.allowed_models v
        (check_anchors-All d (check_version-anchors d (rw e at two) version)) (rw e at allowed))

-- ===== src/Policy/Examples.antt =====
-- The shipped policies compiled and asked, and the theorems at them.
use adaptive_model_router.Common.{
  List, [], bool_eq, false, find?, inl, inr, map, nat_eq, none, refl, some, string_eq, text_eq,
  true, ◌<◌, ◌∷◌, ◌≡◌, ◌≤◌,
}
use adaptive_model_router.Policy.{
  Definition, Target, compare_operands, level_for_target, minimum_effort_for_level, same_target,
  target_allowed,
}
use adaptive_model_router.Policy.Compile.{
  Invalid, check_binding, check_conditions, check_models, check_pair, check_pairs, check_version,
  compile_model_policy, fits_schema,
}
use adaptive_model_router.Policy.Decide.{decide_work_level, fact}
use adaptive_model_router.Policy.Downgrade.{accepted-low_guarded, accepted-risk_floor}
use adaptive_model_router.Policy.Escalate.{
  Climbs, next_work_level, next_work_level-above, next_work_level-none,
}
use adaptive_model_router.Policy.Resolve.{
  CatalogEntry, FallbackReason, Request, Selection, available, resolve_model_target, satisfies_gate,
}
use adaptive_model_router.Policy.Scope.{accepted-resolve, accepted-top_guarded, was_max}
use adaptive_model_router.Policy.Select.{Answers, is_usable, resolve_first}
use adaptive_model_router.Policy.Shipped.{
  any_slug, astra, digest_of_id, economy, economy_policy, economy_target, quality,
}
use adaptive_model_router.Task.{Evidence, Scored, no_evidence, no_signals}
use adaptive_model_router.Vocabulary.{
  Category, Effort, Signal, WorkLevel, category_eq, effort_eq, failure_eq, gate_eq, level_effort,
  level_eq, level_index, signal_eq, work_levels,
}

economy_compiles : compile_model_policy any_slug digest_of_id economy ≡ inl economy_policy
unfolding compile_model_policy fits_schema check_models check_version check_pairs check_pair
    check_binding check_conditions target_allowed compare_operands level_for_target
    minimum_effort_for_level
economy_compiles = refl

quality_compiles :
    compile_model_policy any_slug digest_of_id quality
    ≡ inl (record { definition = quality; digest = quality.id })
unfolding compile_model_policy fits_schema check_models check_version check_pairs check_pair
    check_binding check_conditions target_allowed compare_operands level_for_target
    minimum_effort_for_level
quality_compiles = refl

-- A target order that falls is refused.
falling :
    compile_model_policy any_slug digest_of_id
      (record economy { model_order = some (astra ∷ "gpt-6-sol" ∷ "gpt-6-luna" ∷ []) })
    ≡ inr Invalid.critical_not_highest
unfolding compile_model_policy fits_schema check_models check_version check_pairs check_pair
    check_binding check_conditions target_allowed compare_operands level_for_target
    minimum_effort_for_level
falling = refl

abbrev entry_of : Target → CatalogEntry
entry_of v = record {
  model = v.model;
  id = v.model;
  is_listed = true;
  priority = 0;
  default_effort = v.effort;
  supported = v.effort ∷ [];
}

abbrev offer : List CatalogEntry
offer = map (λ l. entry_of (economy_target l)) work_levels

abbrev retry : Request
retry = record {
  requested_level = WorkLevel.max;
  minimum = WorkLevel.high;
  max_eligible = false;
  has_override = false;
  previous = some (economy_target WorkLevel.high);
  escalation = true;
  exclude_models = [];
}

abbrev last_retry : Request
last_retry = record retry {
  requested_level = WorkLevel.ultra;
  previous = some (economy_target WorkLevel.max);
}

retry_goes_up :
    resolve_model_target economy offer retry none
    ≡ Selection.chosen (economy_target WorkLevel.max) (inl WorkLevel.max) FallbackReason.direct
unfolding resolve_model_target satisfies_gate available compare_operands level_for_target
retry_goes_up = refl

last_retry_at_top :
    resolve_model_target economy offer last_retry none
    ≡ Selection.chosen (economy_target WorkLevel.ultra) (inl WorkLevel.ultra) FallbackReason.direct
unfolding resolve_model_target satisfies_gate available compare_operands level_for_target
last_retry_at_top = refl

abbrev risky : Scored
risky = record {
  score = 70;
  base_score = 70;
  borderline = false;
  substantive = true;
  category = Category.general;
  signals = record no_signals { security = true };
  hard_signal_count = 1;
}

abbrev trivial_copy : Scored
trivial_copy = record risky {
  signals = record no_signals { mechanical = true };
  hard_signal_count = 0;
}

abbrev exact_evidence : Evidence
exact_evidence = record no_evidence {
  requirements_settled = true;
  strong_verification = true;
  mechanical = true;
  exact_output_check = true;
}

accepted-risk_floor_example :
    2 ≤ level_index (decide_work_level risky exact_evidence economy).work_level
unfolding fact
accepted-risk_floor_example =
    accepted-risk_floor any_slug digest_of_id economy {p = economy_policy} economy_compiles risky
      exact_evidence Signal.security refl refl

accepted-low_guarded_example : exact_evidence.exact_output_check ≡ true
unfolding decide_work_level
accepted-low_guarded_example =
    (accepted-low_guarded any_slug digest_of_id economy {p = economy_policy} economy_compiles
      trivial_copy exact_evidence Signal.risk refl refl).3

next_work_level-above_example :
    (same_target (economy_target WorkLevel.max) (economy_target WorkLevel.high) ≡ false)
    × (level_index WorkLevel.high < level_index WorkLevel.max)
unfolding next_work_level
next_work_level-above_example =
    next_work_level-above any_slug digest_of_id economy {p = economy_policy} economy_compiles
      WorkLevel.high WorkLevel.max refl

-- Where `max` and `ultra` have one target, the chain ends without a level.
abbrev flat_target : WorkLevel → Target
flat_target WorkLevel.max = record { model = astra; effort = Effort.ultra }
flat_target l = record { model = astra; effort = level_effort l }

abbrev flat : Definition
flat = record quality { targets = flat_target }

flat_compiles :
    compile_model_policy any_slug digest_of_id flat
    ≡ inl (record { definition = flat; digest = flat.id })
unfolding compile_model_policy fits_schema check_models check_version check_pairs check_pair
    check_binding check_conditions target_allowed compare_operands level_for_target
    minimum_effort_for_level
flat_compiles = refl

next_work_level-none_example :
    same_target (flat.targets WorkLevel.ultra) (flat.targets WorkLevel.max) ≡ true
unfolding next_work_level
next_work_level-none_example =
    next_work_level-none any_slug digest_of_id flat
      {p = record { definition = flat; digest = flat.id }} flat_compiles WorkLevel.max
      WorkLevel.ultra refl (Climbs.here refl)

accepted-resolve_example :
    (available offer (economy_target WorkLevel.max) ≡ true)
    × (satisfies_gate economy retry (economy_target WorkLevel.max) ≡ true)
    × (target_allowed economy (economy_target WorkLevel.max) ≡ true)
accepted-resolve_example =
    accepted-resolve any_slug digest_of_id economy {p = economy_policy} economy_compiles offer retry
      none (economy_target WorkLevel.max) (inl WorkLevel.max) FallbackReason.direct retry_goes_up

accepted-top_guarded_example :
    (last_retry.escalation ≡ true) × (was_max economy last_retry.previous ≡ true)
accepted-top_guarded_example =
    accepted-top_guarded any_slug digest_of_id economy {p = economy_policy} economy_compiles offer
      last_retry none (economy_target WorkLevel.ultra) (inl WorkLevel.ultra) FallbackReason.direct
      last_retry_at_top refl refl

resolve_first_example :
    Answers economy offer retry
      (find? (is_usable economy offer retry) (WorkLevel.max ∷ []))
      (resolve_model_target economy offer retry none)
resolve_first_example = resolve_first economy offer retry

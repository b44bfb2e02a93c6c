-- ===== src/Policy/Compile.antt =====
-- `compileModelPolicy` of scripts/lib/model-policy.mjs: which definitions are accepted, and the
-- first reason for which one is not.
use adaptive_model_router.Common.{
  Bool, List, Option, String, [], all, bool_eq, false, if◌then◌else◌, includes, inl, inr,
  is_duplicate_free, is_some, leb, length, ltb, map, nat_eq, none, not, some, string_eq, true, ℕ,
  ◌&&◌, ◌++◌, ◌==◌, ◌||◌, ◌∷◌, ◌⊎◌,
}
use adaptive_model_router.Policy.{
  AllowedModel, Conditions, CriticalRisk, Definition, Policy, Rule, level_for_target,
  minimum_effort_for_level, same_target, sorted_levels, target_above, target_allowed,
}
use adaptive_model_router.Vocabulary.{
  Signal, WorkLevel, effort_eq, effort_index, failure_eq, gate_eq, level_effort, level_eq,
  level_index, signal_eq, work_levels,
}

-- `schema_mismatch` is the error of `assertSchema`; the others stand for the messages of `invalid`.
pub data Invalid : Type 0 where
  schema_mismatch inexact_slug duplicate_models v1_has_v2_fields model_order_mismatch : Invalid
  critical_unbounded critical_not_highest indistinct_targets unbound_target : Invalid
  bindings_decrease effort_decreases target_outside floor_lowered : Invalid
  fallbacks_backward escalation_backward max_below_xhigh : Invalid
  weak_downgrade_guard weak_low weak_risk_floor broad_exceptions duplicate_signals : Invalid

-- Statements of the compiler in order: a failed check ends the compilation.
infixl 5 ◌>>◌
abbrev pub ◌>>◌ : Option Invalid → Option Invalid → Option Invalid
none >> k = k
some e >> k = some e

abbrev pub require : Bool → Invalid → Option Invalid
require true e = none
require false e = some e

abbrev pub forbid : Bool → Invalid → Option Invalid
forbid true e = some e
forbid false e = none

abbrev pub for_each {ℓ} : {A : Type ℓ} → List A → (A → Option Invalid) → Option Invalid
for_each [] f = none
for_each (x ∷ xs) f = f x >> for_each xs f

abbrev size_within {ℓ} : {A : Type ℓ} → ℕ → ℕ → List A → Bool
size_within low high xs = leb low (length xs) && leb (length xs) high

-- MODEL_POLICY_SCHEMA on a typed definition: the enumerations, the bounds on numbers and the list
-- sizes. The lengths of texts and the pattern of `id` are left out.
unfoldable pub fits_enums : Definition → Bool
fits_enums d =
    (d.schema_version == 1 || d.schema_version == 2)
    && (d.conditions.default_level == WorkLevel.high && d.escalation_limit == 2)

abbrev fits_conditions : Conditions → Bool
fits_conditions c =
    leb 2 c.xhigh_hard_signals
    && leb c.xhigh_hard_signals 5
    && leb 3 c.max_hard_signals
    && leb c.max_hard_signals 5
    && all (size_within 1 17) (
        c.low.requires ∷ c.low.forbids ∷ c.medium.requires ∷ c.medium.forbids
        ∷ c.xhigh_cross_cutting_with ∷ c.max_requires_any ∷ c.risk_floor_signals ∷ [])

abbrev fits_optional {ℓ} : {A : Type ℓ} → (A → Bool) → Option A → Bool
fits_optional f none = true
fits_optional f (some a) = f a

abbrev fits_lists : Definition → Bool
fits_lists d =
    size_within 1 32 d.allowed_models
    && all (λ entry. size_within 1 8 entry.efforts) d.allowed_models
    && all (λ name. size_within 0 5 (d.fallbacks name)) work_levels
    && all (λ name. not (is_some (d.escalation_next name) == (name == WorkLevel.ultra))) work_levels
    && fits_optional (size_within 1 32) d.model_order
    && fits_optional (λ critical. size_within 1 17 critical.signals) d.critical_risk

unfoldable pub fits_schema : Definition → Bool
unfolding fits_enums
fits_schema d = fits_enums d && (fits_conditions d.conditions && fits_lists d)

-- The model of a slug: what `normalizeModelSlug` and the `latest` pattern say of it.
module _ (is_exact_slug : String → Bool) where
  -- The first loop; `models` holds the models seen before.
  unfoldable pub check_models : List String → List AllowedModel → Option Invalid
  check_models models [] = none
  check_models models (entry ∷ rest) =
      require (is_exact_slug entry.model) Invalid.inexact_slug
      >> forbid (includes models entry.model || not (is_duplicate_free entry.efforts))
          Invalid.duplicate_models
      >> check_models (entry.model ∷ models) rest

abbrev pub models_of : Definition → List String
models_of d = map (λ entry. entry.model) d.allowed_models

-- `order.at(-1)`.
abbrev pub last_model : List String → Option String
last_model [] = none
last_model (m ∷ []) = some m
last_model (m ∷ n ∷ ms) = last_model (n ∷ ms)

abbrev pub is_last : List String → String → Bool
is_last order m = elim (last_model order) [ none ↦ false | some n ↦ n == m ]

unfoldable pub check_order : Definition → List String → Option Invalid
check_order d order =
    require
      (length order == length d.allowed_models
        && is_duplicate_free order
        && all (includes (models_of d)) order)
      Invalid.model_order_mismatch

unfoldable pub check_critical : Definition → List String → CriticalRisk → Option Invalid
check_critical d order critical =
    require
      (includes critical.signals Signal.high_failure_cost
        && includes critical.signals Signal.irreversible
        && is_duplicate_free critical.signals
        && leb (level_index WorkLevel.high) (level_index critical.minimum_level)
        && not (critical.minimum_level == WorkLevel.ultra))
      Invalid.critical_unbounded
    >> require (is_last order (d.targets critical.minimum_level).model) Invalid.critical_not_highest

-- `new Set(Object.values(targets).map(canonicalJson)).size !== WORK_LEVELS.length`.
unfoldable pub has_distinct_targets : Definition → Bool
has_distinct_targets d =
    all
      (λ name.
        all (λ other. name == other || not (same_target (d.targets name) (d.targets other)))
          work_levels)
      work_levels

unfoldable pub check_anchors : Definition → Option Invalid
check_anchors d = for_each d.allowed_models λ entry. for_each entry.efforts λ effort.
    require (is_some (level_for_target d (record { model = entry.model; effort = effort })))
      Invalid.unbound_target

unfoldable pub check_v2 : Definition → Option Invalid
unfolding check_order check_critical has_distinct_targets check_anchors
check_v2 d = elim d.model_order [
  | none ↦ some Invalid.model_order_mismatch
  | some order ↦
      check_order d order
      >> elim d.critical_risk [
        | none ↦ some Invalid.critical_unbounded
        | some critical ↦ check_critical d order critical
      ]
      >> require (has_distinct_targets d) Invalid.indistinct_targets
      >> check_anchors d
]

unfoldable pub check_version : Definition → Option Invalid
unfolding check_v2
check_version d =
    if d.schema_version == 1
    then forbid (is_some d.model_order || is_some d.critical_risk) Invalid.v1_has_v2_fields
    else check_v2 d

-- The second loop: every pair of a level and a later level.
unfoldable pub check_pair : Definition → WorkLevel → WorkLevel → Option Invalid
check_pair d name later =
    let value = d.targets name in
    let other = d.targets later in
    forbid (d.schema_version == 2 && target_above d value other) Invalid.bindings_decrease
    >> forbid
        (value.model == other.model && ltb (effort_index other.effort) (effort_index value.effort))
        Invalid.effort_decreases

unfoldable pub check_pairs : Definition → List WorkLevel → Option Invalid
check_pairs d [] = none
check_pairs d (name ∷ later) = for_each later (check_pair d name) >> check_pairs d later

-- `if (next && WORK_LEVELS.indexOf(next) <= WORK_LEVELS.indexOf(name)) invalid(...)`.
abbrev pub check_next : WorkLevel → Option WorkLevel → Option Invalid
check_next name none = none
check_next name (some next) =
    require (ltb (level_index name) (level_index next)) Invalid.escalation_backward

-- The third loop's body.
unfoldable pub check_binding : Definition → WorkLevel → Option Invalid
check_binding d name =
    let value = d.targets name in
    require (target_allowed d value) Invalid.target_outside
    >> forbid
        (d.schema_version == 1
          && ltb (effort_index value.effort) (effort_index (level_effort name)))
        Invalid.floor_lowered
    >> forbid
        (d.schema_version == 2
          && ltb (effort_index value.effort) (effort_index (minimum_effort_for_level name)))
        Invalid.floor_lowered
    >> require
        (is_duplicate_free (d.fallbacks name)
          && all (λ next. ltb (level_index name) (level_index next)) (d.fallbacks name))
        Invalid.fallbacks_backward
    >> check_next name (d.escalation_next name)

-- The constant `floor` and `blocked` of the compiler.
abbrev pub floor_signals : List Signal
floor_signals =
    Signal.risk ∷ Signal.security ∷ Signal.migration ∷ Signal.public_contract ∷ Signal.review
    ∷ Signal.architecture_tradeoff ∷ []

abbrev pub blocked_signals : List Signal
blocked_signals = floor_signals ++ Signal.ambiguity ∷ Signal.cross_cutting ∷ []

unfoldable pub check_downgrade : Rule → Option Invalid
check_downgrade rule =
    require
      (all (includes rule.requires) (Signal.requirements_settled ∷ Signal.strong_verification ∷ [])
        && all (includes rule.forbids) blocked_signals)
      Invalid.weak_downgrade_guard

unfoldable pub check_conditions : Conditions → Option Invalid
unfolding check_downgrade
check_conditions c =
    forbid (ltb c.max_hard_signals c.xhigh_hard_signals) Invalid.max_below_xhigh
    >> check_downgrade c.medium
    >> check_downgrade c.low
    >> require
        (all (includes c.low.requires) (Signal.declared_mechanical ∷ Signal.exact_output_check ∷ [])
          && includes c.low.forbids Signal.implementation)
        Invalid.weak_low
    >> require (all (includes c.risk_floor_signals) floor_signals) Invalid.weak_risk_floor
    >> require
        (all (includes (Signal.high_failure_cost ∷ Signal.irreversible ∷ [])) c.max_requires_any
          && all (includes (Signal.ambiguity ∷ Signal.architecture_tradeoff ∷ []))
              c.xhigh_cross_cutting_with)
        Invalid.broad_exceptions
    >> require
        (all is_duplicate_free (
          c.low.requires ∷ c.low.forbids ∷ c.medium.requires ∷ c.medium.forbids
          ∷ c.xhigh_cross_cutting_with ∷ c.max_requires_any ∷ c.risk_floor_signals ∷ []))
        Invalid.duplicate_signals

-- `compileModelPolicy`: the digest is that of the canonical JSON.
module _ (is_exact_slug : String → Bool) (digest_of : Definition → String) where
  unfoldable pub first_invalid : Definition → Option Invalid
  first_invalid d =
      require (fits_schema d) Invalid.schema_mismatch
      >> check_models is_exact_slug [] d.allowed_models
      >> check_version d
      >> check_pairs d work_levels
      >> for_each sorted_levels (check_binding d)
      >> check_conditions d.conditions

  unfoldable pub compile_model_policy : Definition → Policy ⊎ Invalid
  unfolding first_invalid
  compile_model_policy d = elim (first_invalid d) [
    | none ↦ inl (record { definition = d; digest = digest_of d })
    | some e ↦ inr e
  ]

-- ===== src/Policy/Decide.antt =====
-- `decideWorkLevel` of scripts/lib/model-policy.mjs: from signals and evidence to a work level.
use adaptive_model_router.Common.{
  Bool, Option, all, any, false, if◌then◌else◌, leb, ltb, none, not, some, true, ◌&&◌, ◌||◌,
}
use adaptive_model_router.Policy.{Conditions, CriticalRisk, Definition, Rule}
use adaptive_model_router.Task.{Evidence, Scored, Signals, is_true}
use adaptive_model_router.Vocabulary.{Category, Gate, Signal, WorkLevel, level_index}

pub data DecisionRule : Type 0 where
  quality_default critical_conditions complex_conditions settled_verified : DecisionRule
  exact_mechanical critical_risk_floor : DecisionRule
  -- The rules that a retry of `routeWithStore` puts in their place.
  reasoning_escalation non_reasoning_failure model_stage_held : DecisionRule

pub record Demand : Type 0 where
  pub work_level : WorkLevel
  pub rule : DecisionRule
  pub minimum_level : WorkLevel
  pub max_eligible : Bool
  pub verification_gate : Gate

-- `facts`: the signals of the score, and four facts of the evidence alone.
unfoldable pub fact : Signals → Evidence → Signal → Bool
fact s e Signal.requirements_settled = e.requirements_settled
fact s e Signal.strong_verification = e.strong_verification
fact s e Signal.declared_mechanical = e.mechanical
fact s e Signal.exact_output_check = e.exact_output_check
fact s e Signal.risk = s.risk
fact s e Signal.security = s.security
fact s e Signal.migration = s.migration
fact s e Signal.public_contract = s.public_contract
fact s e Signal.review = s.review
fact s e Signal.ambiguity = s.ambiguity
fact s e Signal.cross_cutting = s.cross_cutting
fact s e Signal.architecture_tradeoff = s.architecture_tradeoff
fact s e Signal.high_failure_cost = s.high_failure_cost
fact s e Signal.irreversible = s.irreversible
fact s e Signal.implementation = s.implementation
fact s e Signal.exploration = s.exploration
fact s e Signal.documentation = s.documentation

abbrev pub matches : (Signal → Bool) → Rule → Bool
matches facts rule = all facts rule.requires && all (λ signal. not (facts signal)) rule.forbids

-- The ladder of tests of `decideWorkLevel`: `maxEligible`, the complex conditions, and the two rules.
unfoldable pub choose_level : Bool → Bool → Bool → Bool → WorkLevel → WorkLevel × DecisionRule
choose_level max_eligible complex medium low default =
    if max_eligible
    then (WorkLevel.max, DecisionRule.critical_conditions)
    else if complex
    then (WorkLevel.xhigh, DecisionRule.complex_conditions)
    else if medium
    then (if low
        then (WorkLevel.low, DecisionRule.exact_mechanical)
        else (WorkLevel.medium, DecisionRule.settled_verified))
    else (default, DecisionRule.quality_default)

abbrev pub is_max_eligible : Conditions → Scored → (Signal → Bool) → Bool
is_max_eligible c scored facts =
    leb c.max_hard_signals scored.hard_signal_count && any facts c.max_requires_any

-- The level and the rule before the critical floor.
unfoldable pub conditions_level : Conditions → Scored → (Signal → Bool) → WorkLevel × DecisionRule
conditions_level c scored facts =
    choose_level (is_max_eligible c scored facts)
      ((scored.signals.cross_cutting && any facts c.xhigh_cross_cutting_with)
        || leb c.xhigh_hard_signals scored.hard_signal_count)
      (matches facts c.medium) (matches facts c.low) c.default_level

-- The critical floor: the minimum level, and the level and rule that it leaves.
unfoldable pub apply_floor :
    Option CriticalRisk
    → (Signal → Bool)
    → WorkLevel
    → WorkLevel × DecisionRule
    → WorkLevel × WorkLevel × DecisionRule
apply_floor none facts minimum (level, rule) = (minimum, level, rule)
apply_floor (some critical) facts minimum (level, rule) =
    if any facts critical.signals
    then (if ltb (level_index level) (level_index critical.minimum_level)
        then (critical.minimum_level, critical.minimum_level, DecisionRule.critical_risk_floor)
        else (critical.minimum_level, level, rule))
    else (minimum, level, rule)

abbrev pub is_general : Category → Bool
is_general Category.general = true
is_general _ = false

unfoldable pub decide_gate : Scored → Evidence → Gate
decide_gate scored e =
    if s.risk || s.security || s.migration || s.public_contract
    then Gate.full_checks
    else if s.implementation
    then Gate.targeted_tests
    else if not (is_true e.work_product) && is_general scored.category
    then Gate.task_specific
    else Gate.structured_check
  where
    open scored use {signals as s}

unfoldable pub decide_work_level : Scored → Evidence → Definition → Demand
unfolding fact choose_level conditions_level apply_floor decide_gate
decide_work_level scored e d =
    let facts = fact scored.signals e in
    let c = d.conditions in
    let floor = if any facts c.risk_floor_signals then WorkLevel.high else WorkLevel.low in
    let (minimum, level, rule) =
      apply_floor d.critical_risk facts floor (conditions_level c scored facts) in
    record {
      work_level = level;
      rule = rule;
      minimum_level = minimum;
      max_eligible = is_max_eligible c scored facts;
      verification_gate = decide_gate scored e;
    }

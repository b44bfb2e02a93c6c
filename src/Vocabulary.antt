-- ===== src/Vocabulary.antt =====
-- The closed vocabularies of scripts/lib/constants.mjs and scripts/lib/model-policy.mjs.
use adaptive_model_router.Common.{ℕ, ◌≡◌, List, [], ◌∷◌, arith, Eq, Eq_of_index}

-- EFFORT_ORDER.
pub data Effort : Type 0 where
  none minimal low medium high xhigh max ultra : Effort

-- `EFFORT_ORDER.indexOf`.
abbrev pub effort_index : Effort → ℕ
effort_index Effort.none = 0
effort_index Effort.minimal = 1
effort_index Effort.low = 2
effort_index Effort.medium = 3
effort_index Effort.high = 4
effort_index Effort.xhigh = 5
effort_index Effort.max = 6
effort_index Effort.ultra = 7

pub effort_index-injective : (a b : Effort) → effort_index a ≡ effort_index b → a ≡ b
effort_index-injective a b h = ground arith

instance abbrev pub effort_eq : Eq Effort
effort_eq = Eq_of_index effort_index effort_index-injective

-- WORK_LEVELS.
pub data WorkLevel : Type 0 where
  low medium high xhigh max ultra : WorkLevel

-- `WORK_LEVELS.indexOf`.
abbrev pub level_index : WorkLevel → ℕ
level_index WorkLevel.low = 0
level_index WorkLevel.medium = 1
level_index WorkLevel.high = 2
level_index WorkLevel.xhigh = 3
level_index WorkLevel.max = 4
level_index WorkLevel.ultra = 5

pub level_index-injective : (a b : WorkLevel) → level_index a ≡ level_index b → a ≡ b
level_index-injective a b h = ground arith

instance abbrev pub level_eq : Eq WorkLevel
level_eq = Eq_of_index level_index level_index-injective

abbrev pub work_levels : List WorkLevel
work_levels =
    WorkLevel.low ∷ WorkLevel.medium ∷ WorkLevel.high ∷ WorkLevel.xhigh ∷ WorkLevel.max
    ∷ WorkLevel.ultra ∷ []

-- The effort that a work level is named after: the levels are the efforts from `low` on.
abbrev pub level_effort : WorkLevel → Effort
level_effort WorkLevel.low = Effort.low
level_effort WorkLevel.medium = Effort.medium
level_effort WorkLevel.high = Effort.high
level_effort WorkLevel.xhigh = Effort.xhigh
level_effort WorkLevel.max = Effort.max
level_effort WorkLevel.ultra = Effort.ultra

-- SIGNALS.
pub data Signal : Type 0 where
  requirements_settled strong_verification declared_mechanical exact_output_check : Signal
  risk security migration public_contract review ambiguity cross_cutting : Signal
  architecture_tradeoff high_failure_cost irreversible implementation : Signal
  exploration documentation : Signal

abbrev pub signal_index : Signal → ℕ
signal_index Signal.requirements_settled = 0
signal_index Signal.strong_verification = 1
signal_index Signal.declared_mechanical = 2
signal_index Signal.exact_output_check = 3
signal_index Signal.risk = 4
signal_index Signal.security = 5
signal_index Signal.migration = 6
signal_index Signal.public_contract = 7
signal_index Signal.review = 8
signal_index Signal.ambiguity = 9
signal_index Signal.cross_cutting = 10
signal_index Signal.architecture_tradeoff = 11
signal_index Signal.high_failure_cost = 12
signal_index Signal.irreversible = 13
signal_index Signal.implementation = 14
signal_index Signal.exploration = 15
signal_index Signal.documentation = 16

pub signal_index-injective : (a b : Signal) → signal_index a ≡ signal_index b → a ≡ b
signal_index-injective a b h = ground arith

instance abbrev pub signal_eq : Eq Signal
signal_eq = Eq_of_index signal_index signal_index-injective

-- CATEGORIES.
pub data Category : Type 0 where
  mechanical exploration documentation implementation review general : Category

abbrev pub category_index : Category → ℕ
category_index Category.mechanical = 0
category_index Category.exploration = 1
category_index Category.documentation = 2
category_index Category.implementation = 3
category_index Category.review = 4
category_index Category.general = 5

pub category_index-injective : (a b : Category) → category_index a ≡ category_index b → a ≡ b
category_index-injective a b h = ground arith

instance abbrev pub category_eq : Eq Category
category_eq = Eq_of_index category_index category_index-injective

-- FAILURE_TYPES.
pub data FailureType : Type 0 where
  reasoning environment information tooling : FailureType

abbrev pub failure_index : FailureType → ℕ
failure_index FailureType.reasoning = 0
failure_index FailureType.environment = 1
failure_index FailureType.information = 2
failure_index FailureType.tooling = 3

pub failure_index-injective : (a b : FailureType) → failure_index a ≡ failure_index b → a ≡ b
failure_index-injective a b h = ground arith

instance abbrev pub failure_eq : Eq FailureType
failure_eq = Eq_of_index failure_index failure_index-injective

-- VERIFICATION_GATES.
pub data Gate : Type 0 where
  none task_specific targeted_tests structured_check full_checks : Gate

abbrev pub gate_index : Gate → ℕ
gate_index Gate.none = 0
gate_index Gate.task_specific = 1
gate_index Gate.targeted_tests = 2
gate_index Gate.structured_check = 3
gate_index Gate.full_checks = 4

pub gate_index-injective : (a b : Gate) → gate_index a ≡ gate_index b → a ≡ b
gate_index-injective a b h = ground arith

instance abbrev pub gate_eq : Eq Gate
gate_eq = Eq_of_index gate_index gate_index-injective

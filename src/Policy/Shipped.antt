-- ===== src/Policy/Shipped.antt =====
-- The two policies of the repository, model-policy.json and model-policy.economy.json.
use adaptive_model_router.Common.{Bool, List, Option, String, [], none, some, true, ◌++◌, ◌∷◌}
use adaptive_model_router.Policy.{Conditions, Definition, Policy, Purpose, Target}
use adaptive_model_router.Policy.Compile.{blocked_signals, floor_signals}
use adaptive_model_router.Vocabulary.{Effort, Signal, WorkLevel, level_effort}

abbrev pub astra : String
astra = "gpt-6-astra"

abbrev pub shared_conditions : Conditions
shared_conditions = record {
  xhigh_hard_signals = 2;
  max_hard_signals = 3;
  default_level = WorkLevel.high;
  low = record {
    requires =
        Signal.requirements_settled ∷ Signal.strong_verification ∷ Signal.declared_mechanical
        ∷ Signal.exact_output_check ∷ [];
    forbids = blocked_signals ++ Signal.implementation ∷ [];
  };
  medium = record {
    requires = Signal.requirements_settled ∷ Signal.strong_verification ∷ [];
    forbids = blocked_signals;
  };
  xhigh_cross_cutting_with = Signal.ambiguity ∷ Signal.architecture_tradeoff ∷ [];
  max_requires_any = Signal.high_failure_cost ∷ Signal.irreversible ∷ [];
  risk_floor_signals = floor_signals;
}

abbrev pub economy_target : WorkLevel → Target
economy_target WorkLevel.low = record { model = "gpt-6-luna"; effort = Effort.low }
economy_target WorkLevel.medium = record { model = "gpt-6-luna"; effort = Effort.medium }
economy_target WorkLevel.high = record { model = "gpt-6-sol"; effort = Effort.high }
economy_target WorkLevel.xhigh = record { model = "gpt-6-sol"; effort = Effort.xhigh }
economy_target WorkLevel.max = record { model = astra; effort = Effort.high }
economy_target WorkLevel.ultra = record { model = astra; effort = Effort.max }

abbrev pub economy_fallbacks : WorkLevel → List WorkLevel
economy_fallbacks WorkLevel.low = WorkLevel.medium ∷ WorkLevel.high ∷ WorkLevel.max ∷ []
economy_fallbacks WorkLevel.medium = WorkLevel.high ∷ WorkLevel.max ∷ []
economy_fallbacks WorkLevel.high = WorkLevel.xhigh ∷ WorkLevel.max ∷ []
economy_fallbacks WorkLevel.xhigh = WorkLevel.max ∷ []
economy_fallbacks _ = []

abbrev pub economy_next : WorkLevel → Option WorkLevel
economy_next WorkLevel.low = some WorkLevel.high
economy_next WorkLevel.medium = some WorkLevel.high
economy_next WorkLevel.high = some WorkLevel.max
economy_next WorkLevel.xhigh = some WorkLevel.max
economy_next WorkLevel.max = some WorkLevel.ultra
economy_next WorkLevel.ultra = none

abbrev pub purposes : Purpose → WorkLevel
purposes Purpose.smoke = WorkLevel.high
purposes _ = WorkLevel.low

abbrev pub economy : Definition
economy = record {
  schema_version = 2;
  id = "gpt6-economy-v1";
  allowed_models =
      record { model = "gpt-6-luna"; efforts = Effort.low ∷ Effort.medium ∷ [] }
      ∷ record { model = "gpt-6-sol"; efforts = Effort.high ∷ Effort.xhigh ∷ [] }
      ∷ record { model = astra; efforts = Effort.high ∷ Effort.max ∷ [] }
      ∷ [];
  targets = economy_target;
  conditions = shared_conditions;
  fallbacks = economy_fallbacks;
  escalation_limit = 2;
  escalation_next = economy_next;
  purposes = purposes;
  model_order = some ("gpt-6-luna" ∷ "gpt-6-sol" ∷ astra ∷ []);
  critical_risk = some (record {
    signals = Signal.high_failure_cost ∷ Signal.irreversible ∷ [];
    minimum_level = WorkLevel.max;
  });
}

abbrev pub quality_next : WorkLevel → Option WorkLevel
quality_next WorkLevel.low = some WorkLevel.high
quality_next WorkLevel.medium = some WorkLevel.high
quality_next WorkLevel.high = some WorkLevel.xhigh
quality_next WorkLevel.xhigh = some WorkLevel.max
quality_next WorkLevel.max = some WorkLevel.ultra
quality_next WorkLevel.ultra = none

abbrev pub quality : Definition
quality = record economy {
  schema_version = 1;
  id = "gpt6-quality-first-v1";
  allowed_models =
      record {
        model = astra;
        efforts =
            Effort.low ∷ Effort.medium ∷ Effort.high ∷ Effort.xhigh ∷ Effort.max ∷ Effort.ultra
            ∷ [];
      }
      ∷ [];
  targets = λ l. record { model = astra; effort = level_effort l };
  fallbacks = λ l. elim l [
    | WorkLevel.low ↦ WorkLevel.medium ∷ WorkLevel.high ∷ []
    | WorkLevel.medium ↦ WorkLevel.high ∷ []
    | WorkLevel.high ↦ WorkLevel.xhigh ∷ []
    | WorkLevel.xhigh ↦ WorkLevel.max ∷ []
    | _ ↦ []
  ];
  escalation_next = quality_next;
  model_order = none;
  critical_risk = none;
}

abbrev pub any_slug : String → Bool
any_slug s = true

abbrev pub digest_of_id : Definition → String
digest_of_id d = d.id

abbrev pub economy_policy : Policy
economy_policy = record { definition = economy; digest = "gpt6-economy-v1" }

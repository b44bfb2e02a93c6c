-- ===== src/Classifier.antt =====
-- The auxiliary classifier: its health and circuit breaker, `classifyBorderline` of
-- scripts/lib/classifier.mjs with `classifierHealth`, `classifierSucceeded` and `classifierFailed` of
-- scripts/lib/database.mjs, for one context. The answer of the application server is an argument.
mod Breaker
mod Examples
use adaptive_model_router.Common.{
  Bool, Option, if◌then◌else◌, leb, ltb, none, not, some, true, ℕ, ◌*◌, ◌+◌, ◌||◌,
}

-- CLASSIFIER_FAILURE_LIMIT and CLASSIFIER_COOLDOWN_MS.
abbrev pub classifier_failure_limit : ℕ
classifier_failure_limit = 3

abbrev pub classifier_cooldown_ms : ℕ
classifier_cooldown_ms = 10 * 60 * 1000

pub record Health : Type 0 where
  pub failures : ℕ
  pub opened_until : ℕ

-- No row stands for no failures.
unfoldable pub classifier_health : Option Health → Health
classifier_health none = record { failures = 0; opened_until = 0 }
classifier_health (some h) = h

unfoldable pub classifier_succeeded : Option Health → Option Health
classifier_succeeded row = some (record { failures = 0; opened_until = 0 })

unfoldable pub classifier_failed : ℕ → ℕ → ℕ → Option Health → Option Health
unfolding classifier_health
classifier_failed limit cooldown now row =
    let failures = (classifier_health row).failures + 1 in
    some (record {
      failures = failures;
      opened_until = if leb limit failures then now + cooldown else 0;
    })

-- `complexityAdjustment`, and the reason codes that came with it.
pub data Adjustment : Type 0 where
  lower unchanged higher : Adjustment

pub record Classification : Type 0 where
  pub adjustment : Adjustment
  pub says_up : Bool
  pub says_down : Bool

pub data ClassifierState : Type 0 where
  skipped circuit_open fallback : ClassifierState
  used : Classification → ClassifierState

-- The setting `auxiliary`, and the three environment variables that switch the classifier off.
pub record Switches : Type 0 where
  pub is_auxiliary : Bool
  pub is_disabled : Bool
  pub is_internal : Bool
  pub is_local_only : Bool

-- The reason code agrees with the adjustment.
unfoldable pub is_coherent : Classification → Bool
is_coherent c = elim c.adjustment [
  | Adjustment.higher ↦ c.says_up
  | Adjustment.lower ↦ c.says_down
  | Adjustment.unchanged ↦ true
]

-- `none` is an error of the call, a timeout or an answer that does not fit the schema.
unfoldable pub settle : Option Classification → ℕ → Option Health → Option Health × ClassifierState
unfolding is_coherent classifier_succeeded classifier_failed
settle none now row = (
  classifier_failed classifier_failure_limit classifier_cooldown_ms now row,
  ClassifierState.fallback,
)
settle (some c) now row =
    if is_coherent c then (classifier_succeeded row, ClassifierState.used c) else (
      classifier_failed classifier_failure_limit classifier_cooldown_ms now row,
      ClassifierState.fallback,
    )

unfoldable pub classify_borderline :
    Switches → Option Classification → ℕ → Option Health → Option Health × ClassifierState
unfolding settle
classify_borderline s answer now row =
    if not s.is_auxiliary || s.is_disabled || s.is_internal
    then (row, ClassifierState.skipped)
    else if s.is_local_only
    then (row, ClassifierState.skipped)
    else if ltb now (classifier_health row).opened_until
    then (row, ClassifierState.circuit_open)
    else settle answer now row

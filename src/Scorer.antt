-- ===== src/Scorer.antt =====
-- The route that a score asks for, `desiredRoute` of scripts/lib/scorer.mjs, and what
-- `validateScoringDefinition` of scripts/lib/service.mjs asks of the thresholds. The thresholds are
-- complete: a definition names them all, and the code fills an absent one from the default.
mod Levels
mod Score
mod Examples
use adaptive_model_router.Common.{
  Bool, bool_eq, if◌then◌else◌, leb, ltb, nat_eq, not, some, string_eq, text_beq_eq, text_eq, ℕ,
  ◌&&◌, ◌==◌, ◌||◌,
}
use adaptive_model_router.Catalog.{Family, is_family}
use adaptive_model_router.Task.{Evidence, Scored, is_true}
use adaptive_model_router.Vocabulary.{
  Category, Effort, Gate, category_eq, effort_eq, effort_index, failure_eq, gate_eq, level_eq,
  signal_eq,
}

pub record Thresholds : Type 0 where
  pub root_max : ℕ
  pub terra_low_max : ℕ
  pub terra_medium_max : ℕ
  pub sol_medium_max : ℕ
  pub sol_high_max : ℕ
  pub sol_xhigh_max : ℕ
  pub sol_max_min : ℕ
  pub sol_max_hard_signals : ℕ

-- DEFAULT_SCORING_PROFILE.thresholds.
abbrev pub default_thresholds : Thresholds
default_thresholds = record {
  root_max = 25;
  terra_low_max = 45;
  terra_medium_max = 60;
  sol_medium_max = 80;
  sol_high_max = 92;
  sol_xhigh_max = 97;
  sol_max_min = 98;
  sol_max_hard_signals = 2;
}

-- Whether the definition is accepted, without an error.
unfoldable pub validate_scoring_definition : Thresholds → Bool
validate_scoring_definition t =
    ltb t.root_max t.terra_low_max
    && (ltb t.terra_low_max t.terra_medium_max
        && (ltb t.terra_medium_max t.sol_medium_max
            && (ltb t.sol_medium_max t.sol_high_max
                && (ltb t.sol_high_max t.sol_xhigh_max
                    && (ltb t.sol_xhigh_max t.sol_max_min
                        && (leb 2 t.sol_max_hard_signals && leb t.sol_max_hard_signals 5))))))

pub record Choice : Type 0 where
  pub family : Family
  pub effort : Effort

abbrev choice : Family → Effort → Choice
choice f e = record { family = f; effort = e }

-- The first chain of conditionals.
unfoldable pub scored_choice : Thresholds → ℕ → ℕ → Choice
scored_choice t score hard =
    if leb score t.root_max
    then choice Family.luna Effort.low
    else if leb score t.terra_low_max
    then choice Family.terra Effort.low
    else if leb score t.terra_medium_max
    then choice Family.terra Effort.medium
    else if leb score t.sol_medium_max
    then choice Family.sol Effort.medium
    else if leb score t.sol_high_max
    then choice Family.sol Effort.high
    else if leb score t.sol_xhigh_max || ltb hard t.sol_max_hard_signals
    then choice Family.sol Effort.xhigh
    else choice Family.sol Effort.max

-- The four corrections of the choice, in the order of the code.
unfoldable pub for_batch : Bool → Choice → Choice
for_batch batch c = if batch then choice Family.luna Effort.low else c

unfoldable pub for_code : Bool → Choice → Choice
for_code code c =
    if code && is_family (some c.family) Family.luna then choice Family.terra Effort.low else c

unfoldable pub for_review : Bool → Choice → Choice
for_review review c =
    if review && not (is_family (some c.family) Family.sol)
    then choice Family.sol Effort.medium
    else c

unfoldable pub for_risk : Bool → Choice → Choice
for_risk risky c =
    if risky
    then choice Family.sol
        (if ltb (effort_index c.effort) (effort_index Effort.high) then Effort.high else c.effort)
    else c

abbrev pub is_risky : Scored → Bool
is_risky s = s.signals.risk || (s.signals.security || s.signals.migration)

abbrev pub is_batch : Scored → Evidence → Bool
is_batch s e = s.signals.mechanical && (ltb 1 e.batch_size && not s.signals.risk)

abbrev pub is_review : Scored → Bool
is_review s = s.category == Category.review

unfoldable pub desired_gate : Scored → Evidence → Gate
desired_gate s e =
    if is_risky s
    then Gate.full_checks
    else if s.signals.implementation
    then Gate.targeted_tests
    else if not (is_true e.work_product) && s.category == Category.general
    then Gate.task_specific
    else Gate.structured_check

pub record Desired : Type 0 where
  pub choice : Choice
  pub verification_gate : Gate

unfoldable pub desired_route : Thresholds → Scored → Evidence → Desired
desired_route t s e = record {
  choice = for_risk (is_risky s) (
      for_review (is_review s) (
        for_code s.signals.implementation
          (for_batch (is_batch s e) (scored_choice t s.score s.hard_signal_count))));
  verification_gate = desired_gate s e;
}

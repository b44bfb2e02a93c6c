-- ===== src/Scorer/Examples.antt =====
-- Routes that a score asks for, on concrete tasks, and the theorems at them.
use adaptive_model_router.Common.{arith, false, refl, true, ◌≡◌, ◌≤◌, ◌⊎◌}
use adaptive_model_router.Catalog.{Family, family_index}
use adaptive_model_router.Scorer.{
  default_thresholds, desired_gate, desired_route, for_batch, for_code, for_review, for_risk,
  is_review, is_risky, scored_choice, validate_scoring_definition,
}
use adaptive_model_router.Scorer.Levels.{desired_route_floors, desired_route_mono, strength}
use adaptive_model_router.Scorer.Score.{
  IsNear, clamped_scores, count_hard_signals, default_weights, raw_score, score_task,
  score_task-IsNear,
}
use adaptive_model_router.Signed.{clamp, ℤ}
use adaptive_model_router.Task.{Scored, Signals, no_evidence, no_signals}
use adaptive_model_router.Vocabulary.{Category, Effort, Gate, effort_index}

abbrev review_signals : Signals
review_signals = record no_signals { review = true; risk = true; implementation = true }

abbrev review_task : Scored
review_task = record {
  score = 30;
  base_score = 30;
  borderline = false;
  substantive = true;
  category = Category.review;
  signals = review_signals;
  hard_signal_count = 1;
}

-- A low score of a risky review still asks for Sol with the effort high.
risky_review : desired_route default_thresholds review_task no_evidence ≡ record {
  choice = record { family = Family.sol; effort = Effort.high };
  verification_gate = Gate.full_checks;
}
unfolding desired_route desired_gate for_risk for_review for_code for_batch scored_choice
risky_review = refl

-- The top effort needs two hard signals.
top_effort : (scored_choice default_thresholds 99 1).effort ≡ Effort.xhigh
unfolding scored_choice
top_effort = refl

accepted_defaults : validate_scoring_definition default_thresholds ≡ true
unfolding validate_scoring_definition
accepted_defaults = refl

desired_route_mono_example :
    strength
      (desired_route default_thresholds (record review_task { score = 44 }) no_evidence).choice
    ≤ strength
        (desired_route default_thresholds (record review_task { score = 95 }) no_evidence).choice
desired_route_mono_example =
    desired_route_mono default_thresholds review_task no_evidence 44 95 accepted_defaults
      (omega arith)

desired_route_floors_example :
    (is_risky review_task ≡ true
      → ((desired_route default_thresholds review_task no_evidence).choice.family ≡ Family.sol)
        × (4
            ≤ effort_index (desired_route default_thresholds review_task no_evidence).choice.effort)
        × ((desired_route default_thresholds review_task no_evidence).verification_gate
            ≡ Gate.full_checks))
    × (is_review review_task ≡ true
        → ((desired_route default_thresholds review_task no_evidence).choice.family ≡ Family.sol)
          × (3
              ≤ effort_index
                  (desired_route default_thresholds review_task no_evidence).choice.effort))
    × (review_signals.implementation ≡ true
        → (1
            ≤ family_index (desired_route default_thresholds review_task no_evidence).choice.family)
          × (((desired_route default_thresholds review_task no_evidence).verification_gate
                ≡ Gate.targeted_tests)
              ⊎ ((desired_route default_thresholds review_task no_evidence).verification_gate
                  ≡ Gate.full_checks)))
desired_route_floors_example = desired_route_floors default_thresholds review_task no_evidence

-- 40 + 25 + 8 + 10 for the review above, and an offset of -15.
review_scores :
    score_task default_weights review_signals no_evidence false (ℤ.negsuc 14)
    ≡ record { base_score = ℤ.pos 83; score = ℤ.pos 68 }
unfolding score_task clamped_scores raw_score clamp
review_scores = refl

review_hard_signals :
    count_hard_signals (record review_signals { security = true; irreversible = true }) no_evidence
    ≡ 2
unfolding count_hard_signals
review_hard_signals = refl

score_task-IsNear_example :
    IsNear (score_task default_weights review_signals no_evidence false (ℤ.negsuc 14))
score_task-IsNear_example =
    score_task-IsNear default_weights review_signals no_evidence false (ℤ.negsuc 14) refl

abbrev critical_task : Scored
critical_task = record review_task { score = 99; hard_signal_count = 2 }

asks_max :
    effort_index (desired_route default_thresholds critical_task no_evidence).choice.effort ≡ 6
unfolding desired_route for_risk for_review for_code for_batch scored_choice
asks_max = refl

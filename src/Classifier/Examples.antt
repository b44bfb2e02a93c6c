-- ===== src/Classifier/Examples.antt =====
-- Three failures at minutes 0, 1 and 2, and the theorem at them.
use adaptive_model_router.Common.{[], arith, false, none, refl, some, true, ◌∷◌, ◌≡◌}
use adaptive_model_router.Classifier.{
  Adjustment, Classification, ClassifierState, Switches, classifier_health, classify_borderline,
  is_coherent,
}
use adaptive_model_router.Classifier.Breaker.{after_calls, three_failures}

abbrev switched_on : Switches
switched_on = record {
  is_auxiliary = true;
  is_disabled = false;
  is_internal = false;
  is_local_only = false;
}

abbrev raised : Classification
raised = record { adjustment = Adjustment.higher; says_up = true; says_down = false }

-- It says up, and the reason code does not.
abbrev incoherent : Classification
incoherent = record { adjustment = Adjustment.higher; says_up = false; says_down = false }

three_failures_example :
    let failed =
      after_calls switched_on ((none, 0) ∷ (some incoherent, 60000) ∷ (none, 120000) ∷ []) none in
    ((classifier_health failed).failures ≡ 3)
    × (classify_borderline switched_on (some raised) 130000 failed
        ≡ (failed, ClassifierState.circuit_open))
    × ((classify_borderline switched_on (some raised) 720000 failed).1
        ≡ ClassifierState.used raised)
    × ((classifier_health (classify_borderline switched_on (some raised) 720000 failed).0).failures
        ≡ 0)
unfolding is_coherent classifier_health
three_failures_example =
    three_failures switched_on none (some incoherent) none raised 0 60000 120000 130000 720000 none
      refl refl refl refl refl refl refl refl refl refl (ground arith) (ground arith)

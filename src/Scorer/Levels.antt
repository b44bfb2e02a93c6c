-- ===== src/Scorer/Levels.antt =====
-- The level that a score reaches, and the corrections of it: `desiredRoute` of scripts/lib/scorer.mjs.
use adaptive_model_router.Common.{Bool, arith, false, refl, true, ℕ, ◌*◌, ◌+◌, ◌<◌, ◌≡◌, ◌≤◌, ◌⊎◌}
use adaptive_model_router.Catalog.{Family, family_index}
use adaptive_model_router.Scorer.{
  Choice, Thresholds, desired_gate, desired_route, for_batch, for_code, for_review, for_risk,
  is_batch, is_review, is_risky, scored_choice, validate_scoring_definition,
}
use adaptive_model_router.Task.{Evidence, Scored}
use adaptive_model_router.Vocabulary.{Gate, effort_index}

-- A choice as a number: the family first, then the effort.
abbrev pub strength : Choice → ℕ
strength c = 8 * family_index c.family + effort_index c.effort

-- What the chain of conditionals and the corrections keep: the effort is low at least, medium at least
-- for the model Sol, and medium at most for each other.
abbrev IsTier : Choice → Type 0
IsTier c =
    (2 ≤ effort_index c.effort)
    × (1 + family_index c.family ≤ effort_index c.effort)
    × ((effort_index c.effort ≤ 3) ⊎ (2 ≤ family_index c.family))

scored_choice-IsTier : (t : Thresholds) (n h : ℕ) → IsTier (scored_choice t n h)
unfolding scored_choice
scored_choice-IsTier t n h = ground arith

for_batch-IsTier : (b : Bool) (c : Choice) → IsTier c → IsTier (for_batch b c)
unfolding for_batch
for_batch-IsTier b c h = ground arith

for_code-IsTier : (b : Bool) (c : Choice) → IsTier c → IsTier (for_code b c)
unfolding for_code
for_code-IsTier b c h = ground arith

for_review-IsTier : (b : Bool) (c : Choice) → IsTier c → IsTier (for_review b c)
unfolding for_review
for_review-IsTier b c h = ground arith

scored_choice_mono :
    (t : Thresholds) (h m n : ℕ)
    → validate_scoring_definition t ≡ true
    → m ≤ n
    → strength (scored_choice t m h) ≤ strength (scored_choice t n h)
unfolding scored_choice validate_scoring_definition
scored_choice_mono t h m n valid le = ground arith

for_batch_mono :
    (b : Bool) (c d : Choice)
    → strength c ≤ strength d
    → strength (for_batch b c) ≤ strength (for_batch b d)
unfolding for_batch
for_batch_mono b c d le = ground arith

for_code_mono :
    (b : Bool) (c d : Choice)
    → IsTier c
    → IsTier d
    → strength c ≤ strength d
    → strength (for_code b c) ≤ strength (for_code b d)
unfolding for_code
for_code_mono b c d hc hd le = ground arith

for_review_mono :
    (b : Bool) (c d : Choice)
    → IsTier c
    → IsTier d
    → strength c ≤ strength d
    → strength (for_review b c) ≤ strength (for_review b d)
unfolding for_review
for_review_mono b c d hc hd le = ground arith

for_risk_mono :
    (b : Bool) (c d : Choice)
    → IsTier c
    → IsTier d
    → strength c ≤ strength d
    → strength (for_risk b c) ≤ strength (for_risk b d)
unfolding for_risk
for_risk_mono b c d hc hd le = ground arith

-- With accepted thresholds and the same signals, category, hard signals and evidence, a higher score
-- never asks for a weaker route: not for a lesser family, nor in the same family for a lower effort.
pub desired_route_mono :
    (t : Thresholds) (s : Scored) (e : Evidence) (m n : ℕ)
    → validate_scoring_definition t ≡ true
    → m ≤ n
    → strength (desired_route t (record s { score = m }) e).choice
      ≤ strength (desired_route t (record s { score = n }) e).choice
unfolding desired_route
desired_route_mono t s e m n valid le =
    for_risk_mono (is_risky s) _ _ (reviewed_tier m) (reviewed_tier n) (
      for_review_mono (is_review s) _ _ (coded_tier m) (coded_tier n) (
        for_code_mono s.signals.implementation _ _ (batch_tier m) (batch_tier n) (
          for_batch_mono (is_batch s e) _ _
            (scored_choice_mono t s.hard_signal_count m n valid le))))
  where
    batch : ℕ → Choice
    batch k = for_batch (is_batch s e) (scored_choice t k s.hard_signal_count)

    coded : ℕ → Choice
    coded k = for_code s.signals.implementation (batch k)

    batch_tier : (k : ℕ) → IsTier (batch k)
    batch_tier k = for_batch-IsTier (is_batch s e) _ (scored_choice-IsTier t k s.hard_signal_count)

    coded_tier : (k : ℕ) → IsTier (coded k)
    coded_tier k = for_code-IsTier s.signals.implementation _ (batch_tier k)

    reviewed_tier : (k : ℕ) → IsTier (for_review (is_review s) (coded k))
    reviewed_tier k = for_review-IsTier (is_review s) _ (coded_tier k)

for_risk_floor :
    (b : Bool) (c : Choice)
    → b ≡ true
    → ((for_risk b c).family ≡ Family.sol) × (4 ≤ effort_index (for_risk b c).effort)
unfolding for_risk
for_risk_floor b c h = ground arith

for_review_floor :
    (b r : Bool) (c : Choice)
    → IsTier c
    → r ≡ true
    → ((for_risk b (for_review r c)).family ≡ Family.sol)
      × (3 ≤ effort_index (for_risk b (for_review r c)).effort)
unfolding for_review for_risk
for_review_floor b r c tier h = ground arith

for_code_floor :
    (b r i : Bool) (c : Choice)
    → i ≡ true
    → 1 ≤ family_index (for_risk b (for_review r (for_code i c))).family
unfolding for_risk for_review for_code
for_code_floor b r i c h = ground arith

desired_gate_risk :
    (s : Scored) (e : Evidence) → is_risky s ≡ true → desired_gate s e ≡ Gate.full_checks
unfolding desired_gate
desired_gate_risk s e h = rw h refl

desired_gate_code :
    (s : Scored) (e : Evidence)
    → s.signals.implementation ≡ true
    → (desired_gate s e ≡ Gate.targeted_tests) ⊎ (desired_gate s e ≡ Gate.full_checks)
unfolding desired_gate
desired_gate_code s e h = ground arith

-- Whatever the score and the thresholds: a task with a signal of risk, security or migration asks for
-- Sol with the effort high at least and for full checks; a review asks for Sol with the effort medium
-- at least; an implementation never asks for Luna, and its gate is targeted tests or full checks.
pub desired_route_floors :
    (t : Thresholds) (s : Scored) (e : Evidence)
    → (is_risky s ≡ true
        → ((desired_route t s e).choice.family ≡ Family.sol)
          × (4 ≤ effort_index (desired_route t s e).choice.effort)
          × ((desired_route t s e).verification_gate ≡ Gate.full_checks))
      × (is_review s ≡ true
          → ((desired_route t s e).choice.family ≡ Family.sol)
            × (3 ≤ effort_index (desired_route t s e).choice.effort))
      × (s.signals.implementation ≡ true
          → (1 ≤ family_index (desired_route t s e).choice.family)
            × (((desired_route t s e).verification_gate ≡ Gate.targeted_tests)
                ⊎ ((desired_route t s e).verification_gate ≡ Gate.full_checks)))
unfolding desired_route
desired_route_floors t s e = (
  λ risky. (
    (for_risk_floor (is_risky s) _ risky).0,
    (for_risk_floor (is_risky s) _ risky).1,
    desired_gate_risk s e risky,
  ),
  for_review_floor (is_risky s) (is_review s) _ (
      for_code-IsTier s.signals.implementation _
        (for_batch-IsTier (is_batch s e) _ (scored_choice-IsTier t s.score s.hard_signal_count))),
  λ code. (
    for_code_floor (is_risky s) (is_review s) s.signals.implementation _ code,
    desired_gate_code s e code,
  ),
)

scored_choice_top :
    (t : Thresholds) (n h : ℕ)
    → 6 ≤ effort_index (scored_choice t n h).effort
    → (t.sol_xhigh_max < n) × (t.sol_max_hard_signals ≤ h)
unfolding scored_choice
scored_choice_top t n h top = ground arith

corrected_top :
    (batch code review risky : Bool) (c : Choice)
    → 6
      ≤ effort_index (for_risk risky (for_review review (for_code code (for_batch batch c)))).effort
    → (6 ≤ effort_index c.effort) × (batch ≡ false)
unfolding for_risk for_review for_code for_batch
corrected_top batch code review risky c top = ground arith

-- The effort max, or one above it, is asked for only with a score above the threshold of xhigh, with
-- as many hard signals as the profile wants, and never for a mechanical batch that is no risk.
pub desired_route_top :
    (t : Thresholds) (s : Scored) (e : Evidence)
    → 6 ≤ effort_index (desired_route t s e).choice.effort
    → (t.sol_xhigh_max < s.score)
      × (t.sol_max_hard_signals ≤ s.hard_signal_count)
      × (is_batch s e ≡ false)
unfolding desired_route
desired_route_top t s e top =
    let corrected =
      corrected_top (is_batch s e) s.signals.implementation (is_review s) (is_risky s) _ top in
    let reached = scored_choice_top t s.score s.hard_signal_count corrected.0 in
    (reached.0, reached.1, corrected.1)

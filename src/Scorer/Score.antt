-- ===== src/Scorer/Score.antt =====
-- The sum of the weights, its two clamps and the hard signals: `scoreTask` of scripts/lib/scorer.mjs
-- after its signals are known. A weight is an integer, as the schema of a scoring profile asks.
use adaptive_model_router.Common.{
  Bool, arith, if◌then◌else◌, ltb, not, true, ℕ, ◌&&◌, ◌+◌, ◌||◌, ◌≡◌,
}
use adaptive_model_router.Signed.{clamp, leb_int, within_offsets, ℤ, ◌+ℤ◌}
use adaptive_model_router.Task.{Evidence, Signals}

pub record Weights : Type 0 where
  pub base : ℤ
  pub ambiguity : ℤ
  pub grill_with_docs : ℤ
  pub plan_mode : ℤ
  pub risk : ℤ
  pub safety : ℤ
  pub cross_cutting : ℤ
  pub missing_verification : ℤ
  pub review : ℤ
  pub mechanical_batch : ℤ
  pub mechanical_single : ℤ
  pub requirements_settled : ℤ
  pub settled_with_verification : ℤ
  pub non_risk_exploration : ℤ
  pub long_summary : ℤ

-- DEFAULT_SCORING_PROFILE.weights.
abbrev pub default_weights : Weights
default_weights = record {
  base = ℤ.pos 40;
  ambiguity = ℤ.pos 18;
  grill_with_docs = ℤ.pos 18;
  plan_mode = ℤ.pos 18;
  risk = ℤ.pos 25;
  safety = ℤ.pos 10;
  cross_cutting = ℤ.pos 15;
  missing_verification = ℤ.pos 8;
  review = ℤ.pos 10;
  mechanical_batch = ℤ.negsuc 27;
  mechanical_single = ℤ.negsuc 19;
  requirements_settled = ℤ.negsuc 9;
  settled_with_verification = ℤ.negsuc 4;
  non_risk_exploration = ℤ.negsuc 7;
  long_summary = ℤ.pos 8;
}

-- `if (test) score += weight`.
abbrev add_if : Bool → ℤ → ℤ → ℤ
add_if test weight score = if test then score +ℤ weight else score

unfoldable pub raw_score : Weights → Signals → Evidence → Bool → ℤ
raw_score w s e is_long =
    let a = add_if s.ambiguity w.ambiguity w.base in
    let b = add_if s.grill_with_docs w.grill_with_docs a in
    let c = add_if s.plan_mode w.plan_mode b in
    let d = add_if s.risk w.risk c in
    let f = add_if (s.security || s.migration) w.safety d in
    let g = add_if s.cross_cutting w.cross_cutting f in
    let h = add_if (not s.verification && (s.implementation || s.risk)) w.missing_verification g in
    let i = add_if s.review w.review h in
    let batch = if ltb 1 e.batch_size then w.mechanical_batch else w.mechanical_single in
    let j = add_if s.mechanical batch i in
    let k = add_if s.clear w.requirements_settled j in
    let l = add_if (s.verification && s.clear) w.settled_with_verification k in
    let m = add_if (s.exploration && not s.risk) w.non_risk_exploration l in
    add_if is_long w.long_summary m

-- `baseScore` and `score`; the offset is that of the category in the active revision.
pub record Scores : Type 0 where
  pub base_score : ℤ
  pub score : ℤ

unfoldable pub clamped_scores : ℤ → ℤ → Scores
clamped_scores raw offset = record {
  base_score = clamp raw (ℤ.pos 0) (ℤ.pos 100);
  score = clamp (raw +ℤ offset) (ℤ.pos 0) (ℤ.pos 100);
}

unfoldable pub score_task : Weights → Signals → Evidence → Bool → ℤ → Scores
score_task w s e is_long offset = clamped_scores (raw_score w s e is_long) offset

abbrev count_true : Bool → ℕ → ℕ
count_true b n = if b then n + 1 else n

unfoldable pub count_hard_signals : Signals → Evidence → ℕ
count_hard_signals s e = count_true (s.security || s.migration) (
    count_true (e.high_risk || s.high_failure_cost) (
      count_true (s.cross_cutting && s.public_contract)
        (count_true s.architecture_tradeoff (count_true s.irreversible 0))))

abbrev pub in_scale : ℤ → Bool
in_scale v = leb_int (ℤ.pos 0) v && leb_int v (ℤ.pos 100)

-- Both scores are on the scale, and the learned one is within 15 of the other.
abbrev pub IsNear : Scores → Type 0
IsNear r =
    (in_scale r.base_score ≡ true)
    × (in_scale r.score ≡ true)
    × (leb_int (r.base_score +ℤ ℤ.negsuc 14) r.score ≡ true)
    × (leb_int r.score (r.base_score +ℤ ℤ.pos 15) ≡ true)

clamped_scores-IsNear : (raw o : ℤ) → within_offsets o ≡ true → IsNear (clamped_scores raw o)
unfolding clamped_scores clamp
clamped_scores-IsNear (ℤ.pos r) (ℤ.pos o) within = ground arith
clamped_scores-IsNear (ℤ.pos r) (ℤ.negsuc o) within = ground arith
clamped_scores-IsNear (ℤ.negsuc r) (ℤ.pos o) within = ground arith
clamped_scores-IsNear (ℤ.negsuc r) (ℤ.negsuc o) within = ground arith

-- For all weights, signals and evidence and a learned offset within -15 and 15, the base score and the
-- score are between 0 and 100, and the offset moves the score by at most 15 from the base score.
pub score_task-IsNear :
    (w : Weights) (s : Signals) (e : Evidence) (is_long : Bool) (offset : ℤ)
    → within_offsets offset ≡ true
    → IsNear (score_task w s e is_long offset)
unfolding score_task
score_task-IsNear w s e is_long offset within =
    clamped_scores-IsNear (raw_score w s e is_long) offset within

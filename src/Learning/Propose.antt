-- ===== src/Learning/Propose.antt =====
-- `maybeGenerateProposal` of scripts/lib/learning.mjs.
use adaptive_model_router.Common.{
  Bool, List, Option, String, [], any, bool_eq, false, filter, if◌then◌else◌, includes, leb, length,
  ltb, max, min, nat_eq, none, not, some, string_eq, text_eq, true, ℕ, ◌&&◌, ◌++◌, ◌+◌, ◌==◌, ◌||◌,
  ◌∷◌,
}
use adaptive_model_router.Learning.{
  Kind, LearnedOutcome, OutcomeResult, Project, Proposal, ProposalStatus, Revision, active_revision,
  is_pending_for, set_at,
}
use adaptive_model_router.Signed.{clamp, eq_int, ℤ, ◌+ℤ◌}
use adaptive_model_router.Vocabulary.{
  Category, FailureType, category_eq, effort_eq, failure_eq, gate_eq, level_eq, signal_eq,
}

abbrev is_unknown : OutcomeResult → Bool
is_unknown OutcomeResult.unknown = true
is_unknown OutcomeResult.passed = false
is_unknown OutcomeResult.failed = false

abbrev is_failed : OutcomeResult → Bool
is_failed OutcomeResult.failed = true
is_failed OutcomeResult.passed = false
is_failed OutcomeResult.unknown = false

abbrev is_reasoning : Option FailureType → Bool
is_reasoning none = true
is_reasoning (some t) = t == FailureType.reasoning

-- The `WHERE` of the window.
unfoldable pub in_window : Category → ℕ → String → LearnedOutcome → Bool
in_window category after profile o =
    o.category == category
    && (not (is_unknown o.status)
        && (ltb after o.seq
            && (o.profile_id == profile
                && (o.eligible_learning
                    && (is_reasoning o.failure_type
                        && (o.retry_environment == 0
                            && (o.retry_information == 0 && o.retry_tooling == 0)))))))

abbrev pub is_affected : LearnedOutcome → Bool
is_affected o = is_failed o.status || o.user_correction || ltb 0 o.retry_reasoning

abbrev pub count : (LearnedOutcome → Bool) → List LearnedOutcome → ℕ
count p window = length (filter p window)

abbrev pub distinct_contexts : List LearnedOutcome → List String
distinct_contexts [] = []
distinct_contexts (o ∷ os) =
    let rest = distinct_contexts os in
    if includes rest o.context_key then rest else o.context_key ∷ rest

abbrev sum_retries : List LearnedOutcome → ℕ
sum_retries [] = 0
sum_retries (o ∷ os) = o.retry_reasoning + sum_retries os

-- `coalesce(min(seq), 0)` and `coalesce(max(seq), 0)`.
abbrev pub first_seq : List LearnedOutcome → ℕ
first_seq [] = 0
first_seq (o ∷ []) = o.seq
first_seq (o ∷ p ∷ os) = min o.seq (first_seq (p ∷ os))

abbrev pub last_seq : List LearnedOutcome → ℕ
last_seq [] = 0
last_seq (o ∷ os) = max o.seq (last_seq os)

-- The evidence for an increase or a decrease of the offset.
unfoldable pub delta_of : ℕ → ℕ → ℕ → Option ℤ
delta_of eligible affected contexts =
    if leb 12 eligible && (leb 4 affected && leb 4 contexts)
    then some (ℤ.pos 5)
    else if leb 20 eligible && (affected == 0 && leb 5 contexts)
    then some (ℤ.negsuc 4)
    else none

abbrev pub after_seq : Project → Revision → Category → ℕ → ℕ
after_seq project revision category profile_seq =
    max (max (project.cursors category) revision.outcome_seq) profile_seq

abbrev pub window_of : Project → Revision → Category → String → ℕ → List LearnedOutcome
window_of project revision category profile profile_seq =
    filter (in_window category (after_seq project revision category profile_seq) profile)
      project.outcomes

unfoldable pub new_proposal :
    String → Category → ℤ → String → String → List LearnedOutcome → Proposal
new_proposal id category delta revision profile window = record {
  proposal_id = id;
  category = category;
  delta = delta;
  base_revision_id = revision;
  start_seq = first_seq window;
  end_seq = last_seq window;
  eligible_count = length window;
  affected_count = count is_affected window;
  context_count = length (distinct_contexts window);
  failure_count = count (λ o. is_failed o.status) window;
  correction_count = count (λ o. o.user_correction) window;
  reasoning_retry_count = sum_retries window;
  base_profile_id = some profile;
  kind = Kind.offset;
  status = ProposalStatus.pending;
}

abbrev pub moved : ℤ → ℤ → ℤ
moved old delta = clamp (old +ℤ delta) (ℤ.negsuc 14) (ℤ.pos 15)

-- The part behind the checks.
unfoldable pub propose :
    String
    → Category
    → String
    → Revision
    → List LearnedOutcome
    → Project
    → Project × Option Proposal
unfolding delta_of new_proposal clamp
propose id category profile revision window project =
    elim (delta_of (length window) (count is_affected window) (length (distinct_contexts window))) [
      | none ↦ (project, none)
      | some delta ↦
          if eq_int (moved (revision.offsets category) delta) (revision.offsets category)
          then (
            record project { cursors = set_at category (last_seq window) project.cursors },
            none,
          )
          else (
            record project {
              proposals =
                  project.proposals
                  ++ new_proposal id category delta revision.revision_id profile window ∷ [];
            },
            some (new_proposal id category delta revision.revision_id profile window),
          )
    ]

unfoldable pub maybe_generate_proposal :
    String → String → String → ℕ → Category → Project → Project × Option Proposal
unfolding active_revision propose in_window
maybe_generate_proposal id policy_revision profile profile_seq category project =
    elim (active_revision project) [
      | none ↦ (project, none)
      | some revision ↦
          if not (revision.revision_id == policy_revision)
            || any (is_pending_for category) project.proposals
          then (project, none)
          else propose id category profile revision
              (window_of project revision category profile profile_seq) project
    ]

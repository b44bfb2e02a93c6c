-- ===== src/Learning/Examples.antt =====
-- A project with twelve failed outcomes in four contexts, and the theorems at it.
use adaptive_model_router.Common.{
  List, String, [], false, find?, inl, none, refl, some, true, ℕ, ◌++◌, ◌+◌, ◌<◌, ◌∷◌, ◌≡◌,
}
use adaptive_model_router.Gate.{update}
use adaptive_model_router.Learning.{
  Kind, LearnedOutcome, OutcomeResult, Project, Proposal, ProposalStatus, Revision, active_revision,
  has_proposal_id,
}
use adaptive_model_router.Learning.Decide.{Decided, approve_policy_proposal}
use adaptive_model_router.Learning.Evidence.{evidence_once}
use adaptive_model_router.Learning.Once.{approve_once}
use adaptive_model_router.Learning.Propose.{maybe_generate_proposal}
use adaptive_model_router.Learning.Range.{AllRanged, LearnCall, learn_all, learn_all-AllRanged}
use adaptive_model_router.Signed.{clamp, ℤ}
use adaptive_model_router.Vocabulary.{Category, FailureType}

abbrev base : Revision
base = record {
  revision_id = "r0";
  parent_revision_id = none;
  offsets = λ c. ℤ.pos 0;
  outcome_seq = 0;
  source_proposal = none;
}

abbrev failure : ℕ → String → LearnedOutcome
failure n context = record {
  seq = n;
  context_key = context;
  category = Category.review;
  status = OutcomeResult.failed;
  failure_type = some FailureType.reasoning;
  user_correction = false;
  retry_reasoning = 1;
  retry_environment = 0;
  retry_information = 0;
  retry_tooling = 0;
  profile_id = "profile";
  eligible_learning = true;
}

abbrev failures : ℕ → List LearnedOutcome
failures n =
    failure (n + 1) "a"
    ∷ failure (n + 2) "b"
    ∷ failure (n + 3) "c"
    ∷ failure (n + 4) "d"
    ∷ failure (n + 5) "a"
    ∷ failure (n + 6) "a"
    ∷ failure (n + 7) "a"
    ∷ failure (n + 8) "a"
    ∷ failure (n + 9) "a"
    ∷ failure (n + 10) "a"
    ∷ failure (n + 11) "a"
    ∷ failure (n + 12) "a"
    ∷ []

abbrev learning : Project
learning = record {
  active_revision_id = some "r0";
  revisions = base ∷ [];
  proposals = [];
  cursors = λ c. 0;
  outcomes = failures 0;
}

abbrev first_proposal : Proposal
first_proposal = record {
  proposal_id = "p1";
  category = Category.review;
  delta = ℤ.pos 5;
  base_revision_id = "r0";
  start_seq = 1;
  end_seq = 12;
  eligible_count = 12;
  affected_count = 12;
  context_count = 4;
  failure_count = 12;
  correction_count = 0;
  reasoning_retry_count = 12;
  base_profile_id = some "profile";
  kind = Kind.offset;
  status = ProposalStatus.pending;
}

generates :
    (maybe_generate_proposal "p1" "r0" "profile" 0 Category.review learning).1 ≡ some first_proposal
unfolding maybe_generate_proposal
generates = refl

-- The project with the proposal, and twelve later failures.
abbrev proposed : Project
proposed = record learning { proposals = first_proposal ∷ []; outcomes = failures 0 ++ failures 12 }

approves_it :
    (approve_policy_proposal "r1" "profile" "p1" proposed).1 ≡ Decided.approved_now "r1" (ℤ.pos 5)
unfolding approve_policy_proposal clamp
approves_it = refl

abbrev approved_project : Project
approved_project = (approve_policy_proposal "r1" "profile" "p1" proposed).0

approve_once_example :
    (approve_policy_proposal "r2" "profile" "p1" approved_project
      ≡ (approved_project, Decided.repeated))
    × ((p : Proposal) × (r : Revision) × (before : Revision) × (find?
            (has_proposal_id "p1")
            proposed.proposals
          ≡ some p)
        × (active_revision approved_project ≡ some r)
        × (r.offsets p.category ≡ ℤ.pos 5)
        × (active_revision proposed ≡ some before)
        × (r.parent_revision_id ≡ some before.revision_id))
approve_once_example =
    approve_once "r1" "profile" "r2" "profile" "p1" proposed "r1" (ℤ.pos 5) (refl, tt) approves_it

abbrev second_proposal : Proposal
second_proposal = record first_proposal {
  proposal_id = "p2";
  base_revision_id = "r1";
  start_seq = 13;
  end_seq = 24;
}

generates_again :
    (maybe_generate_proposal "p2" "r1" "profile" 0 Category.review approved_project).1
    ≡ some second_proposal
unfolding maybe_generate_proposal approve_policy_proposal update
generates_again = refl

evidence_once_example : 12 < 13
evidence_once_example =
    evidence_once "r1" "profile" "p1" "p2" "r1" "profile" 0 proposed first_proposal second_proposal
      approved_project refl refl (inl refl) generates_again

learn_all-AllRanged_example :
    AllRanged
      (learn_all (LearnCall.approves "r1" "profile" "p1" ∷ LearnCall.rolls_back ∷ []) proposed)
learn_all-AllRanged_example =
    learn_all-AllRanged (LearnCall.approves "r1" "profile" "p1" ∷ LearnCall.rolls_back ∷ [])
      proposed ((λ c. refl), tt)

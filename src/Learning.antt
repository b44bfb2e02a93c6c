-- ===== src/Learning.antt =====
-- The learned offsets of the scoring, scripts/lib/learning.mjs: proposals, their approval, rejection and
-- rebase, and the rollback. The statements name the project, so the state is that of one project. The
-- active revision and scoring profile that `ensurePolicy` and `ensureScoringProfile` return before a
-- transaction, and the new random identifiers, are arguments. Times are left out.
pub mod Propose
pub mod Decide
pub mod Range
pub mod Evidence
pub mod Once
mod Examples
use adaptive_model_router.Common.{
  Bool, List, Option, String, bool_eq, false, find?, if◌then◌else◌, max, nat_eq, none, some,
  string_eq, text_beq_eq, text_eq, true, ℕ, ◌&&◌, ◌==◌,
}
use adaptive_model_router.Gate.{update}
use adaptive_model_router.Signed.{ℤ}
use adaptive_model_router.Vocabulary.{
  Category, FailureType, category_eq, effort_eq, failure_eq, gate_eq, level_eq, signal_eq,
}

pub data ProposalStatus : Type 0 where
  pending approved rejected stale : ProposalStatus

pub data Kind : Type 0 where
  offset rebase : Kind

-- A row of policy_proposals; the counts are those of its window of outcomes.
pub record Proposal : Type 0 where
  pub proposal_id : String
  pub category : Category
  pub delta : ℤ
  pub base_revision_id : String
  pub start_seq : ℕ
  pub end_seq : ℕ
  pub eligible_count : ℕ
  pub affected_count : ℕ
  pub context_count : ℕ
  pub failure_count : ℕ
  pub correction_count : ℕ
  pub reasoning_retry_count : ℕ
  pub base_profile_id : Option String
  pub kind : Kind
  pub status : ProposalStatus

-- A row of policy_revisions; a category without an offset has 0.
pub record Revision : Type 0 where
  pub revision_id : String
  pub parent_revision_id : Option String
  pub offsets : Category → ℤ
  pub outcome_seq : ℕ
  pub source_proposal : Option String

pub data OutcomeResult : Type 0 where
  passed failed unknown : OutcomeResult

-- A row of outcomes, joined with its row of route_score_snapshots.
pub record LearnedOutcome : Type 0 where
  pub seq : ℕ
  pub context_key : String
  pub category : Category
  pub status : OutcomeResult
  pub failure_type : Option FailureType
  pub user_correction : Bool
  pub retry_reasoning : ℕ
  pub retry_environment : ℕ
  pub retry_information : ℕ
  pub retry_tooling : ℕ
  pub profile_id : String
  pub eligible_learning : Bool

-- The rows of one project; a category without a cursor has 0.
pub record Project : Type 0 where
  pub active_revision_id : Option String
  pub revisions : List Revision
  pub proposals : List Proposal
  pub cursors : Category → ℕ
  pub outcomes : List LearnedOutcome

abbrev pub is_open_status : ProposalStatus → Bool
is_open_status ProposalStatus.pending = true
is_open_status ProposalStatus.approved = false
is_open_status ProposalStatus.rejected = false
is_open_status ProposalStatus.stale = false

abbrev pub is_pending_for : Category → Proposal → Bool
is_pending_for category p = p.category == category && is_open_status p.status

abbrev pub has_proposal_id : String → Proposal → Bool
has_proposal_id id p = p.proposal_id == id

abbrev pub has_revision_id : String → Revision → Bool
has_revision_id id r = r.revision_id == id

abbrev pub revision_of : Project → Option String → Option Revision
revision_of project none = none
revision_of project (some id) = find? (has_revision_id id) project.revisions

-- `project_policy p JOIN policy_revisions r`.
unfoldable pub active_revision : Project → Option Revision
active_revision project = revision_of project project.active_revision_id

abbrev pub set_at {ℓ} : {A : Type ℓ} → Category → A → (Category → A) → Category → A
set_at category a f other = if other == category then a else f other

abbrev pub set_status : String → ProposalStatus → Project → Project
set_status id status project = record project {
  proposals = update (has_proposal_id id) (λ p. record p { status = status }) project.proposals;
}

-- `advanceCursor`.
abbrev pub advance_cursor : Proposal → Project → Project
advance_cursor p project = record project {
  cursors = set_at p.category (max (project.cursors p.category) p.end_seq) project.cursors;
}

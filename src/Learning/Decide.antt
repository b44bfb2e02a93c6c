-- ===== src/Learning/Decide.antt =====
-- `approvePolicyProposal`, `rejectPolicyProposal`, `rebasePolicyProposal` and `rollbackPolicy`
-- of scripts/lib/learning.mjs.
use adaptive_model_router.Common.{
  Bool, Option, String, [], any, bool_eq, false, find?, if◌then◌else◌, nat_eq, none, not, some,
  string_eq, text_eq, true, truthy, ◌&&◌, ◌++◌, ◌==◌, ◌||◌, ◌∷◌,
}
use adaptive_model_router.Learning.{
  Kind, Project, Proposal, ProposalStatus, Revision, active_revision, advance_cursor,
  has_proposal_id, is_open_status, is_pending_for, set_at, set_status,
}
use adaptive_model_router.Learning.Propose.{moved}
use adaptive_model_router.Signed.{clamp, ℤ}
use adaptive_model_router.Vocabulary.{
  category_eq, effort_eq, failure_eq, gate_eq, level_eq, signal_eq,
}

pub data Decided : Type 0 where
  -- The revision, and the category's new offset.
  approved_now : String → ℤ → Decided
  rejected_now : Decided
  repeated : Decided
  made_stale : Decided
  -- The proposal is not in the project, or has another status.
  not_found : Decided
  has_status : ProposalStatus → Decided
  -- The errors and the answer of a rebase.
  pending_exists : Decided
  rebased_as : String → Decided

-- The base profile is NULL for an old proposal.
abbrev pub profile_differs : Option String → String → Bool
profile_differs none profile = false
profile_differs (some base) profile = not (base == "") && not (base == profile)

abbrev pub next_revision : String → Proposal → Revision → Revision
next_revision id p active = record {
  revision_id = id;
  parent_revision_id = some active.revision_id;
  offsets = set_at p.category (moved (active.offsets p.category) p.delta) active.offsets;
  outcome_seq = p.end_seq;
  source_proposal = some p.proposal_id;
}

unfoldable pub make_stale : Proposal → Project → Project × Decided
make_stale p project =
    (advance_cursor p (set_status p.proposal_id ProposalStatus.stale project), Decided.made_stale)

unfoldable pub approve_on : String → Proposal → Revision → Project → Project × Decided
unfolding clamp
approve_on id p active project = (
  advance_cursor p (
      set_status p.proposal_id ProposalStatus.approved (record project {
        revisions = project.revisions ++ next_revision id p active ∷ [];
        active_revision_id = some id;
      })),
  Decided.approved_now id (moved (active.offsets p.category) p.delta),
)

unfoldable pub approve_pending : String → String → Proposal → Project → Project × Decided
unfolding active_revision make_stale approve_on
approve_pending id profile p project = elim (active_revision project) [
  | none ↦ make_stale p project
  | some active ↦
      if not (active.revision_id == p.base_revision_id) || profile_differs p.base_profile_id profile
      then make_stale p project
      else approve_on id p active project
]

unfoldable pub approve_row : String → String → Proposal → Project → Project × Decided
unfolding approve_pending
approve_row id profile p project = elim p.status [
  | ProposalStatus.approved ↦ (project, Decided.repeated)
  | ProposalStatus.pending ↦ approve_pending id profile p project
  | ProposalStatus.rejected ↦ (project, Decided.has_status ProposalStatus.rejected)
  | ProposalStatus.stale ↦ (project, Decided.has_status ProposalStatus.stale)
]

unfoldable pub approve_policy_proposal : String → String → String → Project → Project × Decided
unfolding approve_row
approve_policy_proposal id profile proposal project =
    elim (find? (has_proposal_id proposal) project.proposals) [
      | none ↦ (project, Decided.not_found)
      | some p ↦ approve_row id profile p project
    ]

unfoldable pub reject_row : Proposal → Project → Project × Decided
reject_row p project = elim p.status [
  | ProposalStatus.rejected ↦ (project, Decided.repeated)
  | ProposalStatus.pending ↦ (
    advance_cursor p (set_status p.proposal_id ProposalStatus.rejected project),
    Decided.rejected_now,
  )
  | ProposalStatus.approved ↦ (project, Decided.has_status ProposalStatus.approved)
  | ProposalStatus.stale ↦ (project, Decided.has_status ProposalStatus.stale)
]

unfoldable pub reject_policy_proposal : String → Project → Project × Decided
unfolding reject_row
reject_policy_proposal proposal project =
    elim (find? (has_proposal_id proposal) project.proposals) [
      | none ↦ (project, Decided.not_found)
      | some p ↦ reject_row p project
    ]

-- The copy of a proposal on the current revision and profile.
abbrev pub rebased : String → String → String → Proposal → Proposal
rebased id policy_revision profile p = record p {
  proposal_id = id;
  base_revision_id = policy_revision;
  base_profile_id = some profile;
  kind = Kind.rebase;
  status = ProposalStatus.pending;
}

unfoldable pub rebase_row : String → String → String → Proposal → Project → Project × Decided
rebase_row id policy_revision profile p project =
    if any (λ q. is_pending_for p.category q && not (has_proposal_id p.proposal_id q))
      project.proposals
    then (project, Decided.pending_exists)
    else let closed =
        if is_open_status p.status
        then set_status p.proposal_id ProposalStatus.stale project
        else project in
      let moved_on = advance_cursor p closed in
      (
        record moved_on {
          proposals = moved_on.proposals ++ rebased id policy_revision profile p ∷ [];
        },
        Decided.rebased_as id,
      )

unfoldable pub rebase_policy_proposal :
    String → String → String → String → Project → Project × Decided
unfolding rebase_row
rebase_policy_proposal id policy_revision profile proposal project =
    elim (find? (has_proposal_id proposal) project.proposals) [
      | none ↦ (project, Decided.not_found)
      | some p ↦ elim p.status [
        | ProposalStatus.pending ↦ rebase_row id policy_revision profile p project
        | ProposalStatus.stale ↦ rebase_row id policy_revision profile p project
        | ProposalStatus.approved ↦ (project, Decided.has_status ProposalStatus.approved)
        | ProposalStatus.rejected ↦ (project, Decided.has_status ProposalStatus.rejected)
      ]
    ]

-- Whether the active revision went back to its parent.
unfoldable pub rollback_policy : Project → Project × Bool
unfolding active_revision
rollback_policy project = elim (active_revision project) [
  | none ↦ (project, false)
  | some active ↦
      if truthy active.parent_revision_id
      then (record project { active_revision_id = active.parent_revision_id }, true)
      else (project, false)
]

-- ===== src/Learning/Range.antt =====
-- The operations on the learned offsets in any order, and the range of every offset.
use adaptive_model_router.Common.{
  All, All-append, All-find?, Bool, List, Option, Option-cases, String, [], any, bool_eq, find?,
  if-all, inl, inr, length, nat_eq, none, not, refl, some, string_eq, subst, sym, text_eq, true,
  truthy, ℕ, ◌&&◌, ◌==◌, ◌||◌, ◌∷◌, ◌≡◌,
}
use adaptive_model_router.Learning.{
  LearnedOutcome, Project, Proposal, ProposalStatus, Revision, active_revision, has_proposal_id,
  has_revision_id, is_open_status, is_pending_for, revision_of,
}
use adaptive_model_router.Learning.Decide.{
  Decided, approve_on, approve_pending, approve_policy_proposal, approve_row, make_stale,
  next_revision, profile_differs, rebase_policy_proposal, rebase_row, reject_policy_proposal,
  reject_row, rollback_policy,
}
use adaptive_model_router.Learning.Propose.{
  count, delta_of, distinct_contexts, is_affected, maybe_generate_proposal, moved, propose,
  window_of,
}
use adaptive_model_router.Signed.{clamp-within_offsets, eq_int, within_offsets, ◌+ℤ◌}
use adaptive_model_router.Vocabulary.{
  Category, category_eq, effort_eq, failure_eq, gate_eq, level_eq, signal_eq,
}

pub data LearnCall : Type 0 where
  generates : String → String → String → ℕ → Category → LearnCall
  approves : String → String → String → LearnCall
  rejects : String → LearnCall
  rebases : String → String → String → String → LearnCall
  rolls_back : LearnCall

unfoldable pub learn : LearnCall → Project → Project
learn (LearnCall.generates id policy profile seq category) project =
    (maybe_generate_proposal id policy profile seq category project).0
learn (LearnCall.approves id profile proposal) project =
    (approve_policy_proposal id profile proposal project).0
learn (LearnCall.rejects proposal) project = (reject_policy_proposal proposal project).0
learn (LearnCall.rebases id policy profile proposal) project =
    (rebase_policy_proposal id policy profile proposal project).0
learn LearnCall.rolls_back project = (rollback_policy project).0

unfoldable pub learn_all : List LearnCall → Project → Project
unfolding learn
learn_all [] project = project
learn_all (call ∷ calls) project = learn_all calls (learn call project)

-- Every offset of every revision is within -15 and 15.
abbrev pub IsRanged : Revision → Type 0
IsRanged r = (category : Category) → within_offsets (r.offsets category) ≡ true

abbrev pub AllRanged : Project → Type 0
AllRanged project = All IsRanged project.revisions

propose-revisions :
    (id : String) (category : Category) (profile : String) (revision : Revision)
    (window : List LearnedOutcome) (project : Project)
    → (propose id category profile revision window project).0.revisions ≡ project.revisions
unfolding propose
propose-revisions id category profile revision window project =
    elim (Option-cases
      (delta_of (length window) (count is_affected window) (length (distinct_contexts window)))) [
        | inl e ↦ rw (e, propose) refl
        | inr (delta, e) ↦
            rw (e, propose)
              (if-all (λ (z : Project × Option Proposal). z.0.revisions ≡ project.revisions)
                (eq_int (moved (revision.offsets category) delta) (revision.offsets category)) _ _
                (λ _. refl) (λ _. refl))
      ]

generate-revisions :
    (id policy profile : String) (seq : ℕ) (category : Category) (project : Project)
    → (maybe_generate_proposal id policy profile seq category project).0.revisions
      ≡ project.revisions
unfolding maybe_generate_proposal
generate-revisions id policy profile seq category project =
    elim (Option-cases (active_revision project)) [
      | inl e ↦ rw (e, maybe_generate_proposal) refl
      | inr (revision, e) ↦
          rw (e, maybe_generate_proposal)
            (if-all (λ (z : Project × Option Proposal). z.0.revisions ≡ project.revisions)
              (not (revision.revision_id == policy)
                || any (is_pending_for category) project.proposals)
              _ _ (λ _. refl)
              (λ _.
                propose-revisions id category profile revision
                  (window_of project revision category profile seq) project))
    ]

next-IsRanged :
    (id : String) (p : Proposal) (active : Revision)
    → IsRanged active
    → IsRanged (next_revision id p active)
next-IsRanged id p active h category =
    if-all (λ v. within_offsets v ≡ true) (category == p.category) _ _
      (λ _. clamp-within_offsets ((active.offsets p.category) +ℤ p.delta)) (λ _. h category)

active-IsRanged :
    (project : Project) (active : Revision)
    → AllRanged project
    → active_revision project ≡ some active
    → IsRanged active
unfolding active_revision
active-IsRanged project active h e = found project.active_revision_id e
  where
    found : (o : Option String) → revision_of project o ≡ some active → IsRanged active
    found none g = absurd (none_ne_some g)
      where
        none_ne_some : none ≡ some active → ⊥
        none_ne_some k = cc
    found (some id) g = All-find? IsRanged (has_revision_id id) project.revisions h g

approve_row-AllRanged :
    (id profile : String) (p : Proposal) (project : Project)
    → AllRanged project
    → AllRanged (approve_row id profile p project).0
unfolding approve_row approve_pending make_stale approve_on
approve_row-AllRanged id profile p project h = by_status p.status refl
  where
    pending_case : AllRanged (approve_pending id profile p project).0
    pending_case = elim (Option-cases (active_revision project)) [
      | inl e ↦ rw (e, approve_pending) h
      | inr (active, e) ↦
          rw (e, approve_pending)
            (if-all (λ (z : Project × Decided). AllRanged z.0)
              (not (active.revision_id == p.base_revision_id)
                || profile_differs p.base_profile_id profile)
              _ _ (λ _. h)
              (λ _.
                All-append IsRanged project.revisions (next_revision id p active ∷ []) h
                  (next-IsRanged id p active (active-IsRanged project active h e), tt)))
    ]

    by_status : (s : ProposalStatus) → p.status ≡ s → AllRanged (approve_row id profile p project).0
    by_status ProposalStatus.approved e = rw (e, approve_row) h
    by_status ProposalStatus.pending e = rw (e, approve_row) pending_case
    by_status ProposalStatus.rejected e = rw (e, approve_row) h
    by_status ProposalStatus.stale e = rw (e, approve_row) h

approve-AllRanged :
    (id profile proposal : String) (project : Project)
    → AllRanged project
    → AllRanged (approve_policy_proposal id profile proposal project).0
unfolding approve_policy_proposal
approve-AllRanged id profile proposal project h =
    elim (Option-cases (find? (has_proposal_id proposal) project.proposals)) [
      | inl e ↦ rw (e, approve_policy_proposal) h
      | inr (p, e) ↦ rw (e, approve_policy_proposal) (approve_row-AllRanged id profile p project h)
    ]

reject-revisions :
    (proposal : String) (project : Project)
    → (reject_policy_proposal proposal project).0.revisions ≡ project.revisions
unfolding reject_policy_proposal reject_row
reject-revisions proposal project =
    elim (Option-cases (find? (has_proposal_id proposal) project.proposals)) [
      | inl e ↦ rw (e, reject_policy_proposal) refl
      | inr (p, e) ↦ rw (e, reject_policy_proposal) (by_status p p.status refl)
    ]
  where
    by_status :
        (p : Proposal) (s : ProposalStatus)
        → p.status ≡ s
        → (reject_row p project).0.revisions ≡ project.revisions
    by_status p ProposalStatus.approved e = rw (e, reject_row) refl
    by_status p ProposalStatus.pending e = rw (e, reject_row) refl
    by_status p ProposalStatus.rejected e = rw (e, reject_row) refl
    by_status p ProposalStatus.stale e = rw (e, reject_row) refl

rebase_row-revisions :
    (id policy profile : String) (p : Proposal) (project : Project)
    → (rebase_row id policy profile p project).0.revisions ≡ project.revisions
unfolding rebase_row
rebase_row-revisions id policy profile p project =
    if-all (λ (z : Project × Decided). z.0.revisions ≡ project.revisions)
      (any (λ q. is_pending_for p.category q && not (has_proposal_id p.proposal_id q))
        project.proposals)
      _ _ (λ _. refl)
      (λ _.
        if-all (λ (z : Project). z.revisions ≡ project.revisions) (is_open_status p.status) _ _
          (λ _. refl) (λ _. refl))

rebase-revisions :
    (id policy profile proposal : String) (project : Project)
    → (rebase_policy_proposal id policy profile proposal project).0.revisions ≡ project.revisions
unfolding rebase_policy_proposal
rebase-revisions id policy profile proposal project =
    elim (Option-cases (find? (has_proposal_id proposal) project.proposals)) [
      | inl e ↦ rw (e, rebase_policy_proposal) refl
      | inr (p, e) ↦ by_status p e p.status refl
    ]
  where
    by_status :
        (p : Proposal)
        → find? (has_proposal_id proposal) project.proposals ≡ some p
        → (s : ProposalStatus) → p.status ≡ s
        → (rebase_policy_proposal id policy profile proposal project).0.revisions
          ≡ project.revisions
    by_status p e ProposalStatus.approved f = rw (e, rebase_policy_proposal, f) refl
    by_status p e ProposalStatus.pending f =
        rw (e, rebase_policy_proposal, f) (rebase_row-revisions id policy profile p project)
    by_status p e ProposalStatus.rejected f = rw (e, rebase_policy_proposal, f) refl
    by_status p e ProposalStatus.stale f =
        rw (e, rebase_policy_proposal, f) (rebase_row-revisions id policy profile p project)

rollback-revisions : (project : Project) → (rollback_policy project).0.revisions ≡ project.revisions
unfolding rollback_policy
rollback-revisions project = elim (Option-cases (active_revision project)) [
  | inl e ↦ rw (e, rollback_policy) refl
  | inr (active, e) ↦
      rw (e, rollback_policy)
        (if-all (λ (z : Project × Bool). z.0.revisions ≡ project.revisions)
          (truthy active.parent_revision_id) _ _ (λ _. refl) (λ _. refl))
]

learn-AllRanged :
    (call : LearnCall) (project : Project) → AllRanged project → AllRanged (learn call project)
unfolding learn
learn-AllRanged (LearnCall.generates id policy profile seq category) project h =
    subst (All IsRanged) (sym (generate-revisions id policy profile seq category project)) h
learn-AllRanged (LearnCall.approves id profile proposal) project h =
    approve-AllRanged id profile proposal project h
learn-AllRanged (LearnCall.rejects proposal) project h =
    subst (All IsRanged) (sym (reject-revisions proposal project)) h
learn-AllRanged (LearnCall.rebases id policy profile proposal) project h =
    subst (All IsRanged) (sym (rebase-revisions id policy profile proposal project)) h
learn-AllRanged LearnCall.rolls_back project h =
    subst (All IsRanged) (sym (rollback-revisions project)) h

-- When every offset of every revision of a project is between -15 and 15, then it is so after any
-- sequence of proposals, approvals, rejections, rebases and rollbacks.
pub learn_all-AllRanged :
    (calls : List LearnCall) (project : Project)
    → AllRanged project
    → AllRanged (learn_all calls project)
unfolding learn_all
learn_all-AllRanged [] project h = h
learn_all-AllRanged (call ∷ calls) project h =
    learn_all-AllRanged calls (learn call project) (learn-AllRanged call project h)

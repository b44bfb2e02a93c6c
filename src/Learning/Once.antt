-- ===== src/Learning/Once.antt =====
-- One approval moves an offset once.
use adaptive_model_router.Common.{
  All, Bool, List, Option, Option-cases, String, [], arith, bool_eq, eq_iff, false, find?,
  find?-holds, if-all, inl, inr, nat_eq, not, refl, some, string_eq, subst, sym, text_eq, true,
  ◌++◌, ◌==◌, ◌||◌, ◌∙◌, ◌∷◌, ◌≡◌,
}
use adaptive_model_router.Gate.Store.{find?-update}
use adaptive_model_router.Learning.{
  Project, Proposal, ProposalStatus, Revision, active_revision, has_proposal_id, has_revision_id,
}
use adaptive_model_router.Learning.Decide.{
  Decided, approve_on, approve_pending, approve_policy_proposal, approve_row, make_stale,
  next_revision, profile_differs,
}
use adaptive_model_router.Learning.Propose.{moved}
use adaptive_model_router.Signed.{ℤ}
use adaptive_model_router.Vocabulary.{
  Category, category_eq, effort_eq, failure_eq, gate_eq, level_eq, signal_eq,
}

-- What an approval has found, and what it leaves.
abbrev Approval : String → String → String → Project → Project → String → ℤ → Type 0
Approval id profile proposal project after revision value =
    (p : Proposal) × (active : Revision) × (find? (has_proposal_id proposal) project.proposals
      ≡ some p)
    × (active_revision project ≡ some active)
    × ((active.revision_id == p.base_revision_id) ≡ true)
    × (after ≡ (approve_on id p active project).0)
    × (id ≡ revision)
    × (moved (active.offsets p.category) p.delta ≡ value)

not_or_false : (a b : Bool) → (not a || b) ≡ false → a ≡ true
not_or_false a b h = ground arith

approved-injective :
    (a b : String) (u v : ℤ)
    → Decided.approved_now a u ≡ Decided.approved_now b v
    → (a ≡ b) × (u ≡ v)
approved-injective a b u v h = (cc, cc)

approve-Approval :
    (id profile proposal : String) (project : Project) (revision : String) (value : ℤ)
    → (approve_policy_proposal id profile proposal project).1 ≡ Decided.approved_now revision value
    → Approval id profile proposal project
        (approve_policy_proposal id profile proposal project).0
        revision
        value
unfolding approve_policy_proposal approve_row approve_pending make_stale approve_on
approve-Approval id profile proposal project revision value =
    elim (Option-cases (find? (has_proposal_id proposal) project.proposals)) [
      | inl e ↦ rw (e, approve_policy_proposal) (λ h. cc)
      | inr (p, e) ↦ by_status p e p.status refl
    ]
  where
    Shown : Option Revision → Project × Decided → Type 0
    Shown o z =
        z.1 ≡ Decided.approved_now revision value
        → (p : Proposal) × (active : Revision) × (find? (has_proposal_id proposal) project.proposals
            ≡ some p)
          × (o ≡ some active)
          × ((active.revision_id == p.base_revision_id) ≡ true)
          × (z.0 ≡ (approve_on id p active project).0)
          × (id ≡ revision)
          × (moved (active.offsets p.category) p.delta ≡ value)

    Result : Project × Decided → Type 0
    Result z =
        z.1 ≡ Decided.approved_now revision value
        → Approval id profile proposal project z.0 revision value

    pending_case :
        (p : Proposal)
        → find? (has_proposal_id proposal) project.proposals ≡ some p
        → Result (approve_pending id profile p project)
    pending_case p e = elim (Option-cases (active_revision project)) [
      | inl f ↦ rw (f, approve_pending) (λ h. cc)
      | inr (active, f) ↦
          rw (f, approve_pending)
            (if-all (Shown (some active))
              (not (active.revision_id == p.base_revision_id)
                || profile_differs p.base_profile_id profile)
              _ _ (λ _ h. cc)
              (λ based h.
                let same =
                  approved-injective id revision (moved (active.offsets p.category) p.delta) value
                    h in
                (
                  p,
                  active,
                  e,
                  refl,
                  not_or_false (active.revision_id == p.base_revision_id) _ based,
                  refl,
                  same.0,
                  same.1,
                )))
    ]

    by_status :
        (p : Proposal)
        → find? (has_proposal_id proposal) project.proposals ≡ some p
        → (s : ProposalStatus) → p.status ≡ s
        → Result (approve_policy_proposal id profile proposal project)
    by_status p e ProposalStatus.approved f =
        rw (e, approve_policy_proposal, f, approve_row) (λ h. cc)
    by_status p e ProposalStatus.pending f =
        let same : approve_policy_proposal id profile proposal project
            ≡ approve_pending id profile p project =
          rw (e, approve_policy_proposal, f, approve_row) refl in
        subst Result (sym same) (pending_case p e)
    by_status p e ProposalStatus.rejected f =
        rw (e, approve_policy_proposal, f, approve_row) (λ h. cc)
    by_status p e ProposalStatus.stale f = rw (e, approve_policy_proposal, f, approve_row) (λ h. cc)

found_again :
    (id : String) (rs : List Revision) (r : Revision)
    → All (λ s. has_revision_id id s ≡ false) rs
    → has_revision_id id r ≡ true
    → find? (has_revision_id id) (rs ++ r ∷ []) ≡ some r
found_again id [] r fresh own = rw own refl
found_again id (s ∷ rs) r fresh own = rw fresh.0 (found_again id rs r fresh.1 own)

string_refl : (s : String) → (s == s) ≡ true
string_refl s = (eq_iff s s).1 refl

same_category : (c : Category) → (c == c) ≡ true
same_category c = (category_eq.equal_iff c c).1 refl

-- An approval under a new revision makes that revision active, with the proposal's category at the
-- answered offset and with the revision that was active before as its parent; the same approval again
-- is a repetition that changes nothing.
pub approve_once :
    (id profile again profile' proposal : String) (project : Project) (revision : String)
    (value : ℤ)
    → All (λ r. has_revision_id id r ≡ false) project.revisions
    → (approve_policy_proposal id profile proposal project).1 ≡ Decided.approved_now revision value
    → let after = (approve_policy_proposal id profile proposal project).0 in
      (approve_policy_proposal again profile' proposal after ≡ (after, Decided.repeated))
      × ((p : Proposal) × (r : Revision) × (before : Revision) × (find?
              (has_proposal_id proposal)
              project.proposals
            ≡ some p)
          × (active_revision after ≡ some r)
          × (r.offsets p.category ≡ value)
          × (active_revision project ≡ some before)
          × (r.parent_revision_id ≡ some before.revision_id))
unfolding approve_policy_proposal approve_row approve_on active_revision
approve_once id profile again profile' proposal project revision value fresh h =
    let (p, active, e, f, based, left, same, moved_to) =
      approve-Approval id profile proposal project revision value h in
    let own = find?-holds (has_proposal_id proposal) project.proposals {x = p} e in
    let after = (approve_policy_proposal id profile proposal project).0 in
    let next : Revision = next_revision id p active in
    let now_active : active_revision after ≡ some next =
      subst (λ z. active_revision z ≡ some next) (sym left)
        (found_again id project.revisions next fresh (string_refl id)) in
    let closed : find? (has_proposal_id proposal) after.proposals
        ≡ some (record p { status = ProposalStatus.approved }) =
      subst
        (λ z.
          find? (has_proposal_id proposal) z.proposals
          ≡ some (record p { status = ProposalStatus.approved }))
        (sym left)
        (find?-update (has_proposal_id proposal) (has_proposal_id p.proposal_id)
            (λ q. record q { status = ProposalStatus.approved }) (λ q. refl) project.proposals p e
          ∙ rw (string_refl p.proposal_id) refl) in
    (
      rw (closed, approve_policy_proposal) refl,
      (p, next, active, e, now_active, rw (same_category p.category) moved_to, f, refl),
    )

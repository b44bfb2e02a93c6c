-- ===== src/Learning/Evidence.antt =====
-- The evidence of a proposal: enough outcomes, of several contexts, each of them later than what was
-- decided on before.
use adaptive_model_router.Common.{
  All, All-map, Bool, Bool-cases, List, Option, Option-cases, String, [], any, ap, arith, bool_eq,
  false, filter, find?, if-all, if◌then◌else◌, inl, inr, leb→le, length, ltb, ltb→lt, max, min,
  nat_eq, none, not, refl, some, string_eq, subst, sym, text_eq, true, ℕ, ◌&&◌, ◌<◌, ◌==◌, ◌||◌,
  ◌∙◌, ◌∷◌, ◌≡◌, ◌≤◌, ◌⊎◌,
}
use adaptive_model_router.Learning.{
  LearnedOutcome, Project, Proposal, ProposalStatus, Revision, active_revision, advance_cursor,
  has_proposal_id, is_pending_for, set_status,
}
use adaptive_model_router.Learning.Decide.{
  Decided, approve_on, approve_pending, approve_policy_proposal, approve_row, make_stale,
  profile_differs, reject_policy_proposal, reject_row,
}
use adaptive_model_router.Learning.Propose.{
  after_seq, count, delta_of, distinct_contexts, first_seq, in_window, is_affected,
  maybe_generate_proposal, moved, new_proposal, propose, window_of,
}
use adaptive_model_router.Signed.{eq_int, ℤ}
use adaptive_model_router.Vocabulary.{
  Category, category_eq, effort_eq, failure_eq, gate_eq, level_eq, signal_eq,
}

filter-holds : {A : Type 0} (p : A → Bool) (xs : List A) → All (λ x. p x ≡ true) (filter p xs)
filter-holds p [] = tt
filter-holds p (x ∷ xs) = elim (Bool-cases (p x)) [
  | inl e ↦ rw e (e, filter-holds p xs)
  | inr e ↦ rw e (filter-holds p xs)
]

later_part : (a b later d : Bool) → (a && (b && (later && d))) ≡ true → later ≡ true
later_part a b later d h = ground arith

in_window-later :
    (category : Category) (after : ℕ) (profile : String) (o : LearnedOutcome)
    → in_window category after profile o ≡ true
    → after < o.seq
unfolding in_window
in_window-later category after profile o h =
    ltb→lt after o.seq (later_part (o.category == category) _ (ltb after o.seq) _ h)

min_above : (n a b : ℕ) → n < a → n < b → n < min a b
min_above n a b h k = ground arith

first_seq-above :
    (n : ℕ) (os : List LearnedOutcome) → All (λ o. n < o.seq) os → 1 ≤ length os → n < first_seq os
first_seq-above n [] a h = absurd (omega (arith, h))
first_seq-above n (o ∷ []) a h = a.0
first_seq-above n (o ∷ p ∷ os) a h =
    min_above n o.seq (first_seq (p ∷ os)) a.0 (first_seq-above n (p ∷ os) a.1 (omega arith))

delta_enough :
    (eligible affected contexts : ℕ) (delta : ℤ)
    → delta_of eligible affected contexts ≡ some delta
    → (12 ≤ eligible) × (4 ≤ contexts)
unfolding delta_of
delta_enough eligible affected contexts delta h =
    enough _ _ _ _ _ _ (λ e. leb→le 12 eligible e) (λ e. leb→le 4 contexts e)
      (λ e. leb→le 20 eligible e) (λ e. leb→le 5 contexts e) h
  where
    enough :
        (a b c d e f : Bool)
        → (a ≡ true → 12 ≤ eligible)
        → (c ≡ true → 4 ≤ contexts)
        → (d ≡ true → 20 ≤ eligible)
        → (f ≡ true → 5 ≤ contexts)
        → (if a && (b && c)
            then some (ℤ.pos 5)
            else if d && (e && f)
            then some (ℤ.negsuc 4)
            else none)
          ≡ some delta
        → (12 ≤ eligible) × (4 ≤ contexts)
    enough true true true d e f ha hc hd hf g = (ha refl, hc refl)
    enough true true false true true true ha hc hd hf g =
        (omega (arith, hd refl), omega (arith, hf refl))
    enough true true false true true false ha hc hd hf g = cc
    enough true true false true false f ha hc hd hf g = cc
    enough true true false false e f ha hc hd hf g = cc
    enough true false c true true true ha hc hd hf g =
        (omega (arith, hd refl), omega (arith, hf refl))
    enough true false c true true false ha hc hd hf g = cc
    enough true false c true false f ha hc hd hf g = cc
    enough true false c false e f ha hc hd hf g = cc
    enough false b c true true true ha hc hd hf g = (omega (arith, hd refl), omega (arith, hf refl))
    enough false b c true true false ha hc hd hf g = cc
    enough false b c true false f ha hc hd hf g = cc
    enough false b c false e f ha hc hd hf g = cc

abbrev Evident : ℕ → Option Proposal → Type 0
Evident n none = Unit
Evident n (some p) =
    (n < p.start_seq)
    × (12 ≤ p.eligible_count)
    × (4 ≤ p.context_count)
    × (p.status ≡ ProposalStatus.pending)

propose-Evident :
    (id : String) (category : Category) (profile : String) (revision : Revision) (after : ℕ)
    (os : List LearnedOutcome) (project : Project)
    → Evident after
        (propose id category profile revision
          (filter (in_window category after profile) os)
          project).1
unfolding propose new_proposal
propose-Evident id category profile revision after os project =
    elim (Option-cases
      (delta_of (length window) (count is_affected window) (length (distinct_contexts window)))) [
        | inl e ↦ rw (e, propose) tt
        | inr (delta, e) ↦
            rw (e, propose)
              (if-all (λ (z : Project × Option Proposal). Evident after z.1)
                (eq_int (moved (revision.offsets category) delta) (revision.offsets category)) _ _
                (λ _. tt)
                (λ _.
                  let size = delta_enough _ _ _ delta e in
                  (
                    first_seq-above after window above (omega (arith, size.0)),
                    size.0,
                    size.1,
                    refl,
                  )))
      ]
  where
    window : List LearnedOutcome
    window = filter (in_window category after profile) os

    above : All (λ o. after < o.seq) window
    above =
        All-map (λ o. in_window category after profile o ≡ true) (λ o. after < o.seq)
          (in_window-later category after profile) window
          (filter-holds (in_window category after profile) os)

generate-Evident :
    (id policy profile : String) (seq : ℕ) (category : Category) (project : Project)
    → Evident
        (project.cursors category)
        (maybe_generate_proposal id policy profile seq category project).1
unfolding maybe_generate_proposal
generate-Evident id policy profile seq category project =
    elim (Option-cases (active_revision project)) [
      | inl e ↦ rw (e, maybe_generate_proposal) tt
      | inr (revision, e) ↦
          rw (e, maybe_generate_proposal)
            (if-all (λ (z : Project × Option Proposal). Evident (project.cursors category) z.1)
              (not (revision.revision_id == policy)
                || any (is_pending_for category) project.proposals)
              _ _ (λ _. tt)
              (λ _.
                weaken (project.cursors category) (after_seq project revision category seq)
                  (propose id category profile revision
                    (window_of project revision category profile seq) project).1
                  (below (project.cursors category) revision.outcome_seq seq)
                  (propose-Evident id category profile revision
                    (after_seq project revision category seq) project.outcomes project)))
    ]
  where
    below : (a b c : ℕ) → a ≤ max (max a b) c
    below a b c = ground arith

    weaken : (m n : ℕ) (o : Option Proposal) → m ≤ n → Evident n o → Evident m o
    weaken m n none h e = tt
    weaken m n (some p) h (start, eligible, contexts, status) =
        (omega (arith, h, start), eligible, contexts, status)

-- A generated proposal rests on at least 12 outcomes of at least 4 contexts, all of them later than
-- the category's cursor, and is pending.
pub generate_evidence :
    (id policy profile : String) (seq : ℕ) (category : Category) (project : Project) (p : Proposal)
    → (maybe_generate_proposal id policy profile seq category project).1 ≡ some p
    → (project.cursors category < p.start_seq)
      × (12 ≤ p.eligible_count)
      × (4 ≤ p.context_count)
      × (p.status ≡ ProposalStatus.pending)
generate_evidence id policy profile seq category project p h =
    subst (Evident (project.cursors category)) h
      (generate-Evident id policy profile seq category project)

advanced :
    (p : Proposal) (project : Project) → p.end_seq ≤ (advance_cursor p project).cursors p.category
advanced p project =
    rw ((category_eq.equal_iff p.category p.category).1 refl)
      (larger (project.cursors p.category) p.end_seq)
  where
    larger : (a b : ℕ) → b ≤ max a b
    larger a b = ground arith

approve_pending-cursor :
    (id profile : String) (p : Proposal) (project : Project)
    → p.end_seq ≤ (approve_pending id profile p project).0.cursors p.category
unfolding approve_pending make_stale approve_on
approve_pending-cursor id profile p project = elim (Option-cases (active_revision project)) [
  | inl e ↦ rw (e, approve_pending) (advanced p project)
  | inr (active, e) ↦
      rw (e, approve_pending)
        (if-all (λ (z : Project × Decided). p.end_seq ≤ z.0.cursors p.category)
          (not (active.revision_id == p.base_revision_id)
            || profile_differs p.base_profile_id profile)
          _ _ (λ _. advanced p project) (λ _. advanced p project))
]

-- When a pending proposal is approved, or found stale on the way, or is rejected, then a proposal that
-- is generated for its category directly afterwards rests on later outcomes only.
pub evidence_once :
    (id profile proposal id' policy profile' : String) (seq : ℕ) (project : Project)
    (p q : Proposal) (after : Project)
    → find? (has_proposal_id proposal) project.proposals ≡ some p
    → p.status ≡ ProposalStatus.pending
    → (after ≡ (approve_policy_proposal id profile proposal project).0)
      ⊎ (after ≡ (reject_policy_proposal proposal project).0)
    → (maybe_generate_proposal id' policy profile' seq p.category after).1 ≡ some q
    → p.end_seq < q.start_seq
unfolding approve_policy_proposal approve_row reject_policy_proposal reject_row
evidence_once id profile proposal id' policy profile' seq project p q after e waits decided h =
    let start = (generate_evidence id' policy profile' seq p.category after q h).0 in
    omega (arith, start, passed decided)
  where
    approved_to :
        approve_policy_proposal id profile proposal project ≡ approve_pending id profile p project
    approved_to = rw (e, approve_policy_proposal, waits, approve_row) refl

    rejected_to : reject_policy_proposal proposal project ≡ (
      advance_cursor p (set_status p.proposal_id ProposalStatus.rejected project),
      Decided.rejected_now,
    )
    rejected_to = rw (e, reject_policy_proposal, waits, reject_row) refl

    passed :
        (after ≡ (approve_policy_proposal id profile proposal project).0)
          ⊎ (after ≡ (reject_policy_proposal proposal project).0)
        → p.end_seq ≤ after.cursors p.category
    passed (inl f) =
        subst (λ z. p.end_seq ≤ z.cursors p.category) (sym (f ∙ ap (λ z. z.0) approved_to))
          (approve_pending-cursor id profile p project)
    passed (inr f) =
        subst (λ z. p.end_seq ≤ z.cursors p.category) (sym (f ∙ ap (λ z. z.0) rejected_to))
          (advanced p project)

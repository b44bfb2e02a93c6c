-- ===== src/Host/Decisions.antt =====
-- What a user is asked about the host's model, and what an answer does.
use mathlib.Core.Bool.{false≢true}
use mathlib.Core.Option.{some-injective}
use adaptive_model_router.Common.{
  All, Bool, Bool-cases, List, String, [], ap, bool_eq, eq_iff, false, find?, if◌then◌else◌, inl,
  inr, length, nat_eq, none, not, refl, some, string_eq, subst, sym, text_eq, true, ◌&&◌, ◌++◌,
  ◌==◌, ◌∙◌, ◌∷◌, ◌≡◌,
}
use adaptive_model_router.Gate.{update}
use adaptive_model_router.Gate.Store.{find?-update, length-update}
use adaptive_model_router.Host.{
  Change, Decision, HostDb, HostRow, Status, TaskMode, has_id, is_asked, is_pending, update_changes,
  update_row, with_status,
}
use adaptive_model_router.Host.Intent.{
  IsConsistent, NonePending, asked_id, close_pending, is_manual_store, store,
}
use adaptive_model_router.Host.Observe.{
  detect_change, is_manual, observe_host_model, observe_row, origin_of,
}
use adaptive_model_router.Host.Resolve.{
  Resolution, decision_of, is_latest, latest, mode_of, resolve_change, resolve_host_model_intent,
  same_decision, same_mode, status_of,
}
use adaptive_model_router.Vocabulary.{
  category_eq, effort_eq, failure_eq, gate_eq, level_eq, signal_eq,
}

find?-both :
    {A : Type 0} (p q : A → Bool) (xs : List A) (a : A)
    → find? p xs ≡ some a
    → q a ≡ true
    → find? (λ x. p x && q x) xs ≡ some a
find?-both p q [] a h e = cc
find?-both p q (x ∷ xs) a h e = elim (Bool-cases (p x)) [
  | inl f ↦ let same : x ≡ a = some-injective x a (rw f at h) in rw (f, same, e) refl
  | inr f ↦ rw f (find?-both p q xs a (rw f at h) e)
]

-- The state in which change `c` is open, from a model other than the observed one.
pub record IsOpen (row : HostRow) (cs : List Change) (current model : String) (c : Change)
    : Type 0 where
  pub consistent : IsConsistent (store (some row) cs)
  pub pending_here : row.pending_change_id ≡ some c.change_id
  pub found : find? (has_id c.change_id) cs ≡ some c
  pub current_here : row.current_model ≡ some current
  pub named : (current == "") ≡ false
  pub moved : (current == model) ≡ false

module _ (row : HostRow) (cs : List Change) (current model : String) (c : Change)
    (o : IsOpen row cs current model c) where
  is_pending_here : is_pending c.status ≡ true
  is_pending_here =
      let (d, newest, first, waits, real, free) = o.consistent.asked c.change_id o.pending_here in
      subst (λ z. is_pending z.status ≡ true) (some-injective d c (sym first ∙ o.found)) waits

  is_automatic : is_manual row.task_mode ≡ false
  is_automatic =
      let (d, newest, first, waits, real, free) = o.consistent.asked c.change_id o.pending_here in
      free

  origin_here : origin_of c.change_id current cs ≡ c.from_model
  origin_here =
      rw
        (
          find?-both (has_id c.change_id) (λ z. is_pending z.status) cs c o.found is_pending_here,
          origin_of,
        )
        refl

  observe-detect :
      (id : String)
      → (observe_host_model (some model) true id (store (some row) cs)).0
        ≡ detect_change id current model row (store (some row) cs)
  unfolding observe_host_model observe_row
  observe-detect id = rw (o.current_here, observe_row, o.named, o.moved, is_automatic) refl

  only_here : All (λ z. is_pending z.status ≡ true → some c.change_id ≡ some z.change_id) cs
  only_here = rw o.pending_here at o.consistent.only_pending

  -- While a change is open, the return to the model from which it started withdraws the question: no
  -- change is pending, none is added, and the mode is automatic.
  pub observe_back :
      (id : String)
      → (model == c.from_model) ≡ true
      → let after = (observe_host_model (some model) true id (store (some row) cs)).0 in
        (asked_id after ≡ none)
        × (is_manual_store after ≡ false)
        × NonePending after.changes
        × (length after.changes ≡ length cs)
  unfolding detect_change
  observe_back id back =
      rw (observe-detect id, o.pending_here, detect_change, origin_here, back)
        (
          refl,
          refl,
          close_pending c.change_id Status.cancelled cs refl only_here,
          length-update (is_asked c.change_id) (with_status Status.cancelled) cs,
        )

  -- While a change is open, the move to a third model asks one question, from the model at which the
  -- open change started to the new one, and no older change is pending.
  pub observe_on :
      (id : String)
      → (model == c.from_model) ≡ false
      → let after = (observe_host_model (some model) true id (store (some row) cs)).0 in
        (asked_id after ≡ some id)
        × ((older : List Change) × (after.changes
              ≡ older
                ++ record {
                  change_id = id;
                  from_model = c.from_model;
                  to_model = model;
                  status = Status.pending;
                }
                  ∷ [])
            × NonePending older
            × (length older ≡ length cs))
  unfolding detect_change
  observe_on id on =
      rw (observe-detect id, o.pending_here, detect_change, origin_here, on)
        (
          refl,
          (
            update (is_asked c.change_id) (with_status Status.superseded) cs,
            refl,
            close_pending c.change_id Status.superseded cs refl only_here,
            length-update (is_asked c.change_id) (with_status Status.superseded) cs,
          ),
        )

latest-update :
    (p : Change → Bool) (f : Change → Change) (cs : List Change) (c : Change)
    → latest cs ≡ some c
    → latest (update p f cs) ≡ some (if p c then f c else c)
unfolding update
latest-update p f [] c h = cc
latest-update p f (d ∷ []) c h = ap (λ z. some (if p z then f z else z)) (some-injective d c h)
latest-update p f (d ∷ e ∷ cs) c h = latest-update p f (e ∷ cs) c h

-- The store after a decision on change `c`.
abbrev decided_store : Change → Decision → HostRow → List Change → HostDb
decided_store c decision row cs =
    update_row (λ r. record r { task_mode = mode_of decision; pending_change_id = none })
      (update_changes (has_id c.change_id) (with_status (status_of decision)) (store (some row) cs))

abbrev answer : HostDb → Resolution → HostDb × Resolution
answer db r = (db, r)

decision_back : (decision : Decision) → decision_of (status_of decision) ≡ some decision
decision_back Decision.manual_root = refl
decision_back Decision.keep_automatic = refl

same_mode_refl : (mode : TaskMode) → same_mode mode mode ≡ true
same_mode_refl TaskMode.automatic = refl
same_mode_refl TaskMode.manual_root = refl

pending-decision : (status : Status) → is_pending status ≡ true → decision_of status ≡ none
pending-decision Status.pending h = refl
pending-decision Status.manual_root h = absurd (false≢true h)
pending-decision Status.keep_automatic h = absurd (false≢true h)
pending-decision Status.cancelled h = absurd (false≢true h)
pending-decision Status.superseded h = absurd (false≢true h)

module _ (row : HostRow) (cs : List Change) (current model : String) (c : Change)
    (o : IsOpen row cs current model c) where
  resolve_open :
      (decision : Decision)
      → resolve_host_model_intent c.change_id decision (store (some row) cs)
        ≡ (decided_store c decision row cs, Resolution.resolved (mode_of decision) c.to_model)
  unfolding resolve_host_model_intent resolve_change
  resolve_open decision =
      rw
        (
          o.found,
          resolve_host_model_intent,
          pending-decision c.status (is_pending_here row cs current model c o),
          resolve_change,
          is_pending_here row cs current model c o,
          o.pending_here,
          (eq_iff c.change_id c.change_id).1 refl,
        )
        refl

  own : has_id c.change_id c ≡ true
  own = (eq_iff c.change_id c.change_id).1 refl

  newest_here : latest cs ≡ some c
  newest_here =
      let (d, newest, first, waits, real, free) = o.consistent.asked c.change_id o.pending_here in
      newest ∙ sym first ∙ o.found

  found_after :
      (decision : Decision)
      → find? (has_id c.change_id) (decided_store c decision row cs).changes
        ≡ some (with_status (status_of decision) c)
  found_after decision =
      find?-update (has_id c.change_id) (has_id c.change_id) (with_status (status_of decision))
        (λ z. refl) cs c o.found
      ∙ rw own refl

  newest_after :
      (decision : Decision)
      → latest (decided_store c decision row cs).changes ≡ some (with_status (status_of decision) c)
  newest_after decision =
      latest-update (has_id c.change_id) (with_status (status_of decision)) cs c newest_here
      ∙ rw own refl

  is_latest_after :
      (decision : Decision) → is_latest c.change_id (decided_store c decision row cs).changes ≡ true
  is_latest_after decision = rw (newest_after decision, is_latest) own

  again :
      (decision repeated : Decision)
      → resolve_host_model_intent c.change_id repeated (decided_store c decision row cs) ≡ (
        decided_store c decision row cs,
        if not (same_decision decision repeated)
            then Resolution.conflicting
            else Resolution.idempotent (mode_of repeated),
      )
  unfolding resolve_host_model_intent resolve_change
  again decision repeated =
      rw
        (
          found_after decision,
          resolve_host_model_intent,
          decision_back decision,
          resolve_change,
          is_latest_after decision,
          same_mode_refl (mode_of decision),
        )
        (if_pair (not (same_decision decision repeated)))
    where
      if_pair :
          (b : Bool)
          → (if b
              then answer (decided_store c decision row cs) Resolution.conflicting
              else answer
                  (decided_store c decision row cs)
                  (Resolution.idempotent (mode_of repeated)))
            ≡ answer
                (decided_store c decision row cs)
                (if b then Resolution.conflicting else Resolution.idempotent (mode_of repeated))
      if_pair true = refl
      if_pair false = refl

  -- An open change is decided once: the decision sets the mode and leaves no question, the same
  -- decision again changes nothing and is idempotent, and the other decision is refused as
  -- conflicting and changes nothing.
  pub resolve_once :
      (decision repeated : Decision)
      → let after = (resolve_host_model_intent c.change_id decision (store (some row) cs)).0 in
        ((resolve_host_model_intent c.change_id decision (store (some row) cs)).1
          ≡ Resolution.resolved (mode_of decision) c.to_model)
        × (asked_id after ≡ none)
        × (resolve_host_model_intent c.change_id repeated after ≡ (
          after,
          if same_decision decision repeated
              then Resolution.idempotent (mode_of repeated)
              else Resolution.conflicting,
        ))
  resolve_once decision repeated =
      rw (resolve_open decision)
        (refl, refl, again decision repeated ∙ turned (same_decision decision repeated))
    where
      turned :
          (b : Bool)
          → answer
              (decided_store c decision row cs)
              (if not b then Resolution.conflicting else Resolution.idempotent (mode_of repeated))
            ≡ answer
                (decided_store c decision row cs)
                (if b then Resolution.idempotent (mode_of repeated) else Resolution.conflicting)
      turned true = refl
      turned false = refl

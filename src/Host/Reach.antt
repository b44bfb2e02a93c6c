-- ===== src/Host/Reach.antt =====
-- The operations on the host's model as steps, and what every reachable state has.
use mathlib.Core.Bool.{false≢true}
use mathlib.Core.Option.{some-injective}
use adaptive_model_router.Common.{
  All, Bool, Bool-cases, List, Option, Option-cases, String, ap, arith, bool_eq, eq_iff, false,
  find?, if-all, inl, inr, is_some, nat_eq, none, not, refl, some, string_eq, sym, text_eq, true,
  ◌&&◌, ◌==◌, ◌||◌, ◌∙◌, ◌≡◌,
}
use adaptive_model_router.Gate.{update}
use adaptive_model_router.Gate.Identity.{str_beq_sym}
use adaptive_model_router.Gate.Store.{All-update, All-update_to}
use adaptive_model_router.Host.{
  Change, Decision, HostDb, HostRow, Status, TaskMode, cancel_pending, close, has_id, is_asked,
  is_pending, set_task_mode, update_changes, update_row, with_row, with_status,
}
use adaptive_model_router.Host.Intent.{
  Fresh, IsConsistent, NonePending, asks-IsConsistent, close_pending, none_pending,
  quiet-IsConsistent, same-IsConsistent, store,
}
use adaptive_model_router.Host.Observe.{
  Observed, detect_change, is_manual, observe_host_model, observe_row, origin_of,
}
use adaptive_model_router.Host.Resolve.{
  Resolution, awaits, decision_of, has_settled, is_latest, mode_of, resolve_change,
  resolve_host_model_intent, same_decision, status_of,
}
use adaptive_model_router.Vocabulary.{
  category_eq, effort_eq, failure_eq, gate_eq, level_eq, signal_eq,
}

update-Fresh :
    (id : String) (p : Change → Bool) (status : Status) (cs : List Change)
    → Fresh id cs
    → Fresh id (update p (with_status status) cs)
update-Fresh id p status cs a =
    All-update (λ c. has_id id c ≡ false) p (with_status status) (λ c _ h. h) cs a

differs_back : (a b : String) → (a == b) ≡ false → (b == a) ≡ false
differs_back a b h = str_beq_sym a b h

-- A change that is detected.
detect-IsConsistent :
    (id current model : String) (row : HostRow) (cs : List Change)
    → (current == model) ≡ false
    → Fresh id cs
    → IsConsistent (store (some row) cs)
    → IsConsistent (detect_change id current model row (store (some row) cs))
unfolding detect_change
detect-IsConsistent id current model row cs real fresh h =
    elim (Option-cases row.pending_change_id) [
      | inl e ↦
          rw (e, detect_change)
            (asks-IsConsistent id current model row (some row) cs fresh real
              (none_pending cs (rw e at h.only_pending)))
      | inr (old, e) ↦
          let closed : NonePending (update (is_asked old) (with_status Status.superseded) cs) =
            close_pending old Status.superseded cs refl (rw e at h.only_pending) in
          rw (e, detect_change)
            (if-all IsConsistent (model == origin_of old current cs) _ _
              (λ back.
                quiet-IsConsistent _ (update (is_asked old) (with_status Status.cancelled) cs) refl
                  (close_pending old Status.cancelled cs refl (rw e at h.only_pending)))
              (λ away.
                asks-IsConsistent id (origin_of old current cs) model row (some row)
                  (update (is_asked old) (with_status Status.superseded) cs)
                  (update-Fresh id (is_asked old) Status.superseded cs fresh)
                  (differs_back model (origin_of old current cs) away) closed))
    ]

observe_row-IsConsistent :
    (model : String) (detect : Bool) (id : String) (row : HostRow) (cs : List Change)
    → Fresh id cs
    → IsConsistent (store (some row) cs)
    → IsConsistent (observe_row model detect id row (store (some row) cs)).0
unfolding observe_row
observe_row-IsConsistent model detect id row cs fresh h = elim (Option-cases row.current_model) [
  | inl e ↦ rw (e, observe_row) (same-IsConsistent row _ cs refl refl h)
  | inr (current, e) ↦
      rw (e, observe_row)
        (if-all (λ (z : HostDb × Observed). IsConsistent z.0) (current == "") _ _
          (λ _. same-IsConsistent row _ cs refl refl h)
          (λ _.
            if-all (λ (z : HostDb × Observed). IsConsistent z.0) (current == model) _ _
              (λ _. same-IsConsistent row _ cs refl refl h)
              (λ real.
                if-all (λ (z : HostDb × Observed). IsConsistent z.0)
                  (not detect || is_manual row.task_mode) _ _
                  (λ _. same-IsConsistent row _ cs refl refl h)
                  (λ _. detect-IsConsistent id current model row cs real fresh h))))
]

observe-IsConsistent :
    (model : Option String) (detect : Bool) (id : String) (row : Option HostRow) (cs : List Change)
    → Fresh id cs
    → IsConsistent (store row cs)
    → IsConsistent (observe_host_model model detect id (store row cs)).0
unfolding observe_host_model
observe-IsConsistent none detect id none cs fresh h = h
observe-IsConsistent none detect id (some row) cs fresh h = same-IsConsistent row _ cs refl refl h
observe-IsConsistent (some model) detect id none cs fresh h =
    quiet-IsConsistent _ cs refl (none_pending cs h.only_pending)
observe-IsConsistent (some model) detect id (some row) cs fresh h =
    observe_row-IsConsistent model detect id row cs fresh h

-- A row that asks nothing any more, with the change that was asked closed.
close-IsConsistent :
    (row row' : HostRow) (status : Status) (cs : List Change)
    → is_pending status ≡ false
    → row'.pending_change_id ≡ none
    → IsConsistent (store (some row) cs)
    → IsConsistent (with_row row' (close row.pending_change_id status (store (some row) cs)))
close-IsConsistent row row' status cs s quiet h = elim (Option-cases row.pending_change_id) [
  | inl e ↦ rw e (quiet-IsConsistent row' cs quiet (none_pending cs (rw e at h.only_pending)))
  | inr (old, e) ↦
      rw e
        (quiet-IsConsistent row' _ quiet (close_pending old status cs s (rw e at h.only_pending)))
]

set-IsConsistent :
    (mode : TaskMode) (row : Option HostRow) (cs : List Change)
    → IsConsistent (store row cs)
    → IsConsistent (set_task_mode mode (store row cs))
unfolding set_task_mode
set-IsConsistent mode none cs h = quiet-IsConsistent _ cs refl (none_pending cs h.only_pending)
set-IsConsistent TaskMode.automatic (some row) cs h =
    close-IsConsistent row _ Status.keep_automatic cs refl refl h
set-IsConsistent TaskMode.manual_root (some row) cs h =
    close-IsConsistent row _ Status.manual_root cs refl refl h

cancel-IsConsistent :
    (row : Option HostRow) (cs : List Change)
    → IsConsistent (store row cs)
    → IsConsistent (cancel_pending (store row cs))
unfolding cancel_pending
cancel-IsConsistent none cs h = h
cancel-IsConsistent (some row) cs h =
    if-all IsConsistent (is_some row.pending_change_id) _ _
      (λ _. close-IsConsistent row _ Status.cancelled cs refl refl h) (λ _. h)

both_ways : (a b : Bool) → (not a || not b) ≡ false → (a ≡ true) × (b ≡ true)
both_ways a b h = ground arith

awaits-eq :
    (id : String) (row : HostRow) → awaits id (some row) ≡ true → row.pending_change_id ≡ some id
awaits-eq id row h = elim (Option-cases row.pending_change_id) [
  | inl e ↦ absurd (false≢true (rw e at h))
  | inr (old, e) ↦ e ∙ ap some ((eq_iff old id).0 (rw e at h))
]

-- The decision closes every change of the identifier.
decide_pending :
    (id : String) (status : Status) (cs : List Change)
    → is_pending status ≡ false
    → All (λ c. is_pending c.status ≡ true → some id ≡ some c.change_id) cs
    → NonePending (update (has_id id) (with_status status) cs)
decide_pending id status cs s a =
    All-update_to (λ c. is_pending c.status ≡ true → some id ≡ some c.change_id)
      (λ c. is_pending c.status ≡ false) (has_id id) (with_status status) (λ c hit h. s)
      (λ c miss h. elim (Bool-cases (is_pending c.status)) [
        | inl e ↦ absurd (
            false≢true
              (sym miss ∙ (eq_iff c.change_id id).1 (sym (some-injective id c.change_id (h e)))))
        | inr e ↦ e
      ])
      cs a

resolved-IsConsistent :
    (c : Change) (decision : Decision) (row : Option HostRow) (cs : List Change)
    → is_pending (status_of decision) ≡ false
    → awaits c.change_id row ≡ true
    → IsConsistent (store row cs)
    → IsConsistent (
        update_row
          (λ r. record r { task_mode = mode_of decision; pending_change_id = none })
          (update_changes (has_id c.change_id) (with_status (status_of decision)) (store row cs)))
resolved-IsConsistent c decision none cs s w h = absurd (false≢true w)
resolved-IsConsistent c decision (some row) cs s w h = quiet-IsConsistent _ _ refl (
    decide_pending c.change_id (status_of decision) cs s
      (rw (awaits-eq c.change_id row w) at h.only_pending))

made_final : (decision : Decision) → is_pending (status_of decision) ≡ false
made_final Decision.manual_root = refl
made_final Decision.keep_automatic = refl

resolve-IsConsistent :
    (id : String) (decision : Decision) (row : Option HostRow) (cs : List Change)
    → IsConsistent (store row cs)
    → IsConsistent (resolve_host_model_intent id decision (store row cs)).0
unfolding resolve_host_model_intent resolve_change
resolve-IsConsistent id decision row cs h = elim (Option-cases (find? (has_id id) cs)) [
  | inl e ↦ rw (e, resolve_host_model_intent) h
  | inr (c, e) ↦ elim (Option-cases (decision_of c.status)) [
    | inl f ↦
        rw (e, resolve_host_model_intent, f, resolve_change)
          (if-all (λ (z : HostDb × Resolution). IsConsistent z.0)
            (not (is_pending c.status) || not (awaits c.change_id row)) _ _ (λ _. h)
            (λ open_now.
              resolved-IsConsistent c decision row cs (made_final decision)
                (both_ways (is_pending c.status) (awaits c.change_id row) open_now).1 h))
    | inr (made, f) ↦
        rw (e, resolve_host_model_intent, f, resolve_change)
          (if-all (λ (z : HostDb × Resolution). IsConsistent z.0)
            (not (is_latest c.change_id cs && has_settled (mode_of made) row)) _ _ (λ _. h)
            (λ _.
              if-all (λ (z : HostDb × Resolution). IsConsistent z.0)
                (not (same_decision made decision)) _ _ (λ _. h) (λ _. h)))
  ]
]

-- The states that the operations reach; an observation brings an identifier that no change has.
pub data Reaches : HostDb → HostDb → Type 0 where
  here : {db : HostDb} → Reaches db db
  observed :
      {db db' : HostDb} (model : Option String) (detect : Bool) (id : String)
      → Fresh id db.changes
      → Reaches (observe_host_model model detect id db).0 db'
      → Reaches db db'
  sets : {db db' : HostDb} (mode : TaskMode) → Reaches (set_task_mode mode db) db' → Reaches db db'
  cancels : {db db' : HostDb} → Reaches (cancel_pending db) db' → Reaches db db'
  resolves :
      {db db' : HostDb} (id : String) (decision : Decision)
      → Reaches (resolve_host_model_intent id decision db).0 db'
      → Reaches db db'

-- From a consistent state every sequence of operations leads to a consistent one: at most one change
-- is pending, the one that the state names; it is the newest change, its two models differ, and the
-- mode is automatic while it is pending.
pub Reaches-IsConsistent : (db db' : HostDb) → IsConsistent db → Reaches db db' → IsConsistent db'
Reaches-IsConsistent db db' h Reaches.here = h
Reaches-IsConsistent db db' h (Reaches.observed model detect id fresh steps) =
    Reaches-IsConsistent _ db' (observe-IsConsistent model detect id db.row db.changes fresh h)
      steps
Reaches-IsConsistent db db' h (Reaches.sets mode steps) =
    Reaches-IsConsistent _ db' (set-IsConsistent mode db.row db.changes h) steps
Reaches-IsConsistent db db' h (Reaches.cancels steps) =
    Reaches-IsConsistent _ db' (cancel-IsConsistent db.row db.changes h) steps
Reaches-IsConsistent db db' h (Reaches.resolves id decision steps) =
    Reaches-IsConsistent _ db' (resolve-IsConsistent id decision db.row db.changes h) steps

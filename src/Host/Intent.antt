-- ===== src/Host/Intent.antt =====
-- At most one question is open: what holds of the host's model in every state that the operations
-- of scripts/lib/database.mjs reach.
use mathlib.Core.Bool.{false≢true}
use mathlib.Core.Option.{some-injective}
use adaptive_model_router.Common.{
  All, All-append, All-map, Bool, Bool-cases, List, Option, String, [], arith, bool_eq, eq_iff,
  false, find?, inl, inr, nat_eq, none, refl, some, string_eq, subst, sym, text_eq, true, ◌&&◌,
  ◌++◌, ◌==◌, ◌∙◌, ◌∷◌, ◌≡◌,
}
use adaptive_model_router.Gate.{changes, update}
use adaptive_model_router.Gate.Store.{All-update_to}
use adaptive_model_router.Host.{
  Change, HostDb, HostRow, Status, has_id, is_asked, is_pending, with_status,
}
use adaptive_model_router.Host.Observe.{asks, is_manual}
use adaptive_model_router.Host.Resolve.{latest}
use adaptive_model_router.Vocabulary.{
  category_eq, effort_eq, failure_eq, gate_eq, level_eq, signal_eq,
}

abbrev pub asked_id : HostDb → Option String
asked_id db = elim db.row [ none ↦ none | some row ↦ row.pending_change_id ]

abbrev pub is_manual_store : HostDb → Bool
is_manual_store db = elim db.row [ none ↦ false | some row ↦ is_manual row.task_mode ]

abbrev pub store : Option HostRow → List Change → HostDb
store row changes = record { row = row; changes = changes }

-- Only the state's change is pending, and it is the newest one, a real change of the model, and the
-- mode is automatic as long as it is open.
pub record IsConsistent (db : HostDb) : Type 0 where
  pub only_pending :
      All (λ c. is_pending c.status ≡ true → asked_id db ≡ some c.change_id) db.changes
  pub asked :
      (id : String)
      → asked_id db ≡ some id
      → (c : Change) × (latest db.changes ≡ some c)
        × (find? (has_id id) db.changes ≡ some c)
        × (is_pending c.status ≡ true)
        × ((c.from_model == c.to_model) ≡ false)
        × (is_manual_store db ≡ false)

-- An identifier that no change has.
abbrev pub Fresh : String → List Change → Type 0
Fresh id changes = All (λ c. has_id id c ≡ false) changes

abbrev pub NonePending : List Change → Type 0
NonePending changes = All (λ c. is_pending c.status ≡ false) changes

pub none_pending :
    (cs : List Change)
    → All (λ c. is_pending c.status ≡ true → none ≡ some c.change_id) cs
    → NonePending cs
none_pending cs a =
    All-map (λ c. is_pending c.status ≡ true → none ≡ some c.change_id)
      (λ c. is_pending c.status ≡ false)
      (λ c h. elim (Bool-cases (is_pending c.status)) [
        | inl e ↦ absurd (none_ne_some c (h e))
        | inr e ↦ e
      ])
      cs a
  where
    none_ne_some : (c : Change) → none ≡ some c.change_id → ⊥
    none_ne_some c g = cc

-- The update that closes a change leaves none pending.
pub close_pending :
    (old : String) (status : Status) (cs : List Change)
    → is_pending status ≡ false
    → All (λ c. is_pending c.status ≡ true → some old ≡ some c.change_id) cs
    → NonePending (update (is_asked old) (with_status status) cs)
close_pending old status cs s a =
    All-update_to (λ c. is_pending c.status ≡ true → some old ≡ some c.change_id)
      (λ c. is_pending c.status ≡ false) (is_asked old) (with_status status) (λ c hit h. s)
      (λ c miss h. elim (Bool-cases (is_pending c.status)) [
        | inl e ↦ absurd (
            false≢true (
              sym (missed (has_id old c) (is_pending c.status) miss e)
              ∙ (eq_iff c.change_id old).1 (sym (some-injective old c.change_id (h e)))))
        | inr e ↦ e
      ])
      cs a
  where
    missed : (a b : Bool) → (a && b) ≡ false → b ≡ true → a ≡ false
    missed a b h e = ground arith

pub quiet-IsConsistent :
    (row : HostRow) (cs : List Change)
    → row.pending_change_id ≡ none
    → NonePending cs
    → IsConsistent (store (some row) cs)
quiet-IsConsistent row cs e a = record {
  only_pending =
      All-map (λ c. is_pending c.status ≡ false)
        (λ c. is_pending c.status ≡ true → row.pending_change_id ≡ some c.change_id)
        (λ c f t. absurd (false≢true (sym f ∙ t))) cs a;
  asked = λ id h. absurd (none_ne_some id (sym e ∙ h));
}
  where
    none_ne_some : (id : String) → none ≡ some id → ⊥
    none_ne_some id g = cc

-- A row that asks the same in the same mode.
pub same-IsConsistent :
    (row row' : HostRow) (cs : List Change)
    → row'.pending_change_id ≡ row.pending_change_id
    → row'.task_mode ≡ row.task_mode
    → IsConsistent (store (some row) cs)
    → IsConsistent (store (some row') cs)
same-IsConsistent row row' cs e f h = record {
  only_pending = rw e h.only_pending;
  asked = λ id g. rw f (h.asked id (sym e ∙ g));
}

latest-append : (cs : List Change) (c : Change) → latest (cs ++ c ∷ []) ≡ some c
latest-append [] c = refl
latest-append (d ∷ []) c = refl
latest-append (d ∷ e ∷ cs) c = latest-append (e ∷ cs) c

find-append :
    (id : String) (cs : List Change) (c : Change)
    → Fresh id cs
    → has_id id c ≡ true
    → find? (has_id id) (cs ++ c ∷ []) ≡ some c
find-append id [] c f h = rw h refl
find-append id (d ∷ cs) c f h = rw f.0 (find-append id cs c f.1 h)

pub asks-IsConsistent :
    (id origin model : String) (row : HostRow) (old : Option HostRow) (cs : List Change)
    → Fresh id cs
    → (origin == model) ≡ false
    → NonePending cs
    → IsConsistent (asks id origin model row (store old cs))
asks-IsConsistent id origin model row old cs fresh real a =
    let new : Change = record {
      change_id = id;
      from_model = origin;
      to_model = model;
      status = Status.pending;
    } in
    record {
      only_pending =
          All-append (λ c. is_pending c.status ≡ true → some id ≡ some c.change_id) cs (new ∷ [])
            (All-map (λ c. is_pending c.status ≡ false)
              (λ c. is_pending c.status ≡ true → some id ≡ some c.change_id)
              (λ c f t. absurd (false≢true (sym f ∙ t))) cs a)
            ((λ _. refl), tt);
      asked = λ other g. (
        new,
        latest-append cs new,
        subst (λ z. find? (has_id z) (cs ++ new ∷ []) ≡ some new) (some-injective id other g)
            (find-append id cs new fresh ((eq_iff id id).1 refl)),
        refl,
        real,
        refl,
      );
    }

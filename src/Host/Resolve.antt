-- ===== src/Host/Resolve.antt =====
-- `resolveHostModelIntent` of scripts/lib/database.mjs.
use adaptive_model_router.Common.{
  Bool, List, Option, String, [], bool_eq, false, find?, if◌then◌else◌, is_some, nat_eq, none, not,
  opt_beq, some, string_eq, text_eq, ◌&&◌, ◌==◌, ◌||◌, ◌∷◌,
}
use adaptive_model_router.Gate.{changes}
use adaptive_model_router.Host.{
  Change, Decision, HostDb, HostRow, Status, TaskMode, has_id, is_pending, update_changes,
  update_row, with_status,
}
use adaptive_model_router.Host.Observe.{is_manual}
use adaptive_model_router.Vocabulary.{
  category_eq, effort_eq, failure_eq, gate_eq, level_eq, signal_eq,
}

-- The last answer of `resolveHostModelIntent`, or its error.
pub data Resolution : Type 0 where
  resolved : TaskMode → String → Resolution
  idempotent : TaskMode → Resolution
  foreign stale conflicting : Resolution

abbrev pub mode_of : Decision → TaskMode
mode_of Decision.manual_root = TaskMode.manual_root
mode_of Decision.keep_automatic = TaskMode.automatic

abbrev pub status_of : Decision → Status
status_of Decision.manual_root = Status.manual_root
status_of Decision.keep_automatic = Status.keep_automatic

-- The decision that a status records.
abbrev pub decision_of : Status → Option Decision
decision_of Status.manual_root = some Decision.manual_root
decision_of Status.keep_automatic = some Decision.keep_automatic
decision_of Status.pending = none
decision_of Status.cancelled = none
decision_of Status.superseded = none

abbrev pub same_mode : TaskMode → TaskMode → Bool
same_mode a b = is_manual a == is_manual b

abbrev pub same_decision : Decision → Decision → Bool
same_decision a b = same_mode (mode_of a) (mode_of b)

-- `ORDER BY rowid DESC LIMIT 1`.
abbrev pub latest : List Change → Option Change
latest [] = none
latest (c ∷ []) = some c
latest (c ∷ d ∷ cs) = latest (d ∷ cs)

abbrev pub is_latest : String → List Change → Bool
is_latest id changes = elim (latest changes) [ none ↦ false | some c ↦ has_id id c ]

abbrev pub has_settled : TaskMode → Option HostRow → Bool
has_settled mode none = false
has_settled mode (some row) = not (is_some row.pending_change_id) && same_mode row.task_mode mode

abbrev pub awaits : String → Option HostRow → Bool
awaits id none = false
awaits id (some row) = opt_beq row.pending_change_id (some id)

unfoldable pub resolve_change : Change → Decision → HostDb → HostDb × Resolution
resolve_change c decision db = elim (decision_of c.status) [
  | some made ↦
      if not (is_latest c.change_id db.changes && has_settled (mode_of made) db.row)
      then (db, Resolution.stale)
      else if not (same_decision made decision)
      then (db, Resolution.conflicting)
      else (db, Resolution.idempotent (mode_of decision))
  | none ↦
      if not (is_pending c.status) || not (awaits c.change_id db.row)
      then (db, Resolution.stale)
      else (
        update_row (λ row. record row { task_mode = mode_of decision; pending_change_id = none })
            (update_changes (has_id c.change_id) (with_status (status_of decision)) db),
        Resolution.resolved (mode_of decision) c.to_model,
      )
]

unfoldable pub resolve_host_model_intent : String → Decision → HostDb → HostDb × Resolution
unfolding resolve_change
resolve_host_model_intent id decision db = elim (find? (has_id id) db.changes) [
  | none ↦ (db, Resolution.foreign)
  | some c ↦ resolve_change c decision db
]

-- ===== src/Host.antt =====
-- The host's model as the router's store tracks it: `hostModelState`, `setTaskMode` and
-- `cancelPendingHostModelIntent` of scripts/lib/database.mjs. `observeHostModel` is in Host.Observe, and
-- `resolveHostModelIntent` in Host.Resolve. Each statement
-- there names the project and the context, so the state here is the part of the two tables that
-- belongs to one context. Times are left out, and a new identifier of a change, which is
-- never empty, is an argument.
pub mod Observe
pub mod Resolve
pub mod Intent
pub mod Reach
pub mod Decisions
mod Examples
use adaptive_model_router.Common.{
  Bool, List, Option, String, bool_eq, false, find?, if◌then◌else◌, is_some, nat_eq, none, some,
  string_eq, text_beq_eq, text_eq, true, ◌&&◌, ◌==◌,
}
use adaptive_model_router.Gate.{update}
use adaptive_model_router.Vocabulary.{
  category_eq, effort_eq, failure_eq, gate_eq, level_eq, signal_eq,
}

pub data TaskMode : Type 0 where
  automatic manual_root : TaskMode

pub data Status : Type 0 where
  pending manual_root keep_automatic cancelled superseded : Status

pub data Decision : Type 0 where
  manual_root keep_automatic : Decision

-- A row of host_model_state.
pub record HostRow : Type 0 where
  pub current_model : Option String
  pub model_visible : Bool
  pub task_mode : TaskMode
  pub pending_change_id : Option String

-- A row of host_model_changes.
pub record Change : Type 0 where
  pub change_id : String
  pub from_model : String
  pub to_model : String
  pub status : Status

pub record HostDb : Type 0 where
  pub row : Option HostRow
  pub changes : List Change

abbrev pub is_pending : Status → Bool
is_pending Status.pending = true
is_pending Status.manual_root = false
is_pending Status.keep_automatic = false
is_pending Status.cancelled = false
is_pending Status.superseded = false

abbrev pub has_id : String → Change → Bool
has_id id c = c.change_id == id

-- `WHERE change_id = ? AND status = 'pending'`.
abbrev pub is_asked : String → Change → Bool
is_asked id c = has_id id c && is_pending c.status

abbrev pub with_status : Status → Change → Change
with_status status c = record c { status = status }

-- `taskMode` of the answers.
pub data ShownMode : Type 0 where
  automatic manual_root pending_confirmation : ShownMode

pub record View : Type 0 where
  pub current_model : Option String
  pub model_visible : Bool
  pub task_mode : ShownMode
  pub pending_change : Option Change

abbrev shown : TaskMode → ShownMode
shown TaskMode.automatic = ShownMode.automatic
shown TaskMode.manual_root = ShownMode.manual_root

abbrev pub pending_of : HostRow → List Change → Option Change
pending_of row changes = elim row.pending_change_id [
  | none ↦ none
  | some id ↦ find? (has_id id) changes
]

unfoldable pub host_model_state : HostDb → View
host_model_state db = elim db.row [
  | none ↦ record {
    current_model = none;
    model_visible = false;
    task_mode = ShownMode.automatic;
    pending_change = none;
  }
  | some row ↦ record {
    current_model = row.current_model;
    model_visible = row.model_visible;
    task_mode = elim (pending_of row db.changes) [
      | none ↦ shown row.task_mode
      | some c ↦ if is_pending c.status then ShownMode.pending_confirmation else shown row.task_mode
    ];
    pending_change = pending_of row db.changes;
  }
]

abbrev pub update_row : (HostRow → HostRow) → HostDb → HostDb
update_row f db = elim db.row [ none ↦ db | some row ↦ record db { row = some (f row) } ]

abbrev pub update_changes : (Change → Bool) → (Change → Change) → HostDb → HostDb
update_changes p f db = record db { changes = update p f db.changes }

abbrev pub with_row : HostRow → HostDb → HostDb
with_row row db = record db { row = some row }

abbrev decided : TaskMode → Status
decided TaskMode.automatic = Status.keep_automatic
decided TaskMode.manual_root = Status.manual_root

-- The pending change of the state, where there is one, gets a status.
abbrev pub close : Option String → Status → HostDb → HostDb
close none status db = db
close (some id) status db = update_changes (is_asked id) (with_status status) db

unfoldable pub set_task_mode : TaskMode → HostDb → HostDb
set_task_mode mode db = elim db.row [
  | none ↦
      with_row
        (record {
          current_model = none;
          model_visible = false;
          task_mode = mode;
          pending_change_id = none;
        })
        db
  | some row ↦
      with_row (record row { task_mode = mode; pending_change_id = none })
        (close row.pending_change_id (decided mode) db)
]

unfoldable pub cancel_pending : HostDb → HostDb
cancel_pending db = elim db.row [
  | none ↦ db
  | some row ↦
      if is_some row.pending_change_id
      then with_row (record row { pending_change_id = none })
          (close row.pending_change_id Status.cancelled db)
      else db
]

-- ===== src/Host/Observe.antt =====
-- `observeHostModel` of scripts/lib/database.mjs.
use adaptive_model_router.Common.{
  Bool, List, Option, String, [], bool_eq, false, find?, if◌then◌else◌, nat_eq, none, not, some,
  string_eq, text_eq, true, ◌++◌, ◌==◌, ◌||◌, ◌∷◌,
}
use adaptive_model_router.Host.{
  Change, HostDb, HostRow, Status, TaskMode, is_asked, update_changes, update_row, with_row,
  with_status,
}
use adaptive_model_router.Vocabulary.{
  category_eq, effort_eq, failure_eq, gate_eq, level_eq, signal_eq,
}

-- Whether a model was observed, and whether it changed.
pub record Observed : Type 0 where
  pub observed : Bool
  pub changed : Bool

-- The model from which a pending change started, or else the current one.
abbrev pub origin_of : String → String → List Change → String
origin_of id current changes = elim (find? (is_asked id) changes) [
  | none ↦ current
  | some c ↦ c.from_model
]

-- `INSERT` of the pending change and the update of the state.
abbrev pub asks : String → String → String → HostRow → HostDb → HostDb
asks id origin model row db = record {
  row = some (record {
    current_model = some model;
    model_visible = true;
    task_mode = TaskMode.automatic;
    pending_change_id = some id;
  });
  changes =
      db.changes
      ++ record { change_id = id; from_model = origin; to_model = model; status = Status.pending }
        ∷ [];
}

-- A change away from the current model, where changes are detected and the mode is automatic.
unfoldable pub detect_change : String → String → String → HostRow → HostDb → HostDb
detect_change id current model row db = elim row.pending_change_id [
  | none ↦ asks id current model row db
  | some old ↦
      if model == origin_of old current db.changes
      then with_row
          (record {
            current_model = some model;
            model_visible = true;
            task_mode = TaskMode.automatic;
            pending_change_id = none;
          })
          (update_changes (is_asked old) (with_status Status.cancelled) db)
      else asks id (origin_of old current db.changes) model row
          (update_changes (is_asked old) (with_status Status.superseded) db)
]

abbrev pub is_manual : TaskMode → Bool
is_manual TaskMode.automatic = false
is_manual TaskMode.manual_root = true

-- A state that was stored before, and a model that was observed.
unfoldable pub observe_row : String → Bool → String → HostRow → HostDb → HostDb × Observed
unfolding detect_change
observe_row model detect id row db = elim row.current_model [
  | none ↦ (
    with_row (record row { current_model = some model; model_visible = true }) db,
    record { observed = true; changed = false },
  )
  | some current ↦
      if current == ""
      then (
        with_row (record row { current_model = some model; model_visible = true }) db,
        record { observed = true; changed = false },
      )
      else if current == model
      then (
        with_row (record row { model_visible = true }) db,
        record { observed = true; changed = false },
      )
      else if not detect || is_manual row.task_mode
      then (
        with_row (record row { current_model = some model; model_visible = true }) db,
        record { observed = true; changed = true },
      )
      else (detect_change id current model row db, record { observed = true; changed = true })
]

-- `none` is a value that is no model.
unfoldable pub observe_host_model : Option String → Bool → String → HostDb → HostDb × Observed
unfolding observe_row
observe_host_model none detect id db = (
  update_row (λ row. record row { model_visible = false }) db,
  record { observed = false; changed = false },
)
observe_host_model (some model) detect id db = elim db.row [
  | none ↦ (
    with_row
        (record {
          current_model = some model;
          model_visible = true;
          task_mode = TaskMode.automatic;
          pending_change_id = none;
        })
        db,
    record { observed = true; changed = false },
  )
  | some row ↦ observe_row model detect id row db
]

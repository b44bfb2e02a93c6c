-- ===== src/Gate.antt =====
-- The tables that scripts/lib/delegation-gate.mjs works on, and the SQL statements that it uses: a
-- table is the list of its rows in the order of insertion, a time is a number, and a column that may
-- be NULL is an option.
pub mod Store
pub mod Managed
pub mod Carrier
pub mod Finalize
pub mod Ticket
pub mod Observe
pub mod Stop
pub mod Recovery
pub mod Writes
pub mod Admission
pub mod Identity
pub mod OneShot
pub mod Budget
pub mod Once
pub mod Preserve
pub mod Replay
pub mod Rerun
pub mod Histories
pub mod Sticky
pub mod Sound
pub mod Accounting
mod Examples
mod Trials
use adaptive_model_router.Common.{
  Bool, List, Option, String, [], bool_eq, filter, find?, if◌then◌else◌, is_some, length, nat_eq,
  not, string_eq, text_beq_eq, text_eq, ℕ, ◌&&◌, ◌==◌, ◌∷◌,
}
use adaptive_model_router.Vocabulary.{effort_eq, failure_eq, gate_eq, level_eq, signal_eq}

pub data OutcomeStatus : Type 0 where
  passed failed unknown : OutcomeStatus

-- A context of the store: a project and a task.
pub record Context : Type 0 where
  pub project_id : String
  pub context_key : String

-- The table delegation_attempts.
pub record Attempt : Type 0 where
  pub route_id : String
  pub project_id : String
  pub context_key : String
  pub ticket_hash : Option String
  pub model : String
  pub effort : String
  pub context_package : Option String
  pub context_package_bytes : ℕ
  pub ticket_consumed : Bool
  pub root_turn_id : Option String
  pub tool_use_id : Option String
  pub dispatch_input_digest : Option String
  pub post_observed : Bool
  pub agent_id : Option String
  pub no_child : Bool
  pub stop_observed : Bool
  pub transcript_bytes : Option ℕ
  pub early_agent_id : Option String
  pub early_transcript_bytes : Option ℕ
  pub outcome_recorded : Bool
  pub outcome_status : Option OutcomeStatus
  pub ambiguous : Bool
  pub created_at : ℕ
  pub updated_at : ℕ
  pub finalized_at : Option ℕ

pub data ChildState : Type 0 where
  open_child settled unknown_child : ChildState

-- The table delegation_children, and the receipt of a terminal failure in its journal.
pub record Child : Type 0 where
  pub route_id : String
  pub state : ChildState
  pub revision : ℕ
  pub verified_revision : Option ℕ
  pub verified_digest : Option String
  pub accounted_bytes : ℕ
  pub failure_revision : Option ℕ
  pub failure_token : Option String

-- The table delegation_usage.
pub record Usage : Type 0 where
  pub project_id : String
  pub context_key : String
  pub total_transcript_bytes : ℕ
  pub untrusted : Bool

-- The table retention_coverage, for the kind `finalized_attempt`.
pub record Coverage : Type 0 where
  pub project_id : String
  pub context_key : String
  pub pruned_count : ℕ

-- The table delegation_child_stops.
pub record ChildStop : Type 0 where
  pub route_id : String
  pub turn_id : String
  pub result_digest : String

-- The column eligible_learning of route_score_snapshots.
pub record Snapshot : Type 0 where
  pub route_id : String
  pub eligible_learning : Bool

pub record Db : Type 0 where
  pub attempts : List Attempt
  pub children : List Child
  pub stops : List ChildStop
  pub usage : List Usage
  pub coverage : List Coverage
  pub snapshots : List Snapshot

-- `UPDATE table SET f WHERE p`, and its `changes`.
module _ {ℓ} {A : Type ℓ} where
  unfoldable pub update : (A → Bool) → (A → A) → List A → List A
  update p f [] = []
  update p f (x ∷ xs) = (if p x then f x else x) ∷ update p f xs

  abbrev pub changes : (A → Bool) → List A → ℕ
  changes p xs = length (filter p xs)

-- `WHERE project_id = ? AND context_key = ?`.
abbrev pub in_context : Context → Attempt → Bool
in_context c r = r.project_id == c.project_id && r.context_key == c.context_key

-- `WHERE finalized_at IS NULL`.
abbrev pub is_open : Attempt → Bool
is_open r = not (is_some r.finalized_at)

abbrev pub has_route : String → Attempt → Bool
has_route route r = r.route_id == route

-- `SELECT * FROM delegation_attempts WHERE route_id = ?`.
abbrev pub get_attempt : String → Db → Option Attempt
get_attempt route db = find? (has_route route) db.attempts

abbrev pub update_attempts : (Attempt → Bool) → (Attempt → Attempt) → Db → Db
update_attempts p f db = record db { attempts = update p f db.attempts }

-- ===== src/Gate/Observe.antt =====
-- `observeAgentResult` of scripts/lib/delegation-gate.mjs: the correlation of a native result.
use adaptive_model_router.Common.{
  Bool, List, Option, String, Text, [], bool_eq, false, find?, if◌then◌else◌, is_some, nat_eq, none,
  not, opt_beq, or_else, some, string_eq, text_eq, true, truthy, ℕ, ◌&&◌, ◌++◌, ◌==◌, ◌||◌, ◌∷◌,
}
use adaptive_model_router.Gate.{
  Attempt, Context, Db, has_route, in_context, is_open, update_attempts,
}
use adaptive_model_router.Gate.Finalize.{finalize_route}
use adaptive_model_router.Gate.Ticket.{Crypto, ToolInput, made_ambiguous}
use adaptive_model_router.Vocabulary.{effort_eq, failure_eq, gate_eq, level_eq, signal_eq}

-- The response of the Agent call, as `collectAgentIds`, `collectTaskNames` and
-- `responseProvesNoChild` read it.
pub record Response : Type 0 where
  pub agent_ids : List String
  pub task_names : List Text
  pub no_child : Bool

pub data Uncorrelated : Type 0 where
  dispatch_input_mismatch ambiguous_task_name ambiguous_agent_id : Uncorrelated
  agent_id_unavailable early_stop_agent_mismatch : Uncorrelated

pub data Observation : Type 0 where
  unmatched : Observation
  uncorrelated : Uncorrelated → Observation
  -- no child, awaiting the start of a child, route, finalized.
  correlated : Bool → Bool → String → Bool → Observation
  -- The `CHECK ((no_child = 0) OR (post_observed = 1 AND agent_id IS NULL))` of the table refuses the
  -- update: the statement throws, and the transaction is rolled back.
  check_failed : Observation

-- `column = ?`, which is never so for NULL.
abbrev pub matches_column : Option String → Option String → Bool
matches_column none v = false
matches_column (some s) none = false
matches_column (some s) (some v) = s == v

abbrev pub is_dispatched : Context → Option String → Option String → Attempt → Bool
is_dispatched c turn call r =
    in_context c r
    && (matches_column r.root_turn_id turn
        && (matches_column r.tool_use_id call && (r.ticket_consumed && is_open r)))

-- "/root/".
abbrev root_prefix : Text
root_prefix = b'/' ∷ b'r' ∷ b'o' ∷ b'o' ∷ b't' ∷ b'/' ∷ []

abbrev pub is_expected_name : Option Text → Text → Bool
is_expected_name none name = false
is_expected_name (some task) name = task == name || (root_prefix ++ task) == name

-- `taskNames.length === 1 && expectedTaskNames.has(taskNames[0])`.
abbrev pub name_matched : Option Text → List Text → Bool
name_matched task [] = false
name_matched task (name ∷ []) = is_expected_name task name
name_matched task (name ∷ other ∷ names) = false

abbrev pub name_conflicts : Option Text → List Text → Bool
name_conflicts task [] = false
name_conflicts task (name ∷ []) = not (is_expected_name task name)
name_conflicts task (name ∷ other ∷ names) = true

abbrev pub post_ambiguous : ℕ → Attempt → Attempt
post_ambiguous now r = record r { ambiguous = true; post_observed = true; updated_at = now }

-- The result's identity, or else the one that an early start gave.
abbrev pub result_key : (String → String) → List String → Option String → Option String
result_key key [] early = if truthy early then early else none
result_key key (agent ∷ agents) early = some (key agent)

-- `row.early_agent_id && (!agentKey || row.early_agent_id !== agentKey)`.
abbrev pub early_conflicts : Option String → Option String → Bool
early_conflicts none key = false
early_conflicts (some early) none = not (early == "")
early_conflicts (some early) (some key) = not (early == "") && not (early == key)

-- An early size stands for the stop that the result was waiting for; no child has no transcript.
abbrev pub post_observed_as : Option String → Bool → ℕ → Attempt → Attempt
post_observed_as key no_child now r = record r {
  post_observed = true;
  agent_id = key;
  no_child = no_child;
  stop_observed = is_some r.early_transcript_bytes || r.stop_observed;
  transcript_bytes =
      if no_child then some 0 else or_else r.early_transcript_bytes r.transcript_bytes;
  updated_at = now;
}

abbrev pub some_item {ℓ} : {A : Type ℓ} → List A → Bool
some_item [] = false
some_item (_ ∷ _) = true

abbrev pub several {ℓ} : {A : Type ℓ} → List A → Bool
several [] = false
several (_ ∷ xs) = some_item xs

unfoldable pub mark_post_ambiguous : String → ℕ → Db → Db
mark_post_ambiguous route now = update_attempts (has_route route) (post_ambiguous now)

-- The last part: the update, its CHECK, and the finalization of the row as it is then.
unfoldable pub correlate : Attempt → Option String → Bool → ℕ → Db → Db × Observation
unfolding finalize_route
correlate r key no_child now db =
    if no_child && is_some key
    then (db, Observation.check_failed)
    else let updated =
        update_attempts (has_route r.route_id) (post_observed_as key no_child now) db in
      let (db', done) = finalize_route r.route_id now updated in
      (db', Observation.correlated no_child (not no_child && not (is_some key)) r.route_id done)

unfoldable pub observe_row :
    (String → String) → Attempt → ToolInput → Response → ℕ → Db → Db × Observation
unfolding mark_post_ambiguous correlate
observe_row agent_key r input response now db =
    let key = result_key agent_key response.agent_ids r.early_agent_id in
    if not (opt_beq r.dispatch_input_digest (some input.digest))
    then (
      update_attempts (has_route r.route_id) (made_ambiguous now) db,
      Observation.uncorrelated Uncorrelated.dispatch_input_mismatch,
    )
    else if name_conflicts input.task_name response.task_names
    then (
      mark_post_ambiguous r.route_id now db,
      Observation.uncorrelated Uncorrelated.ambiguous_task_name,
    )
    else if several response.agent_ids
    then (
      mark_post_ambiguous r.route_id now db,
      Observation.uncorrelated Uncorrelated.ambiguous_agent_id,
    )
    else if not (some_item response.agent_ids)
        && (not response.no_child
            && (not (truthy r.early_agent_id)
                && not (name_matched input.task_name response.task_names)))
    then (
      mark_post_ambiguous r.route_id now db,
      Observation.uncorrelated Uncorrelated.agent_id_unavailable,
    )
    else if early_conflicts r.early_agent_id key
    then (
      mark_post_ambiguous r.route_id now db,
      Observation.uncorrelated Uncorrelated.early_stop_agent_mismatch,
    )
    else correlate r key response.no_child now db

unfoldable pub observe_agent_result :
    Crypto
    → Context
    → Option String
    → Option String
    → ToolInput
    → Response
    → ℕ
    → Db
    → Db × Observation
unfolding observe_row
observe_agent_result x c turn call input response now db =
    elim (find? (is_dispatched c turn call) db.attempts) [
      | none ↦ (db, Observation.unmatched)
      | some r ↦ observe_row x.agent_key r input response now db
    ]

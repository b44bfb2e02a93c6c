-- ===== src/Gate/Stop.antt =====
-- `observeSubagentStop` of scripts/lib/delegation-gate.mjs.
use adaptive_model_router.Common.{
  Bool, List, Option, String, Text, [], bool_eq, filter, if◌then◌else◌, nat_eq, none, not, opt_beq,
  some, string_eq, text_eq, true, ℕ, ◌&&◌, ◌||◌, ◌∷◌,
}
use adaptive_model_router.Gate.{Attempt, Context, Db, has_route, update_attempts}
use adaptive_model_router.Gate.Carrier.{parse_carrier_task_name}
use adaptive_model_router.Gate.Finalize.{finalize_route}
use adaptive_model_router.Gate.Managed.{observe_managed_stop}
use adaptive_model_router.Gate.Ticket.{Crypto, holds_ticket, present_text}
use adaptive_model_router.Vocabulary.{effort_eq, failure_eq, gate_eq, level_eq, signal_eq}

pub data StopResult : Type 0 where
  unmatched : StopResult
  awaiting_verification : String → StopResult
  size_untrusted : StopResult
  awaiting_post : String → StopResult
  stopped : String → Bool → StopResult

-- `ticket_hash = ? AND (agent_id = ? OR early_agent_id = ?) AND finalized_at IS NULL`.
abbrev pub is_stopping : Context → String → String → Attempt → Bool
is_stopping c hash key r =
    holds_ticket c hash r && (opt_beq r.agent_id (some key) || opt_beq r.early_agent_id (some key))

-- Exactly one row.
abbrev pub only {ℓ} : {A : Type ℓ} → List A → Option A
only [] = none
only (x ∷ []) = some x
only (x ∷ y ∷ ys) = none

abbrev pub stop_untrusted : ℕ → Attempt → Attempt
stop_untrusted now r = record r { ambiguous = true; stop_observed = true; updated_at = now }

abbrev pub stopped_early : ℕ → ℕ → Attempt → Attempt
stopped_early bytes now r = record r { early_transcript_bytes = some bytes; updated_at = now }

abbrev pub stopped_with : ℕ → ℕ → Attempt → Attempt
stopped_with bytes now r = record r {
  stop_observed = true;
  transcript_bytes = some bytes;
  updated_at = now;
}

-- `none` is a size that is no safe integer, or is negative.
unfoldable pub stop_row : Attempt → Option ℕ → ℕ → Db → Db × StopResult
unfolding finalize_route
stop_row r none now db =
    (update_attempts (has_route r.route_id) (stop_untrusted now) db, StopResult.size_untrusted)
stop_row r (some bytes) now db =
    if not r.post_observed
    then (
      update_attempts (has_route r.route_id) (stopped_early bytes now) db,
      StopResult.awaiting_post r.route_id,
    )
    else let (db', done) =
        finalize_route r.route_id now
          (update_attempts (has_route r.route_id) (stopped_with bytes now) db) in
      (db', StopResult.stopped r.route_id done)

module _ (x : Crypto) where
  -- A managed child's stop records a fact only: its outcome is verified later.
  unfoldable pub stop_found :
      Attempt → Option ℕ → Option String → Option String → ℕ → Db → Db × StopResult
  unfolding stop_row observe_managed_stop
  stop_found r bytes turn digest now db =
      let (db', managed) = observe_managed_stop r.route_id turn digest db in
      if managed
      then (db', StopResult.awaiting_verification r.route_id)
      else stop_row r bytes now db'

  unfoldable pub observe_subagent_stop :
      Context
      → Option Text
      → Option String
      → Option ℕ
      → Option String
      → Option String
      → ℕ
      → Db
      → Db × StopResult
  unfolding stop_found present_text
  observe_subagent_stop c task none bytes turn digest now db = (db, StopResult.unmatched)
  observe_subagent_stop c task (some agent) bytes turn digest now db =
      elim (parse_carrier_task_name task) [
        | none ↦ (db, StopResult.unmatched)
        | some ticket ↦
            if not (present_text (some agent))
            then (db, StopResult.unmatched)
            else elim (only
                (filter (is_stopping c (x.ticket_digest ticket) (x.agent_key agent)) db.attempts)) [
                  | none ↦ (db, StopResult.unmatched)
                  | some r ↦ stop_found r bytes turn digest now db
                ]
      ]

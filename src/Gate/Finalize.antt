-- ===== src/Gate/Finalize.antt =====
-- `finalizeIfSafe`, `markDelegationOutcome` and `reconcileLegacyPredispatchOutcomes` of
-- scripts/lib/delegation-gate.mjs, with `recordPrunedEvidence` of scripts/lib/audit-records.mjs.
use adaptive_model_router.Common.{
  Bool, List, String, [], any, bool_eq, false, filter, get_or, if◌then◌else◌, includes, is_some,
  ltb, nat_eq, none, not, opt_beq, some, string_eq, suc, text_eq, true, truthy, zero, ℕ, ◌&&◌, ◌++◌,
  ◌+◌, ◌==◌, ◌||◌, ◌∷◌,
}
use adaptive_model_router.Gate.{
  Attempt, Context, Coverage, Db, OutcomeStatus, Usage, changes, get_attempt, has_route, in_context,
  is_open, update, update_attempts,
}
use adaptive_model_router.Gate.Managed.{
  managed_stage_can_finalize, mark_managed_stage_settled, verified_failed_child,
}
use adaptive_model_router.Vocabulary.{effort_eq, failure_eq, gate_eq, level_eq, signal_eq}

-- TERMINAL_ATTEMPT_HISTORY_LIMIT.
abbrev pub terminal_attempt_history_limit : ℕ
terminal_attempt_history_limit = 64

-- The evidence of an end: no child at all, or a stopped (or failed) child whose size is known.
unfoldable pub is_child_terminal : Attempt → Bool → Bool
is_child_terminal r failed_child =
    r.post_observed
    && ((r.no_child && opt_beq r.transcript_bytes (some 0))
        || ((r.stop_observed || failed_child) && (truthy r.agent_id && is_some r.transcript_bytes)))

unfoldable pub can_finalize : Attempt → Bool → Bool → Bool
unfolding is_child_terminal
can_finalize r failed_child stage_open =
    not r.ambiguous
    && (r.outcome_recorded && (is_child_terminal r failed_child && (is_open r && stage_open)))

-- The columns that finalization sets.
abbrev pub finalized : ℕ → Attempt → Attempt
finalized now r = record r {
  finalized_at = some now;
  updated_at = now;
  ticket_hash = none;
  context_package = none;
}

abbrev pub same_usage : Attempt → Usage → Bool
same_usage r u = u.project_id == r.project_id && u.context_key == r.context_key

-- `INSERT INTO delegation_usage ... ON CONFLICT DO UPDATE SET total = total + excluded.total`.
unfoldable pub add_usage : Attempt → List Usage → List Usage
add_usage r usage =
    if any (same_usage r) usage
    then update (same_usage r)
        (λ u. record u {
          total_transcript_bytes = u.total_transcript_bytes + get_or r.transcript_bytes 0;
        })
        usage
    else usage
      ++ record {
        project_id = r.project_id;
        context_key = r.context_key;
        total_transcript_bytes = get_or r.transcript_bytes 0;
        untrusted = false;
      }
        ∷ []

abbrev same_coverage : Attempt → Coverage → Bool
same_coverage r c = c.project_id == r.project_id && c.context_key == r.context_key

-- `recordPrunedEvidence(db, context, "finalized_attempt", count, timestamp)`.
unfoldable pub record_pruned : Attempt → ℕ → List Coverage → List Coverage
record_pruned r count coverage =
    if count == 0
    then coverage
    else if any (same_coverage r) coverage
    then update (same_coverage r) (λ c. record c { pruned_count = c.pruned_count + count }) coverage
    else coverage
      ++ record { project_id = r.project_id; context_key = r.context_key; pruned_count = count }
        ∷ []

-- `ORDER BY finalized_at DESC`, as an insertion sort that keeps the order of equal times.
abbrev finalized_time : Attempt → ℕ
finalized_time r = get_or r.finalized_at 0

abbrev insert_newest : Attempt → List Attempt → List Attempt
insert_newest r [] = r ∷ []
insert_newest r (x ∷ xs) =
    if ltb (finalized_time r) (finalized_time x) then x ∷ insert_newest r xs else r ∷ x ∷ xs

abbrev newest_first : List Attempt → List Attempt
newest_first [] = []
newest_first (x ∷ xs) = insert_newest x (newest_first xs)

abbrev take_routes : ℕ → List Attempt → List String
take_routes zero xs = []
take_routes (suc n) [] = []
take_routes (suc n) (x ∷ xs) = x.route_id ∷ take_routes n xs

abbrev pub in_same_context : Attempt → Attempt → Bool
in_same_context r x = x.project_id == r.project_id && x.context_key == r.context_key

-- A terminal attempt of the context of `r` that is not among its newest.
unfoldable pub is_prunable : Attempt → List Attempt → Attempt → Bool
is_prunable r rows x =
    (in_same_context r x && is_some x.finalized_at)
    && not (
        includes
          (take_routes terminal_attempt_history_limit
            (newest_first (filter (λ y. in_same_context r y && is_some y.finalized_at) rows)))
          x.route_id)

-- The `DELETE`, and the count of what it deleted.
unfoldable pub prune : Attempt → Db → Db
unfolding is_prunable record_pruned
prune r db =
    let count = changes (is_prunable r db.attempts) db.attempts in
    record db {
      attempts = filter (λ x. not (is_prunable r db.attempts x)) db.attempts;
      coverage = record_pruned r count db.coverage;
    }

unfoldable pub finalize : Attempt → ℕ → Db → Db
unfolding mark_managed_stage_settled add_usage prune
finalize r now db =
    let done = update_attempts (λ x. has_route r.route_id x && is_open x) (finalized now) db in
    let settled = mark_managed_stage_settled r.route_id done in
    prune r (record settled { usage = add_usage r settled.usage })

-- `row` is the row as it was read, its times included.
unfoldable pub finalize_if_safe : Attempt → ℕ → Db → Db × Bool
unfolding can_finalize verified_failed_child managed_stage_can_finalize finalize
finalize_if_safe r now db =
    if can_finalize r (verified_failed_child r.route_id db)
      (managed_stage_can_finalize r.route_id db)
    then (finalize r now db, true)
    else (db, false)

-- Reads a row again and finalizes it.
unfoldable pub finalize_route : String → ℕ → Db → Db × Bool
unfolding finalize_if_safe
finalize_route route now db = elim (get_attempt route db) [
  | none ↦ (db, false)
  | some r ↦ finalize_if_safe r now db
]

abbrev pub route_in_context : Context → String → Attempt → Bool
route_in_context c route r = has_route route r && in_context c r

abbrev pub with_outcome : OutcomeStatus → ℕ → Attempt → Attempt
with_outcome status now r = record r {
  outcome_recorded = true;
  outcome_status = some status;
  updated_at = now;
}

unfoldable pub mark_delegation_outcome : Context → String → OutcomeStatus → ℕ → Db → Db × Bool
unfolding finalize_route
mark_delegation_outcome c route status now db =
    finalize_route route now
      (update_attempts (route_in_context c route) (with_outcome status now) db)

-- An open attempt with an outcome and no consumed ticket.
abbrev pub is_legacy : Attempt → Bool
is_legacy r = not r.ticket_consumed && (r.outcome_recorded && is_open r)

abbrev pub quarantined : ℕ → Attempt → Attempt
quarantined now r = record (finalized now r) { ambiguous = true }

unfoldable pub reconcile_legacy_predispatch_outcomes : ℕ → Db → Db × ℕ
reconcile_legacy_predispatch_outcomes now db =
    let legacy = filter is_legacy db.attempts in
    (
      record db {
        attempts = update is_legacy (quarantined now) db.attempts;
        snapshots =
            update (λ s. any (has_route s.route_id) legacy)
              (λ s. record s { eligible_learning = false }) db.snapshots;
      },
      changes is_legacy db.attempts,
    )

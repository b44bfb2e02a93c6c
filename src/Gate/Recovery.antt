-- ===== src/Gate/Recovery.antt =====
-- The writes to delegation_attempts outside scripts/lib/delegation-gate.mjs: those of
-- `observeManagedMessage` and `verifyStageClosure` of scripts/lib/stage-closure.mjs, of `finishRecovery`
-- of scripts/lib/delegation-recovery.mjs, of the reconciliation of an interrupted qualification in
-- scripts/lib/historical-qualification-recovery.mjs and of `clearProject` of scripts/lib/database.mjs.
-- What these check before the write is left out, so a write may come at any time. What they write to
-- other tables, `delegation_usage` and `route_score_snapshots` of a recovery apart, is left to
-- `rewrite_tables`.
use adaptive_model_router.Common.{
  Bool, List, String, [], any, bool_eq, false, filter, if◌then◌else◌, nat_eq, none, not, some,
  string_eq, text_eq, true, ℕ, ◌&&◌, ◌++◌, ◌+◌, ◌==◌, ◌||◌, ◌∷◌,
}
use adaptive_model_router.Gate.{
  Attempt, Child, ChildStop, Context, Coverage, Db, Snapshot, Usage, has_route, is_open, update,
  update_attempts,
}
use adaptive_model_router.Gate.Finalize.{quarantined, route_in_context}
use adaptive_model_router.Vocabulary.{
  category_eq, effort_eq, failure_eq, gate_eq, level_eq, signal_eq,
}

-- A message to the child: its stop has to be observed again.
abbrev pub resent : ℕ → Attempt → Attempt
resent now r = record r { stop_observed = false; early_transcript_bytes = none; updated_at = now }

unfoldable pub send_message : String → ℕ → Db → Db
send_message route now db = update_attempts (λ y. has_route route y && is_open y) (resent now) db

-- A verified closure, of a stage whose child failed or of one that stopped.
abbrev pub measured : ℕ → ℕ → Attempt → Attempt
measured bytes now r = record r { transcript_bytes = some bytes; updated_at = now }

abbrev pub closed_with : ℕ → ℕ → Attempt → Attempt
closed_with bytes now r = record (measured bytes now r) { stop_observed = true }

abbrev pub has_bytes : ℕ → Attempt → Bool
has_bytes bytes r = elim r.transcript_bytes [ none ↦ false | some n ↦ n == bytes ]

unfoldable pub apply_closure : Bool → String → ℕ → ℕ → Db → Db
apply_closure true route bytes now db =
    update_attempts (λ y. has_route route y && not (has_bytes bytes y)) (measured bytes now) db
apply_closure false route bytes now db =
    update_attempts (λ y. has_route route y && (not y.stop_observed || not (has_bytes bytes y)))
      (closed_with bytes now) db

abbrev pub usage_of : Context → Usage → Bool
usage_of c u = u.project_id == c.project_id && u.context_key == c.context_key

abbrev pub add_bytes : Context → ℕ → List Usage → List Usage
add_bytes c bytes usage =
    if any (usage_of c) usage
    then update (usage_of c)
        (λ u. record u { total_transcript_bytes = u.total_transcript_bytes + bytes }) usage
    else usage
      ++ record {
        project_id = c.project_id;
        context_key = c.context_key;
        total_transcript_bytes = bytes;
        untrusted = false;
      }
        ∷ []

-- The gate is released without an outcome: the attempt is final and stays in doubt.
unfoldable pub finish_recovery : Context → String → ℕ → ℕ → Db → Db
finish_recovery c route bytes now db =
    let done =
      update_attempts (λ y. route_in_context c route y && is_open y) (quarantined now) db in
    record done {
      usage = add_bytes c bytes done.usage;
      snapshots =
          update (λ s. s.route_id == route) (λ s. record s { eligible_learning = false })
            done.snapshots;
    }

unfoldable pub reconcile_interrupted : String → ℕ → Db → Db
reconcile_interrupted route now db =
    update_attempts (λ y. has_route route y && is_open y) (quarantined now) db

-- The attempts of a project are deleted.
unfoldable pub clear_project : String → Db → Db
clear_project project db = record db {
  attempts = filter (λ y. not (y.project_id == project)) db.attempts;
}

-- Any change of the tables other than `delegation_attempts`, by any part of the program.
unfoldable pub rewrite_tables :
    List Child → List ChildStop → List Usage → List Coverage → List Snapshot → Db → Db
rewrite_tables children stops usage coverage snapshots db = record db {
  children = children;
  stops = stops;
  usage = usage;
  coverage = coverage;
  snapshots = snapshots;
}

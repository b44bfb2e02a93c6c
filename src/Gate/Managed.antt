-- ===== src/Gate/Managed.antt =====
-- The managed child of a route, as the gate asks for it: scripts/lib/stage-closure.mjs
-- (`managedStageCanFinalize`, `markManagedStageSettled`, `observeManagedStop`) and
-- scripts/lib/failed-child-takeover.mjs (`verifiedFailedChild`).
use adaptive_model_router.Common.{
  Bool, List, Option, String, [], any, bool_eq, false, find?, get_or, if◌then◌else◌, is_some, max,
  nat_eq, none, opt_beq, some, string_eq, text_eq, true, truthy, ℕ, ◌&&◌, ◌++◌, ◌==◌, ◌∷◌,
}
use adaptive_model_router.Gate.{Child, ChildState, ChildStop, Db, get_attempt, update}
use adaptive_model_router.Vocabulary.{effort_eq, failure_eq, gate_eq, level_eq, signal_eq}

abbrev pub get_child : String → Db → Option Child
get_child route db = find? (λ c. c.route_id == route) db.children

abbrev is_open_child : ChildState → Bool
is_open_child ChildState.open_child = true
is_open_child _ = false

-- The child's result is verified for its current revision.
abbrev is_verified : Child → Bool
is_verified c = opt_beq c.verified_revision (some c.revision) && truthy c.verified_digest

unfoldable pub managed_stage_can_finalize : String → Db → Bool
managed_stage_can_finalize route db = elim (get_child route db) [
  | none ↦ true
  | some c ↦ is_open_child c.state && is_verified c
]

-- `verifiedFailedChild`: a terminal failure is on record for the verified revision.
unfoldable pub verified_failed_child : String → Db → Bool
verified_failed_child route db = elim (get_child route db) [
  | none ↦ false
  | some c ↦
      is_verified c
      && opt_beq c.failure_revision (some c.revision)
      && opt_beq c.failure_token c.verified_digest
]

-- `MAX(accounted_bytes, COALESCE(transcript_bytes, 0))` and `state = 'settled'`.
unfoldable pub mark_managed_stage_settled : String → Db → Db
mark_managed_stage_settled route db =
    let bytes : ℕ = elim (get_attempt route db) [
      | none ↦ 0
      | some r ↦ get_or r.transcript_bytes 0
    ] in
    record db {
      children =
          update (λ c. c.route_id == route)
            (λ c. record c {
              state = ChildState.settled;
              accounted_bytes = max c.accounted_bytes bytes;
            })
            db.children;
    }

abbrev same_stop : ChildStop → ChildStop → Bool
same_stop s t =
    s.route_id == t.route_id && s.turn_id == t.turn_id && s.result_digest == t.result_digest

-- `INSERT OR IGNORE`, with the primary key of the three columns.
abbrev insert_stop : ChildStop → List ChildStop → List ChildStop
insert_stop s stops = if any (same_stop s) stops then stops else stops ++ s ∷ []

-- The turn's identity and the digest of its last message, where both are present.
unfoldable pub observe_managed_stop : String → Option String → Option String → Db → Db × Bool
observe_managed_stop route none digest db = (db, is_some (get_child route db))
observe_managed_stop route (some turn) none db = (db, is_some (get_child route db))
observe_managed_stop route (some turn) (some digest) db =
    if is_some (get_child route db)
    then (if turn == "" then (db, true) else (
      record db {
        stops =
            insert_stop (record { route_id = route; turn_id = turn; result_digest = digest })
              db.stops;
      },
      true,
    ))
    else (db, false)

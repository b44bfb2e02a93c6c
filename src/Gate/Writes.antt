-- ===== src/Gate/Writes.antt =====
-- The writes of a message, a closure, a recovery and the deletion of a project (Gate.Recovery) keep a
-- property of every attempt.
use adaptive_model_router.Common.{
  &&-true, All-filter, Bool, List, String, false, not, refl, true, ℕ, ◌&&◌, ◌||◌,
}
use adaptive_model_router.Gate.{
  Attempt, Child, ChildStop, Context, Coverage, Db, Snapshot, Usage, has_route, is_open,
}
use adaptive_model_router.Gate.Finalize.{quarantined, route_in_context}
use adaptive_model_router.Gate.Identity.{filter-Distinct}
use adaptive_model_router.Gate.Preserve.{Closed, Good, update-Good}
use adaptive_model_router.Gate.Recovery.{
  apply_closure, clear_project, closed_with, finish_recovery, has_bytes, measured,
  reconcile_interrupted, resent, rewrite_tables, send_message,
}
use adaptive_model_router.Gate.Ticket.{Crypto}

module _ (x : Crypto) (I : String → Type 0) (P : Attempt → Type 0) (k : Closed x I P) where
  pub message-Good :
      (route : String) (now : ℕ) (db : Db) → Good P db → Good P (send_message route now db)
  unfolding send_message
  message-Good route now db g =
      update-Good P (λ y. has_route route y && is_open y) (resent now) db (λ y. refl)
        (λ y _. k.message now y) g

  pub closure-Good :
      (failed : Bool) (route : String) (bytes now : ℕ) (db : Db)
      → Good P db
      → Good P (apply_closure failed route bytes now db)
  unfolding apply_closure
  closure-Good true route bytes now db g =
      update-Good P (λ y. has_route route y && not (has_bytes bytes y)) (measured bytes now) db
        (λ y. refl) (λ y _. k.close_failed bytes now y) g
  closure-Good false route bytes now db g =
      update-Good P (λ y. has_route route y && (not y.stop_observed || not (has_bytes bytes y)))
        (closed_with bytes now) db (λ y. refl) (λ y _. k.close bytes now y) g

  pub recovery-Good :
      (c : Context) (route : String) (bytes now : ℕ) (db : Db)
      → Good P db
      → Good P (finish_recovery c route bytes now db)
  unfolding finish_recovery Good
  recovery-Good c route bytes now db g =
      update-Good P (λ y. route_in_context c route y && is_open y) (quarantined now) db (λ y. refl)
        (λ y h. k.recover now y (&&-true _ _ h).1) g

  pub interruption-Good :
      (route : String) (now : ℕ) (db : Db) → Good P db → Good P (reconcile_interrupted route now db)
  unfolding reconcile_interrupted
  interruption-Good route now db g =
      update-Good P (λ y. has_route route y && is_open y) (quarantined now) db (λ y. refl)
        (λ y h. k.recover now y (&&-true _ _ h).1) g

  pub clear-Good : (project : String) (db : Db) → Good P db → Good P (clear_project project db)
  unfolding clear_project Good
  clear-Good project db g = (filter-Distinct _ _ g.0, All-filter P _ _ g.1)

  pub rewrite-Good :
      (children : List Child) (child_stops : List ChildStop) (usage : List Usage)
      (coverage : List Coverage) (snapshots : List Snapshot) (db : Db)
      → Good P db
      → Good P (rewrite_tables children child_stops usage coverage snapshots db)
  unfolding rewrite_tables Good
  rewrite-Good children child_stops usage coverage snapshots db g = g

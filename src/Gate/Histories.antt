-- ===== src/Gate/Histories.antt =====
-- What every single change of a row keeps, every sequence of calls keeps: an insertion, and the
-- induction on the calls.
use adaptive_model_router.Common.{
  All, All-append, Bool, Bool-cases, List, String, [], any, arith, bool_eq, false, inl, inr, nat_eq,
  string_eq, text_eq, ||-false, ◌++◌, ◌==◌, ◌||◌, ◌∷◌, ◌≡◌,
}
use adaptive_model_router.Gate.{Attempt, Db}
use adaptive_model_router.Gate.Admission.{collides, insert_delegation_attempt, new_attempt}
use adaptive_model_router.Gate.Identity.{Distinct, str_beq_sym}
use adaptive_model_router.Gate.Preserve.{
  Call, Closed, Fine-Good, Good, Inserts, apply, inserted, outcome-Good, quarantine-Good,
  reconcile-Good, run,
}
use adaptive_model_router.Gate.Replay.{claim-Good, consume-Good}
use adaptive_model_router.Gate.Rerun.{observe-Good, stop-Good}
use adaptive_model_router.Gate.Ticket.{Crypto}
use adaptive_model_router.Gate.Writes.{
  clear-Good, closure-Good, interruption-Good, message-Good, recovery-Good, rewrite-Good,
}
use adaptive_model_router.Vocabulary.{
  category_eq, effort_eq, failure_eq, gate_eq, level_eq, signal_eq,
}

pair_apart : (a b c : Bool) → ((a || b) || c) ≡ false → a ≡ false
pair_apart a b c h = ground arith

apart_from : (r y : Attempt) → collides r y ≡ false → (r.route_id == y.route_id) ≡ false
apart_from r y h = str_beq_sym y.route_id r.route_id (pair_apart (y.route_id == r.route_id) _ _ h)

append-Distinct :
    (r : Attempt) (rows : List Attempt)
    → any (collides r) rows ≡ false
    → Distinct rows
    → Distinct (rows ++ r ∷ [])
append-Distinct r [] free d = (tt, tt)
append-Distinct r (y ∷ ys) free d =
    let split = ||-false (collides r y) (any (collides r) ys) free in
    (
      All-append (λ z. (z.route_id == y.route_id) ≡ false) ys (r ∷ []) d.0
          (apart_from r y split.0, tt),
      append-Distinct r ys split.1 d.1,
    )

module _ (x : Crypto) (I : String → Type 0) (P : Attempt → Type 0) (k : Closed x I P) where
  insert-Good :
      (r : Attempt) (db : Db)
      → P r
      → Good P db
      → Good P (inserted db (insert_delegation_attempt r db))
  unfolding Good insert_delegation_attempt
  insert-Good r db p g = elim (Bool-cases (any (collides r) db.attempts)) [
    | inl e ↦ rw (e, insert_delegation_attempt) g
    | inr e ↦
        rw (e, insert_delegation_attempt)
          (append-Distinct r db.attempts e g.0, All-append P db.attempts (r ∷ []) g.1 (p, tt))
  ]

  pub apply-Good : (call : Call) (db : Db) → Inserts I call → Good P db → Good P (apply x call db)
  unfolding apply Inserts
  apply-Good (Call.inserts c route hash model effort sealed bytes now) db i g =
      insert-Good (new_attempt c route hash model effort sealed bytes now) db
        (k.insert c route hash model effort sealed bytes now i) g
  apply-Good (Call.consumes c task turn call input now) db i g =
      Fine-Good P _ (consume-Good x I P k c task turn call input now db g)
  apply-Good (Call.claims c task agent model now) db i g =
      Fine-Good P _ (claim-Good x I P k c task agent model now db g)
  apply-Good (Call.observes c turn call input response now) db i g =
      Fine-Good P _ (observe-Good x I P k c turn call input response now db g)
  apply-Good (Call.stops c task agent bytes turn digest now) db i g =
      Fine-Good P _ (stop-Good x I P k c task agent bytes turn digest now db g)
  apply-Good (Call.records c route status now) db i g = outcome-Good x I P k c route status now db g
  apply-Good (Call.reconciles c route now) db i g = reconcile-Good x I P k c route now db g
  apply-Good (Call.quarantines now) db i g = quarantine-Good x I P k now db g
  apply-Good (Call.messages route now) db i g = message-Good x I P k route now db g
  apply-Good (Call.closes failed route bytes now) db i g =
      closure-Good x I P k failed route bytes now db g
  apply-Good (Call.recovers c route bytes now) db i g = recovery-Good x I P k c route bytes now db g
  apply-Good (Call.interrupts route now) db i g = interruption-Good x I P k route now db g
  apply-Good (Call.clears project) db i g = clear-Good x I P k project db g
  apply-Good (Call.rewrites children child_stops usage coverage snapshots) db i g =
      rewrite-Good x I P k children child_stops usage coverage snapshots db g

  -- From every good state every sequence of calls leads to a good state.
  pub run-Good :
      (calls : List Call) (db : Db) → All (Inserts I) calls → Good P db → Good P (run x calls db)
  unfolding run
  run-Good [] db i g = g
  run-Good (call ∷ calls) db i g = run-Good calls (apply x call db) i.1 (apply-Good call db i.0 g)

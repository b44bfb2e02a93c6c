-- ===== src/Gate/Preserve.antt =====
-- The calls that change the gate's tables, and the rule for a property of every attempt: what each
-- single change of a row keeps, every call keeps, in every order.
use adaptive_model_router.Common.{
  &&-true, All, All-filter, Bool, Bool-cases, List, Option, Option-cases, String, Text, [], false,
  find?, inl, inr, is_some, none, refl, some, subst, true, ℕ, ◌&&◌, ◌∷◌, ◌≡◌,
}
use adaptive_model_router.Gate.{
  Attempt, Child, ChildStop, Context, Coverage, Db, OutcomeStatus, Snapshot, Usage, get_attempt,
  has_route, is_open, update_attempts,
}
use adaptive_model_router.Gate.Admission.{insert_delegation_attempt, new_attempt}
use adaptive_model_router.Gate.Finalize.{
  can_finalize, finalize, finalize_if_safe, finalize_route, finalized, is_legacy,
  mark_delegation_outcome, prune, quarantined, reconcile_legacy_predispatch_outcomes,
  route_in_context, with_outcome,
}
use adaptive_model_router.Gate.Identity.{
  Distinct, filter-Distinct, unique_row, update-Distinct, update_route,
}
use adaptive_model_router.Gate.Managed.{
  managed_stage_can_finalize, mark_managed_stage_settled, verified_failed_child,
}
use adaptive_model_router.Gate.Observe.{
  Response, early_conflicts, observe_agent_result, post_ambiguous, post_observed_as, result_key,
}
use adaptive_model_router.Gate.Recovery.{
  apply_closure, clear_project, closed_with, finish_recovery, measured, reconcile_interrupted,
  resent, rewrite_tables, send_message,
}
use adaptive_model_router.Gate.Stop.{
  observe_subagent_stop, stop_untrusted, stopped_early, stopped_with,
}
use adaptive_model_router.Gate.Store.{All-update}
use adaptive_model_router.Gate.Ticket.{
  Crypto, ToolInput, claim_delegation_subagent, claimed_by, conflicts, consume_delegation_ticket,
  consumed, early_ambiguous, is_predispatch, made_ambiguous, mark_predispatch_reconciliation,
}

-- A call of the hooks, of `record_outcome`, of `route_stage` or of the store's start, a write of a
-- message, a closure or a recovery, the deletion of a project, or any write to the other tables.
pub data Call : Type 0 where
  inserts : Context → String → String → String → String → String → ℕ → ℕ → Call
  consumes : Context → Option Text → Option String → Option String → Option ToolInput → ℕ → Call
  claims : Context → Option Text → Option String → Option String → ℕ → Call
  observes : Context → Option String → Option String → ToolInput → Response → ℕ → Call
  stops :
      Context → Option Text → Option String → Option ℕ → Option String → Option String → ℕ → Call
  records : Context → String → OutcomeStatus → ℕ → Call
  reconciles : Context → String → ℕ → Call
  quarantines : ℕ → Call
  messages : String → ℕ → Call
  closes : Bool → String → ℕ → ℕ → Call
  recovers : Context → String → ℕ → ℕ → Call
  interrupts : String → ℕ → Call
  clears : String → Call
  rewrites : List Child → List ChildStop → List Usage → List Coverage → List Snapshot → Call

-- The routes that a call inserts satisfy `I`.
unfoldable pub Inserts : (String → Type 0) → Call → Type 0
Inserts I (Call.inserts c route hash model effort sealed bytes now) = I route
Inserts I (Call.consumes c task turn call input now) = Unit
Inserts I (Call.claims c task agent model now) = Unit
Inserts I (Call.observes c turn call input response now) = Unit
Inserts I (Call.stops c task agent bytes turn digest now) = Unit
Inserts I (Call.records c route status now) = Unit
Inserts I (Call.reconciles c route now) = Unit
Inserts I (Call.quarantines now) = Unit
Inserts I (Call.messages route now) = Unit
Inserts I (Call.closes failed route bytes now) = Unit
Inserts I (Call.recovers c route bytes now) = Unit
Inserts I (Call.interrupts route now) = Unit
Inserts I (Call.clears project) = Unit
Inserts I (Call.rewrites children child_stops usage coverage snapshots) = Unit

-- A refused `INSERT` rolls back.
abbrev pub inserted : Db → Option Db → Db
inserted db none = db
inserted db (some db') = db'

unfoldable pub apply : Crypto → Call → Db → Db
apply x (Call.inserts c route hash model effort sealed bytes now) db =
    inserted db
      (insert_delegation_attempt (new_attempt c route hash model effort sealed bytes now) db)
apply x (Call.consumes c task turn call input now) db =
    (consume_delegation_ticket x c task turn call input now db).0
apply x (Call.claims c task agent model now) db =
    (claim_delegation_subagent x c task agent model now db).0
apply x (Call.observes c turn call input response now) db =
    (observe_agent_result x c turn call input response now db).0
apply x (Call.stops c task agent bytes turn digest now) db =
    (observe_subagent_stop x c task agent bytes turn digest now db).0
apply x (Call.records c route status now) db = (mark_delegation_outcome c route status now db).0
apply x (Call.reconciles c route now) db = (mark_predispatch_reconciliation c route now db).0
apply x (Call.quarantines now) db = (reconcile_legacy_predispatch_outcomes now db).0
apply x (Call.messages route now) db = send_message route now db
apply x (Call.closes failed route bytes now) db = apply_closure failed route bytes now db
apply x (Call.recovers c route bytes now) db = finish_recovery c route bytes now db
apply x (Call.interrupts route now) db = reconcile_interrupted route now db
apply x (Call.clears project) db = clear_project project db
apply x (Call.rewrites children child_stops usage coverage snapshots) db =
    rewrite_tables children child_stops usage coverage snapshots db

unfoldable pub run : Crypto → List Call → Db → Db
unfolding apply
run x [] db = db
run x (call ∷ calls) db = run x calls (apply x call db)

-- What the single changes of a row need to keep, each with the facts under which it is made. `I` holds
-- of the routes that are inserted.
pub record Closed (x : Crypto) (I : String → Type 0) (P : Attempt → Type 0) : Type 0 where
  pub insert :
      (c : Context) (route hash model effort sealed : String) (bytes now : ℕ)
      → I route
      → P (new_attempt c route hash model effort sealed bytes now)
  pub ambiguous : (now : ℕ) (r : Attempt) → P r → P (made_ambiguous now r)
  pub consume :
      (turn call : String) (input : ToolInput) (now : ℕ) (r : Attempt)
      → r.ticket_consumed ≡ false
      → r.ambiguous ≡ false
      → is_open r ≡ true
      → P r
      → P (consumed turn call input now r)
  pub early :
      (agent : String) (now : ℕ) (r : Attempt)
      → r.ticket_consumed ≡ false
      → P r
      → P (early_ambiguous (x.agent_key agent) now r)
  pub claim :
      (agent : String) (model : Option String) (now : ℕ) (r : Attempt)
      → r.ticket_consumed ≡ true
      → conflicts r model (x.agent_key agent) ≡ false
      → P r
      → P (claimed_by (x.agent_key agent) now r)
  pub post_failed :
      (now : ℕ) (r : Attempt) → r.ticket_consumed ≡ true → P r → P (post_ambiguous now r)
  pub post :
      (agents : List String) (no_child : Bool) (now : ℕ) (r : Attempt)
      → r.ticket_consumed ≡ true
      → early_conflicts r.early_agent_id (result_key x.agent_key agents r.early_agent_id) ≡ false
      → (no_child && is_some (result_key x.agent_key agents r.early_agent_id)) ≡ false
      → P r
      → P (post_observed_as (result_key x.agent_key agents r.early_agent_id) no_child now r)
  pub stop_failed : (now : ℕ) (r : Attempt) → P r → P (stop_untrusted now r)
  pub stop_early : (bytes now : ℕ) (r : Attempt) → P r → P (stopped_early bytes now r)
  pub stop :
      (bytes now : ℕ) (r : Attempt) → r.post_observed ≡ true → P r → P (stopped_with bytes now r)
  pub outcome :
      (status : OutcomeStatus) (now : ℕ) (r : Attempt) → P r → P (with_outcome status now r)
  pub finish :
      (failed_child stage_open : Bool) (now : ℕ) (r : Attempt)
      → can_finalize r failed_child stage_open ≡ true
      → P r
      → P (finalized now r)
  pub quarantine : (now : ℕ) (r : Attempt) → is_legacy r ≡ true → P r → P (quarantined now r)
  pub message : (now : ℕ) (r : Attempt) → P r → P (resent now r)
  pub close_failed : (bytes now : ℕ) (r : Attempt) → P r → P (measured bytes now r)
  pub close : (bytes now : ℕ) (r : Attempt) → P r → P (closed_with bytes now r)
  pub recover : (now : ℕ) (r : Attempt) → is_open r ≡ true → P r → P (quarantined now r)

module _ (P : Attempt → Type 0) where
  -- Every attempt satisfies `P`, and the primary key holds.
  unfoldable pub Good : Db → Type 0
  Good db = Distinct db.attempts × All P db.attempts

  -- The store of a call's result.
  unfoldable pub Fine : {T : Type 0} → Db × T → Type 0
  Fine z = Good z.0

  pub fine : {T : Type 0} (db : Db) (t : T) → Good db → Fine (db, t)
  unfolding Fine
  fine db t g = g

  pub Fine-Good : {T : Type 0} (z : Db × T) → Fine z → Good z.0
  unfolding Fine
  Fine-Good z g = g

  pub attempts-Good : (db db' : Db) → db.attempts ≡ db'.attempts → Good db → Good db'
  unfolding Good
  attempts-Good db db' e g = subst (λ rows. Distinct rows × All P rows) e g

  pub update-Good :
      (p : Attempt → Bool) (f : Attempt → Attempt) (db : Db)
      → ((y : Attempt) → (f y).route_id ≡ y.route_id)
      → ((y : Attempt) → p y ≡ true → P y → P (f y))
      → Good db
      → Good (update_attempts p f db)
  unfolding Good
  update-Good p f db same keep (d, a) =
      (update-Distinct p f same db.attempts d, All-update P p f keep db.attempts a)

  -- An update of the route of a row that was read.
  pub row-Good :
      (q p : Attempt → Bool) (f : Attempt → Attempt) (db : Db) (r : Attempt)
      → find? q db.attempts ≡ some r
      → ((y : Attempt) → p y ≡ true → has_route r.route_id y ≡ true)
      → ((y : Attempt) → (f y).route_id ≡ y.route_id)
      → (P r → P (f r))
      → Good db
      → Good (update_attempts p f db)
  unfolding Good
  row-Good q p f db r e route same keep (d, a) = (
    update-Distinct p f same db.attempts d,
    update_route P p f r route keep db.attempts (unique_row q db.attempts d e) a,
  )

module _ (x : Crypto) (I : String → Type 0) (P : Attempt → Type 0) (k : Closed x I P) where
  finalize-Good :
      (q : Attempt → Bool) (r : Attempt) (now : ℕ) (db : Db) (failed_child stage_open : Bool)
      → find? q db.attempts ≡ some r
      → can_finalize r failed_child stage_open ≡ true
      → Good P db
      → Good P (finalize r now db)
  unfolding finalize mark_managed_stage_settled prune Good
  finalize-Good q r now db failed_child stage_open e safe g =
      let done : Good P
          (update_attempts (λ y. has_route r.route_id y && is_open y) (finalized now) db) =
        row-Good P q (λ y. has_route r.route_id y && is_open y) (finalized now) db r e
          (λ y h. (&&-true _ _ h).0) (λ y. refl) (k.finish failed_child stage_open now r safe) g in
      (filter-Distinct _ _ done.0, All-filter P _ _ done.1)

  finalize_if_safe-Good :
      (q : Attempt → Bool) (r : Attempt) (now : ℕ) (db : Db)
      → find? q db.attempts ≡ some r
      → Good P db
      → Good P (finalize_if_safe r now db).0
  unfolding finalize_if_safe
  finalize_if_safe-Good q r now db e g =
      elim (Bool-cases (
        can_finalize r (verified_failed_child r.route_id db)
          (managed_stage_can_finalize r.route_id db))) [
            | inl done ↦ rw done (finalize-Good q r now db _ _ e done g)
            | inr refused ↦ rw refused g
          ]

  pub finalize_route-Good :
      (route : String) (now : ℕ) (db : Db) → Good P db → Good P (finalize_route route now db).0
  unfolding finalize_route
  finalize_route-Good route now db g = elim (Option-cases (get_attempt route db)) [
    | inl e ↦ rw (e, finalize_route) g
    | inr (r, e) ↦ rw (e, finalize_route) (finalize_if_safe-Good (has_route route) r now db e g)
  ]

  pub outcome-Good :
      (c : Context) (route : String) (status : OutcomeStatus) (now : ℕ) (db : Db)
      → Good P db
      → Good P (mark_delegation_outcome c route status now db).0
  unfolding mark_delegation_outcome
  outcome-Good c route status now db g = finalize_route-Good route now _ (
      update-Good P (route_in_context c route) (with_outcome status now) db (λ y. refl)
        (λ y _. k.outcome status now y) g)

  pub reconcile-Good :
      (c : Context) (route : String) (now : ℕ) (db : Db)
      → Good P db
      → Good P (mark_predispatch_reconciliation c route now db).0
  unfolding mark_predispatch_reconciliation
  reconcile-Good c route now db g =
      update-Good P (is_predispatch c route) (made_ambiguous now) db (λ y. refl)
        (λ y _. k.ambiguous now y) g

  pub quarantine-Good :
      (now : ℕ) (db : Db) → Good P db → Good P (reconcile_legacy_predispatch_outcomes now db).0
  unfolding reconcile_legacy_predispatch_outcomes Good
  quarantine-Good now db g =
      update-Good P is_legacy (quarantined now) db (λ y. refl) (k.quarantine now) g

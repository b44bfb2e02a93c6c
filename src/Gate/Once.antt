-- ===== src/Gate/Once.antt =====
-- A dispatch against the whole history of calls that follows it.
use mathlib.Core.Bool.{false≢true}
use adaptive_model_router.Common.{
  All, All-find?, Bool, List, Option, String, Text, arith, bool_eq, eq_iff, false, find?,
  find?-holds, get_or, nat_eq, not, opt_beq, refl, some, string_eq, subst, sym, text_eq, true, ℕ,
  ◌&&◌, ◌∙◌, ◌≡◌,
}
use adaptive_model_router.Gate.{Attempt, Context, Db, get_attempt, has_route, in_context, is_open}
use adaptive_model_router.Gate.Finalize.{can_finalize, finalize_if_safe, finalize_route}
use adaptive_model_router.Gate.Histories.{run-Good}
use adaptive_model_router.Gate.Identity.{Distinct, str_beq_refl, unique_row, update-Distinct}
use adaptive_model_router.Gate.OneShot.{Accepted, consume-allowed, dispatched}
use adaptive_model_router.Gate.Preserve.{Call, Good, Inserts, run}
use adaptive_model_router.Gate.Sticky.{
  Bound, Bound-Closed, Doubted, Doubted-Closed, Elsewhere, On, dispatched-On, on_row, only-On,
}
use adaptive_model_router.Gate.Ticket.{
  Crypto, Dispatch, ToolInput, consume_delegation_ticket, consumed, holds_ticket, is_consumable,
  same_target_input,
}
use adaptive_model_router.Router.Sample.{again}
use adaptive_model_router.Vocabulary.{
  category_eq, effort_eq, failure_eq, gate_eq, level_eq, signal_eq,
}

third : (a b open_row : Bool) → (a && (b && open_row)) ≡ true → open_row ≡ true
third a b open_row h = ground arith

all_three :
    (a b c d : Bool)
    → a ≡ true
    → b ≡ false
    → c ≡ false
    → d ≡ true
    → (a && (not b && (not c && d))) ≡ true
all_three a b c d ha hb hc hd = ground arith

-- A row that holds an accepted ticket is one that the atomic update changes.
Accepted-is_consumable :
    (c : Context) (hash : String) (rows : List Attempt) (r : Attempt) (turn call : Option String)
    (input : ToolInput) (route : String)
    → find? (holds_ticket c hash) rows ≡ some r
    → Accepted r turn call input route
    → is_consumable r.route_id r ≡ true
Accepted-is_consumable c hash rows r turn call input route e a =
    all_three (has_route r.route_id r) r.ticket_consumed r.ambiguous (is_open r)
      (str_beq_refl r.route_id) a.2 a.1
      (third (in_context c r) (opt_beq r.ticket_hash (some hash)) (is_open r)
        (find?-holds (holds_ticket c hash) rows {x = r} e))

-- The history after an accepted dispatch: the attempt of the route stays bound.
module _ (x : Crypto) where
  history-Bound :
      (c : Context) (task : Option Text) (turn call : Option String) (input : ToolInput) (now : ℕ)
      (db : Db) (route : String) (calls : List Call)
      → Distinct db.attempts
      → All (Inserts (Elsewhere route)) calls
      → (consume_delegation_ticket x c task turn call (some input) now db).1
        ≡ Dispatch.allowed route
      → (r : Attempt) × (same_target_input r input ≡ true)
        × Good
            (On route (Bound route (get_or turn "") (get_or call "") input.digest r.model r.effort))
            (run x calls (consume_delegation_ticket x c task turn call (some input) now db).0)
  unfolding Good
  history-Bound c task turn call input now db route calls d i h =
      let (ticket, r, parsed, e, a, next) =
        consume-allowed x c task turn call input now db route h in
      let hash = x.ticket_digest ticket in
      let ready = Accepted-is_consumable c hash db.attempts r turn call input route e a in
      let bound : Good
          (On route (Bound route (get_or turn "") (get_or call "") input.digest r.model r.effort))
          (dispatched r turn call input now db) =
        (
          update-Distinct (is_consumable r.route_id)
              (consumed (get_or turn "") (get_or call "") input now) (λ y. refl) db.attempts d,
          dispatched-On route db.attempts r (get_or turn "") (get_or call "") input now a.0 ready
              (unique_row (holds_ticket c hash) db.attempts d e),
        ) in
      (
        r,
        a.5,
        run-Good x (Elsewhere route)
            (On route (Bound route (get_or turn "") (get_or call "") input.digest r.model r.effort))
            (Bound-Closed route x (get_or turn "") (get_or call "") input.digest r.model r.effort)
            calls (consume_delegation_ticket x c task turn call (some input) now db).0 i
            (subst
              (Good (
                On route
                  (Bound route (get_or turn "") (get_or call "") input.digest r.model r.effort)))
              (sym next) bound),
      )

  -- When a dispatch is accepted for a route, no later dispatch, of whatever ticket, turn, call and
  -- input, is accepted for that route, after any sequence of calls that does not insert the route
  -- again, in a store whose routes are distinct.
  pub dispatch_once :
      (c : Context) (task : Option Text) (turn call : Option String) (input : ToolInput) (now : ℕ)
      (db : Db) (route : String) (calls : List Call) (c' : Context) (task' : Option Text)
      (turn' call' : Option String) (input' : ToolInput) (now' : ℕ)
      → Distinct db.attempts
      → All (Inserts (Elsewhere route)) calls
      → (consume_delegation_ticket x c task turn call (some input) now db).1
        ≡ Dispatch.allowed route
      → ¬ (
          (consume_delegation_ticket x c' task' turn' call'
            (some input')
            now'
            (run x calls (consume_delegation_ticket x c task turn call (some input) now db).0)).1
          ≡ Dispatch.allowed route)
  unfolding Good
  dispatch_once c task turn call input now db route calls c' task' turn' call' input' now' d i h
        again =
      let (r, target, good) = history-Bound c task turn call input now db route calls d i h in
      let later =
        run x calls (consume_delegation_ticket x c task turn call (some input) now db).0 in
      let (ticket, s, parsed, e, a, next) =
        consume-allowed x c' task' turn' call' input' now' later route again in
      let held =
        All-find?
          (On route (Bound route (get_or turn "") (get_or call "") input.digest r.model r.effort))
          (holds_ticket c' (x.ticket_digest ticket)) later.attempts {x = s} good.1 e in
      false≢true (sym a.2 ∙ (held ((eq_iff s.route_id route).1 a.0)).0)

  -- When a dispatch is accepted for a route and the route's attempt is still stored after any sequence
  -- of calls that does not insert the route again, then that attempt is consumed, by the turn, the tool
  -- call and the input of the accepted dispatch, and the input names the attempt's model and effort.
  pub dispatch_bound :
      (c : Context) (task : Option Text) (turn call : Option String) (input : ToolInput) (now : ℕ)
      (db : Db) (route : String) (calls : List Call) (r : Attempt)
      → Distinct db.attempts
      → All (Inserts (Elsewhere route)) calls
      → (consume_delegation_ticket x c task turn call (some input) now db).1
        ≡ Dispatch.allowed route
      → get_attempt route
          (run x calls (consume_delegation_ticket x c task turn call (some input) now db).0)
        ≡ some r
      → (r.ticket_consumed ≡ true)
        × (r.root_turn_id ≡ some (get_or turn ""))
        × (r.tool_use_id ≡ some (get_or call ""))
        × (r.dispatch_input_digest ≡ some input.digest)
        × (same_target_input r input ≡ true)
  unfolding Good
  dispatch_bound c task turn call input now db route calls r d i h e =
      let (s, target, good) = history-Bound c task turn call input now db route calls d i h in
      let later =
        run x calls (consume_delegation_ticket x c task turn call (some input) now db).0 in
      let held =
        on_row route (Bound route (get_or turn "") (get_or call "") input.digest s.model s.effort)
          later.attempts r good.1 e in
      (held.0, held.1, held.2, held.3, rw (held.4, held.5) target)

  -- A dispatched attempt in doubt that is still stored after any calls, recoveries included, is still
  -- dispatched and in doubt, in a store whose routes were distinct, when no call inserts its route again;
  -- and it is not finalized as an ordinary attempt, which would account its bytes: the finalization
  -- leaves the store as it is.
  pub doubt_kept :
      (route : String) (now : ℕ) (db : Db) (calls : List Call) (r r' : Attempt)
      → Distinct db.attempts
      → All (Inserts (Elsewhere route)) calls
      → get_attempt route db ≡ some r
      → r.ticket_consumed ≡ true
      → r.ambiguous ≡ true
      → get_attempt route (run x calls db) ≡ some r'
      → (r'.ticket_consumed ≡ true)
        × (r'.ambiguous ≡ true)
        × (finalize_route route now (run x calls db) ≡ (run x calls db, false))
  unfolding Good finalize_route finalize_if_safe can_finalize
  doubt_kept route now db calls r r' d i e used doubt e' =
      let good : Good (On route (Doubted route)) db =
        (d, only-On route (Doubted route) db.attempts r d e (used, doubt)) in
      let (used', doubt') =
        on_row route (Doubted route) (run x calls db).attempts r'
          (run-Good x (Elsewhere route) (On route (Doubted route)) (Doubted-Closed route x) calls db
            i good).1
          e' in
      (used', doubt', rw (e', finalize_route, doubt', finalize_if_safe, can_finalize) refl)

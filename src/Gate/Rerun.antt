-- ===== src/Gate/Rerun.antt =====
-- What every single change keeps, every call keeps: the native result, a stop, an insertion, and
-- every sequence of calls.
use adaptive_model_router.Common.{
  Bool, Bool-cases, List, Option, Option-cases, String, Text, [], ap, arith, bool_eq, false, filter,
  find?, find?-holds, if-all, inl, inr, is_some, nat_eq, none, not, opt_beq, refl, some, string_eq,
  sym, text_eq, true, truthy, ℕ, ◌&&◌, ◌==◌, ◌∙◌, ◌∷◌, ◌≡◌,
}
use adaptive_model_router.Gate.{
  Attempt, Context, Db, has_route, in_context, is_open, update_attempts,
}
use adaptive_model_router.Gate.Carrier.{parse_carrier_task_name}
use adaptive_model_router.Gate.Managed.{get_child, observe_managed_stop}
use adaptive_model_router.Gate.Observe.{
  Response, correlate, early_conflicts, is_dispatched, mark_post_ambiguous, matches_column,
  name_conflicts, name_matched, observe_agent_result, observe_row, post_ambiguous, post_observed_as,
  result_key, several, some_item,
}
use adaptive_model_router.Gate.Preserve.{
  Closed, Fine, Good, attempts-Good, finalize_route-Good, fine,
}
use adaptive_model_router.Gate.Replay.{not-false, route-Good}
use adaptive_model_router.Gate.Stop.{
  is_stopping, observe_subagent_stop, only, stop_found, stop_row, stop_untrusted, stopped_early,
  stopped_with,
}
use adaptive_model_router.Gate.Ticket.{Crypto, ToolInput, made_ambiguous, present_text}
use adaptive_model_router.Vocabulary.{effort_eq, failure_eq, gate_eq, level_eq, signal_eq}

fourth : (a b c used d : Bool) → (a && (b && (c && (used && d)))) ≡ true → used ≡ true
fourth a b c used d h = ground arith

dispatched-ticket_consumed :
    (c : Context) (turn call : Option String) (r : Attempt)
    → is_dispatched c turn call r ≡ true
    → r.ticket_consumed ≡ true
dispatched-ticket_consumed c turn call r h =
    fourth (in_context c r) (matches_column r.root_turn_id turn) (matches_column r.tool_use_id call)
      r.ticket_consumed (is_open r) h

-- The only row that a test selects is the first one.
only_first :
    (q : Attempt → Bool) (rows : List Attempt) (r : Attempt)
    → only (filter q rows) ≡ some r
    → find? q rows ≡ some r
only_first q [] r h = cc
only_first q (y ∷ ys) r h = elim (Bool-cases (q y)) [
  | inl e ↦ rw e (only_head y (filter q ys) r (rw e at h))
  | inr e ↦ rw e (only_first q ys r (rw e at h))
]
  where
    only_head :
        (z : Attempt) (zs : List Attempt) (w : Attempt) → only (z ∷ zs) ≡ some w → some z ≡ some w
    only_head z [] w g = g
    only_head z (u ∷ us) w g = cc

module _ (x : Crypto) (I : String → Type 0) (P : Attempt → Type 0) (k : Closed x I P) where
  correlate-Good :
      (q : Attempt → Bool) (r : Attempt) (agents : List String) (no_child : Bool) (now : ℕ)
      (db : Db)
      → find? q db.attempts ≡ some r
      → r.ticket_consumed ≡ true
      → early_conflicts r.early_agent_id (result_key x.agent_key agents r.early_agent_id) ≡ false
      → Good P db
      → Fine P (correlate r (result_key x.agent_key agents r.early_agent_id) no_child now db)
  unfolding correlate
  correlate-Good q r agents no_child now db e used agree g =
      if-all (Fine P) (no_child && is_some (result_key x.agent_key agents r.early_agent_id)) _ _
        (λ _. fine P db _ g)
        (λ free. fine P _ _ (
          finalize_route-Good x I P k r.route_id now
            (update_attempts (has_route r.route_id)
              (post_observed_as (result_key x.agent_key agents r.early_agent_id) no_child now) db)
            (route-Good x I P k
              (post_observed_as (result_key x.agent_key agents r.early_agent_id) no_child now) q db
              r e (λ y. refl) (k.post agents no_child now r used agree free) g)))

  observe_row-Good :
      (q : Attempt → Bool) (r : Attempt) (input : ToolInput) (response : Response) (now : ℕ)
      (db : Db)
      → find? q db.attempts ≡ some r
      → r.ticket_consumed ≡ true
      → Good P db
      → Fine P (observe_row x.agent_key r input response now db)
  unfolding observe_row mark_post_ambiguous
  observe_row-Good q r input response now db e used g =
      if-all (Fine P) (not (opt_beq r.dispatch_input_digest (some input.digest))) _ _
        (λ _.
          fine P _ _
            (route-Good x I P k (made_ambiguous now) q db r e (λ y. refl) (k.ambiguous now r) g))
        (λ _.
          if-all (Fine P) (name_conflicts input.task_name response.task_names) _ _
            (λ _. fine P _ _ doubted)
            (λ _.
              if-all (Fine P) (several response.agent_ids) _ _ (λ _. fine P _ _ doubted)
                (λ _.
                  if-all (Fine P)
                    (not (some_item response.agent_ids)
                      && (not response.no_child
                          && (not (truthy r.early_agent_id)
                              && not (name_matched input.task_name response.task_names))))
                    _ _ (λ _. fine P _ _ doubted)
                    (λ _.
                      if-all (Fine P)
                        (early_conflicts r.early_agent_id
                          (result_key x.agent_key response.agent_ids r.early_agent_id))
                        _ _ (λ _. fine P _ _ doubted)
                        (λ agree.
                          correlate-Good q r response.agent_ids response.no_child now db e used
                            agree g)))))
    where
      doubted : Good P (update_attempts (has_route r.route_id) (post_ambiguous now) db)
      doubted =
          route-Good x I P k (post_ambiguous now) q db r e (λ y. refl) (k.post_failed now r used) g

  pub observe-Good :
      (c : Context) (turn call : Option String) (input : ToolInput) (response : Response) (now : ℕ)
      (db : Db)
      → Good P db
      → Fine P (observe_agent_result x c turn call input response now db)
  unfolding observe_agent_result
  observe-Good c turn call input response now db g =
      elim (Option-cases (find? (is_dispatched c turn call) db.attempts)) [
        | inl e ↦ rw (observe_agent_result, e) (fine P db _ g)
        | inr (r, e) ↦
            rw (observe_agent_result, e)
              (observe_row-Good (is_dispatched c turn call) r input response now db e
                (dispatched-ticket_consumed c turn call r
                  (find?-holds (is_dispatched c turn call) db.attempts {x = r} e))
                g)
      ]

  stop_row-Good :
      (q : Attempt → Bool) (r : Attempt) (bytes : Option ℕ) (now : ℕ) (db : Db)
      → find? q db.attempts ≡ some r
      → Good P db
      → Fine P (stop_row r bytes now db)
  unfolding stop_row
  stop_row-Good q r none now db e g =
      fine P _ _
        (route-Good x I P k (stop_untrusted now) q db r e (λ y. refl) (k.stop_failed now r) g)
  stop_row-Good q r (some bytes) now db e g =
      if-all (Fine P) (not r.post_observed) _ _
        (λ _. fine P _ _ (
          route-Good x I P k (stopped_early bytes now) q db r e (λ y. refl)
            (k.stop_early bytes now r) g))
        (λ seen. fine P _ _ (
          finalize_route-Good x I P k r.route_id now
            (update_attempts (has_route r.route_id) (stopped_with bytes now) db)
            (route-Good x I P k (stopped_with bytes now) q db r e (λ y. refl)
              (k.stop bytes now r (not-false r.post_observed seen)) g)))

  -- A managed child's stop leaves the attempts alone.
  observe_managed_stop-attempts :
      (route : String) (turn digest : Option String) (db : Db)
      → (observe_managed_stop route turn digest db).0.attempts ≡ db.attempts
  unfolding observe_managed_stop
  observe_managed_stop-attempts route none digest db = refl
  observe_managed_stop-attempts route (some turn) none db = refl
  observe_managed_stop-attempts route (some turn) (some digest) db =
      if-all (λ (z : Db × Bool). z.0.attempts ≡ db.attempts) (is_some (get_child route db)) _ _
        (λ _.
          if-all (λ (z : Db × Bool). z.0.attempts ≡ db.attempts) (turn == "") _ _ (λ _. refl)
            (λ _. refl))
        (λ _. refl)

  stop_found-Good :
      (q : Attempt → Bool) (r : Attempt) (bytes : Option ℕ) (turn digest : Option String) (now : ℕ)
      (db : Db)
      → find? q db.attempts ≡ some r
      → Good P db
      → Fine P (stop_found x r bytes turn digest now db)
  unfolding stop_found
  stop_found-Good q r bytes turn digest now db e g =
      if-all (Fine P) (observe_managed_stop r.route_id turn digest db).1 _ _ (λ _. fine P _ _ kept)
        (λ _.
          stop_row-Good q r bytes now (observe_managed_stop r.route_id turn digest db).0
            (ap (find? q) same ∙ e) kept)
    where
      same : (observe_managed_stop r.route_id turn digest db).0.attempts ≡ db.attempts
      same = observe_managed_stop-attempts r.route_id turn digest db

      kept : Good P (observe_managed_stop r.route_id turn digest db).0
      kept = attempts-Good P db _ (sym same) g

  pub stop-Good :
      (c : Context) (task : Option Text) (agent : Option String) (bytes : Option ℕ)
      (turn digest : Option String) (now : ℕ) (db : Db)
      → Good P db
      → Fine P (observe_subagent_stop x c task agent bytes turn digest now db)
  unfolding observe_subagent_stop
  stop-Good c task none bytes turn digest now db g = fine P db _ g
  stop-Good c task (some agent) bytes turn digest now db g =
      elim (Option-cases (parse_carrier_task_name task)) [
        | inl e ↦ rw (e, observe_subagent_stop) (fine P db _ g)
        | inr (ticket, e) ↦
            elim (Option-cases (
              only (
                filter (is_stopping c (x.ticket_digest ticket) (x.agent_key agent)) db.attempts))) [
                  | inl f ↦
                      rw (e, observe_subagent_stop, f)
                        (if-all (Fine P) (not (present_text (some agent))) _ _ (λ _. fine P db _ g)
                          (λ _. fine P db _ g))
                  | inr (r, f) ↦
                      rw (e, observe_subagent_stop, f)
                        (if-all (Fine P) (not (present_text (some agent))) _ _ (λ _. fine P db _ g)
                          (λ _.
                            stop_found-Good
                              (is_stopping c (x.ticket_digest ticket) (x.agent_key agent)) r bytes
                              turn digest now db (only_first _ db.attempts r f) g))
                ]
      ]

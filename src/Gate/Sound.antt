-- ===== src/Gate/Sound.antt =====
-- The invariant of an attempt: the CHECKs of the table, the columns that a dispatch fills, and what a
-- final row no longer holds.
use mathlib.Core.Bool.{false≢true}
use adaptive_model_router.Common.{
  All, Bool, List, Option, String, [], arith, false, is_some, none, not, refl, some, sym, true,
  ◌&&◌, ◌||◌, ◌∙◌, ◌∷◌, ◌≡◌,
}
use adaptive_model_router.Gate.{Attempt, Db, is_open}
use adaptive_model_router.Gate.Admission.{new_attempt}
use adaptive_model_router.Gate.Finalize.{can_finalize}
use adaptive_model_router.Gate.Histories.{run-Good}
use adaptive_model_router.Gate.Identity.{Distinct}
use adaptive_model_router.Gate.Observe.{result_key}
use adaptive_model_router.Gate.Preserve.{Call, Closed, Good, Inserts, run}
use adaptive_model_router.Gate.Ticket.{Crypto, differs}

pub record IsSound (r : Attempt) : Type 0 where
  pub no_child_observed : r.no_child ≡ true → (r.post_observed ≡ true) × (r.agent_id ≡ none)
  pub agent_dispatched : is_some r.agent_id ≡ true → r.ticket_consumed ≡ true
  pub result_dispatched : r.post_observed ≡ true → r.ticket_consumed ≡ true
  pub dispatch_recorded :
      (is_some r.root_turn_id ≡ r.ticket_consumed)
      × (is_some r.tool_use_id ≡ r.ticket_consumed)
      × (is_some r.dispatch_input_digest ≡ r.ticket_consumed)
  pub outcome_stated : is_some r.outcome_status ≡ r.outcome_recorded
  pub final_cleared :
      is_open r ≡ false
      → (r.ticket_hash ≡ none)
        × (r.context_package ≡ none)
        × ((r.outcome_recorded || r.ambiguous) ≡ true)

-- The children's claims: a claim conflicts when the result said that there is no child.
no_child_free : (a n b c : Bool) → (((a || n) || b) || c) ≡ false → n ≡ false
no_child_free a n b c h = ground arith

some_key : (n : Bool) (key : Option String) → (n && is_some key) ≡ false → n ≡ true → key ≡ none
some_key n none h e = refl
some_key n (some k) h e = ground arith

second : (a b c : Bool) → (a && (b && c)) ≡ true → b ≡ true
second a b c h = ground arith

or_true : (a b : Bool) → a ≡ true → (a || b) ≡ true
or_true a b h = ground arith

true_or : (a b : Bool) → b ≡ true → (a || b) ≡ true
true_or a b h = ground arith

IsSound-Closed : (x : Crypto) → Closed x (λ _. Unit) IsSound
unfolding new_attempt can_finalize
IsSound-Closed x = record {
  insert = λ c route h m e s b now i. record {
    no_child_observed = λ e. absurd (false≢true e);
    agent_dispatched = λ e. e;
    result_dispatched = λ e. e;
    dispatch_recorded = (refl, refl, refl);
    outcome_stated = refl;
    final_cleared = λ e. absurd (false≢true (sym e));
  };
  ambiguous = λ now r p. record {
    no_child_observed = p.no_child_observed;
    agent_dispatched = p.agent_dispatched;
    result_dispatched = p.result_dispatched;
    dispatch_recorded = p.dispatch_recorded;
    outcome_stated = p.outcome_stated;
    final_cleared =
        λ e. ((p.final_cleared e).0, (p.final_cleared e).1, true_or r.outcome_recorded true refl);
  };
  consume = λ t u input now r fresh clear live p. record {
    no_child_observed = p.no_child_observed;
    agent_dispatched = λ _. refl;
    result_dispatched = λ _. refl;
    dispatch_recorded = (refl, refl, refl);
    outcome_stated = p.outcome_stated;
    final_cleared = λ e. p.final_cleared e;
  };
  early = λ agent now r fresh p. record {
    no_child_observed = p.no_child_observed;
    agent_dispatched = p.agent_dispatched;
    result_dispatched = p.result_dispatched;
    dispatch_recorded = p.dispatch_recorded;
    outcome_stated = p.outcome_stated;
    final_cleared =
        λ e. ((p.final_cleared e).0, (p.final_cleared e).1, true_or r.outcome_recorded true refl);
  };
  claim = λ agent m now r used free p. record {
    no_child_observed = λ e. absurd (
        false≢true (
          sym (
            no_child_free (differs m r.model) r.no_child
              (differs r.early_agent_id (x.agent_key agent))
              (differs r.agent_id (x.agent_key agent)) free)
          ∙ e));
    agent_dispatched = λ _. used;
    result_dispatched = p.result_dispatched;
    dispatch_recorded = p.dispatch_recorded;
    outcome_stated = p.outcome_stated;
    final_cleared = λ e. p.final_cleared e;
  };
  post_failed = λ now r used p. record {
    no_child_observed = λ e. (refl, (p.no_child_observed e).1);
    agent_dispatched = p.agent_dispatched;
    result_dispatched = λ _. used;
    dispatch_recorded = p.dispatch_recorded;
    outcome_stated = p.outcome_stated;
    final_cleared =
        λ e. ((p.final_cleared e).0, (p.final_cleared e).1, true_or r.outcome_recorded true refl);
  };
  post = λ agents none_made now r used agree free p. record {
    no_child_observed =
        λ e. (refl, some_key none_made (result_key x.agent_key agents r.early_agent_id) free e);
    agent_dispatched = λ _. used;
    result_dispatched = λ _. used;
    dispatch_recorded = p.dispatch_recorded;
    outcome_stated = p.outcome_stated;
    final_cleared = λ e. p.final_cleared e;
  };
  stop_failed = λ now r p. record {
    no_child_observed = p.no_child_observed;
    agent_dispatched = p.agent_dispatched;
    result_dispatched = p.result_dispatched;
    dispatch_recorded = p.dispatch_recorded;
    outcome_stated = p.outcome_stated;
    final_cleared =
        λ e. ((p.final_cleared e).0, (p.final_cleared e).1, true_or r.outcome_recorded true refl);
  };
  stop_early = λ b now r p. record {
    no_child_observed = p.no_child_observed;
    agent_dispatched = p.agent_dispatched;
    result_dispatched = p.result_dispatched;
    dispatch_recorded = p.dispatch_recorded;
    outcome_stated = p.outcome_stated;
    final_cleared = λ e. p.final_cleared e;
  };
  stop = λ b now r seen p. record {
    no_child_observed = p.no_child_observed;
    agent_dispatched = p.agent_dispatched;
    result_dispatched = p.result_dispatched;
    dispatch_recorded = p.dispatch_recorded;
    outcome_stated = p.outcome_stated;
    final_cleared = λ e. p.final_cleared e;
  };
  outcome = λ status now r p. record {
    no_child_observed = p.no_child_observed;
    agent_dispatched = p.agent_dispatched;
    result_dispatched = p.result_dispatched;
    dispatch_recorded = p.dispatch_recorded;
    outcome_stated = refl;
    final_cleared = λ e. ((p.final_cleared e).0, (p.final_cleared e).1, refl);
  };
  finish = λ failed stage now r safe p. record {
    no_child_observed = p.no_child_observed;
    agent_dispatched = p.agent_dispatched;
    result_dispatched = p.result_dispatched;
    dispatch_recorded = p.dispatch_recorded;
    outcome_stated = p.outcome_stated;
    final_cleared = λ e. (
      refl,
      refl,
      or_true r.outcome_recorded r.ambiguous (second (not r.ambiguous) r.outcome_recorded _ safe),
    );
  };
  quarantine = λ now r legacy p. record {
    no_child_observed = p.no_child_observed;
    agent_dispatched = p.agent_dispatched;
    result_dispatched = p.result_dispatched;
    dispatch_recorded = p.dispatch_recorded;
    outcome_stated = p.outcome_stated;
    final_cleared = λ e. (refl, refl, true_or r.outcome_recorded true refl);
  };
  message = λ now r p. record {
    no_child_observed = p.no_child_observed;
    agent_dispatched = p.agent_dispatched;
    result_dispatched = p.result_dispatched;
    dispatch_recorded = p.dispatch_recorded;
    outcome_stated = p.outcome_stated;
    final_cleared = λ e. p.final_cleared e;
  };
  close_failed = λ bytes now r p. record {
    no_child_observed = p.no_child_observed;
    agent_dispatched = p.agent_dispatched;
    result_dispatched = p.result_dispatched;
    dispatch_recorded = p.dispatch_recorded;
    outcome_stated = p.outcome_stated;
    final_cleared = λ e. p.final_cleared e;
  };
  close = λ bytes now r p. record {
    no_child_observed = p.no_child_observed;
    agent_dispatched = p.agent_dispatched;
    result_dispatched = p.result_dispatched;
    dispatch_recorded = p.dispatch_recorded;
    outcome_stated = p.outcome_stated;
    final_cleared = λ e. p.final_cleared e;
  };
  recover = λ now r live p. record {
    no_child_observed = p.no_child_observed;
    agent_dispatched = p.agent_dispatched;
    result_dispatched = p.result_dispatched;
    dispatch_recorded = p.dispatch_recorded;
    outcome_stated = p.outcome_stated;
    final_cleared = λ e. (refl, refl, true_or r.outcome_recorded true refl);
  };
}

any_insertion : (call : Call) → Inserts (λ _. Unit) call
unfolding Inserts
any_insertion (Call.inserts c route hash model effort sealed bytes now) = tt
any_insertion (Call.consumes c task turn call input now) = tt
any_insertion (Call.claims c task agent model now) = tt
any_insertion (Call.observes c turn call input response now) = tt
any_insertion (Call.stops c task agent bytes turn digest now) = tt
any_insertion (Call.records c route status now) = tt
any_insertion (Call.reconciles c route now) = tt
any_insertion (Call.quarantines now) = tt
any_insertion (Call.messages route now) = tt
any_insertion (Call.closes failed route bytes now) = tt
any_insertion (Call.recovers c route bytes now) = tt
any_insertion (Call.interrupts route now) = tt
any_insertion (Call.clears project) = tt
any_insertion (Call.rewrites children child_stops usage coverage snapshots) = tt

any_insertions : (calls : List Call) → All (Inserts (λ _. Unit)) calls
any_insertions [] = tt
any_insertions (call ∷ calls) = (any_insertion call, any_insertions calls)

-- When the routes of a store are distinct and every attempt is sound, then both hold after any
-- sequence of calls: an attempt without a child has its result observed and no agent; an agent or a
-- result implies a consumed ticket; the turn, the tool call and the input are recorded just when the
-- ticket is consumed; an outcome is recorded just when it has a status; a final attempt has neither ticket nor context package, and has an outcome or is
-- in doubt.
pub run-IsSound :
    (x : Crypto) (calls : List Call) (db : Db)
    → Distinct db.attempts
    → All IsSound db.attempts
    → Distinct (run x calls db).attempts × All IsSound (run x calls db).attempts
unfolding Good
run-IsSound x calls db d a =
    run-Good x (λ _. Unit) IsSound (IsSound-Closed x) calls db (any_insertions calls) (d, a)

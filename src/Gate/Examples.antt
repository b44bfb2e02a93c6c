-- ===== src/Gate/Examples.antt =====
-- A run of the gate on a concrete store, and the theorems at it.
use mathlib.Core.Bool.{false≢true}
use adaptive_model_router.Common.{
  All, List, Text, [], ap, arith, false, is_some, none, refl, some, suc, sym, true, zero, ℕ, ◌++◌,
  ◌∷◌, ◌≡◌,
}
use adaptive_model_router.Gate.{Attempt, Context, Db, OutcomeStatus, get_attempt, is_open, update}
use adaptive_model_router.Gate.Accounting.{finalize_route-total, finalized_once}
use adaptive_model_router.Gate.Admission.{total_bytes}
use adaptive_model_router.Gate.Carrier.{
  create_task_name, parse_carrier-create, parse_carrier_task_name, task_name_prefix, to_hex,
}
use adaptive_model_router.Gate.Finalize.{
  finalize_route, mark_delegation_outcome, reconcile_legacy_predispatch_outcomes,
}
use adaptive_model_router.Gate.Identity.{Distinct}
use adaptive_model_router.Gate.Observe.{Response, observe_agent_result}
use adaptive_model_router.Gate.Once.{dispatch_bound, dispatch_once, doubt_kept}
use adaptive_model_router.Gate.Preserve.{Call, Inserts, run}
use adaptive_model_router.Gate.Recovery.{finish_recovery}
use adaptive_model_router.Gate.Sound.{IsSound, run-IsSound}
use adaptive_model_router.Gate.Stop.{observe_subagent_stop}
use adaptive_model_router.Gate.Ticket.{
  Crypto, Dispatch, ToolInput, claim_delegation_subagent, consume_delegation_ticket,
  same_target_input,
}

abbrev plain : Crypto
plain = record { ticket_digest = λ t. "hash"; agent_key = λ a. a; open_state = λ s. some s }

abbrev here : Context
here = record { project_id = "project"; context_key = "task" }

abbrev random_bytes : List ℕ
random_bytes =
    0 ∷ 17 ∷ 34 ∷ 51 ∷ 68 ∷ 85 ∷ 102 ∷ 119 ∷ 136 ∷ 153 ∷ 170 ∷ 187 ∷ 204 ∷ 221 ∷ 238 ∷ 255 ∷ []

parse_carrier-create_example :
    parse_carrier_task_name (some (create_task_name random_bytes)) ≡ some (to_hex random_bytes)
parse_carrier-create_example = parse_carrier-create random_bytes (ground arith) refl

abbrev zeros : ℕ → Text
zeros zero = []
zeros (suc n) = b'0' ∷ zeros n

-- "router_" and 32 zeros.
abbrev task_name : Text
task_name = task_name_prefix ++ zeros 32

abbrev fresh : Attempt
fresh = record {
  route_id = "route";
  project_id = "project";
  context_key = "task";
  ticket_hash = some "hash";
  model = "gpt-6-sol";
  effort = "high";
  context_package = some "sealed";
  context_package_bytes = 6;
  ticket_consumed = false;
  root_turn_id = none;
  tool_use_id = none;
  dispatch_input_digest = none;
  post_observed = false;
  agent_id = none;
  no_child = false;
  stop_observed = false;
  transcript_bytes = none;
  early_agent_id = none;
  early_transcript_bytes = none;
  outcome_recorded = false;
  outcome_status = none;
  ambiguous = false;
  created_at = 1;
  updated_at = 1;
  finalized_at = none;
}

abbrev empty : Db
empty = record {
  attempts = [];
  children = [];
  stops = [];
  usage = [];
  coverage = [];
  snapshots = [];
}

abbrev stored : Db
stored = record empty { attempts = fresh ∷ [] }

abbrev native_call : ToolInput
native_call = record {
  task_name = some task_name;
  model = some "gpt-6-sol";
  reasoning_effort = some "high";
  message = some "work";
  fork_turns = some "none";
  digest = "input";
}

accepts :
    (consume_delegation_ticket plain here
      (some task_name)
      (some "turn")
      (some "call")
      (some native_call)
      2
      stored).1
    ≡ Dispatch.allowed "route"
unfolding consume_delegation_ticket parse_carrier_task_name
accepts = refl

-- The dispatch, its start, its result and its stop.
abbrev response : Response
response = record { agent_ids = "agent" ∷ []; task_names = task_name ∷ []; no_child = false }

abbrev calls : List Call
calls =
    Call.claims here (some task_name) (some "agent") (some "gpt-6-sol") 3
    ∷ Call.observes here (some "turn") (some "call") native_call response 4
    ∷ Call.stops here (some task_name) (some "agent") (some 900) none none 5
    ∷ []

dispatch_once_example : ¬ (
    (consume_delegation_ticket plain here
      (some task_name)
      (some "turn")
      (some "again")
      (some native_call)
      6
      (run plain calls
        (consume_delegation_ticket plain here
          (some task_name)
          (some "turn")
          (some "call")
          (some native_call)
          2
          stored).0)).1
    ≡ Dispatch.allowed "route")
unfolding Inserts
dispatch_once_example =
    dispatch_once plain here (some task_name) (some "turn") (some "call") native_call 2 stored
      "route" calls here (some task_name) (some "turn") (some "again") native_call 6 (tt, tt)
      (tt, (tt, (tt, tt))) accepts

-- The attempt that those calls leave.
abbrev bound : Attempt
bound = record fresh {
  ticket_consumed = true;
  root_turn_id = some "turn";
  tool_use_id = some "call";
  dispatch_input_digest = some "input";
  post_observed = true;
  agent_id = some "agent";
  early_agent_id = some "agent";
  stop_observed = true;
  transcript_bytes = some 900;
  updated_at = 5;
}

bound_left :
    run plain calls
      (consume_delegation_ticket plain here
        (some task_name)
        (some "turn")
        (some "call")
        (some native_call)
        2
        stored).0
    ≡ record stored { attempts = bound ∷ [] }
unfolding run consume_delegation_ticket parse_carrier_task_name update observe_subagent_stop
    observe_agent_result claim_delegation_subagent
bound_left = refl

dispatch_bound_example :
    (bound.ticket_consumed ≡ true)
    × (bound.root_turn_id ≡ some "turn")
    × (bound.tool_use_id ≡ some "call")
    × (bound.dispatch_input_digest ≡ some "input")
    × (same_target_input bound native_call ≡ true)
unfolding Inserts
dispatch_bound_example =
    dispatch_bound plain here (some task_name) (some "turn") (some "call") native_call 2 stored
      "route" calls bound (tt, tt) (tt, (tt, (tt, tt))) accepts
      (ap (get_attempt "route") bound_left)

-- A result without an identity: the attempt is in doubt.
abbrev lost_response : Response
lost_response = record { agent_ids = []; task_names = []; no_child = false }

abbrev in_doubt : Attempt
in_doubt = record fresh {
  ticket_consumed = true;
  root_turn_id = some "turn";
  tool_use_id = some "call";
  dispatch_input_digest = some "input";
  post_observed = true;
  ambiguous = true;
  updated_at = 4;
}

doubt_left :
    run plain
      (Call.observes here (some "turn") (some "call") native_call lost_response 4 ∷ [])
      (consume_delegation_ticket plain here
        (some task_name)
        (some "turn")
        (some "call")
        (some native_call)
        2
        stored).0
    ≡ record stored { attempts = in_doubt ∷ [] }
unfolding run consume_delegation_ticket parse_carrier_task_name update observe_agent_result
doubt_left = refl

abbrev outcome_calls : List Call
outcome_calls =
    Call.records here "route" OutcomeStatus.passed 5
    ∷ Call.quarantines 6
    ∷ Call.recovers here "other" 40 6
    ∷ []

abbrev doubt_recorded : Attempt
doubt_recorded = record in_doubt {
  outcome_recorded = true;
  outcome_status = some OutcomeStatus.passed;
  updated_at = 5;
}

doubt_stays :
    get_attempt "route" (run plain outcome_calls (record stored { attempts = in_doubt ∷ [] }))
    ≡ some doubt_recorded
unfolding run mark_delegation_outcome reconcile_legacy_predispatch_outcomes update finish_recovery
doubt_stays = refl

doubt_kept_example :
    (doubt_recorded.ticket_consumed ≡ true)
    × (doubt_recorded.ambiguous ≡ true)
    × (finalize_route "route" 7
          (run plain outcome_calls (record stored { attempts = in_doubt ∷ [] }))
        ≡ (run plain outcome_calls (record stored { attempts = in_doubt ∷ [] }), false))
unfolding Inserts
doubt_kept_example =
    doubt_kept plain "route" 7 (record stored { attempts = in_doubt ∷ [] }) outcome_calls in_doubt
      doubt_recorded (tt, tt) (tt, (tt, (tt, tt))) refl refl refl doubt_stays

fresh-IsSound : IsSound fresh
fresh-IsSound = record {
  no_child_observed = λ e. absurd (false≢true e);
  agent_dispatched = λ e. e;
  result_dispatched = λ e. e;
  dispatch_recorded = (refl, refl, refl);
  final_cleared = λ e. absurd (false≢true (sym e));
  outcome_stated = refl;
}

run-IsSound_example :
    Distinct (run plain calls stored).attempts × All IsSound (run plain calls stored).attempts
run-IsSound_example = run-IsSound plain calls stored (tt, tt) (fresh-IsSound, tt)

-- With its outcome the stopped attempt is final, and its 900 bytes are accounted.
abbrev complete : Attempt
complete = record bound { outcome_recorded = true; outcome_status = some OutcomeStatus.passed }

abbrev ending : Db
ending = record stored {
  attempts = complete ∷ [];
  usage =
      record {
        project_id = "project";
        context_key = "task";
        total_transcript_bytes = 100;
        untrusted = false;
      }
      ∷ [];
}

ends : (finalize_route "route" 7 ending).1 ≡ true
unfolding finalize_route
ends = refl

finalize_route-total_example :
    (complete.ambiguous ≡ false)
    × (complete.outcome_recorded ≡ true)
    × (is_open complete ≡ true)
    × (complete.post_observed ≡ true)
    × (is_some complete.transcript_bytes ≡ true)
    × (total_bytes (finalize_route "route" 7 ending).0.usage ≡ 1000)
finalize_route-total_example = finalize_route-total "route" 7 ending complete (tt, tt) refl ends

finalized_once_example :
    finalize_route "route" 9 (run plain outcome_calls (finalize_route "route" 7 ending).0)
    ≡ (run plain outcome_calls (finalize_route "route" 7 ending).0, false)
unfolding Inserts
finalized_once_example =
    finalized_once plain "route" 7 9 ending outcome_calls (tt, tt) (tt, (tt, (tt, tt))) ends

-- ===== src/Gate/Ticket.antt =====
-- `consumeDelegationTicket`, `markPredispatchReconciliation`, `claimDelegationSubagent` and
-- `inspectManagedSubagent` of scripts/lib/delegation-gate.mjs.
use Prim.Native.Char.{code}
use adaptive_model_router.Common.{
  Bool, Option, String, Text, [], all, bool_eq, false, find?, get_or, if◌then◌else◌, leb, nat_eq,
  none, not, opt_beq, or_else, some, string_eq, text_eq, true, truthy, ℕ, ◌&&◌, ◌==◌, ◌||◌, ◌∷◌,
}
use adaptive_model_router.Gate.{
  Attempt, Context, Db, changes, has_route, in_context, is_open, update_attempts,
}
use adaptive_model_router.Gate.Carrier.{parse_carrier_task_name}
use adaptive_model_router.Gate.Finalize.{route_in_context}
use adaptive_model_router.Vocabulary.{effort_eq, failure_eq, gate_eq, level_eq, signal_eq}

-- What the gate takes from node:crypto and from Unicode normalisation: the hash of a ticket, the hash
-- of a normalised agent identity, and the decryption of a sealed text, which may fail.
pub record Crypto : Type 0 where
  pub ticket_digest : Text → String
  pub agent_key : String → String
  pub open_state : String → Option String

-- The input of a native Agent call, with `payloadHash` of the whole object.
pub record ToolInput : Type 0 where
  pub task_name : Option Text
  pub model : Option String
  pub reasoning_effort : Option String
  pub message : Option String
  pub fork_turns : Option String
  pub digest : String

abbrev pub codes : String → Text
codes String.[] = []
codes (String.◌∷◌ c s) = code c ∷ codes s

-- White space and line ends, as `trim` takes them away.
abbrev is_space : ℕ → Bool
is_space c =
    (leb 9 c && leb c 13)
    || c == 32
    || c == 160
    || c == 0x1680
    || (leb 0x2000 c && leb c 0x200a)
    || c == 0x2028
    || c == 0x2029
    || c == 0x202f
    || c == 0x205f
    || c == 0x3000
    || c == 0xfeff

-- `typeof value === "string" && value.trim()`.
unfoldable pub present_text : Option String → Bool
present_text none = false
present_text (some s) = not (all is_space (codes s))

pub data DenyCause : Type 0 where
  malformed_name inactive_ticket needs_reconciliation already_consumed : DenyCause
  missing_correlation target_mismatch missing_message forked_turns not_atomic : DenyCause

pub data Dispatch : Type 0 where
  allowed : String → Dispatch
  denied : DenyCause → Dispatch

-- An open, unconsumed attempt of the route.
abbrev pub is_predispatch : Context → String → Attempt → Bool
is_predispatch c route r = route_in_context c route r && (not r.ticket_consumed && is_open r)

abbrev pub made_ambiguous : ℕ → Attempt → Attempt
made_ambiguous now r = record r { ambiguous = true; updated_at = now }

unfoldable pub mark_predispatch_reconciliation : Context → String → ℕ → Db → Db × Bool
mark_predispatch_reconciliation c route now db = (
  update_attempts (is_predispatch c route) (made_ambiguous now) db,
  changes (is_predispatch c route) db.attempts == 1,
)

-- `WHERE project_id = ? AND context_key = ? AND ticket_hash = ? AND finalized_at IS NULL`.
abbrev pub holds_ticket : Context → String → Attempt → Bool
holds_ticket c hash r = in_context c r && (opt_beq r.ticket_hash (some hash) && is_open r)

abbrev pub is_consumable : String → Attempt → Bool
is_consumable route r =
    has_route route r && (not r.ticket_consumed && (not r.ambiguous && is_open r))

abbrev pub consumed : String → String → ToolInput → ℕ → Attempt → Attempt
consumed turn call input now r = record r {
  ticket_consumed = true;
  root_turn_id = some turn;
  tool_use_id = some call;
  dispatch_input_digest = some input.digest;
  updated_at = now;
}

abbrev pub same_target_input : Attempt → ToolInput → Bool
same_target_input r input =
    opt_beq input.model (some r.model) && opt_beq input.reasoning_effort (some r.effort)

-- The tests on the row that the ticket selects, and the atomic update.
unfoldable pub dispatch_row :
    Context → Attempt → Option String → Option String → ToolInput → ℕ → Db → Db × Dispatch
unfolding mark_predispatch_reconciliation
dispatch_row c r turn call input now db =
    if r.ambiguous
    then (db, Dispatch.denied DenyCause.needs_reconciliation)
    else if r.ticket_consumed
    then (db, Dispatch.denied DenyCause.already_consumed)
    else if not (truthy turn) || not (truthy call)
    then (db, Dispatch.denied DenyCause.missing_correlation)
    else if not (same_target_input r input)
    then (
      (mark_predispatch_reconciliation c r.route_id now db).0,
      Dispatch.denied DenyCause.target_mismatch,
    )
    else if not (truthy input.message)
    then (db, Dispatch.denied DenyCause.missing_message)
    else if not (opt_beq input.fork_turns (some "none"))
    then (db, Dispatch.denied DenyCause.forked_turns)
    else if changes (is_consumable r.route_id) db.attempts == 1
    then (
      update_attempts (is_consumable r.route_id)
          (consumed (get_or turn "") (get_or call "") input now) db,
      Dispatch.allowed r.route_id,
    )
    else (
      update_attempts (is_consumable r.route_id)
          (consumed (get_or turn "") (get_or call "") input now) db,
      Dispatch.denied DenyCause.not_atomic,
    )

-- `toolInput?.task_name !== parsed.taskName`, where there is an input.
abbrev pub names_task : Option Text → Option ToolInput → Bool
names_task task none = false
names_task task (some input) = opt_beq input.task_name task

pub data Claim : Type 0 where
  unmatched : Claim
  unconsumed : Claim
  conflicting : Claim
  claimed : String → String → Claim

-- `early_agent_id = COALESCE(early_agent_id, ?), ambiguous = 1`.
abbrev pub early_ambiguous : String → ℕ → Attempt → Attempt
early_ambiguous key now r = record r {
  early_agent_id = or_else r.early_agent_id (some key);
  ambiguous = true;
  updated_at = now;
}

abbrev pub claimed_by : String → ℕ → Attempt → Attempt
claimed_by key now r = record r {
  early_agent_id = or_else r.early_agent_id (some key);
  agent_id = if r.post_observed then or_else r.agent_id (some key) else r.agent_id;
  updated_at = now;
}

-- `value && value !== key`.
abbrev pub differs : Option String → String → Bool
differs none key = false
differs (some s) key = not (s == "") && not (s == key)

abbrev pub conflicts : Attempt → Option String → String → Bool
conflicts r model key =
    differs model r.model || r.no_child || differs r.early_agent_id key || differs r.agent_id key

-- `openContextPackage(db, row.context_package)`, where NULL opens to nothing either.
unfoldable pub open_package : Crypto → Option String → Option String
open_package x none = none
open_package x (some sealed) = x.open_state sealed

module _ (x : Crypto) where
  unfoldable pub consume_delegation_ticket :
      Context
      → Option Text
      → Option String
      → Option String
      → Option ToolInput
      → ℕ
      → Db
      → Db × Dispatch
  unfolding dispatch_row
  consume_delegation_ticket c task turn call none now db =
      (db, Dispatch.denied DenyCause.malformed_name)
  consume_delegation_ticket c task turn call (some input) now db =
      elim (parse_carrier_task_name task) [
        | none ↦ (db, Dispatch.denied DenyCause.malformed_name)
        | some ticket ↦
            if not (opt_beq input.task_name task)
            then (db, Dispatch.denied DenyCause.malformed_name)
            else elim (find? (holds_ticket c (x.ticket_digest ticket)) db.attempts) [
              | none ↦ (db, Dispatch.denied DenyCause.inactive_ticket)
              | some r ↦ dispatch_row c r turn call input now db
            ]
      ]

  unfoldable pub claim_row : Attempt → String → Option String → ℕ → Db → Db × Claim
  claim_row r key model now db =
      if not r.ticket_consumed
      then (
        update_attempts (λ y. has_route r.route_id y && (not y.ticket_consumed && is_open y))
            (early_ambiguous key now) db,
        Claim.unconsumed,
      )
      else if conflicts r model key
      then (update_attempts (has_route r.route_id) (made_ambiguous now) db, Claim.conflicting)
      else elim (open_package x r.context_package) [
        | none ↦ (update_attempts (has_route r.route_id) (made_ambiguous now) db, Claim.conflicting)
        | some opened ↦ (
          update_attempts (has_route r.route_id) (claimed_by key now) db,
          Claim.claimed r.route_id opened,
        )
      ]

  -- `agentId` is the identity that the host reports; a blank one matches nothing.
  unfoldable pub claim_delegation_subagent :
      Context → Option Text → Option String → Option String → ℕ → Db → Db × Claim
  unfolding claim_row present_text open_package
  claim_delegation_subagent c task none model now db = (db, Claim.unmatched)
  claim_delegation_subagent c task (some agent) model now db = elim (parse_carrier_task_name task) [
    | none ↦ (db, Claim.unmatched)
    | some ticket ↦
        if not (present_text (some agent))
        then (db, Claim.unmatched)
        else elim (find? (holds_ticket c (x.ticket_digest ticket)) db.attempts) [
          | none ↦ (db, Claim.unmatched)
          | some r ↦ claim_row r (x.agent_key agent) model now db
        ]
  ]

-- ===== src/Gate/Admission.antt =====
-- Admission of a delegation in scripts/lib/delegation-gate.mjs: `unresolvedAttempt`,
-- `inspectRouterChildBudget`, `inspectFreeDisk`, `insertDelegationAttempt` and `inspectManagedSubagent`.
-- Integers that the source tests with `Number.isSafeInteger` are natural numbers here, and a value
-- that is no exact non-negative integer is `none`.
use Prim.Native.String.{len}
use adaptive_model_router.Common.{
  Bool, List, Option, String, Text, [], any, bool_eq, false, filter, if◌then◌else◌, is_some, leb,
  ltb, nat_eq, none, not, opt_beq, some, string_eq, text_eq, true, truthy, ℕ, ◌&&◌, ◌*◌, ◌++◌, ◌+◌,
  ◌==◌, ◌||◌, ◌∷◌,
}
use adaptive_model_router.Gate.{Attempt, Context, Db, Usage, in_context, is_open}
use adaptive_model_router.Gate.Carrier.{parse_carrier_task_name}
use adaptive_model_router.Gate.Finalize.{in_same_context}
use adaptive_model_router.Gate.Stop.{only}
use adaptive_model_router.Gate.Ticket.{Crypto, differs, open_package, present_text}
use adaptive_model_router.Vocabulary.{
  category_eq, effort_eq, failure_eq, gate_eq, level_eq, signal_eq,
}

abbrev pub context_package_byte_limit : ℕ
context_package_byte_limit = 64 * 1024

-- Number.MAX_SAFE_INTEGER.
abbrev pub is_safe : ℕ → Bool
is_safe n = ltb n 9007199254740992

pub data Precondition : Type 0 where
  multiple_unresolved untrusted_attempt untrusted_package : Precondition

pub data Unresolved : Type 0 where
  idle : Unresolved
  active : Attempt → Unresolved
  broken : Precondition → Unresolved

abbrev pub is_unresolved : Context → Attempt → Bool
is_unresolved c r = in_context c r && is_open r

-- `!row.route_id || !row.ticket_hash || !row.model || !row.effort || !row.context_package`.
abbrev is_complete : Attempt → Bool
is_complete r =
    not (r.route_id == "")
    && (truthy r.ticket_hash
        && (not (r.model == "") && (not (r.effort == "") && truthy r.context_package)))

module _ (x : Crypto) where
  -- The package opens, and has the bytes that the row says: the length of a string is counted in bytes
  -- of UTF-8.
  unfoldable pub is_package_trusted : Attempt → Bool
  unfolding open_package
  is_package_trusted r = elim (open_package x r.context_package) [
    | none ↦ false
    | some opened ↦
        r.context_package_bytes == len opened
        && leb r.context_package_bytes context_package_byte_limit
  ]

  unfoldable pub check_unresolved : List Attempt → Unresolved
  check_unresolved [] = Unresolved.idle
  check_unresolved (r ∷ []) =
      if not (is_complete r)
      then Unresolved.broken Precondition.untrusted_attempt
      else if is_package_trusted r
      then Unresolved.active r
      else Unresolved.broken Precondition.untrusted_package
  check_unresolved (r ∷ s ∷ rest) = Unresolved.broken Precondition.multiple_unresolved

  unfoldable pub unresolved_attempt : Context → Db → Unresolved
  unfolding check_unresolved
  unresolved_attempt c db = check_unresolved (filter (is_unresolved c) db.attempts)

pub record BudgetOptions : Type 0 where
  pub maximum_bytes : Option ℕ
  pub reservation_bytes : ℕ
  pub maximum_pending : ℕ

pub data BudgetReason : Type 0 where
  global_pending_limit child_storage_limit : BudgetReason

pub data Budget : Type 0 where
  untrusted : Budget
  inspected : Bool → Option BudgetReason → ℕ → Budget

abbrev pub total_bytes : List Usage → ℕ
total_bytes [] = 0
total_bytes (u ∷ us) = u.total_transcript_bytes + total_bytes us

abbrev pub within_bytes : Option ℕ → ℕ → Bool
within_bytes none n = true
within_bytes (some maximum) n = leb n maximum

abbrev pub is_safe_option : Option ℕ → Bool
is_safe_option none = true
is_safe_option (some n) = is_safe n

-- `pending` is the count of `reservationInventory(db).pending`.
unfoldable pub inspect_router_child_budget : BudgetOptions → ℕ → Db → Budget
inspect_router_child_budget o pending db =
    let used = total_bytes db.usage in
    let next = (pending + 1) * o.reservation_bytes in
    if any (λ u. u.untrusted) db.usage
    then Budget.untrusted
    else if not (is_safe used)
        || not (is_safe pending)
        || not (is_safe o.reservation_bytes)
        || not (is_safe o.maximum_pending)
        || not (is_safe_option o.maximum_bytes)
    then Budget.untrusted
    else if not (is_safe next)
    then Budget.untrusted
    else Budget.inspected
        (ltb pending o.maximum_pending && within_bytes o.maximum_bytes (used + next))
        (if leb o.maximum_pending pending
          then some BudgetReason.global_pending_limit
          else if not (within_bytes o.maximum_bytes (used + next))
          then some BudgetReason.child_storage_limit
          else none)
        next

pub data Disk : Type 0 where
  untrusted : Disk
  measured : Bool → Disk

-- The difference is one of big integers: it may be negative.
unfoldable pub inspect_free_disk : Option ℕ → Option ℕ → Option ℕ → Disk
inspect_free_disk (some free) (some reserved) (some minimum) =
    Disk.measured (leb (minimum + reserved) free)
inspect_free_disk none reserved minimum = Disk.untrusted
inspect_free_disk (some free) none minimum = Disk.untrusted
inspect_free_disk (some free) (some reserved) none = Disk.untrusted

-- The row of `insertDelegationAttempt`: every other column has its default.
unfoldable pub new_attempt : Context → String → String → String → String → String → ℕ → ℕ → Attempt
new_attempt c route hash model effort sealed bytes now = record {
  route_id = route;
  project_id = c.project_id;
  context_key = c.context_key;
  ticket_hash = some hash;
  model = model;
  effort = effort;
  context_package = some sealed;
  context_package_bytes = bytes;
  ticket_consumed = false;
  root_turn_id = none;
  tool_use_id = none;
  dispatch_input_digest = none;
  post_observed = false;
  agent_id = none;
  no_child = false;
  stop_observed = false;
  transcript_bytes = none;
  early_agent_id = none;
  early_transcript_bytes = none;
  outcome_recorded = false;
  outcome_status = none;
  ambiguous = false;
  created_at = now;
  updated_at = now;
  finalized_at = none;
}

-- The table's keys: `route_id` is primary, `ticket_hash` is unique, and a context has one open row.
abbrev pub collides : Attempt → Attempt → Bool
collides r y =
    y.route_id == r.route_id
    || (opt_beq y.ticket_hash r.ticket_hash && is_some r.ticket_hash)
    || (in_same_context r y && (is_open y && is_open r))

-- `none` is the constraint error of the `INSERT`.
unfoldable pub insert_delegation_attempt : Attempt → Db → Option Db
insert_delegation_attempt r db =
    if any (collides r) db.attempts
    then none
    else some (record db { attempts = db.attempts ++ r ∷ [] })

pub data ManagedView : Type 0 where
  unmanaged : ManagedView
  managed_untrusted : ManagedView
  managed_trusted : Bool → Option String → ManagedView

abbrev mentions_child : Context → String → String → Attempt → Bool
mentions_child c hash key r =
    in_context c r
    && (opt_beq r.ticket_hash (some hash)
        || opt_beq r.early_agent_id (some key)
        || opt_beq r.agent_id (some key))

module _ (x : Crypto) where
  -- `contextPackage` is NULL for a finalized row; one that does not open is not trusted.
  unfoldable pub view_row : Attempt → String → ManagedView
  view_row r key =
      if differs r.early_agent_id key || differs r.agent_id key
      then ManagedView.unmanaged
      else if not r.ticket_consumed
          || (not (truthy r.early_agent_id) && not (truthy r.agent_id))
          || r.ambiguous
      then ManagedView.managed_untrusted
      else if not (truthy r.context_package)
      then ManagedView.managed_trusted (is_some r.finalized_at) none
      else elim (open_package x r.context_package) [
        | none ↦ ManagedView.managed_untrusted
        | some opened ↦ ManagedView.managed_trusted (is_some r.finalized_at) (some opened)
      ]

  unfoldable pub inspect_managed_subagent : Context → Option Text → Option String → Db → ManagedView
  unfolding view_row present_text open_package
  inspect_managed_subagent c task none db = ManagedView.unmanaged
  inspect_managed_subagent c task (some agent) db = elim (parse_carrier_task_name task) [
    | none ↦ ManagedView.unmanaged
    | some ticket ↦
        if not (present_text (some agent))
        then ManagedView.unmanaged
        else elim (only
            (filter (mentions_child c (x.ticket_digest ticket) (x.agent_key agent)) db.attempts)) [
              | none ↦ ManagedView.unmanaged
              | some r ↦ view_row r (x.agent_key agent)
            ]
  ]

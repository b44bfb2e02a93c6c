-- ===== src/Gate/OneShot.antt =====
-- One ticket is one dispatch: what an accepted dispatch has shown, and that it is the last one of its
-- route, whatever calls follow.
use adaptive_model_router.Common.{
  Bool, Option, Option-cases, String, Text, arith, bool_eq, false, find?, get_or, if-all, inl, inr,
  nat_eq, not, opt_beq, refl, some, string_eq, text_eq, true, truthy, ℕ, ◌==◌, ◌||◌, ◌≡◌,
}
use adaptive_model_router.Gate.{Attempt, Context, Db, changes, update_attempts}
use adaptive_model_router.Gate.Carrier.{parse_carrier_task_name}
use adaptive_model_router.Gate.Replay.{not-false}
use adaptive_model_router.Gate.Ticket.{
  Crypto, Dispatch, ToolInput, consume_delegation_ticket, consumed, dispatch_row, holds_ticket,
  is_consumable, same_target_input,
}
use adaptive_model_router.Vocabulary.{effort_eq, failure_eq, gate_eq, level_eq, signal_eq}

-- What the gate has tested before it accepts a dispatch, and the store that it leaves.
abbrev pub Accepted : Attempt → Option String → Option String → ToolInput → String → Type 0
Accepted r turn call input route =
    (r.route_id ≡ route)
    × (r.ambiguous ≡ false)
    × (r.ticket_consumed ≡ false)
    × (truthy turn ≡ true)
    × (truthy call ≡ true)
    × (same_target_input r input ≡ true)
    × (truthy input.message ≡ true)
    × (opt_beq input.fork_turns (some "none") ≡ true)

abbrev pub dispatched : Attempt → Option String → Option String → ToolInput → ℕ → Db → Db
dispatched r turn call input now db =
    update_attempts (is_consumable r.route_id)
      (consumed (get_or turn "") (get_or call "") input now) db

neither : (a b : Bool) → (not a || not b) ≡ false → (a ≡ true) × (b ≡ true)
neither a b h = ground arith

dispatch_row-allowed :
    (c : Context) (r : Attempt) (turn call : Option String) (input : ToolInput) (now : ℕ) (db : Db)
    (route : String)
    → (dispatch_row c r turn call input now db).1 ≡ Dispatch.allowed route
    → Accepted r turn call input route
      × ((dispatch_row c r turn call input now db).0 ≡ dispatched r turn call input now db)
unfolding dispatch_row
dispatch_row-allowed c r turn call input now db route =
    if-all Q r.ambiguous _ _ (λ _ h. cc)
      (λ clear.
        if-all Q r.ticket_consumed _ _ (λ _ h. cc)
          (λ fresh.
            if-all Q (not (truthy turn) || not (truthy call)) _ _ (λ _ h. cc)
              (λ ids.
                if-all Q (not (same_target_input r input)) _ _ (λ _ h. cc)
                  (λ target.
                    if-all Q (not (truthy input.message)) _ _ (λ _ h. cc)
                      (λ message.
                        if-all Q (not (opt_beq input.fork_turns (some "none"))) _ _ (λ _ h. cc)
                          (λ fork.
                            if-all Q (changes (is_consumable r.route_id) db.attempts == 1) _ _
                              (λ _ h. (
                                (
                                  allowed-injective r.route_id route h,
                                  clear,
                                  fresh,
                                  (neither _ _ ids).0,
                                  (neither _ _ ids).1,
                                  not-false (same_target_input r input) target,
                                  not-false (truthy input.message) message,
                                  not-false (opt_beq input.fork_turns (some "none")) fork,
                                ),
                                refl,
                              ))
                              (λ _ h. cc)))))))
  where
    Q : Db × Dispatch → Type 0
    Q z =
        z.1 ≡ Dispatch.allowed route
        → Accepted r turn call input route × (z.0 ≡ dispatched r turn call input now db)

    allowed-injective : (a b : String) → Dispatch.allowed a ≡ Dispatch.allowed b → a ≡ b
    allowed-injective a b h = cc

module _ (x : Crypto) where
  -- A dispatch is accepted only for the open attempt that holds the ticket, with every test passed.
  pub consume-allowed :
      (c : Context) (task : Option Text) (turn call : Option String) (input : ToolInput) (now : ℕ)
      (db : Db) (route : String)
      → (consume_delegation_ticket x c task turn call (some input) now db).1
        ≡ Dispatch.allowed route
      → (ticket : Text) × (r : Attempt) × (parse_carrier_task_name task ≡ some ticket)
        × (find? (holds_ticket c (x.ticket_digest ticket)) db.attempts ≡ some r)
        × Accepted r turn call input route
        × ((consume_delegation_ticket x c task turn call (some input) now db).0
            ≡ dispatched r turn call input now db)
  unfolding consume_delegation_ticket
  consume-allowed c task turn call input now db route =
      elim (Option-cases (parse_carrier_task_name task)) [
        | inl e ↦ rw (e, consume_delegation_ticket) (λ h. cc)
        | inr (ticket, e) ↦
            elim (Option-cases (find? (holds_ticket c (x.ticket_digest ticket)) db.attempts)) [
              | inl f ↦
                  rw (e, consume_delegation_ticket, f)
                    (if-all (Result ticket) (not (opt_beq input.task_name task)) _ _ (λ _ h. cc)
                      (λ _ h. cc))
              | inr (r, f) ↦
                  rw (e, consume_delegation_ticket, f)
                    (if-all (Result ticket) (not (opt_beq input.task_name task)) _ _ (λ _ h. cc)
                      (λ _ h.
                        let shown = dispatch_row-allowed c r turn call input now db route h in
                        (ticket, r, refl, f, shown.0, shown.1)))
            ]
      ]
    where
      Result : Text → Db × Dispatch → Type 0
      Result ticket z =
          z.1 ≡ Dispatch.allowed route
          → (t : Text) × (r : Attempt) × (some ticket ≡ some t)
            × (find? (holds_ticket c (x.ticket_digest t)) db.attempts ≡ some r)
            × Accepted r turn call input route
            × (z.0 ≡ dispatched r turn call input now db)

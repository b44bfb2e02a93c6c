-- ===== src/Gate/Replay.antt =====
-- What every single change keeps, every call keeps: the calls of a ticket and of a child's start.
use adaptive_model_router.Common.{
  &&-true, Bool, Option, Option-cases, String, Text, arith, bool_eq, false, find?, get_or, if-all,
  inl, inr, nat_eq, none, not, opt_beq, refl, some, string_eq, text_eq, true, truthy, ℕ, ◌&&◌, ◌==◌,
  ◌||◌, ◌≡◌,
}
use adaptive_model_router.Gate.{Attempt, Context, Db, changes, has_route, is_open, update_attempts}
use adaptive_model_router.Gate.Carrier.{parse_carrier_task_name}
use adaptive_model_router.Gate.Preserve.{
  Closed, Fine, Good, fine, reconcile-Good, row-Good, update-Good,
}
use adaptive_model_router.Gate.Ticket.{
  Crypto, ToolInput, claim_delegation_subagent, claim_row, claimed_by, conflicts,
  consume_delegation_ticket, consumed, dispatch_row, early_ambiguous, holds_ticket, is_consumable,
  made_ambiguous, open_package, present_text, same_target_input,
}
use adaptive_model_router.Vocabulary.{effort_eq, failure_eq, gate_eq, level_eq, signal_eq}

untaken : (a b c : Bool) → (not a && (not b && c)) ≡ true → (a ≡ false) × (b ≡ false) × (c ≡ true)
untaken a b c h = ground arith

pub not-true : (b : Bool) → not b ≡ true → b ≡ false
not-true b h = ground arith

pub not-false : (b : Bool) → not b ≡ false → b ≡ true
not-false b h = ground arith

module _ (x : Crypto) (I : String → Type 0) (P : Attempt → Type 0) (k : Closed x I P) where
  dispatch_row-Good :
      (c : Context) (r : Attempt) (turn call : Option String) (input : ToolInput) (now : ℕ)
      (db : Db)
      → Good P db
      → Fine P (dispatch_row c r turn call input now db)
  unfolding dispatch_row
  dispatch_row-Good c r turn call input now db g =
      if-all (Fine P) r.ambiguous _ _ (λ _. fine P db _ g)
        (λ _.
          if-all (Fine P) r.ticket_consumed _ _ (λ _. fine P db _ g)
            (λ _.
              if-all (Fine P) (not (truthy turn) || not (truthy call)) _ _ (λ _. fine P db _ g)
                (λ _.
                  if-all (Fine P) (not (same_target_input r input)) _ _
                    (λ _. fine P _ _ (reconcile-Good x I P k c r.route_id now db g))
                    (λ _.
                      if-all (Fine P) (not (truthy input.message)) _ _ (λ _. fine P db _ g)
                        (λ _.
                          if-all (Fine P) (not (opt_beq input.fork_turns (some "none"))) _ _
                            (λ _. fine P db _ g)
                            (λ _.
                              if-all (Fine P) (changes (is_consumable r.route_id) db.attempts == 1)
                                _ _ (λ _. fine P _ _ taken) (λ _. fine P _ _ taken)))))))
    where
      keep :
          (y : Attempt)
          → is_consumable r.route_id y ≡ true
          → P y
          → P (consumed (get_or turn "") (get_or call "") input now y)
      keep y h p =
          let f =
            untaken y.ticket_consumed y.ambiguous (is_open y)
              (&&-true (has_route r.route_id y)
                (not y.ticket_consumed && (not y.ambiguous && is_open y)) h).1 in
          k.consume (get_or turn "") (get_or call "") input now y f.0 f.1 f.2 p

      taken : Good P (
          update_attempts
            (is_consumable r.route_id)
            (consumed (get_or turn "") (get_or call "") input now)
            db)
      taken = update-Good P (is_consumable r.route_id) _ db (λ y. refl) keep g

  pub consume-Good :
      (c : Context) (task : Option Text) (turn call : Option String) (input : Option ToolInput)
      (now : ℕ) (db : Db)
      → Good P db
      → Fine P (consume_delegation_ticket x c task turn call input now db)
  unfolding consume_delegation_ticket
  consume-Good c task turn call none now db g = fine P db _ g
  consume-Good c task turn call (some input) now db g =
      elim (Option-cases (parse_carrier_task_name task)) [
        | inl e ↦ rw (e, consume_delegation_ticket) (fine P db _ g)
        | inr (ticket, e) ↦
            elim (Option-cases (find? (holds_ticket c (x.ticket_digest ticket)) db.attempts)) [
              | inl f ↦
                  rw (e, consume_delegation_ticket, f)
                    (if-all (Fine P) (not (opt_beq input.task_name task)) _ _ (λ _. fine P db _ g)
                      (λ _. fine P db _ g))
              | inr (r, f) ↦
                  rw (e, consume_delegation_ticket, f)
                    (if-all (Fine P) (not (opt_beq input.task_name task)) _ _ (λ _. fine P db _ g)
                      (λ _. dispatch_row-Good c r turn call input now db g))
            ]
      ]

  -- Every update of the route of a row.
  pub route-Good :
      (f : Attempt → Attempt) (q : Attempt → Bool) (db : Db) (r : Attempt)
      → find? q db.attempts ≡ some r
      → ((y : Attempt) → (f y).route_id ≡ y.route_id)
      → (P r → P (f r))
      → Good P db
      → Good P (update_attempts (has_route r.route_id) f db)
  route-Good f q db r e same keep g =
      row-Good P q (has_route r.route_id) f db r e (λ y h. h) same keep g

  claim_row-Good :
      (q : Attempt → Bool) (r : Attempt) (agent : String) (model : Option String) (now : ℕ)
      (db : Db)
      → find? q db.attempts ≡ some r
      → Good P db
      → Fine P (claim_row x r (x.agent_key agent) model now db)
  unfolding claim_row
  claim_row-Good q r agent model now db e g =
      elim (Option-cases (open_package x r.context_package)) [
        | inl f ↦
            rw (claim_row, f)
              (if-all (Fine P) (not r.ticket_consumed) _ _ (λ fresh. fine P _ _ (early fresh))
                (λ _.
                  if-all (Fine P) (conflicts r model (x.agent_key agent)) _ _
                    (λ _. fine P _ _ doubted) (λ _. fine P _ _ doubted)))
        | inr (opened, f) ↦
            rw (claim_row, f)
              (if-all (Fine P) (not r.ticket_consumed) _ _ (λ fresh. fine P _ _ (early fresh))
                (λ used.
                  if-all (Fine P) (conflicts r model (x.agent_key agent)) _ _
                    (λ _. fine P _ _ doubted)
                    (λ free. fine P _ _ (
                      route-Good (claimed_by (x.agent_key agent) now) q db r e (λ y. refl)
                        (k.claim agent model now r (not-false _ used) free) g))))
      ]
    where
      early :
          not r.ticket_consumed ≡ true
          → Good P (
              update_attempts
                (λ y. has_route r.route_id y && (not y.ticket_consumed && is_open y))
                (early_ambiguous (x.agent_key agent) now)
                db)
      early fresh =
          row-Good P q _ (early_ambiguous (x.agent_key agent) now) db r e (λ y h. (&&-true _ _ h).0)
            (λ y. refl) (k.early agent now r (not-true r.ticket_consumed fresh)) g

      doubted : Good P (update_attempts (has_route r.route_id) (made_ambiguous now) db)
      doubted = route-Good (made_ambiguous now) q db r e (λ y. refl) (k.ambiguous now r) g

  pub claim-Good :
      (c : Context) (task : Option Text) (agent model : Option String) (now : ℕ) (db : Db)
      → Good P db
      → Fine P (claim_delegation_subagent x c task agent model now db)
  unfolding claim_delegation_subagent
  claim-Good c task none model now db g = fine P db _ g
  claim-Good c task (some agent) model now db g =
      elim (Option-cases (parse_carrier_task_name task)) [
        | inl e ↦ rw (e, claim_delegation_subagent) (fine P db _ g)
        | inr (ticket, e) ↦
            elim (Option-cases (find? (holds_ticket c (x.ticket_digest ticket)) db.attempts)) [
              | inl f ↦
                  rw (e, claim_delegation_subagent, f)
                    (if-all (Fine P) (not (present_text (some agent))) _ _ (λ _. fine P db _ g)
                      (λ _. fine P db _ g))
              | inr (r, f) ↦
                  rw (e, claim_delegation_subagent, f)
                    (if-all (Fine P) (not (present_text (some agent))) _ _ (λ _. fine P db _ g)
                      (λ _. claim_row-Good _ r agent model now db f g))
            ]
      ]

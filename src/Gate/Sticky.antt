-- ===== src/Gate/Sticky.antt =====
-- What no sequence of calls takes back: a consumed ticket's binding, and the doubt about a dispatched
-- attempt.
use mathlib.Core.Bool.{false≢true}
use adaptive_model_router.Common.{
  All, All-find?, All-map, Bool, List, String, ap, arith, bool_eq, eq_iff, false, find?,
  find?-holds, nat_eq, not, refl, some, string_eq, subst, sym, text_eq, true, ℕ, ◌&&◌, ◌==◌, ◌∙◌,
  ◌≡◌,
}
use adaptive_model_router.Gate.{Attempt, has_route, is_open, update}
use adaptive_model_router.Gate.Admission.{new_attempt}
use adaptive_model_router.Gate.Finalize.{can_finalize}
use adaptive_model_router.Gate.Identity.{Distinct, OnlyRow, unique_row}
use adaptive_model_router.Gate.Preserve.{Closed}
use adaptive_model_router.Gate.Stop.{only}
use adaptive_model_router.Gate.Store.{All-update_to}
use adaptive_model_router.Gate.Ticket.{Crypto, ToolInput, consumed, is_consumable}
use adaptive_model_router.Vocabulary.{
  category_eq, effort_eq, failure_eq, gate_eq, level_eq, signal_eq,
}

-- Calls that do not insert `route`: an identifier of a route is used once.
abbrev pub Elsewhere : String → String → Type 0
Elsewhere route other = (other == route) ≡ false

pub has_route-eq : (route : String) (r : Attempt) → has_route route r ≡ true → r.route_id ≡ route
has_route-eq route r h = (eq_iff r.route_id route).0 h

module _ (route : String) where
  -- A predicate on the attempt of one route.
  abbrev pub On : (Attempt → Type 0) → Attempt → Type 0
  On Q r = has_route route r ≡ true → Q r

  -- The ticket was consumed by this turn, this tool call and this input, for this target.
  abbrev pub Bound : String → String → String → String → String → Attempt → Type 0
  Bound turn call digest model effort r =
      (r.ticket_consumed ≡ true)
      × (r.root_turn_id ≡ some turn)
      × (r.tool_use_id ≡ some call)
      × (r.dispatch_input_digest ≡ some digest)
      × (r.model ≡ model)
      × (r.effort ≡ effort)

  -- A dispatched attempt in doubt.
  abbrev pub Doubted : Attempt → Type 0
  Doubted r = (r.ticket_consumed ≡ true) × (r.ambiguous ≡ true)

  pub Bound-Closed :
      (x : Crypto) (turn call digest model effort : String)
      → Closed x (Elsewhere route) (On (Bound turn call digest model effort))
  unfolding new_attempt
  Bound-Closed x turn call digest model effort = record {
    insert = λ c other h m e s b now away same. absurd (false≢true (sym away ∙ same));
    ambiguous = λ now r p. p;
    consume =
        λ t u input now r fresh clear live p same. absurd (false≢true (sym fresh ∙ (p same).0));
    early = λ agent now r fresh p. p;
    claim = λ agent m now r used free p. p;
    post_failed = λ now r used p. p;
    post = λ agents none_made now r used agree free p. p;
    stop_failed = λ now r p. p;
    stop_early = λ b now r p. p;
    stop = λ b now r seen p. p;
    outcome = λ status now r p. p;
    finish = λ failed stage now r safe p. p;
    quarantine = λ now r legacy p. p;
    message = λ now r p. p;
    close_failed = λ bytes now r p. p;
    close = λ bytes now r p. p;
    recover = λ now r live p. p;
  }

  not_ambiguous : (a b : Bool) → (not a && b) ≡ true → a ≡ false
  not_ambiguous a b h = ground arith

  pub Doubted-Closed : (x : Crypto) → Closed x (Elsewhere route) (On Doubted)
  unfolding new_attempt can_finalize
  Doubted-Closed x = record {
    insert = λ c other h m e s b now away same. absurd (false≢true (sym away ∙ same));
    ambiguous = λ now r p same. ((p same).0, refl);
    consume =
        λ t u input now r fresh clear live p same. absurd (false≢true (sym fresh ∙ (p same).0));
    early = λ agent now r fresh p same. ((p same).0, refl);
    claim = λ agent m now r used free p. p;
    post_failed = λ now r used p same. ((p same).0, refl);
    post = λ agents none_made now r used agree free p. p;
    stop_failed = λ now r p same. ((p same).0, refl);
    stop_early = λ b now r p. p;
    stop = λ b now r seen p. p;
    outcome = λ status now r p. p;
    finish = λ failed stage now r safe p same.
        absurd (false≢true (sym (not_ambiguous r.ambiguous _ safe) ∙ (p same).1));
    quarantine = λ now r legacy p same.
        absurd (false≢true (sym (not_ambiguous r.ticket_consumed _ legacy) ∙ (p same).0));
    message = λ now r p. p;
    close_failed = λ bytes now r p. p;
    close = λ bytes now r p. p;
    recover = λ now r live p same. ((p same).0, refl);
  }

  -- An attempt that is final.
  pub final-Closed : (x : Crypto) → Closed x (Elsewhere route) (On (λ r. is_open r ≡ false))
  unfolding new_attempt
  final-Closed x = record {
    insert = λ c other h m e s b now away same. absurd (false≢true (sym away ∙ same));
    ambiguous = λ now r p. p;
    consume = λ t u input now r fresh clear live p. p;
    early = λ agent now r fresh p. p;
    claim = λ agent m now r used free p. p;
    post_failed = λ now r used p. p;
    post = λ agents none_made now r used agree free p. p;
    stop_failed = λ now r p. p;
    stop_early = λ b now r p. p;
    stop = λ b now r seen p. p;
    outcome = λ status now r p. p;
    finish = λ failed stage now r safe p same. refl;
    quarantine = λ now r legacy p same. refl;
    message = λ now r p. p;
    close_failed = λ bytes now r p. p;
    close = λ bytes now r p. p;
    recover = λ now r live p same. refl;
  }

  -- The row of a route decides a predicate on the route.
  pub only-On :
      (Q : Attempt → Type 0) (rows : List Attempt) (r : Attempt)
      → Distinct rows
      → find? (has_route route) rows ≡ some r
      → Q r
      → All (On Q) rows
  only-On Q rows r d e q =
      All-map (OnlyRow r) (On Q)
        (λ y only same.
          subst Q
            (sym (
              only (rw (has_route-eq route r (find?-holds (has_route route) rows {x = r} e)) same)))
            q)
        rows (unique_row (has_route route) rows d e)

  pub on_row :
      (Q : Attempt → Type 0) (rows : List Attempt) (r : Attempt)
      → All (On Q) rows
      → find? (has_route route) rows ≡ some r
      → Q r
  on_row Q rows r a e =
      All-find? (On Q) (has_route route) rows a e (find?-holds (has_route route) rows {x = r} e)

  -- After a dispatch of the only row of the route.
  pub dispatched-On :
      (rows : List Attempt) (r : Attempt) (turn call : String) (input : ToolInput) (now : ℕ)
      → r.route_id ≡ route
      → is_consumable r.route_id r ≡ true
      → All (OnlyRow r) rows
      → All
          (On (Bound turn call input.digest r.model r.effort))
          (update (is_consumable r.route_id) (consumed turn call input now) rows)
  dispatched-On rows r turn call input now own ready only =
      All-update_to (OnlyRow r) (On (Bound turn call input.digest r.model r.effort))
        (is_consumable r.route_id) (consumed turn call input now)
        (λ y hit one same.
          subst
            (λ z. Bound turn call input.digest r.model r.effort (consumed turn call input now z))
            (sym (one (rw own same))) (refl, refl, refl, refl, refl, refl))
        (λ y miss one same.
          absurd
            (false≢true (sym miss ∙ ap (is_consumable r.route_id) (one (rw own same)) ∙ ready)))
        rows only

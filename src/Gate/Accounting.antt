-- ===== src/Gate/Accounting.antt =====
-- The transcript bytes of an attempt are accounted once: `finalizeIfSafe`, `delegation_usage`.
use mathlib.Core.Bool.{false≢true}
use mathlib.Core.Option.{some-injective}
use adaptive_model_router.Common.{
  &&-true, All, All-filter, Bool, Bool-cases, List, Option, Option-cases, String, [], any, ap,
  arith, bool_eq, eq_iff, false, find?-holds, get_or, inl, inr, is_some, nat_eq, none, not, opt_beq,
  refl, some, string_eq, subst, sym, text_eq, true, ||-false, ℕ, ◌&&◌, ◌++◌, ◌+◌, ◌==◌, ◌||◌, ◌∙◌,
  ◌∷◌, ◌≡◌,
}
use adaptive_model_router.Gate.{Attempt, Db, Usage, get_attempt, has_route, is_open, update}
use adaptive_model_router.Gate.Admission.{total_bytes}
use adaptive_model_router.Gate.Finalize.{
  add_usage, can_finalize, finalize, finalize_if_safe, finalize_route, finalized, is_child_terminal,
  prune, same_usage,
}
use adaptive_model_router.Gate.Histories.{run-Good}
use adaptive_model_router.Gate.Identity.{
  Distinct, OnlyRow, filter-Distinct, unique_row, update-Distinct,
}
use adaptive_model_router.Gate.Managed.{
  managed_stage_can_finalize, mark_managed_stage_settled, verified_failed_child,
}
use adaptive_model_router.Gate.Preserve.{Call, Good, Inserts, run}
use adaptive_model_router.Gate.Sticky.{Elsewhere, On, final-Closed, has_route-eq, on_row}
use adaptive_model_router.Gate.Stop.{only}
use adaptive_model_router.Gate.Store.{All-update_to}
use adaptive_model_router.Gate.Ticket.{Crypto}
use adaptive_model_router.Vocabulary.{
  category_eq, effort_eq, failure_eq, gate_eq, level_eq, signal_eq,
}

-- `delegation_usage` has one row for each context.
abbrev pub DistinctUsage : List Usage → Type 0
DistinctUsage [] = Unit
DistinctUsage (u ∷ us) =
    All (λ v. ((v.project_id == u.project_id) && (v.context_key == u.context_key)) ≡ false) us
    × DistinctUsage us

abbrev added : Attempt → Usage → Usage
added r u = record u {
  total_transcript_bytes = u.total_transcript_bytes + get_or r.transcript_bytes 0;
}

update_absent :
    (r : Attempt) (us : List Usage)
    → any (same_usage r) us ≡ false
    → total_bytes (update (same_usage r) (added r) us) ≡ total_bytes us
unfolding update
update_absent r [] h = refl
update_absent r (u ∷ us) h =
    let split = ||-false (same_usage r u) (any (same_usage r) us) h in
    rw split.0 (ap (λ n. u.total_transcript_bytes + n) (update_absent r us split.1))

same_context-eq :
    (r : Attempt) (u : Usage)
    → same_usage r u ≡ true
    → (u.project_id ≡ r.project_id) × (u.context_key ≡ r.context_key)
same_context-eq r u h =
    let both = &&-true (u.project_id == r.project_id) (u.context_key == r.context_key) h in
    ((eq_iff u.project_id r.project_id).0 both.0, (eq_iff u.context_key r.context_key).0 both.1)

-- The other rows are not of the attempt's context, once one is.
others_absent :
    (r : Attempt) (u : Usage) (us : List Usage)
    → same_usage r u ≡ true
    → All (λ v. ((v.project_id == u.project_id) && (v.context_key == u.context_key)) ≡ false) us
    → any (same_usage r) us ≡ false
others_absent r u [] h d = refl
others_absent r u (v ∷ vs) h d =
    let (p, k) = same_context-eq r u h in
    let head : same_usage r v ≡ false = rw (sym p, sym k) d.0 in
    rw (head, others_absent r u vs h d.1) refl

update_present :
    (r : Attempt) (us : List Usage)
    → DistinctUsage us
    → any (same_usage r) us ≡ true
    → total_bytes (update (same_usage r) (added r) us)
      ≡ total_bytes us + get_or r.transcript_bytes 0
unfolding update
update_present r [] d h = absurd (false≢true h)
update_present r (u ∷ us) d h = elim (Bool-cases (same_usage r u)) [
  | inl e ↦ rw (e, update_absent r us (others_absent r u us e d.0)) (omega arith)
  | inr e ↦
      rw e
        (ap (λ n. u.total_transcript_bytes + n) (update_present r us d.1 (rw e at h)) ∙ omega arith)
]

total-append :
    (us : List Usage) (u : Usage)
    → total_bytes (us ++ u ∷ []) ≡ total_bytes us + u.total_transcript_bytes
total-append [] u = omega arith
total-append (v ∷ us) u = rw (total-append us u) (omega arith)

add_usage-total :
    (r : Attempt) (us : List Usage)
    → DistinctUsage us
    → total_bytes (add_usage r us) ≡ total_bytes us + get_or r.transcript_bytes 0
unfolding add_usage
add_usage-total r us d = elim (Bool-cases (any (same_usage r) us)) [
  | inl e ↦ rw (add_usage, e) (update_present r us d e)
  | inr e ↦ rw (add_usage, e) (total-append us _)
]

-- What a finalization has shown of the row that it read, and the store that it leaves.
abbrev Finalization : Attempt → ℕ → Db → Db → Type 0
Finalization r now db db' =
    (can_finalize r (verified_failed_child r.route_id db) (managed_stage_can_finalize r.route_id db)
      ≡ true)
    × (db' ≡ finalize r now db)

finalize_route-true :
    (route : String) (now : ℕ) (db : Db)
    → (finalize_route route now db).1 ≡ true
    → (r : Attempt) × (get_attempt route db ≡ some r)
      × Finalization r now db (finalize_route route now db).0
unfolding finalize_route finalize_if_safe
finalize_route-true route now db = elim (Option-cases (get_attempt route db)) [
  | inl e ↦ rw (e, finalize_route) (λ h. absurd (false≢true h))
  | inr (r, e) ↦
      elim (Bool-cases (
        can_finalize r (verified_failed_child r.route_id db)
          (managed_stage_can_finalize r.route_id db))) [
            | inl safe ↦
                rw (e, finalize_route, safe, finalize_if_safe) (λ h. (r, refl, (safe, refl)))
            | inr unsafe ↦
                rw (e, finalize_route, unsafe, finalize_if_safe) (λ h. absurd (false≢true h))
          ]
]

terminal_size :
    (seen none_made a b : Bool) (bytes : Option ℕ)
    → (seen && ((none_made && opt_beq bytes (some 0)) || (a && (b && is_some bytes)))) ≡ true
    → (seen ≡ true) × (is_some bytes ≡ true)
terminal_size seen none_made a b none h = ground arith
terminal_size seen none_made a b (some n) h = ((&&-true seen _ h).0, refl)

four :
    (a b c d e : Bool)
    → (not a && (b && (c && (d && e)))) ≡ true
    → (a ≡ false) × (b ≡ true) × (c ≡ true) × (d ≡ true)
four a b c d e h = ground arith

-- When the attempt of a route is finalized in a store with one usage row for each context, then the
-- attempt was open and not in doubt, with an outcome, a result and a known size on record, and the
-- total of the accounted bytes grows by exactly that size.
pub finalize_route-total :
    (route : String) (now : ℕ) (db : Db) (r : Attempt)
    → DistinctUsage db.usage
    → get_attempt route db ≡ some r
    → (finalize_route route now db).1 ≡ true
    → (r.ambiguous ≡ false)
      × (r.outcome_recorded ≡ true)
      × (is_open r ≡ true)
      × (r.post_observed ≡ true)
      × (is_some r.transcript_bytes ≡ true)
      × (total_bytes (finalize_route route now db).0.usage
          ≡ total_bytes db.usage + get_or r.transcript_bytes 0)
unfolding can_finalize is_child_terminal finalize mark_managed_stage_settled prune
finalize_route-total route now db r d e h =
    let (s, found, (safe, left)) = finalize_route-true route now db h in
    let same : s ≡ r = some-injective s r (sym found ∙ e) in
    let shown = four s.ambiguous s.outcome_recorded _ (is_open s) _ safe in
    let sized = terminal_size s.post_observed s.no_child _ _ s.transcript_bytes shown.2 in
    subst
      (λ z.
        (z.ambiguous ≡ false)
        × (z.outcome_recorded ≡ true)
        × (is_open z ≡ true)
        × (z.post_observed ≡ true)
        × (is_some z.transcript_bytes ≡ true)
        × (total_bytes (finalize_route route now db).0.usage
            ≡ total_bytes db.usage + get_or z.transcript_bytes 0))
      same
      (
        shown.0,
        shown.1,
        shown.3,
        sized.0,
        sized.1,
        ap (λ z. total_bytes z.usage) left ∙ add_usage-total s db.usage d,
      )

-- The update makes every row of the route final, and pruning keeps that.
finalize-Final :
    (route : String) (r : Attempt) (now : ℕ) (db : Db)
    → r.route_id ≡ route
    → Distinct db.attempts
    → All (OnlyRow r) db.attempts
    → Good (On route (λ z. is_open z ≡ false)) (finalize r now db)
unfolding Good finalize mark_managed_stage_settled prune
finalize-Final route r now db own d only =
    let p : Attempt → Bool = λ y. has_route r.route_id y && is_open y in
    let rows = update p (finalized now) db.attempts in
    (
      filter-Distinct _ rows (update-Distinct p (finalized now) (λ y. refl) db.attempts d),
      All-filter (On route (λ z. is_open z ≡ false)) _ rows (
          All-update_to (OnlyRow r) (On route (λ z. is_open z ≡ false)) p (finalized now)
            (λ y hit one same. refl)
            (λ y miss one same. missed (has_route r.route_id y) (is_open y) miss (rw own same))
            db.attempts only),
    )
  where
    missed : (a b : Bool) → (a && b) ≡ false → a ≡ true → b ≡ false
    missed a b h e = ground arith

final_refused :
    (route : String) (now : ℕ) (db : Db)
    → All (On route (λ z. is_open z ≡ false)) db.attempts
    → finalize_route route now db ≡ (db, false)
unfolding finalize_route finalize_if_safe can_finalize
final_refused route now db a = elim (Option-cases (get_attempt route db)) [
  | inl e ↦ rw (e, finalize_route) refl
  | inr (r, e) ↦
      rw
        (
          e,
          finalize_route,
          closed r (on_row route (λ z. is_open z ≡ false) db.attempts r a e),
          finalize_if_safe,
        )
        refl
]
  where
    blocked : (p q t b s : Bool) → b ≡ false → (not p && (q && (t && (b && s)))) ≡ false
    blocked p q t b s h = ground arith

    closed :
        (r : Attempt)
        → is_open r ≡ false
        → can_finalize r
            (verified_failed_child r.route_id db)
            (managed_stage_can_finalize r.route_id db)
          ≡ false
    closed r h =
        blocked r.ambiguous r.outcome_recorded
          (is_child_terminal r (verified_failed_child r.route_id db)) (is_open r)
          (managed_stage_can_finalize r.route_id db) h

-- When the attempt of a route is finalized in a store whose routes are distinct, then after any calls
-- that do not insert the route again it is not finalized a second time: the store stays as it is, and
-- no byte is accounted twice.
pub finalized_once :
    (x : Crypto) (route : String) (now now' : ℕ) (db : Db) (calls : List Call)
    → Distinct db.attempts
    → All (Inserts (Elsewhere route)) calls
    → (finalize_route route now db).1 ≡ true
    → finalize_route route now' (run x calls (finalize_route route now db).0)
      ≡ (run x calls (finalize_route route now db).0, false)
unfolding Good
finalized_once x route now now' db calls d i h =
    let (r, found, (safe, left)) = finalize_route-true route now db h in
    let own = has_route-eq route r (find?-holds (has_route route) db.attempts {x = r} found) in
    let final : Good (On route (λ z. is_open z ≡ false)) (finalize r now db) =
      finalize-Final route r now db own d (unique_row (has_route route) db.attempts d found) in
    let good =
      run-Good x (Elsewhere route) (On route (λ z. is_open z ≡ false)) (final-Closed route x) calls
        (finalize_route route now db).0 i
        (subst (Good (On route (λ z. is_open z ≡ false))) (sym left) final) in
    final_refused route now' (run x calls (finalize_route route now db).0) good.1

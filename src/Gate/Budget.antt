-- ===== src/Gate/Budget.antt =====
-- Admission: the budget for children, and one open attempt for each context.
use adaptive_model_router.Common.{
  Bool, Option, any, arith, false, if-all, leb, ltb, ltb→lt, none, not, refl, subst, sym, true, ℕ,
  ◌&&◌, ◌*◌, ◌+◌, ◌<◌, ◌||◌, ◌∙◌, ◌≡◌,
}
use adaptive_model_router.Gate.{Db}
use adaptive_model_router.Gate.Admission.{
  Budget, BudgetOptions, BudgetReason, inspect_router_child_budget, is_safe, is_safe_option,
  total_bytes, within_bytes,
}
use adaptive_model_router.Gate.Replay.{not-false}

abbrev Granted : BudgetOptions → ℕ → Db → Option BudgetReason → ℕ → Type 0
Granted o pending db reason next =
    (pending < o.maximum_pending)
    × (next ≡ (pending + 1) * o.reservation_bytes)
    × (within_bytes o.maximum_bytes (total_bytes db.usage + next) ≡ true)
    × (reason ≡ none)
    × (any (λ u. u.untrusted) db.usage ≡ false)
    × (is_safe next ≡ true)

inspected-injective :
    (a b : Bool) (r s : Option BudgetReason) (m n : ℕ)
    → Budget.inspected a r m ≡ Budget.inspected b s n
    → (a ≡ b) × (r ≡ s) × (m ≡ n)
inspected-injective a b r s m n h = (cc, cc, cc)

not_both : (a b : Bool) → (a && b) ≡ true → (a ≡ true) × (b ≡ true)
not_both a b h = ground arith

-- A budget that is granted counts the new child with the pending ones: their number stays below the
-- limit, the bytes in use and the bytes reserved for all of them stay within the maximum, every usage
-- row is trusted, and the sum is an exact integer.
pub budget_granted :
    (o : BudgetOptions) (pending : ℕ) (db : Db) (reason : Option BudgetReason) (next : ℕ)
    → inspect_router_child_budget o pending db ≡ Budget.inspected true reason next
    → (pending < o.maximum_pending)
      × (next ≡ (pending + 1) * o.reservation_bytes)
      × (within_bytes o.maximum_bytes (total_bytes db.usage + next) ≡ true)
      × (reason ≡ none)
      × (any (λ u. u.untrusted) db.usage ≡ false)
      × (is_safe next ≡ true)
unfolding inspect_router_child_budget
budget_granted o pending db reason next =
    if-all Q (any (λ u. u.untrusted) db.usage) _ _ (λ _ h. cc)
      (λ trusted.
        if-all Q
          (not (is_safe (total_bytes db.usage))
            || not (is_safe pending)
            || not (is_safe o.reservation_bytes)
            || not (is_safe o.maximum_pending)
            || not (is_safe_option o.maximum_bytes))
          _ _ (λ _ h. cc)
          (λ _.
            if-all Q (not (is_safe ((pending + 1) * o.reservation_bytes))) _ _ (λ _ h. cc)
              (λ exact h.
                let (granted, why, sum) =
                  inspected-injective
                    (ltb pending o.maximum_pending
                      && within_bytes o.maximum_bytes
                          (total_bytes db.usage + (pending + 1) * o.reservation_bytes))
                    true _ reason ((pending + 1) * o.reservation_bytes) next h in
                let (below, within) = not_both (ltb pending o.maximum_pending) _ granted in
                let below_limit = ltb→lt pending o.maximum_pending below in
                (
                  below_limit,
                  sym sum,
                  subst (λ n. within_bytes o.maximum_bytes (total_bytes db.usage + n) ≡ true) sum
                      within,
                  sym why ∙ rw (not_leb o.maximum_pending pending below_limit, within) refl,
                  trusted,
                  subst (λ n. is_safe n ≡ true) sum
                      (not-false (is_safe ((pending + 1) * o.reservation_bytes)) exact),
                ))))
  where
    Q : Budget → Type 0
    Q b = b ≡ Budget.inspected true reason next → Granted o pending db reason next

    not_leb : (a b : ℕ) → b < a → leb a b ≡ false
    not_leb a b h = ground arith

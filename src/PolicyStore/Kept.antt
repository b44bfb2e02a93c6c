-- ===== src/PolicyStore/Kept.antt =====
-- What an activation or a rollback of scripts/lib/model-policy-store.mjs leaves in the store when it does
-- not change the policy in force.
use adaptive_model_router.Common.{
  Bool-cases, List, Option-cases, String, ap, bool_eq, inl, inr, nat_eq, none, some, string_eq,
  subst, sym, text_eq, ℕ, ◌==◌, ◌≡◌, ◌⊎◌,
}
use adaptive_model_router.Policy.{Definition, Policy}
use adaptive_model_router.PolicyStore.{
  Lease, Meta, Result, Setting, activation_lineage, bind_inv, compiled, drop_last, last?,
  read_model_policy, read_selected, retain_model_policy, returned-injective,
}
use adaptive_model_router.PolicyStore.Change.{
  Activation, activate_model_policy, activate_on, preview_model_policy, rollback_from,
  rollback_model_policy, rollback_to, without_dead,
}
use adaptive_model_router.PolicyStore.Stored.{
  IsLine-Extends, IsPlausible, IsStored, pointer-Extends, without_dead-IsStored,
}
use adaptive_model_router.Vocabulary.{
  category_eq, effort_eq, failure_eq, gate_eq, level_eq, signal_eq,
}

module _ (c : Setting) (plausible : IsPlausible c) where
  store_of : (p q : Meta × Activation) → Result.returned p ≡ Result.returned q → p.0 ≡ q.0
  store_of p q h = ap (λ (x : Meta × Activation). x.0) (returned-injective p q h)

  result_of : (p q : Meta × Activation) → Result.returned p ≡ Result.returned q → p.1 ≡ q.1
  result_of p q h = ap (λ (x : Meta × Activation). x.1) (returned-injective p q h)

  pub lease-IsStored :
      (m : Meta) (leases : List Lease) → IsStored c m → IsStored c (record m { leases = leases })
  lease-IsStored m leases stored = record {
    rows = stored.rows;
    active = pointer-Extends c plausible m _ (λ d r f. f) m.active stored.active;
    active_v2 = pointer-Extends c plausible m _ (λ d r f. f) m.active_v2 stored.active_v2;
    lineage = IsLine-Extends c plausible m _ (λ d r f. f) m.active m.lineage stored.lineage;
    lineage_v2 =
        IsLine-Extends c plausible m _ (λ d r f. f) m.active_v2 m.lineage_v2 stored.lineage_v2;
    paired = stored.paired;
  }

  -- Each other result leaves the rows.
  abbrev Kept : Meta → Meta → Activation → Type 0
  Kept m n r =
      (m ≡ n)
      ⊎ ((without_dead m ≡ n)
          ⊎ ((new : String) × (old : String) × (r ≡ Activation.activated new old)))

  activate_on_result :
      (current policy : Policy) (m n : Meta) (r : Activation)
      → activate_on c current policy m ≡ Result.returned (n, r)
      → Activation.activated policy.digest current.digest ≡ r
  unfolding activate_on
  activate_on_result current policy m n r h =
      let (values, _l, h1) = bind_inv (activation_lineage c current m) _ h in
      let (m1, _r, h2) = bind_inv (retain_model_policy c current none m) _ h1 in
      let (m2, _s, h3) = bind_inv (retain_model_policy c policy (some current.digest) m1) _ h2 in
      result_of _ (n, r) h3

  pub activate-Kept :
      (definition : Definition) (expected : String) (blocking : ℕ) (m n : Meta) (r : Activation)
      → activate_model_policy c definition expected blocking m ≡ Result.returned (n, r)
      → Kept m n r
  unfolding activate_model_policy
  activate-Kept definition expected blocking m n r h =
      let (policy, _comp, h1) = bind_inv (compiled c definition) _ h in
      let (current, _reads, h2) = bind_inv (read_model_policy c m) _ h1 in
      elim (Bool-cases (current.digest == expected)) [
        | inr e ↦ inl (store_of (m, Activation.conflict current.digest) (n, r) (rw e at h2))
        | inl e ↦
            let (preview, _p, h3) =
              bind_inv (preview_model_policy c definition blocking m) _ (rw e at h2) in
            elim (Bool-cases preview.can_activate) [
              | inr f ↦
                  inl (store_of (m, Activation.busy preview.active_delegations) (n, r) (rw f at h3))
              | inl f ↦ elim (Bool-cases (current.digest == policy.digest)) [
                | inl g ↦ inr (
                    inl (
                      store_of (without_dead m, Activation.unchanged policy.digest) (n, r)
                        (rw (f, g) at h3)))
                | inr g ↦ inr (
                    inr (
                      policy.digest,
                      current.digest,
                      sym (
                          activate_on_result current policy (without_dead m) n r (rw (f, g) at h3)),
                    ))
              ]
            ]
      ]

  rollback_to-Kept :
      (current : Policy) (values : List String) (parent : String) (blocking : ℕ) (m n : Meta)
      (r : Activation)
      → rollback_to c current values parent blocking m ≡ Result.returned (n, r)
      → Kept m n r
  unfolding rollback_to
  rollback_to-Kept current values parent blocking m n r h =
      let (target, _t, h1) = bind_inv (read_selected c (some parent) m) _ h in
      let (preview, _p, h2) = bind_inv (preview_model_policy c target.definition blocking m) _ h1 in
      elim (Bool-cases preview.can_activate) [
        | inr f ↦ inl (store_of (m, Activation.busy preview.active_delegations) (n, r) (rw f at h2))
        | inl f ↦ inr (inr (parent, current.digest, sym (result_of _ (n, r) (rw f at h2))))
      ]

  rollback_from-Kept :
      (current : Policy) (values : List String) (blocking : ℕ) (m n : Meta) (r : Activation)
      → rollback_from c current values blocking m ≡ Result.returned (n, r)
      → Kept m n r
  unfolding rollback_from
  rollback_from-Kept current values blocking m n r h =
      elim (Option-cases (last? (drop_last values))) [
        | inl f ↦ inl (store_of (m, Activation.no_previous) (n, r) (rw (f, rollback_from) at h))
        | inr (parent, f) ↦ elim (Bool-cases (parent == "")) [
          | inl g ↦
              inl (store_of (m, Activation.no_previous) (n, r) (rw (f, g, rollback_from) at h))
          | inr g ↦
              rollback_to-Kept current values parent blocking m n r (rw (f, g, rollback_from) at h)
        ]
      ]

  pub rollback-Kept :
      (expected : String) (blocking : ℕ) (m n : Meta) (r : Activation)
      → rollback_model_policy c expected blocking m ≡ Result.returned (n, r)
      → Kept m n r
  unfolding rollback_model_policy
  rollback-Kept expected blocking m n r h =
      let (current, _reads, h1) = bind_inv (read_model_policy c m) _ h in
      elim (Bool-cases (current.digest == expected)) [
        | inr e ↦ inl (store_of (m, Activation.conflict current.digest) (n, r) (rw e at h1))
        | inl e ↦
            let (values, _lines, h2) = bind_inv (activation_lineage c current m) _ (rw e at h1) in
            rollback_from-Kept current values blocking m n r h2
      ]

  -- What holds of the kept rows and of the changed ones.
  pub Kept-IsStored :
      (m n : Meta) (r : Activation)
      → IsStored c m
      → ((new old : String) → r ≡ Activation.activated new old → IsStored c n)
      → Kept m n r
      → IsStored c n
  Kept-IsStored m n r stored changed (inl same) = subst (IsStored c) same stored
  Kept-IsStored m n r stored changed (inr (inl same)) =
      subst (IsStored c) same (without_dead-IsStored c plausible m stored)
  Kept-IsStored m n r stored changed (inr (inr (new, old, e))) = changed new old e

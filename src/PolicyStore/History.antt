-- ===== src/PolicyStore/History.antt =====
-- What an activation and a rollback do to the stack of digests: scripts/lib/model-policy-store.mjs.
use adaptive_model_router.Common.{
  List, String, [], ap, bool_eq, false, nat_eq, refl, some, string_eq, subst, text_eq, ℕ, ◌++◌,
  ◌==◌, ◌∙◌, ◌∷◌, ◌≡◌,
}
use adaptive_model_router.Policy.{Definition, Policy}
use adaptive_model_router.PolicyStore.{
  Meta, Result, Setting, activation_lineage, compiled, drop_last, is_v2, last?, read_model_policy,
  read_selected,
}
use adaptive_model_router.PolicyStore.Change.{
  Activation, activate_model_policy, alive, point, preview_model_policy, rollback_from,
  rollback_model_policy, rollback_to, without_dead,
}
use adaptive_model_router.PolicyStore.Refines.{
  lineage-IsLine, lowered, lowered-IsStored, lowered-Shows, nobody_alive, parent-IsReadable, pushed,
}
use adaptive_model_router.PolicyStore.Stack.{Shows, activate_inv, drop_last-append, rollback_inv}
use adaptive_model_router.PolicyStore.Stored.{
  IsPlausible, IsReadable-is_digest, IsStored, is_digest_filled, read_selected-compiled,
}
use adaptive_model_router.Vocabulary.{
  category_eq, effort_eq, failure_eq, gate_eq, level_eq, signal_eq,
}

module _ (c : Setting) (plausible : IsPlausible c) where
  -- In a sound store, an activation that changes the policy pushes its digest onto the lineage of the
  -- policy in force, which ends in the digest that it reports as previous. The new digest is then in
  -- force, the longer lineage is what the store reads back, and the store stays sound.
  pub activate_pushes :
      (definition : Definition) (expected : String) (blocking : ℕ) (m n : Meta) (new old : String)
      → IsStored c m
      → activate_model_policy c definition expected blocking m
        ≡ Result.returned (n, Activation.activated new old)
      → (values : List String) × ((s : Shows c m values) × (s.current.digest ≡ old))
        × ((s : Shows c n (values ++ new ∷ [])) × (s.current.digest ≡ new))
        × IsStored c n
  activate_pushes definition expected blocking m n new old stored h =
      let a = activate_inv c definition expected blocking m n new old h in
      let (kept, before, after) = pushed c plausible definition blocking m n new old a stored in
      (a.values, before, after, kept)

  -- In a sound store, a rollback that changes the policy pops the lineage: the digest below the one in
  -- force is in force, the shorter lineage is what the store reads back, and the store stays sound.
  pub rollback_pops :
      (expected : String) (blocking : ℕ) (m n : Meta) (new old : String)
      → IsStored c m
      → rollback_model_policy c expected blocking m
        ≡ Result.returned (n, Activation.activated new old)
      → (values : List String) × ((s : Shows c m values) × (s.current.digest ≡ old))
        × ((s : Shows c n (drop_last values)) × (s.current.digest ≡ new))
        × IsStored c n
  rollback_pops expected blocking m n new old stored h =
      let l = rollback_inv c expected blocking m n new old h in
      let line = lineage-IsLine c plausible m l.current l.values stored l.reads l.lines in
      (
        l.values,
        (
          record { current = l.current; reads = l.reads; lines = l.lines; last = line.0 },
          l.old_digest,
        ),
        subst (λ x. (s : Shows c n (drop_last l.values)) × (s.current.digest ≡ x)) l.new_digest
            (subst (λ x. (s : Shows c x (drop_last l.values)) × (s.current.digest ≡ l.parent))
              l.result
              (lowered-Shows c plausible m stored l.current.digest l.parent l.values line l.below)),
        subst (IsStored c) l.result
            (lowered-IsStored c plausible m stored l.current.digest l.parent l.values line l.below),
      )

  rollback_to_runs :
      (m : Meta) (current target : Policy) (values : List String) (parent : String)
      → read_model_policy c m ≡ Result.returned current
      → read_selected c (some parent) m ≡ Result.returned target
      → compiled c target.definition ≡ Result.returned target
      → alive m ≡ 0
      → rollback_to c current values parent 0 m
        ≡ Result.returned (
          point c (is_v2 m) parent (drop_last values) (without_dead m),
          Activation.activated parent current.digest,
        )
  unfolding rollback_to preview_model_policy
  rollback_to_runs m current target values parent reads readable comp idle =
      rw readable (rw (comp, reads, idle) refl)

  rollback_runs :
      (m : Meta) (current target : Policy) (values : List String) (parent : String)
      → read_model_policy c m ≡ Result.returned current
      → activation_lineage c current m ≡ Result.returned values
      → last? (drop_last values) ≡ some parent
      → (parent == "") ≡ false
      → read_selected c (some parent) m ≡ Result.returned target
      → compiled c target.definition ≡ Result.returned target
      → alive m ≡ 0
      → rollback_model_policy c current.digest 0 m
        ≡ Result.returned (
          point c (is_v2 m) parent (drop_last values) (without_dead m),
          Activation.activated parent current.digest,
        )
  unfolding rollback_model_policy rollback_from
  rollback_runs m current target values parent reads lines below filled readable comp idle =
      rw reads (
        rw ((string_eq.equal_iff current.digest current.digest).1 refl) (
          rw lines (
            rw (below, filled, rollback_from)
              (rollback_to_runs m current target values parent reads readable comp idle))))

  -- In a sound store, right after an activation that changes the policy, and with nothing else that
  -- blocks, a rollback succeeds: the digest that was in force before and its lineage are back.
  pub rollback-activate :
      (definition : Definition) (expected : String) (blocking : ℕ) (m n : Meta) (new old : String)
      → IsStored c m
      → activate_model_policy c definition expected blocking m
        ≡ Result.returned (n, Activation.activated new old)
      → (values : List String) × (k : Meta) × ((s : Shows c m values) × (s.current.digest ≡ old))
        × (rollback_model_policy c new 0 n ≡ Result.returned (k, Activation.activated old new))
        × ((s : Shows c k values) × (s.current.digest ≡ old))
  rollback-activate definition expected blocking m n new old stored h =
      let a = activate_inv c definition expected blocking m n new old h in
      let (kept, before, (shows, digest)) =
        pushed c plausible definition blocking m n new old a stored in
      let grown = a.values ++ new ∷ [] in
      let line = lineage-IsLine c plausible n shows.current grown kept shows.reads shows.lines in
      let below : last? (drop_last grown) ≡ some old =
        ap last? (drop_last-append a.values new)
        ∙ (before.0.last ∙ ap (λ (x : String). some x) before.1) in
      let readable =
        parent-IsReadable c plausible n kept shows.current.digest old grown line below in
      let (target, reads, _same) = readable in
      let k = lowered c plausible n kept shows.current.digest old grown line below in
      (
        a.values,
        k,
        before,
        subst (λ x. rollback_model_policy c x 0 n ≡ Result.returned (k, Activation.activated old x))
            digest
            (rollback_runs n shows.current target grown old shows.reads shows.lines below
              (is_digest_filled c plausible old (IsReadable-is_digest c plausible n old readable))
              reads (read_selected-compiled c plausible old n target reads)
              (nobody_alive c plausible definition blocking m n new old a stored)),
        subst (λ values. (s : Shows c k values) × (s.current.digest ≡ old))
            (drop_last-append a.values new)
            (lowered-Shows c plausible n kept shows.current.digest old grown line below),
      )

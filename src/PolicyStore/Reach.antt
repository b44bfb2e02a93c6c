-- ===== src/PolicyStore/Reach.antt =====
-- The stores that calls of scripts/lib/model-policy-store.mjs reach from an empty one.
use adaptive_model_router.Common.{
  Bool-cases, List, Option, Option-cases, String, [], inl, inr, nat_beq, none, or_else, refl, some,
  subst, sym, ℕ, ◌∙◌, ◌≡◌,
}
use adaptive_model_router.Policy.{Definition, Policy}
use adaptive_model_router.PolicyStore.{
  Fault, Lease, Meta, Result, Setting, active_pointer, bind_inv, compiled, initialize_model_policy,
  is_v2, legacy_policy, read_model_policy, require_inv, retain_model_policy, returned-injective,
}
use adaptive_model_router.PolicyStore.Change.{
  Activation, activate_model_policy, rollback_model_policy,
}
use adaptive_model_router.PolicyStore.History.{rollback_pops}
use adaptive_model_router.PolicyStore.Kept.{
  Kept-IsStored, activate-Kept, lease-IsStored, rollback-Kept,
}
use adaptive_model_router.PolicyStore.Reading.{IsReadable, read_selected_none, retain-Retains}
use adaptive_model_router.PolicyStore.Refines.{current_compiled, pushed, retained-IsReadable}
use adaptive_model_router.PolicyStore.Stack.{activate_inv}
use adaptive_model_router.PolicyStore.Stored.{
  Holds, IsLine, IsLine-Extends, IsPlausible, IsStored, pointer-Extends, read_selected-compiled,
  retain-IsStored,
}

abbrev pub empty_meta : Meta
empty_meta = record {
  active = none;
  active_v2 = none;
  revisions = [];
  lineage = none;
  lineage_v2 = none;
  leases = [];
}

-- One transaction; a fault leaves the store as it is. A lease comes and goes on its own.
pub data Step (c : Setting) : Meta → Meta → Type 0 where
  initialize : {m n : Meta} → initialize_model_policy c m ≡ Result.returned n → Step c m n
  activate :
      {m n : Meta} (definition : Definition) (expected : String) (blocking : ℕ) {r : Activation}
      → activate_model_policy c definition expected blocking m ≡ Result.returned (n, r)
      → Step c m n
  rollback :
      {m n : Meta} (expected : String) (blocking : ℕ) {r : Activation}
      → rollback_model_policy c expected blocking m ≡ Result.returned (n, r)
      → Step c m n
  lease : (m : Meta) (leases : List Lease) → Step c m (record m { leases = leases })

pub data Reaches (c : Setting) : Meta → Type 0 where
  start : Reaches c empty_meta
  next : {m n : Meta} → Reaches c m → Step c m n → Reaches c n

module _ (c : Setting) (plausible : IsPlausible c) where
  legacy_compiled :
      (m : Meta) (p : Policy)
      → legacy_policy c m ≡ Result.returned p
      → compiled c p.definition ≡ Result.returned p
  legacy_compiled m p h = elim (Option-cases m.active) [
    | inl e ↦
        subst (λ (q : Policy). compiled c q.definition ≡ Result.returned q)
          (returned-injective c.default_policy p (rw (e, legacy_policy) at h))
          plausible.default_compiles
    | inr (d, e) ↦ read_selected-compiled c plausible d m p (rw (e, legacy_policy) at h)
  ]

  active-IsStored :
      (m : Meta) (o : Option String)
      → Holds (IsReadable c m) o
      → Holds (IsLine c m o) m.lineage
      → (o ≡ none → m.lineage ≡ none)
      → IsStored c m
      → IsStored c (record m { active = o })
  active-IsStored m o readable line paired stored = record {
    rows = stored.rows;
    active = pointer-Extends c plausible m _ (λ d r f. f) o readable;
    active_v2 = pointer-Extends c plausible m _ (λ d r f. f) m.active_v2 stored.active_v2;
    lineage = IsLine-Extends c plausible m _ (λ d r f. f) o m.lineage line;
    lineage_v2 =
        IsLine-Extends c plausible m _ (λ d r f. f) m.active_v2 m.lineage_v2 stored.lineage_v2;
    paired = paired;
  }

  -- A first pointer to a policy that can be read.
  seeded-IsStored :
      (m : Meta) (d : String)
      → IsReadable c m d
      → IsStored c m
      → IsStored c (record m { active = or_else m.active (some d) })
  seeded-IsStored m d readable stored = elim (Option-cases m.active) [
    | inl e ↦
        let seeded : some d ≡ or_else m.active (some d) = rw e refl in
        active-IsStored m (or_else m.active (some d))
          (subst (Holds (IsReadable c m)) seeded readable)
          (subst (λ l. Holds (IsLine c m (or_else m.active (some d))) l) (sym (stored.paired e)) tt)
          (λ _. stored.paired e) stored
    | inr (x, e) ↦
        let same : m.active ≡ or_else m.active (some d) = rw e refl in
        active-IsStored m (or_else m.active (some d))
          (subst (Holds (IsReadable c m)) same stored.active)
          (subst (λ o. Holds (IsLine c m o) m.lineage) same stored.lineage) (λ gone. cc) stored
  ]

  initialize-IsStored :
      (m n : Meta) → IsStored c m → initialize_model_policy c m ≡ Result.returned n → IsStored c n
  unfolding initialize_model_policy
  initialize-IsStored m n stored h =
      let (legacy, legacy_reads, h1) = bind_inv (legacy_policy c m) _ h in
      let (_v1, h2) =
        require_inv (nat_beq legacy.definition.schema_version 1) Fault.legacy_schema _ h1 in
      let (m1, retains1, h3) = bind_inv (retain_model_policy c legacy none m) _ h2 in
      let m2 : Meta = record m1 { active = or_else m1.active (some legacy.digest) } in
      let (policy, reads, h4) = bind_inv (read_model_policy c m2) _ h3 in
      let comp = legacy_compiled m legacy legacy_reads in
      let first = retain-Retains c legacy none m m1 comp retains1 in
      let stored1 = retain-IsStored c plausible legacy m m1 first stored in
      let stored2 =
        seeded-IsStored m1 legacy.digest
          (retained-IsReadable c plausible legacy m m1 comp first stored1) stored1 in
      retain-IsStored c plausible policy m2 n
        (retain-Retains c policy none m2 n (current_compiled c plausible m2 policy reads) h4)
        stored2

  pub Step-IsStored : {m n : Meta} → Step c m n → IsStored c m → IsStored c n
  Step-IsStored {m} {n} (Step.initialize h) stored = initialize-IsStored m n stored h
  Step-IsStored {m} {n} (Step.activate definition expected blocking {r} h) stored =
      Kept-IsStored c plausible m n r stored
        (λ new old e.
          (pushed c plausible definition blocking m n new old
            (activate_inv c definition expected blocking m n new old (rw e at h)) stored).0)
        (activate-Kept c plausible definition expected blocking m n r h)
  Step-IsStored {m} {n} (Step.rollback expected blocking {r} h) stored =
      Kept-IsStored c plausible m n r stored
        (λ new old e.
          (rollback_pops c plausible expected blocking m n new old stored (rw e at h)).3)
        (rollback-Kept c plausible expected blocking m n r h)
  Step-IsStored (Step.lease m leases) stored = lease-IsStored c plausible m leases stored

  empty-IsStored : IsStored c empty_meta
  empty-IsStored = record {
    rows = tt;
    active = tt;
    active_v2 = tt;
    lineage = tt;
    lineage_v2 = tt;
    paired = λ e. refl;
  }

  pub Reaches-IsStored : {m : Meta} → Reaches c m → IsStored c m
  Reaches-IsStored start = empty-IsStored
  Reaches-IsStored (next r step) = Step-IsStored step (Reaches-IsStored r)

  -- In every store that calls reach from an empty one, by initialisation, activations, rollbacks and
  -- leases in any order, the policy in force can be read without an error, it is a compiled one, and its
  -- digest is the one that the pointer in force names, if there is one.
  pub Reaches_reads :
      {m : Meta}
      → Reaches c m
      → (p : Policy) × (read_model_policy c m ≡ Result.returned p)
        × (compiled c p.definition ≡ Result.returned p)
        × ((d : String) → active_pointer m ≡ some d → p.digest ≡ d)
  unfolding read_model_policy
  Reaches_reads {m} r =
      let stored = Reaches-IsStored r in
      elim (Option-cases (active_pointer m)) [
        | inl e ↦
            (c.default_policy, rw e (read_selected_none c m), plausible.default_compiles, λ d f. cc)
        | inr (d, e) ↦
            let (p, reads, same) = pointer_readable m stored d e in
            (p, rw e reads, read_selected-compiled c plausible d m p reads, λ x f. same ∙ (cc))
      ]
    where
      pointer_readable :
          (m : Meta) → IsStored c m → (d : String) → active_pointer m ≡ some d → IsReadable c m d
      pointer_readable m stored d e = elim (Bool-cases (is_v2 m)) [
        | inl v ↦ subst (Holds (IsReadable c m)) (rw v at e) stored.active_v2
        | inr v ↦ subst (Holds (IsReadable c m)) (rw v at e) stored.active
      ]

-- ===== src/PolicyStore/Refines.antt =====
-- The stored policies refine a stack of digests: scripts/lib/model-policy-store.mjs.
use adaptive_model_router.Common.{
  &&-true, All-all, All-append, All-find?, All-map, Bool, Bool-cases, List, Option-cases, String,
  [], all, ap, arith, bool_eq, false, filter, inl, inr, length, length-filter-le, nat_beq, nat_eq,
  none, not, opt_beq, refl, some, string_eq, subst, sym, text_eq, true, ||-false, ℕ, ◌++◌, ◌+◌,
  ◌==◌, ◌||◌, ◌∙◌, ◌∷◌, ◌≡◌,
}
use adaptive_model_router.Policy.{Definition, Policy}
use adaptive_model_router.PolicyStore.{
  Fault, Meta, Result, Setting, activation_lineage, active_lineage, active_pointer, compiled,
  drop_last, is_digest, is_lineage_of, is_v2, last?, read_model_policy, require_inv,
  returned-injective,
}
use adaptive_model_router.PolicyStore.Change.{alive, point, without_dead}
use adaptive_model_router.PolicyStore.Lineage.{activation_lineage-without_dead, walk_line}
use adaptive_model_router.PolicyStore.Reading.{
  Extends, IsReadable, IsReadable-Extends, IsReadable-found, IsSound, Retains, compiled_definition,
  current-IsReadable, read_selected_none, retain-Retains,
}
use adaptive_model_router.PolicyStore.Stack.{
  Activates, All-drop_last, All-last?, Shows, last?-append,
}
use adaptive_model_router.PolicyStore.Stored.{
  Holds, IsLine, IsLine-Extends, IsPlausible, IsReadable-is_digest, IsStored, compiled-is_digest,
  is_digest_filled, point-IsStored, read_selected-compiled, retain-IsStored, without_dead-IsStored,
}
use adaptive_model_router.Vocabulary.{
  category_eq, effort_eq, failure_eq, gate_eq, level_eq, signal_eq,
}

module _ (c : Setting) (plausible : IsPlausible c) where
  pub current_compiled :
      (m : Meta) (p : Policy)
      → read_model_policy c m ≡ Result.returned p
      → compiled c p.definition ≡ Result.returned p
  unfolding read_model_policy
  current_compiled m p h = elim (Option-cases (active_pointer m)) [
    | inl e ↦
        subst (λ (q : Policy). compiled c q.definition ≡ Result.returned q)
          (returned-injective c.default_policy p (sym (read_selected_none c m) ∙ (rw e at h)))
          plausible.default_compiles
    | inr (d, e) ↦ read_selected-compiled c plausible d m p (rw e at h)
  ]

  -- The lineage of a policy in force ends in its digest, and all of it can be read.
  pub lineage-IsLine :
      (m : Meta) (p : Policy) (values : List String)
      → IsStored c m
      → read_model_policy c m ≡ Result.returned p
      → activation_lineage c p m ≡ Result.returned values
      → IsLine c m (some p.digest) values
  unfolding activation_lineage
  lineage-IsLine m p values stored reads h = elim (Option-cases (active_lineage m)) [
    | inl e ↦
        walk_line c (length m.revisions + 2) p.digest [] values m (current-IsReadable c m p reads)
          tt (rw (e, activation_lineage) at h)
    | inr (vs, e) ↦
        let (line, same) =
          require_inv (is_lineage_of p.digest vs) Fault.lineage_mismatch (Result.returned vs)
            (rw (e, activation_lineage) at h) in
        subst (λ v. IsLine c m (some p.digest) v) (returned-injective vs values same)
          (last_digest vs p.digest line, (readable vs e).1)
  ]
    where
      readable : (vs : List String) → active_lineage m ≡ some vs → IsLine c m (active_pointer m) vs
      readable vs e = elim (Bool-cases (is_v2 m)) [
        | inl v ↦ rw v (subst (λ o. Holds (IsLine c m m.active_v2) o) (rw v at e) stored.lineage_v2)
        | inr v ↦ rw v (subst (λ o. Holds (IsLine c m m.active) o) (rw v at e) stored.lineage)
      ]

      last_digest : (vs : List String) (d : String) → is_lineage_of d vs ≡ true → last? vs ≡ some d
      last_digest vs d line =
          let (same, _all) = &&-true (opt_beq (last? vs) (some d)) (all is_digest vs) line in
          elim (Option-cases (last? vs)) [
            | inl e ↦ cc (rw e at same)
            | inr (x, e) ↦
                e ∙ ap (λ (y : String). some y) ((string_eq.equal_iff x d).0 (rw e at same))
          ]

  point-pointer :
      (v2 : Bool) (d : String) (values : List String) (m : Meta)
      → (v2 ≡ false → is_v2 m ≡ false)
      → (active_pointer (point c v2 d values m) ≡ some d)
        × (active_lineage (point c v2 d values m) ≡ some values)
  point-pointer true d values m h = (refl, refl)
  point-pointer false d values m h = (rw (h refl) refl, rw (h refl) refl)

  point-Extends :
      (v2 : Bool) (d : String) (values : List String) (m : Meta)
      → Extends c m (point c v2 d values m)
  point-Extends true d values m = λ x r f. f
  point-Extends false d values m = λ x r f. f

  point-alive :
      (v2 : Bool) (d : String) (values : List String) (m : Meta)
      → alive (point c v2 d values m) ≡ alive m
  point-alive true d values m = refl
  point-alive false d values m = refl

  is_lineage :
      (m : Meta) (d : String) (values : List String)
      → IsLine c m (some d) values
      → is_lineage_of d values ≡ true
  is_lineage m d values (last, all) =
      let digests = All-all is_digest values (
        All-map (IsReadable c m) (λ x. is_digest x ≡ true) (IsReadable-is_digest c plausible m)
          values all) in
      rw (last, digests, (string_eq.equal_iff d d).1 refl) refl

  -- A pointer and its line are what the store shows.
  pub line-Shows :
      (m : Meta) (d : String) (values : List String)
      → active_pointer m ≡ some d
      → active_lineage m ≡ some values
      → IsReadable c m d
      → IsLine c m (some d) values
      → (s : Shows c m values) × (s.current.digest ≡ d)
  unfolding read_model_policy activation_lineage
  line-Shows m d values pointer lineage (p, reads, same) line = (
    record {
      current = p;
      reads = rw pointer reads;
      lines =
          rw (lineage, activation_lineage) (rw (rw (← same) at (is_lineage m d values line)) refl);
      last = line.0 ∙ ap (λ (x : String). some x) (sym same);
    },
    same,
  )

  pub retained-IsReadable :
      (p : Policy) (m n : Meta)
      → compiled c p.definition ≡ Result.returned p
      → Retains c p m n
      → IsStored c n
      → IsReadable c n p.digest
  retained-IsReadable p m n comp kept stored =
      let (r, found) = kept.found in
      IsReadable-found c p.digest n r
        (is_digest_filled c plausible p.digest (compiled-is_digest c plausible p.definition p comp))
        found (All-find? (IsSound c) (λ x. x.digest == p.digest) n.revisions stored.rows found)

  -- An activation's two retained policies and its new pointer.
  module _ (definition : Definition) (blocking : ℕ) (m n : Meta) (new old : String)
      (a : Activates c definition blocking m n new old) (stored : IsStored c m) where
    first : Retains c a.current (without_dead m) a.m1
    first =
        retain-Retains c a.current none (without_dead m) a.m1 (current_compiled m a.current a.reads)
          a.retains_current

    policy_compiled : compiled c a.policy.definition ≡ Result.returned a.policy
    policy_compiled =
        subst (λ d. compiled c d ≡ Result.returned a.policy)
          (sym (compiled_definition c definition a.policy a.compiles)) a.compiles

    second : Retains c a.policy a.m1 a.m2
    second =
        retain-Retains c a.policy (some a.current.digest) a.m1 a.m2 policy_compiled a.retains_policy

    retained-IsStored : IsStored c a.m2
    retained-IsStored = retain-IsStored c plausible a.policy a.m1 a.m2 second (
        retain-IsStored c plausible a.current (without_dead m) a.m1 first
          (without_dead-IsStored c plausible m stored))

    old-IsLine : IsLine c m (some a.current.digest) a.values
    old-IsLine =
        lineage-IsLine m a.current a.values stored a.reads
          (sym (activation_lineage-without_dead c a.current m) ∙ a.lines)

    policy-IsReadable : IsReadable c a.m2 a.policy.digest
    policy-IsReadable =
        retained-IsReadable a.policy a.m1 a.m2 policy_compiled second retained-IsStored

    new-IsLine : IsLine c a.m2 (some a.policy.digest) (a.values ++ a.policy.digest ∷ [])
    new-IsLine = (
      last?-append a.values a.policy.digest,
      All-append (IsReadable c a.m2) a.values _
          (All-map (IsReadable c m) (IsReadable c a.m2)
            (λ d h.
              IsReadable-Extends c d a.m1 a.m2 second.extends
                (IsReadable-Extends c d m a.m1 first.extends h))
            a.values old-IsLine.1)
          (policy-IsReadable, tt),
    )

    -- No inference is left to wait for.
    pub nobody_alive : alive n ≡ 0
    nobody_alive =
        let grown = a.values ++ a.policy.digest ∷ [] in
        let same : alive n ≡ alive (without_dead m) =
          sym (ap alive a.result)
          ∙ (point-alive (nat_beq a.policy.definition.schema_version 2 || is_v2 a.m2)
                a.policy.digest grown a.m2
              ∙ (ap alive second.only ∙ ap alive first.only)) in
        let shorter = length-filter-le (λ l. not l.dead) (filter (λ l. not l.dead) m.leases) in
        omega (arith, same, shorter, a.idle)

    -- The new version is chosen so that the pointer is read.
    pub pushed :
        IsStored c n
        × ((s : Shows c m a.values) × (s.current.digest ≡ old))
        × ((s : Shows c n (a.values ++ new ∷ [])) × (s.current.digest ≡ new))
    pushed = (
      subst (IsStored c) a.result (
          point-IsStored c plausible v2 a.policy.digest grown a.m2 policy-IsReadable new-IsLine
            retained-IsStored),
      (
        record {
          current = a.current;
          reads = a.reads;
          lines = sym (activation_lineage-without_dead c a.current m) ∙ a.lines;
          last = old-IsLine.0;
        },
        a.old_digest,
      ),
      subst (λ x. (s : Shows c n (a.values ++ x ∷ [])) × (s.current.digest ≡ x)) a.new_digest
          (subst (λ x. (s : Shows c x grown) × (s.current.digest ≡ a.policy.digest)) a.result
            shown),
    )
      where
        v2 : Bool
        v2 = nat_beq a.policy.definition.schema_version 2 || is_v2 a.m2

        grown : List String
        grown = a.values ++ a.policy.digest ∷ []

        pointed : Meta
        pointed = point c v2 a.policy.digest grown a.m2

        shown : (s : Shows c pointed grown) × (s.current.digest ≡ a.policy.digest)
        shown =
            let (pointer, lineage) =
              point-pointer v2 a.policy.digest grown a.m2
                (λ h. (||-false (nat_beq a.policy.definition.schema_version 2) (is_v2 a.m2) h).1) in
            let extended = point-Extends v2 a.policy.digest grown a.m2 in
            line-Shows pointed a.policy.digest grown pointer lineage
              (IsReadable-Extends c a.policy.digest a.m2 pointed extended policy-IsReadable)
              (IsLine-Extends c plausible a.m2 pointed extended (some a.policy.digest) (some grown)
                new-IsLine)

  -- The pointer moved one step down its line.
  module _ (m : Meta) (stored : IsStored c m) (current parent : String) (values : List String)
      (line : IsLine c m (some current) values)
      (below : last? (drop_last values) ≡ some parent) where
    abbrev pub lowered : Meta
    lowered = point c (is_v2 m) parent (drop_last values) (without_dead m)

    low-IsLine : IsLine c m (some parent) (drop_last values)
    low-IsLine = (below, All-drop_last (IsReadable c m) values line.1)

    pub parent-IsReadable : IsReadable c m parent
    parent-IsReadable = All-last? (IsReadable c m) (drop_last values) low-IsLine.1 below

    pub lowered-IsStored : IsStored c lowered
    lowered-IsStored =
        point-IsStored c plausible (is_v2 m) parent (drop_last values) (without_dead m)
          (IsReadable-Extends c parent m (without_dead m) (λ d r f. f) parent-IsReadable)
          (IsLine-Extends c plausible m (without_dead m) (λ d r f. f) (some parent)
            (some (drop_last values)) low-IsLine)
          (without_dead-IsStored c plausible m stored)

    pub lowered-Shows : (s : Shows c lowered (drop_last values)) × (s.current.digest ≡ parent)
    lowered-Shows =
        let (pointer, lineage) =
          point-pointer (is_v2 m) parent (drop_last values) (without_dead m) (λ h. h) in
        line-Shows lowered parent (drop_last values) pointer lineage
          (IsReadable-Extends c parent m lowered extended parent-IsReadable)
          (IsLine-Extends c plausible m lowered extended (some parent) (some (drop_last values))
            low-IsLine)
      where
        extended : Extends c m lowered
        extended = point-Extends (is_v2 m) parent (drop_last values) (without_dead m)

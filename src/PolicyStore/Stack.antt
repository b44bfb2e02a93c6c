-- ===== src/PolicyStore/Stack.antt =====
-- The stored policies as a stack of digests: an activation pushes and a rollback pops.
-- scripts/lib/model-policy-store.mjs.
use adaptive_model_router.Common.{
  All, Bool-cases, List, Option-cases, String, [], ap, bool_eq, inl, inr, nat_beq, nat_beq_iff,
  nat_eq, none, refl, some, string_eq, subst, text_eq, true, ℕ, ◌++◌, ◌+◌, ◌==◌, ◌||◌, ◌∙◌, ◌∷◌,
  ◌≡◌,
}
use adaptive_model_router.Policy.{Definition, Policy}
use adaptive_model_router.PolicyStore.{
  Meta, Result, Setting, activation_lineage, bind_inv, compiled, drop_last, is_v2, last?,
  read_model_policy, read_selected, retain_model_policy, returned-injective,
}
use adaptive_model_router.PolicyStore.Change.{
  Activation, Preview, activate_model_policy, activate_on, alive, point, preview_model_policy,
  rollback_from, rollback_model_policy, rollback_to, without_dead,
}
use adaptive_model_router.Vocabulary.{
  category_eq, effort_eq, failure_eq, gate_eq, level_eq, signal_eq,
}

pub last?-append {ℓ} : {A : Type ℓ} (xs : List A) (x : A) → last? (xs ++ x ∷ []) ≡ some x
last?-append [] x = refl
last?-append (y ∷ []) x = refl
last?-append (y ∷ z ∷ zs) x = last?-append (z ∷ zs) x

pub drop_last-append {ℓ} : {A : Type ℓ} (xs : List A) (x : A) → drop_last (xs ++ x ∷ []) ≡ xs
drop_last-append [] x = refl
drop_last-append (y ∷ []) x = refl
drop_last-append (y ∷ z ∷ zs) x = ap (λ (rest : List _). y ∷ rest) (drop_last-append (z ∷ zs) x)

pub All-drop_last {ℓ κ} :
    {A : Type ℓ} (P : A → Type κ) (xs : List A) → All P xs → All P (drop_last xs)
All-drop_last P [] h = tt
All-drop_last P (x ∷ []) h = tt
All-drop_last P (x ∷ y ∷ rest) h = (h.0, All-drop_last P (y ∷ rest) h.1)

pub All-last? {ℓ κ} :
    {A : Type ℓ} (P : A → Type κ) (xs : List A) {x : A} → All P xs → last? xs ≡ some x → P x
All-last? P [] h e = cc
All-last? P (y ∷ []) {x} h e = let same : y ≡ x = cc in subst P same h.0
All-last? P (x ∷ y ∷ rest) h e = All-last? P (y ∷ rest) h.1 e

activated_new : (a b d e : String) → Activation.activated a b ≡ Activation.activated d e → a ≡ d
activated_new a b d e h = cc

activated_old : (a b d e : String) → Activation.activated a b ≡ Activation.activated d e → b ≡ e
activated_old a b d e h = cc

module _ (c : Setting) where
  -- The abstract view: the digests of the activations that led to the policy in force, the last one.
  pub record Shows (m : Meta) (values : List String) : Type 0 where
    pub current : Policy
    pub reads : read_model_policy c m ≡ Result.returned current
    pub lines : activation_lineage c current m ≡ Result.returned values
    pub last : last? values ≡ some current.digest

  -- What a change of the policy passes through.
  pub record Activates (definition : Definition) (blocking : ℕ) (m n : Meta) (new old : String)
      : Type 0 where
    pub policy : Policy
    pub current : Policy
    pub values : List String
    pub m1 : Meta
    pub m2 : Meta
    pub compiles : compiled c definition ≡ Result.returned policy
    pub reads : read_model_policy c m ≡ Result.returned current
    pub lines : activation_lineage c current (without_dead m) ≡ Result.returned values
    pub retains_current : retain_model_policy c current none (without_dead m) ≡ Result.returned m1
    pub retains_policy : retain_model_policy c policy (some current.digest) m1 ≡ Result.returned m2
    pub result :
        point c
          (nat_beq policy.definition.schema_version 2 || is_v2 m2)
          policy.digest
          (values ++ policy.digest ∷ [])
          m2
        ≡ n
    pub new_digest : policy.digest ≡ new
    pub old_digest : current.digest ≡ old
    pub idle : blocking + alive m ≡ 0

  activate_on_inv :
      (definition : Definition) (blocking : ℕ) (m n : Meta) (new old : String)
      (current policy : Policy)
      → compiled c definition ≡ Result.returned policy
      → read_model_policy c m ≡ Result.returned current
      → blocking + alive m ≡ 0
      → activate_on c current policy (without_dead m)
        ≡ Result.returned (n, Activation.activated new old)
      → Activates definition blocking m n new old
  unfolding activate_on
  activate_on_inv definition blocking m n new old current policy comp reads idle h =
      let (values, lines, h1) = bind_inv (activation_lineage c current (without_dead m)) _ h in
      let (m1, retains1, h2) =
        bind_inv (retain_model_policy c current none (without_dead m)) _ h1 in
      let (m2, retains2, h3) =
        bind_inv (retain_model_policy c policy (some current.digest) m1) _ h2 in
      let pair = returned-injective _ (n, Activation.activated new old) h3 in
      record {
        policy = policy;
        current = current;
        values = values;
        m1 = m1;
        m2 = m2;
        compiles = comp;
        reads = reads;
        lines = lines;
        retains_current = retains1;
        retains_policy = retains2;
        result = ap (λ p. p.0) pair;
        new_digest = activated_new _ _ _ _ (ap (λ p. p.1) pair);
        old_digest = activated_old _ _ _ _ (ap (λ p. p.1) pair);
        idle = idle;
      }

  preview_idle :
      (definition : Definition) (blocking : ℕ) (m : Meta) (p : Preview)
      → preview_model_policy c definition blocking m ≡ Result.returned p
      → p.can_activate ≡ true
      → blocking + alive m ≡ 0
  unfolding preview_model_policy
  preview_idle definition blocking m p h idle =
      let (proposed, _comp, h1) = bind_inv (compiled c definition) _ h in
      let (current, _reads, h2) = bind_inv (read_model_policy c m) _ h1 in
      (nat_beq_iff (blocking + alive m) 0).0
        (ap (λ (r : Preview). r.can_activate) (returned-injective _ p h2) ∙ idle)

  -- An activation that changes the policy went through every step.
  pub activate_inv :
      (definition : Definition) (expected : String) (blocking : ℕ) (m n : Meta) (new old : String)
      → activate_model_policy c definition expected blocking m
        ≡ Result.returned (n, Activation.activated new old)
      → Activates definition blocking m n new old
  unfolding activate_model_policy
  activate_inv definition expected blocking m n new old h =
      let (policy, comp, h1) = bind_inv (compiled c definition) _ h in
      let (current, reads, h2) = bind_inv (read_model_policy c m) _ h1 in
      elim (Bool-cases (current.digest == expected)) [
        | inr e ↦ cc (rw e at h2)
        | inl e ↦
            let (preview, previews, h3) =
              bind_inv (preview_model_policy c definition blocking m) _ (rw e at h2) in
            elim (Bool-cases preview.can_activate) [
              | inr f ↦ cc (rw f at h3)
              | inl f ↦ elim (Bool-cases (current.digest == policy.digest)) [
                | inl g ↦ cc (rw (f, g) at h3)
                | inr g ↦
                    activate_on_inv definition blocking m n new old current policy comp reads
                      (preview_idle definition blocking m preview previews f) (rw (f, g) at h3)
              ]
            ]
      ]

  pub rollback_to_inv :
      (current : Policy) (values : List String) (parent : String) (blocking : ℕ) (m n : Meta)
      (new old : String)
      → rollback_to c current values parent blocking m
        ≡ Result.returned (n, Activation.activated new old)
      → (point c (is_v2 m) parent (drop_last values) (without_dead m) ≡ n)
        × (parent ≡ new)
        × (current.digest ≡ old)
  unfolding rollback_to
  rollback_to_inv current values parent blocking m n new old h =
      let (target, _t, h1) = bind_inv (read_selected c (some parent) m) _ h in
      let (preview, _p, h2) = bind_inv (preview_model_policy c target.definition blocking m) _ h1 in
      elim (Bool-cases preview.can_activate) [
        | inr f ↦ cc (rw f at h2)
        | inl f ↦
            let pair = returned-injective _ (n, Activation.activated new old) (rw f at h2) in
            (
              ap (λ p. p.0) pair,
              activated_new _ _ _ _ (ap (λ p. p.1) pair),
              activated_old _ _ _ _ (ap (λ p. p.1) pair),
            )
      ]

  -- What a rollback passes through.
  pub record Lowers (m n : Meta) (new old : String) : Type 0 where
    pub current : Policy
    pub values : List String
    pub parent : String
    pub reads : read_model_policy c m ≡ Result.returned current
    pub lines : activation_lineage c current m ≡ Result.returned values
    pub below : last? (drop_last values) ≡ some parent
    pub result : point c (is_v2 m) parent (drop_last values) (without_dead m) ≡ n
    pub new_digest : parent ≡ new
    pub old_digest : current.digest ≡ old

  rollback_from_inv :
      (current : Policy) (values : List String) (blocking : ℕ) (m n : Meta) (new old : String)
      → read_model_policy c m ≡ Result.returned current
      → activation_lineage c current m ≡ Result.returned values
      → rollback_from c current values blocking m
        ≡ Result.returned (n, Activation.activated new old)
      → Lowers m n new old
  unfolding rollback_from
  rollback_from_inv current values blocking m n new old reads lines h =
      elim (Option-cases (last? (drop_last values))) [
        | inl f ↦ cc (rw (f, rollback_from) at h)
        | inr (parent, f) ↦ elim (Bool-cases (parent == "")) [
          | inl g ↦ cc (rw (f, g, rollback_from) at h)
          | inr g ↦
              let (moved, parent_new, digest_old) =
                rollback_to_inv current values parent blocking m n new old
                  (rw (f, g, rollback_from) at h) in
              record {
                current = current;
                values = values;
                parent = parent;
                reads = reads;
                lines = lines;
                below = f;
                result = moved;
                new_digest = parent_new;
                old_digest = digest_old;
              }
        ]
      ]

  pub rollback_inv :
      (expected : String) (blocking : ℕ) (m n : Meta) (new old : String)
      → rollback_model_policy c expected blocking m
        ≡ Result.returned (n, Activation.activated new old)
      → Lowers m n new old
  unfolding rollback_model_policy
  rollback_inv expected blocking m n new old h =
      let (current, reads, h1) = bind_inv (read_model_policy c m) _ h in
      elim (Bool-cases (current.digest == expected)) [
        | inr e ↦ cc (rw e at h1)
        | inl e ↦
            let (values, lines, h2) = bind_inv (activation_lineage c current m) _ (rw e at h1) in
            rollback_from_inv current values blocking m n new old reads lines h2
      ]

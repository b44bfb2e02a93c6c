-- ===== src/PolicyStore/Reading.antt =====
-- What reading and retaining a policy do: scripts/lib/model-policy-store.mjs.
use adaptive_model_router.Common.{
  All, All-append, Bool-cases, Option, Option-cases, String, arith, bool_eq, false,
  find?-append_none, find?-append_some, find?-holds, inl, inr, nat_eq, none, refl, some, string_eq,
  subst, sym, text_eq, ◌==◌, ◌||◌, ◌∙◌, ◌≡◌, ◌⊎◌,
}
use adaptive_model_router.Policy.{Definition, Policy}
use adaptive_model_router.Policy.Compile.{compile_model_policy}
use adaptive_model_router.PolicyStore.{
  Fault, Meta, Result, Revision, Setting, active_pointer, bind_inv, compiled, find_revision,
  read_model_policy, read_revision, read_selected, require_inv, retain_model_policy,
  returned-injective,
}
use adaptive_model_router.Vocabulary.{
  category_eq, effort_eq, failure_eq, gate_eq, level_eq, signal_eq,
}

module _ (c : Setting) where
  -- The definition of a row compiles to a policy with the digest of the row.
  abbrev pub IsSound : Revision → Type 0
  IsSound r =
      compiled c r.definition
      ≡ Result.returned (record { definition = r.definition; digest = r.digest })

  -- Reading the digest gives a policy with that digest.
  abbrev pub IsReadable : Meta → String → Type 0
  IsReadable m d = (p : Policy) × (read_selected c (some d) m ≡ Result.returned p) × (p.digest ≡ d)

  -- Every row is still found by its digest.
  abbrev pub Extends : Meta → Meta → Type 0
  Extends m n =
      (d : String) (r : Revision)
      → find_revision d m.revisions ≡ some r
      → find_revision d n.revisions ≡ some r

  pub compiled_digest :
      (d : Definition) (p : Policy) → compiled c d ≡ Result.returned p → p.digest ≡ c.digest_of d
  unfolding compiled compile_model_policy
  compiled_digest d p h = ground arith

  pub compiled_definition :
      (d : Definition) (p : Policy) → compiled c d ≡ Result.returned p → p.definition ≡ d
  unfolding compiled compile_model_policy
  compiled_definition d p h = ground arith

  pub read_revision_found :
      (d : String) (m : Meta) (p : Policy)
      → read_revision c d m ≡ Result.returned p
      → (r : Revision) × (find_revision d m.revisions ≡ some r)
        × (compiled c r.definition ≡ Result.returned p)
        × (p.digest ≡ d)
  unfolding read_revision
  read_revision_found d m p h = elim (Option-cases (find_revision d m.revisions)) [
    | inl e ↦ cc (rw (e, read_revision) at h)
    | inr (r, e) ↦
        let found = bind_inv (compiled c r.definition) _ (rw (e, read_revision) at h) in
        let same =
          require_inv (found.0.digest == d) Fault.revision_digest_mismatch (Result.returned found.0)
            found.2 in
        let same_policy = returned-injective found.0 p same.1 in
        (r, e, rw (← same_policy) found.1, rw (← same_policy) ((string_eq.equal_iff _ _).0 same.0))
  ]

  -- A readable digest, its policy, and why.
  pub read_selected_inv :
      (d : String) (m : Meta) (p : Policy)
      → read_selected c (some d) m ≡ Result.returned p
      → (p ≡ c.default_policy) ⊎ (read_revision c d m ≡ Result.returned p)
  unfolding read_selected
  read_selected_inv d m p h = elim (Bool-cases (d == "" || d == c.default_policy.digest)) [
    | inl e ↦ inl (sym (returned-injective c.default_policy p (rw e at h)))
    | inr e ↦ inr (rw e at h)
  ]

  pub read_revision_of :
      (d : String) (m : Meta) (r : Revision) (p : Policy)
      → find_revision d m.revisions ≡ some r
      → compiled c r.definition ≡ Result.returned p
      → p.digest ≡ d
      → read_revision c d m ≡ Result.returned p
  unfolding read_revision
  read_revision_of d m r p found comp same =
      rw (found, read_revision) (rw comp (rw ((string_eq.equal_iff _ _).1 same) refl))

  -- Every row that has the digest makes it readable.
  pub IsReadable-found :
      (d : String) (m : Meta) (r : Revision)
      → (d == "") ≡ false
      → find_revision d m.revisions ≡ some r
      → IsSound r
      → IsReadable m d
  unfolding read_selected
  IsReadable-found d m r filled found sound = elim (Bool-cases (d == c.default_policy.digest)) [
    | inl e ↦ (c.default_policy, rw (filled, e), sym ((string_eq.equal_iff _ _).0 e))
    | inr e ↦
        let same =
          (string_eq.equal_iff _ _).0 (find?-holds (λ r. r.digest == d) m.revisions found) in
        (
          record { definition = r.definition; digest = r.digest },
          rw (filled, e) (read_revision_of d m r _ found sound same),
          same,
        )
  ]

  pub IsReadable-Extends : (d : String) (m n : Meta) → Extends m n → IsReadable m d → IsReadable n d
  unfolding read_selected
  IsReadable-Extends d m n ext (p, h, same) =
      elim (Bool-cases (d == "" || d == c.default_policy.digest)) [
        | inl e ↦ (p, rw e (rw e at h), same)
        | inr e ↦
            let (r, found, comp, _same) = read_revision_found d m p (rw e at h) in
            (p, rw e (read_revision_of d n r p (ext d r found) comp same), same)
      ]

  -- What retaining a policy leaves: every row found before, the policy's digest among them, sound rows,
  -- and every other key.
  pub record Retains (p : Policy) (m n : Meta) : Type 0 where
    pub extends : Extends m n
    pub found : (r : Revision) × (find_revision p.digest n.revisions ≡ some r)
    pub sound : All IsSound m.revisions → All IsSound n.revisions
    pub only : n ≡ record m { revisions = n.revisions }

  pub retain-Retains :
      (p : Policy) (parent : Option String) (m n : Meta)
      → compiled c p.definition ≡ Result.returned p
      → retain_model_policy c p parent m ≡ Result.returned n
      → Retains p m n
  unfolding retain_model_policy
  retain-Retains p parent m n comp h = elim (Option-cases (find_revision p.digest m.revisions)) [
    | inl e ↦
        let added = returned-injective _ n (rw (e, retain_model_policy) at h) in
        rw (← added) (record {
          extends = λ d r f. find?-append_some (λ r. r.digest == d) m.revisions _ f;
          found = (
            new,
            find?-append_none (λ r. r.digest == p.digest) m.revisions _ e
                ∙ rw ((string_eq.equal_iff p.digest p.digest).1 refl) refl,
          );
          sound = λ all. All-append IsSound m.revisions _ all (comp, tt);
          only = refl;
        })
    | inr (r, e) ↦
        let kept =
          require_inv (c.canonical r.definition == c.canonical p.definition)
            Fault.revision_collision (Result.returned m) (rw (e, retain_model_policy) at h) in
        rw (← returned-injective m n kept.1)
          (record { extends = λ d r f. f; found = (r, e); sound = λ all. all; only = refl })
  ]
    where
      new : Revision
      new = record { digest = p.digest; definition = p.definition; parent_digest = parent }

  pub read_selected_digest :
      (d : String) (m : Meta) (p : Policy)
      → (d == "") ≡ false
      → read_selected c (some d) m ≡ Result.returned p
      → p.digest ≡ d
  unfolding read_selected
  read_selected_digest d m p filled h = elim (Bool-cases (d == c.default_policy.digest)) [
    | inl e ↦
        rw (← returned-injective c.default_policy p (rw (filled, e) at h))
          (sym ((string_eq.equal_iff _ _).0 e))
    | inr e ↦
        let (_r, _found, _comp, same) = read_revision_found d m p (rw (filled, e) at h) in same
  ]

  pub read_model_policy_digest :
      (m : Meta) (p : Policy) (d : String)
      → (d == "") ≡ false
      → active_pointer m ≡ some d
      → read_model_policy c m ≡ Result.returned p
      → p.digest ≡ d
  unfolding read_model_policy
  read_model_policy_digest m p d filled e h =
      read_selected_digest d m p filled (rw (e, read_model_policy) at h)

  pub default-IsReadable : (m : Meta) → IsReadable m c.default_policy.digest
  unfolding read_selected
  default-IsReadable m = (
    c.default_policy,
    elim (Bool-cases (c.default_policy.digest == "")) [
      | inl f ↦ rw f refl
      | inr f ↦
          rw (f, (string_eq.equal_iff c.default_policy.digest c.default_policy.digest).1 refl) refl
    ],
    refl,
  )

  pub read_selected_none : (m : Meta) → read_selected c none m ≡ Result.returned c.default_policy
  unfolding read_selected
  read_selected_none m = refl

  pub current-IsReadable :
      (m : Meta) (p : Policy) → read_model_policy c m ≡ Result.returned p → IsReadable m p.digest
  unfolding read_model_policy
  current-IsReadable m p h = elim (Option-cases (active_pointer m)) [
    | inl e ↦
        subst (λ (q : Policy). IsReadable m q.digest)
          (returned-injective c.default_policy p (sym (read_selected_none m) ∙ (rw e at h)))
          (default-IsReadable m)
    | inr (d, e) ↦ elim (read_selected_inv d m p (rw e at h)) [
      | inl same ↦ subst (λ (q : Policy). IsReadable m q.digest) (sym same) (default-IsReadable m)
      | inr found ↦
          let (_r, _found, _comp, same) = read_revision_found d m p found in
          subst (λ x. IsReadable m x) (sym same) (p, rw e at h, same)
    ]
  ]

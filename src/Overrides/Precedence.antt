-- ===== src/Overrides/Precedence.antt =====
-- What a stored override does to the next resolution.
use mathlib.Core.Bool.{false≢true}
use adaptive_model_router.Common.{
  Bool, Bool-cases, List, Option, Option-cases, String, [], any, arith, bool_eq, eq_iff, false,
  filter, find?, if-all, inl, inr, nat_beq, nat_eq, none, not, refl, some, string_eq, subst,
  text_eq, true, ||-false, ℕ, ◌&&◌, ◌++◌, ◌==◌, ◌∷◌, ◌≡◌,
}
use adaptive_model_router.Gate.{Context, update}
use adaptive_model_router.Overrides.{
  GlobalKeys, OverrideRow, Resolved, Scope, Wish, Written, clear_overrides, first_override,
  is_locked, keyed, lock_allowed, normalized_model, override_keys, resolve_override, scope_index,
  set_override, write_override,
}
use adaptive_model_router.Policy.{AllowedModel}
use adaptive_model_router.Vocabulary.{
  category_eq, effort_eq, failure_eq, gate_eq, level_eq, signal_eq,
}

nat_beq_refl : (n : ℕ) → nat_beq n n ≡ true
nat_beq_refl n = ground arith

string_same : (s : String) → (s == s) ≡ true
string_same s = (eq_iff s s).1 refl

stores-injective :
    (rows rows' : List OverrideRow) → Written.stores rows ≡ Written.stores rows' → rows ≡ rows'
stores-injective rows rows' h = cc

module _ (g : GlobalKeys) where
  found_appended :
      (p : OverrideRow → Bool) (rows : List OverrideRow) (r : OverrideRow)
      → any p rows ≡ false
      → p r ≡ true
      → find? p (rows ++ r ∷ []) ≡ some r
  found_appended p [] r h e = rw e refl
  found_appended p (x ∷ xs) r h e =
      let split = ||-false (p x) (any p xs) h in rw split.0 (found_appended p xs r split.1 e)

  found_updated :
      (p : OverrideRow → Bool) (f : OverrideRow → OverrideRow) (w : Wish) (rows : List OverrideRow)
      → ((r : OverrideRow) → p (f r) ≡ p r)
      → ((r : OverrideRow) → (f r).wish ≡ w)
      → any p rows ≡ true
      → (r : OverrideRow) × (find? p (update p f rows) ≡ some r) × (r.wish ≡ w)
  unfolding update
  found_updated p f w [] same gives h = absurd (false≢true h)
  found_updated p f w (x ∷ xs) same gives h = elim (Bool-cases (p x)) [
    | inl e ↦ rw (e, same x, e) (f x, refl, gives x)
    | inr e ↦ rw (e, e) (found_updated p f w xs same gives (rw e at h))
  ]

  -- After a normalised override is stored, its scope has a row with it.
  write-found :
      (allowed : List AllowedModel) (id : ℕ) (c : Context) (scope : Scope) (w : Wish)
      (rows rows' : List OverrideRow)
      → write_override g allowed id c scope w rows ≡ Written.stores rows'
      → (r : OverrideRow) × (find? (keyed g scope (override_keys g c scope)) rows' ≡ some r)
        × (r.wish ≡ w)
  unfolding write_override
  write-found allowed id c scope w rows rows' =
      if-all Result (is_locked w.mode && not (lock_allowed allowed w)) _ _ (λ _ h. cc)
        (λ _.
          if-all Result (any p rows) _ _
            (λ known h.
              subst (λ z. (r : OverrideRow) × (find? p z ≡ some r) × (r.wish ≡ w))
                (stores-injective _ rows' h)
                (found_updated p (λ r. record r { wish = w }) w rows (λ r. refl) (λ r. refl) known))
            (λ fresh h.
              subst (λ z. (r : OverrideRow) × (find? p z ≡ some r) × (r.wish ≡ w))
                (stores-injective _ rows' h) (new, found_appended p rows new fresh own, refl)))
    where
      p : OverrideRow → Bool
      p = keyed g scope (override_keys g c scope)

      new : OverrideRow
      new = record {
        id = id;
        scope = scope;
        project_id = (override_keys g c scope).project_id;
        context_key = (override_keys g c scope).context_key;
        wish = w;
      }

      own : keyed g scope (override_keys g c scope) new ≡ true
      own =
          rw
            (
              nat_beq_refl (scope_index scope),
              string_same (override_keys g c scope).project_id,
              string_same (override_keys g c scope).context_key,
            )
            refl

      Result : Written → Type 0
      Result o =
          o ≡ Written.stores rows'
          → (r : OverrideRow) × (find? (keyed g scope (override_keys g c scope)) rows' ≡ some r)
            × (r.wish ≡ w)

  -- An override that `setOverride` stores for one use, with a model that has a valid format or is left
  -- open, is what the next resolution without a request answers, whatever else is stored: with its model
  -- normalised, and its mode and effort as they were given.
  pub set-resolve :
      (allowed : List AllowedModel) (id : ℕ) (c : Context) (w : Wish) (allow_global : Bool)
      (rows rows' : List OverrideRow)
      → set_override g allowed id c Scope.once w rows ≡ Written.stores rows'
      → (model : Option String) × (used : ℕ) × (normalized_model w.model ≡ some model)
        × (resolve_override g c none allow_global rows'
            ≡ Resolved.stored Scope.once (record w { model = model }) (some used))
  unfolding set_override resolve_override first_override
  set-resolve allowed id c w allow_global rows rows' h =
      elim (Option-cases (normalized_model w.model)) [
        | inl e ↦ cc (rw (e, set_override) at h)
        | inr (model, e) ↦
            let (r, found, says) =
              write-found allowed id c Scope.once (record w { model = model }) rows rows'
                (rw (e, set_override) at h) in
            (model, r.id, e, rw (found, resolve_override, first_override, says) refl)
      ]

  filtered_none :
      (p : OverrideRow → Bool) (rows : List OverrideRow)
      → find? p (filter (λ r. not (p r)) rows) ≡ none
  filtered_none p [] = refl
  filtered_none p (x ∷ xs) = elim (Bool-cases (p x)) [
    | inl e ↦ rw e (filtered_none p xs)
    | inr e ↦ rw (e, e) (filtered_none p xs)
  ]

  still_none :
      (p q : OverrideRow → Bool) (rows : List OverrideRow)
      → find? p rows ≡ none
      → find? p (filter q rows) ≡ none
  still_none p q [] h = refl
  still_none p q (x ∷ xs) h = elim (Bool-cases (p x)) [
    | inl e ↦ absurd (some_ne_none x (rw e at h))
    | inr e ↦ elim (Bool-cases (q x)) [
      | inl f ↦ rw (f, e) (still_none p q xs (rw e at h))
      | inr f ↦ rw f (still_none p q xs (rw e at h))
    ]
  ]
    where
      some_ne_none : (r : OverrideRow) → some r ≡ none → ⊥
      some_ne_none r k = cc

  -- After all overrides of a context are cleared, a resolution without a request finds none.
  pub clear-resolve :
      (c : Context) (allow_global : Bool) (rows : List OverrideRow)
      → resolve_override g c none allow_global (clear_overrides g c none rows) ≡ Resolved.nothing
  unfolding resolve_override clear_overrides first_override
  clear-resolve c allow_global rows =
      let once = keyed g Scope.once (override_keys g c Scope.once) in
      let session = keyed g Scope.session (override_keys g c Scope.session) in
      let project = keyed g Scope.project (override_keys g c Scope.project) in
      let global = keyed g Scope.global (override_keys g c Scope.global) in
      let one = filter (λ r. not (once r)) rows in
      let two = filter (λ r. not (session r)) one in
      let three = filter (λ r. not (project r)) two in
      let four = filter (λ r. not (global r)) three in
      let a =
        still_none once (λ r. not (global r)) three
          (still_none once (λ r. not (project r)) two
            (still_none once (λ r. not (session r)) one (filtered_none once rows))) in
      let b =
        still_none session (λ r. not (global r)) three
          (still_none session (λ r. not (project r)) two (filtered_none session one)) in
      let d = still_none project (λ r. not (global r)) three (filtered_none project two) in
      let e : find? global four ≡ none = filtered_none global three in
      by_global allow_global a b d e
    where
      by_global :
          (b : Bool)
          → find?
              (keyed g Scope.once (override_keys g c Scope.once))
              (clear_overrides g c none rows)
            ≡ none
          → find?
              (keyed g Scope.session (override_keys g c Scope.session))
              (clear_overrides g c none rows)
            ≡ none
          → find?
              (keyed g Scope.project (override_keys g c Scope.project))
              (clear_overrides g c none rows)
            ≡ none
          → find?
              (keyed g Scope.global (override_keys g c Scope.global))
              (clear_overrides g c none rows)
            ≡ none
          → resolve_override g c none b (clear_overrides g c none rows) ≡ Resolved.nothing
      by_global true p q r s = rw (resolve_override, first_override, p, q, r, s) refl
      by_global false p q r s = rw (resolve_override, first_override, p, q, r) refl

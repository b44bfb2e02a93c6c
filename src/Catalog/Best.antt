-- ===== src/Catalog/Best.antt =====
-- The effort that a catalog entry offers for a request.
use mathlib.Core.Bool.{false≢true}
use mathlib.Core.Option.{some-injective}
use adaptive_model_router.Common.{
  All, All-filter, All-find?, All-map, Bool, Bool-cases, Eq, List, Option, [], ap, arith, bool_eq,
  filter, find?, find?-holds, includes, inl, inr, leb, leb→le, le→leb, nat_eq, none, or_else, refl,
  some, string_eq, subst, sym, text_eq, true, ◌==◌, ◌||◌, ◌∙◌, ◌∷◌, ◌≡◌, ◌≤◌,
}
use adaptive_model_router.Catalog.{at_least, compatible_effort, last_effort, pick_effort_of}
use adaptive_model_router.Policy.Resolve.{CatalogEntry}
use adaptive_model_router.Vocabulary.{
  Effort, category_eq, effort_eq, effort_index, failure_eq, gate_eq, level_eq, signal_eq,
}

All-included : {A : Type 0} ⦃e : Eq A⦄ (xs : List A) → All (λ x. includes xs x ≡ true) xs
All-included [] = tt
All-included ⦃e⦄ (x ∷ xs) = (
  or_true (e.equal x x) (includes xs x) ((e.equal_iff x x).1 refl),
  All-map (λ y. includes xs y ≡ true) (λ y. includes (x ∷ xs) y ≡ true)
      (λ y h. true_or (e.equal x y) (includes xs y) h) xs (All-included xs),
)
  where
    or_true : (a b : Bool) → a ≡ true → (a || b) ≡ true
    or_true a b h = ground arith

    true_or : (a b : Bool) → b ≡ true → (a || b) ≡ true
    true_or a b h = ground arith

filter-test : {A : Type 0} (p : A → Bool) (xs : List A) → All (λ x. p x ≡ true) (filter p xs)
filter-test p [] = tt
filter-test p (x ∷ xs) = elim (Bool-cases (p x)) [
  | inl e ↦ rw e (e, filter-test p xs)
  | inr e ↦ rw e (filter-test p xs)
]

last_effort-All :
    (P : Effort → Type 0) (xs : List Effort) (e : Effort) → All P xs → last_effort xs ≡ some e → P e
last_effort-All P [] e a h = absurd (none_ne_some h)
  where
    none_ne_some : none ≡ some e → ⊥
    none_ne_some k = cc
last_effort-All P (x ∷ []) e a h = subst P (some-injective x e h) a.0
last_effort-All P (x ∷ y ∷ ys) e a h = last_effort-All P (y ∷ ys) e a.1 h

-- A picked effort has what every candidate has.
pick-All :
    (P : Effort → Type 0) (xs : List Effort) (requested e : Effort)
    → All P xs
    → pick_effort_of xs requested ≡ some e
    → P e
pick-All P xs requested e a =
    by_find (find? (λ x. leb (effort_index requested) (effort_index x)) xs)
      (λ x f. All-find? P (λ x. leb (effort_index requested) (effort_index x)) xs a f)
  where
    by_find :
        (o : Option Effort)
        → ((x : Effort) → o ≡ some x → P x)
        → or_else o (last_effort xs) ≡ some e
        → P e
    by_find none k h = last_effort-All P xs e a h
    by_find (some x) k h = subst P (some-injective x e h) (k x refl)

-- The chosen effort is one that the entry supports, and at least the minimum.
pub compatible_effort-supported :
    (entry : CatalogEntry) (requested : Effort) (minimum : Option Effort) (e : Effort)
    → compatible_effort entry requested minimum ≡ some e
    → (includes entry.supported e ≡ true) × (at_least minimum e ≡ true)
unfolding compatible_effort
compatible_effort-supported entry requested minimum e h = (
  pick-All (λ x. includes entry.supported x ≡ true) (filter (at_least minimum) entry.supported)
      requested e
      (All-filter (λ x. includes entry.supported x ≡ true) (at_least minimum) entry.supported
        (All-included entry.supported))
      h,
  pick-All (λ x. at_least minimum x ≡ true) (filter (at_least minimum) entry.supported) requested e
      (filter-test (at_least minimum) entry.supported) h,
)

-- `supportedReasoningEfforts` is sorted.
abbrev pub IsSorted : List Effort → Type 0
IsSorted [] = Unit
IsSorted (x ∷ xs) = All (λ y. effort_index x ≤ effort_index y) xs × IsSorted xs

filter-IsSorted : (p : Effort → Bool) (xs : List Effort) → IsSorted xs → IsSorted (filter p xs)
filter-IsSorted p [] s = tt
filter-IsSorted p (x ∷ xs) s = elim (Bool-cases (p x)) [
  | inl e ↦
      rw e (All-filter (λ y. effort_index x ≤ effort_index y) p xs s.0, filter-IsSorted p xs s.1)
  | inr e ↦ rw e (filter-IsSorted p xs s.1)
]

-- The first candidate that meets the request is the least one.
first-least :
    (requested e : Effort) (xs : List Effort)
    → IsSorted xs
    → find? (λ x. leb (effort_index requested) (effort_index x)) xs ≡ some e
    → All (λ y. effort_index requested ≤ effort_index y → effort_index e ≤ effort_index y) xs
first-least requested e [] s h = tt
first-least requested e (x ∷ xs) s h =
    elim (Bool-cases (leb (effort_index requested) (effort_index x))) [
      | inl f ↦
          let same : x ≡ e = some-injective x e (rw f at h) in
          subst
            (λ z.
              All (λ y. effort_index requested ≤ effort_index y → effort_index z ≤ effort_index y)
                (x ∷ xs))
            same
            (
              (λ _. omega arith),
              All-map (λ y. effort_index x ≤ effort_index y)
                  (λ y. effort_index requested ≤ effort_index y → effort_index x ≤ effort_index y)
                  (λ y g _. g) xs s.0,
            )
      | inr f ↦ (
        (λ g. absurd (false≢true (sym f ∙ le→leb (effort_index requested) (effort_index x) g))),
        first-least requested e xs s.1 (rw f at h),
      )
    ]

includes-All :
    (P : Effort → Type 0) (xs : List Effort) (e : Effort) → All P xs → includes xs e ≡ true → P e
includes-All P [] e a h = absurd (false≢true h)
includes-All P (x ∷ xs) e a h = elim (Bool-cases (x == e)) [
  | inl f ↦ subst P ((effort_eq.equal_iff x e).0 f) a.0
  | inr f ↦ includes-All P xs e a.1 (rw f at h)
]

find?-some :
    (requested : Effort) (xs : List Effort) (other : Effort)
    → includes xs other ≡ true
    → leb (effort_index requested) (effort_index other) ≡ true
    → (e : Effort) × (find? (λ x. leb (effort_index requested) (effort_index x)) xs ≡ some e)
find?-some requested [] other h g = absurd (false≢true h)
find?-some requested (x ∷ xs) other h g =
    elim (Bool-cases (leb (effort_index requested) (effort_index x))) [
      | inl f ↦ (x, rw f refl)
      | inr f ↦ elim (Bool-cases (x == other)) [
        | inl k ↦ absurd (
            false≢true (
              sym f
              ∙ ap (λ z. leb (effort_index requested) (effort_index z))
                  ((effort_eq.equal_iff x other).0 k)
              ∙ g))
        | inr k ↦ let (e, found) = find?-some requested xs other (rw k at h) g in (e, rw f found)
      ]
    ]

includes-filter :
    (p : Effort → Bool) (xs : List Effort) (e : Effort)
    → includes xs e ≡ true
    → p e ≡ true
    → includes (filter p xs) e ≡ true
includes-filter p [] e h g = absurd (false≢true h)
includes-filter p (x ∷ xs) e h g = elim (Bool-cases (x == e)) [
  | inl f ↦ let kept : p x ≡ true = ap p ((effort_eq.equal_iff x e).0 f) ∙ g in rw (kept, f) refl
  | inr f ↦ elim (Bool-cases (p x)) [
    | inl k ↦ rw (k, f) (includes-filter p xs e (rw f at h) g)
    | inr k ↦ rw k (includes-filter p xs e (rw f at h) g)
  ]
]

-- When a sorted entry supports an effort `other` that meets the minimum and the request, then the
-- chosen effort meets the request too, and is no higher than `other`: it is the least one that does.
pub compatible_effort-least :
    (entry : CatalogEntry) (requested : Effort) (minimum : Option Effort) (e other : Effort)
    → IsSorted entry.supported
    → compatible_effort entry requested minimum ≡ some e
    → includes entry.supported other ≡ true
    → at_least minimum other ≡ true
    → leb (effort_index requested) (effort_index other) ≡ true
    → (effort_index requested ≤ effort_index e) × (effort_index e ≤ effort_index other)
unfolding compatible_effort
compatible_effort-least entry requested minimum e other s h supports meets demands =
    let (f, found) = find?-some requested candidates other offered demands in
    let same : f ≡ e =
      some-injective f e (sym (ap (λ o. or_else o (last_effort candidates)) found) ∙ h) in
    subst (λ z. (effort_index requested ≤ effort_index z) × (effort_index z ≤ effort_index other))
      same
      (
        leb→le (effort_index requested) (effort_index f) (
            find?-holds (λ x. leb (effort_index requested) (effort_index x)) candidates {x = f}
              found),
        includes-All
            (λ y. effort_index requested ≤ effort_index y → effort_index f ≤ effort_index y)
            candidates other
            (first-least requested f candidates
              (filter-IsSorted (at_least minimum) entry.supported s) found)
            offered (leb→le (effort_index requested) (effort_index other) demands),
      )
  where
    candidates : List Effort
    candidates = filter (at_least minimum) entry.supported

    offered : includes (filter (at_least minimum) entry.supported) other ≡ true
    offered = includes-filter (at_least minimum) entry.supported other supports meets

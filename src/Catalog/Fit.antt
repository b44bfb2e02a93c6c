-- ===== src/Catalog/Fit.antt =====
-- What an automatic route has.
use adaptive_model_router.Common.{
  &&-true, All, All-map, Bool, Bool-cases, List, Option, Option-cases, [], any, arith, bool_eq,
  eq_iff, false, if-all, includes, inl, inr, nat_eq, none, not, or_else, refl, some, string_eq,
  subst, text_eq, true, ◌&&◌, ◌==◌, ◌||◌, ◌∷◌, ◌≡◌,
}
use adaptive_model_router.Catalog.{
  Family, Route, Selector, at_least, automatic_entries, compatible_effort, entry_effort,
  family_of_model, family_order, is_family, select_automatic_route, try_entries, try_families,
}
use adaptive_model_router.Catalog.Best.{compatible_effort-supported}
use adaptive_model_router.Policy.{Target}
use adaptive_model_router.Policy.Resolve.{CatalogEntry, available}
use adaptive_model_router.Vocabulary.{
  Effort, category_eq, effort_eq, failure_eq, gate_eq, level_eq, signal_eq,
}

-- An entry of the catalog passes on what it satisfies.
abbrev IsIn : List CatalogEntry → CatalogEntry → Type 0
IsIn catalog entry = (q : CatalogEntry → Bool) → q entry ≡ true → any q catalog ≡ true

either_true : (a b : Bool) → b ≡ true → (a || b) ≡ true
either_true a b h = ground arith

All-IsIn : (catalog : List CatalogEntry) → All (IsIn catalog) catalog
All-IsIn [] = tt
All-IsIn (x ∷ xs) = (
  (λ q h. rw h refl),
  All-map (IsIn xs) (IsIn (x ∷ xs)) (λ y k q h. either_true (q x) (any q xs) (k q h)) xs
      (All-IsIn xs),
)

abbrev target_of : Route → Target
target_of r = record { model = r.model; effort = r.effort }

-- The route is on offer, is not excluded and meets the minimum effort.
abbrev pub Fits : List CatalogEntry → Selector → Route → Type 0
Fits catalog o r =
    (available catalog (target_of r) ≡ true)
    × (includes o.exclude_models r.model ≡ false)
    × (at_least o.minimum_effort r.effort ≡ true)

all_three : (a b c : Bool) → a ≡ true → b ≡ true → c ≡ true → ((a && b) && c) ≡ true
all_three a b c h g k = ground arith

not_excluded : (a b : Bool) → (a || b) ≡ false → a ≡ false
not_excluded a b h = ground arith

supports_exact : (a b : Bool) → (a && not b) ≡ false → a ≡ true → b ≡ true
supports_exact a b h g = ground arith

abbrev EffortFits : Selector → CatalogEntry → Option Effort → Type 0
EffortFits o entry none = Unit
EffortFits o entry (some e) =
    (includes entry.supported e ≡ true)
    × (includes o.exclude_models entry.model ≡ false)
    × (at_least o.minimum_effort e ≡ true)

entry_effort-EffortFits :
    (requested : Effort) (o : Selector) (entry : CatalogEntry)
    → (o.exact_effort && not (at_least o.minimum_effort requested)) ≡ false
    → EffortFits o entry (entry_effort requested o entry)
unfolding entry_effort
entry_effort-EffortFits requested o entry guard =
    if-all (EffortFits o entry)
      (includes o.exclude_models entry.model || includes o.exclude_models entry.id) _ _ (λ _. tt)
      (λ kept.
        if-all (EffortFits o entry) (o.exact_effort && not (includes entry.supported requested)) _ _
          (λ _. tt)
          (λ offered.
            if-all (EffortFits o entry) o.exact_effort _ _
              (λ exact. (
                supports_exact o.exact_effort (includes entry.supported requested) offered exact,
                not_excluded (includes o.exclude_models entry.model)
                    (includes o.exclude_models entry.id) kept,
                supports_exact o.exact_effort (at_least o.minimum_effort requested) guard exact,
              ))
              (λ _. by_effort (compatible_effort entry requested o.minimum_effort) refl (
                not_excluded (includes o.exclude_models entry.model)
                  (includes o.exclude_models entry.id) kept))))
  where
    by_effort :
        (c : Option Effort)
        → compatible_effort entry requested o.minimum_effort ≡ c
        → includes o.exclude_models entry.model ≡ false
        → EffortFits o entry c
    by_effort none h kept = tt
    by_effort (some e) h kept =
        let has = compatible_effort-supported entry requested o.minimum_effort e h in
        (has.0, kept, has.1)

abbrev RouteFits : List CatalogEntry → Selector → Option Route → Type 0
RouteFits catalog o none = Unit
RouteFits catalog o (some r) = Fits catalog o r

abbrev IsListedIn : List CatalogEntry → CatalogEntry → Type 0
IsListedIn catalog entry = IsIn catalog entry × (entry.is_listed ≡ true)

try_entries-RouteFits :
    (catalog : List CatalogEntry) (family requested_family : Family) (requested : Effort)
    (o : Selector) (entries : List CatalogEntry)
    → (o.exact_effort && not (at_least o.minimum_effort requested)) ≡ false
    → All (IsListedIn catalog) entries
    → RouteFits catalog o (try_entries family requested_family requested o entries)
unfolding try_entries available
try_entries-RouteFits catalog family requested_family requested o [] guard a = tt
try_entries-RouteFits catalog family requested_family requested o (entry ∷ entries) guard a =
    elim (Option-cases (entry_effort requested o entry)) [
      | inl e ↦
          rw (e, try_entries)
            (try_entries-RouteFits catalog family requested_family requested o entries guard a.1)
      | inr (effort, e) ↦
          let fit =
            subst (EffortFits o entry) e (entry_effort-EffortFits requested o entry guard) in
          rw (e, try_entries)
            (
              a.0.0 (λ x. x.is_listed && x.model == entry.model && includes x.supported effort)
                  (all_three entry.is_listed (entry.model == entry.model)
                    (includes entry.supported effort) a.0.1
                    ((eq_iff entry.model entry.model).1 refl) fit.0),
              fit.1,
              fit.2,
            )
    ]

automatic-IsListedIn :
    (catalog : List CatalogEntry) (family : Family)
    → All (IsListedIn catalog) (automatic_entries catalog family)
automatic-IsListedIn catalog family = filtered catalog (All-IsIn catalog)
  where
    filtered :
        (rows : List CatalogEntry)
        → All (IsIn catalog) rows
        → All (IsListedIn catalog) (automatic_entries rows family)
    filtered [] a = tt
    filtered (x ∷ xs) a =
        elim (Bool-cases (x.is_listed && is_family (family_of_model x.model) family)) [
          | inl e ↦ rw e (
            (a.0, (&&-true x.is_listed (is_family (family_of_model x.model) family) e).0),
            filtered xs a.1,
          )
          | inr e ↦ rw e (filtered xs a.1)
        ]

try_families-RouteFits :
    (catalog : List CatalogEntry) (requested_family : Family) (requested : Effort) (o : Selector)
    (families : List Family)
    → (o.exact_effort && not (at_least o.minimum_effort requested)) ≡ false
    → RouteFits catalog o (try_families catalog requested_family requested o families)
unfolding try_families
try_families-RouteFits catalog requested_family requested o [] guard = tt
try_families-RouteFits catalog requested_family requested o (family ∷ families) guard =
    or_fits (try_entries family requested_family requested o (automatic_entries catalog family)) _
      (try_entries-RouteFits catalog family requested_family requested o
        (automatic_entries catalog family) guard (automatic-IsListedIn catalog family))
      (try_families-RouteFits catalog requested_family requested o families guard)
  where
    or_fits :
        (a b : Option Route)
        → RouteFits catalog o a
        → RouteFits catalog o b
        → RouteFits catalog o (or_else a b)
    or_fits none b h g = g
    or_fits (some r) b h g = h

select-RouteFits :
    (catalog : List CatalogEntry) (family : Option Family) (requested : Effort) (o : Selector)
    → RouteFits catalog o (select_automatic_route catalog family requested o)
unfolding select_automatic_route
select-RouteFits catalog none requested o = tt
select-RouteFits catalog (some family) requested o =
    if-all (RouteFits catalog o) (o.exact_effort && not (at_least o.minimum_effort requested)) _ _
      (λ _. tt)
      (λ guard. try_families-RouteFits catalog family requested o (family_order family) guard)

-- An automatic route is on offer in the catalog with its effort, its model is not excluded, and its
-- effort is at least the minimum, whether the effort was exact or not.
pub select_automatic_route-Fits :
    (catalog : List CatalogEntry) (family : Option Family) (requested : Effort) (o : Selector)
    (r : Route)
    → select_automatic_route catalog family requested o ≡ some r
    → Fits catalog o r
select_automatic_route-Fits catalog family requested o r h =
    subst (RouteFits catalog o) h (select-RouteFits catalog family requested o)

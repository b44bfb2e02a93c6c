-- ===== src/Catalog.antt =====
-- The choice of a model and an effort from a catalog: `compatibleEffort`, `selectAutomaticRoute` and
-- `selectExplicitRoute` of scripts/lib/catalog.mjs. An entry of the catalog is normalised before.
mod Fit
mod Best
mod Examples
use adaptive_model_router.Common.{
  Bool, List, Option, String, [], bool_eq, false, filter, find?, if◌then◌else◌, includes, leb,
  nat_beq, nat_eq, none, not, opt_beq, or_else, some, string_eq, text_beq_eq, text_eq, true, ℕ,
  ◌&&◌, ◌==◌, ◌||◌, ◌∷◌,
}
use adaptive_model_router.Policy.Resolve.{CatalogEntry}
use adaptive_model_router.Vocabulary.{
  Effort, category_eq, effort_eq, effort_index, failure_eq, gate_eq, level_eq, signal_eq,
}

pub data Family : Type 0 where
  luna terra sol : Family

-- FAMILY_MAP.
abbrev pub family_of_model : String → Option Family
family_of_model model =
    if model == "gpt-5.6-luna"
    then some Family.luna
    else if model == "gpt-5.6-terra"
    then some Family.terra
    else if model == "gpt-5.6-sol"
    then some Family.sol
    else none

abbrev pub family_index : Family → ℕ
family_index Family.luna = 0
family_index Family.terra = 1
family_index Family.sol = 2

abbrev pub is_family : Option Family → Family → Bool
is_family none f = false
is_family (some g) f = nat_beq (family_index g) (family_index f)

abbrev pub at_least : Option Effort → Effort → Bool
at_least none e = true
at_least (some minimum) e = leb (effort_index minimum) (effort_index e)

-- `at(-1)`.
abbrev pub last_effort : List Effort → Option Effort
last_effort [] = none
last_effort (e ∷ []) = some e
last_effort (e ∷ f ∷ es) = last_effort (f ∷ es)

-- The first effort that is at least the requested one, or else the last one.
abbrev pub pick_effort_of : List Effort → Effort → Option Effort
pick_effort_of supported requested =
    or_else (find? (λ e. leb (effort_index requested) (effort_index e)) supported)
      (last_effort supported)

unfoldable pub compatible_effort : CatalogEntry → Effort → Option Effort → Option Effort
compatible_effort entry requested minimum =
    pick_effort_of (filter (at_least minimum) entry.supported) requested

pub record Route : Type 0 where
  pub model : String
  pub effort : Effort
  pub family : Option Family
  pub family_fallback : Bool
  pub effort_fallback : Bool

pub record Selector : Type 0 where
  pub minimum_effort : Option Effort
  pub exact_effort : Bool
  pub exclude_models : List String

-- FAMILY_ORDER from the requested family on, and then backwards from it.
abbrev pub family_order : Family → List Family
family_order Family.luna = Family.luna ∷ Family.terra ∷ Family.sol ∷ []
family_order Family.terra = Family.terra ∷ Family.sol ∷ Family.luna ∷ []
family_order Family.sol = Family.sol ∷ Family.terra ∷ Family.luna ∷ []

-- The effort of an entry that is not skipped.
unfoldable pub entry_effort : Effort → Selector → CatalogEntry → Option Effort
unfolding compatible_effort
entry_effort requested o entry =
    if includes o.exclude_models entry.model || includes o.exclude_models entry.id
    then none
    else if o.exact_effort && not (includes entry.supported requested)
    then none
    else if o.exact_effort
    then some requested
    else compatible_effort entry requested o.minimum_effort

unfoldable pub try_entries : Family → Family → Effort → Selector → List CatalogEntry → Option Route
unfolding entry_effort
try_entries family requested_family requested o [] = none
try_entries family requested_family requested o (entry ∷ entries) =
    let rest = try_entries family requested_family requested o entries in
    elim (entry_effort requested o entry) [
      | none ↦ rest
      | some effort ↦ some (record {
        model = entry.model;
        effort = effort;
        family = some family;
        family_fallback = not (nat_beq (family_index family) (family_index requested_family));
        effort_fallback = not (effort == requested);
      })
    ]

abbrev pub automatic_entries : List CatalogEntry → Family → List CatalogEntry
automatic_entries catalog family =
    filter (λ e. e.is_listed && is_family (family_of_model e.model) family) catalog

unfoldable pub try_families :
    List CatalogEntry → Family → Effort → Selector → List Family → Option Route
unfolding try_entries
try_families catalog requested_family requested o [] = none
try_families catalog requested_family requested o (family ∷ families) =
    or_else (try_entries family requested_family requested o (automatic_entries catalog family))
      (try_families catalog requested_family requested o families)

-- `none` is a family that is not of FAMILY_ORDER.
unfoldable pub select_automatic_route :
    List CatalogEntry → Option Family → Effort → Selector → Option Route
unfolding try_families
select_automatic_route catalog none requested o = none
select_automatic_route catalog (some family) requested o =
    if o.exact_effort && not (at_least o.minimum_effort requested)
    then none
    else try_families catalog family requested o (family_order family)

-- The effort of an explicit route: the requested one where it was explicit, and else one that fits the
-- request or the entry's default.
unfoldable pub explicit_effort : CatalogEntry → Option Effort → Bool → Option Effort → Option Effort
unfolding compatible_effort
explicit_effort entry none was_explicit minimum =
    if was_explicit then none else compatible_effort entry entry.default_effort minimum
explicit_effort entry (some requested) was_explicit minimum =
    if was_explicit
    then (if includes entry.supported requested then some requested else none)
    else compatible_effort entry requested minimum

unfoldable pub select_explicit_route :
    List CatalogEntry → String → Option Effort → Bool → Option Effort → Option Route
unfolding explicit_effort
select_explicit_route catalog model requested was_explicit minimum =
    elim (find? (λ e. e.is_listed && (e.model == model || e.id == model)) catalog) [
      | none ↦ none
      | some entry ↦ elim (explicit_effort entry requested was_explicit minimum) [
        | none ↦ none
        | some effort ↦ some (record {
          model = entry.model;
          effort = effort;
          family = family_of_model entry.model;
          family_fallback = false;
          effort_fallback = not (opt_beq (some effort) requested);
        })
      ]
    ]

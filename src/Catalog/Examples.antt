-- ===== src/Catalog/Examples.antt =====
-- A catalog of two models, and the theorems at it.
use adaptive_model_router.Common.{List, [], false, none, refl, some, true, ◌∷◌, ◌≡◌}
use adaptive_model_router.Catalog.{
  Family, Route, Selector, select_automatic_route, select_explicit_route,
}
use adaptive_model_router.Catalog.Fit.{Fits, select_automatic_route-Fits}
use adaptive_model_router.Policy.Resolve.{CatalogEntry}
use adaptive_model_router.Vocabulary.{Effort}

abbrev luna_entry : CatalogEntry
luna_entry = record {
  model = "gpt-5.6-luna";
  id = "luna";
  is_listed = true;
  priority = 0;
  default_effort = Effort.low;
  supported = Effort.low ∷ Effort.medium ∷ Effort.high ∷ [];
}

abbrev sol_entry : CatalogEntry
sol_entry = record luna_entry {
  model = "gpt-5.6-sol";
  id = "sol";
  supported = Effort.high ∷ Effort.xhigh ∷ [];
}

abbrev two_models : List CatalogEntry
two_models = luna_entry ∷ sol_entry ∷ []

abbrev without_luna : Selector
without_luna = record {
  minimum_effort = some Effort.high;
  exact_effort = false;
  exclude_models = "gpt-5.6-luna" ∷ [];
}

abbrev sol_route : Route
sol_route = record {
  model = "gpt-5.6-sol";
  effort = Effort.high;
  family = some Family.sol;
  family_fallback = true;
  effort_fallback = true;
}

selects :
    select_automatic_route two_models (some Family.luna) Effort.low without_luna ≡ some sol_route
unfolding select_automatic_route
selects = refl

select_automatic_route-Fits_example : Fits two_models without_luna sol_route
select_automatic_route-Fits_example =
    select_automatic_route-Fits two_models (some Family.luna) Effort.low without_luna sol_route
      selects

explicit :
    select_explicit_route two_models "sol" none false none
    ≡ some (record sol_route { family_fallback = false })
unfolding select_explicit_route
explicit = refl

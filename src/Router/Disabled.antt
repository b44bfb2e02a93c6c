-- ===== src/Router/Disabled.antt =====
-- A disabled override switches off `routeWithStore` of scripts/lib/router.mjs.
use adaptive_model_router.Overrides

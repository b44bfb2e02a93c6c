-- ===== src/Policy/Resolve.antt =====
-- `resolveModelTarget` of scripts/lib/model-policy.mjs: from a demand to a target of the catalog.
use adaptive_model_router.Common.{
  Bool, List, Option, String, [], any, bool_eq, false, filter, find?, if◌then◌else◌, includes, inl,
  inr, leb, map, nat_eq, none, not, some, string_eq, true, ℕ, ◌&&◌, ◌+◌, ◌==◌, ◌||◌, ◌∷◌, ◌⊎◌,
}
use adaptive_model_router.Policy.{
  Definition, Purpose, Target, level_for_target, same_target, sorted_levels, target_above,
  target_allowed, target_below,
}
use adaptive_model_router.Policy.Decide.{Demand}
use adaptive_model_router.Vocabulary.{
  Effort, WorkLevel, effort_eq, effort_index, failure_eq, gate_eq, level_effort, level_eq,
  signal_eq, work_levels,
}

-- An entry of a normalised catalog, as scripts/lib/catalog.mjs gives it.
pub record CatalogEntry : Type 0 where
  pub model : String
  pub id : String
  pub is_listed : Bool
  pub priority : ℕ
  pub default_effort : Effort
  pub supported : List Effort

unfoldable pub available : List CatalogEntry → Target → Bool
available catalog v =
    any (λ entry. entry.is_listed && entry.model == v.model && includes entry.supported v.effort)
      catalog

pub data DenyReason : Type 0 where
  model_scope_denied monotonic_escalation_unavailable risk_target_conflict : DenyReason
  explicit_target_unavailable no_allowed_target : DenyReason

-- The reason that an accepted target carries: a fallback was taken, or none.
pub data FallbackReason : Type 0 where
  direct model_capability_fallback effort_capability_fallback : FallbackReason

pub data Selection : Type 0 where
  chosen : Target → WorkLevel ⊎ Effort → FallbackReason → Selection
  denied : DenyReason → Selection

-- A user's override: either part may be absent.
pub record Override : Type 0 where
  pub model : Option String
  pub effort : Option Effort

pub record Request : Type 0 where
  pub requested_level : WorkLevel
  pub minimum : WorkLevel
  pub max_eligible : Bool
  pub has_override : Bool
  pub previous : Option Target
  pub escalation : Bool
  pub exclude_models : List String

abbrev pub is_max_level : Option WorkLevel → Bool
is_max_level none = false
is_max_level (some l) = l == WorkLevel.max

abbrev pub level_of_previous : Definition → Option Target → Option WorkLevel
level_of_previous d none = none
level_of_previous d (some v) = level_for_target d v

-- `satisfiesGate` under schema version 2: not below the previous target, above it on an escalation.
abbrev pub keeps_v2 : Definition → Bool → Option Target → Target → Bool
keeps_v2 d escalation none v = true
keeps_v2 d escalation (some previous) v =
    if escalation then target_above d v previous else not (target_below d v previous)

abbrev pub may_top_v2 : Definition → Request → Target → Bool
may_top_v2 d r v =
    not (same_target v (d.targets WorkLevel.ultra))
    || r.has_override
    || (r.escalation && is_max_level (level_of_previous d r.previous))

unfoldable pub gate_v2 : Definition → Request → Target → Bool
gate_v2 d r v =
    not (target_below d v (d.targets r.minimum))
    && (keeps_v2 d r.escalation r.previous v && may_top_v2 d r v)

abbrev pub effort_step : Bool → ℕ
effort_step true = 1
effort_step false = 0

abbrev pub previous_effort_in : Option Target → List Effort → Bool
previous_effort_in none efforts = false
previous_effort_in (some v) efforts = includes efforts v.effort

-- `satisfiesGate` under schema version 1: efforts on the previous model do not fall.
abbrev pub keeps_v1 : Bool → Option Target → Target → Bool
keeps_v1 escalation none v = true
keeps_v1 escalation (some previous) v =
    not (v.model == previous.model)
    || leb (effort_index previous.effort + effort_step escalation) (effort_index v.effort)

abbrev pub may_ultra_v1 : Request → Target → Bool
may_ultra_v1 r v =
    not (v.effort == Effort.ultra)
    || r.has_override
    || (r.escalation && previous_effort_in r.previous (Effort.max ∷ []))

abbrev pub may_max_v1 : Request → Target → Bool
may_max_v1 r v =
    not (v.effort == Effort.max)
    || r.has_override
    || r.max_eligible
    || (r.escalation && previous_effort_in r.previous (Effort.xhigh ∷ Effort.max ∷ []))

unfoldable pub gate_v1 : Request → Target → Bool
gate_v1 r v =
    leb (effort_index (level_effort r.minimum)) (effort_index v.effort)
    && (keeps_v1 r.escalation r.previous v && (may_ultra_v1 r v && may_max_v1 r v))

unfoldable pub satisfies_gate : Definition → Request → Target → Bool
unfolding gate_v1 gate_v2
satisfies_gate d r v = if d.schema_version == 2 then gate_v2 d r v else gate_v1 r v

abbrev pub deny_gate : Request → DenyReason
deny_gate r =
    if r.escalation
    then DenyReason.monotonic_escalation_unavailable
    else DenyReason.risk_target_conflict

-- `levelForTarget(policy, value) || effort`.
abbrev pub level_or_effort : Definition → Target → WorkLevel ⊎ Effort
level_or_effort d v = elim (level_for_target d v) [ none ↦ inr v.effort | some l ↦ inl l ]

-- An override of the effort alone, under version 2: among the configured targets of that effort.
unfoldable pub pick_effort : Definition → List CatalogEntry → Request → List Target → Selection
pick_effort d catalog r [] = Selection.denied (deny_gate r)
pick_effort d catalog r (v ∷ vs) =
    let is_eligible = λ (w : Target). any (same_target w) (v ∷ vs) && available catalog w in
    elim (find? is_eligible (d.targets r.requested_level ∷ v ∷ vs)) [
      | none ↦ Selection.denied DenyReason.explicit_target_unavailable
      | some w ↦ Selection.chosen w (level_or_effort d w) FallbackReason.direct
    ]

abbrev pub is_empty {ℓ} : {A : Type ℓ} → List A → Bool
is_empty [] = true
is_empty (_ ∷ _) = false

-- The configured targets of an effort, from the lowest level up.
unfoldable pub targets_of_effort : Definition → Effort → List Target
targets_of_effort d effort = filter (λ v. v.effort == effort) (map d.targets work_levels)

unfoldable pub resolve_effort : Definition → List CatalogEntry → Request → Effort → Selection
unfolding pick_effort targets_of_effort
resolve_effort d catalog r effort =
    if is_empty (targets_of_effort d effort)
    then Selection.denied DenyReason.model_scope_denied
    else pick_effort d catalog r (filter (satisfies_gate d r) (targets_of_effort d effort))

unfoldable pub resolve_value : Definition → List CatalogEntry → Request → Target → Selection
resolve_value d catalog r v =
    if not (target_allowed d v)
    then Selection.denied DenyReason.model_scope_denied
    else if not (satisfies_gate d r v)
    then Selection.denied (deny_gate r)
    else if not (available catalog v)
    then Selection.denied DenyReason.explicit_target_unavailable
    else Selection.chosen v (level_or_effort d v) FallbackReason.direct

-- The effort that an override of the model alone gets: of the `high` target, or of the first target
-- of that model in the order of `Object.values`.
unfoldable pub default_effort_of : Definition → String → Option Effort
default_effort_of d model =
    elim (find? (λ v. v.model == model) (map d.targets (WorkLevel.high ∷ sorted_levels))) [
      | none ↦ none
      | some v ↦ some v.effort
    ]

-- `override.effort || defaultTarget?.effort`: with neither, no target is allowed.
unfoldable pub resolve_model :
    Definition → List CatalogEntry → Request → String → Option Effort → Selection
resolve_model d catalog r model none = elim (default_effort_of d model) [
  | none ↦ Selection.denied DenyReason.model_scope_denied
  | some effort ↦ resolve_value d catalog r (record { model = model; effort = effort })
]
resolve_model d catalog r model (some effort) =
    resolve_value d catalog r (record { model = model; effort = effort })

unfoldable pub resolve_override :
    Definition → List CatalogEntry → Request → Option String → Option Effort → Selection
unfolding resolve_effort resolve_value default_effort_of resolve_model
resolve_override d catalog r (some model) effort = resolve_model d catalog r model effort
resolve_override d catalog r none none =
    resolve_model d catalog r (d.targets r.requested_level).model none
resolve_override d catalog r none (some effort) =
    if d.schema_version == 2
    then resolve_effort d catalog r effort
    else resolve_model d catalog r (d.targets r.requested_level).model (some effort)

-- The loop over the requested level and its fallbacks.
unfoldable pub try_levels : Definition → List CatalogEntry → Request → List WorkLevel → Selection
try_levels d catalog r [] = Selection.denied (
    if r.escalation
    then DenyReason.monotonic_escalation_unavailable
    else DenyReason.no_allowed_target)
try_levels d catalog r (name ∷ rest) =
    let v = d.targets name in
    if includes r.exclude_models v.model || not (satisfies_gate d r v) || not (available catalog v)
    then try_levels d catalog r rest
    else Selection.chosen v (inl name) (
        if name == r.requested_level
        then FallbackReason.direct
        else if d.schema_version == 2
        then FallbackReason.model_capability_fallback
        else FallbackReason.effort_capability_fallback)

unfoldable pub resolve_model_target :
    Definition → List CatalogEntry → Request → Option Override → Selection
unfolding resolve_override try_levels
resolve_model_target d catalog r none =
    try_levels d catalog r (r.requested_level ∷ d.fallbacks r.requested_level)
resolve_model_target d catalog r (some o) = resolve_override d catalog r o.model o.effort

-- The request that `resolveModelTarget` makes of its arguments, for a stage and for a purpose.
unfoldable pub delegate_request : Demand → Bool → Option Target → Bool → Request
delegate_request demand has_override previous escalation = record {
  requested_level = demand.work_level;
  minimum = demand.minimum_level;
  max_eligible = demand.max_eligible;
  has_override = has_override;
  previous = previous;
  escalation = escalation;
  exclude_models = [];
}

unfoldable pub purpose_request : Definition → Purpose → Request
purpose_request d purpose = record {
  requested_level = d.purposes purpose;
  minimum = WorkLevel.low;
  max_eligible = false;
  has_override = false;
  previous = none;
  escalation = false;
  exclude_models = [];
}

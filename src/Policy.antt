-- ===== src/Policy.antt =====
-- The data of scripts/lib/model-policy.mjs: a model policy, its targets and their order.
-- A policy's definition is the canonical JSON object that `compileModelPolicy` keeps; the fields
-- that its schema requires are total here, and the fields of version 2 are optional.
pub mod Compile
pub mod Bindings
pub mod Anchors
pub mod Decide
pub mod Downgrade
pub mod Escalate
pub mod Resolve
pub mod Select
pub mod Scope
pub mod Shipped
mod Examples
use adaptive_model_router.Common.{
  Bool, List, Option, String, [], any, arith, eq_iff, find?, if◌then◌else◌, includes, index_of, ltb,
  nat_eq, none, some, string_eq, true, ℕ, ◌&&◌, ◌==◌, ◌∷◌, ◌≡◌,
}
use adaptive_model_router.Vocabulary.{
  Effort, Signal, WorkLevel, effort_eq, effort_index, effort_index-injective, failure_eq, gate_eq,
  level_eq, signal_eq, work_levels,
}

pub record Target : Type 0 where
  pub model : String
  pub effort : Effort

-- `canonicalJson(left) === canonicalJson(right)` on two targets.
abbrev pub same_target : Target → Target → Bool
same_target v w = v.model == w.model && v.effort == w.effort

pub record AllowedModel : Type 0 where
  pub model : String
  pub efforts : List Effort

pub record Rule : Type 0 where
  pub requires : List Signal
  pub forbids : List Signal

pub record Conditions : Type 0 where
  pub xhigh_hard_signals : ℕ
  pub max_hard_signals : ℕ
  pub default_level : WorkLevel
  pub low : Rule
  pub medium : Rule
  pub xhigh_cross_cutting_with : List Signal
  pub max_requires_any : List Signal
  pub risk_floor_signals : List Signal

pub record CriticalRisk : Type 0 where
  pub signals : List Signal
  pub minimum_level : WorkLevel

pub data Purpose : Type 0 where
  classifier qualification smoke : Purpose

pub record Definition : Type 0 where
  pub schema_version : ℕ
  pub id : String
  pub allowed_models : List AllowedModel
  pub targets : WorkLevel → Target
  pub conditions : Conditions
  pub fallbacks : WorkLevel → List WorkLevel
  pub escalation_limit : ℕ
  pub escalation_next : WorkLevel → Option WorkLevel
  pub purposes : Purpose → WorkLevel
  pub model_order : Option (List String)
  pub critical_risk : Option CriticalRisk

pub record Policy : Type 0 where
  pub definition : Definition
  pub digest : String

-- `Object.entries(definition.targets)`: a canonical object lists its keys in alphabetic order.
abbrev pub sorted_levels : List WorkLevel
sorted_levels =
    WorkLevel.high ∷ WorkLevel.low ∷ WorkLevel.max ∷ WorkLevel.medium ∷ WorkLevel.ultra
    ∷ WorkLevel.xhigh ∷ []

unfoldable pub target_allowed : Definition → Target → Bool
target_allowed d v =
    any (λ entry. entry.model == v.model && includes entry.efforts v.effort) d.allowed_models

-- The two numbers that `compareTargets` subtracts: positions in `modelOrder` (one more, so that a
-- missing model is 0 for `indexOf`'s -1) between two models, or else positions in EFFORT_ORDER.
unfoldable pub compare_operands : Definition → Target → Target → ℕ × ℕ
compare_operands d left right = elim d.model_order [
  | none ↦ (effort_index left.effort, effort_index right.effort)
  | some order ↦
      if left.model == right.model
      then (effort_index left.effort, effort_index right.effort)
      else (index_of order left.model, index_of order right.model)
]

-- `compareTargets(policy, left, right) < 0` and `> 0`.
abbrev pub target_below : Definition → Target → Target → Bool
target_below d left right = let (a, b) = compare_operands d left right in ltb a b

abbrev pub target_above : Definition → Target → Target → Bool
target_above d left right = let (a, b) = compare_operands d left right in ltb b a

unfoldable pub level_for_target : Definition → Target → Option WorkLevel
level_for_target d v = find? (λ name. same_target (d.targets name) v) work_levels

-- `minimumEffortForLevel`.
unfoldable pub minimum_effort_for_level : WorkLevel → Effort
minimum_effort_for_level WorkLevel.low = Effort.low
minimum_effort_for_level WorkLevel.medium = Effort.medium
minimum_effort_for_level _ = Effort.high

pub same_target-eq : (v w : Target) → same_target v w ≡ true → v ≡ w
same_target-eq v w h =
    ground (arith, eq_iff v.model w.model, effort_index-injective v.effort w.effort)

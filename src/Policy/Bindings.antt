-- ===== src/Policy/Bindings.antt =====
-- What `compileModelPolicy` guarantees of a policy that it accepts.
use mathlib.Core.Option.{some-injective}
use adaptive_model_router.Common.{
  &&-true, All, Bool, List, Option, String, [], all, arith, bool_eq, false, includes, inl, ltb,
  ltb→lt, nat_eq, none, refl, some, string_eq, subst, true, ℕ, ◌&&◌, ◌<◌, ◌==◌, ◌||◌, ◌∷◌, ◌≡◌, ◌≤◌,
  ◌⊎◌,
}
use adaptive_model_router.Policy.{
  Conditions, Definition, Policy, Rule, minimum_effort_for_level, sorted_levels, target_allowed,
}
use adaptive_model_router.Policy.Compile.{
  Invalid, blocked_signals, check_binding, check_conditions, check_downgrade, check_models,
  check_next, check_pairs, check_version, compile_model_policy, first_invalid, fits_enums,
  fits_schema, floor_signals, for_each, forbid, require, ◌>>◌,
}
use adaptive_model_router.Vocabulary.{
  Signal, WorkLevel, effort_eq, effort_index, failure_eq, gate_eq, level_effort, level_eq,
  level_index, signal_eq, work_levels,
}

pub >>-none : (m k : Option Invalid) → (m >> k) ≡ none → (m ≡ none) × (k ≡ none)
>>-none none k h = (refl, h)
>>-none (some e) k h = cc

pub for_each-none {ℓ} :
    {A : Type ℓ} (xs : List A) (f : A → Option Invalid)
    → for_each xs f ≡ none
    → All (λ x. f x ≡ none) xs
for_each-none [] f h = tt
for_each-none (x ∷ xs) f h =
    let (first, rest) = >>-none (f x) (for_each xs f) h in (first, for_each-none xs f rest)

pub require-none : (b : Bool) (e : Invalid) → require b e ≡ none → b ≡ true
require-none b e h = ground arith

forbid-none : (b : Bool) (e : Invalid) → forbid b e ≡ none → b ≡ false
forbid-none b e h = ground arith

All-sorted_levels {ℓ} : (P : WorkLevel → Type ℓ) → All P sorted_levels → (l : WorkLevel) → P l
All-sorted_levels P h WorkLevel.high = h.0
All-sorted_levels P h WorkLevel.low = h.1.0
All-sorted_levels P h WorkLevel.max = h.1.1.0
All-sorted_levels P h WorkLevel.medium = h.1.1.1.0
All-sorted_levels P h WorkLevel.ultra = h.1.1.1.1.0
All-sorted_levels P h WorkLevel.xhigh = h.1.1.1.1.1.0

-- One level's binding: allowed, with a floor, and with fallbacks and an escalation that go up.
pub record IsBound (d : Definition) (name : WorkLevel) : Type 0 where
  pub allowed : target_allowed d (d.targets name) ≡ true
  pub fallbacks_up :
      all (λ next. ltb (level_index name) (level_index next)) (d.fallbacks name) ≡ true
  pub escalation_up :
      (next : WorkLevel) → d.escalation_next name ≡ some next → level_index name < level_index next
  pub v1_floor :
      d.schema_version ≡ 1 → effort_index (level_effort name) ≤ effort_index (d.targets name).effort
  pub v2_floor :
      d.schema_version ≡ 2
      → effort_index (minimum_effort_for_level name) ≤ effort_index (d.targets name).effort

check_next-up :
    (name : WorkLevel) (o : Option WorkLevel)
    → check_next name o ≡ none
    → (next : WorkLevel) → o ≡ some next
    → level_index name < level_index next
check_next-up name none h next e = cc
check_next-up name (some n) h next e = ltb→lt _ _ (
    subst (λ n. ltb (level_index name) (level_index n) ≡ true) (some-injective n next e)
      (require-none _ _ h))

check_binding-IsBound :
    (d : Definition) (name : WorkLevel) → check_binding d name ≡ none → IsBound d name
unfolding check_binding
check_binding-IsBound d name h =
    let (h3, next) = >>-none _ _ h in
    let (h2, fallbacks) = >>-none _ _ h3 in
    let (h1, v2) = >>-none _ _ h2 in
    let (allowed, v1) = >>-none _ _ h1 in
    record {
      allowed = require-none _ _ allowed;
      fallbacks_up = (&&-true _ _ (require-none _ _ fallbacks)).1;
      escalation_up = check_next-up name (d.escalation_next name) next;
      v1_floor = λ e. v1_floor (forbid-none _ _ v1) e;
      v2_floor = λ e. v1_floor (forbid-none _ _ v2) e;
    }
  where
    v1_floor :
        {k m n : ℕ} → (d.schema_version == k && ltb m n) ≡ false → d.schema_version ≡ k → n ≤ m
    v1_floor f e = ground arith

-- The conditions that no policy may weaken.
pub record IsGuarded (c : Conditions) : Type 0 where
  pub ordered : c.xhigh_hard_signals ≤ c.max_hard_signals
  pub medium_forbids : all (includes c.medium.forbids) blocked_signals ≡ true
  pub medium_requires :
      all
        (includes c.medium.requires)
        (Signal.requirements_settled ∷ Signal.strong_verification ∷ [])
      ≡ true
  pub low_requires :
      all (includes c.low.requires) (Signal.declared_mechanical ∷ Signal.exact_output_check ∷ [])
      ≡ true
  pub low_forbids : includes c.low.forbids Signal.implementation ≡ true
  pub floor : all (includes c.risk_floor_signals) floor_signals ≡ true
  pub max_only :
      all (includes (Signal.high_failure_cost ∷ Signal.irreversible ∷ [])) c.max_requires_any ≡ true

check_downgrade-guards :
    (r : Rule)
    → check_downgrade r ≡ none
    → (all (includes r.requires) (Signal.requirements_settled ∷ Signal.strong_verification ∷ [])
        ≡ true)
      × (all (includes r.forbids) blocked_signals ≡ true)
unfolding check_downgrade
check_downgrade-guards r h = &&-true _ _ (require-none _ _ h)

check_conditions-IsGuarded : (c : Conditions) → check_conditions c ≡ none → IsGuarded c
unfolding check_conditions
check_conditions-IsGuarded c h =
    let (h5, distinct) = >>-none _ _ h in
    let (h4, exceptions) = >>-none _ _ h5 in
    let (h3, floor) = >>-none _ _ h4 in
    let (h2, low) = >>-none _ _ h3 in
    let (h1, low_guard) = >>-none _ _ h2 in
    let (order, medium_guard) = >>-none _ _ h1 in
    let (requires, forbids) = check_downgrade-guards c.medium medium_guard in
    let (low_requires, low_forbids) = &&-true _ _ (require-none _ _ low) in
    record {
      ordered = not_less _ _ (forbid-none _ _ order);
      medium_forbids = forbids;
      medium_requires = requires;
      low_requires = low_requires;
      low_forbids = low_forbids;
      floor = require-none _ _ floor;
      max_only = (&&-true _ _ (require-none _ _ exceptions)).0;
    }
  where
    not_less : (m n : ℕ) → ltb m n ≡ false → n ≤ m
    not_less m n e = ground arith

version_cases : (n : ℕ) → (n == 1 || n == 2) ≡ true → (n ≡ 1) ⊎ (n ≡ 2)
version_cases n h = ground arith

fits_schema-parts :
    (d : Definition)
    → fits_schema d ≡ true
    → (d.conditions.default_level ≡ WorkLevel.high)
      × (d.escalation_limit ≡ 2)
      × ((d.schema_version ≡ 1) ⊎ (d.schema_version ≡ 2))
unfolding fits_schema
fits_schema-parts d h =
    let (enums, _) = &&-true (fits_enums d) _ h in
    let (version, limits) = &&-true (d.schema_version == 1 || d.schema_version == 2) _ enums in
    let (level, limit) = &&-true (d.conditions.default_level == WorkLevel.high) _ limits in
    (
      (level_eq.equal_iff d.conditions.default_level WorkLevel.high).0 level,
      (nat_eq.equal_iff d.escalation_limit 2).0 limit,
      version_cases d.schema_version version,
    )

module _ (is_exact_slug : String → Bool) (digest_of : Definition → String) (d : Definition)
    {p : Policy} where
  pub compile-first_invalid :
      compile_model_policy is_exact_slug digest_of d ≡ inl p
      → (first_invalid is_exact_slug digest_of d ≡ none) × (p.definition ≡ d)
  unfolding compile_model_policy
  compile-first_invalid h = ground arith

  -- An accepted policy binds every level within its scope, and its fallbacks and escalations go up.
  pub compile-IsBound :
      compile_model_policy is_exact_slug digest_of d ≡ inl p
      → (l : WorkLevel) → IsBound p.definition l
  unfolding first_invalid
  compile-IsBound h l =
      let (valid, e) = compile-first_invalid h in
      let (upto, _) = >>-none (_ >> for_each sorted_levels (check_binding d)) _ valid in
      let bindings = (>>-none _ (for_each sorted_levels (check_binding d)) upto).1 in
      rw e (
        check_binding-IsBound d l (
          All-sorted_levels (λ l. check_binding d l ≡ none)
            (for_each-none sorted_levels (check_binding d) bindings) l))

  -- An accepted policy keeps the guards of its downgrades and of its risk floor.
  pub compile-IsGuarded :
      compile_model_policy is_exact_slug digest_of d ≡ inl p → IsGuarded p.definition.conditions
  unfolding first_invalid
  compile-IsGuarded h =
      let (valid, e) = compile-first_invalid h in
      rw e (check_conditions-IsGuarded d.conditions (>>-none _ _ valid).1)

  -- An accepted policy has `high` for its default level and allows two escalations.
  pub compile-schema :
      compile_model_policy is_exact_slug digest_of d ≡ inl p
      → (p.definition.conditions.default_level ≡ WorkLevel.high)
        × (p.definition.escalation_limit ≡ 2)
        × ((p.definition.schema_version ≡ 1) ⊎ (p.definition.schema_version ≡ 2))
  unfolding first_invalid
  compile-schema h =
      let (valid, e) = compile-first_invalid h in
      let (upto, _) = >>-none (_ >> for_each sorted_levels (check_binding d)) _ valid in
      let (upto2, _) =
        >>-none (_ >> check_pairs d work_levels) (for_each sorted_levels (check_binding d)) upto in
      let (upto3, _) = >>-none (_ >> check_version d) (check_pairs d work_levels) upto2 in
      let (upto4, _) =
        >>-none (_ >> check_models is_exact_slug [] d.allowed_models) (check_version d) upto3 in
      let (schema, _) = >>-none (require (fits_schema d) Invalid.schema_mismatch) _ upto4 in
      rw e (fits_schema-parts d (require-none _ _ schema))

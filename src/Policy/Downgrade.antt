-- ===== src/Policy/Downgrade.antt =====
-- The level that `decideWorkLevel` chooses under a policy that the compiler accepts.

use mathlib.Core.Bool.{false≢true}
use native.Mathlib.Decide.{dec_lt}
use adaptive_model_router.Common.{
  &&-true, Bool, Bool-cases, Eq, List, Option, String, [], all, any, ap, arith, bool_eq, false,
  if◌then◌else◌, includes, inl, inr, max, nat_eq, none, not, refl, some, string_eq, sym, text_eq,
  true, ◌<◌, ◌==◌, ◌∙◌, ◌∷◌, ◌≡◌, ◌≤◌,
}
use adaptive_model_router.Policy.{Conditions, CriticalRisk, Definition, Policy, Rule}
use adaptive_model_router.Policy.Bindings.{IsGuarded, compile-IsGuarded, compile-schema}
use adaptive_model_router.Policy.Compile.{blocked_signals, compile_model_policy, floor_signals}
use adaptive_model_router.Policy.Decide.{
  DecisionRule, apply_floor, choose_level, conditions_level, decide_work_level, fact, matches,
}
use adaptive_model_router.Task.{Evidence, Scored}
use adaptive_model_router.Vocabulary.{
  Signal, WorkLevel, effort_eq, failure_eq, gate_eq, level_eq, level_index, signal_eq,
}

signal_found : (x y : Signal) → (x == y) ≡ true → x ≡ y
signal_found x y h = (signal_eq.equal_iff x y).0 h

-- A fact that holds and that a rule forbids blocks the rule.
forbidden_blocks :
    (facts : Signal → Bool) (xs : List Signal) (x : Signal)
    → includes xs x ≡ true
    → facts x ≡ true
    → all (λ signal. not (facts signal)) xs ≡ false
forbidden_blocks facts [] x i h = cc
forbidden_blocks facts (y ∷ ys) x i h = elim (Bool-cases (y == x)) [
  | inl e ↦ let e' = signal_found y x e in rw (e', h)
  | inr e ↦ rw (forbidden_blocks facts ys x (ground arith) h) (ground arith)
]

-- A fact that holds and that a list names is found in it.
any-includes :
    (facts : Signal → Bool) (xs : List Signal) (x : Signal)
    → includes xs x ≡ true
    → facts x ≡ true
    → any facts xs ≡ true
any-includes facts [] x i h = cc
any-includes facts (y ∷ ys) x i h = elim (Bool-cases (y == x)) [
  | inl e ↦ let e' = signal_found y x e in rw (e', h)
  | inr e ↦ rw (any-includes facts ys x (ground arith) h) (ground arith)
]

-- What all of a list satisfies, an element satisfies.
all-at {ℓ} :
    {A : Type ℓ} ⦃e : Eq A⦄ (p : A → Bool) (xs : List A) (x : A)
    → all p xs ≡ true
    → includes xs x ≡ true
    → p x ≡ true
all-at p [] x a i = cc
all-at ⦃e⦄ p (y ∷ ys) x a i = elim (Bool-cases (e.equal y x)) [
  | inl same ↦ let same' = (e.equal_iff y x).0 same in rw (← same') (&&-true _ _ a).0
  | inr differs ↦ all-at p ys x (&&-true _ _ a).1 (ground arith)
]

-- The minimum level and the level that the floor leaves.
apply_floor-critical :
    (critical : CriticalRisk) (facts : Signal → Bool) (minimum : WorkLevel)
    (chosen : WorkLevel × DecisionRule)
    → any facts critical.signals ≡ true
    → let r = apply_floor (some critical) facts minimum chosen in
      (r.0 ≡ critical.minimum_level) × (level_index critical.minimum_level ≤ level_index r.1)
unfolding apply_floor
apply_floor-critical critical facts minimum (level, rule) h = ground arith

-- The floor never lowers the level.
apply_floor-ge :
    (o : Option CriticalRisk) (facts : Signal → Bool) (minimum : WorkLevel)
    (chosen : WorkLevel × DecisionRule)
    → level_index chosen.0 ≤ level_index (apply_floor o facts minimum chosen).1
unfolding apply_floor
apply_floor-ge none facts minimum (level, rule) = omega arith
apply_floor-ge (some critical) facts minimum (level, rule) = ground arith

module _ (scored : Scored) (e : Evidence) (d : Definition) where
  -- A critical fact raises the minimum to the policy's critical level, and the level at least to it.
  pub critical_floor :
      (critical : CriticalRisk) (x : Signal)
      → d.critical_risk ≡ some critical
      → includes critical.signals x ≡ true
      → fact scored.signals e x ≡ true
      → let r = decide_work_level scored e d in
        (r.minimum_level ≡ critical.minimum_level)
        × (level_index critical.minimum_level ≤ level_index r.work_level)
  unfolding decide_work_level
  critical_floor critical x c i h = rw c (
      apply_floor-critical critical (fact scored.signals e) _ _
        (any-includes (fact scored.signals e) critical.signals x i h))

-- What the floor names, `medium` forbids.
floor_blocked :
    (c : Conditions)
    → IsGuarded c
    → (x : Signal) → includes floor_signals x ≡ true
    → includes c.medium.forbids x ≡ true
floor_blocked c g x i =
    all-at (includes c.medium.forbids) blocked_signals x g.medium_forbids (ground arith)

-- The shape of the choice: below `high` the third test decided, and at `low` the fourth too.
low_choice :
    (max xhigh medium low : Bool) (default : WorkLevel)
    → default ≡ WorkLevel.high
    → level_index (choose_level max xhigh medium low default).0 < level_index WorkLevel.high
    → medium ≡ true
unfolding choose_level
low_choice max xhigh medium low default e h = ground arith

-- At `low` the fourth test decided.
lowest_choice :
    (max xhigh medium low : Bool) (default : WorkLevel)
    → default ≡ WorkLevel.high
    → level_index (choose_level max xhigh medium low default).0 ≡ 0
    → low ≡ true
unfolding choose_level
lowest_choice max xhigh medium low default e h = ground arith

not-true : (b : Bool) → not b ≡ true → b ≡ false
not-true b h = ground arith

matches-requires :
    (facts : Signal → Bool) (r : Rule) (x : Signal)
    → matches facts r ≡ true
    → includes r.requires x ≡ true
    → facts x ≡ true
matches-requires facts r x m i = all-at facts r.requires x (&&-true _ _ m).0 i

matches-forbids :
    (facts : Signal → Bool) (r : Rule) (x : Signal)
    → matches facts r ≡ true
    → includes r.forbids x ≡ true
    → facts x ≡ false
matches-forbids facts r x m i =
    not-true (facts x) (all-at (λ y. not (facts y)) r.forbids x (&&-true _ _ m).1 i)

module _ (scored : Scored) (e : Evidence) (d : Definition) (guarded : IsGuarded d.conditions)
    (default_high : d.conditions.default_level ≡ WorkLevel.high) where
  -- Below the default level only a rule whose guards hold decides.
  chosen_medium :
      let r = conditions_level d.conditions scored (fact scored.signals e) in
      level_index r.0 < level_index WorkLevel.high
      → matches (fact scored.signals e) d.conditions.medium ≡ true
  unfolding conditions_level
  chosen_medium h = low_choice _ _ _ _ d.conditions.default_level default_high h

  chosen_lowest :
      level_index (conditions_level d.conditions scored (fact scored.signals e)).0 ≡ 0
      → matches (fact scored.signals e) d.conditions.low ≡ true
  unfolding conditions_level
  chosen_lowest h = lowest_choice _ _ _ _ d.conditions.default_level default_high h

  -- Where a signal of the risk floor holds, the level is at least `high`.
  pub risk_floor :
      (x : Signal)
      → includes floor_signals x ≡ true
      → fact scored.signals e x ≡ true
      → level_index WorkLevel.high ≤ level_index (decide_work_level scored e d).work_level
  unfolding decide_work_level
  risk_floor x i h = elim (dec_lt (level_index chosen.0) 2) [
    | yes low ↦ absurd (false≢true (sym blocked ∙ (&&-true _ _ (chosen_medium low)).1))
    | no high ↦ omega (arith, apply_floor-ge d.critical_risk facts floor chosen)
  ]
    where
      facts : Signal → Bool
      facts = fact scored.signals e

      floor : WorkLevel
      floor = if any facts d.conditions.risk_floor_signals then WorkLevel.high else WorkLevel.low

      chosen : WorkLevel × DecisionRule
      chosen = conditions_level d.conditions scored facts

      blocked : all (λ signal. not (facts signal)) d.conditions.medium.forbids ≡ false
      blocked =
          forbidden_blocks facts d.conditions.medium.forbids x
            (floor_blocked d.conditions guarded x i) h

  -- The level `low` is chosen for settled, verified, declared mechanical work with an exact check
  -- only, and only where no blocked signal and no implementation holds.
  pub low_guarded :
      (decide_work_level scored e d).work_level ≡ WorkLevel.low
      → (e.requirements_settled ≡ true)
        × (e.strong_verification ≡ true)
        × (e.mechanical ≡ true)
        × (e.exact_output_check ≡ true)
        × (scored.signals.implementation ≡ false)
        × ((x : Signal) → includes blocked_signals x ≡ true → fact scored.signals e x ≡ false)
  unfolding decide_work_level
  low_guarded h = (
    matches-requires facts d.conditions.medium Signal.requirements_settled medium
        (at_medium Signal.requirements_settled refl),
    matches-requires facts d.conditions.medium Signal.strong_verification medium
        (at_medium Signal.strong_verification refl),
    matches-requires facts d.conditions.low Signal.declared_mechanical low
        (at_low Signal.declared_mechanical refl),
    matches-requires facts d.conditions.low Signal.exact_output_check low
        (at_low Signal.exact_output_check refl),
    matches-forbids facts d.conditions.low Signal.implementation low guarded.low_forbids,
    λ x i.
        matches-forbids facts d.conditions.medium x medium (
          all-at (includes d.conditions.medium.forbids) blocked_signals x guarded.medium_forbids i),
  )
    where
      facts : Signal → Bool
      facts = fact scored.signals e

      floor : WorkLevel
      floor = if any facts d.conditions.risk_floor_signals then WorkLevel.high else WorkLevel.low

      chosen : WorkLevel × DecisionRule
      chosen = conditions_level d.conditions scored facts

      chosen_is_low : level_index chosen.0 ≡ 0
      chosen_is_low =
          omega (arith, apply_floor-ge d.critical_risk facts floor chosen, ap level_index h)

      low : matches facts d.conditions.low ≡ true
      low = chosen_lowest chosen_is_low

      medium : matches facts d.conditions.medium ≡ true
      medium = chosen_medium (omega (arith, chosen_is_low))

      at_medium :
          (x : Signal)
          → includes (Signal.requirements_settled ∷ Signal.strong_verification ∷ []) x ≡ true
          → includes d.conditions.medium.requires x ≡ true
      at_medium x i =
          all-at (includes d.conditions.medium.requires)
            (Signal.requirements_settled ∷ Signal.strong_verification ∷ []) x
            guarded.medium_requires i

      at_low :
          (x : Signal)
          → includes (Signal.declared_mechanical ∷ Signal.exact_output_check ∷ []) x ≡ true
          → includes d.conditions.low.requires x ≡ true
      at_low x i =
          all-at (includes d.conditions.low.requires)
            (Signal.declared_mechanical ∷ Signal.exact_output_check ∷ []) x guarded.low_requires i

-- The guarantees for a policy that the compiler accepted.
module _ (is_exact_slug : String → Bool) (digest_of : Definition → String) (d : Definition)
    {p : Policy} (accepted : compile_model_policy is_exact_slug digest_of d ≡ inl p) where
  -- Under an accepted policy, a task with a signal of the risk floor (risk, security, migration,
  -- public contract, review, architecture trade-off) is never given a level below `high`.
  pub accepted-risk_floor :
      (scored : Scored) (e : Evidence) (x : Signal)
      → includes floor_signals x ≡ true
      → fact scored.signals e x ≡ true
      → level_index WorkLevel.high
        ≤ level_index (decide_work_level scored e p.definition).work_level
  accepted-risk_floor scored e =
      risk_floor scored e p.definition (compile-IsGuarded is_exact_slug digest_of d accepted)
        (compile-schema is_exact_slug digest_of d accepted).0

  -- Under an accepted policy, the level `low` needs settled requirements, strong verification,
  -- declared mechanical work and an exact output check, and neither an implementation signal nor any
  -- of the blocked signals `x`.
  pub accepted-low_guarded :
      (scored : Scored) (e : Evidence) (x : Signal)
      → (decide_work_level scored e p.definition).work_level ≡ WorkLevel.low
      → includes blocked_signals x ≡ true
      → (e.requirements_settled ≡ true)
        × (e.strong_verification ≡ true)
        × (e.mechanical ≡ true)
        × (e.exact_output_check ≡ true)
        × (scored.signals.implementation ≡ false)
        × (fact scored.signals e x ≡ false)
  accepted-low_guarded scored e x low blocked =
      let all =
        low_guarded scored e p.definition (compile-IsGuarded is_exact_slug digest_of d accepted)
          (compile-schema is_exact_slug digest_of d accepted).0 low in
      (all.0, all.1, all.2, all.3, all.4, all.5 x blocked)

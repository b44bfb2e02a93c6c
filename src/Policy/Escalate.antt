-- ===== src/Policy/Escalate.antt =====
-- `nextWorkLevel` of scripts/lib/model-policy.mjs: the next level with another target.

use mathlib.Core.Option.{some-injective}
use adaptive_model_router.Common.{
  Bool, Bool-cases, Option, String, arith, bool_eq, false, inl, inr, nat_eq, none, refl, some,
  string_eq, subst, suc, sym, text_eq, true, zero, ℕ, ◌+◌, ◌<◌, ◌≡◌, ◌≤◌,
}
use adaptive_model_router.Policy.{Definition, Policy, Target, same_target}
use adaptive_model_router.Policy.Bindings.{compile-IsBound}
use adaptive_model_router.Policy.Compile.{compile_model_policy}
use adaptive_model_router.Vocabulary.{
  WorkLevel, effort_eq, failure_eq, gate_eq, level_eq, level_index, signal_eq,
}

-- The `while` loop over `escalation.next`, on fuel: it steps over levels of the previous target.
unfoldable pub skip_same : Definition → Target → ℕ → Option WorkLevel → Option WorkLevel
skip_same d previous zero next = none
skip_same d previous (suc fuel) none = none
skip_same d previous (suc fuel) (some next) = elim (same_target (d.targets next) previous) [
  | true ↦ skip_same d previous fuel (d.escalation_next next)
  | false ↦ some next
]

-- There are six levels: the walk visits at most five above the first.
unfoldable pub next_work_level : Definition → WorkLevel → Option WorkLevel
unfolding skip_same
next_work_level d previous = skip_same d (d.targets previous) 7 (d.escalation_next previous)

-- The chain of escalations goes up.
abbrev pub GoesUp : Definition → Type 0
GoesUp d =
    (name next : WorkLevel)
    → d.escalation_next name ≡ some next
    → level_index name < level_index next

-- The walk has ended, by its own test: at no level, or at one with another target.
abbrev pub HasStopped : Definition → Target → WorkLevel → Option WorkLevel → Type 0
HasStopped d previous from none = Unit
HasStopped d previous from (some next) =
    (same_target (d.targets next) previous ≡ false) × (level_index from < level_index next)

level_index_bound : (l : WorkLevel) → level_index l ≤ 5
level_index_bound l = ground arith

skip_same-HasStopped :
    (d : Definition) (previous : Target) (fuel : ℕ) (from : WorkLevel) (next : Option WorkLevel)
    → GoesUp d
    → ((l : WorkLevel) → next ≡ some l → level_index from < level_index l)
    → HasStopped d previous from (skip_same d previous fuel next)
unfolding skip_same
skip_same-HasStopped d previous zero from next up above = tt
skip_same-HasStopped d previous (suc fuel) from none up above = tt
skip_same-HasStopped d previous (suc fuel) from (some next) up above =
    elim (Bool-cases (same_target (d.targets next) previous)) [
      | inl e ↦
          rw (e, skip_same)
            (skip_same-HasStopped d previous fuel from (d.escalation_next next) up
              (λ l h. omega (arith, up next l h, above next refl)))
      | inr e ↦ rw (e, skip_same) (e, above next refl)
    ]

-- The levels that a walk from `o` can visit.
pub data Climbs (d : Definition) (l : WorkLevel) : Option WorkLevel → Type 0 where
  here : {o : Option WorkLevel} → o ≡ some l → Climbs d l o
  later :
      {o : Option WorkLevel} (m : WorkLevel)
      → o ≡ some m
      → Climbs d l (d.escalation_next m)
      → Climbs d l o

-- With fuel for every level above the current one, a walk that finds nothing has visited every level
-- of the chain, and all have the previous target.
skip_same-none :
    (d : Definition) (previous : Target) (fuel : ℕ) (next : Option WorkLevel)
    → GoesUp d
    → ((l : WorkLevel) → next ≡ some l → 6 ≤ fuel + level_index l)
    → skip_same d previous fuel next ≡ none
    → (l : WorkLevel) → Climbs d l next
    → same_target (d.targets l) previous ≡ true
unfolding skip_same
skip_same-none d previous zero next up bound h l (Climbs.here e) =
    absurd (omega (arith, bound l e, level_index_bound l))
skip_same-none d previous zero next up bound h l (Climbs.later m e c) =
    absurd (omega (arith, bound m e, level_index_bound m))
skip_same-none d previous (suc fuel) none up bound h l (Climbs.here e) = cc
skip_same-none d previous (suc fuel) none up bound h l (Climbs.later m e c) = cc
skip_same-none d previous (suc fuel) (some next) up bound h l c =
    elim (Bool-cases (same_target (d.targets next) previous)) [
      | inl e ↦ step c e (
          skip_same-none d previous fuel (d.escalation_next next) up
            (λ m g. omega (arith, up next m g, bound next refl)) (rw (e, skip_same) at h) l)
      | inr e ↦ absurd (some_ne_none (rw (e, skip_same) at h))
    ]
  where
    some_ne_none : {x : WorkLevel} → some x ≡ none → ⊥
    some_ne_none g = cc

    step :
        Climbs d l (some next)
        → same_target (d.targets next) previous ≡ true
        → (Climbs d l (d.escalation_next next) → same_target (d.targets l) previous ≡ true)
        → same_target (d.targets l) previous ≡ true
    step (Climbs.here g) e rest =
        subst (λ x. same_target (d.targets x) previous ≡ true) (some-injective next l g) e
    step (Climbs.later m g c') e rest =
        rest (subst (λ x. Climbs d l (d.escalation_next x)) (sym (some-injective next m g)) c')

module _ (is_exact_slug : String → Bool) (digest_of : Definition → String) (d : Definition)
    {p : Policy} (accepted : compile_model_policy is_exact_slug digest_of d ≡ inl p) where
  goes_up : GoesUp p.definition
  goes_up name = (compile-IsBound is_exact_slug digest_of d accepted name).escalation_up

  -- Under an accepted policy, the level that an escalation finds is above the previous one and has
  -- another target.
  pub next_work_level-above :
      (previous next : WorkLevel)
      → next_work_level p.definition previous ≡ some next
      → (same_target (p.definition.targets next) (p.definition.targets previous) ≡ false)
        × (level_index previous < level_index next)
  unfolding next_work_level
  next_work_level-above previous next h =
      subst (HasStopped p.definition (p.definition.targets previous) previous) h (
        skip_same-HasStopped p.definition (p.definition.targets previous) 7 previous
          (p.definition.escalation_next previous) goes_up (goes_up previous))

  -- Under an accepted policy, an escalation that finds no level has gone through the whole chain of
  -- escalations of the previous level: each level `l` of it has the previous target.
  pub next_work_level-none :
      (previous l : WorkLevel)
      → next_work_level p.definition previous ≡ none
      → Climbs p.definition l (p.definition.escalation_next previous)
      → same_target (p.definition.targets l) (p.definition.targets previous) ≡ true
  unfolding next_work_level
  next_work_level-none previous l h =
      skip_same-none p.definition (p.definition.targets previous) 7
        (p.definition.escalation_next previous) goes_up (λ m e. omega arith) h l

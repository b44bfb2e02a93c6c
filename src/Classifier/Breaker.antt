-- ===== src/Classifier/Breaker.antt =====
-- The circuit breaker of the classifier over a run of calls.
use mathlib.Core.Bool.{false≢true}
use adaptive_model_router.Common.{
  Bool, Bool-cases, List, Option, [], ap, arith, false, if◌then◌else◌, inl, inr, leb, ltb, lt→ltb,
  none, not, not_below, refl, some, subst, sym, true, ℕ, ◌+◌, ◌<◌, ◌∙◌, ◌∷◌, ◌≡◌, ◌≤◌,
}
use adaptive_model_router.Classifier.{
  Classification, ClassifierState, Health, Switches, classifier_cooldown_ms, classifier_failed,
  classifier_failure_limit, classifier_health, classifier_succeeded, classify_borderline,
  is_coherent, settle,
}

-- The calls of a run, each with the answer of the application server and its time, the oldest first.
abbrev pub after_calls : Switches → List (Option Classification × ℕ) → Option Health → Option Health
after_calls s [] row = row
after_calls s ((answer, now) ∷ calls) row =
    after_calls s calls (classify_borderline s answer now row).0

-- An error of the call, or an answer whose reason code does not match.
abbrev pub is_failure : Option Classification → Bool
is_failure none = true
is_failure (some c) = not (is_coherent c)

module _ (s : Switches) (aux : s.is_auxiliary ≡ true) (dis : s.is_disabled ≡ false)
    (int : s.is_internal ≡ false) (loc : s.is_local_only ≡ false) where
  settle-failure :
      (answer : Option Classification) (now : ℕ) (row : Option Health)
      → is_failure answer ≡ true
      → settle answer now row ≡ (
        classifier_failed classifier_failure_limit classifier_cooldown_ms now row,
        ClassifierState.fallback,
      )
  unfolding settle
  settle-failure none now row h = refl
  settle-failure (some c) now row h = elim (Bool-cases (is_coherent c)) [
    | inl e ↦ absurd (false≢true (rw e at h))
    | inr e ↦ rw (e, settle) refl
  ]

  -- A call while the circuit is closed, that fails.
  failed_call :
      (answer : Option Classification) (now : ℕ) (row : Option Health)
      → is_failure answer ≡ true
      → ltb now (classifier_health row).opened_until ≡ false
      → classify_borderline s answer now row ≡ (
        classifier_failed classifier_failure_limit classifier_cooldown_ms now row,
        ClassifierState.fallback,
      )
  unfolding classify_borderline
  failed_call answer now row h closed =
      rw (aux, dis, int, loc, closed, classify_borderline, settle-failure answer now row h) refl

  -- A run that starts with a failed call.
  after_calls-failed :
      (answer : Option Classification) (now : ℕ) (calls : List (Option Classification × ℕ))
      (row : Option Health)
      → is_failure answer ≡ true
      → ltb now (classifier_health row).opened_until ≡ false
      → after_calls s ((answer, now) ∷ calls) row
        ≡ after_calls s calls
            (classifier_failed classifier_failure_limit classifier_cooldown_ms now row)
  after_calls-failed answer now calls row h closed =
      ap (λ (z : Option Health × ClassifierState). after_calls s calls z.0)
        (failed_call answer now row h closed)

  first_failed :
      (now : ℕ) (row : Option Health)
      → (classifier_health row).failures ≡ 0
      → classifier_failed classifier_failure_limit classifier_cooldown_ms now row
        ≡ some (record { failures = 1; opened_until = 0 })
  unfolding classifier_failed
  first_failed now row h = rw (h, classifier_failed) refl

  next_failed :
      (n now : ℕ)
      → classifier_failed classifier_failure_limit classifier_cooldown_ms now
          (some (record { failures = n; opened_until = 0 }))
        ≡ some (record {
          failures = n + 1;
          opened_until =
              if leb classifier_failure_limit (n + 1) then now + classifier_cooldown_ms else 0;
        })
  unfolding classifier_failed classifier_health
  next_failed n now = refl

  ltb_zero : (n : ℕ) → ltb n 0 ≡ false
  ltb_zero n = ground arith

  abbrev opened : ℕ → Option Health
  opened now = some (record { failures = 3; opened_until = now + classifier_cooldown_ms })

  three_opened :
      (x y z : Option Classification) (first second third : ℕ) (row : Option Health)
      → is_failure x ≡ true
      → is_failure y ≡ true
      → is_failure z ≡ true
      → (classifier_health row).failures ≡ 0
      → ltb first (classifier_health row).opened_until ≡ false
      → after_calls s ((x, first) ∷ (y, second) ∷ (z, third) ∷ []) row ≡ opened third
  unfolding classifier_health
  three_opened x y z first second third row fx fy fz none_yet closed =
      after_calls-failed x first ((y, second) ∷ (z, third) ∷ []) row fx closed
      ∙ ap (after_calls s ((y, second) ∷ (z, third) ∷ [])) (first_failed first row none_yet)
      ∙ after_calls-failed y second ((z, third) ∷ [])
          (some (record { failures = 1; opened_until = 0 })) fy (ltb_zero second)
      ∙ ap (after_calls s ((z, third) ∷ [])) (next_failed 1 second)
      ∙ after_calls-failed z third [] (some (record { failures = 2; opened_until = 0 })) fz
          (ltb_zero third)
      ∙ next_failed 2 third

-- Three calls in a row that fail, by an error or an answer that is not coherent, after a state without
-- failures whose circuit is closed, open the circuit: a call within ten minutes of the third answers
-- `circuit_open` without asking, and changes nothing; and a coherent answer at a later time is used and
-- clears the failures.
pub three_failures :
    (s : Switches) (x y z : Option Classification) (c : Classification)
    (first second third now later : ℕ) (row : Option Health)
    → s.is_auxiliary ≡ true
    → s.is_disabled ≡ false
    → s.is_internal ≡ false
    → s.is_local_only ≡ false
    → is_failure x ≡ true
    → is_failure y ≡ true
    → is_failure z ≡ true
    → is_coherent c ≡ true
    → (classifier_health row).failures ≡ 0
    → ltb first (classifier_health row).opened_until ≡ false
    → now < third + classifier_cooldown_ms
    → third + classifier_cooldown_ms ≤ later
    → let failed = after_calls s ((x, first) ∷ (y, second) ∷ (z, third) ∷ []) row in
      ((classifier_health failed).failures ≡ 3)
      × (classify_borderline s (some c) now failed ≡ (failed, ClassifierState.circuit_open))
      × ((classify_borderline s (some c) later failed).1 ≡ ClassifierState.used c)
      × ((classifier_health (classify_borderline s (some c) later failed).0).failures ≡ 0)
unfolding classify_borderline settle classifier_succeeded classifier_health
three_failures s x y z c first second third now later row aux dis int loc fx fy fz ok none_yet
      closed soon late =
    let three =
      three_opened s aux dis int loc x y z first second third row fx fy fz none_yet closed in
    let shut : ltb now (third + classifier_cooldown_ms) ≡ true =
      lt→ltb now (third + classifier_cooldown_ms) soon in
    let free : ltb later (third + classifier_cooldown_ms) ≡ false =
      not_below later (third + classifier_cooldown_ms) late in
    subst (Result s c now later) (sym three) (
      refl,
      rw (aux, dis, int, loc, shut, classify_borderline) refl,
      rw (aux, dis, int, loc, free, classify_borderline, ok) refl,
      rw (aux, dis, int, loc, free, classify_borderline, ok) refl,
    )
  where
    Result : Switches → Classification → ℕ → ℕ → Option Health → Type 0
    Result s c now later failed =
        ((classifier_health failed).failures ≡ 3)
        × (classify_borderline s (some c) now failed ≡ (failed, ClassifierState.circuit_open))
        × ((classify_borderline s (some c) later failed).1 ≡ ClassifierState.used c)
        × ((classifier_health (classify_borderline s (some c) later failed).0).failures ≡ 0)

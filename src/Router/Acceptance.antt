-- ===== src/Router/Acceptance.antt =====
-- Which requests `validateRouteInput` of scripts/lib/router.mjs accepts.
use adaptive_model_router.Common.{
  Bool, Bool-cases, List, Option, Option-cases, Text, [], all, arith, bool_eq, includes, inl, inr,
  is_duplicate_free, is_some, nat_eq, none, not, refl, some, string_eq, text_eq, true, ◌&&◌, ◌==◌,
  ◌||◌, ◌∷◌, ◌≡◌, ◌⊎◌,
}
use adaptive_model_router.ModelSlug.{normalize_model_slug}
use adaptive_model_router.Policy.Resolve.{is_empty}
use adaptive_model_router.Router.Input.{
  Delegable, Delegation, Input, InputFault, InputOverride, check_delegation, check_failure,
  check_override, check_targets, contradicts, is_acceptable, is_exact_model, is_good_delegation,
  is_good_override, is_good_target, is_returned, models_of_targets, validate_route_input,
}
use adaptive_model_router.Task.{Evidence}
use adaptive_model_router.Vocabulary.{
  category_eq, effort_eq, failure_eq, gate_eq, level_eq, signal_eq,
}

check_override-good :
    (o : Option InputOverride) → is_returned (check_override o) ≡ is_good_override o
unfolding check_override
check_override-good none = refl
check_override-good (some o) = elim (Option-cases o.model) [
  | inl e ↦ elim (Option-cases o.effort) [
    | inl f ↦ rw (e, f, check_override) refl
    | inr (effort, f) ↦ rw (e, f, check_override) refl
  ]
  | inr (model, e) ↦ elim (Option-cases (normalize_model_slug model)) [
    | inl f ↦ rw (e, f, check_override) refl
    | inr (m, f) ↦ rw (e, f, check_override) refl
  ]
]

check_failure-good :
    (names_previous : Bool) (e : Evidence)
    → not (is_some (check_failure names_previous e))
      ≡ (not e.verification_failed || (names_previous && is_some e.failure_type))
unfolding check_failure
check_failure-good names_previous e = ground arith

-- None of the models was seen.
abbrev are_new : List Text → List Text → Bool
are_new seen models = all (λ m. not (includes seen m)) models

beq-sym : (a b : Text) → (a == b) ≡ (b == a)
beq-sym a b = elim (Bool-cases (a == b)) [
  | inl e ↦ rw ((text_eq.equal_iff a b).0 e) refl
  | inr e ↦ elim (Bool-cases (b == a)) [
    | inl f ↦ rw ((text_eq.equal_iff b a).0 f) refl
    | inr f ↦ rw (e, f) refl
  ]
]

are_new-cons :
    (seen : List Text) (m : Text) (ms : List Text)
    → are_new (m ∷ seen) ms ≡ (not (includes ms m) && are_new seen ms)
are_new-cons seen m [] = refl
are_new-cons seen m (n ∷ ms) =
    rw (are_new-cons seen m ms, beq-sym m n)
      (mix (n == m) (includes seen n) (includes ms m) (are_new seen ms))
  where
    mix : (a b c d : Bool) → (not (a || b) && (not c && d)) ≡ (not (a || c) && (not b && d))
    mix a b c d = ground arith

are_new-nil : (ms : List Text) → are_new [] ms ≡ true
are_new-nil [] = refl
are_new-nil (m ∷ ms) = are_new-nil ms

check_targets-good :
    (seen : List Text) (ts : List Delegable)
    → not (is_some (check_targets seen ts)) ≡ (
        all is_good_target ts
        && (is_duplicate_free (models_of_targets ts) && are_new seen (models_of_targets ts)))
unfolding check_targets
check_targets-good seen [] = refl
check_targets-good seen (t ∷ ts) = elim (Bool-cases (is_exact_model t.model)) [
  | inr a ↦ rw (a, check_targets) refl
  | inl a ↦ elim (Bool-cases (is_duplicate_free t.efforts)) [
    | inr b ↦ elim (Bool-cases (includes seen t.model)) [
      | inl c ↦ rw (a, b, c, check_targets) refl
      | inr c ↦ rw (a, b, c, check_targets) refl
    ]
    | inl b ↦ elim (Bool-cases (includes seen t.model)) [
      | inl c ↦ rw (a, b, c, check_targets) (ground arith)
      | inr c ↦
          rw
            (
              a,
              b,
              c,
              check_targets,
              check_targets-good (t.model ∷ seen) ts,
              are_new-cons seen t.model (models_of_targets ts),
            )
            (ground arith)
    ]
  ]
]

check_delegation-good :
    (e : Evidence) (o : Option Delegation)
    → not (is_some (check_delegation e o)) ≡ is_good_delegation e o
unfolding check_delegation
check_delegation-good e none = refl
check_delegation-good e (some d) =
    elim (Bool-cases (contradicts e.host_can_delegate d.is_available)) [
      | inl a ↦ rw (a, check_delegation) refl
      | inr a ↦ elim (Bool-cases (not d.is_available && not (is_empty d.targets))) [
        | inl b ↦ rw (a, b, check_delegation) (ground arith)
        | inr b ↦
            rw
              (
                a,
                b,
                check_delegation,
                check_targets-good [] d.targets,
                are_new-nil (models_of_targets d.targets),
              )
              (ground arith)
      ]
    ]

-- The validation refuses exactly the requests that are not acceptable: an override that names neither
-- a model nor an effort or an ill-formed model, a failed verification without its predecessor or its
-- type, capabilities that contradict the evidence or list targets without delegation, and targets that
-- are not normalised or repeat a model or an effort.
pub validate_route_input-is_acceptable :
    (i : Input) → is_returned (validate_route_input i) ≡ is_acceptable i
unfolding validate_route_input
validate_route_input-is_acceptable i =
    three (check_override i.override) (check_failure i.names_previous i.evidence)
      (check_delegation i.evidence i.delegation) (check_override-good i.override)
      (check_failure-good i.names_previous i.evidence)
      (check_delegation-good i.evidence i.delegation)
  where
    three :
        (a : InputFault ⊎ Option InputOverride) (b c : Option InputFault) {p q r : Bool}
        → is_returned a ≡ p
        → not (is_some b) ≡ q
        → not (is_some c) ≡ r
        → is_returned {A = InputFault} {B = Input} (elim a [
          | inl fault ↦ inl fault
          | inr override ↦ elim b [
            | some fault ↦ inl fault
            | none ↦ elim c [
              | some fault ↦ inl fault
              | none ↦ inr (record i { override = override })
            ]
          ]
        ])
          ≡ (p && (q && r))
    three (inl fault) b c e f g = ground arith
    three (inr o) (some fault) c e f g = ground arith
    three (inr o) none (some fault) e f g = ground arith
    three (inr o) none none e f g = ground arith

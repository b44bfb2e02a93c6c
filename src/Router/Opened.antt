-- ===== src/Router/Opened.antt =====
-- What the commit of a route leaves in the store: `commitRoute` of scripts/lib/database.mjs, for every
-- route that `routeWithStore` of scripts/lib/router.mjs answers with.
use adaptive_model_router.Overrides
use adaptive_model_router.Common.{
  Bool, Bool-cases, List, Option, Option-cases, String, [], any, ap, arith, bool_eq, false, filter,
  inl, inr, nat_beq, nat_eq, none, not, refl, some, string_eq, text_eq, true, ℕ, ◌&&◌, ◌++◌, ◌==◌,
  ◌∷◌, ◌≡◌,
}
use adaptive_model_router.Gate.{Attempt, Context}
use adaptive_model_router.Gate.Admission.{insert_delegation_attempt, new_attempt}
use adaptive_model_router.Gate.Ticket.{Crypto}
use adaptive_model_router.Policy.{Target, target_allowed}
use adaptive_model_router.Router.{Route}
use adaptive_model_router.Router.Commit.{
  Active, Admission, Committed, Store, active_delegation, admit, commit_delegate, commit_plain,
  effort_name, insert_delegation, insert_route, inspect_limits, use_once,
}
use adaptive_model_router.Router.Plan.{same_policy}
use adaptive_model_router.Vocabulary.{
  category_eq, effort_eq, failure_eq, gate_eq, level_eq, signal_eq,
}

-- The attempt that a delegated route opens.
abbrev pub attempt_for : Context → Route → Target → Admission → Attempt
attempt_for c r target a =
    new_attempt c r.route_id a.ticket_hash target.model (effort_name target.effort) a.sealed
      a.sealed_bytes a.now

insert_route_inv :
    (r : Route) (s s' : Store)
    → insert_route r s ≡ Committed.stored s'
    → (any (λ x. x.route_id == r.route_id) s.routes ≡ false)
      × (s' ≡ record s { routes = s.routes ++ r ∷ [] })
unfolding insert_route
insert_route_inv r s s' h = elim (Bool-cases (any (λ x. x.route_id == r.route_id) s.routes)) [
  | inl e ↦ cc (rw (e, insert_route) at h)
  | inr e ↦ (e, cc (rw (e, insert_route) at h))
]

not_in_filter :
    (id : ℕ) (rows : List Overrides.OverrideRow)
    → any
        (λ (o : Overrides.OverrideRow). o.id == id)
        (filter (λ (o : Overrides.OverrideRow). not (o.id == id)) rows)
      ≡ false
not_in_filter id [] = refl
not_in_filter id (o ∷ rows) = ground (arith, not_in_filter id rows)

-- An override that is used once is gone from the rows.
abbrev pub IsUsed : Option ℕ → Store → Type 0
IsUsed none s' = Unit
IsUsed (some id) s' = any (λ (o : Overrides.OverrideRow). o.id == id) s'.overrides ≡ false

use_once-IsUsed :
    (c : Context) (once : Option ℕ) (s s' : Store) → use_once c once s ≡ some s' → IsUsed once s'
unfolding use_once
use_once-IsUsed c none s s' h = tt
use_once-IsUsed c (some id) s s' h =
    elim (Bool-cases (
      any
        (λ (o : Overrides.OverrideRow).
          o.id == id
          && (nat_beq (Overrides.scope_index o.scope) 0
              && (o.project_id == c.project_id && o.context_key == c.context_key)))
        s.overrides)) [
          | inr e ↦ cc (rw (e, use_once) at h)
          | inl e ↦
              let same : s' ≡ record s {
                overrides = filter (λ (o : Overrides.OverrideRow). not (o.id == id)) s.overrides;
              } =
                cc (rw (e, use_once) at h) in
              rw same (not_in_filter id s.overrides)
        ]

IsUsed-same :
    (once : Option ℕ) (s s' : Store) → s'.overrides ≡ s.overrides → IsUsed once s → IsUsed once s'
IsUsed-same none s s' e h = tt
IsUsed-same (some id) s s' e h = rw e h

use_once_inv :
    (c : Context) (once : Option ℕ) (s s' : Store)
    → use_once c once s ≡ some s'
    → (s'.gate ≡ s.gate) × (s'.routes ≡ s.routes)
unfolding use_once
use_once_inv c none s s' h = ground arith
use_once_inv c (some id) s s' h = ground arith

module _ (x : Crypto) (legacy_block : Option String) where
  -- A delegation that took `before` to `s'`: the store was idle, the capacity, the policy in
  -- force and the limits allowed it, and its route and its attempt are all that the two tables gain,
  -- and the override `once` is gone.
  pub record IsOpened (c : Context) (a : Admission) (once : Option ℕ) (before s' : Store)
      (r : Route) : Type 0 where
    pub target : Target
    pub has_target : r.target ≡ some target
    pub idle : active_delegation x legacy_block c before.gate ≡ Active.none_active
    pub capacity : a.capacity_allowed ≡ true
    pub in_force : same_policy before.policy r ≡ true
    pub in_scope : target_allowed before.policy.definition target ≡ true
    pub within : inspect_limits a before.gate ≡ none
    pub unused : any (λ q. q.route_id == r.route_id) before.routes ≡ false
    pub opened : insert_delegation_attempt (attempt_for c r target a) before.gate ≡ some s'.gate
    pub gains : s'.routes ≡ before.routes ++ r ∷ []
    pub used : IsUsed once s'

  insert_delegation_inv :
      (c : Context) (r : Route) (target : Target) (a : Admission) (s s' : Store)
      → insert_delegation x legacy_block c r target a s ≡ Committed.stored s'
      → (insert_delegation_attempt (attempt_for c r target a) s.gate ≡ some s'.gate)
        × (any (λ q. q.route_id == r.route_id) s.routes ≡ false)
        × (s'.routes ≡ s.routes ++ r ∷ [])
        × (s'.overrides ≡ s.overrides)
  unfolding insert_delegation
  insert_delegation_inv c r target a s s' h =
      elim (Option-cases (insert_delegation_attempt (attempt_for c r target a) s.gate)) [
        | inl e ↦ cc (rw (e, insert_delegation) at h)
        | inr (gate, e) ↦
            let (unused, same) =
              insert_route_inv r (record s { gate = gate }) s' (rw (e, insert_delegation) at h) in
            (cc, unused, ap (λ (t : Store). t.routes) same, ap (λ (t : Store). t.overrides) same)
      ]

  admit_inv :
      (c : Context) (r : Route) (target : Target) (once : Option ℕ) (a : Admission) (s s' : Store)
      → admit x legacy_block c r target once a s ≡ Committed.stored s'
      → (inspect_limits a s.gate ≡ none)
        × (insert_delegation_attempt (attempt_for c r target a) s.gate ≡ some s'.gate)
        × (any (λ q. q.route_id == r.route_id) s.routes ≡ false)
        × (s'.routes ≡ s.routes ++ r ∷ [])
        × IsUsed once s'
  unfolding admit
  admit_inv c r target once a s s' h = elim (Option-cases (inspect_limits a s.gate)) [
    | inr (reason, e) ↦ cc (rw (e, admit) at h)
    | inl e ↦ elim (Option-cases (use_once c once s)) [
      | inl u ↦ cc (rw (e, u, admit) at h)
      | inr (s1, u) ↦
          let (opened, unused, gains, rows) =
            insert_delegation_inv c r target a s1 s' (rw (e, u, admit) at h) in
          let (same_gate, same_routes) = use_once_inv c once s s1 u in
          (
            e,
            rw same_gate at opened,
            rw same_routes at unused,
            rw same_routes at gains,
            IsUsed-same once s1 s' rows (use_once-IsUsed c once s s1 u),
          )
    ]
  ]

  pub commit_delegate-IsOpened :
      (c : Context) (r : Route) (target : Target) (once : Option ℕ) (a : Admission) (s s' : Store)
      → r.target ≡ some target
      → commit_delegate x legacy_block c r target once a s ≡ Committed.stored s'
      → IsOpened c a once s s' r
  unfolding commit_delegate
  commit_delegate-IsOpened c r target once a s s' has h = elim (Bool-cases a.capacity_allowed) [
    | inr e ↦ cc (rw (e, commit_delegate) at h)
    | inl e ↦ elim (Bool-cases (same_policy s.policy r)) [
      | inr f ↦ cc (rw (e, f, commit_delegate) at h)
      | inl f ↦ elim (Bool-cases (target_allowed s.policy.definition target)) [
        | inr g ↦ cc (rw (e, f, g, commit_delegate) at h)
        | inl g ↦
            go (active_delegation x legacy_block c s.gate) refl (rw (e, f, g, commit_delegate) at h)
              e f g
      ]
    ]
  ]
    where
      go :
          (active : Active)
          → active_delegation x legacy_block c s.gate ≡ active
          → elim active [
            | Active.broken ↦ Committed.raises
            | Active.active id ↦ Committed.busy id
            | Active.none_active ↦ admit x legacy_block c r target once a s
          ]
            ≡ Committed.stored s'
          → a.capacity_allowed ≡ true
          → same_policy s.policy r ≡ true
          → target_allowed s.policy.definition target ≡ true
          → IsOpened c a once s s' r
      go Active.broken idle k e f g = cc
      go (Active.active id) idle k e f g = cc
      go Active.none_active idle k e f g =
          let (within, opened, unused, gains, used) = admit_inv c r target once a s s' k in
          record {
            target = target;
            has_target = has;
            idle = idle;
            capacity = e;
            in_force = f;
            in_scope = g;
            within = within;
            unused = unused;
            opened = opened;
            gains = gains;
            used = used;
          }

  pub commit_plain-gains :
      (c : Context) (r : Route) (require_idle : Bool) (s s' : Store)
      → commit_plain x legacy_block c r require_idle s ≡ Committed.stored s'
      → s' ≡ record s { routes = s.routes ++ r ∷ [] }
  unfolding commit_plain
  commit_plain-gains c r false s s' h = (insert_route_inv r s s' h).1
  commit_plain-gains c r true s s' h = go (active_delegation x legacy_block c s.gate) h
    where
      go :
          (active : Active)
          → elim active [
            | Active.broken ↦ Committed.raises
            | Active.active id ↦ Committed.busy id
            | Active.none_active ↦ insert_route r s
          ]
            ≡ Committed.stored s'
          → s' ≡ record s { routes = s.routes ++ r ∷ [] }
      go Active.broken k = cc
      go (Active.active id) k = cc
      go Active.none_active k = (insert_route_inv r s s' k).1

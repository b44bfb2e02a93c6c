-- ===== src/PolicyStore/Lineage.antt =====
-- The walk of `activationLineage` over the parents of the revisions, scripts/lib/model-policy-store.mjs.
use adaptive_model_router.Common.{
  All, Bool-cases, List, Option, Option-cases, String, [], all, arith, bool_eq, false, filter,
  includes, inl, inr, length, length-filter-le, nat_eq, none, not, refl, some, string_eq, subst,
  suc, sym, text_eq, true, zero, ℕ, ◌+◌, ◌<◌, ◌==◌, ◌∷◌, ◌≡◌, ◌≢◌, ◌≤◌, ◌⊎◌,
}
use adaptive_model_router.Policy.{Policy}
use adaptive_model_router.Policy.Compile.{compile_model_policy}
use adaptive_model_router.PolicyStore.{
  Fault, Meta, Result, Result-cases, Revision, Setting, activation_lineage, active_lineage,
  compiled, find_revision, is_lineage_of, last?, parent_of, read_revision, read_selected,
  returned-injective, walk,
}
use adaptive_model_router.PolicyStore.Change.{without_dead}
use adaptive_model_router.PolicyStore.Reading.{IsReadable, read_selected_digest}
use adaptive_model_router.Vocabulary.{
  category_eq, effort_eq, failure_eq, gate_eq, level_eq, signal_eq,
}

abbrev unvisited : List Revision → List String → ℕ
unvisited rs vs = length (filter (λ r. not (includes vs r.digest)) rs)

unvisited-le :
    (rs : List Revision) (vs : List String) (p : String) → unvisited rs (p ∷ vs) ≤ unvisited rs vs
unvisited-le [] vs p = omega arith
unvisited-le (r ∷ rs) vs p = ground (arith, unvisited-le rs vs p)

unvisited-lt :
    (rs : List Revision) (vs : List String) (p : String) {q : Revision}
    → find_revision p rs ≡ some q
    → includes vs p ≡ false
    → unvisited rs (p ∷ vs) < unvisited rs vs
unvisited-lt [] vs p found new = cc
unvisited-lt (r ∷ rs) vs p {q} found new = elim (Bool-cases (r.digest == p)) [
  | inl e ↦
      let same : r.digest ≡ p = (string_eq.equal_iff _ _).0 e in
      let seen : (p == r.digest) ≡ true = (string_eq.equal_iff _ _).1 (sym same) in
      let unseen : includes vs r.digest ≡ false =
        subst (λ d. includes vs d ≡ false) (sym same) new in
      rw (seen, unseen) (omega (arith, unvisited-le rs vs p))
  | inr e ↦
      let later : find_revision p rs ≡ some q = rw e at found in
      ground (arith, unvisited-lt rs vs p later new)
]

module _ (c : Setting) where
  read_selected_fault :
      (s : Option String) (m : Meta) (x : Fault)
      → read_selected c s m ≡ Result.thrown x
      → x ≢ Fault.out_of_fuel
  unfolding read_selected read_revision compiled compile_model_policy
  read_selected_fault s m x h e = ground arith

  parent_found :
      (d : String) (m : Meta) {parent : String}
      → parent_of c d m ≡ some parent
      → (r : Revision) × (find_revision d m.revisions ≡ some r)
  parent_found d m h = elim (Option-cases (find_revision d m.revisions)) [
    | inl e ↦ cc (rw (e, parent_of) at h)
    | inr found ↦ found
  ]

  -- Fuel for each revision not yet visited and two more, or for one step where there is no parent.
  walk_ends :
      (fuel : ℕ) (oldest : String) (newer : List String) (m : Meta)
      → (unvisited m.revisions (oldest ∷ newer) + 2 ≤ fuel)
        ⊎ ((find_revision oldest m.revisions ≡ none) × (1 ≤ fuel))
      → walk c fuel oldest newer m ≢ Result.thrown Fault.out_of_fuel
  unfolding walk
  walk_ends zero oldest newer m enough h = ground arith
  walk_ends (suc fuel) oldest newer m enough h = elim (Option-cases (parent_of c oldest m)) [
    | inl e ↦ cc (rw (e, walk) at h)
    | inr (parent, e) ↦ elim (Bool-cases (parent == "")) [
      | inl f ↦ cc (rw (e, f, walk) at h)
      | inr f ↦ elim (Bool-cases (includes (oldest ∷ newer) parent)) [
        | inl g ↦ cc (rw (e, f, g, walk) at h)
        | inr g ↦ elim (Result-cases (read_selected c (some parent) m)) [
          | inl (p, k) ↦
              walk_ends fuel parent (oldest ∷ newer) m (next parent e g)
                (rw (e, f, g, k, walk) at h)
          | inr (x, k) ↦
              let same : ◌≡◌ {A = Result (List String)} (Result.thrown x)
                  (Result.thrown Fault.out_of_fuel) =
                rw (e, f, g, k, walk) at h in
              read_selected_fault (some parent) m x k (cc)
        ]
      ]
    ]
  ]
    where
      next :
          (parent : String)
          → parent_of c oldest m ≡ some parent
          → includes (oldest ∷ newer) parent ≡ false
          → (unvisited m.revisions (parent ∷ oldest ∷ newer) + 2 ≤ fuel)
            ⊎ ((find_revision parent m.revisions ≡ none) × (1 ≤ fuel))
      next parent e g =
          let (r, found) = parent_found oldest m e in
          let left : unvisited m.revisions (oldest ∷ newer) + 2 ≤ suc fuel = elim enough [
            | inl l ↦ l
            | inr (missing, _l) ↦ cc
          ] in
          elim (Option-cases (find_revision parent m.revisions)) [
            | inl none_found ↦ inr (none_found, omega arith)
            | inr (q, parent_row) ↦
                inl (omega (arith, unvisited-lt m.revisions (oldest ∷ newer) parent parent_row g))
          ]

  unvisited-le-length : (rs : List Revision) (vs : List String) → unvisited rs vs ≤ length rs
  unvisited-le-length rs vs = length-filter-le (λ r. not (includes vs r.digest)) rs

  -- For every store and current policy the walk comes to an end: with a step for each stored revision
  -- and two more, the lineage is found or the code throws, and the steps are never used up.
  pub activation_lineage_ends :
      (current : Policy) (m : Meta)
      → activation_lineage c current m ≢ Result.thrown Fault.out_of_fuel
  unfolding activation_lineage
  activation_lineage_ends current m h = elim (Option-cases (active_lineage m)) [
    | inl e ↦
        walk_ends (length m.revisions + 2) current.digest [] m
          (inl (omega (arith, unvisited-le-length m.revisions (current.digest ∷ []))))
          (rw (e, activation_lineage) at h)
    | inr (values, e) ↦ elim (Bool-cases (is_lineage_of current.digest values)) [
      | inl f ↦ cc (rw (e, f, activation_lineage) at h)
      | inr f ↦ cc (rw (e, f, activation_lineage) at h)
    ]
  ]

  -- What the walk returns ends where it started, and all of it can be read.
  pub walk_line :
      (fuel : ℕ) (oldest : String) (newer values : List String) (m : Meta)
      → IsReadable c m oldest
      → All (IsReadable c m) newer
      → walk c fuel oldest newer m ≡ Result.returned values
      → (last? values ≡ last? (oldest ∷ newer)) × All (IsReadable c m) values
  unfolding walk
  walk_line zero oldest newer values m readable all h = cc
  walk_line (suc fuel) oldest newer values m readable all h =
      elim (Option-cases (parent_of c oldest m)) [
        | inl e ↦ found (rw (e, walk) at h)
        | inr (parent, e) ↦ elim (Bool-cases (parent == "")) [
          | inl f ↦ found (rw (e, f, walk) at h)
          | inr f ↦ elim (Bool-cases (includes (oldest ∷ newer) parent)) [
            | inl g ↦ cc (rw (e, f, g, walk) at h)
            | inr g ↦ elim (Result-cases (read_selected c (some parent) m)) [
              | inl (p, k) ↦
                  walk_line fuel parent (oldest ∷ newer) values m
                    (p, k, read_selected_digest c parent m p f k) (readable, all)
                    (rw (e, f, g, k, walk) at h)
              | inr (x, k) ↦ cc (rw (e, f, g, k, walk) at h)
            ]
          ]
        ]
      ]
    where
      found :
          Result.returned (oldest ∷ newer) ≡ Result.returned values
          → (last? values ≡ last? (oldest ∷ newer)) × All (IsReadable c m) values
      found same = rw (← returned-injective _ values same) (refl, (readable, all))

  -- The leases have no part in it.
  walk-without_dead :
      (fuel : ℕ) (oldest : String) (newer : List String) (m : Meta)
      → walk c fuel oldest newer (without_dead m) ≡ walk c fuel oldest newer m
  unfolding walk read_selected read_revision
  walk-without_dead zero oldest newer m = refl
  walk-without_dead (suc fuel) oldest newer m = elim (Option-cases (parent_of c oldest m)) [
    | inl e ↦ rw (e, walk) refl
    | inr (parent, e) ↦ elim (Bool-cases (parent == "")) [
      | inl f ↦ rw (e, f, walk) refl
      | inr f ↦ elim (Bool-cases (includes (oldest ∷ newer) parent)) [
        | inl g ↦ rw (e, f, g, walk) refl
        | inr g ↦ elim (Result-cases (read_selected c (some parent) m)) [
          | inl (p, k) ↦ rw (e, f, g, k, walk) (walk-without_dead fuel parent (oldest ∷ newer) m)
          | inr (x, k) ↦ rw (e, f, g, k, walk) refl
        ]
      ]
    ]
  ]

  pub activation_lineage-without_dead :
      (current : Policy) (m : Meta)
      → activation_lineage c current (without_dead m) ≡ activation_lineage c current m
  unfolding activation_lineage
  activation_lineage-without_dead current m = elim (Option-cases (active_lineage m)) [
    | inl e ↦
        rw (e, activation_lineage) (walk-without_dead (length m.revisions + 2) current.digest [] m)
    | inr (values, e) ↦ rw (e, activation_lineage) refl
  ]

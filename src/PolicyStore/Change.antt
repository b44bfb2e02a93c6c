-- ===== src/PolicyStore/Change.antt =====
-- The change of the policy in force: `previewModelPolicy`, `activateModelPolicy` and
-- `rollbackModelPolicy` of scripts/lib/model-policy-store.mjs.
use adaptive_model_router.Common.{
  Bool, List, String, [], bool_eq, filter, if◌then◌else◌, length, map, nat_beq, nat_eq, none, not,
  some, string_eq, text_eq, ℕ, ◌++◌, ◌+◌, ◌==◌, ◌||◌, ◌∷◌,
}
use adaptive_model_router.Policy.{AllowedModel, Definition, Policy, Target, target_allowed}
use adaptive_model_router.PolicyStore.{
  Meta, Result, Setting, activation_lineage, compiled, drop_last, is_v2, last?, read_model_policy,
  read_selected, retain_model_policy, ◌>>=◌,
}
use adaptive_model_router.Vocabulary.{
  category_eq, effort_eq, failure_eq, gate_eq, level_eq, signal_eq,
}

pub data Activation : Type 0 where
  conflict : String → Activation
  busy : ℕ → Activation
  no_previous : Activation
  unchanged : String → Activation
  activated : String → String → Activation

pub record Preview : Type 0 where
  pub current_digest : String
  pub candidate_digest : String
  pub added : List Target
  pub removed : List Target
  pub active_delegations : ℕ
  pub can_activate : Bool

abbrev targets_of_entry : AllowedModel → List Target
targets_of_entry entry = map (λ e. record { model = entry.model; effort = e }) entry.efforts

abbrev pub flat_map {ℓ κ} : {A : Type ℓ} {B : Type κ} → (A → List B) → List A → List B
flat_map f [] = []
flat_map f (x ∷ xs) = f x ++ flat_map f xs

-- The targets that the first definition allows and the second does not.
unfoldable pub gained : Definition → Definition → List Target
gained after before =
    flat_map (λ entry. filter (λ t. not (target_allowed before t)) (targets_of_entry entry))
      after.allowed_models

abbrev pub alive : Meta → ℕ
alive m = length (filter (λ l. not l.dead) m.leases)

abbrev pub without_dead : Meta → Meta
without_dead m = record m { leases = filter (λ l. not l.dead) m.leases }

module _ (c : Setting) where
  unfoldable pub preview_model_policy : Definition → ℕ → Meta → Result Preview
  preview_model_policy definition blocking m = do
    proposed ← compiled c definition
    current ← read_model_policy c m
    let pending = blocking + alive m
    Result.returned (record {
      current_digest = current.digest;
      candidate_digest = proposed.digest;
      added = gained proposed.definition current.definition;
      removed = gained current.definition proposed.definition;
      active_delegations = pending;
      can_activate = nat_beq pending 0;
    })

  -- The two writes of an activation or of a rollback, under the keys of one version.
  abbrev pub point : Bool → String → List String → Meta → Meta
  point v2 digest values m =
      if v2
      then record m { active_v2 = some digest; lineage_v2 = some values }
      else record m { active = some digest; lineage = some values }

  unfoldable pub activate_on : Policy → Policy → Meta → Result (Meta × Activation)
  activate_on current policy m = do
    values ← activation_lineage c current m
    m1 ← retain_model_policy c current none m
    m2 ← retain_model_policy c policy (some current.digest) m1
    let v2 = nat_beq policy.definition.schema_version 2 || is_v2 m2
    Result.returned (
      point v2 policy.digest (values ++ policy.digest ∷ []) m2,
      Activation.activated policy.digest current.digest,
    )

  unfoldable pub activate_model_policy : Definition → String → ℕ → Meta → Result (Meta × Activation)
  activate_model_policy definition expected blocking m = do
    policy ← compiled c definition
    current ← read_model_policy c m
    if not (current.digest == expected)
        then Result.returned (m, Activation.conflict current.digest)
        else (do
          preview ← preview_model_policy definition blocking m
          if not preview.can_activate
              then Result.returned (m, Activation.busy preview.active_delegations)
              else if current.digest == policy.digest
              then Result.returned (without_dead m, Activation.unchanged policy.digest)
              else activate_on current policy (without_dead m))

  unfoldable pub rollback_to : Policy → List String → String → ℕ → Meta → Result (Meta × Activation)
  rollback_to current values parent blocking m = do
    target ← read_selected c (some parent) m
    preview ← preview_model_policy target.definition blocking m
    if not preview.can_activate
        then Result.returned (m, Activation.busy preview.active_delegations)
        else Result.returned (
          point (is_v2 m) parent (drop_last values) (without_dead m),
          Activation.activated parent current.digest,
        )

  unfoldable pub rollback_from : Policy → List String → ℕ → Meta → Result (Meta × Activation)
  unfolding rollback_to
  rollback_from current values blocking m = elim (last? (drop_last values)) [
    | none ↦ Result.returned (m, Activation.no_previous)
    | some parent ↦
        if parent == ""
        then Result.returned (m, Activation.no_previous)
        else rollback_to current values parent blocking m
  ]

  unfoldable pub rollback_model_policy : String → ℕ → Meta → Result (Meta × Activation)
  unfolding rollback_from
  rollback_model_policy expected blocking m = do
    current ← read_model_policy c m
    if not (current.digest == expected)
        then Result.returned (m, Activation.conflict current.digest)
        else (do values ← activation_lineage c current m; rollback_from current values blocking m)

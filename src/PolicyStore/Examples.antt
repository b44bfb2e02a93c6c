-- ===== src/PolicyStore/Examples.antt =====
-- The shipped policies activated and rolled back, and the theorems at them.
use adaptive_model_router.Common.{
  List, String, [], bool_eq, if-all, if◌then◌else◌, nat_eq, none, refl, some, string_eq, text_eq,
  true, ◌++◌, ◌==◌, ◌∷◌, ◌≡◌, ◌≢◌,
}
use adaptive_model_router.Policy.{
  Definition, Policy, compare_operands, level_for_target, minimum_effort_for_level, target_allowed,
}
use adaptive_model_router.Policy.Compile.{
  check_binding, check_conditions, check_models, check_pair, check_pairs, check_version,
  compile_model_policy, fits_schema,
}
use adaptive_model_router.Policy.Shipped.{any_slug, economy, quality}
use adaptive_model_router.PolicyStore.{
  Fault, Meta, Result, Revision, Setting, activation_lineage, active_pointer, compiled, drop_last,
  is_digest, read_model_policy, read_revision, read_selected, retain_model_policy,
}
use adaptive_model_router.PolicyStore.Change.{
  Activation, activate_model_policy, activate_on, gained, preview_model_policy, rollback_from,
  rollback_model_policy, rollback_to,
}
use adaptive_model_router.PolicyStore.History.{activate_pushes, rollback-activate, rollback_pops}
use adaptive_model_router.PolicyStore.Lineage.{activation_lineage_ends}
use adaptive_model_router.PolicyStore.Reach.{
  Reaches, Reaches-IsStored, Reaches_reads, Step, empty_meta,
}
use adaptive_model_router.PolicyStore.Stack.{Shows}
use adaptive_model_router.PolicyStore.Stored.{IsPlausible, IsStored}
use adaptive_model_router.Vocabulary.{
  category_eq, effort_eq, failure_eq, gate_eq, level_eq, signal_eq,
}

abbrev digest_a : String
digest_a = "aaaaaaaaaaaaaaaaaaaaaaaaaaaaaaaaaaaaaaaaaaaaaaaaaaaaaaaaaaaaaaaa"

abbrev digest_b : String
digest_b = "bbbbbbbbbbbbbbbbbbbbbbbbbbbbbbbbbbbbbbbbbbbbbbbbbbbbbbbbbbbbbbbb"

abbrev two_digests : Definition → String
two_digests d = if d.schema_version == 2 then digest_a else digest_b

abbrev shipped : Setting
shipped = record {
  is_exact = any_slug;
  digest_of = two_digests;
  canonical = λ d. d.id;
  default_policy = record { definition = quality; digest = digest_b };
}

hex_a : is_digest digest_a ≡ true
unfolding is_digest
hex_a = refl

hex_b : is_digest digest_b ≡ true
unfolding is_digest
hex_b = refl

two_digests-hex : (d : Definition) → is_digest (two_digests d) ≡ true
two_digests-hex d =
    if-all (λ x. is_digest x ≡ true) (d.schema_version == 2) digest_a digest_b (λ _. hex_a)
      (λ _. hex_b)

default_compiles : compiled shipped quality ≡ Result.returned shipped.default_policy
unfolding compiled compile_model_policy fits_schema check_models check_version check_pairs
    check_pair check_binding check_conditions target_allowed compare_operands level_for_target
    minimum_effort_for_level
default_compiles = refl

abbrev shipped-IsPlausible : IsPlausible shipped
shipped-IsPlausible = record { hex = two_digests-hex; default_compiles = default_compiles }

abbrev economy_row : Revision
economy_row = record { digest = digest_a; definition = economy; parent_digest = some digest_b }

abbrev quality_row : Revision
quality_row = record { digest = digest_b; definition = quality; parent_digest = none }

abbrev economical : Meta
economical = record empty_meta {
  active_v2 = some digest_a;
  revisions = quality_row ∷ economy_row ∷ [];
  lineage_v2 = some (digest_b ∷ digest_a ∷ []);
}

activates :
    activate_model_policy shipped economy digest_b 0 empty_meta
    ≡ Result.returned (economical, Activation.activated digest_a digest_b)
unfolding activate_model_policy activate_on preview_model_policy activation_lineage
    retain_model_policy read_model_policy read_selected compiled compile_model_policy fits_schema
    check_models check_version check_pairs check_pair check_binding check_conditions target_allowed
    compare_operands level_for_target minimum_effort_for_level gained is_digest
activates = refl

-- Another caller's digest is refused.
conflicts :
    activate_model_policy shipped economy digest_a 0 empty_meta
    ≡ Result.returned (empty_meta, Activation.conflict digest_b)
unfolding activate_model_policy read_model_policy read_selected compiled compile_model_policy
    fits_schema check_models check_version check_pairs check_pair check_binding check_conditions
    target_allowed compare_operands level_for_target minimum_effort_for_level
conflicts = refl

rolls_back :
    rollback_model_policy shipped digest_a 0 economical
    ≡ Result.returned (
      record economical { active_v2 = some digest_b; lineage_v2 = some (digest_b ∷ []) },
      Activation.activated digest_b digest_a,
    )
unfolding rollback_model_policy rollback_from rollback_to preview_model_policy activation_lineage
    read_model_policy read_selected read_revision compiled compile_model_policy fits_schema
    check_models check_version check_pairs check_pair check_binding check_conditions target_allowed
    compare_operands level_for_target minimum_effort_for_level gained is_digest
rolls_back = refl

empty-IsStored_here : IsStored shipped empty_meta
empty-IsStored_here = Reaches-IsStored shipped shipped-IsPlausible Reaches.start

economical_reached : Reaches shipped economical
economical_reached = Reaches.next Reaches.start (Step.activate economy digest_b 0 activates)

activate_pushes_example :
    (values : List String) × ((s : Shows shipped empty_meta values) × (s.current.digest ≡ digest_b))
    × ((s : Shows shipped economical (values ++ digest_a ∷ [])) × (s.current.digest ≡ digest_a))
    × IsStored shipped economical
activate_pushes_example =
    activate_pushes shipped shipped-IsPlausible economy digest_b 0 empty_meta economical digest_a
      digest_b empty-IsStored_here activates

rollback_pops_example :
    (values : List String) × ((s : Shows shipped economical values) × (s.current.digest ≡ digest_a))
    × ((s : Shows shipped
          (record economical { active_v2 = some digest_b; lineage_v2 = some (digest_b ∷ []) })
          (drop_last values))
        × (s.current.digest ≡ digest_b))
    × IsStored shipped
        (record economical { active_v2 = some digest_b; lineage_v2 = some (digest_b ∷ []) })
rollback_pops_example =
    rollback_pops shipped shipped-IsPlausible digest_a 0 economical
      (record economical { active_v2 = some digest_b; lineage_v2 = some (digest_b ∷ []) }) digest_b
      digest_a (Reaches-IsStored shipped shipped-IsPlausible economical_reached) rolls_back

rollback-activate_example :
    (values : List String) × (k : Meta) × ((s : Shows shipped empty_meta values) × (s.current.digest
        ≡ digest_b))
    × (rollback_model_policy shipped digest_a 0 economical
        ≡ Result.returned (k, Activation.activated digest_b digest_a))
    × ((s : Shows shipped k values) × (s.current.digest ≡ digest_b))
rollback-activate_example =
    rollback-activate shipped shipped-IsPlausible economy digest_b 0 empty_meta economical digest_a
      digest_b empty-IsStored_here activates

Reaches_reads_example :
    (p : Policy) × (read_model_policy shipped economical ≡ Result.returned p)
    × (compiled shipped p.definition ≡ Result.returned p)
    × ((d : String) → active_pointer economical ≡ some d → p.digest ≡ d)
Reaches_reads_example = Reaches_reads shipped shipped-IsPlausible economical_reached

activation_lineage_ends_example :
    activation_lineage shipped shipped.default_policy economical ≢ Result.thrown Fault.out_of_fuel
activation_lineage_ends_example = activation_lineage_ends shipped shipped.default_policy economical

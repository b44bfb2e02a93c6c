-- ===== src/Task.antt =====
-- The data of one task: the evidence that a caller gives (EVIDENCE_SCHEMA of scripts/lib/contracts.mjs)
-- and what `scoreTask` of scripts/lib/scorer.mjs returns of it.
-- A boolean of the evidence is kept as "is exactly true", which is all that the code asks of it, but
-- for `workProduct` and `hostCanDelegate`, where an absent value differs from false. An absent
-- `batchSize` is 0: the code compares it with 1 only.
use adaptive_model_router.Common.{Bool, Option, false, none, not, some, ℕ}
use adaptive_model_router.Vocabulary.{Category, FailureType}

pub record Evidence : Type 0 where
  pub work_product : Option Bool
  pub exact_output_check : Bool
  pub requirements_settled : Bool
  pub strong_verification : Bool
  pub high_risk : Bool
  pub high_failure_cost : Bool
  pub irreversible : Bool
  pub public_contract : Bool
  pub architecture_tradeoff : Bool
  pub parallel_write_risk : Bool
  pub security_sensitive : Bool
  pub migration : Bool
  pub cross_cutting : Bool
  pub mechanical : Bool
  pub ambiguous : Bool
  pub grill_with_docs : Bool
  pub plan_mode : Bool
  pub exploration : Bool
  pub review : Bool
  pub batch_size : ℕ
  pub host_can_delegate : Option Bool
  pub verification_failed : Bool
  pub failure_type : Option FailureType

-- `evidence.workProduct === true`, `=== false`.
abbrev pub is_true : Option Bool → Bool
is_true none = false
is_true (some b) = b

abbrev pub is_false : Option Bool → Bool
is_false none = false
is_false (some b) = not b

-- `signals` of `scoreTask`.
pub record Signals : Type 0 where
  pub ambiguity : Bool
  pub grill_with_docs : Bool
  pub plan_mode : Bool
  pub risk : Bool
  pub high_failure_cost : Bool
  pub irreversible : Bool
  pub security : Bool
  pub migration : Bool
  pub public_contract : Bool
  pub architecture_tradeoff : Bool
  pub cross_cutting : Bool
  pub mechanical : Bool
  pub clear : Bool
  pub verification : Bool
  pub exploration : Bool
  pub review : Bool
  pub implementation : Bool
  pub documentation : Bool

pub record Scored : Type 0 where
  pub score : ℕ
  pub base_score : ℕ
  pub borderline : Bool
  pub substantive : Bool
  pub category : Category
  pub signals : Signals
  pub hard_signal_count : ℕ

-- An evidence object with no field, to be updated in tests.
abbrev pub no_evidence : Evidence
no_evidence = record {
  work_product = none;
  exact_output_check = false;
  requirements_settled = false;
  strong_verification = false;
  high_risk = false;
  high_failure_cost = false;
  irreversible = false;
  public_contract = false;
  architecture_tradeoff = false;
  parallel_write_risk = false;
  security_sensitive = false;
  migration = false;
  cross_cutting = false;
  mechanical = false;
  ambiguous = false;
  grill_with_docs = false;
  plan_mode = false;
  exploration = false;
  review = false;
  batch_size = 0;
  host_can_delegate = none;
  verification_failed = false;
  failure_type = none;
}

abbrev pub no_signals : Signals
no_signals = record {
  ambiguity = false;
  grill_with_docs = false;
  plan_mode = false;
  risk = false;
  high_failure_cost = false;
  irreversible = false;
  security = false;
  migration = false;
  public_contract = false;
  architecture_tradeoff = false;
  cross_cutting = false;
  mechanical = false;
  clear = false;
  verification = false;
  exploration = false;
  review = false;
  implementation = false;
  documentation = false;
}

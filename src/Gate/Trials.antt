-- ===== src/Gate/Trials.antt =====
-- Admission on a concrete store, and the theorems at it.
use adaptive_model_router.Common.{Option, [], false, none, refl, some, true, ◌∷◌, ◌≡◌}
use adaptive_model_router.Gate.{Context, Db}
use adaptive_model_router.Gate.Admission.{
  Budget, BudgetOptions, BudgetReason, inspect_router_child_budget,
}

abbrev project_task : Context
project_task = record { project_id = "project"; context_key = "task" }

abbrev vacant : Db
vacant = record {
  attempts = [];
  children = [];
  stops = [];
  usage =
      record {
        project_id = "project";
        context_key = "task";
        total_transcript_bytes = 900;
        untrusted = false;
      }
      ∷ [];
  coverage = [];
  snapshots = [];
}

abbrev options : BudgetOptions
options = record { maximum_bytes = some 10000; reservation_bytes = 1000; maximum_pending = 10 }

abbrev no_reason : Option BudgetReason
no_reason = none

grants : inspect_router_child_budget options 2 vacant ≡ Budget.inspected true no_reason 3000
unfolding inspect_router_child_budget
grants = refl

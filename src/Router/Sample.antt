-- ===== src/Router/Sample.antt =====
-- A stage whose delegation failed by reasoning, and the request for the next one.
use adaptive_model_router.Overrides
use adaptive_model_router.Host
use adaptive_model_router.Common.{List, String, [], false, none, some, true, ◌∷◌}
use adaptive_model_router.Gate.{Context, Db}
use adaptive_model_router.Gate.Admission.{new_attempt}
use adaptive_model_router.Gate.Ticket.{Crypto}
use adaptive_model_router.Policy.{Target}
use adaptive_model_router.Policy.Resolve.{CatalogEntry}
use adaptive_model_router.Policy.Shipped.{astra, economy_policy}
use adaptive_model_router.Router.{Action, Outcome, Route, Status}
use adaptive_model_router.Router.Commit.{Admission, Store}
use adaptive_model_router.Router.Request.{Facts, Others}
use adaptive_model_router.Task.{Evidence, Scored, no_evidence, no_signals}
use adaptive_model_router.Vocabulary.{Category, Effort, FailureType, WorkLevel}

abbrev pub no_crypto : Crypto
no_crypto = record { ticket_digest = λ t. "hash"; agent_key = λ a. a; open_state = λ s. some s }

abbrev pub entry : String → List Effort → CatalogEntry
entry model efforts = record {
  model = model;
  id = model;
  is_listed = true;
  priority = 1;
  default_effort = Effort.high;
  supported = efforts;
}

abbrev pub three_models : List CatalogEntry
three_models =
    entry "gpt-6-luna" (Effort.low ∷ Effort.medium ∷ [])
    ∷ entry "gpt-6-sol" (Effort.high ∷ Effort.xhigh ∷ [])
    ∷ entry astra (Effort.high ∷ Effort.max ∷ [])
    ∷ []

abbrev pub this_task : Context
this_task = record { project_id = "project"; context_key = "task" }

abbrev pub sol_high : Target
sol_high = record { model = "gpt-6-sol"; effort = Effort.high }

abbrev pub astra_high : Target
astra_high = record { model = astra; effort = Effort.high }

abbrev pub first_route : Route
first_route = record {
  route_id = "first";
  project_id = "project";
  context_key = "task";
  action = Action.delegate;
  target = some sol_high;
  stage_key = some "stage";
  escalation_count = 0;
  previous_route_id = none;
  decision = some (record { policy_digest = "gpt6-economy-v1"; work_level = some WorkLevel.high });
}

abbrev pub first_outcome : Outcome
first_outcome = record {
  route_id = "first";
  status = Status.failed;
  failure_type = some FailureType.reasoning;
}

abbrev pub empty_gate : Db
empty_gate = record {
  attempts = [];
  children = [];
  stops = [];
  usage = [];
  coverage = [];
  snapshots = [];
}

abbrev pub failed_once : Store
failed_once = record {
  routes = first_route ∷ [];
  outcomes = first_outcome ∷ [];
  overrides = [];
  gate = empty_gate;
  policy = economy_policy;
}

abbrev pub ample : Admission
ample = record {
  capacity_allowed = true;
  budget = record { maximum_bytes = none; reservation_bytes = 1000; maximum_pending = 10 };
  pending = 0;
  pending_reclaimed = 0;
  free_bytes = some 100000;
  minimum_bytes = some 2000;
  ticket_hash = "hash";
  sealed = "sealed";
  sealed_bytes = 6;
  now = 1;
}

abbrev pub is_reasoned : Evidence
is_reasoned = record no_evidence {
  verification_failed = true;
  failure_type = some FailureType.reasoning;
}

abbrev pub scored_high : Scored
scored_high = record {
  score = 50;
  base_score = 50;
  borderline = false;
  substantive = true;
  category = Category.general;
  signals = no_signals;
  hard_signal_count = 0;
}

abbrev pub again : Facts
again = record {
  context = this_task;
  route_id = "second";
  previous_route_id = some "first";
  wish = none;
  evidence = is_reasoned;
  enabled = true;
  allow_global = true;
  task_mode = Host.ShownMode.automatic;
  delegation_direct = true;
  proven_direct = true;
  tooling_rejected = false;
  names_stage = true;
  stage_key = "stage";
  is_trivial = λ e. false;
  scored = λ e. scored_high;
  catalog = three_models;
  package_accepted = true;
  hooks_ready = true;
  admission = ample;
}

abbrev pub alone : Others
alone = record { planning = λ s. s; first = λ s. s; second = λ s. s }

abbrev pub no_keys : Overrides.GlobalKeys
no_keys = record { project_id = "global"; context_key = "global" }

abbrev pub second_route : Route
second_route = record {
  route_id = "second";
  project_id = "project";
  context_key = "task";
  action = Action.delegate;
  target = some astra_high;
  stage_key = some "stage";
  escalation_count = 1;
  previous_route_id = some "first";
  decision = some (record { policy_digest = "gpt6-economy-v1"; work_level = some WorkLevel.max });
}

abbrev pub escalated : Store
escalated = record failed_once {
  routes = first_route ∷ second_route ∷ [];
  gate = record empty_gate {
    attempts = new_attempt this_task "second" "hash" astra "high" "sealed" 6 1 ∷ [];
  };
}

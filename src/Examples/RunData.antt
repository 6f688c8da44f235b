-- ===== src/Examples/RunData.antt =====
-- A run of two tasks: "collect" is queued, and "report" waits for it.
use reviewlens_ai.Prelude.{ℕ, ◌*◌, String, false, none, some, [], ◌∷◌}
use reviewlens_ai.Contracts.Status.{RunStatus, TaskStatus}
use reviewlens_ai.Contracts.RetryPolicy.{default_policy}
use reviewlens_ai.Contracts.Dag.{deterministic, DependencyMode}
use reviewlens_ai.Runtime.State.{AnalysisRun, TaskRun, RunBudgetState, active, RunDb, second}
use reviewlens_ai.Runtime.Progress.{dispatch_item}
use reviewlens_ai.Runtime.Claim.{Delivery}

abbrev pub a_run : RunStatus → AnalysisRun
a_run status = record {
  id = 1;
  status = status;
  initiator_type = "public";
  progress_sequence = 0;
  comment_analysis_unavailable = false;
  error_code = none;
  report_id = none;
  resolved_product_name = none;
  deadline_at = 900 * second;
  started_at = none;
  completed_at = none;
  cancellation_requested_at = none;
  cancelled_at = none;
}

abbrev pub a_task : ℕ → String → TaskStatus → TaskRun
a_task id key status = record {
  id = id;
  workflow_task_key = key;
  source_key = none;
  executor_kind = deterministic;
  handler = "analysis.step";
  agent_version_id = none;
  tool_version_id = none;
  status = status;
  weight = 1;
  timeout_seconds = 60;
  max_attempts = 2;
  dependency_mode = DependencyMode.all_succeeded;
  minimum_successes = 0;
  optional = false;
  retry_policy = default_policy;
  input_payload = "{}";
  current_attempt = 0;
  deadline_at = 600 * second;
  started_at = none;
  completed_at = none;
}

abbrev pub a_budget : RunBudgetState
a_budget = record {
  max_tokens = some 1000;
  max_cost_microusd = some 5000;
  reserved_tokens = 0;
  consumed_tokens = 0;
  reserved_cost_microusd = 0;
  consumed_cost_microusd = 0;
  status = active;
}

abbrev pub rows_of : RunStatus → TaskStatus → TaskStatus → RunDb
rows_of status collect report = record {
  run = a_run status;
  tasks = a_task 1 "collect" collect ∷ a_task 2 "report" report ∷ [];
  dependencies = record { upstream_task_id = 1; downstream_task_id = 2 } ∷ [];
  attempts = [];
  outbox = dispatch_item (a_task 1 "collect" collect) 0 ∷ [];
  events = [];
  budget = some a_budget;
  clarification = none;
  report = none;
}

abbrev pub new_run : RunDb
new_run = rows_of RunStatus.queued TaskStatus.queued TaskStatus.blocked

abbrev pub first_delivery : Delivery
first_delivery = record {
  expected_attempt_number = some 1;
  celery_task_id = some "worker-1";
  now = 10 * second;
  attempt_id = 7;
  lease_seconds = 30;
}

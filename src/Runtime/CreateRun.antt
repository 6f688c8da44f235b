-- ===== src/Runtime/CreateRun.antt =====
-- backend/app/runtime/service.py: `create_run`, for a workflow that `build_configuration_snapshot` made
-- and a product name that is normalized. The rows of TaskRunTool, which no modelled code reads, are
-- left out.
pub mod Queued
pub mod Starts
pub mod Templates
use reviewlens_ai.Prelude.{
  ℕ, suc, ◌+◌, ◌*◌, String, Bool, true, false, Option, none, some, List, [], ◌∷◌, ◌++◌, ◌==◌,
  string_eq, if◌then◌else◌,
}
use reviewlens_ai.Contracts.Status.{RunStatus, TaskStatus, task_status_eq}
use reviewlens_ai.Contracts.Dag.{WorkflowTaskSpec, topological_order}
use reviewlens_ai.Contracts.Dag.Order.{Sorted, sorted, cycle, out_of_fuel}
use reviewlens_ai.Runtime.Result.{
  Result, ok, raise, ◌>>=◌, value_error, lookup_error, recursion_error,
}
use reviewlens_ai.Runtime.State.{
  AnalysisRun, TaskRun, TaskDependency, RunBudgetState, active, EventType, RunDb, second,
}
use reviewlens_ai.Runtime.Progress.{append_progress, queue_task_dispatch}

-- The arguments of `create_run`, the materialized workflow and its budget limits. The new ids are
-- `first_id` and the numbers after it; `input_of` are the inputs of the specs, by key.
pub record NewRun : Type 0 where
  pub now : ℕ
  pub run_id : ℕ
  pub first_id : ℕ
  pub initiator_type : String
  pub run_timeout_seconds : ℕ
  pub workflow : List WorkflowTaskSpec
  pub input_of : String → String
  pub max_tokens : Option ℕ
  pub max_cost_microusd : Option ℕ

abbrev deadline : NewRun → ℕ
deadline a = a.now + a.run_timeout_seconds * second

abbrev first_status : List String → TaskStatus
first_status [] = TaskStatus.queued
first_status (d ∷ ds) = TaskStatus.blocked

abbrev task_of : NewRun → ℕ → WorkflowTaskSpec → TaskRun
task_of a i spec = record {
  id = i;
  workflow_task_key = spec.task_key;
  source_key = spec.source_key;
  executor_kind = spec.executor_kind;
  handler = spec.handler;
  agent_version_id = spec.agent_version_id;
  tool_version_id = spec.tool_version_id;
  status = first_status spec.dependencies;
  weight = spec.weight;
  timeout_seconds = spec.timeout_seconds;
  max_attempts = spec.retry.max_attempts;
  dependency_mode = spec.dependency_mode;
  minimum_successes = spec.minimum_successes;
  optional = spec.optional;
  retry_policy = spec.retry;
  input_payload = a.input_of spec.task_key;
  current_attempt = 0;
  deadline_at = deadline a;
  started_at = none;
  completed_at = none;
}

unfoldable pub tasks_of : NewRun → ℕ → List WorkflowTaskSpec → List TaskRun
tasks_of a i [] = []
tasks_of a i (spec ∷ specs) = task_of a i spec ∷ tasks_of a (suc i) specs

-- `tasks_by_key[key]`, which raises KeyError on a missing key.
unfoldable pub task_by_key : String → List TaskRun → Result TaskRun
task_by_key k [] = raise lookup_error
task_by_key k (t ∷ ts) =
    let rest = task_by_key k ts in if t.workflow_task_key == k then ok t else rest

unfoldable pub edges_of : List TaskRun → TaskRun → List String → Result (List TaskDependency)
unfolding task_by_key
edges_of ts t [] = ok []
edges_of ts t (k ∷ ks) = do
  upstream ← task_by_key k ts
  rest ← edges_of ts t ks
  ok (record { upstream_task_id = upstream.id; downstream_task_id = t.id } ∷ rest)

unfoldable pub all_edges : List TaskRun → List WorkflowTaskSpec → Result (List TaskDependency)
unfolding edges_of
all_edges ts [] = ok []
all_edges ts (spec ∷ specs) = do
  t ← task_by_key spec.task_key ts
  edges ← edges_of ts t spec.dependencies
  rest ← all_edges ts specs
  ok (edges ++ rest)

unfoldable pub queue_first : ℕ → TaskRun → RunDb → RunDb
unfolding queue_task_dispatch
queue_first now t s = if t.status == TaskStatus.queued then queue_task_dispatch now t s else s

unfoldable pub queue_all : ℕ → List TaskRun → RunDb → RunDb
unfolding queue_first
queue_all now [] s = s
queue_all now (t ∷ ts) s = queue_all now ts (queue_first now t s)

abbrev run_of : NewRun → AnalysisRun
run_of a = record {
  id = a.run_id;
  status = RunStatus.queued;
  initiator_type = a.initiator_type;
  progress_sequence = 0;
  comment_analysis_unavailable = false;
  error_code = none;
  report_id = none;
  resolved_product_name = none;
  deadline_at = deadline a;
  started_at = none;
  completed_at = none;
  cancellation_requested_at = none;
  cancelled_at = none;
}

abbrev pub first_rows : NewRun → List TaskRun → List TaskDependency → RunDb
first_rows a ts edges = record {
  run = run_of a;
  tasks = ts;
  dependencies = edges;
  attempts = [];
  outbox = [];
  events = [];
  budget = some (record {
    max_tokens = a.max_tokens;
    max_cost_microusd = a.max_cost_microusd;
    reserved_tokens = 0;
    consumed_tokens = 0;
    reserved_cost_microusd = 0;
    consumed_cost_microusd = 0;
    status = active;
  });
  clarification = none;
  report = none;
}

unfoldable pub ordered : NewRun → Result (List WorkflowTaskSpec)
unfolding topological_order
ordered a = elim (topological_order a.workflow) [
  | sorted specs ↦ ok specs
  | cycle ↦ raise value_error
  | out_of_fuel ↦ raise recursion_error
]

unfoldable pub create_run : NewRun → Result RunDb
unfolding ordered tasks_of all_edges queue_all append_progress
create_run a = do
  specs ← ordered a
  let ts = tasks_of a a.first_id specs
  edges ← all_edges ts a.workflow
  ok (append_progress a.now EventType.run_queued none (queue_all a.now ts (first_rows a ts edges)))

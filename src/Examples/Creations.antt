-- ===== src/Examples/Creations.antt =====
-- A run that is created for the workflow of Graphs.antt.
use reviewlens_ai.Prelude.{
  ◌∷◌, true, false, none, String, List, [], ◌≡◌, refl, some, string_eq, contains, arith,
}
use reviewlens_ai.Contracts.RetryPolicy.{default_policy}
use reviewlens_ai.Contracts.Template.{
  WorkflowTaskTemplate, WorkflowDag, materialize, expand, spec_at, replace_index,
}
use reviewlens_ai.Contracts.Template.Closed.{expand-known_dependencies}
use reviewlens_ai.Runtime.CreateRun.Templates.{create_run-materialize}
use reviewlens_ai.Contracts.Dag.{
  known_dependencies, deterministic, DependencyMode, Fanout, single, source_slots, always, task_key,
  dependencies,
}
use reviewlens_ai.Contracts.Dag.Order.{keys}
use reviewlens_ai.Contracts.Dag.Order.Progress.{Known}
use reviewlens_ai.Runtime.Result.{Result, ok, raise, Returns}
use reviewlens_ai.Runtime.Consistent.{IsConsistent}
use reviewlens_ai.Runtime.CreateRun.{NewRun, create_run}
use reviewlens_ai.Runtime.CreateRun.Starts.{create_run-Returns}
use reviewlens_ai.Examples.Graphs.{workflow, in_order, workflow-sorted}

abbrev a_new : NewRun
a_new = record {
  now = 1000;
  run_id = 1;
  first_id = 10;
  initiator_type = "public";
  run_timeout_seconds = 1800;
  workflow = workflow;
  input_of = λ k. "{}";
  max_tokens = some 1000;
  max_cost_microusd = some 5000;
}

workflow-Known : Known task_key dependencies (λ k. contains (keys task_key workflow) k) workflow
workflow-Known =
    (λ d h. ground (arith, h), (λ d h. ground (arith, h), (λ d h. ground (arith, h), tt)))

create_run-Returns_example : Returns IsConsistent (create_run a_new)
create_run-Returns_example = create_run-Returns a_new in_order workflow-sorted workflow-Known

abbrev a_template : String → String → List String → Fanout → WorkflowTaskTemplate
a_template template_key task_key deps fanout = record {
  template_key = template_key;
  task_key = task_key;
  executor_kind = deterministic;
  handler = "analysis.step";
  dependencies = deps;
  retry = default_policy;
  timeout_seconds = 60;
  weight = 1;
  agent_version_id = none;
  tool_version_id = none;
  allowed_tool_version_ids = [];
  fanout = fanout;
  conditional = always;
  dependency_mode = DependencyMode.all_succeeded;
  minimum_successes = 0;
  optional = false;
}

-- One task for each source, and a report on them all.
abbrev templates : List WorkflowTaskTemplate
templates =
    a_template "report" "report" ("collect" ∷ []) single
    ∷ a_template "collect" "collect.{index}" [] source_slots
    ∷ []

abbrev a_dag : WorkflowDag
a_dag = record { schema_version = 2; run_timeout_seconds = 1800; tasks = []; templates = templates }

abbrev made_of : Result WorkflowDag → WorkflowDag
made_of (ok g) = g
made_of (raise e) = a_dag

abbrev made : WorkflowDag
unfolding materialize spec_at replace_index
made = made_of (materialize 3 true a_dag)

expand-known_dependencies_example : known_dependencies (expand 3 templates templates) ≡ true
expand-known_dependencies_example = expand-known_dependencies 3 templates

create_run-materialize_example :
    Returns IsConsistent (create_run (record a_new { workflow = made.tasks }))
unfolding materialize spec_at replace_index
create_run-materialize_example = create_run-materialize a_new 3 true a_dag made refl refl

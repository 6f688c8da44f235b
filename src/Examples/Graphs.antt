-- ===== src/Examples/Graphs.antt =====
-- Two workflow graphs: one with an order, one with a cycle.
use reviewlens_ai.Prelude.{
  String, true, false, ◌≡◌, refl, ◌⊎◌, none, List, [], ◌∷◌, string_eq, contains, arith,
}
use reviewlens_ai.Contracts.RetryPolicy.{default_policy, unique}
use reviewlens_ai.Contracts.Dag.{
  WorkflowTaskSpec, deterministic, DependencyMode, task_key, dependencies, topological_order,
}
use reviewlens_ai.Contracts.Dag.Order.{sorted, cycle, keys}
use reviewlens_ai.Contracts.Dag.Order.Progress.{Deadlock, Known}
use reviewlens_ai.Contracts.Dag.Topological.{
  IsOrderOf, topological_order-IsOrderOf, topological_order_ends,
}

abbrev pub a_spec : String → List String → WorkflowTaskSpec
a_spec key deps = record {
  task_key = key;
  executor_kind = deterministic;
  handler = "analysis.step";
  dependencies = deps;
  retry = default_policy;
  timeout_seconds = 60;
  weight = 1;
  agent_version_id = none;
  tool_version_id = none;
  allowed_tool_version_ids = [];
  source_key = none;
  dependency_mode = DependencyMode.all_succeeded;
  minimum_successes = 0;
  optional = false;
}

abbrev pub workflow : List WorkflowTaskSpec
workflow =
    a_spec "report" ("collect" ∷ "analyze" ∷ [])
    ∷ a_spec "analyze" ("collect" ∷ [])
    ∷ a_spec "collect" []
    ∷ []

abbrev pub in_order : List WorkflowTaskSpec
in_order =
    a_spec "collect" []
    ∷ a_spec "analyze" ("collect" ∷ [])
    ∷ a_spec "report" ("collect" ∷ "analyze" ∷ [])
    ∷ []

workflow-unique : unique (keys task_key workflow) ≡ true
unfolding unique
workflow-unique = refl

pub workflow-sorted : topological_order workflow ≡ sorted in_order
unfolding topological_order
workflow-sorted = refl

topological_order-IsOrderOf_example : IsOrderOf workflow in_order
topological_order-IsOrderOf_example =
    topological_order-IsOrderOf workflow in_order workflow-unique workflow-sorted

abbrev loop : List WorkflowTaskSpec
loop = a_spec "analyze" ("report" ∷ []) ∷ a_spec "report" ("analyze" ∷ []) ∷ []

loop-Known : Known task_key dependencies (λ k. contains (keys task_key loop) k) loop
loop-Known = (λ d h. ground (arith, h), (λ d h. ground (arith, h), tt))

loop-unique : unique (keys task_key loop) ≡ true
unfolding unique
loop-unique = refl

topological_order_ends_example :
    ((out : List WorkflowTaskSpec) × (topological_order loop ≡ sorted out) × IsOrderOf loop out)
    ⊎ (topological_order loop ≡ cycle)
      × Deadlock task_key dependencies loop
      × ((out : List WorkflowTaskSpec) → ¬ IsOrderOf loop out)
topological_order_ends_example = topological_order_ends loop loop-unique loop-Known

-- ===== src/Contracts/Dag/Topological.antt =====
-- backend/app/runtime/contracts.py: what `WorkflowDag.topological_order` returns.
use reviewlens_ai.Prelude.{true, ◌≡◌, ◌↔◌, refl, ◌⊎◌, inl, inr, List, contains, string_eq, Among}
use reviewlens_ai.Contracts.RetryPolicy.{unique}
use reviewlens_ai.Contracts.Dag.{WorkflowTaskSpec, task_key, dependencies, topological_order}
use reviewlens_ai.Contracts.Dag.Order.{Sorted, sorted, cycle, out_of_fuel, keys, order}
use reviewlens_ai.Contracts.Dag.Order.Sound.{Respects, none_yet, order-Respects}
use reviewlens_ai.Contracts.Dag.Order.Complete.{order-keys}
use reviewlens_ai.Contracts.Dag.Order.Progress.{Known, Deadlock, order_ends, order-Deadlock}
use reviewlens_ai.Contracts.Dag.Order.Members.{order-Among, Among-back, no_order}

-- The list `out` is an order of the tasks: it holds the very tasks, no key twice, and each stands behind
-- the tasks that it depends on.
pub record IsOrderOf (tasks out : List WorkflowTaskSpec) : Type 0 where
  pub same_tasks : (x : WorkflowTaskSpec) → Among x out ↔ Among x tasks
  pub keys_unique : unique (keys task_key out) ≡ true
  pub respects : Respects task_key dependencies (none_yet task_key dependencies) out

-- What `topological_order` returns for tasks with distinct keys is an order of them: the list holds
-- the given tasks and no others, each once, and every task stands behind all its dependencies.
pub topological_order-IsOrderOf :
    (tasks out : List WorkflowTaskSpec)
    → unique (keys task_key tasks) ≡ true
    → topological_order tasks ≡ sorted out
    → IsOrderOf tasks out
unfolding topological_order
topological_order-IsOrderOf tasks out u h =
    let (k, d) = order-keys task_key dependencies tasks out h in
    let within : (x : WorkflowTaskSpec) → Among x out → Among x tasks =
      λ x m. order-Among task_key dependencies x tasks out h m in
    record {
      same_tasks = λ x. (within x, Among-back task_key tasks out u within k x);
      keys_unique = d u;
      respects = order-Respects task_key dependencies tasks out h;
    }

-- For tasks with distinct keys, whose dependencies are keys of the tasks, `topological_order` ends: it
-- returns an order of the tasks, or it reports a cycle, some of the tasks wait for one another, and no
-- list is an order of the tasks.
pub topological_order_ends :
    (tasks : List WorkflowTaskSpec)
    → unique (keys task_key tasks) ≡ true
    → Known task_key dependencies (λ k. contains (keys task_key tasks) k) tasks
    → ((out : List WorkflowTaskSpec) × (topological_order tasks ≡ sorted out) × IsOrderOf tasks out)
      ⊎ (topological_order tasks ≡ cycle)
        × Deadlock task_key dependencies tasks
        × ((out : List WorkflowTaskSpec) → ¬ IsOrderOf tasks out)
unfolding topological_order
topological_order_ends tasks u known = go (order task_key dependencies tasks) refl
  where
    go :
        (r : Sorted WorkflowTaskSpec)
        → order task_key dependencies tasks ≡ r
        → ((out : List WorkflowTaskSpec) × (order task_key dependencies tasks ≡ sorted out)
            × IsOrderOf tasks out)
          ⊎ (order task_key dependencies tasks ≡ cycle)
            × Deadlock task_key dependencies tasks
            × ((out : List WorkflowTaskSpec) → ¬ IsOrderOf tasks out)
    go (sorted out) e = inl (out, e, topological_order-IsOrderOf tasks out u e)
    go cycle e =
        let d = order-Deadlock task_key dependencies tasks known e in
        inr (
          e,
          d,
          λ out o.
              no_order task_key dependencies tasks out u d (λ y. (o.same_tasks y).0)
                (λ y. (o.same_tasks y).1) o.respects,
        )
    go out_of_fuel e = absurd (order_ends task_key dependencies tasks e)

-- ===== src/Runtime/CreateRun/Starts.antt =====
-- backend/app/runtime/service.py: the rows that `create_run` writes are consistent, and it does write
-- them for every valid workflow.
use reviewlens_ai.Prelude.{
  ℕ, suc, String, Bool, true, false, ◌≡◌, refl, sym, ◌∙◌, inl, inr, none, List, [], ◌∷◌, ◌==◌,
  string_eq, nat_eq, contains, arith, Bool-cases,
}
use reviewlens_ai.Contracts.Status.{task_status_eq}
use reviewlens_ai.Contracts.Dag.{WorkflowTaskSpec, task_key, dependencies, topological_order}
use reviewlens_ai.Contracts.Dag.Order.{sorted, keys}
use reviewlens_ai.Contracts.Dag.Order.Complete.{order-keys}
use reviewlens_ai.Contracts.Dag.Order.Progress.{Known}
use reviewlens_ai.Runtime.Result.{Returns}
use reviewlens_ai.Runtime.State.{TaskRun, TaskDependency, EventType, outbox_key_eq}
use reviewlens_ai.Runtime.Progress.{append_progress}
use reviewlens_ai.Runtime.Ends.{Returns-bind}
use reviewlens_ai.Runtime.Consistent.{IsConsistent, append_progress-IsConsistent}
use reviewlens_ai.Runtime.CreateRun.{
  NewRun, tasks_of, task_by_key, edges_of, all_edges, queue_all, first_rows, ordered, create_run,
}
use reviewlens_ai.Runtime.CreateRun.Queued.{queue_all-IsConsistent}

other_key :
    (k j : String) (js : List String)
    → (j == k) ≡ false
    → contains (j ∷ js) k ≡ true
    → contains js k ≡ true
other_key k j js n h = elim (Bool-cases (k == j)) [
  | inr m ↦ ground (arith, m, h)
  | inl y ↦ absurd (
      let e : (j == k) ≡ true = (string_eq.equal_iff j k).1 (sym ((string_eq.equal_iff k j).0 y)) in
      cc)
]

-- Every row that a spec may name is there.
task_by_key-Returns :
    (a : NewRun) (i : ℕ) (k : String) (specs : List WorkflowTaskSpec)
    → contains (keys task_key specs) k ≡ true
    → Returns (λ t. Unit) (task_by_key k (tasks_of a i specs))
unfolding task_by_key tasks_of
task_by_key-Returns a i k [] h = absurd cc
task_by_key-Returns a i k (spec ∷ specs) h = elim (Bool-cases (spec.task_key == k)) [
  | inl y ↦ rw (Returns, y) tt
  | inr n ↦
      rw (Returns, n)
        (task_by_key-Returns a (suc i) k specs
          (other_key k spec.task_key (keys task_key specs) n h))
]

edges_of-Returns :
    (a : NewRun) (i : ℕ) (t : TaskRun) (specs : List WorkflowTaskSpec) (ks : List String)
    → ((k : String) → contains ks k ≡ true → contains (keys task_key specs) k ≡ true)
    → Returns (λ x. Unit) (edges_of (tasks_of a i specs) t ks)
unfolding edges_of
edges_of-Returns a i t specs [] h = tt
edges_of-Returns a i t specs (k ∷ ks) h =
    Returns-bind (λ x. Unit) (λ x. Unit) (task_by_key k (tasks_of a i specs)) _
      (task_by_key-Returns a i k specs (h k (ground (arith, (string_eq.equal_iff k k).1 refl))))
      (λ up u.
        Returns-bind (λ x. Unit) (λ x. Unit) (edges_of (tasks_of a i specs) t ks) _
          (edges_of-Returns a i t specs ks (λ j m. h j (ground (arith, m)))) (λ rest u'. tt))

all_edges-Returns :
    (a : NewRun) (i : ℕ) (specs all : List WorkflowTaskSpec)
    → ((k : String)
        → contains (keys task_key all) k ≡ true
        → contains (keys task_key specs) k ≡ true)
    → Known task_key dependencies (λ k. contains (keys task_key specs) k) all
    → Returns (λ x. Unit) (all_edges (tasks_of a i specs) all)
unfolding all_edges
all_edges-Returns a i specs [] h k = tt
all_edges-Returns a i specs (spec ∷ all) h k =
    Returns-bind (λ x. Unit) (λ x. Unit) (task_by_key spec.task_key (tasks_of a i specs)) _
      (task_by_key-Returns a i spec.task_key specs (
        h spec.task_key (ground (arith, (string_eq.equal_iff spec.task_key spec.task_key).1 refl))))
      (λ t u.
        Returns-bind (λ x. Unit) (λ x. Unit) (edges_of (tasks_of a i specs) t spec.dependencies) _
          (edges_of-Returns a i t specs spec.dependencies k.0)
          (λ edges u'.
            Returns-bind (λ x. Unit) (λ x. Unit) (all_edges (tasks_of a i specs) all) _
              (all_edges-Returns a i specs all (λ j m. h j (ground (arith, m))) k.1)
              (λ rest u''. tt)))

Known-same :
    (c d : String → Bool) (xs : List WorkflowTaskSpec)
    → ((k : String) → c k ≡ d k)
    → Known task_key dependencies c xs
    → Known task_key dependencies d xs
Known-same c d [] h k = tt
Known-same c d (x ∷ xs) h k = (λ j m. sym (h j) ∙ k.0 j m, Known-same c d xs h k.1)

first_state-IsConsistent :
    (a : NewRun) (specs : List WorkflowTaskSpec) (edges : List TaskDependency)
    → IsConsistent (
        append_progress a.now EventType.run_queued none (
          queue_all a.now
            (tasks_of a a.first_id specs)
            (first_rows a (tasks_of a a.first_id specs) edges)))
first_state-IsConsistent a specs edges =
    append_progress-IsConsistent a.now EventType.run_queued none
      (queue_all a.now (tasks_of a a.first_id specs)
        (first_rows a (tasks_of a a.first_id specs) edges))
      (queue_all-IsConsistent a (tasks_of a a.first_id specs) edges)

-- For a workflow that has a topological order and whose dependencies are keys of its tasks,
-- `create_run` returns, and the rows that it writes are consistent.
pub create_run-Returns :
    (a : NewRun) (specs : List WorkflowTaskSpec)
    → topological_order a.workflow ≡ sorted specs
    → Known task_key dependencies (λ k. contains (keys task_key a.workflow) k) a.workflow
    → Returns IsConsistent (create_run a)
unfolding create_run ordered topological_order
create_run-Returns a specs e known =
    let same = (order-keys task_key dependencies a.workflow specs e).0 in
    rw (Returns, e)
      (Returns-bind (λ x. Unit) IsConsistent (all_edges (tasks_of a a.first_id specs) a.workflow) _
        (all_edges-Returns a a.first_id specs a.workflow (λ k h. same k ∙ h)
          (Known-same _ _ a.workflow (λ k. sym (same k)) known))
        (λ edges u. first_state-IsConsistent a specs edges))

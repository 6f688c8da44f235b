-- ===== src/Runtime/CreateRun/Templates.antt =====
-- backend/app/runtime/contracts.py and service.py: `create_run` on what `materialize` makes.
use reviewlens_ai.Prelude.{
  ℕ, String, Bool, true, false, not, ◌&&◌, ◌≡◌, refl, List, [], ◌∷◌, map, ◌==◌, nat_eq, string_eq,
  contains, all, arith, Bool-cases, inl, inr,
}
use reviewlens_ai.Contracts.RetryPolicy.{unique}
use reviewlens_ai.Contracts.Dag.{
  WorkflowTaskSpec, task_key, dependencies, known_dependencies, topological_order,
}
use reviewlens_ai.Contracts.Dag.Order.{Sorted, sorted, cycle, out_of_fuel, keys}
use reviewlens_ai.Contracts.Dag.Order.Progress.{Known}
use reviewlens_ai.Contracts.Template.{
  WorkflowDag, validate_graph, materialize, as_result, is_empty, in_bounds,
}
use reviewlens_ai.Contracts.Template.Closed.{materialize-validated}
use reviewlens_ai.Runtime.Result.{ok, guard, value_error, Returns}
use reviewlens_ai.Runtime.Ends.{bind_ok, guard_ok}
use reviewlens_ai.Runtime.Consistent.{IsConsistent}
use reviewlens_ai.Runtime.CreateRun.{NewRun, create_run}
use reviewlens_ai.Runtime.CreateRun.Starts.{create_run-Returns}

keys-map : (xs : List WorkflowTaskSpec) → keys task_key xs ≡ map task_key xs
keys-map [] = refl
keys-map (x ∷ xs) = rw (keys-map xs) refl

all-contains :
    (p : String → Bool) (ks : List String) (k : String)
    → all p ks ≡ true
    → contains ks k ≡ true
    → p k ≡ true
all-contains p [] k h m = absurd cc
all-contains p (j ∷ ks) k h m = elim (Bool-cases (k == j)) [
  | inl y ↦ rw ((string_eq.equal_iff k j).0 y) (ground (arith, h))
  | inr n ↦ all-contains p ks k (ground (arith, h)) (ground (arith, n, m))
]

all-Known :
    (c : String → Bool) (xs : List WorkflowTaskSpec)
    → all (λ t. all c t.dependencies) xs ≡ true
    → Known task_key dependencies c xs
all-Known c [] h = tt
all-Known c (x ∷ xs) h = (
  λ d m. all-contains c x.dependencies d (ground (arith, h)) m,
  all-Known c xs (ground (arith, h)),
)

as_result-sorted :
    (r : Sorted WorkflowTaskSpec) (xs : List WorkflowTaskSpec) → as_result r ≡ ok xs → r ≡ sorted xs
as_result-sorted (sorted ys) xs h = cc
as_result-sorted cycle xs h = absurd cc
as_result-sorted out_of_fuel xs h = absurd cc

-- A workflow of tasks that passes `validate_graph` can be run.
validated-Returns :
    (a : NewRun) (g : WorkflowDag)
    → g.schema_version ≡ 1
    → validate_graph g ≡ ok tt
    → Returns IsConsistent (create_run (record a { workflow = g.tasks }))
unfolding validate_graph
validated-Returns a g one h =
    let first : (g.schema_version == 1) ≡ true = (nat_eq.equal_iff g.schema_version 1).1 one in
    let h0 = rw first at h in
    let (a0, (e0, r0)) = bind_ok (guard (in_bounds g) value_error) _ tt h0 in
    let (a1, (e1, r1)) =
      bind_ok (guard (not (is_empty g.tasks) && is_empty g.templates) value_error) _ tt r0 in
    let (a2, (e2, r2)) = bind_ok (guard (unique (map task_key g.tasks)) value_error) _ tt r1 in
    let (a3, (e3, r3)) = bind_ok (guard (known_dependencies g.tasks) value_error) _ tt r2 in
    let (specs, (e4, r4)) = bind_ok (as_result (topological_order g.tasks)) _ tt r3 in
    create_run-Returns (record a { workflow = g.tasks }) specs (as_result-sorted _ specs e4)
      (rw (keys-map g.tasks)
        (all-Known _ g.tasks (guard_ok (known_dependencies g.tasks) value_error a3 e3)))

-- For every workflow of templates that `materialize` accepts, with any number of slots, `create_run`
-- on the workflow that it makes returns, and the rows that it writes are consistent.
pub create_run-materialize :
    (a : NewRun) (source_count : ℕ) (comments : Bool) (g out : WorkflowDag)
    → (g.schema_version == 1) ≡ false
    → materialize source_count comments g ≡ ok out
    → Returns IsConsistent (create_run (record a { workflow = out.tasks }))
create_run-materialize a source_count comments g out two h =
    let made = materialize-validated source_count comments g out two h in
    validated-Returns a out made.1 made.0

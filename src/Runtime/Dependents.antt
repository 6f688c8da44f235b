-- ===== src/Runtime/Dependents.antt =====
-- backend/app/runtime/service.py: `_evaluate_dependents`, its alias `_unblock_dependents`, and
-- `_reset_skipped_descendants`.
use reviewlens_ai.Prelude.{
  ℕ, zero, suc, Bool, true, false, not, ◌&&◌, Option, none, some, List, [], ◌∷◌, ◌==◌, nat_eq,
  string_eq, contains, any, all, leb, length, filter, if◌then◌else◌,
}
use reviewlens_ai.Contracts.Status.{TaskStatus, task_status_eq, task_terminal_statuses}
use reviewlens_ai.Contracts.Dag.{all_succeeded, all_terminal_min_success}
use reviewlens_ai.Runtime.Result.{Result, ok, raise, recursion_error, ◌>>=◌}
use reviewlens_ai.Runtime.State.{
  TaskRun, TaskDependency, RunDb, find_task, set_task_status, save_task,
}
use reviewlens_ai.Runtime.Progress.{queue_task_dispatch}

unfoldable pub downstream_ids : ℕ → List TaskDependency → List ℕ
downstream_ids up [] = []
downstream_ids up (d ∷ ds) =
    let rest = downstream_ids up ds in
    if d.upstream_task_id == up then d.downstream_task_id ∷ rest else rest

-- The upstream rows of a task, by a join of the two tables.
unfoldable pub upstream_rows : ℕ → List TaskDependency → List TaskRun → List TaskRun
upstream_rows down ds ts =
    filter
      (λ (t : TaskRun).
        any (λ (d : TaskDependency). d.upstream_task_id == t.id && d.downstream_task_id == down) ds)
      ts

abbrev pub succeeded : TaskRun → Bool
succeeded t = t.status == TaskStatus.succeeded

abbrev pub nonempty {ℓ} : {A : Type ℓ} → List A → Bool
nonempty [] = false
nonempty (x ∷ xs) = true

-- `_publication_audit_failed`.
unfoldable pub publication_audit_failed : TaskRun → List TaskRun → Bool
publication_audit_failed t rows =
    t.handler == "analysis.publish_report"
    && any (λ (u : TaskRun). u.workflow_task_key == "reaudit_report" && not (succeeded u)) rows

pub data Verdict : Type 0 where
  release skip wait : Verdict

abbrev pub lost : List TaskStatus
lost = TaskStatus.failed ∷ TaskStatus.timed_out ∷ TaskStatus.cancelled ∷ TaskStatus.skipped ∷ []

-- What the branches decide for a blocked task from its upstream rows.
unfoldable pub verdict : TaskRun → List TaskRun → Verdict
unfolding publication_audit_failed
verdict t rows = elim t.dependency_mode [
  | all_terminal_min_success ↦
      if not (nonempty rows && all (λ (u : TaskRun). contains task_terminal_statuses u.status) rows)
      then wait
      else if leb t.minimum_successes (length (filter succeeded rows))
          && not (publication_audit_failed t rows)
      then release
      else skip
  | all_succeeded ↦
      if nonempty rows && all succeeded rows
      then release
      else if any (λ (u : TaskRun). contains lost u.status) rows
      then skip
      else wait
]

-- The body of the loop for one downstream task that is blocked; `again` is the recursive call.
unfoldable pub settle : (ℕ → RunDb → Result RunDb) → ℕ → Verdict → TaskRun → RunDb → Result RunDb
unfolding set_task_status queue_task_dispatch
settle again now release t s = do
  t' ← set_task_status t TaskStatus.queued
  ok (queue_task_dispatch now t' (save_task t' s))
settle again now skip t s = do
  t' ← set_task_status t TaskStatus.skipped
  again t.id (save_task (record t' { completed_at = some now }) s)
settle again now wait t s = ok s

-- One downstream id: a task that is missing or not blocked is passed over.
unfoldable pub visit : (ℕ → RunDb → Result RunDb) → ℕ → Option TaskRun → RunDb → Result RunDb
unfolding settle verdict upstream_rows
visit again now none s = ok s
visit again now (some t) s =
    if t.status == TaskStatus.blocked
    then settle again now (verdict t (upstream_rows t.id s.dependencies s.tasks)) t s
    else ok s

unfoldable pub visit_all : (ℕ → RunDb → Result RunDb) → ℕ → List ℕ → RunDb → Result RunDb
unfolding visit find_task
visit_all again now [] s = ok s
visit_all again now (i ∷ is) s = do
  s' ← visit again now (find_task i s.tasks) s
  visit_all again now is s'

-- The fuel bounds the depth of the recursion.
unfoldable pub evaluate_dependents : ℕ → ℕ → ℕ → RunDb → Result RunDb
unfolding visit_all downstream_ids
evaluate_dependents zero now up s = raise recursion_error
evaluate_dependents (suc fuel) now up s =
    visit_all (evaluate_dependents fuel now) now (downstream_ids up s.dependencies) s

-- Each deeper call has skipped one more task.
unfoldable pub unblock_dependents : ℕ → ℕ → RunDb → Result RunDb
unfolding evaluate_dependents
unblock_dependents now up s = evaluate_dependents (suc (length s.tasks)) now up s

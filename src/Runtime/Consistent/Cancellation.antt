-- ===== src/Runtime/Consistent/Cancellation.antt =====
-- backend/app/runtime/service.py: `request_cancellation` keeps the outbox and the events consistent.
use reviewlens_ai.Prelude.{
  ℕ, Option, none, some, List, [], ◌∷◌, contains, Bool-cases, inl, inr, ◌==◌,
}
use reviewlens_ai.Contracts.Status.{
  TaskStatus, RunStatus, task_status_eq, run_status_eq, run_terminal_statuses,
}
use reviewlens_ai.Runtime.State.{TaskRun, TaskAttempt, RunDb}
use reviewlens_ai.Runtime.Attempts.{latest_running}
use reviewlens_ai.Runtime.Cancel.{
  cancel_task, cancel_tasks, begin_cancelling, request_cancellation, not_running, revoke_latest,
  cancel_clarification,
}
use reviewlens_ai.Runtime.Ends.{Ends, Ends-bind, Ends-set_task_status, Ends-set_run_status}
use reviewlens_ai.Runtime.Consistent.{
  IsConsistent, append_progress-IsConsistent, save_task-IsConsistent, revoke-IsConsistent,
}
use reviewlens_ai.Runtime.Consistent.Operations.{finalize_run-IsConsistent}
use reviewlens_ai.Runtime.Finalize.{finalize_run}

revoke_latest-IsConsistent :
    (now : ℕ) (t : TaskRun) (o : Option TaskAttempt) (s : RunDb)
    → IsConsistent s
    → IsConsistent (revoke_latest now t o s)
revoke_latest-IsConsistent now t none s c = c
revoke_latest-IsConsistent now t (some a) s c = revoke-IsConsistent now t a s c

cancel_task-IsConsistent :
    (now : ℕ) (t : TaskRun) (s : RunDb) → IsConsistent s → Ends IsConsistent (cancel_task now t s)
unfolding cancel_task
cancel_task-IsConsistent now t s c = elim (Bool-cases (contains not_running t.status)) [
  | inl a ↦ rw a (
      Ends-set_task_status IsConsistent t TaskStatus.cancelled _
        (save_task-IsConsistent _ s (λ q. cc) c))
  | inr a ↦ rw a (elim (Bool-cases (t.status == TaskStatus.running)) [
    | inl b ↦ rw b (
        Ends-set_task_status IsConsistent t TaskStatus.cancelling _ (
          revoke_latest-IsConsistent now (record t { status = TaskStatus.cancelling })
            (latest_running t.id s) _
            (save_task-IsConsistent (record t { status = TaskStatus.cancelling }) s (λ q. cc) c)))
    | inr b ↦ rw b c
  ])
]

cancel_tasks-IsConsistent :
    (now : ℕ) (ts : List TaskRun) (s : RunDb)
    → IsConsistent s
    → Ends IsConsistent (cancel_tasks now ts s)
unfolding cancel_tasks
cancel_tasks-IsConsistent now [] s c = c
cancel_tasks-IsConsistent now (t ∷ ts) s c =
    Ends-bind IsConsistent IsConsistent (cancel_task now t s) (cancel_tasks now ts)
      (cancel_task-IsConsistent now t s c) (λ s' c'. cancel_tasks-IsConsistent now ts s' c')

begin_cancelling-IsConsistent :
    (now : ℕ) (s : RunDb) → IsConsistent s → Ends IsConsistent (begin_cancelling now s)
unfolding begin_cancelling
begin_cancelling-IsConsistent now s c = elim (Bool-cases (s.run.status == RunStatus.cancelling)) [
  | inl a ↦ rw a c
  | inr a ↦ rw a (
      Ends-set_run_status IsConsistent RunStatus.cancelling s _
        (append_progress-IsConsistent now _ none _ (record { rows = c.rows })))
]

-- A cancellation that returns leaves the outbox and the events consistent.
pub request_cancellation-IsConsistent :
    (now : ℕ) (s : RunDb) → IsConsistent s → Ends IsConsistent (request_cancellation now s)
unfolding request_cancellation
request_cancellation-IsConsistent now s c =
    elim (Bool-cases (contains run_terminal_statuses s.run.status)) [
      | inl a ↦ rw a c
      | inr a ↦ rw a (
          Ends-bind IsConsistent IsConsistent (begin_cancelling now s) _
            (begin_cancelling-IsConsistent now s c)
            (λ s1 c1.
              Ends-bind IsConsistent IsConsistent
                (cancel_tasks now s1.tasks (cancel_clarification s1)) (finalize_run now)
                (cancel_tasks-IsConsistent now s1.tasks (cancel_clarification s1)
                  (record { rows = c1.rows }))
                (λ s2 c2. finalize_run-IsConsistent now s2 c2)))
    ]

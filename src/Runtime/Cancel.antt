-- ===== src/Runtime/Cancel.antt =====
-- backend/app/runtime/service.py: `request_cancellation` and `task_is_cancelled`.
use reviewlens_ai.Prelude.{
  ℕ, Bool, false, ◌||◌, Option, none, some, List, [], ◌∷◌, ◌==◌, contains, if◌then◌else◌,
}
use reviewlens_ai.Contracts.Status.{
  RunStatus, TaskStatus, task_status_eq, run_status_eq, run_terminal_statuses,
}
use reviewlens_ai.Runtime.Result.{Result, ok, ◌>>=◌}
use reviewlens_ai.Runtime.State.{
  TaskRun, TaskAttempt, RunDb, ProductClarification, ClarificationStatus, task_progress,
  set_run_status, set_task_status, save_task,
}
use reviewlens_ai.Runtime.Progress.{append_progress, queue_task_revoke}
use reviewlens_ai.Runtime.Attempts.{latest_running}
use reviewlens_ai.Runtime.Finalize.{finalize_run}

abbrev pub not_running : List TaskStatus
not_running = TaskStatus.blocked ∷ TaskStatus.queued ∷ TaskStatus.waiting_for_input ∷ []

abbrev pub cancelled_clarification : ProductClarification → ProductClarification
cancelled_clarification c = record c {
  status = elim c.status [
    | ClarificationStatus.pending ↦ ClarificationStatus.cancelled
    | other ↦ other
  ];
}

abbrev pub cancel_clarification : RunDb → RunDb
cancel_clarification s = record s {
  clarification = elim s.clarification [ none ↦ none | some c ↦ some (cancelled_clarification c) ];
}

abbrev pub revoke_latest : ℕ → TaskRun → Option TaskAttempt → RunDb → RunDb
revoke_latest now t none s = s
revoke_latest now t (some a) s = queue_task_revoke now t a s

-- The body of the loop for one task.
unfoldable pub cancel_task : ℕ → TaskRun → RunDb → Result RunDb
unfolding set_task_status queue_task_revoke latest_running
cancel_task now t s =
    if contains not_running t.status
    then (do
      t' ← set_task_status t TaskStatus.cancelled
      ok (save_task (record t' { completed_at = some now }) s))
    else if t.status == TaskStatus.running
    then (do
      t' ← set_task_status t TaskStatus.cancelling
      ok (revoke_latest now t' (latest_running t.id s) (save_task t' s)))
    else ok s

unfoldable pub cancel_tasks : ℕ → List TaskRun → RunDb → Result RunDb
unfolding cancel_task
cancel_tasks now [] s = ok s
cancel_tasks now (t ∷ ts) s = do s' ← cancel_task now t s; cancel_tasks now ts s'

unfoldable pub begin_cancelling : ℕ → RunDb → Result RunDb
unfolding set_run_status append_progress
begin_cancelling now s = if s.run.status == RunStatus.cancelling then ok s else (do
  s1 ← set_run_status RunStatus.cancelling s
  let s2 = record s1 { run = record s1.run { cancellation_requested_at = some now } }
  ok (append_progress now task_progress none s2))

-- For a run that is there; the caller raises LookupError for one that is not.
unfoldable pub request_cancellation : ℕ → RunDb → Result RunDb
unfolding begin_cancelling cancel_tasks finalize_run
request_cancellation now s = if contains run_terminal_statuses s.run.status then ok s else (do
  s1 ← begin_cancelling now s
  s2 ← cancel_tasks now s1.tasks (cancel_clarification s1)
  finalize_run now s2)

-- What a running handler polls.
unfoldable pub task_is_cancelled : RunDb → Option TaskRun → Bool
task_is_cancelled s t =
    contains (RunStatus.cancelling ∷ RunStatus.cancelled ∷ []) s.run.status || elim t [
      | none ↦ false
      | some r ↦ contains (TaskStatus.cancelling ∷ TaskStatus.cancelled ∷ []) r.status
    ]

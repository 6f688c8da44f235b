-- ===== src/Runtime/Finalize.antt =====
-- backend/app/runtime/service.py: `_finalize_run`. `publish_report` (backend/app/public/reports.py)
-- touches no row modelled here.
use reviewlens_ai.Prelude.{
  ℕ, Bool, false, not, ◌&&◌, Option, none, some, List, [], ◌∷◌, ◌==◌, nat_eq, contains, any, all,
  if◌then◌else◌,
}
use reviewlens_ai.Contracts.Status.{RunStatus, TaskStatus, task_status_eq, run_status_eq}
use reviewlens_ai.Runtime.Result.{Result, ok, ◌>>=◌}
use reviewlens_ai.Runtime.State.{
  TaskRun, Report, RunDb, EventType, run_cancelled, run_partial, run_completed, run_failed,
  set_run_status, set_task_status, save_task,
}
use reviewlens_ai.Runtime.Progress.{append_progress, close_budget}

-- `statuses & {...}` is not empty.
unfoldable pub some_task : List TaskStatus → List TaskRun → Bool
some_task sts ts = any (λ (t : TaskRun). contains sts t.status) ts

abbrev pub in_flight : List TaskStatus
in_flight = TaskStatus.running ∷ TaskStatus.cancelling ∷ []

abbrev pub active_statuses : List TaskStatus
active_statuses =
    TaskStatus.waiting_for_input ∷ TaskStatus.blocked ∷ TaskStatus.queued ∷ TaskStatus.running
    ∷ TaskStatus.cancelling ∷ []

abbrev pub failures : List TaskStatus
failures = TaskStatus.failed ∷ TaskStatus.timed_out ∷ []

abbrev pub not_started : List TaskStatus
not_started = TaskStatus.blocked ∷ TaskStatus.queued ∷ []

-- The loop over the tasks of a cancelling run.
unfoldable pub cancel_not_started : ℕ → List TaskRun → RunDb → Result RunDb
cancel_not_started now [] s = ok s
cancel_not_started now (t ∷ ts) s =
    if contains not_started t.status
    then (do
      t' ← set_task_status t TaskStatus.cancelled
      cancel_not_started now ts (save_task (record t' { completed_at = some now }) s))
    else cancel_not_started now ts s

-- The last event of a run, and its budget closed.
unfoldable pub announce_end : ℕ → EventType → RunDb → RunDb
unfolding append_progress close_budget
announce_end now type s = close_budget (append_progress now type none s)

unfoldable pub finalize_cancelling : ℕ → RunDb → Result RunDb
unfolding cancel_not_started some_task set_run_status announce_end set_task_status
finalize_cancelling now s = if some_task in_flight s.tasks then ok s else (do
  s1 ← cancel_not_started now s.tasks s
  s2 ← set_run_status RunStatus.cancelled s1
  let s3 = record s2 { run = record s2.run { cancelled_at = some now; completed_at = some now } }
  ok (announce_end now run_cancelled s3))

abbrev pub is_published : Option Report → Bool
is_published none = false
is_published (some r) = r.published

unfoldable pub finalize_published : ℕ → Option Report → RunDb → Result RunDb
unfolding set_run_status announce_end
finalize_published now none s = ok s
finalize_published now (some r) s = do
  let target = if r.partial then RunStatus.partial else RunStatus.complete
  let type = if r.partial then run_partial else run_completed
  s1 ← set_run_status target s
  let s2 = record s1 { run = record s1.run { completed_at = some now; report_id = some r.id } }
  ok (announce_end now type s2)

unfoldable pub finalize_succeeded : ℕ → RunDb → Result RunDb
unfolding set_run_status announce_end
finalize_succeeded now s = do
  s1 ← set_run_status RunStatus.complete s
  let s2 = record s1 { run = record s1.run { completed_at = some now } }
  ok (announce_end now run_completed s2)

unfoldable pub finalize_failed : ℕ → RunDb → Result RunDb
unfolding set_run_status announce_end
finalize_failed now s = do
  s1 ←
      (if contains (RunStatus.queued ∷ RunStatus.running ∷ []) s.run.status
        then set_run_status RunStatus.failed s
        else ok s)
  let s2 = record s1 {
    run = record s1.run { error_code = some "workflow_task_failed"; completed_at = some now };
  }
  ok (announce_end now run_failed s2)

-- `tasks and all(status == SUCCEEDED for status in statuses)`.
abbrev pub all_succeeded : List TaskRun → Bool
all_succeeded [] = false
all_succeeded (t ∷ ts) = all (λ (r : TaskRun). r.status == TaskStatus.succeeded) (t ∷ ts)

unfoldable pub finalize_run : ℕ → RunDb → Result RunDb
unfolding finalize_cancelling finalize_published finalize_succeeded finalize_failed
finalize_run now s =
    if s.run.status == RunStatus.cancelling
    then finalize_cancelling now s
    else if s.run.status == RunStatus.waiting_for_input
    then ok s
    else if not (some_task active_statuses s.tasks) && is_published s.report
    then finalize_published now s.report s
    else if all_succeeded s.tasks
    then finalize_succeeded now s
    else if not (some_task active_statuses s.tasks) && some_task failures s.tasks
    then finalize_failed now s
    else ok s

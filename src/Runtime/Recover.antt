-- ===== src/Runtime/Recover.antt =====
-- backend/app/runtime/service.py: `recover_stale_attempts` and `repair_unfinished_runs`, for one run.
use reviewlens_ai.Prelude.{
  ℕ, Bool, true, false, not, ◌&&◌, Option, none, some, List, [], ◌∷◌, ◌==◌, nat_eq, contains, ltb,
  filter, if◌then◌else◌,
}
use reviewlens_ai.Contracts.Status.{
  RunStatus, TaskStatus, AttemptStatus, task_status_eq, run_status_eq, attempt_status_eq,
}
use reviewlens_ai.Runtime.Result.{Result, ok, ◌>>=◌}
use reviewlens_ai.Runtime.State.{
  TaskRun, TaskAttempt, RunDb, task_failed, find_task, put_attempt, set_task_status, save_task,
  save_attempt, outbox_key_eq,
}
use reviewlens_ai.Runtime.Progress.{append_progress, queue_task_dispatch}
use reviewlens_ai.Runtime.Attempts.{finish_attempt}
use reviewlens_ai.Runtime.Clarification.{expire_pending}
use reviewlens_ai.Runtime.Complete.{being_cancelled}
use reviewlens_ai.Runtime.Dependents.{unblock_dependents}
use reviewlens_ai.Runtime.Finalize.{finalize_run, in_flight}

abbrev pub lease_over : ℕ → Option ℕ → Bool
lease_over now none = false
lease_over now (some lease) = ltb lease now

unfoldable pub stale_attempts : ℕ → List TaskAttempt → List TaskAttempt
stale_attempts now as' =
    filter
      (λ (a : TaskAttempt). a.status == AttemptStatus.running && lease_over now a.lease_expires_at)
      as'

unfoldable pub recover_cancelled : ℕ → TaskAttempt → TaskRun → RunDb → Result RunDb
unfolding set_task_status put_attempt
recover_cancelled now a t s = do
  let a' = record a {
    status = AttemptStatus.cancelled;
    error_category = some "cancelled";
    error_code = some "worker_interrupted_during_cancellation";
  }
  t' ← set_task_status t TaskStatus.cancelled
  ok (save_task (record t' { completed_at = some now }) (save_attempt a' s))

unfoldable pub recover_interrupted : ℕ → TaskAttempt → TaskRun → RunDb → Result RunDb
unfolding set_task_status put_attempt queue_task_dispatch unblock_dependents
recover_interrupted now a t s =
    let a' = record a {
      status = AttemptStatus.failed;
      error_category = some "worker_interrupted";
      error_code = some "attempt_lease_expired";
      retryable = true;
    } in
    let s1 = save_attempt a' s in
    if ltb a.attempt_number t.max_attempts && ltb now t.deadline_at
    then (do
      t' ← set_task_status t TaskStatus.queued
      ok (queue_task_dispatch now t' (save_task t' s1)))
    else (do
      t' ← set_task_status t TaskStatus.failed
      unblock_dependents now t.id (save_task (record t' { completed_at = some now }) s1))

unfoldable pub recover_attempt : ℕ → TaskAttempt → Option TaskRun → RunDb → Result RunDb
unfolding recover_cancelled recover_interrupted append_progress finalize_run finish_attempt
recover_attempt now a none s = ok s
recover_attempt now a (some t) s =
    let a' = finish_attempt now a in
    if not (contains in_flight t.status) then ok s else (do
      s1 ←
          (if being_cancelled t s
            then recover_cancelled now a' t s
            else recover_interrupted now a' t s)
      finalize_run now (append_progress now task_failed (some t.id) s1))

unfoldable pub recover_attempts : ℕ → List TaskAttempt → RunDb → Result RunDb
unfolding recover_attempt find_task
recover_attempts now [] s = ok s
recover_attempts now (a ∷ as') s = do
  s' ← recover_attempt now a (find_task a.task_run_id s.tasks) s
  recover_attempts now as' s'

unfoldable pub recover_stale_attempts : ℕ → RunDb → Result RunDb
unfolding recover_attempts stale_attempts
recover_stale_attempts now s = recover_attempts now (stale_attempts now s.attempts) s

-- The loop over the queued tasks of a run that is queued or running: each has its delivery again.
unfoldable pub redispatch : ℕ → List TaskRun → RunDb → RunDb
unfolding queue_task_dispatch
redispatch now [] s = s
redispatch now (t ∷ ts) s =
    redispatch now ts (if t.status == TaskStatus.queued then queue_task_dispatch now t s else s)

abbrev pub kept_or : RunDb → Option RunDb → RunDb
kept_or s none = s
kept_or s (some s') = s'

-- What is done for a run by its status.
unfoldable pub repair_as : RunStatus → ℕ → RunDb → Result RunDb
unfolding expire_pending finalize_run redispatch
repair_as RunStatus.waiting_for_input now s = do s' ← expire_pending now s; ok (kept_or s s')
repair_as RunStatus.cancelling now s = finalize_run now s
repair_as RunStatus.queued now s = finalize_run now (redispatch now s.tasks s)
repair_as RunStatus.running now s = finalize_run now (redispatch now s.tasks s)
repair_as _ now s = ok s

unfoldable pub repair_unfinished_run : ℕ → RunDb → Result RunDb
unfolding repair_as
repair_unfinished_run now s = repair_as s.run.status now s

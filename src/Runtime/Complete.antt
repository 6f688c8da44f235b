-- ===== src/Runtime/Complete.antt =====
-- backend/app/runtime/service.py: `_complete_attempt_success`, `_complete_attempt_failure` and
-- `fail_active_attempt`. `random_value` and the clock are arguments.
use text.Mathlib.Text.{starts_with}
use reviewlens_ai.Prelude.{
  ℕ, ◌+◌, String, Bool, false, ◌&&◌, ◌||◌, Option, none, some, List, [], ◌∷◌, ◌==◌, nat_eq,
  string_eq, contains, ltb, if◌then◌else◌,
}
use reviewlens_ai.Contracts.Status.{
  RunStatus, TaskStatus, AttemptStatus, task_status_eq, run_status_eq, attempt_status_eq,
  attempt_terminal_statuses,
}
use reviewlens_ai.Contracts.RetryPolicy.{delay_for_attempt}
use reviewlens_ai.Runtime.Result.{Result, ok, ◌>>=◌}
use reviewlens_ai.Runtime.State.{
  TaskRun, TaskAttempt, ClarificationChoice, RunDb, task_failed, task_progress, find_task,
  find_attempt, put_attempt, set_task_status, save_task, save_attempt,
}
use reviewlens_ai.Runtime.Progress.{append_progress, queue_task_dispatch}
use reviewlens_ai.Runtime.Attempts.{
  Reply, missing, cancelled, waiting, succeeded, retrying, ended, finish_attempt,
  existing_task_result, latest_running,
}
use reviewlens_ai.Runtime.Clarification.{resolver_handler, pause_for_product}
use reviewlens_ai.Runtime.Dependents.{unblock_dependents}
use reviewlens_ai.Runtime.Finalize.{finalize_run}

abbrev pub Completed : Type 0
Completed = Result (Reply × RunDb)

-- What a handler returns: the output, and the choices that it holds, if any.
pub record HandlerOutput : Type 0 where
  pub payload : String
  pub clarification_choices : List ClarificationChoice

-- RuntimeTaskError.
pub record RuntimeTaskError : Type 0 where
  pub code : String
  pub category : String
  pub retryable : Bool
  pub invalid_output_hash : Option String
  pub validator_results : String

abbrev pub being_cancelled : TaskRun → RunDb → Bool
being_cancelled t s = s.run.status == RunStatus.cancelling || t.status == TaskStatus.cancelling

abbrev pub asks : TaskRun → HandlerOutput → Bool
asks t o = elim o.clarification_choices [ [] ↦ false | c ∷ cs ↦ t.handler == resolver_handler ]

-- The result of a handler whose run was cancelled meanwhile is dropped.
unfoldable pub success_cancelled : ℕ → TaskAttempt → TaskRun → RunDb → Completed
unfolding finish_attempt put_attempt set_task_status finalize_run
success_cancelled now a t s = do
  let a' = record (finish_attempt now a) {
    status = AttemptStatus.cancelled;
    error_category = some "cancelled";
    error_code = some "cancelled_after_execution";
  }
  t' ← set_task_status t TaskStatus.cancelled
  s' ← finalize_run now (save_task (record t' { completed_at = some now }) (save_attempt a' s))
  ok (cancelled, s')

unfoldable pub success_kept : ℕ → ℕ → TaskAttempt → TaskRun → HandlerOutput → RunDb → Completed
unfolding finish_attempt put_attempt set_task_status append_progress unblock_dependents finalize_run
    pause_for_product
success_kept now fresh a t o s =
    let a' = record (finish_attempt now a) {
      status = AttemptStatus.succeeded;
      output_payload = some o.payload;
    } in
    let s1 = save_attempt a' s in
    if asks t o
    then (do
      s2 ← pause_for_product now fresh t o.clarification_choices s1
      ok (waiting a.attempt_number, s2))
    else (do
      t' ← set_task_status t TaskStatus.succeeded
      let s2 = save_task (record t' { completed_at = some now }) s1
      s3 ← unblock_dependents now t.id (append_progress now task_progress (some t.id) s2)
      s4 ← finalize_run now s3
      ok (succeeded a.attempt_number, s4))

-- The two rows that a completion looks up.
abbrev pub with_rows :
    Option TaskAttempt → Option TaskRun → RunDb → (TaskAttempt → TaskRun → Completed) → Completed
with_rows none t s k = ok (missing, s)
with_rows (some a) none s k = ok (missing, s)
with_rows (some a) (some t) s k = k a t

unfoldable pub complete_attempt_success : ℕ → ℕ → ℕ → ℕ → HandlerOutput → RunDb → Completed
unfolding find_task find_attempt success_cancelled success_kept existing_task_result
complete_attempt_success now fresh task_id attempt_id o s =
    with_rows (find_attempt attempt_id s.attempts) (find_task task_id s.tasks) s λ a t.
      if contains attempt_terminal_statuses a.status
      then ok (existing_task_result t s, s)
      else if being_cancelled t s
      then success_cancelled now a t s
      else success_kept now fresh a t o s

abbrev pub failed_attempt : ℕ → RuntimeTaskError → TaskAttempt → TaskAttempt
failed_attempt now e a = record (finish_attempt now a) {
  error_category = some e.category;
  error_code = some e.code;
  retryable = e.retryable;
  invalid_output_hash = e.invalid_output_hash;
  validator_results = e.validator_results;
}

abbrev pub is_in_flight : TaskRun → Bool
is_in_flight t = t.status == TaskStatus.running || t.status == TaskStatus.cancelling

-- A task that is neither running nor being cancelled keeps its status.
abbrev pub cancel_in_flight : TaskRun → Result TaskRun
cancel_in_flight t = if is_in_flight t then set_task_status t TaskStatus.cancelled else ok t

unfoldable pub failure_cancelled : ℕ → TaskAttempt → TaskRun → RunDb → Completed
unfolding set_task_status put_attempt finalize_run
failure_cancelled now a t s = do
  t' ← cancel_in_flight t
  let s1 = save_attempt (record a { status = AttemptStatus.cancelled }) s
  s2 ← finalize_run now (save_task (record t' { completed_at = some now }) s1)
  ok (ended TaskStatus.cancelled a.attempt_number, s2)

abbrev pub may_retry : ℕ → RuntimeTaskError → TaskAttempt → TaskRun → RunDb → Bool
may_retry now e a t s =
    e.retryable
    && contains t.retry_policy.retryable_categories e.category
    && ltb a.attempt_number t.max_attempts
    && ltb now t.deadline_at
    && ltb now s.run.deadline_at

unfoldable pub failure_retried : ℕ → ℕ → TaskAttempt → TaskRun → RunDb → Completed
unfolding set_task_status delay_for_attempt queue_task_dispatch
failure_retried now sample a t s = do
  t' ← set_task_status t TaskStatus.queued
  delay ← delay_for_attempt t.retry_policy a.attempt_number sample
  ok (retrying a.attempt_number, queue_task_dispatch (now + delay) t' (save_task t' s))

abbrev pub is_timeout : RuntimeTaskError → Bool
is_timeout e = e.category == "timeout"

abbrev pub terminal_status : RuntimeTaskError → TaskStatus
terminal_status e = if is_timeout e then TaskStatus.timed_out else TaskStatus.failed

-- `workflow_task_key.startswith(("fetch_comments.", "analyze_audience."))`.
abbrev pub is_comment_task : TaskRun → Bool
is_comment_task t =
    starts_with t.workflow_task_key "fetch_comments."
    || starts_with t.workflow_task_key "analyze_audience."

abbrev pub warn_comments : TaskRun → RunDb → RunDb
warn_comments t s = record s {
  run = record s.run {
    comment_analysis_unavailable = s.run.comment_analysis_unavailable || is_comment_task t;
  };
}

unfoldable pub failure_final : ℕ → RuntimeTaskError → TaskAttempt → TaskRun → RunDb → Completed
unfolding set_task_status unblock_dependents finalize_run
failure_final now e a t s = do
  t' ← set_task_status t (terminal_status e)
  let s1 = save_task (record t' { completed_at = some now }) s
  s2 ← unblock_dependents now t.id (warn_comments t s1)
  s3 ← finalize_run now s2
  ok (ended (terminal_status e) a.attempt_number, s3)

abbrev pub attempt_failure : RuntimeTaskError → AttemptStatus
attempt_failure e = if is_timeout e then AttemptStatus.timed_out else AttemptStatus.failed

-- `a` is the attempt's row, already finished, with its error.
unfoldable pub fail_attempt : ℕ → ℕ → RuntimeTaskError → TaskAttempt → TaskRun → RunDb → Completed
unfolding failure_cancelled failure_retried failure_final append_progress put_attempt
fail_attempt now sample e a t s =
    let s1 =
      append_progress now task_failed (some t.id)
        (save_attempt (record a { status = attempt_failure e }) s) in
    if e.category == "cancelled" || s.run.status == RunStatus.cancelling
    then failure_cancelled now a t s
    else if may_retry now e a t s
    then failure_retried now sample a t s1
    else failure_final now e a t s1

unfoldable pub complete_attempt_failure : ℕ → ℕ → ℕ → ℕ → RuntimeTaskError → RunDb → Completed
unfolding find_task find_attempt fail_attempt existing_task_result finish_attempt
complete_attempt_failure now sample task_id attempt_id e s =
    with_rows (find_attempt attempt_id s.attempts) (find_task task_id s.tasks) s λ a t.
      if contains attempt_terminal_statuses a.status
      then ok (existing_task_result t s, s)
      else fail_attempt now sample e (failed_attempt now e a) t s

-- The watchdog's failure: of the latest running attempt. `none` is "no_active_attempt".
unfoldable pub fail_active_attempt : ℕ → ℕ → ℕ → RuntimeTaskError → RunDb → Option Completed
unfolding latest_running complete_attempt_failure
fail_active_attempt now sample task_id e s = elim (latest_running task_id s) [
  | none ↦ none
  | some a ↦ some (complete_attempt_failure now sample task_id a.id e s)
]

-- ===== src/Runtime/Attempts.antt =====
-- backend/app/runtime/service.py: the queries for attempts, the replies of the executor, and
-- `_finish_attempt_common`, `_existing_task_result`, `heartbeat_attempt`.
use Prim.Native.Nat.{◌/◌}
use reviewlens_ai.Prelude.{
  ℕ, ◌+◌, ◌-◌, ◌*◌, String, ◌&&◌, Option, none, some, List, [], ◌∷◌, ◌==◌, nat_eq, leb, filter,
  if◌then◌else◌,
}
use reviewlens_ai.Contracts.Status.{TaskStatus, AttemptStatus, attempt_status_eq}
use reviewlens_ai.Runtime.State.{
  TaskRun, TaskAttempt, RunDb, find_attempt, save_attempt, put_attempt, second,
}

-- What `execute_task_run` and the completions return, by the "status" of the dict.
pub data Reply : Type 0 where
  missing cancelled waiting_for_input cancelling stale_running budget_exceeded timed_out : Reply
  existing : TaskStatus → ℕ → Option String → Reply
  already_running : ℕ → Reply
  not_queued : TaskStatus → Reply
  stale_delivery : ℕ → ℕ → Reply
  started : ℕ → Reply
  waiting succeeded retrying : ℕ → Reply
  ended : TaskStatus → ℕ → Reply

-- The one of two attempts that `order_by(attempt_number.desc())` puts first.
abbrev pub later : TaskAttempt → Option TaskAttempt → TaskAttempt
later a none = a
later a (some b) = if leb b.attempt_number a.attempt_number then a else b

unfoldable pub latest : List TaskAttempt → Option TaskAttempt
latest [] = none
latest (a ∷ as') = some (later a (latest as'))

unfoldable pub latest_attempt : ℕ → RunDb → Option TaskAttempt
unfolding latest
latest_attempt task s = latest (filter (λ (a : TaskAttempt). a.task_run_id == task) s.attempts)

unfoldable pub latest_running : ℕ → RunDb → Option TaskAttempt
unfolding latest
latest_running task s = latest (
    filter (λ (a : TaskAttempt). a.task_run_id == task && a.status == AttemptStatus.running)
      s.attempts)

-- Truncated subtraction is `max(0, ...)`; a millisecond has 1000 ticks.
unfoldable pub finish_attempt : ℕ → TaskAttempt → TaskAttempt
finish_attempt now a = record a {
  ended_at = some now;
  lease_expires_at = none;
  duration_ms = some ((now - a.started_at) / 1000);
}

abbrev pub output_of : Option TaskAttempt → Option String
output_of none = none
output_of (some a) = if a.status == AttemptStatus.succeeded then a.output_payload else none

unfoldable pub existing_task_result : TaskRun → RunDb → Reply
unfolding latest_attempt
existing_task_result t s = existing t.status t.current_attempt (output_of (latest_attempt t.id s))

-- A running attempt's lease is renewed; any other attempt is left alone.
unfoldable pub heartbeat_attempt : ℕ → ℕ → ℕ → RunDb → RunDb
unfolding find_attempt put_attempt
heartbeat_attempt lease_seconds now id s = elim (find_attempt id s.attempts) [
  | none ↦ s
  | some a ↦
      if a.status == AttemptStatus.running
      then save_attempt
          (record a {
            heartbeat_at = some now;
            lease_expires_at = some (now + lease_seconds * second);
          })
          s
      else s
]

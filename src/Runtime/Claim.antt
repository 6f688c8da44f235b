-- ===== src/Runtime/Claim.antt =====
-- backend/app/runtime/service.py: the first transaction of `execute_task_run`, which claims a task
-- for a new attempt or says why not. The handlers, which run outside any transaction, are not
-- modelled: what they return or raise is an argument of the completions (Complete.antt).
use reviewlens_ai.Prelude.{
  ℕ, suc, ◌+◌, ◌*◌, min, String, Bool, true, false, not, ◌||◌, Option, none, some, [], ◌∷◌, ◌==◌,
  nat_eq, string_eq, contains, ltb, leb, if◌then◌else◌,
}
use reviewlens_ai.Contracts.Status.{
  RunStatus, TaskStatus, AttemptStatus, task_status_eq, run_status_eq, attempt_status_eq,
  task_terminal_statuses,
}
use reviewlens_ai.Runtime.Result.{Result, ok, ◌>>=◌}
use reviewlens_ai.Runtime.State.{
  TaskRun, TaskAttempt, AttemptKind, primary, retry, correction, RunBudgetState, exhausted, RunDb,
  task_failed, task_started, run_started, set_run_status, set_task_status, save_task, second,
}
use reviewlens_ai.Runtime.Progress.{append_progress}
use reviewlens_ai.Runtime.Attempts.{
  Reply, missing, cancelled, waiting_for_input, cancelling, stale_running, budget_exceeded,
  timed_out, already_running, not_queued, stale_delivery, started, latest_attempt,
  existing_task_result,
}
use reviewlens_ai.Runtime.Dependents.{unblock_dependents}
use reviewlens_ai.Runtime.Finalize.{finalize_run, not_started}

-- The arguments of a delivery, the clock, the id of the new attempt, and the lease of the settings.
pub record Delivery : Type 0 where
  pub expected_attempt_number : Option ℕ
  pub celery_task_id : Option String
  pub now : ℕ
  pub attempt_id : ℕ
  pub lease_seconds : ℕ

abbrev pub Claimed : Type 0
Claimed = Result (Reply × RunDb)

abbrev pub over : Option ℕ → ℕ → Bool
over none used = false
over (some cap') used = leb cap' used

abbrev pub is_exhausted : RunBudgetState → Bool
is_exhausted b = elim b.status [ exhausted ↦ true | _ ↦ false ]

unfoldable pub budget_exhausted : Option RunBudgetState → Bool
budget_exhausted none = false
budget_exhausted (some b) =
    is_exhausted b
    || over b.max_tokens (b.reserved_tokens + b.consumed_tokens)
    || over b.max_cost_microusd (b.reserved_cost_microusd + b.consumed_cost_microusd)

abbrev pub exhausted_budget : Option RunBudgetState → Option RunBudgetState
exhausted_budget none = none
exhausted_budget (some b) = some (record b { status = exhausted })

-- A run that is being cancelled: a task that never started ends with it.
unfoldable pub claim_cancelled : Delivery → TaskRun → RunDb → Claimed
unfolding set_task_status finalize_run
claim_cancelled d t s =
    if contains not_started t.status
    then (do
      t' ← set_task_status t TaskStatus.cancelled
      s' ← finalize_run d.now (save_task (record t' { completed_at = some d.now }) s)
      ok (cancelled, s'))
    else ok (cancelled, s)

-- A lease that runs is someone's; one that ended is left to `recover_stale_attempts`.
unfoldable pub running_reply : ℕ → Option TaskAttempt → Reply
running_reply now none = stale_running
running_reply now (some a) =
    if a.status == AttemptStatus.running
    then elim a.lease_expires_at [
      | none ↦ stale_running
      | some lease ↦ if ltb now lease then already_running a.attempt_number else stale_running
    ]
    else stale_running

-- The task fails or times out before it starts.
unfoldable pub claim_ended : Reply → TaskStatus → Delivery → TaskRun → RunDb → Claimed
unfolding set_task_status append_progress unblock_dependents finalize_run
claim_ended reply status d t s = do
  t' ← set_task_status t status
  let s1 = save_task (record t' { completed_at = some d.now }) s
  s2 ← unblock_dependents d.now t.id (append_progress d.now task_failed (some t.id) s1)
  s3 ← finalize_run d.now s2
  ok (reply, s3)

abbrev pub kind_after : Option TaskAttempt → AttemptKind
kind_after none = primary
kind_after (some a) = elim a.error_category [
  | none ↦ retry
  | some c ↦ if c == "validation" then correction else retry
]

abbrev pub correction_of : Option TaskAttempt → Option ℕ
correction_of none = none
correction_of (some a) = elim (kind_after (some a)) [ correction ↦ some a.id | _ ↦ none ]

abbrev pub new_attempt : Delivery → TaskRun → Option TaskAttempt → TaskAttempt
new_attempt d t previous = record {
  id = d.attempt_id;
  task_run_id = t.id;
  attempt_number = suc t.current_attempt;
  attempt_kind = kind_after previous;
  correction_of_attempt_id = correction_of previous;
  status = AttemptStatus.running;
  output_payload = none;
  error_category = none;
  error_code = none;
  retryable = false;
  invalid_output_hash = none;
  validator_results = "{}";
  celery_task_id = d.celery_task_id;
  lease_expires_at = some (d.now + d.lease_seconds * second);
  heartbeat_at = some d.now;
  started_at = d.now;
  ended_at = none;
  duration_ms = none;
}

abbrev pub or_now : Option ℕ → ℕ → Option ℕ
or_now none now = some now
or_now (some t) now = some t

unfoldable pub start_run : ℕ → RunDb → Result RunDb
unfolding set_run_status append_progress
start_run now s =
    if s.run.status == RunStatus.queued
    then (do
      s1 ← set_run_status RunStatus.running s
      let s2 = record s1 { run = record s1.run { started_at = some now } }
      ok (append_progress now run_started none s2))
    else ok s

abbrev pub claimed_task : Delivery → RunDb → TaskRun → TaskRun
claimed_task d s t = record t {
  deadline_at = min s.run.deadline_at (d.now + t.timeout_seconds * second);
  current_attempt = suc t.current_attempt;
  started_at = or_now t.started_at d.now;
}

unfoldable pub claim_start : Delivery → TaskRun → RunDb → Claimed
unfolding set_task_status append_progress latest_attempt start_run
claim_start d t s = do
  t' ← set_task_status (claimed_task d s t) TaskStatus.running
  let attempt = new_attempt d t (latest_attempt t.id s)
  s1 ← start_run d.now (save_task t' (record s { attempts = attempt ∷ s.attempts }))
  ok (started d.attempt_id, append_progress d.now task_started (some t.id) s1)

abbrev pub is_stale : Option ℕ → TaskRun → Bool
is_stale none t = false
is_stale (some n) t = not (n == suc t.current_attempt)

abbrev pub expected_number : Option ℕ → ℕ
expected_number none = 0
expected_number (some n) = n

-- A queued task: the delivery must be for its next attempt, the budget and the deadlines open.
unfoldable pub claim_queued : Delivery → TaskRun → RunDb → Claimed
unfolding claim_ended claim_start budget_exhausted
claim_queued d t s =
    if is_stale d.expected_attempt_number t
    then ok (stale_delivery (expected_number d.expected_attempt_number) t.current_attempt, s)
    else if budget_exhausted s.budget
    then claim_ended budget_exceeded TaskStatus.failed d t
        (record s { budget = exhausted_budget s.budget })
    else if leb t.deadline_at d.now || leb s.run.deadline_at d.now
    then claim_ended timed_out TaskStatus.timed_out d t s
    else claim_start d t s

unfoldable pub claim_task : Delivery → Option TaskRun → RunDb → Claimed
unfolding claim_cancelled running_reply claim_queued existing_task_result
claim_task d none s = ok (missing, s)
claim_task d (some t) s =
    if contains task_terminal_statuses t.status
    then ok (existing_task_result t s, s)
    else if contains (RunStatus.cancelling ∷ RunStatus.cancelled ∷ []) s.run.status
    then claim_cancelled d t s
    else if s.run.status == RunStatus.waiting_for_input
    then ok (waiting_for_input, s)
    else if t.status == TaskStatus.cancelling
    then ok (cancelling, s)
    else if t.status == TaskStatus.running
    then ok (running_reply d.now (latest_attempt t.id s), s)
    else if not (t.status == TaskStatus.queued)
    then ok (not_queued t.status, s)
    else claim_queued d t s

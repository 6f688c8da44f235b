-- ===== src/Runtime/Progress.antt =====
-- backend/app/runtime/service.py: `_progress_counts`, `append_progress`, `queue_task_dispatch`,
-- `_queue_task_revoke` and `_close_budget`.
use Prim.Native.Nat.{◌/◌}
use reviewlens_ai.Prelude.{
  ℕ, suc, ◌*◌, min, String, Bool, true, Option, none, some, List, [], ◌∷◌, ◌==◌, nat_eq, string_eq,
  contains, filter, length, sum_by, if◌then◌else◌,
}
use reviewlens_ai.Contracts.Status.{
  OutboxStatus, OutboxKind, task_terminal_statuses, task_status_eq,
}
use reviewlens_ai.Runtime.State.{
  TaskRun, TaskAttempt, OutboxKey, dispatch, revoke, progress, RuntimeOutbox, EventType,
  ProgressEvent, RunBudgetState, exhausted, closed, RunDb, outbox_key_eq,
}

abbrev pub is_terminal : TaskRun → Bool
is_terminal t = contains task_terminal_statuses t.status

abbrev weight : TaskRun → ℕ
weight t = t.weight

pub record Counts : Type 0 where
  pub completed : ℕ
  pub total : ℕ
  pub percent : ℕ

-- `n or 1`.
abbrev or_one : ℕ → ℕ
or_one n = if n == 0 then 1 else n

-- `int(x * 100 / y)` on the floats is the quotient of the numbers: at most 200 tasks of weight at
-- most 100 are far from where a float quotient could round up to the next integer.
unfoldable pub progress_counts : RunDb → Counts
progress_counts s = record {
  completed = length (filter is_terminal s.tasks);
  total = or_one (length s.tasks);
  percent =
      min 100 (sum_by weight (filter is_terminal s.tasks) * 100 / or_one (sum_by weight s.tasks));
}

-- The outbox item of a new event.
abbrev progress_item : ℕ → Option ℕ → ℕ → RuntimeOutbox
progress_item sequence task now = record {
  kind = OutboxKind.progress_publish;
  task_run_id = task;
  idempotency_key = progress sequence;
  status = OutboxStatus.pending;
  attempts = 0;
  next_attempt_at = now;
  lease_expires_at = none;
  published_at = none;
  last_error_code = none;
}

abbrev new_event : EventType → Option ℕ → ℕ → Counts → ProgressEvent
new_event type task sequence c = record {
  sequence = sequence;
  event_type = type;
  task_run_id = task;
  completed_tasks = c.completed;
  total_tasks = c.total;
  percent = c.percent;
}

unfoldable pub append_progress : ℕ → EventType → Option ℕ → RunDb → RunDb
unfolding progress_counts
append_progress now type task s =
    let sequence = suc s.run.progress_sequence in
    record s {
      run = record s.run { progress_sequence = sequence };
      events = new_event type task sequence (progress_counts s) ∷ s.events;
      outbox = progress_item sequence task now ∷ s.outbox;
    }

abbrev pub item_keys : List RuntimeOutbox → List OutboxKey
item_keys [] = []
item_keys (o ∷ os) = o.idempotency_key ∷ item_keys os

abbrev pub dispatch_item : TaskRun → ℕ → RuntimeOutbox
dispatch_item t available_at = record {
  kind = OutboxKind.task_dispatch;
  task_run_id = some t.id;
  idempotency_key = dispatch t.id (suc t.current_attempt);
  status = OutboxStatus.pending;
  attempts = 0;
  next_attempt_at = available_at;
  lease_expires_at = none;
  published_at = none;
  last_error_code = none;
}

-- An item with the key of the next attempt is left as it is.
unfoldable pub queue_task_dispatch : ℕ → TaskRun → RunDb → RunDb
queue_task_dispatch available_at t s =
    if contains (item_keys s.outbox) (dispatch t.id (suc t.current_attempt))
    then s
    else record s { outbox = dispatch_item t available_at ∷ s.outbox }

-- `if not attempt.celery_task_id`: a missing or an empty id.
abbrev pub no_celery_id : Option String → Bool
no_celery_id none = true
no_celery_id (some i) = i == ""

abbrev revoke_item : TaskRun → TaskAttempt → ℕ → RuntimeOutbox
revoke_item t a now = record {
  kind = OutboxKind.task_revoke;
  task_run_id = some t.id;
  idempotency_key = revoke a.id;
  status = OutboxStatus.pending;
  attempts = 0;
  next_attempt_at = now;
  lease_expires_at = none;
  published_at = none;
  last_error_code = none;
}

unfoldable pub queue_task_revoke : ℕ → TaskRun → TaskAttempt → RunDb → RunDb
queue_task_revoke now t a s =
    if no_celery_id a.celery_task_id
    then s
    else if contains (item_keys s.outbox) (revoke a.id)
    then s
    else record s { outbox = revoke_item t a now ∷ s.outbox }

abbrev closed_budget : RunBudgetState → RunBudgetState
closed_budget b = record b { status = elim b.status [ exhausted ↦ exhausted | _ ↦ closed ] }

unfoldable pub close_budget : RunDb → RunDb
close_budget s = record s {
  budget = elim s.budget [ none ↦ none | some b ↦ some (closed_budget b) ];
}

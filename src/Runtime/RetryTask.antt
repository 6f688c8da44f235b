-- ===== src/Runtime/RetryTask.antt =====
-- backend/app/runtime/service.py: `retry_task`, and the walk of `_reset_skipped_descendants`.
use reviewlens_ai.Prelude.{
  ℕ, zero, suc, ◌+◌, ◌*◌, min, max, true, false, not, Option, none, some, List, [], ◌∷◌, ◌++◌, ◌==◌,
  nat_eq, contains, leb, length, if◌then◌else◌,
}
use reviewlens_ai.Contracts.Status.{
  RunStatus, TaskStatus, OutboxStatus, task_status_eq, run_status_eq, run_terminal_statuses,
}
use reviewlens_ai.Runtime.Result.{
  Result, ok, raise, task_error, recursion_error, ◌>>=◌, ◌>>◌, guard,
}
use reviewlens_ai.Runtime.State.{
  TaskRun, OutboxKey, dispatch, RuntimeOutbox, RunBudgetState, active, RunDb, set_run_status,
  find_task, set_task_status, save_task, second, outbox_key_eq,
}
use reviewlens_ai.Runtime.Progress.{queue_task_dispatch}
use reviewlens_ai.Runtime.Dependents.{downstream_ids}
use reviewlens_ai.Runtime.Finalize.{failures}

-- The variables of the walk.
pub record Walk : Type 0 where
  pub pending : List ℕ
  pub visited : List ℕ
  pub db : RunDb

abbrev pub unskip : Option TaskRun → RunDb → Result RunDb
unskip none s = ok s
unskip (some t) s =
    if t.status == TaskStatus.skipped
    then (do
      t' ← set_task_status t TaskStatus.blocked
      ok (save_task (record t' { completed_at = none }) s))
    else ok s

-- The inner loop: a descendant is handled and queued the first time that it is met.
unfoldable pub walk_ids : List ℕ → Walk → Result Walk
unfolding set_task_status find_task
walk_ids [] w = ok w
walk_ids (i ∷ is) w = elim (contains w.visited i) [
  | true ↦ walk_ids is w
  | false ↦ unskip (find_task i w.db.tasks) w.db >>= λ s.
      walk_ids is (record { pending = w.pending ++ i ∷ []; visited = i ∷ w.visited; db = s })
]

-- One round of `while pending`; `again` is the rest of the loop.
unfoldable pub walk_round : (Walk → Result Walk) → List ℕ → Walk → Result Walk
unfolding walk_ids downstream_ids
walk_round again [] w = ok w
walk_round again (current ∷ rest) w = do
  w' ← walk_ids (downstream_ids current w.db.dependencies) (record w { pending = rest })
  again w'

unfoldable pub walk : ℕ → Walk → Result Walk
unfolding walk_round
walk zero w = raise recursion_error
walk (suc fuel) w = walk_round (walk fuel) w.pending w

-- Every round takes one id off the queue, and an id joins it only when first visited.
unfoldable pub reset_skipped_descendants : ℕ → RunDb → Result RunDb
unfolding walk
reset_skipped_descendants up s = do
  w ← walk (suc (suc (length s.dependencies))) (record { pending = up ∷ []; visited = []; db = s })
  ok w.db

-- An item that was published is delivered again.
abbrev pub rearmed : ℕ → RuntimeOutbox → RuntimeOutbox
rearmed now o = elim o.status [
  | OutboxStatus.published ↦ record o {
    status = OutboxStatus.pending;
    next_attempt_at = now;
    published_at = none;
    lease_expires_at = none;
    last_error_code = none;
  }
  | _ ↦ o
]

unfoldable pub rearm : ℕ → OutboxKey → List RuntimeOutbox → List RuntimeOutbox
rearm now k [] = []
rearm now k (o ∷ os) = (if o.idempotency_key == k then rearmed now o else o) ∷ rearm now k os

abbrev pub active_budget : Option RunBudgetState → Option RunBudgetState
active_budget none = none
active_budget (some b) = some (record b { status = active })

unfoldable pub reopen_run : RunDb → Result RunDb
unfolding set_run_status
reopen_run s =
    if contains run_terminal_statuses s.run.status
    then (do
      s1 ← set_run_status RunStatus.running s
      ok (record s1 {
        run = record s1.run { completed_at = none; error_code = none };
        budget = active_budget s1.budget;
      }))
    else ok s

-- The row that `retry_task` makes of the task before its status changes.
abbrev pub renewed : ℕ → ℕ → TaskRun → TaskRun
renewed now run_deadline t = record t {
  max_attempts = max t.max_attempts (suc t.current_attempt);
  deadline_at = min run_deadline (now + t.timeout_seconds * second);
}

-- For a task of the run that is there.
unfoldable pub retry_task : ℕ → TaskRun → RunDb → Result RunDb
unfolding reopen_run reset_skipped_descendants queue_task_dispatch rearm
retry_task now t s = do
  guard (not (contains (RunStatus.cancelling ∷ RunStatus.cancelled ∷ []) s.run.status))
      (task_error "run_is_cancelling" "cancelled")
  guard (contains failures t.status) (task_error "task_not_retryable" "invalid_state")
  guard (not (leb s.run.deadline_at now)) (task_error "run_deadline_elapsed" "timeout")
  t1 ← set_task_status (renewed now s.run.deadline_at t) TaskStatus.queued
  let t2 = record t1 { completed_at = none }
  s1 ← reopen_run (save_task t2 s)
  s2 ← reset_skipped_descendants t.id s1
  let s3 = queue_task_dispatch now t2 s2
  ok (record s3 { outbox = rearm now (dispatch t2.id (suc t2.current_attempt)) s3.outbox })

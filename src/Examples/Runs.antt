-- ===== src/Examples/Runs.antt =====
-- The operations of a run on the rows of RunData.antt.
use reviewlens_ai.Prelude.{ℕ, ◌≤◌, ◌≡◌, refl, true, some, arith}
use reviewlens_ai.Contracts.Status.{RunStatus, TaskStatus}
use reviewlens_ai.Contracts.RetryPolicy.{default_policy, delay_for_attempt, valid_policy}
use reviewlens_ai.Contracts.RetryPolicy.Delay.{doubled, IsJittered, delay_for_attempt_bounds}
use reviewlens_ai.Runtime.Result.{Result, ok, raise, invalid_state_transition, Returns}
use reviewlens_ai.Runtime.State.{RunDb, find_task}
use reviewlens_ai.Runtime.Attempts.{Reply, started}
use reviewlens_ai.Runtime.Claim.{claim_task}
use reviewlens_ai.Runtime.Dependents.{unblock_dependents}
use reviewlens_ai.Runtime.RetryTask.{retry_task}
use reviewlens_ai.Runtime.Ends.{Ends}
use reviewlens_ai.Runtime.Consistent.{IsConsistent}
use reviewlens_ai.Runtime.History.{claimed, Reaches, here, then}
use reviewlens_ai.Runtime.History.Keeps.{Reaches-IsConsistent}
use reviewlens_ai.Runtime.Unblocks.{blocked_tasks, unblock_dependents-Returns}
use reviewlens_ai.Runtime.Guards.{Guarded, MayStart, claim_task-MayStart, retry_task-finished}
use reviewlens_ai.Runtime.Cancel.{request_cancellation}
use reviewlens_ai.Runtime.Stops.{IsStopped, request_cancellation-IsStopped}
use reviewlens_ai.Runtime.RetryTask.{reset_skipped_descendants}
use reviewlens_ai.Runtime.Walks.{reset_skipped_descendants-Returns}
use reviewlens_ai.Examples.RunData.{a_task, rows_of, new_run, first_delivery}

abbrev state_of : Result (Reply × RunDb) → RunDb
state_of (ok (r, s)) = s
state_of (raise e) = new_run

-- The rows after the first delivery.
abbrev started_run : RunDb
unfolding claim_task find_task
started_run = state_of (claim_task first_delivery (find_task 1 new_run.tasks) new_run)

pub new_run-IsConsistent : IsConsistent new_run
new_run-IsConsistent = record {
  rows = record {
    delivered = (λ e. refl, (λ e. cc, tt));
    numbered = tt;
    announced = tt;
    keys_distinct = refl;
    keys_bounded = λ e h. cc;
  };
}

new_run-starts : Reaches new_run started_run
unfolding claim_task find_task
new_run-starts =
    then new_run started_run here (claimed first_delivery 1 (started 7) started_run refl)

Reaches-IsConsistent_example : IsConsistent started_run
Reaches-IsConsistent_example =
    Reaches-IsConsistent new_run started_run new_run-IsConsistent new_run-starts

abbrev collected : RunDb
collected = rows_of RunStatus.running TaskStatus.succeeded TaskStatus.blocked

unblock_dependents-Returns_example :
    Returns
      (λ (s' : RunDb). blocked_tasks s'.tasks ≤ blocked_tasks collected.tasks)
      (unblock_dependents 20 1 collected)
unblock_dependents-Returns_example = unblock_dependents-Returns 20 1 collected

request_cancellation-IsStopped_example : Returns IsStopped (request_cancellation 20 new_run)
request_cancellation-IsStopped_example = request_cancellation-IsStopped 20 new_run refl

reset_skipped_descendants-Returns_example :
    Returns
      (λ (s' : RunDb). s'.dependencies ≡ collected.dependencies)
      (reset_skipped_descendants 1 collected)
reset_skipped_descendants-Returns_example = reset_skipped_descendants-Returns 1 collected

claim_task-MayStart_example :
    Ends
      (Guarded (MayStart first_delivery (a_task 1 "collect" TaskStatus.queued) new_run))
      (claim_task first_delivery (some (a_task 1 "collect" TaskStatus.queued)) new_run)
claim_task-MayStart_example =
    claim_task-MayStart first_delivery (a_task 1 "collect" TaskStatus.queued) new_run

retry_task-finished_example :
    retry_task 20
      (a_task 1 "collect" TaskStatus.failed)
      (rows_of RunStatus.partial TaskStatus.failed TaskStatus.succeeded)
    ≡ raise invalid_state_transition
retry_task-finished_example =
    retry_task-finished 20 (a_task 1 "collect" TaskStatus.failed)
      (rows_of RunStatus.partial TaskStatus.failed TaskStatus.succeeded) refl refl (omega arith)

default_policy-valid : valid_policy default_policy ≡ true
unfolding valid_policy
default_policy-valid = refl

delay_for_attempt_bounds_example :
    (d : ℕ) × (delay_for_attempt default_policy 2 400000 ≡ ok d)
    × IsJittered default_policy (doubled default_policy 1) d
delay_for_attempt_bounds_example =
    delay_for_attempt_bounds default_policy 1 400000 default_policy-valid (omega arith)
      (omega arith)

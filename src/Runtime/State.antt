-- ===== src/Runtime/State.antt =====
-- The rows of one run in backend/app/db/models.py, and the session's row operations. A UUID is a
-- number, a time a number of microseconds, a JSON column a text. Hashes, labels and other columns
-- that the modelled code only writes are left out.
use reviewlens_ai.Prelude.{
  ℕ, String, Bool, true, false, ◌&&◌, ◌≡◌, ◌↔◌, Option, none, some, List, [], ◌∷◌, arith, eqb, Eq,
  ◌==◌, nat_eq, if◌then◌else◌,
}
use reviewlens_ai.Contracts.Status.{RunStatus, TaskStatus, AttemptStatus, OutboxStatus, OutboxKind}
use reviewlens_ai.Contracts.Status.{run_transition_allowed, task_transition_allowed}
use reviewlens_ai.Contracts.RetryPolicy.{RetryPolicy}
use reviewlens_ai.Contracts.Dag.{DependencyMode, ExecutorKind}
use reviewlens_ai.Runtime.Result.{Result, ok, raise, invalid_state_transition}

-- AnalysisRun. `comment_analysis_unavailable` is the key of that name in `warning_summary`.
pub record AnalysisRun : Type 0 where
  pub id : ℕ
  pub status : RunStatus
  pub initiator_type : String
  pub progress_sequence : ℕ
  pub comment_analysis_unavailable : Bool
  pub error_code : Option String
  pub report_id : Option ℕ
  pub resolved_product_name : Option String
  pub deadline_at : ℕ
  pub started_at : Option ℕ
  pub completed_at : Option ℕ
  pub cancellation_requested_at : Option ℕ
  pub cancelled_at : Option ℕ

-- TaskRun.
pub record TaskRun : Type 0 where
  pub id : ℕ
  pub workflow_task_key : String
  pub source_key : Option String
  pub executor_kind : ExecutorKind
  pub handler : String
  pub agent_version_id : Option ℕ
  pub tool_version_id : Option ℕ
  pub status : TaskStatus
  pub weight : ℕ
  pub timeout_seconds : ℕ
  pub max_attempts : ℕ
  pub dependency_mode : DependencyMode
  pub minimum_successes : ℕ
  pub optional : Bool
  pub retry_policy : RetryPolicy
  pub input_payload : String
  pub current_attempt : ℕ
  pub deadline_at : ℕ
  pub started_at : Option ℕ
  pub completed_at : Option ℕ

-- TaskDependency.
pub record TaskDependency : Type 0 where
  pub upstream_task_id : ℕ
  pub downstream_task_id : ℕ

pub data AttemptKind : Type 0 where
  primary retry correction : AttemptKind

-- TaskAttempt.
pub record TaskAttempt : Type 0 where
  pub id : ℕ
  pub task_run_id : ℕ
  pub attempt_number : ℕ
  pub attempt_kind : AttemptKind
  pub correction_of_attempt_id : Option ℕ
  pub status : AttemptStatus
  pub output_payload : Option String
  pub error_category : Option String
  pub error_code : Option String
  pub retryable : Bool
  pub invalid_output_hash : Option String
  pub validator_results : String
  pub celery_task_id : Option String
  pub lease_expires_at : Option ℕ
  pub heartbeat_at : Option ℕ
  pub started_at : ℕ
  pub ended_at : Option ℕ
  pub duration_ms : Option ℕ

-- What `stable_idempotency_key` is called with; the hash of the parts is taken to be injective.
-- The payload of an item is read off its key.
pub data OutboxKey : Type 0 where
  -- ("dispatch", task.id, attempt number)
  dispatch : ℕ → ℕ → OutboxKey
  -- ("revoke", attempt.id)
  revoke : ℕ → OutboxKey
  -- ("progress", event.id), with the event's sequence for its id
  progress : ℕ → OutboxKey

abbrev pub same_key : OutboxKey → OutboxKey → Bool
same_key (dispatch t n) (dispatch t' n') = eqb t t' && eqb n n'
same_key (revoke a) (revoke a') = eqb a a'
same_key (progress e) (progress e') = eqb e e'
same_key _ _ = false

pub same_key_iff : (a b : OutboxKey) → (same_key a b ≡ true) ↔ (a ≡ b)
same_key_iff (dispatch t n) (dispatch t' n') = ground arith
same_key_iff (revoke a) (revoke a') = ground arith
same_key_iff (progress e) (progress e') = ground arith
same_key_iff _ _ = ground arith

instance abbrev pub outbox_key_eq : Eq OutboxKey
outbox_key_eq = record { equal = same_key; equal_iff = same_key_iff }

-- RuntimeOutbox.
pub record RuntimeOutbox : Type 0 where
  pub kind : OutboxKind
  pub task_run_id : Option ℕ
  pub idempotency_key : OutboxKey
  pub status : OutboxStatus
  pub attempts : ℕ
  pub next_attempt_at : ℕ
  pub lease_expires_at : Option ℕ
  pub published_at : Option ℕ
  pub last_error_code : Option String

-- PUBLIC_EVENT_TYPES: an event of another type cannot be appended.
pub data EventType : Type 0 where
  run_queued run_started run_waiting_for_input run_input_received : EventType
  task_started task_progress source_completed task_failed : EventType
  run_partial run_completed run_failed run_cancelled : EventType

-- ProgressEvent, with the counts of its payload.
pub record ProgressEvent : Type 0 where
  pub sequence : ℕ
  pub event_type : EventType
  pub task_run_id : Option ℕ
  pub completed_tasks : ℕ
  pub total_tasks : ℕ
  pub percent : ℕ

pub data BudgetStatus : Type 0 where
  active exhausted closed : BudgetStatus

-- RunBudgetState.
pub record RunBudgetState : Type 0 where
  pub max_tokens : Option ℕ
  pub max_cost_microusd : Option ℕ
  pub reserved_tokens : ℕ
  pub consumed_tokens : ℕ
  pub reserved_cost_microusd : ℕ
  pub consumed_cost_microusd : ℕ
  pub status : BudgetStatus

pub record ClarificationChoice : Type 0 where
  pub id : String
  pub product_name : String

pub data ClarificationStatus : Type 0 where
  pending answered expired cancelled : ClarificationStatus

-- ProductClarification, of which a run has at most one (its `run_id` is unique).
pub record ProductClarification : Type 0 where
  pub id : ℕ
  pub task_run_id : ℕ
  pub choices : List ClarificationChoice
  pub status : ClarificationStatus
  pub answer : Option String
  pub expires_at : ℕ
  pub answered_at : Option ℕ

-- Report: whether its status is "published" and its payload's status "partial".
pub record Report : Type 0 where
  pub id : ℕ
  pub published : Bool
  pub partial : Bool

-- The rows that belong to one run. New rows of `attempts`, `outbox` and `events` stand in front.
pub record RunDb : Type 0 where
  pub run : AnalysisRun
  pub tasks : List TaskRun
  pub dependencies : List TaskDependency
  pub attempts : List TaskAttempt
  pub outbox : List RuntimeOutbox
  pub events : List ProgressEvent
  pub budget : Option RunBudgetState
  pub clarification : Option ProductClarification
  pub report : Option Report

abbrev pub second : ℕ
second = 1000000

-- `select(TaskRun).where(TaskRun.id == id)`, and a changed row written back.
unfoldable pub find_task : ℕ → List TaskRun → Option TaskRun
find_task i [] = none
find_task i (t ∷ ts) = if t.id == i then some t else find_task i ts

unfoldable pub put_task : TaskRun → List TaskRun → List TaskRun
put_task t [] = []
put_task t (r ∷ rs) = (if r.id == t.id then t else r) ∷ put_task t rs

abbrev pub save_task : TaskRun → RunDb → RunDb
save_task t s = record s { tasks = put_task t s.tasks }

unfoldable pub find_attempt : ℕ → List TaskAttempt → Option TaskAttempt
find_attempt i [] = none
find_attempt i (a ∷ as') = if a.id == i then some a else find_attempt i as'

unfoldable pub put_attempt : TaskAttempt → List TaskAttempt → List TaskAttempt
put_attempt a [] = []
put_attempt a (r ∷ rs) = (if r.id == a.id then a else r) ∷ put_attempt a rs

abbrev pub save_attempt : TaskAttempt → RunDb → RunDb
save_attempt a s = record s { attempts = put_attempt a s.attempts }

-- `_set_run_status` and `_set_task_status`, on the row in hand.
unfoldable pub set_run_status : RunStatus → RunDb → Result RunDb
unfolding run_transition_allowed
set_run_status target s =
    if run_transition_allowed s.run.status target
    then ok (record s { run = record s.run { status = target } })
    else raise invalid_state_transition

unfoldable pub set_task_status : TaskRun → TaskStatus → Result TaskRun
unfolding task_transition_allowed
set_task_status t target =
    if task_transition_allowed t.status target
    then ok (record t { status = target })
    else raise invalid_state_transition

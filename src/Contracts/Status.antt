-- ===== src/Contracts/Status.antt =====
-- backend/app/runtime/contracts.py: the status enumerations, the terminal sets and the transitions.
use reviewlens_ai.Prelude.{
  ℕ, Bool, true, ◌||◌, ◌≡◌, ◌↔◌, List, [], ◌∷◌, arith, eqb, Eq, ◌==◌, contains,
}

pub data RunStatus : Type 0 where
  queued running waiting_for_input complete partial failed cancelling cancelled : RunStatus

pub data TaskStatus : Type 0 where
  blocked queued running waiting_for_input succeeded failed skipped cancelling cancelled timed_out :
      TaskStatus

pub data AttemptStatus : Type 0 where
  running succeeded failed cancelled timed_out : AttemptStatus

pub data OutboxStatus : Type 0 where
  pending processing published : OutboxStatus

pub data OutboxKind : Type 0 where
  task_dispatch task_revoke progress_publish : OutboxKind

abbrev pub run_code : RunStatus → ℕ
run_code RunStatus.queued = 0
run_code RunStatus.running = 1
run_code RunStatus.waiting_for_input = 2
run_code RunStatus.complete = 3
run_code RunStatus.partial = 4
run_code RunStatus.failed = 5
run_code RunStatus.cancelling = 6
run_code RunStatus.cancelled = 7

pub run_code_iff : (a b : RunStatus) → (eqb (run_code a) (run_code b) ≡ true) ↔ (a ≡ b)
run_code_iff a b = ground arith

instance abbrev pub run_status_eq : Eq RunStatus
run_status_eq = record { equal = λ a b. eqb (run_code a) (run_code b); equal_iff = run_code_iff }

abbrev pub task_code : TaskStatus → ℕ
task_code TaskStatus.blocked = 0
task_code TaskStatus.queued = 1
task_code TaskStatus.running = 2
task_code TaskStatus.waiting_for_input = 3
task_code TaskStatus.succeeded = 4
task_code TaskStatus.failed = 5
task_code TaskStatus.skipped = 6
task_code TaskStatus.cancelling = 7
task_code TaskStatus.cancelled = 8
task_code TaskStatus.timed_out = 9

pub task_code_iff : (a b : TaskStatus) → (eqb (task_code a) (task_code b) ≡ true) ↔ (a ≡ b)
task_code_iff a b = ground arith

instance abbrev pub task_status_eq : Eq TaskStatus
task_status_eq = record {
  equal = λ a b. eqb (task_code a) (task_code b);
  equal_iff = task_code_iff;
}

abbrev pub attempt_code : AttemptStatus → ℕ
attempt_code AttemptStatus.running = 0
attempt_code AttemptStatus.succeeded = 1
attempt_code AttemptStatus.failed = 2
attempt_code AttemptStatus.cancelled = 3
attempt_code AttemptStatus.timed_out = 4

pub attempt_code_iff :
    (a b : AttemptStatus) → (eqb (attempt_code a) (attempt_code b) ≡ true) ↔ (a ≡ b)
attempt_code_iff a b = ground arith

instance abbrev pub attempt_status_eq : Eq AttemptStatus
attempt_status_eq = record {
  equal = λ a b. eqb (attempt_code a) (attempt_code b);
  equal_iff = attempt_code_iff;
}

-- RUN_TERMINAL_STATUSES, TASK_TERMINAL_STATUSES, ATTEMPT_TERMINAL_STATUSES.
abbrev pub run_terminal_statuses : List RunStatus
run_terminal_statuses =
    RunStatus.complete ∷ RunStatus.partial ∷ RunStatus.failed ∷ RunStatus.cancelled ∷ []

abbrev pub task_terminal_statuses : List TaskStatus
task_terminal_statuses =
    TaskStatus.succeeded ∷ TaskStatus.failed ∷ TaskStatus.skipped ∷ TaskStatus.cancelled
    ∷ TaskStatus.timed_out ∷ []

abbrev pub attempt_terminal_statuses : List AttemptStatus
attempt_terminal_statuses =
    AttemptStatus.succeeded ∷ AttemptStatus.failed ∷ AttemptStatus.cancelled
    ∷ AttemptStatus.timed_out ∷ []

-- RUN_TRANSITIONS: what a status may change to.
unfoldable pub run_transitions : RunStatus → List RunStatus
run_transitions RunStatus.queued = RunStatus.running ∷ RunStatus.cancelling ∷ RunStatus.failed ∷ []
run_transitions RunStatus.running =
    RunStatus.complete ∷ RunStatus.partial ∷ RunStatus.failed ∷ RunStatus.cancelling
    ∷ RunStatus.waiting_for_input ∷ []
run_transitions RunStatus.waiting_for_input =
    RunStatus.running ∷ RunStatus.cancelling ∷ RunStatus.failed ∷ []
run_transitions RunStatus.cancelling = RunStatus.cancelled ∷ []
run_transitions RunStatus.complete = []
run_transitions RunStatus.partial = []
run_transitions RunStatus.failed = RunStatus.running ∷ []
run_transitions RunStatus.cancelled = []

unfoldable pub task_transitions : TaskStatus → List TaskStatus
task_transitions TaskStatus.blocked =
    TaskStatus.queued ∷ TaskStatus.skipped ∷ TaskStatus.cancelled ∷ []
task_transitions TaskStatus.queued =
    TaskStatus.running ∷ TaskStatus.failed ∷ TaskStatus.timed_out ∷ TaskStatus.cancelling
    ∷ TaskStatus.cancelled ∷ []
task_transitions TaskStatus.running =
    TaskStatus.succeeded ∷ TaskStatus.queued ∷ TaskStatus.failed ∷ TaskStatus.cancelling
    ∷ TaskStatus.cancelled ∷ TaskStatus.timed_out ∷ TaskStatus.waiting_for_input ∷ []
task_transitions TaskStatus.waiting_for_input =
    TaskStatus.succeeded ∷ TaskStatus.failed ∷ TaskStatus.cancelled ∷ []
task_transitions TaskStatus.cancelling = TaskStatus.cancelled ∷ TaskStatus.succeeded ∷ []
task_transitions TaskStatus.succeeded = []
task_transitions TaskStatus.failed = TaskStatus.queued ∷ []
task_transitions TaskStatus.skipped = TaskStatus.blocked ∷ []
task_transitions TaskStatus.cancelled = []
task_transitions TaskStatus.timed_out = TaskStatus.queued ∷ []

-- The test of `require_run_transition` and `require_task_transition`, which raise when it fails.
unfoldable pub run_transition_allowed : RunStatus → RunStatus → Bool
unfolding run_transitions
run_transition_allowed source target = target == source || contains (run_transitions source) target

unfoldable pub task_transition_allowed : TaskStatus → TaskStatus → Bool
unfolding task_transitions
task_transition_allowed source target =
    target == source || contains (task_transitions source) target

-- ===== src/Runtime/Clarification.antt =====
-- backend/app/runtime/clarification.py: the pause for an answer, its expiry, and the answer. The
-- choices come validated by `ClarificationChoice`; the case-folded product name is not modelled.
use reviewlens_ai.Prelude.{
  ℕ, ◌+◌, ◌*◌, min, String, Bool, true, false, not, ◌&&◌, Option, none, some, List, [], ◌∷◌, ◌==◌,
  string_eq, ltb, leb, length, if◌then◌else◌,
}
use reviewlens_ai.Contracts.Status.{RunStatus, TaskStatus, task_status_eq, run_status_eq}
use reviewlens_ai.Contracts.RetryPolicy.{unique}
use reviewlens_ai.Runtime.Result.{
  Exception, Result, ok, raise, value_error, http_error, ◌>>=◌, ◌>>◌, guard,
}
use reviewlens_ai.Runtime.State.{
  TaskRun, ProductClarification, ClarificationChoice, ClarificationStatus, pending, answered,
  expired, RunDb, run_waiting_for_input, run_input_received, run_failed, find_task, set_run_status,
  set_task_status, save_task, second,
}
use reviewlens_ai.Runtime.Progress.{append_progress, close_budget}
use reviewlens_ai.Runtime.Dependents.{unblock_dependents}

abbrev pub resolver_handler : String
resolver_handler = "analysis.resolve_discovered_product"

abbrev pub choice_ids : List ClarificationChoice → List String
choice_ids [] = []
choice_ids (c ∷ cs) = c.id ∷ choice_ids cs

abbrev pub has_clarification : Option ProductClarification → Bool
has_clarification none = false
has_clarification (some c) = true

unfoldable pub pause_for_product : ℕ → ℕ → TaskRun → List ClarificationChoice → RunDb → Result RunDb
unfolding unique set_task_status set_run_status append_progress
pause_for_product now id t choices s = do
  guard (t.handler == resolver_handler && leb 1 (length choices) && leb (length choices) 5)
      value_error
  guard (unique (choice_ids choices)) value_error
  guard (not (has_clarification s.clarification)) value_error
  t' ← set_task_status t TaskStatus.waiting_for_input
  let row : ProductClarification = record {
    id = id;
    task_run_id = t.id;
    choices = choices;
    status = pending;
    answer = none;
    expires_at = min s.run.deadline_at (now + 900 * second);
    answered_at = none;
  }
  s1 ←
      set_run_status RunStatus.waiting_for_input
        (save_task t' (record s { clarification = some row }))
  ok (append_progress now run_waiting_for_input (some t.id) s1)

abbrev pub is_pending : ClarificationStatus → Bool
is_pending pending = true
is_pending _ = false

-- The loop of `expire_pending` over the tasks.
unfoldable pub expire_task : ℕ → TaskRun → RunDb → Result RunDb
unfolding set_task_status
expire_task now t s = elim t.status [
  | TaskStatus.waiting_for_input ↦ do
    t' ← set_task_status t TaskStatus.failed
    ok (save_task (record t' { completed_at = some now }) s)
  | TaskStatus.blocked ↦ do
    t' ← set_task_status t TaskStatus.skipped
    ok (save_task (record t' { completed_at = some now }) s)
  | TaskStatus.queued ↦ do
    t' ← set_task_status t TaskStatus.cancelled
    ok (save_task (record t' { completed_at = some now }) s)
  | _ ↦ ok s
]

unfoldable pub expire_tasks : ℕ → List TaskRun → RunDb → Result RunDb
unfolding expire_task
expire_tasks now [] s = ok s
expire_tasks now (t ∷ ts) s = do s' ← expire_task now t s; expire_tasks now ts s'

-- The pending clarification whose time is over.
unfoldable pub overdue : ℕ → RunDb → Option ProductClarification
overdue now s = elim s.clarification [
  | none ↦ none
  | some c ↦
      if is_pending c.status && not (ltb now (min c.expires_at s.run.deadline_at))
      then some c
      else none
]

unfoldable pub expire_row : ℕ → ProductClarification → RunDb → Result RunDb
unfolding expire_tasks set_run_status append_progress close_budget
expire_row now c s = do
  let s0 = record s { clarification = some (record c { status = expired }) }
  s1 ← expire_tasks now s.tasks s0
  s2 ← set_run_status RunStatus.failed s1
  let s3 = record s2 {
    run = record s2.run {
      error_code = some "product_clarification_expired";
      completed_at = some now;
    };
  }
  ok (append_progress now run_failed none (close_budget s3))

-- `none` is `return False`.
unfoldable pub expire_pending : ℕ → RunDb → Result (Option RunDb)
unfolding overdue expire_row
expire_pending now s = elim (overdue now s) [
  | none ↦ ok none
  | some c ↦ do s' ← expire_row now c s; ok (some s')
]

-- The ways `answer_product` ends: an expiry is committed before its error is raised.
pub data Answered : Type 0 where
  accepted : RunDb → Answered
  too_late : RunDb → Answered

unfoldable pub find_choice : String → List ClarificationChoice → Option ClarificationChoice
find_choice i [] = none
find_choice i (c ∷ cs) = if c.id == i then some c else find_choice i cs

abbrev pub or_else {ℓ} : {A : Type ℓ} → Option A → Exception → Result A
or_else none e = raise e
or_else (some a) e = ok a

abbrev pub awaited : Option TaskRun → Option TaskRun
awaited none = none
awaited (some t) = if t.status == TaskStatus.waiting_for_input then some t else none

abbrev pub is_paused : Option Bool → Bool
is_paused none = true
is_paused (some kill_switch) = kill_switch

-- What follows once the question is open and the program is not paused.
unfoldable pub accept_choice : ℕ → ProductClarification → String → RunDb → Result Answered
unfolding find_choice find_task set_task_status set_run_status append_progress unblock_dependents
accept_choice now c choice_id s = do
  chosen ← or_else (find_choice choice_id c.choices) (http_error 422 "clarification_choice_invalid")
  t ← or_else (awaited (find_task c.task_run_id s.tasks)) (http_error 409 "clarification_stale")
  let row = record c { status = answered; answer = some choice_id; answered_at = some now }
  s1 ← set_run_status RunStatus.running (record s {
    clarification = some row;
    run = record s.run { resolved_product_name = some chosen.product_name };
  })
  t' ← set_task_status t TaskStatus.succeeded
  let s2 = save_task (record t' { completed_at = some now }) s1
  s3 ← unblock_dependents now t.id (append_progress now run_input_received (some t.id) s2)
  ok (accepted s3)

abbrev pub same_answer : Option String → String → Bool
same_answer none choice_id = false
same_answer (some a) choice_id = a == choice_id

-- `kill_switch` is the active configuration's, `none` if there is no configuration.
unfoldable pub answer_open :
    ℕ → Option Bool → ProductClarification → String → RunDb → Result Answered
unfolding accept_choice expire_pending
answer_open now kill_switch c choice_id s = do
  guard (s.run.status == RunStatus.waiting_for_input && is_pending c.status)
      (http_error 409 "clarification_stale")
  gone ← expire_pending now s
  elim gone [
    | some s' ↦ ok (too_late s')
    | none ↦ do
      guard (not (is_paused kill_switch)) (http_error 503 "analysis_paused")
      accept_choice now c choice_id s
  ]

-- `c` is the run's clarification of the id that was asked for, if there is one.
unfoldable pub answer_product :
    ℕ → Option Bool → Option ProductClarification → String → RunDb → Result Answered
unfolding answer_open
answer_product now kill_switch none choice_id s = raise (http_error 404 "not_found")
answer_product now kill_switch (some c) choice_id s = elim c.status [
  | answered ↦
      if same_answer c.answer choice_id
      then ok (accepted s)
      else raise (http_error 409 "clarification_conflict")
  | _ ↦ answer_open now kill_switch c choice_id s
]

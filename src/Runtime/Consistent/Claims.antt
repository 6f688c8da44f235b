-- ===== src/Runtime/Consistent/Claims.antt =====
-- backend/app/runtime/service.py: the claim of a task keeps the outbox and the events consistent.
use reviewlens_ai.Prelude.{
  ℕ, ◌||◌, ◌≢◌, Option, none, some, [], ◌∷◌, contains, Bool-cases, inl, inr, ◌==◌, leb,
}
use reviewlens_ai.Contracts.Status.{
  TaskStatus, RunStatus, task_status_eq, run_status_eq, task_terminal_statuses,
}
use reviewlens_ai.Runtime.Result.{ok, ◌>>=◌}
use reviewlens_ai.Runtime.State.{TaskRun, RunDb, task_started, task_failed, save_task}
use reviewlens_ai.Runtime.Progress.{append_progress}
use reviewlens_ai.Runtime.Attempts.{Reply, latest_attempt, timed_out, budget_exceeded, started}
use reviewlens_ai.Runtime.Dependents.{unblock_dependents}
use reviewlens_ai.Runtime.Finalize.{finalize_run, not_started}
use reviewlens_ai.Runtime.Claim.{
  Delivery, claim_cancelled, claim_ended, start_run, claim_start, claim_queued, claim_task,
  claimed_task, new_attempt, is_stale, budget_exhausted, exhausted_budget,
}
use reviewlens_ai.Runtime.Ends.{Ends, Ends-bind, Ends-set_task_status, Ends-set_run_status}
use reviewlens_ai.Runtime.Consistent.{
  IsConsistent, append_progress-IsConsistent, save_task-IsConsistent,
}
use reviewlens_ai.Runtime.Consistent.Operations.{
  finalize_run-IsConsistent, unblock_dependents-IsConsistent,
}

abbrev pub Kept : Reply × RunDb → Type 0
Kept r = IsConsistent r.1

-- The ends of the operations: the run is finalized, after what follows the task was unblocked or not.
pub finalize_and :
    (now : ℕ) (r : Reply) (s : RunDb)
    → IsConsistent s
    → Ends Kept (finalize_run now s >>= λ s'. ok (r, s'))
finalize_and now r s c =
    Ends-bind IsConsistent Kept (finalize_run now s) (λ s'. ok (r, s'))
      (finalize_run-IsConsistent now s c) (λ s' c'. c')

pub unblock_and :
    (now up : ℕ) (r : Reply) (s : RunDb)
    → IsConsistent s
    → Ends Kept (unblock_dependents now up s >>= λ s2. finalize_run now s2 >>= λ s3. ok (r, s3))
unblock_and now up r s c =
    Ends-bind IsConsistent Kept (unblock_dependents now up s)
      (λ s2. finalize_run now s2 >>= λ s3. ok (r, s3)) (unblock_dependents-IsConsistent now up s c)
      (λ s2 c2. finalize_and now r s2 c2)

claim_cancelled-IsConsistent :
    (d : Delivery) (t : TaskRun) (s : RunDb) → IsConsistent s → Ends Kept (claim_cancelled d t s)
unfolding claim_cancelled
claim_cancelled-IsConsistent d t s c = elim (Bool-cases (contains not_started t.status)) [
  | inl a ↦ rw a (
      Ends-set_task_status Kept t TaskStatus.cancelled _ (
        finalize_and d.now _ _ (
          save_task-IsConsistent
            (record t { status = TaskStatus.cancelled; completed_at = some d.now }) s (λ q. cc) c)))
  | inr a ↦ rw a c
]

claim_ended-IsConsistent :
    (r : Reply) (st : TaskStatus)
    → st ≢ TaskStatus.queued
    → (d : Delivery) (t : TaskRun) (s : RunDb) → IsConsistent s
    → Ends Kept (claim_ended r st d t s)
unfolding claim_ended
claim_ended-IsConsistent r st q d t s c = Ends-set_task_status Kept t st _ (
    unblock_and d.now t.id r _ (
      append_progress-IsConsistent d.now task_failed (some t.id) _
        (save_task-IsConsistent (record t { status = st; completed_at = some d.now }) s q c)))

start_run-IsConsistent :
    (now : ℕ) (s : RunDb) → IsConsistent s → Ends IsConsistent (start_run now s)
unfolding start_run
start_run-IsConsistent now s c = elim (Bool-cases (s.run.status == RunStatus.queued)) [
  | inl a ↦ rw a (
      Ends-set_run_status IsConsistent RunStatus.running s _
        (append_progress-IsConsistent now _ none _ (record { rows = c.rows })))
  | inr a ↦ rw a c
]

claim_start-IsConsistent :
    (d : Delivery) (t : TaskRun) (s : RunDb) → IsConsistent s → Ends Kept (claim_start d t s)
unfolding claim_start
claim_start-IsConsistent d t s c =
    Ends-set_task_status Kept (claimed_task d s t) TaskStatus.running _ (
      Ends-bind IsConsistent Kept (start_run d.now s0)
        (λ s1. ok (started d.attempt_id, append_progress d.now task_started (some t.id) s1))
        (start_run-IsConsistent d.now s0 (
          save_task-IsConsistent (record (claimed_task d s t) { status = TaskStatus.running })
            (record s { attempts = new_attempt d t (latest_attempt t.id s) ∷ s.attempts }) (λ q. cc)
            (record { rows = c.rows })))
        (λ s1 c1. append_progress-IsConsistent d.now task_started (some t.id) s1 c1))
  where
    s0 : RunDb
    s0 =
        save_task (record (claimed_task d s t) { status = TaskStatus.running })
          (record s { attempts = new_attempt d t (latest_attempt t.id s) ∷ s.attempts })

claim_queued-IsConsistent :
    (d : Delivery) (t : TaskRun) (s : RunDb) → IsConsistent s → Ends Kept (claim_queued d t s)
unfolding claim_queued
claim_queued-IsConsistent d t s c = elim (Bool-cases (is_stale d.expected_attempt_number t)) [
  | inl a ↦ rw a c
  | inr a ↦ rw a (elim (Bool-cases (budget_exhausted s.budget)) [
    | inl b ↦ rw b (
        claim_ended-IsConsistent budget_exceeded TaskStatus.failed (λ q. cc) d t
          (record s { budget = exhausted_budget s.budget }) (record { rows = c.rows }))
    | inr b ↦ rw b (elim (Bool-cases (leb t.deadline_at d.now || leb s.run.deadline_at d.now)) [
      | inl e ↦ rw e (claim_ended-IsConsistent timed_out TaskStatus.timed_out (λ q. cc) d t s c)
      | inr e ↦ rw e (claim_start-IsConsistent d t s c)
    ])
  ])
]

-- A claim that returns leaves the outbox and the events consistent, whatever it replies.
pub claim_task-IsConsistent :
    (d : Delivery) (o : Option TaskRun) (s : RunDb) → IsConsistent s → Ends Kept (claim_task d o s)
unfolding claim_task
claim_task-IsConsistent d none s c = c
claim_task-IsConsistent d (some t) s c =
    elim (Bool-cases (contains task_terminal_statuses t.status)) [
      | inl a1 ↦ rw a1 c
      | inr a1 ↦
          rw a1
            (elim (Bool-cases
              (contains (RunStatus.cancelling ∷ RunStatus.cancelled ∷ []) s.run.status)) [
                | inl a2 ↦ rw a2 (claim_cancelled-IsConsistent d t s c)
                | inr a2 ↦ rw a2 (elim (Bool-cases (s.run.status == RunStatus.waiting_for_input)) [
                  | inl a3 ↦ rw a3 c
                  | inr a3 ↦ rw a3 (elim (Bool-cases (t.status == TaskStatus.cancelling)) [
                    | inl a4 ↦ rw a4 c
                    | inr a4 ↦ rw a4 (elim (Bool-cases (t.status == TaskStatus.running)) [
                      | inl a5 ↦ rw a5 c
                      | inr a5 ↦ rw a5 (elim (Bool-cases (t.status == TaskStatus.queued)) [
                        | inl a6 ↦ rw a6 (claim_queued-IsConsistent d t s c)
                        | inr a6 ↦ rw a6 c
                      ])
                    ])
                  ])
                ])
              ])
    ]

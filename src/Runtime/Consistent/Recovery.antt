-- ===== src/Runtime/Consistent/Recovery.antt =====
-- backend/app/runtime/service.py and clarification.py: the recovery of stale attempts, the repair of
-- a run, and the expiry and the answer of a question keep the outbox and the events consistent.
use reviewlens_ai.Prelude.{
  ℕ, ◌&&◌, ◌≡◌, refl, Option, none, some, List, [], ◌∷◌, contains, Bool-cases, inl, inr, ◌==◌, ltb,
  string_eq,
}
use reviewlens_ai.Contracts.Status.{TaskStatus, RunStatus, task_status_eq, run_status_eq}
use reviewlens_ai.Runtime.Result.{Result, ok, ◌>>=◌}
use reviewlens_ai.Runtime.State.{
  TaskRun, TaskAttempt, RunDb, ProductClarification, task_failed, run_failed, find_task,
  save_attempt,
}
use reviewlens_ai.Runtime.Progress.{append_progress}
use reviewlens_ai.Runtime.Attempts.{finish_attempt}
use reviewlens_ai.Runtime.Complete.{being_cancelled}
use reviewlens_ai.Runtime.Clarification.{
  expire_task, expire_tasks, expire_row, expire_pending, overdue,
}
use reviewlens_ai.Runtime.Finalize.{finalize_run, in_flight}
use reviewlens_ai.Runtime.Recover.{
  recover_cancelled, recover_interrupted, recover_attempt, recover_attempts, recover_stale_attempts,
  stale_attempts, redispatch, repair_as, repair_unfinished_run, kept_or,
}
use reviewlens_ai.Runtime.Ends.{Ends, Ends-bind, Ends-set_task_status, Ends-set_run_status}
use reviewlens_ai.Runtime.Consistent.{
  IsConsistent, append_progress-IsConsistent, save_task-IsConsistent, requeue-IsConsistent,
  queue-IsConsistent,
}
use reviewlens_ai.Runtime.Consistent.Operations.{
  finalize_run-IsConsistent, unblock_dependents-IsConsistent, close_budget-IsConsistent,
}

recover_cancelled-IsConsistent :
    (now : ℕ) (a : TaskAttempt) (t : TaskRun) (s : RunDb)
    → IsConsistent s
    → Ends IsConsistent (recover_cancelled now a t s)
unfolding recover_cancelled
recover_cancelled-IsConsistent now a t s c =
    Ends-set_task_status IsConsistent t TaskStatus.cancelled _ (
      save_task-IsConsistent (record t { status = TaskStatus.cancelled; completed_at = some now })
        (save_attempt _ s) (λ q. cc) (record { rows = c.rows }))

recover_interrupted-IsConsistent :
    (now : ℕ) (a : TaskAttempt) (t : TaskRun) (s : RunDb)
    → IsConsistent s
    → Ends IsConsistent (recover_interrupted now a t s)
unfolding recover_interrupted
recover_interrupted-IsConsistent now a t s c =
    elim (Bool-cases (ltb a.attempt_number t.max_attempts && ltb now t.deadline_at)) [
      | inl e ↦ rw e (
          Ends-set_task_status IsConsistent t TaskStatus.queued _ (
            requeue-IsConsistent now (record t { status = TaskStatus.queued }) (save_attempt _ s)
              (record { rows = c.rows })))
      | inr e ↦ rw e (
          Ends-set_task_status IsConsistent t TaskStatus.failed _ (
            unblock_dependents-IsConsistent now t.id _ (
              save_task-IsConsistent
                (record t { status = TaskStatus.failed; completed_at = some now })
                (save_attempt _ s) (λ q. cc) (record { rows = c.rows }))))
    ]

announce_and :
    (now i : ℕ) (m : Result RunDb)
    → Ends IsConsistent m
    → Ends IsConsistent (m >>= λ s1. finalize_run now (append_progress now task_failed (some i) s1))
announce_and now i m h =
    Ends-bind IsConsistent IsConsistent m
      (λ s1. finalize_run now (append_progress now task_failed (some i) s1)) h
      (λ s1 c1.
        finalize_run-IsConsistent now _
          (append_progress-IsConsistent now task_failed (some i) s1 c1))

recover_attempt-IsConsistent :
    (now : ℕ) (a : TaskAttempt) (o : Option TaskRun) (s : RunDb)
    → IsConsistent s
    → Ends IsConsistent (recover_attempt now a o s)
unfolding recover_attempt
recover_attempt-IsConsistent now a none s c = c
recover_attempt-IsConsistent now a (some t) s c = elim (Bool-cases (contains in_flight t.status)) [
  | inr e ↦ rw e c
  | inl e ↦ rw e (elim (Bool-cases (being_cancelled t s)) [
    | inl f ↦ rw f (
        announce_and now t.id (recover_cancelled now (finish_attempt now a) t s)
          (recover_cancelled-IsConsistent now (finish_attempt now a) t s c))
    | inr f ↦ rw f (
        announce_and now t.id (recover_interrupted now (finish_attempt now a) t s)
          (recover_interrupted-IsConsistent now (finish_attempt now a) t s c))
  ])
]

recover_attempts-IsConsistent :
    (now : ℕ) (as' : List TaskAttempt) (s : RunDb)
    → IsConsistent s
    → Ends IsConsistent (recover_attempts now as' s)
unfolding recover_attempts
recover_attempts-IsConsistent now [] s c = c
recover_attempts-IsConsistent now (a ∷ as') s c =
    Ends-bind IsConsistent IsConsistent (recover_attempt now a (find_task a.task_run_id s.tasks) s)
      (recover_attempts now as')
      (recover_attempt-IsConsistent now a (find_task a.task_run_id s.tasks) s c)
      (λ s' c'. recover_attempts-IsConsistent now as' s' c')

-- A recovery that returns leaves the outbox and the events consistent.
pub recover_stale_attempts-IsConsistent :
    (now : ℕ) (s : RunDb) → IsConsistent s → Ends IsConsistent (recover_stale_attempts now s)
unfolding recover_stale_attempts
recover_stale_attempts-IsConsistent now s c =
    recover_attempts-IsConsistent now (stale_attempts now s.attempts) s c

redispatch-IsConsistent :
    (now : ℕ) (ts : List TaskRun) (s : RunDb) → IsConsistent s → IsConsistent (redispatch now ts s)
unfolding redispatch
redispatch-IsConsistent now [] s c = c
redispatch-IsConsistent now (t ∷ ts) s c = elim (Bool-cases (t.status == TaskStatus.queued)) [
  | inl e ↦ rw e (redispatch-IsConsistent now ts _ (queue-IsConsistent now t s c))
  | inr e ↦ rw e (redispatch-IsConsistent now ts s c)
]

expire_task-IsConsistent :
    (now : ℕ) (st : TaskStatus) (t : TaskRun) (s : RunDb)
    → t.status ≡ st
    → IsConsistent s
    → Ends IsConsistent (expire_task now t s)
unfolding expire_task
expire_task-IsConsistent now TaskStatus.waiting_for_input t s e c = rw e (
    save_task-IsConsistent (record t { status = TaskStatus.failed; completed_at = some now }) s
      (λ q. cc) c)
expire_task-IsConsistent now TaskStatus.blocked t s e c = rw e (
    save_task-IsConsistent (record t { status = TaskStatus.skipped; completed_at = some now }) s
      (λ q. cc) c)
expire_task-IsConsistent now TaskStatus.queued t s e c = rw e (
    save_task-IsConsistent (record t { status = TaskStatus.cancelled; completed_at = some now }) s
      (λ q. cc) c)
expire_task-IsConsistent now _ t s e c = rw e c

expire_tasks-IsConsistent :
    (now : ℕ) (ts : List TaskRun) (s : RunDb)
    → IsConsistent s
    → Ends IsConsistent (expire_tasks now ts s)
unfolding expire_tasks
expire_tasks-IsConsistent now [] s c = c
expire_tasks-IsConsistent now (t ∷ ts) s c =
    Ends-bind IsConsistent IsConsistent (expire_task now t s) (expire_tasks now ts)
      (expire_task-IsConsistent now t.status t s refl c)
      (λ s' c'. expire_tasks-IsConsistent now ts s' c')

expire_row-IsConsistent :
    (now : ℕ) (q : ProductClarification) (s : RunDb)
    → IsConsistent s
    → Ends IsConsistent (expire_row now q s)
unfolding expire_row
expire_row-IsConsistent now q s c =
    Ends-bind IsConsistent IsConsistent (expire_tasks now s.tasks _) _
      (expire_tasks-IsConsistent now s.tasks (record s { clarification = _ })
        (record { rows = c.rows }))
      (λ s1 c1. Ends-set_run_status IsConsistent RunStatus.failed s1 _ (
        append_progress-IsConsistent now run_failed none _
          (close_budget-IsConsistent _ (record { rows = c1.rows }))))

pub expire_pending-IsConsistent :
    (now : ℕ) (s : RunDb)
    → IsConsistent s
    → Ends (λ o. IsConsistent (kept_or s o)) (expire_pending now s)
unfolding expire_pending
expire_pending-IsConsistent now s c = go (overdue now s)
  where
    go :
        (o : Option ProductClarification)
        → Ends
            (λ p. IsConsistent (kept_or s p))
            (elim o [ none ↦ ok none | some q ↦ expire_row now q s >>= λ s'. ok (some s') ])
    go none = c
    go (some q) =
        Ends-bind IsConsistent (λ o. IsConsistent (kept_or s o)) (expire_row now q s)
          (λ s'. ok (some s')) (expire_row-IsConsistent now q s c) (λ s' c'. c')

repair_as-IsConsistent :
    (st : RunStatus) (now : ℕ) (s : RunDb) → IsConsistent s → Ends IsConsistent (repair_as st now s)
unfolding repair_as
repair_as-IsConsistent RunStatus.waiting_for_input now s c =
    Ends-bind (λ o. IsConsistent (kept_or s o)) IsConsistent (expire_pending now s)
      (λ o. ok (kept_or s o)) (expire_pending-IsConsistent now s c) (λ o c'. c')
repair_as-IsConsistent RunStatus.cancelling now s c = finalize_run-IsConsistent now s c
repair_as-IsConsistent RunStatus.queued now s c =
    finalize_run-IsConsistent now (redispatch now s.tasks s)
      (redispatch-IsConsistent now s.tasks s c)
repair_as-IsConsistent RunStatus.running now s c =
    finalize_run-IsConsistent now (redispatch now s.tasks s)
      (redispatch-IsConsistent now s.tasks s c)
repair_as-IsConsistent _ now s c = c

-- A repair that returns leaves the outbox and the events consistent.
pub repair_unfinished_run-IsConsistent :
    (now : ℕ) (s : RunDb) → IsConsistent s → Ends IsConsistent (repair_unfinished_run now s)
unfolding repair_unfinished_run
repair_unfinished_run-IsConsistent now s c = repair_as-IsConsistent s.run.status now s c

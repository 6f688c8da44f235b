-- ===== src/Runtime/Consistent/Completions.antt =====
-- backend/app/runtime/service.py: the completions of an attempt keep the outbox and the events consistent.
use reviewlens_ai.Prelude.{
  ℕ, ◌+◌, not, ◌||◌, ◌&&◌, ◌≡◌, ◌≢◌, some, List, [], ◌∷◌, contains, All, Bool-cases, Option-cases,
  inl, inr, ◌==◌, arith, nat_eq, string_eq, leb, length,
}
use reviewlens_ai.Contracts.Status.{
  TaskStatus, RunStatus, task_status_eq, run_status_eq, attempt_status_eq,
  attempt_terminal_statuses,
}
use reviewlens_ai.Contracts.RetryPolicy.{unique, delay_for_attempt}
use reviewlens_ai.Runtime.Result.{ok, ◌>>=◌}
use reviewlens_ai.Runtime.State.{
  TaskRun, TaskAttempt, ClarificationChoice, RunDb, task_failed, task_progress,
  run_waiting_for_input, find_task, find_attempt, save_task, save_attempt, set_run_status,
}
use reviewlens_ai.Runtime.Progress.{append_progress, item_keys}
use reviewlens_ai.Runtime.Attempts.{Reply}
use reviewlens_ai.Runtime.Clarification.{
  pause_for_product, has_clarification, choice_ids, resolver_handler,
}
use reviewlens_ai.Runtime.Complete.{
  HandlerOutput, RuntimeTaskError, success_cancelled, success_kept, complete_attempt_success,
  being_cancelled, asks, failed_attempt, is_in_flight, failure_cancelled, may_retry,
  failure_retried, failure_final, terminal_status, warn_comments, is_timeout, attempt_failure,
  fail_attempt, complete_attempt_failure,
}
use reviewlens_ai.Runtime.Ends.{
  Ends, Ends-any, Ends-bind, Ends-set_task_status, Ends-set_run_status,
}
use reviewlens_ai.Runtime.Consistent.{
  IsConsistent, Delivered, append_progress-IsConsistent, save_task-IsConsistent,
  keep_task-IsConsistent, requeue-IsConsistent,
}
use reviewlens_ai.Runtime.Consistent.Claims.{Kept, finalize_and, unblock_and}

-- A row that was found is one of the rows.
found-Delivered :
    (s : RunDb) (i : ℕ) (t : TaskRun)
    → IsConsistent s
    → find_task i s.tasks ≡ some t
    → Delivered (item_keys s.outbox) t
unfolding find_task
found-Delivered s i t c = go s.tasks c.delivered
  where
    go :
        (ts : List TaskRun)
        → All (Delivered (item_keys s.outbox)) ts
        → find_task i ts ≡ some t
        → Delivered (item_keys s.outbox) t
    go [] h e = absurd cc
    go (r ∷ rs) h e = elim (Bool-cases (r.id == i)) [
      | inl a ↦ ground (arith, e, a, h.0)
      | inr a ↦ go rs h.1 (ground (arith, e, a))
    ]

success_cancelled-IsConsistent :
    (now : ℕ) (a : TaskAttempt) (t : TaskRun) (s : RunDb)
    → IsConsistent s
    → Ends Kept (success_cancelled now a t s)
unfolding success_cancelled
success_cancelled-IsConsistent now a t s c = Ends-set_task_status Kept t TaskStatus.cancelled _ (
    finalize_and now _ _ (
      save_task-IsConsistent (record t { status = TaskStatus.cancelled; completed_at = some now })
        (save_attempt _ s) (λ q. cc) (record { rows = c.rows })))

wait_and :
    (now i : ℕ) (s : RunDb)
    → IsConsistent s
    → Ends IsConsistent (
        set_run_status RunStatus.waiting_for_input s >>= λ s1.
        ok (append_progress now run_waiting_for_input (some i) s1))
wait_and now i s c =
    Ends-set_run_status IsConsistent RunStatus.waiting_for_input s _
      (append_progress-IsConsistent now run_waiting_for_input (some i) _ (record { rows = c.rows }))

pause_for_product-IsConsistent :
    (now id : ℕ) (t : TaskRun) (cs : List ClarificationChoice) (s : RunDb)
    → IsConsistent s
    → Ends IsConsistent (pause_for_product now id t cs s)
unfolding pause_for_product
pause_for_product-IsConsistent now id t cs s c =
    elim (Bool-cases (t.handler == resolver_handler && leb 1 (length cs) && leb (length cs) 5)) [
      | inr h1 ↦ rw h1 tt
      | inl h1 ↦ rw h1 (elim (Bool-cases (unique (choice_ids cs))) [
        | inr h2 ↦ rw h2 tt
        | inl h2 ↦ rw h2 (elim (Bool-cases (not (has_clarification s.clarification))) [
          | inr h3 ↦ rw h3 tt
          | inl h3 ↦ rw h3 (
              Ends-set_task_status IsConsistent t TaskStatus.waiting_for_input _ (
                wait_and now t.id _ (
                  save_task-IsConsistent (record t { status = TaskStatus.waiting_for_input }) _
                    (λ q. cc) (record { rows = c.rows }))))
        ])
      ])
    ]

pause_and :
    (now id : ℕ) (t : TaskRun) (cs : List ClarificationChoice) (r : Reply) (s : RunDb)
    → IsConsistent s
    → Ends Kept (pause_for_product now id t cs s >>= λ s2. ok (r, s2))
pause_and now id t cs r s c =
    Ends-bind IsConsistent Kept (pause_for_product now id t cs s) (λ s2. ok (r, s2))
      (pause_for_product-IsConsistent now id t cs s c) (λ s2 c2. c2)

success_kept-IsConsistent :
    (now fresh : ℕ) (a : TaskAttempt) (t : TaskRun) (o : HandlerOutput) (s : RunDb)
    → IsConsistent s
    → Ends Kept (success_kept now fresh a t o s)
unfolding success_kept
success_kept-IsConsistent now fresh a t o s c = elim (Bool-cases (asks t o)) [
  | inl e ↦ rw e (pause_and now fresh t o.clarification_choices _ _ (record { rows = c.rows }))
  | inr e ↦ rw e (
      Ends-set_task_status Kept t TaskStatus.succeeded _ (
        unblock_and now t.id _ _ (
          append_progress-IsConsistent now task_progress (some t.id) _ (
            save_task-IsConsistent
              (record t { status = TaskStatus.succeeded; completed_at = some now })
              (save_attempt _ s) (λ q. cc) (record { rows = c.rows })))))
]

-- A success that is recorded leaves the outbox and the events consistent.
pub complete_attempt_success-IsConsistent :
    (now fresh task_id attempt_id : ℕ) (o : HandlerOutput) (s : RunDb)
    → IsConsistent s
    → Ends Kept (complete_attempt_success now fresh task_id attempt_id o s)
unfolding complete_attempt_success
complete_attempt_success-IsConsistent now fresh task_id attempt_id o s c =
    elim (Option-cases (find_attempt attempt_id s.attempts)) [
      | inl e ↦ rw e c
      | inr (a, e) ↦ rw e (elim (Option-cases (find_task task_id s.tasks)) [
        | inl f ↦ rw f c
        | inr (t, f) ↦ rw f (elim (Bool-cases (contains attempt_terminal_statuses a.status)) [
          | inl g ↦ rw g c
          | inr g ↦ rw g (elim (Bool-cases (being_cancelled t s)) [
            | inl h ↦ rw h (success_cancelled-IsConsistent now a t s c)
            | inr h ↦ rw h (success_kept-IsConsistent now fresh a t o s c)
          ])
        ])
      ])
    ]

failure_cancelled-IsConsistent :
    (now : ℕ) (a : TaskAttempt) (t : TaskRun) (s : RunDb)
    → Delivered (item_keys s.outbox) t
    → IsConsistent s
    → Ends Kept (failure_cancelled now a t s)
unfolding failure_cancelled
failure_cancelled-IsConsistent now a t s d c = elim (Bool-cases (is_in_flight t)) [
  | inl e ↦ rw e (
      Ends-set_task_status Kept t TaskStatus.cancelled _ (
        finalize_and now _ _ (
          save_task-IsConsistent
            (record t { status = TaskStatus.cancelled; completed_at = some now }) (save_attempt _ s)
            (λ q. cc) (record { rows = c.rows }))))
  | inr e ↦ rw e (
      finalize_and now _ _ (
        keep_task-IsConsistent (record t { completed_at = some now }) (save_attempt _ s) d
          (record { rows = c.rows })))
]

failure_retried-IsConsistent :
    (now sample : ℕ) (a : TaskAttempt) (t : TaskRun) (s : RunDb)
    → IsConsistent s
    → Ends Kept (failure_retried now sample a t s)
unfolding failure_retried
failure_retried-IsConsistent now sample a t s c = Ends-set_task_status Kept t TaskStatus.queued _ (
    Ends-bind (λ d. Unit) Kept (delay_for_attempt t.retry_policy a.attempt_number sample) _
      (Ends-any (delay_for_attempt t.retry_policy a.attempt_number sample))
      (λ delay u. requeue-IsConsistent (now + delay) (record t { status = TaskStatus.queued }) s c))

terminal-not-queued : (e : RuntimeTaskError) → terminal_status e ≢ TaskStatus.queued
terminal-not-queued e q = elim (Bool-cases (is_timeout e)) [
  | inl h ↦ absurd (ground (arith, h, q))
  | inr h ↦ absurd (ground (arith, h, q))
]

failure_final-IsConsistent :
    (now : ℕ) (e : RuntimeTaskError) (a : TaskAttempt) (t : TaskRun) (s : RunDb)
    → IsConsistent s
    → Ends Kept (failure_final now e a t s)
unfolding failure_final
failure_final-IsConsistent now e a t s c = Ends-set_task_status Kept t (terminal_status e) _ (
    unblock_and now t.id _
      (warn_comments t
        (save_task (record t { status = terminal_status e; completed_at = some now }) s))
      (record {
        rows =
            (save_task-IsConsistent
              (record t { status = terminal_status e; completed_at = some now }) s
              (terminal-not-queued e) c).rows;
      }))

fail_attempt-IsConsistent :
    (now sample : ℕ) (e : RuntimeTaskError) (a : TaskAttempt) (t : TaskRun) (s : RunDb)
    → Delivered (item_keys s.outbox) t
    → IsConsistent s
    → Ends Kept (fail_attempt now sample e a t s)
unfolding fail_attempt
fail_attempt-IsConsistent now sample e a t s d c =
    let c1 =
      append_progress-IsConsistent now task_failed (some t.id)
        (save_attempt (record a { status = attempt_failure e }) s) (record { rows = c.rows }) in
    elim (Bool-cases (e.category == "cancelled" || s.run.status == RunStatus.cancelling)) [
      | inl f ↦ rw f (failure_cancelled-IsConsistent now a t s d c)
      | inr f ↦ rw f (elim (Bool-cases (may_retry now e a t s)) [
        | inl g ↦ rw g (failure_retried-IsConsistent now sample a t _ c1)
        | inr g ↦ rw g (failure_final-IsConsistent now e a t _ c1)
      ])
    ]

-- A failure that is recorded leaves the outbox and the events consistent.
pub complete_attempt_failure-IsConsistent :
    (now sample task_id attempt_id : ℕ) (e : RuntimeTaskError) (s : RunDb)
    → IsConsistent s
    → Ends Kept (complete_attempt_failure now sample task_id attempt_id e s)
unfolding complete_attempt_failure
complete_attempt_failure-IsConsistent now sample task_id attempt_id e s c =
    elim (Option-cases (find_attempt attempt_id s.attempts)) [
      | inl f ↦ rw f c
      | inr (a, f) ↦ rw f (elim (Option-cases (find_task task_id s.tasks)) [
        | inl g ↦ rw g c
        | inr (t, g) ↦ rw g (elim (Bool-cases (contains attempt_terminal_statuses a.status)) [
          | inl h ↦ rw h c
          | inr h ↦ rw h (
              fail_attempt-IsConsistent now sample e (failed_attempt now e a) t s
                (found-Delivered s task_id t c g) c)
        ])
      ])
    ]

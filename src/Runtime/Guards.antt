-- ===== src/Runtime/Guards.antt =====
-- backend/app/runtime/service.py: when a task may start and when it may not be retried.
use reviewlens_ai.Prelude.{
  ℕ, ◌<◌, Bool, true, false, ◌||◌, ◌≡◌, refl, Option, none, some, List, [], ◌∷◌, contains,
  Bool-cases, inl, inr, ◌==◌, if◌then◌else◌, leb, ltb, arith,
}
use reviewlens_ai.Contracts.Status.{
  TaskStatus, RunStatus, task_status_eq, run_status_eq, task_terminal_statuses,
  run_terminal_statuses, AttemptStatus, attempt_status_eq, task_transition_allowed,
  run_transition_allowed,
}
use reviewlens_ai.Runtime.Result.{Result, ok, raise, invalid_state_transition, ◌>>=◌}
use reviewlens_ai.Runtime.State.{
  TaskRun, TaskAttempt, RunDb, task_started, task_failed, save_task, set_task_status,
  set_run_status,
}
use reviewlens_ai.Runtime.Progress.{append_progress}
use reviewlens_ai.Runtime.Attempts.{
  Reply, started, latest_attempt, timed_out, budget_exceeded, cancelled, already_running,
  stale_running,
}
use reviewlens_ai.Runtime.Dependents.{unblock_dependents}
use reviewlens_ai.Runtime.Finalize.{finalize_run, not_started, failures}
use reviewlens_ai.Runtime.Claim.{
  Delivery, claim_cancelled, claim_ended, start_run, claim_start, claim_queued, claim_task,
  claimed_task, new_attempt, is_stale, budget_exhausted, exhausted_budget, running_reply,
}
use reviewlens_ai.Runtime.RetryTask.{retry_task, reopen_run}
use reviewlens_ai.Runtime.Ends.{Ends, Ends-bind, Ends-set_task_status}

-- What must hold for an attempt to start.
pub record MayStart (d : Delivery) (t : TaskRun) (s : RunDb) : Type 0 where
  pub queued : (t.status == TaskStatus.queued) ≡ true
  pub not_cancelling :
      contains (RunStatus.cancelling ∷ RunStatus.cancelled ∷ []) s.run.status ≡ false
  pub not_waiting : (s.run.status == RunStatus.waiting_for_input) ≡ false
  pub not_stale : is_stale d.expected_attempt_number t ≡ false
  pub within_budget : budget_exhausted s.budget ≡ false
  pub before_deadline : d.now < t.deadline_at
  pub before_run_deadline : d.now < s.run.deadline_at

abbrev pub Guarded : Type 0 → Reply × RunDb → Type 0
Guarded P r = elim r.0 [ started i ↦ P | _ ↦ Unit ]

module _ (P : Type 0) where
  finalize-Guarded :
      (now : ℕ) (r : Reply) (s : RunDb)
      → ((s' : RunDb) → Guarded P (r, s'))
      → Ends (Guarded P) (finalize_run now s >>= λ s'. ok (r, s'))
  finalize-Guarded now r s h =
      Ends-bind (λ x. Unit) (Guarded P) (finalize_run now s) (λ s'. ok (r, s'))
        (go (finalize_run now s)) (λ s' u. h s')
    where
      go : (m : Result RunDb) → Ends (λ x. Unit {0}) m
      go (ok s') = tt
      go (raise e) = tt

  unblock-Guarded :
      (now up : ℕ) (r : Reply) (s : RunDb)
      → ((s' : RunDb) → Guarded P (r, s'))
      → Ends
          (Guarded P)
          (unblock_dependents now up s >>= λ s2. finalize_run now s2 >>= λ s3. ok (r, s3))
  unblock-Guarded now up r s h =
      Ends-bind (λ x. Unit) (Guarded P) (unblock_dependents now up s)
        (λ s2. finalize_run now s2 >>= λ s3. ok (r, s3)) (go (unblock_dependents now up s))
        (λ s2 u. finalize-Guarded now r s2 h)
    where
      go : (m : Result RunDb) → Ends (λ x. Unit {0}) m
      go (ok s') = tt
      go (raise e) = tt

  claim_cancelled-Guarded :
      (d : Delivery) (t : TaskRun) (s : RunDb) → Ends (Guarded P) (claim_cancelled d t s)
  unfolding claim_cancelled
  claim_cancelled-Guarded d t s = elim (Bool-cases (contains not_started t.status)) [
    | inl a ↦
        rw (Ends, a)
          (Ends-set_task_status (Guarded P) t TaskStatus.cancelled _ (
            finalize-Guarded d.now cancelled
              (save_task (record t { status = TaskStatus.cancelled; completed_at = some d.now }) s)
              (λ s'. tt)))
    | inr a ↦ rw (Ends, a) tt
  ]

  claim_ended-Guarded :
      (r : Reply) (st : TaskStatus) (d : Delivery) (t : TaskRun) (s : RunDb)
      → ((s' : RunDb) → Guarded P (r, s'))
      → Ends (Guarded P) (claim_ended r st d t s)
  unfolding claim_ended
  claim_ended-Guarded r st d t s h = Ends-set_task_status (Guarded P) t st _ (
      unblock-Guarded d.now t.id r
        (append_progress d.now task_failed (some t.id)
          (save_task (record t { status = st; completed_at = some d.now }) s))
        h)

  claim_start-Guarded :
      (d : Delivery) (t : TaskRun) (s : RunDb) → P → Ends (Guarded P) (claim_start d t s)
  unfolding claim_start
  claim_start-Guarded d t s p =
      Ends-set_task_status (Guarded P) (claimed_task d s t) TaskStatus.running _ (
        Ends-bind (λ x. Unit) (Guarded P) (start_run d.now s0)
          (λ s1. ok (started d.attempt_id, append_progress d.now task_started (some t.id) s1))
          (go (start_run d.now s0)) (λ s1 u. p))
    where
      s0 : RunDb
      s0 =
          save_task (record (claimed_task d s t) { status = TaskStatus.running })
            (record s { attempts = new_attempt d t (latest_attempt t.id s) ∷ s.attempts })

      go : (m : Result RunDb) → Ends (λ x. Unit {0}) m
      go (ok s') = tt
      go (raise e) = tt

running-Guarded :
    (P : Type 0) (now : ℕ) (o : Option TaskAttempt) (s : RunDb) → Guarded P (running_reply now o, s)
unfolding running_reply
running-Guarded P now none s = tt
running-Guarded P now (some a) s = elim (Bool-cases (a.status == AttemptStatus.running)) [
  | inr e ↦ rw (Guarded, e) tt
  | inl e ↦ rw (Guarded, e) (go a.lease_expires_at)
]
  where
    leased :
        (b : Bool) → Guarded P ((if b then already_running a.attempt_number else stale_running), s)
    leased true = tt
    leased false = tt

    go :
        (l : Option ℕ)
        → Guarded P (
          elim l [
            | none ↦ stale_running
            | some lease ↦ if ltb now lease then already_running a.attempt_number else stale_running
          ],
          s,
        )
    go none = tt
    go (some lease) = leased (ltb now lease)

claim_queued-Guarded :
    (P : Type 0) (d : Delivery) (t : TaskRun) (s : RunDb)
    → (is_stale d.expected_attempt_number t ≡ false
        → budget_exhausted s.budget ≡ false
        → (leb t.deadline_at d.now || leb s.run.deadline_at d.now) ≡ false
        → P)
    → Ends (Guarded P) (claim_queued d t s)
unfolding claim_queued
claim_queued-Guarded P d t s p = elim (Bool-cases (is_stale d.expected_attempt_number t)) [
  | inl a ↦ rw (Ends, a) tt
  | inr a ↦
      rw (Ends, a)
        (elim (Bool-cases (budget_exhausted s.budget)) [
          | inl b ↦
              rw (Ends, b)
                (claim_ended-Guarded P budget_exceeded TaskStatus.failed d t
                  (record s { budget = exhausted_budget s.budget }) (λ s'. tt))
          | inr b ↦
              rw (Ends, b)
                (elim (Bool-cases (leb t.deadline_at d.now || leb s.run.deadline_at d.now)) [
                  | inl e ↦
                      rw (Ends, e)
                        (claim_ended-Guarded P timed_out TaskStatus.timed_out d t s (λ s'. tt))
                  | inr e ↦ rw (Ends, e) (claim_start-Guarded P d t s (p a b e))
                ])
        ])
]

-- A claim that starts an attempt does so for a queued task, for the delivery of its next attempt, in
-- a run that is not being cancelled, cancelled or waiting for an answer, within the run's token and
-- cost budget, and before the deadlines of the task and of the run.
pub claim_task-MayStart :
    (d : Delivery) (t : TaskRun) (s : RunDb)
    → Ends (Guarded (MayStart d t s)) (claim_task d (some t) s)
unfolding claim_task
claim_task-MayStart d t s = elim (Bool-cases (contains task_terminal_statuses t.status)) [
  | inl a1 ↦ rw (Ends, a1) tt
  | inr a1 ↦
      rw (Ends, a1)
        (elim (Bool-cases
          (contains (RunStatus.cancelling ∷ RunStatus.cancelled ∷ []) s.run.status)) [
            | inl a2 ↦ rw (Ends, a2) (claim_cancelled-Guarded (MayStart d t s) d t s)
            | inr a2 ↦
                rw (Ends, a2)
                  (elim (Bool-cases (s.run.status == RunStatus.waiting_for_input)) [
                    | inl a3 ↦ rw (Ends, a3) tt
                    | inr a3 ↦
                        rw (Ends, a3)
                          (elim (Bool-cases (t.status == TaskStatus.cancelling)) [
                            | inl a4 ↦ rw (Ends, a4) tt
                            | inr a4 ↦
                                rw (Ends, a4)
                                  (elim (Bool-cases (t.status == TaskStatus.running)) [
                                    | inl a5 ↦
                                        rw (Ends, a5)
                                          (running-Guarded (MayStart d t s) d.now
                                            (latest_attempt t.id s) s)
                                    | inr a5 ↦
                                        rw (Ends, a5)
                                          (elim (Bool-cases (t.status == TaskStatus.queued)) [
                                            | inr a6 ↦ rw (Ends, a6) tt
                                            | inl a6 ↦
                                                rw (Ends, a6)
                                                  (claim_queued-Guarded (MayStart d t s) d t s
                                                    (λ stale over late. record {
                                                      queued = a6;
                                                      not_cancelling = a2;
                                                      not_waiting = a3;
                                                      not_stale = stale;
                                                      within_budget = over;
                                                      before_deadline = ground (arith, late);
                                                      before_run_deadline = ground (arith, late);
                                                    }))
                                          ])
                                  ])
                          ])
                  ])
          ])
]

retryable-requeues :
    (st : TaskStatus)
    → contains failures st ≡ true
    → task_transition_allowed st TaskStatus.queued ≡ true
unfolding task_transition_allowed
retryable-requeues TaskStatus.failed h = refl
retryable-requeues TaskStatus.timed_out h = refl
retryable-requeues _ h = cc

abbrev finished : List RunStatus
finished = RunStatus.complete ∷ RunStatus.partial ∷ []

finished-stays :
    (st : RunStatus)
    → contains finished st ≡ true
    → (contains (RunStatus.cancelling ∷ RunStatus.cancelled ∷ []) st ≡ false)
      × (contains run_terminal_statuses st ≡ true)
      × (run_transition_allowed st RunStatus.running ≡ false)
unfolding run_transition_allowed
finished-stays RunStatus.complete h = (refl, refl, refl)
finished-stays RunStatus.partial h = (refl, refl, refl)
finished-stays _ h = absurd cc

-- A failed or timed-out task of a run that has ended complete or partial cannot be retried: before the
-- run's deadline `retry_task` raises InvalidStateTransition, for RUN_TRANSITIONS has no way back from
-- such a run.
pub retry_task-finished :
    (now : ℕ) (t : TaskRun) (s : RunDb)
    → contains failures t.status ≡ true
    → contains finished s.run.status ≡ true
    → now < s.run.deadline_at
    → retry_task now t s ≡ raise invalid_state_transition
unfolding retry_task reopen_run set_task_status set_run_status
retry_task-finished now t s f r d =
    let (a, b, c) = finished-stays s.run.status r in
    let open_deadline : leb s.run.deadline_at now ≡ false = ground arith in
    rw (a, f, open_deadline, retryable-requeues t.status f, b, c) refl

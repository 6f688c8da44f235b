-- ===== src/Runtime/Stops.antt =====
-- backend/app/runtime/service.py: `request_cancellation` returns, and stops every task of the run.
use reviewlens_ai.Prelude.{
  ℕ, true, false, ◌≡◌, refl, sym, subst, ◌⊎◌, inl, inr, Option, none, some, List, [], ◌∷◌, All,
  Among, arith, Bool-cases, contains, ◌==◌, nat_eq, if◌then◌else◌, ap,
}
use reviewlens_ai.Contracts.Status.{
  TaskStatus, RunStatus, task_status_eq, run_status_eq, run_terminal_statuses,
  task_transition_allowed, run_transition_allowed,
}
use reviewlens_ai.Runtime.Result.{ok, ◌>>=◌, Returns}
use reviewlens_ai.Runtime.State.{
  TaskRun, TaskAttempt, RunDb, put_task, save_task, set_task_status, set_run_status,
}
use reviewlens_ai.Runtime.Progress.{append_progress, queue_task_revoke}
use reviewlens_ai.Runtime.Attempts.{latest_running}
use reviewlens_ai.Runtime.Finalize.{
  in_flight, not_started, some_task, cancel_not_started, finalize_cancelling, finalize_run,
}
use reviewlens_ai.Runtime.Cancel.{
  not_running, revoke_latest, cancel_task, cancel_tasks, begin_cancelling, cancel_clarification,
  request_cancellation,
}
use reviewlens_ai.Runtime.Ends.{Returns-bind}

-- The task will not be started or go on: it has ended, or its worker is being stopped.
abbrev pub Stopped : TaskRun → Type 0
Stopped t =
    contains
      (TaskStatus.blocked ∷ TaskStatus.queued ∷ TaskStatus.waiting_for_input ∷ TaskStatus.running
        ∷ [])
      t.status
    ≡ false

-- The row is stopped, or the loop has still to come to it.
abbrev Left : List TaskRun → TaskRun → Type 0
Left ts r = Stopped r ⊎ Among r ts

Left-All : (xs ys : List TaskRun) → ((r : TaskRun) → Among r xs → Among r ys) → All (Left ys) xs
Left-All [] ys h = tt
Left-All (x ∷ xs) ys h = (inr (h x (inl refl)), Left-All xs ys (λ r m. h r (inr m)))

Left-none : (rs : List TaskRun) → All (Left []) rs → All Stopped rs
Left-none [] h = tt
Left-none (r ∷ rs) (inl s, h) = (s, Left-none rs h)
Left-none (r ∷ rs) (inr m, h) = absurd m

Left-skip :
    (t : TaskRun) (ts rs : List TaskRun) → Stopped t → All (Left (t ∷ ts)) rs → All (Left ts) rs
Left-skip t ts [] s h = tt
Left-skip t ts (r ∷ rs) s (inl a, h) = (inl a, Left-skip t ts rs s h)
Left-skip t ts (r ∷ rs) s (inr (inl e), h) = (inl (subst Stopped (sym e) s), Left-skip t ts rs s h)
Left-skip t ts (r ∷ rs) s (inr (inr m), h) = (inr m, Left-skip t ts rs s h)

Left-put :
    (t t' : TaskRun) (ts rs : List TaskRun)
    → t'.id ≡ t.id
    → Stopped t'
    → All (Left (t ∷ ts)) rs
    → All (Left ts) (put_task t' rs)
unfolding put_task
Left-put t t' ts [] i s h = tt
Left-put t t' ts (r ∷ rs) i s (a, h) = elim (Bool-cases (r.id == t'.id)) [
  | inl e ↦ rw e (inl s, Left-put t t' ts rs i s h)
  | inr e ↦ rw e (other e a, Left-put t t' ts rs i s h)
]
  where
    other : (r.id == t'.id) ≡ false → Left (t ∷ ts) r → Left ts r
    other e (inl b) = inl b
    other e (inr (inl q)) = absurd (ground (arith, e, ap (λ (x : TaskRun). x.id) q, i))
    other e (inr (inr m)) = inr m

-- What holds while the loop has still to come to `ts`.
pub record Stopping (ts : List TaskRun) (s : RunDb) : Type 0 where
  pub rows : All (Left ts) s.tasks
  pub cancelling : s.run.status ≡ RunStatus.cancelling

cancellable :
    (st : TaskStatus)
    → contains not_running st ≡ true
    → task_transition_allowed st TaskStatus.cancelled ≡ true
unfolding task_transition_allowed
cancellable TaskStatus.blocked h = refl
cancellable TaskStatus.queued h = refl
cancellable TaskStatus.waiting_for_input h = refl
cancellable _ h = cc

running_stops :
    (t : TaskRun)
    → (t.status == TaskStatus.running) ≡ true
    → set_task_status t TaskStatus.cancelling ≡ ok (record t { status = TaskStatus.cancelling })
unfolding set_task_status task_transition_allowed
running_stops t b = rw ((task_status_eq.equal_iff t.status TaskStatus.running).0 b) refl

revoke_latest-Stopping :
    (now : ℕ) (t : TaskRun) (o : Option TaskAttempt) (ts : List TaskRun) (s : RunDb)
    → Stopping ts s
    → Stopping ts (revoke_latest now t o s)
unfolding queue_task_revoke
revoke_latest-Stopping now t none ts s h = h
revoke_latest-Stopping now t (some a) ts s h = record {
  rows = ground (arith, h.rows);
  cancelling = ground (arith, h.cancelling);
}

cancel_task-Stopping :
    (now : ℕ) (t : TaskRun) (ts : List TaskRun) (s : RunDb)
    → Stopping (t ∷ ts) s
    → Returns (Stopping ts) (cancel_task now t s)
unfolding cancel_task set_task_status
cancel_task-Stopping now t ts s h = elim (Bool-cases (contains not_running t.status)) [
  | inl a ↦
      rw (Returns, a, cancellable t.status a)
        (record {
          rows =
              Left-put t (record t { status = TaskStatus.cancelled; completed_at = some now }) ts
                s.tasks refl refl h.rows;
          cancelling = h.cancelling;
        })
  | inr a ↦
      rw (Returns, a)
        (elim (Bool-cases (t.status == TaskStatus.running)) [
          | inl b ↦
              rw (Returns, b, running_stops t b)
                (revoke_latest-Stopping now (record t { status = TaskStatus.cancelling })
                  (latest_running t.id s) ts
                  (save_task (record t { status = TaskStatus.cancelling }) s)
                  (record {
                    rows =
                        Left-put t (record t { status = TaskStatus.cancelling }) ts s.tasks refl
                          refl h.rows;
                    cancelling = h.cancelling;
                  }))
          | inr b ↦
              rw (Returns, b)
                (record {
                  rows = Left-skip t ts s.tasks (ground (arith, a, b)) h.rows;
                  cancelling = h.cancelling;
                })
        ])
]

cancel_tasks-Stopping :
    (now : ℕ) (ts : List TaskRun) (s : RunDb)
    → Stopping ts s
    → Returns (Stopping []) (cancel_tasks now ts s)
unfolding cancel_tasks
cancel_tasks-Stopping now [] s h = h
cancel_tasks-Stopping now (t ∷ ts) s h =
    Returns-bind (Stopping ts) (Stopping []) (cancel_task now t s) (cancel_tasks now ts)
      (cancel_task-Stopping now t ts s h) (λ s' h'. cancel_tasks-Stopping now ts s' h')

abbrev Cancelling : RunDb → Type 0
Cancelling s = s.run.status ≡ RunStatus.cancelling

-- A run that has not ended can be cancelled.
open_run_cancels :
    (st : RunStatus)
    → contains run_terminal_statuses st ≡ false
    → (st == RunStatus.cancelling) ≡ false
    → run_transition_allowed st RunStatus.cancelling ≡ true
unfolding run_transition_allowed
open_run_cancels RunStatus.queued h k = refl
open_run_cancels RunStatus.running h k = refl
open_run_cancels RunStatus.waiting_for_input h k = refl
open_run_cancels _ h k = cc

begin_cancelling-Cancelling :
    (now : ℕ) (s : RunDb)
    → contains run_terminal_statuses s.run.status ≡ false
    → Returns Cancelling (begin_cancelling now s)
unfolding begin_cancelling set_run_status append_progress
begin_cancelling-Cancelling now s h = elim (Bool-cases (s.run.status == RunStatus.cancelling)) [
  | inl a ↦ rw (Returns, a) ((run_status_eq.equal_iff s.run.status RunStatus.cancelling).0 a)
  | inr a ↦ rw (Returns, a, open_run_cancels s.run.status h a) refl
]

-- How the run stands once its cancellation was asked for: no task will be started or go on, and the
-- run is cancelled unless a worker is still being stopped.
abbrev pub run_status_after : RunDb → RunStatus
run_status_after s =
    if some_task in_flight s.tasks then RunStatus.cancelling else RunStatus.cancelled

pub record IsStopped (s : RunDb) : Type 0 where
  pub tasks : All Stopped s.tasks
  pub status : s.run.status ≡ run_status_after s

not_started-none :
    (now : ℕ) (ts : List TaskRun) (s : RunDb) → All Stopped ts → cancel_not_started now ts s ≡ ok s
unfolding cancel_not_started
not_started-none now [] s h = refl
not_started-none now (t ∷ ts) s (a, h) =
    let started : contains not_started t.status ≡ false = ground (arith, a) in
    rw started (not_started-none now ts s h)

finalize_run-Cancelling :
    (now : ℕ) (s : RunDb) → Cancelling s → finalize_run now s ≡ finalize_cancelling now s
unfolding finalize_run
finalize_run-Cancelling now s h =
    let asked : (s.run.status == RunStatus.cancelling) ≡ true =
      (run_status_eq.equal_iff s.run.status RunStatus.cancelling).1 h in
    rw asked refl

Cancelling-ends :
    (s : RunDb)
    → Cancelling s
    → set_run_status RunStatus.cancelled s
      ≡ ok (record s { run = record s.run { status = RunStatus.cancelled } })
unfolding set_run_status run_transition_allowed
Cancelling-ends s h = rw h refl

finalize_cancelling-IsStopped :
    (now : ℕ) (s : RunDb)
    → Cancelling s
    → All Stopped s.tasks
    → Returns IsStopped (finalize_cancelling now s)
unfolding finalize_cancelling
finalize_cancelling-IsStopped now s c h = elim (Bool-cases (some_task in_flight s.tasks)) [
  | inl a ↦ rw (Returns, a) (record { tasks = h; status = rw a c })
  | inr a ↦
      rw (Returns, a, not_started-none now s.tasks s h, Cancelling-ends s c)
        (record { tasks = h; status = rw a refl })
]

finalize_run-IsStopped :
    (now : ℕ) (s : RunDb) → Stopping [] s → Returns IsStopped (finalize_run now s)
finalize_run-IsStopped now s h =
    subst (Returns IsStopped) (sym (finalize_run-Cancelling now s h.cancelling))
      (finalize_cancelling-IsStopped now s h.cancelling (Left-none s.tasks h.rows))

-- A request to cancel a run that has not ended returns, whatever its rows are. After it no task is
-- blocked, queued, waiting for input or running, and the run is cancelled, or cancelling while a
-- worker is still being stopped.
pub request_cancellation-IsStopped :
    (now : ℕ) (s : RunDb)
    → contains run_terminal_statuses s.run.status ≡ false
    → Returns IsStopped (request_cancellation now s)
unfolding request_cancellation
request_cancellation-IsStopped now s h =
    rw (Returns, h)
      (Returns-bind Cancelling IsStopped (begin_cancelling now s)
        (λ s1. cancel_tasks now s1.tasks (cancel_clarification s1) >>= finalize_run now)
        (begin_cancelling-Cancelling now s h)
        (λ s1 c.
          Returns-bind (Stopping []) IsStopped (cancel_tasks now s1.tasks (cancel_clarification s1))
            (finalize_run now)
            (cancel_tasks-Stopping now s1.tasks (cancel_clarification s1)
              (record { rows = Left-All s1.tasks s1.tasks (λ r m. m); cancelling = c }))
            (λ s2 k. finalize_run-IsStopped now s2 k)))

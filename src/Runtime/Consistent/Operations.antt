-- ===== src/Runtime/Consistent/Operations.antt =====
-- Every operation of the runtime that returns keeps the outbox and the events consistent.
use reviewlens_ai.Prelude.{
  ℕ, zero, suc, not, ◌&&◌, Option, none, some, List, [], ◌∷◌, contains, Bool-cases, inl, inr, ◌==◌,
  if◌then◌else◌, length,
}
use reviewlens_ai.Contracts.Status.{TaskStatus, RunStatus, task_status_eq, run_status_eq}
use reviewlens_ai.Runtime.Result.{Result}
use reviewlens_ai.Runtime.State.{TaskRun, Report, RunDb, EventType, find_task}
use reviewlens_ai.Runtime.Progress.{append_progress, close_budget}
use reviewlens_ai.Runtime.Ends.{Ends, Ends-bind, Ends-if, Ends-set_task_status, Ends-set_run_status}
use reviewlens_ai.Runtime.Consistent.{
  IsConsistent, append_progress-IsConsistent, save_task-IsConsistent, requeue-IsConsistent,
}
use reviewlens_ai.Runtime.Finalize.{
  cancel_not_started, finalize_cancelling, finalize_published, finalize_succeeded, finalize_failed,
  announce_end, finalize_run, not_started, in_flight, some_task, active_statuses, failures,
  all_succeeded, is_published,
}
use reviewlens_ai.Runtime.Dependents.{
  Verdict, release, skip, wait, settle, visit, visit_all, evaluate_dependents, unblock_dependents,
  downstream_ids, verdict, upstream_rows,
}

pub close_budget-IsConsistent : (s : RunDb) → IsConsistent s → IsConsistent (close_budget s)
unfolding close_budget
close_budget-IsConsistent s c = record { rows = c.rows }

announce_end-IsConsistent :
    (now : ℕ) (type : EventType) (s : RunDb)
    → IsConsistent s
    → IsConsistent (announce_end now type s)
unfolding announce_end
announce_end-IsConsistent now type s c =
    close_budget-IsConsistent (append_progress now type none s)
      (append_progress-IsConsistent now type none s c)

cancel_not_started-IsConsistent :
    (now : ℕ) (ts : List TaskRun) (s : RunDb)
    → IsConsistent s
    → Ends IsConsistent (cancel_not_started now ts s)
unfolding cancel_not_started
cancel_not_started-IsConsistent now [] s c = c
cancel_not_started-IsConsistent now (t ∷ ts) s c =
    Ends-if IsConsistent (contains not_started t.status) _ _
      (λ e.
        Ends-set_task_status IsConsistent t TaskStatus.cancelled _
          (cancel_not_started-IsConsistent now ts _ (save_task-IsConsistent _ s (λ q. cc) c)))
      (λ e. cancel_not_started-IsConsistent now ts s c)

finalize_cancelling-IsConsistent :
    (now : ℕ) (s : RunDb) → IsConsistent s → Ends IsConsistent (finalize_cancelling now s)
unfolding finalize_cancelling
finalize_cancelling-IsConsistent now s c =
    Ends-if IsConsistent (some_task in_flight s.tasks) _ _ (λ e. c)
      (λ e.
        Ends-bind IsConsistent IsConsistent (cancel_not_started now s.tasks s) _
          (cancel_not_started-IsConsistent now s.tasks s c)
          (λ s1 c1.
            Ends-set_run_status IsConsistent RunStatus.cancelled s1 _
              (announce_end-IsConsistent now _ _ (record { rows = c1.rows }))))

finalize_published-IsConsistent :
    (now : ℕ) (r : Option Report) (s : RunDb)
    → IsConsistent s
    → Ends IsConsistent (finalize_published now r s)
unfolding finalize_published
finalize_published-IsConsistent now none s c = c
finalize_published-IsConsistent now (some r) s c =
    Ends-set_run_status IsConsistent (if r.partial then RunStatus.partial else RunStatus.complete) s
      _ (announce_end-IsConsistent now _ _ (record { rows = c.rows }))

finalize_succeeded-IsConsistent :
    (now : ℕ) (s : RunDb) → IsConsistent s → Ends IsConsistent (finalize_succeeded now s)
unfolding finalize_succeeded
finalize_succeeded-IsConsistent now s c =
    Ends-set_run_status IsConsistent RunStatus.complete s _
      (announce_end-IsConsistent now _ _ (record { rows = c.rows }))

finalize_failed-IsConsistent :
    (now : ℕ) (s : RunDb) → IsConsistent s → Ends IsConsistent (finalize_failed now s)
unfolding finalize_failed
finalize_failed-IsConsistent now s c =
    elim (Bool-cases (contains (RunStatus.queued ∷ RunStatus.running ∷ []) s.run.status)) [
      | inl e ↦ rw e (
          Ends-set_run_status IsConsistent RunStatus.failed s _
            (announce_end-IsConsistent now _ _ (record { rows = c.rows })))
      | inr e ↦ rw e (announce_end-IsConsistent now _ _ (record { rows = c.rows }))
    ]

pub finalize_run-IsConsistent :
    (now : ℕ) (s : RunDb) → IsConsistent s → Ends IsConsistent (finalize_run now s)
unfolding finalize_run
finalize_run-IsConsistent now s c = elim (Bool-cases (s.run.status == RunStatus.cancelling)) [
  | inl a ↦ rw a (finalize_cancelling-IsConsistent now s c)
  | inr a ↦ rw a (elim (Bool-cases (s.run.status == RunStatus.waiting_for_input)) [
    | inl b ↦ rw b c
    | inr b ↦
        rw b (elim (Bool-cases (not (some_task active_statuses s.tasks) && is_published s.report)) [
          | inl d ↦ rw d (finalize_published-IsConsistent now s.report s c)
          | inr d ↦ rw d (elim (Bool-cases (all_succeeded s.tasks)) [
            | inl f ↦ rw f (finalize_succeeded-IsConsistent now s c)
            | inr f ↦
                rw f
                  (elim (Bool-cases
                    (not (some_task active_statuses s.tasks) && some_task failures s.tasks)) [
                      | inl g ↦ rw g (finalize_failed-IsConsistent now s c)
                      | inr g ↦ rw g c
                    ])
          ])
        ])
  ])
]

settle-IsConsistent :
    (again : ℕ → RunDb → Result RunDb)
    → ((i : ℕ) (s : RunDb) → IsConsistent s → Ends IsConsistent (again i s))
    → (now : ℕ) (v : Verdict) (t : TaskRun) (s : RunDb) → IsConsistent s
    → Ends IsConsistent (settle again now v t s)
unfolding settle
settle-IsConsistent again ih now release t s c =
    Ends-set_task_status IsConsistent t TaskStatus.queued _ (requeue-IsConsistent now _ s c)
settle-IsConsistent again ih now skip t s c =
    Ends-set_task_status IsConsistent t TaskStatus.skipped _
      (ih t.id _ (save_task-IsConsistent _ s (λ q. cc) c))
settle-IsConsistent again ih now wait t s c = c

visit-IsConsistent :
    (again : ℕ → RunDb → Result RunDb)
    → ((i : ℕ) (s : RunDb) → IsConsistent s → Ends IsConsistent (again i s))
    → (now : ℕ) (o : Option TaskRun) (s : RunDb) → IsConsistent s
    → Ends IsConsistent (visit again now o s)
unfolding visit
visit-IsConsistent again ih now none s c = c
visit-IsConsistent again ih now (some t) s c =
    Ends-if IsConsistent (t.status == TaskStatus.blocked) _ _
      (λ e.
        settle-IsConsistent again ih now (verdict t (upstream_rows t.id s.dependencies s.tasks)) t s
          c)
      (λ e. c)

visit_all-IsConsistent :
    (again : ℕ → RunDb → Result RunDb)
    → ((i : ℕ) (s : RunDb) → IsConsistent s → Ends IsConsistent (again i s))
    → (now : ℕ) (is : List ℕ) (s : RunDb) → IsConsistent s
    → Ends IsConsistent (visit_all again now is s)
unfolding visit_all
visit_all-IsConsistent again ih now [] s c = c
visit_all-IsConsistent again ih now (i ∷ is) s c =
    Ends-bind IsConsistent IsConsistent (visit again now (find_task i s.tasks) s)
      (visit_all again now is) (visit-IsConsistent again ih now (find_task i s.tasks) s c)
      (λ s' c'. visit_all-IsConsistent again ih now is s' c')

evaluate-IsConsistent :
    (fuel now up : ℕ) (s : RunDb)
    → IsConsistent s
    → Ends IsConsistent (evaluate_dependents fuel now up s)
unfolding evaluate_dependents
evaluate-IsConsistent zero now up s c = tt
evaluate-IsConsistent (suc fuel) now up s c =
    visit_all-IsConsistent (evaluate_dependents fuel now)
      (λ i s' c'. evaluate-IsConsistent fuel now i s' c') now (downstream_ids up s.dependencies) s c

pub unblock_dependents-IsConsistent :
    (now up : ℕ) (s : RunDb) → IsConsistent s → Ends IsConsistent (unblock_dependents now up s)
unfolding unblock_dependents
unblock_dependents-IsConsistent now up s c = evaluate-IsConsistent (suc (length s.tasks)) now up s c

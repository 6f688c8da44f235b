-- ===== src/Runtime/Consistent/Answers.antt =====
-- backend/app/runtime/clarification.py: the answer to a question keeps the outbox and the events
-- consistent.
use reviewlens_ai.Prelude.{
  ℕ, String, Bool, true, false, not, ◌&&◌, Option, none, some, Bool-cases, Option-cases, inl, inr,
  ◌==◌, string_eq, if◌then◌else◌,
}
use reviewlens_ai.Contracts.Status.{TaskStatus, RunStatus, run_status_eq, task_status_eq}
use reviewlens_ai.Runtime.Result.{http_error, ok, raise, ◌>>=◌, ◌>>◌, guard}
use reviewlens_ai.Runtime.State.{
  TaskRun, RunDb, ProductClarification, ClarificationStatus, answered, run_input_received,
  find_task, save_task, set_task_status, set_run_status,
}
use reviewlens_ai.Runtime.Progress.{append_progress}
use reviewlens_ai.Runtime.Clarification.{
  Answered, accepted, too_late, find_choice, awaited, is_pending, is_paused, same_answer,
  accept_choice, answer_open, answer_product, expire_pending,
}
use reviewlens_ai.Runtime.Recover.{kept_or}
use reviewlens_ai.Runtime.Dependents.{unblock_dependents}
use reviewlens_ai.Runtime.Ends.{Ends, Ends-bind, Ends-set_task_status, Ends-set_run_status}
use reviewlens_ai.Runtime.Consistent.{
  IsConsistent, append_progress-IsConsistent, save_task-IsConsistent,
}
use reviewlens_ai.Runtime.Consistent.Operations.{unblock_dependents-IsConsistent}
use reviewlens_ai.Runtime.Consistent.Recovery.{expire_pending-IsConsistent}

abbrev pub AnswerKept : Answered → Type 0
AnswerKept (accepted s) = IsConsistent s
AnswerKept (too_late s) = IsConsistent s

accepted_and :
    (now up : ℕ) (s : RunDb)
    → IsConsistent s
    → Ends AnswerKept (unblock_dependents now up s >>= λ s3. ok (accepted s3))
accepted_and now up s c =
    Ends-bind IsConsistent AnswerKept (unblock_dependents now up s) (λ s3. ok (accepted s3))
      (unblock_dependents-IsConsistent now up s c) (λ s3 c3. c3)

resumed :
    (now : ℕ) (t : TaskRun) (s : RunDb)
    → IsConsistent s
    → Ends AnswerKept (
        set_run_status RunStatus.running s >>= λ s1.
        set_task_status t TaskStatus.succeeded >>= λ t'.
        unblock_dependents now t.id (
          append_progress now run_input_received
            (some t.id)
            (save_task (record t' { completed_at = some now }) s1))
        >>= λ s3. ok (accepted s3))
resumed now t s c = Ends-set_run_status AnswerKept RunStatus.running s _ (
    Ends-set_task_status AnswerKept t TaskStatus.succeeded _ (
      accepted_and now t.id _ (
        append_progress-IsConsistent now run_input_received (some t.id) _ (
          save_task-IsConsistent
            (record t { status = TaskStatus.succeeded; completed_at = some now }) _ (λ q. cc)
            (record { rows = c.rows })))))

accept_choice-IsConsistent :
    (now : ℕ) (q : ProductClarification) (i : String) (s : RunDb)
    → IsConsistent s
    → Ends AnswerKept (accept_choice now q i s)
unfolding accept_choice
accept_choice-IsConsistent now q i s c = elim (Option-cases (find_choice i q.choices)) [
  | inl e ↦ rw (Ends, e) tt
  | inr (x, e) ↦
      rw (Ends, e)
        (elim (Option-cases (awaited (find_task q.task_run_id s.tasks))) [
          | inl f ↦ rw (Ends, f) tt
          | inr (t, f) ↦ rw (Ends, f) (resumed now t _ (record { rows = c.rows }))
        ])
]

answer_open-IsConsistent :
    (now : ℕ) (k : Option Bool) (q : ProductClarification) (i : String) (s : RunDb)
    → IsConsistent s
    → Ends AnswerKept (answer_open now k q i s)
unfolding answer_open
answer_open-IsConsistent now k q i s c =
    elim (Bool-cases (s.run.status == RunStatus.waiting_for_input && is_pending q.status)) [
      | inr e ↦ rw (Ends, e) tt
      | inl e ↦
          rw (Ends, e)
            (Ends-bind (λ o. IsConsistent (kept_or s o)) AnswerKept (expire_pending now s) _
              (expire_pending-IsConsistent now s c) go)
    ]
  where
    go :
        (o : Option RunDb)
        → IsConsistent (kept_or s o)
        → Ends AnswerKept (elim o [
          | some s' ↦ ok (too_late s')
          | none ↦
              guard (not (is_paused k)) (http_error 503 "analysis_paused")
              >> accept_choice now q i s
        ])
    go (some s') h = h
    go none h = elim (Bool-cases (is_paused k)) [
      | inl f ↦ rw (Ends, f) tt
      | inr f ↦ rw (Ends, f) (accept_choice-IsConsistent now q i s c)
    ]

-- An answer that is accepted, or that comes too late, leaves the outbox and the events consistent.
pub answer_product-IsConsistent :
    (now : ℕ) (k : Option Bool) (o : Option ProductClarification) (i : String) (s : RunDb)
    → IsConsistent s
    → Ends AnswerKept (answer_product now k o i s)
unfolding answer_product
answer_product-IsConsistent now k none i s c = tt
answer_product-IsConsistent now k (some q) i s c = go q.status
  where
    open_ends : Ends AnswerKept (answer_open now k q i s)
    open_ends = answer_open-IsConsistent now k q i s c

    repeated :
        (b : Bool)
        → Ends AnswerKept
            (if b then ok (accepted s) else raise (http_error 409 "clarification_conflict"))
    repeated true = c
    repeated false = tt

    go :
        (st : ClarificationStatus)
        → Ends AnswerKept (elim st [
          | answered ↦
              if same_answer q.answer i
              then ok (accepted s)
              else raise (http_error 409 "clarification_conflict")
          | _ ↦ answer_open now k q i s
        ])
    go answered = repeated (same_answer q.answer i)
    go _ = open_ends

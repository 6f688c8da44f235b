-- ===== src/Runtime/History/Keeps.antt =====
-- What the transactions of backend/app/runtime/service.py and clarification.py keep in any order.
use reviewlens_ai.Prelude.{ℕ, Option-cases, inl, inr, ◌==◌, Bool-cases}
use reviewlens_ai.Contracts.Status.{AttemptStatus, attempt_status_eq}
use reviewlens_ai.Runtime.State.{RunDb, find_task, find_attempt}
use reviewlens_ai.Runtime.Attempts.{heartbeat_attempt}
use reviewlens_ai.Runtime.Clarification.{Answered, accepted, too_late}
use reviewlens_ai.Runtime.Ends.{ended_with}
use reviewlens_ai.Runtime.Consistent.{IsConsistent}
use reviewlens_ai.Runtime.Consistent.Answers.{AnswerKept, answer_product-IsConsistent}
use reviewlens_ai.Runtime.Consistent.Cancellation.{request_cancellation-IsConsistent}
use reviewlens_ai.Runtime.Consistent.Claims.{Kept, claim_task-IsConsistent}
use reviewlens_ai.Runtime.Consistent.Completions.{
  complete_attempt_success-IsConsistent, complete_attempt_failure-IsConsistent,
}
use reviewlens_ai.Runtime.Consistent.Recovery.{
  recover_stale_attempts-IsConsistent, repair_unfinished_run-IsConsistent,
}
use reviewlens_ai.Runtime.Consistent.Retries.{retry_task-IsConsistent}
use reviewlens_ai.Runtime.History.{
  committed, Step, claimed, completed, failed, heartbeat, cancelled, retried, answered, recovered,
  repaired, Reaches, here, then,
}

heartbeat-IsConsistent :
    (lease now a : ℕ) (s : RunDb) → IsConsistent s → IsConsistent (heartbeat_attempt lease now a s)
unfolding heartbeat_attempt
heartbeat-IsConsistent lease now i s c = elim (Option-cases (find_attempt i s.attempts)) [
  | inl e ↦ rw (heartbeat_attempt, e) c
  | inr (a, e) ↦
      rw (heartbeat_attempt, e)
        (elim (Bool-cases (a.status == AttemptStatus.running)) [
          | inl f ↦ rw f (record { rows = c.rows })
          | inr f ↦ rw f c
        ])
]

committed-IsConsistent : (a : Answered) → AnswerKept a → IsConsistent (committed a)
committed-IsConsistent (accepted s) h = h
committed-IsConsistent (too_late s) h = h

Step-IsConsistent : (s s' : RunDb) → IsConsistent s → Step s s' → IsConsistent s'
Step-IsConsistent s _ c (claimed d i r s' e) =
    ended_with Kept _ (r, s') (claim_task-IsConsistent d (find_task i s.tasks) s c) e
Step-IsConsistent s _ c (completed now fresh i a o r s' e) =
    ended_with Kept _ (r, s') (complete_attempt_success-IsConsistent now fresh i a o s c) e
Step-IsConsistent s _ c (failed now sample i a x r s' e) =
    ended_with Kept _ (r, s') (complete_attempt_failure-IsConsistent now sample i a x s c) e
Step-IsConsistent s _ c (heartbeat lease now a) = heartbeat-IsConsistent lease now a s c
Step-IsConsistent s _ c (cancelled now s' e) =
    ended_with IsConsistent _ s' (request_cancellation-IsConsistent now s c) e
Step-IsConsistent s _ c (retried now i t s' f e) =
    ended_with IsConsistent _ s' (retry_task-IsConsistent now t s c) e
Step-IsConsistent s _ c (answered now k q i a e) =
    committed-IsConsistent a
      (ended_with AnswerKept _ a (answer_product-IsConsistent now k q i s c) e)
Step-IsConsistent s _ c (recovered now s' e) =
    ended_with IsConsistent _ s' (recover_stale_attempts-IsConsistent now s c) e
Step-IsConsistent s _ c (repaired now s' e) =
    ended_with IsConsistent _ s' (repair_unfinished_run-IsConsistent now s c) e

-- If a run's rows are consistent (every queued task has the dispatch of its next attempt in the
-- outbox, its events are numbered from 1 without a gap, each event has its own delivery, and no
-- idempotency key stands twice), so are the rows after any sequence of committed transactions.
pub Reaches-IsConsistent : (s s' : RunDb) → IsConsistent s → Reaches s s' → IsConsistent s'
Reaches-IsConsistent s _ c here = c
Reaches-IsConsistent s _ c (then s1 s2 r t) =
    Step-IsConsistent s1 s2 (Reaches-IsConsistent s s1 c r) t

-- ===== src/Runtime/History.antt =====
-- The histories of a run: sequences of the transactions of backend/app/runtime/service.py and
-- clarification.py that commit. One that raises is rolled back and is no step. `fail_active_attempt`
-- is a `failed` step of its attempt.
pub mod Keeps
use reviewlens_ai.Prelude.{ℕ, String, Bool, ◌≡◌, Option, some}
use reviewlens_ai.Runtime.Result.{Result, ok}
use reviewlens_ai.Runtime.State.{TaskRun, RunDb, ProductClarification, find_task}
use reviewlens_ai.Runtime.Attempts.{Reply, heartbeat_attempt}
use reviewlens_ai.Runtime.Claim.{Delivery, claim_task}
use reviewlens_ai.Runtime.Complete.{
  HandlerOutput, RuntimeTaskError, complete_attempt_success, complete_attempt_failure,
}
use reviewlens_ai.Runtime.Cancel.{request_cancellation}
use reviewlens_ai.Runtime.RetryTask.{retry_task}
use reviewlens_ai.Runtime.Clarification.{
  Answered, accepted, too_late, answer_product, expire_pending,
}
use reviewlens_ai.Runtime.Recover.{recover_stale_attempts, repair_unfinished_run}

abbrev pub committed : Answered → RunDb
committed (accepted s) = s
committed (too_late s) = s

pub data Step (s : RunDb) : RunDb → Type 0 where
  claimed :
      (d : Delivery) (i : ℕ) (r : Reply) (s' : RunDb)
      → claim_task d (find_task i s.tasks) s ≡ ok (r, s')
      → Step s s'
  completed :
      (now fresh i a : ℕ) (o : HandlerOutput) (r : Reply) (s' : RunDb)
      → complete_attempt_success now fresh i a o s ≡ ok (r, s')
      → Step s s'
  failed :
      (now sample i a : ℕ) (e : RuntimeTaskError) (r : Reply) (s' : RunDb)
      → complete_attempt_failure now sample i a e s ≡ ok (r, s')
      → Step s s'
  heartbeat : (lease_seconds now a : ℕ) → Step s (heartbeat_attempt lease_seconds now a s)
  cancelled : (now : ℕ) (s' : RunDb) → request_cancellation now s ≡ ok s' → Step s s'
  retried :
      (now i : ℕ) (t : TaskRun) (s' : RunDb)
      → find_task i s.tasks ≡ some t
      → retry_task now t s ≡ ok s'
      → Step s s'
  answered :
      (now : ℕ) (kill_switch : Option Bool) (c : Option ProductClarification) (choice_id : String)
      (a : Answered)
      → answer_product now kill_switch c choice_id s ≡ ok a
      → Step s (committed a)
  recovered : (now : ℕ) (s' : RunDb) → recover_stale_attempts now s ≡ ok s' → Step s s'
  repaired : (now : ℕ) (s' : RunDb) → repair_unfinished_run now s ≡ ok s' → Step s s'

pub data Reaches (s : RunDb) : RunDb → Type 0 where
  here : Reaches s s
  then : (s1 s2 : RunDb) → Reaches s s1 → Step s1 s2 → Reaches s s2

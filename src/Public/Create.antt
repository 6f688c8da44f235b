-- ===== src/Public/Create.antt =====
-- backend/app/public/admission.py: `create_analysis`, on the rows and the sorted sets.
pub mod Checked
pub mod Limits
pub mod Failures
pub mod Known
pub mod Repeats
pub mod Conditions
use Prim.Native.Nat.{◌/◌}
use reviewlens_ai.Prelude.{
  ℕ, ◌+◌, ◌-◌, ◌*◌, min, String, Bool, true, false, not, ◌&&◌, Option, none, some, List, [], ◌∷◌,
  ltb, leb, ◌==◌, nat_eq, string_eq, contains, filter, length, if◌then◌else◌,
}
use reviewlens_ai.Contracts.Status.{RunStatus, run_status_eq}
use reviewlens_ai.Runtime.State.{second}
use reviewlens_ai.Runtime.Result.{
  Exception, Result, ok, raise, ◌>>=◌, ◌>>◌, guard, http_error, runtime_configuration_error,
  integrity_error, missing_records,
}
use reviewlens_ai.Public.Rate.{
  Entry, RateKey, hour_ip, day_ip, day_session, SortedSets, rate_keys, RateReply, granted, refused,
  reserve_rate, release_rate,
}
use reviewlens_ai.Public.Admission.{
  ScriptReply, replies, unreachable, reply_lost, PublicPolicy, ActiveRow, RequestIdentity,
  RunSubmission, AdmittedRun, AdmissionDb, AnalysisRequest, same_text, same_identity,
  not_configured, unavailable, rate_exceeded, over_budget, normalize_options, published_policy,
  limits, find_submission,
}
use Conditions.{
  has_address, address, after_ip, after_session, is_active_run, is_queued_run, is_counted, counted,
  left, Quota, quota_decision, has_quota, queued_runs, check_public,
}

pub data Decision : Type 0 where
  replay : ℕ → Decision
  new_analysis : RequestIdentity → PublicPolicy → Decision

abbrev pub is_public_request : AnalysisRequest → Bool
is_public_request q = q.actor_type == "public"

unfoldable pub requested : AnalysisRequest → Option ActiveRow → Result RequestIdentity
unfolding normalize_options
requested q active = do p ← published_policy active; normalize_options q p

unfoldable pub begin :
    AnalysisRequest
    → AdmissionDb
    → SortedSets
    → RequestIdentity
    → ActiveRow
    → PublicPolicy
    → Result Decision
unfolding check_public
begin q db sets options a p =
    if is_public_request q
    then (check_public q db sets a p >> ok (new_analysis options p))
    else ok (new_analysis options p)

-- The request up to the reservation: the run of an earlier submission, or the options of a new run.
unfoldable pub decide : AnalysisRequest → AdmissionDb → SortedSets → Result Decision
unfolding requested same_identity find_submission limits begin
decide q db sets = do
  options ← requested q db.active
  elim (find_submission q db.submissions) [
    | some x ↦
        if same_identity x.request_hash options
        then ok (replay x.run_id)
        else raise (http_error 409 "idempotency_conflict")
    | none ↦ do
      guard q.intent_resolved (http_error 409 "product_clarification_required")
      ap ← limits db
      begin q db sets options ap.0 ap.1
  ]

unfoldable pub find_run : ℕ → List AdmittedRun → Option AdmittedRun
find_run i [] = none
find_run i (x ∷ xs) = let rest = find_run i xs in if x.id == i then some x else rest

abbrev pub adopted : Option ℕ → Option ℕ → Option ℕ
adopted user none = user
adopted user (some u) = some u

-- The run of an earlier submission gets the user that it lacks.
unfoldable pub adopt_run : ℕ → Option ℕ → List AdmittedRun → List AdmittedRun
adopt_run i user [] = []
adopt_run i user (x ∷ xs) =
    (if x.id == i then record x { user_id = adopted user x.user_id } else x) ∷ adopt_run i user xs

abbrev pub queued_run : AnalysisRequest → ℕ → AdmittedRun
queued_run q i = record {
  id = i;
  initiator_type = q.actor_type;
  initiator_id = q.actor_id;
  user_id = q.user_id;
  status = RunStatus.queued;
}

abbrev pub submission_of : AnalysisRequest → RequestIdentity → ℕ → RunSubmission
submission_of q options i = record {
  actor_type = q.actor_type;
  actor_id = q.actor_id;
  idempotency_key = q.idempotency_key;
  request_hash = options;
  ip_hash = q.ip_hash;
  run_id = i;
  created_at = q.now;
}

-- The rows that `create_run` and the submission add.
abbrev pub with_run : AnalysisRequest → RequestIdentity → ℕ → AdmissionDb → AdmissionDb
with_run q options i db = record db {
  runs = queued_run q i ∷ db.runs;
  submissions = submission_of q options i ∷ db.submissions;
}

abbrev as_http : Exception → Exception
as_http runtime_configuration_error = not_configured
as_http e = e

-- What the visitor gets, the rows after the commit or the rollback, and the sets.
pub record Answer : Type 0 where
  pub reply : Result ℕ
  pub db : AdmissionDb
  pub sets : SortedSets

-- The session's rows: those that are committed, and those that its transaction has changed.
pub record Rows : Type 0 where
  pub committed : AdmissionDb
  pub changed : AdmissionDb

abbrev pub unchanged : AdmissionDb → Rows
unchanged db = record { committed = db; changed = db }

-- `db.rollback()`, and the exception.
abbrev pub failed : Exception → Rows → SortedSets → Answer
failed e x sets = record { reply = raise e; db = x.committed; sets = sets }

-- `db.commit()`.
abbrev pub committed_run : ℕ → Rows → SortedSets → Answer
committed_run i x sets = record { reply = ok i; db = x.changed; sets = sets }

-- `assert run is not None`. The commit writes at most the run's user, and is taken to succeed.
unfoldable pub replay_found :
    AnalysisRequest → ℕ → AdmissionDb → SortedSets → Option AdmittedRun → Answer
unfolding adopt_run
replay_found q i db sets none = failed missing_records (unchanged db) sets
replay_found q i db sets (some x) =
    committed_run i
      (record { committed = db; changed = record db { runs = adopt_run i q.user_id db.runs } }) sets

abbrev pub replay_run : AnalysisRequest → ℕ → AdmissionDb → SortedSets → Answer
replay_run q i db sets = replay_found q i db sets (find_run i db.runs)

abbrev pub undone_run : AnalysisRequest → List RateKey → Exception → Rows → SortedSets → Answer
undone_run q keys e x sets = failed e x (release_rate q.redis_releases q.token keys sets)

-- After `create_run`: the commit, or the rollback and the release of what was reserved. The commit
-- fails where another request took the key of this one.
unfoldable pub finish_run :
    AnalysisRequest → RequestIdentity → List RateKey → AdmissionDb → SortedSets → Result ℕ → Answer
finish_run q options keys db sets (ok i) =
    let x : Rows = record { committed = db; changed = with_run q options i db } in
    if q.commits then committed_run i x sets else undone_run q keys integrity_error x sets
finish_run q options keys db sets (raise e) = undone_run q keys (as_http e) (unchanged db) sets

abbrev pub commit_run :
    AnalysisRequest → RequestIdentity → List RateKey → AdmissionDb → SortedSets → Answer
commit_run q options keys db sets = finish_run q options keys db sets q.created

unfoldable pub with_reply :
    AnalysisRequest → RequestIdentity → AdmissionDb → RateReply × SortedSets → Answer
unfolding finish_run
with_reply q options db (refused at blocked, sets) = failed rate_exceeded (unchanged db) sets
with_reply q options db (granted, sets) =
    commit_run q options (rate_keys (address q) q.actor_id) db sets

-- The reply of the script may be lost when it has run: what it reserved stays, since `keys` is unset.
unfoldable pub with_script :
    AnalysisRequest
    → RequestIdentity
    → AdmissionDb
    → SortedSets
    → RateReply × SortedSets
    → ScriptReply
    → Answer
unfolding with_reply
with_script q options db sets x replies = with_reply q options db x
with_script q options db sets x unreachable = failed unavailable (unchanged db) sets
with_script q options db sets x reply_lost = failed unavailable (unchanged db) x.1

unfoldable pub reserve_run :
    AnalysisRequest → RequestIdentity → PublicPolicy → AdmissionDb → SortedSets → Answer
unfolding with_script
reserve_run q options p db sets =
    with_script q options db sets
      (reserve_rate p.rates (q.now / second) (address q) q.actor_id q.token sets) q.redis_reserves

unfoldable pub carry_out : AnalysisRequest → AdmissionDb → SortedSets → Result Decision → Answer
unfolding replay_found find_run reserve_run finish_run
carry_out q db sets (raise e) = failed (as_http e) (unchanged db) sets
carry_out q db sets (ok (replay i)) = replay_run q i db sets
carry_out q db sets (ok (new_analysis options p)) =
    if is_public_request q then reserve_run q options p db sets else commit_run q options [] db sets

unfoldable pub create_analysis : AnalysisRequest → AdmissionDb → SortedSets → Answer
unfolding decide carry_out
create_analysis q db sets = carry_out q db sets (decide q db sets)

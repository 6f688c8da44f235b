-- ===== src/Public/Create/Conditions.antt =====
-- backend/app/public/admission.py: the quotas of `_quota_decision`, and the conditions on a public
-- request in `create_analysis`.
use reviewlens_ai.Prelude.{
  ℕ, ◌+◌, ◌-◌, ◌*◌, min, String, Bool, true, false, not, ◌&&◌, none, some, [], ◌∷◌, ltb, leb, ◌==◌,
  nat_eq, string_eq, contains, filter, length,
}
use reviewlens_ai.Contracts.Status.{RunStatus, run_status_eq}
use reviewlens_ai.Runtime.State.{second}
use reviewlens_ai.Runtime.Result.{Result, ok, ◌>>=◌, ◌>>◌, guard, http_error, missing_records}
use reviewlens_ai.Public.Rate.{Entry, RateKey, hour_ip, day_ip, day_session, SortedSets}
use reviewlens_ai.Public.Admission.{
  PublicPolicy, ActiveRow, RunSubmission, AdmittedRun, AdmissionDb, AnalysisRequest, same_text,
  unavailable, rate_exceeded, over_budget,
}

-- `assert ip_hash is not None`, for a public request.
abbrev pub has_address : AnalysisRequest → Bool
has_address q = elim q.ip_hash [ none ↦ false | some a ↦ true ]

abbrev pub address : AnalysisRequest → String
address q = elim q.ip_hash [ none ↦ "" | some a ↦ a ]

abbrev pub after_ip : ℕ → ℕ → String → RunSubmission → Bool
after_ip now window ip x = same_text x.ip_hash (some ip) && ltb now (x.created_at + window * second)

abbrev pub after_session : ℕ → ℕ → ℕ → RunSubmission → Bool
after_session now window session x =
    x.actor_type == "public" && x.actor_id == session && ltb now (x.created_at + window * second)

abbrev pub is_active_run : ℕ → AdmittedRun → Bool
is_active_run session x =
    x.initiator_type == "public"
    && x.initiator_id == session
    && contains
        (RunStatus.queued ∷ RunStatus.running ∷ RunStatus.waiting_for_input ∷ RunStatus.cancelling
          ∷ [])
        x.status

abbrev pub is_queued_run : AdmittedRun → Bool
is_queued_run x = x.initiator_type == "public" && x.status == RunStatus.queued

abbrev pub is_counted : ℕ → ℕ → Entry → Bool
is_counted now window e = ltb now ((e.score + window) * second)

-- ZCOUNT key (now - window +inf.
abbrev pub counted : ℕ → ℕ → SortedSets → RateKey → ℕ
counted now window sets key = length (filter (is_counted now window) (sets key))

abbrev pub left : ℕ → ℕ → ℕ → ℕ
left limit count reserved = min (limit - count) (limit - reserved)

pub record Quota : Type 0 where
  pub hourly_remaining : ℕ
  pub daily_ip_remaining : ℕ
  pub daily_session_remaining : ℕ
  pub concurrent_remaining : ℕ

unfoldable pub quota_decision :
    AnalysisRequest → AdmissionDb → SortedSets → PublicPolicy → Result Quota
quota_decision q db sets p =
    let hour = p.rates.public_runs_per_hour in
    let day = p.rates.public_runs_per_day in
    do
      guard q.redis_reads unavailable
      ok (record {
        hourly_remaining =
            left hour (length (filter (after_ip q.now 3600 (address q)) db.submissions))
              (counted q.now 3600 sets (hour_ip (address q)));
        daily_ip_remaining =
            left day (length (filter (after_ip q.now 86400 (address q)) db.submissions))
              (counted q.now 86400 sets (day_ip (address q)));
        daily_session_remaining =
            left day (length (filter (after_session q.now 86400 q.actor_id) db.submissions))
              (counted q.now 86400 sets (day_session q.actor_id));
        concurrent_remaining =
            p.public_concurrent_runs - length (filter (is_active_run q.actor_id) db.runs);
      })

-- `all(quota.values())`.
abbrev pub has_quota : Quota → Bool
has_quota x =
    ltb 0 x.hourly_remaining
    && ltb 0 x.daily_ip_remaining
    && ltb 0 x.daily_session_remaining
    && ltb 0 x.concurrent_remaining

abbrev pub queued_runs : AdmissionDb → ℕ
queued_runs db = length (filter is_queued_run db.runs)

-- The conditions on a public request. The day's budget may be overspent already: nothing remains then.
unfoldable pub check_public :
    AnalysisRequest → AdmissionDb → SortedSets → ActiveRow → PublicPolicy → Result (Unit {0})
unfolding quota_decision
check_public q db sets a p = do
  guard (a.public_analysis_enabled && q.public_enabled) (http_error 503 "public_analysis_disabled")
  guard (has_address q) missing_records
  quota ← quota_decision q db sets p
  guard (has_quota quota) rate_exceeded
  guard (not (leb p.public_queue_capacity (queued_runs db))) (http_error 503 "queue_full")
  cost ← q.estimate
  guard (ltb 0 p.public_run_cost_cap_microusd && leb cost p.public_run_cost_cap_microusd)
      over_budget
  guard (leb (cost + db.spent) p.public_daily_cost_cap_microusd) over_budget

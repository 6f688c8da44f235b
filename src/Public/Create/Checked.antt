-- ===== src/Public/Create/Checked.antt =====
-- backend/app/public/admission.py: what has been checked when `create_analysis` starts an analysis.
use reviewlens_ai.Prelude.{
  ℕ, suc, ◌+◌, ◌≤◌, Bool, true, false, not, ◌&&◌, ◌≡◌, refl, ◌∙◌, ap, some, ltb, leb, nat_eq,
  string_eq, filter, length, arith, inl, inr, Option-cases,
}
use reviewlens_ai.Contracts.Status.{run_status_eq}
use reviewlens_ai.Runtime.Result.{Exception, ok, guard, http_error, missing_records}
use reviewlens_ai.Runtime.Ends.{Ends-any, Ends-self, Ends, Ends-bind, Ends-guard, Ends-if}
use reviewlens_ai.Public.Rate.{SortedSets}
use reviewlens_ai.Public.Admission.{
  PublicPolicy, ActiveRow, RequestIdentity, AdmissionDb, AnalysisRequest, published_policy, limits,
  find_submission, rate_exceeded, over_budget, unavailable, same_identity, has_workflow,
  account_blocked, not_configured,
}
use reviewlens_ai.Public.Create.{
  Decision, replay, new_analysis, is_public_request, decide, begin, requested,
}
use reviewlens_ai.Public.Create.Conditions.{
  address, has_address, after_ip, after_session, is_active_run, queued_runs, has_quota,
  quota_decision, check_public,
}

-- The counts that the policy limits have room for one more.
pub record Room (q : AnalysisRequest) (db : AdmissionDb) (p : PublicPolicy) : Type 0 where
  pub queue : suc (queued_runs db) ≤ p.public_queue_capacity
  pub concurrent :
      suc (length (filter (is_active_run q.actor_id) db.runs)) ≤ p.public_concurrent_runs
  pub hourly :
      suc (length (filter (after_ip q.now 3600 (address q)) db.submissions))
      ≤ p.rates.public_runs_per_hour
  pub daily_ip :
      suc (length (filter (after_ip q.now 86400 (address q)) db.submissions))
      ≤ p.rates.public_runs_per_day
  pub daily_session :
      suc (length (filter (after_session q.now 86400 q.actor_id) db.submissions))
      ≤ p.rates.public_runs_per_day

-- The estimate is within the caps of a run and of the day.
abbrev pub Affordable : AnalysisRequest → AdmissionDb → PublicPolicy → Type 0
Affordable q db p =
    (cost : ℕ) × ((q.estimate ≡ ok cost)
      × ((cost ≤ p.public_run_cost_cap_microusd)
          × (cost + db.spent ≤ p.public_daily_cost_cap_microusd)))

quota-Ends :
    (q : AnalysisRequest) (db : AdmissionDb) (sets : SortedSets) (p : PublicPolicy)
    → Ends
        (λ x. has_quota x ≡ true → suc (queued_runs db) ≤ p.public_queue_capacity → Room q db p)
        (quota_decision q db sets p)
unfolding quota_decision
quota-Ends q db sets p = Ends-guard _ q.redis_reads unavailable _ (λ r h room. record {
  queue = room;
  concurrent = ground (arith, h);
  hourly = ground (arith, h);
  daily_ip = ground (arith, h);
  daily_session = ground (arith, h);
})

Ends-last :
    (P : Type 0) (b : Bool) (e : Exception)
    → (b ≡ true → P)
    → Ends (λ (x : Unit {0}). P) (guard b e)
Ends-last P true e h = h refl
Ends-last P false e h = tt

check_public-Room :
    (q : AnalysisRequest) (db : AdmissionDb) (sets : SortedSets) (a : ActiveRow) (p : PublicPolicy)
    → Ends (λ x. Room q db p × Affordable q db p) (check_public q db sets a p)
unfolding check_public
check_public-Room q db sets a p =
    Ends-guard P (a.public_analysis_enabled && q.public_enabled)
      (http_error 503 "public_analysis_disabled") _
      (λ enabled. Ends-guard P (has_address q) missing_records _ (λ here.
        Ends-bind _ P (quota_decision q db sets p) _ (quota-Ends q db sets p) (λ quota h.
          Ends-guard P (has_quota quota) rate_exceeded _ (λ has.
            Ends-guard P (not (leb p.public_queue_capacity (queued_runs db)))
              (http_error 503 "queue_full") _
              (λ queue.
                Ends-bind (λ cost. q.estimate ≡ ok cost) P q.estimate _ (Ends-self q.estimate)
                  (λ cost m.
                    Ends-guard P
                      (ltb 0 p.public_run_cost_cap_microusd
                        && leb cost p.public_run_cost_cap_microusd)
                      over_budget _
                      (λ run.
                        Ends-last (Room q db p × Affordable q db p)
                          (leb (cost + db.spent) p.public_daily_cost_cap_microusd) over_budget
                          (λ day. (
                            h has (ground (arith, queue)),
                            (cost, (m, (ground (arith, run), ground (arith, day)))),
                          )))))))))
  where
    P : Unit {0} → Type 0
    P x = Room q db p × Affordable q db p

-- What `new_analysis` was decided on.
pub record Started (q : AnalysisRequest) (db : AdmissionDb) (p : PublicPolicy) : Type 0 where
  pub published : published_policy db.active ≡ ok p
  pub room : is_public_request q ≡ true → Room q db p × Affordable q db p

abbrev pub Begun : AnalysisRequest → AdmissionDb → Decision → Type 0
Begun q db (replay i) = Unit
Begun q db (new_analysis options p) = Started q db p

limits-published :
    (db : AdmissionDb) → Ends (λ ap. published_policy db.active ≡ ok ap.1) (limits db)
unfolding limits
limits-published db = elim (Option-cases db.active) [
  | inl n ↦ rw (Ends, n) tt
  | inr (a, n) ↦
      rw (Ends, n)
        (Ends-guard P (not a.kill_switch) (http_error 503 "analysis_unavailable") _ (λ k.
          Ends-guard P (has_workflow a.workflow_version_id) not_configured _ (λ w.
            Ends-bind (λ p. published_policy (some a) ≡ ok p) P (published_policy (some a)) _
              (Ends-self (published_policy (some a)))
              (λ p e.
                Ends-guard P (not (account_blocked db.account_status))
                  (http_error 503 "analysis_provider_unavailable") (ok (a, p))
                  (λ k. ap published_policy n ∙ e)))))
]
  where
    P : ActiveRow × PublicPolicy → Type 0
    P ap = published_policy db.active ≡ ok ap.1

begin-Begun :
    (q : AnalysisRequest) (db : AdmissionDb) (sets : SortedSets) (options : RequestIdentity)
    (a : ActiveRow) (p : PublicPolicy)
    → published_policy db.active ≡ ok p
    → Ends (Begun q db) (begin q db sets options a p)
unfolding begin
begin-Begun q db sets options a p e =
    Ends-if (Begun q db) (is_public_request q) _ _
      (λ y.
        Ends-bind (λ x. Room q db p × Affordable q db p) (Begun q db) (check_public q db sets a p) _
          (check_public-Room q db sets a p) (λ x h. record { published = e; room = λ y'. h }))
      (λ n. record { published = e; room = λ y. absurd cc })

pub decide-Begun :
    (q : AnalysisRequest) (db : AdmissionDb) (sets : SortedSets)
    → Ends (Begun q db) (decide q db sets)
unfolding decide
decide-Begun q db sets =
    Ends-bind (λ o. Unit) (Begun q db) (requested q db.active) _ (Ends-any _)
      (λ options x. elim (Option-cases (find_submission q db.submissions)) [
        | inr (s, f) ↦
            rw (Ends, f)
              (Ends-if (Begun q db) (same_identity s.request_hash options) _ _ (λ y. tt) (λ n. tt))
        | inl f ↦
            rw (Ends, f)
              (Ends-guard (Begun q db) q.intent_resolved
                (http_error 409 "product_clarification_required") _
                (λ resolved.
                  Ends-bind (λ ap. published_policy db.active ≡ ok ap.1) (Begun q db) (limits db) _
                    (limits-published db) (λ ap e. begin-Begun q db sets options ap.0 ap.1 e)))
      ])

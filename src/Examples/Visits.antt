-- ===== src/Examples/Visits.antt =====
-- Requests for analyses: one visitor who may start one in an hour and two in a day.
use Prim.Native.Nat.{◌/◌}
use reviewlens_ai.Prelude.{
  ℕ, ◌+◌, ◌*◌, ◌≤◌, ◌≡◌, ◌↔◌, refl, true, false, none, some, List, [], ◌∷◌, arith,
}
use reviewlens_ai.Runtime.State.{second}
use reviewlens_ai.Runtime.Result.{Result, ok, raise, integrity_error, runtime_configuration_error}
use reviewlens_ai.Public.Rate.{
  RateLimits, hour_ip, day_ip, day_session, granted, reserve_rate, survey, survey_rule, score_at,
  add_all, by_score,
}
use reviewlens_ai.Public.Rate.Ledger.{
  RateOp, reserving, rate_step, rate_steps, unused, no_sets, SameSets,
}
use reviewlens_ai.Public.Rate.Limit.{Free, younger, reserve_rate-granted, rate_steps-within_limit}
use reviewlens_ai.Public.Rate.Retry.{reserve_rate-retry}
use reviewlens_ai.Public.Admission.{
  replies, PublicPolicy, ActiveRow, AdmissionDb, AnalysisRequest, normalize_options, limits,
  find_submission,
}
use reviewlens_ai.Public.Create.{
  requested, begin, decide, finish_run, with_reply, with_script, reserve_run, carry_out,
  create_analysis, adopt_run,
}
use reviewlens_ai.Public.Create.Conditions.{quota_decision, check_public}
use reviewlens_ai.Public.Create.Limits.{StartedWithin, create_analysis-StartedWithin}
use reviewlens_ai.Public.Create.Failures.{create_analysis-raises}
use reviewlens_ai.Public.Create.Known.{again}
use reviewlens_ai.Public.Create.Repeats.{create_analysis-again}

abbrev rates : RateLimits
rates = record { public_runs_per_hour = 1; public_runs_per_day = 2 }

abbrev one_visit : List RateOp
one_visit = reserving 100 "address" 1 "first" ∷ []

reserve_rate-granted_example :
    ((reserve_rate rates
        ((rate_steps rates one_visit unused).now + 10)
        "address"
        1
        "second"
        (rate_steps rates one_visit unused).sets).0
      ≡ granted)
    ↔ Free rates
        ((rate_steps rates one_visit unused).now + 10)
        "address"
        1
        (rate_steps rates one_visit unused).ledger
reserve_rate-granted_example = reserve_rate-granted rates one_visit 10 "address" 1 "second"

rate_steps-within_limit_example :
    (younger 110 3600 ((rate_steps rates one_visit unused).ledger (hour_ip "address")) ≤ 1)
    × (younger 110 86400 ((rate_steps rates one_visit unused).ledger (day_ip "address")) ≤ 2)
    × (younger 110 86400 ((rate_steps rates one_visit unused).ledger (day_session 1)) ≤ 2)
unfolding rate_steps rate_step
rate_steps-within_limit_example =
    rate_steps-within_limit rates one_visit "address" 1 110 (omega arith)

reserve_rate-retry_example :
    (reserve_rate rates 3700 "address" 1 "third"
      (reserve_rate rates
        ((rate_steps rates one_visit unused).now + 10)
        "address"
        1
        "second"
        (rate_steps rates one_visit unused).sets).1).0
    ≡ granted
unfolding rate_steps rate_step reserve_rate survey survey_rule score_at add_all by_score
reserve_rate-retry_example =
    reserve_rate-retry rates one_visit 10 3700 "address" 1 "second" "third" 3700
      (true ∷ false ∷ false ∷ []) (omega arith) (omega arith) refl (omega arith) (omega arith)

abbrev a_policy : PublicPolicy
a_policy = record {
  published = true;
  min_video_count = 3;
  max_video_count = 5;
  rates = rates;
  public_concurrent_runs = 1;
  public_queue_capacity = 10;
  public_daily_cost_cap_microusd = 5000000;
  public_run_cost_cap_microusd = 1000000;
}

abbrev an_active : ActiveRow
an_active = record {
  kill_switch = false;
  public_analysis_enabled = true;
  workflow_version_id = some 1;
  policy = some a_policy;
}

abbrev empty_db : AdmissionDb
empty_db = record {
  active = some an_active;
  account_status = some "ok";
  submissions = [];
  runs = [];
  spent = 0;
}

abbrev a_request : Result ℕ → AnalysisRequest
a_request created = record {
  product_name = some "Camera";
  video_count = none;
  analyze_comments = true;
  locale = none;
  intent_confirmation = none;
  actor_type = "public";
  actor_id = 1;
  idempotency_key = "key";
  ip_hash = some "address";
  user_id = none;
  token = "first";
  public_enabled = true;
  intent_resolved = true;
  estimate = ok 200000;
  created = created;
  redis_reads = true;
  redis_reserves = replies;
  commits = true;
  redis_releases = true;
  now = 100 * second;
}

create_analysis-StartedWithin_example :
    StartedWithin
      (a_request (ok 7))
      empty_db
      (create_analysis (a_request (ok 7)) empty_db no_sets).db
create_analysis-StartedWithin_example =
    create_analysis-StartedWithin (a_request (ok 7)) empty_db no_sets refl

-- Another request took the key, so that the commit fails after the reservation.
abbrev late_request : AnalysisRequest
late_request = record (a_request (ok 7)) { commits = false }

create_analysis-raises_example :
    ((create_analysis late_request empty_db no_sets).db ≡ empty_db)
    × SameSets (100 * second / second) (create_analysis late_request empty_db no_sets).sets no_sets
unfolding create_analysis carry_out decide requested normalize_options find_submission limits begin
    check_public quota_decision reserve_run with_script with_reply finish_run reserve_rate survey
    survey_rule score_at
create_analysis-raises_example =
    create_analysis-raises late_request empty_db no_sets integrity_error refl refl (λ k. tt) refl

create_analysis-again_example :
    create_analysis
      (again (a_request (ok 7)) (a_request (raise runtime_configuration_error)))
      (create_analysis (a_request (ok 7)) empty_db no_sets).db
      no_sets
    ≡ record {
      reply = ok 7;
      db = record (create_analysis (a_request (ok 7)) empty_db no_sets).db {
        runs = adopt_run 7 none (create_analysis (a_request (ok 7)) empty_db no_sets).db.runs;
      };
      sets = no_sets;
    }
unfolding create_analysis carry_out decide requested normalize_options find_submission limits begin
    check_public quota_decision reserve_run with_script with_reply finish_run reserve_rate survey
    survey_rule score_at
create_analysis-again_example =
    create_analysis-again (a_request (ok 7)) (a_request (raise runtime_configuration_error))
      empty_db no_sets no_sets 7 refl

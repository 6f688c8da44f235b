-- ===== src/Public/Admission.antt =====
-- backend/app/public/admission.py: `create_analysis` and the checks that it makes. Times are whole
-- microseconds, costs whole micro-dollars. What an error tells the visitor besides its code, and the
-- time at which to come again, are left out.
use reviewlens_ai.Prelude.{
  ℕ, min, max, String, Bool, true, false, not, ◌&&◌, Option, none, some, List, [], ◌∷◌, leb, ◌==◌,
  nat_eq, string_eq, contains, if◌then◌else◌,
}
use reviewlens_ai.Contracts.Status.{RunStatus, run_status_eq}
use reviewlens_ai.Runtime.Result.{Exception, Result, ok, raise, ◌>>=◌, ◌>>◌, guard, http_error}
use reviewlens_ai.Public.Rate.{RateLimits}

-- BudgetPolicyVersion. The caps are the amounts that `usd_to_microusd` gives.
pub record PublicPolicy : Type 0 where
  pub published : Bool
  pub min_video_count : ℕ
  pub max_video_count : ℕ
  pub rates : RateLimits
  pub public_concurrent_runs : ℕ
  pub public_queue_capacity : ℕ
  pub public_daily_cost_cap_microusd : ℕ
  pub public_run_cost_cap_microusd : ℕ

-- ActiveConfiguration, with the policy version that it names.
pub record ActiveRow : Type 0 where
  pub kill_switch : Bool
  pub public_analysis_enabled : Bool
  pub workflow_version_id : Option ℕ
  pub policy : Option PublicPolicy

-- What is hashed to `request_hash`, which is taken to tell requests apart.
pub record RequestIdentity : Type 0 where
  pub product_name : String
  pub source_count : ℕ
  pub analyze_comments : Bool
  pub language : String
  pub intent_confirmation : Option String

-- RunSubmission.
pub record RunSubmission : Type 0 where
  pub actor_type : String
  pub actor_id : ℕ
  pub idempotency_key : String
  pub request_hash : RequestIdentity
  pub ip_hash : Option String
  pub run_id : ℕ
  pub created_at : ℕ

-- AnalysisRun, as far as the admission reads it.
pub record AdmittedRun : Type 0 where
  pub id : ℕ
  pub initiator_type : String
  pub initiator_id : ℕ
  pub user_id : Option ℕ
  pub status : RunStatus

-- `spent` is what the public day has consumed and reserved; new rows stand in front.
pub record AdmissionDb : Type 0 where
  pub active : Option ActiveRow
  pub account_status : Option String
  pub submissions : List RunSubmission
  pub runs : List AdmittedRun
  pub spent : ℕ

-- What comes of the script that reserves: its reply, nothing, or its effects alone.
pub data ScriptReply : Type 0 where
  replies unreachable reply_lost : ScriptReply

-- The request, and what the functions that it calls find: `normalize_product_name`, `resolve_intent`,
-- `_estimate`, `create_run`, the commit of a new run, and redis.
pub record AnalysisRequest : Type 0 where
  pub product_name : Option String
  pub video_count : Option ℕ
  pub analyze_comments : Bool
  pub locale : Option String
  pub intent_confirmation : Option String
  pub actor_type : String
  pub actor_id : ℕ
  pub idempotency_key : String
  pub ip_hash : Option String
  pub user_id : Option ℕ
  pub token : String
  pub public_enabled : Bool
  pub intent_resolved : Bool
  pub estimate : Result ℕ
  pub created : Result ℕ
  pub redis_reads : Bool
  pub redis_reserves : ScriptReply
  pub commits : Bool
  pub redis_releases : Bool
  pub now : ℕ

abbrev pub same_bool : Bool → Bool → Bool
same_bool true b = b
same_bool false b = not b

abbrev pub same_text : Option String → Option String → Bool
same_text none none = true
same_text (some a) (some b) = a == b
same_text _ _ = false

unfoldable pub same_identity : RequestIdentity → RequestIdentity → Bool
same_identity a b =
    a.product_name == b.product_name
    && a.source_count == b.source_count
    && same_bool a.analyze_comments b.analyze_comments
    && a.language == b.language
    && same_text a.intent_confirmation b.intent_confirmation

abbrev invalid : Exception
invalid = http_error 422 "validation_error"

abbrev pub not_configured : Exception
not_configured = http_error 503 "analysis_not_configured"

abbrev pub unavailable : Exception
unavailable = http_error 503 "admission_unavailable"

abbrev pub rate_exceeded : Exception
rate_exceeded = http_error 429 "public_rate_limit_exceeded"

abbrev pub over_budget : Exception
over_budget = http_error 429 "public_daily_budget_exceeded"

abbrev or_three : Option ℕ → ℕ
or_three none = 3
or_three (some n) = n

-- `getattr(payload, "locale", None) or "en"`.
abbrev or_english : Option String → String
or_english none = "en"
or_english (some l) = if l == "" then "en" else l

abbrev named : AnalysisRequest → String → ℕ → RequestIdentity
named q product count = record {
  product_name = product;
  source_count = count;
  analyze_comments = q.analyze_comments;
  language = or_english q.locale;
  intent_confirmation = q.intent_confirmation;
}

unfoldable pub normalize_options : AnalysisRequest → PublicPolicy → Result RequestIdentity
normalize_options q p = elim q.product_name [
  | none ↦ raise invalid
  | some product ↦ do
    guard
        (leb (max 3 p.min_video_count) (or_three q.video_count)
          && leb (or_three q.video_count) (min 5 p.max_video_count))
        invalid
    ok (named q product (or_three q.video_count))
]

abbrev pub published_policy : Option ActiveRow → Result PublicPolicy
published_policy none = raise not_configured
published_policy (some a) = elim a.policy [
  | none ↦ raise not_configured
  | some p ↦ if p.published then ok p else raise not_configured
]

abbrev pub has_workflow : Option ℕ → Bool
has_workflow none = false
has_workflow (some w) = true

abbrev pub account_blocked : Option String → Bool
account_blocked none = false
account_blocked (some st) = contains ("authentication_blocked" ∷ "payment_blocked" ∷ []) st

unfoldable pub limits : AdmissionDb → Result (ActiveRow × PublicPolicy)
limits db = elim db.active [
  | none ↦ raise (http_error 503 "analysis_unavailable")
  | some a ↦ do
    guard (not a.kill_switch) (http_error 503 "analysis_unavailable")
    guard (has_workflow a.workflow_version_id) not_configured
    p ← published_policy (some a)
    guard (not (account_blocked db.account_status)) (http_error 503 "analysis_provider_unavailable")
    ok (a, p)
]

abbrev pub is_submission : AnalysisRequest → RunSubmission → Bool
is_submission q x =
    x.actor_type == q.actor_type
    && x.actor_id == q.actor_id
    && x.idempotency_key == q.idempotency_key

unfoldable pub find_submission : AnalysisRequest → List RunSubmission → Option RunSubmission
find_submission q [] = none
find_submission q (x ∷ xs) =
    let rest = find_submission q xs in if is_submission q x then some x else rest

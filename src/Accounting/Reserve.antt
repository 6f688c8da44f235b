-- ===== src/Accounting/Reserve.antt =====
-- backend/app/llmops/accounting.py: `_effective_sum`, `_limit_value` and `reserve_request`. The
-- estimates are naturals, so the ValueError for a negative one cannot arise.
use reviewlens_ai.Prelude.{
  ℕ, ◌+◌, min, String, Bool, true, false, not, ◌&&◌, Option, none, some, List, [], ◌∷◌, ◌==◌,
  nat_eq, string_eq, contains, ltb, leb, filter, sum_by, if◌then◌else◌,
}
use reviewlens_ai.Runtime.Result.{Result, ok, raise, missing_records, budget_rejected}
use reviewlens_ai.Runtime.State.{RunBudgetState, active, exhausted}
use reviewlens_ai.Accounting.Transaction.{
  Tx, pure, throw, lift, modify, check, gets, session_scope, ◌>>=◌, ◌>>◌,
}
use reviewlens_ai.Accounting.Books.{
  AccountState, EvaluationBudget, DailyBudget, Reservation, reserved, UsageEvent, LimitNumber,
  at_most, negative, RawLimit, absent, flat, per_key, BudgetPolicy, Books, find_daily, put_daily,
  effective_tokens, effective_cost,
}
use reviewlens_ai.Accounting.Account.{account_state}

-- InvocationContext.
pub record InvocationContext : Type 0 where
  pub run_id : ℕ
  pub task_run_id : ℕ
  pub task_attempt_id : ℕ
  pub agent_version_id : ℕ
  pub workflow_version_id : ℕ
  pub model_policy_version_id : ℕ
  pub call_key : String
  pub deadline_at : ℕ

-- The rows that the ids of a context are looked up as, with the columns that are compared.
pub record TaskRow : Type 0 where
  pub id : ℕ
  pub run_id : ℕ
  pub workflow_task_key : String
  pub agent_version_id : Option ℕ

pub record AttemptRow : Type 0 where
  pub id : ℕ
  pub task_run_id : ℕ
  pub is_running : Bool

pub record SnapshotRow : Type 0 where
  pub workflow_version_id : ℕ
  pub model_policies : List ℕ

pub record Attribution : Type 0 where
  pub run : Option ℕ
  pub task : Option TaskRow
  pub attempt : Option AttemptRow
  pub snapshot : Option SnapshotRow

-- The other arguments: `now` and its date, the new ids, and the settings.
pub record Request : Type 0 where
  pub context : InvocationContext
  pub rows : Attribution
  pub operation : String
  pub retry_number : ℕ
  pub estimated_tokens : ℕ
  pub estimated_cost_microusd : ℕ
  pub now : ℕ
  pub today : ℕ
  pub reservation_id : ℕ
  pub app_env : String
  pub fingerprint : String

abbrev over_key : String → List (String × LimitNumber) → Option LimitNumber
over_key k [] = none
over_key k ((j, v) ∷ l) = if j == k then some v else over_key k l

abbrev limit_number : Option LimitNumber → Result (Option ℕ)
limit_number none = ok none
limit_number (some (at_most n)) = ok (some n)
limit_number (some negative) = raise missing_records

-- `raw.get(key, raw.get("default"))`.
abbrev or_default : Option LimitNumber → Option LimitNumber → Option LimitNumber
or_default none d = d
or_default (some v) d = some v

unfoldable pub limit_value : RawLimit → String → Result (Option ℕ)
limit_value absent key = ok none
limit_value (flat n) key = limit_number (some n)
limit_value (per_key l) key = limit_number (or_default (over_key key l) (over_key "default" l))

abbrev pub of_task : ℕ → Reservation → Bool
of_task task r = r.task_run_id == task

abbrev pub of_agent : ℕ → Reservation → Bool
of_agent agent r = elim r.agent_version_id [ none ↦ false | some a ↦ a == agent ]

unfoldable pub effective_sum : (Reservation → Bool) → List Reservation → ℕ × ℕ
effective_sum p rs = (sum_by effective_tokens (filter p rs), sum_by effective_cost (filter p rs))

-- `cap is not None and used > cap`.
abbrev pub exceeds : Option ℕ → ℕ → Bool
exceeds none used = false
exceeds (some cap') used = ltb cap' used

abbrev reject : Bool → String → Tx Books (Unit {0})
reject test code = check (not test) (budget_rejected code)

abbrev require : Bool → Tx Books (Unit {0})
require test = check test missing_records

abbrev is_killed : Option Bool → Bool
is_killed none = true
is_killed (some k) = k

-- Credits minus usage is below the estimate, where both are known.
abbrev is_short : AccountState → ℕ → Bool
is_short a cost = elim a.total_credits_microusd [
  | none ↦ false
  | some credits ↦ elim a.total_usage_microusd [
    | none ↦ false
    | some used ↦ ltb credits (used + cost)
  ]
]

unfoldable pub check_account : Request → Tx Books (Unit {0})
unfolding account_state
check_account q = do
  killed ← gets (λ (b : Books). is_killed b.kill_switch)
  reject killed "emergency_kill_switch"
  a ← account_state q.app_env q.fingerprint
  reject (a.status == "authentication_blocked") "openrouter_authentication_blocked"
  reject (a.status == "payment_blocked") "openrouter_payment_blocked"
  reject (is_short a q.estimated_cost_microusd) "openrouter_known_credit_balance_insufficient"

abbrev is_agent : Option ℕ → ℕ → Bool
is_agent none a = false
is_agent (some b) a = b == a

check_rows : Request → ℕ → TaskRow → AttemptRow → SnapshotRow → Tx Books (Unit {0})
check_rows q run t a p = do
  require (t.run_id == run && a.task_run_id == t.id)
  require (is_agent t.agent_version_id q.context.agent_version_id)
  require (p.workflow_version_id == q.context.workflow_version_id)
  require (contains p.model_policies q.context.model_policy_version_id)
  require a.is_running
  reject (leb q.context.deadline_at q.now) "paid_call_deadline_elapsed"

unfoldable pub check_attribution : Request → Tx Books TaskRow
unfolding check_rows
check_attribution q = elim q.rows.run [
  | none ↦ throw missing_records
  | some run ↦ elim q.rows.task [
    | none ↦ throw missing_records
    | some t ↦ elim q.rows.attempt [
      | none ↦ throw missing_records
      | some a ↦ elim q.rows.snapshot [
        | none ↦ throw missing_records
        | some p ↦ do check_rows q run t a p; pure t
      ]
    ]
  ]
]

abbrev pub save_budget : RunBudgetState → Tx Books (Unit {0})
save_budget x = modify (λ (b : Books). record b { budget = some x })

abbrev is_active : RunBudgetState → Bool
is_active x = elim x.status [ active ↦ true | _ ↦ false ]

-- `budget.status = "exhausted"`, and the rejection.
abbrev exhaust : RunBudgetState → String → Tx Books RunBudgetState
exhaust x code = do save_budget (record x { status = exhausted }); throw (budget_rejected code)

unfoldable pub check_budget : Request → Tx Books RunBudgetState
check_budget q b = elim b.budget [
  | none ↦ throw (budget_rejected "run_budget_exhausted") b
  | some x ↦
      if not (is_active x)
      then throw (budget_rejected "run_budget_exhausted") b
      else if exceeds x.max_tokens (x.reserved_tokens + x.consumed_tokens + q.estimated_tokens)
      then exhaust x "run_token_budget_exceeded" b
      else if exceeds x.max_cost_microusd
          (x.reserved_cost_microusd + x.consumed_cost_microusd + q.estimated_cost_microusd)
      then exhaust x "run_cost_budget_exceeded" b
      else pure x b
]

abbrev pub is_evaluation : Books → Bool
is_evaluation b = b.initiator_type == "admin_evaluation"

abbrev pub is_public : Books → Bool
is_public b = b.initiator_type == "public"

unfoldable pub check_evaluation : Request → Tx Books (Option EvaluationBudget)
check_evaluation q b = if not (is_evaluation b) then pure none b else elim b.evaluation [
  | none ↦ throw (budget_rejected "evaluation_budget_missing") b
  | some e ↦
      if ltb e.token_limit (e.reserved_tokens + e.consumed_tokens + q.estimated_tokens)
      then throw (budget_rejected "evaluation_token_cap_exhausted") b
      else if ltb e.cost_limit_microusd
          (e.reserved_cost_microusd + e.consumed_cost_microusd + q.estimated_cost_microusd)
      then throw (budget_rejected "evaluation_cost_cap_exhausted") b
      else pure (some e) b
]

-- A pair of caps on the effective sums of the reservations that satisfy `p`.
unfoldable pub check_caps :
    (Reservation → Bool)
    → RawLimit
    → RawLimit
    → String
    → String
    → String
    → Request
    → Tx Books (Unit {0})
unfolding effective_sum limit_value
check_caps p tokens cost key token_code cost_code q = do
  used ← gets (λ (b : Books). effective_sum p b.reservations)
  token_cap ← lift (limit_value tokens key)
  cost_cap ← lift (limit_value cost key)
  reject (exceeds token_cap (used.0 + q.estimated_tokens)) token_code
  reject (exceeds cost_cap (used.1 + q.estimated_cost_microusd)) cost_code

abbrev pub todays_budget : ℕ → ℕ → Option DailyBudget → DailyBudget
todays_budget today cap' none = record {
  budget_date = today;
  max_cost_microusd = cap';
  reserved_cost_microusd = 0;
  consumed_cost_microusd = 0;
}
todays_budget today cap' (some d) = record d { max_cost_microusd = min d.max_cost_microusd cap' }

abbrev save_daily : DailyBudget → Tx Books (Unit {0})
save_daily d = modify (λ (b : Books). record b { daily = put_daily d b.daily })

-- The day's row of the public runs is made, or its cap lowered to the policy's.
unfoldable pub reserve_daily : ℕ → Request → Tx Books (Unit {0})
unfolding find_daily put_daily
reserve_daily cap' q b =
    if not (is_public b)
    then pure tt b
    else (do
      let d = todays_budget q.today cap' (find_daily q.today b.daily)
      save_daily d
      reject
          (ltb d.max_cost_microusd
            (d.reserved_cost_microusd + d.consumed_cost_microusd + q.estimated_cost_microusd))
          "public_daily_cost_budget_exceeded"
      save_daily (record d {
        reserved_cost_microusd = d.reserved_cost_microusd + q.estimated_cost_microusd;
      }))
        b

abbrev pub new_reservation : Request → Reservation
new_reservation q = record {
  id = q.reservation_id;
  task_run_id = q.context.task_run_id;
  task_attempt_id = q.context.task_attempt_id;
  agent_version_id = some q.context.agent_version_id;
  call_key = q.context.call_key;
  operation = q.operation;
  retry_number = q.retry_number;
  estimated_tokens = q.estimated_tokens;
  estimated_cost_microusd = q.estimated_cost_microusd;
  actual_tokens = none;
  actual_cost_microusd = none;
  status = reserved;
  created_date = q.today;
  reconciled_at = none;
}

abbrev new_usage : Request → UsageEvent
new_usage q = record {
  reservation_id = q.reservation_id;
  status = "pending";
  usage_status = "pending";
  generation_id = none;
  total_tokens = none;
  total_cost_microusd = none;
  error_category = none;
  error_code = none;
  next_reconciliation_at = none;
  completed_at = none;
}

abbrev pub charged_budget : Request → RunBudgetState → RunBudgetState
charged_budget q x = record x {
  reserved_tokens = x.reserved_tokens + q.estimated_tokens;
  reserved_cost_microusd = x.reserved_cost_microusd + q.estimated_cost_microusd;
}

abbrev pub charged_evaluation : Request → EvaluationBudget → EvaluationBudget
charged_evaluation q e = record e {
  reserved_tokens = e.reserved_tokens + q.estimated_tokens;
  reserved_cost_microusd = e.reserved_cost_microusd + q.estimated_cost_microusd;
}

abbrev evaluation_after :
    Request → Option EvaluationBudget → Option EvaluationBudget → Option EvaluationBudget
evaluation_after q none old = old
evaluation_after q (some e) old = some (charged_evaluation q e)

unfoldable pub record_request : Request → RunBudgetState → Option EvaluationBudget → Tx Books ℕ
record_request q x e b = (
  ok q.reservation_id,
  record b {
    reservations = new_reservation q ∷ b.reservations;
    usage = new_usage q ∷ b.usage;
    budget = some (charged_budget q x);
    evaluation = evaluation_after q e b.evaluation;
  },
)

abbrev pub policy_of : Tx Books BudgetPolicy
policy_of b = elim b.policy [ none ↦ throw missing_records b | some p ↦ pure p b ]

-- The body of `reserve_request`, from the point where each row is known. `agent_key` is the text of
-- the agent's id.
unfoldable pub reserve_charged :
    (ℕ → String)
    → Request
    → TaskRow
    → RunBudgetState
    → Option EvaluationBudget
    → BudgetPolicy
    → Tx Books ℕ
reserve_charged agent_key q t x e p = do
  check_caps (of_task t.id) p.task_total_tokens p.task_cost_microusd t.workflow_task_key
      "task_token_budget_exceeded" "task_cost_budget_exceeded" q
  check_caps (of_agent q.context.agent_version_id) p.agent_total_tokens p.agent_cost_microusd
      (agent_key q.context.agent_version_id) "agent_token_budget_exceeded"
      "agent_cost_budget_exceeded" q
  reserve_daily p.public_daily_cost_cap q
  record_request q x e

unfoldable pub reserve_budgeted : (ℕ → String) → Request → TaskRow → RunBudgetState → Tx Books ℕ
reserve_budgeted agent_key q t x = do
  e ← check_evaluation q
  p ← policy_of
  reserve_charged agent_key q t x e p

unfoldable pub reserve_attributed : (ℕ → String) → Request → TaskRow → Tx Books ℕ
reserve_attributed agent_key q t = do x ← check_budget q; reserve_budgeted agent_key q t x

unfoldable pub reserve_body : (ℕ → String) → Request → Tx Books ℕ
reserve_body agent_key q = do
  check_account q
  t ← check_attribution q
  reserve_attributed agent_key q t

unfoldable pub reserve_request : (ℕ → String) → Request → Tx Books ℕ
unfolding session_scope check_account check_attribution check_budget check_evaluation check_caps
    reserve_daily record_request reserve_charged reserve_budgeted reserve_attributed reserve_body
reserve_request agent_key q = session_scope (reserve_body agent_key q)

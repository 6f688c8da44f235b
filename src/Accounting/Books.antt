-- ===== src/Accounting/Books.antt =====
-- The rows of backend/app/db/models.py that the accounting reads and writes. Costs are whole
-- micro-dollars, dates are numbers.
use reviewlens_ai.Prelude.{
  ℕ, String, Bool, Option, none, some, List, [], ◌∷◌, ◌==◌, nat_eq, string_eq, if◌then◌else◌,
}
use reviewlens_ai.Runtime.State.{RunBudgetState}

-- OpenRouterAccountState.
pub record AccountState : Type 0 where
  pub environment : String
  pub status : String
  pub key_fingerprint : Option String
  pub total_credits_microusd : Option ℕ
  pub total_usage_microusd : Option ℕ
  pub checked_at : Option ℕ
  pub last_success_at : Option ℕ
  pub last_failure_at : Option ℕ
  pub error_category : Option String
  pub error_code : Option String

-- EvaluationBudgetState.
pub record EvaluationBudget : Type 0 where
  pub token_limit : ℕ
  pub cost_limit_microusd : ℕ
  pub reserved_tokens : ℕ
  pub consumed_tokens : ℕ
  pub reserved_cost_microusd : ℕ
  pub consumed_cost_microusd : ℕ

-- DailyBudgetState, of the scope "public".
pub record DailyBudget : Type 0 where
  pub budget_date : ℕ
  pub max_cost_microusd : ℕ
  pub reserved_cost_microusd : ℕ
  pub consumed_cost_microusd : ℕ

pub data ReservationStatus : Type 0 where
  reserved reconciled released : ReservationStatus

-- BudgetReservation.
pub record Reservation : Type 0 where
  pub id : ℕ
  pub task_run_id : ℕ
  pub task_attempt_id : ℕ
  pub agent_version_id : Option ℕ
  pub call_key : String
  pub operation : String
  pub retry_number : ℕ
  pub estimated_tokens : ℕ
  pub estimated_cost_microusd : ℕ
  pub actual_tokens : Option ℕ
  pub actual_cost_microusd : Option ℕ
  pub status : ReservationStatus
  pub created_date : ℕ
  pub reconciled_at : Option ℕ

-- UsageEvent: its statuses and totals.
pub record UsageEvent : Type 0 where
  pub reservation_id : ℕ
  pub status : String
  pub usage_status : String
  pub generation_id : Option String
  pub total_tokens : Option ℕ
  pub total_cost_microusd : Option ℕ
  pub error_category : Option String
  pub error_code : Option String
  pub next_reconciliation_at : Option ℕ
  pub completed_at : Option ℕ

-- A number of the policy's `token_limits`, and what may stand under one of its names.
pub data LimitNumber : Type 0 where
  at_most : ℕ → LimitNumber
  negative : LimitNumber

pub data RawLimit : Type 0 where
  absent : RawLimit
  flat : LimitNumber → RawLimit
  per_key : List (String × LimitNumber) → RawLimit

-- BudgetPolicyVersion.
pub record BudgetPolicy : Type 0 where
  pub task_total_tokens : RawLimit
  pub task_cost_microusd : RawLimit
  pub agent_total_tokens : RawLimit
  pub agent_cost_microusd : RawLimit
  pub public_daily_cost_cap : ℕ

-- The rows of one run, and those that all runs share. `kill_switch` is that of the active
-- configuration, if there is one.
pub record Books : Type 0 where
  pub kill_switch : Option Bool
  pub account : Option AccountState
  pub initiator_type : String
  pub budget : Option RunBudgetState
  pub policy : Option BudgetPolicy
  pub evaluation : Option EvaluationBudget
  pub daily : List DailyBudget
  pub reservations : List Reservation
  pub usage : List UsageEvent

unfoldable pub find_daily : ℕ → List DailyBudget → Option DailyBudget
find_daily d [] = none
find_daily d (b ∷ bs) = if b.budget_date == d then some b else find_daily d bs

unfoldable pub put_daily : DailyBudget → List DailyBudget → List DailyBudget
put_daily b [] = b ∷ []
put_daily b (c ∷ cs) = if c.budget_date == b.budget_date then b ∷ cs else c ∷ put_daily b cs

unfoldable pub find_reservation : ℕ → List Reservation → Option Reservation
find_reservation i [] = none
find_reservation i (r ∷ rs) = if r.id == i then some r else find_reservation i rs

-- The row of the primary key is replaced.
unfoldable pub put_reservation : Reservation → List Reservation → List Reservation
put_reservation r [] = []
put_reservation r (q ∷ qs) = if q.id == r.id then r ∷ qs else q ∷ put_reservation r qs

unfoldable pub find_usage : ℕ → List UsageEvent → Option UsageEvent
find_usage i [] = none
find_usage i (u ∷ us) = if u.reservation_id == i then some u else find_usage i us

unfoldable pub put_usage : UsageEvent → List UsageEvent → List UsageEvent
put_usage u [] = []
put_usage u (v ∷ vs) = if v.reservation_id == u.reservation_id then u ∷ vs else v ∷ put_usage u vs

abbrev pub or_zero : Option ℕ → ℕ
or_zero none = 0
or_zero (some n) = n

-- The two CASE columns of `_effective_sum`.
abbrev pub effective_tokens : Reservation → ℕ
effective_tokens r = elim r.status [ reserved ↦ r.estimated_tokens | _ ↦ or_zero r.actual_tokens ]

abbrev pub effective_cost : Reservation → ℕ
effective_cost r = elim r.status [
  | reserved ↦ r.estimated_cost_microusd
  | _ ↦ or_zero r.actual_cost_microusd
]

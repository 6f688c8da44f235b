-- ===== src/Accounting/Settle.antt =====
-- backend/app/llmops/accounting.py: the three `finalize_...` functions with `_reconcile_locked`,
-- `_move_daily_cost` and `_move_evaluation_budget`. Of a usage event the statuses, totals, error and
-- times are modelled.
use reviewlens_ai.Prelude.{
  ℕ, ◌+◌, ◌-◌, ◌*◌, String, Bool, true, false, not, ◌||◌, Option, none, some, ◌==◌, nat_eq,
  string_eq, leb, if◌then◌else◌,
}
use reviewlens_ai.Runtime.Result.{ok, missing_records}
use reviewlens_ai.Runtime.State.{RunBudgetState, exhausted, second}
use reviewlens_ai.Accounting.Transaction.{Tx, pure, throw, modify, session_scope, ◌>>◌}
use reviewlens_ai.Accounting.Books.{
  EvaluationBudget, DailyBudget, Reservation, reserved, reconciled, released, UsageEvent, Books,
  find_daily, put_daily, find_reservation, put_reservation, find_usage, put_usage,
}
use reviewlens_ai.Accounting.Reserve.{is_evaluation, is_public}

-- NormalizedUsage: its totals.
pub record Usage : Type 0 where
  pub total_tokens : ℕ
  pub total_cost_microusd : ℕ

abbrev moved_daily : Reservation → ℕ → DailyBudget → DailyBudget
moved_daily r cost d = record d {
  reserved_cost_microusd = d.reserved_cost_microusd - r.estimated_cost_microusd;
  consumed_cost_microusd = d.consumed_cost_microusd + cost;
}

-- Truncated subtraction is `max(0, ...)` throughout.
unfoldable pub move_daily_cost : Reservation → ℕ → Books → Books
unfolding find_daily put_daily
move_daily_cost r cost b =
    if not (is_public b) then b else elim (find_daily r.created_date b.daily) [
      | none ↦ b
      | some d ↦ record b { daily = put_daily (moved_daily r cost d) b.daily }
    ]

abbrev moved_evaluation : Reservation → ℕ → ℕ → EvaluationBudget → EvaluationBudget
moved_evaluation r tokens cost e = record e {
  reserved_tokens = e.reserved_tokens - r.estimated_tokens;
  reserved_cost_microusd = e.reserved_cost_microusd - r.estimated_cost_microusd;
  consumed_tokens = e.consumed_tokens + tokens;
  consumed_cost_microusd = e.consumed_cost_microusd + cost;
}

unfoldable pub move_evaluation_budget : Reservation → ℕ → ℕ → Tx Books (Unit {0})
move_evaluation_budget r tokens cost b =
    if not (is_evaluation b) then pure tt b else elim b.evaluation [
      | none ↦ throw missing_records b
      | some e ↦ (ok tt, record b { evaluation = some (moved_evaluation r tokens cost e) })
    ]

abbrev pub freed_budget : Reservation → RunBudgetState → RunBudgetState
freed_budget r x = record x {
  reserved_tokens = x.reserved_tokens - r.estimated_tokens;
  reserved_cost_microusd = x.reserved_cost_microusd - r.estimated_cost_microusd;
}

abbrev pub free : Reservation → Option RunBudgetState → Option RunBudgetState
free r none = none
free r (some x) = some (freed_budget r x)

abbrev pub reached : Option ℕ → ℕ → Bool
reached none used = false
reached (some cap') used = leb cap' used

abbrev pub consumed_budget : ℕ → ℕ → RunBudgetState → RunBudgetState
consumed_budget tokens cost x = record x {
  consumed_tokens = x.consumed_tokens + tokens;
  consumed_cost_microusd = x.consumed_cost_microusd + cost;
}

abbrev pub marked_budget : RunBudgetState → RunBudgetState
marked_budget x =
    if reached x.max_tokens x.consumed_tokens
      || reached x.max_cost_microusd x.consumed_cost_microusd
    then record x { status = exhausted }
    else x

abbrev pub consume : Reservation → ℕ → ℕ → Option RunBudgetState → Option RunBudgetState
consume r tokens cost none = none
consume r tokens cost (some x) =
    some (marked_budget (consumed_budget tokens cost (freed_budget r x)))

abbrev pub save_reservation : Reservation → Tx Books (Unit {0})
save_reservation r =
    modify (λ (b : Books). record b { reservations = put_reservation r b.reservations })

abbrev pub save_usage : UsageEvent → Tx Books (Unit {0})
save_usage u = modify (λ (b : Books). record b { usage = put_usage u b.usage })

-- `_reconcile_locked`.
unfoldable pub reconcile_locked : ℕ → Reservation → ℕ → ℕ → Tx Books (Unit {0})
unfolding put_reservation move_daily_cost move_evaluation_budget
reconcile_locked now r tokens cost = do
  modify (λ (b : Books). record b { budget = consume r tokens cost b.budget })
  modify (move_daily_cost r cost)
  move_evaluation_budget r tokens cost
  save_reservation (record r {
    actual_tokens = some tokens;
    actual_cost_microusd = some cost;
    status = reconciled;
    reconciled_at = some now;
  })

abbrev pub is_reserved : Reservation → Bool
is_reserved r = elim r.status [ reserved ↦ true | _ ↦ false ]

-- The reservation and the usage event of an id, if both are there and the reservation is open.
abbrev pub with_open : ℕ → (Reservation → UsageEvent → Tx Books (Unit {0})) → Tx Books (Unit {0})
with_open id k b = elim (find_reservation id b.reservations) [
  | none ↦ pure tt b
  | some r ↦ elim (find_usage id b.usage) [
    | none ↦ pure tt b
    | some u ↦ if is_reserved r then k r u b else pure tt b
  ]
]

unfoldable pub release_reservation : ℕ → Reservation → Tx Books (Unit {0})
unfolding put_reservation move_daily_cost move_evaluation_budget
release_reservation now r = do
  modify (λ (b : Books). record b { budget = free r b.budget })
  move_evaluation_budget r 0 0
  modify (move_daily_cost r 0)
  save_reservation (record r {
    status = released;
    actual_tokens = some 0;
    actual_cost_microusd = some 0;
    reconciled_at = some now;
  })

unfoldable pub fail_open :
    ℕ → String → Option String → Reservation → UsageEvent → Tx Books (Unit {0})
unfolding put_usage
fail_open now category code r u = do
  release_reservation now r
  save_usage (record u {
    status = "failed";
    usage_status = "complete";
    error_category = some category;
    error_code = code;
    completed_at = some now;
  })

unfoldable pub finalize_failed_request : ℕ → ℕ → String → Option String → Tx Books (Unit {0})
unfolding session_scope find_reservation find_usage release_reservation fail_open
finalize_failed_request now id category code =
    session_scope (with_open id (fail_open now category code))

-- The arguments of `finalize_successful_request` that are modelled.
pub record Outcome : Type 0 where
  pub generation_id : Option String
  pub usage_value : Option Usage
  pub result_valid : Bool
  pub invalid_error_code : String
  pub reconciled : Bool
  pub interval_seconds : ℕ

abbrev pub judged : Outcome → UsageEvent → UsageEvent
judged o u =
    if o.result_valid
    then record u { generation_id = o.generation_id; status = "succeeded" }
    else record u {
      generation_id = o.generation_id;
      status = "failed";
      error_category = some "invalid_structured_output";
      error_code = some o.invalid_error_code;
    }

abbrev pub has_text : Option String → Bool
has_text none = false
has_text (some g) = not (g == "")

unfoldable pub settle_with : ℕ → Reservation → UsageEvent → ℕ → ℕ → String → Tx Books (Unit {0})
unfolding reconcile_locked put_usage
settle_with now r u tokens cost usage_status = do
  reconcile_locked now r tokens cost
  save_usage (record u {
    total_tokens = some tokens;
    total_cost_microusd = some cost;
    usage_status = usage_status;
    completed_at = some now;
  })

-- The usage is not known: it is asked for later if there is a generation, else estimated.
unfoldable pub settle_unknown : ℕ → Outcome → Reservation → UsageEvent → Tx Books (Unit {0})
settle_unknown now o r u =
    if has_text o.generation_id
    then save_usage (record u { next_reconciliation_at = some (now + o.interval_seconds * second) })
    else settle_with now r u r.estimated_tokens r.estimated_cost_microusd "unreconcilable"

unfoldable pub settle_usage :
    Option Usage → ℕ → Outcome → Reservation → UsageEvent → Tx Books (Unit {0})
settle_usage none now o r u = settle_unknown now o r u
settle_usage (some v) now o r u =
    settle_with now r u v.total_tokens v.total_cost_microusd
      (if o.reconciled then "reconciled" else "complete")

unfoldable pub succeed_open : ℕ → Outcome → Reservation → UsageEvent → Tx Books (Unit {0})
succeed_open now o r u = settle_usage o.usage_value now o r (judged o u)

unfoldable pub finalize_successful_request : ℕ → ℕ → Outcome → Tx Books (Unit {0})
unfolding session_scope find_reservation find_usage settle_with settle_unknown settle_usage
    succeed_open
finalize_successful_request now id o = session_scope (with_open id (succeed_open now o))

unfoldable pub close_open : ℕ → Reservation → UsageEvent → Tx Books (Unit {0})
close_open now r u =
    settle_with now r (record u { next_reconciliation_at = none }) r.estimated_tokens
      r.estimated_cost_microusd "unreconcilable"

unfoldable pub finalize_unreconcilable_request : ℕ → ℕ → Tx Books (Unit {0})
unfolding session_scope find_reservation find_usage settle_with close_open
finalize_unreconcilable_request now id = session_scope (with_open id (close_open now))

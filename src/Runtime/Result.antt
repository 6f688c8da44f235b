-- ===== src/Runtime/Result.antt =====
-- The exceptions that leave a runtime function, and the results that may be one. A raise ends the
-- transaction (backend/app/db/session.py rolls back), so no state comes back with it.
use reviewlens_ai.Prelude.{ℕ, String, Bool, true, false}

pub data Exception : Type 0 where
  invalid_state_transition value_error lookup_error missing_records : Exception
  -- DispatchLockBusy, redis's ConnectionError and ResponseError, and whatever Celery's client raises.
  dispatch_lock_busy connection_error response_error delivery_error : Exception
  runtime_configuration_error overflow_error integrity_error : Exception
  -- Python's RecursionError: the model's fuel ran out.
  recursion_error : Exception
  -- RuntimeTaskError(code, category), V2Error(status, code), BudgetRejected(code).
  task_error : String → String → Exception
  http_error : ℕ → String → Exception
  budget_rejected : String → Exception

-- `type(exc).__name__`.
abbrev pub exception_name : Exception → String
exception_name invalid_state_transition = "InvalidStateTransition"
exception_name value_error = "ValueError"
exception_name lookup_error = "LookupError"
exception_name missing_records = "RuntimeError"
exception_name dispatch_lock_busy = "DispatchLockBusy"
exception_name connection_error = "ConnectionError"
exception_name response_error = "ResponseError"
exception_name delivery_error = "OperationalError"
exception_name runtime_configuration_error = "RuntimeConfigurationError"
exception_name overflow_error = "OverflowError"
exception_name integrity_error = "IntegrityError"
exception_name recursion_error = "RecursionError"
exception_name (task_error code category) = "RuntimeTaskError"
exception_name (http_error status code) = "V2Error"
exception_name (budget_rejected code) = "BudgetRejected"

pub data Result {ℓ} (A : Type ℓ) : Type ℓ where
  ok : A → Result A
  raise : Exception → Result A

infixl 5 ◌>>=◌ ◌>>◌
abbrev pub ◌>>=◌ {ℓ κ} : {A : Type ℓ} {B : Type κ} → Result A → (A → Result B) → Result B
ok a >>= f = f a
raise e >>= f = raise e

abbrev pub ◌>>◌ {ℓ} : {B : Type ℓ} → Result (Unit {0}) → Result B → Result B
m >> k = m >>= λ _. k

abbrev pub guard : Bool → Exception → Result (Unit {0})
guard true e = ok tt
guard false e = raise e

-- `m` returns, and what it returns satisfies `P`.
abbrev pub Returns {ℓ} : {A : Type ℓ} → (A → Type 0) → Result A → Type 0
Returns P (ok a) = P a
Returns P (raise e) = ⊥

-- ===== src/Accounting/Account.antt =====
-- backend/app/llmops/accounting.py: `_account_state`, `update_account_state`, `reset_account_block`.
-- The fingerprint of the key (an HMAC, empty without a key) and `app_env` are arguments.
use reviewlens_ai.Prelude.{
  ℕ, String, Bool, false, not, ◌&&◌, Option, none, some, ◌==◌, string_eq, if◌then◌else◌,
}
use reviewlens_ai.Runtime.Result.{missing_records}
use reviewlens_ai.Accounting.Transaction.{Tx, pure, throw, modify, session_scope, ◌>>=◌, ◌>>◌}
use reviewlens_ai.Accounting.Books.{AccountState, Books}

abbrev non_empty : String → Option String
non_empty f = if f == "" then none else some f

abbrev new_account : String → String → AccountState
new_account env fingerprint = record {
  environment = env;
  status = "unknown";
  key_fingerprint = non_empty fingerprint;
  total_credits_microusd = none;
  total_usage_microusd = none;
  checked_at = none;
  last_success_at = none;
  last_failure_at = none;
  error_category = none;
  error_code = none;
}

abbrev same_fingerprint : Option String → String → Bool
same_fingerprint none f = false
same_fingerprint (some g) f = g == f

abbrev pub save_account : AccountState → Tx Books (Unit {0})
save_account a = modify (λ (b : Books). record b { account = some a })

abbrev cleared : AccountState → AccountState
cleared a = record a { status = "unknown"; error_category = none; error_code = none }

known_account : String → String → Option AccountState → Tx Books AccountState
known_account env fingerprint none = do
  save_account (new_account env fingerprint)
  pure (new_account env fingerprint)
known_account env fingerprint (some a) =
    if not (a.environment == env)
    then throw missing_records
    else if not (fingerprint == "") && not (same_fingerprint a.key_fingerprint fingerprint)
    then (do
      let a' = record (cleared a) { key_fingerprint = some fingerprint }
      save_account a'
      pure a')
    else pure a

unfoldable pub account_state : String → String → Tx Books AccountState
unfolding known_account
account_state env fingerprint b = known_account env fingerprint b.account b

-- The status that an error's category blocks the account with.
abbrev blocked_status : String → String
blocked_status category =
    if category == "openrouter_authentication"
    then "authentication_blocked"
    else if category == "openrouter_payment_required"
    then "payment_blocked"
    else "unavailable"

abbrev updated : ℕ → Option String → Option String → AccountState → AccountState
updated now none code a = record a {
  checked_at = some now;
  status = "healthy";
  last_success_at = some now;
  error_category = none;
  error_code = none;
}
updated now (some category) code a = record a {
  checked_at = some now;
  status = blocked_status category;
  last_failure_at = some now;
  error_category = some category;
  error_code = code;
}

abbrev or_kept : Option ℕ → Option ℕ → Option ℕ
or_kept none old = old
or_kept (some n) old = some n

-- `code` comes cut to 120 characters, `none` if it is empty.
unfoldable pub update_account_state :
    String → String → ℕ → Option String → Option String → Option ℕ → Option ℕ → Tx Books (Unit {0})
unfolding account_state session_scope
update_account_state env fingerprint now category code credits usage = session_scope do
  a ← account_state env fingerprint
  let a' = updated now category code a
  save_account (record a' {
    total_credits_microusd = or_kept credits a'.total_credits_microusd;
    total_usage_microusd = or_kept usage a'.total_usage_microusd;
  })

unfoldable pub reset_account_block : String → String → ℕ → Tx Books (Unit {0})
unfolding account_state session_scope
reset_account_block env fingerprint now = session_scope do
  a ← account_state env fingerprint
  save_account (record (cleared a) { checked_at = some now })

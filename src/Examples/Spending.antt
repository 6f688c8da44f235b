-- ===== src/Examples/Spending.antt =====
-- The accounting at work on the books of BookData.antt.
use reviewlens_ai.Prelude.{◌≡◌, refl, some, arith}
use reviewlens_ai.Runtime.Result.{ok, raise, budget_rejected}
use reviewlens_ai.Accounting.Books.{Books}
use reviewlens_ai.Accounting.Reserve.{TaskRow, reserve_request, check_account, check_attribution}
use reviewlens_ai.Accounting.Within.{
  UnderCaps, reserve_request-UnderCaps, reserve_request-over_token_cap,
}
use reviewlens_ai.Accounting.Sums.{Balanced}
use reviewlens_ai.Accounting.Balance.{
  unreconcilable, settle, settle-Balanced, reserve_request-Balanced,
}
use reviewlens_ai.Examples.RunData.{a_budget}
use reviewlens_ai.Examples.BookData.{new_books, request_for, key_text}

abbrev reserved_books : Books
unfolding reserve_request
reserved_books = (reserve_request key_text (request_for 100) new_books).1

new_books-reserved : reserve_request key_text (request_for 100) new_books ≡ (ok 9, reserved_books)
unfolding reserve_request
new_books-reserved = refl

reserve_request-UnderCaps_example : UnderCaps (request_for 100) new_books reserved_books
reserve_request-UnderCaps_example =
    reserve_request-UnderCaps key_text (request_for 100) new_books reserved_books 9
      new_books-reserved

new_books-Balanced : Balanced new_books
new_books-Balanced x h = record {
  held_tokens = ground (arith, h);
  held_cost = ground (arith, h);
  used_tokens = ground (arith, h);
  used_cost = ground (arith, h);
}

reserved-Balanced : Balanced (reserve_request key_text (request_for 100) new_books).1
reserved-Balanced = reserve_request-Balanced key_text (request_for 100) new_books new_books-Balanced

reserve_request-Balanced_example : Balanced (reserve_request key_text (request_for 100) new_books).1
reserve_request-Balanced_example =
    reserve_request-Balanced key_text (request_for 100) new_books new_books-Balanced

settle-Balanced_example :
    Balanced (settle 30 9 unreconcilable (reserve_request key_text (request_for 100) new_books).1)
settle-Balanced_example =
    settle-Balanced 30 9 unreconcilable (reserve_request key_text (request_for 100) new_books).1
      reserved-Balanced

abbrev known_books : Books
unfolding check_account
known_books = (check_account (request_for 2000) new_books).1

account_admits : check_account (request_for 2000) new_books ≡ (ok tt, known_books)
unfolding check_account
account_admits = refl

abbrev task_row : TaskRow
task_row = record { id = 2; run_id = 1; workflow_task_key = "analyze"; agent_version_id = some 5 }

attribution_admits : check_attribution (request_for 2000) known_books ≡ (ok task_row, known_books)
unfolding check_attribution check_account
attribution_admits = refl

reserve_request-over_token_cap_example :
    reserve_request key_text (request_for 2000) new_books
    ≡ (raise (budget_rejected "run_token_budget_exceeded"), new_books)
reserve_request-over_token_cap_example =
    reserve_request-over_token_cap key_text (request_for 2000) new_books known_books tt task_row
      a_budget account_admits attribution_admits refl refl refl

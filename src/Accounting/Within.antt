-- ===== src/Accounting/Within.antt =====
-- What an accepted reservation leaves under its caps, and what a refused one leaves as it was.
use reviewlens_ai.Prelude.{
  ◌==◌, string_eq, ℕ, ◌+◌, ◌≤◌, String, true, false, ◌≡◌, sym, ap, subst, ◌∙◌, Option, none, some,
  arith,
}
use reviewlens_ai.Runtime.Result.{Exception, Result, ok, raise, budget_rejected}
use reviewlens_ai.Runtime.State.{RunBudgetState, active, exhausted}
use reviewlens_ai.Accounting.Transaction.{Tx, session_scope}
use reviewlens_ai.Accounting.Books.{EvaluationBudget, DailyBudget, Books, find_daily}
use reviewlens_ai.Accounting.Reserve.{
  Request, TaskRow, exceeds, check_account, check_attribution, check_budget, reserve_request,
  is_evaluation, is_public, charged_budget, charged_evaluation, reserve_attributed, reserve_body,
}
use reviewlens_ai.Accounting.Caps.{
  Same, check_account-Same, check_budget-ok, check_evaluation-ok, reserve_daily-ok,
}
use reviewlens_ai.Accounting.Steps.{steps, recorded_rows}

-- A cap that is set is at least `n`.
abbrev pub Within : Option ℕ → ℕ → Type 0
Within none n = Unit
Within (some cap') n = n ≤ cap'

-- The caps of the run, of the evaluations and of the day, after a reservation.
pub record UnderCaps (q : Request) (b b' : Books) : Type 0 where
  pub run_budget : RunBudgetState
  pub of_run : b'.budget ≡ some run_budget
  pub tokens :
      Within run_budget.max_tokens (run_budget.reserved_tokens + run_budget.consumed_tokens)
  pub cost :
      Within run_budget.max_cost_microusd
        (run_budget.reserved_cost_microusd + run_budget.consumed_cost_microusd)
  pub evaluation :
      is_evaluation b ≡ true
      → (v : EvaluationBudget) × (b'.evaluation ≡ some v)
        × (v.reserved_tokens + v.consumed_tokens ≤ v.token_limit)
        × (v.reserved_cost_microusd + v.consumed_cost_microusd ≤ v.cost_limit_microusd)
  pub day :
      is_public b ≡ true
      → (d : DailyBudget) × (find_daily q.today b'.daily ≡ some d)
        × (d.reserved_cost_microusd + d.consumed_cost_microusd ≤ d.max_cost_microusd)

exceeds-Within : (c : Option ℕ) (n m : ℕ) → exceeds c n ≡ false → m ≡ n → Within c m
exceeds-Within none n m h e = tt
exceeds-Within (some c) n m h e = ground arith

-- A request that `reserve_request` accepts leaves the run's tokens and cost (reserved and consumed
-- together) within the run's caps where these are set, those of an evaluation run within the
-- evaluation limits, and the cost of a public run's day within the day's cap.
pub reserve_request-UnderCaps :
    (agent_key : ℕ → String) (q : Request) (b b' : Books) (id : ℕ)
    → reserve_request agent_key q b ≡ (ok id, b')
    → UnderCaps q b b'
reserve_request-UnderCaps agent_key q b b' id h =
    let st = steps agent_key q b b' id h in
    let pr = st.priced in
    let rows = recorded_rows q st.budget pr.evaluation pr.after b' pr.recorded in
    let fits = check_budget-ok q st.before st.before st.budget st.budget_ok in
    record {
      run_budget = charged_budget q st.budget;
      of_run = rows.0;
      tokens = exceeds-Within st.budget.max_tokens _ _ fits.1 (omega arith);
      cost = exceeds-Within st.budget.max_cost_microusd _ _ fits.2 (omega arith);
      evaluation = λ i.
          let (v, e, t, c) =
            check_evaluation-ok q st.before st.before pr.evaluation pr.evaluation_ok (
              subst (λ (s : String). (s == "admin_evaluation") ≡ true) (sym st.account_ok.initiator)
                i) in
          (charged_evaluation q v, rows.2 v e, omega arith, omega arith);
      day = λ i.
          let (d, e, c, m) =
            reserve_daily-ok pr.policy.public_daily_cost_cap q st.before pr.after tt pr.daily_ok
              (subst (λ (s : String). (s == "public") ≡ true) (sym st.account_ok.initiator) i) in
          (d, ap (find_daily q.today) rows.1 ∙ e, c);
    }

-- The bodies that are rolled back.
rolled_back :
    {A : Type 0} (m : Tx Books A) (b b1 : Books) (e : Exception)
    → m b ≡ (raise e, b1)
    → session_scope m b ≡ (raise e, b)
unfolding session_scope
rolled_back m b b1 e h = ground arith

over_token_cap :
    (q : Request) (b : Books) (x : RunBudgetState)
    → b.budget ≡ some x
    → x.status ≡ active
    → exceeds x.max_tokens (x.reserved_tokens + x.consumed_tokens + q.estimated_tokens) ≡ true
    → check_budget q b ≡ (
      raise (budget_rejected "run_token_budget_exceeded"),
      record b { budget = some (record x { status = exhausted }) },
    )
unfolding check_budget
over_token_cap q b x e a o = ground arith

refused_body :
    (agent_key : ℕ → String) (q : Request) (b b1 b2 : Books) (u : Unit {0}) (t : TaskRow)
    (x : RunBudgetState)
    → check_account q b ≡ (ok u, b1)
    → check_attribution q b1 ≡ (ok t, b1)
    → check_budget q b1 ≡ (raise (budget_rejected "run_token_budget_exceeded"), b2)
    → reserve_body agent_key q b ≡ (raise (budget_rejected "run_token_budget_exceeded"), b2)
unfolding reserve_body reserve_attributed
refused_body agent_key q b b1 b2 u t x h k l = rw h (rw k (rw l))

-- A request that the account and the attribution admit, and that would take an active budget over
-- its token cap, is refused with "run_token_budget_exceeded", and the books stay as they were: the
-- mark "exhausted" that the code sets on the budget is rolled back with the transaction.
pub reserve_request-over_token_cap :
    (agent_key : ℕ → String) (q : Request) (b b1 : Books) (u : Unit {0}) (t : TaskRow)
    (x : RunBudgetState)
    → check_account q b ≡ (ok u, b1)
    → check_attribution q b1 ≡ (ok t, b1)
    → b.budget ≡ some x
    → x.status ≡ active
    → exceeds x.max_tokens (x.reserved_tokens + x.consumed_tokens + q.estimated_tokens) ≡ true
    → reserve_request agent_key q b ≡ (raise (budget_rejected "run_token_budget_exceeded"), b)
unfolding reserve_request
reserve_request-over_token_cap agent_key q b b1 u t x h k e a o =
    let same = subst (Same b) (ap (λ (r : Result _ × Books). r.1) h) (check_account-Same q b) in
    let refused = over_token_cap q b1 x (same.budget ∙ e) a o in
    rolled_back (reserve_body agent_key q) b _ _ (refused_body agent_key q b b1 _ u t x h k refused)

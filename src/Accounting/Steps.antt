-- ===== src/Accounting/Steps.antt =====
-- The steps of an accepted request, and the books between them.
use reviewlens_ai.Prelude.{
  List, ◌∷◌, string_eq, ℕ, String, ◌≡◌, sym, ap, subst, ◌∙◌, Option, some, arith,
}
use reviewlens_ai.Runtime.Result.{Exception, Result, ok, raise}
use reviewlens_ai.Runtime.State.{RunBudgetState}
use reviewlens_ai.Accounting.Transaction.{Tx, session_scope, ◌>>=◌, ◌>>◌}
use reviewlens_ai.Accounting.Books.{EvaluationBudget, BudgetPolicy, Reservation, Books}
use reviewlens_ai.Accounting.Reserve.{
  Request, TaskRow, check_account, check_attribution, check_budget, check_evaluation, check_caps,
  reserve_daily, record_request, reserve_request, charged_budget, charged_evaluation,
  new_reservation, reserve_charged, reserve_budgeted, reserve_attributed, reserve_body, policy_of,
  of_task, of_agent,
}
use reviewlens_ai.Accounting.Caps.{
  >>=-eq-ok, session_scope-eq-ok, Same, check_account-Same, check_attribution-state,
  check_budget-ok, check_evaluation-state, check_caps-state, Kept, reserve_daily-Kept,
}

record_request-id :
    (q : Request) (x : RunBudgetState) (e : Option EvaluationBudget) (b b' : Books) (id : ℕ)
    → record_request q x e b ≡ (ok id, b')
    → record_request q x e b ≡ (ok q.reservation_id, b')
unfolding record_request
record_request-id q x e b b' id h = ground arith

-- A body that leaves the books alone when it returns.
still :
    {A : Type 0} (m : Tx Books A) (b t : Books) (a : A)
    → (m b).1 ≡ b
    → m b ≡ (ok a, t)
    → (t ≡ b) × (m b ≡ (ok a, b))
still m b t a e h =
    let same = sym (ap (λ (r : Result _ × Books). r.1) h) ∙ e in
    (same, subst (λ x. m b ≡ (ok a, x)) same h)

>>-still :
    {B : Type 0} (m : Tx Books (Unit {0})) (k : Tx Books B) (b b' : Books) (v : B)
    → (m b).1 ≡ b
    → (m >> k) b ≡ (ok v, b')
    → k b ≡ (ok v, b')
>>-still m k b b' v e h =
    let (u, t, mt, kt) = >>=-eq-ok m (λ _. k) b b' v h in
    subst (λ x. k x ≡ (ok v, b')) (still m b t u e mt).0 kt

abbrev task_caps : Request → TaskRow → BudgetPolicy → Tx Books (Unit {0})
task_caps q t p =
    check_caps (of_task t.id) p.task_total_tokens p.task_cost_microusd t.workflow_task_key
      "task_token_budget_exceeded" "task_cost_budget_exceeded" q

abbrev agent_caps : (ℕ → String) → Request → BudgetPolicy → Tx Books (Unit {0})
agent_caps agent_key q p =
    check_caps (of_agent q.context.agent_version_id) p.agent_total_tokens p.agent_cost_microusd
      (agent_key q.context.agent_version_id) "agent_token_budget_exceeded"
      "agent_cost_budget_exceeded" q

abbrev day_and_record :
    Request → RunBudgetState → Option EvaluationBudget → BudgetPolicy → Tx Books ℕ
day_and_record q x e p = reserve_daily p.public_daily_cost_cap q >> record_request q x e

charged_steps :
    (agent_key : ℕ → String) (q : Request) (t : TaskRow) (x : RunBudgetState)
    (e : Option EvaluationBudget) (p : BudgetPolicy) (b b' : Books) (id : ℕ)
    → reserve_charged agent_key q t x e p b ≡ (ok id, b')
    → (after : Books) × (reserve_daily p.public_daily_cost_cap q b ≡ (ok tt, after))
      × (record_request q x e after ≡ (ok q.reservation_id, b'))
unfolding reserve_charged
charged_steps agent_key q t x e p b b' id h =
    let h1 =
      >>-still (task_caps q t p) (agent_caps agent_key q p >> day_and_record q x e p) b b' id
        (check_caps-state _ _ _ _ _ _ q b) h in
    let h2 =
      >>-still (agent_caps agent_key q p) (day_and_record q x e p) b b' id
        (check_caps-state _ _ _ _ _ _ q b) h1 in
    let (u, after, d, r) =
      >>=-eq-ok (reserve_daily p.public_daily_cost_cap q) (λ _. record_request q x e) b b' id h2 in
    (after, d, record_request-id q x e after b' id r)

policy_of-state : (b : Books) → (policy_of b).1 ≡ b
policy_of-state b = ground arith

-- The part of the steps that follows the run's budget.
pub record Priced (q : Request) (x : RunBudgetState) (b b' : Books) : Type 0 where
  pub after : Books
  pub evaluation : Option EvaluationBudget
  pub policy : BudgetPolicy
  pub evaluation_ok : check_evaluation q b ≡ (ok evaluation, b)
  pub daily_ok : reserve_daily policy.public_daily_cost_cap q b ≡ (ok tt, after)
  pub recorded : record_request q x evaluation after ≡ (ok q.reservation_id, b')

budgeted_steps :
    (agent_key : ℕ → String) (q : Request) (t : TaskRow) (x : RunBudgetState) (b b' : Books)
    (id : ℕ)
    → reserve_budgeted agent_key q t x b ≡ (ok id, b')
    → Priced q x b b'
unfolding reserve_budgeted
budgeted_steps agent_key q t x b b' id h =
    let (e, b1, e1, h1) =
      >>=-eq-ok (check_evaluation q) (λ e. policy_of >>= reserve_charged agent_key q t x e) b b' id
        h in
    let (same, ev) = still (check_evaluation q) b b1 e (check_evaluation-state q b) e1 in
    let h1' =
      subst (λ s. (policy_of >>= reserve_charged agent_key q t x e) s ≡ (ok id, b')) same h1 in
    let (p, b2, e2, h2) = >>=-eq-ok policy_of (reserve_charged agent_key q t x e) b b' id h1' in
    let still2 = (still policy_of b b2 p (policy_of-state b) e2).0 in
    let h2' = subst (λ s. reserve_charged agent_key q t x e p s ≡ (ok id, b')) still2 h2 in
    let (after, d, r) = charged_steps agent_key q t x e p b b' id h2' in
    record {
      after = after;
      evaluation = e;
      policy = p;
      evaluation_ok = ev;
      daily_ok = d;
      recorded = r;
    }

-- The steps of an accepted request: the books once the account is known, and the run's budget.
pub record Steps (q : Request) (b b' : Books) : Type 0 where
  pub before : Books
  pub budget : RunBudgetState
  pub account_ok : Same b before
  pub budget_ok : check_budget q before ≡ (ok budget, before)
  pub priced : Priced q budget before b'

pub steps :
    (agent_key : ℕ → String) (q : Request) (b b' : Books) (id : ℕ)
    → reserve_request agent_key q b ≡ (ok id, b')
    → Steps q b b'
unfolding reserve_request
steps agent_key q b b' id h =
    let h0 = session_scope-eq-ok (reserve_body agent_key q) b b' id h in
    let (u, b1, e1, h1) =
      >>=-eq-ok (check_account q) (λ _. check_attribution q >>= reserve_attributed agent_key q) b b'
        id h0 in
    let (t, b2, e2, h2) =
      >>=-eq-ok (check_attribution q) (reserve_attributed agent_key q) b1 b' id h1 in
    let same2 = (still (check_attribution q) b1 b2 t (check_attribution-state q b1) e2).0 in
    let h2' = subst (λ s. reserve_attributed agent_key q t s ≡ (ok id, b')) same2 h2 in
    let (x, b3, e3, h3) =
      >>=-eq-ok (check_budget q) (reserve_budgeted agent_key q t) b1 b' id h2' in
    let same3 = (check_budget-ok q b1 b3 x e3).0 in
    record {
      before = b1;
      budget = x;
      account_ok = subst (Same b) (ap (λ (r : Result _ × Books). r.1) e1) (check_account-Same q b);
      budget_ok = subst (λ s. check_budget q b1 ≡ (ok x, s)) same3 e3;
      priced =
          budgeted_steps agent_key q t x b1 b' id
            (subst (λ s. reserve_budgeted agent_key q t x s ≡ (ok id, b')) same3 h3);
    }

-- What the last step writes.
pub recorded_rows :
    (q : Request) (x : RunBudgetState) (e : Option EvaluationBudget) (b b' : Books)
    → record_request q x e b ≡ (ok q.reservation_id, b')
    → (b'.budget ≡ some (charged_budget q x))
      × (b'.daily ≡ b.daily)
      × ((v : EvaluationBudget) → e ≡ some v → b'.evaluation ≡ some (charged_evaluation q v))
      × (b'.reservations ≡ new_reservation q ∷ b.reservations)
unfolding record_request
recorded_rows q x e b b' h = (ground arith, ground arith, λ v i. ground arith, ground arith)

-- The run's budget and reservations after an accepted request.
pub reserved_rows :
    (agent_key : ℕ → String) (q : Request) (b b' : Books) (id : ℕ)
    → reserve_request agent_key q b ≡ (ok id, b')
    → (x : RunBudgetState) × (b.budget ≡ some x)
      × (b'.budget ≡ some (charged_budget q x))
      × (b'.reservations ≡ new_reservation q ∷ b.reservations)
reserved_rows agent_key q b b' id h =
    let st = steps agent_key q b b' id h in
    let pr = st.priced in
    let rows = recorded_rows q st.budget pr.evaluation pr.after b' pr.recorded in
    let found = check_budget-ok q st.before st.before st.budget st.budget_ok in
    let day =
      subst (Kept st.before) (ap (λ (r : Result (Unit {0}) × Books). r.1) pr.daily_ok)
        (reserve_daily-Kept pr.policy.public_daily_cost_cap q st.before) in
    (
      st.budget,
      sym st.account_ok.budget ∙ found.3,
      rows.0,
      rows.3
          ∙ ap (λ (rs : List Reservation). new_reservation q ∷ rs)
              (day.reservations ∙ st.account_ok.reservations),
    )

-- A request that raises writes nothing.
pub refused_unchanged :
    (agent_key : ℕ → String) (q : Request) (b b' : Books) (e : Exception)
    → reserve_request agent_key q b ≡ (raise e, b')
    → b' ≡ b
unfolding reserve_request session_scope
refused_unchanged agent_key q b b' e h = go (reserve_body agent_key q b) h
  where
    go : (r : Result ℕ × Books) → session_scope (λ _. r) b ≡ (raise e, b') → b' ≡ b
    go (ok i, s) k = absurd (cc)
    go (raise x, s) k = ground arith

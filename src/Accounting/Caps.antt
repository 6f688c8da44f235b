-- ===== src/Accounting/Caps.antt =====
-- The steps of `reserve_request` one by one: what each checks, and which rows it leaves alone.
use reviewlens_ai.Prelude.{
  ℕ, ◌+◌, ◌≤◌, String, Bool, true, false, ◌≡◌, refl, ap, subst, ◌∙◌, Option, none, some, List, [],
  ◌∷◌, nat_eq, arith, eqb_iff,
}
use reviewlens_ai.Runtime.Result.{Result, ok, raise}
use reviewlens_ai.Runtime.State.{RunBudgetState}
use reviewlens_ai.Accounting.Transaction.{Tx, session_scope, ◌>>=◌}
use reviewlens_ai.Accounting.Books.{
  RawLimit, EvaluationBudget, DailyBudget, Reservation, Books, find_daily, put_daily,
}
use reviewlens_ai.Accounting.Reserve.{
  Request, exceeds, check_account, check_attribution, check_budget, check_evaluation, check_caps,
  reserve_daily, is_evaluation, is_public, todays_budget,
}

-- Inversion of a body that returns.
pub >>=-eq-ok :
    {S A B : Type 0} (m : Tx S A) (f : A → Tx S B) (s s' : S) (b : B)
    → (m >>= f) s ≡ (ok b, s')
    → (a : A) × (t : S) × (m s ≡ (ok a, t)) × (f a t ≡ (ok b, s'))
>>=-eq-ok {S} {A} {B} m f s s' b h = go (m s) refl h
  where
    go :
        (r : Result A × S)
        → m s ≡ r
        → ((λ (x : S). r) >>= f) s ≡ (ok b, s')
        → (a : A) × (t : S) × (m s ≡ (ok a, t)) × (f a t ≡ (ok b, s'))
    go (ok a, t) e k = (a, t, e, k)
    go (raise x, t) e k = absurd (cc)

pub session_scope-eq-ok :
    {S A : Type 0} (m : Tx S A) (s s' : S) (a : A)
    → session_scope m s ≡ (ok a, s')
    → m s ≡ (ok a, s')
unfolding session_scope
session_scope-eq-ok {S} {A} m s s' a h = ground arith

-- The rows that the checks leave alone.
pub record Same (b b' : Books) : Type 0 where
  pub budget : b'.budget ≡ b.budget
  pub evaluation : b'.evaluation ≡ b.evaluation
  pub daily : b'.daily ≡ b.daily
  pub initiator : b'.initiator_type ≡ b.initiator_type
  pub reservations : b'.reservations ≡ b.reservations

pub check_account-Same : (q : Request) (b : Books) → Same b (check_account q b).1
unfolding check_account
check_account-Same q b = ground arith

pub check_attribution-state : (q : Request) (b : Books) → (check_attribution q b).1 ≡ b
unfolding check_attribution
check_attribution-state q b = ground arith

pub check_budget-ok :
    (q : Request) (b b' : Books) (x : RunBudgetState)
    → check_budget q b ≡ (ok x, b')
    → (b' ≡ b)
      × (exceeds x.max_tokens (x.reserved_tokens + x.consumed_tokens + q.estimated_tokens) ≡ false)
      × (exceeds x.max_cost_microusd
            (x.reserved_cost_microusd + x.consumed_cost_microusd + q.estimated_cost_microusd)
          ≡ false)
      × (b.budget ≡ some x)
unfolding check_budget
check_budget-ok q b b' x h = ground arith

pub check_evaluation-ok :
    (q : Request) (b b' : Books) (e : Option EvaluationBudget)
    → check_evaluation q b ≡ (ok e, b')
    → is_evaluation b ≡ true
    → (v : EvaluationBudget) × (e ≡ some v)
      × (v.reserved_tokens + v.consumed_tokens + q.estimated_tokens ≤ v.token_limit)
      × (v.reserved_cost_microusd + v.consumed_cost_microusd + q.estimated_cost_microusd
          ≤ v.cost_limit_microusd)
unfolding check_evaluation
check_evaluation-ok q b b' e h i = ground arith

pub check_evaluation-state : (q : Request) (b : Books) → (check_evaluation q b).1 ≡ b
unfolding check_evaluation
check_evaluation-state q b = ground arith

pub check_caps-state :
    (p : Reservation → Bool) (tokens cost : RawLimit) (key tc cc' : String) (q : Request)
    (b : Books)
    → (check_caps p tokens cost key tc cc' q b).1 ≡ b
unfolding check_caps
check_caps-state p tokens cost key tc cc' q b = ground arith

-- The rows that `reserve_daily` leaves alone.
pub record Kept (b b' : Books) : Type 0 where
  pub budget : b'.budget ≡ b.budget
  pub evaluation : b'.evaluation ≡ b.evaluation
  pub initiator : b'.initiator_type ≡ b.initiator_type
  pub reservations : b'.reservations ≡ b.reservations

pub reserve_daily-Kept : (cap' : ℕ) (q : Request) (b : Books) → Kept b (reserve_daily cap' q b).1
unfolding reserve_daily
reserve_daily-Kept cap' q b = ground arith

pub find_daily-put :
    (d : DailyBudget) (ds : List DailyBudget) → find_daily d.budget_date (put_daily d ds) ≡ some d
unfolding find_daily put_daily
find_daily-put d [] = ground (arith, eqb_iff d.budget_date d.budget_date)
find_daily-put d (c ∷ cs) = ground (arith, find_daily-put d cs, eqb_iff d.budget_date d.budget_date)

find_daily-date :
    (k : ℕ) (ds : List DailyBudget) (d : DailyBudget) → find_daily k ds ≡ some d → d.budget_date ≡ k
unfolding find_daily
find_daily-date k [] d h = cc
find_daily-date k (c ∷ cs) d h = ground (arith, find_daily-date k cs d, eqb_iff c.budget_date k)

todays-date :
    (k cap' : ℕ) (ds : List DailyBudget) → (todays_budget k cap' (find_daily k ds)).budget_date ≡ k
todays-date k cap' ds = go (find_daily k ds) refl
  where
    go : (o : Option DailyBudget) → find_daily k ds ≡ o → (todays_budget k cap' o).budget_date ≡ k
    go none e = refl
    go (some d) e = find_daily-date k ds d e

-- The day's row that `reserve_daily` leaves.
abbrev charged_day : ℕ → Request → Books → DailyBudget
charged_day cap' q b =
    let d = todays_budget q.today cap' (find_daily q.today b.daily) in
    record d { reserved_cost_microusd = d.reserved_cost_microusd + q.estimated_cost_microusd }

day-le-cap :
    (k cap' : ℕ) (o : Option DailyBudget) → (todays_budget k cap' o).max_cost_microusd ≤ cap'
day-le-cap k cap' none = omega arith
day-le-cap k cap' (some d) = omega arith

charged_day-found :
    (cap' : ℕ) (q : Request) (b : Books) (ds : List DailyBudget)
    → find_daily q.today (put_daily (charged_day cap' q b) ds) ≡ some (charged_day cap' q b)
charged_day-found cap' q b ds =
    subst (λ k. find_daily k (put_daily (charged_day cap' q b) ds) ≡ some (charged_day cap' q b))
      (todays-date q.today cap' b.daily) (find_daily-put (charged_day cap' q b) ds)

reserve_daily-daily :
    (cap' : ℕ) (q : Request) (b b' : Books) (u : Unit {0})
    → reserve_daily cap' q b ≡ (ok u, b')
    → is_public b ≡ true
    → (b'.daily
        ≡ put_daily
            (charged_day cap' q b)
            (put_daily (todays_budget q.today cap' (find_daily q.today b.daily)) b.daily))
      × ((charged_day cap' q b).reserved_cost_microusd
            + (charged_day cap' q b).consumed_cost_microusd
          ≤ (charged_day cap' q b).max_cost_microusd)
unfolding reserve_daily
reserve_daily-daily cap' q b b' u h i = ground arith

pub reserve_daily-ok :
    (cap' : ℕ) (q : Request) (b b' : Books) (u : Unit {0})
    → reserve_daily cap' q b ≡ (ok u, b')
    → is_public b ≡ true
    → (d : DailyBudget) × (find_daily q.today b'.daily ≡ some d)
      × (d.reserved_cost_microusd + d.consumed_cost_microusd ≤ d.max_cost_microusd)
      × (d.max_cost_microusd ≤ cap')
reserve_daily-ok cap' q b b' u h i =
    let (e, fits) = reserve_daily-daily cap' q b b' u h i in
    (
      charged_day cap' q b,
      ap (find_daily q.today) e ∙ charged_day-found cap' q b _,
      fits,
      day-le-cap q.today cap' (find_daily q.today b.daily),
    )

-- ===== src/Accounting/Sums.antt =====
-- The counters of a run's budget as sums over the run's reservations, and what a settlement does to both.
use reviewlens_ai.Prelude.{
  ℕ, ◌+◌, ◌-◌, ◌≡◌, refl, ap, Option, none, some, List, [], ◌∷◌, nat_eq, arith, sum_by,
}
use reviewlens_ai.Runtime.Result.{ok}
use reviewlens_ai.Runtime.State.{RunBudgetState}
use reviewlens_ai.Accounting.Books.{
  Reservation, reserved, reconciled, released, Books, find_reservation, put_reservation, or_zero,
}
use reviewlens_ai.Accounting.Settle.{reconcile_locked, release_reservation, consume, free}

abbrev pub open_tokens : Reservation → ℕ
open_tokens r = elim r.status [ reserved ↦ r.estimated_tokens | _ ↦ 0 ]

abbrev pub open_cost : Reservation → ℕ
open_cost r = elim r.status [ reserved ↦ r.estimated_cost_microusd | _ ↦ 0 ]

abbrev pub spent_tokens : Reservation → ℕ
spent_tokens r = elim r.status [ reserved ↦ 0 | _ ↦ or_zero r.actual_tokens ]

abbrev pub spent_cost : Reservation → ℕ
spent_cost r = elim r.status [ reserved ↦ 0 | _ ↦ or_zero r.actual_cost_microusd ]

-- The four counters of a budget against the reservations.
pub record Agrees (x : RunBudgetState) (rs : List Reservation) : Type 0 where
  pub held_tokens : x.reserved_tokens ≡ sum_by open_tokens rs
  pub held_cost : x.reserved_cost_microusd ≡ sum_by open_cost rs
  pub used_tokens : x.consumed_tokens ≡ sum_by spent_tokens rs
  pub used_cost : x.consumed_cost_microusd ≡ sum_by spent_cost rs

abbrev pub Balanced : Books → Type 0
Balanced b = (x : RunBudgetState) → b.budget ≡ some x → Agrees x b.reservations

sum_by-put :
    (f : Reservation → ℕ) (r q : Reservation) (rs : List Reservation)
    → find_reservation r.id rs ≡ some q
    → sum_by f (put_reservation r rs) + f q ≡ sum_by f rs + f r
unfolding find_reservation put_reservation
sum_by-put f r q [] h = cc
sum_by-put f r q (x ∷ xs) h = ground (arith, sum_by-put f r q xs, ap f)

-- An open reservation is at most the sum that it is part of.
settled :
    (x y : RunBudgetState) (r r' : Reservation) (rs : List Reservation) (tokens cost : ℕ)
    → find_reservation r'.id rs ≡ some r
    → r.status ≡ reserved
    → Agrees x rs
    → open_tokens r' ≡ 0
    → open_cost r' ≡ 0
    → spent_tokens r' ≡ tokens
    → spent_cost r' ≡ cost
    → y.reserved_tokens ≡ x.reserved_tokens - r.estimated_tokens
    → y.reserved_cost_microusd ≡ x.reserved_cost_microusd - r.estimated_cost_microusd
    → y.consumed_tokens ≡ x.consumed_tokens + tokens
    → y.consumed_cost_microusd ≡ x.consumed_cost_microusd + cost
    → Agrees y (put_reservation r' rs)
settled x y r r' rs tokens cost f s g o1 o2 s1 s2 e1 e2 e3 e4 = ground (
  arith,
  sum_by-put open_tokens r' r rs f,
  sum_by-put open_cost r' r rs f,
  sum_by-put spent_tokens r' r rs f,
  sum_by-put spent_cost r' r rs f,
)

-- What a settlement writes, once it returns.
pub reconciled_books :
    (now : ℕ) (r : Reservation) (tokens cost : ℕ) (b b' : Books) (u : Unit {0})
    → reconcile_locked now r tokens cost b ≡ (ok u, b')
    → (b'.budget ≡ consume r tokens cost b.budget)
      × (b'.reservations
          ≡ put_reservation
              (record r {
                actual_tokens = some tokens;
                actual_cost_microusd = some cost;
                status = reconciled;
                reconciled_at = some now;
              })
              b.reservations)
unfolding reconcile_locked
reconciled_books now r tokens cost b b' u h = ground arith

pub released_books :
    (now : ℕ) (r : Reservation) (b b' : Books) (u : Unit {0})
    → release_reservation now r b ≡ (ok u, b')
    → (b'.budget ≡ free r b.budget)
      × (b'.reservations
          ≡ put_reservation
              (record r {
                status = released;
                actual_tokens = some 0;
                actual_cost_microusd = some 0;
                reconciled_at = some now;
              })
              b.reservations)
unfolding release_reservation
released_books now r b b' u h = ground arith

pub consume-Agrees :
    (r r' : Reservation) (rs : List Reservation) (tokens cost : ℕ) (o : Option RunBudgetState)
    → find_reservation r'.id rs ≡ some r
    → r.status ≡ reserved
    → open_tokens r' ≡ 0
    → open_cost r' ≡ 0
    → spent_tokens r' ≡ tokens
    → spent_cost r' ≡ cost
    → ((x : RunBudgetState) → o ≡ some x → Agrees x rs)
    → (y : RunBudgetState) → consume r tokens cost o ≡ some y
    → Agrees y (put_reservation r' rs)
consume-Agrees r r' rs tokens cost none f s o1 o2 s1 s2 g y h = absurd (cc)
consume-Agrees r r' rs tokens cost (some x) f s o1 o2 s1 s2 g y h =
    settled x y r r' rs tokens cost f s (g x refl) o1 o2 s1 s2 (ground arith) (ground arith)
      (ground arith) (ground arith)

pub free-Agrees :
    (r r' : Reservation) (rs : List Reservation) (o : Option RunBudgetState)
    → find_reservation r'.id rs ≡ some r
    → r.status ≡ reserved
    → open_tokens r' ≡ 0
    → open_cost r' ≡ 0
    → spent_tokens r' ≡ 0
    → spent_cost r' ≡ 0
    → ((x : RunBudgetState) → o ≡ some x → Agrees x rs)
    → (y : RunBudgetState) → free r o ≡ some y
    → Agrees y (put_reservation r' rs)
free-Agrees r r' rs none f s o1 o2 s1 s2 g y h = absurd (cc)
free-Agrees r r' rs (some x) f s o1 o2 s1 s2 g y h =
    settled x y r r' rs 0 0 f s (g x refl) o1 o2 s1 s2 (ground arith) (ground arith) (ground arith)
      (ground arith)

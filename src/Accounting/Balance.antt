-- ===== src/Accounting/Balance.antt =====
-- The counters of a run's budget are the sums over the run's reservations, whatever is reserved and
-- however it is settled.
use reviewlens_ai.Prelude.{
  Bool-cases, if◌then◌else◌, ℕ, String, ◌≡◌, refl, sym, ap, subst, ◌∙◌, inl, inr, Option, none,
  some, List, [], ◌∷◌, nat_eq, arith, eqb_iff,
}
use reviewlens_ai.Runtime.Result.{Result, ok, raise}
use reviewlens_ai.Accounting.Transaction.{Tx, pure, session_scope}
use reviewlens_ai.Accounting.Books.{
  Reservation, reserved, UsageEvent, Books, find_reservation, find_usage,
}
use reviewlens_ai.Accounting.Reserve.{Request, reserve_request, new_reservation, charged_budget}
use reviewlens_ai.Accounting.Caps.{>>=-eq-ok}
use reviewlens_ai.Accounting.Steps.{reserved_rows, refused_unchanged}
use reviewlens_ai.Accounting.Settle.{
  Usage, settle_usage, fail_open, succeed_open, close_open, Outcome, reconcile_locked, with_open,
  release_reservation, finalize_failed_request, finalize_successful_request,
  finalize_unreconcilable_request, is_reserved, save_usage, judged, has_text, settle_with,
  settle_unknown,
}
use reviewlens_ai.Accounting.Sums.{
  Agrees, Balanced, reconciled_books, released_books, consume-Agrees, free-Agrees,
}

find_reservation-eq :
    (i : ℕ) (rs : List Reservation) (r : Reservation) → find_reservation i rs ≡ some r → r.id ≡ i
unfolding find_reservation
find_reservation-eq i [] r h = cc
find_reservation-eq i (q ∷ qs) r h = ground (arith, find_reservation-eq i qs r, eqb_iff q.id i)

find_reservation-id :
    (i : ℕ) (rs : List Reservation) (r : Reservation)
    → find_reservation i rs ≡ some r
    → find_reservation r.id rs ≡ some r
find_reservation-id i rs r h =
    subst (λ k. find_reservation k rs ≡ some r) (sym (find_reservation-eq i rs r h)) h

-- A body keeps the balance if it does where it returns.
session_scope-Balanced :
    (m : Tx Books (Unit {0})) (b : Books)
    → ((b' : Books) → m b ≡ (ok tt, b') → Balanced b')
    → Balanced b
    → Balanced (session_scope m b).1
unfolding session_scope
session_scope-Balanced m b k h = go (m b) refl
  where
    go : (r : Result (Unit {0}) × Books) → m b ≡ r → Balanced (session_scope (λ _. r) b).1
    go (ok tt, b') e = k b' e
    go (raise x, b') e = h

with_open-Balanced :
    (id : ℕ) (k : Reservation → UsageEvent → Tx Books (Unit {0})) (b : Books)
    → ((r : Reservation) (u : UsageEvent) (b' : Books)
        → find_reservation r.id b.reservations ≡ some r
        → r.status ≡ reserved
        → k r u b ≡ (ok tt, b')
        → Balanced b')
    → Balanced b
    → Balanced (session_scope (with_open id k) b).1
with_open-Balanced id k b keep h = session_scope-Balanced (with_open id k) b at_end h
  where
    at_end : (b' : Books) → with_open id k b ≡ (ok tt, b') → Balanced b'
    at_end b' e = split (find_reservation id b.reservations) refl e
      where
        open_case :
            (r : Reservation)
            → find_reservation id b.reservations ≡ some r
            → (o : Option UsageEvent)
            → (elim o [ none ↦ pure tt b | some u ↦ if is_reserved r then k r u b else pure tt b ])
              ≡ (ok tt, b')
            → Balanced b'
        open_case r f none i = subst Balanced (ap (λ (x : Result (Unit {0}) × Books). x.1) i) h
        open_case r f (some u) i = elim (Bool-cases (is_reserved r)) [
          | inl t ↦
              keep r u b' (find_reservation-id id b.reservations r f) (ground arith) (ground arith)
          | inr n ↦ (let same : b ≡ b' = ground arith in subst Balanced same h)
        ]

        split :
            (o : Option Reservation)
            → find_reservation id b.reservations ≡ o
            → (elim o [
              | none ↦ pure tt b
              | some r ↦ elim (find_usage id b.usage) [
                | none ↦ pure tt b
                | some u ↦ if is_reserved r then k r u b else pure tt b
              ]
            ])
              ≡ (ok tt, b')
            → Balanced b'
        split none f i = subst Balanced (ap (λ (x : Result (Unit {0}) × Books). x.1) i) h
        split (some r) f i = open_case r f (find_usage id b.usage) i

saved_rows :
    (u : UsageEvent) (t b' : Books)
    → save_usage u t ≡ (ok tt, b')
    → (b'.budget ≡ t.budget) × (b'.reservations ≡ t.reservations)
saved_rows u t b' h = ground arith

settle_with-Balanced :
    (now : ℕ) (r : Reservation) (u : UsageEvent) (tokens cost : ℕ) (status : String) (b b' : Books)
    → Balanced b
    → find_reservation r.id b.reservations ≡ some r
    → r.status ≡ reserved
    → settle_with now r u tokens cost status b ≡ (ok tt, b')
    → Balanced b'
unfolding settle_with
settle_with-Balanced now r u tokens cost status b b' h f s e =
    let (v, t, e1, e2) = >>=-eq-ok (reconcile_locked now r tokens cost) _ b b' tt e in
    let rows = reconciled_books now r tokens cost b t v e1 in
    let kept = saved_rows _ t b' e2 in
    λ x i. subst (Agrees x) (sym (kept.1 ∙ rows.1)) (
      consume-Agrees r _ b.reservations tokens cost b.budget f s refl refl refl refl h x
        (sym (kept.0 ∙ rows.0) ∙ i))

fail_open-Balanced :
    (now : ℕ) (category : String) (code : Option String) (r : Reservation) (u : UsageEvent)
    (b b' : Books)
    → Balanced b
    → find_reservation r.id b.reservations ≡ some r
    → r.status ≡ reserved
    → fail_open now category code r u b ≡ (ok tt, b')
    → Balanced b'
unfolding fail_open
fail_open-Balanced now category code r u b b' h f s e =
    let (v, t, e1, e2) = >>=-eq-ok (release_reservation now r) _ b b' tt e in
    let rows = released_books now r b t v e1 in
    let kept = saved_rows _ t b' e2 in
    λ x i. subst (Agrees x) (sym (kept.1 ∙ rows.1)) (
      free-Agrees r _ b.reservations b.budget f s refl refl refl refl h x
        (sym (kept.0 ∙ rows.0) ∙ i))

settle_unknown-Balanced :
    (now : ℕ) (o : Outcome) (r : Reservation) (u : UsageEvent) (b b' : Books)
    → Balanced b
    → find_reservation r.id b.reservations ≡ some r
    → r.status ≡ reserved
    → settle_unknown now o r u b ≡ (ok tt, b')
    → Balanced b'
unfolding settle_unknown
settle_unknown-Balanced now o r u b b' h f s e = elim (Bool-cases (has_text o.generation_id)) [
  | inl later ↦
      (let kept = saved_rows _ b b' (rw later at e) in
        λ x i. subst (Agrees x) (sym kept.1) (h x (sym kept.0 ∙ i)))
  | inr never ↦
      settle_with-Balanced now r u r.estimated_tokens r.estimated_cost_microusd "unreconcilable" b
        b' h f s (rw never at e)
]

settle_usage-Balanced :
    (v : Option Usage) (now : ℕ) (o : Outcome) (r : Reservation) (u : UsageEvent) (b b' : Books)
    → Balanced b
    → find_reservation r.id b.reservations ≡ some r
    → r.status ≡ reserved
    → settle_usage v now o r u b ≡ (ok tt, b')
    → Balanced b'
unfolding settle_usage
settle_usage-Balanced none now o r u b b' h f s e = settle_unknown-Balanced now o r u b b' h f s e
settle_usage-Balanced (some v) now o r u b b' h f s e =
    settle_with-Balanced now r u v.total_tokens v.total_cost_microusd
      (if o.reconciled then "reconciled" else "complete") b b' h f s e

-- The ways in which a reservation of the run ends.
pub data Settlement : Type 0 where
  failure : String → Option String → Settlement
  success : Outcome → Settlement
  unreconcilable : Settlement

abbrev pub settle : ℕ → ℕ → Settlement → Books → Books
settle now id (failure category code) b = (finalize_failed_request now id category code b).1
settle now id (success o) b = (finalize_successful_request now id o b).1
settle now id unreconcilable b = (finalize_unreconcilable_request now id b).1

-- Whichever way a reservation of whatever id is settled, now or a second time, returning or raising:
-- where the reserved and consumed tokens and costs of the run's budget are the sums over the run's
-- reservations, they are so afterwards.
pub settle-Balanced :
    (now id : ℕ) (how : Settlement) (b : Books) → Balanced b → Balanced (settle now id how b)
unfolding finalize_failed_request finalize_successful_request finalize_unreconcilable_request
    succeed_open close_open
settle-Balanced now id (failure category code) b h =
    with_open-Balanced id (fail_open now category code) b
      (λ r u b' f s e. fail_open-Balanced now category code r u b b' h f s e) h
settle-Balanced now id (success o) b h =
    with_open-Balanced id (succeed_open now o) b
      (λ r u b' f s e. settle_usage-Balanced o.usage_value now o r (judged o u) b b' h f s e) h
settle-Balanced now id unreconcilable b h =
    with_open-Balanced id (close_open now) b
      (λ r u b' f s e.
        settle_with-Balanced now r (record u { next_reconciliation_at = none }) r.estimated_tokens
          r.estimated_cost_microusd "unreconcilable" b b' h f s e)
      h

-- A request that is accepted, or refused for any reason, keeps the counters of the run's budget equal
-- to the sums over the run's reservations.
pub reserve_request-Balanced :
    (agent_key : ℕ → String) (q : Request) (b : Books)
    → Balanced b
    → Balanced (reserve_request agent_key q b).1
reserve_request-Balanced agent_key q b h = go (reserve_request agent_key q b) refl
  where
    accepted : (id : ℕ) (b' : Books) → reserve_request agent_key q b ≡ (ok id, b') → Balanced b'
    accepted id b' e =
        let (x, f, g, r) = reserved_rows agent_key q b b' id e in
        λ y i.
          let a : Agrees x b.reservations = h x f in
          subst (Agrees y) (sym r) (
            let same : charged_budget q x ≡ y = ground arith in
            let charged : Agrees (charged_budget q x) (new_reservation q ∷ b.reservations) =
              omega arith in
            subst (λ z. Agrees z (new_reservation q ∷ b.reservations)) same charged)

    go : (r : Result ℕ × Books) → reserve_request agent_key q b ≡ r → Balanced r.1
    go (ok id, b') e = accepted id b' e
    go (raise x, b') e = subst Balanced (sym (refused_unchanged agent_key q b b' x e)) h

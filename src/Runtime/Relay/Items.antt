-- ===== src/Runtime/Relay/Items.antt =====
-- backend/app/runtime/outbox.py: the outbox rows that the relay finds and writes back.
use reviewlens_ai.Prelude.{
  ℕ, Bool, true, false, ◌&&◌, ◌||◌, ◌≡◌, refl, sym, ap, ◌∙◌, ◌⊎◌, inl, inr, some, List, [], ◌∷◌,
  ◌==◌, nat_eq, Among, arith, subst, Bool-cases, Option-cases, ltb,
}
use reviewlens_ai.Contracts.Status.{OutboxStatus}
use reviewlens_ai.Runtime.State.{OutboxKey, RuntimeOutbox, outbox_key_eq}
use reviewlens_ai.Runtime.Progress.{item_keys}
use reviewlens_ai.Runtime.Relay.Rows.{
  is_due, is_open, is_processing, is_published, first_due, find_item, put_item,
}

pub first_due-now :
    (now : ℕ) (o : RuntimeOutbox) (os : List RuntimeOutbox)
    → first_due now os ≡ some o
    → Among o os × (is_due now o ≡ true)
unfolding first_due
first_due-now now o [] e = absurd (cc)
first_due-now now o (p ∷ ps) e = elim (Bool-cases (is_due now p)) [
  | inr n ↦ (let rest = first_due-now now o ps (rw n at e) in (inr rest.0, rest.1))
  | inl y ↦ elim (Option-cases (first_due now ps)) [
    | inl n ↦
        (let e' : some p ≡ some o = rw (y, n) at e in
          let h : p ≡ o = cc in (inl (sym h), subst (λ x. is_due now x ≡ true) h y))
    | inr (q, n) ↦
        (let rest = first_due-now now q ps n in
          elim (Bool-cases (ltb p.next_attempt_at q.next_attempt_at)) [
            | inl l ↦
                (let e' : some p ≡ some o = rw (y, n, l) at e in
                  let h : p ≡ o = cc in (inl (sym h), subst (λ x. is_due now x ≡ true) h y))
            | inr g ↦
                (let e' : some q ≡ some o = rw (y, n, g) at e in
                  let h : q ≡ o = cc in
                  (
                    inr (subst (λ x. Among x ps) h rest.0),
                    subst (λ x. is_due now x ≡ true) h rest.1,
                  ))
          ])
  ]
]

due_status :
    (st : OutboxStatus) (a b : Bool)
    → (is_open st && a || is_processing st && b) ≡ true
    → is_published st ≡ false
due_status OutboxStatus.pending a b e = refl
due_status OutboxStatus.processing a b e = refl
due_status OutboxStatus.published a b e = absurd cc

-- An item that is due is not published.
pub due-unpublished :
    (now : ℕ) (o : RuntimeOutbox) → is_due now o ≡ true → is_published o.status ≡ false
unfolding is_due
due-unpublished now o e = due_status o.status _ _ e

pub find_item-Among :
    (k : OutboxKey) (o : RuntimeOutbox) (os : List RuntimeOutbox)
    → find_item k os ≡ some o
    → Among o os × (o.idempotency_key ≡ k)
unfolding find_item
find_item-Among k o [] e = absurd cc
find_item-Among k o (p ∷ ps) e = elim (Bool-cases (p.idempotency_key == k)) [
  | inl y ↦
      (let e' : some p ≡ some o = rw y at e in
        let h : p ≡ o = cc in
        (
          inl (sym h),
          subst (λ x. x.idempotency_key ≡ k) h ((outbox_key_eq.equal_iff p.idempotency_key k).0 y),
        ))
  | inr n ↦ (let rest = find_item-Among k o ps (rw n at e) in (inr rest.0, rest.1))
]

-- The row of a key that some row has.
pub find_item-put :
    (o p : RuntimeOutbox) (os : List RuntimeOutbox)
    → Among p os
    → p.idempotency_key ≡ o.idempotency_key
    → find_item o.idempotency_key (put_item o os) ≡ some o
unfolding find_item put_item
find_item-put o p [] m e = absurd m
find_item-put o p (q ∷ qs) m e = elim (Bool-cases (q.idempotency_key == o.idempotency_key)) [
  | inl y ↦ rw y (ground (arith, outbox_key_eq.equal_iff o.idempotency_key o.idempotency_key))
  | inr n ↦ elim m [
    | inl h ↦ absurd (
        let y : (q.idempotency_key == o.idempotency_key) ≡ true =
          (outbox_key_eq.equal_iff q.idempotency_key o.idempotency_key).1
            (ap (λ x. x.idempotency_key) (sym h) ∙ e) in
        cc)
    | inr m' ↦ rw (n, n) (find_item-put o p qs m' e)
  ]
]

pub Among-put :
    (x o : RuntimeOutbox) (os : List RuntimeOutbox) → Among x (put_item o os) → (x ≡ o) ⊎ Among x os
unfolding put_item
Among-put x o [] m = absurd m
Among-put x o (q ∷ qs) (inr m) = elim (Among-put x o qs m) [ inl e ↦ inl e | inr h ↦ inr (inr h) ]
Among-put x o (q ∷ qs) (inl m) = elim (Bool-cases (q.idempotency_key == o.idempotency_key)) [
  | inl y ↦ inl (rw y at m)
  | inr n ↦ inr (inl (rw n at m))
]

pub item_keys-put :
    (o : RuntimeOutbox) (os : List RuntimeOutbox) → item_keys (put_item o os) ≡ item_keys os
unfolding put_item
item_keys-put o [] = refl
item_keys-put o (q ∷ qs) = elim (Bool-cases (q.idempotency_key == o.idempotency_key)) [
  | inl y ↦
      rw (y, item_keys-put o qs)
        (ap (λ k. k ∷ item_keys qs)
          (sym ((outbox_key_eq.equal_iff q.idempotency_key o.idempotency_key).0 y)))
  | inr n ↦ rw (n, item_keys-put o qs) refl
]

-- ===== src/Runtime/Relay/Order.antt =====
-- backend/app/runtime/outbox.py: progress items are published in the order of their events.
use reviewlens_ai.Prelude.{
  ℕ, ◌<◌, true, false, ◌≡◌, refl, sym, ap, ◌∙◌, subst, inl, inr, List, [], ◌∷◌, Among, arith, not,
  ltb, ◌&&◌,
}
use reviewlens_ai.Contracts.Status.{OutboxStatus}
use reviewlens_ai.Runtime.State.{OutboxKey, progress, RuntimeOutbox, RunDb}
use reviewlens_ai.Runtime.Redis.{Redis}
use reviewlens_ai.Runtime.Relay.{Turn, World, settle_turn, claim_item, relay_runtime_outbox}
use reviewlens_ai.Runtime.Relay.Rows.{
  is_processing, is_published, put_item, claimed, failed_item, published_item, settle_item,
  predecessor_pending, is_predecessor,
}
use reviewlens_ai.Runtime.Relay.Items.{first_due-now, due-unpublished, find_item-Among, Among-put}
use reviewlens_ai.Runtime.Relay.Turns.{settle_item-cases, relay_item-cases, relay-keeps}

-- An item whose event is published has only published items before it.
abbrev pub InOrder : List RuntimeOutbox → Type 0
InOrder os =
    (o p : RuntimeOutbox) (m n : ℕ)
    → Among o os
    → Among p os
    → o.idempotency_key ≡ progress m
    → p.idempotency_key ≡ progress n
    → m < n
    → is_published p.status ≡ true
    → is_published o.status ≡ true

not_predecessor :
    (n m : ℕ) (k : OutboxKey) (o : RuntimeOutbox)
    → o.idempotency_key ≡ k
    → is_predecessor n o ≡ false
    → k ≡ progress m
    → m < n
    → is_published o.status ≡ true
not_predecessor n m k o e f q l =
    let f' : (ltb m n && not (is_published o.status)) ≡ false = rw (is_predecessor, e ∙ q) at f in
    ground (arith, f')

any-none :
    (n m : ℕ) (o : RuntimeOutbox) (os : List RuntimeOutbox)
    → predecessor_pending n os ≡ false
    → Among o os
    → o.idempotency_key ≡ progress m
    → m < n
    → is_published o.status ≡ true
unfolding predecessor_pending
any-none n m o [] e h k l = absurd h
any-none n m o (p ∷ ps) e (inl q) k l =
    not_predecessor n m (progress m) o k (rw q (ground (arith, e))) refl l
any-none n m o (p ∷ ps) e (inr h) k l = any-none n m o ps (ground (arith, e)) h k l

put_item-InOrder :
    (old new : RuntimeOutbox) (os : List RuntimeOutbox)
    → Among old os
    → new.idempotency_key ≡ old.idempotency_key
    → is_published old.status ≡ false
    → (is_published new.status ≡ true
        → (n : ℕ) → new.idempotency_key ≡ progress n
        → predecessor_pending n os ≡ false)
    → InOrder os
    → InOrder (put_item new os)
put_item-InOrder old new os h k u first order o p m n ho hp ko kp l y =
    elim (Among-put o new os ho) [
      | inl eo ↦ elim (Among-put p new os hp) [
        | inl ep ↦ (let same : m ≡ n = cc in absurd (omega (arith, l, same)))
        | inr hp' ↦ absurd (
            let was =
              order old p m n h hp' (sym k ∙ (ap (λ x. x.idempotency_key) (sym eo) ∙ ko)) kp l y in
            cc)
      ]
      | inr ho' ↦ elim (Among-put p new os hp) [
        | inl ep ↦
            any-none n m o os
              (first (subst (λ x. is_published x.status ≡ true) ep y) n
                (subst (λ x. x.idempotency_key ≡ progress n) ep kp))
              ho' ko l
        | inr hp' ↦ order o p m n ho' hp' ko kp l y
      ]
    ]

processing_unpublished : (st : OutboxStatus) → is_processing st ≡ true → is_published st ≡ false
processing_unpublished OutboxStatus.pending e = refl
processing_unpublished OutboxStatus.processing e = refl
processing_unpublished OutboxStatus.published e = absurd cc

settle_item-InOrder :
    (f : RuntimeOutbox → RuntimeOutbox) (k : OutboxKey) (s : RunDb)
    → ((o : RuntimeOutbox) → (f o).idempotency_key ≡ o.idempotency_key)
    → ((o : RuntimeOutbox)
        → is_published (f o).status ≡ true
        → (n : ℕ) → k ≡ progress n
        → predecessor_pending n s.outbox ≡ false)
    → InOrder s.outbox
    → InOrder (settle_item f k s).outbox
settle_item-InOrder f k s same first order =
    settle_item-cases (λ x. InOrder x.outbox) f k s order
      (λ o e y.
        let found = find_item-Among k o s.outbox e in
        put_item-InOrder o (f o) s.outbox found.0 (same o) (processing_unpublished o.status y)
          (λ p n q. first o p n (sym found.1 ∙ (sym (same o) ∙ q))) order)

-- The relay publishes the events of a run in their order, whatever fails: if every item before a
-- published one is published, so it is after any number of turns.
pub relay_runtime_outbox-InOrder :
    (r : Redis) (lease_seconds : ℕ) (turns : List Turn) (w : World r)
    → InOrder w.db.outbox
    → InOrder (relay_runtime_outbox r lease_seconds turns w).db.outbox
unfolding settle_turn
relay_runtime_outbox-InOrder r lease_seconds =
    relay-keeps r (λ w. InOrder w.db.outbox) lease_seconds
      (λ turn o w e order.
        let due = first_due-now turn.claimed_at o w.db.outbox e in
        let taken : InOrder (claim_item r lease_seconds turn o w).db.outbox =
          put_item-InOrder o (claimed turn.claimed_at lease_seconds o) w.db.outbox due.0 refl
            (due-unpublished turn.claimed_at o due.1) (λ y. absurd cc) order in
        relay_item-cases r (λ w'. InOrder w'.db.outbox) lease_seconds turn o w
          (λ w' m done. rw done.same_db taken)
          (λ w' x done.
            settle_item-InOrder (failed_item turn.settled_at x) o.idempotency_key w'.db (λ p. refl)
              (λ p y. absurd cc) (rw done.same_db taken))
          (λ w' done.
            settle_item-InOrder (published_item turn.settled_at) o.idempotency_key w'.db (λ p. refl)
              (λ p y n q. rw done.same_db (done.in_order refl n q)) (rw done.same_db taken)))

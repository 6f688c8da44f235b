-- ===== src/Runtime/Relay/Settlement.antt =====
-- backend/app/runtime/outbox.py: what a turn of the relay leaves of the item that it took.
use reviewlens_ai.Prelude.{
  ℕ, suc, ◌+◌, ◌*◌, ◌≤◌, true, ◌≡◌, refl, sym, subst, none, some, Among, arith,
}
use reviewlens_ai.Contracts.Status.{OutboxStatus}
use reviewlens_ai.Runtime.State.{RuntimeOutbox, RunDb, second}
use reviewlens_ai.Runtime.Result.{Result, ok, raise, exception_name}
use reviewlens_ai.Runtime.Redis.{Redis}
use reviewlens_ai.Runtime.Relay.{
  Turn, World, Outcome, settle_turn, publish_outbox_item, claim_item, relay_item,
}
use reviewlens_ai.Runtime.Relay.Rows.{
  is_processing, find_item, put_item, claimed, backoff, failed_item, published_item, settle_item,
}
use reviewlens_ai.Runtime.Relay.Items.{find_item-Among, find_item-put}
use reviewlens_ai.Runtime.Relay.Publications.{publish_outbox_item-Publication}

-- The item `o` after the publication came to `m`: published if it returned; if it raised, open again
-- with the name of the exception, and due at most a minute later.
abbrev pub Settled : ℕ → Result (Unit {0}) → RuntimeOutbox → Type 0
Settled settled_at (ok u) p =
    (p.status ≡ OutboxStatus.published)
    × (p.published_at ≡ some settled_at)
    × (p.last_error_code ≡ none)
Settled settled_at (raise e) p =
    (p.status ≡ OutboxStatus.pending)
    × (p.last_error_code ≡ some (exception_name e))
    × (settled_at ≤ p.next_attempt_at)
    × (p.next_attempt_at ≤ settled_at + 60 * second)

pub record IsSettled (settled_at : ℕ) (m : Result (Unit {0})) (o p : RuntimeOutbox) : Type 0 where
  pub same_key : p.idempotency_key ≡ o.idempotency_key
  pub attempt_counted : p.attempts ≡ suc o.attempts
  pub unleased : p.lease_expires_at ≡ none
  pub closed : Settled settled_at m p

-- `min(60, ...)`.
backoff_bound : (n : ℕ) → backoff n ≤ 60 * second
unfolding backoff
backoff_bound n = omega arith

settle_item-find :
    (f : RuntimeOutbox → RuntimeOutbox) (c : RuntimeOutbox) (s : RunDb)
    → find_item c.idempotency_key s.outbox ≡ some c
    → is_processing c.status ≡ true
    → (f c).idempotency_key ≡ c.idempotency_key
    → find_item c.idempotency_key (settle_item f c.idempotency_key s).outbox ≡ some (f c)
unfolding settle_item
settle_item-find f c s e y k =
    rw (settle_item, e, y)
      (subst (λ i. find_item i (put_item (f c) s.outbox) ≡ some (f c)) k
        (find_item-put (f c) c s.outbox (find_item-Among _ c s.outbox e).0 (sym k)))

settle_turn-IsSettled :
    (r : Redis) (turn : Turn) (lease_seconds : ℕ) (o : RuntimeOutbox) (m : Outcome r)
    → find_item o.idempotency_key m.0.db.outbox ≡ some (claimed turn.claimed_at lease_seconds o)
    → (p : RuntimeOutbox) × (find_item o.idempotency_key
          (settle_turn r turn o.idempotency_key m).db.outbox
        ≡ some p)
      × IsSettled turn.settled_at m.1 o p
unfolding settle_turn
settle_turn-IsSettled r turn lease_seconds o (w, ok u) taken =
    let c : RuntimeOutbox = claimed turn.claimed_at lease_seconds o in
    (
      published_item turn.settled_at c,
      settle_item-find (published_item turn.settled_at) c w.db taken refl refl,
      record {
        same_key = refl;
        attempt_counted = refl;
        unleased = refl;
        closed = (refl, refl, refl);
      },
    )
settle_turn-IsSettled r turn lease_seconds o (w, raise e) taken =
    let c : RuntimeOutbox = claimed turn.claimed_at lease_seconds o in
    (
      failed_item turn.settled_at e c,
      settle_item-find (failed_item turn.settled_at e) c w.db taken refl refl,
      record {
        same_key = refl;
        attempt_counted = refl;
        unleased = refl;
        closed = (refl, refl, omega arith, omega (arith, backoff_bound c.attempts));
      },
    )

-- A turn for an item of the outbox, in which the relay lives on to its last transaction, settles the
-- item as the publication came out: it counts the attempt and ends the lease, and leaves the item
-- published if the publication returned, or, if it raised, open, with the name of the exception, and
-- due at most a minute later.
pub relay_item-IsSettled :
    (r : Redis) (lease_seconds : ℕ) (turn : Turn) (o : RuntimeOutbox) (w : World r)
    → Among o w.db.outbox
    → turn.survives ≡ true
    → (p : RuntimeOutbox) × (find_item o.idempotency_key
          (relay_item r lease_seconds turn o w).db.outbox
        ≡ some p)
      × IsSettled turn.settled_at
          (publish_outbox_item r turn o.idempotency_key (claim_item r lease_seconds turn o w)).1
          o
          p
unfolding relay_item
relay_item-IsSettled r lease_seconds turn o w h lives =
    let c : World r = claim_item r lease_seconds turn o w in
    let done = publish_outbox_item-Publication r turn o.idempotency_key c in
    rw lives (
      settle_turn-IsSettled r turn lease_seconds o (publish_outbox_item r turn o.idempotency_key c)
        (rw done.same_db
          (find_item-put (claimed turn.claimed_at lease_seconds o) o w.db.outbox h refl)))

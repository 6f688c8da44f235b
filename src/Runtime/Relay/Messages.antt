-- ===== src/Runtime/Relay/Messages.antt =====
-- backend/app/runtime/outbox.py: the task messages that the relay sends.
use reviewlens_ai.Prelude.{ℕ, true, ◌≡◌, refl, sym, ap, ◌∙◌, subst, some, List, ◌∷◌}
use reviewlens_ai.Runtime.State.{OutboxKey, TaskRun, RuntimeOutbox, RunDb, find_task}
use reviewlens_ai.Runtime.Result.{Result, ok, raise}
use reviewlens_ai.Runtime.Redis.{Redis}
use reviewlens_ai.Runtime.Relay.{
  Turn, World, settle_turn, claim_item, is_current, relay_runtime_outbox,
}
use reviewlens_ai.Runtime.Relay.Rows.{failed_item, published_item, settle_item}
use reviewlens_ai.Runtime.Relay.Publications.{OneMore, same, one, Publication}
use reviewlens_ai.Runtime.Relay.Turns.{settle_item-cases, relay_item-cases, relay-keeps}

-- Every message is one of `before`, or for the next attempt of a task that is queued in a run that is
-- not stopping.
abbrev pub Sendable : RunDb → ℕ × ℕ → Type 0
Sendable s (i, n) = (t : TaskRun) × ((find_task i s.tasks ≡ some t) × (is_current n t s ≡ true))

pub data Sent (s : RunDb) (before : List (ℕ × ℕ)) : List (ℕ × ℕ) → Type 0 where
  none_yet : Sent s before before
  next : {ms : List (ℕ × ℕ)} (m : ℕ × ℕ) → Sendable s m → Sent s before ms → Sent s before (m ∷ ms)

-- What the relay changes of the tables it leaves alone, and the messages.
record Along (r : Redis) (w w' : World r) : Type 0 where
  same_run : w'.db.run ≡ w.db.run
  same_tasks : w'.db.tasks ≡ w.db.tasks
  messages : Sent w.db w.messages w'.messages

settle_item-rows :
    (f : RuntimeOutbox → RuntimeOutbox) (k : OutboxKey) (s : RunDb)
    → ((settle_item f k s).run ≡ s.run) × ((settle_item f k s).tasks ≡ s.tasks)
settle_item-rows f k s =
    settle_item-cases (λ x. (x.run ≡ s.run) × (x.tasks ≡ s.tasks)) f k s (refl, refl)
      (λ o e y. (refl, refl))

is_current-run :
    (n : ℕ) (t : TaskRun) (s s' : RunDb) → s'.run ≡ s.run → is_current n t s' ≡ is_current n t s
is_current-run n t s s' e = rw e refl

one-Sent :
    (s s' : RunDb) (before ms ms' : List (ℕ × ℕ))
    → s'.run ≡ s.run
    → s'.tasks ≡ s.tasks
    → Sent s before ms
    → OneMore s' ms ms'
    → Sent s before ms'
one-Sent s s' before ms ms' er et h same = h
one-Sent s s' before ms ms' er et h (one i n t f c) =
    next (i, n) (t, (rw et at f, rw (is_current-run n t s s' er) at c)) h

after-Along :
    (r : Redis) (k : OutboxKey) (w v c w' : World r) (m : Result (Unit {0})) (s : RunDb)
    → c.db.run ≡ v.db.run
    → c.db.tasks ≡ v.db.tasks
    → c.messages ≡ v.messages
    → Along r w v
    → Publication r k c (w', m)
    → (s.run ≡ w'.db.run) × (s.tasks ≡ w'.db.tasks)
    → Along r w (record w' { db = s })
after-Along r k w v c w' m s er et em h done kept = record {
  same_run = kept.0 ∙ (ap (λ x. x.run) done.same_db ∙ (er ∙ h.same_run));
  same_tasks = kept.1 ∙ (ap (λ x. x.tasks) done.same_db ∙ (et ∙ h.same_tasks));
  messages =
      one-Sent w.db c.db w.messages _ _ (er ∙ h.same_run) (et ∙ h.same_tasks)
        (subst (Sent w.db w.messages) (sym em) h.messages) done.sent;
}

-- The relay sends a worker only messages for the next attempt of a task that is queued, in a run that
-- is neither waiting for input nor being cancelled nor cancelled.
pub relay_runtime_outbox-Sent :
    (r : Redis) (lease_seconds : ℕ) (turns : List Turn) (w : World r)
    → Sent w.db w.messages (relay_runtime_outbox r lease_seconds turns w).messages
unfolding settle_turn
relay_runtime_outbox-Sent r lease_seconds turns w =
    (relay-keeps r (Along r w) lease_seconds
      (λ turn o v due h.
        let k = o.idempotency_key in
        let c : World r = claim_item r lease_seconds turn o v in
        relay_item-cases r (Along r w) lease_seconds turn o v
          (λ v' m done. after-Along r k w v c v' m v'.db refl refl refl h done (refl, refl))
          (λ v' x done.
            after-Along r k w v c v' (raise x) _ refl refl refl h done
              (settle_item-rows (failed_item turn.settled_at x) k v'.db))
          (λ v' done.
            after-Along r k w v c v' (ok tt) _ refl refl refl h done
              (settle_item-rows (published_item turn.settled_at) k v'.db)))
      turns w (record { same_run = refl; same_tasks = refl; messages = none_yet })).messages

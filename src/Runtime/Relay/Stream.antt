-- ===== src/Runtime/Relay/Stream.antt =====
-- backend/app/runtime/outbox.py: what the relay puts into the stream of a run, and what
-- `read_progress` finds there.
use reviewlens_ai.Prelude.{ℕ, true, ◌≡◌, refl, sym, subst, inl, inr, Option, some, List, Among}
use reviewlens_ai.Runtime.Result.{Result, ok, raise, Returns}
use reviewlens_ai.Runtime.State.{OutboxKey, ProgressEvent, RuntimeOutbox, RunDb}
use reviewlens_ai.Runtime.Redis.{Redis}
use reviewlens_ai.Runtime.Consistent.{Consistent, IsConsistent}
use reviewlens_ai.Runtime.ReadProgress.{postgres_progress, valid_limit, read_progress}
use reviewlens_ai.Runtime.ReadProgress.Same.{read_progress-postgres}
use reviewlens_ai.Runtime.Relay.{Turn, World, settle_turn, claim_item, relay_runtime_outbox}
use reviewlens_ai.Runtime.Relay.Rows.{put_item, claimed, failed_item, published_item, settle_item}
use reviewlens_ai.Runtime.Relay.Items.{item_keys-put}
use reviewlens_ai.Runtime.Relay.Publications.{Publication}
use reviewlens_ai.Runtime.Relay.Turns.{settle_item-cases, relay_item-cases, relay-keeps}

put_item-IsConsistent :
    (o : RuntimeOutbox) (s : RunDb)
    → IsConsistent s
    → IsConsistent (record s { outbox = put_item o s.outbox })
put_item-IsConsistent o s c = record {
  rows =
      subst (λ ks. Consistent s.run.progress_sequence s.tasks ks s.events)
        (sym (item_keys-put o s.outbox)) c.rows;
}

settle_item-keeps :
    (f : RuntimeOutbox → RuntimeOutbox) (k : OutboxKey) (s : RunDb)
    → IsConsistent s
    → IsConsistent (settle_item f k s) × ((settle_item f k s).events ≡ s.events)
settle_item-keeps f k s c =
    settle_item-cases (λ x. IsConsistent x × (x.events ≡ s.events)) f k s (c, refl)
      (λ o e y. (put_item-IsConsistent (f o) s c, refl))

module _ (r : Redis) where
  -- The rows are consistent, and the stream holds only events of the run.
  pub record IsFaithful (w : World r) : Type 0 where
    pub consistent : IsConsistent w.db
    pub streamed : (e : ProgressEvent) → r.Has w.stream e → Among e w.db.events

  after-IsFaithful :
      (k : OutboxKey) (c w' : World r) (m : Result (Unit {0})) (s : RunDb)
      → IsFaithful c
      → Publication r k c (w', m)
      → IsConsistent s × (s.events ≡ w'.db.events)
      → IsFaithful (record w' { db = s })
  after-IsFaithful k c w' m s h done kept = record {
    consistent = kept.0;
    streamed = λ e i.
        rw (kept.1, done.same_db)
          (elim (done.streamed e i) [ inl old ↦ h.streamed e old | inr new ↦ new ]);
  }

  -- The relay keeps the run's rows consistent, and the stream free of anything but the run's events.
  pub relay_runtime_outbox-IsFaithful :
      (lease_seconds : ℕ) (turns : List Turn) (w : World r)
      → IsFaithful w
      → IsFaithful (relay_runtime_outbox r lease_seconds turns w)
  unfolding settle_turn
  relay_runtime_outbox-IsFaithful lease_seconds =
      relay-keeps r IsFaithful lease_seconds (λ turn o w due h.
        let k = o.idempotency_key in
        let c : World r = claim_item r lease_seconds turn o w in
        let taken : IsFaithful c = record {
          consistent =
              put_item-IsConsistent (claimed turn.claimed_at lease_seconds o) w.db h.consistent;
          streamed = h.streamed;
        } in
        let same : (w' : World r) (m : Result (Unit {0}))
            → Publication r k c (w', m)
            → IsConsistent w'.db =
          λ w' m done. rw done.same_db taken.consistent in
        relay_item-cases r IsFaithful lease_seconds turn o w
          (λ w' m done. after-IsFaithful k c w' m w'.db taken done (same w' m done, refl))
          (λ w' x done.
            after-IsFaithful k c w' (raise x) _ taken done
              (settle_item-keeps (failed_item turn.settled_at x) k w'.db (same w' _ done)))
          (λ w' done.
            after-IsFaithful k c w' (ok tt) _ taken done
              (settle_item-keeps (published_item turn.settled_at) k w'.db (same w' _ done))))

  -- After any number of turns of the relay, in each of which redis, the lock or Celery may fail at any
  -- step and the relay may die before it settles the item, `read_progress` returns the page of events
  -- that PostgreSQL has, whether it found them in the stream or not.
  pub relay_runtime_outbox-read_progress :
      (lease_seconds : ℕ) (turns : List Turn) (after : ℕ) (limit : Option ℕ) (w : World r)
      → valid_limit limit ≡ true
      → IsFaithful w
      → Returns
          (λ p.
            p.events
            ≡ postgres_progress after limit (relay_runtime_outbox r lease_seconds turns w).db)
          (read_progress r after limit
            (some (relay_runtime_outbox r lease_seconds turns w).db)
            (relay_runtime_outbox r lease_seconds turns w).stream)
  relay_runtime_outbox-read_progress lease_seconds turns after limit w v h =
      let kept = relay_runtime_outbox-IsFaithful lease_seconds turns w h in
      read_progress-postgres r after limit _ _ v kept.consistent kept.streamed

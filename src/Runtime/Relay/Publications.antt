-- ===== src/Runtime/Relay/Publications.antt =====
-- backend/app/runtime/outbox.py: what a publication changes, and the loop turn by turn.
use reviewlens_ai.Prelude.{
  ℕ, String, true, false, ◌≡◌, ◌≢◌, refl, sym, ◌⊎◌, inl, inr, Option, none, some, List, [], ◌∷◌,
  ◌==◌, nat_eq, Among, Bool-cases, Option-cases, subst, string_eq, eqb_iff,
}
use reviewlens_ai.Runtime.Result.{
  Exception, Result, ok, raise, lookup_error, dispatch_lock_busy, connection_error, delivery_error,
}
use reviewlens_ai.Runtime.State.{
  OutboxKey, progress, dispatch, revoke, ProgressEvent, TaskRun, RunDb, find_task, find_attempt,
}
use reviewlens_ai.Runtime.Ends.{Ends, either}
use reviewlens_ai.Runtime.Redis.{Redis}
use reviewlens_ai.Runtime.Relay.{
  same_fields, Turn, World, Outcome, completed, failing, added, delivered, dispatched, add_entry,
  publish_progress, publish_task_dispatch, revoke_message, publish_task_revoke, publish_outbox_item,
  is_current,
}
use reviewlens_ai.Runtime.Relay.Rows.{find_event, predecessor_pending}

find_event-Among :
    (n : ℕ) (e : ProgressEvent) (es : List ProgressEvent)
    → find_event n es ≡ some e
    → Among e es × (e.sequence ≡ n)
unfolding find_event
find_event-Among n e [] h = absurd cc
find_event-Among n e (f ∷ fs) h = elim (Bool-cases (f.sequence == n)) [
  | inl y ↦
      (let h' : some f ≡ some e = rw y at h in
        let q : f ≡ e = cc in
        (inl (sym q), subst (λ x. x.sequence ≡ n) q ((eqb_iff f.sequence n).0 y)))
  | inr g ↦ (let rest = find_event-Among n e fs (rw g at h) in (inr rest.0, rest.1))
]

-- The messages `after` are those `before` and perhaps one for a task's next attempt.
pub data OneMore (s : RunDb) (before : List (ℕ × ℕ)) : List (ℕ × ℕ) → Type 0 where
  same : OneMore s before before
  one :
      (i n : ℕ) (t : TaskRun)
      → find_task i s.tasks ≡ some t
      → is_current n t s ≡ true
      → OneMore s before ((i, n) ∷ before)

module _ (r : Redis) where
  -- What the publication of the item `k` leaves, whether or not it raises.
  pub record Publication (k : OutboxKey) (w : World r) (m : Outcome r) : Type 0 where
    pub same_db : m.0.db ≡ w.db
    pub in_order :
        m.1 ≡ ok tt → (n : ℕ) → k ≡ progress n → predecessor_pending n w.db.outbox ≡ false
    pub streamed : (e : ProgressEvent) → r.Has m.0.stream e → r.Has w.stream e ⊎ Among e w.db.events
    pub sent : OneMore w.db w.messages m.0.messages

  failed-Publication :
      (k : OutboxKey) (w : World r) (x : Exception) → Publication k w (failing r x w)
  failed-Publication k w x = record {
    same_db = refl;
    in_order = λ c n e. absurd cc;
    streamed = λ e h. inl h;
    sent = same;
  }

  unsent :
      (k : OutboxKey) (w : World r) → ((n : ℕ) → k ≢ progress n) → Publication k w (completed r w)
  unsent k w other = record {
    same_db = refl;
    in_order = λ c n e. absurd (other n e);
    streamed = λ e h. inl h;
    sent = same;
  }

  delivered-Publication :
      (turn : Turn) (k : OutboxKey) (w w' : World r)
      → ((n : ℕ) → k ≢ progress n)
      → w'.db ≡ w.db
      → w'.stream ≡ w.stream
      → OneMore w.db w.messages w'.messages
      → Publication k w (delivered r turn w')
  delivered-Publication turn k w w' other d s m =
      either (Publication k w) turn.confirmed _ _ (leaves (ok tt)) (leaves (raise delivery_error))
    where
      leaves : (x : Result (Unit {0})) → Publication k w (w', x)
      leaves x = record {
        same_db = d;
        in_order = λ c n e. absurd (other n e);
        streamed = λ e h. inl (subst (λ y. r.Has y e) s h);
        sent = m;
      }

  add_entry-Has :
      (e : ProgressEvent) (s : r.Stream)
      → Ends (λ s'. (f : ProgressEvent) → r.Has s' f → (f ≡ e) ⊎ r.Has s f) (add_entry r e s)
  unfolding add_entry
  add_entry-Has e s = elim (Option-cases (r.xadd e.sequence e s)) [
    | inr (s', a) ↦ rw (Ends, a) (λ f. r.xadd-Has e.sequence e f s s' a)
    | inl n ↦
        rw (Ends, n)
          (elim (Option-cases (r.entry_at e.sequence s)) [
            | inl m ↦ rw (Ends, m) tt
            | inr (g, m) ↦
                rw (Ends, m)
                  (elim (Bool-cases (same_fields g e)) [
                    | inl y ↦ rw (Ends, y) (λ f h. inr h)
                    | inr y ↦ rw (Ends, y) tt
                  ])
          ])
  ]

  added-Publication :
      (turn : Turn) (n : ℕ) (e : ProgressEvent) (w : World r) (m : Result r.Stream)
      → predecessor_pending n w.db.outbox ≡ false
      → Among e w.db.events
      → Ends (λ s'. (f : ProgressEvent) → r.Has s' f → (f ≡ e) ⊎ r.Has w.stream f) m
      → Publication (progress n) w (added r turn w m)
  added-Publication turn n e w (raise x) first found grown = failed-Publication (progress n) w x
  added-Publication turn n e w (ok s') first found grown =
      either (Publication (progress n) w) turn.redis_expires _ _
        (leaves (r.expire s') (ok tt) (λ g h. grown g (r.expire-Has s' g h)))
        (leaves s' (raise connection_error) grown)
    where
      leaves :
          (s : r.Stream) (x : Result (Unit {0}))
          → ((f : ProgressEvent) → r.Has s f → (f ≡ e) ⊎ r.Has w.stream f)
          → Publication (progress n) w (record w { stream = s }, x)
      leaves s x more = record {
        same_db = refl;
        in_order = λ c m q.
            let same : n ≡ m = cc in
            subst (λ i. predecessor_pending i w.db.outbox ≡ false) same first;
        streamed = λ g h. elim (more g h) [
          | inl q ↦ inr (subst (λ x. Among x w.db.events) (sym q) found)
          | inr old ↦ inl old
        ];
        sent = same;
      }

  publish_progress-Publication :
      (turn : Turn) (n : ℕ) (w : World r) → Publication (progress n) w (publish_progress r turn n w)
  unfolding publish_progress
  publish_progress-Publication turn n w = elim (Option-cases (find_event n w.db.events)) [
    | inl f ↦ rw (publish_progress, f) (failed-Publication (progress n) w lookup_error)
    | inr (e, f) ↦
        (let found = find_event-Among n e w.db.events f in
          rw (publish_progress, f)
            (elim (Bool-cases (predecessor_pending e.sequence w.db.outbox)) [
              | inl y ↦ rw y (failed-Publication (progress n) w dispatch_lock_busy)
              | inr first ↦ rw first (
                  either (Publication (progress n) w) turn.redis_adds _ _
                    (added-Publication turn n e w (add_entry r e w.stream)
                      (subst (λ i. predecessor_pending i w.db.outbox ≡ false) found.1 first) found.0
                      (add_entry-Has e w.stream))
                    (failed-Publication (progress n) w connection_error))
            ]))
  ]

  dispatched-Publication :
      (turn : Turn) (i n : ℕ) (w : World r) (m : Option TaskRun)
      → find_task i w.db.tasks ≡ m
      → Publication (dispatch i n) w (dispatched r turn i n w m)
  dispatched-Publication turn i n w none f = unsent (dispatch i n) w (λ m. cc)
  dispatched-Publication turn i n w (some t) f = elim (Bool-cases (is_current n t w.db)) [
    | inr c ↦ rw c (unsent (dispatch i n) w (λ m. cc))
    | inl c ↦ rw c (
        either (Publication (dispatch i n) w) turn.sent _ _
          (delivered-Publication turn (dispatch i n) w _ (λ m. cc) refl refl (one i n t f c))
          (failed-Publication (dispatch i n) w delivery_error))
  ]

  publish_task_dispatch-Publication :
      (turn : Turn) (i n : ℕ) (w : World r)
      → Publication (dispatch i n) w (publish_task_dispatch r turn i n w)
  unfolding publish_task_dispatch
  publish_task_dispatch-Publication turn i n w =
      either (Publication (dispatch i n) w) turn.lock_acquired _ _
        (dispatched-Publication turn i n w (find_task i w.db.tasks) refl)
        (failed-Publication (dispatch i n) w dispatch_lock_busy)

  revoke_message-Publication :
      (turn : Turn) (a : ℕ) (w : World r) (c : Option String)
      → Publication (revoke a) w (revoke_message r turn c w)
  revoke_message-Publication turn a w none = unsent (revoke a) w (λ m. cc)
  revoke_message-Publication turn a w (some i) =
      either (Publication (revoke a) w) (i == "") _ _ (unsent (revoke a) w (λ m. cc)) (
        either (Publication (revoke a) w) turn.sent _ _
          (delivered-Publication turn (revoke a) w _ (λ m. cc) refl refl same)
          (failed-Publication (revoke a) w delivery_error))

  publish_task_revoke-Publication :
      (turn : Turn) (a : ℕ) (w : World r)
      → Publication (revoke a) w (publish_task_revoke r turn a w)
  unfolding publish_task_revoke
  publish_task_revoke-Publication turn a w = elim (Option-cases (find_attempt a w.db.attempts)) [
    | inl f ↦ rw (publish_task_revoke, f) (unsent (revoke a) w (λ m. cc))
    | inr (x, f) ↦
        rw (publish_task_revoke, f) (revoke_message-Publication turn a w x.celery_task_id)
  ]

  pub publish_outbox_item-Publication :
      (turn : Turn) (k : OutboxKey) (w : World r) → Publication k w (publish_outbox_item r turn k w)
  unfolding publish_outbox_item
  publish_outbox_item-Publication turn (progress n) w = publish_progress-Publication turn n w
  publish_outbox_item-Publication turn (dispatch i n) w =
      publish_task_dispatch-Publication turn i n w
  publish_outbox_item-Publication turn (revoke a) w = publish_task_revoke-Publication turn a w

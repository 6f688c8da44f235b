-- ===== src/Examples/Relays.antt =====
-- The relay and the readers of a run that has started, on a stream that is a list.
use reviewlens_ai.Prelude.{
  ℕ, zero, suc, ◌*◌, ◌≡◌, refl, subst, ◌⊎◌, inl, inr, Bool, true, false, Option, none, some, List,
  [], ◌∷◌, ◌++◌, ltb, leb, ◌==◌, nat_eq, if◌then◌else◌, filter, length, All, Among, Bool-cases,
}
use reviewlens_ai.Runtime.Result.{Returns}
use reviewlens_ai.Runtime.State.{ProgressEvent, RuntimeOutbox, RunDb, second, EventType}
use reviewlens_ai.Contracts.Status.{TaskStatus}
use reviewlens_ai.Runtime.Progress.{append_progress, dispatch_item}
use reviewlens_ai.Runtime.Redis.{Redis}
use reviewlens_ai.Runtime.Relay.{
  Turn, World, relay_item, relay_runtime_outbox, publish_outbox_item, claim_item,
}
use reviewlens_ai.Runtime.Relay.Rows.{find_item}
use reviewlens_ai.Runtime.ReadProgress.{limited, postgres_progress, read_progress}
use reviewlens_ai.Runtime.ReadProgress.Rows.{Consecutive}
use reviewlens_ai.Runtime.ReadProgress.Same.{
  page_size, read_progress-postgres, read_progress-Consecutive,
}
use reviewlens_ai.Runtime.Relay.Order.{InOrder, relay_runtime_outbox-InOrder}
use reviewlens_ai.Runtime.Relay.Stream.{
  IsFaithful, relay_runtime_outbox-IsFaithful, relay_runtime_outbox-read_progress,
}
use reviewlens_ai.Runtime.Relay.Messages.{Sent, relay_runtime_outbox-Sent}
use reviewlens_ai.Runtime.Relay.Settlement.{IsSettled, relay_item-IsSettled}
use reviewlens_ai.Runtime.Consistent.{IsConsistent, append_progress-IsConsistent}
use reviewlens_ai.Examples.RunData.{new_run, a_task}
use reviewlens_ai.Examples.Runs.{new_run-IsConsistent}

-- Entries in the order of their ids; an id is an event's number.
abbrev last_id : List ProgressEvent → ℕ
last_id [] = 0
last_id (e ∷ []) = e.sequence
last_id (e ∷ f ∷ es) = last_id (f ∷ es)

abbrev add_last : ℕ → ProgressEvent → List ProgressEvent → Option (List ProgressEvent)
add_last n e s = if leb n (last_id s) then none else some (s ++ (e ∷ []))

abbrev entry : ℕ → List ProgressEvent → Option ProgressEvent
entry n [] = none
entry n (e ∷ es) = let rest = entry n es in if e.sequence == n then some e else rest

Among-last :
    (e f : ProgressEvent) (s : List ProgressEvent) → Among f (s ++ (e ∷ [])) → (f ≡ e) ⊎ Among f s
Among-last e f [] (inl q) = inl q
Among-last e f [] (inr m) = absurd m
Among-last e f (g ∷ s) (inl q) = inr (inl q)
Among-last e f (g ∷ s) (inr m) = elim (Among-last e f s m) [ inl q ↦ inl q | inr h ↦ inr (inr h) ]

add_last-Among :
    (n : ℕ) (e f : ProgressEvent) (s s' : List ProgressEvent)
    → add_last n e s ≡ some s'
    → Among f s'
    → (f ≡ e) ⊎ Among f s
add_last-Among n e f s s' h m = elim (Bool-cases (leb n (last_id s))) [
  | inl l ↦ absurd (let h' : none ≡ some s' = rw l at h in cc)
  | inr g ↦
      (let h' : some (s ++ (e ∷ [])) ≡ some s' = rw g at h in
        let q : s' ≡ s ++ (e ∷ []) = cc in Among-last e f s (subst (λ x. Among f x) q m))
]

module _ (P : ProgressEvent → Type 0) where
  All-Among : (es : List ProgressEvent) → ((e : ProgressEvent) → Among e es → P e) → All P es
  All-Among [] h = tt
  All-Among (e ∷ es) h = (h e (inl refl), All-Among es (λ x m. h x (inr m)))

  All-rest : (p : ProgressEvent → Bool) (es : List ProgressEvent) → All P es → All P (filter p es)
  All-rest p [] h = tt
  All-rest p (e ∷ es) h = elim (Bool-cases (p e)) [
    | inl y ↦ rw y (h.0, All-rest p es h.1)
    | inr n ↦ rw n (All-rest p es h.1)
  ]

  All-limited : (c : Option ℕ) (es : List ProgressEvent) → All P es → All P (limited c es)
  All-limited none es h = h
  All-limited (some zero) es h = tt
  All-limited (some (suc n)) [] h = tt
  All-limited (some (suc n)) (e ∷ es) h = (h.0, All-limited (some n) es h.1)

abbrev list_redis : Redis
list_redis = record {
  Stream = List ProgressEvent;
  xadd = add_last;
  expire = λ s. s;
  entry_at = entry;
  entries_after = λ n c s. some (limited c (filter (λ e. ltb n e.sequence) s));
  Has = λ s e. Among e s;
  xadd-Has = add_last-Among;
  expire-Has = λ s f h. h;
  entries_after-Has = λ n c s es h.
      subst (All (λ e. Among e s))
        (let q : limited c (filter (λ e. ltb n e.sequence) s) ≡ es = cc in q)
        (All-limited (λ e. Among e s) c _
          (All-rest (λ e. Among e s) (λ e. ltb n e.sequence) s
            (All-Among (λ e. Among e s) s (λ e m. m))));
}

abbrev a_turn : Turn
a_turn = record {
  claimed_at = 20 * second;
  settled_at = 21 * second;
  redis_adds = true;
  redis_expires = true;
  lock_acquired = true;
  sent = true;
  confirmed = true;
  survives = true;
}

-- The new run, with its first event.
abbrev announced_run : RunDb
announced_run = append_progress (10 * second) EventType.run_queued none new_run

abbrev a_world : World list_redis
a_world = record { db = announced_run; stream = []; messages = []; revoked = [] }

-- EXPIRE fails after the event was added, the relay dies after it sent a message, and nothing fails.
abbrev turns : List Turn
turns =
    (record a_turn { redis_expires = false }) ∷ (record a_turn { survives = false }) ∷ a_turn ∷ []

announced_run-IsConsistent : IsConsistent announced_run
announced_run-IsConsistent =
    append_progress-IsConsistent (10 * second) EventType.run_queued none new_run
      new_run-IsConsistent

a_world-IsFaithful : IsFaithful list_redis a_world
a_world-IsFaithful = record { consistent = announced_run-IsConsistent; streamed = λ e m. absurd m }

announced_run-InOrder : InOrder announced_run.outbox
unfolding append_progress
announced_run-InOrder o p m n ho (inl q) ko kp l y = absurd (let h = rw q at y in cc)
announced_run-InOrder o p m n ho (inr (inl q)) ko kp l y = absurd (let h = rw q at y in cc)
announced_run-InOrder o p m n ho (inr (inr h)) ko kp l y = absurd h

-- The delivery of the task that is queued.
abbrev first_item : RuntimeOutbox
first_item = dispatch_item (a_task 1 "collect" TaskStatus.queued) 0

read_progress-postgres_example :
    Returns
      (λ p. p.events ≡ postgres_progress 0 (some 100) announced_run)
      (read_progress list_redis 0 (some 100) (some announced_run) [])
read_progress-postgres_example =
    read_progress-postgres list_redis 0 (some 100) announced_run [] refl announced_run-IsConsistent
      (λ e m. absurd m)

read_progress-Consecutive_example :
    Returns
      (λ p.
        Consecutive 0 p.events
        × (length p.events ≡ page_size 0 (some 100) announced_run.run.progress_sequence))
      (read_progress list_redis 0 (some 100) (some announced_run) [])
read_progress-Consecutive_example =
    read_progress-Consecutive list_redis 0 (some 100) announced_run [] refl
      announced_run-IsConsistent (λ e m. absurd m)

relay_runtime_outbox-IsFaithful_example :
    IsFaithful list_redis (relay_runtime_outbox list_redis 60 turns a_world)
relay_runtime_outbox-IsFaithful_example =
    relay_runtime_outbox-IsFaithful list_redis 60 turns a_world a_world-IsFaithful

relay_runtime_outbox-read_progress_example :
    Returns
      (λ p.
        p.events ≡ postgres_progress 0 none (relay_runtime_outbox list_redis 60 turns a_world).db)
      (read_progress list_redis 0 none
        (some (relay_runtime_outbox list_redis 60 turns a_world).db)
        (relay_runtime_outbox list_redis 60 turns a_world).stream)
relay_runtime_outbox-read_progress_example =
    relay_runtime_outbox-read_progress list_redis 60 turns 0 none a_world refl a_world-IsFaithful

relay_runtime_outbox-InOrder_example :
    InOrder (relay_runtime_outbox list_redis 60 turns a_world).db.outbox
relay_runtime_outbox-InOrder_example =
    relay_runtime_outbox-InOrder list_redis 60 turns a_world announced_run-InOrder

relay_runtime_outbox-Sent_example :
    Sent announced_run [] (relay_runtime_outbox list_redis 60 turns a_world).messages
relay_runtime_outbox-Sent_example = relay_runtime_outbox-Sent list_redis 60 turns a_world

relay_item-IsSettled_example :
    (p : RuntimeOutbox) × (find_item first_item.idempotency_key
        (relay_item list_redis 60 a_turn first_item a_world).db.outbox
      ≡ some p)
    × IsSettled
        (21 * second)
        (publish_outbox_item list_redis a_turn first_item.idempotency_key
          (claim_item list_redis 60 a_turn first_item a_world)).1
        first_item
        p
unfolding append_progress
relay_item-IsSettled_example =
    relay_item-IsSettled list_redis 60 a_turn first_item a_world (inr (inl refl)) refl

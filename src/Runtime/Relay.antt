-- ===== src/Runtime/Relay.antt =====
-- backend/app/runtime/outbox.py: `relay_runtime_outbox` for the outbox of one run, and the
-- publications that it makes. What the clock, redis, the lock and Celery give, and whether the relay
-- lives on, are arguments.
pub mod Items
pub mod Publications
pub mod Turns
pub mod Order
pub mod Stream
pub mod Messages
pub mod Settlement
pub mod Rows
use reviewlens_ai.Prelude.{
  ℕ, suc, ◌+◌, ◌-◌, ◌*◌, ◌^◌, min, String, Bool, true, false, not, ◌&&◌, ◌||◌, Option, none, some,
  List, [], ◌∷◌, ◌==◌, nat_eq, string_eq, contains, any, ltb, leb, if◌then◌else◌,
}
use reviewlens_ai.Contracts.Status.{
  RunStatus, TaskStatus, OutboxStatus, task_status_eq, run_status_eq,
}
use reviewlens_ai.Runtime.Result.{
  Exception, Result, ok, raise, lookup_error, dispatch_lock_busy, connection_error, response_error,
  delivery_error, exception_name,
}
use reviewlens_ai.Runtime.State.{
  OutboxKey, dispatch, revoke, progress, outbox_key_eq, RuntimeOutbox, EventType, ProgressEvent,
  TaskRun, TaskAttempt, RunDb, find_task, find_attempt, second,
}
use reviewlens_ai.Runtime.Redis.{Redis}
use Rows.{
  is_open, is_processing, is_published, lease_ended, is_due, earlier, first_due, find_item,
  put_item, claimed, find_event, is_predecessor, predecessor_pending, backoff, failed_item,
  published_item, settle_item,
}

abbrev event_code : EventType → ℕ
event_code EventType.run_queued = 0
event_code EventType.run_started = 1
event_code EventType.run_waiting_for_input = 2
event_code EventType.run_input_received = 3
event_code EventType.task_started = 4
event_code EventType.task_progress = 5
event_code EventType.source_completed = 6
event_code EventType.task_failed = 7
event_code EventType.run_partial = 8
event_code EventType.run_completed = 9
event_code EventType.run_failed = 10
event_code EventType.run_cancelled = 11

abbrev same_task : Option ℕ → Option ℕ → Bool
same_task none none = true
same_task (some a) (some b) = a == b
same_task _ _ = false

-- `existing[0][1] == fields`.
unfoldable pub same_fields : ProgressEvent → ProgressEvent → Bool
same_fields e f =
    e.sequence == f.sequence
    && event_code e.event_type == event_code f.event_type
    && same_task e.task_run_id f.task_run_id
    && e.completed_tasks == f.completed_tasks
    && e.total_tasks == f.total_tasks
    && e.percent == f.percent

-- What one turn of the relay meets: whether redis is there for XADD and for EXPIRE and gives the lock,
-- whether Celery takes the message and says so, and whether the relay lives on until the turn's last
-- transaction.
pub record Turn : Type 0 where
  pub claimed_at : ℕ
  pub settled_at : ℕ
  pub redis_adds : Bool
  pub redis_expires : Bool
  pub lock_acquired : Bool
  pub sent : Bool
  pub confirmed : Bool
  pub survives : Bool

abbrev pub is_stopping : RunStatus → Bool
is_stopping st =
    contains (RunStatus.cancelling ∷ RunStatus.cancelled ∷ RunStatus.waiting_for_input ∷ []) st

-- The message is sent only for the task's next attempt.
abbrev pub is_current : ℕ → TaskRun → RunDb → Bool
is_current n t s =
    t.status == TaskStatus.queued && not (is_stopping s.run.status) && suc t.current_attempt == n

module _ (r : Redis) where
  -- The database and what the relay has sent: the stream, the task messages, the revocations.
  pub record World : Type 0 where
    pub db : RunDb
    pub stream : r.Stream
    pub messages : List (ℕ × ℕ)
    pub revoked : List String

  -- `except ResponseError`: an entry with the same id and fields is the one wanted.
  unfoldable pub add_entry : ProgressEvent → r.Stream → Result r.Stream
  unfolding same_fields
  add_entry e s = elim (r.xadd e.sequence e s) [
    | some s' ↦ ok s'
    | none ↦ elim (r.entry_at e.sequence s) [
      | none ↦ raise response_error
      | some f ↦ if same_fields f e then ok s else raise response_error
    ]
  ]

  -- What a publication leaves, and whether it raises: what it did before it raised stays done.
  abbrev pub Outcome : Type 0
  Outcome = World × Result (Unit {0})

  abbrev pub completed : World → Outcome
  completed w = (w, ok tt)

  abbrev pub failing : Exception → World → Outcome
  failing e w = (w, raise e)

  abbrev pub added : Turn → World → Result r.Stream → Outcome
  added turn w (raise e) = failing e w
  added turn w (ok s) =
      if turn.redis_expires
      then completed (record w { stream = r.expire s })
      else failing connection_error (record w { stream = s })

  unfoldable pub publish_progress : Turn → ℕ → World → Outcome
  unfolding find_event predecessor_pending add_entry
  publish_progress turn n w = elim (find_event n w.db.events) [
    | none ↦ failing lookup_error w
    | some e ↦
        if predecessor_pending e.sequence w.db.outbox
        then failing dispatch_lock_busy w
        else if turn.redis_adds
        then added turn w (add_entry e w.stream)
        else failing connection_error w
  ]

  -- The message is out, whether or not the client hears of it.
  abbrev pub delivered : Turn → World → Outcome
  delivered turn w = if turn.confirmed then completed w else failing delivery_error w

  abbrev pub dispatched : Turn → ℕ → ℕ → World → Option TaskRun → Outcome
  dispatched turn task n w none = completed w
  dispatched turn task n w (some t) =
      if not (is_current n t w.db)
      then completed w
      else if turn.sent
      then delivered turn (record w { messages = (task, n) ∷ w.messages })
      else failing delivery_error w

  unfoldable pub publish_task_dispatch : Turn → ℕ → ℕ → World → Outcome
  unfolding find_task
  publish_task_dispatch turn task n w =
      if turn.lock_acquired
      then dispatched turn task n w (find_task task w.db.tasks)
      else failing dispatch_lock_busy w

  abbrev pub revoke_message : Turn → Option String → World → Outcome
  revoke_message turn none w = completed w
  revoke_message turn (some i) w =
      if i == ""
      then completed w
      else if turn.sent
      then delivered turn (record w { revoked = i ∷ w.revoked })
      else failing delivery_error w

  -- The item's payload holds the attempt's `celery_task_id`, which never changes.
  unfoldable pub publish_task_revoke : Turn → ℕ → World → Outcome
  unfolding find_attempt
  publish_task_revoke turn a w = elim (find_attempt a w.db.attempts) [
    | none ↦ completed w
    | some x ↦ revoke_message turn x.celery_task_id w
  ]

  unfoldable pub publish_outbox_item : Turn → OutboxKey → World → Outcome
  unfolding publish_progress publish_task_dispatch publish_task_revoke
  publish_outbox_item turn (progress n) w = publish_progress turn n w
  publish_outbox_item turn (dispatch t n) w = publish_task_dispatch turn t n w
  publish_outbox_item turn (revoke a) w = publish_task_revoke turn a w

  -- After the publication, in a transaction of its own.
  unfoldable pub settle_turn : Turn → OutboxKey → Outcome → World
  unfolding settle_item backoff
  settle_turn turn k (w, ok u) = record w {
    db = settle_item (published_item turn.settled_at) k w.db;
  }
  settle_turn turn k (w, raise e) = record w {
    db = settle_item (failed_item turn.settled_at e) k w.db;
  }

  abbrev pub claim_item : ℕ → Turn → RuntimeOutbox → World → World
  claim_item lease_seconds turn o w = record w {
    db = record w.db { outbox = put_item (claimed turn.claimed_at lease_seconds o) w.db.outbox };
  }

  -- The body of the loop for the item that is due.
  unfoldable pub relay_item : ℕ → Turn → RuntimeOutbox → World → World
  unfolding publish_outbox_item settle_turn put_item
  relay_item lease_seconds turn o w =
      let outcome =
        publish_outbox_item turn o.idempotency_key (claim_item lease_seconds turn o w) in
      if turn.survives then settle_turn turn o.idempotency_key outcome else outcome.0

  -- The loop, with one turn for each item that the batch may take. A relay that dies in its turn leaves
  -- the rest to the next one, which goes on with the turns.
  unfoldable pub relay_runtime_outbox : ℕ → List Turn → World → World
  unfolding first_due relay_item
  relay_runtime_outbox lease_seconds [] w = w
  relay_runtime_outbox lease_seconds (turn ∷ turns) w =
      elim (first_due turn.claimed_at w.db.outbox) [
        | none ↦ w
        | some o ↦ relay_runtime_outbox lease_seconds turns (relay_item lease_seconds turn o w)
      ]

-- ===== src/Runtime/Relay/Rows.antt =====
-- backend/app/runtime/outbox.py: what the relay reads and changes in the rows of a run: the choice of
-- the item that is due, its predecessors, and what becomes of it.
use reviewlens_ai.Prelude.{
  ℕ, suc, ◌+◌, ◌-◌, ◌*◌, ◌^◌, min, Bool, true, false, not, ◌&&◌, ◌||◌, Option, none, some, List, [],
  ◌∷◌, ◌==◌, nat_eq, string_eq, any, ltb, leb, if◌then◌else◌,
}
use reviewlens_ai.Contracts.Status.{OutboxStatus, task_status_eq, run_status_eq}
use reviewlens_ai.Runtime.Result.{Exception, exception_name}
use reviewlens_ai.Runtime.State.{
  OutboxKey, progress, outbox_key_eq, RuntimeOutbox, ProgressEvent, RunDb, second,
}

abbrev pub is_open : OutboxStatus → Bool
is_open OutboxStatus.pending = true
is_open _ = false

abbrev pub is_processing : OutboxStatus → Bool
is_processing OutboxStatus.processing = true
is_processing _ = false

abbrev pub is_published : OutboxStatus → Bool
is_published OutboxStatus.published = true
is_published _ = false

abbrev pub lease_ended : ℕ → Option ℕ → Bool
lease_ended now none = false
lease_ended now (some lease) = ltb lease now

-- The WHERE clause of `_claim_next_outbox`.
unfoldable pub is_due : ℕ → RuntimeOutbox → Bool
is_due now o =
    is_open o.status && leb o.next_attempt_at now
    || is_processing o.status && lease_ended now o.lease_expires_at

abbrev pub earlier : RuntimeOutbox → Option RuntimeOutbox → RuntimeOutbox
earlier o none = o
earlier o (some p) = if ltb o.next_attempt_at p.next_attempt_at then o else p

-- The first by `next_attempt_at`, then by age: older rows stand further back.
unfoldable pub first_due : ℕ → List RuntimeOutbox → Option RuntimeOutbox
unfolding is_due
first_due now [] = none
first_due now (o ∷ os) =
    let rest = first_due now os in if is_due now o then some (earlier o rest) else rest

unfoldable pub find_item : OutboxKey → List RuntimeOutbox → Option RuntimeOutbox
find_item k [] = none
find_item k (o ∷ os) = let rest = find_item k os in if o.idempotency_key == k then some o else rest

unfoldable pub put_item : RuntimeOutbox → List RuntimeOutbox → List RuntimeOutbox
put_item o [] = []
put_item o (p ∷ ps) = (if p.idempotency_key == o.idempotency_key then o else p) ∷ put_item o ps

abbrev pub claimed : ℕ → ℕ → RuntimeOutbox → RuntimeOutbox
claimed now lease_seconds o = record o {
  status = OutboxStatus.processing;
  attempts = suc o.attempts;
  lease_expires_at = some (now + lease_seconds * second);
  last_error_code = none;
}

unfoldable pub find_event : ℕ → List ProgressEvent → Option ProgressEvent
find_event n [] = none
find_event n (e ∷ es) = let rest = find_event n es in if e.sequence == n then some e else rest

-- An unpublished item of an earlier event.
abbrev pub is_predecessor : ℕ → RuntimeOutbox → Bool
is_predecessor n o = elim o.idempotency_key [
  | progress m ↦ ltb m n && not (is_published o.status)
  | _ ↦ false
]

unfoldable pub predecessor_pending : ℕ → List RuntimeOutbox → Bool
predecessor_pending n os = any (is_predecessor n) os

-- `min(60, 2 ** min(attempts - 1, 6))` seconds.
unfoldable pub backoff : ℕ → ℕ
backoff attempts = min 60 (2 ^ min (attempts - 1) 6) * second

abbrev pub failed_item : ℕ → Exception → RuntimeOutbox → RuntimeOutbox
failed_item now e o = record o {
  status = OutboxStatus.pending;
  lease_expires_at = none;
  last_error_code = some (exception_name e);
  next_attempt_at = now + backoff o.attempts;
}

abbrev pub published_item : ℕ → RuntimeOutbox → RuntimeOutbox
published_item now o = record o {
  status = OutboxStatus.published;
  lease_expires_at = none;
  published_at = some now;
  last_error_code = none;
}

-- `if current and current.status == PROCESSING`.
unfoldable pub settle_item : (RuntimeOutbox → RuntimeOutbox) → OutboxKey → RunDb → RunDb
unfolding find_item put_item
settle_item f k s = elim (find_item k s.outbox) [
  | none ↦ s
  | some o ↦ if is_processing o.status then record s { outbox = put_item (f o) s.outbox } else s
]

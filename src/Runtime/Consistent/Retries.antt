-- ===== src/Runtime/Consistent/Retries.antt =====
-- backend/app/runtime/service.py: `retry_task` keeps the outbox and the events consistent.
use reviewlens_ai.Prelude.{
  ℕ, zero, suc, Bool, true, false, ◌≡◌, ◌≢◌, ◌⊎◌, refl, Option, none, some, nat_eq, subst, sym,
  List, [], ◌∷◌, ◌++◌, contains, Bool-cases, inl, inr, ◌==◌, if◌then◌else◌, leb, length,
}
use reviewlens_ai.Contracts.Status.{
  TaskStatus, RunStatus, OutboxStatus, task_status_eq, run_status_eq, run_terminal_statuses,
}
use reviewlens_ai.Runtime.Result.{Result, ok, ◌>>=◌}
use reviewlens_ai.Runtime.State.{
  TaskRun, RunDb, OutboxKey, RuntimeOutbox, dispatch, outbox_key_eq, find_task, save_task,
}
use reviewlens_ai.Runtime.Progress.{item_keys, dispatch_item, queue_task_dispatch}
use reviewlens_ai.Runtime.Dependents.{downstream_ids}
use reviewlens_ai.Runtime.Finalize.{failures}
use reviewlens_ai.Runtime.RetryTask.{
  Walk, unskip, walk_ids, walk_round, walk, reset_skipped_descendants, rearmed, rearm, reopen_run,
  renewed, retry_task,
}
use reviewlens_ai.Runtime.Ends.{Ends, Ends-bind, Ends-set_task_status, Ends-set_run_status}
use reviewlens_ai.Runtime.Consistent.{
  IsConsistent, Consistent, save_task-IsConsistent, requeue-IsConsistent,
}

-- What the walk keeps: anything that writing back a row keeps that is not queued.
module _ (P : RunDb → Type 0)
    (save : (t : TaskRun) (s : RunDb)
      → t.status ≢ TaskStatus.queued
      → P s
      → P (save_task t s)) where
  abbrev WalkKept : Walk → Type 0
  WalkKept w = P w.db

  unskip-keeps : (o : Option TaskRun) (s : RunDb) → P s → Ends P (unskip o s)
  unskip-keeps none s c = c
  unskip-keeps (some t) s c = elim (Bool-cases (t.status == TaskStatus.skipped)) [
    | inl e ↦ rw e (
        Ends-set_task_status P t TaskStatus.blocked _
          (save (record t { status = TaskStatus.blocked; completed_at = none }) s (λ q. cc) c))
    | inr e ↦ rw e c
  ]

  walk_ids-keeps : (is : List ℕ) (w : Walk) → WalkKept w → Ends WalkKept (walk_ids is w)
  unfolding walk_ids
  walk_ids-keeps [] w c = c
  walk_ids-keeps (i ∷ is) w c = elim (Bool-cases (contains w.visited i)) [
    | inl e ↦ rw (Ends, e) (walk_ids-keeps is w c)
    | inr e ↦
        rw (Ends, e)
          (Ends-bind P WalkKept (unskip (find_task i w.db.tasks) w.db)
            (λ s.
              walk_ids is
                (record { pending = w.pending ++ i ∷ []; visited = i ∷ w.visited; db = s }))
            (unskip-keeps (find_task i w.db.tasks) w.db c)
            (λ s c'.
              walk_ids-keeps is
                (record { pending = w.pending ++ i ∷ []; visited = i ∷ w.visited; db = s }) c'))
  ]

  walk_round-keeps :
      (again : Walk → Result Walk)
      → ((w : Walk) → WalkKept w → Ends WalkKept (again w))
      → (is : List ℕ) (w : Walk) → WalkKept w
      → Ends WalkKept (walk_round again is w)
  unfolding walk_round
  walk_round-keeps again ih [] w c = c
  walk_round-keeps again ih (i ∷ is) w c =
      Ends-bind WalkKept WalkKept
        (walk_ids (downstream_ids i w.db.dependencies) (record w { pending = is })) again
        (walk_ids-keeps (downstream_ids i w.db.dependencies) (record w { pending = is }) c)
        (λ w' c'. ih w' c')

  walk-keeps : (fuel : ℕ) (w : Walk) → WalkKept w → Ends WalkKept (walk fuel w)
  unfolding walk
  walk-keeps zero w c = tt
  walk-keeps (suc fuel) w c =
      walk_round-keeps (walk fuel) (λ w' c'. walk-keeps fuel w' c') w.pending w c

  reset-keeps : (up : ℕ) (s : RunDb) → P s → Ends P (reset_skipped_descendants up s)
  unfolding reset_skipped_descendants
  reset-keeps up s c =
      Ends-bind WalkKept P
        (walk (suc (suc (length s.dependencies)))
          (record { pending = up ∷ []; visited = []; db = s }))
        (λ w. ok w.db)
        (walk-keeps (suc (suc (length s.dependencies)))
          (record { pending = up ∷ []; visited = []; db = s }) c)
        (λ w c'. c')

-- The row of the task is written before the walk and its delivery is queued after it: until then
-- the rows are consistent but for that delivery.
abbrev next : TaskRun → OutboxKey
next t = dispatch t.id (suc t.current_attempt)

abbrev Promised : TaskRun → RunDb → Type 0
Promised t s =
    ((contains (item_keys s.outbox) (next t) ≡ true)
      × Consistent s.run.progress_sequence s.tasks (item_keys s.outbox) s.events)
    ⊎ ((contains (item_keys s.outbox) (next t) ≡ false)
        × Consistent s.run.progress_sequence s.tasks (next t ∷ item_keys s.outbox) s.events)

to-Promised :
    (now : ℕ) (t : TaskRun) (s : RunDb) → IsConsistent (queue_task_dispatch now t s) → Promised t s
unfolding queue_task_dispatch
to-Promised now t s c = go (contains (item_keys s.outbox) (next t)) refl c
  where
    go :
        (b : Bool)
        → contains (item_keys s.outbox) (next t) ≡ b
        → IsConsistent (if b then s else record s { outbox = dispatch_item t now ∷ s.outbox })
        → Promised t s
    go true e h = inl (e, h.rows)
    go false e h = inr (e, h.rows)

from-Promised :
    (now : ℕ) (t : TaskRun) (s : RunDb) → Promised t s → IsConsistent (queue_task_dispatch now t s)
unfolding queue_task_dispatch
from-Promised now t s (inl (e, h)) = rw e (record { rows = h })
from-Promised now t s (inr (e, h)) = rw e (record { rows = h })

Promised-save :
    (p t : TaskRun) (s : RunDb)
    → t.status ≢ TaskStatus.queued
    → Promised p s
    → Promised p (save_task t s)
Promised-save p t s q (inl (e, h)) =
    inl (e, (save_task-IsConsistent t s q (record { rows = h })).rows)
Promised-save p t s q (inr (e, h)) = inr (
  e,
  (save_task-IsConsistent t (record s { outbox = dispatch_item p 0 ∷ s.outbox }) q
      (record { rows = h })).rows,
)

rearmed-key : (now : ℕ) (o : RuntimeOutbox) → (rearmed now o).idempotency_key ≡ o.idempotency_key
rearmed-key now o = go o.status
  where
    go :
        (st : OutboxStatus)
        → (rearmed now (record o { status = st })).idempotency_key ≡ o.idempotency_key
    go OutboxStatus.published = refl
    go _ = refl

item_keys-rearm :
    (now : ℕ) (k : OutboxKey) (os : List RuntimeOutbox) → item_keys (rearm now k os) ≡ item_keys os
unfolding rearm
item_keys-rearm now k [] = refl
item_keys-rearm now k (o ∷ os) = elim (Bool-cases (o.idempotency_key == k)) [
  | inr e ↦ rw (e, item_keys-rearm now k os) refl
  | inl e ↦ rw (e, item_keys-rearm now k os, rearmed-key now o) refl
]

rearm-IsConsistent :
    (now : ℕ) (k : OutboxKey) (s : RunDb)
    → IsConsistent s
    → IsConsistent (record s { outbox = rearm now k s.outbox })
rearm-IsConsistent now k s c = record {
  rows =
      subst (λ ks. Consistent s.run.progress_sequence s.tasks ks s.events)
        (sym (item_keys-rearm now k s.outbox)) c.rows;
}

-- Reopening the run changes neither the rows of its tasks nor its outbox.
reopen_run-Promised : (t : TaskRun) (s : RunDb) → Promised t s → Ends (Promised t) (reopen_run s)
unfolding reopen_run
reopen_run-Promised t s c = elim (Bool-cases (contains run_terminal_statuses s.run.status)) [
  | inr e ↦ rw e c
  | inl e ↦ rw e (Ends-set_run_status (Promised t) RunStatus.running s _ c)
]

requeue-rest :
    (now up : ℕ) (t : TaskRun) (s : RunDb)
    → IsConsistent s
    → Ends IsConsistent (
        reopen_run (save_task t s) >>= λ s1. reset_skipped_descendants up s1 >>= λ s2.
        ok (record (queue_task_dispatch now t s2) {
          outbox = rearm now (next t) (queue_task_dispatch now t s2).outbox;
        }))
requeue-rest now up t s c =
    Ends-bind (Promised t) IsConsistent (reopen_run (save_task t s)) _
      (reopen_run-Promised t (save_task t s)
        (to-Promised now t (save_task t s) (requeue-IsConsistent now t s c)))
      (λ s1 c1.
        Ends-bind (Promised t) IsConsistent (reset_skipped_descendants up s1)
          (λ s2. ok (record (queue_task_dispatch now t s2) {
            outbox = rearm now (next t) (queue_task_dispatch now t s2).outbox;
          }))
          (reset-keeps (Promised t) (λ r s' q h. Promised-save t r s' q h) up s1 c1)
          (λ s2 c2.
            rearm-IsConsistent now (next t) (queue_task_dispatch now t s2)
              (from-Promised now t s2 c2)))

-- A retry that returns leaves the outbox and the events consistent.
pub retry_task-IsConsistent :
    (now : ℕ) (t : TaskRun) (s : RunDb) → IsConsistent s → Ends IsConsistent (retry_task now t s)
unfolding retry_task
retry_task-IsConsistent now t s c =
    elim (Bool-cases (contains (RunStatus.cancelling ∷ RunStatus.cancelled ∷ []) s.run.status)) [
      | inl h1 ↦ rw h1 tt
      | inr h1 ↦ rw h1 (elim (Bool-cases (contains failures t.status)) [
        | inr h2 ↦ rw h2 tt
        | inl h2 ↦ rw h2 (elim (Bool-cases (leb s.run.deadline_at now)) [
          | inl h3 ↦ rw h3 tt
          | inr h3 ↦ rw h3 (
              Ends-set_task_status IsConsistent (renewed now s.run.deadline_at t) TaskStatus.queued
                _
                (requeue-rest now t.id
                  (record (renewed now s.run.deadline_at t) {
                    status = TaskStatus.queued;
                    completed_at = none;
                  })
                  s c))
        ])
      ])
    ]

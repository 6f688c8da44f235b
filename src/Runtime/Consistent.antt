-- ===== src/Runtime/Consistent.antt =====
-- The transactional outbox and the event log of a run: every queued task has the delivery of its next
-- attempt, the events are numbered without a gap, each event has its own delivery, and no
-- idempotency key stands twice.
pub mod Answers
pub mod Cancellation
pub mod Claims
pub mod Completions
pub mod Operations
pub mod Recovery
pub mod Retries
use reviewlens_ai.Prelude.{
  ℕ, zero, suc, ◌≤◌, Bool, true, false, not, ◌&&◌, ◌||◌, ◌≡◌, ◌≢◌, refl, sym, subst, Option, none,
  some, List, [], ◌∷◌, ◌==◌, nat_eq, contains, All, arith, Bool-cases, inl, inr, if◌then◌else◌,
  eqb_iff,
}
use reviewlens_ai.Contracts.Status.{TaskStatus, task_status_eq}
use reviewlens_ai.Runtime.State.{
  TaskRun, TaskAttempt, OutboxKey, dispatch, revoke, progress, RuntimeOutbox, EventType,
  ProgressEvent, RunDb, put_task, save_task, same_key_iff, outbox_key_eq,
}
use reviewlens_ai.Runtime.Progress.{
  item_keys, append_progress, queue_task_dispatch, queue_task_revoke, close_budget, no_celery_id,
}

abbrev distinct : List OutboxKey → Bool
distinct [] = true
distinct (k ∷ ks) = not (contains ks k) && distinct ks

-- The newest event has the number `n`, the one before it the number before, down to 1.
abbrev pub Numbered : ℕ → List ProgressEvent → Type 0
Numbered zero [] = Unit
Numbered zero (e ∷ es) = ⊥
Numbered (suc n) [] = ⊥
Numbered (suc n) (e ∷ es) = (e.sequence ≡ suc n) × Numbered n es

abbrev pub Delivered : List OutboxKey → TaskRun → Type 0
Delivered ks t =
    t.status ≡ TaskStatus.queued → contains ks (dispatch t.id (suc t.current_attempt)) ≡ true

abbrev Announced : List OutboxKey → ProgressEvent → Type 0
Announced ks e = contains ks (progress e.sequence) ≡ true

pub record Consistent (n : ℕ) (ts : List TaskRun) (ks : List OutboxKey) (es : List ProgressEvent)
    : Type 0 where
  pub delivered : All (Delivered ks) ts
  pub numbered : Numbered n es
  pub announced : All (Announced ks) es
  pub keys_distinct : distinct ks ≡ true
  pub keys_bounded : (e : ℕ) → contains ks (progress e) ≡ true → e ≤ n

pub record IsConsistent (s : RunDb) : Type 0 where
  pub rows : Consistent s.run.progress_sequence s.tasks (item_keys s.outbox) s.events
  pub open rows use *

Delivered-grow :
    (k : OutboxKey) (ks : List OutboxKey) (ts : List TaskRun)
    → All (Delivered ks) ts
    → All (Delivered (k ∷ ks)) ts
Delivered-grow k ks [] h = tt
Delivered-grow k ks (t ∷ ts) h = (λ q. ground (arith, h.0 q), Delivered-grow k ks ts h.1)

Announced-grow :
    (k : OutboxKey) (ks : List OutboxKey) (es : List ProgressEvent)
    → All (Announced ks) es
    → All (Announced (k ∷ ks)) es
Announced-grow k ks [] h = tt
Announced-grow k ks (e ∷ es) h = (ground (arith, h.0), Announced-grow k ks es h.1)

-- A new key that is no event's, or the next event's.
pub new_key :
    (k : OutboxKey) (n : ℕ) (ts : List TaskRun) (ks : List OutboxKey) (es : List ProgressEvent)
    → contains ks k ≡ false
    → ((e : ℕ) → k ≢ progress e)
    → Consistent n ts ks es
    → Consistent n ts (k ∷ ks) es
new_key k n ts ks es fresh other c = record {
  delivered = Delivered-grow k ks ts c.delivered;
  numbered = c.numbered;
  announced = Announced-grow k ks es c.announced;
  keys_distinct = ground (arith, c.keys_distinct);
  keys_bounded = λ e h. ground (arith, c.keys_bounded e, same_key_iff (progress e) k, other e);
}

pub append_progress-IsConsistent :
    (now : ℕ) (type : EventType) (task : Option ℕ) (s : RunDb)
    → IsConsistent s
    → IsConsistent (append_progress now type task s)
unfolding append_progress
append_progress-IsConsistent now type task s c = record {
  rows = record {
    delivered = Delivered-grow (progress n1) (item_keys s.outbox) s.tasks c.delivered;
    numbered = (refl, c.numbered);
    announced = (
      ground (arith, eqb_iff n1 n1),
      Announced-grow (progress n1) (item_keys s.outbox) s.events c.announced,
    );
    keys_distinct = elim (Bool-cases (contains (item_keys s.outbox) (progress n1))) [
      | inl old ↦ absurd (omega (arith, c.keys_bounded n1 old))
      | inr new ↦ ground (arith, c.keys_distinct)
    ];
    keys_bounded = λ e h. ground (arith, c.keys_bounded e, eqb_iff e n1);
  };
}
  where
    n1 : ℕ
    n1 = suc s.run.progress_sequence

pub All-put :
    (P : TaskRun → Type 0) (t : TaskRun) (ts : List TaskRun)
    → P t
    → All P ts
    → All P (put_task t ts)
unfolding put_task
All-put P t [] p h = tt
All-put P t (r ∷ rs) p h = elim (Bool-cases (r.id == t.id)) [
  | inl e ↦ rw e (p, All-put P t rs p h.1)
  | inr e ↦ rw e (h.0, All-put P t rs p h.1)
]

-- A row that is written back with its delivery, or that is not queued.
pub keep_task-IsConsistent :
    (t : TaskRun) (s : RunDb)
    → Delivered (item_keys s.outbox) t
    → IsConsistent s
    → IsConsistent (save_task t s)
keep_task-IsConsistent t s d c = record {
  rows = record {
    delivered = All-put (Delivered (item_keys s.outbox)) t s.tasks d c.delivered;
    numbered = c.numbered;
    announced = c.announced;
    keys_distinct = c.keys_distinct;
    keys_bounded = c.keys_bounded;
  };
}

pub save_task-IsConsistent :
    (t : TaskRun) (s : RunDb)
    → t.status ≢ TaskStatus.queued
    → IsConsistent s
    → IsConsistent (save_task t s)
save_task-IsConsistent t s q c = keep_task-IsConsistent t s (λ e. absurd (q e)) c

-- The delivery of any row may be queued.
pub queue-IsConsistent :
    (now : ℕ) (t : TaskRun) (s : RunDb)
    → IsConsistent s
    → IsConsistent (queue_task_dispatch now t s)
unfolding queue_task_dispatch
queue-IsConsistent now t s c =
    elim (Bool-cases (contains (item_keys s.outbox) (dispatch t.id (suc t.current_attempt)))) [
      | inl old ↦ rw old c
      | inr new ↦ rw new (record {
        rows = new_key _ _ s.tasks (item_keys s.outbox) s.events new (λ e h. cc) c.rows;
      })
    ]

-- A row that is written back as queued, with its delivery.
pub requeue-IsConsistent :
    (now : ℕ) (t : TaskRun) (s : RunDb)
    → IsConsistent s
    → IsConsistent (queue_task_dispatch now t (save_task t s))
unfolding queue_task_dispatch
requeue-IsConsistent now t s c =
    elim (Bool-cases (contains (item_keys s.outbox) (dispatch t.id (suc t.current_attempt)))) [
      | inl old ↦ rw old (record {
        rows = record {
          delivered = All-put (Delivered (item_keys s.outbox)) t s.tasks (λ e. old) c.delivered;
          numbered = c.numbered;
          announced = c.announced;
          keys_distinct = c.keys_distinct;
          keys_bounded = c.keys_bounded;
        };
      })
      | inr new ↦ rw new (
          let grown =
            new_key (dispatch t.id (suc t.current_attempt)) _ s.tasks (item_keys s.outbox) s.events
              new (λ e h. cc) c.rows in
          record {
            rows = record {
              delivered =
                  All-put (Delivered (dispatch t.id (suc t.current_attempt) ∷ item_keys s.outbox)) t
                    s.tasks
                    (λ e. ground (
                      arith,
                      eqb_iff t.id t.id,
                      eqb_iff (suc t.current_attempt) (suc t.current_attempt),
                    ))
                    grown.delivered;
              numbered = grown.numbered;
              announced = grown.announced;
              keys_distinct = grown.keys_distinct;
              keys_bounded = grown.keys_bounded;
            };
          })
    ]

pub revoke-IsConsistent :
    (now : ℕ) (t : TaskRun) (a : TaskAttempt) (s : RunDb)
    → IsConsistent s
    → IsConsistent (queue_task_revoke now t a s)
unfolding queue_task_revoke
revoke-IsConsistent now t a s c = elim (Bool-cases (no_celery_id a.celery_task_id)) [
  | inl e ↦ rw e c
  | inr e ↦ rw e (elim (Bool-cases (contains (item_keys s.outbox) (revoke a.id))) [
    | inl old ↦ rw old c
    | inr new ↦
        rw new (record {
          rows = new_key _ _ s.tasks (item_keys s.outbox) s.events new (λ i h. cc) c.rows;
        })
  ])
]

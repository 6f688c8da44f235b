-- ===== src/Runtime/CreateRun/Queued.antt =====
-- backend/app/runtime/service.py: the dispatches that `create_run` queues.
use reviewlens_ai.Prelude.{
  ℕ, suc, true, ◌≡◌, refl, ◌∙◌, ap, inl, inr, List, [], ◌∷◌, ◌==◌, string_eq, nat_eq, eqb_iff,
  contains, All, arith, Bool-cases,
}
use reviewlens_ai.Contracts.Status.{TaskStatus, task_status_eq}
use reviewlens_ai.Runtime.State.{
  TaskRun, TaskDependency, OutboxKey, dispatch, ProgressEvent, RunDb, outbox_key_eq,
}
use reviewlens_ai.Runtime.Progress.{item_keys, queue_task_dispatch}
use reviewlens_ai.Runtime.Consistent.{Consistent, IsConsistent, Delivered, new_key}
use reviewlens_ai.Runtime.CreateRun.{NewRun, queue_first, queue_all, first_rows}

queue_first-keys :
    (now : ℕ) (t : TaskRun) (s : RunDb) (es : List ProgressEvent)
    → Consistent 0 [] (item_keys s.outbox) es
    → Consistent 0 [] (item_keys (queue_first now t s).outbox) es
unfolding queue_first queue_task_dispatch
queue_first-keys now t s es c = elim (Bool-cases (t.status == TaskStatus.queued)) [
  | inr n ↦ rw n c
  | inl q ↦
      rw q
        (elim (Bool-cases (contains (item_keys s.outbox) (dispatch t.id (suc t.current_attempt)))) [
          | inl old ↦ rw old c
          | inr new ↦ rw new (new_key _ _ [] (item_keys s.outbox) es new (λ e h. cc) c)
        ])
]

queue_first-grows :
    (now : ℕ) (t : TaskRun) (s : RunDb) (k : OutboxKey)
    → contains (item_keys s.outbox) k ≡ true
    → contains (item_keys (queue_first now t s).outbox) k ≡ true
unfolding queue_first queue_task_dispatch
queue_first-grows now t s k h = ground (arith, h)

queue_first-Delivered :
    (now : ℕ) (t : TaskRun) (s : RunDb) → Delivered (item_keys (queue_first now t s).outbox) t
unfolding queue_first queue_task_dispatch
queue_first-Delivered now t s q =
    let queued : (t.status == TaskStatus.queued) ≡ true =
      (task_status_eq.equal_iff t.status TaskStatus.queued).1 q in
    rw queued
      (elim (Bool-cases (contains (item_keys s.outbox) (dispatch t.id (suc t.current_attempt)))) [
        | inl old ↦ rw old old
        | inr new ↦ rw new (
            ground (
              arith,
              (eqb_iff t.id t.id).1 refl,
              (eqb_iff (suc t.current_attempt) (suc t.current_attempt)).1 refl,
            ))
      ])

queue_all-grows :
    (now : ℕ) (ts : List TaskRun) (s : RunDb) (k : OutboxKey)
    → contains (item_keys s.outbox) k ≡ true
    → contains (item_keys (queue_all now ts s).outbox) k ≡ true
unfolding queue_all
queue_all-grows now [] s k h = h
queue_all-grows now (t ∷ ts) s k h =
    queue_all-grows now ts (queue_first now t s) k (queue_first-grows now t s k h)

queue_all-keys :
    (now : ℕ) (ts : List TaskRun) (s : RunDb) (es : List ProgressEvent)
    → Consistent 0 [] (item_keys s.outbox) es
    → Consistent 0 [] (item_keys (queue_all now ts s).outbox) es
unfolding queue_all
queue_all-keys now [] s es c = c
queue_all-keys now (t ∷ ts) s es c =
    queue_all-keys now ts (queue_first now t s) es (queue_first-keys now t s es c)

queue_all-Delivered :
    (now : ℕ) (ts : List TaskRun) (s : RunDb)
    → All (Delivered (item_keys (queue_all now ts s).outbox)) ts
unfolding queue_all
queue_all-Delivered now [] s = tt
queue_all-Delivered now (t ∷ ts) s = (
  λ q. queue_all-grows now ts (queue_first now t s) _ (queue_first-Delivered now t s q),
  queue_all-Delivered now ts (queue_first now t s),
)

-- The loop changes nothing but the outbox.
record OnlyOutbox (s s' : RunDb) : Type 0 where
  same_run : s'.run ≡ s.run
  same_tasks : s'.tasks ≡ s.tasks
  same_events : s'.events ≡ s.events

queue_first-OnlyOutbox : (now : ℕ) (t : TaskRun) (s : RunDb) → OnlyOutbox s (queue_first now t s)
unfolding queue_first queue_task_dispatch
queue_first-OnlyOutbox now t s = elim (Bool-cases (t.status == TaskStatus.queued)) [
  | inr n ↦ rw n (record { same_run = refl; same_tasks = refl; same_events = refl })
  | inl q ↦
      rw q
        (elim (Bool-cases (contains (item_keys s.outbox) (dispatch t.id (suc t.current_attempt)))) [
          | inl old ↦ rw old (record { same_run = refl; same_tasks = refl; same_events = refl })
          | inr new ↦ rw new (record { same_run = refl; same_tasks = refl; same_events = refl })
        ])
]

queue_all-OnlyOutbox : (now : ℕ) (ts : List TaskRun) (s : RunDb) → OnlyOutbox s (queue_all now ts s)
unfolding queue_all
queue_all-OnlyOutbox now [] s = record { same_run = refl; same_tasks = refl; same_events = refl }
queue_all-OnlyOutbox now (t ∷ ts) s =
    let first = queue_first-OnlyOutbox now t s in
    let rest = queue_all-OnlyOutbox now ts (queue_first now t s) in
    record {
      same_run = rest.same_run ∙ first.same_run;
      same_tasks = rest.same_tasks ∙ first.same_tasks;
      same_events = rest.same_events ∙ first.same_events;
    }

pub queue_all-IsConsistent :
    (a : NewRun) (ts : List TaskRun) (edges : List TaskDependency)
    → IsConsistent (queue_all a.now ts (first_rows a ts edges))
queue_all-IsConsistent a ts edges =
    let s : RunDb = queue_all a.now ts (first_rows a ts edges) in
    let same = queue_all-OnlyOutbox a.now ts (first_rows a ts edges) in
    let c = queue_all-keys a.now ts (first_rows a ts edges) [] (record {
      delivered = tt;
      numbered = tt;
      announced = tt;
      keys_distinct = refl;
      keys_bounded = λ e h. absurd cc;
    }) in
    let whole : Consistent 0 ts (item_keys s.outbox) [] = record {
      delivered = queue_all-Delivered a.now ts (first_rows a ts edges);
      numbered = c.numbered;
      announced = c.announced;
      keys_distinct = c.keys_distinct;
      keys_bounded = c.keys_bounded;
    } in
    record {
      rows =
          rw (same.same_tasks, same.same_events, ap (λ x. x.progress_sequence) same.same_run) whole;
    }

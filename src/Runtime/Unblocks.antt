-- ===== src/Runtime/Unblocks.antt =====
-- backend/app/runtime/service.py: `_unblock_dependents` ends and raises nothing.
use reviewlens_ai.Prelude.{
  ℕ, zero, suc, ◌≤◌, ◌<◌, Bool, true, false, ◌≡◌, refl, sym, ◌⊎◌, some, List, [], ◌∷◌, Bool-cases,
  Option-cases, inl, inr, ◌==◌, if◌then◌else◌, length, arith, nat_eq, eqb_iff,
}
use reviewlens_ai.Contracts.Status.{TaskStatus, task_status_eq, task_transition_allowed}
use reviewlens_ai.Runtime.Result.{Result, ok, raise, Returns}
use reviewlens_ai.Runtime.State.{TaskRun, RunDb, find_task, put_task, save_task, set_task_status}
use reviewlens_ai.Runtime.Progress.{queue_task_dispatch}
use reviewlens_ai.Runtime.Dependents.{
  Verdict, release, skip, wait, settle, visit, visit_all, evaluate_dependents, unblock_dependents,
  downstream_ids, verdict, upstream_rows,
}
use reviewlens_ai.Runtime.Ends.{Returns-bind}

abbrev is_blocked : TaskRun → Bool
is_blocked t = t.status == TaskStatus.blocked

-- How many tasks are blocked.
unfoldable pub blocked_tasks : List TaskRun → ℕ
blocked_tasks [] = 0
blocked_tasks (t ∷ ts) = let rest = blocked_tasks ts in if is_blocked t then suc rest else rest

blocked_tasks-length : (ts : List TaskRun) → blocked_tasks ts ≤ length ts
unfolding blocked_tasks
blocked_tasks-length [] = omega arith
blocked_tasks-length (t ∷ ts) = ground (arith, blocked_tasks-length ts)

blocked_tasks-put :
    (t : TaskRun) (ts : List TaskRun)
    → is_blocked t ≡ false
    → blocked_tasks (put_task t ts) ≤ blocked_tasks ts
unfolding blocked_tasks put_task
blocked_tasks-put t [] h = omega arith
blocked_tasks-put t (r ∷ rs) h = elim (Bool-cases (r.id == t.id)) [
  | inl e ↦ rw (e, h) (ground (arith, blocked_tasks-put t rs h))
  | inr e ↦ rw e (ground (arith, blocked_tasks-put t rs h))
]

blocked_tasks-head :
    (x t : TaskRun) (xs : List TaskRun)
    → (x.id == t.id) ≡ true
    → is_blocked x ≡ true
    → is_blocked t ≡ false
    → blocked_tasks (put_task t (x ∷ xs)) < blocked_tasks (x ∷ xs)
unfolding blocked_tasks put_task
blocked_tasks-head x t xs e b h = rw (e, h, b) (omega (arith, blocked_tasks-put t xs h))

find_task-cons :
    (i : ℕ) (x r : TaskRun) (xs : List TaskRun)
    → find_task i (x ∷ xs) ≡ some r
    → (x ≡ r) ⊎ (find_task i xs ≡ some r)
unfolding find_task
find_task-cons i x r xs f = elim (Bool-cases (x.id == i)) [
  | inl e ↦ inl (ground (arith, f, e))
  | inr e ↦ inr (ground (arith, f, e))
]

pub blocked_tasks-find :
    (i : ℕ) (ts : List TaskRun) (r t : TaskRun)
    → find_task i ts ≡ some r
    → is_blocked r ≡ true
    → t.id ≡ r.id
    → is_blocked t ≡ false
    → blocked_tasks (put_task t ts) < blocked_tasks ts
unfolding blocked_tasks put_task find_task
blocked_tasks-find i [] r t f b s h = absurd cc
blocked_tasks-find i (x ∷ xs) r t f b s h = elim (find_task-cons i x r xs f) [
  | inl e ↦ blocked_tasks-head x t xs (rw e ((eqb_iff r.id t.id).1 (sym s))) (rw e b) h
  | inr e ↦ elim (Bool-cases (x.id == t.id)) [
    | inl g ↦ rw (g, h) (ground (arith, blocked_tasks-find i xs r t e b s h))
    | inr g ↦ rw g (ground (arith, blocked_tasks-find i xs r t e b s h))
  ]
]

-- At most `n` tasks are blocked.
abbrev AtMost : ℕ → RunDb → Type 0
AtMost n s = blocked_tasks s.tasks ≤ n

queue-AtMost :
    (n now : ℕ) (t : TaskRun) (s : RunDb) → AtMost n s → AtMost n (queue_task_dispatch now t s)
unfolding queue_task_dispatch
queue-AtMost n now t s h = ground (arith, h)

Returns-mono : (n m : ℕ) (r : Result RunDb) → n ≤ m → Returns (AtMost n) r → Returns (AtMost m) r
Returns-mono n m (ok s) l h = omega (arith, h)
Returns-mono n m (raise e) l h = absurd h

blocked-leaves :
    (t : TaskRun) (st : TaskStatus)
    → is_blocked t ≡ true
    → task_transition_allowed TaskStatus.blocked st ≡ true
    → set_task_status t st ≡ ok (record t { status = st })
unfolding set_task_status
blocked-leaves t st b h = rw ((task_status_eq.equal_iff t.status TaskStatus.blocked).0 b, h) refl

module _ (f : ℕ) (again : ℕ → RunDb → Result RunDb)
    (ih : (i n : ℕ) (s : RunDb) → n < f → AtMost n s → Returns (AtMost n) (again i s)) where
  settle-Returns :
      (n now : ℕ) (v : Verdict) (t : TaskRun) (s : RunDb)
      → n ≤ f
      → is_blocked t ≡ true
      → AtMost n s
      → ((t' : TaskRun)
          → t'.id ≡ t.id
          → is_blocked t' ≡ false
          → blocked_tasks (put_task t' s.tasks) < n)
      → Returns (AtMost n) (settle again now v t s)
  unfolding settle task_transition_allowed
  settle-Returns n now release t s l b m h =
      rw (Returns, blocked-leaves t TaskStatus.queued b refl)
        (queue-AtMost n now (record t { status = TaskStatus.queued })
          (save_task (record t { status = TaskStatus.queued }) s)
          (omega (arith, h (record t { status = TaskStatus.queued }) refl refl)))
  settle-Returns n now skip t s l b m h =
      let gone : TaskRun = record t { status = TaskStatus.skipped; completed_at = some now } in
      let fewer : blocked_tasks (put_task gone s.tasks) < n = h gone refl refl in
      rw (Returns, blocked-leaves t TaskStatus.skipped b refl)
        (Returns-mono (blocked_tasks (put_task gone s.tasks)) n (again t.id (save_task gone s))
          (omega (arith, fewer))
          (ih t.id (blocked_tasks (put_task gone s.tasks)) (save_task gone s) (omega (arith, fewer))
            (omega arith)))
  settle-Returns n now wait t s l b m h = m

  visit-Returns :
      (n now i : ℕ) (s : RunDb)
      → n ≤ f
      → AtMost n s
      → Returns (AtMost n) (visit again now (find_task i s.tasks) s)
  unfolding visit
  visit-Returns n now i s l m = elim (Option-cases (find_task i s.tasks)) [
    | inl e ↦ rw (Returns, e) m
    | inr (t, e) ↦
        rw (Returns, e)
          (elim (Bool-cases (is_blocked t)) [
            | inr b ↦ rw (Returns, b) m
            | inl b ↦
                rw (Returns, b)
                  (settle-Returns n now (verdict t (upstream_rows t.id s.dependencies s.tasks)) t s
                    l b m (λ t' j c. omega (arith, blocked_tasks-find i s.tasks t t' e b j c, m)))
          ])
  ]

  visit_all-Returns :
      (n now : ℕ) (is : List ℕ) (s : RunDb)
      → n ≤ f
      → AtMost n s
      → Returns (AtMost n) (visit_all again now is s)
  unfolding visit_all
  visit_all-Returns n now [] s l m = m
  visit_all-Returns n now (i ∷ is) s l m =
      Returns-bind (AtMost n) (AtMost n) (visit again now (find_task i s.tasks) s)
        (visit_all again now is) (visit-Returns n now i s l m)
        (λ s' m'. visit_all-Returns n now is s' l m')

-- With more fuel than there are blocked tasks, `_evaluate_dependents` returns: its recursion ends and
-- every change of a status is allowed. No more tasks are blocked after it than before.
pub evaluate_dependents-Returns :
    (fuel now up : ℕ) (s : RunDb)
    → blocked_tasks s.tasks < fuel
    → Returns
        (λ (s' : RunDb). blocked_tasks s'.tasks ≤ blocked_tasks s.tasks)
        (evaluate_dependents fuel now up s)
unfolding evaluate_dependents
evaluate_dependents-Returns fuel now up s l = go fuel up (blocked_tasks s.tasks) s l (omega arith)
  where
    go :
        (fuel i n : ℕ) (s : RunDb)
        → n < fuel
        → AtMost n s
        → Returns (AtMost n) (evaluate_dependents fuel now i s)
    go zero i n s l m = absurd (omega (arith, l))
    go (suc fuel) i n s l m =
        visit_all-Returns fuel (evaluate_dependents fuel now) (λ j k s' l' m'. go fuel j k s' l' m')
          n now (downstream_ids i s.dependencies) s (omega (arith, l)) m

-- `_unblock_dependents` always returns, whatever the rows and the graph of dependencies: it raises
-- nothing, not even on a cycle, and no more tasks are blocked after it than before.
pub unblock_dependents-Returns :
    (now up : ℕ) (s : RunDb)
    → Returns
        (λ (s' : RunDb). blocked_tasks s'.tasks ≤ blocked_tasks s.tasks)
        (unblock_dependents now up s)
unfolding unblock_dependents
unblock_dependents-Returns now up s =
    evaluate_dependents-Returns (suc (length s.tasks)) now up s
      (omega (arith, blocked_tasks-length s.tasks))

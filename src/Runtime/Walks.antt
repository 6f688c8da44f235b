-- ===== src/Runtime/Walks.antt =====
-- backend/app/runtime/service.py: the walk of `_reset_skipped_descendants` ends and raises nothing.
use reviewlens_ai.Prelude.{
  ℕ, zero, suc, ◌+◌, ◌≤◌, ◌<◌, true, false, ◌≡◌, refl, Option, none, some, List, [], ◌∷◌, ◌++◌, All,
  arith, Bool-cases, inl, inr, contains, ◌==◌, nat_eq, eqb_iff, ◌∙◌, if◌then◌else◌, length,
  length-append,
}
use reviewlens_ai.Contracts.Status.{TaskStatus, task_status_eq, task_transition_allowed}
use reviewlens_ai.Runtime.Result.{Result, ok, Returns}
use reviewlens_ai.Runtime.State.{TaskRun, TaskDependency, RunDb, find_task, set_task_status}
use reviewlens_ai.Runtime.Dependents.{downstream_ids}
use reviewlens_ai.Runtime.RetryTask.{
  Walk, unskip, walk_ids, walk_round, walk, reset_skipped_descendants,
}
use reviewlens_ai.Runtime.Ends.{Returns-bind}

-- How many of the dependencies lead to a task that was not visited.
unfoldable unvisited : List ℕ → List TaskDependency → ℕ
unvisited vs [] = 0
unvisited vs (d ∷ ds) =
    let rest = unvisited vs ds in if contains vs d.downstream_task_id then rest else suc rest

unvisited-length : (vs : List ℕ) (ds : List TaskDependency) → unvisited vs ds ≤ length ds
unfolding unvisited
unvisited-length vs [] = omega arith
unvisited-length vs (d ∷ ds) = ground (arith, unvisited-length vs ds)

unvisited_mono :
    (i : ℕ) (vs : List ℕ) (ds : List TaskDependency) → unvisited (i ∷ vs) ds ≤ unvisited vs ds
unfolding unvisited
unvisited_mono i vs [] = omega arith
unvisited_mono i vs (d ∷ ds) = ground (arith, unvisited_mono i vs ds)

unvisited_less :
    (i up : ℕ) (vs : List ℕ) (ds : List TaskDependency)
    → contains (downstream_ids up ds) i ≡ true
    → contains vs i ≡ false
    → unvisited (i ∷ vs) ds < unvisited vs ds
unfolding unvisited downstream_ids
unvisited_less i up vs [] m f = absurd cc
unvisited_less i up vs (d ∷ ds) m f =
    ground (
      arith,
      unvisited_less i up vs ds,
      unvisited_mono i vs ds,
      eqb_iff d.downstream_task_id i,
      m,
      f,
    )

unskips :
    (t : TaskRun)
    → (t.status == TaskStatus.skipped) ≡ true
    → set_task_status t TaskStatus.blocked ≡ ok (record t { status = TaskStatus.blocked })
unfolding set_task_status task_transition_allowed
unskips t b = rw ((task_status_eq.equal_iff t.status TaskStatus.skipped).0 b) refl

unskip-Returns :
    (o : Option TaskRun) (s : RunDb)
    → Returns (λ (s' : RunDb). s'.dependencies ≡ s.dependencies) (unskip o s)
unskip-Returns none s = refl
unskip-Returns (some t) s = elim (Bool-cases (t.status == TaskStatus.skipped)) [
  | inl e ↦ rw (Returns, e, unskips t e) refl
  | inr e ↦ rw (Returns, e) refl
]

All-contains :
    (xs ys : List ℕ)
    → ((i : ℕ) → contains xs i ≡ true → contains ys i ≡ true)
    → All (λ i. contains ys i ≡ true) xs
All-contains [] ys h = tt
All-contains (x ∷ xs) ys h =
    (h x (ground (arith, eqb_iff x x)), All-contains xs ys (λ i m. h i (ground (arith, m))))

module _ (ds : List TaskDependency) where
  -- What is pending and what can still become so are at most `n`.
  record Bounded (n : ℕ) (w : Walk) : Type 0 where
    bound : length w.pending + unvisited w.visited ds ≤ n
    same : w.db.dependencies ≡ ds

  walk_ids-Bounded :
      (n up : ℕ) (is : List ℕ) (w : Walk)
      → All (λ i. contains (downstream_ids up ds) i ≡ true) is
      → Bounded n w
      → Returns (Bounded n) (walk_ids is w)
  unfolding walk_ids
  walk_ids-Bounded n up [] w m h = h
  walk_ids-Bounded n up (i ∷ is) w m h = elim (Bool-cases (contains w.visited i)) [
    | inl e ↦ rw (Returns, e) (walk_ids-Bounded n up is w m.1 h)
    | inr e ↦
        rw (Returns, e)
          (Returns-bind (λ (s' : RunDb). s'.dependencies ≡ w.db.dependencies) (Bounded n)
            (unskip (find_task i w.db.tasks) w.db)
            (λ s.
              walk_ids is
                (record { pending = w.pending ++ i ∷ []; visited = i ∷ w.visited; db = s }))
            (unskip-Returns (find_task i w.db.tasks) w.db)
            (λ s q.
              walk_ids-Bounded n up is
                (record { pending = w.pending ++ i ∷ []; visited = i ∷ w.visited; db = s }) m.1
                (record {
                  bound = omega (
                    arith,
                    length-append w.pending (i ∷ []),
                    unvisited_less i up w.visited ds m.0 e,
                    h.bound,
                  );
                  same = q ∙ h.same;
                })))
  ]

  walk_round-Returns :
      (fuel n : ℕ) (again : Walk → Result Walk)
      → ((m : ℕ) (w : Walk)
          → m < fuel
          → Bounded m w
          → Returns (λ (w' : Walk). w'.db.dependencies ≡ ds) (again w))
      → (is : List ℕ) (w : Walk) → n < suc fuel
      → length is + unvisited w.visited ds ≤ n
      → w.db.dependencies ≡ ds
      → Returns (λ (w' : Walk). w'.db.dependencies ≡ ds) (walk_round again is w)
  unfolding walk_round
  walk_round-Returns fuel n again ih [] w l b q = q
  walk_round-Returns fuel n again ih (i ∷ is) w l b q =
      let left : ℕ = length is + unvisited w.visited ds in
      let found : All (λ j. contains (downstream_ids i ds) j ≡ true)
          (downstream_ids i w.db.dependencies) =
        rw q (All-contains (downstream_ids i ds) (downstream_ids i ds) (λ j m. m)) in
      Returns-bind (Bounded left) (λ (w' : Walk). w'.db.dependencies ≡ ds)
        (walk_ids (downstream_ids i w.db.dependencies) (record w { pending = is })) again
        (walk_ids-Bounded left i (downstream_ids i w.db.dependencies) (record w { pending = is })
          found (record { bound = omega arith; same = q }))
        (λ w' h. ih left w' (omega (arith, l, b)) h)

  walk-Returns :
      (fuel n : ℕ) (w : Walk)
      → n < fuel
      → Bounded n w
      → Returns (λ (w' : Walk). w'.db.dependencies ≡ ds) (walk fuel w)
  unfolding walk
  walk-Returns zero n w l h = absurd (omega (arith, l))
  walk-Returns (suc fuel) n w l h =
      walk_round-Returns fuel n (walk fuel) (λ m w' k b. walk-Returns fuel m w' k b) w.pending w l
        h.bound h.same

-- `_reset_skipped_descendants` always returns, whatever the rows and the graph of dependencies, a
-- cyclic one included, and the dependencies stay as they are.
pub reset_skipped_descendants-Returns :
    (up : ℕ) (s : RunDb)
    → Returns (λ (s' : RunDb). s'.dependencies ≡ s.dependencies) (reset_skipped_descendants up s)
unfolding reset_skipped_descendants
reset_skipped_descendants-Returns up s =
    Returns-bind (λ (w : Walk). w.db.dependencies ≡ s.dependencies)
      (λ (s' : RunDb). s'.dependencies ≡ s.dependencies)
      (walk (suc (suc (length s.dependencies)))
        (record { pending = up ∷ []; visited = []; db = s }))
      (λ w. ok w.db)
      (walk-Returns s.dependencies (suc (suc (length s.dependencies))) (suc (length s.dependencies))
        (record { pending = up ∷ []; visited = []; db = s }) (omega arith)
        (record { bound = omega (arith, unvisited-length [] s.dependencies); same = refl }))
      (λ w h. h)

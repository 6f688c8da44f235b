-- ===== src/Runtime/Ends.antt =====
-- Partial and total correctness of operations that may raise, with a rule for each way to build one.
use reviewlens_ai.Prelude.{Bool, true, false, ◌≡◌, refl, subst, if◌then◌else◌}
use reviewlens_ai.Contracts.Status.{
  TaskStatus, RunStatus, task_transition_allowed, run_transition_allowed,
}
use reviewlens_ai.Runtime.Result.{Exception, Result, ok, raise, ◌>>=◌, ◌>>◌, guard, Returns}
use reviewlens_ai.Runtime.State.{TaskRun, RunDb, set_task_status, set_run_status}

-- If the operation returns, what it returns satisfies `P`.
abbrev pub Ends {ℓ} : {A : Type ℓ} → (A → Type 0) → Result A → Type 0
Ends P (ok a) = P a
Ends P (raise e) = Unit

module _ {A B : Type 0} where
  -- The value that a chain returns went through both of its parts.
  pub bind_ok :
      (m : Result A) (f : A → Result B) (b : B)
      → (m >>= f) ≡ ok b
      → (a : A) × ((m ≡ ok a) × (f a ≡ ok b))
  bind_ok (ok a) f b h = (a, (refl, h))
  bind_ok (raise e) f b h = absurd cc

  pub Ends-bind :
      (P : A → Type 0) (Q : B → Type 0) (m : Result A) (f : A → Result B)
      → Ends P m
      → ((a : A) → P a → Ends Q (f a))
      → Ends Q (m >>= f)
  Ends-bind P Q (ok a) f h k = k a h
  Ends-bind P Q (raise e) f h k = tt

  pub Returns-bind :
      (P : A → Type 0) (Q : B → Type 0) (m : Result A) (f : A → Result B)
      → Returns P m
      → ((a : A) → P a → Returns Q (f a))
      → Returns Q (m >>= f)
  Returns-bind P Q (ok a) f h k = k a h
  Returns-bind P Q (raise e) f h k = absurd h

module _ {A : Type 0} where
  pub Ends-any : (m : Result A) → Ends (λ a. Unit) m
  Ends-any (ok a) = tt
  Ends-any (raise e) = tt

  pub Ends-self : (m : Result A) → Ends (λ a. m ≡ ok a) m
  Ends-self (ok a) = refl
  Ends-self (raise e) = tt

  pub ended_with : (P : A → Type 0) (m : Result A) (a : A) → Ends P m → m ≡ ok a → P a
  ended_with P m a h e = subst (Ends P) e h

  -- Both branches satisfy `P`.
  pub either : (P : A → Type 0) (b : Bool) (x y : A) → P x → P y → P (if b then x else y)
  either P true x y px py = px
  either P false x y px py = py

pub guard_ok : (b : Bool) (e : Exception) (u : Unit {0}) → guard b e ≡ ok u → b ≡ true
guard_ok true e u h = refl
guard_ok false e u h = absurd cc

module _ {A : Type 0} (P : A → Type 0) where
  pub Ends-if :
      (b : Bool) (x y : Result A)
      → (b ≡ true → Ends P x)
      → (b ≡ false → Ends P y)
      → Ends P (if b then x else y)
  Ends-if true x y hx hy = hx refl
  Ends-if false x y hx hy = hy refl

  pub Ends-guard :
      (b : Bool) (e : Exception) (m : Result A) → (b ≡ true → Ends P m) → Ends P (guard b e >> m)
  Ends-guard true e m h = h refl
  Ends-guard false e m h = tt

  pub Returns-if :
      (b : Bool) (x y : Result A)
      → (b ≡ true → Returns P x)
      → (b ≡ false → Returns P y)
      → Returns P (if b then x else y)
  Returns-if true x y hx hy = hx refl
  Returns-if false x y hx hy = hy refl

  -- After a status was set, the row has it.
  pub Ends-set_task_status :
      (t : TaskRun) (st : TaskStatus) (f : TaskRun → Result A)
      → Ends P (f (record t { status = st }))
      → Ends P (set_task_status t st >>= f)
  unfolding set_task_status
  Ends-set_task_status t st f h = go (task_transition_allowed t.status st)
    where
      go :
          (b : Bool)
          → Ends P (
              (if b
                then ok (record t { status = st })
                else raise Exception.invalid_state_transition)
              >>= f)
      go true = h
      go false = tt

  pub Ends-set_run_status :
      (st : RunStatus) (s : RunDb) (f : RunDb → Result A)
      → Ends P (f (record s { run = record s.run { status = st } }))
      → Ends P (set_run_status st s >>= f)
  unfolding set_run_status
  Ends-set_run_status st s f h = go (run_transition_allowed s.run.status st)
    where
      go :
          (b : Bool)
          → Ends P (
              (if b
                then ok (record s { run = record s.run { status = st } })
                else raise Exception.invalid_state_transition)
              >>= f)
      go true = h
      go false = tt

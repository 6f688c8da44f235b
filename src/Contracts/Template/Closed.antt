-- ===== src/Contracts/Template/Closed.antt =====
-- backend/app/runtime/contracts.py: the dependencies that `materialize` writes.
use reviewlens_ai.Prelude.{
  ℕ, zero, suc, ◌+◌, ◌≤◌, ◌<◌, String, Bool, true, false, ◌&&◌, ◌≡◌, refl, subst, inl, inr, Option,
  none, some, List, [], ◌∷◌, map, ◌==◌, string_eq, nat_eq, leb, contains, all, filter, Among, arith,
  Bool-cases, Option-cases,
}
use reviewlens_ai.Contracts.Dag.{valid_task, task_key, known_dependencies}
use reviewlens_ai.Runtime.Ends.{bind_ok}
use reviewlens_ai.Runtime.Result.{ok, guard, value_error}
use reviewlens_ai.Contracts.Template.{
  WorkflowDag, validate_graph, template_order, is_included, materialize, WorkflowTaskTemplate,
  is_slots, find_template, slots, key_at, upstream_keys, concrete_dependencies, spec_at, specs_at,
  specs_of, expand,
}
use reviewlens_ai.Contracts.Template.Keys.{
  expand-contains, find_template-Among, keys_at-contains, contains-split, contains_else,
  all-pointwise, all-append,
}

-- A slot of the fan-out, or none.
abbrev IsSlot : ℕ → Option ℕ → Type 0
IsSlot n none = Unit
IsSlot n (some i) = (1 ≤ i) × (i < 1 + n)

module _ (n : ℕ) (included : List WorkflowTaskTemplate) where
  upstream-Written :
      (index : Option ℕ) (u : WorkflowTaskTemplate) (k : String)
      → IsSlot n index
      → Among u included
      → contains (upstream_keys n index (some u)) k ≡ true
      → contains (map task_key (expand n included included)) k ≡ true
  upstream-Written none u k s m h = expand-contains n included included u k m h
  upstream-Written (some i) u k s m h = elim (Bool-cases (is_slots u.fanout)) [
    | inr f ↦ expand-contains n included included u k m (contains_else k _ _ _ f h)
    | inl y ↦
        (let h' : contains (key_at u i ∷ []) k ≡ true = rw y at h in
          let same : (k == key_at u i) ≡ true = ground (arith, h') in
          let e : k ≡ key_at u i = (string_eq.equal_iff k (key_at u i)).0 same in
          expand-contains n included included u k m (rw (y, e) (keys_at-contains u i 1 n s.0 s.1)))
  ]

  dependencies-Written :
      (index : Option ℕ) (ds : List String) (k : String)
      → IsSlot n index
      → contains (concrete_dependencies n included index ds) k ≡ true
      → contains (map task_key (expand n included included)) k ≡ true
  unfolding concrete_dependencies
  dependencies-Written index [] k s h = absurd cc
  dependencies-Written index (d ∷ ds) k s h =
      elim (contains-split k (upstream_keys n index (find_template d included)) _ h) [
        | inr later ↦ dependencies-Written index ds k s later
        | inl now ↦ elim (Option-cases (find_template d included)) [
          | inl f ↦ absurd (let now' = rw f at now in no_keys index k now')
          | inr (u, f) ↦
              upstream-Written index u k s (find_template-Among d u included f) (rw f at now)
        ]
      ]
    where
      no_keys : (index : Option ℕ) (k : String) → contains (upstream_keys n index none) k ≡ true → ⊥
      no_keys none k h = cc
      no_keys (some i) k h = cc

  all-dependencies :
      (index : Option ℕ) (t : WorkflowTaskTemplate)
      → IsSlot n index
      → all
          (λ d. contains (map task_key (expand n included included)) d)
          (spec_at n included t index).dependencies
        ≡ true
  unfolding spec_at
  all-dependencies index t s =
      all-pointwise _ (concrete_dependencies n included index t.dependencies)
        (λ d h. dependencies-Written index t.dependencies d s h)

  specs_at-known :
      (t : WorkflowTaskTemplate) (first count : ℕ)
      → 1 ≤ first
      → first + count ≤ 1 + n
      → all
          (λ x. all (λ d. contains (map task_key (expand n included included)) d) x.dependencies)
          (specs_at n included t (slots first count))
        ≡ true
  specs_at-known t first zero l u = refl
  specs_at-known t first (suc count) l u =
      rw (all-dependencies (some first) t (l, omega (arith, u)))
        (specs_at-known t (suc first) count (omega (arith, l)) (omega (arith, u)))

  specs_of-known :
      (t : WorkflowTaskTemplate)
      → all
          (λ x. all (λ d. contains (map task_key (expand n included included)) d) x.dependencies)
          (specs_of n included t)
        ≡ true
  specs_of-known t = elim (Bool-cases (is_slots t.fanout)) [
    | inl y ↦ rw y (specs_at-known t 1 n (omega arith) (omega arith))
    | inr f ↦ rw f (rw (all-dependencies none t tt) refl)
  ]

  expand-known :
      (ts : List WorkflowTaskTemplate)
      → all
          (λ x. all (λ d. contains (map task_key (expand n included included)) d) x.dependencies)
          (expand n included ts)
        ≡ true
  unfolding expand
  expand-known [] = refl
  expand-known (t ∷ ts) =
      all-append _ (specs_of n included t) (expand n included ts) (specs_of-known t)
        (expand-known ts)

-- Whatever templates are included and however many slots there are, every dependency of a task that
-- `materialize` writes is the key of a task that it writes: the check for unknown dependencies, which
-- the new workflow passes through, finds none.
pub expand-known_dependencies :
    (source_count : ℕ) (included : List WorkflowTaskTemplate)
    → known_dependencies (expand source_count included included) ≡ true
expand-known_dependencies source_count included = expand-known source_count included included

-- What `materialize` makes of a workflow of templates is a workflow of tasks that passes
-- `validate_graph`, and for which one has an order.
pub materialize-validated :
    (source_count : ℕ) (comments : Bool) (g out : WorkflowDag)
    → (g.schema_version == 1) ≡ false
    → materialize source_count comments g ≡ ok out
    → (validate_graph out ≡ ok tt) × (out.schema_version ≡ 1)
unfolding materialize
materialize-validated source_count comments g out two h =
    let h1 = rw two at h in
    let (a1, (e1, r1)) =
      bind_ok (guard (leb 3 source_count && leb source_count 8) value_error) _ out h1 in
    let (ts, (e2, r2)) = bind_ok (template_order g.templates) _ out r1 in
    let (a3, (e3, r3)) =
      bind_ok
        (guard
          (all valid_task (
            expand source_count (filter (is_included comments) ts)
              (filter (is_included comments) ts)))
          value_error)
        _ out r2 in
    let made : WorkflowDag = record g {
      schema_version = 1;
      tasks =
          expand source_count (filter (is_included comments) ts) (filter (is_included comments) ts);
      templates = [];
    } in
    let (a4, (e4, r4)) = bind_ok (validate_graph made) _ out r3 in
    let same : made ≡ out = cc in
    subst (λ x. (validate_graph x ≡ ok tt) × (x.schema_version ≡ 1)) same (e4, refl)

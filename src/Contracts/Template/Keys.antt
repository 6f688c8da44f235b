-- ===== src/Contracts/Template/Keys.antt =====
-- backend/app/runtime/contracts.py: the keys that `materialize` writes.
use reviewlens_ai.Prelude.{
  ℕ, zero, suc, ◌+◌, ◌≤◌, ◌<◌, String, Bool, true, false, ◌⊎◌, ◌≡◌, refl, subst, inl, inr, some,
  List, [], ◌∷◌, ◌++◌, map, ◌==◌, string_eq, eqb, eqb_iff, nat_eq, contains, all, Among, arith,
  Bool-cases, if◌then◌else◌,
}
use reviewlens_ai.Contracts.Dag.{WorkflowTaskSpec, task_key}
use reviewlens_ai.Contracts.Template.{
  WorkflowTaskTemplate, is_slots, find_template, slots, key_at, keys_at, concrete_keys, spec_at,
  specs_at, specs_of, expand,
}

contains-append_left :
    (k : String) (xs ys : List String) → contains xs k ≡ true → contains (xs ++ ys) k ≡ true
contains-append_left k [] ys h = absurd cc
contains-append_left k (x ∷ xs) ys h = ground (arith, contains-append_left k xs ys, h)

contains-append_right :
    (k : String) (xs ys : List String) → contains ys k ≡ true → contains (xs ++ ys) k ≡ true
contains-append_right k [] ys h = h
contains-append_right k (x ∷ xs) ys h = ground (arith, contains-append_right k xs ys h)

map-append :
    (xs ys : List WorkflowTaskSpec) → map task_key (xs ++ ys) ≡ map task_key xs ++ map task_key ys
map-append [] ys = refl
map-append (x ∷ xs) ys = rw (map-append xs ys) refl

specs_at-keys :
    (n : ℕ) (included : List WorkflowTaskTemplate) (t : WorkflowTaskTemplate) (is : List ℕ)
    → map task_key (specs_at n included t is) ≡ keys_at t is
unfolding spec_at
specs_at-keys n included t [] = refl
specs_at-keys n included t (i ∷ is) = rw (specs_at-keys n included t is) refl

specs_of-keys :
    (n : ℕ) (included : List WorkflowTaskTemplate) (t : WorkflowTaskTemplate)
    → map task_key (specs_of n included t) ≡ concrete_keys n t
unfolding spec_at
specs_of-keys n included t = elim (Bool-cases (is_slots t.fanout)) [
  | inl y ↦ rw y (specs_at-keys n included t (slots 1 n))
  | inr m ↦ rw m refl
]

pub expand-contains :
    (n : ℕ) (included ts : List WorkflowTaskTemplate) (t : WorkflowTaskTemplate) (k : String)
    → Among t ts
    → contains (concrete_keys n t) k ≡ true
    → contains (map task_key (expand n included ts)) k ≡ true
unfolding expand
expand-contains n included [] t k m h = absurd m
expand-contains n included (u ∷ ts) t k m h =
    rw (map-append (specs_of n included u) (expand n included ts), specs_of-keys n included u)
      (elim m [
        | inl e ↦
            contains-append_left k (concrete_keys n u) _
              (subst (λ x. contains (concrete_keys n x) k ≡ true) e h)
        | inr m' ↦
            contains-append_right k (concrete_keys n u) _ (expand-contains n included ts t k m' h)
      ])

pub find_template-Among :
    (k : String) (t : WorkflowTaskTemplate) (ts : List WorkflowTaskTemplate)
    → find_template k ts ≡ some t
    → Among t ts
unfolding find_template
find_template-Among k t [] h = absurd cc
find_template-Among k t (u ∷ ts) h = elim (Bool-cases (u.template_key == k)) [
  | inr n ↦ inr (find_template-Among k t ts (rw n at h))
  | inl y ↦ (let h' : some u ≡ some t = rw y at h in let e : t ≡ u = cc in inl e)
]

pub keys_at-contains :
    (t : WorkflowTaskTemplate) (i first count : ℕ)
    → first ≤ i
    → i < first + count
    → contains (keys_at t (slots first count)) (key_at t i) ≡ true
keys_at-contains t i first zero l u = absurd (omega (arith, l, u))
keys_at-contains t i first (suc count) l u = elim (Bool-cases (eqb i first)) [
  | inl y ↦
      rw ((eqb_iff i first).0 y, (string_eq.equal_iff (key_at t first) (key_at t first)).1 refl)
        refl
  | inr n ↦
      (let later =
          keys_at-contains t i (suc first) count (ground (arith, n, l)) (omega (arith, u)) in
        ground (arith, later))
]

pub contains-split :
    (k : String) (xs ys : List String)
    → contains (xs ++ ys) k ≡ true
    → (contains xs k ≡ true) ⊎ (contains ys k ≡ true)
contains-split k [] ys h = inr h
contains-split k (x ∷ xs) ys h = elim (Bool-cases (k == x)) [
  | inl y ↦ inl (ground (arith, y))
  | inr n ↦ elim (contains-split k xs ys (ground (arith, n, h))) [
    | inl m ↦ inl (ground (arith, m))
    | inr m ↦ inr m
  ]
]

pub contains_else :
    (k : String) (b : Bool) (xs ys : List String)
    → b ≡ false
    → contains (if b then xs else ys) k ≡ true
    → contains ys k ≡ true
contains_else k true xs ys f h = absurd cc
contains_else k false xs ys f h = h

pub all-pointwise :
    (p : String → Bool) (ks : List String)
    → ((k : String) → contains ks k ≡ true → p k ≡ true)
    → all p ks ≡ true
all-pointwise p [] h = refl
all-pointwise p (k ∷ ks) h =
    rw (h k (ground (arith, (string_eq.equal_iff k k).1 refl)))
      (all-pointwise p ks (λ j m. h j (ground (arith, m))))

pub all-append :
    (p : WorkflowTaskSpec → Bool) (xs ys : List WorkflowTaskSpec)
    → all p xs ≡ true
    → all p ys ≡ true
    → all p (xs ++ ys) ≡ true
all-append p [] ys hx hy = hy
all-append p (x ∷ xs) ys hx hy = ground (arith, hx, all-append p xs ys, hy)

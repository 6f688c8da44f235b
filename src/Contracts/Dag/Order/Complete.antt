-- ===== src/Contracts/Dag/Order/Complete.antt =====
-- The order that the loop returns has the keys of the items, each once.
use text.Mathlib.TextEquality.{eq_iff}
use reviewlens_ai.Prelude.{
  ℕ, zero, suc, String, Bool, true, false, ◌||◌, ◌≡◌, refl, List, [], ◌∷◌, ◌++◌, string_eq,
  contains, length, arith, ◌∙◌, subst,
}
use reviewlens_ai.Contracts.RetryPolicy.{unique}
use reviewlens_ai.Contracts.Dag.Order.{
  Pending, items, keys, release, release_all, ready, start, order, order_loop, order_round, sorted,
}
use reviewlens_ai.Contracts.Dag.Order.Rounds.{
  sorted_inj, contains-append, keys-append, contains-release, contains-release_all, contains-ready,
}

distinct-append :
    (xs ys : List String)
    → unique xs ≡ true
    → unique ys ≡ true
    → ((j : String) → contains xs j ≡ true → contains ys j ≡ false)
    → unique (xs ++ ys) ≡ true
unfolding unique
distinct-append [] ys h k d = k
distinct-append (x ∷ xs) ys h k d = ground (
  arith,
  distinct-append xs ys (ground arith) k (λ j e. d j (ground arith)),
  contains-append xs ys x,
  d x (ground (arith, eq_iff x x)),
  eq_iff x x,
)

module _ {ℓ} {A : Type ℓ} (key : A → String) where
  abbrev among : List A → String → Bool
  among xs j = contains (keys key xs) j

  distinct-release :
      (k : String) (p : Pending A)
      → unique (keys key (items p)) ≡ true
      → unique (keys key (items (release key k p))) ≡ true
  unfolding unique release
  distinct-release k [] h = refl
  distinct-release k ((x, ds) ∷ p) h =
      ground (arith, distinct-release k p, contains-release key k (key x) p)

  distinct-release_all :
      (xs : List A) (p : Pending A)
      → unique (keys key (items p)) ≡ true
      → unique (keys key (items (release_all key xs p))) ≡ true
  unfolding release_all
  distinct-release_all [] p h = h
  distinct-release_all (x ∷ xs) p h =
      distinct-release_all xs (release key (key x) p) (distinct-release (key x) p h)

  distinct-ready :
      (p : Pending A) → unique (keys key (items p)) ≡ true → unique (keys key (ready p)) ≡ true
  unfolding unique ready
  distinct-ready [] h = refl
  distinct-ready ((x, []) ∷ p) h = ground (arith, distinct-ready p, contains-ready key p (key x))
  distinct-ready ((x, d ∷ ds) ∷ p) h = distinct-ready p (ground arith)

  loop-keys :
      (f : ℕ) (p : Pending A) (done out : List A) (j : String)
      → order_loop key f p done ≡ sorted out
      → among out j ≡ (among done j || among (items p) j)
  unfolding order_loop
  loop-keys zero p done out j h = cc
  loop-keys (suc f) [] done out j h =
      subst (λ o. among o j ≡ (among done j || false)) (sorted_inj h) (ground arith)
  loop-keys (suc f) (e ∷ p) done out j h =
      go (ready (e ∷ p)) (contains-ready key (e ∷ p) j) (loop-keys f) h
    where
      go :
          (r : List A)
          → (among r j ≡ true → among (items (e ∷ p)) j ≡ true)
          → ((q : Pending A) (d o : List A) (i : String)
              → order_loop key f q d ≡ sorted o
              → among o i ≡ (among d i || among (items q) i))
          → order_round key (order_loop key f) r (e ∷ p) done ≡ sorted out
          → among out j ≡ (among done j || among (items (e ∷ p)) j)
      go [] sub ih k = cc
      go (x ∷ xs) sub ih k =
          ih (release_all key (x ∷ xs) (e ∷ p)) (done ++ x ∷ xs) out j k
          ∙ rw (keys-append key done (x ∷ xs), contains-release_all key (x ∷ xs) j (e ∷ p))
              (ground (arith, contains-append (keys key done) (keys key (x ∷ xs)) j))

  loop-unique :
      (f : ℕ) (p : Pending A) (done out : List A)
      → unique (keys key (items p)) ≡ true
      → unique (keys key done) ≡ true
      → ((j : String) → among done j ≡ true → among (items p) j ≡ false)
      → order_loop key f p done ≡ sorted out
      → unique (keys key out) ≡ true
  unfolding order_loop
  loop-unique zero p done out u v d h = cc
  loop-unique (suc f) [] done out u v d h = subst (λ o. unique (keys key o) ≡ true) (sorted_inj h) v
  loop-unique (suc f) (e ∷ p) done out u v d h =
      go (ready (e ∷ p)) (contains-ready key (e ∷ p)) (distinct-ready (e ∷ p) u) (loop-unique f) h
    where
      go :
          (r : List A)
          → ((j : String) → among r j ≡ true → among (items (e ∷ p)) j ≡ true)
          → unique (keys key r) ≡ true
          → ((q : Pending A) (c o : List A)
              → unique (keys key (items q)) ≡ true
              → unique (keys key c) ≡ true
              → ((j : String) → among c j ≡ true → among (items q) j ≡ false)
              → order_loop key f q c ≡ sorted o
              → unique (keys key o) ≡ true)
          → order_round key (order_loop key f) r (e ∷ p) done ≡ sorted out
          → unique (keys key out) ≡ true
      go [] sub w ih k = cc
      go (x ∷ xs) sub w ih k =
          ih (release_all key (x ∷ xs) (e ∷ p)) (done ++ x ∷ xs) out
            (distinct-release_all (x ∷ xs) (e ∷ p) u)
            (rw (keys-append key done (x ∷ xs)) (
              distinct-append (keys key done) (keys key (x ∷ xs)) v w
                (λ j m. ground (arith, sub j, d j))))
            (λ j m. ground (
              arith,
              d j,
              contains-release_all key (x ∷ xs) j (e ∷ p),
              contains-append (keys key done) (keys key (x ∷ xs)) j,
              subst (λ l. contains l j ≡ true) (keys-append key done (x ∷ xs)) m,
            ))
            k

  items-start : (deps : A → List String) (xs : List A) → items (start deps xs) ≡ xs
  unfolding start
  items-start deps [] = refl
  items-start deps (x ∷ xs) = rw (items-start deps xs)

  -- The result has exactly the keys of the items, and where no two items share a key, no two of
  -- the result do.
  pub order-keys :
      (deps : A → List String) (xs out : List A)
      → order key deps xs ≡ sorted out
      → ((j : String) → contains (keys key out) j ≡ contains (keys key xs) j)
        × (unique (keys key xs) ≡ true → unique (keys key out) ≡ true)
  unfolding order unique
  order-keys deps xs out h = (
    λ j. loop-keys (suc (length xs)) (start deps xs) [] out j h ∙ rw (items-start deps xs),
    λ u.
        loop-unique (suc (length xs)) (start deps xs) [] out (rw (items-start deps xs) u) refl
          (λ j m. cc) h,
  )

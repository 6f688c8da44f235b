-- ===== src/Contracts/Dag/Order/Progress.antt =====
-- The loop ends, and where it reports a cycle there is one.
use text.Mathlib.TextEquality.{eq_iff}
use reviewlens_ai.Prelude.{
  ℕ, zero, suc, ◌<◌, String, Bool, true, not, ◌&&◌, ◌≡◌, ◌≢◌, refl, List, [], ◌∷◌, ◌++◌, ◌==◌,
  string_eq, contains, length, arith, Bool-cases, inl, inr, ap, ◌∙◌, Among,
}
use reviewlens_ai.Contracts.Dag.Order.{
  Pending, items, keys, release, release_all, ready, start, order, order_loop, order_round, cycle,
  out_of_fuel,
}
use reviewlens_ai.Contracts.Dag.Order.Rounds.{
  contains-discard, contains-release, contains-ready, length-release_lt, length-release_all,
  release_all-Among,
}

module _ {A : Type 0} (key : A → String) where
  release_all_lt :
      (x : A) (xs : List A) (p : Pending A)
      → contains (keys key (items p)) (key x) ≡ true
      → length (release_all key (x ∷ xs) p) < length p
  unfolding release_all
  release_all_lt x xs p h =
      omega (
        arith,
        length-release_all key xs (release key (key x) p),
        length-release_lt key (key x) p h,
      )

  -- Each round releases an item, so that one round for each pending item and one more suffice.
  pub loop_ends :
      (f : ℕ) (p : Pending A) (done : List A) → length p < f → order_loop key f p done ≢ out_of_fuel
  unfolding order_loop
  loop_ends zero p done l h = elim l [ ]
  loop_ends (suc f) [] done l h = cc
  loop_ends (suc f) (e ∷ p) done l h =
      go (ready (e ∷ p)) (contains-ready key (e ∷ p)) (loop_ends f) h
    where
      go :
          (r : List A)
          → ((j : String)
              → contains (keys key r) j ≡ true
              → contains (keys key (items (e ∷ p))) j ≡ true)
          → ((q : Pending A) (d : List A) → length q < f → order_loop key f q d ≢ out_of_fuel)
          → order_round key (order_loop key f) r (e ∷ p) done ≢ out_of_fuel
      go [] sub ih k = cc
      go (x ∷ xs) sub ih k =
          ih (release_all key (x ∷ xs) (e ∷ p)) (done ++ x ∷ xs)
            (omega (
              arith,
              release_all_lt x xs (e ∷ p) (sub (key x) (ground (arith, eq_iff (key x) (key x)))),
            ))
            k

  module _ (deps : A → List String) where
    -- Every open dependency of a pending item is one of its dependencies, and a key among `c`.
    abbrev Open : (String → Bool) → Pending A → Type 0
    Open c [] = Unit
    Open c ((x, ds) ∷ p) =
        ((d : String) → contains ds d ≡ true → (contains (deps x) d ≡ true) × (c d ≡ true))
        × Open c p

    Open-mono :
        (c c' : String → Bool)
        → ((j : String) → c j ≡ true → c' j ≡ true)
        → (p : Pending A) → Open c p
        → Open c' p
    Open-mono c c' m [] h = tt
    Open-mono c c' m ((x, ds) ∷ p) h =
        (λ d i. ((h.0 d i).0, m d (h.0 d i).1), Open-mono c c' m p h.1)

    release-Open :
        (c : String → Bool) (k : String) (p : Pending A)
        → Open c p
        → Open (λ j. not (j == k) && c j) (release key k p)
    unfolding release
    release-Open c k [] h = tt
    release-Open c k ((x, ds) ∷ p) h = elim (Bool-cases (key x == k)) [
      | inl e ↦ rw e (release-Open c k p h.1)
      | inr e ↦ rw e (
        λ d i. (
          ground (arith, h.0 d, contains-discard k d ds),
          ground (arith, h.0 d, contains-discard k d ds),
        ),
        release-Open c k p h.1,
      )
    ]

    abbrev pending : Pending A → String → Bool
    pending p j = contains (keys key (items p)) j

    release_all-Open :
        (xs : List A) (p : Pending A)
        → Open (pending p) p
        → Open (pending (release_all key xs p)) (release_all key xs p)
    unfolding release_all
    release_all-Open [] p h = h
    release_all-Open (x ∷ xs) p h = release_all-Open xs (release key (key x) p) (
        Open-mono (λ j. not (j == key x) && pending p j) (pending (release key (key x) p))
          (λ j e. contains-release key (key x) j p ∙ e) (release key (key x) p)
          (release-Open (pending p) (key x) p h))

    -- Every one of the items has a dependency among the keys `c`.
    abbrev pub Blocked : (String → Bool) → List A → Type 0
    Blocked c [] = Unit
    Blocked c (x ∷ xs) = ((d : String) × (contains (deps x) d ≡ true) × (c d ≡ true)) × Blocked c xs

    none_ready : (c : String → Bool) (p : Pending A) → Open c p → ready p ≡ [] → Blocked c (items p)
    unfolding ready
    none_ready c [] o h = tt
    none_ready c ((x, []) ∷ p) o h = absurd (cc)
    none_ready c ((x, d ∷ ds) ∷ p) o h = (
      (d, (o.0 d (ground (arith, eq_iff d d))).0, (o.0 d (ground (arith, eq_iff d d))).1),
      none_ready c p o.1 h,
    )

    -- A set of items that wait for one another.
    pub record Deadlock (xs : List A) : Type 0 where
      pub stuck : List A
      pub some_stuck : stuck ≢ []
      pub waiting : Blocked (λ j. contains (keys key stuck) j) stuck
      pub from_items : (x : A) → Among x stuck → Among x xs

    loop-Deadlock :
        (xs : List A) (f : ℕ) (p : Pending A) (done : List A)
        → Open (pending p) p
        → ((x : A) → Among x (items p) → Among x xs)
        → order_loop key f p done ≡ cycle
        → Deadlock xs
    unfolding order_loop
    loop-Deadlock xs zero p done o s h = absurd (cc)
    loop-Deadlock xs (suc f) [] done o s h = absurd (cc)
    loop-Deadlock xs (suc f) (e ∷ p) done o s h = go (ready (e ∷ p)) refl (loop-Deadlock xs f) h
      where
        go :
            (r : List A)
            → ready (e ∷ p) ≡ r
            → ((q : Pending A) (d : List A)
                → Open (pending q) q
                → ((x : A) → Among x (items q) → Among x xs)
                → order_loop key f q d ≡ cycle
                → Deadlock xs)
            → order_round key (order_loop key f) r (e ∷ p) done ≡ cycle
            → Deadlock xs
        go [] eq ih k = record {
          stuck = items (e ∷ p);
          some_stuck = λ c. cc;
          waiting = none_ready (pending (e ∷ p)) (e ∷ p) o eq;
          from_items = s;
        }
        go (y ∷ ys) eq ih k =
            ih (release_all key (y ∷ ys) (e ∷ p)) (done ++ y ∷ ys)
              (release_all-Open (y ∷ ys) (e ∷ p) o)
              (λ x m. s x (release_all-Among key x (y ∷ ys) (e ∷ p) m)) k

    -- Every dependency is a key of the items.
    abbrev pub Known : (String → Bool) → List A → Type 0
    Known c [] = Unit
    Known c (x ∷ xs) = ((d : String) → contains (deps x) d ≡ true → c d ≡ true) × Known c xs

    start-Open : (c : String → Bool) (xs : List A) → Known c xs → Open c (start deps xs)
    unfolding start
    start-Open c [] k = tt
    start-Open c (x ∷ xs) k = (λ d i. (i, k.0 d i), start-Open c xs k.1)

    start-pending :
        (xs : List A) (j : String) → pending (start deps xs) j ≡ contains (keys key xs) j
    unfolding start
    start-pending [] j = refl
    start-pending (x ∷ xs) j = ground (arith, start-pending xs j)

    start-Among : (xs : List A) (x : A) → Among x (items (start deps xs)) → Among x xs
    unfolding start
    start-Among [] x h = h
    start-Among (y ∷ xs) x (inl e) = inl e
    start-Among (y ∷ xs) x (inr h) = inr (start-Among xs x h)

    length-start : (xs : List A) → length (start deps xs) ≡ length xs
    unfolding start
    length-start [] = refl
    length-start (x ∷ xs) = ap suc (length-start xs)

    -- The rounds always suffice.
    pub order_ends : (xs : List A) → order key deps xs ≢ out_of_fuel
    unfolding order
    order_ends xs = loop_ends (suc (length xs)) (start deps xs) [] (omega (arith, length-start xs))

    -- A reported cycle is one: some items of the list wait for one another.
    pub order-Deadlock :
        (xs : List A)
        → Known (λ j. contains (keys key xs) j) xs
        → order key deps xs ≡ cycle
        → Deadlock xs
    unfolding order
    order-Deadlock xs k h =
        loop-Deadlock xs (suc (length xs)) (start deps xs) []
          (Open-mono (λ j. contains (keys key xs) j) (pending (start deps xs))
            (λ j e. start-pending xs j ∙ e) (start deps xs)
            (start-Open (λ j. contains (keys key xs) j) xs k))
          (start-Among xs) h

-- ===== src/Contracts/Dag/Order/Sound.antt =====
-- The order that the loop returns: every item once, behind all its dependencies.
use reviewlens_ai.Prelude.{
  ℕ, zero, suc, String, Bool, true, false, ◌||◌, ◌≡◌, List, [], ◌∷◌, ◌++◌, ◌==◌, string_eq,
  contains, length, arith, Bool-cases, inl, inr, subst,
}
use reviewlens_ai.Contracts.Dag.Order.{
  Pending, keys, release, release_all, ready, start, order, order_loop, order_round, sorted,
}
use reviewlens_ai.Contracts.Dag.Order.Rounds.{
  sorted_inj, contains-append, contains-discard, keys-append,
}

module _ {ℓ} {A : Type ℓ} (key : A → String) (deps : A → List String) where
  -- Every dependency of `x` is among the keys `c`.
  abbrev pub Ready : (String → Bool) → A → Type 0
  Ready c x = (d : String) → contains (deps x) d ≡ true → c d ≡ true

  -- Each item stands behind its dependencies; `c` are the keys that stand before the list.
  abbrev pub Respects : (String → Bool) → List A → Type 0
  Respects c [] = Unit
  Respects c (x ∷ xs) = Ready c x × Respects (λ j. c j || j == key x) xs

  -- What is not open any more is among the keys `c`.
  abbrev Covered : (String → Bool) → Pending A → Type 0
  Covered c [] = Unit
  Covered c ((x, ds) ∷ p) = Ready (λ j. contains ds j || c j) x × Covered c p

  Covered-mono :
      (c c' : String → Bool)
      → ((j : String) → c j ≡ true → c' j ≡ true)
      → (p : Pending A) → Covered c p
      → Covered c' p
  Covered-mono c c' m [] h = tt
  Covered-mono c c' m ((x, ds) ∷ p) h =
      (λ d i. ground (arith, h.0 d i, m d), Covered-mono c c' m p h.1)

  release-Covered :
      (c : String → Bool) (k : String) (p : Pending A)
      → Covered c p
      → Covered (λ j. c j || j == k) (release key k p)
  unfolding release
  release-Covered c k [] h = tt
  release-Covered c k ((x, ds) ∷ p) h = elim (Bool-cases (key x == k)) [
    | inl e ↦ rw e (release-Covered c k p h.1)
    | inr e ↦
        rw e (λ d i. ground (arith, h.0 d i, contains-discard k d ds), release-Covered c k p h.1)
  ]

  release_all-Covered :
      (c : String → Bool) (xs : List A) (p : Pending A)
      → Covered c p
      → Covered (λ j. c j || contains (keys key xs) j) (release_all key xs p)
  unfolding release_all
  release_all-Covered c [] p h = Covered-mono c _ (λ j e. ground arith) p h
  release_all-Covered c (x ∷ xs) p h =
      Covered-mono (λ j. (c j || j == key x) || contains (keys key xs) j) _ (λ j e. ground arith) _
        (release_all-Covered (λ j. c j || j == key x) xs (release key (key x) p)
          (release-Covered c (key x) p h))

  Respects-mono :
      (c c' : String → Bool)
      → ((j : String) → c j ≡ true → c' j ≡ true)
      → (xs : List A) → Respects c xs
      → Respects c' xs
  Respects-mono c c' m [] h = tt
  Respects-mono c c' m (x ∷ xs) h = (
    λ d i. m d (h.0 d i),
    Respects-mono (λ j. c j || j == key x) (λ j. c' j || j == key x) (λ j e. ground (arith, m j)) xs
        h.1,
  )

  -- Items with nothing open may all be placed, in any order.
  ready-Respects : (c : String → Bool) (p : Pending A) → Covered c p → Respects c (ready p)
  unfolding ready
  ready-Respects c [] h = tt
  ready-Respects c ((x, []) ∷ p) h =
      (λ d i. h.0 d i, Respects-mono c _ (λ j e. ground arith) (ready p) (ready-Respects c p h.1))
  ready-Respects c ((x, d ∷ ds) ∷ p) h = ready-Respects c p h.1

  Respects-append :
      (c : String → Bool) (xs ys : List A)
      → Respects c xs
      → Respects (λ j. c j || contains (keys key xs) j) ys
      → Respects c (xs ++ ys)
  Respects-append c [] ys h k = Respects-mono _ c (λ j e. ground arith) ys k
  Respects-append c (x ∷ xs) ys h k = (
    h.0,
    Respects-append (λ j. c j || j == key x) xs ys h.1
        (Respects-mono _ _ (λ j e. ground arith) ys k),
  )

  start-Covered : (c : String → Bool) (xs : List A) → Covered c (start deps xs)
  unfolding start
  start-Covered c [] = tt
  start-Covered c (x ∷ xs) = (λ d i. ground arith, start-Covered c xs)

  -- The keys that stand before the first round, and those of the items done.
  abbrev pub none_yet : String → Bool
  none_yet j = false

  abbrev among : List A → String → Bool
  among xs j = contains (keys key xs) j

  -- What holds between two rounds.
  record Between (p : Pending A) (done : List A) : Type ℓ where
    covered : Covered (among done) p
    respects : Respects none_yet done

  round-Between :
      (r : List A) (p : Pending A) (done : List A)
      → Between p done
      → Respects (among done) r
      → Between (release_all key r p) (done ++ r)
  round-Between r p done b h = record {
    covered =
        Covered-mono (λ j. among done j || among r j) (among (done ++ r))
          (λ j e.
            rw (keys-append key done r)
              (ground (arith, contains-append (keys key done) (keys key r) j)))
          (release_all key r p) (release_all-Covered (among done) r p b.covered);
    respects =
        Respects-append none_yet done r b.respects
          (Respects-mono (among done) _ (λ j e. ground arith) r h);
  }

  loop-Respects :
      (f : ℕ) (p : Pending A) (done out : List A)
      → Between p done
      → order_loop key f p done ≡ sorted out
      → Respects none_yet out
  unfolding order_loop
  loop-Respects zero p done out b h = cc
  loop-Respects (suc f) [] done out b h = subst (Respects none_yet) (sorted_inj h) b.respects
  loop-Respects (suc f) (e ∷ p) done out b h =
      go (ready (e ∷ p)) (ready-Respects (among done) (e ∷ p) b.covered) (loop-Respects f) h
    where
      go :
          (r : List A)
          → Respects (among done) r
          → ((q : Pending A) (d o : List A)
              → Between q d
              → order_loop key f q d ≡ sorted o
              → Respects none_yet o)
          → order_round key (order_loop key f) r (e ∷ p) done ≡ sorted out
          → Respects none_yet out
      go [] rr ih k = cc
      go (x ∷ xs) rr ih k =
          ih (release_all key (x ∷ xs) (e ∷ p)) (done ++ x ∷ xs) out
            (round-Between (x ∷ xs) (e ∷ p) done b rr) k

  -- Whatever list of items the order is asked for: in the result each item stands behind all its
  -- dependencies.
  pub order-Respects : (xs out : List A) → order key deps xs ≡ sorted out → Respects none_yet out
  unfolding order
  order-Respects xs out h =
      loop-Respects (suc (length xs)) (start deps xs) [] out
        (record { covered = start-Covered (among []) xs; respects = tt }) h

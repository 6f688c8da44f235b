-- ===== src/Contracts/Dag/Order/Members.antt =====
-- The items of the order that the loop returns, and why a reported cycle leaves no order.
use text.Mathlib.TextEquality.{eq_iff}
use reviewlens_ai.Prelude.{
  ℕ, zero, suc, String, Bool, true, false, ◌||◌, ◌≡◌, refl, sym, ap, ◌∙◌, subst, ◌⊎◌, inl, inr,
  List, [], ◌∷◌, ◌++◌, ◌==◌, string_eq, contains, length, arith, Bool-cases, Among,
}
use reviewlens_ai.Contracts.RetryPolicy.{unique}
use reviewlens_ai.Contracts.Dag.Order.{
  Pending, items, keys, release_all, ready, start, order, order_loop, order_round, sorted,
}
use reviewlens_ai.Contracts.Dag.Order.Rounds.{sorted_inj, release_all-Among}
use reviewlens_ai.Contracts.Dag.Order.Sound.{Respects, none_yet}
use reviewlens_ai.Contracts.Dag.Order.Progress.{Blocked, Deadlock}

module _ {A : Type 0} (key : A → String) where
  abbrev in_keys : List A → String → Bool
  in_keys xs j = contains (keys key xs) j

  Among-append : (x : A) (xs ys : List A) → Among x (xs ++ ys) → Among x xs ⊎ Among x ys
  Among-append x [] ys h = inr h
  Among-append x (y ∷ xs) ys (inl e) = inl (inl e)
  Among-append x (y ∷ xs) ys (inr h) = elim (Among-append x xs ys h) [
    | inl i ↦ inl (inr i)
    | inr i ↦ inr i
  ]

  ready-Among : (x : A) (p : Pending A) → Among x (ready p) → Among x (items p)
  unfolding ready
  ready-Among x [] h = h
  ready-Among x ((y, []) ∷ p) (inl e) = inl e
  ready-Among x ((y, []) ∷ p) (inr h) = inr (ready-Among x p h)
  ready-Among x ((y, d ∷ ds) ∷ p) h = inr (ready-Among x p h)

  loop-Among :
      (x : A) (f : ℕ) (p : Pending A) (done out : List A)
      → order_loop key f p done ≡ sorted out
      → Among x out
      → Among x done ⊎ Among x (items p)
  unfolding order_loop
  loop-Among x zero p done out h m = absurd cc
  loop-Among x (suc f) [] done out h m = inl (subst (Among x) (sym (sorted_inj h)) m)
  loop-Among x (suc f) (e ∷ p) done out h m =
      go (ready (e ∷ p)) (ready-Among x (e ∷ p)) (loop-Among x f) h
    where
      go :
          (r : List A)
          → (Among x r → Among x (items (e ∷ p)))
          → ((q : Pending A) (d o : List A)
              → order_loop key f q d ≡ sorted o
              → Among x o
              → Among x d ⊎ Among x (items q))
          → order_round key (order_loop key f) r (e ∷ p) done ≡ sorted out
          → Among x done ⊎ Among x (items (e ∷ p))
      go [] sub ih k = absurd cc
      go (y ∷ ys) sub ih k = elim (ih (release_all key (y ∷ ys) (e ∷ p)) (done ++ y ∷ ys) out k m) [
        | inr i ↦ inr (release_all-Among key x (y ∷ ys) (e ∷ p) i)
        | inl i ↦ elim (Among-append x done (y ∷ ys) i) [ inl j ↦ inl j | inr j ↦ inr (sub j) ]
      ]

  start-Among :
      (deps : A → List String) (x : A) (xs : List A) → Among x (items (start deps xs)) → Among x xs
  unfolding start
  start-Among deps x [] h = h
  start-Among deps x (y ∷ xs) (inl e) = inl e
  start-Among deps x (y ∷ xs) (inr h) = inr (start-Among deps x xs h)

  -- Every item of the result is one of the items.
  pub order-Among :
      (deps : A → List String) (x : A) (xs out : List A)
      → order key deps xs ≡ sorted out
      → Among x out
      → Among x xs
  unfolding order
  order-Among deps x xs out h m = elim (loop-Among x (suc (length xs)) (start deps xs) [] out h m) [
    | inl i ↦ elim i [ ]
    | inr i ↦ start-Among deps x xs i
  ]

  pub key-Among : (x : A) (xs : List A) → Among x xs → in_keys xs (key x) ≡ true
  key-Among x [] h = elim h [ ]
  key-Among x (y ∷ xs) (inl e) = rw (sym (ap key e)) (ground (arith, eq_iff (key x) (key x)))
  key-Among x (y ∷ xs) (inr h) = ground (arith, key-Among x xs h)

  Among-key :
      (k : String) (xs : List A) → in_keys xs k ≡ true → (x : A) × (Among x xs × (key x ≡ k))
  Among-key k [] h = absurd cc
  Among-key k (x ∷ xs) h = elim (Bool-cases (key x == k)) [
    | inl e ↦ (x, (inl refl, ground (arith, eq_iff (key x) k)))
    | inr e ↦
        let (y, (i, q)) = Among-key k xs (ground (arith, eq_iff (key x) k, eq_iff k (key x))) in
        (y, (inr i, q))
  ]

  -- With distinct keys, an item is found by its key.
  same_key_lem :
      (x y : A) (xs : List A)
      → unique (keys key xs) ≡ true
      → Among x xs
      → Among y xs
      → key x ≡ key y
      → x ≡ y
  unfolding unique
  same_key_lem x y [] u h _ k = elim h [ ]
  same_key_lem x y (z ∷ xs) u (inl e) (inl f) k = e ∙ sym f
  same_key_lem x y (z ∷ xs) u (inl e) (inr f) k = absurd (
      let m = key-Among y xs f in
      let q : key y ≡ key z = sym k ∙ ap key e in
      let n : in_keys xs (key z) ≡ true = subst (λ j. in_keys xs j ≡ true) q m in ground arith)
  same_key_lem x y (z ∷ xs) u (inr e) (inl f) k = absurd (
      let m = key-Among x xs e in
      let q : key x ≡ key z = k ∙ ap key f in
      let n : in_keys xs (key z) ≡ true = subst (λ j. in_keys xs j ≡ true) q m in ground arith)
  same_key_lem x y (z ∷ xs) u (inr e) (inr f) k = same_key_lem x y xs (ground arith) e f k

  -- Lists with the same keys, one of them within the other: each holds the items of the other.
  pub Among-back :
      (xs out : List A)
      → unique (keys key xs) ≡ true
      → ((y : A) → Among y out → Among y xs)
      → ((j : String) → in_keys out j ≡ in_keys xs j)
      → (x : A) → Among x xs
      → Among x out
  Among-back xs out u sub same x h =
      let (y, (i, q)) = Among-key (key x) out (same (key x) ∙ key-Among x xs h) in
      subst (λ z. Among z out) (same_key_lem y x xs u (sub y i) h q) i

  module _ (deps : A → List String) where
    Blocked-Among :
        (c : String → Bool) (x : A) (xs : List A)
        → Blocked key deps c xs
        → Among x xs
        → (d : String) × (contains (deps x) d ≡ true) × (c d ≡ true)
    Blocked-Among c x [] b h = elim h [ ]
    Blocked-Among c x (y ∷ xs) b (inl e) =
        subst (λ z. (d : String) × (contains (deps z) d ≡ true) × (c d ≡ true)) (sym e) b.0
    Blocked-Among c x (y ∷ xs) b (inr h) = Blocked-Among c x xs b.1 h

    -- Behind keys that are not stuck no stuck item may stand.
    -- Behind keys that are not stuck no stuck item may stand.
    none_stuck :
        (xs : List A)
        → unique (keys key xs) ≡ true
        → (d : Deadlock key deps xs) (c : String → Bool) (ys : List A)
        → ((j : String) → c j ≡ true → in_keys d.stuck j ≡ false)
        → ((y : A) → Among y ys → Among y xs)
        → Respects key deps c ys
        → (y : A) → Among y ys
        → in_keys d.stuck (key y) ≡ false
    none_stuck xs u d c [] free sub r y h = elim h [ ]
    none_stuck xs u d c (z ∷ ys) free sub r y h =
        let first : in_keys d.stuck (key z) ≡ false = elim (Bool-cases (in_keys d.stuck (key z))) [
          | inr n ↦ n
          | inl s ↦ absurd (waits s)
        ] in
        elim h [
          | inl e ↦ subst (λ i. in_keys d.stuck (key i) ≡ false) (sym e) first
          | inr i ↦
              none_stuck xs u d (λ j. c j || j == key z) ys
                (λ j m. ground (arith, free j, eq_iff j (key z), first)) (λ x k. sub x (inr k)) r.1
                y i
        ]
      where
        waits : in_keys d.stuck (key z) ≡ true → ⊥
        waits s =
            let (x, (i, k)) = Among-key (key z) d.stuck s in
            let same : x ≡ z = same_key_lem x z xs u (d.from_items x i) (sub z (inl refl)) k in
            let (j, m, n) =
              subst (λ v. (j : String) × (contains (deps v) j ≡ true) × (in_keys d.stuck j ≡ true))
                same (Blocked-Among (in_keys d.stuck) x d.stuck d.waiting i) in
            let f = free j (r.0 j m) in absurd cc

    -- Where items wait for one another, no list of the items has each behind its dependencies.
    pub no_order :
        (xs out : List A)
        → unique (keys key xs) ≡ true
        → Deadlock key deps xs
        → ((y : A) → Among y out → Among y xs)
        → ((y : A) → Among y xs → Among y out)
        → Respects key deps (none_yet key deps) out
        → ⊥
    no_order xs out u d sub back r = go d.stuck refl
      where
        go : (ss : List A) → d.stuck ≡ ss → ⊥
        go [] e = d.some_stuck e
        go (s ∷ ss) e =
            let i : Among s d.stuck = subst (Among s) (sym e) (inl refl) in
            let n =
              none_stuck xs u d (none_yet key deps) out (λ j m. absurd cc) sub r s
                (back s (d.from_items s i)) in
            let m = key-Among s d.stuck i in absurd cc

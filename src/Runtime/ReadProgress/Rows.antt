-- ===== src/Runtime/ReadProgress/Rows.antt =====
-- backend/app/runtime/outbox.py: the rows that `_postgres_progress` selects, in the order of their
-- numbers.
use reviewlens_ai.Prelude.{
  ℕ, zero, suc, ◌+◌, ◌-◌, ◌≤◌, Bool, ◌≡◌, refl, ap, inl, inr, List, [], ◌∷◌, ltb, length, filter,
  All, Among, arith, Bool-cases,
}
use reviewlens_ai.Runtime.State.{ProgressEvent}
use reviewlens_ai.Runtime.Consistent.{Numbered}
use reviewlens_ai.Runtime.ReadProgress.{by_sequence, sort_events, is_after, sequence_of}

-- The events' numbers are the ones after `a`.
abbrev pub Consecutive : ℕ → List ProgressEvent → Type 0
Consecutive a [] = Unit
Consecutive a (e ∷ es) = (e.sequence ≡ suc a) × Consecutive (suc a) es

by_sequence-last :
    (a : ℕ) (e : ProgressEvent) (es : List ProgressEvent)
    → Consecutive a es
    → e.sequence ≡ suc (a + length es)
    → Consecutive a (by_sequence e es) × (length (by_sequence e es) ≡ suc (length es))
unfolding by_sequence
by_sequence-last a e [] c h = ((omega arith, tt), refl)
by_sequence-last a e (f ∷ fs) (q, c) h =
    let rest = by_sequence-last (suc a) e fs c (omega arith) in
    elim (Bool-cases (ltb e.sequence f.sequence)) [
      | inl l ↦ absurd (ground (arith, l))
      | inr g ↦ rw g ((q, rest.0), omega (arith, rest.1))
    ]

pub filter-none :
    (a n : ℕ) (es : List ProgressEvent) → Numbered n es → n ≤ a → filter (is_after a) es ≡ []
filter-none a zero [] h l = refl
filter-none a (suc n) (e ∷ es) h l = ground (arith, filter-none a n es h.1)
filter-none a zero (e ∷ es) h l = absurd h
filter-none a (suc n) [] h l = absurd h

pub sorted_suffix :
    (a n : ℕ) (es : List ProgressEvent)
    → Numbered n es
    → Consecutive a (sort_events (filter (is_after a) es))
      × (length (sort_events (filter (is_after a) es)) ≡ n - a)
unfolding sort_events
sorted_suffix a zero [] h = (tt, omega arith)
sorted_suffix a zero (e ∷ es) h = absurd h
sorted_suffix a (suc n) [] h = absurd h
sorted_suffix a (suc n) (e ∷ es) (q, h) =
    let rest = sorted_suffix a n es h in
    elim (Bool-cases (ltb a e.sequence)) [
      | inl l ↦ rw l (
          let grown =
            by_sequence-last a e (sort_events (filter (is_after a) es)) rest.0
              (ground (arith, l, rest.1)) in
          (grown.0, ground (arith, l, rest.1, grown.1)))
      | inr g ↦ rw g (rest.0, ground (arith, g, rest.1))
    ]

module _ (P : ProgressEvent → Type 0) where
  All-by_sequence :
      (e : ProgressEvent) (es : List ProgressEvent) → P e → All P es → All P (by_sequence e es)
  unfolding by_sequence
  All-by_sequence e [] p h = (p, tt)
  All-by_sequence e (f ∷ fs) p h = elim (Bool-cases (ltb e.sequence f.sequence)) [
    | inl l ↦ rw l (p, h)
    | inr g ↦ rw g (h.0, All-by_sequence e fs p h.1)
  ]

  pub All-sort : (es : List ProgressEvent) → All P es → All P (sort_events es)
  unfolding sort_events
  All-sort [] h = tt
  All-sort (e ∷ es) h = All-by_sequence e (sort_events es) h.0 (All-sort es h.1)

  pub All-filter :
      (p : ProgressEvent → Bool) (es : List ProgressEvent) → All P es → All P (filter p es)
  All-filter p [] h = tt
  All-filter p (e ∷ es) h = elim (Bool-cases (p e)) [
    | inl y ↦ rw y (h.0, All-filter p es h.1)
    | inr n ↦ rw n (All-filter p es h.1)
  ]

pub All-map :
    (P Q : ProgressEvent → Type 0)
    → ((e : ProgressEvent) → P e → Q e)
    → (es : List ProgressEvent) → All P es
    → All Q es
All-map P Q f [] h = tt
All-map P Q f (e ∷ es) h = (f e h.0, All-map P Q f es h.1)

pub All-self :
    (xs ys : List ProgressEvent)
    → ((x : ProgressEvent) → Among x xs → Among x ys)
    → All (λ x. Among x ys) xs
All-self [] ys h = tt
All-self (x ∷ xs) ys h = (h x (inl refl), All-self xs ys (λ y m. h y (inr m)))

Among-bound :
    (n : ℕ) (x : ProgressEvent) (es : List ProgressEvent)
    → Numbered n es
    → Among x es
    → x.sequence ≤ n
Among-bound zero x [] h m = absurd m
Among-bound zero x (e ∷ es) h m = absurd h
Among-bound (suc n) x [] h m = absurd m
Among-bound (suc n) x (e ∷ es) h (inl q) = omega (arith, h.0, ap sequence_of q)
Among-bound (suc n) x (e ∷ es) h (inr m) = omega (arith, Among-bound n x es h.1 m)

-- An event of the run is known by its number.
pub Among-unique :
    (n : ℕ) (x y : ProgressEvent) (es : List ProgressEvent)
    → Numbered n es
    → Among x es
    → Among y es
    → x.sequence ≡ y.sequence
    → x ≡ y
Among-unique zero x y [] h m k q = absurd m
Among-unique zero x y (e ∷ es) h m k q = absurd h
Among-unique (suc n) x y [] h m k q = absurd m
Among-unique (suc n) x y (e ∷ es) h (inl a) (inl b) q = cc
Among-unique (suc n) x y (e ∷ es) h (inl a) (inr k) q =
    absurd (omega (arith, h.0, ap sequence_of a, Among-bound n y es h.1 k))
Among-unique (suc n) x y (e ∷ es) h (inr m) (inl b) q =
    absurd (omega (arith, h.0, ap sequence_of b, Among-bound n x es h.1 m))
Among-unique (suc n) x y (e ∷ es) h (inr m) (inr k) q = Among-unique n x y es h.1 m k q

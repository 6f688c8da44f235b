-- ===== src/Public/Rate/SortedRows.antt =====
-- backend/app/public/admission.py: rows in the order of their scores, and how many of them expire.
use reviewlens_ai.Prelude.{
  ℕ, zero, suc, ◌+◌, ◌≤◌, ◌<◌, Bool, List, [], ◌∷◌, ltb, string_eq, filter, length, arith,
  Bool-cases, inl, inr, All,
}
use reviewlens_ai.Public.Rate.{Entry, by_score, score_at, rate_key_eq}
use reviewlens_ai.Public.Rate.Counts.{count, live, always}

abbrev NoEarlier : ℕ → Entry → Type 0
NoEarlier n e = n ≤ e.score

abbrev pub IsSorted : List Entry → Type 0
IsSorted [] = Unit
IsSorted (e ∷ es) = All (NoEarlier e.score) es × IsSorted es

All-filter :
    (P : Entry → Type 0) (p : Entry → Bool) (es : List Entry) → All P es → All P (filter p es)
All-filter P p [] h = tt
All-filter P p (e ∷ es) h = elim (Bool-cases (p e)) [
  | inl y ↦ rw y (h.0, All-filter P p es h.1)
  | inr n ↦ rw n (All-filter P p es h.1)
]

pub filter-IsSorted : (p : Entry → Bool) (es : List Entry) → IsSorted es → IsSorted (filter p es)
filter-IsSorted p [] h = tt
filter-IsSorted p (e ∷ es) h = elim (Bool-cases (p e)) [
  | inl y ↦ rw y (All-filter _ p es h.0, filter-IsSorted p es h.1)
  | inr n ↦ rw n (filter-IsSorted p es h.1)
]

NoEarlier-weaken : (m n : ℕ) (es : List Entry) → m ≤ n → All (NoEarlier n) es → All (NoEarlier m) es
NoEarlier-weaken m n [] le h = tt
NoEarlier-weaken m n (e ∷ es) le h = (omega (arith, le, h.0), NoEarlier-weaken m n es le h.1)

by_score-NoEarlier :
    (n : ℕ) (e : Entry) (es : List Entry)
    → n ≤ e.score
    → All (NoEarlier n) es
    → All (NoEarlier n) (by_score e es)
unfolding by_score
by_score-NoEarlier n e [] le h = (le, tt)
by_score-NoEarlier n e (f ∷ fs) le h = elim (Bool-cases (ltb e.score f.score)) [
  | inl l ↦ rw l (le, h)
  | inr g ↦ rw g (h.0, by_score-NoEarlier n e fs le h.1)
]

pub by_score-IsSorted : (e : Entry) (es : List Entry) → IsSorted es → IsSorted (by_score e es)
unfolding by_score
by_score-IsSorted e [] h = (tt, tt)
by_score-IsSorted e (f ∷ fs) h = elim (Bool-cases (ltb e.score f.score)) [
  | inl l ↦
      rw l ((ground (arith, l), NoEarlier-weaken e.score f.score fs (ground (arith, l)) h.0), h)
  | inr g ↦
      rw g (by_score-NoEarlier f.score e fs (ground (arith, g)) h.0, by_score-IsSorted e fs h.1)
]

score_at-NoEarlier :
    (n i : ℕ) (es : List Entry) → i < length es → All (NoEarlier n) es → n ≤ score_at i es
unfolding score_at
score_at-NoEarlier n i [] l h = absurd (omega (arith, l))
score_at-NoEarlier n zero (e ∷ es) l h = h.0
score_at-NoEarlier n (suc i) (e ∷ es) l h = score_at-NoEarlier n i es (omega (arith, l)) h.1

pub count-length : (p : Entry → Bool) (es : List Entry) → count p es ≤ length es
count-length p [] = omega arith
count-length p (e ∷ es) = ground (arith, count-length p es)

-- When the row at `i` is too old to count, so are all before it.
pub expired-count :
    (t window i : ℕ) (es : List Entry)
    → IsSorted es
    → i < length es
    → score_at i es + window ≤ t
    → count (live t window always) es + suc i ≤ length es
unfolding score_at
expired-count t window i [] h l old = absurd (omega (arith, l))
expired-count t window zero (e ∷ es) h l old =
    ground (arith, old, count-length (live t window always) es)
expired-count t window (suc i) (e ∷ es) h l old =
    let rest = expired-count t window i es h.1 (omega (arith, l)) old in
    let before = score_at-NoEarlier e.score i es (omega (arith, l)) h.0 in
    ground (arith, rest, before, old)

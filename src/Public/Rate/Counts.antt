-- ===== src/Public/Rate/Counts.antt =====
-- backend/app/public/admission.py: how many rows of a sorted set are younger than its window.
use reviewlens_ai.Prelude.{
  ℕ, ◌+◌, ◌≤◌, String, Bool, true, ◌&&◌, ◌≡◌, refl, ◌∙◌, sym, List, [], ◌∷◌, ltb, string_eq, filter,
  length, arith, Bool-cases, inl, inr,
}
use reviewlens_ai.Public.Rate.{Entry, is_other, zrem, by_score, zadd, is_recent, trim}

abbrev pub count : (Entry → Bool) → List Entry → ℕ
count p es = length (filter p es)

abbrev pub always : Entry → Bool
always e = true

-- The rows younger than the window that satisfy `q`.
abbrev pub live : ℕ → ℕ → (Entry → Bool) → Entry → Bool
live now window q e = ltb now (e.score + window) && q e

pub count-by_score :
    (p : Entry → Bool) (e : Entry) (es : List Entry) → count p (by_score e es) ≡ count p (e ∷ es)
unfolding by_score
count-by_score p e [] = refl
count-by_score p e (f ∷ fs) = elim (Bool-cases (ltb e.score f.score)) [
  | inl l ↦ rw l refl
  | inr g ↦ rw g (ground (arith, count-by_score p e fs))
]

pub count-filter :
    (p q : Entry → Bool) (es : List Entry) → count p (filter q es) ≡ count (λ e. p e && q e) es
count-filter p q [] = refl
count-filter p q (e ∷ es) = ground (arith, count-filter p q es)

pub count-same :
    (p q : Entry → Bool) (es : List Entry) → ((e : Entry) → p e ≡ q e) → count p es ≡ count q es
count-same p q [] h = refl
count-same p q (e ∷ es) h = rw (h e) (ground (arith, count-same p q es h))

pub count-implies :
    (p q : Entry → Bool) (es : List Entry)
    → ((e : Entry) → p e ≡ true → q e ≡ true)
    → count p es ≤ count q es
count-implies p q [] h = omega arith
count-implies p q (e ∷ es) h = ground (arith, h e, count-implies p q es h)

-- Of two lists the same rows count at `now` and at any time after it.
abbrev pub SameLive : ℕ → ℕ → List Entry → List Entry → Type 0
SameLive window now xs ys =
    (t : ℕ) → now ≤ t → (q : Entry → Bool) → count (live t window q) xs ≡ count (live t window q) ys

pub SameLive-later :
    (window now later : ℕ) (xs ys : List Entry)
    → now ≤ later
    → SameLive window now xs ys
    → SameLive window later xs ys
SameLive-later window now later xs ys l h t le q = h t (omega (arith, l, le)) q

-- Trimmed rows do not count any more.
pub SameLive-trim :
    (window now : ℕ) (xs ys : List Entry)
    → SameLive window now xs ys
    → SameLive window now (trim now window xs) ys
SameLive-trim window now xs ys h t le q =
    count-filter (live t window q) (is_recent now window) xs
    ∙ (count-same _ _ xs (λ e. ground (arith, le)) ∙ h t le q)

pub SameLive-zrem :
    (window now : ℕ) (token : String) (xs ys : List Entry)
    → SameLive window now xs ys
    → SameLive window now (zrem token xs) (zrem token ys)
SameLive-zrem window now token xs ys h t le q =
    let narrow : Entry → Bool = λ e. q e && is_other token e in
    let side : (es : List Entry)
        → count (live t window q) (zrem token es) ≡ count (live t window narrow) es =
      λ es.
        count-filter (live t window q) (is_other token) es
        ∙ count-same _ _ es (λ e. ground arith) in
    side xs ∙ (h t le narrow ∙ sym (side ys))

pub SameLive-zadd :
    (window now at : ℕ) (token : String) (xs ys : List Entry)
    → SameLive window now xs ys
    → SameLive window now (zadd at token xs) (zadd at token ys)
SameLive-zadd window now at token xs ys h t le q =
    let p : Entry → Bool = live t window q in
    let rest = SameLive-zrem window now token xs ys h t le q in
    count-by_score p (record { score = at; member = token }) (zrem token xs)
    ∙ (ground (arith, rest)
        ∙ sym (count-by_score p (record { score = at; member = token }) (zrem token ys)))

-- Adding to a set is adding in front, once the token's old row is gone.
pub SameLive-add :
    (window now at : ℕ) (token : String) (xs ys : List Entry)
    → SameLive window now xs ys
    → SameLive window now (zadd at token xs) (record { score = at; member = token } ∷ zrem token ys)
SameLive-add window now at token xs ys h t le q =
    SameLive-zadd window now at token xs ys h t le q
    ∙ count-by_score (live t window q) (record { score = at; member = token }) (zrem token ys)

pub count-zrem :
    (p : Entry → Bool) (token : String) (es : List Entry) → count p (zrem token es) ≤ count p es
count-zrem p token es = omega (
  arith,
  count-filter p (is_other token) es,
  count-implies (λ e. p e && is_other token e) p es (λ e. ground arith),
)

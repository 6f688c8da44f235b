-- ===== src/Runtime/ReadProgress/Same.antt =====
-- backend/app/runtime/outbox.py: `read_progress` gives the same events from either source.
use reviewlens_ai.Prelude.{
  ℕ, zero, suc, ◌-◌, ◌≤◌, min, true, ◌≡◌, refl, sym, ap, inl, inr, Option, none, some, List, [],
  ◌∷◌, map, leb, length, filter, take, All, Among, arith, Bool-cases, Option-cases, ◌∙◌,
}
use reviewlens_ai.Runtime.Result.{Returns}
use reviewlens_ai.Runtime.State.{ProgressEvent, RunDb}
use reviewlens_ai.Runtime.Redis.{Redis}
use reviewlens_ai.Runtime.Consistent.{Numbered, IsConsistent}
use reviewlens_ai.Runtime.ReadProgress.{
  sort_events, limited, is_after, postgres_progress, range, same_numbers, sequence_of,
  required_count, is_complete, valid_limit, read_page, read_progress,
}
use reviewlens_ai.Runtime.ReadProgress.Rows.{
  Consecutive, filter-none, sorted_suffix, All-sort, All-filter, All-map, All-self, Among-unique,
}

-- Entries that follow `a` are the first of the rows that follow `a`.
entries-take :
    (n a : ℕ) (all rows es : List ProgressEvent)
    → Numbered n all
    → Consecutive a rows
    → All (λ x. Among x all) rows
    → Consecutive a es
    → All (λ x. Among x all) es
    → length es ≤ length rows
    → es ≡ take (length es) rows
entries-take n a all rows [] h cr mr ce me l = refl
entries-take n a all [] (e ∷ es) h cr mr ce me l = absurd (omega arith)
entries-take n a all (f ∷ rows) (e ∷ es) h cr mr ce me l =
    let same = Among-unique n e f all h me.0 mr.0 (ce.0 ∙ sym cr.0) in
    let rest = entries-take n (suc a) all rows es h cr.1 mr.1 ce.1 me.1 (omega arith) in cc

same_numbers-Consecutive :
    (a : ℕ) (es : List ProgressEvent)
    → same_numbers (map sequence_of es) (range (suc a) (length es)) ≡ true
    → Consecutive a es
same_numbers-Consecutive a [] h = tt
same_numbers-Consecutive a (e ∷ es) h =
    (ground (arith, h), same_numbers-Consecutive (suc a) es (ground (arith, h)))

take-all : (n : ℕ) (xs : List ProgressEvent) → length xs ≤ n → take n xs ≡ xs
take-all zero [] l = refl
take-all (suc n) [] l = refl
take-all zero (x ∷ xs) l = absurd (omega arith)
take-all (suc n) (x ∷ xs) l = ap (λ r. x ∷ r) (take-all n xs (omega arith))

limited-none : (limit : Option ℕ) → limited limit [] ≡ []
limited-none none = refl
limited-none (some zero) = refl
limited-none (some (suc n)) = refl

take-min : (k m : ℕ) (xs : List ProgressEvent) → k ≡ min (length xs) m → take k xs ≡ take m xs
take-min zero zero xs e = refl
take-min zero (suc m) [] e = refl
take-min zero (suc m) (x ∷ xs) e = absurd (omega (arith, e))
take-min (suc k) zero xs e = absurd (omega (arith, e))
take-min (suc k) (suc m) [] e = refl
take-min (suc k) (suc m) (x ∷ xs) e = ap (λ r. x ∷ r) (take-min k m xs (omega (arith, e)))

-- As many rows as a full answer has are all the rows that the limit allows.
limited-count :
    (a c : ℕ) (limit : Option ℕ) (xs : List ProgressEvent)
    → valid_limit limit ≡ true
    → length xs ≡ c - a
    → take (required_count a limit c) xs ≡ limited limit xs
unfolding required_count
limited-count a c none xs v l = take-all (min (c - a) c) xs (omega (arith, l))
limited-count a c (some zero) xs v l = absurd (ground (arith, v))
limited-count a c (some (suc n)) xs v l =
    take-min (required_count a (some (suc n)) c) (suc n) xs (ground (arith, l))

required_count_bound : (a c : ℕ) (limit : Option ℕ) → required_count a limit c ≤ c - a
unfolding required_count
required_count_bound a c none = omega arith
required_count_bound a c (some n) = omega arith

-- A complete page of entries is the page of rows.
complete-postgres :
    (after : ℕ) (limit : Option ℕ) (s : RunDb) (es : List ProgressEvent)
    → valid_limit limit ≡ true
    → Numbered s.run.progress_sequence s.events
    → All (λ e. Among e s.events) es
    → is_complete after limit s.run.progress_sequence es ≡ true
    → es ≡ postgres_progress after limit s
unfolding is_complete postgres_progress
complete-postgres after limit s es v num mine y =
    let rows : List ProgressEvent = sort_events (filter (is_after after) s.events) in
    let suffix = sorted_suffix after s.run.progress_sequence s.events num in
    let count : length es ≡ required_count after limit s.run.progress_sequence =
      ground (arith, y) in
    let full = limited-count after s.run.progress_sequence limit rows v suffix.1 in
    let first =
      entries-take s.run.progress_sequence after s.events rows es num suffix.0
        (All-sort _ _
          (All-filter _ (is_after after) s.events (All-self s.events s.events (λ x m. m))))
        (same_numbers-Consecutive after es (ground (arith, y))) mine
        (omega
          (arith, count, suffix.1, required_count_bound after s.run.progress_sequence limit)) in
    first ∙ (ap (λ k. take k rows) count ∙ full)

-- Where the rows are consistent and every entry of the stream is an event of the run, both sources
-- give the page that PostgreSQL has.
pub read_page-postgres :
    (r : Redis) (after : ℕ) (limit : Option ℕ) (s : RunDb) (stream : r.Stream)
    → valid_limit limit ≡ true
    → Numbered s.run.progress_sequence s.events
    → ((e : ProgressEvent) → r.Has stream e → Among e s.events)
    → (read_page r after limit s stream).events ≡ postgres_progress after limit s
unfolding read_page postgres_progress sort_events
read_page-postgres r after limit s stream v num h =
    elim (Bool-cases (leb s.run.progress_sequence after)) [
      | inl l ↦ rw l (
          rw (filter-none after s.run.progress_sequence s.events num (ground (arith, l)))
            (sym (limited-none limit)))
      | inr g ↦ rw g (elim (Option-cases (r.entries_after after limit stream)) [
        | inl e ↦ rw e refl
        | inr (es, e) ↦
            rw e (elim (Bool-cases (is_complete after limit s.run.progress_sequence es)) [
              | inr n ↦ rw n refl
              | inl y ↦ rw y (
                  complete-postgres after limit s es v num
                    (All-map _ _ h es (r.entries_after-Has after limit stream es e)) y)
            ])
      ])
    ]

-- `read_progress` of a run with consistent rows returns for every valid limit, with the events that
-- PostgreSQL has behind `after`, whatever part of them the stream holds, as long as it holds no others.
pub read_progress-postgres :
    (r : Redis) (after : ℕ) (limit : Option ℕ) (s : RunDb) (stream : r.Stream)
    → valid_limit limit ≡ true
    → IsConsistent s
    → ((e : ProgressEvent) → r.Has stream e → Among e s.events)
    → Returns
        (λ p. p.events ≡ postgres_progress after limit s)
        (read_progress r after limit (some s) stream)
unfolding read_progress
read_progress-postgres r after limit s stream v c h =
    rw v (read_page-postgres r after limit s stream v c.numbered h)

-- How many events a page holds.
abbrev pub page_size : ℕ → Option ℕ → ℕ → ℕ
page_size after none current = current - after
page_size after (some n) current = min (current - after) n

take-Consecutive :
    (a n : ℕ) (es : List ProgressEvent)
    → Consecutive a es
    → Consecutive a (take n es) × (length (take n es) ≡ min (length es) n)
take-Consecutive a zero es c = (tt, omega arith)
take-Consecutive a (suc n) [] c = (tt, omega arith)
take-Consecutive a (suc n) (e ∷ es) c =
    let rest = take-Consecutive (suc a) n es c.1 in ((c.0, rest.0), omega (arith, rest.1))

postgres_progress-Consecutive :
    (after : ℕ) (limit : Option ℕ) (s : RunDb)
    → Numbered s.run.progress_sequence s.events
    → Consecutive after (postgres_progress after limit s)
      × (length (postgres_progress after limit s) ≡ page_size after limit s.run.progress_sequence)
unfolding postgres_progress
postgres_progress-Consecutive after none s num =
    sorted_suffix after s.run.progress_sequence s.events num
postgres_progress-Consecutive after (some n) s num =
    let suffix = sorted_suffix after s.run.progress_sequence s.events num in
    let first =
      take-Consecutive after n (sort_events (filter (is_after after) s.events)) suffix.0 in
    (first.0, omega (arith, first.1, suffix.1))

-- The page of a run with consistent rows starts with the event behind `after`, its numbers have no
-- gap, and it holds as many events as the run has and the limit allows.
pub read_progress-Consecutive :
    (r : Redis) (after : ℕ) (limit : Option ℕ) (s : RunDb) (stream : r.Stream)
    → valid_limit limit ≡ true
    → IsConsistent s
    → ((e : ProgressEvent) → r.Has stream e → Among e s.events)
    → Returns
        (λ p.
          Consecutive after p.events
          × (length p.events ≡ page_size after limit s.run.progress_sequence))
        (read_progress r after limit (some s) stream)
unfolding read_progress
read_progress-Consecutive r after limit s stream v c h = rw v (
    rw (read_page-postgres r after limit s stream v c.numbered h)
      (postgres_progress-Consecutive after limit s c.numbered))

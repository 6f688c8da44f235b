-- ===== src/Runtime/ReadProgress.antt =====
-- backend/app/runtime/outbox.py: `read_progress`, with the query of `_postgres_progress`.
pub mod Rows
pub mod Same
use reviewlens_ai.Prelude.{
  ℕ, zero, suc, ◌-◌, min, Bool, true, false, not, ◌&&◌, ◌||◌, Option, none, some, List, [], ◌∷◌,
  map, ltb, leb, eqb, length, filter, take, if◌then◌else◌,
}
use reviewlens_ai.Runtime.Result.{Result, ok, raise, ◌>>=◌, ◌>>◌, guard, value_error, lookup_error}
use reviewlens_ai.Runtime.State.{ProgressEvent, RunDb}
use reviewlens_ai.Runtime.Redis.{Redis}

pub data ProgressSource : Type 0 where
  redis postgres : ProgressSource

pub record ProgressPage : Type 0 where
  pub source : ProgressSource
  pub current_sequence : ℕ
  pub events : List ProgressEvent

-- ORDER BY sequence.
unfoldable pub by_sequence : ProgressEvent → List ProgressEvent → List ProgressEvent
by_sequence e [] = e ∷ []
by_sequence e (f ∷ fs) =
    let rest = by_sequence e fs in if ltb e.sequence f.sequence then e ∷ f ∷ fs else f ∷ rest

unfoldable pub sort_events : List ProgressEvent → List ProgressEvent
unfolding by_sequence
sort_events [] = []
sort_events (e ∷ es) = by_sequence e (sort_events es)

-- LIMIT, where the statement has one.
abbrev pub limited : Option ℕ → List ProgressEvent → List ProgressEvent
limited none es = es
limited (some n) es = take n es

abbrev pub is_after : ℕ → ProgressEvent → Bool
is_after n e = ltb n e.sequence

unfoldable pub postgres_progress : ℕ → Option ℕ → RunDb → List ProgressEvent
unfolding sort_events
postgres_progress after limit s = limited limit (sort_events (filter (is_after after) s.events))

-- `list(range(n, n + count))`.
abbrev range : ℕ → ℕ → List ℕ
range n zero = []
range n (suc count) = n ∷ range (suc n) count

abbrev same_numbers : List ℕ → List ℕ → Bool
same_numbers [] [] = true
same_numbers (m ∷ ms) (n ∷ ns) = eqb m n && same_numbers ms ns
same_numbers _ _ = false

abbrev sequence_of : ProgressEvent → ℕ
sequence_of e = e.sequence

unfoldable pub required_count : ℕ → Option ℕ → ℕ → ℕ
required_count after none current = min (current - after) current
required_count after (some n) current = min (current - after) (if eqb n 0 then current else n)

-- The entries are the next ones, and as many as there must be.
unfoldable pub is_complete : ℕ → Option ℕ → ℕ → List ProgressEvent → Bool
unfolding required_count
is_complete after limit current es =
    eqb (length es) (required_count after limit current)
    && same_numbers (map sequence_of es) (range (suc after) (length es))

abbrev pub valid_limit : Option ℕ → Bool
valid_limit none = true
valid_limit (some n) = leb 1 n && leb n 1000

abbrev page : ProgressSource → RunDb → List ProgressEvent → ProgressPage
page source s es = record {
  source = source;
  current_sequence = s.run.progress_sequence;
  events = es;
}

module _ (r : Redis) where
  unfoldable pub read_page : ℕ → Option ℕ → RunDb → r.Stream → ProgressPage
  unfolding is_complete postgres_progress
  read_page after limit s stream =
      let stored = page postgres s (postgres_progress after limit s) in
      if leb s.run.progress_sequence after
      then page redis s []
      else elim (r.entries_after after limit stream) [
        | none ↦ stored
        | some es ↦
            if is_complete after limit s.run.progress_sequence es then page redis s es else stored
      ]

  -- `after_sequence` is a number, so the guard on its sign has nothing to refuse.
  unfoldable pub read_progress : ℕ → Option ℕ → Option RunDb → r.Stream → Result ProgressPage
  unfolding read_page
  read_progress after limit run stream = do
    guard (valid_limit limit) value_error
    elim run [ none ↦ raise lookup_error | some s ↦ ok (read_page after limit s stream) ]

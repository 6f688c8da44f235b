-- ===== src/Public/Rate/Retry.antt =====
-- backend/app/public/admission.py: the time at which a refused request may come again.
use reviewlens_ai.Prelude.{
  ℕ, ◌+◌, ◌-◌, ◌≤◌, ◌<◌, String, Bool, true, ◌≡◌, ◌⊎◌, refl, List, [], ◌∷◌, leb, ◌==◌, string_eq,
  length, any, arith, Bool-cases, inl, inr,
}
use reviewlens_ai.Public.Rate.{
  Entry, RateKey, hour_ip, day_ip, day_session, SortedSets, put_set, trim, is_recent, is_other,
  score_at, RateLimits, window_of, limit_of, rule_of, rate_keys, rules_of, Survey, survey_rule,
  survey, add_all, granted, refused, reserve_rate, zrem_all, is_set, rate_key_eq, start_survey,
}
use reviewlens_ai.Public.Rate.Counts.{live, always, SameLive-trim}
use reviewlens_ai.Public.Rate.Ledger.{
  Ledger, RateOp, survey-SameSets, reserving, releasing, Rated, rate_step, rate_steps, SameSets,
  rate_steps-SameSets, SameSets-later, unused,
}
use reviewlens_ai.Public.Rate.Limit.{pending, Free, granted-Free}
use reviewlens_ai.Public.Rate.SortedRows.{
  IsSorted, filter-IsSorted, by_score-IsSorted, count-length, expired-count,
}

-- A key has room at `t` if it has room now, or the row that `t` waits for is its own.
freed :
    (l : RateLimits) (now t : ℕ) (k : RateKey) (sets : SortedSets) (ledger : Ledger)
    → IsSorted (sets k)
    → SameSets now sets ledger
    → now ≤ t
    → 0 < limit_of l k
    → (leb (limit_of l k) (length (trim now (window_of k) (sets k))) ≡ true
        → score_at
              (length (trim now (window_of k) (sets k)) - limit_of l k)
              (trim now (window_of k) (sets k))
            + window_of k
          ≤ t)
    → pending t k ledger < limit_of l k
freed l now t k sets ledger sorted same le pos wait =
    let es : List Entry = trim now (window_of k) (sets k) in
    let counted = SameLive-trim (window_of k) now (sets k) (ledger k) (same k) t le always in
    elim (Bool-cases (leb (limit_of l k) (length es))) [
      | inr n ↦ ground (arith, n, counted, count-length (live t (window_of k) always) es)
      | inl y ↦ ground (
        arith,
        y,
        counted,
        expired-count t (window_of k) (length es - limit_of l k) es
            (filter-IsSorted (is_recent now (window_of k)) (sets k) sorted) (ground (arith, y, pos))
            (wait y),
      )
    ]

abbrev AllSorted : SortedSets → Type 0
AllSorted sets = (k : RateKey) → IsSorted (sets k)

put_set-AllSorted :
    (k : RateKey) (es : List Entry) (sets : SortedSets)
    → IsSorted es
    → AllSorted sets
    → AllSorted (put_set k es sets)
put_set-AllSorted k es sets new h j = elim (Bool-cases (j == k)) [
  | inl y ↦ rw y new
  | inr n ↦ rw n (h j)
]

survey-AllSorted :
    (l : RateLimits) (now : ℕ) (ks : List RateKey) (x : Survey)
    → AllSorted x.sets
    → AllSorted (survey now (rules_of l ks) x).sets
unfolding survey survey_rule
survey-AllSorted l now [] x h = h
survey-AllSorted l now (k ∷ ks) x h = survey-AllSorted l now ks (survey_rule now (rule_of l k) x) (
    put_set-AllSorted k _ x.sets (filter-IsSorted (is_recent now (window_of k)) (x.sets k) (h k)) h)

add_all-AllSorted :
    (now : ℕ) (token : String) (ks : List RateKey) (sets : SortedSets)
    → AllSorted sets
    → AllSorted (add_all now token ks sets)
unfolding add_all
add_all-AllSorted now token [] sets h = h
add_all-AllSorted now token (k ∷ ks) sets h = add_all-AllSorted now token ks _ (
    put_set-AllSorted k _ sets
      (by_score-IsSorted _ _ (filter-IsSorted (is_other token) (sets k) (h k))) h)

zrem_all-AllSorted :
    (token : String) (ks : List RateKey) (sets : SortedSets)
    → AllSorted sets
    → AllSorted (zrem_all token ks sets)
unfolding zrem_all
zrem_all-AllSorted token [] sets h = h
zrem_all-AllSorted token (k ∷ ks) sets h =
    zrem_all-AllSorted token ks _
      (put_set-AllSorted k _ sets (filter-IsSorted (is_other token) (sets k) (h k)) h)

rate_step-AllSorted :
    (l : RateLimits) (op : RateOp) (x : Rated)
    → AllSorted x.sets
    → AllSorted (rate_step l op x).sets
unfolding rate_step reserve_rate
rate_step-AllSorted l (releasing answers token ip session) x h = elim (Bool-cases answers) [
  | inl y ↦ rw y (zrem_all-AllSorted token (rate_keys ip session) x.sets h)
  | inr n ↦ rw n h
]
rate_step-AllSorted l (reserving elapsed ip session token) x h =
    let now = x.now + elapsed in
    let ks = rate_keys ip session in
    let surveyed = survey-AllSorted l now ks (start_survey x.sets) h in
    elim (Bool-cases (any is_set (survey now (rules_of l ks) (start_survey x.sets)).blocked)) [
      | inl y ↦ rw y surveyed
      | inr n ↦ rw n (add_all-AllSorted now token ks _ surveyed)
    ]

rate_steps-AllSorted :
    (l : RateLimits) (ops : List RateOp) (x : Rated)
    → AllSorted x.sets
    → AllSorted (rate_steps l ops x).sets
unfolding rate_steps
rate_steps-AllSorted l [] x h = h
rate_steps-AllSorted l (op ∷ ops) x h =
    rate_steps-AllSorted l ops (rate_step l op x) (rate_step-AllSorted l op x h)

survey-Free_later :
    (l : RateLimits) (now t : ℕ) (ip : String) (session : ℕ) (sets : SortedSets) (ledger : Ledger)
    → AllSorted sets
    → SameSets now sets ledger
    → 0 < l.public_runs_per_hour
    → 0 < l.public_runs_per_day
    → now ≤ t
    → (survey now (rules_of l (rate_keys ip session)) (start_survey sets)).retry_at ≤ t
    → Free l t ip session ledger
unfolding survey survey_rule
survey-Free_later l now t ip session sets ledger sorted same hour day le wait = (
  freed l now t (hour_ip ip) sets ledger (sorted (hour_ip ip)) same le hour
      (λ y. ground (arith, wait, y, hour)),
  freed l now t (day_ip ip) sets ledger (sorted (day_ip ip)) same le day
      (λ y. ground (arith, wait, y, day)),
  freed l now t (day_session session) sets ledger (sorted (day_session session)) same le day
      (λ y. ground (arith, wait, y, day)),
)

abbrev pub surveyed : RateLimits → ℕ → String → ℕ → SortedSets → Survey
surveyed l now ip session sets = survey now (rules_of l (rate_keys ip session)) (start_survey sets)

pub reserve_rate-cases :
    (l : RateLimits) (now : ℕ) (ip : String) (session : ℕ) (token : String) (sets : SortedSets)
    → (reserve_rate l now ip session token sets
        ≡ (granted, add_all now token (rate_keys ip session) (surveyed l now ip session sets).sets))
      ⊎ (reserve_rate l now ip session token sets ≡ (
        refused (surveyed l now ip session sets).retry_at (surveyed l now ip session sets).blocked,
        (surveyed l now ip session sets).sets,
      ))
unfolding reserve_rate
reserve_rate-cases l now ip session token sets =
    elim (Bool-cases (any is_set (surveyed l now ip session sets).blocked)) [
      | inr n ↦ inl (rw n refl)
      | inl y ↦ inr (rw y refl)
    ]

-- After any requests and releases under limits that are not 0: where a request is refused, one for
-- the same address and session at the time of the refusal's `retry_at` or later is granted, unless
-- other requests come before it.
pub reserve_rate-retry :
    (l : RateLimits) (ops : List RateOp) (elapsed t : ℕ) (ip : String) (session : ℕ)
    (token again : String) (at : ℕ) (blocked : List Bool)
    → 0 < l.public_runs_per_hour
    → 0 < l.public_runs_per_day
    → (reserve_rate l
        ((rate_steps l ops unused).now + elapsed)
        ip
        session
        token
        (rate_steps l ops unused).sets).0
      ≡ refused at blocked
    → (rate_steps l ops unused).now + elapsed ≤ t
    → at ≤ t
    → (reserve_rate l t ip session again
        (reserve_rate l
          ((rate_steps l ops unused).now + elapsed)
          ip
          session
          token
          (rate_steps l ops unused).sets).1).0
      ≡ granted
reserve_rate-retry l ops elapsed t ip session token again at blocked hour day e le wait =
    elim (reserve_rate-cases l now ip session token x.sets) [
      | inl g ↦ absurd (let q : granted ≡ refused at blocked = rw g at e in cc)
      | inr r ↦ rw r (
          let q : refused y.retry_at y.blocked ≡ refused at blocked = rw r at e in
          let q' : y.retry_at ≡ at = cc in
          (granted-Free l t ip session again y.sets x.ledger (
              SameSets-later now t y.sets x.ledger le (
                survey-SameSets l now (rate_keys ip session) (start_survey x.sets) x.ledger
                  same))).1
            (survey-Free_later l now t ip session x.sets x.ledger
              (rate_steps-AllSorted l ops unused (λ k. tt)) same hour day le
              (omega (arith, wait, q'))))
    ]
  where
    x : Rated
    x = rate_steps l ops unused

    now : ℕ
    now = x.now + elapsed

    y : Survey
    y = surveyed l now ip session x.sets

    same : SameSets now x.sets x.ledger
    same =
        SameSets-later x.now now x.sets x.ledger (omega arith)
          (rate_steps-SameSets l ops unused (λ k s ge p. refl))

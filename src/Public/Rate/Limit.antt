-- ===== src/Public/Rate/Limit.antt =====
-- backend/app/public/admission.py: how many reservations the script grants.
use reviewlens_ai.Prelude.{
  ℕ, ◌+◌, ◌≤◌, ◌<◌, String, Bool, true, false, ◌&&◌, ◌≡◌, ◌↔◌, refl, ◌∙◌, List, [], ◌∷◌, string_eq,
  length, any, arith, Bool-cases, inl, inr, nat_eq,
}
use reviewlens_ai.Public.Rate.{
  Entry, RateKey, hour_ip, day_ip, day_session, SortedSets, trim, is_recent, RateLimits, window_of,
  limit_of, rate_keys, rules_of, survey_rule, survey, RateReply, granted, refused, reserve_rate,
  is_set, rate_key_eq, start_survey,
}
use reviewlens_ai.Public.Rate.Counts.{count, count-same, count-implies, live, always, count-zrem}
use reviewlens_ai.Public.Rate.Ledger.{
  Ledger, RateOp, reserving, releasing, Rated, counts_on, entered, forgotten, rate_step, rate_steps,
  SameSets, SameSets-later, rate_step-SameSets, SameSets-later, rate_steps-SameSets, unused,
}

-- How many of the reservations are younger than a window.
abbrev pub younger : ℕ → ℕ → List Entry → ℕ
younger now window es = count (live now window always) es

abbrev pub pending : ℕ → RateKey → Ledger → ℕ
pending now k ledger = younger now (window_of k) (ledger k)

trim-pending :
    (now : ℕ) (k : RateKey) (sets : SortedSets) (ledger : Ledger)
    → SameSets now sets ledger
    → length (trim now (window_of k) (sets k)) ≡ pending now k ledger
trim-pending now k sets ledger h =
    count-same (is_recent now (window_of k)) (live now (window_of k) always) (sets k)
      (λ e. ground arith)
    ∙ h k now (omega arith) always

-- Every key has room for one more reservation.
abbrev pub Free : RateLimits → ℕ → String → ℕ → Ledger → Type 0
Free l now ip session ledger =
    (younger now 3600 (ledger (hour_ip ip)) < l.public_runs_per_hour)
    × (younger now 86400 (ledger (day_ip ip)) < l.public_runs_per_day)
    × (younger now 86400 (ledger (day_session session)) < l.public_runs_per_day)

survey-Free :
    (l : RateLimits) (now : ℕ) (ip : String) (session : ℕ) (sets : SortedSets) (ledger : Ledger)
    → SameSets now sets ledger
    → (any is_set (survey now (rules_of l (rate_keys ip session)) (start_survey sets)).blocked
        ≡ false)
      ↔ Free l now ip session ledger
unfolding survey survey_rule
survey-Free l now ip session sets ledger h = ground (
  arith,
  trim-pending now (hour_ip ip) sets ledger h,
  trim-pending now (day_ip ip) sets ledger h,
  trim-pending now (day_session session) sets ledger h,
)

pub granted-Free :
    (l : RateLimits) (now : ℕ) (ip : String) (session : ℕ) (token : String) (sets : SortedSets)
    (ledger : Ledger)
    → SameSets now sets ledger
    → ((reserve_rate l now ip session token sets).0 ≡ granted) ↔ Free l now ip session ledger
unfolding reserve_rate
granted-Free l now ip session token sets ledger h =
    let free = survey-Free l now ip session sets ledger h in
    elim (Bool-cases
      (any is_set (survey now (rules_of l (rate_keys ip session)) (start_survey sets)).blocked)) [
        | inl y ↦ rw y (λ e. absurd cc, λ f. absurd (let n = free.1 f in cc))
        | inr n ↦ rw n (λ e. free.0 n, λ f. refl)
      ]

-- After any runs of the script and any releases, the script grants a request exactly when, of the
-- reservations that it granted before and that were not released, fewer are younger than an hour and a
-- day than the limits allow: of the address in an hour and in a day, and of the session in a day.
pub reserve_rate-granted :
    (l : RateLimits) (ops : List RateOp) (elapsed : ℕ) (ip : String) (session : ℕ) (token : String)
    → ((reserve_rate l
          ((rate_steps l ops unused).now + elapsed)
          ip
          session
          token
          (rate_steps l ops unused).sets).0
        ≡ granted)
      ↔ Free l ((rate_steps l ops unused).now + elapsed) ip session (rate_steps l ops unused).ledger
reserve_rate-granted l ops elapsed ip session token =
    let x = rate_steps l ops unused in
    granted-Free l (x.now + elapsed) ip session token x.sets x.ledger (
      SameSets-later x.now (x.now + elapsed) x.sets x.ledger (omega arith)
        (rate_steps-SameSets l ops unused (λ k t le q. refl)))

-- At no later time do more reservations count than the limit of the key.
abbrev pub Limited : RateLimits → ℕ → Ledger → Type 0
Limited l now ledger = (k : RateKey) (t : ℕ) → now ≤ t → pending t k ledger ≤ limit_of l k

pending-later :
    (now t : ℕ) (k : RateKey) (ledger : Ledger)
    → now ≤ t
    → pending t k ledger ≤ pending now k ledger
pending-later now t k ledger le =
    count-implies (live t (window_of k) always) (live now (window_of k) always) (ledger k)
      (λ e. ground (arith, le))

Free-counts_on :
    (l : RateLimits) (now : ℕ) (ip : String) (session : ℕ) (ledger : Ledger) (k : RateKey)
    → Free l now ip session ledger
    → counts_on ip session k ≡ true
    → pending now k ledger < limit_of l k
Free-counts_on l now ip session ledger (hour_ip a) free y =
    rw ((string_eq.equal_iff a ip).0 y) free.0
Free-counts_on l now ip session ledger (day_ip a) free y =
    rw ((string_eq.equal_iff a ip).0 y) free.1
Free-counts_on l now ip session ledger (day_session s) free y =
    rw ((nat_eq.equal_iff s session).0 y) free.2

entered-Limited :
    (l : RateLimits) (now : ℕ) (ip : String) (session : ℕ) (token : String) (ledger : Ledger)
    → Free l now ip session ledger
    → Limited l now ledger
    → Limited l now (entered now token ip session granted ledger)
entered-Limited l now ip session token ledger free h k t le =
    elim (Bool-cases (counts_on ip session k)) [
      | inr n ↦ rw n (h k t le)
      | inl y ↦ rw y (
          let p : Entry → Bool = live t (window_of k) always in
          ground (
            arith,
            count-zrem p token (ledger k),
            pending-later now t k ledger le,
            Free-counts_on l now ip session ledger k free y,
          ))
    ]

forgotten-Limited :
    (l : RateLimits) (now : ℕ) (answers : Bool) (token ip : String) (session : ℕ) (ledger : Ledger)
    → Limited l now ledger
    → Limited l now (forgotten answers token ip session ledger)
forgotten-Limited l now answers token ip session ledger h k t le =
    elim (Bool-cases (answers && counts_on ip session k)) [
      | inr n ↦ rw n (h k t le)
      | inl y ↦
          rw y (omega (arith, h k t le, count-zrem (live t (window_of k) always) token (ledger k)))
    ]

rate_step-Limited :
    (l : RateLimits) (op : RateOp) (x : Rated)
    → SameSets x.now x.sets x.ledger
    → Limited l x.now x.ledger
    → Limited l (rate_step l op x).now (rate_step l op x).ledger
unfolding rate_step
rate_step-Limited l (releasing answers token ip session) x same h =
    forgotten-Limited l x.now answers token ip session x.ledger h
rate_step-Limited l (reserving elapsed ip session token) x same h = go _ refl
  where
    now : ℕ
    now = x.now + elapsed

    go :
        (reply : RateReply)
        → (reserve_rate l now ip session token x.sets).0 ≡ reply
        → Limited l now (entered now token ip session reply x.ledger)
    go (refused retry_at blocked) e = λ k t le. h k t (omega (arith, le))
    go granted e =
        entered-Limited l now ip session token x.ledger
          ((granted-Free l now ip session token x.sets x.ledger
              (SameSets-later x.now now x.sets x.ledger (omega arith) same)).0
            e)
          (λ k t le. h k t (omega (arith, le)))

rate_steps-Limited :
    (l : RateLimits) (ops : List RateOp) (x : Rated)
    → SameSets x.now x.sets x.ledger
    → Limited l x.now x.ledger
    → Limited l (rate_steps l ops x).now (rate_steps l ops x).ledger
unfolding rate_steps
rate_steps-Limited l [] x same h = h
rate_steps-Limited l (op ∷ ops) x same h =
    rate_steps-Limited l ops (rate_step l op x) (rate_step-SameSets l op x same)
      (rate_step-Limited l op x same h)

-- Whatever runs of the script and releases came, by a clock that does not go back: at no moment after
-- them are more granted and unreleased reservations younger than an hour, of an address, and than a day,
-- of an address or of a session, than the limits allow.
pub rate_steps-within_limit :
    (l : RateLimits) (ops : List RateOp) (ip : String) (session t : ℕ)
    → (rate_steps l ops unused).now ≤ t
    → (younger t 3600 ((rate_steps l ops unused).ledger (hour_ip ip)) ≤ l.public_runs_per_hour)
      × (younger t 86400 ((rate_steps l ops unused).ledger (day_ip ip)) ≤ l.public_runs_per_day)
      × (younger t 86400 ((rate_steps l ops unused).ledger (day_session session))
          ≤ l.public_runs_per_day)
rate_steps-within_limit l ops ip session t le =
    let h = rate_steps-Limited l ops unused (λ j s ge q. refl) (λ j s ge. omega arith) in
    (h (hour_ip ip) t le, h (day_ip ip) t le, h (day_session session) t le)

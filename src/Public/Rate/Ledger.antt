-- ===== src/Public/Rate/Ledger.antt =====
-- backend/app/public/admission.py: the sorted sets against a ledger of all reservations, which
-- is kept apart from them and forgets nothing but what was released.
use reviewlens_ai.Prelude.{
  ℕ, ◌+◌, ◌≤◌, String, Bool, true, not, ◌&&◌, List, [], ◌∷◌, ◌==◌, string_eq, nat_eq, refl, filter,
  Bool-cases, inl, inr, arith, any, sym, subst, if◌then◌else◌,
}
use reviewlens_ai.Public.Rate.{
  Entry, RateKey, hour_ip, day_ip, day_session, rate_key_eq, SortedSets, put_set, RateLimits,
  window_of, rule_of, rate_keys, rules_of, Survey, survey_rule, survey, add_all, RateReply, granted,
  refused, reserve_rate, zrem_all, release_rate, is_set, start_survey,
}
use reviewlens_ai.Public.Rate.Counts.{
  SameLive, SameLive-later, SameLive-trim, SameLive-zrem, SameLive-zadd, SameLive-add,
}

-- What happens to the sets: the script runs for a request some seconds after the last one, by a clock
-- that does not go back, whether or not its reply arrives; and a reservation is released.
pub data RateOp : Type 0 where
  reserving : ℕ → String → ℕ → String → RateOp
  releasing : Bool → String → String → ℕ → RateOp

-- For each key, the second and the token of the reservations on it.
abbrev pub Ledger : Type 0
Ledger = RateKey → List Entry

pub record Rated : Type 0 where
  pub now : ℕ
  pub sets : SortedSets
  pub ledger : Ledger

-- The keys on which the requests of an address and a session count.
abbrev pub counts_on : String → ℕ → RateKey → Bool
counts_on ip session (hour_ip a) = a == ip
counts_on ip session (day_ip a) = a == ip
counts_on ip session (day_session s) = s == session

abbrev pub without : String → List Entry → List Entry
without token es = filter (λ e. not (e.member == token)) es

-- The ledger holds every reservation that was granted and not released, and nothing expires in it. A
-- token that is used again stands for the later reservation.
abbrev pub entered : ℕ → String → String → ℕ → RateReply → Ledger → Ledger
entered now token ip session granted ledger k =
    if counts_on ip session k
    then record { score = now; member = token } ∷ without token (ledger k)
    else ledger k
entered now token ip session (refused retry_at blocked) ledger k = ledger k

abbrev pub forgotten : Bool → String → String → ℕ → Ledger → Ledger
forgotten answers token ip session ledger k =
    if answers && counts_on ip session k then without token (ledger k) else ledger k

unfoldable pub rate_step : RateLimits → RateOp → Rated → Rated
unfolding add_all zrem_all
rate_step l (reserving elapsed ip session token) x =
    let now = x.now + elapsed in
    let reply = reserve_rate l now ip session token x.sets in
    record { now = now; sets = reply.1; ledger = entered now token ip session reply.0 x.ledger }
rate_step l (releasing answers token ip session) x = record x {
  sets = release_rate answers token (rate_keys ip session) x.sets;
  ledger = forgotten answers token ip session x.ledger;
}

unfoldable pub rate_steps : RateLimits → List RateOp → Rated → Rated
rate_steps l [] x = x
rate_steps l (op ∷ ops) x = rate_steps l ops (rate_step l op x)

-- As many rows count in the sets as in the ledger.
abbrev pub SameSets : ℕ → SortedSets → Ledger → Type 0
SameSets now sets ledger = (k : RateKey) → SameLive (window_of k) now (sets k) (ledger k)

pub SameSets-later :
    (now later : ℕ) (sets ledger : SortedSets)
    → now ≤ later
    → SameSets now sets ledger
    → SameSets later sets ledger
SameSets-later now later sets ledger le h k =
    SameLive-later (window_of k) now later (sets k) (ledger k) le (h k)

put_set-SameSets :
    (now : ℕ) (k : RateKey) (xs ys : List Entry) (sets ledger : SortedSets)
    → SameLive (window_of k) now xs ys
    → SameSets now sets ledger
    → SameSets now (put_set k xs sets) (put_set k ys ledger)
put_set-SameSets now k xs ys sets ledger new h j = elim (Bool-cases (j == k)) [
  | inr n ↦ rw n (h j)
  | inl y ↦
      rw y
        (subst (λ i. SameLive (window_of i) now xs ys) (sym ((rate_key_eq.equal_iff j k).0 y)) new)
]

put_trim-SameSets :
    (now : ℕ) (k : RateKey) (xs : List Entry) (sets ledger : SortedSets)
    → SameLive (window_of k) now xs (ledger k)
    → SameSets now sets ledger
    → SameSets now (put_set k xs sets) ledger
put_trim-SameSets now k xs sets ledger new h j = elim (Bool-cases (j == k)) [
  | inr n ↦ rw n (h j)
  | inl y ↦ rw y (
      subst (λ i. SameLive (window_of i) now xs (ledger i)) (sym ((rate_key_eq.equal_iff j k).0 y))
        new)
]

pub survey-SameSets :
    (l : RateLimits) (now : ℕ) (ks : List RateKey) (x : Survey) (ledger : SortedSets)
    → SameSets now x.sets ledger
    → SameSets now (survey now (rules_of l ks) x).sets ledger
unfolding survey survey_rule
survey-SameSets l now [] x ledger h = h
survey-SameSets l now (k ∷ ks) x ledger h =
    survey-SameSets l now ks (survey_rule now (rule_of l k) x) ledger (
      put_trim-SameSets now k _ x.sets ledger
        (SameLive-trim (window_of k) now (x.sets k) (ledger k) (h k)) h)

pub add_all-SameSets :
    (now at : ℕ) (token : String) (ks : List RateKey) (sets ledger : SortedSets)
    → SameSets now sets ledger
    → SameSets now (add_all at token ks sets) (add_all at token ks ledger)
unfolding add_all
add_all-SameSets now at token [] sets ledger h = h
add_all-SameSets now at token (k ∷ ks) sets ledger h = add_all-SameSets now at token ks _ _ (
    put_set-SameSets now k _ _ sets ledger
      (SameLive-zadd (window_of k) now at token (sets k) (ledger k) (h k)) h)

pub zrem_all-SameSets :
    (now : ℕ) (token : String) (ks : List RateKey) (sets ledger : SortedSets)
    → SameSets now sets ledger
    → SameSets now (zrem_all token ks sets) (zrem_all token ks ledger)
unfolding zrem_all
zrem_all-SameSets now token [] sets ledger h = h
zrem_all-SameSets now token (k ∷ ks) sets ledger h = zrem_all-SameSets now token ks _ _ (
    put_set-SameSets now k _ _ sets ledger
      (SameLive-zrem (window_of k) now token (sets k) (ledger k) (h k)) h)

entered-SameSets :
    (now : ℕ) (ip : String) (session : ℕ) (token : String) (sets : SortedSets) (ledger : Ledger)
    → SameSets now sets ledger
    → SameSets now
        (add_all now token (rate_keys ip session) sets)
        (entered now token ip session granted ledger)
unfolding add_all
entered-SameSets now ip session token sets ledger h (hour_ip a) = elim (Bool-cases (a == ip)) [
  | inr n ↦ rw n (h (hour_ip a))
  | inl y ↦
      rw ((string_eq.equal_iff a ip).0 y, (string_eq.equal_iff ip ip).1 refl)
        (SameLive-add 3600 now now token (sets (hour_ip ip)) (ledger (hour_ip ip)) (h (hour_ip ip)))
]
entered-SameSets now ip session token sets ledger h (day_ip a) = elim (Bool-cases (a == ip)) [
  | inr n ↦ rw n (h (day_ip a))
  | inl y ↦
      rw ((string_eq.equal_iff a ip).0 y, (string_eq.equal_iff ip ip).1 refl)
        (SameLive-add 86400 now now token (sets (day_ip ip)) (ledger (day_ip ip)) (h (day_ip ip)))
]
entered-SameSets now ip session token sets ledger h (day_session s) =
    elim (Bool-cases (s == session)) [
      | inr n ↦ rw n (h (day_session s))
      | inl y ↦
          rw ((nat_eq.equal_iff s session).0 y, (nat_eq.equal_iff session session).1 refl)
            (SameLive-add 86400 now now token (sets (day_session session))
              (ledger (day_session session)) (h (day_session session)))
    ]

forgotten-SameSets :
    (now : ℕ) (ip : String) (session : ℕ) (token : String) (sets : SortedSets) (ledger : Ledger)
    → SameSets now sets ledger
    → SameSets now
        (zrem_all token (rate_keys ip session) sets)
        (forgotten true token ip session ledger)
unfolding zrem_all
forgotten-SameSets now ip session token sets ledger h (hour_ip a) = elim (Bool-cases (a == ip)) [
  | inr n ↦ rw n (h (hour_ip a))
  | inl y ↦
      rw ((string_eq.equal_iff a ip).0 y, (string_eq.equal_iff ip ip).1 refl)
        (SameLive-zrem 3600 now token (sets (hour_ip ip)) (ledger (hour_ip ip)) (h (hour_ip ip)))
]
forgotten-SameSets now ip session token sets ledger h (day_ip a) = elim (Bool-cases (a == ip)) [
  | inr n ↦ rw n (h (day_ip a))
  | inl y ↦
      rw ((string_eq.equal_iff a ip).0 y, (string_eq.equal_iff ip ip).1 refl)
        (SameLive-zrem 86400 now token (sets (day_ip ip)) (ledger (day_ip ip)) (h (day_ip ip)))
]
forgotten-SameSets now ip session token sets ledger h (day_session s) =
    elim (Bool-cases (s == session)) [
      | inr n ↦ rw n (h (day_session s))
      | inl y ↦
          rw ((nat_eq.equal_iff s session).0 y, (nat_eq.equal_iff session session).1 refl)
            (SameLive-zrem 86400 now token (sets (day_session session))
              (ledger (day_session session)) (h (day_session session)))
    ]

pub rate_step-SameSets :
    (l : RateLimits) (op : RateOp) (x : Rated)
    → SameSets x.now x.sets x.ledger
    → SameSets (rate_step l op x).now (rate_step l op x).sets (rate_step l op x).ledger
unfolding rate_step reserve_rate
rate_step-SameSets l (releasing answers token ip session) x h = elim (Bool-cases answers) [
  | inl y ↦ rw y (forgotten-SameSets x.now ip session token x.sets x.ledger h)
  | inr n ↦ rw n h
]
rate_step-SameSets l (reserving elapsed ip session token) x h =
    elim (Bool-cases (any is_set (start.blocked))) [
      | inl y ↦ rw y surveyed
      | inr n ↦ rw n (entered-SameSets now ip session token start.sets x.ledger surveyed)
    ]
  where
    now : ℕ
    now = x.now + elapsed

    start : Survey
    start = survey now (rules_of l (rate_keys ip session)) (start_survey x.sets)

    surveyed : SameSets now start.sets x.ledger
    surveyed =
        survey-SameSets l now (rate_keys ip session) (start_survey x.sets) x.ledger
          (SameSets-later x.now now x.sets x.ledger (omega arith) h)

pub rate_steps-SameSets :
    (l : RateLimits) (ops : List RateOp) (x : Rated)
    → SameSets x.now x.sets x.ledger
    → SameSets (rate_steps l ops x).now (rate_steps l ops x).sets (rate_steps l ops x).ledger
unfolding rate_steps
rate_steps-SameSets l [] x h = h
rate_steps-SameSets l (op ∷ ops) x h =
    rate_steps-SameSets l ops (rate_step l op x) (rate_step-SameSets l op x h)

-- Before the first request.
abbrev pub no_sets : SortedSets
no_sets k = []

abbrev pub unused : Rated
unused = record { now = 0; sets = no_sets; ledger = no_sets }

-- ===== src/Public/Rate.antt =====
-- backend/app/public/admission.py: `_rate_keys`, the script of `_reserve_rate`, and `_release_rate`, on
-- the sorted sets that redis keeps for an address and a session. Times are whole seconds.
pub mod Counts
pub mod Ledger
pub mod Limit
pub mod SortedRows
pub mod Retry
pub mod Undo
use reviewlens_ai.Prelude.{
  ℕ, zero, suc, ◌+◌, ◌-◌, max, String, Bool, true, false, not, ◌&&◌, List, [], ◌∷◌, ◌++◌, ◌≡◌, ◌↔◌,
  arith, ltb, leb, eqb, ◌==◌, Eq, string_eq, nat_eq, any, filter, length, if◌then◌else◌,
}

-- A row of a sorted set.
pub record Entry : Type 0 where
  pub score : ℕ
  pub member : String

-- The keys "…:hour:ip:…", "…:day:ip:…" and "…:day:session:…".
pub data RateKey : Type 0 where
  hour_ip day_ip : String → RateKey
  day_session : ℕ → RateKey

abbrev pub same_rate_key : RateKey → RateKey → Bool
same_rate_key (hour_ip a) (hour_ip b) = a == b
same_rate_key (day_ip a) (day_ip b) = a == b
same_rate_key (day_session a) (day_session b) = a == b
same_rate_key _ _ = false

pub same_rate_key_iff : (a b : RateKey) → (same_rate_key a b ≡ true) ↔ (a ≡ b)
same_rate_key_iff (hour_ip a) (hour_ip b) = ground (arith, string_eq.equal_iff a b)
same_rate_key_iff (day_ip a) (day_ip b) = ground (arith, string_eq.equal_iff a b)
same_rate_key_iff (day_session a) (day_session b) = ground arith
same_rate_key_iff _ _ = ground arith

instance abbrev pub rate_key_eq : Eq RateKey
rate_key_eq = record { equal = same_rate_key; equal_iff = same_rate_key_iff }

-- The sorted set of each key, in the order of the scores.
abbrev pub SortedSets : Type 0
SortedSets = RateKey → List Entry

abbrev pub put_set : RateKey → List Entry → SortedSets → SortedSets
put_set k es sets j = if j == k then es else sets j

-- ZREM, ZADD and ZREMRANGEBYSCORE key -inf (now - window).
abbrev pub is_other : String → Entry → Bool
is_other token e = not (e.member == token)

abbrev pub zrem : String → List Entry → List Entry
zrem token es = filter (is_other token) es

unfoldable pub by_score : Entry → List Entry → List Entry
by_score e [] = e ∷ []
by_score e (f ∷ fs) =
    let rest = by_score e fs in if ltb e.score f.score then e ∷ f ∷ fs else f ∷ rest

abbrev pub zadd : ℕ → String → List Entry → List Entry
zadd now token es = by_score (record { score = now; member = token }) (zrem token es)

abbrev pub is_recent : ℕ → ℕ → Entry → Bool
is_recent now window e = ltb now (e.score + window)

abbrev pub trim : ℕ → ℕ → List Entry → List Entry
trim now window es = filter (is_recent now window) es

-- ZRANGE key i i WITHSCORES: the script asks only for a row that is there.
unfoldable pub score_at : ℕ → List Entry → ℕ
score_at i [] = 0
score_at zero (e ∷ es) = e.score
score_at (suc i) (e ∷ es) = score_at i es

-- The columns of BudgetPolicyVersion that limit how many analyses may start.
pub record RateLimits : Type 0 where
  pub public_runs_per_hour : ℕ
  pub public_runs_per_day : ℕ

pub record RateRule : Type 0 where
  pub key : RateKey
  pub window : ℕ
  pub limit : ℕ

abbrev pub window_of : RateKey → ℕ
window_of (hour_ip a) = 3600
window_of (day_ip a) = 86400
window_of (day_session s) = 86400

abbrev pub limit_of : RateLimits → RateKey → ℕ
limit_of l (hour_ip a) = l.public_runs_per_hour
limit_of l (day_ip a) = l.public_runs_per_day
limit_of l (day_session s) = l.public_runs_per_day

abbrev pub rule_of : RateLimits → RateKey → RateRule
rule_of l k = record { key = k; window = window_of k; limit = limit_of l k }

abbrev pub rate_keys : String → ℕ → List RateKey
rate_keys ip session = hour_ip ip ∷ day_ip ip ∷ day_session session ∷ []

abbrev rules_of : RateLimits → List RateKey → List RateRule
rules_of l [] = []
rules_of l (k ∷ ks) = rule_of l k ∷ rules_of l ks

-- The variables of the script's first loop.
pub record Survey : Type 0 where
  pub sets : SortedSets
  pub blocked : List Bool
  pub retry_at : ℕ

unfoldable pub survey_rule : ℕ → RateRule → Survey → Survey
unfolding score_at
survey_rule now r x =
    let es = trim now r.window (x.sets r.key) in
    let full = leb r.limit (length es) in
    record {
      sets = put_set r.key es x.sets;
      blocked = x.blocked ++ (full ∷ []);
      retry_at =
          if full && ltb 0 r.limit
          then max x.retry_at (score_at (length es - r.limit) es + r.window)
          else x.retry_at;
    }

unfoldable pub survey : ℕ → List RateRule → Survey → Survey
unfolding survey_rule
survey now [] x = x
survey now (r ∷ rs) x = survey now rs (survey_rule now r x)

abbrev pub start_survey : SortedSets → Survey
start_survey sets = record { sets = sets; blocked = []; retry_at = 0 }

-- The second loop. EXPIRE comes after the window, when no row of the set counts any more.
unfoldable pub add_all : ℕ → String → List RateKey → SortedSets → SortedSets
unfolding by_score
add_all now token [] sets = sets
add_all now token (k ∷ ks) sets = add_all now token ks (put_set k (zadd now token (sets k)) sets)

pub data RateReply : Type 0 where
  granted : RateReply
  refused : ℕ → List Bool → RateReply

abbrev pub is_set : Bool → Bool
is_set b = b

unfoldable pub reserve_rate :
    RateLimits → ℕ → String → ℕ → String → SortedSets → RateReply × SortedSets
unfolding survey add_all
reserve_rate l now ip session token sets =
    let ks = rate_keys ip session in
    let x = survey now (rules_of l ks) (start_survey sets) in
    if any is_set x.blocked
    then (refused x.retry_at x.blocked, x.sets)
    else (granted, add_all now token ks x.sets)

unfoldable pub zrem_all : String → List RateKey → SortedSets → SortedSets
zrem_all token [] sets = sets
zrem_all token (k ∷ ks) sets = zrem_all token ks (put_set k (zrem token (sets k)) sets)

-- What redis does not answer stays reserved.
abbrev pub release_rate : Bool → String → List RateKey → SortedSets → SortedSets
release_rate answers token ks sets = if answers then zrem_all token ks sets else sets

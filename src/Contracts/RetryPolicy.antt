-- ===== src/Contracts/RetryPolicy.antt =====
-- backend/app/runtime/contracts.py: `RetryPolicy`. Delays are whole microseconds; the jitter ratio
-- and the random sample are parts per million. The source computes in floats: here the product is
-- exact, and the result is rounded down to a microsecond.
pub mod Delay
use Prim.Native.Nat.{◌/◌}
use reviewlens_ai.Prelude.{
  ℕ, ◌+◌, ◌-◌, ◌*◌, ◌^◌, min, String, Bool, true, not, List, [], ◌∷◌, ltb, leb, ◌==◌, contains,
  if◌then◌else◌, ◌&&◌, ◌||◌, nat_eq, string_eq,
}
use reviewlens_ai.Runtime.Result.{Result, ok, guard, ◌>>=◌, ◌>>◌, value_error, overflow_error}

pub record RetryPolicy : Type 0 where
  pub max_attempts : ℕ
  pub base_delay : ℕ
  pub max_delay : ℕ
  pub jitter_ratio : ℕ
  pub retryable_categories : List String

abbrev pub million : ℕ
million = 1000000

-- The defaults of the fields.
abbrev pub default_policy : RetryPolicy
default_policy = record {
  max_attempts = 1;
  base_delay = million;
  max_delay = 30 * million;
  jitter_ratio = 100000;
  retryable_categories = "transient" ∷ "timeout" ∷ "worker_interrupted" ∷ [];
}

-- `len(set(xs)) == len(xs)`.
unfoldable pub unique : List String → Bool
unique [] = true
unique (x ∷ xs) = not (contains xs x) && unique xs

-- The field bounds and `validate_delays`.
unfoldable pub valid_policy : RetryPolicy → Bool
unfolding unique
valid_policy p =
    leb 1 p.max_attempts
    && leb p.max_attempts 10
    && leb p.base_delay (300 * million)
    && leb p.max_delay (900 * million)
    && leb p.jitter_ratio million
    && not (ltb p.max_delay p.base_delay)
    && unique p.retryable_categories

-- `min(max_delay, base_delay * 2 ** (attempt_number - 1))`.
unfoldable pub raw_delay : RetryPolicy → ℕ → ℕ
raw_delay p attempt_number = min p.max_delay (p.base_delay * 2 ^ (attempt_number - 1))

-- raw * (1 + (2 * sample - 1) * ratio), at least 0: truncated subtraction is `max(0.0, ...)`.
unfoldable pub jittered : ℕ → ℕ → ℕ → ℕ
jittered raw ratio sample =
    raw * (million * million + 2 * sample * ratio - million * ratio) / (million * million)

-- The ValueError is "attempt_number must be positive". From the attempt 1025 on the power of two, an
-- int, is too large to be multiplied with a float.
unfoldable pub delay_for_attempt : RetryPolicy → ℕ → ℕ → Result ℕ
unfolding raw_delay jittered
delay_for_attempt p attempt_number sample =
    let raw = raw_delay p attempt_number in
    do
      guard (not (ltb attempt_number 1)) value_error
      guard (leb attempt_number 1024) overflow_error
      if raw == 0 || p.jitter_ratio == 0 then ok raw else ok (jittered raw p.jitter_ratio sample)

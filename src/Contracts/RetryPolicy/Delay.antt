-- ===== src/Contracts/RetryPolicy/Delay.antt =====
-- What `RetryPolicy.delay_for_attempt` returns.
use native.Mathlib.Nat.{pow-suc}
use reviewlens_ai.Prelude.{
  Bool, Bool-cases, inl, inr, ◌||◌, ◌==◌, nat_eq, ℕ, zero, suc, ◌+◌, ◌-◌, ◌*◌, ◌^◌, ◌≤◌, ◌<◌, min,
  ◌≡◌, refl, sym, subst, true, false, arith,
}
use reviewlens_ai.Runtime.Result.{ok}
use reviewlens_ai.Contracts.RetryPolicy.{
  RetryPolicy, million, valid_policy, raw_delay, jittered, delay_for_attempt,
}

factor_le :
    (ratio sample : ℕ)
    → sample ≤ million
    → ratio ≤ million
    → 2 * sample * ratio ≤ 2 * million * ratio
factor_le ratio sample h k = grind arith

mul_mono : (raw f g : ℕ) → f ≤ g → raw * f ≤ raw * g
mul_mono raw f g h = grind arith

jittered_upper :
    (raw ratio sample : ℕ)
    → sample ≤ million
    → ratio ≤ million
    → jittered raw ratio sample * (million * million) ≤ raw * (million * million + million * ratio)
unfolding jittered
jittered_upper raw ratio sample h k =
    let f : ℕ = million * million + 2 * sample * ratio - million * ratio in
    let g : ℕ = million * million + million * ratio in
    let fg : f ≤ g = omega (arith, factor_le ratio sample h k) in omega (arith, mul_mono raw f g fg)

jittered_lower :
    (raw ratio sample : ℕ)
    → raw * (million * (million - ratio))
      < jittered raw ratio sample * (million * million) + million * million
unfolding jittered
jittered_lower raw ratio sample =
    let f : ℕ = million * million + 2 * sample * ratio - million * ratio in
    let g : ℕ = million * (million - ratio) in
    let gf : g ≤ f = omega arith in omega (arith, mul_mono raw g f gf)

plain : RetryPolicy → ℕ → Bool
plain p n = raw_delay p n == 0 || p.jitter_ratio == 0

-- The delay of the first attempt, doubled for each further one until it meets the maximal delay.
unfoldable pub doubled : RetryPolicy → ℕ → ℕ
doubled p zero = p.base_delay
doubled p (suc k) = min p.max_delay (2 * doubled p k)

double_pow : (b k : ℕ) → b * 2 ^ suc k ≡ 2 * (b * 2 ^ k)
double_pow b k = rw (pow-suc 2 k) (grind arith)

raw_delay-suc :
    (p : RetryPolicy) (k : ℕ) → raw_delay p (suc k) ≡ min p.max_delay (p.base_delay * 2 ^ k)
unfolding raw_delay
raw_delay-suc p k = let e : suc k - 1 ≡ k = omega arith in rw e refl

raw_delay-doubled :
    (p : RetryPolicy) (k : ℕ) → p.base_delay ≤ p.max_delay → raw_delay p (suc k) ≡ doubled p k
unfolding raw_delay doubled
raw_delay-doubled p zero h = omega arith
raw_delay-doubled p (suc k) h =
    rw (sym (raw_delay-doubled p k h), raw_delay-suc p k, raw_delay-suc p (suc k))
      (omega (arith, double_pow p.base_delay k))

delay-plain :
    (p : RetryPolicy) (n sample : ℕ)
    → 1 ≤ n
    → n ≤ 1024
    → plain p n ≡ true
    → delay_for_attempt p n sample ≡ ok (raw_delay p n)
unfolding plain delay_for_attempt
delay-plain p n sample h l e = ground arith

delay-jittered :
    (p : RetryPolicy) (n sample : ℕ)
    → 1 ≤ n
    → n ≤ 1024
    → plain p n ≡ false
    → delay_for_attempt p n sample ≡ ok (jittered (raw_delay p n) p.jitter_ratio sample)
unfolding plain delay_for_attempt
delay-jittered p n sample h l e = ground arith

valid_ratio : (p : RetryPolicy) → valid_policy p ≡ true → p.jitter_ratio ≤ million
unfolding valid_policy
valid_ratio p v = ground arith

valid_base : (p : RetryPolicy) → valid_policy p ≡ true → p.base_delay ≤ p.max_delay
unfolding valid_policy
valid_base p v = ground arith

-- The delay `d` is within the jitter ratio of `raw`, rounded down to a microsecond.
pub record IsJittered (p : RetryPolicy) (raw d : ℕ) : Type 0 where
  pub upper : d * million ≤ raw * (million + p.jitter_ratio)
  pub lower : raw * (million - p.jitter_ratio) < (d + 1) * million

-- With a valid policy and a sample in [0, 1], the first 1024 attempts have a delay: within the jitter
-- ratio, and rounded down to a microsecond, of the base delay doubled for each attempt after the first
-- until it meets the maximal delay.
pub delay_for_attempt_bounds :
    (p : RetryPolicy) (k sample : ℕ)
    → valid_policy p ≡ true
    → k < 1024
    → sample ≤ million
    → (d : ℕ) × (delay_for_attempt p (suc k) sample ≡ ok d) × IsJittered p (doubled p k) d
delay_for_attempt_bounds p k sample v l s =
    subst (λ raw. (d : ℕ) × (delay_for_attempt p (suc k) sample ≡ ok d) × IsJittered p raw d)
      (raw_delay-doubled p k (valid_base p v))
      (elim (Bool-cases (plain p (suc k))) [
        | inl e ↦ (
          raw_delay p (suc k),
          delay-plain p (suc k) sample (omega arith) (omega arith) e,
          record {
            upper = mul_mono (raw_delay p (suc k)) _ _ (omega arith);
            lower = omega (
              arith,
              mul_mono (raw_delay p (suc k)) (million - p.jitter_ratio) million (omega arith),
            );
          },
        )
        | inr e ↦ (
          jittered (raw_delay p (suc k)) p.jitter_ratio sample,
          delay-jittered p (suc k) sample (omega arith) (omega arith) e,
          record {
            upper = omega (
              arith,
              jittered_upper (raw_delay p (suc k)) p.jitter_ratio sample s (valid_ratio p v),
            );
            lower = omega (arith, jittered_lower (raw_delay p (suc k)) p.jitter_ratio sample);
          },
        )
      ])

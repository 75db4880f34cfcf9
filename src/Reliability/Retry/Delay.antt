-- ===== src/Reliability/Retry/Delay.antt =====
-- calculateDelay of pkg/reliability/retry.go. Go's float64 and the functions of package math are
-- the parameter `Float`; what the bound rests on is stated of them in `FloatLaws`.
use matrimail.Prelude.{ℕ, ◌^◌, ◌<◌, ◌≡◌, Bool, false, ◌||◌, if◌then◌else◌, arith}
use matrimail.Prelude.Int.{ℤ, pos, ◌≤ℤ◌}

pub record Float : Type 1 where
  pub F : Type 0
  -- float64(n) and time.Duration(x)
  pub of_int : ℤ → F
  pub to_int : F → ℤ
  pub add : F → F → F
  pub mul : F → F → F
  pub div : F → F → F
  pub lt : F → F → Bool
  pub le : F → F → Bool
  pub log : F → F
  pub exp : F → F
  pub is_nan : F → Bool
  pub is_inf : F → Bool
  -- the constants 0, 1.0, 2.0 and 0.25
  pub zero_ : F
  pub one : F
  pub two : F
  pub quarter : F

module _ (f : Float) where
  open f use {
    F, of_int, to_int, add, mul, div, lt, log, exp, is_nan, is_inf, zero_, one, two, quarter,
  }

  -- Durations are in nanoseconds.
  pub record RetryConfig : Type 0 where
    pub max_attempts : ℤ
    pub initial_delay : ℤ
    pub max_delay : ℤ
    pub backoff_factor : F
    pub jitter : Bool

  exceeds : F → F → Bool
  exceeds x y = lt y x

  -- c.InitialDelay * BackoffFactor ^ attempt, or MaxDelay where that overflows or is larger.
  backoff : RetryConfig → ℕ → F
  unfolding exceeds
  backoff c attempt =
      let max_ = of_int c.max_delay in
      let e = mul (of_int (pos attempt)) (log c.backoff_factor) in
      let max_e = log (div max_ (of_int c.initial_delay)) in
      let multiplier = exp e in
      let delay = mul (of_int c.initial_delay) multiplier in
      if is_nan e || (is_inf e || exceeds e max_e)
      then max_
      else if is_nan multiplier || is_inf multiplier
      then max_
      else if exceeds delay max_
      then max_
      else delay

  -- `random` is what secureRandFloat64 returns.
  add_jitter : RetryConfig → F → F → F
  unfolding exceeds
  add_jitter c random delay =
      let jittered = add delay (mul random (mul delay quarter)) in
      if c.jitter
      then (if exceeds jittered (of_int c.max_delay) then of_int c.max_delay else jittered)
      else delay

  to_duration : RetryConfig → F → ℤ
  to_duration c delay =
      to_int
        (if is_nan delay || (is_inf delay || lt delay zero_) then of_int c.max_delay else delay)

  unfoldable pub calculate_delay : RetryConfig → ℕ → F → ℤ
  unfolding backoff add_jitter to_duration
  calculate_delay c attempt random = to_duration c (add_jitter c random (backoff c attempt))

  -- IEEE 754 comparison and Go's conversions, as far as the bound on a delay needs them: an int of at
  -- most 53 bits is converted without loss, and truncation is monotone on the floats from 0 up to such
  -- an int. Of a conversion out of the range of int64 nothing is asked.
  pub record FloatLaws : Type 0 where
    pub exact : (n : ℕ) → n < 2 ^ 53 → to_int (of_int (pos n)) ≡ pos n
    pub finite : (n : ℕ) → (is_nan (of_int (pos n)) ≡ false) × (is_inf (of_int (pos n)) ≡ false)
    pub irreflexive : (x : F) → lt x x ≡ false
    pub monotone :
        (n : ℕ) (x y : F)
        → n < 2 ^ 53
        → is_nan x ≡ false
        → is_nan y ≡ false
        → lt x zero_ ≡ false
        → lt y x ≡ false
        → lt (of_int (pos n)) y ≡ false
        → to_int x ≤ℤ to_int y
    pub nonnegative :
        (n : ℕ) (x : F)
        → n < 2 ^ 53
        → is_nan x ≡ false
        → lt x zero_ ≡ false
        → lt (of_int (pos n)) x ≡ false
        → pos 0 ≤ℤ to_int x

  module _ (laws : FloatLaws) (c : RetryConfig) (max_ : ℕ) (is_max : c.max_delay ≡ pos max_) where
    backoff_capped : (attempt : ℕ) → lt (of_int c.max_delay) (backoff c attempt) ≡ false
    unfolding backoff
    backoff_capped attempt = ground (arith, laws.irreflexive (of_int c.max_delay))

    add_jitter_capped :
        (random delay : F)
        → lt (of_int c.max_delay) delay ≡ false
        → lt (of_int c.max_delay) (add_jitter c random delay) ≡ false
    unfolding add_jitter
    add_jitter_capped random delay h = ground (arith, laws.irreflexive (of_int c.max_delay))

    to_duration_bounds :
        (delay : F)
        → max_ < 2 ^ 53
        → lt (of_int c.max_delay) delay ≡ false
        → (pos 0 ≤ℤ to_duration c delay) × (to_duration c delay ≤ℤ c.max_delay)
    unfolding to_duration
    to_duration_bounds delay small h = rw is_max (
        ground (
          arith,
          is_max,
          laws.exact max_ small,
          laws.finite max_,
          laws.irreflexive (of_int (pos max_)),
          laws.nonnegative max_ delay small,
          laws.monotone max_ delay (of_int (pos max_)) small,
        ))

    -- Whatever the attempt, the configured factor and the random number, the delay is not
    -- negative and not above MaxDelay (below 2^53 nanoseconds, some 104 days), jitter included.
    pub calculate_delay_bounds :
        (attempt : ℕ) (random : F)
        → max_ < 2 ^ 53
        → (pos 0 ≤ℤ calculate_delay c attempt random)
          × (calculate_delay c attempt random ≤ℤ c.max_delay)
    calculate_delay_bounds attempt random small =
        unfold calculate_delay in
        to_duration_bounds _ small
          (add_jitter_capped random (backoff c attempt) (backoff_capped attempt))

-- ===== src/Reliability/Retry/Loop.antt =====
-- RetryWithBackoff of pkg/reliability/retry.go. What the protected function, the context and the
-- timer do at each attempt is an `Environment`; a run records how often the function was called
-- and how long each wait was asked to be.
pub mod Steps
pub mod Outcome
pub mod Waits
use matrimail.Prelude.{
  if◌then◌else◌, not, zero, ◌&&◌, false, [], ◌+◌, some, true, List, ℕ, none, ◌∷◌, Option, ◌*◌, Bool,
  suc,
}
use matrimail.Prelude.Int.{ℤ, pos, pos_part, leb_ℤ, ltb_ℤ}
use matrimail.Reliability.Breaker.{Error, circuit_breaker_open, too_many_requests}
use matrimail.Reliability.Retry.{ℕ, none, ◌∷◌, Option, Bool, should_retry}
use matrimail.Reliability.Retry.Delay.{Float, RetryConfig, calculate_delay}

pub record Run : Type 0 where
  pub result : Option Error
  pub calls : ℕ
  pub waits : List ℤ

abbrev pub second : ℕ
second = 1_000_000_000

-- 2*time.Minute + 30*time.Second
abbrev pub circuit_breaker_wait : ℤ
circuit_breaker_wait = pos (150 * second)

abbrev pub is_breaker_error : Error → Bool
is_breaker_error circuit_breaker_open = true
is_breaker_error too_many_requests = true
is_breaker_error _ = false

abbrev pub stop : Option Error → Run
stop r = record { result = r; calls = 0; waits = [] }

abbrev pub called : Run → Run
called r = record r { calls = suc r.calls }

abbrev pub waited : ℤ → Run → Run
waited d r = record r { waits = d ∷ r.waits }

module _ (f : Float) where
  open f use {F, le, one, two}

  pub record Environment : Type 0 where
    -- what `fn` returns at each attempt
    pub outcome : ℕ → Option Error
    -- `ctx.Err()` after that attempt
    pub ctx_err : ℕ → Option Error
    -- the `select` behind it: `none` if the timer fires, or the context's error
    pub wake : ℕ → Option Error
    pub random : ℕ → F

  unfoldable pub default_retry_config : RetryConfig f
  default_retry_config = record {
    max_attempts = pos 3;
    initial_delay = pos 100_000_000;
    max_delay = pos (30 * second);
    backoff_factor = two;
    jitter = true;
  }

  unfoldable pub network_retry_config : RetryConfig f
  network_retry_config = record {
    max_attempts = pos 5;
    initial_delay = pos 250_000_000;
    max_delay = pos (60 * second);
    backoff_factor = two;
    jitter = true;
  }

  unfoldable pub idle_startup_retry_config : RetryConfig f
  idle_startup_retry_config = record {
    max_attempts = pos 3;
    initial_delay = pos 500_000_000;
    max_delay = pos (5 * second);
    backoff_factor = two;
    jitter = true;
  }

  -- a field that is not positive takes the default
  or_default : ℤ → ℕ → ℤ
  or_default value default = if leb_ℤ value (pos 0) then pos default else value

  -- the validation at the head of RetryWithBackoff
  unfoldable pub validate : RetryConfig f → RetryConfig f
  unfolding or_default
  validate c =
      let initial = or_default c.initial_delay 100_000_000 in
      let max_ = or_default c.max_delay (30 * second) in
      record {
        max_attempts = or_default c.max_attempts 1;
        initial_delay = initial;
        max_delay = if ltb_ℤ max_ initial then initial else max_;
        backoff_factor = if le c.backoff_factor one then two else c.backoff_factor;
        jitter = c.jitter;
      }

  -- the delay, stretched for the errors of the circuit breaker
  unfoldable pub wait_for : RetryConfig f → ℕ → F → Error → ℤ
  wait_for c attempt random err =
      let delay = calculate_delay f c attempt random in
      if is_breaker_error err && ltb_ℤ delay circuit_breaker_wait
      then circuit_breaker_wait
      else delay

  module _ (env : Environment) (c : RetryConfig f) where
    on_wake : Option Error → ℤ → Run → Run
    on_wake none delay rest = waited delay rest
    on_wake (some e) delay rest = waited delay (stop (some e))

    on_ctx : Option Error → ℕ → Error → Run → Run
    unfolding on_wake
    on_ctx none attempt err rest =
        on_wake (env.wake attempt) (wait_for c attempt (env.random attempt) err) rest
    on_ctx (some e) attempt err rest = stop (some e)

    -- What follows a failed call; `left` attempts remain and `rest` is what they do.
    after_failure : ℕ → ℕ → Error → Run → Run
    unfolding on_ctx
    after_failure zero attempt err rest = stop (some err)
    after_failure (suc left) attempt err rest =
        if not (should_retry (some err))
        then stop (some err)
        else on_ctx (env.ctx_err attempt) attempt err rest

    after_call : ℕ → ℕ → Option Error → Run → Run
    unfolding after_failure
    after_call left attempt none rest = stop none
    after_call left attempt (some err) rest = after_failure left attempt err rest

    -- The loop with `left` attempts to go; `last_err` is the error of the attempt before.
    unfoldable pub attempts : ℕ → ℕ → Option Error → Run
    unfolding after_call
    attempts zero attempt last_err = stop last_err
    attempts (suc left) attempt last_err =
        let err = env.outcome attempt in
        let rest = attempts left (attempt + 1) err in called (after_call left attempt err rest)

  unfoldable pub retry_with_backoff : Environment → RetryConfig f → Run
  unfolding attempts validate
  retry_with_backoff env c =
      let c' = validate c in attempts env c' (pos_part c'.max_attempts) 0 none

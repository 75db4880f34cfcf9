-- ===== src/Reliability/Retry/Loop/Outcome.antt =====
-- What a run of RetryWithBackoff returns, how often it calls and how long it waits.
use matrimail.Prelude.{◌-◌, suc, none, arith, ◌+◌, ◌≡◌, ◌<◌, ◌≤◌, ℕ}
use matrimail.Prelude.Int.{pos_part}
use matrimail.Reliability.Retry.{ℕ}
use matrimail.Reliability.Retry.Delay.{Float, RetryConfig}
use matrimail.Reliability.Retry.Loop.{Environment, validate, attempts, retry_with_backoff}
use matrimail.Reliability.Retry.Loop.Steps.{
  allowed, IsFinal, IsRetried, IsPatient, Succeeded, calls_le, calls_pos, attempts_settle,
  attempts_exhaust, attempts-none,
}

module _ (f : Float) (env : Environment f) (c : RetryConfig f) where
  allowed-validate : pos_part (validate f c).max_attempts ≡ allowed c.max_attempts
  unfolding validate
  allowed-validate = ground arith

  run-validate :
      retry_with_backoff f env c ≡ attempts f env (validate f c) (allowed c.max_attempts) 0 none
  unfolding retry_with_backoff
  run-validate = unfold attempts in rw allowed-validate

  -- RetryWithBackoff calls the function at least once and at most MaxAttempts times (once, if
  -- MaxAttempts is not positive), whatever the function, the context and the timers do.
  pub retry_with_backoff-calls :
      (1 ≤ (retry_with_backoff f env c).calls)
      × ((retry_with_backoff f env c).calls ≤ allowed c.max_attempts)
  retry_with_backoff-calls =
      let last = pos_part c.max_attempts - 1 in
      rw run-validate (
        calls_pos f env (validate f c) last 0 none,
        calls_le f env (validate f c) (suc last) 0 none,
      )

  -- It returns nil only if its last call did, after calls that all failed with an error worth a
  -- retry; cancellation and exhaustion are never reported as success.
  pub retry_with_backoff-none :
      (retry_with_backoff f env c).result ≡ none
      → Succeeded f env 0 (retry_with_backoff f env c).calls
  retry_with_backoff-none h = rw run-validate (
      attempts-none f env (validate f c) (pos_part c.max_attempts - 1) 0 none
        (rw run-validate at h))

  -- If nothing is cancelled, it ends at the first outcome that is nil or not worth a retry, and
  -- returns that outcome.
  pub retry_with_backoff-settles :
      (m : ℕ)
      → IsPatient f env
      → m < allowed c.max_attempts
      → IsFinal (env.outcome m)
      → ((j : ℕ) → j < m → IsRetried (env.outcome j))
      → ((retry_with_backoff f env c).result ≡ env.outcome m)
        × ((retry_with_backoff f env c).calls ≡ m + 1)
  retry_with_backoff-settles m p lt fin earlier =
      let (r, k) =
        attempts_settle f env (validate f c) (allowed c.max_attempts) 0 m none p (omega arith)
          (omega arith) fin (λ j _ b. earlier j b) in
      rw run-validate (r, omega (arith, k))

  -- If nothing is cancelled and every outcome before the last attempt's is an error worth a
  -- retry, it makes all the attempts and returns what the last one did.
  pub retry_with_backoff-exhausts :
      (m : ℕ)
      → IsPatient f env
      → allowed c.max_attempts ≡ m + 1
      → ((j : ℕ) → j < m → IsRetried (env.outcome j))
      → ((retry_with_backoff f env c).result ≡ env.outcome m)
        × ((retry_with_backoff f env c).calls ≡ m + 1)
  retry_with_backoff-exhausts m p e all =
      let (r, k) =
        attempts_exhaust f env (validate f c) (pos_part c.max_attempts - 1) 0 m none p (omega arith)
          (λ j _ b. all j b) in
      rw run-validate (r, omega (arith, k))

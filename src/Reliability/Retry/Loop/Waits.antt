-- ===== src/Reliability/Retry/Loop/Waits.antt =====
-- How long RetryWithBackoff waits between its attempts.
use matrimail.Prelude.{ℕ, ◌*◌}
use Prim.Native.Nat.{max}
use matrimail.Prelude.Int.{ℤ, pos, ◌≤ℤ◌}
use matrimail.Reliability.Retry.Loop.{second}

-- Between 0 and the larger of MaxDelay and the wait for the circuit breaker.
abbrev pub IsWait : ℕ → ℤ → Type 0
IsWait m d = (pos 0 ≤ℤ d) × (d ≤ℤ pos (max m (150 * second)))

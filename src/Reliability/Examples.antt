-- ===== src/Reliability/Examples.antt =====
-- pkg/reliability at concrete inputs: a breaker that opens, probes and closes, the race of its late
-- decrement, and runs of the retry loop over an integer stand-in for float64.
use matrimail.Prelude.{
  List, Option, [], any, arith, codes, false, inl, none, refl, some, suc, true, zero, ℕ, ◌<◌, ◌∷◌,
  ◌≡◌, ◌≢◌, ◌≤◌,
}
use matrimail.Prelude.Int.{ℤ, pos, ◌≤ℤ◌, ltb_ℤ, leb_ℤ}
use matrimail.Reliability.Breaker.{
  closed, half_open, Breaker, Error, circuit_breaker_open, failed, new, execute, add_request,
  drop_request, try_half_open, record_result,
}
use matrimail.Reliability.Breaker.Invariant.{IsValid}
use matrimail.Reliability.Breaker.Sequential.{
  IsQuiet, Call, execute_all, spec_all, view, execute_all-spec_all,
}
use matrimail.Reliability.Breaker.Interleaving.{
  start, calling, System, Move, go, again, step, moves, moves-IsValid, failures_in_a_row,
  late_drop_admits,
}
use matrimail.Reliability.Retry.{categorize_error, contains_fold, message, should_retry, mentions}
use matrimail.Reliability.Retry.Delay.{
  Float, FloatLaws, RetryConfig, calculate_delay, calculate_delay_bounds,
}
use matrimail.Reliability.Retry.Loop.{Environment, retry_with_backoff}
use matrimail.Reliability.Retry.Loop.Steps.{IsPatient, allowed, Succeeded}
use matrimail.Reliability.Retry.Loop.Outcome.{
  retry_with_backoff-calls, retry_with_backoff-none, retry_with_backoff-settles,
  retry_with_backoff-exhausts,
}
use matrimail.Prelude.Strings.{contains, to_lower}

-- Opens at the first failure, and probes after more than 10 ns.
abbrev fresh : Breaker
fresh = record {
  max_failures = 1;
  timeout = 10;
  failures = 0;
  last_failure_time = 0;
  state = closed;
  max_half_open_requests = 1;
  half_open_requests = 0;
  state_change_callback = false;
}

new-fresh : (new 1 10 ≡ some fresh) × (new 0 10 ≡ none) × (new 1 0 ≡ none)
unfolding new
new-fresh = (refl, refl, refl)

abbrev oops : Error
oops = failed (codes "i/o timeout")

abbrev call_at : ℕ → Option Error → Call
call_at t e = record { read = t; locked = t; now = t; err = e }

abbrev calls : List Call
calls = call_at 5 (some oops) ∷ call_at 9 none ∷ call_at 20 none ∷ []

three_calls :
    (execute_all fresh calls).1
    ≡ (some oops, true) ∷ (some circuit_breaker_open, false) ∷ (none, true) ∷ []
unfolding execute_all execute add_request drop_request try_half_open record_result
three_calls = refl

fresh-IsQuiet : IsQuiet fresh
fresh-IsQuiet = ground arith

execute_all-spec_all_example :
    (view (execute_all fresh calls).0 ≡ (spec_all 1 10 (view fresh) calls).0)
    × ((execute_all fresh calls).1 ≡ (spec_all 1 10 (view fresh) calls).1)
execute_all-spec_all_example = execute_all-spec_all fresh calls fresh-IsQuiet (omega arith)

abbrev idle : System
idle = record { breaker = fresh; place = λ i. start }

abbrev go_times : ℕ → ℕ → ℕ → Option Error → List Move → List Move
go_times zero i now err ms = ms
go_times (suc n) i now err ms = go i now err ∷ go_times n i now err ms

-- Goroutine 0 opens the breaker, becomes the probe at 20, fails and is held up before its
-- decrement; goroutine 1 becomes the probe at 40; goroutine 2 is about to ask.
abbrev schedule : List Move
schedule =
    go_times 4 0 1 (some oops)
      (again 0 ∷ go_times 6 0 20 (some oops) (go_times 5 1 40 none (go_times 2 2 40 none [])))

abbrev held_up : System
held_up = moves idle schedule

-- Two goroutines are in the protected function of a half-open breaker that allows one.
two_probes :
    let s = moves held_up (go 0 40 none ∷ go 2 40 none ∷ []) in
    (s.breaker.state ≡ half_open) × (s.place 1 ≡ calling true) × (s.place 2 ≡ calling true)
unfolding moves step add_request drop_request try_half_open record_result
two_probes = (refl, refl, refl)

moves-IsValid_example :
    ((moves idle schedule).breaker.failures ≡ failures_in_a_row idle schedule 0)
    × IsValid (moves idle schedule).breaker
    × ((moves idle schedule).breaker.state ≢ closed
        → (moves idle schedule).breaker.max_failures ≤ failures_in_a_row idle schedule 0)
moves-IsValid_example = moves-IsValid idle schedule (ground arith)

late_drop_admits_example :
    let t = moves held_up (go 0 40 none ∷ go 2 40 none ∷ []) in
    (t.breaker.state ≡ half_open)
    × (t.place 1 ≡ calling true)
    × (t.place 2 ≡ calling true)
    × (◌≢◌ {A = ℕ} 1 2)
unfolding moves step add_request drop_request try_half_open record_result
late_drop_admits_example =
    late_drop_admits held_up 0 1 2 40 (some oops) none refl refl refl refl refl refl

-- Integers for float64: exact, never NaN or infinite.
abbrev int_float : Float
int_float = record {
  F = ℤ;
  of_int = λ n. n;
  to_int = λ x. x;
  add = λ x y. x;
  mul = λ x y. x;
  div = λ x y. x;
  lt = ltb_ℤ;
  le = leb_ℤ;
  log = λ x. x;
  exp = λ x. x;
  is_nan = λ x. false;
  is_inf = λ x. false;
  zero_ = pos 0;
  one = pos 1;
  two = pos 2;
  quarter = pos 0;
}

int_irreflexive : (x : ℤ) → ltb_ℤ x x ≡ false
int_irreflexive x = ground arith

int_monotone : (x y : ℤ) → ltb_ℤ y x ≡ false → x ≤ℤ y
int_monotone x y h = ground arith

int_laws : FloatLaws int_float
int_laws = record {
  exact = λ n h. refl;
  finite = λ n. (refl, refl);
  irreflexive = int_irreflexive;
  monotone = λ n x y _ _ _ _ h _. int_monotone x y h;
  nonnegative = λ n x _ _ h _. int_monotone (pos 0) x h;
}

abbrev config : RetryConfig int_float
config = record {
  max_attempts = pos 3;
  initial_delay = pos 100;
  max_delay = pos 1000;
  backoff_factor = pos 2;
  jitter = true;
}

-- Fails by a timeout at its first two calls, then succeeds.
abbrev flaky : ℕ → Option Error
flaky zero = some oops
flaky (suc zero) = some oops
flaky _ = none

abbrev env : Environment int_float
env = record { outcome = flaky; ctx_err = λ n. none; wake = λ n. none; random = λ n. pos 0 }

flaky_run :
    ((retry_with_backoff int_float env config).result ≡ none)
    × ((retry_with_backoff int_float env config).calls ≡ 3)
unfolding retry_with_backoff should_retry categorize_error mentions any contains_fold contains
    to_lower message
flaky_run = (refl, refl)

calculate_delay_bounds_example :
    (pos 0 ≤ℤ calculate_delay int_float config 1 (pos 0))
    × (calculate_delay int_float config 1 (pos 0) ≤ℤ pos 1000)
calculate_delay_bounds_example =
    calculate_delay_bounds int_float int_laws config 1000 refl 1 (pos 0) (omega arith)

retry_with_backoff-calls_example :
    (1 ≤ (retry_with_backoff int_float env config).calls)
    × ((retry_with_backoff int_float env config).calls ≤ allowed (pos 3))
retry_with_backoff-calls_example = retry_with_backoff-calls int_float env config

retry_with_backoff-none_example :
    Succeeded int_float env 0 (retry_with_backoff int_float env config).calls
retry_with_backoff-none_example = retry_with_backoff-none int_float env config flaky_run.0

flaky_IsRetried : (j : ℕ) → j < 2 → (flaky j ≢ none) × (should_retry (flaky j) ≡ true)
unfolding should_retry categorize_error mentions any contains_fold contains to_lower message
flaky_IsRetried zero h = (λ e. cc, refl)
flaky_IsRetried (suc zero) h = (λ e. cc, refl)
flaky_IsRetried (suc (suc j)) h = absurd (omega arith)

IsPatient_env : IsPatient int_float env
IsPatient_env = record { live = λ n. refl; fires = λ n. refl }

retry_with_backoff-settles_example :
    ((retry_with_backoff int_float env config).result ≡ none)
    × ((retry_with_backoff int_float env config).calls ≡ 3)
retry_with_backoff-settles_example =
    retry_with_backoff-settles int_float env config 2 IsPatient_env (omega arith) (inl refl)
      flaky_IsRetried

retry_with_backoff-exhausts_example :
    ((retry_with_backoff int_float env config).result ≡ none)
    × ((retry_with_backoff int_float env config).calls ≡ 3)
retry_with_backoff-exhausts_example =
    retry_with_backoff-exhausts int_float env config 2 IsPatient_env refl flaky_IsRetried

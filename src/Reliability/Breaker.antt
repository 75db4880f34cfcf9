-- ===== src/Reliability/Breaker.antt =====
-- pkg/reliability/circuit_breaker.go: the breaker and its locked sections, one function for each
-- stretch of code that no other goroutine sees half done, and the calls that string them together.
-- Times are nanoseconds of one clock; the caller hands over what `time.Now` reads at each place.
-- `mu` is implied by the sections, and `failures`, a 64-bit int that grows by one for each failed
-- call, is left unbounded.

pub mod Invariant
pub mod Sequential
pub mod Interleaving
use matrimail.Prelude.{
  Text, ℕ, ◌+◌, ◌-◌, ◌%◌, Bool, true, false, not, ◌&&◌, Option, none, some, ltb, leb, ◌==◌,
  if◌then◌else◌,
}

pub data State : Type 0 where
  closed half_open opened : State

-- A Go error: one of the two sentinels, or any other by its message.
pub data Error : Type 0 where
  circuit_breaker_open too_many_requests : Error
  failed : Text → Error

pub record Breaker : Type 0 where
  pub max_failures : ℕ
  pub timeout : ℕ
  pub failures : ℕ
  pub last_failure_time : ℕ
  pub state : State
  pub max_half_open_requests : ℕ
  -- int32, kept as its bit pattern
  pub half_open_requests : ℕ
  pub state_change_callback : Bool

-- `atomic.AddInt32(&x, 1)` and `atomic.AddInt32(&x, -1)`
abbrev pub inc32 : ℕ → ℕ
inc32 x = (x + 1) % 4294967296

abbrev pub dec32 : ℕ → ℕ
dec32 x = (x + 4294967295) % 4294967296

-- `x > limit` for a pattern `x` and a limit that is not negative
abbrev pub gt32 : ℕ → ℕ → Bool
gt32 x limit = ltb limit x && ltb x 2147483648

abbrev pub is_opened : State → Bool
is_opened opened = true
is_opened _ = false

abbrev pub is_half_open : State → Bool
is_half_open half_open = true
is_half_open _ = false

abbrev pub same_state : State → State → Bool
same_state closed closed = true
same_state half_open half_open = true
same_state opened opened = true
same_state _ _ = false

-- NewCircuitBreaker; `none` stands for either of its two validation errors.
unfoldable pub new : ℕ → ℕ → Option Breaker
new max_failures timeout =
    if max_failures == 0
    then none
    else if timeout == 0
    then none
    else some (record {
      max_failures = max_failures;
      timeout = timeout;
      failures = 0;
      last_failure_time = 0;
      state = closed;
      max_half_open_requests = 1;
      half_open_requests = 0;
      state_change_callback = false;
    })

unfoldable pub set_state_change_callback : Bool → Breaker → Breaker
set_state_change_callback callback b = record b { state_change_callback = callback }

-- `time.Since(last) > timeout` at the time `now`
abbrev pub is_due : ℕ → ℕ → ℕ → Bool
is_due now last timeout = ltb timeout (now - last)

-- The write-locked part of checkStateAndIncrement, up to its Unlock: the double check and the
-- transition. The Bool says whether the transition was made.
unfoldable pub try_half_open : ℕ → Breaker → Breaker × Bool
try_half_open now b =
    if is_opened b.state && is_due now b.last_failure_time b.timeout
    then (record b { state = half_open; half_open_requests = 0 }, true)
    else (b, false)

-- The two atomic operations on the probe counter.
unfoldable pub add_request : Breaker → Breaker
add_request b = record b { half_open_requests = inc32 b.half_open_requests }

unfoldable pub drop_request : Breaker → Breaker
drop_request b = record b { half_open_requests = dec32 b.half_open_requests }

-- recordResult up to its Unlock, and whether the callback is called: what it is called with are
-- the states before and after. `now` is what `time.Now` reads under the lock.
note_result : ℕ → Option Error → Breaker → Breaker
note_result now none b = record b { failures = 0; state = closed }
note_result now (some e) b =
    let t = record b { failures = b.failures + 1; last_failure_time = now } in
    if leb t.max_failures t.failures then record t { state = opened } else t

leave_half_open : State → Breaker → Breaker
leave_half_open old b =
    if is_half_open old && not (is_half_open b.state)
    then record b { half_open_requests = 0 }
    else b

unfoldable pub record_result : ℕ → Option Error → Breaker → Breaker
unfolding note_result leave_half_open
record_result now err b = leave_half_open b.state (note_result now err b)

unfoldable pub notice : Breaker → Breaker → Option (State × State)
notice old new =
    if not (same_state old.state new.state) && old.state_change_callback
    then some (old.state, new.state)
    else none

unfoldable pub get_state : Breaker → State
get_state b = b.state

unfoldable pub get_failures : Breaker → ℕ
get_failures b = b.failures

unfoldable pub reset : Breaker → Breaker
reset b = record b { failures = 0; state = closed; half_open_requests = 0 }

-- checkStateAndIncrement with nothing between its sections: the error, or whether the caller has
-- to decrement. `read` and `locked` are the times of its two readings of the clock.
pub data Admission : Type 0 where
  admit : Bool → Admission
  refuse : Error → Admission

claim_probe : Breaker → Breaker × Admission
claim_probe b =
    let t = add_request b in
    if gt32 t.half_open_requests b.max_half_open_requests
    then (drop_request t, refuse too_many_requests)
    else (t, admit true)

enter_opened : ℕ → ℕ → Breaker → Breaker × Admission
unfolding claim_probe
enter_opened read locked b =
    if is_due read b.last_failure_time b.timeout
    then (let t = (try_half_open locked b).0 in
        if is_opened t.state then (t, refuse circuit_breaker_open) else claim_probe t)
    else (b, refuse circuit_breaker_open)

dispatch : State → ℕ → ℕ → Breaker → Breaker × Admission
unfolding enter_opened
dispatch closed read locked b = (b, admit false)
dispatch half_open read locked b = claim_probe b
dispatch opened read locked b = enter_opened read locked b

unfoldable pub check_state_and_increment : ℕ → ℕ → Breaker → Breaker × Admission
unfolding dispatch
check_state_and_increment read locked b = dispatch b.state read locked b

-- Execute with nothing between its sections; `err` is what the protected function returns, and
-- the Bool of the result says whether it was called.
finish : ℕ → Option Error → Breaker × Admission → Breaker × Option Error × Bool
finish now err (b, refuse e) = (b, some e, false)
finish now err (b, admit true) = (drop_request (record_result now err b), err, true)
finish now err (b, admit false) = (record_result now err b, err, true)

unfoldable pub execute : ℕ → ℕ → ℕ → Option Error → Breaker → Breaker × Option Error × Bool
unfolding finish check_state_and_increment
execute read locked now err b = finish now err (check_state_and_increment read locked b)

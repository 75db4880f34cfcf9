-- ===== src/Reliability/Breaker/Invariant.antt =====
-- What holds of a breaker between any two of its sections.
use matrimail.Prelude.{ℕ, ◌≤◌, ◌<◌, ◌≡◌, ◌≢◌, Bool, Option, none, some, arith}
use matrimail.Reliability.Breaker.{
  closed, Breaker, Error, new, set_state_change_callback, try_half_open, add_request, drop_request,
  record_result, reset,
}

-- A breaker that is not closed has seen as many failures in a row as it takes to open it.
pub record IsValid (b : Breaker) : Type 0 where
  pub positive : 0 < b.max_failures
  pub counted : b.state ≢ closed → b.max_failures ≤ b.failures

pub new-IsValid : (m t : ℕ) {b : Breaker} → new m t ≡ some b → IsValid b
unfolding new
new-IsValid m t h = ground arith

pub set_state_change_callback-IsValid :
    (c : Bool) {b : Breaker} → IsValid b → IsValid (set_state_change_callback c b)
unfolding set_state_change_callback
set_state_change_callback-IsValid c v = record { positive = v.positive; counted = v.counted }

pub try_half_open-IsValid : (now : ℕ) (b : Breaker) → IsValid b → IsValid (try_half_open now b).0
unfolding try_half_open
try_half_open-IsValid now b v = ground arith

pub add_request-IsValid : (b : Breaker) → IsValid b → IsValid (add_request b)
unfolding add_request
add_request-IsValid b v = record { positive = v.positive; counted = v.counted }

pub drop_request-IsValid : (b : Breaker) → IsValid b → IsValid (drop_request b)
unfolding drop_request
drop_request-IsValid b v = record { positive = v.positive; counted = v.counted }

pub record_result-IsValid :
    (now : ℕ) (err : Option Error) (b : Breaker) → IsValid b → IsValid (record_result now err b)
unfolding record_result
record_result-IsValid now none b v = ground arith
record_result-IsValid now (some e) b v = ground arith

pub reset-IsValid : (b : Breaker) → IsValid b → IsValid (reset b)
unfolding reset
reset-IsValid b v = ground arith

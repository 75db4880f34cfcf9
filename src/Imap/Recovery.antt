-- ===== src/Imap/Recovery.antt =====
-- How the IDLE loop of pkg/imap/client.go recovers a connection: performIDLERecovery, the reconnect
-- signal of idleLoop, and reconnectClient. Both go through the circuit breaker of the client around
-- reconnectClient, which goes through it again. What connectInternal and StartIDLE return is an
-- argument; of RetryWithBackoff, how many calls it makes before it gives up.
pub mod Stuck
use matrimail.Prelude.{List, Option, [], false, none, some, true, ℕ, ◌∷◌}
use matrimail.Reliability.Breaker.{
  Breaker, Error, Admission, admit, refuse, check_state_and_increment, record_result, drop_request,
}

-- what the clock reads in a call of Execute
pub record Times : Type 0 where
  pub read : ℕ
  pub locked : ℕ
  pub now : ℕ

finish_with : ℕ → (Breaker → Breaker × Option Error) → Breaker × Admission → Breaker × Option Error
finish_with now fn (b, refuse e) = (b, some e)
finish_with now fn (b, admit true) =
    let (b', err) = fn b in (drop_request (record_result now err b'), err)
finish_with now fn (b, admit false) = let (b', err) = fn b in (record_result now err b', err)

-- Execute of a function that uses the breaker itself
unfoldable pub execute_with :
    Times → (Breaker → Breaker × Option Error) → Breaker → Breaker × Option Error
unfolding finish_with
execute_with t fn b = finish_with t.now fn (check_state_and_increment t.read t.locked b)

-- one call of the loop in reconnectClient, with the result of connectInternal
pub record Attempt : Type 0 where
  pub times : Times
  pub connected : Option Error

connect_through : Attempt → Breaker → Breaker × Option Error
unfolding execute_with
connect_through a b = execute_with a.times (λ b'. (b', a.connected)) b

retried : (Breaker → Breaker × Option Error) → Breaker × Option Error → Breaker × Option Error
retried rest (b, none) = (b, none)
retried rest (b, some e) = rest b

-- the first attempt and those that are made if all before them fail
unfoldable pub reconnect_client : Attempt → List Attempt → Breaker → Breaker × Option Error
unfolding connect_through retried
reconnect_client a [] b = connect_through a b
reconnect_client a (a' ∷ more) b = retried (reconnect_client a' more) (connect_through a b)

restart : Option Error → Breaker × Option Error → Breaker × Option Error
restart idle (b, none) = (b, idle)
restart idle (b, some e) = (b, some e)

-- one call of Execute in performIDLERecovery; with `none` for the result of StartIDLE, the one of
-- idleLoop
pub record Recovery : Type 0 where
  pub times : Times
  pub first : Attempt
  pub others : List Attempt
  pub idle : Option Error

unfoldable pub recover : Recovery → Breaker → Breaker × Option Error
unfolding execute_with restart reconnect_client
recover r b = execute_with r.times (λ b'. restart r.idle (reconnect_client r.first r.others b')) b

-- one after the other, with their results
unfoldable pub recover_all : List Recovery → Breaker → Breaker × List (Option Error)
unfolding recover
recover_all [] b = (b, [])
recover_all (r ∷ rs) b =
    let (b', err) = recover r b in let (b'', errs) = recover_all rs b' in (b'', err ∷ errs)

-- ===== src/Reliability/Breaker/Interleaving.antt =====
-- Goroutines that share one breaker. A goroutine inside `Execute` stands between two sections of
-- Reliability/Breaker; a step takes it to its next stand. Any order of steps of any number of
-- goroutines is an execution.
use matrimail.Prelude.{
  sym, ap, refl, ◌+◌, ◌∙◌, ◌≤◌, none, some, ◌≢◌, ◌≡◌, ℕ, Bool, true, false, Option, some, List, [],
  ◌∷◌, ◌==◌, if◌then◌else◌, arith,
}
use matrimail.Reliability.Breaker.{
  State, closed, half_open, opened, Breaker, Error, circuit_breaker_open, too_many_requests,
  is_opened, is_due, gt32, try_half_open, add_request, drop_request, record_result, reset,
}
use matrimail.Reliability.Breaker.Invariant.{
  IsValid, try_half_open-IsValid, add_request-IsValid, drop_request-IsValid, record_result-IsValid,
  reset-IsValid,
}

-- Where a goroutine stands in `Execute`.
pub data Place : Type 0 where
  -- about to read the state and the last failure's time under the read lock
  start : Place
  -- with what it read
  snapshot : State → ℕ → Place
  -- with the timeout found to have passed, about to take the write lock
  expired : Place
  -- after the transition and the callback, about to take the lock again for `currentState`
  transitioned : Place
  -- about to increment the probe counter
  claiming : Place
  -- over the limit, about to decrement it back
  over : Place
  -- in the protected function, with `shouldDecrement`
  calling : Bool → Place
  -- after recordResult, about to return
  leaving : Bool → Option Error → Place
  -- returned, with whether the function was called
  returned : Option Error → Bool → Place

-- `currentState` has been updated: reject, or fall through to the half-open case.
after_update : State → Place
after_update s = if is_opened s then returned (some circuit_breaker_open) false else claiming

on_snapshot : ℕ → State → ℕ → Breaker → Place
on_snapshot now closed last b = calling false
on_snapshot now half_open last b = claiming
on_snapshot now opened last b =
    if is_due now last b.timeout then expired else returned (some circuit_breaker_open) false

on_expired : Breaker × Bool → Breaker × Place
unfolding after_update
on_expired (b, true) = (b, transitioned)
on_expired (b, false) = (b, after_update b.state)

on_claiming : Breaker → Breaker × Place
on_claiming b =
    if gt32 b.half_open_requests b.max_half_open_requests then (b, over) else (b, calling true)

-- One step of one goroutine: `now` is what the clock reads, `err` what the function returns.
unfoldable pub step : ℕ → Option Error → Breaker → Place → Breaker × Place
unfolding after_update on_snapshot on_expired on_claiming
step now err b start = (b, snapshot b.state b.last_failure_time)
step now err b (snapshot s last) = (b, on_snapshot now s last b)
step now err b expired = on_expired (try_half_open now b)
step now err b transitioned = (b, after_update b.state)
step now err b claiming = on_claiming (add_request b)
step now err b over = (drop_request b, returned (some too_many_requests) false)
step now err b (calling d) = (record_result now err b, leaving d err)
step now err b (leaving true r) = (drop_request b, returned r true)
step now err b (leaving false r) = (b, returned r true)
step now err b (returned r called) = (b, returned r called)

-- The breaker and the place of each goroutine, by its number.
pub record System : Type 0 where
  pub breaker : Breaker
  pub place : ℕ → Place

pub data Move : Type 0 where
  -- the goroutine of this number makes a step
  go : ℕ → ℕ → Option Error → Move
  -- some goroutine calls `Reset`
  call_reset : Move
  -- a goroutine that has returned calls `Execute` again
  again : ℕ → Move

abbrev put : (ℕ → Place) → ℕ → Place → ℕ → Place
put f i p j = if i == j then p else f j

restart : Place → Place
restart (returned r called) = start
restart p = p

unfoldable pub move : System → Move → System
unfolding restart
move s (go i now err) =
    let (b, p) = step now err s.breaker (s.place i) in
    record { breaker = b; place = put s.place i p }
move s call_reset = record s { breaker = reset s.breaker }
move s (again i) = record s { place = put s.place i (restart (s.place i)) }

unfoldable pub moves : System → List Move → System
unfolding move
moves s [] = s
moves s (m ∷ ms) = moves (move s m) ms

step-IsValid :
    (now : ℕ) (err : Option Error) (b : Breaker) (p : Place)
    → IsValid b
    → IsValid (step now err b p).0
unfolding step
step-IsValid now err b start v = v
step-IsValid now err b (snapshot s last) v = v
step-IsValid now err b expired v = expired_lem (try_half_open now b) (try_half_open-IsValid now b v)
  where
    expired_lem : (r : Breaker × Bool) → IsValid r.0 → IsValid (on_expired r).0
    expired_lem (c, true) w = w
    expired_lem (c, false) w = w
step-IsValid now err b transitioned v = v
step-IsValid now err b claiming v = claiming_lem (add_request b) (add_request-IsValid b v)
  where
    claiming_lem : (c : Breaker) → IsValid c → IsValid (on_claiming c).0
    claiming_lem c w = ground arith
step-IsValid now err b over v = drop_request-IsValid b v
step-IsValid now err b (calling d) v = record_result-IsValid now err b v
step-IsValid now err b (leaving true r) v = drop_request-IsValid b v
step-IsValid now err b (leaving false r) v = v
step-IsValid now err b (returned r called) v = v

move-IsValid : (s : System) (m : Move) → IsValid s.breaker → IsValid (move s m).breaker
unfolding move
move-IsValid s (go i now err) v = step-IsValid now err s.breaker (s.place i) v
move-IsValid s call_reset v = reset-IsValid s.breaker v
move-IsValid s (again i) v = v

-- the failures in a row behind a step, from those before it: a goroutine that comes out of the
-- protected function ends the row, or adds to it
count_step : Option Error → Place → ℕ → ℕ
count_step none (calling d) n = 0
count_step (some e) (calling d) n = n + 1
count_step err _ n = n

count_move : System → Move → ℕ → ℕ
unfolding count_step
count_move s (go i now err) n = count_step err (s.place i) n
count_move s call_reset n = 0
count_move s (again i) n = n

-- The failures in a row behind an execution, read off what the protected function returned and the
-- calls of Reset; `n` are those before it.
unfoldable pub failures_in_a_row : System → List Move → ℕ → ℕ
unfolding count_move
failures_in_a_row s [] n = n
failures_in_a_row s (m ∷ ms) n = failures_in_a_row (move s m) ms (count_move s m n)

step-failures :
    (now : ℕ) (err : Option Error) (b : Breaker) (p : Place)
    → (step now err b p).0.failures ≡ count_step err p b.failures
unfolding step count_step add_request drop_request try_half_open record_result
step-failures now none b start = refl
step-failures now (some e) b start = refl
step-failures now none b (snapshot s last) = refl
step-failures now (some e) b (snapshot s last) = refl
step-failures now none b expired = ground arith
step-failures now (some e) b expired = ground arith
step-failures now none b transitioned = refl
step-failures now (some e) b transitioned = refl
step-failures now none b claiming = ground arith
step-failures now (some e) b claiming = ground arith
step-failures now none b over = refl
step-failures now (some e) b over = refl
step-failures now none b (calling d) = ground arith
step-failures now (some e) b (calling d) = ground arith
step-failures now none b (leaving true r) = refl
step-failures now (some e) b (leaving true r) = refl
step-failures now none b (leaving false r) = refl
step-failures now (some e) b (leaving false r) = refl
step-failures now none b (returned r called) = refl
step-failures now (some e) b (returned r called) = refl

move-failures :
    (s : System) (m : Move) → (move s m).breaker.failures ≡ count_move s m s.breaker.failures
unfolding move count_move reset
move-failures s (go i now err) = step-failures now err s.breaker (s.place i)
move-failures s call_reset = refl
move-failures s (again i) = refl

moves-failures :
    (s : System) (ms : List Move)
    → (moves s ms).breaker.failures ≡ failures_in_a_row s ms s.breaker.failures
unfolding moves failures_in_a_row
moves-failures s [] = refl
moves-failures s (m ∷ ms) =
    moves-failures (move s m) ms ∙ ap (failures_in_a_row (move s m) ms) (move-failures s m)

IsValid-moves : (s : System) (ms : List Move) → IsValid s.breaker → IsValid (moves s ms).breaker
unfolding moves
IsValid-moves s [] v = v
IsValid-moves s (m ∷ ms) v = IsValid-moves (move s m) ms (move-IsValid s m v)

-- However the calls of any number of goroutines and any resets interleave, the count of a valid
-- breaker is that of the failures in a row, as the protected functions returned them since the last
-- success or reset; the breaker stays valid; and if it is opened or half open, there have been at
-- least `max_failures` of them.
pub moves-IsValid :
    (s : System) (ms : List Move)
    → IsValid s.breaker
    → ((moves s ms).breaker.failures ≡ failures_in_a_row s ms s.breaker.failures)
      × IsValid (moves s ms).breaker
      × ((moves s ms).breaker.state ≢ closed
          → (moves s ms).breaker.max_failures ≤ failures_in_a_row s ms s.breaker.failures)
moves-IsValid s ms v =
    let count = moves-failures s ms in
    let valid = IsValid-moves s ms v in (count, valid, λ h. rw count at (valid.counted h))

-- The late decrement: while the breaker, with a limit of one probe, is half open, counts one and has
-- it inside the function, at goroutine `j`, a goroutine `i` that has yet to make the decrement of an
-- earlier half-open period makes it; then goroutine `k` is let in beside `j`, and the breaker is half
-- open with two probes inside.
pub late_drop_admits :
    (s : System) (i j k now : ℕ) (r err : Option Error)
    → s.breaker.state ≡ half_open
    → s.breaker.half_open_requests ≡ 1
    → s.breaker.max_half_open_requests ≡ 1
    → s.place i ≡ leaving true r
    → s.place j ≡ calling true
    → s.place k ≡ claiming
    → let t = moves s (go i now err ∷ go k now err ∷ []) in
      (t.breaker.state ≡ half_open)
      × (t.place j ≡ calling true)
      × (t.place k ≡ calling true)
      × (j ≢ k)
unfolding moves step add_request drop_request
late_drop_admits s i j k now r err h c l pi pj pk =
    let ik : i ≢ k =
      λ e. let clash : leaving true r ≡ claiming = sym pi ∙ ap s.place e ∙ pk in cc in
    let ij : i ≢ j =
      λ e. let clash : leaving true r ≡ calling true = sym pi ∙ ap s.place e ∙ pj in cc in
    let jk : j ≢ k = λ e. let clash : calling true ≡ claiming = sym pj ∙ ap s.place e ∙ pk in cc in
    (ground arith, ground arith, ground arith, jk)

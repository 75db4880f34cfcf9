-- ===== src/Reliability/Breaker/Sequential.antt =====
-- `Execute` when no two calls overlap, against the breaker that the package promises: a count of
-- failures in a row, or the time at which it opened.
use matrimail.Prelude.{
  refl, ◌∙◌, List, [], ◌∷◌, All, ℕ, ◌+◌, ◌≤◌, ◌≡◌, ◌≢◌, Bool, true, false, Option, none, some, leb,
  if◌then◌else◌, arith,
}
use matrimail.Reliability.Breaker.{
  try_half_open, add_request, drop_request, record_result, State, closed, half_open, opened,
  Breaker, Error, circuit_breaker_open, is_due, execute,
}
use matrimail.Reliability.Breaker.Invariant.{IsValid}

-- The promised breaker: closed after `n` failures in a row, or opened by its n-th at a time.
pub data Spec : Type 0 where
  closed_after : ℕ → Spec
  opened_at : ℕ → ℕ → Spec

spec_result : ℕ → ℕ → Option Error → ℕ → Spec
spec_result max now none n = closed_after 0
spec_result max now (some e) n =
    if leb max (n + 1) then opened_at (n + 1) now else closed_after (n + 1)

-- A closed breaker calls; an opened one calls only if the timeout has passed, and a failure of
-- that one call opens it again at once.
pub spec_execute : ℕ → ℕ → ℕ → ℕ → Option Error → Spec → Spec × Option Error × Bool
unfolding spec_result
spec_execute max timeout read now err (closed_after n) = (spec_result max now err n, err, true)
spec_execute max timeout read now err (opened_at n since) =
    if is_due read since timeout
    then (spec_result max now err n, err, true)
    else (opened_at n since, some circuit_breaker_open, false)

view_as : State → Breaker → Spec
view_as closed b = closed_after b.failures
view_as half_open b = opened_at b.failures b.last_failure_time
view_as opened b = opened_at b.failures b.last_failure_time

pub view : Breaker → Spec
unfolding view_as
view b = view_as b.state b

-- No call is under way: the breaker is not half open.
pub record IsQuiet (b : Breaker) : Type 0 where
  pub valid : IsValid b
  pub settled : b.state ≢ half_open
  pub one_probe : b.max_half_open_requests ≡ 1

-- `Execute` is the promised breaker, in its state, its result and whether it calls the function.
-- `read`, `locked` and `now` are successive readings of the clock.
pub execute-spec_execute :
    (read locked now : ℕ) (err : Option Error) (b : Breaker)
    → IsQuiet b
    → read ≤ locked
    → let (b', r, called) = execute read locked now err b in
      let (s, r', called') = spec_execute b.max_failures b.timeout read now err (view b) in
      (view b' ≡ s) × (r ≡ r') × (called ≡ called')
unfolding execute record_result try_half_open add_request drop_request view spec_execute
execute-spec_execute read locked now none b q h = ground (arith, q.valid.counted)
execute-spec_execute read locked now (some e) b q h = ground (arith, q.valid.counted)

pub execute-IsQuiet :
    (read locked now : ℕ) (err : Option Error) (b : Breaker)
    → IsQuiet b
    → read ≤ locked
    → IsQuiet (execute read locked now err b).0
unfolding execute record_result try_half_open add_request drop_request
execute-IsQuiet read locked now none b q h = ground (arith, q.valid.counted)
execute-IsQuiet read locked now (some e) b q h = ground (arith, q.valid.counted)

-- One call of `Execute`: the clock at its three readings and what the function would return.
pub record Call : Type 0 where
  pub read : ℕ
  pub locked : ℕ
  pub now : ℕ
  pub err : Option Error

abbrev pub IsOrdered : Call → Type 0
IsOrdered c = c.read ≤ c.locked

-- Calls one after another, and what each returned to its caller.
unfoldable pub execute_all : Breaker → List Call → Breaker × List (Option Error × Bool)
execute_all b [] = (b, [])
execute_all b (c ∷ cs) =
    let (b', r, called) = execute c.read c.locked c.now c.err b in
    let (b'', rs) = execute_all b' cs in (b'', (r, called) ∷ rs)

unfoldable pub spec_all : ℕ → ℕ → Spec → List Call → Spec × List (Option Error × Bool)
spec_all max timeout s [] = (s, [])
spec_all max timeout s (c ∷ cs) =
    let (s', r, called) = spec_execute max timeout c.read c.now c.err s in
    let (s'', rs) = spec_all max timeout s' cs in (s'', (r, called) ∷ rs)

execute_keeps :
    (c : Call) (b : Breaker)
    → ((execute c.read c.locked c.now c.err b).0.max_failures ≡ b.max_failures)
      × ((execute c.read c.locked c.now c.err b).0.timeout ≡ b.timeout)
unfolding execute record_result try_half_open add_request drop_request
execute_keeps c b = ground arith

execute_all_lem :
    (max timeout : ℕ) (b : Breaker) (cs : List Call)
    → b.max_failures ≡ max
    → b.timeout ≡ timeout
    → IsQuiet b
    → All IsOrdered cs
    → (view (execute_all b cs).0 ≡ (spec_all max timeout (view b) cs).0)
      × ((execute_all b cs).1 ≡ (spec_all max timeout (view b) cs).1)
unfolding execute_all spec_all
execute_all_lem max timeout b [] m t q o = (refl, refl)
execute_all_lem max timeout b (c ∷ cs) m t q (o, os) =
    let (v, r, called) = execute-spec_execute c.read c.locked c.now c.err b q o in
    let (m', t') = execute_keeps c b in
    let (vs, rs) =
      execute_all_lem max timeout (execute c.read c.locked c.now c.err b).0 cs (m' ∙ m) (t' ∙ t)
        (execute-IsQuiet c.read c.locked c.now c.err b q o) os in
    (cc (v, vs), cc (v, r, called, m, t, rs))

-- From a quiet breaker, any calls that do not overlap are answered as the promised breaker
-- answers them, and leave the state that it is left in.
pub execute_all-spec_all :
    (b : Breaker) (cs : List Call)
    → IsQuiet b
    → All IsOrdered cs
    → (view (execute_all b cs).0 ≡ (spec_all b.max_failures b.timeout (view b) cs).0)
      × ((execute_all b cs).1 ≡ (spec_all b.max_failures b.timeout (view b) cs).1)
execute_all-spec_all b cs = execute_all_lem b.max_failures b.timeout b cs refl refl

-- ===== src/Imap/Recovery/Stuck.antt =====
-- A breaker that is open stays open under every recovery.
use matrimail.Prelude.{
  All, Bool-cases, List, Option, [], ap, arith, inl, inr, leb, none, refl, some, sym, true, ℕ, ◌+◌,
  ◌∙◌, ◌∷◌, ◌≡◌, ◌≢◌, ◌≤◌, ◌⊎◌,
}
use matrimail.Reliability.Breaker.{
  Breaker, Error, opened, half_open, too_many_requests, circuit_breaker_open, Admission, admit,
  refuse, check_state_and_increment, try_half_open, add_request, drop_request, record_result,
  is_due,
}
use matrimail.Imap.Recovery.{
  Attempt, Recovery, finish_with, execute_with, connect_through, retried, reconnect_client, restart,
  recover, recover_all,
}

-- half open, with the one probe taken
abbrev probing : Breaker → Breaker
probing b = record b { state = half_open; half_open_requests = 1; max_half_open_requests = 1 }

connect_through-probing :
    (a : Attempt) (b : Breaker)
    → connect_through a (probing b) ≡ (probing b, some too_many_requests)
unfolding connect_through execute_with finish_with check_state_and_increment add_request
    drop_request
connect_through-probing a b = refl

reconnect_client-probing :
    (a : Attempt) (more : List Attempt) (b : Breaker)
    → reconnect_client a more (probing b) ≡ (probing b, some too_many_requests)
unfolding reconnect_client retried
reconnect_client-probing a [] b = connect_through-probing a b
reconnect_client-probing a (a' ∷ more) b =
    ap (retried (reconnect_client a' more)) (connect_through-probing a b)
    ∙ reconnect_client-probing a' more b

-- open, with one probe allowed and failures to keep it open
pub record IsStuck (b : Breaker) : Type 0 where
  pub open_ : b.state ≡ opened
  pub one_probe : b.max_half_open_requests ≡ 1
  pub failing : b.max_failures ≤ b.failures

abbrev open_one : Breaker → Breaker
open_one b = record b { state = opened; max_half_open_requests = 1 }

open_one_lem : (b : Breaker) → IsStuck b → b ≡ open_one b
open_one_lem b s =
    ap (λ x. record b { state = x }) s.open_
    ∙ ap (λ x. record b { state = opened; max_half_open_requests = x }) s.one_probe

check-open_one :
    (read locked : ℕ) (b : Breaker)
    → (check_state_and_increment read locked (open_one b)
        ≡ (open_one b, refuse circuit_breaker_open))
      ⊎ (check_state_and_increment read locked (open_one b) ≡ (probing b, admit true))
unfolding check_state_and_increment try_half_open add_request
check-open_one read locked b = elim (Bool-cases (is_due read b.last_failure_time b.timeout)) [
  | inr f ↦ inl (rw f refl)
  | inl t ↦ elim (Bool-cases (is_due locked b.last_failure_time b.timeout)) [
    | inr g ↦ inl (rw t (rw g refl))
    | inl u ↦ inr (rw t (rw u refl))
  ]
]

-- a result of Execute that leaves the breaker stuck
abbrev pub IsRefused : Breaker × Option Error → Type 0
IsRefused (b, err) = IsStuck b × (err ≢ none)

record_result-probing :
    (now : ℕ) (e : Error) (b : Breaker)
    → b.max_failures ≤ b.failures
    → IsStuck (drop_request (record_result now (some e) (probing b)))
unfolding record_result drop_request
record_result-probing now e b h =
    let t : leb b.max_failures (b.failures + 1) ≡ true = ground arith in
    rw t (record { open_ = refl; one_probe = refl; failing = omega arith })

finish_with-IsRefused :
    (now : ℕ) (fn : Breaker → Breaker × Option Error) (b : Breaker) (q : Breaker × Admission)
    → IsStuck b
    → (q ≡ (open_one b, refuse circuit_breaker_open)) ⊎ (q ≡ (probing b, admit true))
    → fn (probing b) ≡ (probing b, some too_many_requests)
    → IsRefused (finish_with now fn q)
unfolding finish_with
finish_with-IsRefused now fn b q s (inl e) h = rw e (rw (sym (open_one_lem b s)) s, λ n. cc)
finish_with-IsRefused now fn b q s (inr e) h =
    rw e (rw h (record_result-probing now too_many_requests b s.failing, λ n. cc))

recover-IsRefused : (r : Recovery) (b : Breaker) → IsStuck b → IsRefused (recover r b)
unfolding recover execute_with
recover-IsRefused r b s = rw (open_one_lem b s) (
    finish_with-IsRefused r.times.now (λ b'. restart r.idle (reconnect_client r.first r.others b'))
      b (check_state_and_increment r.times.read r.times.locked (open_one b)) s
      (check-open_one r.times.read r.times.locked b)
      (rw (reconnect_client-probing r.first r.others b)))

-- Once the breaker is open, with one probe allowed and as many failures as open it, every recovery
-- fails and leaves it so, whatever the clock reads and the server would answer: the call around
-- reconnectClient takes the one probe, so that those inside are refused.
pub recover_all-IsStuck :
    (rs : List Recovery) (b : Breaker)
    → IsStuck b
    → IsStuck (recover_all rs b).0 × All (λ err. err ≢ none) (recover_all rs b).1
unfolding recover_all
recover_all-IsStuck [] b s = (s, tt)
recover_all-IsStuck (r ∷ rs) b s =
    let (stuck, err) = recover-IsRefused r b s in
    let (end, errs) = recover_all-IsStuck rs (recover r b).0 stuck in (end, (err, errs))

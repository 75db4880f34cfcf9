-- ===== src/Imap/Session/Channels.antt =====
-- No channel is closed twice, and no call waits for a lock of its own, but for Shutdown and a StartIDLE
-- that is told twice that IDLE is running.
use matrimail.Imap.Session.{idles, fails, failing, resetting}
use matrimail.Imap.Session.{
  drop_connection, lock_connecting_mu, starts, runs_already, Held, on_error, lock_mu, probe,
  start_with, Probe, start_idling, reset_connection, session_of, connect, nothing_held, reset_with,
  disconnecting, starting_idle, ending_idle, stopping_idle, resetting, preparing_sent, setting_sent,
  losing_sent, connecting, lose_sent, set_sent, reset_client, end_idle, close, blocks, new_session,
  happen_all, start_idle, happen, disconnect, stop_idle_monitoring, shutdown, connect_internal,
  Event, prepare_sent, nil_channel, closed_channel, Channel, bind, close_once, stop_sent,
  stop_idling, open_channel, drop_sent, returns, Session, Run,
}
use matrimail.Prelude.{
  All, Bool, List, [], ap, if◌then◌else◌, not, ◌&&◌, ◌||◌, ◌∷◌, Bool-cases, false, inl, inr, refl,
  true, ◌∙◌, ◌≡◌,
}

then_lem {ℓ} : {A : Type ℓ} (b : Bool) (x y : A) → b ≡ true → (if b then x else y) ≡ x
then_lem true x y h = refl
then_lem false x y h = cc

else_lem {ℓ} : {A : Type ℓ} (b : Bool) (x y : A) → b ≡ false → (if b then x else y) ≡ y
else_lem true x y h = cc
else_lem false x y h = refl

-- while the client idles, its channel is open and its Once has not run; it has not been shut down
record IsReady (s : Session) : Type 0 where
  stoppable : s.idling ≡ true → (s.stop_idle ≡ open_channel) × (s.idle_once ≡ false)
  running : s.is_shutdown ≡ false

-- a section that returns, to a state that is ready
abbrev ReturnsReady : Run Session → Type 0
ReturnsReady q = (s : Session) × (q ≡ returns s) × IsReady s

stopped : (s t : Session) → t.idling ≡ false → t.is_shutdown ≡ s.is_shutdown → IsReady s → IsReady t
stopped s t n same r = record { stoppable = λ h. cc; running = same ∙ r.running }

stop_idling-ReturnsReady :
    (s : Session)
    → IsReady s
    → (t : Session) × (stop_idling s ≡ returns t) × (t.idling ≡ false) × (t.is_shutdown ≡ false)
unfolding stop_idling close_once bind
stop_idling-ReturnsReady s r = elim (Bool-cases s.idling) [
  | inr n ↦ (s, rw n refl, n, r.running)
  | inl t ↦
      let (o, f) = r.stoppable t in
      (record s { stop_idle = closed_channel; idling = false }, rw t (rw o refl), refl, r.running)
]

stop_sent-returns : (c : Channel) → (d : Channel) × (stop_sent c ≡ returns d)
unfolding stop_sent close_once
stop_sent-returns nil_channel = (nil_channel, refl)
stop_sent-returns open_channel = (closed_channel, refl)
stop_sent-returns closed_channel = (closed_channel, refl)

drop_sent-ReturnsReady :
    (s : Session) → s.idling ≡ false → s.is_shutdown ≡ false → ReturnsReady (drop_sent s)
unfolding drop_sent bind
drop_sent-ReturnsReady s n f = elim (Bool-cases s.sent_client) [
  | inr g ↦ (s, rw g refl, record { stoppable = λ h. cc; running = f })
  | inl t ↦
      let (d, e) = stop_sent-returns s.sent_stop in
      (
        record s { sent_stop = d; sent_client = false; sent_connected = false },
        rw t (rw e refl),
        record { stoppable = λ h. cc; running = f },
      )
]

disconnect-ReturnsReady : (s : Session) → IsReady s → ReturnsReady (disconnect nothing_held s)
unfolding disconnect lock_mu drop_connection bind
disconnect-ReturnsReady s r = elim (Bool-cases s.connected) [
  | inr n ↦ (s, else_lem s.connected (bind (stop_idling s) after) (returns s) n, r)
  | inl t ↦
      let (u, e, n, f) = stop_idling-ReturnsReady s r in
      let (v, g, ok) = drop_sent-ReturnsReady (record u { connected = false }) n f in
      (
        v,
        then_lem s.connected (bind (stop_idling s) after) (returns s) t
            ∙ ap (λ q. bind q after) e
            ∙ g,
        ok,
      )
]
  where
    after : Session → Run Session
    after u = drop_sent (record u { connected = false })

stop_idle_monitoring-ReturnsReady :
    (s : Session) → IsReady s → ReturnsReady (stop_idle_monitoring s)
unfolding stop_idle_monitoring bind close
stop_idle_monitoring-ReturnsReady s r = elim (Bool-cases s.idling) [
  | inr n ↦ (s, rw n refl, r)
  | inl t ↦
      let (o, f) = r.stoppable t in
      (
        record s { stop_idle = closed_channel; idle_once = true; idling = false },
        rw t (rw f (rw o refl)),
        record { stoppable = λ h. cc; running = r.running },
      )
]

connect_internal-IsReady :
    (alive succeeds : Bool) (s : Session) → IsReady s → IsReady (connect_internal alive succeeds s)
unfolding connect_internal
connect_internal-IsReady alive succeeds s r = elim (Bool-cases (s.connected && alive)) [
  | inl t ↦ rw t r
  | inr f ↦ rw f (record { stoppable = λ h. cc; running = r.running })
]

start_idle-IsReady : (s : Session) → IsReady s → IsReady (start_idle s)
unfolding start_idle
start_idle-IsReady s r = elim (Bool-cases (s.idling || not s.connected)) [
  | inl t ↦ rw t r
  | inr f ↦ rw f (record { stoppable = λ h. (refl, refl); running = r.running })
]

prepare_sent-IsReady : (s : Session) → IsReady s → IsReady (prepare_sent s)
unfolding prepare_sent
prepare_sent-IsReady s r = elim (Bool-cases s.sent_client) [
  | inl t ↦ rw (then_lem s.sent_client s (record s { sent_stop = open_channel }) t) r
  | inr f ↦
      rw (else_lem s.sent_client s (record s { sent_stop = open_channel }) f)
        (record { stoppable = r.stoppable; running = r.running })
]

-- an answer of StartIDLE or resetConnection, with a session that is ready
abbrev Answers : Run (Session × Bool) → Type 0
Answers q = (s : Session) × (ok : Bool) × (q ≡ returns (s, ok)) × IsReady s

-- what is held outside of the sections of `mu`
abbrev held_outside : Bool → Held
held_outside c = record { mu = false; connecting_mu = c }

end_idle-IsReady : (s : Session) → IsReady s → IsReady (end_idle s)
unfolding end_idle
end_idle-IsReady s r = record { stoppable = λ h. cc; running = r.running }

reset_client-IsReady : (s : Session) → IsReady s → IsReady (reset_client s)
unfolding reset_client
reset_client-IsReady s r = record { stoppable = λ h. cc; running = r.running }

on_error-Answers :
    (c : Bool) (q : Run (Session × Bool)) → Answers q → Answers (bind q (on_error (held_outside c)))
unfolding bind on_error lock_mu
on_error-Answers c q (s, true, e, r) = (s, true, rw e refl, r)
on_error-Answers c q (s, false, e, r) = (end_idle s, false, rw e refl, end_idle-IsReady s r)

start_with-Answers :
    (c : Bool) (f : Held → Session → Run (Session × Bool)) (s : Session)
    → IsReady s
    → ((t : Session) → IsReady t → Answers (f (held_outside c) t))
    → Answers (start_with (held_outside c) f s)
unfolding start_with lock_mu bind
start_with-Answers c f s r k = elim (Bool-cases (starts s)) [
  | inl y ↦ rw y (k (start_idle s) (start_idle-IsReady s r))
  | inr n ↦ rw n (start_idle s, false, refl, start_idle-IsReady s r)
]

reset_with-Answers :
    (succeeds : Bool) (f : Held → Session → Run (Session × Bool)) (s : Session)
    → IsReady s
    → (succeeds ≡ true → (t : Session) → IsReady t → Answers (f (held_outside true) t))
    → Answers (reset_with nothing_held succeeds f s)
unfolding reset_with lock_connecting_mu lock_mu bind
reset_with-Answers false f s r k =
    let t = connect_internal false false (reset_client s) in
    (
      t,
      false,
      refl,
      connect_internal-IsReady false false (reset_client s) (reset_client-IsReady s r),
    )
reset_with-Answers true f s r k =
    k refl (connect_internal false true (reset_client s))
      (connect_internal-IsReady false true (reset_client s) (reset_client-IsReady s r))

-- not told first that IDLE is running
abbrev pub is_free : List Probe → Bool
is_free [] = true
is_free (idles ∷ ps) = true
is_free (fails ∷ ps) = true
is_free (runs_already succeeds ∷ ps) = false

-- not told twice that IDLE is running, with a connection made in between
abbrev pub is_free_again : List Probe → Bool
is_free_again [] = true
is_free_again (idles ∷ ps) = true
is_free_again (fails ∷ ps) = true
is_free_again (runs_already true ∷ ps) = is_free ps
is_free_again (runs_already false ∷ ps) = true

probe-is_free :
    (c : Bool) (ps : List Probe) (s : Session)
    → is_free ps ≡ true
    → IsReady s
    → Answers (probe ps (held_outside c) s)
unfolding probe
probe-is_free c [] s h r = (s, true, refl, r)
probe-is_free c (idles ∷ ps) s h r = (s, true, refl, r)
probe-is_free c (fails ∷ ps) s h r =
    (end_idle s, false, (unfold on_error lock_mu in refl), end_idle-IsReady s r)
probe-is_free c (runs_already succeeds ∷ ps) s h r = cc

probe-is_free_again :
    (ps : List Probe) (s : Session)
    → is_free_again ps ≡ true
    → IsReady s
    → Answers (probe ps nothing_held s)
unfolding probe
probe-is_free_again [] s h r = (s, true, refl, r)
probe-is_free_again (idles ∷ ps) s h r = (s, true, refl, r)
probe-is_free_again (fails ∷ ps) s h r =
    (end_idle s, false, (unfold on_error lock_mu in refl), end_idle-IsReady s r)
probe-is_free_again (runs_already false ∷ ps) s h r =
    on_error-Answers false _
      (reset_with-Answers false (λ held. start_with held (probe ps)) s r (λ e. cc))
probe-is_free_again (runs_already true ∷ ps) s h r = on_error-Answers false _ (
    reset_with-Answers true (λ held. start_with held (probe ps)) s r
      (λ e t ok.
        start_with-Answers true (probe ps) t ok (λ u fine. probe-is_free true ps u h fine)))

-- whether a call is not told that IDLE is running while it holds `connectingMu`
abbrev pub is_tame : Event → Bool
is_tame (starting_idle ps) = is_free_again ps
is_tame (resetting true ps) = is_free ps
is_tame e = true

session-ReturnsReady : (q : Run (Session × Bool)) → Answers q → ReturnsReady (bind q session_of)
unfolding bind
session-ReturnsReady q (s, ok, e, r) = (s, rw e refl, r)

resetting-ReturnsReady :
    (succeeds : Bool) (ps : List Probe) (s : Session)
    → is_tame (resetting succeeds ps) ≡ true
    → IsReady s
    → Answers (reset_connection nothing_held succeeds ps s)
unfolding reset_connection start_idling
resetting-ReturnsReady false ps s h r =
    reset_with-Answers false (λ held. start_with held (probe ps)) s r (λ e. cc)
resetting-ReturnsReady true ps s h r =
    reset_with-Answers true (λ held. start_with held (probe ps)) s r
      (λ e t ok. start_with-Answers true (probe ps) t ok (λ u fine. probe-is_free true ps u h fine))

happen-ReturnsReady :
    (e : Event) (s : Session) → is_tame e ≡ true → IsReady s → ReturnsReady (happen e s)
unfolding happen set_sent lose_sent connect lock_mu lock_connecting_mu
happen-ReturnsReady (connecting alive succeeds) s h r =
    (connect_internal alive succeeds s, refl, connect_internal-IsReady alive succeeds s r)
happen-ReturnsReady disconnecting s h r = disconnect-ReturnsReady s r
happen-ReturnsReady (starting_idle ps) s h r =
    session-ReturnsReady (start_idling nothing_held ps s) (
      unfold start_idling in
      start_with-Answers false (probe ps) s r (λ t ok. probe-is_free_again ps t h ok))
happen-ReturnsReady ending_idle s h r = (end_idle s, refl, end_idle-IsReady s r)
happen-ReturnsReady stopping_idle s h r = stop_idle_monitoring-ReturnsReady s r
happen-ReturnsReady failing s h r = (reset_client s, refl, reset_client-IsReady s r)
happen-ReturnsReady (resetting succeeds ps) s h r =
    session-ReturnsReady (reset_connection nothing_held succeeds ps s)
      (resetting-ReturnsReady succeeds ps s h r)
happen-ReturnsReady preparing_sent s h r = (prepare_sent s, refl, prepare_sent-IsReady s r)
happen-ReturnsReady setting_sent s h r =
    (set_sent s, refl, record { stoppable = r.stoppable; running = r.running })
happen-ReturnsReady losing_sent s h r =
    (lose_sent s, refl, record { stoppable = r.stoppable; running = r.running })

happen_all-ReturnsReady :
    (es : List Event) (s : Session)
    → All (λ e. is_tame e ≡ true) es
    → IsReady s
    → ReturnsReady (happen_all es s)
unfolding happen_all bind
happen_all-ReturnsReady [] s h r = (s, refl, r)
happen_all-ReturnsReady (e ∷ es) s h r =
    let (t, x, ok) = happen-ReturnsReady e s h.0 r in
    let (u, y, fine) = happen_all-ReturnsReady es t h.1 ok in (u, rw x y, fine)

stop_idling-returns :
    (s : Session)
    → (s.idling ≡ true → s.stop_idle ≡ open_channel)
    → (t : Session) × (stop_idling s ≡ returns t)
unfolding stop_idling close_once bind
stop_idling-returns s k = elim (Bool-cases s.idling) [
  | inr n ↦ (s, else_lem s.idling (bind (close_once s.stop_idle) stopped_with) (returns s) n)
  | inl t ↦ (
    record s { stop_idle = closed_channel; idling = false },
    then_lem s.idling (bind (close_once s.stop_idle) stopped_with) (returns s) t
        ∙ ap (λ c. bind (close_once c) stopped_with) (k t),
  )
]
  where
    stopped_with : Channel → Run Session
    stopped_with c = returns (record s { stop_idle = c; idling = false })

shutdown-blocks : (s : Session) → IsReady s → shutdown nothing_held s ≡ blocks
unfolding shutdown disconnect lock_mu bind
shutdown-blocks s r =
    let held : Held = record { mu = true; connecting_mu = false } in
    let u = record s { is_shutdown = true } in
    let (t, e) = stop_idling-returns u (λ h. (r.stoppable h).0) in
    else_lem s.is_shutdown (returns s) (bind (stop_idling u) (disconnect held)) r.running
    ∙ ap (λ q. bind q (disconnect held)) e

-- Whatever happens to a new client, in any order, if no call is told that IDLE is running already while
-- it holds `connectingMu`, then no call waits for `mu` or `connectingMu` that it holds itself, and none
-- closes a channel that is nil or closed; and a Shutdown after that never returns, since Disconnect
-- waits for the lock that Shutdown holds.
pub happen_all-shutdown :
    (es : List Event)
    → All (λ e. is_tame e ≡ true) es
    → (s : Session) × (happen_all es new_session ≡ returns s) × (shutdown nothing_held s ≡ blocks)
happen_all-shutdown es h =
    let (s, e, r) =
      happen_all-ReturnsReady es new_session h
        (record { stoppable = λ h. (refl, refl); running = refl }) in
    (s, e, shutdown-blocks s r)

-- A StartIDLE that passes its checks and is told that IDLE is running, connects anew, and is told so
-- again, never returns, and neither does a resetConnection that is told so once: the second
-- resetConnection waits for the lock that the first one holds.
pub start_idling-blocks :
    (s : Session) (again : Bool) (ps : List Probe)
    → s.connected ≡ true
    → s.idling ≡ false
    → (start_idling nothing_held (runs_already true ∷ runs_already again ∷ ps) s ≡ blocks)
      × (reset_connection nothing_held true (runs_already again ∷ ps) s ≡ blocks)
unfolding start_idling start_with reset_connection reset_with probe lock_mu lock_connecting_mu bind
    connect_internal reset_client start_idle starts
start_idling-blocks s again ps c n = (rw (c, n) refl, refl)

-- ===== src/Imap/Session.antt =====
-- The life of the connections of Client in pkg/imap/client.go: Disconnect, StartIDLE, StopIDLE,
-- Shutdown, resetConnection and what of the others changes the same flags and channels. A call is one
-- step of its goroutine, with the locks that it holds on the way: `mu` and `connectingMu`. Of the server
-- it counts whether a connection is made and what the probe of IDLE answers; the reports to the
-- coordinator are left out.
pub mod Channels
use matrimail.Prelude.{Bool, List, [], false, if◌then◌else◌, not, true, ◌&&◌, ◌||◌, ◌∷◌}

pub data Channel : Type 0 where
  nil_channel : Channel
  open_channel : Channel
  closed_channel : Channel

-- A section returns, panics, or waits for a lock that its own goroutine holds.
pub data Run {ℓ} (A : Type ℓ) : Type ℓ where
  returns : A → Run A
  panics : Run A
  blocks : Run A

unfoldable pub bind {ℓ κ} : {A : Type ℓ} {B : Type κ} → Run A → (A → Run B) → Run B
bind (returns x) f = f x
bind panics f = panics
bind blocks f = blocks

-- close(c)
unfoldable pub close : Channel → Run Channel
close nil_channel = panics
close open_channel = returns closed_channel
close closed_channel = panics

-- `select { case <-c: default: close(c) }`
unfoldable pub close_once : Channel → Run Channel
close_once nil_channel = panics
close_once open_channel = returns closed_channel
close_once closed_channel = returns closed_channel

-- `idle_once` says whether stopIdleOnce has run, `sent_client` whether it is set; the handle `client`,
-- which decides nothing here, is left out.
pub record Session : Type 0 where
  pub connected : Bool
  pub idling : Bool
  pub stop_idle : Channel
  pub idle_once : Bool
  pub sent_client : Bool
  pub sent_connected : Bool
  pub sent_stop : Channel
  pub is_shutdown : Bool

abbrev pub new_session : Session
new_session = record {
  connected = false;
  idling = false;
  stop_idle = open_channel;
  idle_once = false;
  sent_client = false;
  sent_connected = false;
  sent_stop = nil_channel;
  is_shutdown = false;
}

-- connectInternal, with whether the connection that was there is alive and a new one succeeds
unfoldable pub connect_internal : Bool → Bool → Session → Session
connect_internal alive succeeds s =
    if s.connected && alive then s else record s { connected = succeeds; idling = false }

stop_idling : Session → Run Session
unfolding bind close_once
stop_idling s =
    if s.idling
    then bind (close_once s.stop_idle) (λ c. returns (record s { stop_idle = c; idling = false }))
    else returns s

stop_sent : Channel → Run Channel
unfolding close_once
stop_sent nil_channel = returns nil_channel
stop_sent open_channel = close_once open_channel
stop_sent closed_channel = close_once closed_channel

drop_sent : Session → Run Session
unfolding bind stop_sent
drop_sent s =
    if s.sent_client
    then bind (stop_sent s.sent_stop)
        (λ c. returns (record s { sent_stop = c; sent_client = false; sent_connected = false }))
    else returns s

-- the locks that a goroutine holds: neither `mu` nor `connectingMu` is reentrant
pub record Held : Type 0 where
  pub mu : Bool
  pub connecting_mu : Bool

abbrev pub nothing_held : Held
nothing_held = record { mu = false; connecting_mu = false }

-- c.mu.Lock(), and what is done until the Unlock
unfoldable pub lock_mu {ℓ} : {A : Type ℓ} → Held → (Held → Run A) → Run A
lock_mu h section = if h.mu then blocks else section (record h { mu = true })

unfoldable pub lock_connecting_mu {ℓ} : {A : Type ℓ} → Held → (Held → Run A) → Run A
lock_connecting_mu h section =
    if h.connecting_mu then blocks else section (record h { connecting_mu = true })

unfoldable pub drop_connection : Session → Run Session
unfolding bind stop_idling drop_sent
drop_connection s =
    if s.connected
    then bind (stop_idling s) (λ t. drop_sent (record t { connected = false }))
    else returns s

unfoldable pub disconnect : Held → Session → Run Session
unfolding lock_mu drop_connection
disconnect h s = lock_mu h (λ held. drop_connection s)

-- Connect
unfoldable pub connect : Held → Bool → Bool → Session → Run Session
unfolding lock_mu lock_connecting_mu connect_internal
connect h alive succeeds s =
    lock_connecting_mu h
      (λ held. lock_mu held (λ held'. returns (connect_internal alive succeeds s)))

-- StartIDLE up to its Unlock; a client that idles already or is not connected is left as it is.
unfoldable pub start_idle : Session → Session
start_idle s =
    if s.idling || not s.connected
    then s
    else record s { stop_idle = open_channel; idle_once = false; idling = true }

-- the deferred section of StartIDLE after an error, and the one of idleLoop
unfoldable pub end_idle : Session → Session
end_idle s = record s { idling = false }

-- after a hard network error, and at the start of resetConnection
unfoldable pub reset_client : Session → Session
reset_client s = record s { connected = false; idling = false }

-- what the server answers to the probe of StartIDLE: IDLE can start; an error, of this probe or of a
-- command before it; or that IDLE is running already, with whether resetConnection then connects
pub data Probe : Type 0 where
  idles : Probe
  fails : Probe
  runs_already : Bool → Probe

-- whether the checks of StartIDLE pass
unfoldable pub starts : Session → Bool
starts s = not (s.idling || not s.connected)

-- the part of StartIDLE behind its Unlock, as `probed` does it
unfoldable pub start_with :
    Held → (Held → Session → Run (Session × Bool)) → Session → Run (Session × Bool)
unfolding lock_mu bind starts start_idle
start_with h probed s =
    bind (lock_mu h (λ held. returns (start_idle s)))
      (λ t. if starts s then probed h t else returns (t, false))

-- the deferred section after an error
unfoldable pub on_error : Held → Session × Bool → Run (Session × Bool)
unfolding lock_mu end_idle
on_error h (s, true) = returns (s, true)
on_error h (s, false) = lock_mu h (λ held. returns (end_idle s, false))

-- resetConnection, with StartIDLE behind it as `restarted`; isConnecting, which is set only while
-- `connectingMu` is held, is false behind the Lock
unfoldable pub reset_with :
    Held → Bool → (Held → Session → Run (Session × Bool)) → Session → Run (Session × Bool)
unfolding lock_mu lock_connecting_mu connect_internal bind reset_client
reset_with h succeeds restarted s = lock_connecting_mu h (λ held.
    bind (lock_mu held (λ _. returns (reset_client s))) (λ t.
      bind (lock_mu held (λ _. returns (connect_internal false succeeds t)))
        (λ u. if succeeds then restarted held u else returns (u, false))))

-- what StartIDLE does with the answers to its probes, one for each connection
unfoldable pub probe : List Probe → Held → Session → Run (Session × Bool)
unfolding start_with reset_with on_error bind
probe [] h s = returns (s, true)
probe (idles ∷ ps) h s = returns (s, true)
probe (fails ∷ ps) h s = on_error h (s, false)
probe (runs_already succeeds ∷ ps) h s =
    bind (reset_with h succeeds (λ held. start_with held (probe ps)) s) (on_error h)

unfoldable pub start_idling : Held → List Probe → Session → Run (Session × Bool)
unfolding start_with probe
start_idling h ps s = start_with h (probe ps) s

unfoldable pub reset_connection : Held → Bool → List Probe → Session → Run (Session × Bool)
unfolding reset_with start_idling
reset_connection h succeeds ps s = reset_with h succeeds (λ held. start_idling held ps) s

unfoldable pub stop_idle_monitoring : Session → Run Session
unfolding bind close
stop_idle_monitoring s =
    if s.idling
    then if s.idle_once
      then returns (record s { idling = false })
      else bind (close s.stop_idle)
          (λ c. returns (record s { stop_idle = c; idle_once = true; idling = false }))
    else returns s

-- the two sections of ensureSentConnectionAndLoop
unfoldable pub prepare_sent : Session → Session
prepare_sent s = if s.sent_client then s else record s { sent_stop = open_channel }

unfoldable pub set_sent : Session → Session
set_sent s = record s { sent_client = true; sent_connected = true }

-- reconnectSent: the connection is dropped, and the channel kept
unfoldable pub lose_sent : Session → Session
lose_sent s = record s { sent_client = false; sent_connected = false }

unfoldable pub shutdown : Held → Session → Run Session
unfolding lock_mu bind stop_idling disconnect
shutdown h s = lock_mu h (λ held.
    if s.is_shutdown
    then returns s
    else bind (stop_idling (record s { is_shutdown = true })) (disconnect held))

pub data Event : Type 0 where
  connecting : Bool → Bool → Event
  disconnecting : Event
  starting_idle : List Probe → Event
  ending_idle : Event
  stopping_idle : Event
  failing : Event
  resetting : Bool → List Probe → Event
  preparing_sent : Event
  setting_sent : Event
  losing_sent : Event

abbrev pub session_of : Session × Bool → Run Session
session_of (s, ok) = returns s

-- a call of a goroutine that holds no lock
unfoldable pub happen : Event → Session → Run Session
unfolding lock_mu bind connect disconnect start_idling end_idle stop_idle_monitoring reset_client
    reset_connection prepare_sent set_sent lose_sent
happen (connecting alive succeeds) s = connect nothing_held alive succeeds s
happen disconnecting s = disconnect nothing_held s
happen (starting_idle ps) s = bind (start_idling nothing_held ps s) session_of
happen ending_idle s = lock_mu nothing_held (λ held. returns (end_idle s))
happen stopping_idle s = lock_mu nothing_held (λ held. stop_idle_monitoring s)
happen failing s = lock_mu nothing_held (λ held. returns (reset_client s))
happen (resetting succeeds ps) s = bind (reset_connection nothing_held succeeds ps s) session_of
happen preparing_sent s = returns (prepare_sent s)
happen setting_sent s = returns (set_sent s)
happen losing_sent s = returns (lose_sent s)

unfoldable pub happen_all : List Event → Session → Run Session
unfolding happen bind
happen_all [] s = returns s
happen_all (e ∷ es) s = bind (happen e s) (happen_all es)

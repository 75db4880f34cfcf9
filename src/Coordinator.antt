-- ===== src/Coordinator.antt =====
-- pkg/coordinator/state_coordinator.go: the bridge state of one login, computed from the events of
-- its connections. Components and events are the strings that the source compares. The times
-- that `time.Now` reads within one ReportEvent are taken to be one. `log` calls are left out, and `mu` makes each ReportEvent one step.
pub mod Computed
pub mod Reports
pub mod Examples
use matrimail.Prelude.{
  Bool, List, Option, String, [], false, if◌then◌else◌, ltb, none, not, some, str_eq, true, ℕ, ◌&&◌,
  ◌*◌, ◌+◌, ◌-◌, ◌||◌,
}
use matrimail.Prelude.Assoc.{put, put_all}

-- The values of the info map.
pub data Value : Type 0 where
  bool : Bool → Value
  num : ℕ → Value
  text : String → Value
  -- a time, formatted
  time : ℕ → Value

pub record ConnectionEvent : Type 0 where
  pub component : String
  pub event : String
  pub connected : Bool
  pub error : String
  pub metadata : List (String × Value)
  pub timestamp : ℕ

pub record ConnectionState : Type 0 where
  pub connected : Bool
  pub idle_running : Bool
  pub last_event : String
  pub last_error : String
  pub last_update : ℕ
  pub failure_count : ℕ

-- The values of package status that the code names.
pub data BridgeStateEvent : Type 0 where
  starting bridge_unreachable transient_disconnect connected : BridgeStateEvent

pub BridgeStateEvent-discrete : Discrete BridgeStateEvent
BridgeStateEvent-discrete = hlevel

pub record StateCoordinator : Type 0 where
  -- `login != nil`
  pub has_login : Bool
  pub inbox : ConnectionState
  pub sent : ConnectionState
  pub circuit_state : String
  pub current_state : BridgeStateEvent
  pub current_error : String
  pub last_sent : ℕ
  pub throttle_duration : ℕ

-- What `login.BridgeState.Send` is given.
pub record BridgeState : Type 0 where
  pub state_event : BridgeStateEvent
  pub error : String
  pub info : List (String × Value)

abbrev pub no_connection : ConnectionState
no_connection = record {
  connected = false;
  idle_running = false;
  last_event = "";
  last_error = "";
  last_update = 0;
  failure_count = 0;
}

unfoldable pub new : Bool → StateCoordinator
new has_login = record {
  has_login = has_login;
  inbox = no_connection;
  sent = no_connection;
  circuit_state = "closed";
  current_state = starting;
  current_error = "";
  last_sent = 0;
  throttle_duration = 30 * 1_000_000_000;
}

-- the inner `switch` of updateComponentState, the same for "inbox" and "sent"
unfoldable pub apply_event : String → ConnectionState → ConnectionState
apply_event event s =
    if str_eq event "connection_started"
    then s
    else if str_eq event "connection_established"
    then record s { connected = true; failure_count = 0 }
    else if str_eq event "connection_lost" || str_eq event "connection_closed"
    then record s { connected = false; failure_count = s.failure_count + 1 }
    else if str_eq event "idle_started"
    then record s { idle_running = true }
    else if str_eq event "idle_failed"
    then record s { idle_running = false; failure_count = s.failure_count + 1 }
    else if str_eq event "idle_recovered"
    then record s { idle_running = true; failure_count = 0 }
    else s

unfoldable pub update_connection : ℕ → ConnectionEvent → ConnectionState → ConnectionState
update_connection now e s =
    apply_event e.event (record s { last_event = e.event; last_update = now; last_error = e.error })

unfoldable pub update_circuit : String → String → String
update_circuit event s =
    if str_eq event "circuit_opened"
    then "open"
    else if str_eq event "circuit_closed"
    then "closed"
    else if str_eq event "circuit_half_open"
    then "half_open"
    else s

unfoldable pub update_component_state : ℕ → ConnectionEvent → StateCoordinator → StateCoordinator
update_component_state now e sc =
    if str_eq e.component "inbox"
    then record sc { inbox = update_connection now e sc.inbox }
    else if str_eq e.component "sent"
    then record sc { sent = update_connection now e sc.sent }
    else if str_eq e.component "circuit_breaker"
    then record sc { circuit_state = update_circuit e.event sc.circuit_state }
    else sc

-- `if err != "" { err } else { default }`
or_error : String → String → String
or_error err default = if str_eq err "" then default else err

unfoldable pub compute_bridge_state : StateCoordinator → BridgeStateEvent × String
unfolding or_error
compute_bridge_state sc =
    if str_eq sc.circuit_state "open"
    then (bridge_unreachable, "E-EMAIL-007")
    else if not sc.inbox.connected
    then (bridge_unreachable, or_error sc.inbox.last_error "E-EMAIL-002")
    else if sc.inbox.connected && not sc.inbox.idle_running
    then (transient_disconnect, or_error sc.inbox.last_error "E-EMAIL-003")
    else if sc.inbox.connected && sc.inbox.idle_running
    then (BridgeStateEvent.connected, "")
    else (starting, "")

abbrev pub same_event : BridgeStateEvent → BridgeStateEvent → Bool
same_event starting starting = true
same_event bridge_unreachable bridge_unreachable = true
same_event transient_disconnect transient_disconnect = true
same_event connected connected = true
same_event _ _ = false

unfoldable pub should_send_state : ℕ → BridgeStateEvent → String → StateCoordinator → Bool
should_send_state now new_state new_error sc =
    if not (same_event new_state sc.current_state) || not (str_eq new_error sc.current_error)
    then true
    else ltb sc.throttle_duration (now - sc.last_sent)

-- the map that sendBridgeState fills: the metadata, then the coordinator's own keys over it
put_if_positive : String → ℕ → List (String × Value) → List (String × Value)
put_if_positive key n info = if ltb 0 n then put key (num n) info else info

unfoldable pub build_info : ℕ → List (String × Value) → StateCoordinator → List (String × Value)
unfolding put_if_positive
build_info now metadata sc =
    let info = put_all metadata [] in
    let info = put "inbox_connected" (bool sc.inbox.connected) info in
    let info = put "inbox_idle_running" (bool sc.inbox.idle_running) info in
    let info = put "sent_connected" (bool sc.sent.connected) info in
    let info = put "sent_idle_running" (bool sc.sent.idle_running) info in
    let info = put "circuit_breaker_state" (text sc.circuit_state) info in
    let info = put "coordinator_update" (time now) info in
    let info = put_if_positive "inbox_failure_count" sc.inbox.failure_count info in
    put_if_positive "sent_failure_count" sc.sent.failure_count info

-- `now` is read for the info and again for `lastSent`; nothing is sent without a login, and the
-- tracking is left alone then.
unfoldable pub send_bridge_state :
    ℕ
    → BridgeStateEvent
    → String
    → List (String × Value)
    → StateCoordinator
    → StateCoordinator × Option BridgeState
unfolding build_info
send_bridge_state now new_state new_error metadata sc = if not sc.has_login then (sc, none) else (
  record sc { current_state = new_state; current_error = new_error; last_sent = now },
  some (record { state_event = new_state; error = new_error; info = build_info now metadata sc }),
)

-- the second half of ReportEvent: compute the state, and send it if it is to be sent
unfoldable pub publish :
    ℕ → List (String × Value) → StateCoordinator → StateCoordinator × Option BridgeState
publish now metadata sc =
    let (new_state, new_error) = compute_bridge_state sc in
    if should_send_state now new_state new_error sc
    then send_bridge_state now new_state new_error metadata sc
    else (sc, none)

unfoldable pub report_event :
    ℕ → ConnectionEvent → StateCoordinator → StateCoordinator × Option BridgeState
report_event now e sc = publish now e.metadata (update_component_state now e sc)

unfoldable pub report_simple_event :
    ℕ
    → String
    → String
    → Bool
    → String
    → List (String × Value)
    → StateCoordinator
    → StateCoordinator × Option BridgeState
report_simple_event now component event is_connected err metadata = report_event now (record {
  component = component;
  event = event;
  connected = is_connected;
  error = err;
  metadata = metadata;
  timestamp = now;
})

unfoldable pub get_connection_states : StateCoordinator → ConnectionState × ConnectionState × String
get_connection_states sc = (sc.inbox, sc.sent, sc.circuit_state)

-- ===== src/Coordinator/Examples.antt =====
-- The state coordinator at concrete events.
use matrimail.Prelude.{
  List, String, [], arith, eq_iff, false, map, refl, true, ℕ, ◌↔◌, ◌∷◌, ◌≡◌, ◌≢◌,
}
use matrimail.Coordinator.{
  Value, text, ConnectionEvent, BridgeStateEvent, BridgeState, starting, bridge_unreachable,
  transient_disconnect, StateCoordinator, new, update_component_state, compute_bridge_state,
  update_connection, apply_event, report_event, publish, should_send_state, send_bridge_state,
  no_connection,
}
use matrimail.Coordinator.Computed.{compute_bridge_state-connected, stale_idle}
use matrimail.Coordinator.Reports.{report_all, last_seen, last_seen-compute_bridge_state}

abbrev inbox_event : String → ConnectionEvent
inbox_event event = record {
  component = "inbox";
  event = event;
  connected = false;
  error = "";
  metadata = ("inbox_connected", text "?") ∷ [];
  timestamp = 0;
}

abbrev up : StateCoordinator
up = record (new true) { inbox = record no_connection { connected = true; idle_running = true } }

abbrev day : List (ℕ × ConnectionEvent)
day =
    (2, inbox_event "idle_started")
    ∷ (3, inbox_event "idle_started")
    ∷ (4, inbox_event "connection_lost")
    ∷ []

-- Four events and three reports: the second `idle_started` changes nothing.
day_reports :
    map
      (λ (s : BridgeState). s.state_event)
      (report_all (new true) ((1, inbox_event "connection_established") ∷ day)).1
    ≡ transient_disconnect ∷ BridgeStateEvent.connected ∷ bridge_unreachable ∷ []
unfolding report_all report_event publish should_send_state send_bridge_state update_component_state
    update_connection apply_event compute_bridge_state new
day_reports = refl

compute_bridge_state-connected_example :
    (compute_bridge_state up ≡ (BridgeStateEvent.connected, ""))
    ↔ ((up.circuit_state ≢ "open") × (up.inbox.connected ≡ true) × (up.inbox.idle_running ≡ true))
compute_bridge_state-connected_example = compute_bridge_state-connected up

circuit_closed : up.circuit_state ≢ "open"
unfolding new
circuit_closed = ground (arith, eq_iff "closed" "open")

stale_idle_example :
    compute_bridge_state (
      update_component_state 2
        (inbox_event "connection_established")
        (update_component_state 1 (inbox_event "connection_lost") up))
    ≡ (BridgeStateEvent.connected, "")
stale_idle_example =
    stale_idle up 1 2 (inbox_event "connection_lost") (inbox_event "connection_established")
      circuit_closed refl refl refl refl refl

last_seen-compute_bridge_state_example :
    last_seen
      (starting, "")
      (report_all (new true) ((1, inbox_event "connection_established") ∷ day)).1
    ≡ compute_bridge_state
        (report_all (new true) ((1, inbox_event "connection_established") ∷ day)).0
last_seen-compute_bridge_state_example =
    last_seen-compute_bridge_state 1 (inbox_event "connection_established") day

abbrev misleading : List (String × Value)
misleading = ("inbox_connected", text "?") ∷ []

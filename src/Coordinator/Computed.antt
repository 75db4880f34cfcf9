-- ===== src/Coordinator/Computed.antt =====
-- When the bridge is reported as what, and what each kind of event can change of it.
use matrimail.Prelude.{arith, eq_iff, true, ℕ, ◌↔◌, ◌≡◌, ◌≢◌}
use matrimail.Coordinator.{
  ConnectionEvent, BridgeStateEvent, starting, StateCoordinator, apply_event, update_connection,
  update_component_state, compute_bridge_state,
}

-- The bridge counts as connected exactly when the circuit is not open, the inbox is connected and
-- its IDLE runs, and no error is reported then; the Sent folder's state plays no part.
pub compute_bridge_state-connected :
    (sc : StateCoordinator)
    → (compute_bridge_state sc ≡ (BridgeStateEvent.connected, ""))
      ↔ ((sc.circuit_state ≢ "open") × (sc.inbox.connected ≡ true) × (sc.inbox.idle_running ≡ true))
unfolding compute_bridge_state
compute_bridge_state-connected sc = (
  λ h. ground (arith, eq_iff sc.circuit_state "open"),
  λ h. ground (arith, eq_iff sc.circuit_state "open"),
)

-- The state is never "starting" once it is computed, and any other state than connected comes with
-- an error.
compute_bridge_state-error :
    (sc : StateCoordinator)
    → ((compute_bridge_state sc).0 ≢ starting)
      × (((compute_bridge_state sc).0 ≢ BridgeStateEvent.connected)
          → (compute_bridge_state sc).1 ≢ "")
unfolding compute_bridge_state
compute_bridge_state-error sc = (
  λ h. ground arith,
  λ n h. ground (
    arith,
    eq_iff sc.inbox.last_error "",
    eq_iff "E-EMAIL-002" "",
    eq_iff "E-EMAIL-003" "",
    eq_iff "E-EMAIL-007" "",
  ),
)

-- After the inbox's connection is lost and made again, the IDLE of the old connection still counts
-- as running: the bridge is reported as connected although no IDLE has been started since.
pub stale_idle :
    (sc : StateCoordinator) (t t' : ℕ) (lost made : ConnectionEvent)
    → sc.circuit_state ≢ "open"
    → sc.inbox.idle_running ≡ true
    → lost.component ≡ "inbox"
    → lost.event ≡ "connection_lost"
    → made.component ≡ "inbox"
    → made.event ≡ "connection_established"
    → compute_bridge_state (update_component_state t' made (update_component_state t lost sc))
      ≡ (BridgeStateEvent.connected, "")
unfolding update_component_state update_connection apply_event compute_bridge_state
stale_idle sc t t' lost made c i lc le mc me =
    simp (lc, le, mc, me, i) (ground (arith, eq_iff sc.circuit_state "open"))

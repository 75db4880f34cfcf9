-- ===== src/Coordinator/Reports.antt =====
-- What is sent to the bridge over any sequence of events.
use matrimail.Prelude.{
  Bool-cases, Option, [], ap, false, inl, inr, none, some, str_eq, sym, ◌-◌, ◌∷◌, ◌≤◌, ◌⊎◌, List,
  String, arith, eq_iff, refl, true, ℕ, ◌↔◌, ◌∙◌, ◌≡◌,
}
use matrimail.Prelude.Assoc.{lookup, lookup-put}
use matrimail.Coordinator.{
  bool, text, Value, put_if_positive, new, starting, build_info, BridgeState, Value,
  ConnectionEvent, BridgeStateEvent, StateCoordinator, update_component_state, compute_bridge_state,
  same_event, should_send_state, send_bridge_state, publish, report_event,
}

-- What the tracking fields say equals what the components' states amount to.
abbrev pub IsCurrent : StateCoordinator → Type 0
IsCurrent sc = (sc.current_state, sc.current_error) ≡ compute_bridge_state sc

same_event_iff : (a b : BridgeStateEvent) → (same_event a b ≡ true) ↔ (a ≡ b)
same_event_iff a b = ground arith

-- computing looks at no tracking field
compute-tracking :
    (sc : StateCoordinator) (s : BridgeStateEvent) (e : String) (t : ℕ)
    → compute_bridge_state (record sc { current_state = s; current_error = e; last_sent = t })
      ≡ compute_bridge_state sc
unfolding compute_bridge_state
compute-tracking sc s e t = refl

publish-IsCurrent :
    (now : ℕ) (metadata : List (String × Value)) (sc : StateCoordinator)
    → sc.has_login ≡ true
    → IsCurrent (publish now metadata sc).0
unfolding publish should_send_state send_bridge_state
publish-IsCurrent now metadata sc l =
    let (s, e) = compute_bridge_state sc in
    ground (
      arith,
      same_event_iff s sc.current_state,
      eq_iff e sc.current_error,
      compute-tracking sc s e now,
    )

-- an event changes neither the login nor what was last sent
update_component_state_keeps :
    (now : ℕ) (e : ConnectionEvent) (sc : StateCoordinator)
    → ((update_component_state now e sc).has_login ≡ sc.has_login)
      × ((update_component_state now e sc).current_state ≡ sc.current_state)
      × ((update_component_state now e sc).current_error ≡ sc.current_error)
      × ((update_component_state now e sc).last_sent ≡ sc.last_sent)
      × ((update_component_state now e sc).throttle_duration ≡ sc.throttle_duration)
unfolding update_component_state
update_component_state_keeps now e sc = ground arith

-- After any event reported to a coordinator with a login, the state that was last sent is the
-- current one.
report_event-IsCurrent :
    (now : ℕ) (e : ConnectionEvent) (sc : StateCoordinator)
    → sc.has_login ≡ true
    → IsCurrent (report_event now e sc).0
unfolding report_event
report_event-IsCurrent now e sc l =
    publish-IsCurrent now e.metadata (update_component_state now e sc)
      ((update_component_state_keeps now e sc).0 ∙ l)

-- An event makes a report exactly if there is a login and either the computed state or error is
-- not the one sent last, or the throttle period has passed since.
report_event-none :
    (now : ℕ) (e : ConnectionEvent) (sc : StateCoordinator)
    → ((report_event now e sc).1 ≡ none) ↔ (
        (sc.has_login ≡ false)
        ⊎ ((compute_bridge_state (update_component_state now e sc)
              ≡ (sc.current_state, sc.current_error))
            × (now - sc.last_sent ≤ sc.throttle_duration)))
unfolding report_event publish should_send_state send_bridge_state
report_event-none now e sc =
    let sc' = update_component_state now e sc in
    let (s, x) = compute_bridge_state sc' in
    let (l, c, d, t, p) = update_component_state_keeps now e sc in
    (
      λ h.
          ground
            (arith, l, c, d, t, p, same_event_iff s sc.current_state, eq_iff x sc.current_error),
      λ h.
          ground
            (arith, l, c, d, t, p, same_event_iff s sc.current_state, eq_iff x sc.current_error),
    )

abbrev pub prepend : Option BridgeState → List BridgeState → List BridgeState
prepend none rs = rs
prepend (some s) rs = s ∷ rs

-- The reports made over a sequence of events with their times, oldest first.
unfoldable pub report_all :
    StateCoordinator → List (ℕ × ConnectionEvent) → StateCoordinator × List BridgeState
report_all sc [] = (sc, [])
report_all sc ((now, e) ∷ es) =
    let (sc', r) = report_event now e sc in
    let (sc'', rs) = report_all sc' es in (sc'', prepend r rs)

-- The state that whoever receives the reports has last seen.
abbrev pub last_seen : BridgeStateEvent × String → List BridgeState → BridgeStateEvent × String
last_seen seen [] = seen
last_seen seen (s ∷ ss) = last_seen (s.state_event, s.error) ss

publish-tracks :
    (now : ℕ) (metadata : List (String × Value)) (sc : StateCoordinator) (rs : List BridgeState)
    → last_seen (sc.current_state, sc.current_error) (prepend (publish now metadata sc).1 rs)
      ≡ last_seen
          ((publish now metadata sc).0.current_state, (publish now metadata sc).0.current_error)
          rs
unfolding publish send_bridge_state
publish-tracks now metadata sc rs =
    let (s, x) = compute_bridge_state sc in
    elim (Bool-cases (should_send_state now s x sc)) [
      | inl yes_ ↦ elim (Bool-cases sc.has_login) [ inl l ↦ rw (yes_, l) | inr l ↦ rw (yes_, l) ]
      | inr no_ ↦ rw no_
    ]

report_event-tracks :
    (now : ℕ) (e : ConnectionEvent) (sc : StateCoordinator) (rs : List BridgeState)
    → last_seen (sc.current_state, sc.current_error) (prepend (report_event now e sc).1 rs)
      ≡ last_seen
          ((report_event now e sc).0.current_state, (report_event now e sc).0.current_error)
          rs
unfolding report_event
report_event-tracks now e sc rs =
    let sc' = update_component_state now e sc in
    let (_, c, d, _, _) = update_component_state_keeps now e sc in
    ap (λ (p : BridgeStateEvent × String). last_seen p (prepend (publish now e.metadata sc').1 rs))
      (λ i. (sym c i, sym d i))
    ∙ publish-tracks now e.metadata sc' rs

last_seen-report_all :
    (sc : StateCoordinator) (es : List (ℕ × ConnectionEvent))
    → last_seen (sc.current_state, sc.current_error) (report_all sc es).1
      ≡ ((report_all sc es).0.current_state, (report_all sc es).0.current_error)
unfolding report_all
last_seen-report_all sc [] = refl
last_seen-report_all sc ((now, e) ∷ es) =
    report_event-tracks now e sc _ ∙ last_seen-report_all (report_event now e sc).0 es

report_event-has_login :
    (now : ℕ) (e : ConnectionEvent) (sc : StateCoordinator)
    → (report_event now e sc).0.has_login ≡ sc.has_login
unfolding report_event publish send_bridge_state
report_event-has_login now e sc = ground (arith, (update_component_state_keeps now e sc).0)

report_all-IsCurrent :
    (sc : StateCoordinator) (es : List (ℕ × ConnectionEvent))
    → sc.has_login ≡ true
    → IsCurrent sc
    → IsCurrent (report_all sc es).0
unfolding report_all
report_all-IsCurrent sc [] l h = h
report_all-IsCurrent sc ((now, e) ∷ es) l h =
    report_all-IsCurrent (report_event now e sc).0 es (report_event-has_login now e sc ∙ l)
      (report_event-IsCurrent now e sc l)

-- Over any non-empty sequence of events, whatever the throttling left out, the receiver of the
-- reports of a new coordinator with a login has last seen the state and the error that the
-- components' final states amount to.
pub last_seen-compute_bridge_state :
    (now : ℕ) (e : ConnectionEvent) (es : List (ℕ × ConnectionEvent))
    → last_seen (starting, "") (report_all (new true) ((now, e) ∷ es)).1
      ≡ compute_bridge_state (report_all (new true) ((now, e) ∷ es)).0
last_seen-compute_bridge_state now e es =
    unfold new in
    last_seen-report_all (new true) ((now, e) ∷ es)
    ∙ unfold report_all new in
      report_all-IsCurrent (report_event now e (new true)).0 es
        (report_event-has_login now e (new true)) (report_event-IsCurrent now e (new true) refl)

lookup-put_if_positive :
    (k j : String) (n : ℕ) (info : List (String × Value))
    → str_eq k j ≡ false
    → lookup j (put_if_positive k n info) ≡ lookup j info
unfolding put_if_positive
lookup-put_if_positive k j n info h = ground (arith, lookup-put k j (Value.num n) info)

-- The keys that the coordinator writes into a report's info say what it knows of the connections,
-- whatever the event's metadata held under them.
pub lookup-build_info :
    (now : ℕ) (metadata : List (String × Value)) (sc : StateCoordinator)
    → (lookup "inbox_connected" (build_info now metadata sc) ≡ some (bool sc.inbox.connected))
      × (lookup "inbox_idle_running" (build_info now metadata sc)
          ≡ some (bool sc.inbox.idle_running))
      × (lookup "sent_connected" (build_info now metadata sc) ≡ some (bool sc.sent.connected))
      × (lookup "sent_idle_running" (build_info now metadata sc) ≡ some (bool sc.sent.idle_running))
      × (lookup "circuit_breaker_state" (build_info now metadata sc) ≡ some (text sc.circuit_state))
unfolding build_info
lookup-build_info now metadata sc = (
  simp (lookup-put_if_positive, lookup-put),
  simp (lookup-put_if_positive, lookup-put),
  simp (lookup-put_if_positive, lookup-put),
  simp (lookup-put_if_positive, lookup-put),
  simp (lookup-put_if_positive, lookup-put),
)

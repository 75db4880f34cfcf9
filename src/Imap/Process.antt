-- ===== src/Imap/Process.antt =====
-- What Client of pkg/imap/client.go does with a UID: processMessageWith and ensurePortalRoom. The
-- bridge framework and the parser of the fetched data are parameters; the fetch options and the
-- mutex for each portal, which makes ensurePortalRoom one step, are left out.
pub mod Rooms
pub mod Pipeline
use matrimail.Prelude.{
  Bool, List, Option, Text, [], false, if◌then◌else◌, none, some, suc, true, zero, ℕ, ◌∷◌,
}
use matrimail.Email.Threading.{ParsedEmail, Externals}
use matrimail.Email.Processor.{
  Processor, EmailMessage, ProcessError, parse_failed, missing_sender, missing_message_id,
  message_id_too_long, Outcome, failed, skipped, forwarded, process_imap_message,
}

-- What is called of bridgev2 for a login, with its state `W`. A portal is named by the id and the
-- receiver of its key. `portal_exists` is GetExistingPortalByKey, `none` its error; `make_portal`
-- is GetPortalByKey and `create_room` CreateMatrixRoom, with whether they succeed; `has_room` says
-- whether MXID is set.
pub record Bridge {ℓ} (W : Type ℓ) : Type ℓ where
  pub portal_exists : Text → Text → W → Option Bool
  pub make_portal : Text → Text → W → W × Bool
  pub has_room : Text → Text → W → Bool
  pub create_room : Text → Text → W → W × Bool
  pub queue_remote_event : EmailMessage → W → W × Bool

pub data Failure : Type 0 where
  not_processed : ProcessError → Failure
  portal_not_checked : Failure
  portal_not_created : Failure
  room_not_created : Failure
  room_not_ensured : Failure
  fetch_failed : Failure

-- A message of a FETCH: its data parsed, `none` for parseIMAPFetchData's error, and the clock at
-- the two places where ProcessIMAPMessage reads it.
pub record Fetched : Type 0 where
  pub parsed : Option ParsedEmail
  pub now : ℕ
  pub now' : ℕ

-- The answers to a UID's FETCH: the messages, the first message of the second FETCH of each, and
-- whether Close succeeds.
pub record Fetch : Type 0 where
  pub messages : List (Fetched × Option Fetched)
  pub closes : Bool

-- The error's text has "degraded parse" in it. Those of parseIMAPFetchData are taken not to.
unfoldable pub is_degraded : ProcessError → Bool
is_degraded parse_failed = false
is_degraded missing_sender = true
is_degraded missing_message_id = true
is_degraded message_id_too_long = true

module _ {ℓ} {W : Type ℓ} (bridge : Bridge W) where
  -- the loop of ensurePortalRoom, with the attempts that are left
  unfoldable pub attempt : ℕ → Text → Text → W → W × Bool
  attempt zero id receiver w = (w, false)
  attempt (suc n) id receiver w =
      let (w', created) = bridge.create_room id receiver w in
      let rest = attempt n id receiver w' in
      if created then if bridge.has_room id receiver w' then (w', true) else rest else rest

  unfoldable pub ensure_portal_room : Text → Text → W → W × Bool
  unfolding attempt
  ensure_portal_room id receiver w =
      if bridge.has_room id receiver w then (w, true) else attempt 3 id receiver w

  queue_in : EmailMessage → W × Bool → W × Option Failure
  queue_in m (w, true) = ((bridge.queue_remote_event m w).0, none)
  queue_in m (w, false) = (w, some room_not_ensured)

  enter : EmailMessage → W × Bool → W × Option Failure
  unfolding queue_in ensure_portal_room
  enter m (w, true) = queue_in m (ensure_portal_room m.portal_id m.receiver w)
  enter m (w, false) = (w, some room_not_created)

  force_room : EmailMessage → W × Bool → W × Option Failure
  unfolding enter
  force_room m (w, true) = enter m (
      if bridge.has_room m.portal_id m.receiver w
      then (w, true)
      else bridge.create_room m.portal_id m.receiver w)
  force_room m (w, false) = (w, some portal_not_created)

  entered : EmailMessage → W → Option Bool → W × Option Failure
  unfolding force_room
  entered m w none = (w, some portal_not_checked)
  entered m w (some true) = force_room m (w, true)
  entered m w (some false) = force_room m (bridge.make_portal m.portal_id m.receiver w)

  -- the portal, its room and the event; a failure to queue it is only logged
  unfoldable pub deliver : EmailMessage → W → W × Option Failure
  unfolding entered
  deliver m w = entered m w (bridge.portal_exists m.portal_id m.receiver w)

-- ProcessIMAPMessage, and once more for a degraded parse that can be fetched again
once : Externals → Text → Text → Fetched → Processor → Processor × Outcome
once ext receiver mailbox m p = process_imap_message ext m.now m.now' receiver mailbox m.parsed p

again : Externals → Text → Text → Option Fetched → Processor × Outcome → Processor × Outcome
unfolding once is_degraded
again ext receiver mailbox (some m) (p, failed e) =
    if is_degraded e then once ext receiver mailbox m p else (p, failed e)
again ext receiver mailbox none (p, o) = (p, o)
again ext receiver mailbox (some m) (p, skipped) = (p, skipped)
again ext receiver mailbox (some m) (p, forwarded f) = (p, forwarded f)

unfoldable pub process_with_retry :
    Externals → Text → Text → Fetched × Option Fetched → Processor → Processor × Outcome
unfolding again once
process_with_retry ext receiver mailbox (m, refetched) p =
    again ext receiver mailbox refetched (once ext receiver mailbox m p)

module _ {ℓ} {W : Type ℓ} (ext : Externals) (receiver mailbox : Text) where
  hand_on : Bridge W → Processor × Outcome → W → (Processor × W) × Option Failure
  hand_on bridge (p, failed e) w = ((p, w), some (not_processed e))
  hand_on bridge (p, skipped) w = ((p, w), none)
  hand_on bridge (p, forwarded m) w = let (w', failure) = deliver bridge m w in ((p, w'), failure)

  -- one message of the loop
  unfoldable pub process_fetched :
      Bridge W → Fetched × Option Fetched → Processor × W → (Processor × W) × Option Failure
  unfolding hand_on
  process_fetched bridge m (p, w) = hand_on bridge (process_with_retry ext receiver mailbox m p) w

  carry_on :
      (Processor × W → (Processor × W) × Option Failure)
      → (Processor × W) × Option Failure
      → (Processor × W) × Option Failure
  carry_on rest (q, none) = rest q
  carry_on rest (q, some e) = (q, some e)

  unfoldable pub process_messages :
      Bridge W
      → List (Fetched × Option Fetched)
      → Bool
      → Processor × W
      → (Processor × W) × Option Failure
  unfolding carry_on
  process_messages bridge [] closes q = (q, (if closes then none else some fetch_failed))
  process_messages bridge (m ∷ ms) closes q =
      carry_on (process_messages bridge ms closes) (process_fetched bridge m q)

  -- `none` is a nil login, which ends the call at the first message
  unfoldable pub process_message_with :
      Option (Bridge W) → (ℕ → Fetch) → ℕ → Processor × W → (Processor × W) × Option Failure
  unfolding process_messages
  process_message_with none fetch uid q = elim (fetch uid).messages [
    | [] ↦ (q, (if (fetch uid).closes then none else some fetch_failed))
    | m ∷ ms ↦ (q, none)
  ]
  process_message_with (some bridge) fetch uid q =
      process_messages bridge (fetch uid).messages (fetch uid).closes q

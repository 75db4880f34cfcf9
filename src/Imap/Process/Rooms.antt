-- ===== src/Imap/Process/Rooms.antt =====
-- The bridge gets an event for a room that exists.
use matrimail.Prelude.{true, ◌≡◌}
use matrimail.Email.Processor.{EmailMessage}
use matrimail.Imap.Process.{Bridge}

module _ {ℓ} {W : Type ℓ} (bridge : Bridge W) where
  -- `w'` is what the call of QueueRemoteEvent with the event made of a state in which its room exists;
  -- whether the bridge then says that it has queued the event is only logged
  abbrev pub IsHandedOver : EmailMessage → W → Type ℓ
  IsHandedOver m w' =
      (w : W) × (bridge.has_room m.portal_id m.receiver w ≡ true)
      × (w' ≡ (bridge.queue_remote_event m w).0)

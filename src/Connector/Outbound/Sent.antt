-- ===== src/Connector/Outbound/Sent.antt =====
-- A message that was sent from a room, and its echo in the Sent folder.
use matrimail.Prelude.Strings.{trim_left, trim_right}
use matrimail.Connector.Portal.{resolve_thread_for_portal_with_metadata}
use matrimail.Prelude.Strings.{trim_space}
use matrimail.Prelude.{
  Bool-cases, List, Option, [], ap, arith, codes, drop, false, inl, inr, none, refl, some, sym,
  true, ℕ, ◌++◌, ◌∙◌, ◌∷◌, ◌≡◌, ◌≤◌, Text,
}
use matrimail.Email.Threading.{ParsedEmail, Externals, is_empty}
use matrimail.Email.Processor.{Processor, is_outbound_message}
use matrimail.Connector.Send.{Address, Result, error, ok}
use matrimail.Connector.SentDedup.{upsert, SentDedupQuery, record_sent, cleanup}
use matrimail.Connector.Inbound.{is_our_message}
use matrimail.Connector.Inbound.Echo.{IsIdentified}
use matrimail.Connector.Outgoing.{MatrixMessage, OutgoingMessage, Sending, Outside}
use matrimail.Connector.Outbound.{
  no_sender, edit, has_sender, failed, dedup_key, Room, EmailClient, Main, Reply, done, remember,
  finish, answered, dispatch, loaded, deliver, send_in_thread, in_thread, outbound,
  handle_matrix_message_outbound, consume_portal_next_reply_dm,
}
use matrimail.Imap.Process.{Bridge, Fetch, Fetched, process_message_with}
use matrimail.Imap.Process.Pipeline.{process_message_with-record_sent}

module _ (w : Outside) (c : EmailClient) (msg : MatrixMessage) (q : Option SentDedupQuery) where
  -- a message that went out: it is remembered under the id that is answered
  record WasSent (id : Text) (reply : Reply) : Type 0 where
    key : Text
    named : id ≡ codes "email:" ++ key
    noted : reply.main.sent_dedup ≡ remember w.recorded_at c.login_id key msg.event_id q

  answered-WasSent :
      (r : ℕ) (room : Room) (om : OutgoingMessage) (call : Sending) (m : Main) (o : Option Text)
      (id : Text)
      → m.sent_dedup ≡ q
      → (answered w c r room msg om call m o).outcome ≡ done id
      → WasSent id (answered w c r room msg om call m o)
  unfolding answered finish
  answered-WasSent r room om call m none id e h = cc
  answered-WasSent r room om call m (some server_id) id e h = record {
    key = dedup_key server_id om;
    named = ground (arith, h);
    noted = ap (remember w.recorded_at c.login_id (dedup_key server_id om) msg.event_id) e;
  }

  dispatch-WasSent :
      (r : ℕ) (room : Room) (from_addr : Text) (om : OutgoingMessage) (m : Main) (o : Option Text)
      (id : Text)
      → m.sent_dedup ≡ q
      → (dispatch w c r room msg from_addr om m o).outcome ≡ done id
      → WasSent id (dispatch w c r room msg from_addr om m o)
  unfolding dispatch
  dispatch-WasSent r room from_addr om m none id e h = cc
  dispatch-WasSent r room from_addr om m (some mime) id e h =
      answered-WasSent r room om _ m _ id e h

  loaded-WasSent :
      (r : ℕ) (room : Room) (m : Main) (o : Option OutgoingMessage) (id : Text)
      → m.sent_dedup ≡ q
      → (loaded w c r room msg m o).outcome ≡ done id
      → WasSent id (loaded w c r room msg m o)
  unfolding loaded
  loaded-WasSent r room m none id e h = cc
  loaded-WasSent r room m (some om) id e h = dispatch-WasSent r room _ om m (w.build_mime om) id e h

  deliver-WasSent :
      (r : ℕ) (room : Room) (m : Main) (found : Result (List Address × List Address)) (id : Text)
      → m.sent_dedup ≡ q
      → (deliver w c r room msg m found).outcome ≡ done id
      → WasSent id (deliver w c r room msg m found)
  unfolding deliver
  deliver-WasSent r room m (error x) id e h = cc
  deliver-WasSent r room m (ok recipients) id e h = loaded-WasSent r room m _ id e h

  consumed-dedup :
      (room_id : Text) (m : Main)
      → (consume_portal_next_reply_dm room_id m).0.sent_dedup ≡ m.sent_dedup
  unfolding consume_portal_next_reply_dm
  consumed-dedup room_id m = ground arith

  in_thread-WasSent :
      (room : Room) (m : Main) (found : Option ℕ) (id : Text)
      → m.sent_dedup ≡ q
      → (in_thread w c room msg m found).outcome ≡ done id
      → WasSent id (in_thread w c room msg m found)
  unfolding in_thread send_in_thread
  in_thread-WasSent room m none id e h = cc
  in_thread-WasSent room m (some r) id e h =
      deliver-WasSent r room _ _ id (consumed-dedup room.id _ ∙ e) h

  outbound-WasSent :
      (room : Room) (m : Main) (id : Text)
      → m.sent_dedup ≡ q
      → (outbound w c room (some msg) m).outcome ≡ done id
      → WasSent id (outbound w c room (some msg) m)
  unfolding outbound
  outbound-WasSent room m id e h = elim (Bool-cases (is_empty msg.replace_id)) [
    | inl f ↦ rw f (
        in_thread-WasSent room
          (record m {
            thread_manager =
                (resolve_thread_for_portal_with_metadata w.now w.restored_at c.login_id room.id
                  room.metadata m.thread_manager).0;
          })
          (resolve_thread_for_portal_with_metadata w.now w.restored_at c.login_id room.id
            room.metadata m.thread_manager).1
          id e (rw f at h))
    | inr n ↦ let refused : failed edit ≡ done id = rw n at h in cc
  ]

  handle-WasSent :
      (room : Room) (m : Main) (id : Text)
      → m.sent_dedup ≡ q
      → (handle_matrix_message_outbound w c room (some msg) m).outcome ≡ done id
      → WasSent id (handle_matrix_message_outbound w c room (some msg) m)
  unfolding handle_matrix_message_outbound
  handle-WasSent room m id e h = elim (Bool-cases (has_sender c.sender)) [
    | inl f ↦ rw f (outbound-WasSent room m id e (rw f at h))
    | inr n ↦ let refused : failed no_sender ≡ done id = rw n at h in cc
  ]

email_prefix-injective : (s t : Text) → codes "email:" ++ s ≡ codes "email:" ++ t → s ≡ t
email_prefix-injective s t h = ap (drop 6) h

trim_space-filled : (s : Text) → is_empty (trim_space s) ≡ false → is_empty s ≡ false
unfolding trim_space trim_left trim_right
trim_space-filled [] h = cc
trim_space-filled (c ∷ s) h = refl

remember-some :
    (now : ℕ) (receiver key event_id : Text) (q : SentDedupQuery)
    → is_empty key ≡ false
    → (q' : SentDedupQuery) × (record_sent now receiver key event_id q ≡ some q')
      × (remember now receiver key event_id (some q) ≡ some q')
unfolding remember record_sent
remember-some now receiver key event_id q n =
    let q' : SentDedupQuery = record q {
      rows =
          upsert
            (record {
              bridge_id = q.bridge_id;
              receiver = receiver;
              message_id = key;
              matrix_evt_id = event_id;
              sent_at = now;
            })
            q.rows;
    } in
    (q', rw n, rw (n, remember) refl)

-- Once a message from a room has been answered as sent under an id, and whatever Cleanup has removed
-- that is older, the FETCH of the message with this id from a Sent mailbox of the account changes
-- neither the processor with its threads nor the bridge: no portal, no room and no event.
pub handle-process_message_with {ℓ} :
    {W : Type ℓ} (ext : Externals) (mailbox : Text) (bridge : Bridge W) (o : Outside)
    (c : EmailClient) (room : Room) (msg : MatrixMessage) (m : Main) (table table' : SentDedupQuery)
    (older_than : ℕ) (fetch : ℕ → Fetch) (uid : ℕ) (f : Fetched) (refetched : Option Fetched)
    (echo : ParsedEmail) (p : Processor) (b : W)
    → m.sent_dedup ≡ some table
    → (handle_matrix_message_outbound o c room (some msg) m).outcome
      ≡ done (codes "email:" ++ echo.message_id)
    → (handle_matrix_message_outbound o c room (some msg) m).main.sent_dedup ≡ some table'
    → older_than ≤ o.recorded_at
    → p.dedup_checker ≡ some (is_our_message (some (cleanup older_than table').0))
    → is_outbound_message mailbox ≡ true
    → IsIdentified echo
    → (fetch uid).messages ≡ (f, refetched) ∷ []
    → f.parsed ≡ some echo
    → (process_message_with ext c.login_id mailbox (some bridge) fetch uid (p, b)).0 ≡ (p, b)
handle-process_message_with ext mailbox bridge o c room msg m table table' older_than fetch uid f
      refetched echo p b e h e' old d out id fetched parsed =
    let sent_one = handle-WasSent o c msg (some table) room m _ e h in
    let same : sent_one.key ≡ echo.message_id =
      sym (email_prefix-injective echo.message_id sent_one.key sent_one.named) in
    let noted =
      remember-some o.recorded_at c.login_id echo.message_id msg.event_id table
        (trim_space-filled echo.message_id id.id) in
    let (t, recorded, remembered) = noted in
    let all : some table' ≡ some t =
      sym e'
      ∙ sent_one.noted
      ∙ ap (λ k. remember o.recorded_at c.login_id k msg.event_id (some table)) same
      ∙ remembered in
    let now : record_sent o.recorded_at c.login_id echo.message_id msg.event_id table
        ≡ some table' =
      recorded ∙ sym all in
    process_message_with-record_sent ext c.login_id mailbox bridge o.recorded_at older_than
      echo.message_id msg.event_id table table' fetch uid f refetched echo p b now old d out id refl
      fetched parsed

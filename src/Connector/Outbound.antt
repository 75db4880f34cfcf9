-- ===== src/Connector/Outbound.antt =====
-- handleMatrixMessageOutbound of pkg/connector/client_send.go: what becomes of a message that is sent
-- in a Matrix room, with buildOutgoingMessage, the switch for a reply to the sender alone of
-- pkg/connector/connector.go, and AppendSignature of pkg/email/gmail_signature.go. What the sender, the
-- download of media and the builder of MIME answer, the clock and the new Message-ID are arguments.
-- The portal and the content of a message are not nil; a message that is nil is `none`.
pub mod Sent
pub mod ReplyOnly
pub mod Examples
use matrimail.Connector.Outgoing.{
  titled, signed, OutgoingMessage, build_outgoing_message, MatrixMessage, with_media, Outside,
  unbracket, Sending,
}
use matrimail.Prelude.{
  Bool, List, Option, [], codes, false, if◌then◌else◌, map, none, not, some, text_eq, true, ◌&&◌,
  ◌++◌, ◌+◌, ◌||◌, ◌∷◌, Text, ℕ,
}
use matrimail.Prelude.Strings.{trim_space}
use matrimail.Email.Threading.{EmailThread, is_empty}
use matrimail.Email.Threading.Manager.{ThreadManager, write, cache_thread}
use matrimail.Connector.Send.{
  ok, error, Address, SendError, Result, Alias, derive_subject_from_body, compute_reply_chain, sent,
  own_addresses, selves_set, pick_from_address, resolve_reply_all_recipients, resolve_dm_recipients,
}
use matrimail.Connector.Portal.{
  PortalMetadata, metadata_of, resolve_thread_for_portal_with_metadata,
}
use matrimail.Connector.SentDedup.{SentDedupQuery, record_sent}

pub record Room : Type 0 where
  pub id : Text
  pub metadata : Option PortalMetadata

pub data Provider : Type 0 where
  gmail_api : Provider
  smtp : Provider

-- the part of EmailClient that is read
pub record EmailClient : Type 0 where
  pub login_id : Text
  pub email : Text
  pub aliases : List Alias
  pub signature : Text
  pub sender : Option Provider
  pub has_imap : Bool

-- the part of EmailConnector that a message changes
pub record Main : Type 0 where
  pub sent_dedup : Option SentDedupQuery
  pub thread_manager : ThreadManager
  pub pending_dm_replies : List Text

pub data Failure : Type 0 where
  no_sender : Failure
  invalid_message : Failure
  edit : Failure
  no_thread : Failure
  refused : SendError → Failure
  download_failed : Failure
  build_failed : Failure
  send_failed : Failure

pub data Outcome : Type 0 where
  failed : Failure → Outcome
  -- the id of the message in the bridge's database
  done : Text → Outcome

-- what is left behind: the state, the room, the call of the sender if there was one, whether the
-- message was put into the Sent folder, and the result
pub record Reply : Type 0 where
  pub main : Main
  pub room : Room
  pub sending : Option Sending
  pub appended : Bool
  pub outcome : Outcome

-- MarkPortalNextReplyDM
unfoldable pub mark_portal_next_reply_dm : Text → Main → Main
mark_portal_next_reply_dm portal_id m = record m {
  pending_dm_replies = portal_id ∷ m.pending_dm_replies;
}

unfoldable pub without : Text → List Text → List Text
unfolding text_eq
without k [] = []
without k (j ∷ ks) = let rest = without k ks in if text_eq j k then rest else j ∷ rest

unfoldable pub holds : Text → List Text → Bool
unfolding text_eq
holds k [] = false
holds k (j ∷ ks) = text_eq j k || holds k ks

-- consumePortalNextReplyDM
unfoldable pub consume_portal_next_reply_dm : Text → Main → Main × Bool
unfolding without holds
consume_portal_next_reply_dm portal_id m =
    if holds portal_id m.pending_dm_replies
    then (record m { pending_dm_replies = without portal_id m.pending_dm_replies }, true)
    else (m, false)

abbrev fail : Main → Room → Option Sending → Failure → Reply
fail m room sending why = record {
  main = m;
  room = room;
  sending = sending;
  appended = false;
  outcome = failed why;
}

-- what resolveReplyAllRecipients and resolveDMRecipients answer, To and Cc
abbrev no_cc : Result (List Address) → Result (List Address × List Address)
no_cc (error e) = error e
no_cc (ok a) = ok (a, [])

-- the thread with the subject that a draft gets
unfoldable pub with_subject : Text → EmailThread → EmailThread
unfolding trim_space derive_subject_from_body
with_subject body t =
    if t.is_draft && is_empty (trim_space t.subject)
    then record t { subject = derive_subject_from_body body }
    else t

unfoldable pub chain_of : EmailThread → Option Text → Text × List Text
unfolding compute_reply_chain
chain_of t reply_to = if t.is_draft then ([], []) else compute_reply_chain t reply_to

abbrev pub addresses : List Address → List Text
addresses = map (λ a. a.address)

-- the key under which the message is remembered
unfoldable pub dedup_key : Text → OutgoingMessage → Text
unfolding unbracket
dedup_key server_id om = if is_empty server_id then unbracket om.message_id else unbracket server_id

-- Record, whose failure is only logged
unfoldable pub remember : ℕ → Text → Text → Text → Option SentDedupQuery → Option SentDedupQuery
unfolding record_sent
remember now receiver key event_id none = none
remember now receiver key event_id (some q) = elim (record_sent now receiver key event_id q) [
  | none ↦ some q
  | some q' ↦ some q'
]

abbrev has_sender : Option Provider → Bool
has_sender none = false
has_sender (some p) = true

abbrev is_smtp : Option Provider → Bool
is_smtp (some smtp) = true
is_smtp _ = false

module _ (w : Outside) (c : EmailClient) where
  -- behind the call of the sender
  unfoldable pub finish : ℕ → Room → MatrixMessage → OutgoingMessage → Sending → Main → Text → Reply
  unfolding dedup_key remember sent write cache_thread metadata_of
  finish r room msg om call m server_id =
      let key = dedup_key server_id om in
      let t = sent key (m.thread_manager.cells r) in
      record {
        main = record m {
          sent_dedup = remember w.recorded_at c.login_id key msg.event_id m.sent_dedup;
          thread_manager = cache_thread w.cached_at c.login_id r (write r t m.thread_manager);
        };
        room = record room { metadata = some (metadata_of t) };
        sending = some call;
        appended = is_smtp c.sender && c.has_imap;
        outcome = done (codes "email:" ++ key);
      }

  -- behind Send
  unfoldable pub answered :
      ℕ → Room → MatrixMessage → OutgoingMessage → Sending → Main → Option Text → Reply
  unfolding finish
  answered r room msg om call m none = fail m room (some call) send_failed
  answered r room msg om call m (some server_id) = finish r room msg om call m server_id

  -- behind BuildMIME
  unfoldable pub dispatch :
      ℕ → Room → MatrixMessage → Text → OutgoingMessage → Main → Option Text → Reply
  unfolding answered
  dispatch r room msg from_addr om m none = fail m room none build_failed
  dispatch r room msg from_addr om m (some mime) =
      let call : Sending = record {
        mime = mime;
        from = from_addr;
        to_ = addresses om.to_ ++ addresses om.cc;
        thread_id = (m.thread_manager.cells r).gmail_thread_id;
      } in
      answered r room msg om call m (w.send call)

  -- the message to the recipients
  unfoldable pub compose :
      ℕ → Room → MatrixMessage → EmailThread → List Address × List Address → OutgoingMessage
  unfolding chain_of pick_from_address selves_set own_addresses build_outgoing_message signed titled
  compose r room msg t recipients =
      let from =
        pick_from_address c.email c.aliases t (selves_set (own_addresses c.email c.aliases)) in
      titled w t.is_draft t (
        signed w c.signature
          (build_outgoing_message w from t msg (chain_of t msg.reply_to) recipients))

  unfoldable pub recipients_of : EmailThread → Bool → Result (List Address × List Address)
  unfolding resolve_dm_recipients resolve_reply_all_recipients own_addresses
  recipients_of t dm_mode =
      if dm_mode
      then no_cc (resolve_dm_recipients w.parse t (own_addresses c.email c.aliases))
      else resolve_reply_all_recipients w.parse t (own_addresses c.email c.aliases)

  -- behind the download of the media
  unfoldable pub loaded : ℕ → Room → MatrixMessage → Main → Option OutgoingMessage → Reply
  unfolding pick_from_address dispatch own_addresses selves_set
  loaded r room msg m none = fail m room none download_failed
  loaded r room msg m (some om) =
      let selves = selves_set (own_addresses c.email c.aliases) in
      let from = pick_from_address c.email c.aliases (m.thread_manager.cells r) selves in
      dispatch r room msg from.0 om m (w.build_mime om)

  -- behind the choice of the recipients
  unfoldable pub deliver :
      ℕ → Room → MatrixMessage → Main → Result (List Address × List Address) → Reply
  unfolding compose with_media loaded
  deliver r room msg m (error e) = fail m room none (refused e)
  deliver r room msg m (ok recipients) =
      loaded r room msg m
        (with_media w msg.has_media (compose r room msg (m.thread_manager.cells r) recipients))

  -- once the thread is found
  unfoldable pub send_in_thread : ℕ → Room → MatrixMessage → Main → Reply
  unfolding with_subject write consume_portal_next_reply_dm recipients_of deliver
  send_in_thread r room msg m =
      let t = with_subject msg.body (m.thread_manager.cells r) in
      let m1 = record m { thread_manager = write r t m.thread_manager } in
      let (m2, dm_mode) = consume_portal_next_reply_dm room.id m1 in
      deliver r room msg m2 (recipients_of t dm_mode)

  -- behind the search for the thread
  unfoldable pub in_thread : Room → MatrixMessage → Main → Option ℕ → Reply
  unfolding send_in_thread
  in_thread room msg m none = fail m room none no_thread
  in_thread room msg m (some r) = send_in_thread r room msg m

  -- behind the test for a sender
  unfoldable pub outbound : Room → Option MatrixMessage → Main → Reply
  unfolding resolve_thread_for_portal_with_metadata in_thread
  outbound room none m = fail m room none invalid_message
  outbound room (some msg) m =
      let (tm, found) =
        resolve_thread_for_portal_with_metadata w.now w.restored_at c.login_id room.id room.metadata
          m.thread_manager in
      if not (is_empty msg.replace_id)
      then fail m room none edit
      else in_thread room msg (record m { thread_manager = tm }) found

  unfoldable pub handle_matrix_message_outbound : Room → Option MatrixMessage → Main → Reply
  unfolding outbound
  handle_matrix_message_outbound room msg m =
      if has_sender c.sender then outbound room msg m else fail m room none no_sender

-- ===== src/Connector/Portal/Restored.antt =====
-- A room whose thread has left the cache: what a message sent from it takes from the thread.
use matrimail.Connector.Outbound.{compose, chain_of, recipients_of, with_subject, Room, EmailClient}
use matrimail.Connector.Outgoing.{
  signed, OutgoingMessage, titled, reply_html, reply_text, build_outgoing_message, MatrixMessage,
  Outside,
}
use matrimail.Prelude.{
  Bool-cases, inl, inr, ◌&&◌, Bool, List, Option, Text, ap, arith, false, none, refl, some, text_eq,
  true, ℕ, ◌++◌, ◌==◌, ◌∙◌, ◌≡◌,
}
use matrimail.Prelude.Strings.{trim_space, text_eq_refl, trim_prefix, has_prefix}
use matrimail.Email.Threading.{EmailThread, is_empty}
use matrimail.Email.Threading.Manager.{
  ThreadManager, store, cache_thread, update_message_id_index, alloc, update,
}
use matrimail.Email.Threading.Determine.Continuity.{cells-touch}
use matrimail.Email.Threading.Determine.Conversation.{cells-enforce_limit}
use matrimail.Connector.Send.{
  own_addresses, selves_set, Address, compute_reply_chain, resolve_reply_all_recipients,
  resolve_dm_recipients, pick_from_address,
}
use matrimail.Connector.Portal.{
  prefix, metadata_of, restore, from_metadata, or_restore, resolve_thread_for_portal,
  resolve_thread_for_portal_with_metadata,
}

pub trim_prefix-prefix : (s : Text) → trim_prefix (prefix ++ s) prefix ≡ s
unfolding trim_prefix has_prefix
trim_prefix-prefix s = refl

pub cells-cache_thread :
    (now : ℕ) (receiver : Text) (r : ℕ) (tm : ThreadManager)
    → is_empty (tm.cells r).thread_id ≡ false
    → (cache_thread now receiver r tm).cells r ≡ record (tm.cells r) { last_accessed = now }
unfolding cache_thread store update_message_id_index
cells-cache_thread now receiver r tm ne =
    rw ne
      (ap (λ cells. cells r) (cells-enforce_limit (store now receiver r tm)) ∙ cells-touch now r tm)

-- `t`, made of nothing but the metadata and its last use
abbrev pub restored : ℕ → EmailThread → EmailThread
restored now t = record (restore (metadata_of t)) { last_accessed = now }

cells-alloc : (t : EmailThread) (tm : ThreadManager) → (alloc t tm).0.cells tm.next ≡ t
unfolding alloc update
cells-alloc t tm = let same : (tm.next == tm.next) ≡ true = ground arith in rw same

cells-from_metadata :
    (now : ℕ) (receiver : Text) (t : EmailThread) (tm : ThreadManager)
    → is_empty t.thread_id ≡ false
    → let (tm', o) = from_metadata now receiver (prefix ++ t.thread_id) (some (metadata_of t)) tm in
      (o ≡ some tm.next) × (tm'.cells tm.next ≡ restored now t)
unfolding from_metadata metadata_of restore alloc
cells-from_metadata now receiver t tm ne =
    let same : text_eq t.thread_id (trim_prefix (prefix ++ t.thread_id) prefix) ≡ true =
      ap (text_eq t.thread_id) (trim_prefix-prefix t.thread_id) ∙ text_eq_refl t.thread_id in
    let here = cells-alloc (restore (metadata_of t)) tm in
    rw (ne, same)
      (
        refl,
        cells-cache_thread now receiver tm.next (alloc (restore (metadata_of t)) tm).0
              (ap (λ (u : EmailThread). is_empty u.thread_id) here ∙ ne)
            ∙ ap (λ (u : EmailThread). record u { last_accessed = now }) here,
      )

-- What the handler makes of a message from the room is the same of `u` as of `t`: the subject that a
-- draft is given, the recipients, in reply to all or to the sender, the whole message, and the thread
-- id for Gmail.
abbrev pub SendsAlike :
    Outside → EmailClient → ℕ → Room → MatrixMessage → EmailThread → EmailThread → Type 0
SendsAlike w c r room msg u t =
    let u' = with_subject msg.body u in
    let t' = with_subject msg.body t in
    ((dm : Bool) → recipients_of w c u' dm ≡ recipients_of w c t' dm)
    × ((recipients : List Address × List Address)
        → compose w c r room msg u' recipients ≡ compose w c r room msg t' recipients)
    × (u'.gmail_thread_id ≡ t'.gmail_thread_id)
    × (u'.is_draft ≡ t'.is_draft)

module _ (w : Outside) (c : EmailClient) (ref : ℕ) (room : Room) (msg : MatrixMessage) where
  chain_of-restored :
      (now : ℕ) (t : EmailThread) (o : Option Text) → chain_of (restored now t) o ≡ chain_of t o
  unfolding chain_of compute_reply_chain restore metadata_of
  chain_of-restored now t none = refl
  chain_of-restored now t (some id) = refl

  recipients_of-restored :
      (now : ℕ) (t : EmailThread) (dm : Bool)
      → recipients_of w c (restored now t) dm ≡ recipients_of w c t dm
  unfolding recipients_of resolve_reply_all_recipients resolve_dm_recipients restore metadata_of
  recipients_of-restored now t true = refl
  recipients_of-restored now t false = refl

  reply_text-restored :
      (now : ℕ) (t : EmailThread) (in_reply_to body : Text)
      → reply_text w (restored now t) in_reply_to body ≡ reply_text w t in_reply_to body
  unfolding reply_text restore metadata_of
  reply_text-restored now t in_reply_to body = refl

  reply_html-restored :
      (now : ℕ) (t : EmailThread) (in_reply_to : Text)
      → reply_html w (restored now t) in_reply_to msg ≡ reply_html w t in_reply_to msg
  unfolding reply_html restore metadata_of
  reply_html-restored now t in_reply_to = refl

  build_outgoing_message-restored :
      (now : ℕ) (t : EmailThread) (from : Text × Text) (chain : Text × List Text)
      (recipients : List Address × List Address)
      → build_outgoing_message w from (restored now t) msg chain recipients
        ≡ build_outgoing_message w from t msg chain recipients
  unfolding build_outgoing_message restore metadata_of
  build_outgoing_message-restored now t (address, name) (in_reply_to, references) (to_, cc) =
      rw (reply_text-restored now t in_reply_to msg.body, reply_html-restored now t in_reply_to)
        refl

  pick_from_address-restored :
      (now : ℕ) (t : EmailThread) (selves : List Text)
      → pick_from_address c.email c.aliases (restored now t) selves
        ≡ pick_from_address c.email c.aliases t selves
  unfolding pick_from_address restore metadata_of
  pick_from_address-restored now t selves = refl

  titled-restored :
      (now : ℕ) (t : EmailThread) (om : OutgoingMessage)
      → titled w (restored now t).is_draft (restored now t) om ≡ titled w t.is_draft t om
  unfolding titled restore metadata_of
  titled-restored now t om = refl

  compose-restored :
      (now : ℕ) (t : EmailThread) (recipients : List Address × List Address)
      → compose w c ref room msg (restored now t) recipients ≡ compose w c ref room msg t recipients
  unfolding compose
  compose-restored now t recipients =
      let selves = selves_set (own_addresses c.email c.aliases) in
      let from = pick_from_address c.email c.aliases t selves in
      let from' = pick_from_address c.email c.aliases (restored now t) selves in
      let chain' = chain_of (restored now t) msg.reply_to in
      titled-restored now t (
        signed w c.signature
          (build_outgoing_message w from' (restored now t) msg chain' recipients))
      ∙ ap (λ om. titled w t.is_draft t (signed w c.signature om))
          (build_outgoing_message-restored now t from' chain' recipients
            ∙ ap (λ f. build_outgoing_message w f t msg chain' recipients)
                (pick_from_address-restored now t selves)
            ∙ ap (λ ch. build_outgoing_message w from t msg ch recipients)
                (chain_of-restored now t msg.reply_to))

  with_subject-restored :
      (now : ℕ) (body : Text) (t : EmailThread)
      → with_subject body (restored now t) ≡ restored now (with_subject body t)
  unfolding with_subject restore metadata_of
  with_subject-restored now body t =
      elim (Bool-cases (t.is_draft && is_empty (trim_space t.subject))) [
        | inl y ↦ rw y refl
        | inr n ↦ rw n refl
      ]

  gmail_thread_id-restored :
      (now : ℕ) (t : EmailThread)
      → ((restored now t).gmail_thread_id ≡ t.gmail_thread_id)
        × ((restored now t).is_draft ≡ t.is_draft)
  unfolding restore metadata_of
  gmail_thread_id-restored now t = (refl, refl)

  SendsAlike-restored :
      (now : ℕ) (t u : EmailThread) → u ≡ restored now t → SendsAlike w c ref room msg u t
  SendsAlike-restored now t u h =
      let t' = with_subject msg.body t in
      let same : with_subject msg.body u ≡ restored now t' =
        ap (with_subject msg.body) h ∙ with_subject-restored now msg.body t in
      let (gmail, draft) = gmail_thread_id-restored now t' in
      (
        λ dm. ap (λ v. recipients_of w c v dm) same ∙ recipients_of-restored now t' dm,
        λ recipients.
            ap (λ v. compose w c ref room msg v recipients) same
            ∙ compose-restored now t' recipients,
        ap (λ (v : EmailThread). v.gmail_thread_id) same ∙ gmail,
        ap (λ (v : EmailThread). v.is_draft) same ∙ draft,
      )

  or_restore-metadata_of :
      (now : ℕ) (receiver : Text) (t : EmailThread) (q : ThreadManager × Option ℕ)
      → is_empty t.thread_id ≡ false
      → q.1 ≡ none
      → let (tm', o) = or_restore now receiver (prefix ++ t.thread_id) (some (metadata_of t)) q in
        (r : ℕ) × (o ≡ some r) × SendsAlike w c ref room msg (tm'.cells r) t
  unfolding or_restore
  or_restore-metadata_of now receiver t (tm, some r) ne h = cc
  or_restore-metadata_of now receiver t (tm, none) ne h =
      let (e, c) = cells-from_metadata now receiver t tm ne in
      (tm.next, e, SendsAlike-restored now t _ c)

  -- If the thread of a room, with a non-empty id, is not found in the cache, the room's metadata,
  -- saved behind its last message, brings back a thread of which the handler makes the same of any next
  -- message, whether the thread is a draft or not: the same recipients, in reply to all or to the
  -- sender, the same message, with its From, subject, parent, references and quotation, and the same
  -- thread id for Gmail.
  pub resolve_thread_for_portal_with_metadata-metadata_of :
      (now now' : ℕ) (receiver : Text) (t : EmailThread) (tm : ThreadManager)
      → is_empty t.thread_id ≡ false
      → (resolve_thread_for_portal now receiver (prefix ++ t.thread_id) tm).1 ≡ none
      → let (tm', o) =
          resolve_thread_for_portal_with_metadata now now' receiver
            (prefix ++ t.thread_id)
            (some (metadata_of t))
            tm in
        (r : ℕ) × (o ≡ some r) × SendsAlike w c ref room msg (tm'.cells r) t
  unfolding resolve_thread_for_portal_with_metadata
  resolve_thread_for_portal_with_metadata-metadata_of now now' receiver t tm ne miss =
      or_restore-metadata_of now' receiver t
        (resolve_thread_for_portal now receiver (prefix ++ t.thread_id) tm) ne miss

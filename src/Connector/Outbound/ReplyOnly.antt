-- ===== src/Connector/Outbound/ReplyOnly.antt =====
-- To whom a message from a room goes, and the switch for a reply to the sender alone.
use matrimail.Connector.Send.ReplyAll.{resolve_dm_recipients_lem}
use matrimail.Connector.Portal.{resolve_thread_for_portal_with_metadata}
use matrimail.Email.Threading.Manager.{write, ThreadManager}
use mathlib.Core.Path.{ap₂}
use matrimail.Prelude.{
  Bool-cases, [], ap, inl, inr, ◌∷◌, Bool, List, Option, Text, arith, false, none, refl, some, sym,
  true, ℕ, ◌++◌, ◌∙◌, ◌≡◌,
}
use matrimail.Email.Threading.{is_empty, member, EmailThread}
use matrimail.Connector.Send.{
  resolve_dm_recipients, key, selves_set, pick_from_address, Address, Result, error, ok,
  own_addresses,
}
use matrimail.Connector.Outgoing.{
  MatrixMessage, OutgoingMessage, Sending, Outside, build_outgoing_message, signed, titled,
  with_media,
}
use matrimail.Connector.Outbound.{
  no_cc, resolve_dm_recipients, is_empty, has_sender, outbound, write, send_in_thread, in_thread,
  with_subject, recipients_of, resolve_thread_for_portal_with_metadata, without,
  handle_matrix_message_outbound, ThreadManager, consume_portal_next_reply_dm, holds, loaded,
  answered, chain_of, selves_set, pick_from_address, Room, EmailClient, Main, addresses, compose,
  finish, dispatch, deliver,
}

module _ (w : Outside) where
  signed-recipients :
      (signature : Text) (om : OutgoingMessage)
      → ((signed w signature om).to_ ≡ om.to_) × ((signed w signature om).cc ≡ om.cc)
  unfolding signed
  signed-recipients signature om = ground arith

  titled-recipients :
      (draft : Bool) (t : EmailThread) (om : OutgoingMessage)
      → ((titled w draft t om).to_ ≡ om.to_) × ((titled w draft t om).cc ≡ om.cc)
  unfolding titled
  titled-recipients draft t om = ground arith

  with_media-recipients :
      (media : Bool) (om om' : OutgoingMessage)
      → with_media w media om ≡ some om'
      → (om'.to_ ≡ om.to_) × (om'.cc ≡ om.cc)
  unfolding with_media
  with_media-recipients false om om' h = ground arith
  with_media-recipients true om om' h = ground arith

  module _ (c : EmailClient) where
    compose-recipients :
        (r : ℕ) (room : Room) (msg : MatrixMessage) (t : EmailThread) (to_ cc : List Address)
        → ((compose w c r room msg t (to_, cc)).to_ ≡ to_)
          × ((compose w c r room msg t (to_, cc)).cc ≡ cc)
    unfolding compose build_outgoing_message
    compose-recipients r room msg t to_ cc =
        let from =
          pick_from_address c.email c.aliases t (selves_set (own_addresses c.email c.aliases)) in
        let built = build_outgoing_message w from t msg (chain_of t msg.reply_to) (to_, cc) in
        let (t1, t2) = titled-recipients t.is_draft t (signed w c.signature built) in
        let (s1, s2) = signed-recipients c.signature built in (t1 ∙ s1, t2 ∙ s2)

    answered-sending :
        (r : ℕ) (room : Room) (msg : MatrixMessage) (om : OutgoingMessage) (call : Sending)
        (m : Main) (answer : Option Text)
        → (answered w c r room msg om call m answer).sending ≡ some call
    unfolding answered finish
    answered-sending r room msg om call m none = refl
    answered-sending r room msg om call m (some id) = refl

    dispatch-sending :
        (r : ℕ) (room : Room) (msg : MatrixMessage) (from_addr : Text) (om : OutgoingMessage)
        (m : Main) (mime : Option Text) (s : Sending)
        → (dispatch w c r room msg from_addr om m mime).sending ≡ some s
        → s.to_ ≡ addresses om.to_ ++ addresses om.cc
    unfolding dispatch
    dispatch-sending r room msg from_addr om m none s h = cc
    dispatch-sending r room msg from_addr om m (some mime) s h =
        let call : Sending = record {
          mime = mime;
          from = from_addr;
          to_ = addresses om.to_ ++ addresses om.cc;
          thread_id = (m.thread_manager.cells r).gmail_thread_id;
        } in
        let e : some call ≡ some s =
          sym (answered-sending r room msg om call m (w.send call)) ∙ h in
        ground (arith, e)

    loaded-sending :
        (r : ℕ) (room : Room) (msg : MatrixMessage) (m : Main) (om : OutgoingMessage)
        (o : Option OutgoingMessage) (s : Sending)
        → with_media w msg.has_media om ≡ o
        → (loaded w c r room msg m o).sending ≡ some s
        → s.to_ ≡ addresses om.to_ ++ addresses om.cc
    unfolding loaded
    loaded-sending r room msg m om none s e h = cc
    loaded-sending r room msg m om (some om') s e h =
        let (to_, cc) = with_media-recipients msg.has_media om om' e in
        dispatch-sending r room msg _ om' m (w.build_mime om') s h
        ∙ ap₂ (λ x y. addresses x ++ addresses y) to_ cc

    -- the recipients that were chosen
    deliver-sending :
        (r : ℕ) (room : Room) (msg : MatrixMessage) (m : Main)
        (found : Result (List Address × List Address)) (s : Sending)
        → (deliver w c r room msg m found).sending ≡ some s
        → (to_ : List Address) × (cc : List Address) × (found ≡ ok (to_, cc))
          × (s.to_ ≡ addresses to_ ++ addresses cc)
    unfolding deliver
    deliver-sending r room msg m (error e) s h = cc
    deliver-sending r room msg m (ok (to_, cc)) s h =
        let t = m.thread_manager.cells r in
        let (et, ec) = compose-recipients r room msg t to_ cc in
        (
          to_,
          cc,
          refl,
          loaded-sending r room msg m (compose w c r room msg t (to_, cc)) _ s refl h
              ∙ ap₂ (λ x y. addresses x ++ addresses y) et ec,
        )

holds-without : (k : Text) (ks : List Text) → holds k (without k ks) ≡ false
unfolding holds without
holds-without k [] = refl
holds-without k (j ∷ ks) = ground (arith, holds-without k ks)

-- the three parts of what is left of the state and the answer
consumed :
    (id : Text) (m : Main)
    → ((consume_portal_next_reply_dm id m).1 ≡ holds id m.pending_dm_replies)
      × ((consume_portal_next_reply_dm id m).0.thread_manager ≡ m.thread_manager)
      × (holds id (consume_portal_next_reply_dm id m).0.pending_dm_replies ≡ false)
unfolding consume_portal_next_reply_dm
consumed id m = ground (arith, holds-without id m.pending_dm_replies)

module _ (w : Outside) (c : EmailClient) where
  -- the thread in which a message is sent, and to whom
  pub record IsSentTo (room : Room) (msg : MatrixMessage) (m : Main) (dm : Bool) (s : Sending)
      : Type 0 where
    pub manager : ThreadManager
    pub ref : ℕ
    pub found :
        resolve_thread_for_portal_with_metadata w.now w.restored_at c.login_id room.id room.metadata
          m.thread_manager
        ≡ (manager, some ref)
    pub to_ : List Address
    pub cc : List Address
    pub chosen : recipients_of w c (with_subject msg.body (manager.cells ref)) dm ≡ ok (to_, cc)
    pub called : s.to_ ≡ addresses to_ ++ addresses cc

  in_thread-some :
      (room : Room) (msg : MatrixMessage) (m : Main) (found : Option ℕ) (s : Sending)
      → (in_thread w c room msg m found).sending ≡ some s
      → (r : ℕ) × (found ≡ some r)
        × (in_thread w c room msg m found ≡ send_in_thread w c r room msg m)
  unfolding in_thread
  in_thread-some room msg m none s h = cc
  in_thread-some room msg m (some r) s h = (r, refl, refl)

  abbrev resolved : Room → Main → ThreadManager × Option ℕ
  resolved room m =
      resolve_thread_for_portal_with_metadata w.now w.restored_at c.login_id room.id room.metadata
        m.thread_manager

  abbrev at_thread : Room → Main → Main
  at_thread room m = record m { thread_manager = (resolved room m).0 }

  outbound-some :
      (room : Room) (msg : MatrixMessage) (m : Main) (s : Sending)
      → (outbound w c room (some msg) m).sending ≡ some s
      → (r : ℕ) × ((resolved room m).1 ≡ some r)
        × (outbound w c room (some msg) m ≡ send_in_thread w c r room msg (at_thread room m))
  unfolding outbound
  outbound-some room msg m s h = elim (Bool-cases (is_empty msg.replace_id)) [
    | inl e ↦ rw e (in_thread-some room msg (at_thread room m) (resolved room m).1 s (rw e at h))
    | inr n ↦ let none_sent : none ≡ some s = rw n at h in cc
  ]

  handle-some :
      (room : Room) (msg : MatrixMessage) (m : Main) (s : Sending)
      → (handle_matrix_message_outbound w c room (some msg) m).sending ≡ some s
      → (r : ℕ) × ((resolved room m).1 ≡ some r)
        × (handle_matrix_message_outbound w c room (some msg) m
            ≡ send_in_thread w c r room msg (at_thread room m))
  unfolding handle_matrix_message_outbound
  handle-some room msg m s h = elim (Bool-cases (has_sender c.sender)) [
    | inl e ↦ rw e (outbound-some room msg m s (rw e at h))
    | inr n ↦ let none_sent : none ≡ some s = rw n at h in cc
  ]

  abbrev written : ℕ → MatrixMessage → Main → Main
  written r msg m = record m {
    thread_manager = write r (with_subject msg.body (m.thread_manager.cells r)) m.thread_manager;
  }

  send_in_thread_lem :
      (r : ℕ) (room : Room) (msg : MatrixMessage) (m : Main)
      → send_in_thread w c r room msg m ≡ (
          let after = consume_portal_next_reply_dm room.id (written r msg m) in
          deliver w c r room msg after.0
            (recipients_of w c (with_subject msg.body (m.thread_manager.cells r)) after.1))
  unfolding send_in_thread
  send_in_thread_lem r room msg m = refl

  -- Whatever is sent goes to the recipients that the thread of the room gives, to the sender alone
  -- if the room is marked, and to all if it is not.
  pub handle-IsSentTo :
      (room : Room) (msg : MatrixMessage) (m : Main) (s : Sending)
      → (handle_matrix_message_outbound w c room (some msg) m).sending ≡ some s
      → IsSentTo room msg m (holds room.id m.pending_dm_replies) s
  handle-IsSentTo room msg m s h =
      let (r, f, e) = handle-some room msg m s h in
      let m1 = written r msg (at_thread room m) in
      let after = consume_portal_next_reply_dm room.id m1 in
      let t = with_subject msg.body ((resolved room m).0.cells r) in
      let (dm, same, spent) = consumed room.id m1 in
      let (to_, cc, chosen, called) =
        deliver-sending w c r room msg after.0 (recipients_of w c t after.1) s
          (ap (λ x. x.sending) (sym (e ∙ send_in_thread_lem r room msg (at_thread room m))) ∙ h) in
      record {
        manager = (resolved room m).0;
        ref = r;
        found = ap (λ o. ((resolved room m).0, o)) f;
        to_ = to_;
        cc = cc;
        chosen = rw dm at chosen;
        called = called;
      }

with_subject-last_from :
    (body : Text) (t : EmailThread) → (with_subject body t).last_from ≡ t.last_from
unfolding with_subject
with_subject-last_from body t = ground arith

no_cc-ok :
    (d : Result (List Address)) (to_ cc : List Address)
    → no_cc d ≡ ok (to_, cc)
    → (d ≡ ok to_) × (cc ≡ [])
no_cc-ok (error e) to_ others h = cc
no_cc-ok (ok a) to_ others h = ground (arith, h)

recipients_of-marked :
    (w : Outside) (c : EmailClient) (t : EmailThread) (to_ cc : List Address)
    → recipients_of w c t true ≡ ok (to_, cc)
    → (resolve_dm_recipients w.parse t (own_addresses c.email c.aliases) ≡ ok to_) × (cc ≡ [])
unfolding recipients_of
recipients_of-marked w c t to_ cc h = no_cc-ok _ to_ cc h

-- In a room that is marked for a reply to the sender alone, a message that reaches the sender goes
-- to one address only, that of the last message's sender, which is not one of the user.
pub handle-marked :
    (w : Outside) (c : EmailClient) (room : Room) (msg : MatrixMessage) (m : Main) (s : Sending)
    → holds room.id m.pending_dm_replies ≡ true
    → (handle_matrix_message_outbound w c room (some msg) m).sending ≡ some s
    → (manager : ThreadManager) × (ref : ℕ) × (a : Address)
      × (resolve_thread_for_portal_with_metadata w.now w.restored_at c.login_id room.id
            room.metadata m.thread_manager
          ≡ (manager, some ref))
      × (w.parse (manager.cells ref).last_from ≡ some a)
      × (s.to_ ≡ a.address ∷ [])
      × (member (key a) (selves_set (own_addresses c.email c.aliases)) ≡ false)
handle-marked w c room msg m s marked h =
    let sent_to : IsSentTo w c room msg m true s =
      rw marked at (handle-IsSentTo w c room msg m s h) in
    let t = with_subject msg.body (sent_to.manager.cells sent_to.ref) in
    let own = own_addresses c.email c.aliases in
    let (d, n) = recipients_of-marked w c t sent_to.to_ sent_to.cc sent_to.chosen in
    let (a, e, p, f) = resolve_dm_recipients_lem w.parse t own sent_to.to_ d in
    (
      sent_to.manager,
      sent_to.ref,
      a,
      sent_to.found,
      ap w.parse (sym (with_subject-last_from msg.body (sent_to.manager.cells sent_to.ref))) ∙ p,
      sent_to.called ∙ ap₂ (λ x y. addresses x ++ addresses y) e n,
      f,
    )

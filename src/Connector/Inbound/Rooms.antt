-- ===== src/Connector/Inbound/Rooms.antt =====
-- The room of an inbound message leads back to its thread.
use matrimail.Prelude.{Text, ap, arith, false, length, ltb, some, sym, true, ℕ, ◌++◌, ◌-◌, ◌<◌, ◌≡◌}
use matrimail.Prelude.TextMap.{put, lookup, lookup-put}
use matrimail.Prelude.Strings.{text_eq_refl}
use matrimail.Email.Threading.{EmailThread, ParsedEmail, Externals, is_empty}
use matrimail.Email.Threading.Manager.{
  ThreadManager, scoped, store, touch, cache_thread, update_message_id_index, get_thread_by_id,
  cleanup_expired_threads_if_needed, found_or, hour, max_cached_threads,
}
use matrimail.Email.Threading.Determine.{determine_thread}
use matrimail.Email.Threading.Determine.Continuity.{cache_thread-store}
use matrimail.Email.Threading.Determine.Conversation.{thread_of}
use matrimail.Email.Processor.{
  portal_prefix, Processor, EmailMessage, process_parsed_email, forwarded, file, with_delivered_to,
}
use matrimail.Connector.Portal.{prefix, resolve_thread_for_portal}
use matrimail.Connector.Portal.Restored.{trim_prefix-prefix, cells-cache_thread}

get_thread_by_id-store :
    (now later : ℕ) (receiver : Text) (r : ℕ) (tm : ThreadManager)
    → later - tm.last_cleanup < hour
    → (get_thread_by_id later receiver (tm.cells r).thread_id (store now receiver r tm)).1 ≡ some r
unfolding get_thread_by_id cleanup_expired_threads_if_needed store update_message_id_index touch
get_thread_by_id-store now later receiver r tm soon =
    let early : ltb (later - tm.last_cleanup) hour ≡ true = ground arith in
    let k = scoped receiver (tm.cells r).thread_id in
    let hit : lookup k (put k r tm.known_threads) ≡ some r =
      rw (lookup-put k k r tm.known_threads) (rw (text_eq_refl k)) in
    rw early (rw (hit, found_or))

resolve-cache_thread :
    (now later : ℕ) (receiver : Text) (r : ℕ) (tm : ThreadManager)
    → is_empty (tm.cells r).thread_id ≡ false
    → length tm.known_threads < max_cached_threads
    → later - tm.last_cleanup < hour
    → (resolve_thread_for_portal later receiver
        (prefix ++ (tm.cells r).thread_id)
        (cache_thread now receiver r tm)).1
      ≡ some r
unfolding resolve_thread_for_portal
resolve-cache_thread now later receiver r tm ne room soon =
    rw (trim_prefix-prefix (tm.cells r).thread_id) (
      rw ne (
        rw (cache_thread-store now receiver r tm ne room)
          (get_thread_by_id-store now later receiver r tm soon)))

process_parsed_email-file :
    (ext : Externals) (now now' : ℕ) (receiver mailbox : Text) (e : ParsedEmail) (p p' : Processor)
    (m : EmailMessage)
    → process_parsed_email ext now now' receiver mailbox e p ≡ (p', forwarded m)
    → file ext now now' receiver mailbox (with_delivered_to ext receiver p e) p ≡ (p', forwarded m)
unfolding process_parsed_email
process_parsed_email-file ext now now' receiver mailbox e p p' m h = ground arith

-- what `file` returns, in parts
file-parts :
    (ext : Externals) (now now' : ℕ) (receiver mailbox : Text) (e : ParsedEmail) (p p' : Processor)
    (m : EmailMessage)
    → file ext now now' receiver mailbox e p ≡ (p', forwarded m)
    → let (tm, r) = determine_thread ext now receiver e p.thread_manager in
      let tm' = cache_thread now' receiver r tm in
      (tm' ≡ p'.thread_manager)
      × (r ≡ m.thread)
      × (portal_prefix ++ (tm'.cells r).thread_id ≡ m.portal_id)
unfolding file
file-parts ext now now' receiver mailbox e p p' m h = (cc, cc, cc)

-- the thread of the message, before it is cached
abbrev pub placed : Externals → ℕ → Text → ParsedEmail → Processor → ThreadManager × ℕ
placed ext now receiver e p =
    determine_thread ext now receiver (with_delivered_to ext receiver p e) p.thread_manager

-- A message that is forwarded names a room from which, within the hour after the last clean-up,
-- the next message sent finds the thread in which the message was filed, if the thread has an id
-- and the cache had space for it.
pub resolve-process_parsed_email :
    (ext : Externals) (now now' later : ℕ) (receiver mailbox : Text) (e : ParsedEmail)
    (p p' : Processor) (m : EmailMessage)
    → process_parsed_email ext now now' receiver mailbox e p ≡ (p', forwarded m)
    → is_empty (thread_of (placed ext now receiver e p)).thread_id ≡ false
    → length (placed ext now receiver e p).0.known_threads < max_cached_threads
    → later - (placed ext now receiver e p).0.last_cleanup < hour
    → (resolve_thread_for_portal later receiver m.portal_id p'.thread_manager).1 ≡ some m.thread
resolve-process_parsed_email ext now now' later receiver mailbox e p p' m h ne room soon =
    let e' = with_delivered_to ext receiver p e in
    let (tm, r) = placed ext now receiver e p in
    let (here, same, id) =
      file-parts ext now now' receiver mailbox e' p p' m
        (process_parsed_email-file ext now now' receiver mailbox e p p' m h) in
    let kept : ((cache_thread now' receiver r tm).cells r).thread_id ≡ (tm.cells r).thread_id =
      ap (λ (t : EmailThread). t.thread_id) (cells-cache_thread now' receiver r tm ne) in
    rw (sym id) (
      rw (sym here)
        (rw (sym same) (rw kept (resolve-cache_thread now' later receiver r tm ne room soon))))

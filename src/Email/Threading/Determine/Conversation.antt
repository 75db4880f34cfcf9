-- ===== src/Email/Threading/Determine/Conversation.antt =====
-- A conversation holds together: what DetermineThread returns for a message goes by that message's
-- id, so that a reply to the message finds the same thread.
use matrimail.Prelude.{
  length, ◌<◌, Bool-cases, List, Option, Option-cases, Text, [], ap, arith, false, inl, inr, none,
  refl, some, true, ℕ, ◌==◌, ◌∙◌, ◌∷◌, ◌≡◌,
}
use matrimail.Prelude.TextMap.{lookup}
use matrimail.Email.Threading.{
  EmailThread, ParsedEmail, Externals, is_empty, is_forwarded_message, member,
}
use matrimail.Email.Threading.Manager.{
  cache_thread, max_cached_threads, ThreadManager, enforce_limit, evict_oldest_threads, update,
  write, alloc, drop_keys, drop_known, unindex, remove_from_message_id_index,
}
use matrimail.Email.Threading.Determine.{
  put, determine_thread, resolved_id, joined, new_thread, create_new_thread, add_to_existing_thread,
  by_resolver, join_or_create, join_resolved, find_cached,
}
use matrimail.Email.Threading.Determine.Participants.{member-append_unique}
use matrimail.Email.Threading.Determine.Continuity.{determine_thread-cache_thread, ids_of}
use matrimail.Prelude.Strings.{text_eq_refl}

joined-ids :
    (ext : Externals) (e : ParsedEmail) (t : EmailThread)
    → is_empty e.message_id ≡ false
    → member e.message_id (ids_of (joined ext e t)) ≡ true
unfolding joined member
joined-ids ext e t ne = rw ne (
    ground (
      arith,
      member-append_unique e.message_id t.references e.message_id,
      text_eq_refl e.message_id,
    ))

new_thread-ids :
    (ext : Externals) (now : ℕ) (e : ParsedEmail)
    → is_empty e.message_id ≡ false
    → member e.message_id (ids_of (new_thread ext now e)) ≡ true
unfolding new_thread member
new_thread-ids ext now e ne = rw (ne, text_eq_refl e.message_id) refl

cells-drop_known : (key : Text) (tm : ThreadManager) → (drop_known key tm).cells ≡ tm.cells
unfolding drop_known
cells-drop_known key tm = go (lookup key tm.known_threads)
  where
    go : (o : Option ℕ) → (unindex o tm).cells ≡ tm.cells
    go none = unfold unindex in refl
    go (some r) = unfold unindex remove_from_message_id_index in refl

cells-drop_keys : (keys : List Text) (tm : ThreadManager) → (drop_keys keys tm).cells ≡ tm.cells
unfolding drop_keys
cells-drop_keys [] tm = refl
cells-drop_keys (key ∷ keys) tm = cells-drop_keys keys (drop_known key tm) ∙ cells-drop_known key tm

pub cells-enforce_limit : (tm : ThreadManager) → (enforce_limit tm).cells ≡ tm.cells
unfolding enforce_limit evict_oldest_threads
cells-enforce_limit tm = grind (arith, cells-drop_keys)

-- the thread behind a result
abbrev pub thread_of : ThreadManager × ℕ → EmailThread
thread_of (tm, r) = tm.cells r

add_to_existing_thread-ids :
    (ext : Externals) (r : ℕ) (e : ParsedEmail) (tm : ThreadManager)
    → is_empty e.message_id ≡ false
    → member e.message_id (ids_of (thread_of (add_to_existing_thread ext r e tm))) ≡ true
unfolding add_to_existing_thread write update
add_to_existing_thread-ids ext r e tm ne =
    let same : (r == r) ≡ true = ground arith in rw same (joined-ids ext e (tm.cells r) ne)

create_new_thread-ids :
    (ext : Externals) (now : ℕ) (e : ParsedEmail) (tm : ThreadManager)
    → is_empty e.message_id ≡ false
    → member e.message_id (ids_of (thread_of (create_new_thread ext now e tm))) ≡ true
unfolding create_new_thread enforce_limit member alloc
create_new_thread-ids ext now e tm ne =
    let same : (tm.next == tm.next) ≡ true = ground arith in
    let kept = cells-enforce_limit (record (alloc (new_thread ext now e) tm).0 {
      known_threads =
          put (new_thread ext now e).thread_id tm.next
            (alloc (new_thread ext now e) tm).0.known_threads;
    }) in
    ap (λ cells. member e.message_id (ids_of (cells tm.next))) kept
    ∙ rw same (new_thread-ids ext now e ne)

join_resolved-ids :
    (ext : Externals) (now : ℕ) (receiver : Text) (e : ParsedEmail) (tid : Text)
    (tm : ThreadManager)
    → is_empty e.message_id ≡ false
    → member e.message_id (ids_of (thread_of (join_resolved ext now receiver e tid tm))) ≡ true
unfolding join_resolved
join_resolved-ids ext now receiver e tid tm ne = add_to_existing_thread-ids ext _ e _ ne

by_resolver-ids :
    (ext : Externals) (now : ℕ) (receiver : Text) (e : ParsedEmail) (tm : ThreadManager)
    (o : Option Text)
    → is_empty e.message_id ≡ false
    → member e.message_id (ids_of (thread_of (by_resolver ext now receiver e tm o))) ≡ true
unfolding by_resolver
by_resolver-ids ext now receiver e tm (some tid) ne = join_resolved-ids ext now receiver e tid tm ne
by_resolver-ids ext now receiver e tm none ne = elim (Option-cases (find_cached receiver e tm)) [
  | inr (r, h) ↦ rw h (unfold join_or_create in add_to_existing_thread-ids ext r e tm ne)
  | inl h ↦ rw h (unfold join_or_create in create_new_thread-ids ext now e tm ne)
]

-- On every branch of DetermineThread, the thread that is returned for a message with a Message-ID
-- goes by this id.
pub determine_thread-ids :
    (ext : Externals) (now : ℕ) (receiver : Text) (e : ParsedEmail) (tm : ThreadManager)
    → is_empty e.message_id ≡ false
    → member e.message_id (ids_of (thread_of (determine_thread ext now receiver e tm))) ≡ true
unfolding determine_thread
determine_thread-ids ext now receiver e tm ne = elim (Bool-cases (is_forwarded_message e)) [
  | inl h ↦ rw h (create_new_thread-ids ext now e tm ne)
  | inr h ↦ rw h (by_resolver-ids ext now receiver e tm (resolved_id receiver e tm) ne)
]

-- what the caller keeps of a result: the manager after caching the thread
abbrev pub filed : ℕ → Text → ThreadManager × ℕ → ThreadManager
filed now receiver (tm, r) = cache_thread now receiver r tm

-- Once DetermineThread has placed a message with a Message-ID, whatever the message, the manager and
-- its resolver, and the thread, with an id of its own, is cached with room for it, a reply to the
-- message that is no forward, and of whose parents the resolver knows none for the account of the
-- reply, is placed in the same thread, for whichever account.
pub determine_thread-filed :
    (ext : Externals) (now now' now'' : ℕ) (receiver receiver' : Text) (e reply : ParsedEmail)
    (tm : ThreadManager)
    → is_empty e.message_id ≡ false
    → resolved_id receiver' reply (determine_thread ext now receiver e tm).0 ≡ none
    → is_empty (thread_of (determine_thread ext now receiver e tm)).thread_id ≡ false
    → length (determine_thread ext now receiver e tm).0.known_threads < max_cached_threads
    → is_forwarded_message reply ≡ false
    → reply.in_reply_to ≡ e.message_id
    → determine_thread ext now'' receiver' reply
        (filed now' receiver (determine_thread ext now receiver e tm))
      ≡ add_to_existing_thread ext
          (determine_thread ext now receiver e tm).1
          reply
          (filed now' receiver (determine_thread ext now receiver e tm))
determine_thread-filed ext now now' now'' receiver receiver' e reply tm ne n named_ room f same =
    let done = determine_thread ext now receiver e tm in
    determine_thread-cache_thread ext now' now'' receiver receiver' done.1 done.0 reply n named_
      room f (rw (same, ne)) (rw same (determine_thread-ids ext now receiver e tm ne))

-- ===== src/Email/Threading/Determine.antt =====
-- DetermineThread of pkg/email/threading.go: which thread a message joins, and what joining does.
-- Go's `map[string]bool` sets of participants are lists without repetition, in the order in which
-- their members were added, where Go leaves the order open.
pub mod Participants
pub mod Continuity
pub mod Conversation
use matrimail.Prelude.{List, Option, Text, [], false, if◌then◌else◌, none, some, ℕ, ◌∷◌}
use matrimail.Prelude.TextMap.{put}
use matrimail.Prelude.Strings.{to_lower}
use matrimail.Email.Threading.{
  EmailThread, ParsedEmail, Externals, empty_thread, is_empty, slice, cap_body,
  is_forwarded_message, extract_email_address, member, append_unique, generate_thread_id,
}
use matrimail.Email.Threading.Manager.{
  ThreadManager, alloc, write, get_thread_by_id, find_thread_by_message_id, find_by_gmail_thread_id,
  enforce_limit,
}

-- set[x] = true
abbrev pub add : Text → List Text → List Text
add x set = append_unique set x

-- `for _, p := range addrs { set[strings.ToLower(p)] = true }`
unfoldable pub add_lowered : List Text → List Text → List Text
add_lowered [] set = set
add_lowered (p ∷ ps) set = add_lowered ps (add (to_lower p) set)

unfoldable pub add_address : Externals → Text → List Text → List Text
add_address ext raw set =
    let a = extract_email_address ext raw in if is_empty a then set else add (to_lower a) set

unfoldable pub add_addresses : Externals → List Text → List Text → List Text
add_addresses ext [] set = set
add_addresses ext (raw ∷ raws) set = add_addresses ext raws (add_address ext raw set)

-- the sender, the To and the Cc recipients
unfoldable pub email_participants : Externals → ParsedEmail → List Text
email_participants ext e =
    add_addresses ext (slice e.cc) (add_addresses ext (slice e.to_) (add_address ext e.from []))

-- the members of one set that are not in the other
unfoldable pub minus : List Text → List Text → List Text
minus [] other = []
minus (x ∷ xs) other = let rest = minus xs other in if member x other then rest else x ∷ rest

unfoldable pub union : List Text → List Text → List Text
union xs [] = xs
union xs (y ∷ ys) = union (add y xs) ys

abbrev pub or_text : Text → Text → Text
or_text [] old = old
or_text (c ∷ s) old = c ∷ s

abbrev pub or_old {ℓ} : {A : Type ℓ} → Option A → A → A
or_old none old = old
or_old (some new) old = new

abbrev pub or_date : Option ℕ → Option ℕ → Option ℕ
or_date none old = old
or_date (some d) old = some d

-- what addToExistingThread makes of the thread
unfoldable pub joined : Externals → ParsedEmail → EmailThread → EmailThread
joined ext e t =
    let old = add_lowered t.participants [] in
    let current = email_participants ext e in
    record t {
      participants = union old current;
      added_participants = minus current old;
      removed_participants = minus old current;
      references =
          (if is_empty e.message_id then t.references else append_unique t.references e.message_id);
      gmail_thread_id = or_text e.gmail_thread_id t.gmail_thread_id;
      last_delivered_to = or_text e.delivered_to t.last_delivered_to;
      last_from = or_text e.from t.last_from;
      last_to = or_old e.to_ t.last_to;
      last_cc = or_old e.cc t.last_cc;
      last_date = or_date e.date t.last_date;
      last_text_body = cap_body e.text_content;
      last_html_body = cap_body e.html_content;
    }

unfoldable pub add_to_existing_thread :
    Externals → ℕ → ParsedEmail → ThreadManager → ThreadManager × ℕ
add_to_existing_thread ext r e tm = (write r (joined ext e (tm.cells r)) tm, r)

unfoldable pub new_thread : Externals → ℕ → ParsedEmail → EmailThread
new_thread ext now e = record {
  thread_id =
      if is_empty e.message_id then generate_thread_id ext e.subject e.date else e.message_id;
  subject = e.subject;
  participants = email_participants ext e;
  message_id = e.message_id;
  in_reply_to = e.in_reply_to;
  references = e.references;
  cc = [];
  is_draft = false;
  added_participants = [];
  removed_participants = [];
  gmail_thread_id = e.gmail_thread_id;
  last_delivered_to = e.delivered_to;
  last_from = e.from;
  last_to = slice e.to_;
  last_cc = slice e.cc;
  last_date = e.date;
  last_text_body = cap_body e.text_content;
  last_html_body = cap_body e.html_content;
  last_accessed = now;
}

unfoldable pub create_new_thread : Externals → ℕ → ParsedEmail → ThreadManager → ThreadManager × ℕ
create_new_thread ext now e tm =
    let t = new_thread ext now e in
    let (tm', r) = alloc t tm in
    (enforce_limit (record tm' { known_threads = put t.thread_id r tm'.known_threads }), r)

-- the ids by which the message names its parents: In-Reply-To, if it has one, then References
unfoldable pub parents : ParsedEmail → List Text
parents e = if is_empty e.in_reply_to then e.references else e.in_reply_to ∷ e.references

-- the first of the ids that the resolver knows, as the thread id that it gives; "" is no answer
given_id : Option Text → Option Text
given_id none = none
given_id (some []) = none
given_id (some (c ∷ s)) = some (c ∷ s)

unfoldable pub resolve_first : (Text → Text → Option Text) → Text → List Text → Option Text
unfolding given_id
resolve_first resolve receiver [] = none
resolve_first resolve receiver (id ∷ ids) = elim (given_id (resolve receiver id)) [
  | some tid ↦ some tid
  | none ↦ resolve_first resolve receiver ids
]

unfoldable pub resolved_id : Text → ParsedEmail → ThreadManager → Option Text
resolved_id receiver e tm = elim tm.resolver [
  | none ↦ none
  | some resolve ↦ resolve_first resolve receiver (parents e)
]

-- the cached thread of a resolved id, or a bare one made for it
reach : ParsedEmail → Text → ThreadManager × Option ℕ → ThreadManager × ℕ
reach e tid (tm, some r) = (tm, r)
reach e tid (tm, none) = alloc (record empty_thread { thread_id = tid; subject = e.subject }) tm

unfoldable pub join_resolved :
    Externals → ℕ → Text → ParsedEmail → Text → ThreadManager → ThreadManager × ℕ
unfolding reach
join_resolved ext now receiver e tid tm =
    let (tm', r) = reach e tid (get_thread_by_id now receiver tid tm) in
    add_to_existing_thread ext r e tm'

-- the first of the ids that the in-memory index knows
unfoldable pub find_first : List Text → ThreadManager → Option ℕ
find_first [] tm = none
find_first (id ∷ ids) tm = elim (find_thread_by_message_id id tm) [
  | some r ↦ some r
  | none ↦ find_first ids tm
]

-- In-Reply-To and References in memory, then Gmail's thread id
unfoldable pub find_cached : Text → ParsedEmail → ThreadManager → Option ℕ
find_cached receiver e tm = elim (find_first (parents e) tm) [
  | some r ↦ some r
  | none ↦ find_by_gmail_thread_id receiver e.gmail_thread_id tm
]

join_or_create : Externals → ℕ → ParsedEmail → ThreadManager → Option ℕ → ThreadManager × ℕ
join_or_create ext now e tm (some r) = add_to_existing_thread ext r e tm
join_or_create ext now e tm none = create_new_thread ext now e tm

by_resolver : Externals → ℕ → Text → ParsedEmail → ThreadManager → Option Text → ThreadManager × ℕ
unfolding join_or_create
by_resolver ext now receiver e tm (some tid) = join_resolved ext now receiver e tid tm
by_resolver ext now receiver e tm none = join_or_create ext now e tm (find_cached receiver e tm)

unfoldable pub determine_thread :
    Externals → ℕ → Text → ParsedEmail → ThreadManager → ThreadManager × ℕ
unfolding by_resolver
determine_thread ext now receiver e tm =
    if is_forwarded_message e
    then create_new_thread ext now e tm
    else by_resolver ext now receiver e tm (resolved_id receiver e tm)

-- ===== src/Email/Threading/Determine/Continuity.antt =====
-- A message is filed with its conversation: the index after caching a thread, and what
-- DetermineThread does with a reply then.
use matrimail.Prelude.{
  ap, none, ◌+◌, ◌<◌, ◌==◌, Bool, Bool-cases, List, Option, Text, [], arith, false, if◌then◌else◌,
  inl, inr, length, ltb, not, refl, some, text_eq, text_eq_iff, true, ℕ, ◌&&◌, ◌||◌, ◌∙◌, ◌∷◌, ◌≡◌,
  ◌≤◌, ◌⊎◌,
}
use matrimail.Prelude.TextMap.{length-put, TextMap, lookup, put, lookup-put}
use matrimail.Email.Threading.{
  is_forwarded_message, Externals, EmailThread, ParsedEmail, is_empty, member,
}
use matrimail.Email.Threading.Manager.{
  scoped, store, cache_thread, touch, ThreadManager, max_cached_threads, index_all,
  update_message_id_index, enforce_limit, find_thread_by_message_id,
}
use matrimail.Email.Threading.Determine.{
  add_to_existing_thread, find_cached, resolved_id, determine_thread, parents, find_first,
}

text_eq-is_empty : (j k : Text) → is_empty j ≡ true → is_empty k ≡ false → text_eq j k ≡ false
unfolding text_eq
text_eq-is_empty [] [] h n = cc
text_eq-is_empty [] (c ∷ k) h n = refl
text_eq-is_empty (c ∷ j) k h n = cc

lookup-index_all :
    (r : ℕ) (k : Text) (refs : List Text) (m : TextMap ℕ)
    → is_empty k ≡ false
    → lookup k (index_all r refs m) ≡ (if member k refs then some r else lookup k m)
unfolding index_all member
lookup-index_all r k [] m h = refl
lookup-index_all r k ([] ∷ refs) m h =
    ground (arith, text_eq-is_empty [] k refl h, lookup-index_all r k refs m h)
lookup-index_all r k ((c ∷ s) ∷ refs) m h =
    ground (arith, lookup-index_all r k refs (put (c ∷ s) r m) h, lookup-put (c ∷ s) k r m)

-- the ids that a thread is indexed by
abbrev pub ids_of : EmailThread → List Text
ids_of t = t.thread_id ∷ t.message_id ∷ t.references

lookup-first :
    (tid k : Text) (r : ℕ) (m : TextMap ℕ)
    → is_empty k ≡ false
    → lookup k (if is_empty tid then m else put tid r m)
      ≡ (if text_eq tid k then some r else lookup k m)
lookup-first tid k r m ne = elim (Bool-cases (is_empty tid)) [
  | inl e ↦ rw e (rw (text_eq-is_empty tid k e ne))
  | inr n ↦ rw n (lookup-put tid k r m)
]

chosen_either : (b : Bool) (r : ℕ) (o : Option ℕ) → o ≡ some r → (if b then some r else o) ≡ some r
chosen_either true r o h = refl
chosen_either false r o h = h

named :
    (a b c : Bool) (r : ℕ) (o p : Option ℕ)
    → (a || (b || c)) ≡ true
    → p ≡ (if c then some r else o)
    → ((b || a) ≡ true) ⊎ (p ≡ some r)
named a b true r o p h e = inr e
named true true false r o p h e = inl refl
named true false false r o p h e = inl refl
named false true false r o p h e = inl refl
named false false false r o p h e = cc

lookup-last :
    (tid mid k : Text) (r : ℕ) (m : TextMap ℕ)
    → is_empty k ≡ false
    → (text_eq tid k ≡ true → lookup k m ≡ some r)
    → (text_eq mid k || text_eq tid k ≡ true) ⊎ (lookup k m ≡ some r)
    → lookup k (if not (is_empty mid) && not (text_eq mid tid) then put mid r m else m) ≡ some r
lookup-last tid mid k r m ne first h = ground (
  arith,
  lookup-put mid k r m,
  text_eq_iff mid tid,
  text_eq_iff mid k,
  text_eq_iff tid k,
  text_eq-is_empty mid k,
)

lookup-update_message_id_index :
    (receiver : Text) (r : ℕ) (tm : ThreadManager) (k : Text)
    → is_empty k ≡ false
    → member k (ids_of (tm.cells r)) ≡ true
    → lookup k (update_message_id_index receiver r tm).message_id_index ≡ some r
unfolding update_message_id_index member
lookup-update_message_id_index receiver r tm k ne h =
    let t = tm.cells r in
    let first =
      (if is_empty t.thread_id
        then tm.message_id_index
        else put t.thread_id r tm.message_id_index) in
    let rest = lookup-index_all r k t.references first ne in
    let start = lookup-first t.thread_id k r tm.message_id_index ne in
    lookup-last t.thread_id t.message_id k r (index_all r t.references first) ne
      (λ q. rest ∙ chosen_either (member k t.references) r (lookup k first) (start ∙ rw q))
      (named (text_eq t.thread_id k) (text_eq t.message_id k) (member k t.references) r
        (lookup k first) (lookup k (index_all r t.references first)) h rest)

enforce_limit_lem :
    (tm : ThreadManager) → length tm.known_threads ≤ max_cached_threads → enforce_limit tm ≡ tm
unfolding enforce_limit
enforce_limit_lem tm h =
    let t : ltb max_cached_threads (length tm.known_threads) ≡ false = ground arith in rw t

find_first_lem :
    (e : ParsedEmail) (tm : ThreadManager) (r : ℕ)
    → is_empty e.in_reply_to ≡ false
    → lookup e.in_reply_to tm.message_id_index ≡ some r
    → find_first (parents e) tm ≡ some r
unfolding find_first parents find_thread_by_message_id
find_first_lem e tm r ne h = rw ne (rw (h, find_first))

pub cells-touch :
    (now r : ℕ) (tm : ThreadManager)
    → (touch now r tm).cells r ≡ record (tm.cells r) { last_accessed = now }
unfolding touch
cells-touch now r tm = let t : (r == r) ≡ true = ground arith in rw t

length-store :
    (now : ℕ) (receiver : Text) (r : ℕ) (tm : ThreadManager)
    → length (store now receiver r tm).known_threads ≤ length tm.known_threads + 1
unfolding store update_message_id_index touch
length-store now receiver r tm =
    length-put (scoped receiver (tm.cells r).thread_id) r tm.known_threads

pub cache_thread-store :
    (now : ℕ) (receiver : Text) (r : ℕ) (tm : ThreadManager)
    → is_empty (tm.cells r).thread_id ≡ false
    → length tm.known_threads < max_cached_threads
    → cache_thread now receiver r tm ≡ store now receiver r tm
unfolding cache_thread
cache_thread-store now receiver r tm named_ room =
    rw named_
      (enforce_limit_lem (store now receiver r tm) (omega (arith, length-store now receiver r tm)))

-- Once a thread is cached with room for it, every id that it goes by leads to it.
pub find-cache_thread :
    (now : ℕ) (receiver : Text) (r : ℕ) (tm : ThreadManager) (k : Text)
    → is_empty (tm.cells r).thread_id ≡ false
    → length tm.known_threads < max_cached_threads
    → is_empty k ≡ false
    → member k (ids_of (tm.cells r)) ≡ true
    → find_thread_by_message_id k (cache_thread now receiver r tm) ≡ some r
unfolding find_thread_by_message_id store
find-cache_thread now receiver r tm k named_ room ne h =
    rw (cache_thread-store now receiver r tm named_ room) (
      lookup-update_message_id_index receiver r _ k ne
        (ap (λ (t : EmailThread). member k (ids_of t)) (cells-touch now r tm) ∙ h))

resolver-cache_thread :
    (now : ℕ) (receiver : Text) (r : ℕ) (tm : ThreadManager)
    → is_empty (tm.cells r).thread_id ≡ false
    → length tm.known_threads < max_cached_threads
    → (cache_thread now receiver r tm).resolver ≡ tm.resolver
unfolding store update_message_id_index touch
resolver-cache_thread now receiver r tm named_ room =
    rw (cache_thread-store now receiver r tm named_ room)

resolved_id-cache_thread :
    (now : ℕ) (receiver receiver' : Text) (r : ℕ) (tm : ThreadManager) (e : ParsedEmail)
    → is_empty (tm.cells r).thread_id ≡ false
    → length tm.known_threads < max_cached_threads
    → resolved_id receiver' e (cache_thread now receiver r tm) ≡ resolved_id receiver' e tm
unfolding resolved_id
resolved_id-cache_thread now receiver receiver' r tm e named_ room =
    rw (resolver-cache_thread now receiver r tm named_ room) refl

find_cached_lem :
    (receiver : Text) (e : ParsedEmail) (tm : ThreadManager) (r : ℕ)
    → find_first (parents e) tm ≡ some r
    → find_cached receiver e tm ≡ some r
unfolding find_cached
find_cached_lem receiver e tm r h = ground arith

-- A message that is no forward and answers an id of the index joins the thread of that id, if the
-- resolver, where there is one, knows none of its parents.
determine_thread-index :
    (ext : Externals) (now : ℕ) (receiver : Text) (e : ParsedEmail) (tm : ThreadManager) (r : ℕ)
    → is_forwarded_message e ≡ false
    → resolved_id receiver e tm ≡ none
    → is_empty e.in_reply_to ≡ false
    → find_thread_by_message_id e.in_reply_to tm ≡ some r
    → determine_thread ext now receiver e tm ≡ add_to_existing_thread ext r e tm
unfolding determine_thread find_thread_by_message_id
determine_thread-index ext now receiver e tm r f n ne h =
    rw f (rw n (rw (find_cached_lem receiver e tm r (find_first_lem e tm r ne h))))

-- A reply to any id of a thread that was cached for one account, with room in the cache, joins that
-- thread, for whichever account `receiver'` it arrives, if the resolver knows none of its parents.
pub determine_thread-cache_thread :
    (ext : Externals) (now now' : ℕ) (receiver receiver' : Text) (r : ℕ) (tm : ThreadManager)
    (reply : ParsedEmail)
    → resolved_id receiver' reply tm ≡ none
    → is_empty (tm.cells r).thread_id ≡ false
    → length tm.known_threads < max_cached_threads
    → is_forwarded_message reply ≡ false
    → is_empty reply.in_reply_to ≡ false
    → member reply.in_reply_to (ids_of (tm.cells r)) ≡ true
    → determine_thread ext now' receiver' reply (cache_thread now receiver r tm)
      ≡ add_to_existing_thread ext r reply (cache_thread now receiver r tm)
determine_thread-cache_thread ext now now' receiver receiver' r tm reply n named_ room f ne h =
    determine_thread-index ext now' receiver' reply (cache_thread now receiver r tm) r f
      (resolved_id-cache_thread now receiver receiver' r tm reply named_ room ∙ n) ne
      (find-cache_thread now receiver r tm reply.in_reply_to named_ room ne h)

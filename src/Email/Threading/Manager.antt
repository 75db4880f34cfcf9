-- ===== src/Email/Threading/Manager.antt =====
-- ThreadManager of pkg/email/threading.go. Threads are shared by pointer, so they stand in a heap
-- and the maps hold references into it. `mu` makes each method one step; `now` is what `time.Now`
-- reads in it. A Go map is iterated in the order of its list here, where Go leaves the order open.
use matrimail.Prelude.{
  List, Option, Text, [], if◌then◌else◌, leb, length, ltb, none, not, some, take, text_eq, ℕ, ◌&&◌,
  ◌*◌, ◌++◌, ◌+◌, ◌-◌, ◌/◌, ◌==◌, ◌∷◌,
}
use mathlib.Core.List.{reverse}
use matrimail.Prelude.TextMap.{TextMap, lookup, put, delete}
use matrimail.Email.Threading.{EmailThread, empty_thread, is_empty}

pub record ThreadManager : Type 0 where
  -- the heap: the thread of each reference, and the first reference not in use
  pub cells : ℕ → EmailThread
  pub next : ℕ
  pub known_threads : TextMap ℕ
  pub message_id_index : TextMap ℕ
  pub gmail_thread_id_index : TextMap ℕ
  -- ThreadMetadataResolver, `none` for nil; a miss, `("", false)`, is `none`
  pub resolver : Option (Text → Text → Option Text)
  pub last_cleanup : ℕ

unfoldable pub new_thread_manager : ℕ → Option (Text → Text → Option Text) → ThreadManager
new_thread_manager now resolver = record {
  cells = λ r. empty_thread;
  next = 0;
  known_threads = [];
  message_id_index = [];
  gmail_thread_id_index = [];
  resolver = resolver;
  last_cleanup = now;
}

abbrev pub max_cached_threads : ℕ
max_cached_threads = 10000

abbrev pub hour : ℕ
hour = 3600 * 1_000_000_000

abbrev pub thread_cache_ttl : ℕ
thread_cache_ttl = 24 * hour

-- receiver + "|" + id
abbrev pub scoped : Text → Text → Text
scoped receiver id = receiver ++ (b'|' ∷ id)

unfoldable pub update : (ℕ → EmailThread) → ℕ → EmailThread → ℕ → EmailThread
update cells r t s = if r == s then t else cells s

unfoldable pub write : ℕ → EmailThread → ThreadManager → ThreadManager
unfolding update
write r t tm = record tm { cells = update tm.cells r t }

unfoldable pub alloc : EmailThread → ThreadManager → ThreadManager × ℕ
unfolding update
alloc t tm = (record tm { cells = update tm.cells tm.next t; next = tm.next + 1 }, tm.next)

unfoldable pub find_by_gmail_thread_id : Text → Text → ThreadManager → Option ℕ
find_by_gmail_thread_id receiver gtid tm =
    if is_empty gtid then none else lookup (scoped receiver gtid) tm.gmail_thread_id_index

-- removeFromMessageIDIndex
delete_all : List Text → TextMap ℕ → TextMap ℕ
delete_all [] m = m
delete_all (ref ∷ refs) m = delete_all refs (if is_empty ref then m else delete ref m)

drop_values : ℕ → TextMap ℕ → TextMap ℕ
drop_values r [] = []
drop_values r ((k, v) ∷ m) = let rest = drop_values r m in if v == r then rest else (k, v) ∷ rest

unfoldable pub remove_from_message_id_index : ℕ → ThreadManager → ThreadManager
unfolding delete_all drop_values
remove_from_message_id_index r tm =
    let t = tm.cells r in
    record tm {
      message_id_index = delete_all (t.thread_id ∷ t.message_id ∷ t.references) tm.message_id_index;
      gmail_thread_id_index = drop_values r tm.gmail_thread_id_index;
    }

-- one key of the loops that drop threads from the cache
unfoldable pub unindex : Option ℕ → ThreadManager → ThreadManager
unindex none tm = tm
unindex (some r) tm = remove_from_message_id_index r tm

unfoldable pub drop_known : Text → ThreadManager → ThreadManager
drop_known key tm =
    let tm' = unindex (lookup key tm.known_threads) tm in
    record tm' { known_threads = delete key tm'.known_threads }

unfoldable pub drop_keys : List Text → ThreadManager → ThreadManager
unfolding drop_known
drop_keys [] tm = tm
drop_keys (key ∷ keys) tm = drop_keys keys (drop_known key tm)

-- the keys of the threads that were last used before `cutoff`
unfoldable pub expired_keys : ℕ → (ℕ → EmailThread) → TextMap ℕ → List Text
expired_keys cutoff cells [] = []
expired_keys cutoff cells ((k, r) ∷ m) =
    let rest = expired_keys cutoff cells m in
    if ltb (cells r).last_accessed cutoff then k ∷ rest else rest

unfoldable pub cleanup_expired_threads_if_needed : ℕ → ThreadManager → ThreadManager
unfolding drop_keys expired_keys
cleanup_expired_threads_if_needed now tm =
    if ltb (now - tm.last_cleanup) hour
    then tm
    else drop_keys (expired_keys (now - thread_cache_ttl) tm.cells tm.known_threads)
        (record tm { last_cleanup = now })

-- evictOldestThreads: the entries, sorted by insertion from the right of the sorted part, which
-- stands reversed here, as the inner loop walks it.
abbrev pub Entry : Type 0
Entry = Text × ℕ

unfoldable pub entries_of : (ℕ → EmailThread) → TextMap ℕ → List Entry
entries_of cells [] = []
entries_of cells ((k, r) ∷ m) = (k, (cells r).last_accessed) ∷ entries_of cells m

unfoldable pub insert_entry : Entry → List Entry → List Entry
insert_entry e [] = e ∷ []
insert_entry e (d ∷ ds) = if ltb e.1 d.1 then d ∷ insert_entry e ds else e ∷ d ∷ ds

unfoldable pub sort_into : List Entry → List Entry → List Entry
unfolding insert_entry
sort_into done [] = reverse done
sort_into done (e ∷ es) = sort_into (insert_entry e done) es

keys_of : List Entry → List Text
keys_of [] = []
keys_of ((k, t) ∷ es) = k ∷ keys_of es

unfoldable pub evict_oldest_threads : ℕ → ThreadManager → ThreadManager
unfolding drop_keys entries_of sort_into keys_of
evict_oldest_threads count tm =
    if leb (length tm.known_threads) count
    then tm
    else drop_keys (take count (keys_of (sort_into [] (entries_of tm.cells tm.known_threads)))) tm

-- the size check behind an insertion
unfoldable pub enforce_limit : ThreadManager → ThreadManager
unfolding evict_oldest_threads
enforce_limit tm =
    if ltb max_cached_threads (length tm.known_threads)
    then evict_oldest_threads (max_cached_threads / 4) tm
    else tm

unfoldable pub touch : ℕ → ℕ → ThreadManager → ThreadManager
unfolding write
touch now r tm = write r (record (tm.cells r) { last_accessed = now }) tm

unfoldable pub found_or : ℕ → Option ℕ → Option ℕ → ThreadManager → ThreadManager × Option ℕ
unfolding touch
found_or now (some r) legacy tm = (touch now r tm, some r)
found_or now none (some r) tm = (touch now r tm, some r)
found_or now none none tm = (tm, none)

-- the key with the receiver, then the legacy key without
unfoldable pub get_thread_by_id : ℕ → Text → Text → ThreadManager → ThreadManager × Option ℕ
unfolding cleanup_expired_threads_if_needed found_or
get_thread_by_id now receiver thread_id tm =
    let tm' = cleanup_expired_threads_if_needed now tm in
    found_or now (lookup (scoped receiver thread_id) tm'.known_threads)
      (lookup thread_id tm'.known_threads) tm'

-- updateMessageIDIndex
unfoldable pub index_all : ℕ → List Text → TextMap ℕ → TextMap ℕ
index_all r [] m = m
index_all r (ref ∷ refs) m = index_all r refs (if is_empty ref then m else put ref r m)

unfoldable pub update_message_id_index : Text → ℕ → ThreadManager → ThreadManager
unfolding index_all
update_message_id_index receiver r tm =
    let t = tm.cells r in
    let ids =
      if is_empty t.thread_id then tm.message_id_index else put t.thread_id r tm.message_id_index in
    let ids = index_all r t.references ids in
    record tm {
      message_id_index =
          (if not (is_empty t.message_id) && not (text_eq t.message_id t.thread_id)
            then put t.message_id r ids
            else ids);
      gmail_thread_id_index =
          (if is_empty t.gmail_thread_id
            then tm.gmail_thread_id_index
            else put (scoped receiver t.gmail_thread_id) r tm.gmail_thread_id_index);
    }

-- cacheThread up to the size check
unfoldable pub store : ℕ → Text → ℕ → ThreadManager → ThreadManager
store now receiver r tm =
    let tm' = touch now r tm in
    update_message_id_index receiver r (record tm' {
      known_threads = put (scoped receiver (tm.cells r).thread_id) r tm'.known_threads;
    })

-- cacheThread, which CacheForReceiver calls
unfoldable pub cache_thread : ℕ → Text → ℕ → ThreadManager → ThreadManager
cache_thread now receiver r tm =
    if is_empty (tm.cells r).thread_id then tm else enforce_limit (store now receiver r tm)

unfoldable pub find_thread_by_message_id : Text → ThreadManager → Option ℕ
find_thread_by_message_id message_id tm = lookup message_id tm.message_id_index

-- ===== src/Imap/Examples.antt =====
-- Runs of the functions of pkg/imap/client.go on a small mailbox, and each theorem about them there.
use matrimail.Imap.Session.{idles, runs_already, nothing_held, start_idling, reset_connection}
use matrimail.Imap.Session.Channels.{start_idling-blocks}
use matrimail.Imap.Recovery.Stuck.{recover_all-IsStuck, IsStuck}
use matrimail.Imap.Recovery.{recover_all, Times, Recovery}
use matrimail.Email.Threading.Manager.{new_thread_manager}
use matrimail.Connector.Inbound.Echo.{IsIdentified}
use matrimail.Connector.Inbound.{is_our_message}
use matrimail.Imap.Workers.Exclusive.{idle, holds, Reaches-alone}
use matrimail.Imap.Workers.{
  start, find, read, at_start, further, Reaches, busy, todo, started, searching, move, System,
}
use matrimail.Imap.Process.Pipeline.{process_message_with-failed}
use matrimail.Connector.SentDedup.{cleanup, record_sent, SentDedupQuery}
use matrimail.Email.Processor.{
  new_processor, failed, Processor, missing_sender, EmailMessage, is_outbound_message,
  set_dedup_checker,
}
use matrimail.Email.Threading.{Externals, ParsedEmail}
use matrimail.Prelude.{
  All, Bool, List, Option, Text, [], ap, arith, codes, false, none, refl, some, sym, true, ℕ, ◌-◌,
  ◌∷◌, ◌≡◌, ◌≢◌,
}
use matrimail.Prelude.Int.{pos}
use matrimail.Reliability.Breaker.{Breaker, opened}
use matrimail.Imap.Session.{
  Session, Event, connecting, starting_idle, stopping_idle, ending_idle, disconnecting, happen_all,
  new_session, returns, blocks, shutdown,
}
use matrimail.Imap.Session.Channels.{happen_all-shutdown}
use matrimail.Imap.Uids.{Client, last_uid, in_flight, is_hard_net_err, has_uid}
use matrimail.Imap.Sync.{
  Server, Answer, answered, refused, check_new_messages_for, prime_baseline_and_backfill_for,
}
use matrimail.Imap.Sync.Ascending.{Ascends}
use matrimail.Imap.Sync.Once.{
  IsOrdered, check_all, Advances, check_all-Advances, IsPastFirst, check_all-first,
}
use matrimail.Imap.Sync.Restart.{IsFrom, check_all-prime}
use matrimail.Imap.Process.{
  Fetch, not_processed, process_message_with, Fetched, Bridge, process_with_retry, Failure,
}

abbrev client_at : ℕ → Client
client_at last = record {
  client = true;
  connected = true;
  idling = true;
  startup_backfill_seconds = pos 60;
  startup_backfill_max = pos 10;
  last_inbox_uid = last;
  last_sent_uid = 0;
  in_flight_inbox = [];
  in_flight_sent = [];
}

-- a mailbox with UIDNEXT `next` that answers every search with these UIDs
abbrev server_with : ℕ → List ℕ → Server
server_with next uids = record {
  select = none;
  status = answered next;
  search = λ from since. answered uids;
  in_time = true;
}

-- keeps the UIDs that it is given, the last one first; none fails
abbrev keep : ℕ → List ℕ → List ℕ × Option Failure
keep uid log = (uid ∷ log, none)

-- a sync takes what is above the last UID, although the server lists more
sync_run :
    (check_new_messages_for keep (some (server_with 9 (3 ∷ 5 ∷ 7 ∷ []))) false (client_at 4) []).0
    ≡ (client_at 7, 7 ∷ 5 ∷ [])
unfolding check_new_messages_for matrimail.Imap.Sync.take_new matrimail.Imap.Sync.newer
    matrimail.Imap.Sync.process_new matrimail.Imap.Sync.highest matrimail.Imap.Uids.start_uid
    matrimail.Imap.Uids.end_uid matrimail.Imap.Uids.set_last_uid last_uid in_flight
    matrimail.Imap.Uids.set_in_flight has_uid matrimail.Imap.Uids.delete_uid
sync_run = refl

-- the backfill looks at nothing below UIDNEXT
backfill_run :
    (prime_baseline_and_backfill_for keep 0
      (some (server_with 9 (3 ∷ 5 ∷ 7 ∷ [])))
      false
      (client_at 4)
      []).0
    ≡ (client_at 8, [])
unfolding prime_baseline_and_backfill_for matrimail.Imap.Sync.backfill_all
    matrimail.Imap.Sync.positive matrimail.Imap.Uids.set_last_uid
backfill_run = refl

reset_is_hard : is_hard_net_err (some (codes "read: Connection reset by peer")) ≡ true
unfolding is_hard_net_err matrimail.Prelude.Strings.to_lower matrimail.Prelude.Strings.contains
reset_is_hard = refl

listed : Answer (List ℕ) → List ℕ
listed (answered uids) = uids
listed (refused err) = []

server-IsOrdered :
    (next : ℕ) (uids : List ℕ) → Ascends 0 uids → IsOrdered (some (server_with next uids))
unfolding listed
server-IsOrdered next uids a from since found e = rw (sym (ap listed e)) a

abbrev servers : List (Option Server)
servers = some (server_with 9 (3 ∷ 5 ∷ 7 ∷ [])) ∷ none ∷ some (server_with 12 (5 ∷ 9 ∷ [])) ∷ []

servers-IsOrdered : All IsOrdered servers
servers-IsOrdered = (
  server-IsOrdered 9 (3 ∷ 5 ∷ 7 ∷ []) (ground arith, (ground arith, (ground arith, tt))),
  (tt, (server-IsOrdered 12 (5 ∷ 9 ∷ []) (ground arith, (ground arith, tt)), tt)),
)

nothing_in_flight : (last : ℕ) → in_flight false (client_at last) ≡ []
unfolding in_flight
nothing_in_flight last = refl

check_all-Advances_example :
    Advances keep false (client_at 4, []) (check_all keep false servers (client_at 4, []))
check_all-Advances_example =
    check_all-Advances keep false servers (client_at 4, []) servers-IsOrdered (nothing_in_flight 4)

starts_at_zero : last_uid false (client_at 0) ≡ 0
unfolding last_uid
starts_at_zero = refl

check_all-first_example :
    IsPastFirst keep false [] (check_all keep false servers (client_at 0, [])).1
check_all-first_example =
    check_all-first keep false servers (client_at 0) [] servers-IsOrdered (nothing_in_flight 0)
      starts_at_zero

check_all-prime_example :
    IsFrom keep false 9 []
      (check_all keep false servers
        (prime_baseline_and_backfill_for keep 0
          (some (server_with 9 (3 ∷ 5 ∷ 7 ∷ [])))
          false
          (client_at 4)
          []).0).1
check_all-prime_example =
    check_all-prime keep false 0 9 (server_with 9 (3 ∷ 5 ∷ 7 ∷ [])) servers (client_at 4) [] refl
      refl (ground arith) (ground arith) (nothing_in_flight 4) servers-IsOrdered

-- a bridge that keeps whether the one room exists and the messages that were queued
abbrev Rooms : Type 0
Rooms = Bool × List Text

abbrev bridge : Bridge Rooms
bridge = record {
  portal_exists = λ id receiver w. some false;
  make_portal = λ id receiver w. (w, true);
  has_room = λ id receiver w. w.0;
  create_room = λ id receiver w. ((true, w.1), true);
  queue_remote_event = λ m w. ((w.0, m.message_id ∷ w.1), true);
}

abbrev hello : ParsedEmail
hello = record {
  message_id = codes "m2";
  in_reply_to = [];
  references = [];
  subject = codes "Lunch";
  from = codes "ann";
  to_ = none;
  cc = none;
  date = none;
  text_content = codes "hi";
  html_content = [];
  is_draft = false;
  gmail_thread_id = [];
  delivered_to = [];
}

abbrev message : EmailMessage
message = record {
  email = hello;
  thread = 0;
  portal_id = codes "thread:m2";
  receiver = codes "me";
  message_id = codes "email:m2";
  timestamp = none;
  is_outbound = false;
}

abbrev bare : Externals
bare = record { parse_address = λ s. some s; format_date = λ d. [] }

abbrev fresh : Processor
fresh = new_processor (new_thread_manager 0 none)

-- a message without a sender, at both times
abbrev nameless : Fetched
nameless = record { parsed = some (record hello { from = [] }); now = 1; now' = 2 }

abbrev fetch_of : Fetched → ℕ → Fetch
fetch_of m uid = record { messages = (m, some m) ∷ []; closes = true }

degraded_twice :
    (process_with_retry bare (codes "me") (codes "INBOX") (nameless, some nameless) fresh).1
    ≡ failed missing_sender
unfolding process_with_retry matrimail.Email.Processor.process_imap_message
    matrimail.Email.Processor.process_parsed_email matrimail.Imap.Process.is_degraded
    matrimail.Prelude.Strings.trim_space
degraded_twice = refl

process_message_with-failed_example :
    process_message_with bare
      (codes "me")
      (codes "INBOX")
      (some bridge)
      (fetch_of nameless)
      5
      (fresh, (false, []))
    ≡ ((fresh, (false, [])), some (not_processed missing_sender))
process_message_with-failed_example =
    process_message_with-failed bare (codes "me") (codes "INBOX") bridge (fetch_of nameless) 5
      nameless (some nameless) fresh (false, []) missing_sender refl degraded_twice

abbrev table : SentDedupQuery
table = record { bridge_id = codes "mail"; rows = [] }

abbrev noted : SentDedupQuery
noted = record table {
  rows =
      record {
        bridge_id = codes "mail";
        receiver = codes "me";
        message_id = codes "m2";
        matrix_evt_id = codes "e";
        sent_at = 9;
      }
      ∷ [];
}

records : record_sent 9 (codes "me") (codes "m2") (codes "e") table ≡ some noted
unfolding record_sent matrimail.Connector.SentDedup.upsert
records = refl

abbrev watchful : Processor
watchful = set_dedup_checker (is_our_message (some (cleanup 4 noted).0)) fresh

watches : watchful.dedup_checker ≡ some (is_our_message (some (cleanup 4 noted).0))
unfolding set_dedup_checker
watches = refl

from_sent : is_outbound_message (codes "Sent Mail") ≡ true
unfolding is_outbound_message matrimail.Prelude.Strings.trim_space
    matrimail.Prelude.Strings.to_lower matrimail.Prelude.Strings.contains
from_sent = refl

hello-IsIdentified : IsIdentified hello
unfolding matrimail.Prelude.Strings.trim_space
hello-IsIdentified = record { sender = refl; id = refl; short = ground arith }

abbrev echoed : Fetched
echoed = record { parsed = some hello; now = 11; now' = 12 }

abbrev call : ℕ
call = 0

-- one call has read the last UID, found UID 5 and started on it
abbrev reading : System
reading = idle (client_at 4)

abbrev looking : System
looking = move 0 (searching 4) (client_at 4) reading

abbrev found_one : System
found_one = move 0 (todo (5 ∷ [])) (client_at 5) looking

abbrev on_it : System
on_it = move 0 (busy 5 []) (record (client_at 5) { in_flight_inbox = 5 ∷ [] }) found_one

on_it-Reaches : Reaches false reading on_it
unfolding move matrimail.Imap.Workers.set_phase matrimail.Imap.Workers.after_search started
    matrimail.Imap.Sync.newer matrimail.Imap.Sync.highest matrimail.Imap.Uids.start_uid
    matrimail.Imap.Uids.set_last_uid last_uid in_flight matrimail.Imap.Uids.set_in_flight has_uid
on_it-Reaches =
    further found_one on_it
      (further looking found_one (further reading looking at_start (read 0 reading refl))
        (find 0 4 (5 ∷ []) looking refl))
      (start 0 5 [] found_one refl)

on_it-holds : holds (on_it.calls 0) 5 ≡ true
unfolding holds move matrimail.Imap.Workers.set_phase
on_it-holds = refl

Reaches-alone_example : (call ≡ call) × (has_uid 5 (in_flight false on_it.client) ≡ true)
Reaches-alone_example =
    Reaches-alone false (client_at 4) on_it call call 5 on_it-Reaches on_it-holds on_it-holds

-- after five failures, the last at time 0
abbrev open_breaker : Breaker
open_breaker = record {
  max_failures = 5;
  timeout = 120;
  failures = 5;
  last_failure_time = 0;
  state = opened;
  max_half_open_requests = 1;
  half_open_requests = 0;
  state_change_callback = true;
}

-- at time 200, with a server that would take the connection
abbrev at_200 : Times
at_200 = record { read = 200; locked = 200; now = 201 }

abbrev recovery : Recovery
recovery = record {
  times = at_200;
  first = record { times = at_200; connected = none };
  others = record { times = at_200; connected = none } ∷ [];
  idle = none;
}

recover_all-IsStuck_example :
    IsStuck (recover_all (recovery ∷ recovery ∷ []) open_breaker).0
    × All (λ err. err ≢ none) (recover_all (recovery ∷ recovery ∷ []) open_breaker).1
recover_all-IsStuck_example =
    recover_all-IsStuck (recovery ∷ recovery ∷ []) open_breaker
      (record { open_ = refl; one_probe = refl; failing = ground arith })

-- connect, idle on a server on which IDLE is running still, stop, idle again, disconnect
abbrev day : List Event
day =
    connecting false true
    ∷ starting_idle (runs_already true ∷ idles ∷ [])
    ∷ stopping_idle
    ∷ starting_idle (idles ∷ [])
    ∷ ending_idle
    ∷ disconnecting
    ∷ []

happen_all-shutdown_example :
    (s : Session) × (happen_all day new_session ≡ returns s) × (shutdown nothing_held s ≡ blocks)
happen_all-shutdown_example =
    happen_all-shutdown day (refl, (refl, (refl, (refl, (refl, (refl, tt))))))

abbrev connected_session : Session
connected_session = record new_session { connected = true }

start_idling-blocks_example :
    (start_idling nothing_held (runs_already true ∷ runs_already true ∷ []) connected_session
      ≡ blocks)
    × (reset_connection nothing_held true (runs_already true ∷ []) connected_session ≡ blocks)
start_idling-blocks_example = start_idling-blocks connected_session true [] refl refl

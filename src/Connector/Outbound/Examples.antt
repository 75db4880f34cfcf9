-- ===== src/Connector/Outbound/Examples.antt =====
-- A message from a room, its echo, and a reply to the sender alone that fails.
use matrimail.Connector.Portal.Restored.{
  SendsAlike, resolve_thread_for_portal_with_metadata-metadata_of,
}
use matrimail.Connector.Portal.{prefix, resolve_thread_for_portal}
use matrimail.Connector.Outbound.ReplyOnly.{handle-marked}
use matrimail.Connector.Outbound.Sent.{handle-process_message_with}
use matrimail.Connector.Inbound.{is_our_message}
use matrimail.Connector.Inbound.Echo.{IsIdentified}
use matrimail.Connector.Send.{own_addresses, selves_set, key, Address}
use matrimail.Imap.Process.{process_message_with, Fetched, Bridge}
use matrimail.Email.Processor.{new_processor, set_dedup_checker, is_outbound_message, Processor}
use matrimail.Prelude.Strings.{lower_byte, to_lower, has_prefix, contains, trim_space}
use matrimail.Prelude.{
  ◌++◌, arith, text_eq, true, ℕ, ◌+◌, ◌-◌, ◌<◌, List, Option, Text, [], codes, false, none, refl,
  some, ◌∷◌, ◌≡◌,
}
use matrimail.Email.Threading.{member, ParsedEmail, Externals, EmailThread, empty_thread}
use matrimail.Email.Threading.Manager.{ThreadManager, new_thread_manager}
use matrimail.Connector.Portal.{resolve_thread_for_portal_with_metadata, metadata_of}
use matrimail.Connector.SentDedup.{cleanup, SentDedupQuery}
use matrimail.Connector.Outgoing.{MatrixMessage, Outside, Sending}
use matrimail.Connector.Outbound.{
  own_addresses, selves_set, resolve_thread_for_portal_with_metadata, send_failed, Address,
  trim_space, ThreadManager, holds, failed, Room, EmailClient, Main, smtp, done,
  handle_matrix_message_outbound,
}

abbrev lunch : EmailThread
lunch = record empty_thread {
  thread_id = codes "t1";
  subject = codes "Lunch";
  message_id = codes "m1";
  last_from = codes "ann";
  last_to = codes "bob" ∷ codes "me" ∷ [];
}

abbrev room : Room
room = record { id = codes "thread:t1"; metadata = some (metadata_of lunch) }

abbrev yes_please : MatrixMessage
yes_please = record {
  body = codes "yes";
  html = none;
  replace_id = [];
  reply_to = none;
  has_media = false;
  event_id = codes "e1";
}

abbrev me : EmailClient
me = record {
  login_id = codes "me";
  email = codes "me";
  aliases = [];
  signature = [];
  sender = some smtp;
  has_imap = false;
}

abbrev answering : (Sending → Option Text) → Outside
answering answer = record {
  now = 5;
  restored_at = 6;
  recorded_at = 7;
  cached_at = 8;
  parse = λ s. some (record { name = []; address = s });
  generate_message_id = λ domain. codes "<m2>";
  format_date = λ d. codes "Monday";
  signature_text = λ s. s;
  download = none;
  build_mime = λ om. some om.text_body;
  send = answer;
}

abbrev table : SentDedupQuery
table = record { bridge_id = codes "mail"; rows = [] }

abbrev main_with : List Text → Main
main_with marks = record {
  sent_dedup = some table;
  thread_manager = new_thread_manager 0 none;
  pending_dm_replies = marks;
}

abbrev accepting : Outside
accepting = answering (λ s. some [])

abbrev failing : Outside
failing = answering (λ s. none)

abbrev noted : SentDedupQuery
noted = record table {
  rows =
      record {
        bridge_id = codes "mail";
        receiver = codes "me";
        message_id = codes "m2";
        matrix_evt_id = codes "e1";
        sent_at = 7;
      }
      ∷ [];
}

abbrev call_to : List Text → Sending
call_to to_ = record { mime = codes "yes"; from = codes "me"; to_ = to_; thread_id = [] }

abbrev marked : Main
marked = main_with (room.id ∷ [])

room-marked : holds room.id marked.pending_dm_replies ≡ true
unfolding holds text_eq
room-marked = refl

goes_out :
    ((handle_matrix_message_outbound accepting me room (some yes_please) (main_with [])).outcome
      ≡ done (codes "email:m2"))
    × ((handle_matrix_message_outbound accepting me room
          (some yes_please)
          (main_with [])).main.sent_dedup
        ≡ some noted)
unfolding handle_matrix_message_outbound matrimail.Connector.Portal.resolve_thread_for_portal
    matrimail.Prelude.Strings.trim_prefix matrimail.Email.Threading.Manager.get_thread_by_id
    matrimail.Prelude.TextMap.lookup new_thread_manager matrimail.Email.Threading.Manager.alloc
    matrimail.Connector.Portal.restore matrimail.Email.Threading.Manager.enforce_limit
    matrimail.Email.Threading.Manager.store
    matrimail.Email.Threading.Manager.update_message_id_index matrimail.Prelude.TextMap.put
    matrimail.Connector.Send.collect matrimail.Connector.Send.parse_addr_if_allowed
    matrimail.Email.Threading.member matrimail.Prelude.Strings.to_lower
    matrimail.Connector.SentDedup.upsert
goes_out = (refl, refl)

fails :
    ((handle_matrix_message_outbound failing me room (some yes_please) marked).sending
      ≡ some (call_to (codes "ann" ∷ [])))
    × ((handle_matrix_message_outbound failing me room (some yes_please) marked).outcome
        ≡ failed send_failed)
unfolding handle_matrix_message_outbound matrimail.Connector.Portal.resolve_thread_for_portal
    matrimail.Prelude.Strings.trim_prefix matrimail.Email.Threading.Manager.get_thread_by_id
    matrimail.Prelude.TextMap.lookup new_thread_manager matrimail.Email.Threading.Manager.alloc
    matrimail.Connector.Portal.restore matrimail.Email.Threading.Manager.enforce_limit
    matrimail.Email.Threading.Manager.store
    matrimail.Email.Threading.Manager.update_message_id_index matrimail.Prelude.TextMap.put
    matrimail.Connector.Send.collect matrimail.Connector.Send.parse_addr_if_allowed
    matrimail.Email.Threading.member matrimail.Prelude.Strings.to_lower
fails = (refl, refl)

again :
    (handle_matrix_message_outbound accepting me room
      (some yes_please)
      (handle_matrix_message_outbound failing me room (some yes_please) marked).main).sending
    ≡ some (call_to (codes "ann" ∷ codes "bob" ∷ []))
unfolding handle_matrix_message_outbound matrimail.Connector.Portal.resolve_thread_for_portal
    matrimail.Prelude.Strings.trim_prefix matrimail.Email.Threading.Manager.get_thread_by_id
    matrimail.Prelude.TextMap.lookup new_thread_manager matrimail.Email.Threading.Manager.alloc
    matrimail.Connector.Portal.restore matrimail.Email.Threading.Manager.enforce_limit
    matrimail.Email.Threading.Manager.store
    matrimail.Email.Threading.Manager.update_message_id_index matrimail.Prelude.TextMap.put
    matrimail.Connector.Send.collect matrimail.Connector.Send.parse_addr_if_allowed
    matrimail.Email.Threading.member matrimail.Prelude.Strings.to_lower
again = refl

handle-marked_example :
    (manager : ThreadManager) × (ref : ℕ) × (a : Address) × (resolve_thread_for_portal_with_metadata
        5 6
        (codes "me")
        room.id
        room.metadata
        marked.thread_manager
      ≡ (manager, some ref))
    × (failing.parse (manager.cells ref).last_from ≡ some a)
    × ((call_to (codes "ann" ∷ [])).to_ ≡ a.address ∷ [])
    × (member (key a) (selves_set (own_addresses (codes "me") [])) ≡ false)
handle-marked_example =
    handle-marked failing me room yes_please marked (call_to (codes "ann" ∷ [])) room-marked fails.0

abbrev bare : Externals
bare = record { parse_address = λ s. none; format_date = λ d. [] }

abbrev echo : ParsedEmail
echo = record {
  message_id = codes "m2";
  in_reply_to = [];
  references = [];
  subject = codes "Re: Lunch";
  from = codes "me";
  to_ = none;
  cc = none;
  date = none;
  text_content = codes "yes";
  html_content = [];
  is_draft = false;
  gmail_thread_id = [];
  delivered_to = [];
}

echo-IsIdentified : IsIdentified echo
unfolding trim_space
echo-IsIdentified = record { sender = refl; id = refl; short = ground arith }

abbrev watchful : Processor
watchful =
    set_dedup_checker (is_our_message (some (cleanup 4 noted).0))
      (new_processor (main_with []).thread_manager)

watches : watchful.dedup_checker ≡ some (is_our_message (some (cleanup 4 noted).0))
unfolding set_dedup_checker
watches = refl

from_sent : is_outbound_message (codes "Sent Mail") ≡ true
unfolding is_outbound_message contains has_prefix to_lower lower_byte trim_space
from_sent = refl

abbrev fetched : Fetched
fetched = record { parsed = some echo; now = 11; now' = 12 }

abbrev quiet : Bridge ℕ
quiet = record {
  portal_exists = λ id receiver n. some true;
  make_portal = λ id receiver n. (n, true);
  has_room = λ id receiver n. true;
  create_room = λ id receiver n. (n, true);
  queue_remote_event = λ e n. (n + 1, true);
}

handle-process_message_with_example :
    (process_message_with bare
      (codes "me")
      (codes "Sent Mail")
      (some quiet)
      (λ uid. record { messages = (fetched, some fetched) ∷ []; closes = true })
      5
      (watchful, 0)).0
    ≡ (watchful, 0)
handle-process_message_with_example =
    handle-process_message_with bare (codes "Sent Mail") quiet accepting me room yes_please
      (main_with []) table noted 4
      (λ uid. record { messages = (fetched, some fetched) ∷ []; closes = true }) 5 fetched
      (some fetched) echo watchful 0 refl goes_out.0 goes_out.1 (omega arith) watches from_sent
      echo-IsIdentified refl refl

abbrev empty_cache : ThreadManager
empty_cache = new_thread_manager 0 none

cache_misses :
    (resolve_thread_for_portal 5 (codes "me") (prefix ++ codes "t1") empty_cache).1 ≡ none
unfolding resolve_thread_for_portal new_thread_manager matrimail.Prelude.Strings.trim_prefix
    matrimail.Email.Threading.Manager.get_thread_by_id matrimail.Prelude.TextMap.lookup
cache_misses = refl

-- a draft, to which a reply is written
abbrev draft : EmailThread
draft = record lunch { is_draft = true }

resolve_thread_for_portal_with_metadata-metadata_of_example :
    let (tm', o) =
      resolve_thread_for_portal_with_metadata 5 6
        (codes "me")
        (prefix ++ codes "t1")
        (some (metadata_of draft))
        empty_cache in
    (r : ℕ) × (o ≡ some r) × SendsAlike accepting me 3 room yes_please (tm'.cells r) draft
resolve_thread_for_portal_with_metadata-metadata_of_example =
    resolve_thread_for_portal_with_metadata-metadata_of accepting me 3 room yes_please 5 6
      (codes "me") draft empty_cache refl cache_misses

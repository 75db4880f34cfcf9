-- ===== src/Connector/Inbound/Examples.antt =====
-- A message that comes in, and the reply to it from its room.
use matrimail.Email.Threading.Determine.Conversation.{thread_of}
use matrimail.Email.Threading.Determine.{determine_thread}
use matrimail.Email.Threading.Manager.{
  hour, max_cached_threads, cache_thread, ThreadManager, new_thread_manager,
}
use matrimail.Connector.Inbound.Rooms.{placed, resolve-process_parsed_email}
use matrimail.Connector.Portal.{resolve_thread_for_portal}
use matrimail.Email.Processor.{
  is_outbound_message, portal_prefix, is_echo, with_delivered_to, file, forwarded, new_processor,
  process_parsed_email, EmailMessage, Processor,
}
use matrimail.Email.Threading.{is_empty, is_forwarded_message, Externals, ParsedEmail}
use matrimail.Prelude.{
  [], any, arith, codes, false, length, none, refl, some, ℕ, ◌++◌, ◌+◌, ◌-◌, ◌<◌, ◌≡◌,
}

abbrev bare : Externals
bare = record { parse_address = λ s. some s; format_date = λ d. [] }

abbrev fresh : Processor
fresh = new_processor (new_thread_manager 0 none)

abbrev hello : ParsedEmail
hello = record {
  message_id = codes "m2";
  in_reply_to = [];
  references = [];
  subject = codes "Lunch";
  from = codes "ann";
  to_ = none;
  cc = none;
  date = none;
  text_content = codes "hi";
  html_content = [];
  is_draft = false;
  gmail_thread_id = [];
  delivered_to = [];
}

-- the thread of the message, not cached yet, and the manager that has cached it
abbrev place : ThreadManager × ℕ
place = placed bare 1 (codes "me") hello fresh

abbrev cached : ThreadManager
cached = cache_thread 2 (codes "me") place.1 place.0

abbrev message : EmailMessage
message = record {
  email = with_delivered_to bare (codes "me") fresh hello;
  thread = place.1;
  portal_id = portal_prefix ++ (cached.cells place.1).thread_id;
  receiver = codes "me";
  message_id = codes "email:m2";
  timestamp = (with_delivered_to bare (codes "me") fresh hello).date;
  is_outbound = is_outbound_message (codes "INBOX");
}

filed :
    process_parsed_email bare 1 2 (codes "me") (codes "INBOX") hello fresh
    ≡ (record fresh { thread_manager = cached }, forwarded message)
unfolding process_parsed_email file with_delivered_to is_echo new_processor
    matrimail.Prelude.Strings.trim_space
filed = refl

place_result :
    (is_empty (thread_of place).thread_id ≡ false)
    × (length place.0.known_threads < max_cached_threads)
    × (3 - place.0.last_cleanup < hour)
unfolding determine_thread is_forwarded_message any matrimail.Prelude.Strings.has_prefix
    matrimail.Prelude.Strings.to_lower matrimail.Prelude.Strings.trim_space
    matrimail.Prelude.Strings.contains matrimail.Email.Threading.Determine.resolved_id
    new_thread_manager matrimail.Email.Threading.Determine.find_cached
    matrimail.Email.Threading.Determine.find_first matrimail.Email.Threading.Determine.parents
    matrimail.Email.Threading.Manager.find_by_gmail_thread_id
    matrimail.Email.Threading.Determine.create_new_thread
    matrimail.Email.Threading.Determine.new_thread matrimail.Email.Threading.Manager.update
    matrimail.Email.Threading.Manager.enforce_limit matrimail.Prelude.TextMap.put
    matrimail.Email.Threading.Manager.alloc with_delivered_to new_processor
place_result = (refl, ground arith, ground arith)

resolve-process_parsed_email_example :
    (resolve_thread_for_portal 3 (codes "me") message.portal_id cached).1 ≡ some place.1
resolve-process_parsed_email_example =
    resolve-process_parsed_email bare 1 2 3 (codes "me") (codes "INBOX") hello fresh
      (record fresh { thread_manager = cached }) message filed place_result.0 place_result.1
      place_result.2

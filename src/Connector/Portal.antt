-- ===== src/Connector/Portal.antt =====
-- The thread behind a Matrix room: resolveThreadForPortal and resolveThreadForPortalWithMetadata of
-- pkg/connector/client_send.go, and the PortalMetadata of pkg/connector/portal_metadata.go that
-- outlives the thread manager's cache. The thread manager is not nil, as the connector's Init makes
-- one; a portal's metadata of another type than *PortalMetadata is `none`.
pub mod Restored
use matrimail.Prelude.{
  Bool, List, Option, Text, codes, if◌then◌else◌, none, not, some, text_eq, ℕ, ◌||◌,
}
use matrimail.Prelude.Strings.{trim_prefix}
use matrimail.Email.Threading.{EmailThread, is_empty, empty_thread}
use matrimail.Email.Threading.Manager.{ThreadManager, get_thread_by_id, cache_thread, alloc}

pub record PortalMetadata : Type 0 where
  pub thread_id : Text
  pub subject : Text
  pub participants : List Text
  pub references : List Text
  pub last_message_id : Text
  pub is_draft : Bool
  pub gmail_thread_id : Text
  pub last_from : Text
  pub last_to : List Text
  pub last_cc : List Text
  pub last_delivered_to : Text
  pub last_date : Option ℕ
  pub last_text_body : Text
  pub last_html_body : Text

-- what handleMatrixMessageOutbound saves in the portal once the message is sent
unfoldable pub metadata_of : EmailThread → PortalMetadata
metadata_of t = record {
  thread_id = t.thread_id;
  subject = t.subject;
  participants = t.participants;
  references = t.references;
  last_message_id = t.message_id;
  is_draft = t.is_draft;
  gmail_thread_id = t.gmail_thread_id;
  last_from = t.last_from;
  last_to = t.last_to;
  last_cc = t.last_cc;
  last_delivered_to = t.last_delivered_to;
  last_date = t.last_date;
  last_text_body = t.last_text_body;
  last_html_body = t.last_html_body;
}

unfoldable pub restore : PortalMetadata → EmailThread
restore pm = record empty_thread {
  thread_id = pm.thread_id;
  subject = pm.subject;
  participants = pm.participants;
  references = pm.references;
  message_id = pm.last_message_id;
  is_draft = pm.is_draft;
  gmail_thread_id = pm.gmail_thread_id;
  last_from = pm.last_from;
  last_to = pm.last_to;
  last_cc = pm.last_cc;
  last_delivered_to = pm.last_delivered_to;
  last_date = pm.last_date;
  last_text_body = pm.last_text_body;
  last_html_body = pm.last_html_body;
}

abbrev pub prefix : Text
prefix = codes "thread:"

-- The errors are all `none`.
unfoldable pub resolve_thread_for_portal :
    ℕ → Text → Text → ThreadManager → ThreadManager × Option ℕ
resolve_thread_for_portal now receiver portal_id tm =
    let thread_id = trim_prefix portal_id prefix in
    if is_empty thread_id then (tm, none) else get_thread_by_id now receiver thread_id tm

-- after a miss
unfoldable pub from_metadata :
    ℕ → Text → Text → Option PortalMetadata → ThreadManager → ThreadManager × Option ℕ
from_metadata now receiver portal_id none tm = (tm, none)
from_metadata now receiver portal_id (some pm) tm =
    if is_empty pm.thread_id || not (text_eq pm.thread_id (trim_prefix portal_id prefix))
    then (tm, none)
    else let (tm', r) = alloc (restore pm) tm in (cache_thread now receiver r tm', some r)

or_restore :
    ℕ → Text → Text → Option PortalMetadata → ThreadManager × Option ℕ → ThreadManager × Option ℕ
unfolding from_metadata
or_restore now receiver portal_id metadata (tm, some r) = (tm, some r)
or_restore now receiver portal_id metadata (tm, none) =
    from_metadata now receiver portal_id metadata tm

-- `now` is the clock at the lookup, `now'` at the caching.
unfoldable pub resolve_thread_for_portal_with_metadata :
    ℕ → ℕ → Text → Text → Option PortalMetadata → ThreadManager → ThreadManager × Option ℕ
unfolding or_restore
resolve_thread_for_portal_with_metadata now now' receiver portal_id metadata tm =
    or_restore now' receiver portal_id metadata
      (resolve_thread_for_portal now receiver portal_id tm)

-- ===== src/Connector/Inbound/Echo.antt =====
-- The echo of a message that the bridge sent.
use matrimail.Prelude.{Bool, Option, Text, ap, arith, false, length, ltb, some, true, ℕ, ◌≡◌, ◌≤◌}
use matrimail.Prelude.Strings.{trim_space}
use matrimail.Email.Threading.{ParsedEmail, Externals, is_empty}
use matrimail.Email.Processor.{
  Processor, is_outbound_message, is_echo, process_parsed_email, max_message_id, skipped,
}
use matrimail.Connector.SentDedup.{SentDedupQuery, record_sent, exists_sent, cleanup}
use matrimail.Connector.SentDedup.Laws.{exists_sent-cleanup}
use matrimail.Connector.Inbound.{is_our_message}

-- what the processor demands of a message
pub record IsIdentified (e : ParsedEmail) : Type 0 where
  pub sender : is_empty (trim_space e.from) ≡ false
  pub id : is_empty (trim_space e.message_id) ≡ false
  pub short : length e.message_id ≤ max_message_id

is_echo_lem :
    (check : Text → Text → Option Bool) (receiver mailbox : Text) (e : ParsedEmail) (p : Processor)
    → p.dedup_checker ≡ some check
    → is_outbound_message mailbox ≡ true
    → check receiver e.message_id ≡ some true
    → is_echo receiver mailbox e p ≡ true
unfolding is_echo
is_echo_lem check receiver mailbox e p d o h = rw d (rw o (rw h))

-- Once the bridge has recorded a message as sent for an account, and whatever Cleanup has removed
-- that is older, the message with this id that comes back from a Sent mailbox of the account is
-- dropped, with no change to the processor or its threads.
pub process_parsed_email-record_sent :
    (ext : Externals) (sent_at older_than now now' : ℕ)
    (receiver mailbox message_id matrix_evt_id : Text) (q q' : SentDedupQuery) (p : Processor)
    (echo : ParsedEmail)
    → record_sent sent_at receiver message_id matrix_evt_id q ≡ some q'
    → older_than ≤ sent_at
    → p.dedup_checker ≡ some (is_our_message (some (cleanup older_than q').0))
    → is_outbound_message mailbox ≡ true
    → IsIdentified echo
    → echo.message_id ≡ message_id
    → process_parsed_email ext now now' receiver mailbox echo p ≡ (p, skipped)
unfolding process_parsed_email is_our_message
process_parsed_email-record_sent ext sent_at older_than now now' receiver mailbox message_id
      matrix_evt_id q q' p echo h o d out v same =
    let short : ltb max_message_id (length echo.message_id) ≡ false = ground arith in
    let found : exists_sent receiver echo.message_id (cleanup older_than q').0 ≡ true =
      rw same (exists_sent-cleanup sent_at older_than receiver message_id matrix_evt_id q q' h o) in
    let hit =
      is_echo_lem (is_our_message (some (cleanup older_than q').0)) receiver mailbox echo p d out
        (ap some found) in
    rw v.sender (rw v.id (rw short (rw hit)))

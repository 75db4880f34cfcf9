-- ===== src/Email/Processor.antt =====
-- The pipeline of pkg/email/processor.go from a parsed e-mail to the message for Matrix:
-- ProcessIMAPMessage and ProcessParsedEmail. Parsing is a parameter, logging is left out, and the
-- attachments, which only pass through, are no part of the message.
use matrimail.Prelude.{
  Bool, List, Option, Text, [], codes, false, if◌then◌else◌, length, ltb, none, some, ℕ, ◌++◌, ◌∷◌,
}
use matrimail.Prelude.Strings.{to_lower, trim_space, contains}
use matrimail.Email.Threading.{
  ParsedEmail, Externals, is_empty, slice, extract_email_address, member,
}
use matrimail.Email.Threading.Manager.{ThreadManager, cache_thread}
use matrimail.Email.Threading.Determine.{determine_thread}

-- The fields that the pipeline uses. A checker that fails answers `none`; nil fields are `none`.
pub record Processor : Type 0 where
  pub thread_manager : ThreadManager
  pub dedup_checker : Option (Text → Text → Option Bool)
  pub alias_resolver : Option (Text → List Text)

unfoldable pub new_processor : ThreadManager → Processor
new_processor tm = record { thread_manager = tm; dedup_checker = none; alias_resolver = none }

unfoldable pub set_dedup_checker : (Text → Text → Option Bool) → Processor → Processor
set_dedup_checker d p = record p { dedup_checker = some d }

unfoldable pub set_alias_resolver : (Text → List Text) → Processor → Processor
set_alias_resolver r p = record p { alias_resolver = some r }

-- the set of the aliases
alias_set : List Text → List Text
alias_set [] = []
alias_set (a ∷ rest) =
    let more = alias_set rest in
    let folded = to_lower (trim_space a) in if is_empty folded then more else folded ∷ more

-- the first address of the list that is in the set
unfoldable pub first_own : Externals → List Text → List Text → Text
first_own ext own [] = []
first_own ext own (raw ∷ raws) =
    let addr = extract_email_address ext raw in
    let more = first_own ext own raws in
    if is_empty addr then more else if member (to_lower addr) own then addr else more

unfoldable pub pick_delivered_to : Externals → List Text → List Text → List Text → Text
unfolding alias_set
pick_delivered_to ext to_ cc [] = []
pick_delivered_to ext to_ cc (a ∷ rest) =
    let own = alias_set (a ∷ rest) in
    let hit = first_own ext own to_ in if is_empty hit then first_own ext own cc else hit

unfoldable pub is_outbound_message : Text → Bool
is_outbound_message mailbox =
    let mb = to_lower (trim_space mailbox) in
    if is_empty mb then false else contains mb (codes "sent")

pub record EmailMessage : Type 0 where
  pub email : ParsedEmail
  pub thread : ℕ
  -- PortalKey
  pub portal_id : Text
  pub receiver : Text
  pub message_id : Text
  pub timestamp : Option ℕ
  pub is_outbound : Bool

pub data ProcessError : Type 0 where
  parse_failed : ProcessError
  missing_sender : ProcessError
  missing_message_id : ProcessError
  message_id_too_long : ProcessError

-- An error, `(nil, nil)`, or a message to forward.
pub data Outcome : Type 0 where
  failed : ProcessError → Outcome
  skipped : Outcome
  forwarded : EmailMessage → Outcome

-- RFC 5322's limit
abbrev pub max_message_id : ℕ
max_message_id = 998

-- Step 0: the message comes from a Sent mailbox and is one that the bridge sent; a check that fails
-- counts as no.
unfoldable pub is_echo : Text → Text → ParsedEmail → Processor → Bool
is_echo receiver mailbox e p = elim p.dedup_checker [
  | none ↦ false
  | some check ↦
      if is_outbound_message mailbox
      then elim (check receiver e.message_id) [ none ↦ false | some hit ↦ hit ]
      else false
]

deliver_to : Externals → List Text → ParsedEmail → ParsedEmail
deliver_to ext [] e = e
deliver_to ext (a ∷ rest) e = record e {
  delivered_to = pick_delivered_to ext (slice e.to_) (slice e.cc) (a ∷ rest);
}

unfoldable pub with_delivered_to : Externals → Text → Processor → ParsedEmail → ParsedEmail
unfolding deliver_to
with_delivered_to ext receiver p e = elim p.alias_resolver [
  | none ↦ e
  | some resolve ↦ deliver_to ext (resolve receiver) e
]

abbrev pub portal_prefix : Text
portal_prefix = codes "thread:"

-- Steps 1 to 4. `now` is the clock in DetermineThread, `now'` in CacheForReceiver.
unfoldable pub file :
    Externals → ℕ → ℕ → Text → Text → ParsedEmail → Processor → Processor × Outcome
file ext now now' receiver mailbox e p =
    let (tm, r) = determine_thread ext now receiver e p.thread_manager in
    let tm' = cache_thread now' receiver r tm in
    (
      record p { thread_manager = tm' },
      forwarded (record {
        email = e;
        thread = r;
        portal_id = portal_prefix ++ (tm'.cells r).thread_id;
        receiver = receiver;
        message_id = codes "email:" ++ e.message_id;
        timestamp = e.date;
        is_outbound = is_outbound_message mailbox;
      }),
    )

unfoldable pub process_parsed_email :
    Externals → ℕ → ℕ → Text → Text → ParsedEmail → Processor → Processor × Outcome
process_parsed_email ext now now' receiver mailbox e p =
    if is_empty (trim_space e.from)
    then (p, failed missing_sender)
    else if is_empty (trim_space e.message_id)
    then (p, failed missing_message_id)
    else if ltb max_message_id (length e.message_id)
    then (p, failed message_id_too_long)
    else if is_echo receiver mailbox e p
    then (p, skipped)
    else file ext now now' receiver mailbox (with_delivered_to ext receiver p e) p

-- `none` is the error of parseIMAPFetchData.
unfoldable pub process_imap_message :
    Externals → ℕ → ℕ → Text → Text → Option ParsedEmail → Processor → Processor × Outcome
process_imap_message ext now now' receiver mailbox none p = (p, failed parse_failed)
process_imap_message ext now now' receiver mailbox (some e) p =
    if e.is_draft then (p, skipped) else process_parsed_email ext now now' receiver mailbox e p

-- ===== src/Email/Examples.antt =====
-- Runs of the thread manager: the functions of pkg/email/threading.go, and the reply
-- subject of quote.go, on small messages, and each
-- theorem about them at a concrete conversation.
use matrimail.Email.Threading.Determine.{resolved_id, resolve_first}
use matrimail.Prelude.{
  Option, if◌then◌else◌, text_eq, List, Text, [], any, arith, codes, false, length, none, not, refl,
  some, true, ℕ, ◌&&◌, ◌-◌, ◌<◌, ◌||◌, ◌∷◌, ◌≡◌,
}
use matrimail.Email.ReplySubject.{normalize_reply_subject, skip_reply}
use matrimail.Email.Threading.{
  member, is_empty, ParsedEmail, EmailThread, Externals, empty_thread, is_forwarded_message,
  parse_references, normalize_subject,
}
use matrimail.Email.Threading.Manager.{max_cached_threads, ThreadManager, new_thread_manager}
use matrimail.Email.Threading.Determine.{
  determine_thread, add_to_existing_thread, joined, email_participants, add_lowered,
}
use matrimail.Email.Threading.Determine.Participants.{joined-participants, Distinct}
use matrimail.Email.Threading.Determine.Conversation.{thread_of, determine_thread-filed, filed}

-- a parser that knows bare addresses only, and a clock that prints nothing
abbrev bare : Externals
bare = record { parse_address = λ s. some s; format_date = λ d. [] }

abbrev mail : Text → Text → Text → List Text → ParsedEmail
mail id parent from to_ = record {
  message_id = id;
  in_reply_to = parent;
  references = [];
  subject = codes "Lunch";
  from = from;
  to_ = some to_;
  cc = none;
  date = none;
  text_content = codes "hi";
  html_content = [];
  is_draft = false;
  gmail_thread_id = [];
  delivered_to = [];
}

abbrev ann : Text
ann = codes "ann"

abbrev bob : Text
bob = codes "bob"

abbrev first_mail : ParsedEmail
first_mail = mail (codes "m1") [] ann (codes "Bob" ∷ [])

abbrev answer : ParsedEmail
answer = mail (codes "m2") (codes "m1") bob (codes "cid" ∷ [])

-- a database that knows one message, of another conversation
abbrev known : Text → Text → Option Text
known receiver id = if text_eq id (codes "m0") then some (codes "t0") else none

abbrev fresh : ThreadManager
fresh = new_thread_manager 0 (some known)

bracketed_references : parse_references (codes "<a@x> <b@y>") ≡ codes "a@x" ∷ codes "b@y" ∷ []
unfolding parse_references matrimail.Prelude.Strings.cut_at
bracketed_references = refl

reply_subject : normalize_subject (codes "Re: FW: Lunch") ≡ codes "lunch"
unfolding normalize_subject matrimail.Prelude.Strings.to_lower matrimail.Prelude.Strings.trim_space
    matrimail.Prelude.Strings.has_prefix
reply_subject = refl

forwarded : is_forwarded_message (record first_mail { subject = codes "Fwd: Lunch" }) ≡ true
unfolding is_forwarded_message any matrimail.Prelude.Strings.has_prefix
    matrimail.Prelude.Strings.to_lower matrimail.Prelude.Strings.trim_space
forwarded = refl

-- ann's thread with bob, before cid joins
abbrev lunch : EmailThread
lunch = record empty_thread {
  thread_id = codes "m1";
  message_id = codes "m1";
  participants = ann ∷ bob ∷ [];
}

joined-participants_example :
    let old = add_lowered lunch.participants [] in
    let current = email_participants bare answer in
    let t' = joined bare answer lunch in
    (member bob t'.participants ≡ (member bob old || member bob current))
    × (member bob t'.added_participants ≡ (member bob current && not (member bob old)))
    × (member bob t'.removed_participants ≡ (member bob old && not (member bob current)))
    × Distinct t'.participants
joined-participants_example = joined-participants bare answer lunch bob

-- the manager that holds the thread, not cached yet
abbrev started : ThreadManager
started = record (new_thread_manager 0 none) { cells = λ r. lunch; next = 1 }

answer_is_no_forward : is_forwarded_message answer ≡ false
unfolding is_forwarded_message any matrimail.Prelude.Strings.has_prefix
    matrimail.Prelude.Strings.to_lower matrimail.Prelude.Strings.trim_space
    matrimail.Prelude.Strings.contains
answer_is_no_forward = refl

abbrev placed : ThreadManager × ℕ
placed = determine_thread bare 1 ann first_mail fresh

placed_result :
    (resolved_id (codes "other") answer placed.0 ≡ none)
    × (is_empty (thread_of placed).thread_id ≡ false)
    × (length placed.0.known_threads < max_cached_threads)
unfolding determine_thread is_forwarded_message any matrimail.Prelude.Strings.has_prefix
    matrimail.Prelude.Strings.to_lower matrimail.Prelude.Strings.trim_space
    matrimail.Prelude.Strings.contains resolved_id resolve_first new_thread_manager
    matrimail.Email.Threading.Determine.find_cached matrimail.Email.Threading.Determine.find_first
    matrimail.Email.Threading.Determine.parents
    matrimail.Email.Threading.Manager.find_by_gmail_thread_id
    matrimail.Email.Threading.Determine.create_new_thread
    matrimail.Email.Threading.Determine.new_thread matrimail.Email.Threading.Manager.update
    matrimail.Email.Threading.Manager.enforce_limit matrimail.Prelude.TextMap.put
    matrimail.Email.Threading.Manager.alloc text_eq
placed_result = (refl, refl, ground arith)

determine_thread-filed_example :
    determine_thread bare 3 (codes "other") answer (filed 2 ann placed)
    ≡ add_to_existing_thread bare placed.1 answer (filed 2 ann placed)
determine_thread-filed_example =
    determine_thread-filed bare 1 2 3 ann (codes "other") first_mail answer fresh refl
      placed_result.0 placed_result.1 placed_result.2 answer_is_no_forward refl

one_prefix : normalize_reply_subject (codes " RE: re[2]: Lunch") ≡ codes "Re: Lunch"
unfolding normalize_reply_subject matrimail.Email.ReplySubject.strip_replies skip_reply
    matrimail.Email.ReplySubject.behind_close matrimail.Prelude.Strings.trim_space
    matrimail.Prelude.Strings.to_lower matrimail.Prelude.Strings.has_prefix
one_prefix = refl

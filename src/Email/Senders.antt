-- ===== src/Email/Senders.antt =====
-- The choice of a sender, pkg/email/sender_factory.go, and the call of the Gmail API of
-- pkg/email/sender_gmail.go. What the service answers is an argument.
pub mod Resent
pub mod Examples
use matrimail.Prelude.{
  Bool, List, Option, [], codes, false, if◌then◌else◌, none, not, some, text_eq, true, ◌&&◌, ◌++◌,
  ◌+◌, ◌==◌, ◌||◌, ◌∷◌, Text, ℕ,
}
use matrimail.Prelude.Strings.{to_lower, trim_space, contains, cut_at}
use matrimail.Prelude.TextMap.{TextMap, lookup}
use matrimail.Email.Threading.{is_empty}

pub record SmtpProviderInfo : Type 0 where
  pub host : Text
  pub port : ℕ
  pub start_tls : Bool

abbrev on_587 : Text → SmtpProviderInfo
on_587 host = record { host = host; port = 587; start_tls = true }

abbrev pub smtp_providers : TextMap SmtpProviderInfo
smtp_providers =
    (codes "gmail.com", on_587 (codes "smtp.gmail.com"))
    ∷ (codes "googlemail.com", on_587 (codes "smtp.gmail.com"))
    ∷ (codes "yahoo.com", on_587 (codes "smtp.mail.yahoo.com"))
    ∷ (codes "yahoo.co.uk", on_587 (codes "smtp.mail.yahoo.com"))
    ∷ (codes "yahoo.fr", on_587 (codes "smtp.mail.yahoo.com"))
    ∷ (codes "yahoo.de", on_587 (codes "smtp.mail.yahoo.com"))
    ∷ (codes "outlook.com", on_587 (codes "smtp.office365.com"))
    ∷ (codes "hotmail.com", on_587 (codes "smtp.office365.com"))
    ∷ (codes "live.com", on_587 (codes "smtp.office365.com"))
    ∷ (codes "msn.com", on_587 (codes "smtp.office365.com"))
    ∷ (codes "office365.com", on_587 (codes "smtp.office365.com"))
    ∷ (codes "icloud.com", on_587 (codes "smtp.mail.me.com"))
    ∷ (codes "me.com", on_587 (codes "smtp.mail.me.com"))
    ∷ (codes "mac.com", on_587 (codes "smtp.mail.me.com"))
    ∷ (codes "fastmail.com", on_587 (codes "smtp.fastmail.com"))
    ∷ []

-- what stands behind the first @ of the address, in lower case
abbrev domain_part : Option (Text × Text) → Option Text
domain_part none = none
domain_part (some (before, domain)) = some domain

unfoldable pub domain_of_email : Text → Option Text
unfolding cut_at to_lower trim_space
domain_of_email email = domain_part (cut_at b'@' (to_lower (trim_space email)))

provider_or_default : Option SmtpProviderInfo → Text → SmtpProviderInfo
provider_or_default none domain = on_587 (codes "smtp." ++ domain)
provider_or_default (some p) domain = p

info_of_domain : Option Text → SmtpProviderInfo
unfolding provider_or_default lookup
info_of_domain none = record { host = []; port = 0; start_tls = false }
info_of_domain (some domain) =
    if is_empty domain
    then record { host = []; port = 0; start_tls = false }
    else provider_or_default (lookup domain smtp_providers) domain

-- SMTPInfoForEmail
unfoldable pub smtp_info_for_email : Text → SmtpProviderInfo
unfolding domain_of_email info_of_domain
smtp_info_for_email email = info_of_domain (domain_of_email email)

-- SMTPInfoForGoogleWorkspace
abbrev pub smtp_info_for_google_workspace : SmtpProviderInfo
smtp_info_for_google_workspace = on_587 (codes "smtp.gmail.com")

abbrev is_gmail : Option Text → Bool
is_gmail none = false
is_gmail (some d) = text_eq d (codes "gmail.com") || text_eq d (codes "googlemail.com")

unfoldable pub is_gmail_domain : Text → Bool
unfolding domain_of_email text_eq
is_gmail_domain email = is_gmail (domain_of_email email)

-- SenderAccount; `has_token_source` says that OAuthTokenSource is not nil.
pub record SenderAccount : Type 0 where
  pub email : Text
  pub is_gmail : Bool
  pub is_google_workspace : Bool
  pub app_password : Text
  pub has_token_source : Bool

pub data Sender : Type 0 where
  gmail_api : Sender
  -- the server, the user and the password
  smtp : SmtpProviderInfo → Text → Text → Sender

unfoldable pub pick_sender : SenderAccount → Sender
unfolding smtp_info_for_email
pick_sender a =
    if a.has_token_source && a.is_gmail
    then gmail_api
    else smtp
        (if a.is_google_workspace
          then smtp_info_for_google_workspace
          else smtp_info_for_email a.email)
        a.email a.app_password

-- googleapi.Error, or another error
pub data ApiError : Type 0 where
  coded : ℕ → Text → ApiError
  other : ApiError

-- isGmailBadThreadErr
unfoldable pub is_gmail_bad_thread_err : ApiError → Bool
unfolding contains to_lower
is_gmail_bad_thread_err other = false
is_gmail_bad_thread_err (coded code message) =
    code == 404 || (code == 400 && contains (to_lower message) (codes "thread"))

pub data Answer : Type 0 where
  refused : ApiError → Answer
  accepted : Text → Answer

-- how the message ended: the requests made, each with its thread id, and the id that the server gave
-- the message, empty if it could not be read
pub data Sent : Type 0 where
  not_sent : List Text → Sent
  was_sent : List Text → Text → Sent

-- behind the requests; `header` is what the id of the message on the server leads to
unfoldable pub identified : (Text → Option Text) → List Text → Answer → Sent
identified header calls (refused e) = not_sent calls
identified header calls (accepted id) = elim (header id) [
  | none ↦ was_sent calls []
  | some message_id ↦ was_sent calls message_id
]

-- the second request, without the thread
unfoldable pub resend : (Text → Text → Answer) → (Text → Option Text) → Text → Answer → Sent
unfolding identified
resend request header thread_id (accepted id) = identified header (thread_id ∷ []) (accepted id)
resend request header thread_id (refused e) =
    if not (is_empty thread_id) && is_gmail_bad_thread_err e
    then identified header (thread_id ∷ [] ∷ []) (request [] (codes "again"))
    else not_sent (thread_id ∷ [])

-- GmailAPISender.Send, with a token source, to at least one recipient. `request` answers a request
-- with a thread id, the first one or the second.
unfoldable pub gmail_send : (Text → Text → Answer) → (Text → Option Text) → List Text → Text → Sent
unfolding resend
gmail_send request header [] thread_id = not_sent []
gmail_send request header (a ∷ to_) thread_id =
    resend request header thread_id (request thread_id (codes "first"))

-- ===== src/Connector/Outgoing.antt =====
-- The message that pkg/connector/client_send.go makes of one in a Matrix room: buildOutgoingMessage, the
-- signature of pkg/email/gmail_signature.go on the first one of a thread, and the media.
use matrimail.Prelude.{
  Bool, List, Option, [], any, codes, false, if◌then◌else◌, none, not, some, true, ◌&&◌, ◌++◌, ◌==◌,
  ◌||◌, ◌∷◌, Text, ℕ,
}
use matrimail.Prelude.Strings.{trim_left, trim_right, trim_space}
use matrimail.Email.Threading.{EmailThread, is_empty}
use matrimail.Email.ReplySubject.{normalize_reply_subject}
use matrimail.Email.Quote.{format_gmail_quote_text}
use matrimail.Email.Quote.Html.{format_gmail_quote_html}
use matrimail.Connector.Send.{Address}

-- strings.Trim(s, "<>")
unfoldable pub unbracket : Text → Text
unfolding trim_left trim_right
unbracket s = let p = λ (c : ℕ). c == b'<' || c == b'>' in trim_right p (trim_left p s)

-- the part of EmailAttachment that is sent
pub record Attachment : Type 0 where
  pub filename : Text
  pub content_type : Text
  pub content : Text

pub record OutgoingMessage : Type 0 where
  pub message_id : Text
  pub from : Address
  pub to_ : List Address
  pub cc : List Address
  pub subject : Text
  pub in_reply_to : Text
  pub references : List Text
  pub text_body : Text
  pub html_body : Text
  pub attachments : List Attachment

-- the message in the room; `html` is the formatted body, if the format is HTML
pub record MatrixMessage : Type 0 where
  pub body : Text
  pub html : Option Text
  pub replace_id : Text
  -- the id of the message that it replies to
  pub reply_to : Option Text
  pub has_media : Bool
  pub event_id : Text

-- a call of the sender
pub record Sending : Type 0 where
  pub mime : Text
  pub from : Text
  pub to_ : List Text
  pub thread_id : Text

-- AppendSignature; `text_of` is HTMLSignatureToText.
unfoldable pub append_signature : (Text → Text) → Text → Text → Bool → Text
unfolding trim_space
append_signature text_of body signature as_html =
    if is_empty (trim_space signature)
    then body
    else if as_html
    then body ++ (codes "<br><br>-- <br>" ++ signature)
    else body ++ (10 ∷ 10 ∷ codes "-- " ++ (10 ∷ text_of signature))

-- htmlEscapeOutbound
unfoldable pub html_escape_outbound : Text → Text
html_escape_outbound [] = []
html_escape_outbound (c ∷ s) =
    let rest = html_escape_outbound s in
    if c == b'&'
    then codes "&amp;" ++ rest
    else if c == b'<'
    then codes "&lt;" ++ rest
    else if c == b'>'
    then codes "&gt;" ++ rest
    else if c == b'"'
    then codes "&quot;" ++ rest
    else if c == 10
    then codes "<br>" ++ rest
    else c ∷ rest

-- strings.LastIndex(s, "@") and what stands behind
unfoldable pub domain_of_address : Text → Text
domain_of_address [] = []
domain_of_address (c ∷ s) =
    if any (λ d. d == b'@') s then domain_of_address s else if c == b'@' then s else []

abbrev pair_of : Option Address → Option (Text × Text)
pair_of none = none
pair_of (some a) = some (a.name, a.address)

-- the body with the quoted parent below it
unfoldable pub with_quote : Text → Text → Text
with_quote body quote =
    if is_empty quote then body else if is_empty body then quote else body ++ (10 ∷ 10 ∷ quote)

-- the HTML half: as it is, with the quote, or the plain body with the quote
unfoldable pub with_html_quote : Text → Text → Text → Text
unfolding html_escape_outbound
with_html_quote html body quote =
    if is_empty quote
    then html
    else codes "<div dir=\"ltr\">"
      ++ ((if is_empty html then html_escape_outbound body else html)
          ++ (codes "</div><br>" ++ quote))

abbrev or_empty : Option Text → Text
or_empty none = []
or_empty (some s) = s

abbrev no_references : List Text → Bool
no_references [] = true
no_references (r ∷ rs) = false

-- What the call meets: the clock at the lookup of the thread, at the record and at the caching, and
-- the answers, `none` for an error.
pub record Outside : Type 0 where
  pub now : ℕ
  pub restored_at : ℕ
  pub recorded_at : ℕ
  pub cached_at : ℕ
  pub parse : Text → Option Address
  pub generate_message_id : Text → Text
  pub format_date : Option ℕ → Text
  pub signature_text : Text → Text
  pub download : Option Attachment
  pub build_mime : OutgoingMessage → Option Text
  pub send : Sending → Option Text

module _ (w : Outside) where
  unfoldable pub reply_text : EmailThread → Text → Text → Text
  unfolding with_quote format_gmail_quote_text
  reply_text t in_reply_to body =
      if is_empty in_reply_to || (is_empty t.last_text_body && is_empty t.last_html_body)
      then body
      else with_quote body (
          format_gmail_quote_text (λ s. pair_of (w.parse s)) (w.format_date t.last_date) t.last_from
            t.last_text_body)

  unfoldable pub reply_html : EmailThread → Text → MatrixMessage → Text
  unfolding with_html_quote format_gmail_quote_html
  reply_html t in_reply_to msg =
      if is_empty in_reply_to || is_empty t.last_html_body
      then or_empty msg.html
      else with_html_quote (or_empty msg.html) msg.body (
          format_gmail_quote_html (λ s. pair_of (w.parse s)) (w.format_date t.last_date) t.last_from
            t.last_html_body)

  unfoldable pub build_outgoing_message :
      Text × Text
      → EmailThread
      → MatrixMessage
      → Text × List Text
      → List Address × List Address
      → OutgoingMessage
  unfolding unbracket domain_of_address normalize_reply_subject reply_text reply_html
  build_outgoing_message (from_addr, from_name) t msg (in_reply_to, references) (to_, cc) = record {
    message_id = unbracket (w.generate_message_id (domain_of_address from_addr));
    from = record { name = from_name; address = from_addr };
    to_ = to_;
    cc = cc;
    subject = if is_empty in_reply_to then t.subject else normalize_reply_subject t.subject;
    in_reply_to = in_reply_to;
    references = references;
    text_body = reply_text t in_reply_to msg.body;
    html_body = reply_html t in_reply_to msg;
    attachments = [];
  }

  -- the signature, on the first message of a thread only
  unfoldable pub signed : Text → OutgoingMessage → OutgoingMessage
  unfolding append_signature
  signed signature om =
      if is_empty om.in_reply_to && (no_references om.references && not (is_empty signature))
      then record om {
        text_body = append_signature w.signature_text om.text_body signature false;
        html_body =
            if is_empty om.html_body
            then []
            else append_signature w.signature_text om.html_body signature true;
      }
      else om

  -- the subject of a first message
  unfoldable pub titled : Bool → EmailThread → OutgoingMessage → OutgoingMessage
  unfolding trim_space
  titled was_draft t om = if was_draft then record om { subject = trim_space t.subject } else om

  -- the media of the message, `none` if they cannot be had
  unfoldable pub with_media : Bool → OutgoingMessage → Option OutgoingMessage
  with_media false om = some om
  with_media true om = elim w.download [
    | none ↦ none
    | some a ↦ some (record om { attachments = om.attachments ++ (a ∷ []) })
  ]

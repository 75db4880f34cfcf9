-- ===== src/Connector/Send.antt =====
-- pkg/connector/client_send.go: what a message sent from a Matrix room is addressed to, which
-- message it answers and what the thread becomes. net/mail's ParseAddress is the parameter `parse`,
-- with `none` for an error; a Go map that serves as a set is the list of its members.
pub mod Recipients
pub mod ReplyAll
pub mod Headers
use matrimail.Prelude.{
  List, Option, Text, [], codes, false, if◌then◌else◌, length, ltb, none, not, some, take, text_eq,
  ℕ, ◌++◌, ◌+◌, ◌∷◌,
}
use matrimail.Email.Threading.{EmailThread, is_empty, member}
use matrimail.Prelude.Strings.{to_lower, trim_space, trim_prefix, cut_at}

-- net/mail's Address
pub record Address : Type 0 where
  pub name : Text
  pub address : Text

pub data SendError : Type 0 where
  no_participants : SendError
  no_recipients : SendError
  no_last_from : SendError
  bad_target : SendError

pub data Result {ℓ} (A : Type ℓ) : Type ℓ where
  error : SendError → Result A
  ok : A → Result A

abbrev pub no_subject : Text
no_subject = codes "(no subject)"

abbrev pub max_len : ℕ
max_len = 78

abbrev before_newline : Text → Option (Text × Text) → Text
before_newline body none = body
before_newline body (some (line, rest)) = line

-- the cap at the end of deriveSubjectFromBody
shorten : Text → Text
shorten [] = no_subject
shorten (c ∷ s) = if ltb max_len (length (c ∷ s)) then take max_len (c ∷ s) else c ∷ s

unfoldable pub derive_subject_from_body : Text → Text
unfolding shorten
derive_subject_from_body body =
    let trimmed = trim_space body in
    if is_empty trimmed
    then no_subject
    else shorten (trim_space (before_newline trimmed (cut_at 10 trimmed)))

-- `reply_to` is the id of the Matrix message's parent, `none` for nil.
unfoldable pub compute_reply_chain : EmailThread → Option Text → Text × List Text
compute_reply_chain t (some id) =
    let parent = trim_prefix id (codes "email:") in (parent, t.references ++ (parent ∷ []))
compute_reply_chain t none =
    if is_empty t.message_id
    then ([], t.references)
    else (t.message_id, t.references ++ (t.message_id ∷ []))

-- what handleMatrixMessageOutbound makes of the thread once the message is sent
unfoldable pub sent : Text → EmailThread → EmailThread
sent dedup_key t = record t {
  references = t.references ++ (dedup_key ∷ []);
  message_id = dedup_key;
  is_draft = false;
}

-- GmailSendAs of pkg/email, as far as it is used here
pub record Alias : Type 0 where
  pub email : Text
  pub name : Text

-- the addresses of the user's own that handleMatrixMessageOutbound collects
alias_addresses : List Alias → List Text
alias_addresses [] = []
alias_addresses (sa ∷ rest) =
    let more = alias_addresses rest in if is_empty sa.email then more else to_lower sa.email ∷ more

unfoldable pub own_addresses : Text → List Alias → List Text
unfolding alias_addresses
own_addresses primary aliases = to_lower primary ∷ alias_addresses aliases

unfoldable pub selves_set : List Text → List Text
selves_set [] = []
selves_set (s ∷ rest) =
    let more = selves_set rest in
    let folded = to_lower (trim_space s) in if is_empty folded then more else folded ∷ more

-- the first alias with the address, or the address as it is
unfoldable pub matching_alias : Text → Text → List Alias → Text × Text
matching_alias want given [] = (given, [])
matching_alias want given (sa ∷ rest) =
    let more = matching_alias want given rest in
    if text_eq (to_lower sa.email) (to_lower want) then (sa.email, sa.name) else more

unfoldable pub pick_from_address : Text → List Alias → EmailThread → List Text → Text × Text
unfolding matching_alias
pick_from_address primary aliases t selves =
    let want = to_lower (trim_space t.last_delivered_to) in
    if is_empty (trim_space t.last_delivered_to)
    then (primary, [])
    else if not (member want selves)
    then (primary, [])
    else matching_alias want t.last_delivered_to aliases

-- the key by which addresses are told apart
abbrev pub key : Address → Text
key a = to_lower a.address

unfoldable pub filter_parsed : Option Address → List Text → List Text → Option (Address × List Text)
filter_parsed none selves seen = none
filter_parsed (some a) selves seen =
    if member (key a) selves
    then none
    else if member (key a) seen
    then none
    else some (a, key a ∷ seen)

abbrev pub from_participants : List Address → Result (List Address × List Address)
from_participants [] = error no_participants
from_participants (a ∷ rest) = ok (a ∷ rest, [])

abbrev pub to_and_cc : List Address → List Address → Result (List Address × List Address)
to_and_cc [] [] = error no_recipients
to_and_cc [] (a ∷ rest) = ok ([], a ∷ rest)
to_and_cc (a ∷ rest) cc = ok (a ∷ rest, cc)

abbrev pub one_target : Option (Address × List Text) → Result (List Address)
one_target none = error bad_target
one_target (some (a, seen)) = ok (a ∷ [])

module _ (parse : Text → Option Address) where
  -- The address, if it is to be included, and the addresses seen from then on.
  unfoldable pub parse_addr_if_allowed : Text → List Text → List Text → Option (Address × List Text)
  unfolding filter_parsed
  parse_addr_if_allowed raw selves seen = filter_parsed (parse raw) selves seen

  -- the loop that collects the allowed ones
  unfoldable pub collect : List Text → List Text → List Text → List Address × List Text
  collect [] selves seen = ([], seen)
  collect (raw ∷ raws) selves seen = elim (parse_addr_if_allowed raw selves seen) [
    | none ↦ collect raws selves seen
    | some (a, seen') ↦ let (more, last) = collect raws selves seen' in (a ∷ more, last)
  ]

  unfoldable pub resolve_reply_all_recipients :
      EmailThread → List Text → Result (List Address × List Address)
  resolve_reply_all_recipients t selves =
      let self_set = selves_set selves in
      if is_empty (trim_space t.last_from)
      then from_participants (collect t.participants self_set []).0
      else let (to_, seen) = collect (t.last_from ∷ t.last_to) self_set [] in
        let (cc, last) = collect t.last_cc self_set seen in to_and_cc to_ cc

  unfoldable pub resolve_dm_recipients : EmailThread → List Text → Result (List Address)
  resolve_dm_recipients t selves =
      if is_empty (trim_space t.last_from)
      then error no_last_from
      else one_target (parse_addr_if_allowed t.last_from (selves_set selves) [])

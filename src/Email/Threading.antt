-- ===== src/Email/Threading.antt =====
-- pkg/email/threading.go: the data of a thread and of a parsed e-mail, and the functions that look
-- at headers and addresses. `nil` slices that the code tells apart from empty ones are `none`, and
-- so is the zero time. net/mail's ParseAddress and time's Format are the parameter `Externals`.
pub mod Manager
pub mod Determine
use matrimail.Prelude.{
  Bool, List, Option, Text, [], any, codes, drop, false, if◌then◌else◌, leb, length, map, none,
  some, suc, take, text_eq, true, zero, ℕ, ◌&&◌, ◌*◌, ◌++◌, ◌+◌, ◌-◌, ◌<◌, ◌==◌, ◌||◌, ◌∷◌,
}
use matrimail.Prelude.Strings.{
  trim_space, to_lower, has_prefix, contains, trim_prefix, trim_suffix, cut_at,
}

pub record EmailThread : Type 0 where
  pub thread_id : Text
  pub subject : Text
  pub participants : List Text
  pub message_id : Text
  pub in_reply_to : Text
  pub references : List Text
  pub cc : List Text
  pub is_draft : Bool
  pub added_participants : List Text
  pub removed_participants : List Text
  pub gmail_thread_id : Text
  pub last_delivered_to : Text
  pub last_from : Text
  pub last_to : List Text
  pub last_cc : List Text
  pub last_date : Option ℕ
  pub last_text_body : Text
  pub last_html_body : Text
  pub last_accessed : ℕ

pub record ParsedEmail : Type 0 where
  pub message_id : Text
  pub in_reply_to : Text
  pub references : List Text
  pub subject : Text
  pub from : Text
  pub to_ : Option (List Text)
  pub cc : Option (List Text)
  pub date : Option ℕ
  pub text_content : Text
  pub html_content : Text
  pub is_draft : Bool
  pub gmail_thread_id : Text
  pub delivered_to : Text

-- `mail.ParseAddress`, as the address that it returns, and `date.Format("20060102150405")`.
pub record Externals : Type 0 where
  pub parse_address : Text → Option Text
  pub format_date : Option ℕ → Text

abbrev pub empty_thread : EmailThread
empty_thread = record {
  thread_id = [];
  subject = [];
  participants = [];
  message_id = [];
  in_reply_to = [];
  references = [];
  cc = [];
  is_draft = false;
  added_participants = [];
  removed_participants = [];
  gmail_thread_id = [];
  last_delivered_to = [];
  last_from = [];
  last_to = [];
  last_cc = [];
  last_date = none;
  last_text_body = [];
  last_html_body = [];
  last_accessed = 0;
}

abbrev pub is_empty : Text → Bool
is_empty [] = true
is_empty (c ∷ s) = false

abbrev pub slice : Option (List Text) → List Text
slice none = []
slice (some l) = l

unfoldable pub clear_participant_changes : EmailThread → EmailThread
clear_participant_changes t = record t { added_participants = []; removed_participants = [] }

-- MaxQuoteBodyBytes
abbrev pub max_quote_body_bytes : ℕ
max_quote_body_bytes = 64 * 1024

unfoldable pub cap_body : Text → Text
cap_body s = if leb (length s) max_quote_body_bytes then s else take max_quote_body_bytes s

abbrev pub forward_prefixes : List Text
forward_prefixes = codes "fwd:" ∷ codes "fw:" ∷ codes "forward:" ∷ []

abbrev pub forward_markers : List Text
forward_markers =
    codes "-----original message-----"
    ∷ codes "begin forwarded message"
    ∷ codes "forwarded message"
    ∷ codes "---------- forwarded message ----------"
    ∷ []

unfoldable pub is_forwarded_message : ParsedEmail → Bool
is_forwarded_message e =
    any (has_prefix (to_lower (trim_space e.subject))) forward_prefixes
    || any (contains (to_lower (e.text_content ++ (codes " " ++ e.html_content)))) forward_markers

unfoldable pub clean_message_id : Text → Text
clean_message_id s = trim_suffix (trim_prefix (trim_space s) (codes "<")) (codes ">")

-- `[^>]+` matches at least one byte.
non_empty : Option (Text × Text) → Option (Text × Text)
non_empty none = none
non_empty (some ([], rest)) = none
non_empty (some (d ∷ group, rest)) = some (d ∷ group, rest)

-- A match of the expression `<([^>]+)>` at the head of a text: its group and what follows.
match_bracketed : Text → Option (Text × Text)
unfolding non_empty
match_bracketed [] = none
match_bracketed (c ∷ s) = if c == b'<' then non_empty (cut_at b'>' s) else none

-- FindAllStringSubmatch: from a match on behind it, else on by one byte. A match takes at least
-- three bytes, so the length of the text is enough fuel.
find_all_bracketed : ℕ → Text → List Text
unfolding match_bracketed
find_all_bracketed zero s = []
find_all_bracketed (suc fuel) [] = []
find_all_bracketed (suc fuel) (c ∷ s) = elim (match_bracketed (c ∷ s)) [
  | some (group, rest) ↦ group ∷ find_all_bracketed fuel rest
  | none ↦ find_all_bracketed fuel s
]

unfoldable pub parse_references : Text → List Text
unfolding find_all_bracketed
parse_references references = find_all_bracketed (length references) references

-- FindStringSubmatch: the group of the first match.
find_bracketed : Text → Option Text
unfolding match_bracketed
find_bracketed [] = none
find_bracketed (c ∷ s) = elim (match_bracketed (c ∷ s)) [
  | some (group, rest) ↦ some group
  | none ↦ find_bracketed s
]

unfoldable pub extract_email_address : Externals → Text → Text
unfolding find_bracketed
extract_email_address ext input =
    let s = trim_space input in
    if is_empty s then [] else elim (ext.parse_address s) [
      | some address ↦ address
      | none ↦ elim (find_bracketed s) [
        | some group ↦ group
        | none ↦ if contains s (codes "@") && contains s (codes ".") then s else []
      ]
    ]

unfoldable pub member : Text → List Text → Bool
member x [] = false
member x (y ∷ ys) = text_eq y x || member x ys

unfoldable pub append_unique : List Text → Text → List Text
unfolding member
append_unique l item = if member item l then l else l ++ (item ∷ [])

-- One round of normalizeSubject for each prefix; `none` if the subject has none of them.
skip_bracket : Text → Text
skip_bracket s = elim (cut_at b']' s) [
  | some (before, after) ↦
      let t = trim_space after in if has_prefix t (codes ":") then trim_space (drop 1 t) else t
  | none ↦ trim_space s
]

strip_prefix : Text → Option Text
unfolding skip_bracket
strip_prefix s =
    if has_prefix s (codes "re:")
    then some (trim_space (drop 3 s))
    else if has_prefix s (codes "fwd:")
    then some (trim_space (drop 4 s))
    else if has_prefix s (codes "fw:")
    then some (trim_space (drop 3 s))
    else if has_prefix s (codes "re[")
    then some (skip_bracket (drop 3 s))
    else if has_prefix s (codes "fwd[")
    then some (skip_bracket (drop 4 s))
    else if has_prefix s (codes "fw[")
    then some (skip_bracket (drop 3 s))
    else none

-- Each round takes at least three bytes, so the length of the subject is enough fuel.
strip_prefixes : ℕ → Text → Text
unfolding strip_prefix
strip_prefixes zero s = s
strip_prefixes (suc fuel) s = elim (strip_prefix s) [ some t ↦ strip_prefixes fuel t | none ↦ s ]

unfoldable pub normalize_subject : Text → Text
unfolding strip_prefixes
normalize_subject subject = let s = to_lower (trim_space subject) in strip_prefixes (length s) s

replace_spaces : Text → Text
replace_spaces = map (λ c. if c == 32 then b'-' else c)

unfoldable pub generate_thread_id : Externals → Text → Option ℕ → Text
unfolding normalize_subject replace_spaces
generate_thread_id ext subject date =
    let s = normalize_subject subject in
    let normalized = if is_empty s then codes "no-subject" else s in
    replace_spaces normalized ++ (b'-' ∷ ext.format_date date)

-- ===== src/Email/Quote.antt =====
-- pkg/email/quote.go: the quotation that is put below a reply, and the removal of such a quotation
-- from a message that comes in, in plain text and in HTML. Text is UTF-8: a byte from 0x80 to 0xbf
-- continues a character. A regular expression is the function that says whether it matches.
pub mod Html
pub mod Stripped
pub mod Examples
use matrimail.Prelude.{
  Bool, List, Option, [], any, codes, drop, false, if◌then◌else◌, leb, length, ltb, none, not, some,
  suc, take, text_eq, true, zero, ◌&&◌, ◌++◌, ◌+◌, ◌-◌, ◌<◌, ◌==◌, ◌||◌, ◌∷◌, Text, ℕ,
}
use matrimail.Prelude.Strings.{has_prefix, trim_left, trim_right, trim_space}
use matrimail.Prelude.Strings.Lines.{split_on, join_by}
use mathlib.Core.List.{reverse}
use matrimail.Email.Threading.{is_empty}

-- the class \s of a regular expression
unfoldable pub is_blank_byte : ℕ → Bool
is_blank_byte c = c == 32 || c == 9 || c == 10 || c == 12 || c == 13

unfoldable pub all_bytes : (ℕ → Bool) → Text → Bool
all_bytes p [] = true
all_bytes p (c ∷ s) = p c && all_bytes p s

-- `:\s*$`
unfoldable pub colon_end : Text → Bool
unfolding all_bytes
colon_end [] = false
colon_end (c ∷ s) = c == b':' && all_bytes is_blank_byte s

-- `\s*:\s*$`
unfoldable pub closes : Text → Bool
unfolding is_blank_byte trim_left colon_end
closes s = colon_end (trim_left is_blank_byte s)

abbrev continues : ℕ → Bool
continues c = leb 128 c && ltb c 192

-- `.{lo,hi}` and then what `k` matches
unfoldable pub within : ℕ → ℕ → (Text → Bool) → Text → Bool
within lo hi k [] = lo == 0 && k []
within lo hi k (c ∷ s) =
    let rest =
      within (if continues c then lo else lo - 1) (if continues c then hi else hi - 1) k s in
    (lo == 0 && k (c ∷ s)) || (not (c == 10) && ((continues c || not (hi == 0)) && rest))

-- the text behind a literal
unfoldable pub behind : Text → (Text → Bool) → Text → Bool
unfolding has_prefix
behind p k s = has_prefix s p && k (drop (length p) s)

-- `^On .{3,400} wrote\s*:\s*$` and its like
unfoldable pub verb_last : Text → Text → Text → Bool
unfolding behind within closes
verb_last p verb = behind p (within 3 400 (behind verb closes))

-- `^Am .{3,400} schrieb .{1,200}\s*:\s*$` and its like
unfoldable pub name_last : Text → Text → Text → Bool
unfolding behind within closes
name_last p verb = behind p (within 3 400 (behind verb (within 1 200 closes)))

-- é and ó
abbrev e_acute : Text
e_acute = 195 ∷ 169 ∷ []

abbrev o_acute : Text
o_acute = 195 ∷ 179 ∷ []

-- gmailAttrRegexes, tried in turn
unfoldable pub matches_gmail_attribution : Text → Bool
unfolding verb_last name_last
matches_gmail_attribution s =
    verb_last (codes "On ") (codes " wrote") s
    || verb_last (codes "Le ") (codes " a " ++ (e_acute ++ codes "crit")) s
    || name_last (codes "Am ") (codes " schrieb ") s
    || verb_last (codes "El ") (codes " escribi" ++ o_acute) s
    || verb_last (codes "Il ") (codes " ha scritto") s
    || verb_last (codes "Em ") (codes " escreveu") s
    || name_last (codes "Op ") (codes " schreef ") s

abbrev gmail_attr_prefixes : List Text
gmail_attr_prefixes =
    codes "On "
    ∷ codes "Le "
    ∷ codes "Am "
    ∷ codes "El "
    ∷ codes "Il "
    ∷ codes "Em "
    ∷ codes "Op "
    ∷ []

unfoldable pub has_gmail_attribution_prefix : Text → Bool
unfolding any has_prefix
has_gmail_attribution_prefix s = any (has_prefix s) gmail_attr_prefixes

-- the cutset " \t\r"
abbrev pub ends_line : ℕ → Bool
ends_line c = c == 32 || c == 9 || c == 13

-- the cutset " \t\r\n"
abbrev pub ends_text : ℕ → Bool
ends_text c = c == 32 || c == 9 || c == 13 || c == 10

-- a line without the blanks around it, as `ll` in the loop
unfoldable pub bare : Text → Text
unfolding trim_right trim_space
bare line = trim_space (trim_right ends_line line)

-- the attribution that goes on in the next line, or the next two
unfoldable pub wrapped : ℕ → Text → List Text → Bool
unfolding matches_gmail_attribution trim_space
wrapped zero joined next = false
wrapped (suc n) joined [] = false
wrapped (suc n) joined (l ∷ next) =
    let longer = joined ++ (32 ∷ trim_space l) in
    matches_gmail_attribution longer || wrapped n longer next

-- outlookDividerRE, `^_{12,}$`
unfoldable pub outlook_divider : Text → Bool
unfolding all_bytes
outlook_divider s = leb 12 (length s) && all_bytes (λ c. c == b'_') s

abbrev header_names : List Text
header_names = codes "Sent: " ∷ codes "Date: " ∷ codes "To: " ∷ codes "Subject: " ∷ []

-- a header block of Outlook
unfoldable pub outlook_header : Text → List Text → Bool
unfolding has_prefix trim_space any
outlook_header ll [] = false
outlook_header ll (l ∷ next) =
    has_prefix ll (codes "From: ") && any (has_prefix (trim_space l)) header_names

-- whether the quotation begins at the line, before those in `next`
unfoldable pub begins_quote : Text → List Text → Bool
unfolding matches_gmail_attribution has_gmail_attribution_prefix wrapped outlook_divider
    outlook_header bare
begins_quote line next =
    let ll = bare line in
    matches_gmail_attribution ll
    || (has_gmail_attribution_prefix ll && wrapped 2 ll next)
    || text_eq ll (codes "-----Original Message-----")
    || text_eq ll (codes "________________________________")
    || outlook_divider ll
    || outlook_header ll next

-- the index at which the loop of StripQuotedReply breaks
unfoldable pub first_quote : List Text → Option ℕ
unfolding begins_quote
first_quote [] = none
first_quote (line ∷ next) = elim (begins_quote line next) [
  | true ↦ some 0
  | false ↦ elim (first_quote next) [ none ↦ none | some i ↦ some (suc i) ]
]

-- The walk from the last line up: how many lines are left, and whether one was quoted. `lines` are
-- in reverse order.
unfoldable pub walk_back : Bool → List Text → ℕ × Bool
unfolding trim_space has_prefix
walk_back saw [] = (0, saw)
walk_back saw (l ∷ lines) =
    let quoted = has_prefix (trim_space l) (b'>' ∷ []) in
    let further = walk_back (saw || quoted) lines in
    if is_empty (trim_space l) || quoted then further else (length (l ∷ lines), saw)

-- where to cut when no line begins a quotation
unfoldable pub cut_tail : List Text → ℕ
unfolding walk_back
cut_tail lines =
    let (left, saw) = walk_back false (reverse lines) in if saw then left else length lines

unfoldable pub cut_of : List Text → ℕ
unfolding first_quote cut_tail
cut_of lines = elim (first_quote lines) [ none ↦ cut_tail lines | some i ↦ i ]

unfoldable pub strip_quoted_reply : Text → Text
unfolding split_on join_by trim_right cut_of
strip_quoted_reply text =
    let lines = split_on 10 text in
    if is_empty text then [] else trim_right ends_text (join_by 10 (take (cut_of lines) lines))

-- buildAttributionLine. `date` is the date, or the present one for a zero date, as Go's Format
-- prints it, and `parsed` what ParseAddress makes of the sender: the name and the address.
unfoldable pub attribution_sender : Option (Text × Text) → Text → Text
unfolding trim_space
attribution_sender none sender = if is_empty sender then codes "Unknown" else sender
attribution_sender (some (name, address)) sender =
    let shown =
      if is_empty (trim_space name)
      then address
      else trim_space name ++ (codes " <" ++ (address ++ codes ">")) in
    if is_empty shown then codes "Unknown" else shown

module _ (parse : Text → Option (Text × Text)) (date : Text) where
  unfoldable pub build_attribution_line : Text → Text
  unfolding attribution_sender trim_space
  build_attribution_line parent_from =
      let sender = trim_space parent_from in
      codes "On "
      ++ (date ++ (codes ", " ++ (attribution_sender (parse sender) sender ++ codes " wrote:")))

  -- a line of the parent with its marker, and the newline behind it
  unfoldable pub quote_line : Text → Text
  unfolding trim_right has_prefix
  quote_line line =
      let l = trim_right (λ c. c == 13) line in
      if is_empty l
      then codes ">" ++ (10 ∷ [])
      else if has_prefix l (codes ">")
      then b'>' ∷ (l ++ (10 ∷ []))
      else b'>' ∷ 32 ∷ (l ++ (10 ∷ []))

  unfoldable pub quote_lines : List Text → Text
  unfolding quote_line
  quote_lines [] = []
  quote_lines (l ∷ ls) = quote_line l ++ quote_lines ls

  unfoldable pub format_gmail_quote_text : Text → Text → Text
  unfolding build_attribution_line quote_lines split_on trim_right
  format_gmail_quote_text parent_from parent_text =
      let attr = build_attribution_line parent_from in
      if is_empty parent_text
      then attr ++ (10 ∷ [])
      else trim_right (λ c. c == 10) (attr ++ (10 ∷ quote_lines (split_on 10 parent_text)))

-- htmlEscape
unfoldable pub html_escape_byte : ℕ → Text
html_escape_byte c =
    if c == b'&'
    then codes "&amp;"
    else if c == b'<'
    then codes "&lt;"
    else if c == b'>'
    then codes "&gt;"
    else if c == b'"'
    then codes "&quot;"
    else c ∷ []

unfoldable pub html_escape : Text → Text
unfolding html_escape_byte
html_escape [] = []
html_escape (c ∷ s) = html_escape_byte c ++ html_escape s

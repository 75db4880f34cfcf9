-- ===== src/Email/Quote/Html.antt =====
-- The HTML half of pkg/email/quote.go: the block that quotes the parent, and the removal of the
-- quoted history. The case of a byte from 0x80 up is left alone, so that a text and its lower case
-- have the same length.
use matrimail.Prelude.{
  Bool, List, Option, [], codes, if◌then◌else◌, length, ltb, none, some, suc, take, text_eq, zero,
  ◌&&◌, ◌++◌, ◌==◌, ◌||◌, ◌∷◌, Text, ℕ,
}
use matrimail.Prelude.Strings.{has_prefix, to_lower, trim_right, trim_space, trim_suffix}
use matrimail.Email.Threading.{is_empty}
use matrimail.Email.Quote.{ends_text, build_attribution_line, html_escape}

abbrev html_quote_markers : List Text
html_quote_markers =
    codes "<div class=\"gmail_quote"
    ∷ codes "<blockquote class=\"gmail_quote"
    ∷ codes "<blockquote type=\"cite\""
    ∷ codes "<div id=\"appendonsend\""
    ∷ codes "<div id=\"mail-editor-reference-message-container\""
    ∷ codes "<hr id=\"stopspelling\""
    ∷ codes "<div style=\"border:none;border-top:solid"
    ∷ codes "<div style=\"border-top:solid"
    ∷ []

-- strings.Index; `none` for -1
unfoldable pub index_in : Text → Text → Option ℕ
unfolding has_prefix
index_in [] m = if has_prefix [] m then some 0 else none
index_in (c ∷ s) m =
    if has_prefix (c ∷ s) m
    then some 0
    else elim (index_in s m) [ none ↦ none | some i ↦ some (suc i) ]

-- the loop over the markers
unfoldable pub nearest : Text → List Text → ℕ → ℕ
unfolding index_in
nearest lower [] cut = cut
nearest lower (m ∷ ms) cut =
    nearest lower ms
      (elim (index_in lower m) [ none ↦ cut | some i ↦ if ltb i cut then i else cut ])

-- strings.LastIndexByte: the text before the last such byte, and behind it
unfoldable pub cut_last : ℕ → Text → Option (Text × Text)
cut_last b [] = none
cut_last b (c ∷ s) = elim (cut_last b s) [
  | some (before, after) ↦ some (c ∷ before, after)
  | none ↦ if c == b then some ([], s) else none
]

-- whether what stands between < and > is a break, without regard to case
unfoldable pub is_break : Text → Bool
unfolding to_lower trim_space trim_suffix has_prefix
is_break inner =
    let tag = trim_space (trim_suffix (to_lower (trim_space inner)) (codes "/")) in
    text_eq tag (codes "br") || has_prefix tag (codes "br ")

-- trimTrailingBR; the last byte of what stands behind the last < is its >
unfoldable pub trim_trailing_br : Text → Text
unfolding cut_last is_break
trim_trailing_br s = elim (cut_last b'<' s) [
  | none ↦ s
  | some (before, tail) ↦ elim (cut_last b'>' tail) [
    | none ↦ s
    | some (inner, rest) ↦ if is_empty rest && is_break inner then before else s
  ]
]

-- the loop behind the cut, on the length of the text
unfoldable pub trim_breaks : ℕ → Text → Text
unfolding trim_trailing_br trim_right
trim_breaks zero s = s
trim_breaks (suc n) s =
    let trimmed = trim_trailing_br s in
    let further = trim_breaks n (trim_right ends_text trimmed) in
    if text_eq trimmed s then s else further

unfoldable pub strip_quoted_reply_html : Text → Text
unfolding nearest to_lower trim_right trim_breaks
strip_quoted_reply_html html =
    let cut = nearest (to_lower html) html_quote_markers (length html) in
    if cut == length html
    then html
    else trim_breaks (length html) (trim_right ends_text (take cut html))

abbrev block_open : Text
block_open =
    codes "<div class=\"gmail_quote gmail_quote_container\"><div dir=\"ltr\" class=\"gmail_attr\">"

abbrev block_middle : Text
block_middle =
    codes
      "<br></div><blockquote class=\"gmail_quote\" style=\"margin:0px 0px 0px 0.8ex;border-left:1px solid rgb(204,204,204);padding-left:1ex\">"

unfoldable pub format_gmail_quote_html : (Text → Option (Text × Text)) → Text → Text → Text → Text
unfolding build_attribution_line html_escape
format_gmail_quote_html parse date parent_from parent_html =
    if is_empty parent_html
    then []
    else block_open
      ++ (html_escape (build_attribution_line parse date parent_from)
          ++ (block_middle ++ (parent_html ++ codes "</blockquote></div>")))

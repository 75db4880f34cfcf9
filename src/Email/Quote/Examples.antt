-- ===== src/Email/Quote/Examples.antt =====
-- Quotations that are put below a reply and taken away again.
use matrimail.Prelude.Strings.Lines.{split_on}
use matrimail.Prelude.Strings.{trim_space, has_prefix, trim_right}
use matrimail.Prelude.{
  All, Option, Text, [], arith, codes, refl, some, text_eq, true, ◌++◌, ◌∷◌, ◌≡◌,
}
use matrimail.Email.Quote.{
  outlook_divider, has_gmail_attribution_prefix, bare, attribution_sender, strip_quoted_reply,
  format_gmail_quote_text, ends_text,
}
use matrimail.Email.Quote.Html.{strip_quoted_reply_html}
use matrimail.Email.Quote.Stripped.{
  strip_quoted_reply-format_gmail_quote_text, is_plain, attributed, IsAttribution,
}

abbrev unnamed : Text → Option (Text × Text)
unnamed s = some ([], s)

abbrev monday : Text
monday = codes "Mon, May 18, 2026 at 10:30 AM"

abbrev parent_body : Text
parent_body = codes "Lunch?" ++ (10 ∷ codes "> no")

abbrev reply_body : Text
reply_body = codes "Sure." ++ (10 ∷ codes "At one ")

attributed-IsAttribution : IsAttribution (attributed unnamed monday (codes "ann@b.c"))
unfolding attributed attribution_sender trim_space
attributed-IsAttribution = record { long = omega arith; short = omega arith; single = refl }

reply_body-is_plain : All (λ l. is_plain l ≡ true) (split_on 10 reply_body)
unfolding is_plain bare split_on has_gmail_attribution_prefix outlook_divider has_prefix text_eq
reply_body-is_plain = (refl, (refl, tt))

strip_quoted_reply-format_gmail_quote_text_example :
    strip_quoted_reply (
      reply_body
      ++ (10 ∷ 10 ∷ format_gmail_quote_text unnamed monday (codes "ann@b.c") parent_body))
    ≡ trim_right ends_text reply_body
strip_quoted_reply-format_gmail_quote_text_example =
    strip_quoted_reply-format_gmail_quote_text unnamed monday (codes "ann@b.c") parent_body
      reply_body reply_body-is_plain attributed-IsAttribution

-- A reply that begins "On " on its last line is taken for the start of the attribution.
strip_quoted_reply-on :
    strip_quoted_reply (
      codes "On it"
      ++ (10 ∷ 10 ∷ format_gmail_quote_text unnamed monday (codes "ann@b.c") parent_body))
    ≡ []
unfolding strip_quoted_reply format_gmail_quote_text
strip_quoted_reply-on = refl

strip_quoted_reply_html-break :
    strip_quoted_reply_html (codes "hi<br/> <br><div class=\"gmail_quote\">x") ≡ codes "hi"
unfolding strip_quoted_reply_html text_eq
strip_quoted_reply_html-break = refl

-- ===== src/Email/Quote/Stripped.antt =====
-- What is removed from a message that quotes its parent is what was put there.
use matrimail.Prelude.{
  All-append, append-nil, All, Bool, Bool-cases, List, Option, Text, [], any, ap, append_assoc,
  arith, codes, false, if◌then◌else◌, inl, inr, leb, length, ltb, not, refl, some, suc, sym, take,
  text_eq, true, ℕ, ◌&&◌, ◌++◌, ◌-◌, ◌==◌, ◌||◌, ◌∙◌, ◌∷◌, ◌≡◌, ◌≤◌,
}
use matrimail.Prelude.Strings.{trim_right, trim_space, is_space, has_prefix}
use matrimail.Prelude.Strings.Lines.{
  join_by-split_on, join_by-append, split_on-cons, split_on-append, split_on,
}
use matrimail.Email.Quote.{
  quote_lines, is_empty, join_by, ends_text, cut_of, format_gmail_quote_text, strip_quoted_reply,
  within, behind, closes, matches_gmail_attribution, has_gmail_attribution_prefix, bare, wrapped,
  outlook_divider, outlook_header, begins_quote, first_quote, ends_line, build_attribution_line,
  attribution_sender,
}

trim_right-append :
    (p : ℕ → Bool) (a s : Text) → trim_right p a ≡ a → trim_right p (a ++ s) ≡ a ++ trim_right p s
unfolding trim_right
trim_right-append p [] s h = refl
trim_right-append p (c ∷ []) s h = ground arith
trim_right-append p (c ∷ d ∷ a) s h =
    let e : trim_right p (d ∷ a) ≡ d ∷ a = ground arith in rw (trim_right-append p (d ∷ a) s e) refl

trim_right-drop :
    (p : ℕ → Bool) (s : Text) (c : ℕ) → p c ≡ true → trim_right p (s ++ (c ∷ [])) ≡ trim_right p s
unfolding trim_right
trim_right-drop p [] c h = ground arith
trim_right-drop p (d ∷ s) c h = rw (trim_right-drop p s c h)

trim_right-keep :
    (p : ℕ → Bool) (s : Text) (c : ℕ) → p c ≡ false → trim_right p (s ++ (c ∷ [])) ≡ s ++ (c ∷ [])
unfolding trim_right
trim_right-keep p [] c h = ground arith
trim_right-keep p (d ∷ []) c h = ground arith
trim_right-keep p (d ∷ e ∷ s) c h = rw (trim_right-keep p (e ∷ s) c h) refl

-- the line breaks in a text
abbrev pub one_line : Text → Bool
one_line [] = true
one_line (c ∷ s) = not (c == 10) && one_line s

-- the characters of a text
abbrev pub width : Text → ℕ
width [] = 0
width (c ∷ s) = if leb 128 c && ltb c 192 then width s else suc (width s)

one_line-append : (a b : Text) → one_line a ≡ true → one_line b ≡ true → one_line (a ++ b) ≡ true
one_line-append [] b h k = k
one_line-append (c ∷ a) b h k = ground (arith, one_line-append a b)

trim_right-one_line : (s : Text) → one_line s ≡ true → trim_right (λ c. c == 10) s ≡ s
unfolding trim_right
trim_right-one_line [] h = refl
trim_right-one_line (c ∷ []) h = ground arith
trim_right-one_line (c ∷ d ∷ s) h =
    let e : trim_right (λ c. c == 10) (d ∷ s) ≡ d ∷ s =
      trim_right-one_line (d ∷ s) (ground arith) in
    rw e refl

split_on-one_line : (s : Text) → one_line s ≡ true → split_on 10 s ≡ s ∷ []
unfolding split_on
split_on-one_line [] h = refl
split_on-one_line (c ∷ s) h = ground (arith, split_on-one_line s)

within-append :
    (lo hi : ℕ) (k : Text → Bool) (m r : Text)
    → lo ≤ width m
    → width m ≤ hi
    → one_line m ≡ true
    → k r ≡ true
    → within lo hi k (m ++ r) ≡ true
unfolding within
within-append lo hi k [] [] l h n e = ground arith
within-append lo hi k [] (c ∷ r) l h n e = ground arith
within-append lo hi k (c ∷ m) r l h n e = elim (Bool-cases (leb 128 c && ltb c 192)) [
  | inl y ↦ rw (y) (ground (arith, within-append lo hi k m r))
  | inr y ↦ rw (y) (ground (arith, within-append (lo - 1) (hi - 1) k m r))
]

-- a line at which no quotation begins, whatever follows it
unfoldable pub is_plain : Text → Bool
is_plain line =
    let ll = bare line in
    not (
      has_gmail_attribution_prefix ll
      || has_prefix ll (codes "From: ")
      || text_eq ll (codes "-----Original Message-----")
      || text_eq ll (codes "________________________________")
      || outlook_divider ll)

none_matches :
    (a b c d e f g a' b' c' d' e' f' g' : Bool)
    → (a || (b || (c || (d || (e || (f || (g || false))))))) ≡ false
    → (a && a' || b && b' || c && c' || d && d' || e && e' || f && f' || g && g') ≡ false
none_matches true b c d e f g a' b' c' d' e' f' g' h = cc
none_matches false true c d e f g a' b' c' d' e' f' g' h = cc
none_matches false false true d e f g a' b' c' d' e' f' g' h = cc
none_matches false false false true e f g a' b' c' d' e' f' g' h = cc
none_matches false false false false true f g a' b' c' d' e' f' g' h = cc
none_matches false false false false false true g a' b' c' d' e' f' g' h = cc
none_matches false false false false false false true a' b' c' d' e' f' g' h = cc
none_matches false false false false false false false a' b' c' d' e' f' g' h = refl

first_matches : (a b c d e f g : Bool) → a ≡ true → (a || b || c || d || e || f || g) ≡ true
first_matches a b c d e f g h = rw h

first_case : (a b c d e f : Bool) → a ≡ true → (a || b || c || d || e || f) ≡ true
first_case a b c d e f h = rw h

no_attribution :
    (s : Text) → has_gmail_attribution_prefix s ≡ false → matches_gmail_attribution s ≡ false
unfolding has_gmail_attribution_prefix matches_gmail_attribution any
no_attribution s h =
    let starts = has_prefix s in
    none_matches (starts (codes "On ")) (starts (codes "Le ")) (starts (codes "Am "))
      (starts (codes "El ")) (starts (codes "Il ")) (starts (codes "Em ")) (starts (codes "Op ")) _
      _ _ _ _ _ _ h

no_header :
    (ll : Text) (next : List Text)
    → has_prefix ll (codes "From: ") ≡ false
    → outlook_header ll next ≡ false
unfolding outlook_header
no_header ll [] h = refl
no_header ll (l ∷ next) h = rw h

no_case :
    (ma pre w t1 t2 od oh fr : Bool)
    → (pre ≡ false → ma ≡ false)
    → (fr ≡ false → oh ≡ false)
    → not (pre || fr || t1 || t2 || od) ≡ true
    → (ma || (pre && w) || t1 || t2 || od || oh) ≡ false
no_case ma true w t1 t2 od oh fr m o h = cc
no_case ma false w t1 t2 od oh true m o h = cc
no_case ma false w t1 t2 od oh false m o h = rw (m refl) (rw (o refl) (ground arith))

begins_quote-is_plain :
    (line : Text) (next : List Text) → is_plain line ≡ true → begins_quote line next ≡ false
unfolding begins_quote is_plain
begins_quote-is_plain line next h =
    no_case _ _ (wrapped 2 (bare line) next) _ _ _ (outlook_header (bare line) next) _
      (no_attribution (bare line)) (no_header (bare line) next) h

-- The lines before the first at which a quotation begins.
first_quote-All :
    (ls : List Text) (line : Text) (next : List Text)
    → All (λ l. is_plain l ≡ true) ls
    → begins_quote line next ≡ true
    → first_quote (ls ++ (line ∷ next)) ≡ some (length ls)
unfolding first_quote
first_quote-All [] line next h b = rw (b, first_quote) refl
first_quote-All (l ∷ ls) line next h b =
    rw (begins_quote-is_plain l (ls ++ (line ∷ next)) h.0, first_quote)
      (rw (first_quote-All ls line next h.1 b) refl)

take-length : (ls ms : List Text) → take (length ls) (ls ++ ms) ≡ ls
take-length [] ms = refl
take-length (l ∷ ls) ms = ap (λ t. l ∷ t) (take-length ls ms)

-- the text between the first word of an attribution and its verb
unfoldable pub attributed : (Text → Option (Text × Text)) → Text → Text → Text
attributed parse date parent_from =
    let sender = trim_space parent_from in
    date ++ (codes ", " ++ attribution_sender (parse sender) sender)

attribution_line : Text → Text
attribution_line m = codes "On " ++ (m ++ codes " wrote:")

build_attribution_line-attributed :
    (parse : Text → Option (Text × Text)) (date from : Text)
    → build_attribution_line parse date from ≡ attribution_line (attributed parse date from)
unfolding build_attribution_line attribution_line attributed
build_attribution_line-attributed parse date from =
    let sender = trim_space from in
    let shown = attribution_sender (parse sender) sender in
    ap (λ t. codes "On " ++ t)
      (ap (λ t. date ++ t) (sym (append_assoc (codes ", ") shown (codes " wrote:")))
        ∙ sym (append_assoc date (codes ", " ++ shown) (codes " wrote:")))

-- A line that the regular expression for English takes for an attribution.
pub record IsAttribution (m : Text) : Type 0 where
  pub long : 3 ≤ width m
  pub short : width m ≤ 400
  pub single : one_line m ≡ true

attribution_line-colon :
    (m : Text) → attribution_line m ≡ (codes "On " ++ (m ++ codes " wrote")) ++ (58 ∷ [])
unfolding attribution_line
attribution_line-colon m =
    ap (λ t. codes "On " ++ t) (sym (append_assoc m (codes " wrote") (58 ∷ [])))

bare-attribution_line : (m : Text) → bare (attribution_line m) ≡ attribution_line m
unfolding bare trim_space
bare-attribution_line m =
    let front = codes "On " ++ (m ++ codes " wrote") in
    rw (attribution_line-colon m) (
      rw (trim_right-keep ends_line front 58 refl)
        (trim_right-keep is_space front 58 (unfold is_space in refl)))

matches_gmail_attribution-attribution_line :
    (m : Text) → IsAttribution m → matches_gmail_attribution (attribution_line m) ≡ true
unfolding matches_gmail_attribution has_prefix attribution_line
matches_gmail_attribution-attribution_line m a = first_matches _ _ _ _ _ _ _ (
    within-append 3 400 (behind (codes " wrote") closes) m (codes " wrote:") a.long a.short a.single
      (unfold has_prefix closes in refl))

begins_quote-attribution_line :
    (m : Text) (next : List Text) → IsAttribution m → begins_quote (attribution_line m) next ≡ true
unfolding begins_quote
begins_quote-attribution_line m next a =
    rw (bare-attribution_line m)
      (first_case _ _ _ _ _ _ (matches_gmail_attribution-attribution_line m a))

cut_of-some : (ls : List Text) (n : ℕ) → first_quote ls ≡ some n → cut_of ls ≡ n
unfolding cut_of
cut_of-some ls n h = rw (h, cut_of) refl

is_empty-append : (s : Text) (c : ℕ) (t : Text) → is_empty (s ++ (c ∷ t)) ≡ false
is_empty-append [] c t = refl
is_empty-append (d ∷ s) c t = refl

-- What is kept are the lines before the first at which a quotation begins.
strip_quoted_reply-kept :
    (text : Text) (kept : List Text) (line : Text) (next : List Text)
    → is_empty text ≡ false
    → split_on 10 text ≡ kept ++ (line ∷ next)
    → All (λ l. is_plain l ≡ true) kept
    → begins_quote line next ≡ true
    → strip_quoted_reply text ≡ trim_right ends_text (join_by 10 kept)
unfolding strip_quoted_reply
strip_quoted_reply-kept text kept line next n e h b = rw n (
    rw e (
      rw (cut_of-some (kept ++ (line ∷ next)) (length kept) (first_quote-All kept line next h b))
        (ap (λ ls. trim_right ends_text (join_by 10 ls)) (take-length kept (line ∷ next)))))

split_on-newline : (t : Text) → split_on 10 (10 ∷ t) ≡ [] ∷ split_on 10 t
unfolding split_on
split_on-newline t = refl

join_by-below : (body : Text) → join_by 10 (split_on 10 body ++ ([] ∷ [])) ≡ body ++ (10 ∷ [])
join_by-below body =
    let (l, ls, e) = split_on-cons 10 body in
    rw e (join_by-append 10 l ls []) ∙ ap (λ t. t ++ (10 ∷ [])) (join_by-split_on 10 body)

is_plain-nil : is_plain [] ≡ true
unfolding is_plain bare trim_space has_gmail_attribution_prefix outlook_divider has_prefix text_eq
is_plain-nil = refl

-- the tail of a text that is quoted below an attribution
module _ (parse : Text → Option (Text × Text)) (date from parent : Text) where
  abbrev line : Text
  line = attribution_line (attributed parse date from)

  one_line-line : one_line (attributed parse date from) ≡ true → one_line line ≡ true
  unfolding attribution_line
  one_line-line h = one_line-append (attributed parse date from) (codes " wrote:") h refl

  lines_below :
      (s : Text)
      → one_line line ≡ true
      → (ls : List Text) × (split_on 10 (line ++ trim_right (λ c. c == 10) (10 ∷ s)) ≡ line ∷ ls)
  unfolding trim_right
  lines_below s h =
      elim (trim_right (λ c. c == 10) s)
        as (λ t.
          (ls : List Text) × (split_on 10 (line ++ elim t [ [] ↦ [] | d ∷ r ↦ 10 ∷ d ∷ r ])
            ≡ line ∷ ls)) [
              | [] ↦ ([], ap (split_on 10) (append-nil line) ∙ split_on-one_line line h)
              | d ∷ r ↦ (
                split_on 10 (d ∷ r),
                split_on-append 10 line (d ∷ r)
                    ∙ ap (λ t. t ++ split_on 10 (d ∷ r)) (split_on-one_line line h),
              )
            ]

  format_gmail_quote_text_lem : format_gmail_quote_text parse date from parent ≡ (
      if is_empty parent
      then build_attribution_line parse date from ++ (10 ∷ [])
      else trim_right
          (λ c. c == 10)
          (build_attribution_line parse date from
            ++ (10 ∷ quote_lines parse date (split_on 10 parent))))
  unfolding format_gmail_quote_text
  format_gmail_quote_text_lem = refl

  format_lines :
      one_line line ≡ true
      → (ls : List Text) × (split_on 10 (format_gmail_quote_text parse date from parent)
          ≡ line ∷ ls)
  format_lines h = rw format_gmail_quote_text_lem (
      rw (build_attribution_line-attributed parse date from) (elim (Bool-cases (is_empty parent)) [
        | inl e ↦ rw e (
          split_on 10 [],
          split_on-append 10 line [] ∙ ap (λ t. t ++ split_on 10 []) (split_on-one_line line h),
        )
        | inr n ↦
            let quotes = quote_lines parse date (split_on 10 parent) in
            rw n (
              rw (trim_right-append (λ c. c == 10) line (10 ∷ quotes) (trim_right-one_line line h))
                (lines_below quotes h))
      ]))

  -- StripQuotedReply takes away what buildOutgoingMessage puts below the body of a reply: if no line
  -- of the body begins like an attribution, a divider or a header block, and the date and the sender
  -- stand on one line of 3 to 400 characters, the body is left, but for the blanks at its end.
  pub strip_quoted_reply-format_gmail_quote_text :
      (body : Text)
      → All (λ l. is_plain l ≡ true) (split_on 10 body)
      → IsAttribution (attributed parse date from)
      → strip_quoted_reply (body ++ (10 ∷ 10 ∷ format_gmail_quote_text parse date from parent))
        ≡ trim_right ends_text body
  strip_quoted_reply-format_gmail_quote_text body h a =
      let quote = format_gmail_quote_text parse date from parent in
      let (ls, e) = format_lines (one_line-line a.single) in
      let kept = split_on 10 body ++ ([] ∷ []) in
      let lines : split_on 10 (body ++ (10 ∷ 10 ∷ quote)) ≡ kept ++ (line ∷ ls) =
        split_on-append 10 body (10 ∷ quote)
        ∙ ap (λ t. split_on 10 body ++ t) (split_on-newline quote ∙ ap (λ t. [] ∷ t) e)
        ∙ sym (append_assoc (split_on 10 body) ([] ∷ []) (line ∷ ls)) in
      strip_quoted_reply-kept _ kept line ls (is_empty-append body 10 (10 ∷ quote)) lines
        (All-append (λ l. is_plain l ≡ true) (split_on 10 body) ([] ∷ []) h (is_plain-nil, tt))
        (begins_quote-attribution_line (attributed parse date from) ls a)
      ∙ ap (trim_right ends_text) (join_by-below body)
      ∙ trim_right-drop ends_text body 10 refl

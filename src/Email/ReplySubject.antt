-- ===== src/Email/ReplySubject.antt =====
-- NormalizeReplySubject of pkg/email/quote.go. The loop runs on fuel: a round drops at least three
-- bytes, so that the length of the subject is enough.
pub mod Stripped
use matrimail.Prelude.{
  Option, Text, [], codes, drop, if◌then◌else◌, length, none, some, suc, zero, ℕ, ◌++◌, ◌+◌, ◌∷◌,
}
use matrimail.Prelude.Strings.{to_lower, has_prefix, trim_space}

-- the text behind the first "]:"
unfoldable pub behind_close : Text → Option Text
behind_close [] = none
behind_close (c ∷ s) = if has_prefix (c ∷ s) (codes "]:") then some (drop 1 s) else behind_close s

-- one round of the loop; `none` where it returns
unfoldable pub skip_reply : Text → Option Text
skip_reply s =
    if has_prefix (to_lower s) (codes "re:")
    then some (trim_space (drop 3 s))
    else if has_prefix (to_lower s) (codes "re[")
    then elim (behind_close s) [ none ↦ none | some rest ↦ some (trim_space rest) ]
    else none

unfoldable pub strip_replies : ℕ → Text → Text
strip_replies zero s = s
strip_replies (suc fuel) s = elim (skip_reply s) [ none ↦ s | some rest ↦ strip_replies fuel rest ]

unfoldable pub normalize_reply_subject : Text → Text
normalize_reply_subject subject =
    let s = trim_space subject in codes "Re: " ++ strip_replies (length s) s

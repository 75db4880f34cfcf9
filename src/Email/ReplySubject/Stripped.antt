-- ===== src/Email/ReplySubject/Stripped.antt =====
-- What is left of a subject has no prefix of a reply.
use matrimail.Prelude.{
  Bool, Option, Option-cases, Text, [], arith, codes, drop, false, if◌then◌else◌, inl, inr, length,
  length-drop, none, refl, some, suc, sym, true, zero, ℕ, ◌++◌, ◌<◌, ◌∙◌, ◌∷◌, ◌≡◌, ◌≤◌,
}
use matrimail.Prelude.Strings.{to_lower, has_prefix, trim_space, trim_left, trim_right, is_space}
use matrimail.Email.ReplySubject.{behind_close, skip_reply, strip_replies, normalize_reply_subject}

length-trim_left : (p : ℕ → Bool) (s : Text) → length (trim_left p s) ≤ length s
unfolding trim_left
length-trim_left p [] = omega arith
length-trim_left p (c ∷ s) = ground (arith, length-trim_left p s)

length-trim_right : (p : ℕ → Bool) (s : Text) → length (trim_right p s) ≤ length s
unfolding trim_right
length-trim_right p [] = omega arith
length-trim_right p (c ∷ s) = last (trim_right p s) (length-trim_right p s)
  where
    last :
        (r : Text)
        → length r ≤ length s
        → length (elim r [ [] ↦ if p c then [] else c ∷ [] | d ∷ r ↦ c ∷ d ∷ r ]) ≤ suc (length s)
    last [] h = ground arith
    last (d ∷ r) h = ground arith

length-trim_space : (s : Text) → length (trim_space s) ≤ length s
unfolding trim_space
length-trim_space s =
    omega (arith, length-trim_right is_space (trim_left is_space s), length-trim_left is_space s)

length-behind_close : (s r : Text) → behind_close s ≡ some r → length r < length s
unfolding behind_close
length-behind_close [] r h = cc
length-behind_close (c ∷ s) r h = ground (arith, length-drop 1 s, length-behind_close s r)

some_shorter : (x r : Text) (n : ℕ) → some x ≡ some r → length x < n → length r < n
some_shorter x r n h l = ground arith

trimmed : Option Text → Option Text
trimmed none = none
trimmed (some rest) = some (trim_space rest)

length-trimmed :
    (o : Option Text) (r : Text) (n : ℕ)
    → trimmed o ≡ some r
    → ((t : Text) → o ≡ some t → length t < n)
    → length r < n
unfolding trimmed
length-trimmed none r n h l = cc
length-trimmed (some t) r n h l =
    let shorter : length t < n = l t refl in
    some_shorter (trim_space t) r n h (omega (arith, length-trim_space t))

-- the three ways out of a round
length-round :
    (p q : Bool) (x : Text) (o : Option Text) (r : Text) (n : ℕ)
    → (if p then some x else if q then trimmed o else none) ≡ some r
    → length x < n
    → ((t : Text) → o ≡ some t → length t < n)
    → length r < n
length-round true q x o r n h l m = some_shorter x r n h l
length-round false true x o r n h l m = length-trimmed o r n h m
length-round false false x o r n h l m = cc

skip_reply_lem :
    (s : Text)
    → skip_reply s ≡ (
        if has_prefix (to_lower s) (codes "re:")
        then some (trim_space (drop 3 s))
        else if has_prefix (to_lower s) (codes "re[")
        then trimmed (behind_close s)
        else none)
unfolding skip_reply
skip_reply_lem s = elim (Option-cases (behind_close s)) [
  | inl n ↦ rw n (unfold trimmed in refl)
  | inr (r, e) ↦ rw e (unfold trimmed in refl)
]

length-skip_reply : (s r : Text) → skip_reply s ≡ some r → length r < length s
length-skip_reply [] r h = unfold skip_reply to_lower has_prefix in cc
length-skip_reply (c ∷ s) r h =
    length-round (has_prefix (to_lower (c ∷ s)) (codes "re:")) _ (trim_space (drop 3 (c ∷ s)))
      (behind_close (c ∷ s)) r (length (c ∷ s)) (sym (skip_reply_lem (c ∷ s)) ∙ h)
      (omega (arith, length-trim_space (drop 3 (c ∷ s)), length-drop 3 (c ∷ s)))
      (length-behind_close (c ∷ s))

strip_replies-skip_reply :
    (fuel : ℕ) (s : Text) → length s ≤ fuel → skip_reply (strip_replies fuel s) ≡ none
unfolding strip_replies
strip_replies-skip_reply zero [] h = unfold skip_reply to_lower has_prefix in refl
strip_replies-skip_reply zero (c ∷ s) h = ground arith
strip_replies-skip_reply (suc fuel) s h = elim (Option-cases (skip_reply s)) [
  | inl n ↦ rw (n, strip_replies) n
  | inr (r, e) ↦
      rw (e, strip_replies)
        (strip_replies-skip_reply fuel r (omega (arith, length-skip_reply s r e)))
]

-- NormalizeReplySubject puts one "Re: " before the subject, and what follows has no prefix "Re:" or
-- "Re[...]:" of its own, in any case of the letters.
normalize_reply_subject-skip_reply :
    (subject : Text)
    → (core : Text) × (normalize_reply_subject subject ≡ codes "Re: " ++ core)
      × (skip_reply core ≡ none)
unfolding normalize_reply_subject
normalize_reply_subject-skip_reply subject =
    let s = trim_space subject in
    (strip_replies (length s) s, refl, strip_replies-skip_reply (length s) s (omega arith))

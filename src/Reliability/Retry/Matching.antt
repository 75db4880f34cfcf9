-- ===== src/Reliability/Retry/Matching.antt =====
-- Where an IMAP pattern matches an error's text, and which errors are never tried again.
use matrimail.Prelude.{
  Bool, Bool-cases, Text, [], append_assoc, arith, codes, false, inl, inr, refl, some, sym, true, ℕ,
  ◌++◌, ◌||◌, ◌↔◌, ◌∙◌, ◌∷◌, ◌≡◌, ◌⊎◌,
}
use matrimail.Prelude.Strings.{contains, has_prefix, to_lower}
use matrimail.Prelude.Strings.Laws.{
  StartsWith, Holds, has_prefix-append, has_prefix-StartsWith, contains-append, contains-Holds,
}
use matrimail.Reliability.Breaker.{failed}
use matrimail.Reliability.Retry.{
  matches_imap_pattern, should_retry, mentions, auth_patterns, network_patterns, timeout_patterns,
  permanent_patterns, categorize_error, message, space, newline,
}

-- `p` stands in `s` at the start, behind a space or behind a newline.
abbrev pub HoldsAtWord : Text → Text → Type 0
HoldsAtWord s p = StartsWith s p ⊎ (Holds s (space ∷ p) ⊎ Holds s (newline ∷ p))

-- A pattern for an IMAP response code.
abbrev pub is_response : Text → Bool
is_response p = has_prefix p (codes "no ") || has_prefix p (codes "bad ")

response_not_bye : (p : Text) → is_response p ≡ true → has_prefix p (codes "* ") ≡ false
unfolding has_prefix
response_not_bye [] h = refl
response_not_bye (c ∷ p) h = ground arith

contains-tail : (s p : Text) (c : ℕ) → contains s (c ∷ p) ≡ true → contains s p ≡ true
contains-tail s p c h =
    let (a, b, e) = contains-Holds s (c ∷ p) h in
    rw (e ∙ sym (append_assoc a (c ∷ []) (p ++ b))) (contains-append (a ++ (c ∷ [])) p b)

has_prefix-contains : (s p : Text) → has_prefix s p ≡ true → contains s p ≡ true
has_prefix-contains s p h =
    let (b, e) = has_prefix-StartsWith s p h in rw e (contains-append [] p b)

at_word : (s p : Text) → Bool
at_word s p = has_prefix s p || (contains s (space ∷ p) || contains s (newline ∷ p))

at_word-HoldsAtWord : (s p : Text) → (at_word s p ≡ true) ↔ HoldsAtWord s p
unfolding at_word
at_word-HoldsAtWord s p = (found, back)
  where
    found : at_word s p ≡ true → HoldsAtWord s p
    found h = elim (Bool-cases (has_prefix s p)) [
      | inl e ↦ inl (has_prefix-StartsWith s p e)
      | inr e ↦ elim (Bool-cases (contains s (space ∷ p))) [
        | inl e' ↦ inr (inl (contains-Holds s (space ∷ p) e'))
        | inr e' ↦ inr (inr (contains-Holds s (newline ∷ p) (ground arith)))
      ]
    ]

    back : HoldsAtWord s p → at_word s p ≡ true
    back (inl (b, e)) = let t = has_prefix-append p b in rw e (ground (arith, t))
    back (inr (inl (a, b, e))) = let t = contains-append a (space ∷ p) b in rw e (ground (arith, t))
    back (inr (inr (a, b, e))) =
        let t = contains-append a (newline ∷ p) b in rw e (ground (arith, t))

at_word-contains : (s p : Text) → at_word s p ≡ true → contains s p ≡ true
unfolding at_word
at_word-contains s p h =
    ground (arith, has_prefix-contains s p, contains-tail s p space, contains-tail s p newline)

-- A pattern for a NO or BAD response matches exactly where the error's text, without regard to
-- case, has it at its start, behind a space or behind a newline; inside a word it does not match.
matches_imap_pattern-HoldsAtWord :
    (err_str p : Text)
    → is_response (to_lower p) ≡ true
    → (matches_imap_pattern err_str p ≡ true) ↔ HoldsAtWord (to_lower err_str) (to_lower p)
matches_imap_pattern-HoldsAtWord err_str p r = (found, back)
  where
    e : Text
    e = to_lower err_str

    q : Text
    q = to_lower p

    same : matches_imap_pattern err_str p ≡ at_word e q
    same =
        unfold matches_imap_pattern at_word in
        ground (arith, response_not_bye q r, at_word-contains e q)

    found : matches_imap_pattern err_str p ≡ true → HoldsAtWord e q
    found h = (at_word-HoldsAtWord e q).0 (sym same ∙ h)

    back : HoldsAtWord e q → matches_imap_pattern err_str p ≡ true
    back h = same ∙ (at_word-HoldsAtWord e q).1 h

-- An error is given up at once exactly if its text, without regard to case, mentions a pattern of
-- a refused login, or one of a permanent fault and none of a network fault or a timeout.
should_retry-mentions :
    (m : Text)
    → (should_retry (some (failed m)) ≡ false) ↔ (
        (mentions auth_patterns (to_lower m) ≡ true)
        ⊎ ((mentions network_patterns (to_lower m) ≡ false)
            × (mentions timeout_patterns (to_lower m) ≡ false)
            × (mentions permanent_patterns (to_lower m) ≡ true)))
unfolding should_retry categorize_error message
should_retry-mentions m = ground arith

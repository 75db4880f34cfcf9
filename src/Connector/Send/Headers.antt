-- ===== src/Connector/Send/Headers.antt =====
-- The subject, the parent and the From address of a message that pkg/connector/client_send.go sends.
use matrimail.Prelude.{
  Bool, Bool-cases, List, Option, Text, [], ap, append_assoc, arith, false, if◌then◌else◌, inl, inr,
  length, length-take, ltb, none, refl, some, suc, take, text_eq, text_eq_iff, true, zero, ℕ, ◌++◌,
  ◌==◌, ◌||◌, ◌∙◌, ◌∷◌, ◌≡◌, ◌≤◌, ◌⊎◌,
}
use matrimail.Prelude.Strings.{
  to_lower, to_lower_idem, trim_space, trim_left, trim_right, is_space, cut_at,
}
use matrimail.Email.Threading.{EmailThread, is_empty, member}
use matrimail.Connector.Send.{
  derive_subject_from_body, max_len, before_newline, shorten, compute_reply_chain, sent, Alias,
  matching_alias, pick_from_address,
}

abbrev pub has_byte : ℕ → Text → Bool
has_byte b [] = false
has_byte b (c ∷ s) = c == b || has_byte b s

has_byte-trim_left :
    (b : ℕ) (p : ℕ → Bool) (s : Text) → has_byte b s ≡ false → has_byte b (trim_left p s) ≡ false
unfolding trim_left
has_byte-trim_left b p [] h = refl
has_byte-trim_left b p (c ∷ s) h = ground (arith, has_byte-trim_left b p s)

has_byte-trim_right :
    (b : ℕ) (p : ℕ → Bool) (s : Text) → has_byte b s ≡ false → has_byte b (trim_right p s) ≡ false
unfolding trim_right
has_byte-trim_right b p [] h = refl
has_byte-trim_right b p (c ∷ s) h = go (trim_right p s) (has_byte-trim_right b p s (ground arith))
  where
    go :
        (r : Text)
        → has_byte b r ≡ false
        → has_byte b (elim r [ [] ↦ if p c then [] else c ∷ [] | d ∷ r ↦ c ∷ d ∷ r ]) ≡ false
    go [] k = ground arith
    go (d ∷ r) k = ground arith

has_byte-trim_space : (b : ℕ) (s : Text) → has_byte b s ≡ false → has_byte b (trim_space s) ≡ false
unfolding trim_space
has_byte-trim_space b s h =
    has_byte-trim_right b is_space (trim_left is_space s) (has_byte-trim_left b is_space s h)

has_byte-longer :
    (b c : ℕ) (s : Text) (o : Option (Text × Text))
    → (c == b) ≡ false
    → has_byte b (before_newline s o) ≡ false
    → has_byte b (
        before_newline
          (c ∷ s)
          (elim o [ none ↦ none | some (before, after) ↦ some (c ∷ before, after) ]))
      ≡ false
has_byte-longer b c s none n h = ground arith
has_byte-longer b c s (some (before, after)) n h = ground arith

has_byte-before : (b : ℕ) (s : Text) → has_byte b (before_newline s (cut_at b s)) ≡ false
unfolding cut_at
has_byte-before b [] = refl
has_byte-before b (c ∷ s) = elim (Bool-cases (c == b)) [
  | inl e ↦ rw e
  | inr n ↦ rw n (has_byte-longer b c s (cut_at b s) n (has_byte-before b s))
]

has_byte-take : (b n : ℕ) (s : Text) → has_byte b s ≡ false → has_byte b (take n s) ≡ false
has_byte-take b zero s h = refl
has_byte-take b (suc n) [] h = refl
has_byte-take b (suc n) (c ∷ s) h = ground (arith, has_byte-take b n s)

-- what a subject is to be
unfoldable pub IsSubject : Text → Type 0
IsSubject s = (is_empty s ≡ false) × (length s ≤ max_len) × (has_byte 10 s ≡ false)

shorten-IsSubject : (s : Text) → has_byte 10 s ≡ false → IsSubject (shorten s)
unfolding shorten IsSubject
shorten-IsSubject [] h = (refl, omega arith, refl)
shorten-IsSubject (c ∷ s) h = elim (Bool-cases (ltb max_len (length (c ∷ s)))) [
  | inl e ↦
      rw e (refl, omega (arith, length-take max_len (c ∷ s)), has_byte-take 10 max_len (c ∷ s) h)
  | inr n ↦ rw n (refl, ground arith, h)
]

-- The subject that deriveSubjectFromBody makes of any body is not empty, is at most 78 bytes long
-- and stands on one line.
derive_subject_from_body-IsSubject : (body : Text) → IsSubject (derive_subject_from_body body)
unfolding derive_subject_from_body
derive_subject_from_body-IsSubject body = elim (Bool-cases (is_empty (trim_space body))) [
  | inl e ↦ rw e (unfold IsSubject in (refl, omega arith, refl))
  | inr n ↦
      let line = before_newline (trim_space body) (cut_at 10 (trim_space body)) in
      rw n (
        shorten-IsSubject (trim_space line)
          (has_byte-trim_space 10 line (has_byte-before 10 (trim_space body))))
]

-- Another message to a thread that a message was just sent to names that message twice at the end
-- of its References.
pub compute_reply_chain-sent :
    (dedup_key : Text) (t : EmailThread)
    → is_empty dedup_key ≡ false
    → compute_reply_chain (sent dedup_key t) none
      ≡ (dedup_key, t.references ++ (dedup_key ∷ dedup_key ∷ []))
unfolding compute_reply_chain sent
compute_reply_chain-sent k t h =
    rw h (ap (λ l. (k, l)) (append_assoc t.references (k ∷ []) (k ∷ [])))

-- one of the user's addresses, as it is or trimmed
unfoldable pub IsOwn : List Text → Text → Type 0
IsOwn selves a = (member (to_lower a) selves || member (to_lower (trim_space a)) selves) ≡ true

or_left : {b : Bool} (c : Bool) → b ≡ true → (b || c) ≡ true
or_left c h = rw h

or_right : (b : Bool) {c : Bool} → c ≡ true → (b || c) ≡ true
or_right b h = ground arith

matching_alias-IsOwn :
    (want given : Text) (aliases : List Alias) (selves : List Text)
    → to_lower want ≡ want
    → member want selves ≡ true
    → to_lower (trim_space given) ≡ want
    → IsOwn selves (matching_alias want given aliases).0
unfolding matching_alias IsOwn
matching_alias-IsOwn want given [] selves l m g =
    or_right (member (to_lower given) selves) (ap (λ k. member k selves) g ∙ m)
matching_alias-IsOwn want given (sa ∷ rest) selves l m g =
    elim (Bool-cases (text_eq (to_lower sa.email) (to_lower want))) [
      | inl e ↦ rw e (
          or_left _ (
            ap (λ k. member k selves) ((text_eq_iff (to_lower sa.email) (to_lower want)).0 e ∙ l)
            ∙ m))
      | inr n ↦ rw n (matching_alias-IsOwn want given rest selves l m g)
    ]

-- The From address is the account's primary one or, compared without regard to case, one of the
-- user's own.
pick_from_address-IsOwn :
    (primary : Text) (aliases : List Alias) (t : EmailThread) (selves : List Text)
    → ((pick_from_address primary aliases t selves).0 ≡ primary)
      ⊎ IsOwn selves (pick_from_address primary aliases t selves).0
unfolding pick_from_address
pick_from_address-IsOwn primary aliases t selves =
    elim (Bool-cases (is_empty (trim_space t.last_delivered_to))) [
      | inl e ↦ rw e (inl refl)
      | inr n ↦
          rw n (elim (Bool-cases (member (to_lower (trim_space t.last_delivered_to)) selves)) [
            | inl m ↦ rw m (inr (matching_alias-IsOwn _ _ aliases selves (to_lower_idem _) m refl))
            | inr f ↦ rw f (inl refl)
          ])
    ]

-- ===== src/Connector/Send/ReplyAll.antt =====
-- The recipients that a reply-all of pkg/connector/client_send.go resolves.
use matrimail.Prelude.{
  Bool, Bool-cases, List, Option, Text, [], ap, append-nil, arith, false, if◌then◌else◌, inl, inr,
  none, refl, some, sym, true, ◌++◌, ◌||◌, ◌∙◌, ◌∷◌, ◌≡◌, ◌≢◌,
}
use matrimail.Email.Threading.{EmailThread, is_empty, member}
use matrimail.Email.Threading.Determine.Participants.{Distinct}
use matrimail.Prelude.Strings.{trim_space}
use matrimail.Connector.Send.{
  Address, ok, error, key, collect, selves_set, resolve_reply_all_recipients, resolve_dm_recipients,
  from_participants, to_and_cc, parse_addr_if_allowed, one_target, no_last_from,
}
use matrimail.Connector.Send.Recipients.{
  filter_parsed-some, keys, collect-selves, collect-Distinct, collect_complete, collect-append,
}

-- whom the thread names: the last message's sender and recipients, or the participants if there has
-- been no message
abbrev pub addressed : EmailThread → List Text
addressed t =
    if is_empty (trim_space t.last_from)
    then t.participants
    else (t.last_from ∷ t.last_to) ++ t.last_cc

abbrev pub everyone : List Address × List Address → List Address
everyone (to_, cc) = to_ ++ cc

ok-inj : {p q : List Address × List Address} → ok p ≡ ok q → p ≡ q
ok-inj h = cc

from_participants-ok :
    (xs : List Address) (p : List Address × List Address)
    → from_participants xs ≡ ok p
    → (everyone p ≡ xs) × (xs ≢ [])
from_participants-ok [] p h = cc
from_participants-ok (a ∷ xs) p h = (ap everyone (sym (ok-inj h)) ∙ append-nil (a ∷ xs), (λ e. cc))

to_and_cc-ok :
    (xs ys : List Address) (p : List Address × List Address)
    → to_and_cc xs ys ≡ ok p
    → (everyone p ≡ xs ++ ys) × (xs ++ ys ≢ [])
to_and_cc-ok [] [] p h = cc
to_and_cc-ok [] (a ∷ ys) p h = (ap everyone (sym (ok-inj h)), (λ e. cc))
to_and_cc-ok (a ∷ xs) ys p h = (ap everyone (sym (ok-inj h)), (λ e. cc))

from_participants-total :
    (xs : List Address) (k : Text)
    → member k (keys xs) ≡ true
    → (p : List Address × List Address) × (from_participants xs ≡ ok p) × (everyone p ≡ xs)
unfolding member
from_participants-total [] k h = cc
from_participants-total (a ∷ xs) k h = ((a ∷ xs, []), refl, append-nil (a ∷ xs))

to_and_cc-total :
    (xs ys : List Address) (k : Text)
    → member k (keys (xs ++ ys)) ≡ true
    → (p : List Address × List Address) × (to_and_cc xs ys ≡ ok p) × (everyone p ≡ xs ++ ys)
unfolding member
to_and_cc-total [] [] k h = cc
to_and_cc-total [] (a ∷ ys) k h = (([], a ∷ ys), refl, refl)
to_and_cc-total (a ∷ xs) ys k h = ((a ∷ xs, ys), refl, refl)

addressed-unanswered :
    (t : EmailThread) → is_empty (trim_space t.last_from) ≡ true → addressed t ≡ t.participants
addressed-unanswered t e = rw e

addressed-answered :
    (t : EmailThread)
    → is_empty (trim_space t.last_from) ≡ false
    → addressed t ≡ (t.last_from ∷ t.last_to) ++ t.last_cc
addressed-answered t e = rw e

one_target-ok :
    (b : Bool) (o : Option (Address × List Text)) (to_ : List Address)
    → (if b then error no_last_from else one_target o) ≡ ok to_
    → (p : Address × List Text) × (o ≡ some p) × (to_ ≡ p.0 ∷ [])
one_target-ok true o to_ h = cc
one_target-ok false none to_ h = cc
one_target-ok false (some (a, s)) to_ h = ((a, s), refl, cc)

or_nil : (b : Bool) (k : Text) → (b || member k []) ≡ true → b ≡ true
unfolding member
or_nil b k h = ground arith

module _ (parse : Text → Option Address) (t : EmailThread) (selves : List Text) where
  -- what is collected from everyone whom the thread names
  all_of : List Address
  all_of = (collect parse (addressed t) (selves_set selves) []).0

  firsts : List Address × List Text
  firsts = collect parse (t.last_from ∷ t.last_to) (selves_set selves) []

  unanswered :
      is_empty (trim_space t.last_from) ≡ true
      → resolve_reply_all_recipients parse t selves ≡ from_participants all_of
  unfolding resolve_reply_all_recipients all_of
  unanswered e = rw e (
      ap (λ l. from_participants (collect parse l (selves_set selves) []).0)
        (sym (addressed-unanswered t e)))

  answered :
      is_empty (trim_space t.last_from) ≡ false
      → resolve_reply_all_recipients parse t selves
        ≡ to_and_cc firsts.0 (collect parse t.last_cc (selves_set selves) firsts.1).0
  unfolding resolve_reply_all_recipients firsts
  answered e = rw e

  all_of-answered :
      is_empty (trim_space t.last_from) ≡ false
      → all_of ≡ firsts.0 ++ (collect parse t.last_cc (selves_set selves) firsts.1).0
  unfolding all_of firsts
  all_of-answered e =
      ap (λ l. (collect parse l (selves_set selves) []).0) (addressed-answered t e)
      ∙ collect-append parse (t.last_from ∷ t.last_to) t.last_cc (selves_set selves) []

  everyone-all_of :
      (p : List Address × List Address)
      → resolve_reply_all_recipients parse t selves ≡ ok p
      → (everyone p ≡ all_of) × (all_of ≢ [])
  everyone-all_of p h = elim (Bool-cases (is_empty (trim_space t.last_from))) [
    | inl e ↦ from_participants-ok all_of p (sym (unanswered e) ∙ h)
    | inr n ↦ rw (all_of-answered n) (to_and_cc-ok _ _ p (sym (answered n) ∙ h))
  ]

  -- A reply-all that is resolved goes to somebody, to nobody twice, To and Cc taken together and
  -- addresses compared without regard to case, and not to an address of the user's own.
  pub resolve_reply_all_recipients-Distinct :
      (to_ cc : List Address) (own : Text)
      → resolve_reply_all_recipients parse t selves ≡ ok (to_, cc)
      → member own (selves_set selves) ≡ true
      → (to_ ++ cc ≢ []) × Distinct (keys (to_ ++ cc)) × (member own (keys (to_ ++ cc)) ≡ false)
  unfolding all_of
  resolve_reply_all_recipients-Distinct to_ cc own h m =
      let (e, n) = everyone-all_of (to_, cc) h in
      rw e (
        n,
        collect-Distinct parse (addressed t) (selves_set selves) [],
        collect-selves parse (addressed t) (selves_set selves) [] own m,
      )

  resolved_total :
      (k : Text)
      → member k (keys all_of) ≡ true
      → (p : List Address × List Address) × (resolve_reply_all_recipients parse t selves ≡ ok p)
        × (everyone p ≡ all_of)
  resolved_total k h = elim (Bool-cases (is_empty (trim_space t.last_from))) [
    | inl e ↦ let (p, q, r) = from_participants-total all_of k h in (p, unanswered e ∙ q, r)
    | inr n ↦
        let (p, q, r) =
          to_and_cc-total firsts.0 (collect parse t.last_cc (selves_set selves) firsts.1).0 k
            (ap (λ l. member k (keys l)) (sym (all_of-answered n)) ∙ h) in
        (p, answered n ∙ q, r ∙ sym (all_of-answered n))
  ]

  -- If the thread names somebody whose address can be parsed and is not the user's own, the
  -- reply-all is resolved and this address is among its recipients.
  pub resolve_reply_all_recipients_complete :
      (raw : Text) (a : Address)
      → member raw (addressed t) ≡ true
      → parse raw ≡ some a
      → member (key a) (selves_set selves) ≡ false
      → (p : List Address × List Address) × (resolve_reply_all_recipients parse t selves ≡ ok p)
        × (member (key a) (keys (everyone p)) ≡ true)
  resolve_reply_all_recipients_complete raw a m p ns =
      let found : member (key a) (keys all_of) ≡ true =
        or_nil (member (key a) (keys all_of)) (key a) (
          unfold all_of in
          collect_complete parse (addressed t) (selves_set selves) [] raw a m p ns) in
      let (q, r, e) = resolved_total (key a) found in
      (q, r, ap (λ l. member (key a) (keys l)) e ∙ found)

  -- A reply to the sender alone that is resolved goes to the one address of the last message's
  -- sender, which is not the user's own.
  pub resolve_dm_recipients_lem :
      (to_ : List Address)
      → resolve_dm_recipients parse t selves ≡ ok to_
      → (a : Address) × (to_ ≡ a ∷ [])
        × (parse t.last_from ≡ some a)
        × (member (key a) (selves_set selves) ≡ false)
  unfolding resolve_dm_recipients parse_addr_if_allowed
  resolve_dm_recipients_lem to_ h =
      let ((a, s), e, q) = one_target-ok _ _ to_ h in
      let (p, ns, nn, r) = filter_parsed-some (parse t.last_from) (selves_set selves) [] a s e in
      (a, q, p, ns)

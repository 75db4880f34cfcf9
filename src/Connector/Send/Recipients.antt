-- ===== src/Connector/Send/Recipients.antt =====
-- Whom a reply goes to.
use matrimail.Prelude.{
  Bool, Bool-cases, List, Option, Option-cases, Text, [], ap, arith, false, inl, inr, none, refl,
  some, sym, text_eq, text_eq_iff, true, ◌++◌, ◌||◌, ◌∙◌, ◌∷◌, ◌≡◌, ◌⊎◌,
}
use matrimail.Prelude.Strings.{text_eq_refl}
use matrimail.Email.Threading.{member}
use matrimail.Email.Threading.Determine.Participants.{Distinct, member_same}
use matrimail.Connector.Send.{Address, key, filter_parsed, parse_addr_if_allowed, collect}

abbrev pub keys : List Address → List Text
keys [] = []
keys (a ∷ rest) = key a ∷ keys rest

pub filter_parsed-some :
    (o : Option Address) (selves seen : List Text) (a : Address) (s : List Text)
    → filter_parsed o selves seen ≡ some (a, s)
    → (o ≡ some a)
      × (member (key a) selves ≡ false)
      × (member (key a) seen ≡ false)
      × (s ≡ key a ∷ seen)
unfolding filter_parsed
filter_parsed-some none selves seen a s h = cc
filter_parsed-some (some b) selves seen a s h = ground arith

filter_parsed-none :
    (a : Address) (selves seen : List Text)
    → filter_parsed (some a) selves seen ≡ none
    → member (key a) selves ≡ false
    → member (key a) seen ≡ true
unfolding filter_parsed
filter_parsed-none a selves seen h n = ground arith

text_eq-seen :
    (x k : Text) (seen : List Text)
    → member x seen ≡ false
    → member k seen ≡ true
    → text_eq x k ≡ false
text_eq-seen x k seen n h = ground (arith, text_eq_iff x k, member_same seen x k)

member-cons :
    (x k : Text) (l : List Text)
    → text_eq x k ≡ false
    → member k l ≡ false
    → member k (x ∷ l) ≡ false
unfolding member
member-cons x k l n h = rw n h

member-later : (x k : Text) (l : List Text) → member k l ≡ true → member k (x ∷ l) ≡ true
unfolding member
member-later x k l h = ground arith

member-here : (x : Text) (l : List Text) → member x (x ∷ l) ≡ true
unfolding member
member-here x l = rw (text_eq_refl x)

-- a member of the list is its head or a member of the rest
member-cases :
    (x k : Text) (l : List Text) → member k (x ∷ l) ≡ true → (x ≡ k) ⊎ (member k l ≡ true)
unfolding member
member-cases x k l h = elim (Bool-cases (text_eq x k)) [
  | inl e ↦ inl ((text_eq_iff x k).0 e)
  | inr n ↦ inr (ground arith)
]

member-nil : (k : Text) (b : Bool) → member k [] ≡ true → b ≡ true
unfolding member
member-nil k b h = cc

or_later : (b c : Bool) → c ≡ true → (b || c) ≡ true
or_later b c h = ground arith

or-member :
    (a b : Address) (c : Bool) (l : List Text)
    → some b ≡ some a
    → (c || member (key a) (key b ∷ l)) ≡ true
unfolding member
or-member a b c l h = ground (arith, text_eq_iff (key b) (key a))

-- what the tail has or the longer list of those seen has
moved :
    (x k : Text) (rest seen : List Text)
    → (member k rest || member k (x ∷ seen)) ≡ true
    → (member k (x ∷ rest) || member k seen) ≡ true
unfolding member
moved x k rest seen h = ground arith

module _ (parse : Text → Option Address) where
  collect-skip :
      (raw : Text) (raws selves seen : List Text)
      → parse_addr_if_allowed parse raw selves seen ≡ none
      → collect parse (raw ∷ raws) selves seen ≡ collect parse raws selves seen
  unfolding collect
  collect-skip raw raws selves seen h = rw (h, collect)

  collect-take :
      (raw : Text) (raws selves seen : List Text) (a : Address) (s : List Text)
      → parse_addr_if_allowed parse raw selves seen ≡ some (a, s)
      → collect parse (raw ∷ raws) selves seen
        ≡ (a ∷ (collect parse raws selves s).0, (collect parse raws selves s).1)
  unfolding collect
  collect-take raw raws selves seen a s h = rw (h, collect)

  -- either nothing is taken, or an address that is neither the user's own nor seen
  pub parse_addr-cases :
      (raw : Text) (selves seen : List Text)
      → (parse_addr_if_allowed parse raw selves seen ≡ none)
        ⊎ ((a : Address) × (parse_addr_if_allowed parse raw selves seen ≡ some (a, key a ∷ seen))
            × (parse raw ≡ some a)
            × (member (key a) selves ≡ false)
            × (member (key a) seen ≡ false))
  parse_addr-cases raw selves seen =
      elim (Option-cases (parse_addr_if_allowed parse raw selves seen)) [
        | inl n ↦ inl n
        | inr ((a, s), e) ↦
            let (p, ns, nn, q) =
              filter_parsed-some (parse raw) selves seen a s (unfold parse_addr_if_allowed in e) in
            inr (a, e ∙ rw q, p, ns, nn)
      ]

  -- What was seen before is not collected, nor is the user's own address.
  pub collect-seen :
      (raws selves seen : List Text) (k : Text)
      → member k seen ≡ true
      → member k (keys (collect parse raws selves seen).0) ≡ false
  collect-seen [] selves seen k h = unfold collect member in refl
  collect-seen (raw ∷ raws) selves seen k h = elim (parse_addr-cases raw selves seen) [
    | inl n ↦ rw (collect-skip raw raws selves seen n) (collect-seen raws selves seen k h)
    | inr (a, e, p, ns, nn) ↦ rw (collect-take raw raws selves seen a (key a ∷ seen) e) (
        member-cons (key a) k _ (text_eq-seen (key a) k seen nn h)
          (collect-seen raws selves (key a ∷ seen) k (member-later (key a) k seen h)))
  ]

  pub collect-selves :
      (raws selves seen : List Text) (k : Text)
      → member k selves ≡ true
      → member k (keys (collect parse raws selves seen).0) ≡ false
  collect-selves [] selves seen k h = unfold collect member in refl
  collect-selves (raw ∷ raws) selves seen k h = elim (parse_addr-cases raw selves seen) [
    | inl n ↦ rw (collect-skip raw raws selves seen n) (collect-selves raws selves seen k h)
    | inr (a, e, p, ns, nn) ↦ rw (collect-take raw raws selves seen a (key a ∷ seen) e) (
        member-cons (key a) k _ (text_eq-seen (key a) k selves ns h)
          (collect-selves raws selves (key a ∷ seen) k h))
  ]

  pub collect-Distinct :
      (raws selves seen : List Text) → Distinct (keys (collect parse raws selves seen).0)
  collect-Distinct [] selves seen = unfold collect in tt
  collect-Distinct (raw ∷ raws) selves seen = elim (parse_addr-cases raw selves seen) [
    | inl n ↦ rw (collect-skip raw raws selves seen n) (collect-Distinct raws selves seen)
    | inr (a, e, p, ns, nn) ↦ rw (collect-take raw raws selves seen a (key a ∷ seen) e) (
      collect-seen raws selves (key a ∷ seen) (key a) (member-here (key a) seen),
      collect-Distinct raws selves (key a ∷ seen),
    )
  ]

  parse_addr-none :
      (raw : Text) (selves seen : List Text) (a : Address)
      → parse_addr_if_allowed parse raw selves seen ≡ none
      → parse raw ≡ some a
      → member (key a) selves ≡ false
      → member (key a) seen ≡ true
  unfolding parse_addr_if_allowed
  parse_addr-none raw selves seen a n p ns =
      filter_parsed-none a selves seen (ap (λ o. filter_parsed o selves seen) (sym p) ∙ n) ns

  -- Whoever is named, can be parsed and is not the user is collected, or was seen before.
  pub collect_complete :
      (raws selves seen : List Text) (raw : Text) (a : Address)
      → member raw raws ≡ true
      → parse raw ≡ some a
      → member (key a) selves ≡ false
      → (member (key a) (keys (collect parse raws selves seen).0) || member (key a) seen) ≡ true
  collect_complete [] selves seen raw a m p ns = member-nil raw _ m
  collect_complete (x ∷ raws) selves seen raw a m p ns = elim (parse_addr-cases x selves seen) [
    | inl n ↦ rw (collect-skip x raws selves seen n) (elim (member-cases x raw raws m) [
      | inl here ↦ or_later _ _ (parse_addr-none x selves seen a n (ap parse here ∙ p) ns)
      | inr further ↦ collect_complete raws selves seen raw a further p ns
    ])
    | inr (b, e, q, bs, bn) ↦ rw (collect-take x raws selves seen b (key b ∷ seen) e) (
        moved (key b) (key a) _ seen (elim (member-cases x raw raws m) [
          | inl here ↦ or-member a b _ seen (sym q ∙ ap parse here ∙ p)
          | inr further ↦ collect_complete raws selves (key b ∷ seen) raw a further p ns
        ]))
  ]

  pub collect-append :
      (xs ys selves seen : List Text)
      → (collect parse (xs ++ ys) selves seen).0
        ≡ (collect parse xs selves seen).0
          ++ (collect parse ys selves (collect parse xs selves seen).1).0
  collect-append [] ys selves seen = unfold collect in refl
  collect-append (x ∷ xs) ys selves seen = elim (parse_addr-cases x selves seen) [
    | inl n ↦
        rw (collect-skip x (xs ++ ys) selves seen n, collect-skip x xs selves seen n)
          (collect-append xs ys selves seen)
    | inr (a, e, p, ns, nn) ↦
        rw
          (
            collect-take x (xs ++ ys) selves seen a (key a ∷ seen) e,
            collect-take x xs selves seen a (key a ∷ seen) e,
          )
          (ap (λ l. a ∷ l) (collect-append xs ys selves (key a ∷ seen)))
  ]

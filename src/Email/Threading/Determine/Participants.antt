-- ===== src/Email/Threading/Determine/Participants.antt =====
-- The participants of a thread that a message joins.
use matrimail.Prelude.{
  Bool-cases, List, Text, [], arith, false, inl, inr, not, refl, text_eq, text_eq_iff, ◌&&◌, ◌++◌,
  ◌||◌, ◌∙◌, ◌∷◌, ◌≡◌,
}
use matrimail.Prelude.Strings.{to_lower}
use matrimail.Email.Threading.{EmailThread, ParsedEmail, Externals, member, append_unique}
use matrimail.Email.Threading.Determine.{add_lowered, email_participants, minus, union, joined}

pub member-append :
    (x : Text) (xs ys : List Text) → member x (xs ++ ys) ≡ (member x xs || member x ys)
unfolding member
member-append x [] ys = refl
member-append x (y ∷ xs) ys = ground (arith, member-append x xs ys)

pub member-append_unique :
    (x : Text) (l : List Text) (y : Text)
    → member x (append_unique l y) ≡ (member x l || text_eq y x)
unfolding append_unique
member-append_unique x l y = elim (Bool-cases (member y l)) [
  | inl old ↦ rw old (ground (arith, text_eq_iff y x, seen))
  | inr new ↦ rw new (member-append x l (y ∷ []) ∙ unfold member in ground arith)
]
  where
    seen : y ≡ x → member x l ≡ member y l
    seen e = rw e

pub member_same : (l : List Text) (y x : Text) → y ≡ x → member x l ≡ member y l
member_same l y x e = rw e

member-minus :
    (x : Text) (xs other : List Text)
    → member x (minus xs other) ≡ (member x xs && not (member x other))
unfolding minus member
member-minus x [] other = refl
member-minus x (y ∷ xs) other =
    ground (arith, text_eq_iff y x, member_same other y x, member-minus x xs other)

member-cons : (x y : Text) (ys : List Text) → member x (y ∷ ys) ≡ (text_eq y x || member x ys)
unfolding member
member-cons x y ys = refl

member-union :
    (x : Text) (xs ys : List Text) → member x (union xs ys) ≡ (member x xs || member x ys)
unfolding union
member-union x xs [] = unfold member in ground arith
member-union x xs (y ∷ ys) =
    ground (
      arith,
      member-union x (append_unique xs y) ys,
      member-append_unique x xs y,
      member-cons x y ys,
    )

-- No item stands twice.
abbrev pub Distinct : List Text → Type 0
Distinct [] = Unit
Distinct (x ∷ xs) = (member x xs ≡ false) × Distinct xs

Distinct-snoc :
    (l : List Text) (y : Text) → Distinct l → member y l ≡ false → Distinct (l ++ (y ∷ []))
unfolding member
Distinct-snoc [] y d h = (refl, tt)
Distinct-snoc (x ∷ xs) y (new, d) h = (
  rw member-append (ground (arith, text_eq_iff y x, text_eq_iff x y)),
  Distinct-snoc xs y d (ground arith),
)

Distinct-append_unique : (l : List Text) (y : Text) → Distinct l → Distinct (append_unique l y)
unfolding append_unique
Distinct-append_unique l y d = elim (Bool-cases (member y l)) [
  | inl old ↦ rw old d
  | inr new ↦ rw new (Distinct-snoc l y d new)
]

Distinct-union : (xs ys : List Text) → Distinct xs → Distinct (union xs ys)
unfolding union
Distinct-union xs [] d = d
Distinct-union xs (y ∷ ys) d =
    Distinct-union (append_unique xs y) ys (Distinct-append_unique xs y d)

Distinct-add_lowered : (ps set : List Text) → Distinct set → Distinct (add_lowered ps set)
unfolding add_lowered
Distinct-add_lowered [] set d = d
Distinct-add_lowered (p ∷ ps) set d =
    Distinct-add_lowered ps (append_unique set (to_lower p))
      (Distinct-append_unique set (to_lower p) d)

-- What joining does to the participants: the new list is the union of the old ones, lower-cased,
-- and the message's, with nobody twice; those added are the message's that were not there, and
-- those removed the old ones that the message lacks, who stay in the list.
pub joined-participants :
    (ext : Externals) (e : ParsedEmail) (t : EmailThread) (x : Text)
    → let old = add_lowered t.participants [] in
      let current = email_participants ext e in
      let t' = joined ext e t in
      (member x t'.participants ≡ (member x old || member x current))
      × (member x t'.added_participants ≡ (member x current && not (member x old)))
      × (member x t'.removed_participants ≡ (member x old && not (member x current)))
      × Distinct t'.participants
unfolding joined
joined-participants ext e t x =
    let old = add_lowered t.participants [] in
    let current = email_participants ext e in
    (
      member-union x old current,
      member-minus x current old,
      member-minus x old current,
      Distinct-union old current (Distinct-add_lowered t.participants [] tt),
    )

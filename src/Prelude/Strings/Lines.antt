-- ===== src/Prelude/Strings/Lines.antt =====
-- Go's strings.Split and strings.Join at one byte, and how they undo one another.
use mathlib.Core.Path.{◌≡◌, refl, ap, ap₂, sym, ◌∙◌}
use mathlib.Core.Logic.{inl, inr}
use mathlib.Core.List.{List, [], ◌∷◌, ◌++◌, append_assoc}
use native.Mathlib.Omega.{arith}
use Prim.Native.Nat.{ℕ}
use matrimail.Prelude.Tests.{if◌then◌else◌, ◌==◌, Bool-cases, ==_iff}
use matrimail.Prelude.Strings.{Text}

-- a byte before the first of the pieces
abbrev pub cons_head : ℕ → List Text → List Text
cons_head c [] = (c ∷ []) ∷ []
cons_head c (l ∷ ls) = (c ∷ l) ∷ ls

-- strings.Split(s, sep) for a separator of one byte
unfoldable pub split_on : ℕ → Text → List Text
split_on b [] = [] ∷ []
split_on b (c ∷ s) = let rest = split_on b s in if c == b then [] ∷ rest else cons_head c rest

-- strings.Join(pieces, sep)
unfoldable pub join_by : ℕ → List Text → Text
join_by b [] = []
join_by b (l ∷ []) = l
join_by b (l ∷ m ∷ ls) = l ++ (b ∷ join_by b (m ∷ ls))

pub split_on-cons : (b : ℕ) (s : Text) → (l : Text) × (ls : List Text) × (split_on b s ≡ l ∷ ls)
unfolding split_on
split_on-cons b [] = ([], [], refl)
split_on-cons b (c ∷ s) = elim (Bool-cases (c == b)) [
  | inl e ↦ ([], split_on b s, rw e)
  | inr n ↦ let (l, ls, h) = split_on-cons b s in (c ∷ l, ls, rw n (rw h))
]

join_by-cons_head :
    (b c : ℕ) (l : Text) (ls : List Text)
    → join_by b (cons_head c (l ∷ ls)) ≡ c ∷ join_by b (l ∷ ls)
unfolding join_by
join_by-cons_head b c l [] = refl
join_by-cons_head b c l (m ∷ ls) = refl

join_by-nil : (b : ℕ) (l : Text) (ls : List Text) → join_by b ([] ∷ l ∷ ls) ≡ b ∷ join_by b (l ∷ ls)
unfolding join_by
join_by-nil b l ls = refl

join_by-empty : (b : ℕ) → join_by b ([] ∷ []) ≡ []
unfolding join_by
join_by-empty b = refl

pub join_by-split_on : (b : ℕ) (s : Text) → join_by b (split_on b s) ≡ s
unfolding split_on
join_by-split_on b [] = join_by-empty b
join_by-split_on b (c ∷ s) =
    let (l, ls, h) = split_on-cons b s in
    elim (Bool-cases (c == b)) [
      | inl e ↦ rw e (
          rw h (
            join_by-nil b l ls ∙ ap₂ ◌∷◌ (sym ((==_iff c b).0 e)) (rw h at (join_by-split_on b s))))
      | inr n ↦
          rw n
            (rw h (join_by-cons_head b c l ls ∙ ap (λ t. c ∷ t) (rw h at (join_by-split_on b s))))
    ]

pub split_on-append :
    (b : ℕ) (s t : Text) → split_on b (s ++ (b ∷ t)) ≡ split_on b s ++ split_on b t
unfolding split_on
split_on-append b [] t = ground arith
split_on-append b (c ∷ s) t =
    let (l, ls, h) = split_on-cons b s in
    elim (Bool-cases (c == b)) [
      | inl e ↦ rw e (ap (λ p. [] ∷ p) (split_on-append b s t))
      | inr n ↦ rw n (rw (split_on-append b s t) (rw h refl))
    ]

-- the pieces before the last of several
pub join_by-append :
    (b : ℕ) (l : Text) (ls : List Text) (m : Text)
    → join_by b ((l ∷ ls) ++ (m ∷ [])) ≡ join_by b (l ∷ ls) ++ (b ∷ m)
unfolding join_by
join_by-append b l [] m = refl
join_by-append b l (k ∷ ls) m =
    ap (λ t. l ++ (b ∷ t)) (join_by-append b k ls m)
    ∙ ground (arith, append_assoc l (b ∷ join_by b (k ∷ ls)) (b ∷ m))

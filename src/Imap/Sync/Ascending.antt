-- ===== src/Imap/Sync/Ascending.antt =====
-- Ascending lists of UIDs, which is how a search lists them.
use matrimail.Prelude.{
  Bool-cases, List, [], arith, inl, inr, ltb, ltb→lt, true, ℕ, ◌++◌, ◌<◌, ◌∷◌, ◌≡◌, ◌≤◌, ◌⊎◌,
}
use matrimail.Imap.Sync.{newer, highest}

-- strictly ascending, above `lo`
abbrev pub Ascends : ℕ → List ℕ → Type 0
Ascends lo [] = Unit
Ascends lo (x ∷ xs) = (lo < x) × Ascends x xs

-- and no higher than `hi`
abbrev pub Between : ℕ → List ℕ → ℕ → Type 0
Between lo [] hi = lo ≤ hi
Between lo (x ∷ xs) hi = (lo < x) × Between x xs hi

pub Between-append :
    (lo mid hi : ℕ) (xs ys : List ℕ)
    → Between lo xs mid
    → Between mid ys hi
    → Between lo (xs ++ ys) hi
Between-append lo mid hi [] [] h k = omega arith
Between-append lo mid hi [] (y ∷ ys) h (l, k) = (omega arith, k)
Between-append lo mid hi (x ∷ xs) ys (l, h) k = (l, Between-append x mid hi xs ys h k)

pub Ascends-Between : (lo hi : ℕ) (xs : List ℕ) → Between lo xs hi → Ascends lo xs
Ascends-Between lo hi [] h = tt
Ascends-Between lo hi (x ∷ xs) (l, h) = (l, Ascends-Between x hi xs h)

pub Ascends-lower : (lo lo' : ℕ) (xs : List ℕ) → lo ≤ lo' → Ascends lo' xs → Ascends lo xs
Ascends-lower lo lo' [] le h = tt
Ascends-lower lo lo' (x ∷ xs) le (l, h) = (omega arith, h)

pub newer-Ascends :
    (lo b last : ℕ) (xs : List ℕ)
    → (b ≤ lo) ⊎ (b ≤ last)
    → Ascends lo xs
    → Ascends b (newer last xs)
unfolding newer
newer-Ascends lo b last [] h a = tt
newer-Ascends lo b last (x ∷ xs) h (l, a) = elim (Bool-cases (ltb last x)) [
  | inl t ↦ rw t (
    elim h [ inl p ↦ omega arith | inr p ↦ omega (arith, ltb→lt last x t) ],
    newer-Ascends x x last xs (inl (omega arith)) a,
  )
  | inr f ↦
      let le : x ≤ last = ground arith in
      rw f (newer-Ascends x b last xs (inr (elim h [ inl p ↦ omega arith | inr p ↦ p ])) a)
]

pub highest-Between :
    (lo x : ℕ) (xs : List ℕ) → lo < x → Ascends x xs → Between lo (x ∷ xs) (highest x xs)
unfolding highest
highest-Between lo x [] l a = (l, omega arith)
highest-Between lo x (y ∷ ys) l (m, a) =
    let t : ltb x y ≡ true = ground arith in rw t (l, highest-Between x y ys m a)

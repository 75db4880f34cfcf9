-- ===== src/Prelude/Strings/Laws.antt =====
-- What the prefix and substring tests decide.
use mathlib.Core.Path.{◌≡◌, refl, ap}
use mathlib.Core.Logic.{inl, inr}
use mathlib.Core.Bool.{true}
use mathlib.Core.List.{[], ◌∷◌, ◌++◌}
use native.Mathlib.Omega.{arith}
use matrimail.Prelude.Tests.{Bool-cases}
use matrimail.Prelude.Strings.{Text, has_prefix, contains}

-- `s` is `p` with something behind it.
abbrev pub StartsWith : Text → Text → Type 0
StartsWith s p = (b : Text) × (s ≡ p ++ b)

-- `s` is `p` with something on either side.
abbrev pub Holds : Text → Text → Type 0
Holds s p = (a : Text) × (b : Text) × (s ≡ a ++ (p ++ b))

pub has_prefix-append : (p b : Text) → has_prefix (p ++ b) p ≡ true
unfolding has_prefix
has_prefix-append [] [] = refl
has_prefix-append [] (c ∷ b) = refl
has_prefix-append (c ∷ p) b = ground (arith, has_prefix-append p b)

pub has_prefix-StartsWith : (s p : Text) → has_prefix s p ≡ true → StartsWith s p
unfolding has_prefix
has_prefix-StartsWith s [] h = (s, refl)
has_prefix-StartsWith [] (c ∷ p) h = cc
has_prefix-StartsWith (d ∷ s) (c ∷ p) h =
    let (b, e) = has_prefix-StartsWith s p (ground arith) in (b, ground (arith, e))

pub contains-append : (a p b : Text) → contains (a ++ (p ++ b)) p ≡ true
unfolding contains
contains-append [] [] [] = refl
contains-append [] [] (c ∷ b) = refl
contains-append [] (c ∷ p) b = rw (has_prefix-append (c ∷ p) b)
contains-append (c ∷ a) p b = ground (arith, contains-append a p b)

pub contains-Holds : (s p : Text) → contains s p ≡ true → Holds s p
unfolding contains
contains-Holds [] p h = let (b, e) = has_prefix-StartsWith [] p h in ([], b, e)
contains-Holds (c ∷ s) p h = elim (Bool-cases (has_prefix (c ∷ s) p)) [
  | inl here ↦ let (b, e) = has_prefix-StartsWith (c ∷ s) p here in ([], b, e)
  | inr further ↦ let (a, b, e) = contains-Holds s p (ground arith) in (c ∷ a, b, ap (λ t. c ∷ t) e)
]

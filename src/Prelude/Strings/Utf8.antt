-- ===== src/Prelude/Strings/Utf8.antt =====
-- Valid UTF-8, as Go's unicode/utf8 has it: no overlong form, no surrogate, nothing above U+10FFFF.
use mathlib.Core.Bool.{Bool, true, false, ◌&&◌}
use mathlib.Core.List.{[], ◌∷◌}
use Prim.Native.Nat.{ℕ, zero, suc}
use matrimail.Prelude.Tests.{if◌then◌else◌, leb}
use matrimail.Prelude.Strings.{Text}

abbrev within : ℕ → ℕ → ℕ → Bool
within lo hi c = leb lo c && leb c hi

-- of a first byte: how many bytes follow, and between which bounds the next one lies; a byte that
-- begins no sequence has bounds that no byte meets
abbrev lead : ℕ → ℕ × ℕ × ℕ
lead c =
    if leb c 127
    then (0, 0, 0)
    else if within 194 223 c
    then (1, 128, 191)
    else if within 224 224 c
    then (2, 160, 191)
    else if within 237 237 c
    then (2, 128, 159)
    else if within 225 239 c
    then (2, 128, 191)
    else if within 240 240 c
    then (3, 144, 191)
    else if within 241 243 c
    then (3, 128, 191)
    else if within 244 244 c
    then (3, 128, 143)
    else (1, 1, 0)

-- behind a byte that leaves `n` bytes to follow, the next one between `lo` and `hi`
unfoldable pub utf8_rest : ℕ → ℕ → ℕ → Text → Bool
utf8_rest zero lo hi [] = true
utf8_rest (suc n) lo hi [] = false
utf8_rest zero lo hi (c ∷ s) = let (n, l, h) = lead c in utf8_rest n l h s
utf8_rest (suc n) lo hi (c ∷ s) = within lo hi c && utf8_rest n 128 191 s

unfoldable pub is_utf8 : Text → Bool
unfolding utf8_rest
is_utf8 s = utf8_rest 0 0 0 s

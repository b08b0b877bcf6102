-- ===== src/Prelude/Text.antt =====
-- Python's `str.strip`, on texts.
use Prim.Native.Nat.{ℕ}
use Prim.Native.Char.{Char, code}
use Prim.Native.String.{String, [], ◌∷◌}
use mathlib.Core.Path.{◌≡◌, refl}
use mathlib.Core.Bool.{Bool, true, false, ◌&&◌, ◌||◌}
use turtlemap.Prelude.Tests.{leb, nat_beq, if◌then◌else◌}

abbrev between : ℕ → ℕ → ℕ → Bool
between a b n = leb a n && leb n b

-- the characters that `strip` takes off
abbrev is_space : Char → Bool
is_space c =
    let n = code c in
    between 9 13 n
    || between 28 32 n
    || nat_beq n 133
    || nat_beq n 160
    || nat_beq n 5760
    || between 8192 8202 n
    || between 8232 8233 n
    || nat_beq n 8239
    || nat_beq n 8287
    || nat_beq n 12288

abbrev pub is_blank : String → Bool
is_blank [] = true
is_blank (c ∷ s) = false

abbrev strip_left : String → String
strip_left [] = []
strip_left (c ∷ s) = let rest = strip_left s in if is_space c then rest else c ∷ s

abbrev strip_right : String → String
strip_right [] = []
strip_right (c ∷ s) =
    let rest = strip_right s in if is_blank rest && is_space c then [] else c ∷ rest

unfoldable pub strip : String → String
strip s = strip_right (strip_left s)

strips : strip "  ### Completed\t" ≡ "### Completed"
unfolding strip
strips = refl

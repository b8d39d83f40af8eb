-- ===== src/Base/Texts.antt =====
-- JavaScript's `trim`, on the white space and the line ends of ECMAScript.
use Prim.Native.Nat.{ℕ, suc}
use Prim.Native.Char.{Char, code}
use text.Mathlib.Text.{find?}
use Prim.Native.String.{String, [], ◌∷◌}
use mathlib.Core.Bool.{Bool, ◌&&◌, ◌||◌}
use geoduels.Base.Tests.{◌==◌, nat_eq, string_eq, is_some, leb, if◌then◌else◌}

abbrev between : ℕ → ℕ → ℕ → Bool
between a b n = leb a n && leb n b

abbrev is_space : ℕ → Bool
is_space n =
    between 9 13 n
    || n == 32
    || n == 160
    || n == 5760
    || between 8192 8202 n
    || between 8232 8233 n
    || n == 8239
    || n == 8287
    || n == 12288
    || n == 65279

abbrev pub trim_start : String → String
trim_start [] = ""
trim_start (c ∷ s) = let rest = trim_start s in if is_space (code c) then rest else c ∷ s

abbrev pub trim_end : String → String
trim_end [] = ""
trim_end (c ∷ s) = let rest = trim_end s in if is_space (code c) && rest == "" then "" else c ∷ rest

unfoldable pub trim : String → String
trim s = trim_end (trim_start s)

-- The character that stands in `to` where `c` stands in `from`, and else `c`.
translate : String → String → Char → Char
translate (a ∷ from) (b ∷ to) c = if code a == code c then b else translate from to c
translate _ _ c = c

-- Each character of a text, so.
unfoldable pub translated : String → String → String → String
unfolding translate
translated from to [] = ""
translated from to (c ∷ s) = translate from to c ∷ translated from to s

-- `toLowerCase` and `toUpperCase`, which leave alone what is not a letter of ASCII.
unfoldable pub lower : String → String
unfolding translated
lower = translated "ABCDEFGHIJKLMNOPQRSTUVWXYZ" "abcdefghijklmnopqrstuvwxyz"

unfoldable pub upper : String → String
unfolding translated
upper = translated "abcdefghijklmnopqrstuvwxyz" "ABCDEFGHIJKLMNOPQRSTUVWXYZ"

-- The number of characters: `length`, where none is outside the basic plane.
abbrev pub size : String → ℕ
size [] = 0
size (c ∷ s) = suc (size s)

-- `s.includes(t)`.
abbrev pub includes : String → String → Bool
includes s t = is_some (find? s t)

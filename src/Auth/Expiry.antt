-- ===== src/Auth/Expiry.antt =====
-- features/auth/lib/token-expiry.ts: when an access token expires. What the browser's `atob` and
-- `JSON.parse` make of a payload is the parameter `read_exp`: the number `exp`, or `none` where either
-- throws or there is no such number.
use Prim.Native.Nat.{◌%◌}
use Prim.Native.Char.{Char, code}
use Prim.Native.String.{◌++◌ as ◌<>◌}
use geoduels.Base.{
  ℕ, zero, suc, String, Option, none, some, List, [], ◌∷◌, if◌then◌else◌, ◌==◌, nat_eq, truthy,
  translated, size, ◌*◌, ◌-◌,
}

-- One more character before the parts of a text that is split at the dots.
unfoldable pub push_char : Char → List String → List String
push_char c [] = []
push_char c (p ∷ ps) = if code c == b'.' then "" ∷ p ∷ ps else String.◌∷◌ c p ∷ ps

-- `value.split('.')`.
unfoldable pub split_dots : String → List String
unfolding push_char
split_dots String.[] = "" ∷ []
split_dots (String.◌∷◌ c s) = push_char c (split_dots s)

unfoldable pub repeat_equals : ℕ → String
repeat_equals zero = ""
repeat_equals (suc n) = "=" <> repeat_equals n

-- The text that is given to `atob`.
unfoldable pub padded : String → String
unfolding translated repeat_equals
padded value =
    let normalized = translated "-_" "+/" value in
    normalized <> repeat_equals ((4 - size normalized % 4) % 4)

module _ (read_exp : String → Option ℕ) where
  unfoldable pub expiry_of : List String → ℕ
  unfolding padded
  expiry_of (head ∷ payload ∷ rest) = elim (read_exp (padded payload)) [
    | none ↦ 0
    | some exp ↦ exp * 1000
  ]
  expiry_of parts = 0

  unfoldable pub decode_access_token_expiry : String → ℕ
  unfolding split_dots expiry_of
  decode_access_token_expiry token = if truthy token then expiry_of (split_dots token) else 0

-- ===== src/QueueAnswers/Values.antt =====
-- features/matchmaking/lib/queue-client.ts: the tests on a value that the server sent.
use geoduels.Base.{
  String, Bool, true, false, Option, none, some, if◌then◌else◌, ◌==◌, string_eq, nat_eq, or_else,
  truthy, not, ◌||◌,
}
use geoduels.Auth.Json.{Json, null, bool, num, text, get, is_object, as_text}

-- `!!value`. The bits of a number are those of 0 or of -0 where it is zero.
unfoldable pub is_truthy : Json → Bool
is_truthy null = false
is_truthy (bool b) = b
is_truthy (num n) = not (n == 0 || n == 9_223_372_036_854_775_808)
is_truthy (text s) = truthy s
is_truthy v = true

-- `data?.[key]`.
unfoldable pub get_in : String → Option Json → Option Json
unfolding get
get_in k none = none
get_in k (some v) = get k v

-- `typeof value === 'string' ? value : ''`.
unfoldable pub text_in : String → Option Json → String
unfolding get_in as_text
text_in k o = or_else (as_text (get_in k o)) ""

unfoldable pub flag_of : Option Json → Bool
unfolding is_truthy
flag_of none = false
flag_of (some v) = is_truthy v

unfoldable pub object_of : Option Json → Option Json
unfolding is_object
object_of none = none
object_of (some v) = if is_object v then some v else none

unfoldable pub truthy_of : Option Json → Option Json
unfolding is_truthy
truthy_of none = none
truthy_of (some v) = if is_truthy v then some v else none

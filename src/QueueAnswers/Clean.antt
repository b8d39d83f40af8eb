-- ===== src/QueueAnswers/Clean.antt =====
-- features/matchmaking/lib/queue-client.ts: what every answer that was read has.
use geoduels.Base.{◌≡◌, refl, String, true, Option, none, some, arith, string_eq}
use geoduels.Auth.Json.{Json}
use geoduels.QueueAnswers.Values.{get_in, text_in, object_of, truthy_of}
use geoduels.QueueAnswers.Session.{
  SourceLobby, LiveMatch, source_lobby_of, live_match, replacement_of, answer_of, status_in,
  normalize_match_session,
}
use geoduels.QueueAnswers.Written.{
  has_code, is_object_or, is_truthy_or, is_clean_live, is_clean_live_or, is_clean,
}

source_lobby-has_code : (o : Option Json) → has_code (source_lobby_of o) ≡ true
unfolding source_lobby_of
source_lobby-has_code o = ground arith

object_of-is_object : (o : Option Json) → is_object_or (object_of o) ≡ true
unfolding object_of
object_of-is_object none = refl
object_of-is_object (some v) = ground arith

truthy_of-is_truthy : (o : Option Json) → is_truthy_or (truthy_of o) ≡ true
unfolding truthy_of
truthy_of-is_truthy none = refl
truthy_of-is_truthy (some v) = ground arith

live_match-is_clean_live :
    (o : Option Json) (fallback : String) → is_clean_live (live_match o fallback) ≡ true
unfolding live_match
live_match-is_clean_live o fallback = ground (arith, object_of-is_object _, source_lobby-has_code o)

replacement-is_clean : (o : Option Json) → is_clean_live_or (replacement_of o) ≡ true
unfolding replacement_of
replacement-is_clean none = refl
replacement-is_clean (some v) = live_match-is_clean_live (some v) ""

answer_of-is_clean :
    (status : String) (live : LiveMatch) (snapshot : Option Json) (id : String)
    (replacement : Option LiveMatch) (lobby : Option SourceLobby)
    → is_clean_live live ≡ true
    → is_truthy_or snapshot ≡ true
    → is_clean_live_or replacement ≡ true
    → has_code lobby ≡ true
    → is_clean (answer_of status live snapshot id replacement lobby) ≡ true
unfolding answer_of
answer_of-is_clean status live snapshot id replacement lobby h k l m = ground arith

pub normalize-is_clean :
    (o : Option Json) (fallback : String) → is_clean (normalize_match_session o fallback) ≡ true
unfolding normalize_match_session
normalize-is_clean o fallback =
    answer_of-is_clean (status_in o) (live_match o fallback) (truthy_of (get_in "snapshot" o))
      (text_in "replacementMatchId" o) (replacement_of (object_of (get_in "replacement" o)))
      (source_lobby_of o) (live_match-is_clean_live o fallback)
      (truthy_of-is_truthy (get_in "snapshot" o))
      (replacement-is_clean (object_of (get_in "replacement" o))) (source_lobby-has_code o)

-- ===== src/QueueAnswers/Session.antt =====
-- features/matchmaking/lib/queue-client.ts: what is read of an answer about a match. A snapshot and a
-- configuration are taken as they are.
use geoduels.Base.{
  String, Option, none, some, if◌then◌else◌, ◌==◌, string_eq, nat_eq, or_else, truthy,
}
use geoduels.Auth.Json.{Json, as_text}
use geoduels.QueueAnswers.Values.{get_in, text_in, object_of, truthy_of}

pub record SourceLobby : Type 0 where
  pub source_lobby_id : String
  pub source_lobby_invite_code : String

pub record LiveMatch : Type 0 where
  pub match_id : String
  pub mode : String
  pub config : Option Json
  pub ticket : String
  pub node : String
  pub ws_path : String
  pub source_lobby : Option SourceLobby

pub data MatchAnswer : Type 0 where
  live_connectable : LiveMatch → MatchAnswer
  live_auth_required : String → MatchAnswer
  history : String → Option Json → String → Option SourceLobby → MatchAnswer
  replaced : String → String → Option LiveMatch → Option SourceLobby → MatchAnswer
  missing : String → MatchAnswer
  forbidden : String → MatchAnswer

-- There is a source lobby where there is a code to join it.
unfoldable pub source_lobby_of : Option Json → Option SourceLobby
unfolding text_in
source_lobby_of o =
    if truthy (text_in "sourceLobbyInviteCode" o)
    then some (record {
      source_lobby_id = text_in "sourceLobbyId" o;
      source_lobby_invite_code = text_in "sourceLobbyInviteCode" o;
    })
    else none

unfoldable pub live_match : Option Json → String → LiveMatch
unfolding get_in text_in object_of as_text source_lobby_of
live_match o fallback = record {
  match_id = or_else (as_text (get_in "matchId" o)) fallback;
  mode = text_in "mode" o;
  config = object_of (get_in "config" o);
  ticket = text_in "ticket" o;
  node = text_in "node" o;
  ws_path = text_in "wsPath" o;
  source_lobby = source_lobby_of o;
}

unfoldable pub replacement_of : Option Json → Option LiveMatch
unfolding live_match
replacement_of none = none
replacement_of (some v) = some (live_match (some v) "")

-- `typeof data?.status === 'string' ? data.status : 'missing'`.
unfoldable pub status_in : Option Json → String
unfolding get_in as_text
status_in o = or_else (as_text (get_in "status" o)) "missing"

-- The answer of a status, from what is read for any.
unfoldable pub answer_of :
    String → LiveMatch → Option Json → String → Option LiveMatch → Option SourceLobby → MatchAnswer
answer_of status live snapshot replacement_id replacement lobby =
    if status == "live_connectable"
    then live_connectable live
    else if status == "history"
    then history live.match_id snapshot replacement_id lobby
    else if status == "replaced"
    then replaced live.match_id replacement_id replacement lobby
    else if status == "forbidden"
    then forbidden live.match_id
    else if status == "live_auth_required"
    then live_auth_required live.match_id
    else missing live.match_id

unfoldable pub normalize_match_session : Option Json → String → MatchAnswer
unfolding get_in status_in text_in truthy_of object_of source_lobby_of live_match replacement_of
    answer_of
normalize_match_session o fallback =
    answer_of (status_in o) (live_match o fallback) (truthy_of (get_in "snapshot" o))
      (text_in "replacementMatchId" o) (replacement_of (object_of (get_in "replacement" o)))
      (source_lobby_of o)

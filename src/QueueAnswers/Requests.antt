-- ===== src/QueueAnswers/Requests.antt =====
-- features/matchmaking/lib/queue-client.ts: the requests, over the response that each gets.
use geoduels.Base.{
  ℕ, String, Bool, false, Option, none, some, if◌then◌else◌, ◌==◌, string_eq, nat_eq, or_else,
}
use geoduels.Auth.Json.{Json, get, as_num, as_bool}
use geoduels.QueueAnswers.Values.{get_in, text_in, flag_of, object_of}
use geoduels.QueueAnswers.Session.{MatchAnswer, missing, normalize_match_session}
use geoduels.QueueAnswers.Maintenance.{MaintenanceStatus, normalize_maintenance_status}

-- How a request ends: `fetch` throws, the status is not a success, the body is no JSON, or it is.
pub data Response : Type 0 where
  throws refused unreadable : Response
  answered : Json → Response

pub record LobbyStatus : Type 0 where
  pub online_players : Option ℕ
  pub maintenance : Option MaintenanceStatus

-- Every failure is caught.
unfoldable pub fetch_lobby_status : Response → LobbyStatus
unfolding get as_num normalize_maintenance_status
fetch_lobby_status (answered v) = record {
  online_players = as_num (get "online" v);
  maintenance = normalize_maintenance_status (get "maintenance" v);
}
fetch_lobby_status r = record { online_players = none; maintenance = none }

pub data HeartbeatStatus : Type 0 where
  is_queueing is_matched is_missing : HeartbeatStatus

-- `none` where the method throws, here and below.
unfoldable pub heartbeat_queue : Response → Option HeartbeatStatus
unfolding text_in
heartbeat_queue (answered v) =
    let status = text_in "status" (some v) in
    if status == "queueing"
    then some is_queueing
    else if status == "matched"
    then some is_matched
    else if status == "missing"
    then some is_missing
    else none
heartbeat_queue r = none

-- `resolveMatchRoute` and `fetchMatchSession`.
unfoldable pub fetch_match_session : Response → String → Option MatchAnswer
unfolding normalize_match_session
fetch_match_session (answered v) match_id = some (normalize_match_session (some v) match_id)
fetch_match_session refused match_id = some (missing match_id)
fetch_match_session r match_id = none

pub record BootstrapUser : Type 0 where
  pub id : String
  pub is_guest : Bool

pub record MatchBootstrap : Type 0 where
  pub access_token : String
  pub onboarding_required : Bool
  pub suggested_nickname : String
  pub user : Option BootstrapUser
  pub answer : MatchAnswer

abbrev bootstrap_user : Option Json → Option BootstrapUser
bootstrap_user none = none
bootstrap_user (some v) =
    some
      (record { id = text_in "id" (some v); is_guest = or_else (as_bool (get "isGuest" v)) false })

-- `null` where the status is not a success.
unfoldable pub bootstrap_match_session : Response → String → Option (Option MatchBootstrap)
unfolding get get_in text_in flag_of object_of as_bool normalize_match_session
bootstrap_match_session (answered v) match_id =
    let auth = get "auth" v in
    some (
      some (record {
        access_token = text_in "accessToken" auth;
        onboarding_required = flag_of (get_in "onboardingRequired" auth);
        suggested_nickname = text_in "suggestedNickname" auth;
        user = bootstrap_user (object_of (get_in "user" auth));
        answer = normalize_match_session (get "match" v) match_id;
      }))
bootstrap_match_session refused match_id = some none
bootstrap_match_session r match_id = none

pub record SingleplayerSession : Type 0 where
  pub match_id : String
  pub mode : String
  pub ticket : String
  pub node : String
  pub ws_path : String

unfoldable pub start_singleplayer_session : Response → Option SingleplayerSession
unfolding text_in
start_singleplayer_session (answered v) =
    let text_of : String → String = λ k. text_in k (some v) in
    some (record {
      match_id = text_of "matchId";
      mode = text_of "mode";
      ticket = text_of "ticket";
      node = text_of "node";
      ws_path = text_of "wsPath";
    })
start_singleplayer_session r = none

pub record ResumableMatch : Type 0 where
  pub match_id : String
  pub mode : String

-- The status "none" is `none` in the result.
unfoldable pub fetch_resumable_session : Response → Option (Option ResumableMatch)
unfolding text_in
fetch_resumable_session (answered v) = some (
    if text_in "status" (some v) == "match"
    then some (record { match_id = text_in "matchId" (some v); mode = text_in "mode" (some v) })
    else none)
fetch_resumable_session refused = some none
fetch_resumable_session r = none

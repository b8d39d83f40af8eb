-- ===== src/QueueAnswers/Tests.antt =====
-- A live match without an id, with a warning of maintenance beside it, and a request that fails.
use geoduels.Base.{false, ◌≡◌, refl, true, none, some, string_eq}
use geoduels.Auth.Json.{Json, null, bool, text, object, Fields, end, field}
use geoduels.QueueAnswers.Session.{MatchAnswer, live_connectable, missing, normalize_match_session}
use geoduels.QueueAnswers.Maintenance.{MaintenanceStatus, warning, normalize_maintenance_status}
use geoduels.QueueAnswers.Written.{answer_json, is_clean}
use geoduels.QueueAnswers.Stable.{maintenance_json, sent, answers_are_read_back}
use geoduels.QueueAnswers.Requests.{fetch_match_session, refused}

abbrev lobby_part : Fields
lobby_part = field "sourceLobbyInviteCode" (text "join") end

abbrev live_json : Json
live_json = object (
    field "status" (text "live_connectable") (
      field "phase" (text "warning")
        (field "ticket" (text "t1") (field "config" null (field "node" (bool true) lobby_part)))))

abbrev live : MatchAnswer
live = live_connectable (record {
  match_id = "m1";
  mode = "";
  config = none;
  ticket = "t1";
  node = "";
  ws_path = "";
  source_lobby = some (record { source_lobby_id = ""; source_lobby_invite_code = "join" });
})

live_is_read : normalize_match_session (some live_json) "m1" ≡ live
unfolding normalize_match_session
live_is_read = refl

refused_is_missing : fetch_match_session refused "m1" ≡ some (missing "m1")
unfolding fetch_match_session
refused_is_missing = refl

abbrev soon : MaintenanceStatus
soon = record {
  phase = warning;
  starts_at = "18:00";
  ends_at = "";
  queue_paused = true;
  play_paused = false;
  message = "Back soon";
}

answers_are_read_back_example :
    (normalize_match_session (some (answer_json live)) "m2" ≡ live)
    × (is_clean (normalize_match_session (some live_json) "m2") ≡ true)
    × (normalize_maintenance_status (some (maintenance_json soon)) ≡ some soon)
    × (normalize_maintenance_status (sent (normalize_maintenance_status (some live_json)))
        ≡ normalize_maintenance_status (some live_json))
answers_are_read_back_example = answers_are_read_back (some live_json) "m2" live soon refl refl

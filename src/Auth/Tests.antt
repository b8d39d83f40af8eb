-- ===== src/Auth/Tests.antt =====
-- A session that is refreshed, cleared and read, at concrete values.
use geoduels.Base.{
  ℕ, ◌+◌, ◌≡◌, ◌<◌, refl, String, true, false, Option, none, some, [], ◌∷◌, arith, or_else, truthy,
  not, ◌&&◌, ◌⊎◌,
}
use geoduels.Session.{AuthSessionSnapshot, has_playable_session, empty_auth_session}
use geoduels.Lobby.Types.{PlayerBadgeInfo}
use geoduels.Auth.Json.{array}
use geoduels.Auth.Read.{LeaderboardSummary, normalize_leaderboard, normalize_badges}
use geoduels.Auth.Expiry.{decode_access_token_expiry, padded, split_dots}
use geoduels.Auth.State.{SignInConfig, SessionController, new_controller, normalize_session}
use geoduels.Auth.Calls.{no_patch, clear_auth_session}
use geoduels.Auth.Login.{apply_session_snapshot}
use geoduels.Auth.Fresh.{
  refresh_session, refresh_settles, ensure_fresh_session, after_refresh, after_fresh,
}
use geoduels.Auth.Run
use geoduels.Auth.Run.{Reach, begins, happens, step}
use geoduels.Auth.Account.{refreshes_in, bootstraps_in, under_way}
use geoduels.Auth.SingleFlight.{shared_requests}
use geoduels.Auth.RoundTrip.{leaderboard_json, badges_json, known_badges, written_out_is_read_back}
use geoduels.Auth.Given.{given_without_refresh, playable_after_refresh, cleared_session_is_given}

abbrev config : SignInConfig
config = record { google_client_id = "g"; google_allowed_origins = []; discord_client_id = "" }

-- A payload that says when it expires.
abbrev read_exp : String → Option ℕ
read_exp payload = some 2_000

abbrev expiry : String → ℕ
expiry = decode_access_token_expiry read_exp

abbrev session : AuthSessionSnapshot
session = record {
  user_id = "u1";
  access_token = "a.b-_.c";
  onboarding_required = false;
  auth_migration_required = none;
  recovery_available = none;
  linked_providers = none;
  can_play = none;
  nickname_input = "";
  expires_at = none;
}

parts_of_token : split_dots session.access_token ≡ "a" ∷ "b-_" ∷ "c" ∷ []
unfolding split_dots
parts_of_token = refl

payload_of_token : padded "b-_" ≡ "b+/="
unfolding padded
payload_of_token = refl

expiry_of_token : expiry session.access_token ≡ 2_000_000
unfolding decode_access_token_expiry
expiry_of_token = refl

-- The session is set, then two callers ask for a refresh, and it is answered.
abbrev signed_in : SessionController
signed_in = step expiry (new_controller config) (Run.applies session no_patch)

abbrev refreshed : SessionController
refreshed =
    step expiry (step expiry (step expiry signed_in Run.refreshes) Run.refreshes)
      Run.refresh_answers

shared_requests_example :
    (refreshes_in refreshed.log ≡ 1 + under_way refreshed.refresh_promise)
    × (bootstraps_in refreshed.log ≡ 0 + under_way refreshed.bootstrap_promise)
    × (refreshed.state.user_id ≡ refreshed.session.user_id)
    × (refreshed.state.access_token ≡ refreshed.session.access_token)
    × (refreshed.state.onboarding_required ≡ refreshed.session.onboarding_required)
unfolding step refresh_session refresh_settles apply_session_snapshot new_controller
shared_requests_example = shared_requests expiry {config = config} (
    happens Run.refresh_answers (
      happens Run.refreshes
        (happens Run.refreshes (happens (Run.applies session no_patch) begins))))

given_without_refresh_example :
    let s = signed_in.session in
    (s ≡ signed_in.session)
    × (truthy s.user_id ≡ true)
    × (truthy s.access_token ≡ true)
    × ((not false && s.onboarding_required) ≡ false)
    × (false ≡ false)
    × (1_000 + 60_000 < or_else s.expires_at 0)
unfolding step apply_session_snapshot decode_access_token_expiry ensure_fresh_session
given_without_refresh_example =
    given_without_refresh signed_in 1_000 60_000 false false signed_in.session refl

playable_after_refresh_example :
    let s = normalize_session expiry session in
    (has_playable_session (some s) ≡ true)
    × (((some session ≡ none) × (s ≡ signed_in.session) × (5 < 9))
        ⊎ ((x : AuthSessionSnapshot) × (some session ≡ some x) × (s ≡ normalize_session expiry x)))
unfolding after_refresh after_fresh normalize_session
playable_after_refresh_example =
    playable_after_refresh expiry signed_in 5 9 (some session) (normalize_session expiry session)
      refl

cleared_session_is_given_example :
    (after_refresh expiry (clear_auth_session signed_in "Signed out") 5 9 false none
      ≡ some empty_auth_session)
    × (has_playable_session (some empty_auth_session) ≡ false)
cleared_session_is_given_example =
    cleared_session_is_given expiry signed_in "Signed out" 5 9 (omega arith)

abbrev board : LeaderboardSummary
board = record {
  mode = "duel";
  season = "s3";
  self_rank = 4;
  total_players = 9;
  entries =
      record {
        rank = 1;
        user_id = "u7";
        display_name = "Ada";
        avatar_url = "";
        mmr = 900;
        games_played = 12;
        wins = 8;
      }
      ∷ [];
}

abbrev badge : String → PlayerBadgeInfo
badge id = record {
  id = id;
  kind = "season";
  label = "First";
  description = "";
  image_url = "/b.png";
  season_id = some "s1";
  rank = none;
  owned = none;
}

-- The second badge has no id, and is dropped.
written_out_is_read_back_example :
    (normalize_leaderboard (some (leaderboard_json board)) ≡ some board)
    × (normalize_badges (some (array (badges_json (badge "b1" ∷ badge "" ∷ []))))
        ≡ known_badges (badge "b1" ∷ badge "" ∷ []))
written_out_is_read_back_example = written_out_is_read_back board (badge "b1" ∷ badge "" ∷ [])

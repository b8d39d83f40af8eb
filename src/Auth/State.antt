-- ===== src/Auth/State.antt =====
-- features/auth/controllers/session-controller.ts: the state of the controller, and how a session is
-- kept in it.
use geoduels.Base.{
  ℕ, String, Bool, true, false, Option, none, some, List, [], ◌∷◌, if◌then◌else◌, nat_eq, string_eq,
  or_else, truthy, not, ◌&&◌, ltb,
}
use geoduels.Session.{AuthSessionSnapshot, has_playable_session, empty_auth_session}
use geoduels.Lobby.Types.{PlayerBadgeInfo}
use geoduels.Auth.Read.{LeaderboardSummary, initial_mmr, initial_rating_rd}

-- What the controller reads of `RuntimeConfig`.
pub record SignInConfig : Type 0 where
  pub google_client_id : String
  pub google_allowed_origins : List String
  pub discord_client_id : String

-- A rating is never computed with: the number stands for its bits.
pub record SessionState : Type 0 where
  pub user_id : String
  pub user_email : String
  pub display_name : String
  pub user_avatar : String
  pub is_guest : Bool
  pub is_admin : Bool
  pub is_moderator : Bool
  pub mmr : ℕ
  pub rating_rd : ℕ
  pub games_played : ℕ
  pub wins : ℕ
  pub ranked_games_played : ℕ
  pub ranked_wins : ℕ
  pub leaderboard : Option LeaderboardSummary
  pub access_token : String
  pub onboarding_required : Bool
  pub auth_migration_required : Bool
  pub recovery_available : Bool
  pub linked_providers : List String
  pub badges : List PlayerBadgeInfo
  pub selected_badge : Option PlayerBadgeInfo
  pub can_play : Bool
  pub nickname_input : String
  pub nickname_error : String
  pub nickname_saving : Bool
  pub auth_loading : Bool
  pub auth_error : String
  pub google_sign_in_enabled : Bool
  pub google_client_id : String
  pub discord_sign_in_enabled : Bool
  pub discord_client_id : String

unfoldable pub initial_state : SessionState
initial_state = record {
  user_id = "";
  user_email = "";
  display_name = "";
  user_avatar = "";
  is_guest = false;
  is_admin = false;
  is_moderator = false;
  mmr = initial_mmr;
  rating_rd = initial_rating_rd;
  games_played = 0;
  wins = 0;
  ranked_games_played = 0;
  ranked_wins = 0;
  leaderboard = none;
  access_token = "";
  onboarding_required = false;
  auth_migration_required = false;
  recovery_available = false;
  linked_providers = [];
  badges = [];
  selected_badge = none;
  can_play = false;
  nickname_input = "";
  nickname_error = "";
  nickname_saving = false;
  auth_loading = false;
  auth_error = "";
  google_sign_in_enabled = false;
  google_client_id = "";
  discord_sign_in_enabled = false;
  discord_client_id = "";
}

-- What the controller does to the outside, the latest first. A promise is known by its number.
pub data SessionEffect : Type 0 where
  resets_session : SessionEffect
  bootstraps refreshes : ℕ → SessionEffect
  asks_playable : SessionEffect
  listens unlistens : SessionEffect
  emits : SessionState → SessionEffect

pub record SessionController : Type 0 where
  pub config : SignInConfig
  pub state : SessionState
  pub session : AuthSessionSnapshot
  pub refresh_promise : Option ℕ
  pub bootstrap_promise : Option ℕ
  pub mounted : Bool
  pub started : Bool
  pub next : ℕ
  pub log : List SessionEffect

unfoldable pub new_controller : SignInConfig → SessionController
unfolding initial_state empty_auth_session
new_controller config = record {
  config = config;
  state = record initial_state {
    google_sign_in_enabled = truthy config.google_client_id;
    google_client_id = config.google_client_id;
    discord_sign_in_enabled = truthy config.discord_client_id;
    discord_client_id = config.discord_client_id;
  };
  session = empty_auth_session;
  refresh_promise = none;
  bootstrap_promise = none;
  mounted = true;
  started = false;
  next = 0;
  log = [];
}

unfoldable pub patch_state : SessionController → SessionState → SessionController
patch_state c s = record c { state = s; log = if c.mounted then emits s ∷ c.log else c.log }

-- A session with what is missing in it filled in; `expiry` reads the token.
module _ (expiry : String → ℕ) where
  unfoldable pub normalize_session : AuthSessionSnapshot → AuthSessionSnapshot
  normalize_session s =
      let at = or_else s.expires_at 0 in
      record s {
        expires_at = some (if ltb 0 at then at else expiry s.access_token);
        auth_migration_required = some (or_else s.auth_migration_required false);
        recovery_available = some (or_else s.recovery_available false);
        linked_providers = some (or_else s.linked_providers []);
        can_play = some (
            or_else s.can_play
              (not s.onboarding_required && not (or_else s.auth_migration_required false)));
      }

-- `{ ...state, userId: session.userId, … }` of `applySessionSnapshot`, before its patch.
unfoldable pub state_of : SessionState → AuthSessionSnapshot → SessionState
state_of s session = record s {
  user_id = session.user_id;
  access_token = session.access_token;
  onboarding_required = session.onboarding_required;
  auth_migration_required = or_else session.auth_migration_required false;
  recovery_available = or_else session.recovery_available false;
  linked_providers = or_else session.linked_providers [];
  can_play = or_else session.can_play false;
  nickname_input = session.nickname_input;
}

unfoldable pub get_session_snapshot : SessionController → Option AuthSessionSnapshot
unfolding has_playable_session
get_session_snapshot c = if has_playable_session (some c.session) then some c.session else none

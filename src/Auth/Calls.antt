-- ===== src/Auth/Calls.antt =====
-- features/auth/controllers/session-controller.ts: the methods that set the session and what is shown
-- of the user. `expiry` reads a token's expiry.
use Prim.Native.String.{◌++◌ as ◌<>◌}
use geoduels.Base.{
  ℕ, String, Bool, true, false, Option, none, List, [], ◌∷◌, if◌then◌else◌, ◌==◌, string_eq,
  or_else, truthy, not, ◌||◌,
}
use geoduels.Session.{empty_auth_session}
use geoduels.Lobby.Types.{PlayerBadgeInfo}
use geoduels.Auth.Read.{LeaderboardSummary}
use geoduels.Auth.State.{
  SessionState, SessionController, initial_state, resets_session, listens, unlistens, emits,
  patch_state,
}

-- `Partial<SessionState>`, in the fields that a caller may set; `none` is a field that is not there.
pub record SessionPatch : Type 0 where
  pub user_email : Option String
  pub display_name : Option String
  pub user_avatar : Option String
  pub is_guest : Option Bool
  pub is_admin : Option Bool
  pub is_moderator : Option Bool
  pub mmr : Option ℕ
  pub rating_rd : Option ℕ
  pub games_played : Option ℕ
  pub wins : Option ℕ
  pub ranked_games_played : Option ℕ
  pub ranked_wins : Option ℕ
  pub leaderboard : Option (Option LeaderboardSummary)
  pub auth_loading : Option Bool
  pub auth_error : Option String
  pub nickname_error : Option String
  pub nickname_saving : Option Bool
  pub auth_migration_required : Option Bool
  pub recovery_available : Option Bool
  pub linked_providers : Option (List String)
  pub badges : Option (List PlayerBadgeInfo)
  pub selected_badge : Option (Option PlayerBadgeInfo)
  pub can_play : Option Bool

abbrev pub no_patch : SessionPatch
no_patch = record {
  user_email = none;
  display_name = none;
  user_avatar = none;
  is_guest = none;
  is_admin = none;
  is_moderator = none;
  mmr = none;
  rating_rd = none;
  games_played = none;
  wins = none;
  ranked_games_played = none;
  ranked_wins = none;
  leaderboard = none;
  auth_loading = none;
  auth_error = none;
  nickname_error = none;
  nickname_saving = none;
  auth_migration_required = none;
  recovery_available = none;
  linked_providers = none;
  badges = none;
  selected_badge = none;
  can_play = none;
}

unfoldable pub patched : SessionState → SessionPatch → SessionState
patched s p = record s {
  user_email = or_else p.user_email s.user_email;
  display_name = or_else p.display_name s.display_name;
  user_avatar = or_else p.user_avatar s.user_avatar;
  is_guest = or_else p.is_guest s.is_guest;
  is_admin = or_else p.is_admin s.is_admin;
  is_moderator = or_else p.is_moderator s.is_moderator;
  mmr = or_else p.mmr s.mmr;
  rating_rd = or_else p.rating_rd s.rating_rd;
  games_played = or_else p.games_played s.games_played;
  wins = or_else p.wins s.wins;
  ranked_games_played = or_else p.ranked_games_played s.ranked_games_played;
  ranked_wins = or_else p.ranked_wins s.ranked_wins;
  leaderboard = or_else p.leaderboard s.leaderboard;
  auth_loading = or_else p.auth_loading s.auth_loading;
  auth_error = or_else p.auth_error s.auth_error;
  nickname_error = or_else p.nickname_error s.nickname_error;
  nickname_saving = or_else p.nickname_saving s.nickname_saving;
  auth_migration_required = or_else p.auth_migration_required s.auth_migration_required;
  recovery_available = or_else p.recovery_available s.recovery_available;
  linked_providers = or_else p.linked_providers s.linked_providers;
  badges = or_else p.badges s.badges;
  selected_badge = or_else p.selected_badge s.selected_badge;
  can_play = or_else p.can_play s.can_play;
}

-- `onResetSession` is an effect: the home runtime resets the other controllers.
unfoldable pub clear_auth_session : SessionController → String → SessionController
unfolding initial_state empty_auth_session patch_state
clear_auth_session c message =
    let reset = record c { session = empty_auth_session; log = resets_session ∷ c.log } in
    patch_state reset (record initial_state {
      google_sign_in_enabled = c.state.google_sign_in_enabled;
      google_client_id = c.config.google_client_id;
      discord_sign_in_enabled = c.state.discord_sign_in_enabled;
      discord_client_id = c.config.discord_client_id;
      auth_error = message;
    })

-- `window.location`, as far as it is read.
pub record Location : Type 0 where
  pub origin : String
  pub hostname : String

abbrev contains_text : List String → String → Bool
contains_text [] s = false
contains_text (t ∷ ts) s = t == s || contains_text ts s

abbrev is_none_of : List String → Bool
is_none_of [] = true
is_none_of (t ∷ ts) = false

unfoldable pub sync_google_sign_in : SessionController → Location → SessionController
unfolding patch_state
sync_google_sign_in c place =
    let allowed = contains_text c.config.google_allowed_origins place.origin in
    if not (truthy c.config.google_client_id)
    then patch_state c (record (c.state) { google_sign_in_enabled = false })
    else if is_none_of c.config.google_allowed_origins
    then (if place.hostname == "localhost" || place.hostname == "127.0.0.1"
        then patch_state c (record (c.state) {
          google_sign_in_enabled = false;
          auth_error =
              "Google sign-in is disabled on "
              <> (place.origin <> " until NEXT_PUBLIC_GOOGLE_ALLOWED_ORIGINS is set.");
        })
        else patch_state c (record (c.state) { google_sign_in_enabled = true }))
    else patch_state c (record (c.state) {
      google_sign_in_enabled = allowed;
      auth_error =
          if allowed
          then c.state.auth_error
          else "Google sign-in is disabled for "
            <> (place.origin
                <> ". Add this origin to Google OAuth and NEXT_PUBLIC_GOOGLE_ALLOWED_ORIGINS.");
    })

-- In a browser, where there is a window.
unfoldable pub start : SessionController → Location → SessionController
unfolding sync_google_sign_in
start c place =
    let synced = sync_google_sign_in (record c { mounted = true; started = true }) place in
    if c.started then c else record synced { log = emits synced.state ∷ listens ∷ synced.log }

unfoldable pub destroy : SessionController → SessionController
destroy c = record c {
  mounted = false;
  started = false;
  log = if c.started then unlistens ∷ c.log else c.log;
}

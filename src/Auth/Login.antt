-- ===== src/Auth/Login.antt =====
-- features/auth/controllers/session-controller.ts: what a login, a profile and the server's other
-- answers set. `expiry` reads a token's expiry.
use geoduels.Base.{
  ℕ, String, Bool, false, Option, none, some, List, [], ◌∷◌, if◌then◌else◌, ◌==◌, string_eq,
  or_else, or_text, truthy, not, ◌&&◌,
}
use geoduels.Session.{AuthSessionSnapshot}
use geoduels.Auth.Json.{Json, get, is_object, as_text, as_num, as_bool, as_array}
use geoduels.Auth.Read.{
  initial_mmr, initial_rating_rd, normalize_badge, normalize_badges, normalize_leaderboard,
}
use geoduels.Auth.State.{SessionController, patch_state, normalize_session, state_of}
use geoduels.Auth.Calls.{SessionPatch, no_patch, patched}

-- The user and the payload of a login, with its optional fields.
pub record SessionUser : Type 0 where
  pub id : Option String
  pub email : Option String
  pub display_name : Option String
  pub avatar_url : Option String
  pub is_guest : Option Bool
  pub is_admin : Option Bool
  pub is_moderator : Option Bool

pub record AuthPopupPayload : Type 0 where
  pub ok : Option Bool
  pub error : Option String
  pub access_token : Option String
  pub onboarding_required : Option Bool
  pub auth_migration_required : Option Bool
  pub recovery_available : Option Bool
  pub linked_providers : Option Json
  pub can_play : Option Bool
  pub suggested_nickname : Option String
  pub user : Option SessionUser

abbrev pub no_user : SessionUser
no_user = record {
  id = none;
  email = none;
  display_name = none;
  avatar_url = none;
  is_guest = none;
  is_admin = none;
  is_moderator = none;
}

-- `.filter((provider) => typeof provider === "string")`.
unfoldable pub texts_of : List Json → List String
unfolding as_text
texts_of [] = []
texts_of (v ∷ vs) = elim (as_text (some v)) [ none ↦ texts_of vs | some s ↦ s ∷ texts_of vs ]

unfoldable pub login_name : AuthPopupPayload → String
login_name sent =
    let user = or_else sent.user no_user in
    or_text (or_else user.display_name "") (or_text (or_else sent.suggested_nickname "") "Player")

unfoldable pub login_session : AuthPopupPayload → AuthSessionSnapshot
unfolding login_name as_array texts_of
login_session sent =
    let user = or_else sent.user no_user in
    let onboarding = or_else sent.onboarding_required false in
    let migrates = or_else sent.auth_migration_required false in
    record {
      user_id = or_else user.id "";
      access_token = or_else sent.access_token "";
      onboarding_required = onboarding;
      auth_migration_required = some migrates;
      recovery_available = some (or_else sent.recovery_available false);
      linked_providers = some (texts_of (or_else (as_array sent.linked_providers) []));
      can_play = some (or_else sent.can_play (not onboarding && not migrates));
      nickname_input = or_text (or_else sent.suggested_nickname "") (login_name sent);
      expires_at = none;
    }

unfoldable pub login_patch : AuthPopupPayload → SessionPatch
unfolding login_name
login_patch sent =
    let user = or_else sent.user no_user in
    record no_patch {
      user_email = some (or_else user.email "");
      display_name = some (login_name sent);
      user_avatar = some (or_else user.avatar_url "");
      is_guest = some (or_else user.is_guest false);
      is_admin = some (or_else user.is_admin false);
      is_moderator = some (or_else user.is_moderator false);
      nickname_error = some "";
      auth_error = some "";
      auth_loading = some false;
      mmr = some initial_mmr;
      rating_rd = some initial_rating_rd;
      games_played = some 0;
      wins = some 0;
      ranked_games_played = some 0;
      ranked_wins = some 0;
      leaderboard = some none;
    }

-- `setMmr`, `setRatingRd` and their like, with the function that is applied.
pub data Counter : Type 0 where
  mmr rating_rd games_played wins ranked_games_played ranked_wins : Counter

unfoldable pub set_counter : SessionController → Counter → (ℕ → ℕ) → SessionController
unfolding patch_state
set_counter c mmr f = patch_state c (record (c.state) { mmr = f c.state.mmr })
set_counter c rating_rd f = patch_state c (record (c.state) { rating_rd = f c.state.rating_rd })
set_counter c games_played f =
    patch_state c (record (c.state) { games_played = f c.state.games_played })
set_counter c wins f = patch_state c (record (c.state) { wins = f c.state.wins })
set_counter c ranked_games_played f =
    patch_state c (record (c.state) { ranked_games_played = f c.state.ranked_games_played })
set_counter c ranked_wins f =
    patch_state c (record (c.state) { ranked_wins = f c.state.ranked_wins })

-- `setAuthPending`, whose patch has only four of the fields.
unfoldable pub set_auth_pending : SessionController → SessionPatch → SessionController
unfolding patch_state patched
set_auth_pending c p = patch_state c (
    patched c.state (record no_patch {
      auth_loading = p.auth_loading;
      auth_error = p.auth_error;
      nickname_saving = p.nickname_saving;
      nickname_error = p.nickname_error;
    }))

unfoldable pub apply_profile_snapshot : SessionController → Json → SessionController
unfolding patch_state get as_text as_num as_bool as_array normalize_badge normalize_badges texts_of
apply_profile_snapshot c profile =
    let s = c.state in
    let name = or_text (or_else (as_text (get "display_name" profile)) "") s.display_name in
    patch_state c (record s {
      user_email = or_else (as_text (get "email" profile)) s.user_email;
      display_name = name;
      user_avatar = or_else (as_text (get "avatar_url" profile)) s.user_avatar;
      is_guest = or_else (as_bool (get "isGuest" profile)) s.is_guest;
      is_admin = or_else (as_bool (get "isAdmin" profile)) s.is_admin;
      is_moderator = or_else (as_bool (get "isModerator" profile)) s.is_moderator;
      mmr = or_else (as_num (get "mmr" profile)) s.mmr;
      rating_rd = or_else (as_num (get "ratingRd" profile)) s.rating_rd;
      games_played = or_else (as_num (get "gamesPlayed" profile)) s.games_played;
      wins = or_else (as_num (get "wins" profile)) s.wins;
      ranked_games_played =
          or_else (as_num (get "rankedGamesPlayed" profile)) s.ranked_games_played;
      ranked_wins = or_else (as_num (get "rankedWins" profile)) s.ranked_wins;
      badges = normalize_badges (get "badges" profile);
      selected_badge = normalize_badge (get "selectedBadge" profile);
      linked_providers = elim (as_array (get "linkedProviders" profile)) [
        | none ↦ s.linked_providers
        | some vs ↦ texts_of vs
      ];
      nickname_input = or_text s.nickname_input name;
    })

unfoldable pub apply_badge_selection : SessionController → Json → SessionController
unfolding patch_state is_object get normalize_badge normalize_badges
apply_badge_selection c payload =
    if is_object payload
    then patch_state c (record (c.state) {
      badges = normalize_badges (get "badges" payload);
      selected_badge = normalize_badge (get "selectedBadge" payload);
    })
    else c

unfoldable pub apply_leaderboard_summary : SessionController → Option Json → SessionController
unfolding patch_state normalize_leaderboard
apply_leaderboard_summary c summary =
    patch_state c (record (c.state) { leaderboard = normalize_leaderboard summary })

module _ (expiry : String → ℕ) where
  unfoldable pub apply_session_snapshot :
      SessionController → AuthSessionSnapshot → SessionPatch → SessionController
  unfolding normalize_session state_of patched patch_state
  apply_session_snapshot c session p =
      let s = normalize_session expiry session in
      patch_state (record c { session = s }) (patched (state_of c.state s) p)

  unfoldable pub apply_login_payload : SessionController → AuthPopupPayload → SessionController
  unfolding login_session login_patch apply_session_snapshot
  apply_login_payload c sent = apply_session_snapshot c (login_session sent) (login_patch sent)

  -- The handler of messages from a popup; `expected` is the origin of the API, or empty where its
  -- address is none, and `kind` and `payload` what the message's data hold, if any.
  unfoldable pub on_message :
      SessionController → String → String → Option String → AuthPopupPayload → SessionController
  unfolding patch_state apply_login_payload
  on_message c expected origin kind payload =
      let told = patch_state c (record (c.state) {
        auth_loading = false;
        auth_error = or_text (or_else payload.error "") "Login failed";
      }) in
      if truthy expected && not (origin == expected)
      then c
      else if not (or_else kind "" == "geoduels:auth")
          && not (or_else kind "" == "geoduels:google-auth")
      then c
      else if not (or_else payload.ok false)
      then told
      else apply_login_payload c payload

  -- `setNicknameInputAndClearError`.
  unfoldable pub set_nickname_input : SessionController → String → SessionController
  unfolding normalize_session patch_state
  set_nickname_input c value =
      let session = normalize_session expiry (record (c.session) { nickname_input = value }) in
      patch_state (record c { session = session })
        (record (c.state) { nickname_input = value; nickname_error = "" })

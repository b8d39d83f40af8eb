-- ===== src/Session.antt =====
-- features/auth/session.ts: the session that the controllers pass around, and when it can play.
use geoduels.Base.{
  String, Bool, true, false, Option, none, some, ◌&&◌, not, truthy, or_else, ℕ, List, [],
}

-- The fields that are optional in the source are options.
pub record AuthSessionSnapshot : Type 0 where
  pub user_id : String
  pub access_token : String
  pub onboarding_required : Bool
  pub auth_migration_required : Option Bool
  pub recovery_available : Option Bool
  pub linked_providers : Option (List String)
  pub can_play : Option Bool
  pub nickname_input : String
  pub expires_at : Option ℕ

unfoldable pub has_playable_session : Option AuthSessionSnapshot → Bool
has_playable_session none = false
has_playable_session (some s) =
    truthy s.user_id
    && truthy s.access_token
    && not s.onboarding_required
    && not (or_else s.auth_migration_required false)
    && or_else s.can_play true

unfoldable pub empty_auth_session : AuthSessionSnapshot
empty_auth_session = record {
  user_id = "";
  access_token = "";
  onboarding_required = false;
  auth_migration_required = some false;
  recovery_available = some false;
  linked_providers = some [];
  can_play = some false;
  nickname_input = "";
  expires_at = some 0;
}

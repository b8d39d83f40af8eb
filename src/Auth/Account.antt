-- ===== src/Auth/Account.antt =====
-- features/auth/controllers/session-controller.ts: what each method does to the requests under way and to
-- the session that the views see.
use geoduels.Base.{
  ℕ, suc, ◌+◌, ◌≡◌, refl, String, Bool, Option, none, some, List, [], ◌∷◌, arith, string_eq,
  Bool-cases, inl, inr,
}
use geoduels.Session.{AuthSessionSnapshot, empty_auth_session}
use geoduels.Auth.State.{
  SignInConfig, SessionState, SessionController, SessionEffect, bootstraps, refreshes,
  new_controller, patch_state,
}
use geoduels.Auth.Calls.{
  SessionPatch, Location, start, sync_google_sign_in, clear_auth_session, destroy,
}
use geoduels.Auth.Login.{
  Counter, set_counter, mmr, rating_rd, games_played, wins, ranked_games_played, ranked_wins,
  set_auth_pending, apply_profile_snapshot, apply_badge_selection, apply_leaderboard_summary,
}
use geoduels.Auth.Json.{Json, is_object}

-- The requests that were made.
abbrev pub refreshes_in : List SessionEffect → ℕ
refreshes_in [] = 0
refreshes_in (refreshes i ∷ es) = suc (refreshes_in es)
refreshes_in (e ∷ es) = refreshes_in es

abbrev pub bootstraps_in : List SessionEffect → ℕ
bootstraps_in [] = 0
bootstraps_in (bootstraps i ∷ es) = suc (bootstraps_in es)
bootstraps_in (e ∷ es) = bootstraps_in es

abbrev pub under_way : Option ℕ → ℕ
under_way none = 0
under_way (some i) = 1

pub record Account : Type 0 where
  pub refresh_count : ℕ
  pub bootstrap_count : ℕ
  pub refresh_promise : Option ℕ
  pub bootstrap_promise : Option ℕ
  pub shown_user : String
  pub shown_token : String
  pub shown_onboarding : Bool
  pub session : AuthSessionSnapshot

abbrev pub account : SessionController → Account
account c = record {
  refresh_count = refreshes_in c.log;
  bootstrap_count = bootstraps_in c.log;
  refresh_promise = c.refresh_promise;
  bootstrap_promise = c.bootstrap_promise;
  shown_user = c.state.user_id;
  shown_token = c.state.access_token;
  shown_onboarding = c.state.onboarding_required;
  session = c.session;
}

-- The requests that were made are those that were answered and at most one more, and what the views
-- see of the session is the session's.
pub record IsCounted (m n : ℕ) (a : Account) : Type 0 where
  pub refresh_requests : a.refresh_count ≡ m + under_way a.refresh_promise
  pub bootstrap_requests : a.bootstrap_count ≡ n + under_way a.bootstrap_promise
  pub same_user : a.shown_user ≡ a.session.user_id
  pub same_token : a.shown_token ≡ a.session.access_token
  pub same_onboarding : a.shown_onboarding ≡ a.session.onboarding_required

-- A session is set, and shown.
abbrev pub shows : Account → AuthSessionSnapshot → Account
shows a s = record a {
  shown_user = s.user_id;
  shown_token = s.access_token;
  shown_onboarding = s.onboarding_required;
  session = s;
}

pub shows-IsCounted :
    {m n : ℕ} {a : Account} (s : AuthSessionSnapshot) → IsCounted m n a → IsCounted m n (shows a s)
shows-IsCounted s v = record {
  refresh_requests = v.refresh_requests;
  bootstrap_requests = v.bootstrap_requests;
  same_user = refl;
  same_token = refl;
  same_onboarding = refl;
}

pub account-patch_state :
    (c : SessionController) (s : SessionState)
    → s.user_id ≡ c.state.user_id
    → s.access_token ≡ c.state.access_token
    → s.onboarding_required ≡ c.state.onboarding_required
    → account (patch_state c s) ≡ account c
unfolding patch_state
account-patch_state c s e f g = ground arith

pub account-sync_google_sign_in :
    (c : SessionController) (place : Location) → account (sync_google_sign_in c place) ≡ account c
unfolding sync_google_sign_in
account-sync_google_sign_in c place = ground arith

pub account-start : (c : SessionController) (place : Location) → account (start c place) ≡ account c
unfolding start
account-start c place = ground arith

pub account-destroy : (c : SessionController) → account (destroy c) ≡ account c
unfolding destroy
account-destroy c = ground arith

pub account-clear_auth_session :
    (c : SessionController) (message : String)
    → account (clear_auth_session c message) ≡ shows (account c) empty_auth_session
unfolding clear_auth_session
account-clear_auth_session c message = ground arith

pub account-set_counter :
    (c : SessionController) (k : Counter) (f : ℕ → ℕ) → account (set_counter c k f) ≡ account c
unfolding set_counter
account-set_counter c mmr f = account-patch_state c _ refl refl refl
account-set_counter c rating_rd f = account-patch_state c _ refl refl refl
account-set_counter c games_played f = account-patch_state c _ refl refl refl
account-set_counter c wins f = account-patch_state c _ refl refl refl
account-set_counter c ranked_games_played f = account-patch_state c _ refl refl refl
account-set_counter c ranked_wins f = account-patch_state c _ refl refl refl

pub account-set_auth_pending :
    (c : SessionController) (p : SessionPatch) → account (set_auth_pending c p) ≡ account c
unfolding set_auth_pending
account-set_auth_pending c p = account-patch_state c _ refl refl refl

pub account-apply_profile_snapshot :
    (c : SessionController) (profile : Json)
    → account (apply_profile_snapshot c profile) ≡ account c
unfolding apply_profile_snapshot
account-apply_profile_snapshot c profile = account-patch_state c _ refl refl refl

pub account-apply_leaderboard_summary :
    (c : SessionController) (o : Option Json) → account (apply_leaderboard_summary c o) ≡ account c
unfolding apply_leaderboard_summary
account-apply_leaderboard_summary c o = account-patch_state c _ refl refl refl

pub account-apply_badge_selection :
    (c : SessionController) (payload : Json) → account (apply_badge_selection c payload) ≡ account c
unfolding apply_badge_selection
account-apply_badge_selection c payload = elim (Bool-cases (is_object payload)) [
  | inl object ↦ rw object (account-patch_state c _ refl refl refl)
  | inr other ↦ rw other refl
]

pub new_controller-IsCounted :
    (config : SignInConfig) → IsCounted 0 0 (account (new_controller config))
unfolding new_controller
new_controller-IsCounted config = record {
  refresh_requests = refl;
  bootstrap_requests = refl;
  same_user = refl;
  same_token = refl;
  same_onboarding = refl;
}

-- ===== src/Auth/Run.antt =====
-- features/auth/controllers/session-controller.ts: what can happen to the controller.
use geoduels.Base.{ℕ, ◌+◌, String, Bool, Option, is_some, if◌then◌else◌}
use geoduels.Session.{AuthSessionSnapshot}
use geoduels.Auth.Json.{Json}
use geoduels.Auth.State.{SignInConfig, SessionController, new_controller}
use geoduels.Auth.Calls.{SessionPatch, Location, clear_auth_session, start, destroy}
use geoduels.Auth.Login.{
  AuthPopupPayload, Counter, set_counter, set_auth_pending, apply_profile_snapshot,
  apply_badge_selection, apply_leaderboard_summary, apply_session_snapshot, on_message,
  set_nickname_input,
}
use geoduels.Auth.Fresh.{
  bootstrap_session, refresh_session, bootstrap_settles, refresh_settles, ensure_fresh_session,
}

pub data SessionCall : Type 0 where
  starts : Location → SessionCall
  destroys bootstraps refreshes bootstrap_answers refresh_answers : SessionCall
  clears : String → SessionCall
  messages : String → String → Option String → AuthPopupPayload → SessionCall
  nicknames : String → SessionCall
  counts : Counter → (ℕ → ℕ) → SessionCall
  pends : SessionPatch → SessionCall
  applies : AuthSessionSnapshot → SessionPatch → SessionCall
  profiles selects_badge : Json → SessionCall
  leaderboards : Option Json → SessionCall
  ensures : ℕ → ℕ → Bool → Bool → SessionCall

module _ (expiry : String → ℕ) where
  unfoldable pub step : SessionController → SessionCall → SessionController
  step c (starts place) = start c place
  step c destroys = destroy c
  step c bootstraps = bootstrap_session c
  step c refreshes = refresh_session c
  step c bootstrap_answers = bootstrap_settles c
  step c refresh_answers = refresh_settles c
  step c (clears message) = clear_auth_session c message
  step c (messages expected origin kind payload) = on_message expiry c expected origin kind payload
  step c (nicknames value) = set_nickname_input expiry c value
  step c (counts k f) = set_counter c k f
  step c (pends p) = set_auth_pending c p
  step c (applies s p) = apply_session_snapshot expiry c s p
  step c (profiles v) = apply_profile_snapshot c v
  step c (selects_badge v) = apply_badge_selection c v
  step c (leaderboards o) = apply_leaderboard_summary c o
  step c (ensures now min_validity allow force) =
      (ensure_fresh_session c now min_validity allow force).0

  -- How many requests for a refresh, and for a bootstrap, a call answers.
  abbrev pub refresh_answered : SessionController → SessionCall → ℕ
  refresh_answered c refresh_answers = if is_some c.refresh_promise then 1 else 0
  refresh_answered c call = 0

  abbrev pub bootstrap_answered : SessionController → SessionCall → ℕ
  bootstrap_answered c bootstrap_answers = if is_some c.bootstrap_promise then 1 else 0
  bootstrap_answered c call = 0

  -- The controllers that calls and answers lead to, with the number of answered refreshes and
  -- bootstraps.
  pub data Reach (config : SignInConfig) : ℕ → ℕ → SessionController → Type 0 where
    begins : Reach config 0 0 (new_controller config)
    happens :
        {m n : ℕ} {c : SessionController} (call : SessionCall)
        → Reach config m n c
        → Reach config (m + refresh_answered c call) (n + bootstrap_answered c call) (step c call)

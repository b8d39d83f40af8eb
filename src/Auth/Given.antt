-- ===== src/Auth/Given.antt =====
-- features/auth/controllers/session-controller.ts: which sessions are given out.
use geoduels.Base.{
  ℕ, ◌+◌, ◌≡◌, ◌<◌, refl, String, Bool, true, false, Option, none, some, arith, or_else, truthy,
  not, ◌&&◌, ◌⊎◌, inl, inr,
}
use geoduels.Session.{AuthSessionSnapshot, has_playable_session, empty_auth_session}
use geoduels.Auth.State.{SessionController, normalize_session}
use geoduels.Auth.Calls.{clear_auth_session}
use geoduels.Auth.Fresh.{gives, ensure_fresh_session, after_refresh, gives_playable, after_fresh}

-- A session that is given out without a refresh is the controller's; it has a user and a token,
-- needs no onboarding unless that is allowed, and is valid for longer than was asked; and no
-- refresh was forced.
pub given_without_refresh :
    (c : SessionController) (now min_validity : ℕ) (allow force : Bool) (s : AuthSessionSnapshot)
    → (ensure_fresh_session c now min_validity allow force).1 ≡ gives (some s)
    → (s ≡ c.session)
      × (truthy s.user_id ≡ true)
      × (truthy s.access_token ≡ true)
      × ((not allow && s.onboarding_required) ≡ false)
      × (force ≡ false)
      × (now + min_validity < or_else s.expires_at 0)
unfolding ensure_fresh_session
given_without_refresh c now min_validity allow force s h =
    (ground arith, ground arith, ground arith, ground arith, ground arith, ground arith)

module _ (expiry : String → ℕ) where
  after_refresh_lem :
      (c : SessionController) (now at : ℕ) (r : Option AuthSessionSnapshot)
      (s : AuthSessionSnapshot)
      → after_refresh expiry c now at false r ≡ some s
      → ((r ≡ none) × (s ≡ c.session) × (now < at))
        ⊎ ((x : AuthSessionSnapshot) × (r ≡ some x) × (s ≡ normalize_session expiry x))
  unfolding after_refresh
  after_refresh_lem c now at none s h = inl (refl, ground arith, ground arith)
  after_refresh_lem c now at (some x) s h = inr (x, refl, cc)

  after_fresh_lem :
      (c : SessionController) (o : Option AuthSessionSnapshot) (s : AuthSessionSnapshot)
      → after_fresh c o ≡ gives_playable s
      → (o ≡ some s) × (has_playable_session (some s) ≡ true)
  unfolding after_fresh
  after_fresh_lem c none s h = ground arith
  after_fresh_lem c (some x) s h = ground arith

  -- A session that `getPlayableSession` gives after a refresh can play; and it is the refreshed
  -- one with what is missing filled in, or, when the refresh gave none, the controller's at that
  -- moment, while the expiry that was read before has not come.
  pub playable_after_refresh :
      (c : SessionController) (now at : ℕ) (r : Option AuthSessionSnapshot)
      (s : AuthSessionSnapshot)
      → after_fresh c (after_refresh expiry c now at false r) ≡ gives_playable s
      → (has_playable_session (some s) ≡ true)
        × (((r ≡ none) × (s ≡ c.session) × (now < at))
            ⊎ ((x : AuthSessionSnapshot) × (r ≡ some x) × (s ≡ normalize_session expiry x)))
  playable_after_refresh c now at r s h =
      let f = after_fresh_lem c (after_refresh expiry c now at false r) s h in
      (f.1, after_refresh_lem c now at r s f.0)

  -- When the session is cleared while a refresh that was not forced is waited for, and the refresh
  -- then gives none before the old token expires, then the empty session is given out as fresh,
  -- which no one can play with.
  pub cleared_session_is_given :
      (c : SessionController) (message : String) (now at : ℕ)
      → now < at
      → (after_refresh expiry (clear_auth_session c message) now at false none
          ≡ some empty_auth_session)
        × (has_playable_session (some empty_auth_session) ≡ false)
  unfolding after_refresh clear_auth_session has_playable_session empty_auth_session
  cleared_session_is_given c message now at h = (ground arith, refl)

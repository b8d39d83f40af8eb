-- ===== src/Auth/Fresh.antt =====
-- features/auth/controllers/session-controller.ts: the requests that concurrent callers share, and
-- the sessions that are given out. `now` is `Date.now()` at that moment.
use geoduels.Base.{
  ℕ, suc, String, Bool, Option, none, some, ◌∷◌, if◌then◌else◌, or_else, truthy, not, ◌&&◌, ◌||◌,
  ltb, ◌+◌, is_some,
}
use geoduels.Session.{AuthSessionSnapshot, has_playable_session}
use geoduels.Auth.State.{SessionController, bootstraps, refreshes, normalize_session}

-- A promise that is there is shared; else a request is made, under the next number.
unfoldable pub bootstrap_session : SessionController → SessionController
bootstrap_session c = if is_some c.bootstrap_promise then c else record c {
  bootstrap_promise = some c.next;
  next = suc c.next;
  log = bootstraps c.next ∷ c.log;
}

unfoldable pub refresh_session : SessionController → SessionController
refresh_session c = if is_some c.refresh_promise then c else record c {
  refresh_promise = some c.next;
  next = suc c.next;
  log = refreshes c.next ∷ c.log;
}

-- The request of the promise is answered, or failed: every caller gets that.
unfoldable pub bootstrap_settles : SessionController → SessionController
bootstrap_settles c = record c { bootstrap_promise = none }

unfoldable pub refresh_settles : SessionController → SessionController
refresh_settles c = record c { refresh_promise = none }

-- What `ensureFreshSession` does before it waits: it gives its answer, or waits for a refresh, with
-- the expiry that it has read.
pub data Fresh : Type 0 where
  gives : Option AuthSessionSnapshot → Fresh
  waits : ℕ → Fresh

unfoldable pub check_session : AuthSessionSnapshot → ℕ → ℕ → Bool → Bool → Fresh
check_session s now min_validity allow_onboarding force_refresh =
    let at = or_else s.expires_at 0 in
    if not (truthy s.user_id) || not (truthy s.access_token)
    then gives none
    else if not allow_onboarding && s.onboarding_required
    then gives none
    else if not force_refresh && ltb 0 at && ltb (now + min_validity) at
    then gives (some s)
    else waits at

unfoldable pub wait_for : SessionController → Fresh → SessionController
unfolding refresh_session
wait_for c (gives o) = c
wait_for c (waits at) = refresh_session c

unfoldable pub ensure_fresh_session :
    SessionController → ℕ → ℕ → Bool → Bool → SessionController × Fresh
unfolding check_session wait_for
ensure_fresh_session c now min_validity allow_onboarding force_refresh =
    let fresh = check_session c.session now min_validity allow_onboarding force_refresh in
    (wait_for c fresh, fresh)

module _ (expiry : String → ℕ) where
  -- The rest of it, when the refresh has settled with `refreshed`: the session is the controller's of
  -- that moment.
  unfoldable pub after_refresh :
      SessionController → ℕ → ℕ → Bool → Option AuthSessionSnapshot → Option AuthSessionSnapshot
  unfolding normalize_session
  after_refresh c now at force_refresh (some refreshed) = some (normalize_session expiry refreshed)
  after_refresh c now at force_refresh none =
      if not force_refresh && ltb 0 at && ltb now at then some c.session else none

-- What `getPlayableSession` does with a fresh session, or without one: it gives a session, none, or
-- asks the handler.
pub data Playable : Type 0 where
  gives_playable : AuthSessionSnapshot → Playable
  gives_none asks : Playable

unfoldable pub without_fresh : SessionController → Playable
without_fresh c = if c.session.onboarding_required then gives_none else asks

unfoldable pub after_fresh : SessionController → Option AuthSessionSnapshot → Playable
unfolding has_playable_session without_fresh
after_fresh c none = without_fresh c
after_fresh c (some s) = if has_playable_session (some s) then gives_playable s else without_fresh c

-- Its first part: whether a fresh session is waited for at all.
unfoldable pub wants_fresh : SessionController → Bool
unfolding has_playable_session
wants_fresh c = has_playable_session (some c.session)

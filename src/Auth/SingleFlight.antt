-- ===== src/Auth/SingleFlight.antt =====
-- features/auth/controllers/session-controller.ts: how many requests are under way, and what the views
-- see of the session, over every run.
use geoduels.Base.{
  ℕ, ◌+◌, ◌≡◌, refl, String, Bool, true, false, Option, arith, is_some, if◌then◌else◌, or_else,
  truthy, not, ◌&&◌, ◌==◌, string_eq, sym, subst,
}
use geoduels.Session.{AuthSessionSnapshot, empty_auth_session}
use geoduels.Auth.State.{SignInConfig, SessionController, normalize_session}
use geoduels.Auth.Calls.{SessionPatch}
use geoduels.Auth.Login.{
  AuthPopupPayload, on_message, apply_session_snapshot, set_nickname_input, login_session,
  login_patch,
}
use geoduels.Auth.Fresh.{
  bootstrap_session, refresh_session, bootstrap_settles, refresh_settles, ensure_fresh_session,
  check_session, wait_for, Fresh, gives, waits,
}
use geoduels.Auth.Run
use geoduels.Auth.Run.{
  SessionCall, step, refresh_answered, bootstrap_answered, Reach, begins, happens,
}
use geoduels.Auth.Account.{
  Account, account, refreshes_in, bootstraps_in, under_way, IsCounted, shows, shows-IsCounted,
  new_controller-IsCounted, account-patch_state, account-start, account-destroy,
  account-clear_auth_session, account-set_counter, account-set_auth_pending,
  account-apply_profile_snapshot, account-apply_leaderboard_summary, account-apply_badge_selection,
}

-- A controller whose requests are counted.
record Counted (m n : ℕ) (c : SessionController) : Type 0 where
  counts : IsCounted m n (account c)

moved :
    {m n : ℕ} {c : SessionController} {a : Account}
    → account c ≡ a
    → IsCounted m n a
    → Counted m n c
moved {m} {n} e v = record { counts = subst (λ a. IsCounted m n a) (sym e) v }

plain : {m n : ℕ} {c : SessionController} → Counted m n c → Counted (m + 0) (n + 0) c
plain {m} {n} {c} v =
    subst (λ k. Counted k (n + 0) c) (omega arith) (subst (λ k. Counted m k c) (omega arith) v)

module _ (m n : ℕ) (c : SessionController) (v : Counted m n c) where
  refresh_session-Counted : Counted m n (refresh_session c)
  unfolding refresh_session
  refresh_session-Counted = record {
    counts = record {
      refresh_requests = ground (arith, v.counts.refresh_requests);
      bootstrap_requests = ground (arith, v.counts.bootstrap_requests);
      same_user = ground (arith, v.counts.same_user);
      same_token = ground (arith, v.counts.same_token);
      same_onboarding = ground (arith, v.counts.same_onboarding);
    };
  }

  bootstrap_session-Counted : Counted m n (bootstrap_session c)
  unfolding bootstrap_session
  bootstrap_session-Counted = record {
    counts = record {
      refresh_requests = ground (arith, v.counts.refresh_requests);
      bootstrap_requests = ground (arith, v.counts.bootstrap_requests);
      same_user = ground (arith, v.counts.same_user);
      same_token = ground (arith, v.counts.same_token);
      same_onboarding = ground (arith, v.counts.same_onboarding);
    };
  }

  refresh_settles-Counted :
      Counted (m + (if is_some c.refresh_promise then 1 else 0)) (n + 0) (refresh_settles c)
  unfolding refresh_settles
  refresh_settles-Counted = record {
    counts = record {
      refresh_requests = ground (arith, v.counts.refresh_requests);
      bootstrap_requests = ground (arith, v.counts.bootstrap_requests);
      same_user = v.counts.same_user;
      same_token = v.counts.same_token;
      same_onboarding = v.counts.same_onboarding;
    };
  }

  bootstrap_settles-Counted :
      Counted (m + 0) (n + (if is_some c.bootstrap_promise then 1 else 0)) (bootstrap_settles c)
  unfolding bootstrap_settles
  bootstrap_settles-Counted = record {
    counts = record {
      refresh_requests = ground (arith, v.counts.refresh_requests);
      bootstrap_requests = ground (arith, v.counts.bootstrap_requests);
      same_user = v.counts.same_user;
      same_token = v.counts.same_token;
      same_onboarding = v.counts.same_onboarding;
    };
  }

  wait_for-Counted : (f : Fresh) → Counted m n (wait_for c f)
  unfolding wait_for
  wait_for-Counted (gives o) = v
  wait_for-Counted (waits at) = refresh_session-Counted

module _ (expiry : String → ℕ) where
  account-apply_session_snapshot :
      (c : SessionController) (s : AuthSessionSnapshot) (p : SessionPatch)
      → account (apply_session_snapshot expiry c s p)
        ≡ shows (account c) (normalize_session expiry s)
  unfolding apply_session_snapshot
  account-apply_session_snapshot c s p = ground arith

  set_nickname_input-Counted :
      (m n : ℕ) (c : SessionController) (value : String)
      → Counted m n c
      → Counted m n (set_nickname_input expiry c value)
  unfolding set_nickname_input
  set_nickname_input-Counted m n c value v = record {
    counts = record {
      refresh_requests = ground (arith, v.counts.refresh_requests);
      bootstrap_requests = ground (arith, v.counts.bootstrap_requests);
      same_user = v.counts.same_user;
      same_token = v.counts.same_token;
      same_onboarding = v.counts.same_onboarding;
    };
  }

  if-Counted :
      {m n : ℕ} (b : Bool) {c d : SessionController}
      → Counted m n c
      → Counted m n d
      → Counted m n (if b then c else d)
  if-Counted true v w = v
  if-Counted false v w = w

  on_message-Counted :
      (m n : ℕ) (c : SessionController) (expected origin : String) (kind : Option String)
      (payload : AuthPopupPayload)
      → Counted m n c
      → Counted m n (on_message expiry c expected origin kind payload)
  unfolding on_message
  on_message-Counted m n c expected origin kind payload v =
      if-Counted (truthy expected && not (origin == expected)) v (
        if-Counted
          (not (or_else kind "" == "geoduels:auth")
            && not (or_else kind "" == "geoduels:google-auth"))
          v
          (if-Counted (not (or_else payload.ok false))
            (moved (account-patch_state c _ refl refl refl) v.counts)
            (moved (account-apply_session_snapshot c (login_session payload) (login_patch payload))
              (shows-IsCounted (normalize_session expiry (login_session payload)) v.counts))))

  step-Counted :
      (m n : ℕ) (c : SessionController) (call : SessionCall)
      → Counted m n c
      → Counted
          (m + refresh_answered expiry c call)
          (n + bootstrap_answered expiry c call)
          (step expiry c call)
  unfolding step ensure_fresh_session
  step-Counted m n c (Run.starts place) v = plain (moved (account-start c place) v.counts)
  step-Counted m n c Run.destroys v = plain (moved (account-destroy c) v.counts)
  step-Counted m n c Run.bootstraps v = plain (bootstrap_session-Counted m n c v)
  step-Counted m n c Run.refreshes v = plain (refresh_session-Counted m n c v)
  step-Counted m n c Run.bootstrap_answers v = bootstrap_settles-Counted m n c v
  step-Counted m n c Run.refresh_answers v = refresh_settles-Counted m n c v
  step-Counted m n c (Run.clears message) v =
      plain
        (moved (account-clear_auth_session c message) (shows-IsCounted empty_auth_session v.counts))
  step-Counted m n c (Run.messages expected origin kind payload) v =
      plain (on_message-Counted m n c expected origin kind payload v)
  step-Counted m n c (Run.nicknames value) v = plain (set_nickname_input-Counted m n c value v)
  step-Counted m n c (Run.counts k f) v = plain (moved (account-set_counter c k f) v.counts)
  step-Counted m n c (Run.pends p) v = plain (moved (account-set_auth_pending c p) v.counts)
  step-Counted m n c (Run.applies s p) v = plain (
      moved (account-apply_session_snapshot c s p)
        (shows-IsCounted (normalize_session expiry s) v.counts))
  step-Counted m n c (Run.profiles j) v =
      plain (moved (account-apply_profile_snapshot c j) v.counts)
  step-Counted m n c (Run.selects_badge j) v =
      plain (moved (account-apply_badge_selection c j) v.counts)
  step-Counted m n c (Run.leaderboards o) v =
      plain (moved (account-apply_leaderboard_summary c o) v.counts)
  step-Counted m n c (Run.ensures now min_validity allow force) v =
      plain (wait_for-Counted m n c v (check_session c.session now min_validity allow force))

  Reach-Counted :
      {config : SignInConfig} {m n : ℕ} {c : SessionController}
      → Reach expiry config m n c
      → Counted m n c
  Reach-Counted {config} begins = record { counts = new_controller-IsCounted config }
  Reach-Counted (happens {m} {n} {c} call r) = step-Counted m n c call (Reach-Counted r)

  -- For a session controller that any calls and answers lead to, of which `m` refreshes and `n`
  -- bootstraps have been answered: the requests for a refresh that were made are the answered ones
  -- and one more exactly while a refresh is under way, and so for bootstraps; and the user's id,
  -- the token and the onboarding that the views see are those of the session.
  pub shared_requests :
      {config : SignInConfig} {m n : ℕ} {c : SessionController}
      → Reach expiry config m n c
      → (refreshes_in c.log ≡ m + under_way c.refresh_promise)
        × (bootstraps_in c.log ≡ n + under_way c.bootstrap_promise)
        × (c.state.user_id ≡ c.session.user_id)
        × (c.state.access_token ≡ c.session.access_token)
        × (c.state.onboarding_required ≡ c.session.onboarding_required)
  shared_requests r =
      let v = (Reach-Counted r).counts in
      (v.refresh_requests, v.bootstrap_requests, v.same_user, v.same_token, v.same_onboarding)

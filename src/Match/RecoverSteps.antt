-- ===== src/Match/RecoverSteps.antt =====
-- Every event of a `MatchController` keeps the account of its recoveries.
use geoduels.Base.{
  ℕ, ◌≡◌, refl, sym, subst, ap, String, false, Option, none, some, ◌∷◌, arith, nat_eq, string_eq,
  is_some, is_value, leb, or_option, or_else, or_text, truthy, ◌||◌, Bool-cases, inl, inr, ◌+◌,
}
use geoduels.Matchmaking.{
  MatchmakingAction, RecoverOutcome, MatchmakingStatus, set_status, recover_resolved,
  recover_failed, ws_closed,
}
use geoduels.Session.{AuthSessionSnapshot}
use geoduels.MatchSession.{
  Assignment, MatchSessionResponse, live_connectable, live_auth_required, history, replaced,
  missing, forbidden,
}
use geoduels.Match.State.{
  clears_auth, MatchController, Recovery, dispatch_matchmaking, patch_state, reset_connection_state,
  close_socket,
}
use geoduels.Match.Recover.{
  snapshot_match_id, find_recovery, finish_recovery, connect_to_assigned_game, recover_ensured,
  recover_fetched, first_snapshot_timer, first_snapshot_retry, max_first_snapshot_attempts,
}
use geoduels.Match.Tracking.{
  Tracking, tracking, tracking-connect_to_assigned_game, tracking-reset_connection_state,
}
use geoduels.Match.RecoverOnce.{
  IsTracked, forget-IsTracked, start_recover-IsTracked, wait-IsTracked, finish_recovery-IsTracked,
  answer-IsTracked, active-dispatch_matchmaking, dispatch_matchmaking-IsTracked,
}

pub recover_failed-IsTracked :
    (m : MatchController) (i : ℕ)
    → IsTracked (tracking m)
    → IsTracked (tracking (finish_recovery (dispatch_matchmaking m (recover_failed i)) i))
recover_failed-IsTracked m i v = answer-IsTracked m i (recover_failed i) (ground arith) refl v

pub reset_connection_state-IsTracked :
    (m : MatchController) → IsTracked (tracking m) → IsTracked (tracking (reset_connection_state m))
reset_connection_state-IsTracked m v =
    subst IsTracked (sym (tracking-reset_connection_state m)) (forget-IsTracked (tracking m) v)

pub recover_ensured-IsTracked :
    (m : MatchController) (i : ℕ) (r : Recovery) (session : Option AuthSessionSnapshot)
    → find_recovery i m.recoveries ≡ some r
    → IsTracked (tracking m)
    → IsTracked (tracking (recover_ensured m r session))
unfolding recover_ensured
recover_ensured-IsTracked m i r none f v =
    let failed = dispatch_matchmaking m (recover_failed r.request_id) in
    let cleared = record failed {
      log = clears_auth "Session expired. Please sign in again." ∷ failed.log;
    } in
    finish_recovery-IsTracked (reset_connection_state cleared) r.request_id
      (ground (arith, tracking-reset_connection_state cleared))
      (reset_connection_state-IsTracked cleared
        (dispatch_matchmaking-IsTracked m (recover_failed r.request_id) refl v))
recover_ensured-IsTracked m i r (some session) f v =
    elim (Bool-cases (
      truthy (or_text m.state.active_match_id (or_else (snapshot_match_id m.state.snapshot) "")))) [
        | inl t ↦ rw t (wait-IsTracked i r _ (tracking m) f v)
        | inr e ↦ rw e (recover_failed-IsTracked m r.request_id v)
      ]

pub connect_to_assigned_game-IsTracked :
    (m : MatchController) (session : AuthSessionSnapshot) (a : Assignment)
    → IsTracked (tracking m)
    → IsTracked (tracking (connect_to_assigned_game m session a))
connect_to_assigned_game-IsTracked m session a v =
    subst IsTracked (sym (tracking-connect_to_assigned_game m session a)) v

pub recover_fetched-IsTracked :
    (m : MatchController) (r : Recovery) (playable : Option AuthSessionSnapshot)
    (response : MatchSessionResponse)
    → IsTracked (tracking m)
    → IsTracked (tracking (recover_fetched m r playable response))
unfolding recover_fetched
recover_fetched-IsTracked m r none (live_connectable a) v =
    recover_failed-IsTracked m r.request_id v
recover_fetched-IsTracked m r (some session) (live_connectable a) v =
    let resolved =
      dispatch_matchmaking m (
        recover_resolved r.request_id r.intent RecoverOutcome.matched (is_some m.state.snapshot)) in
    finish_recovery-IsTracked (connect_to_assigned_game resolved session a) r.request_id
      (rw (ap (λ (t : Tracking). t.active) (tracking-connect_to_assigned_game resolved session a))
        (active-dispatch_matchmaking m r.request_id _ (ground arith)))
      (connect_to_assigned_game-IsTracked resolved session a
        (dispatch_matchmaking-IsTracked m _ refl v))
recover_fetched-IsTracked m r playable (history match_id snapshot) v =
    answer-IsTracked _ r.request_id _ (ground arith) refl v
recover_fetched-IsTracked m r playable (replaced a b) v =
    answer-IsTracked _ r.request_id _ (ground arith) refl v
recover_fetched-IsTracked m r playable (live_auth_required a) v =
    answer-IsTracked _ r.request_id _ (ground arith) refl v
recover_fetched-IsTracked m r playable (missing a) v =
    answer-IsTracked _ r.request_id _ (ground arith) refl v
recover_fetched-IsTracked m r playable (forbidden a) v =
    answer-IsTracked _ r.request_id _ (ground arith) refl v

-- The controller in `first_snapshot_retry` before its recovery starts.
abbrev retry_patched : MatchController → MatchController
unfolding patch_state close_socket
retry_patched m =
    let shut = close_socket m in
    patch_state shut (record (shut.state) {
      connected = false;
      connection_issue = "Still trying to join the live match...";
    })

abbrev retry_again : MatchController → MatchController
unfolding patch_state close_socket
retry_again m = record (retry_patched m) {
  first_snapshot_recover_attempts = m.first_snapshot_recover_attempts + 1;
}

abbrev give_up_action : MatchmakingAction
give_up_action = set_status MatchmakingStatus.abandoned (some false)

pub first_snapshot_retry-IsTracked :
    (m : MatchController) (session : Option AuthSessionSnapshot)
    → IsTracked (tracking m)
    → IsTracked (tracking (first_snapshot_retry m session))
unfolding first_snapshot_retry
first_snapshot_retry-IsTracked m none v =
    dispatch_matchmaking-IsTracked (retry_patched m) give_up_action refl v
first_snapshot_retry-IsTracked m (some s) v =
    elim (Bool-cases (leb max_first_snapshot_attempts m.first_snapshot_recover_attempts)) [
      | inl t ↦ rw t (dispatch_matchmaking-IsTracked (retry_patched m) give_up_action refl v)
      | inr e ↦ rw e (
          start_recover-IsTracked (dispatch_matchmaking (retry_again m) ws_closed) s
            (dispatch_matchmaking-IsTracked (retry_again m) ws_closed refl v))
    ]

pub first_snapshot_timer-IsTracked :
    (m : MatchController) (target : String) (playable : Option AuthSessionSnapshot)
    → IsTracked (tracking m)
    → IsTracked (tracking (first_snapshot_timer m target playable))
unfolding first_snapshot_timer
first_snapshot_timer-IsTracked m target playable v =
    elim (Bool-cases (m.destroyed || is_value (snapshot_match_id m.state.snapshot) target)) [
      | inl t ↦ rw t v
      | inr e ↦ rw e (
          first_snapshot_retry-IsTracked (record m { first_snapshot_timeout = none })
            (or_option m.active_session playable) v)
    ]

-- ===== src/Match/Recover.antt =====
-- features/matchmaking/controllers/match-controller.ts: connecting to an assigned game, the timer
-- of its first snapshot, and `startRecover`. The recovery is suspended at each `await`: the
-- functions after `start_recover` are what it does when it goes on.
use geoduels.Base.{
  ℕ, suc, ◌+◌, String, true, false, not, Option, none, some, List, [], ◌∷◌, if◌then◌else◌, ◌==◌,
  string_eq, nat_eq, truthy, or_else, or_text, or_option, leb, ◌&&◌, ◌||◌, is_some, is_value,
}
use geoduels.Matchmaking.{
  MatchmakingStatus, RecoverOutcome, set_status, ws_closed, recover_started, recover_resolved,
  recover_failed,
}
use geoduels.Snapshot.{Snapshot}
use geoduels.Session.{AuthSessionSnapshot}
use geoduels.MatchSession.{
  Assignment, MatchSessionResponse, live_connectable, live_auth_required, history, replaced,
  missing, forbidden,
}
use geoduels.Socket
use geoduels.Match.State.{
  MatchController, Recovery, ensuring, fetching, clears_auth, patch_state, dispatch_matchmaking,
  close_socket, reset_connection_state,
}

-- `snapshot?.matchId`.
abbrev pub snapshot_match_id : Option Snapshot → Option String
snapshot_match_id none = none
snapshot_match_id (some s) = some s.match_id

-- `startFirstSnapshotTimeout`.
unfoldable pub start_first_snapshot_timeout : MatchController → String → MatchController
start_first_snapshot_timeout m target =
    if truthy target
    then record m {
      awaiting_first_snapshot_match_id = target;
      first_snapshot_timeout = some target;
    }
    else m

-- `connectToAssignedGame`.
unfoldable pub connect_to_assigned_game :
    MatchController → AuthSessionSnapshot → Assignment → MatchController
unfolding patch_state start_first_snapshot_timeout
connect_to_assigned_game m session a =
    let active = or_text a.match_id m.state.active_match_id in
    let patched =
      patch_state (record m { active_session = some session })
        (record (m.state) {
          active_match_id = active;
          source_lobby_id = or_else a.source_lobby_id "";
          source_lobby_invite_code = or_else a.source_lobby_invite_code "";
        }) in
    let connected = record patched { socket_client = Socket.connect m.socket_client } in
    if truthy session.user_id && truthy session.access_token
    then start_first_snapshot_timeout connected active
    else m

-- `startRecover`, up to its first `await`.
unfoldable pub start_recover : MatchController → AuthSessionSnapshot → MatchController
unfolding dispatch_matchmaking
start_recover m session =
    let request_id = suc m.recover_request_id in
    let tracked = record m {
      recover_request_id = request_id;
      recover_in_flight = true;
      recover_abort = some request_id;
      recoveries =
          record {
            request_id = request_id;
            intent = m.state.matchmaking.intent_version;
            stage = ensuring;
          }
          ∷ m.recoveries;
    } in
    if not (truthy session.user_id)
      || not (truthy session.access_token)
      || session.onboarding_required
    then m
    else if m.recover_in_flight || is_some m.state.matchmaking.active_recover_request_id
    then m
    else dispatch_matchmaking tracked (recover_started request_id)

abbrev pub find_recovery : ℕ → List Recovery → Option Recovery
find_recovery i [] = none
find_recovery i (r ∷ rs) = if r.request_id == i then some r else find_recovery i rs

abbrev pub remove_recovery : ℕ → List Recovery → List Recovery
remove_recovery i [] = []
remove_recovery i (r ∷ rs) =
    if r.request_id == i then remove_recovery i rs else r ∷ remove_recovery i rs

-- The `finally` block: the recovery has ended, and gives up its controller if it is the current one.
unfoldable pub finish_recovery : MatchController → ℕ → MatchController
finish_recovery m i =
    let ended = record m { recoveries = remove_recovery i m.recoveries } in
    if is_value m.recover_abort i
    then record ended { recover_in_flight = false; recover_abort = none }
    else ended

-- `ensureFreshSession` has answered. Without a session the session controller clears its state,
-- which resets this controller's connection (features/home/state/home-runtime.ts).
unfoldable pub recover_ensured :
    MatchController → Recovery → Option AuthSessionSnapshot → MatchController
unfolding dispatch_matchmaking finish_recovery reset_connection_state
recover_ensured m r none =
    let failed = dispatch_matchmaking m (recover_failed r.request_id) in
    let cleared = record failed {
      log = clears_auth "Session expired. Please sign in again." ∷ failed.log;
    } in
    finish_recovery (reset_connection_state cleared) r.request_id
recover_ensured m r (some session) =
    let target =
      or_text m.state.active_match_id (or_else (snapshot_match_id m.state.snapshot) "") in
    if truthy target
    then record m {
      recoveries = record r { stage = fetching target } ∷ remove_recovery r.request_id m.recoveries;
    }
    else finish_recovery (dispatch_matchmaking m (recover_failed r.request_id)) r.request_id

-- A match that is gone: the text says why.
recover_abandoned : MatchController → Recovery → String → MatchController
unfolding patch_state dispatch_matchmaking finish_recovery
recover_abandoned m r issue =
    let patched = patch_state m (record (m.state) { snapshot = none; connection_issue = issue }) in
    finish_recovery
      (dispatch_matchmaking patched
        (recover_resolved r.request_id r.intent RecoverOutcome.abandoned false))
      r.request_id

recover_connectable :
    MatchController → Recovery → Option AuthSessionSnapshot → Assignment → MatchController
unfolding dispatch_matchmaking finish_recovery connect_to_assigned_game
recover_connectable m r none a =
    finish_recovery (dispatch_matchmaking m (recover_failed r.request_id)) r.request_id
recover_connectable m r (some session) a =
    finish_recovery
      (connect_to_assigned_game
        (dispatch_matchmaking m (
          recover_resolved r.request_id r.intent RecoverOutcome.matched (is_some m.state.snapshot)))
        session a)
      r.request_id

-- `fetchMatchSession` has answered; `playable` is the session controller's session at that time.
unfoldable pub recover_fetched :
    MatchController → Recovery → Option AuthSessionSnapshot → MatchSessionResponse → MatchController
unfolding recover_connectable recover_abandoned
recover_fetched m r playable (live_connectable a) = recover_connectable m r playable a
recover_fetched m r playable (history match_id snapshot) =
    let patched = patch_state m (record (m.state) {
      snapshot = snapshot;
      active_match_id = match_id;
      connection_issue = "";
    }) in
    finish_recovery
      (dispatch_matchmaking patched
        (recover_resolved r.request_id r.intent RecoverOutcome.ready true))
      r.request_id
recover_fetched m r playable (replaced match_id replacement_match_id) =
    recover_abandoned m r "This match was replaced by another session."
recover_fetched m r playable (live_auth_required match_id) =
    recover_abandoned m r "Match unavailable."
recover_fetched m r playable (missing match_id) = recover_abandoned m r "Match unavailable."
recover_fetched m r playable (forbidden match_id) = recover_abandoned m r "Match unavailable."

-- The `catch` block: one of the two has failed, or the controller was aborted.
unfoldable pub recover_rejected : MatchController → Recovery → MatchController
unfolding dispatch_matchmaking finish_recovery
recover_rejected m r =
    finish_recovery (dispatch_matchmaking m (recover_failed r.request_id)) r.request_id

-- The most times that the first snapshot's timer starts a recovery.
abbrev pub max_first_snapshot_attempts : ℕ
max_first_snapshot_attempts = 3

-- The timer of the first snapshot has run out, with the match that it was started for. (A timer
-- that has fired is as good as cleared.)
unfoldable pub first_snapshot_retry : MatchController → Option AuthSessionSnapshot → MatchController
unfolding patch_state dispatch_matchmaking start_recover close_socket
first_snapshot_retry m session =
    let shut = close_socket m in
    let patched = patch_state shut (record (shut.state) {
      connected = false;
      connection_issue = "Still trying to join the live match...";
    }) in
    let abandoned =
      dispatch_matchmaking patched (set_status MatchmakingStatus.abandoned (some false)) in
    let given_up = patch_state abandoned (record (abandoned.state) {
      connection_issue = "Could not join the live match. Please retry.";
    }) in
    let again = record patched {
      first_snapshot_recover_attempts = patched.first_snapshot_recover_attempts + 1;
    } in
    elim session [
      | none ↦ given_up
      | some s ↦
          if leb max_first_snapshot_attempts patched.first_snapshot_recover_attempts
          then given_up
          else start_recover (dispatch_matchmaking again ws_closed) s
    ]

unfoldable pub first_snapshot_timer :
    MatchController → String → Option AuthSessionSnapshot → MatchController
unfolding first_snapshot_retry
first_snapshot_timer m target playable =
    let fired = record m { first_snapshot_timeout = none } in
    if m.destroyed || is_value (snapshot_match_id m.state.snapshot) target
    then fired
    else first_snapshot_retry fired (or_option m.active_session playable)

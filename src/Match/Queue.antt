-- ===== src/Match/Queue.antt =====
-- features/matchmaking/controllers/match-controller.ts: the queue, practice, and the calls of the
-- other controllers. `join_queue` and `start_singleplayer` run up to their first `await`; a queue
-- is named by the number of its abort controller.
use geoduels.Base.{
  ℕ, suc, String, Bool, true, false, Option, none, some, if◌then◌else◌, nat_eq, truthy, or_text,
  ◌&&◌, ◌∷◌, is_value,
}
use geoduels.Matchmaking.{
  MatchmakingStatus, set_status, join_requested, leave_requested, match_found,
}
use geoduels.Matchmaking
use geoduels.Session.{AuthSessionSnapshot}
use geoduels.MatchSession.{Assignment, QueueEvent}
use geoduels.Match.State.{
  MatchController, plays, patch_state, dispatch_matchmaking, abort_recover, abort_queue,
}
use geoduels.Match.Recover.{connect_to_assigned_game}

unfoldable pub set_queue_error : MatchController → String → MatchController
set_queue_error m message = patch_state m (record (m.state) { queue_error = message })

-- `playMatchFoundSfx`.
unfoldable pub play_match_found_sfx : MatchController → MatchController
play_match_found_sfx m = record m { log = plays "duel-game-start" ∷ m.log }

-- The `finally` blocks' release of the controller, if it is the current one.
unfoldable pub release_queue : MatchController → ℕ → MatchController
release_queue m q = if is_value m.queue_abort q then record m { queue_abort = none } else m

-- A new controller for a queue, which is the current one.
unfoldable pub new_queue : MatchController → MatchController
new_queue m = record m { queues = suc m.queues; queue_abort = some (suc m.queues) }

-- `joinQueue`.
unfoldable pub join_queue : MatchController → MatchController
unfolding new_queue abort_recover abort_queue
join_queue m = new_queue (set_queue_error (abort_queue (abort_recover m)) "")

-- `getPlayableSession` has answered for queue `q`. The controller's signal is not looked at.
unfoldable pub queue_session :
    MatchController → ℕ → Option AuthSessionSnapshot → ℕ → MatchController
queue_session m q none now =
    release_queue
      (dispatch_matchmaking (set_queue_error m "Unable to create session") Matchmaking.queue_error)
      q
queue_session m q (some session) now = dispatch_matchmaking m (join_requested (some now))

-- The callback of `streamQueue`. On an error it throws, which rejects the stream.
unfoldable pub queue_event : MatchController → AuthSessionSnapshot → QueueEvent → MatchController
unfolding play_match_found_sfx
queue_event m session (QueueEvent.queue_status status queued_at) =
    dispatch_matchmaking m (Matchmaking.queue_status status queued_at)
queue_event m session (QueueEvent.match_assigned a) =
    let found = record (dispatch_matchmaking m match_found) { queue_abort = none } in
    let told = play_match_found_sfx (set_queue_error found "") in
    if truthy a.node && truthy a.ticket then connect_to_assigned_game told session a else told
queue_event m session (QueueEvent.queue_error message) = m

-- The stream has ended: resolved, or rejected by an abort (`none`) or by an error with its message.
unfoldable pub queue_resolved : MatchController → ℕ → MatchController
queue_resolved m q = release_queue m q

unfoldable pub queue_rejected : MatchController → ℕ → Option String → MatchController
queue_rejected m q none = release_queue m q
queue_rejected m q (some message) =
    release_queue
      (dispatch_matchmaking (set_queue_error m (or_text message "Queue failed"))
        Matchmaking.queue_error)
      q

-- `startSingleplayer`.
unfoldable pub start_singleplayer : MatchController → MatchController
unfolding new_queue abort_recover abort_queue
start_singleplayer m =
    let aborted = abort_queue (abort_recover (record m { singleplayer_start_in_flight = true })) in
    let patched =
      patch_state aborted (record (aborted.state) { queue_error = ""; connection_issue = "" }) in
    if m.singleplayer_start_in_flight
    then m
    else new_queue
        (dispatch_matchmaking patched (set_status MatchmakingStatus.matched_connecting none))

unfoldable pub finish_singleplayer : MatchController → ℕ → MatchController
finish_singleplayer m q = release_queue (record m { singleplayer_start_in_flight = false }) q

unfoldable pub singleplayer_failed : MatchController → ℕ → String → MatchController
unfolding finish_singleplayer
singleplayer_failed m q message =
    finish_singleplayer
      (dispatch_matchmaking (set_queue_error m message) (set_status MatchmakingStatus.ready none)) q

unfoldable pub singleplayer_session :
    MatchController → ℕ → Option AuthSessionSnapshot → MatchController
unfolding singleplayer_failed
singleplayer_session m q none = singleplayer_failed m q "Unable to create session"
singleplayer_session m q (some session) = m

unfoldable pub singleplayer_assigned :
    MatchController → ℕ → AuthSessionSnapshot → Assignment → MatchController
unfolding singleplayer_failed finish_singleplayer
singleplayer_assigned m q session a =
    if truthy a.node && truthy a.ticket
    then if is_value m.queue_abort q
      then finish_singleplayer (connect_to_assigned_game m session a) q
      else finish_singleplayer m q
    else singleplayer_failed m q "Singleplayer unavailable"

-- `none` is an abort.
unfoldable pub singleplayer_rejected : MatchController → ℕ → Option String → MatchController
unfolding singleplayer_failed finish_singleplayer
singleplayer_rejected m q none = finish_singleplayer m q
singleplayer_rejected m q (some message) =
    singleplayer_failed m q (or_text message "Singleplayer unavailable")

-- `cancelQueue`, with the session controller's session.
unfoldable pub cancel_queue : MatchController → Option AuthSessionSnapshot → MatchController
unfolding abort_recover abort_queue
cancel_queue m none = m
cancel_queue m (some session) =
    set_queue_error (dispatch_matchmaking (abort_queue (abort_recover m)) leave_requested) ""

-- `resumeResolvedMatch`, from when the session is known; `false` is no connection.
unfoldable pub resume_resolved_match :
    MatchController → Option AuthSessionSnapshot → Assignment → Bool → MatchController × Bool
unfolding play_match_found_sfx
resume_resolved_match m none a play = (m, false)
resume_resolved_match m (some session) a play =
    let patched = patch_state m (record (m.state) { queue_error = ""; connection_issue = "" }) in
    let set = dispatch_matchmaking patched (set_status MatchmakingStatus.matched_connecting none) in
    let told = (if play then play_match_found_sfx set else set) in
    if truthy a.node && truthy a.ticket
    then (connect_to_assigned_game told session a, true)
    else (m, false)

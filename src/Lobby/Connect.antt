-- ===== src/Lobby/Connect.antt =====
-- features/lobby/controllers/lobby-controller.ts: `connectToLobby`, what its stream's events and its
-- end do, and the match of a started lobby. `session` is the session controller's of that moment.
use geoduels.Base.{
  ℕ, suc, String, Bool, true, false, Option, none, some, ◌∷◌, if◌then◌else◌, ◌==◌, string_eq,
  nat_eq, is_some, truthy, or_text, or_else, not, ◌&&◌, ◌||◌, lower, includes,
}
use geoduels.Session.{AuthSessionSnapshot}
use geoduels.MatchSession.{Assignment, MatchSessionResponse, live_connectable}
use geoduels.Lobby.Types.{
  LobbySnapshot, LobbyState, LobbyEvent, lobby_snapshot, lobby_patch, match_assigned, lobby_error,
  in_match, started,
}
use geoduels.Lobby.Patch.{apply_lobby_patch}
use geoduels.Lobby.Stream.{Outcome, resolved, rejected, aborted}
use geoduels.Lobby.Stream
use geoduels.Lobby.Controller.{
  LobbyController, LobbyRuntimeStatus, connecting, readied, reconnecting, failed, fulfilled,
  refused, Request, new_request, streams, resumes, fetches, patch_state, patch_snapshot,
  update_request, abort_stream, start_presence_loop, start_poll_loop, stop_poll_loop,
  clear_reconnect_timer, schedule_reconnect, reset,
}

abbrev connect_status : Bool → Option LobbySnapshot → LobbyRuntimeStatus
connect_status true o = connecting
connect_status false none = connecting
connect_status false (some lobby) = reconnecting

-- The part of `connectToLobby` that makes the request, up to the stream.
unfoldable pub open_request : LobbyController → AuthSessionSnapshot → Bool → LobbyController
unfolding update_request new_request
open_request c session waits =
    let id = suc c.connect_request_id in
    update_request
      (record c { connect_request_id = id; stream_abort = some id; stream_session = some session })
      id (new_request waits)

unfoldable pub connect_to_lobby :
    LobbyController → AuthSessionSnapshot → String → Bool → LobbyController
unfolding clear_reconnect_timer abort_stream open_request patch_state
connect_to_lobby c session lobby_id waits =
    let opened = open_request (abort_stream (clear_reconnect_timer c)) session waits in
    let shown =
      patch_state opened (record (opened.state) {
        status = connect_status waits opened.state.snapshot;
        error = "";
      }) in
    record shown { log = streams lobby_id session.access_token ∷ shown.log }

-- `readyReject?.(error)` and `readyResolve?.()`: a promise that has ended stays as it ended.
unfoldable pub refuse : Request → String → Request
refuse r text =
    if r.is_waited && not (is_some r.ready) then record r { ready = some (refused text) } else r

unfoldable pub fulfil : Request → Request
fulfil r = record r {
  ready = if r.is_waited && not (is_some r.ready) then some fulfilled else r.ready;
  is_waited = false;
}

abbrev pub stopped : Request → Request
stopped r = record r { timer = false }

unfoldable pub stop_timer : LobbyController → ℕ → LobbyController
unfolding update_request
stop_timer c i = update_request c i (stopped (c.requests i))

-- The timeout of request `i`.
unfoldable pub time_out : LobbyController → ℕ → LobbyController
unfolding update_request refuse Stream.abort
time_out c i =
    let r = refuse (stopped (c.requests i)) "Lobby connection timed out" in
    if (c.requests i).timer
    then update_request c i (record r { stream = Stream.abort r.stream })
    else c

abbrev is_started : LobbyState → Bool
is_started in_match = true
is_started started = true
is_started _ = false

abbrev pub started_match : LobbySnapshot → String
started_match lobby =
    or_text (or_else lobby.active_match_id "") (or_text (or_else lobby.started_match_id "") "")

-- `handleStartedLobby` up to its answer.
unfoldable pub handle_started_lobby : LobbyController → LobbySnapshot → ℕ → LobbyController
handle_started_lobby c lobby i =
    let match_id = started_match lobby in
    if not (truthy match_id)
      || c.handled_match_id == match_id
      || not (is_started lobby.state)
      || not (is_some c.stream_session)
    then c
    else record c { log = fetches match_id i ∷ c.log }

-- Its answer; a failure changes nothing.
unfoldable pub started_answered : LobbyController → MatchSessionResponse → LobbyController
started_answered c (live_connectable assignment) = record c { log = resumes assignment ∷ c.log }
started_answered c _ = c

-- The match controller's answer to that.
unfoldable pub started_resumed : LobbyController → String → Bool → LobbyController
started_resumed c match_id connected =
    if connected then record c { handled_match_id = match_id } else c

-- A snapshot and a patch of the stream of the latest request.
unfoldable pub receive_snapshot :
    LobbyController → ℕ → Option AuthSessionSnapshot → LobbySnapshot → LobbyController
unfolding stop_timer stop_poll_loop start_presence_loop patch_snapshot handle_started_lobby
    update_request fulfil
receive_snapshot c i session lobby =
    let timed = record (stop_timer c i) { reconnect_attempt = 0 } in
    let looped = start_presence_loop (stop_poll_loop timed) session in
    let handled = handle_started_lobby (patch_snapshot looped lobby readied) lobby i in
    update_request handled i (fulfil (handled.requests i))

unfoldable pub receive_patched :
    LobbyController → ℕ → Option AuthSessionSnapshot → Option LobbySnapshot → LobbyController
unfolding start_presence_loop patch_snapshot handle_started_lobby
receive_patched c i session none = c
receive_patched c i session (some next) =
    let looped = start_presence_loop (record c { reconnect_attempt = 0 }) session in
    handle_started_lobby (patch_snapshot looped next readied) next i

unfoldable pub receive_assignment : LobbyController → Assignment → LobbyController
receive_assignment c assignment =
    if c.handled_match_id == assignment.match_id
    then c
    else record c { handled_match_id = assignment.match_id; log = resumes assignment ∷ c.log }

unfoldable pub receive_error : LobbyController → ℕ → String → LobbyController
unfolding stop_timer patch_state reset update_request refuse
receive_error c i text =
    let timed = stop_timer c i in
    let told = patch_state timed (record (timed.state) { status = failed; error = text }) in
    let left = if includes (lower text) "left this lobby" then reset told else told in
    update_request left i (refuse (left.requests i) text)

receive : LobbyController → ℕ → Option AuthSessionSnapshot → LobbyEvent → LobbyController
unfolding receive_snapshot receive_patched receive_assignment receive_error apply_lobby_patch
receive c i session (lobby_snapshot lobby) = receive_snapshot c i session lobby
receive c i session (lobby_patch patch) =
    receive_patched c i session (apply_lobby_patch c.state.snapshot patch)
receive c i session (match_assigned assignment) = receive_assignment c assignment
receive c i session (lobby_error text) = receive_error c i text

-- An event of stream `i`.
unfoldable pub on_event :
    LobbyController → ℕ → Option AuthSessionSnapshot → LobbyEvent → LobbyController
unfolding receive
on_event c i session e = if i == c.connect_request_id then receive c i session e else c

-- The lobby is shown as reconnecting, is polled, and is connected to again later.
unfoldable pub recover : LobbyController → LobbyController
unfolding start_poll_loop schedule_reconnect
recover c =
    if is_some c.state.snapshot && truthy c.state.lobby_id
    then schedule_reconnect (start_poll_loop c)
    else c

-- The stream of the latest request ended without an error.
unfoldable pub stream_closed : LobbyController → ℕ → LobbyController
unfolding stop_timer update_request refuse patch_state recover
stream_closed c i =
    let timed = stop_timer c i in
    if (c.requests i).is_waited
    then update_request timed i (refuse (timed.requests i) "Lobby connection closed")
    else if is_some c.state.snapshot && truthy c.state.lobby_id
    then recover (patch_state c (record (c.state) { status = reconnecting }))
    else c

-- It failed, with an error that is not an abort.
unfoldable pub stream_failed : LobbyController → ℕ → String → LobbyController
unfolding stop_timer update_request refuse patch_state recover
stream_failed c i error =
    let text = or_text error "Lobby connection failed" in
    let timed = stop_timer c i in
    let told = patch_state timed (record (timed.state) {
      status = if is_some c.state.snapshot then reconnecting else failed;
      error = text;
    }) in
    let answered = update_request told i (refuse (told.requests i) error) in
    if (c.requests i).is_waited then answered else recover answered

end : LobbyController → ℕ → Outcome → LobbyController
unfolding stream_closed stream_failed
end c i resolved = stream_closed c i
end c i (rejected error) = stream_failed c i error
end c i aborted = c

-- What follows the end of stream `i`.
unfoldable pub on_outcome : LobbyController → ℕ → Outcome → LobbyController
unfolding end
on_outcome c i o = if i == c.connect_request_id then end c i o else c

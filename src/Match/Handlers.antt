-- ===== src/Match/Handlers.antt =====
-- features/matchmaking/controllers/match-controller.ts: the handlers that the constructor hands to
-- the socket client, and the heartbeat.
use geoduels.Base.{
  String, ℕ, ◌+◌, max, Bool, true, false, Option, none, some, List, [], ◌∷◌, if◌then◌else◌, ◌==◌,
  string_eq, truthy, or_text, ltb, ◌&&◌, ◌||◌, is_some,
}
use geoduels.Matchmaking.{game_connected, ws_closed}
use geoduels.Snapshot.{Snapshot}
use geoduels.Session.{AuthSessionSnapshot}
use geoduels.Config.{RuntimeConfig}
use geoduels.Command.{ping, SendGameCommandOptions}
use geoduels.Socket
use geoduels.Socket.{
  SocketEvent, HandlerCall, on_open, on_close, on_error, on_activity, on_snapshot, on_ack_error,
  on_protocol_error,
}
use geoduels.Match.State.{
  MatchController, patch_state, dispatch_matchmaking, note_server_activity,
  mark_connection_unhealthy, send_game_command,
}
use geoduels.Match.Recover.{start_recover}

abbrev pub quiet_options : SendGameCommandOptions
quiet_options = record { error_message = none; force_reconnect = true; silent = true }

-- `activeSession?.userId || ''`.
abbrev pub session_user : Option AuthSessionSnapshot → String
session_user none = ""
session_user (some session) = session.user_id

unfoldable pub recover_if_signed_in : MatchController → Option AuthSessionSnapshot → MatchController
recover_if_signed_in m none = m
recover_if_signed_in m (some session) = start_recover m session

-- `onSnapshot`'s first test: a snapshot of the match at hand that is older than the one at hand.
unfoldable pub is_outdated : Option Snapshot → Snapshot → Bool
is_outdated none next = false
is_outdated (some current) next =
    current.match_id == next.match_id && ltb next.event_sequence current.event_sequence

-- The first snapshot of the awaited match stops its timer and ends the count of attempts.
unfoldable pub first_snapshot_seen : MatchController → Snapshot → MatchController
first_snapshot_seen m snapshot =
    if truthy snapshot.match_id && snapshot.match_id == m.awaiting_first_snapshot_match_id
    then record m {
      first_snapshot_timeout = none;
      awaiting_first_snapshot_match_id = "";
      first_snapshot_recover_attempts = 0;
    }
    else m

module _ (config : RuntimeConfig) where
  -- `onOpen`.
  unfoldable pub handle_open : MatchController → ℕ → MatchController
  handle_open m now =
      let noted = record m { last_socket_opened_at = now } in
      let patched =
        patch_state noted (record (noted.state) { connected = false; connection_issue = "" }) in
      (send_game_command config (dispatch_matchmaking patched game_connected) (ping none)
        quiet_options).0

  -- `onClose`.
  unfoldable pub handle_close : MatchController → Bool → MatchController
  unfolding recover_if_signed_in
  handle_close m expected =
      let patched = patch_state m (record (m.state) { connected = false }) in
      let marked =
        patch_state patched
          (record (patched.state) { connection_issue = config.game_connection_error_message }) in
      if expected
      then patched
      else if is_some patched.state.snapshot || truthy patched.state.active_match_id
      then recover_if_signed_in (dispatch_matchmaking marked ws_closed) m.active_session
      else patched

  -- `onSnapshot`.
  unfoldable pub handle_snapshot : MatchController → Snapshot → ℕ → MatchController
  unfolding patch_state
  handle_snapshot m snapshot now =
      let noted = note_server_activity config (first_snapshot_seen m snapshot) now in
      if is_outdated m.state.snapshot snapshot
      then m
      else patch_state noted (record (noted.state) {
        active_match_id = or_text snapshot.match_id noted.state.active_match_id;
        snapshot = some snapshot;
      })

  -- One call of a handler.
  unfoldable pub handle : MatchController → HandlerCall → ℕ → MatchController
  handle m on_open now = handle_open m now
  handle m (on_close expected) now = handle_close m expected
  handle m on_error now =
      mark_connection_unhealthy config m config.game_connection_error_message false
  handle m on_activity now = note_server_activity config m now
  handle m (on_snapshot snapshot) now = handle_snapshot m snapshot now
  handle m (on_ack_error message) now = patch_state m (record (m.state) { queue_error = message })
  handle m on_protocol_error now =
      mark_connection_unhealthy config m config.game_connection_error_message true

  unfoldable pub handle_all : MatchController → List HandlerCall → ℕ → MatchController
  handle_all m [] now = m
  handle_all m (call ∷ calls) now = handle_all (handle m call now) calls now

  -- An event of socket `i` at time `now`, with the handler calls that the client makes for it.
  unfoldable pub socket_event : MatchController → ℕ → SocketEvent → ℕ → MatchController
  socket_event m i e now =
      let (client, calls) = Socket.on_event m.socket_client i e in
      handle_all (record m { socket_client = client }) calls now

  -- A tick of `startHeartbeat`'s interval. `now - lastSeen > limit` is `lastSeen + limit < now`.
  unfoldable pub heartbeat : MatchController → ℕ → MatchController
  heartbeat m now =
      let last_seen = max m.last_socket_opened_at m.last_server_seen_at in
      if Socket.is_open m.socket_client
      then if ltb 0 last_seen && ltb (last_seen + config.socket_stale_after_ms) now
        then mark_connection_unhealthy config m config.connection_error_message true
        else (send_game_command config m (ping (some (session_user m.active_session)))
            quiet_options).0
      else m

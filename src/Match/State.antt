-- ===== src/Match/State.antt =====
-- features/matchmaking/controllers/match-controller.ts: the fields of `MatchController` and the
-- methods that the others build on. An abort controller is named by a number: a recovery's by its
-- request, a queue's by its own count. `log` holds what the controller did to the outside, newest
-- first, and `emitted` counts the calls of `emit`.
use geoduels.Base.{
  ℕ, suc, String, Bool, true, false, not, Option, none, some, List, [], ◌∷◌, if◌then◌else◌, ◌==◌,
  string_eq, nat_eq, truthy, or_else, ◌&&◌, is_some,
}
use geoduels.Matchmaking.{
  MatchmakingState, MatchmakingAction, matchmaking_reducer, initial_matchmaking_state, is_queueing,
}
use geoduels.Snapshot.{Snapshot}
use geoduels.Session.{AuthSessionSnapshot}
use geoduels.Config.{RuntimeConfig}
use geoduels.Command.{Command, SendGameCommandOptions}
use geoduels.Socket
use geoduels.Socket.{SocketClient}

pub record MatchState : Type 0 where
  pub matchmaking : MatchmakingState
  pub connected : Bool
  pub snapshot : Option Snapshot
  pub active_match_id : String
  pub source_lobby_id : String
  pub source_lobby_invite_code : String
  pub queue_error : String
  pub connection_issue : String

unfoldable pub initial_state : MatchState
unfolding initial_matchmaking_state
initial_state = record {
  matchmaking = initial_matchmaking_state;
  connected = false;
  snapshot = none;
  active_match_id = "";
  source_lobby_id = "";
  source_lobby_invite_code = "";
  queue_error = "";
  connection_issue = "";
}

-- What the controller does to the outside.
pub data Effect : Type 0 where
  sends : Command → Effect
  plays : String → Effect
  clears_auth : String → Effect

-- Where a recovery waits: for the session, or for the answer about a match.
pub data Stage : Type 0 where
  ensuring : Stage
  fetching : String → Stage

-- A recovery that has not ended: a suspended call of `startRecover`.
pub record Recovery : Type 0 where
  pub request_id : ℕ
  pub intent : ℕ
  pub stage : Stage

pub record MatchController : Type 0 where
  pub state : MatchState
  pub auto_recover_enabled : Bool
  pub active_session : Option AuthSessionSnapshot
  pub recover_in_flight : Bool
  pub recover_request_id : ℕ
  pub recover_abort : Option ℕ
  pub queue_abort : Option ℕ
  pub singleplayer_start_in_flight : Bool
  pub last_socket_opened_at : ℕ
  pub last_server_seen_at : ℕ
  pub heartbeat_interval : Bool
  pub first_snapshot_timeout : Option String
  pub awaiting_first_snapshot_match_id : String
  pub first_snapshot_recover_attempts : ℕ
  pub destroyed : Bool
  pub started : Bool
  pub socket_client : SocketClient
  pub recoveries : List Recovery
  pub aborted_recoveries : List ℕ
  pub queues : ℕ
  pub aborted_queues : List ℕ
  pub log : List Effect
  pub emitted : ℕ

-- A controller as the constructor leaves it.
unfoldable pub new_controller : MatchController
unfolding initial_state Socket.fresh_client
new_controller = record {
  state = initial_state;
  auto_recover_enabled = true;
  active_session = none;
  recover_in_flight = false;
  recover_request_id = 0;
  recover_abort = none;
  queue_abort = none;
  singleplayer_start_in_flight = false;
  last_socket_opened_at = 0;
  last_server_seen_at = 0;
  heartbeat_interval = false;
  first_snapshot_timeout = none;
  awaiting_first_snapshot_match_id = "";
  first_snapshot_recover_attempts = 0;
  destroyed = false;
  started = false;
  socket_client = Socket.fresh_client;
  recoveries = [];
  aborted_recoveries = [];
  queues = 0;
  aborted_queues = [];
  log = [];
  emitted = 0;
}

-- `patchState`: the new state is there before the listeners run, and none runs once destroyed.
unfoldable pub patch_state : MatchController → MatchState → MatchController
patch_state m s = record m { state = s; emitted = if m.destroyed then m.emitted else suc m.emitted }

-- `dispatchMatchmaking`.
unfoldable pub dispatch_matchmaking : MatchController → MatchmakingAction → MatchController
unfolding patch_state
dispatch_matchmaking m action =
    patch_state m
      (record (m.state) { matchmaking = matchmaking_reducer m.state.matchmaking action })

-- `socketClient.close()`.
unfoldable pub close_socket : MatchController → MatchController
close_socket m = record m { socket_client = Socket.close m.socket_client true }

-- `clearFirstSnapshotTimeout`.
unfoldable pub clear_first_snapshot_timeout : MatchController → MatchController
clear_first_snapshot_timeout m = record m { first_snapshot_timeout = none }

-- `recoverAbort?.abort()` and `queueAbort?.abort()`.
abbrev pub add_some : Option ℕ → List ℕ → List ℕ
add_some none l = l
add_some (some i) l = i ∷ l

unfoldable pub abort_recover : MatchController → MatchController
abort_recover m = record m { aborted_recoveries = add_some m.recover_abort m.aborted_recoveries }

unfoldable pub abort_queue : MatchController → MatchController
abort_queue m = record m { aborted_queues = add_some m.queue_abort m.aborted_queues }

-- `clearRecoverTracking`.
unfoldable pub clear_recover_tracking : MatchController → MatchController
unfolding patch_state
clear_recover_tracking m =
    let cleared = record m { recover_in_flight = false; recover_abort = none } in
    if is_some m.state.matchmaking.active_recover_request_id
    then patch_state cleared (record (m.state) {
      matchmaking = record (m.state.matchmaking) { active_recover_request_id = none };
    })
    else cleared

module _ (config : RuntimeConfig) where
  -- `noteServerActivity`, with the time of the call.
  unfoldable pub note_server_activity : MatchController → ℕ → MatchController
  unfolding patch_state
  note_server_activity m now =
      let seen = record m { last_server_seen_at = now } in
      let next_queue_error =
        (if m.state.queue_error == config.connection_error_message
          then ""
          else m.state.queue_error) in
      if m.state.connected
        && not (truthy m.state.connection_issue)
        && m.state.queue_error == next_queue_error
      then seen
      else patch_state seen (record (m.state) {
        connected = true;
        connection_issue = "";
        queue_error = next_queue_error;
      })

  -- `markConnectionUnhealthy`.
  unfoldable pub mark_connection_unhealthy : MatchController → String → Bool → MatchController
  unfolding patch_state close_socket
  mark_connection_unhealthy m message force_reconnect =
      let marked = patch_state m (record (m.state) {
        connected = false;
        connection_issue = message;
        queue_error =
            if is_queueing m.state.matchmaking.status then message else m.state.queue_error;
      }) in
      if force_reconnect && Socket.is_open_or_connecting m.socket_client
      then close_socket marked
      else marked

  -- `sendGameCommand`: whether the command went out, and the controller after it.
  unfoldable pub send_game_command :
      MatchController → Command → SendGameCommandOptions → MatchController × Bool
  unfolding mark_connection_unhealthy
  send_game_command m command options =
      if Socket.is_open m.socket_client then (record m { log = sends command ∷ m.log }, true) else (
        (if options.silent
            then m
            else mark_connection_unhealthy m
                (or_else options.error_message config.connection_error_message)
                options.force_reconnect),
        false,
      )

-- `resetConnectionState`.
unfoldable pub reset_connection_state : MatchController → MatchController
unfolding patch_state close_socket clear_first_snapshot_timeout abort_queue clear_recover_tracking
    abort_recover
reset_connection_state m =
    let quiet =
      close_socket
        (clear_first_snapshot_timeout (abort_queue (clear_recover_tracking (abort_recover m)))) in
    let forgotten = record quiet {
      active_session = none;
      last_socket_opened_at = 0;
      last_server_seen_at = 0;
    } in
    patch_state forgotten (record (forgotten.state) {
      connected = false;
      snapshot = none;
      active_match_id = "";
      source_lobby_id = "";
      source_lobby_invite_code = "";
      queue_error = "";
      connection_issue = "";
    })

-- `setAutoRecoverEnabled`.
unfoldable pub set_auto_recover_enabled : MatchController → Bool → MatchController
unfolding clear_recover_tracking abort_recover
set_auto_recover_enabled m enabled =
    let set = record m { auto_recover_enabled = enabled } in
    if enabled then set else clear_recover_tracking (abort_recover set)

-- `start`, in a browser.
unfoldable pub start : MatchController → MatchController
start m =
    if m.started
    then m
    else record m { destroyed = false; started = true; heartbeat_interval = true }

-- `destroy`.
unfoldable pub destroy : MatchController → MatchController
unfolding close_socket clear_first_snapshot_timeout abort_queue clear_recover_tracking abort_recover
destroy m =
    let stopped = record m { destroyed = true; started = false } in
    let quiet = close_socket (
      clear_first_snapshot_timeout
        (abort_queue (clear_recover_tracking (abort_recover stopped)))) in
    record quiet { heartbeat_interval = false }

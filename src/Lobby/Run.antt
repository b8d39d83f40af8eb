-- ===== src/Lobby/Run.antt =====
-- features/lobby/controllers/lobby-controller.ts and features/lobby/lib/lobby-client.ts: what can
-- happen to a controller and to the websockets of its streams.
use geoduels.Base.{ℕ, String, Bool, Option, none, some}
use geoduels.Session.{AuthSessionSnapshot}
use geoduels.MatchSession.{Assignment, MatchSessionResponse}
use geoduels.Lobby.Types.{LobbySnapshot, LobbyEvent}
use geoduels.Lobby.Stream.{LobbyData, LobbyStream, Outcome}
use geoduels.Lobby.Stream
use geoduels.Lobby.Controller.{
  LobbyController, LobbyRequest, Ready, new_controller, update_request, presence_tick, poll,
  poll_answered, reset, destroy,
}
use geoduels.Lobby.Connect.{on_event, on_outcome, time_out, started_answered, started_resumed}
use geoduels.Lobby.Calls.{
  ensure_lobby, ensure_answered, ensure_failed, create_lobby, join_lobby, playable_session,
  enter_lobby, entered, enter_failed, leave_lobby, left, leave_failed, LobbyCommand, command,
  command_answered, start_answered, command_failed, reconnect_fires,
}

pub data SocketEvent : Type 0 where
  errs closes : SocketEvent
  receives : LobbyData → SocketEvent

abbrev pub set_stream : LobbyController → ℕ → LobbyStream → LobbyController
set_stream c i w = update_request c i (record (c.requests i) { stream = w })

unfoldable pub deliver :
    LobbyController → ℕ → Option AuthSessionSnapshot → Option LobbyEvent → LobbyController
unfolding on_event
deliver c i session none = c
deliver c i session (some e) = on_event c i session e

-- An event of stream `i`'s websocket.
unfoldable pub on_socket :
    LobbyController → ℕ → Option AuthSessionSnapshot → SocketEvent → LobbyController
unfolding deliver Stream.on_error Stream.on_close Stream.on_message update_request
on_socket c i session errs = set_stream c i (Stream.on_error (c.requests i).stream)
on_socket c i session closes = set_stream c i (Stream.on_close (c.requests i).stream)
on_socket c i session (receives d) =
    let (w, e) = Stream.on_message (c.requests i).stream d in deliver (set_stream c i w) i session e

unfoldable pub react_to : LobbyController → ℕ → Option Outcome → LobbyController
unfolding on_outcome
react_to c i none = c
react_to c i (some o) = on_outcome c i o

-- The reaction to the end of stream `i`'s promise, where it has ended.
unfoldable pub react : LobbyController → ℕ → LobbyController
unfolding react_to
react c i = react_to c i (c.requests i).stream.settled

pub data LobbyCall : Type 0 where
  ensures : String → Option AuthSessionSnapshot → LobbyCall
  ensure_answers : Option LobbySnapshot → Option AuthSessionSnapshot → LobbyCall
  ensure_fails leave_fails : String → LobbyCall
  creates leaves_done polls resets destroys : LobbyCall
  joins : String → LobbyCall
  plays : LobbyRequest → Option AuthSessionSnapshot → LobbyCall
  enters : AuthSessionSnapshot → LobbySnapshot → LobbyCall
  ends_wait : String → Ready → LobbyCall
  enter_fails : String → String → LobbyCall
  leaves ticks reconnects : Option AuthSessionSnapshot → LobbyCall
  commands : LobbyCommand → Option AuthSessionSnapshot → LobbyCall
  command_answers : LobbySnapshot → LobbyCall
  start_answers : Assignment → LobbyCall
  command_fails : LobbyCommand → String → LobbyCall
  poll_answers : Option LobbySnapshot → LobbyCall
  times_out reacts : ℕ → LobbyCall
  socket : ℕ → Option AuthSessionSnapshot → SocketEvent → LobbyCall
  started_answers : MatchSessionResponse → LobbyCall
  started_resumes : String → Bool → LobbyCall

unfoldable pub step : LobbyController → LobbyCall → LobbyController
step c (ensures code s) = ensure_lobby c code s
step c (ensure_answers o s) = ensure_answered c o s
step c (ensure_fails error) = ensure_failed c error
step c (leave_fails error) = leave_failed c error
step c creates = create_lobby c
step c leaves_done = left c
step c polls = poll c
step c resets = reset c
step c destroys = destroy c
step c (joins code) = join_lobby c code
step c (plays request s) = playable_session c request s
step c (enters s lobby) = enter_lobby c s lobby
step c (ends_wait fallback r) = (entered c fallback r).0
step c (enter_fails fallback error) = (enter_failed c fallback error).0
step c (leaves s) = leave_lobby c s
step c (ticks s) = presence_tick c s
step c (reconnects s) = reconnect_fires c s
step c (commands k s) = command c k s
step c (command_answers lobby) = command_answered c lobby
step c (start_answers assignment) = start_answered c assignment
step c (command_fails k error) = command_failed c k error
step c (poll_answers o) = poll_answered c o
step c (times_out i) = time_out c i
step c (reacts i) = react c i
step c (socket i s e) = on_socket c i s e
step c (started_answers r) = started_answered c r
step c (started_resumes id connected) = started_resumed c id connected

-- The controllers that calls, answers and websockets lead to, in any order.
pub data Reach : LobbyController → Type 0 where
  begins : Reach new_controller
  happens : {c : LobbyController} (call : LobbyCall) → Reach c → Reach (step c call)

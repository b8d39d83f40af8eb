-- ===== src/Lobby/Stream.antt =====
-- features/lobby/lib/lobby-client.ts: `streamLobby`, the promise of a lobby's websocket.
use geoduels.Base.{
  String, Bool, true, false, Option, none, some, if◌then◌else◌, string_eq, or_text, is_some,
}
use geoduels.MatchSession.{Assignment}
use geoduels.Lobby.Types.{
  LobbySnapshot, LobbyPatch, LobbyEvent, lobby_snapshot, lobby_patch, match_assigned, lobby_error,
}

-- How the promise ends, with an error's message; an aborted one is told apart by its name.
pub data Outcome : Type 0 where
  resolved : Outcome
  rejected : String → Outcome
  aborted : Outcome

-- `listening` is the listener of the signal, `is_aborted` the signal itself, and `closes` whether
-- the websocket was closed.
pub record LobbyStream : Type 0 where
  pub settled : Option Outcome
  pub is_aborted : Bool
  pub listening : Bool
  pub closes : Bool

unfoldable pub new_stream : LobbyStream
new_stream = record { settled = none; is_aborted = false; listening = true; closes = false }

unfoldable pub settle : LobbyStream → Outcome → LobbyStream
settle w o = if is_some w.settled then w else record w { settled = some o; listening = false }

-- The signal is aborted: the listener, where it is still there, closes the websocket.
unfoldable pub abort : LobbyStream → LobbyStream
unfolding settle
abort w =
    let now = record w { is_aborted = true } in
    if w.is_aborted
    then w
    else if w.listening
    then settle (record now { closes = true }) aborted
    else now

unfoldable pub on_error : LobbyStream → LobbyStream
unfolding settle
on_error w = settle w (rejected "Lobby connection failed")

unfoldable pub on_close : LobbyStream → LobbyStream
unfolding settle
on_close w = if w.is_aborted then settle w aborted else settle w resolved

-- What a message holds: a type with its payload, or something else. A payload is read as it is.
pub data LobbyData : Type 0 where
  not_json : LobbyData
  snapshot_data : LobbySnapshot → LobbyData
  patch_data : LobbyPatch → LobbyData
  assigned_data : Assignment → LobbyData
  error_data : String → LobbyData
  other_data : LobbyData

-- `ws.onmessage`: the stream after it, and the event that is passed on.
unfoldable pub on_message : LobbyStream → LobbyData → LobbyStream × Option LobbyEvent
unfolding settle
on_message w not_json = (settle w (rejected "Lobby connection failed"), none)
on_message w (snapshot_data lobby) = (w, some (lobby_snapshot lobby))
on_message w (patch_data patch) = (w, some (lobby_patch patch))
on_message w (assigned_data assignment) = (w, some (match_assigned assignment))
on_message w (error_data text) = (w, some (lobby_error (or_text text "Lobby unavailable")))
on_message w other_data = (w, none)

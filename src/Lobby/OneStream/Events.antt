-- ===== src/Lobby/OneStream/Events.antt =====
-- features/lobby/controllers/lobby-controller.ts: the events and the ends of streams keep the streams
-- in order.
use geoduels.Base.{
  ℕ, refl, String, Option, none, some, arith, ◌==◌, nat_eq, string_eq, is_some, ◌&&◌, truthy,
  or_text, includes, lower,
}
use geoduels.Session.{AuthSessionSnapshot}
use geoduels.MatchSession.{Assignment}
use geoduels.Lobby.Types.{
  LobbySnapshot, LobbyEvent, lobby_snapshot, lobby_patch, match_assigned, lobby_error,
}
use geoduels.Lobby.Patch.{apply_lobby_patch}
use geoduels.Lobby.Stream.{
  LobbyData, not_json, snapshot_data, patch_data, assigned_data, error_data, other_data,
  LobbyStream, Outcome, resolved, rejected, aborted,
}
use geoduels.Lobby.Stream
use geoduels.Lobby.Controller.{LobbyController, patch_state, start_presence_loop, stop_poll_loop}
use geoduels.Lobby.Connect.{
  stop_timer, receive_snapshot, receive_patched, receive_assignment, receive_error, on_event,
  recover, stream_closed, stream_failed, on_outcome,
}
use geoduels.Lobby.Controller.{readied, failed}
use geoduels.Lobby.OneStream.{settle-IsSound, aborted-settle, on_close-IsSound, aborted-on_close}
use geoduels.Lobby.OneStream.Steps.{
  InOrder, if-InOrder, same-InOrder, account-start_presence_loop, account-recover,
  account-handle_started_lobby, stop_timer-InOrder, refuse-InOrder, fulfil-InOrder, reset-InOrder,
  patch_snapshot-InOrder, patch_state-InOrder, renew-InOrder,
}
use geoduels.Lobby.Run.{on_socket, react, SocketEvent, errs, closes, receives, set_stream}
use geoduels.Lobby.Run

receive_snapshot-InOrder :
    (c : LobbyController) (i : ℕ) (s : Option AuthSessionSnapshot) (l : LobbySnapshot)
    → InOrder c
    → InOrder (receive_snapshot c i s l)
unfolding receive_snapshot
receive_snapshot-InOrder c i s l v =
    let timed = record (stop_timer c i) { reconnect_attempt = 0 } in
    let looped = start_presence_loop (stop_poll_loop timed) s in
    fulfil-InOrder _ i (
      same-InOrder (account-handle_started_lobby _ l i) (
        patch_snapshot-InOrder looped l readied (
          same-InOrder {c = stop_timer c i} (account-start_presence_loop (stop_poll_loop timed) s)
            (stop_timer-InOrder c i v))))

receive_patched-InOrder :
    (c : LobbyController) (i : ℕ) (s : Option AuthSessionSnapshot) (o : Option LobbySnapshot)
    → InOrder c
    → InOrder (receive_patched c i s o)
unfolding receive_patched
receive_patched-InOrder c i s none v = v
receive_patched-InOrder c i s (some l) v =
    let looped = start_presence_loop (record c { reconnect_attempt = 0 }) s in
    same-InOrder (account-handle_started_lobby _ l i) (
      patch_snapshot-InOrder looped l readied (
        same-InOrder {c = c} (account-start_presence_loop (record c { reconnect_attempt = 0 }) s)
          v))

receive_assignment-InOrder :
    (c : LobbyController) (a : Assignment) → InOrder c → InOrder (receive_assignment c a)
unfolding receive_assignment
receive_assignment-InOrder c a v = same-InOrder {c = c} (ground arith) v

receive_error-InOrder :
    (c : LobbyController) (i : ℕ) (text : String) → InOrder c → InOrder (receive_error c i text)
unfolding receive_error
receive_error-InOrder c i text v =
    let timed = stop_timer c i in
    let told = patch_state timed (record (timed.state) { status = failed; error = text }) in
    let w = patch_state-InOrder timed _ refl refl (stop_timer-InOrder c i v) in
    refuse-InOrder _ i text
      (if-InOrder (includes (lower text) "left this lobby") (reset-InOrder told w) w)

pub on_event-InOrder :
    (c : LobbyController) (i : ℕ) (s : Option AuthSessionSnapshot) (e : LobbyEvent)
    → InOrder c
    → InOrder (on_event c i s e)
unfolding on_event
on_event-InOrder c i s (lobby_snapshot l) v =
    if-InOrder (i == c.connect_request_id) (receive_snapshot-InOrder c i s l v) v
on_event-InOrder c i s (lobby_patch p) v =
    if-InOrder (i == c.connect_request_id)
      (receive_patched-InOrder c i s (apply_lobby_patch c.state.snapshot p) v) v
on_event-InOrder c i s (match_assigned a) v =
    if-InOrder (i == c.connect_request_id) (receive_assignment-InOrder c a v) v
on_event-InOrder c i s (lobby_error text) v =
    if-InOrder (i == c.connect_request_id) (receive_error-InOrder c i text v) v

recover-InOrder : (c : LobbyController) → InOrder c → InOrder (recover c)
recover-InOrder c v = same-InOrder (account-recover c) v

stream_closed-InOrder : (c : LobbyController) (i : ℕ) → InOrder c → InOrder (stream_closed c i)
unfolding stream_closed
stream_closed-InOrder c i v =
    if-InOrder (c.requests i).is_waited
      (refuse-InOrder (stop_timer c i) i "Lobby connection closed" (stop_timer-InOrder c i v))
      (if-InOrder (is_some c.state.snapshot && truthy c.state.lobby_id)
        (recover-InOrder _ (patch_state-InOrder c _ refl refl v)) v)

stream_failed-InOrder :
    (c : LobbyController) (i : ℕ) (error : String) → InOrder c → InOrder (stream_failed c i error)
unfolding stream_failed
stream_failed-InOrder c i error v =
    let told = patch_state-InOrder (stop_timer c i) _ refl refl (stop_timer-InOrder c i v) in
    let answered = refuse-InOrder _ i error told in
    if-InOrder (c.requests i).is_waited answered (recover-InOrder _ answered)

on_outcome-InOrder :
    (c : LobbyController) (i : ℕ) (o : Outcome) → InOrder c → InOrder (on_outcome c i o)
unfolding on_outcome
on_outcome-InOrder c i resolved v =
    if-InOrder (i == c.connect_request_id) (stream_closed-InOrder c i v) v
on_outcome-InOrder c i (rejected error) v =
    if-InOrder (i == c.connect_request_id) (stream_failed-InOrder c i error v) v
on_outcome-InOrder c i aborted v = if-InOrder (i == c.connect_request_id) v v

set_stream-InOrder :
    (c : LobbyController) (i : ℕ) (o : Outcome)
    → InOrder c
    → InOrder (set_stream c i (Stream.settle (c.requests i).stream o))
set_stream-InOrder c i o v =
    let w = (c.requests i).stream in
    renew-InOrder c i _ (λ h. aborted-settle w o h) (settle-IsSound w o (v.single.sound i)) v

deliver-InOrder :
    (c : LobbyController) (i : ℕ) (s : Option AuthSessionSnapshot) (e : Option LobbyEvent)
    → InOrder c
    → InOrder (Run.deliver c i s e)
unfolding Run.deliver
deliver-InOrder c i s none v = v
deliver-InOrder c i s (some e) v = on_event-InOrder c i s e v

unchanged-InOrder :
    (c : LobbyController) (i : ℕ) → InOrder c → InOrder (set_stream c i (c.requests i).stream)
unchanged-InOrder c i v = renew-InOrder c i _ (λ h. h) (v.single.sound i) v

message-InOrder :
    (c : LobbyController) (i : ℕ) (s : Option AuthSessionSnapshot) (d : LobbyData)
    → InOrder c
    → InOrder (on_socket c i s (receives d))
unfolding on_socket Stream.on_message
message-InOrder c i s not_json v = set_stream-InOrder c i _ v
message-InOrder c i s (snapshot_data l) v =
    deliver-InOrder _ i s (some (lobby_snapshot l)) (unchanged-InOrder c i v)
message-InOrder c i s (patch_data p) v =
    deliver-InOrder _ i s (some (lobby_patch p)) (unchanged-InOrder c i v)
message-InOrder c i s (assigned_data a) v =
    deliver-InOrder _ i s (some (match_assigned a)) (unchanged-InOrder c i v)
message-InOrder c i s (error_data text) v =
    deliver-InOrder _ i s (some (lobby_error (or_text text "Lobby unavailable")))
      (unchanged-InOrder c i v)
message-InOrder c i s other_data v = unchanged-InOrder c i v

pub on_socket-InOrder :
    (c : LobbyController) (i : ℕ) (s : Option AuthSessionSnapshot) (e : SocketEvent)
    → InOrder c
    → InOrder (on_socket c i s e)
unfolding on_socket Stream.on_error Stream.on_close Stream.on_message
on_socket-InOrder c i s errs v = set_stream-InOrder c i _ v
on_socket-InOrder c i s closes v =
    let w = (c.requests i).stream in
    renew-InOrder c i _ (λ h. aborted-on_close w h) (on_close-IsSound w (v.single.sound i)) v
on_socket-InOrder c i s (receives d) v = message-InOrder c i s d v

react_to-InOrder :
    (c : LobbyController) (i : ℕ) (o : Option Outcome) → InOrder c → InOrder (Run.react_to c i o)
unfolding Run.react_to
react_to-InOrder c i none v = v
react_to-InOrder c i (some o) v = on_outcome-InOrder c i o v

pub react-InOrder : (c : LobbyController) (i : ℕ) → InOrder c → InOrder (react c i)
unfolding react
react-InOrder c i v = react_to-InOrder c i (c.requests i).stream.settled v

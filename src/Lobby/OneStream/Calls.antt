-- ===== src/Lobby/OneStream/Calls.antt =====
-- features/lobby/controllers/lobby-controller.ts: the methods keep the streams in order, and so does
-- every run.
use geoduels.Base.{
  refl, String, true, false, Option, none, some, ◌==◌, string_eq, is_some, not, ◌&&◌, ◌||◌, truthy,
}
use geoduels.Session.{AuthSessionSnapshot}
use geoduels.Lobby.Types.{LobbySnapshot}
use geoduels.Lobby.Controller.{
  LobbyController, LobbyRequest, Ready, fulfilled, refused, patch_state, is_member, connecting,
  leaving,
}
use geoduels.Lobby.Calls.{
  ensure_stream, ensure_lobby, ensure_found, ensure_answered, create_lobby, join_lobby,
  playable_session, enter_lobby, entered, leave_lobby, LobbyCommand, command, connect_with, invite,
  is_entering, join_code, fail_with,
}
use geoduels.Lobby.OneStream.{account, shows_none-IsSingle, shows-IsSingle}
use geoduels.Lobby.OneStream.Steps.{
  InOrder, if-InOrder, reset-InOrder, connect_to_lobby-InOrder, patch_state-InOrder,
}

pub fail_with-InOrder :
    (c : LobbyController) (text : String) → InOrder c → InOrder (fail_with c text)
fail_with-InOrder c text v = patch_state-InOrder c _ refl refl v

pub connect_with-InOrder :
    (c : LobbyController) (s : Option AuthSessionSnapshot) → InOrder c → InOrder (connect_with c s)
connect_with-InOrder c none v = v
connect_with-InOrder c (some s) v = connect_to_lobby-InOrder c s c.state.lobby_id false v

pub ensure_stream-InOrder :
    (c : LobbyController) (s : Option AuthSessionSnapshot) → InOrder c → InOrder (ensure_stream c s)
unfolding ensure_stream
ensure_stream-InOrder c s v =
    if-InOrder (not (truthy c.state.lobby_id) || not (is_member c.state.snapshot s)) v
      (connect_with-InOrder c s v)

pub ensure_lobby-InOrder :
    (c : LobbyController) (code : String) (s : Option AuthSessionSnapshot)
    → InOrder c
    → InOrder (ensure_lobby c code s)
unfolding ensure_lobby patch_state
ensure_lobby-InOrder c code s v =
    let k = invite code in
    if-InOrder (not (truthy k)) v (
      if-InOrder (c.state.invite_code == k && is_some c.state.snapshot)
        (ensure_stream-InOrder c s v)
        (if-InOrder (c.state.invite_code == k && is_entering c.state.status) v
          (record { single = shows_none-IsSingle (account c) v.single })))

pub ensure_answered-InOrder :
    (c : LobbyController) (o : Option LobbySnapshot) (s : Option AuthSessionSnapshot)
    → InOrder c
    → InOrder (ensure_answered c o s)
unfolding ensure_answered ensure_found patch_state
ensure_answered-InOrder c none s v = fail_with-InOrder c _ v
ensure_answered-InOrder c (some l) s v =
    let shown : LobbyController =
      patch_state c
        (record (c.state) { lobby_id = l.id; invite_code = l.invite_code; snapshot = some l }) in
    let w : InOrder shown = record { single = shows-IsSingle (account c) l v.single } in
    if-InOrder (is_member (some l) s) (ensure_stream-InOrder shown s w)
      (patch_state-InOrder shown _ refl refl w)

pub create_lobby-InOrder : (c : LobbyController) → InOrder c → InOrder (create_lobby c)
unfolding create_lobby patch_state
create_lobby-InOrder c v = record { single = v.single }

pub join_lobby-InOrder :
    (c : LobbyController) (code : String) → InOrder c → InOrder (join_lobby c code)
unfolding join_lobby patch_state
join_lobby-InOrder c code v =
    if-InOrder (truthy (join_code c code)) (record { single = v.single })
      (record { single = v.single })

pub playable_session-InOrder :
    (c : LobbyController) (r : LobbyRequest) (s : Option AuthSessionSnapshot)
    → InOrder c
    → InOrder (playable_session c r s)
unfolding playable_session
playable_session-InOrder c r none v = fail_with-InOrder c _ v
playable_session-InOrder c r (some s) v = record { single = v.single }

pub enter_lobby-InOrder :
    (c : LobbyController) (s : AuthSessionSnapshot) (l : LobbySnapshot)
    → InOrder c
    → InOrder (enter_lobby c s l)
unfolding enter_lobby patch_state
enter_lobby-InOrder c s l v =
    let shown : LobbyController =
      patch_state (record c { handled_match_id = "" })
        (record (c.state) {
          status = connecting;
          lobby_id = l.id;
          invite_code = l.invite_code;
          snapshot = some l;
        }) in
    connect_to_lobby-InOrder shown s l.id true
      (record { single = shows-IsSingle (account c) l v.single })

pub entered-InOrder :
    (c : LobbyController) (fallback : String) (r : Ready)
    → InOrder c
    → InOrder (entered c fallback r).0
unfolding entered
entered-InOrder c fallback fulfilled v = v
entered-InOrder c fallback (refused error) v = fail_with-InOrder c _ v

pub leave_lobby-InOrder :
    (c : LobbyController) (s : Option AuthSessionSnapshot) → InOrder c → InOrder (leave_lobby c s)
unfolding leave_lobby patch_state
leave_lobby-InOrder c none v =
    let shown = patch_state c (record (c.state) { status = leaving; error = "" }) in
    if-InOrder (truthy c.state.lobby_id) (reset-InOrder shown (record { single = v.single })) v
leave_lobby-InOrder c (some s) v =
    if-InOrder (truthy c.state.lobby_id) (record { single = v.single }) v

pub command-InOrder :
    (c : LobbyController) (k : LobbyCommand) (s : Option AuthSessionSnapshot)
    → InOrder c
    → InOrder (command c k s)
unfolding command patch_state
command-InOrder c k none v = if-InOrder (truthy c.state.lobby_id) v v
command-InOrder c k (some s) v =
    if-InOrder (truthy c.state.lobby_id) (record { single = v.single }) v

-- ===== src/Lobby/Calls.antt =====
-- features/lobby/controllers/lobby-controller.ts: the methods that the views call, each up to what it
-- waits for, and what its answer does. `session` is the session controller's of that moment.
use geoduels.Base.{
  String, Bool, true, false, Option, none, some, ◌∷◌, if◌then◌else◌, ◌==◌, string_eq, is_some,
  truthy, or_text, not, ◌&&◌, ◌||◌, trim, upper,
}
use geoduels.Session.{AuthSessionSnapshot}
use geoduels.MatchSession.{Assignment}
use geoduels.Lobby.Types.{LobbySnapshot, LobbyTeamId, PartyMode, MatchConfig}
use geoduels.Lobby.Controller.{
  LobbyController, LobbyRuntimeStatus, creating, joining, connecting, readied, leaving, failed,
  LobbyRequest, leave, start, kick, transfer, settings, team, looks_up, asks_session, sends,
  resumes, Ready, fulfilled, refused, patch_state, patch_snapshot, is_member, snapshot_code, reset,
}
use geoduels.Lobby.Connect.{connect_to_lobby}

abbrev pub connect_with : LobbyController → Option AuthSessionSnapshot → LobbyController
connect_with c none = c
connect_with c (some session) = connect_to_lobby c session c.state.lobby_id false

-- `ensureStream`. A member has a session, so none is refreshed.
unfoldable pub ensure_stream : LobbyController → Option AuthSessionSnapshot → LobbyController
unfolding connect_to_lobby
ensure_stream c session =
    if not (truthy c.state.lobby_id) || not (is_member c.state.snapshot session)
    then c
    else connect_with c session

-- The timer of a reconnection.
unfoldable pub reconnect_fires : LobbyController → Option AuthSessionSnapshot → LobbyController
unfolding ensure_stream
reconnect_fires c session = ensure_stream (record c { reconnect_timeout = false }) session

abbrev pub is_entering : LobbyRuntimeStatus → Bool
is_entering connecting = true
is_entering joining = true
is_entering creating = true
is_entering _ = false

abbrev pub fail_with : LobbyController → String → LobbyController
fail_with c text = patch_state c (record (c.state) { status = failed; error = text })

abbrev pub invite : String → String
invite code = upper (trim code)

unfoldable pub ensure_lobby :
    LobbyController → String → Option AuthSessionSnapshot → LobbyController
unfolding ensure_stream patch_state
ensure_lobby c invite_code session =
    let code = invite invite_code in
    let shown = patch_state c (record {
      status = connecting;
      lobby_id = "";
      invite_code = code;
      snapshot = none;
      error = "";
    }) in
    if not (truthy code)
    then c
    else if c.state.invite_code == code && is_some c.state.snapshot
    then ensure_stream c session
    else if c.state.invite_code == code && is_entering c.state.status
    then c
    else record shown { log = looks_up code ∷ shown.log }

unfoldable pub ensure_found :
    LobbyController → LobbySnapshot → Option AuthSessionSnapshot → LobbyController
unfolding patch_state ensure_stream
ensure_found c lobby session =
    let shown = patch_state c (record (c.state) {
      lobby_id = lobby.id;
      invite_code = lobby.invite_code;
      snapshot = some lobby;
    }) in
    if is_member (some lobby) session
    then ensure_stream shown session
    else patch_state shown (record (shown.state) { status = readied; error = "" })

unfoldable pub ensure_answered :
    LobbyController → Option LobbySnapshot → Option AuthSessionSnapshot → LobbyController
unfolding ensure_found patch_state
ensure_answered c none session = fail_with c "Lobby not found"
ensure_answered c (some lobby) session = ensure_found c lobby session

unfoldable pub ensure_failed : LobbyController → String → LobbyController
unfolding patch_state
ensure_failed c error = fail_with c (or_text error "Lobby unavailable")

-- `createLobby` and `joinLobby`, up to the question for a session.
unfoldable pub create_lobby : LobbyController → LobbyController
unfolding patch_state
create_lobby c =
    let shown = patch_state c (record (c.state) { status = creating; error = "" }) in
    record shown { log = asks_session ∷ shown.log }

abbrev pub join_code : LobbyController → String → String
join_code c requested =
    invite (or_text requested (or_text c.state.invite_code (snapshot_code c.state.snapshot)))

unfoldable pub join_lobby : LobbyController → String → LobbyController
unfolding patch_state
join_lobby c requested =
    let code = join_code c requested in
    let shown =
      patch_state c (record (c.state) { status = joining; invite_code = code; error = "" }) in
    if truthy code
    then record shown { log = asks_session ∷ shown.log }
    else patch_state c (record (c.state) { error = "Lobby invite is missing." })

-- The session that can play, for a request that it is needed for.
unfoldable pub playable_session :
    LobbyController → LobbyRequest → Option AuthSessionSnapshot → LobbyController
unfolding patch_state
playable_session c request none = fail_with c "Could not start a guest session."
playable_session c request (some session) = record c {
  log = sends request session.access_token ∷ c.log;
}

-- The lobby that was created or joined.
unfoldable pub enter_lobby : LobbyController → AuthSessionSnapshot → LobbySnapshot → LobbyController
unfolding patch_state connect_to_lobby
enter_lobby c session lobby =
    let shown =
      patch_state (record c { handled_match_id = "" })
        (record (c.state) {
          status = connecting;
          lobby_id = lobby.id;
          invite_code = lobby.invite_code;
          snapshot = some lobby;
        }) in
    connect_to_lobby shown session lobby.id true

abbrev pub is_ready : LobbyRuntimeStatus → Bool
is_ready readied = true
is_ready _ = false

-- How the wait for its first snapshot ended, and what the method returns.
unfoldable pub entered : LobbyController → String → Ready → LobbyController × Bool
unfolding patch_state
entered c fallback fulfilled = (c, is_ready c.state.status && is_some c.state.snapshot)
entered c fallback (refused error) = (fail_with c (or_text error fallback), false)

-- A request to create or to join failed.
unfoldable pub enter_failed : LobbyController → String → String → LobbyController × Bool
unfolding patch_state
enter_failed c fallback error = (fail_with c (or_text error fallback), false)

leave_with : LobbyController → Option AuthSessionSnapshot → LobbyController
unfolding reset
leave_with c none = reset c
leave_with c (some s) = record c { log = sends (leave c.state.lobby_id) s.access_token ∷ c.log }

unfoldable pub leave_lobby : LobbyController → Option AuthSessionSnapshot → LobbyController
unfolding leave_with patch_state
leave_lobby c session =
    if truthy c.state.lobby_id
    then leave_with (patch_state c (record (c.state) { status = leaving; error = "" })) session
    else c

unfoldable pub left : LobbyController → LobbyController
unfolding reset
left c = reset c

unfoldable pub leave_failed : LobbyController → String → LobbyController
unfolding patch_state
leave_failed c error = fail_with c (or_text error "Could not leave lobby")

-- What a member asks of the lobby: `kickMember`, `transferOwner`, `startLobby`, `updateSettings` and
-- `switchTeam`.
pub data LobbyCommand : Type 0 where
  kick_member transfer_owner : String → LobbyCommand
  start_match : LobbyCommand
  update_settings : MatchConfig → Option PartyMode → LobbyCommand
  switch_team : LobbyTeamId → LobbyCommand

abbrev pub request_of : LobbyCommand → String → LobbyRequest
request_of (kick_member user_id) id = kick id user_id
request_of (transfer_owner user_id) id = transfer id user_id
request_of start_match id = start id
request_of (update_settings config mode) id = settings id config mode
request_of (switch_team t) id = team id t

abbrev pub fallback_of : LobbyCommand → String
fallback_of (kick_member user_id) = "Could not kick player"
fallback_of (transfer_owner user_id) = "Could not transfer leader"
fallback_of start_match = "Could not start lobby"
fallback_of (update_settings config mode) = "Could not update lobby settings"
fallback_of (switch_team t) = "Could not switch team"

command_with : LobbyController → LobbyCommand → Option AuthSessionSnapshot → LobbyController
unfolding patch_state
command_with c k none = c
command_with c k (some session) =
    let shown = patch_state c (record (c.state) { error = "" }) in
    record shown { log = sends (request_of k c.state.lobby_id) session.access_token ∷ shown.log }

unfoldable pub command :
    LobbyController → LobbyCommand → Option AuthSessionSnapshot → LobbyController
unfolding command_with
command c k session = if truthy c.state.lobby_id then command_with c k session else c

-- The answer to all of them but `startLobby`, and to that.
unfoldable pub command_answered : LobbyController → LobbySnapshot → LobbyController
unfolding patch_snapshot
command_answered c lobby = patch_snapshot c lobby readied

unfoldable pub start_answered : LobbyController → Assignment → LobbyController
start_answered c assignment = record c {
  handled_match_id = assignment.match_id;
  log = resumes assignment ∷ c.log;
}

unfoldable pub command_failed : LobbyController → LobbyCommand → String → LobbyController
unfolding patch_state
command_failed c k error =
    patch_state c (record (c.state) { error = or_text error (fallback_of k) })

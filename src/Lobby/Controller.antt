-- ===== src/Lobby/Controller.antt =====
-- features/lobby/controllers/lobby-controller.ts: the state of the controller, and the helpers by
-- which its methods change it. A request of `connectToLobby` is known by its number, which is also
-- its stream's; `requests` is what each one's callbacks were closed over.
use geoduels.Base.{
  ℕ, zero, suc, String, Bool, true, false, Option, none, some, List, [], ◌∷◌, if◌then◌else◌, ◌==◌,
  string_eq, nat_eq, truthy, or_text, not, ◌&&◌, ◌||◌, ◌+◌, min,
}
use geoduels.Session.{AuthSessionSnapshot}
use geoduels.MatchSession.{Assignment}
use geoduels.Lobby.Types.{LobbyMember, LobbySnapshot, PartyMode, LobbyTeamId, MatchConfig}
use geoduels.Lobby.Stream.{LobbyStream, new_stream, abort}

pub data LobbyRuntimeStatus : Type 0 where
  idle creating joining connecting readied reconnecting leaving failed : LobbyRuntimeStatus

pub record LobbyRuntimeState : Type 0 where
  pub status : LobbyRuntimeStatus
  pub lobby_id : String
  pub invite_code : String
  pub snapshot : Option LobbySnapshot
  pub error : String

unfoldable pub initial_state : LobbyRuntimeState
initial_state = record {
  status = idle;
  lobby_id = "";
  invite_code = "";
  snapshot = none;
  error = "";
}

-- How the promise `ready` ends.
pub data Ready : Type 0 where
  fulfilled : Ready
  refused : String → Ready

-- `is_waited` is whether `readyResolve` and `readyReject` are set, `timer` whether the timeout of ten
-- seconds is still to come, and `ready` how the promise ended.
pub record Request : Type 0 where
  pub stream : LobbyStream
  pub is_waited : Bool
  pub timer : Bool
  pub ready : Option Ready

unfoldable pub new_request : Bool → Request
unfolding new_stream
new_request waits = record {
  stream = new_stream;
  is_waited = waits;
  timer = waits;
  ready = if waits then none else some fulfilled;
}

-- What is asked of the server: a lobby of a mode, or something of the lobby of a code or an id.
pub data LobbyRequest : Type 0 where
  create : PartyMode → LobbyRequest
  join leave start : String → LobbyRequest
  kick transfer : String → String → LobbyRequest
  settings : String → MatchConfig → Option PartyMode → LobbyRequest
  team : String → LobbyTeamId → LobbyRequest

-- What the controller does to the outside, the latest first: a lobby's stream with the session's
-- token, a touch of the presence in a lobby, a look at the lobby of a code, a question for
-- a session that can play, a request with a token, a match that is resumed or fetched for a
-- connection, the delay of a reconnection, and a state shown.
pub data LobbyEffect : Type 0 where
  streams : String → String → LobbyEffect
  touches : String → String → LobbyEffect
  looks_up : String → LobbyEffect
  asks_session : LobbyEffect
  sends : LobbyRequest → String → LobbyEffect
  resumes : Assignment → LobbyEffect
  fetches : String → ℕ → LobbyEffect
  delays : ℕ → LobbyEffect
  emits : LobbyRuntimeState → LobbyEffect

pub record LobbyController : Type 0 where
  pub state : LobbyRuntimeState
  pub stream_abort : Option ℕ
  pub stream_session : Option AuthSessionSnapshot
  pub presence_interval : Bool
  pub poll_interval : Bool
  pub reconnect_timeout : Bool
  pub reconnect_attempt : ℕ
  pub handled_match_id : String
  pub connect_request_id : ℕ
  pub destroyed : Bool
  pub requests : ℕ → Request
  pub log : List LobbyEffect

unfoldable pub new_controller : LobbyController
unfolding initial_state new_request
new_controller = record {
  state = initial_state;
  stream_abort = none;
  stream_session = none;
  presence_interval = false;
  poll_interval = false;
  reconnect_timeout = false;
  reconnect_attempt = 0;
  handled_match_id = "";
  connect_request_id = 0;
  destroyed = false;
  requests = λ i. new_request false;
  log = [];
}

unfoldable pub patch_state : LobbyController → LobbyRuntimeState → LobbyController
patch_state c s = record c { state = s; log = if c.destroyed then c.log else emits s ∷ c.log }

unfoldable pub patch_snapshot :
    LobbyController → LobbySnapshot → LobbyRuntimeStatus → LobbyController
unfolding patch_state
patch_snapshot c next status = patch_state c (record {
  status = status;
  lobby_id = next.id;
  invite_code = next.invite_code;
  snapshot = some next;
  error = "";
})

-- The request of a number is changed.
unfoldable pub update_request : LobbyController → ℕ → Request → LobbyController
update_request c i r = record c { requests = λ j. if i == j then r else c.requests j }

abbrev pub aborted_request : LobbyController → ℕ → Request
aborted_request c i = record (c.requests i) { stream = abort (c.requests i).stream }

abort_current : LobbyController → Option ℕ → LobbyController
unfolding update_request
abort_current c none = c
abort_current c (some i) = update_request c i (aborted_request c i)

unfoldable pub abort_stream : LobbyController → LobbyController
unfolding abort_current
abort_stream c = record (abort_current c c.stream_abort) {
  stream_abort = none;
  stream_session = none;
}

-- `isCurrentUserMember`, with the session of the moment.
abbrev pub has_member : String → List LobbyMember → Bool
has_member id [] = false
has_member id (m ∷ ms) = m.user_id == id || has_member id ms

abbrev pub is_member : Option LobbySnapshot → Option AuthSessionSnapshot → Bool
is_member (some lobby) (some session) =
    truthy session.user_id && has_member session.user_id lobby.members
is_member _ _ = false

abbrev pub or_session :
    Option AuthSessionSnapshot → Option AuthSessionSnapshot → Option AuthSessionSnapshot
or_session none s = s
or_session (some r) s = some r

-- `tick` of the presence loop; `session` is the session controller's at that moment.
touch_with : LobbyController → Option AuthSessionSnapshot → Bool → LobbyController
touch_with c none member = c
touch_with c (some s) member =
    if truthy s.access_token && truthy c.state.lobby_id && member
    then record c { log = touches c.state.lobby_id s.access_token ∷ c.log }
    else c

unfoldable pub presence_tick : LobbyController → Option AuthSessionSnapshot → LobbyController
unfolding touch_with
presence_tick c session =
    touch_with c (or_session c.stream_session session) (is_member c.state.snapshot session)

unfoldable pub start_presence_loop : LobbyController → Option AuthSessionSnapshot → LobbyController
unfolding presence_tick
start_presence_loop c session =
    if c.presence_interval then c else record (presence_tick c session) { presence_interval = true }

unfoldable pub stop_presence_loop : LobbyController → LobbyController
stop_presence_loop c = record c { presence_interval = false }

abbrev pub snapshot_code : Option LobbySnapshot → String
snapshot_code none = ""
snapshot_code (some lobby) = lobby.invite_code

-- `poll`; its answer is `poll_answered`.
unfoldable pub poll : LobbyController → LobbyController
poll c =
    let code = or_text c.state.invite_code (snapshot_code c.state.snapshot) in
    if truthy code then record c { log = looks_up code ∷ c.log } else c

abbrev is_reconnecting : LobbyRuntimeStatus → Bool
is_reconnecting reconnecting = true
is_reconnecting _ = false

unfoldable pub poll_answered : LobbyController → Option LobbySnapshot → LobbyController
unfolding patch_snapshot
poll_answered c none = c
poll_answered c (some lobby) =
    patch_snapshot c lobby (if is_reconnecting c.state.status then reconnecting else readied)

unfoldable pub start_poll_loop : LobbyController → LobbyController
unfolding poll
start_poll_loop c = if c.poll_interval then c else record (poll c) { poll_interval = true }

unfoldable pub stop_poll_loop : LobbyController → LobbyController
stop_poll_loop c = record c { poll_interval = false }

unfoldable pub clear_reconnect_timer : LobbyController → LobbyController
clear_reconnect_timer c = record c { reconnect_timeout = false }

-- `delays[Math.min(attempt, 3)]`.
abbrev delay_at : ℕ → ℕ
delay_at zero = 1_000
delay_at (suc zero) = 2_000
delay_at (suc (suc zero)) = 5_000
delay_at (suc (suc (suc n))) = 10_000

unfoldable pub reconnect_delay : ℕ → ℕ
reconnect_delay attempt = delay_at (min attempt 3)

unfoldable pub schedule_reconnect : LobbyController → LobbyController
unfolding reconnect_delay
schedule_reconnect c =
    if c.reconnect_timeout || not (truthy c.state.lobby_id) then c else record c {
      reconnect_timeout = true;
      reconnect_attempt = c.reconnect_attempt + 1;
      log = delays (reconnect_delay c.reconnect_attempt) ∷ c.log;
    }

unfoldable pub reset : LobbyController → LobbyController
unfolding stop_presence_loop stop_poll_loop clear_reconnect_timer abort_stream patch_state
    initial_state
reset c =
    let aborted = abort_stream (clear_reconnect_timer (stop_poll_loop (stop_presence_loop c))) in
    patch_state (record aborted { handled_match_id = "" }) initial_state

unfoldable pub destroy : LobbyController → LobbyController
unfolding stop_presence_loop stop_poll_loop clear_reconnect_timer abort_stream
destroy c =
    abort_stream
      (clear_reconnect_timer (stop_poll_loop (stop_presence_loop (record c { destroyed = true }))))

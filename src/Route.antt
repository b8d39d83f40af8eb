-- ===== src/Route.antt =====
-- features/matchmaking/controllers/match-route-controller.ts: which match the page shows, and how
-- its address is resolved. `resolve` is cut at its awaits: a resolution that waits is known by its
-- number, which is that of its abort controller too.
pub mod Resolve
pub mod OneLive
pub mod Stale
mod Tests
use geoduels.Base.{
  ℕ, suc, String, Bool, true, false, Option, none, some, List, [], ◌∷◌, if◌then◌else◌, ◌==◌,
  string_eq, nat_eq, is_value, truthy, or_else, not, ◌&&◌, ◌||◌, trim,
}
use geoduels.Matchmaking.{MatchmakingStatus}
use geoduels.Snapshot.{Snapshot}
use geoduels.Session.{AuthSessionSnapshot}
use geoduels.MatchSession.{Assignment, MatchSessionResponse}
use geoduels.Match.State.{MatchState}

pub data MatchRouteStatus : Type 0 where
  idle bootstrapping_auth resolving awaiting_first_snapshot : MatchRouteStatus
  history replaced missing forbidden : MatchRouteStatus

pub record MatchRouteState : Type 0 where
  pub target_match_id : String
  pub status : MatchRouteStatus
  pub history_snapshot : Option Snapshot
  pub replacement : Option MatchSessionResponse

unfoldable pub initial_state : MatchRouteState
initial_state = record {
  target_match_id = "";
  status = idle;
  history_snapshot = none;
  replacement = none;
}

-- Where a resolution waits.
pub data Stage : Type 0 where
  fetching_public bootstrapping refreshing fetching_private resuming : Stage

pub record Resolution : Type 0 where
  pub seq : ℕ
  pub match_id : String
  pub stage : Stage

-- What the controller does to the outside, the latest first.
pub data RouteEffect : Type 0 where
  fetches : String → Option String → RouteEffect
  bootstraps : String → RouteEffect
  refreshes_session : RouteEffect
  applies_session : AuthSessionSnapshot → Bool → RouteEffect
  resumes : Assignment → RouteEffect

-- `request` is the number of `requestController`; `resolutions` are those that wait.
pub record RouteController : Type 0 where
  pub state : MatchRouteState
  pub request : Option ℕ
  pub resolve_seq : ℕ
  pub started : Bool
  pub destroyed : Bool
  pub aborted : List ℕ
  pub resolutions : List Resolution
  pub log : List RouteEffect

unfoldable pub new_controller : RouteController
unfolding initial_state
new_controller = record {
  state = initial_state;
  request = none;
  resolve_seq = 0;
  started = false;
  destroyed = false;
  aborted = [];
  resolutions = [];
  log = [];
}

unfoldable pub patch_state : RouteController → MatchRouteState → RouteController
patch_state c s = record c { state = s }

abbrev pub set_status : RouteController → MatchRouteStatus → RouteController
set_status c status = record c { state = record (c.state) { status = status } }

unfoldable pub clear_pending_work : RouteController → RouteController
clear_pending_work c = record c {
  request = none;
  aborted = elim c.request [ none ↦ c.aborted | some i ↦ i ∷ c.aborted ];
}

unfoldable pub start : RouteController → RouteController
start c = if c.started then c else record c { started = true; destroyed = false }

unfoldable pub destroy : RouteController → RouteController
unfolding clear_pending_work
destroy c = clear_pending_work (record c { destroyed = true; started = false })

unfoldable pub reset : RouteController → RouteController
unfolding clear_pending_work patch_state initial_state
reset c = patch_state (clear_pending_work c) initial_state

shows : Option Snapshot → String → Bool
shows none target = false
shows (some s) target = truthy s.match_id && s.match_id == target

is_abandoned : MatchmakingStatus → Bool
is_abandoned MatchmakingStatus.abandoned = true
is_abandoned _ = false

is_awaiting : MatchRouteStatus → Bool
is_awaiting awaiting_first_snapshot = true
is_awaiting _ = false

-- The subscription to the match controller.
unfoldable pub match_changed : RouteController → MatchState → RouteController
unfolding shows is_abandoned is_awaiting
match_changed c m =
    let target = c.state.target_match_id in
    if not c.started || not (is_awaiting c.state.status)
    then c
    else if shows m.snapshot target
    then set_status c idle
    else if is_abandoned m.matchmaking.status && m.active_match_id == target
    then set_status c missing
    else c

-- `resolve` up to its first await; the session that is at hand gives the request its token.
unfoldable pub resolve : RouteController → String → Option AuthSessionSnapshot → RouteController
unfolding clear_pending_work
resolve c match_id session =
    let seq = suc c.resolve_seq in
    let cleared = clear_pending_work c in
    record cleared {
      state = record (cleared.state) {
        status = resolving;
        history_snapshot = none;
        replacement = none;
      };
      request = some seq;
      resolve_seq = seq;
      resolutions =
          record { seq = seq; match_id = match_id; stage = fetching_public } ∷ cleared.resolutions;
      log =
          fetches match_id (elim session [ none ↦ none | some s ↦ some s.access_token ])
          ∷ cleared.log;
    }

unfoldable pub is_missing : MatchRouteStatus → Bool
is_missing missing = true
is_missing _ = false

unfoldable pub set_target_match :
    RouteController → Option String → Option AuthSessionSnapshot → RouteController
unfolding clear_pending_work resolve is_missing patch_state
set_target_match c match_id session =
    let next = trim (or_else match_id "") in
    let cleared = clear_pending_work c in
    if not (truthy next)
    then patch_state cleared (record {
      target_match_id = "";
      status = missing;
      history_snapshot = none;
      replacement = none;
    })
    else if c.state.target_match_id == next && not (is_missing c.state.status)
    then c
    else resolve
        (patch_state cleared (record {
          target_match_id = next;
          status = idle;
          history_snapshot = none;
          replacement = none;
        }))
        next session

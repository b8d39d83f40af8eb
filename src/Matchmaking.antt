-- ===== src/Matchmaking.antt =====
-- lib/matchmaking.ts: the reducer of the matchmaking state.
pub mod Intent
pub mod Recovery
mod Tests
use geoduels.Base.{
  ℕ, ◌+◌, String, Bool, true, false, Option, none, some, if◌then◌else◌, ◌==◌, string_eq, nat_eq,
  or_option, is_value,
}

pub data MatchmakingStatus : Type 0 where
  idle ready queueing matched_connecting in_match recovering abandoned : MatchmakingStatus

pub data RecoverOutcome : Type 0 where
  ready queueing matched abandoned : RecoverOutcome

pub record MatchmakingState : Type 0 where
  pub status : MatchmakingStatus
  pub intent_version : ℕ
  pub active_recover_request_id : Option ℕ
  pub queue_started_at : Option ℕ

-- `bumpIntent` and `startedAt` are optional in the source.
pub data MatchmakingAction : Type 0 where
  set_status : MatchmakingStatus → Option Bool → MatchmakingAction
  join_requested : Option ℕ → MatchmakingAction
  leave_requested : MatchmakingAction
  queue_status : String → Option ℕ → MatchmakingAction
  match_found : MatchmakingAction
  game_connected : MatchmakingAction
  queue_error : MatchmakingAction
  ws_closed : MatchmakingAction
  recover_started : ℕ → MatchmakingAction
  recover_resolved : ℕ → ℕ → RecoverOutcome → Bool → MatchmakingAction
  recover_failed : ℕ → MatchmakingAction

unfoldable pub initial_matchmaking_state : MatchmakingState
initial_matchmaking_state = record {
  status = MatchmakingStatus.idle;
  intent_version = 0;
  active_recover_request_id = none;
  queue_started_at = none;
}

abbrev pub is_queueing : MatchmakingStatus → Bool
is_queueing MatchmakingStatus.queueing = true
is_queueing _ = false

-- The statuses that a closed socket turns into `recovering`.
abbrev is_connected : MatchmakingStatus → Bool
is_connected MatchmakingStatus.queueing = true
is_connected MatchmakingStatus.matched_connecting = true
is_connected MatchmakingStatus.in_match = true
is_connected _ = false

-- The status that the server's word names, among those that the reducer takes over.
unfoldable pub reduce_queue_status : MatchmakingState → String → Option ℕ → MatchmakingState
reduce_queue_status state word queued_at =
    let normalized = (if word == "queued" then "queueing" else word) in
    if normalized == "left"
    then record state { status = MatchmakingStatus.ready; queue_started_at = none }
    else if normalized == "matched"
    then record state { status = MatchmakingStatus.matched_connecting; queue_started_at = none }
    else if normalized == "queueing"
    then record state {
      status = MatchmakingStatus.queueing;
      queue_started_at = or_option queued_at state.queue_started_at;
    }
    else if normalized == "ready"
    then record state { status = MatchmakingStatus.ready; queue_started_at = none }
    else if normalized == "idle"
    then record state { status = MatchmakingStatus.idle; queue_started_at = none }
    else if normalized == "recovering"
    then record state { status = MatchmakingStatus.recovering; queue_started_at = none }
    else if normalized == "abandoned"
    then record state { status = MatchmakingStatus.abandoned; queue_started_at = none }
    else state

-- The body of `recover_resolved` behind its test of the request.
reduce_outcome : MatchmakingState → ℕ → RecoverOutcome → Bool → MatchmakingState
reduce_outcome state intent RecoverOutcome.matched has_snapshot = record state {
  active_recover_request_id = none;
  status = MatchmakingStatus.matched_connecting;
}
reduce_outcome state intent RecoverOutcome.abandoned has_snapshot = record state {
  active_recover_request_id = none;
  status = MatchmakingStatus.abandoned;
}
reduce_outcome state intent RecoverOutcome.queueing has_snapshot =
    if intent == state.intent_version
    then record state {
      active_recover_request_id = none;
      status = MatchmakingStatus.queueing;
      queue_started_at = state.queue_started_at;
    }
    else record state { active_recover_request_id = none }
reduce_outcome state intent RecoverOutcome.ready has_snapshot =
    if intent == state.intent_version
    then if has_snapshot
      then record state { active_recover_request_id = none }
      else record state { active_recover_request_id = none; status = MatchmakingStatus.ready }
    else record state { active_recover_request_id = none }

-- `action.bumpIntent === false ? v : v + 1`.
abbrev pub bump_intent : Option Bool → ℕ → ℕ
bump_intent (some false) v = v
bump_intent _ v = v + 1

unfoldable pub matchmaking_reducer : MatchmakingState → MatchmakingAction → MatchmakingState
unfolding reduce_queue_status reduce_outcome
matchmaking_reducer state (set_status status bump) = record state {
  status = status;
  queue_started_at = if is_queueing status then state.queue_started_at else none;
  intent_version = bump_intent bump state.intent_version;
}
matchmaking_reducer state (join_requested started_at) = record state {
  status = MatchmakingStatus.queueing;
  queue_started_at = started_at;
  intent_version = state.intent_version + 1;
}
matchmaking_reducer state leave_requested = record state {
  status = MatchmakingStatus.ready;
  queue_started_at = none;
  intent_version = state.intent_version + 1;
}
matchmaking_reducer state (queue_status word queued_at) = reduce_queue_status state word queued_at
matchmaking_reducer state match_found = record state {
  status = MatchmakingStatus.matched_connecting;
  queue_started_at = none;
}
matchmaking_reducer state game_connected = record state {
  status = MatchmakingStatus.in_match;
  queue_started_at = none;
}
matchmaking_reducer state queue_error =
    if is_queueing state.status
    then record state { status = MatchmakingStatus.ready; queue_started_at = none }
    else state
matchmaking_reducer state ws_closed =
    if is_connected state.status
    then record state { status = MatchmakingStatus.recovering }
    else state
matchmaking_reducer state (recover_started request_id) = record state {
  active_recover_request_id = some request_id;
}
matchmaking_reducer state (recover_resolved request_id intent outcome has_snapshot) =
    if is_value state.active_recover_request_id request_id
    then reduce_outcome state intent outcome has_snapshot
    else state
matchmaking_reducer state (recover_failed request_id) =
    if is_value state.active_recover_request_id request_id
    then record state { active_recover_request_id = none }
    else state

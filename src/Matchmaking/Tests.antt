-- ===== src/Matchmaking/Tests.antt =====
-- Runs of the matchmaking reducer, and the theorems at concrete inputs.
use geoduels.Base.{◌≡◌, refl, false, none, some, [], ◌∷◌, List, ◌+◌, arith}
use geoduels.Matchmaking.{
  MatchmakingAction, MatchmakingStatus, RecoverOutcome, initial_matchmaking_state,
  matchmaking_reducer, join_requested, leave_requested, queue_status, ws_closed, recover_started,
  recover_resolved,
}
use geoduels.Matchmaking.Intent.{run, intents, intent_version-run, late_recovery_keeps_intent}
use geoduels.Matchmaking.Recovery.{tracked, active_recover_request_id-run}

-- The user joins, a recovery starts, and the user leaves before it is answered.
abbrev changed_mind : List MatchmakingAction
changed_mind =
    join_requested (some 5)
    ∷ queue_status "queued" none
    ∷ ws_closed
    ∷ recover_started 1
    ∷ leave_requested
    ∷ []

changed_mind_ready : (run initial_matchmaking_state changed_mind).status ≡ MatchmakingStatus.ready
unfolding run initial_matchmaking_state matchmaking_reducer
changed_mind_ready = refl

intent_version-run_example :
    (run initial_matchmaking_state changed_mind).intent_version
    ≡ intents changed_mind + initial_matchmaking_state.intent_version
intent_version-run_example = intent_version-run changed_mind initial_matchmaking_state

late_recovery_keeps_intent_example :
    let before = run initial_matchmaking_state changed_mind in
    let after =
      matchmaking_reducer before (
        recover_resolved 1 initial_matchmaking_state.intent_version RecoverOutcome.queueing
          false) in
    (after.status ≡ before.status) × (after.queue_started_at ≡ before.queue_started_at)
late_recovery_keeps_intent_example =
    late_recovery_keeps_intent initial_matchmaking_state changed_mind 1 RecoverOutcome.queueing
      false (omega arith) refl

active_recover_request_id-run_example :
    (run initial_matchmaking_state changed_mind).active_recover_request_id
    ≡ tracked initial_matchmaking_state.active_recover_request_id changed_mind
active_recover_request_id-run_example =
    active_recover_request_id-run changed_mind initial_matchmaking_state

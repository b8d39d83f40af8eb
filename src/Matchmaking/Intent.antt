-- ===== src/Matchmaking/Intent.antt =====
-- lib/matchmaking.ts: the intent version over runs of actions, and what a late recovery may do.
use geoduels.Base.{
  ℕ, ◌+◌, ◌<◌, ◌≡◌, Bool, true, false, List, [], ◌∷◌, none, some, arith, if◌then◌else◌,
}
use geoduels.Matchmaking.{
  MatchmakingState, MatchmakingAction, set_status, join_requested, leave_requested,
  recover_resolved, RecoverOutcome, matchmaking_reducer,
}

unfoldable pub run : MatchmakingState → List MatchmakingAction → MatchmakingState
run state [] = state
run state (a ∷ actions) = run (matchmaking_reducer state a) actions

-- The actions by which the user says what they want.
abbrev pub is_intent : MatchmakingAction → Bool
is_intent (set_status status (some false)) = false
is_intent (set_status status _) = true
is_intent (join_requested started_at) = true
is_intent leave_requested = true
is_intent _ = false

abbrev pub intents : List MatchmakingAction → ℕ
intents [] = 0
intents (a ∷ actions) = (if is_intent a then 1 else 0) + intents actions

intent_version-matchmaking_reducer :
    (state : MatchmakingState) (a : MatchmakingAction)
    → (matchmaking_reducer state a).intent_version
      ≡ (if is_intent a then 1 else 0) + state.intent_version
unfolding matchmaking_reducer
intent_version-matchmaking_reducer state (set_status status none) = omega arith
intent_version-matchmaking_reducer state (set_status status (some true)) = omega arith
intent_version-matchmaking_reducer state (set_status status (some false)) = omega arith
intent_version-matchmaking_reducer state a = ground arith

-- Over any run of actions the intent version grows by the number of the actions of the user:
-- set_status with a bump, joins and leaves.
pub intent_version-run :
    (actions : List MatchmakingAction) (state : MatchmakingState)
    → (run state actions).intent_version ≡ intents actions + state.intent_version
unfolding run
intent_version-run [] state = omega arith
intent_version-run (a ∷ actions) state = omega (
  arith,
  intent_version-run actions (matchmaking_reducer state a),
  intent_version-matchmaking_reducer state a,
)

-- The outcomes that tell of the server's own decision.
abbrev pub is_final : RecoverOutcome → Bool
is_final RecoverOutcome.matched = true
is_final RecoverOutcome.abandoned = true
is_final _ = false

status-of_late :
    (state : MatchmakingState) (request v : ℕ) (outcome : RecoverOutcome) (has_snapshot : Bool)
    → v < state.intent_version
    → is_final outcome ≡ false
    → let after = matchmaking_reducer state (recover_resolved request v outcome has_snapshot) in
      (after.status ≡ state.status) × (after.queue_started_at ≡ state.queue_started_at)
unfolding matchmaking_reducer
status-of_late state request v outcome has_snapshot h f = ground arith

-- A recovery that was started before the user acted again, as set_status with a bump, a join or a
-- leave, changes neither the status nor the queue start, whatever other actions came between,
-- unless its outcome is matched or abandoned.
pub late_recovery_keeps_intent :
    (state : MatchmakingState) (actions : List MatchmakingAction) (request : ℕ)
    (outcome : RecoverOutcome) (has_snapshot : Bool)
    → 0 < intents actions
    → is_final outcome ≡ false
    → let before = run state actions in
      let after =
        matchmaking_reducer before
          (recover_resolved request state.intent_version outcome has_snapshot) in
      (after.status ≡ before.status) × (after.queue_started_at ≡ before.queue_started_at)
late_recovery_keeps_intent state actions request outcome has_snapshot h f =
    status-of_late (run state actions) request state.intent_version outcome has_snapshot
      (omega (arith, intent_version-run actions state)) f

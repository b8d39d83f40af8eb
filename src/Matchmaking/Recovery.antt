-- ===== src/Matchmaking/Recovery.antt =====
-- lib/matchmaking.ts: which recovery the state tracks.
use geoduels.Base.{
  ℕ, ◌≡◌, refl, Bool, false, List, [], ◌∷◌, Option, none, some, arith, if◌then◌else◌, nat_eq,
  is_value, ◌∙◌, ap,
}
use geoduels.Matchmaking.{
  MatchmakingState, MatchmakingAction, RecoverOutcome, recover_started, recover_resolved,
  recover_failed, matchmaking_reducer,
}
use geoduels.Matchmaking.Intent.{run}

-- What one action leaves of a tracked request: a start replaces it, its own answer ends it.
abbrev pub track : Option ℕ → MatchmakingAction → Option ℕ
track o (recover_started r) = some r
track o (recover_resolved r v outcome has_snapshot) = if is_value o r then none else o
track o (recover_failed r) = if is_value o r then none else o
track o _ = o

abbrev pub tracked : Option ℕ → List MatchmakingAction → Option ℕ
tracked o [] = o
tracked o (a ∷ actions) = tracked (track o a) actions

pub active_recover_request_id-matchmaking_reducer :
    (state : MatchmakingState) (a : MatchmakingAction)
    → (matchmaking_reducer state a).active_recover_request_id
      ≡ track state.active_recover_request_id a
unfolding matchmaking_reducer
active_recover_request_id-matchmaking_reducer state (recover_started r) = refl
active_recover_request_id-matchmaking_reducer state a = ground arith

-- Over any run of actions the tracked request is the last recovery that was started and that no
-- answer to it has ended.
pub active_recover_request_id-run :
    (actions : List MatchmakingAction) (state : MatchmakingState)
    → (run state actions).active_recover_request_id
      ≡ tracked state.active_recover_request_id actions
unfolding run
active_recover_request_id-run [] state = refl
active_recover_request_id-run (a ∷ actions) state =
    active_recover_request_id-run actions (matchmaking_reducer state a)
    ∙ ap (λ o. tracked o actions) (active_recover_request_id-matchmaking_reducer state a)

-- An answer to a request that is no longer tracked changes nothing at all.
pub stale_answer_ignored :
    (state : MatchmakingState) (request v : ℕ) (outcome : RecoverOutcome) (has_snapshot : Bool)
    → is_value state.active_recover_request_id request ≡ false
    → (matchmaking_reducer state (recover_resolved request v outcome has_snapshot) ≡ state)
      × (matchmaking_reducer state (recover_failed request) ≡ state)
unfolding matchmaking_reducer
stale_answer_ignored state request v outcome has_snapshot h = (ground arith, ground arith)

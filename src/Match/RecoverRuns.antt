-- ===== src/Match/RecoverRuns.antt =====
-- The account of the recoveries over every run of a `MatchController`.
use geoduels.Base.{
  ℕ, suc, ◌≡◌, refl, sym, subst, String, true, false, Option, none, some, List, [], ◌∷◌, arith,
  nat_eq, string_eq, truthy, contains, Option-cases, inl, inr, ◌⊎◌,
}
use geoduels.Matchmaking.{set_status, matchmaking_reducer}
use geoduels.Config.{RuntimeConfig}
use geoduels.Session.{AuthSessionSnapshot}
use geoduels.MatchSession.{MatchSessionResponse}
use geoduels.Match.State.{
  MatchController, Recovery, Stage, ensuring, fetching, dispatch_matchmaking, patch_state,
  new_controller,
}
use geoduels.Match.Recover.{
  find_recovery, start_recover, recover_ensured, recover_fetched, recover_rejected,
}
use geoduels.Match.Handlers.{heartbeat}
use geoduels.Match.Queue.{queue_resolved, queue_rejected}
use geoduels.Match.Events
use geoduels.Match.Events.{Event, step, run}
use geoduels.Match.Tracking.{Tracking, tracking, tracking-send_game_command}
use geoduels.Match.RecoverOnce.{
  IsPending, IsTracked, forget-IsTracked, dispatch_matchmaking-IsTracked,
}
use geoduels.Match.RecoverSteps.{
  recover_failed-IsTracked, reset_connection_state-IsTracked, recover_ensured-IsTracked,
  recover_fetched-IsTracked, first_snapshot_timer-IsTracked,
}
use geoduels.Match.RecoverHandlers.{
  queue_event-IsTracked, socket_event-IsTracked, heartbeat-IsTracked,
}
use geoduels.Match.RecoverCalls.{
  cancel_queue-IsTracked, if-IsTracked, join_queue-IsTracked, queue_rejected-IsTracked,
  queue_session-IsTracked, resume_resolved_match-IsTracked, set_auto_recover_enabled-IsTracked,
  singleplayer_assigned-IsTracked, singleplayer_rejected-IsTracked, singleplayer_session-IsTracked,
  start_singleplayer-IsTracked, tracking-destroy, tracking-start,
}

recover_rejected-IsTracked :
    (m : MatchController) (r : Recovery)
    → IsTracked (tracking m)
    → IsTracked (tracking (recover_rejected m r))
unfolding recover_rejected
recover_rejected-IsTracked m r v = recover_failed-IsTracked m r.request_id v

on_ensured-IsTracked :
    (m : MatchController) (i : ℕ) (o : Option Recovery) (session : Option AuthSessionSnapshot)
    → find_recovery i m.recoveries ≡ o
    → IsTracked (tracking m)
    → IsTracked (tracking (Events.on_ensured m o session))
unfolding Events.on_ensured
on_ensured-IsTracked m i none session f v = v
on_ensured-IsTracked m i (some r) session f v = at_stage r.stage
  where
    at_stage :
        (s : Stage)
        → IsTracked
            (tracking (elim s [ ensuring ↦ recover_ensured m r session | fetching target ↦ m ]))
    at_stage ensuring = recover_ensured-IsTracked m i r session f v
    at_stage (fetching target) = v

on_fetched-IsTracked :
    (m : MatchController) (o : Option Recovery) (playable : Option AuthSessionSnapshot)
    (response : MatchSessionResponse)
    → IsTracked (tracking m)
    → IsTracked (tracking (Events.on_fetched m o playable response))
unfolding Events.on_fetched
on_fetched-IsTracked m none playable response v = v
on_fetched-IsTracked m (some r) playable response v = at_stage r.stage
  where
    at_stage :
        (s : Stage)
        → IsTracked (
            tracking
              (elim s [ ensuring ↦ m | fetching target ↦ recover_fetched m r playable response ]))
    at_stage ensuring = v
    at_stage (fetching target) = recover_fetched-IsTracked m r playable response v

on_rejected-IsTracked :
    (m : MatchController) (o : Option Recovery)
    → IsTracked (tracking m)
    → IsTracked (tracking (Events.on_rejected m o))
unfolding Events.on_rejected
on_rejected-IsTracked m none v = v
on_rejected-IsTracked m (some r) v = recover_rejected-IsTracked m r v

on_first_snapshot_late-IsTracked :
    (m : MatchController) (target : Option String) (playable : Option AuthSessionSnapshot)
    → IsTracked (tracking m)
    → IsTracked (tracking (Events.on_first_snapshot_late m target playable))
unfolding Events.on_first_snapshot_late
on_first_snapshot_late-IsTracked m none playable v = v
on_first_snapshot_late-IsTracked m (some target) playable v =
    first_snapshot_timer-IsTracked m target playable v

module _ (config : RuntimeConfig) where
  step-IsTracked :
      (m : MatchController) (e : Event)
      → IsTracked (tracking m)
      → IsTracked (tracking (step config m e))
  unfolding step patch_state queue_resolved queue_rejected
  step-IsTracked m Event.starts v = subst IsTracked (sym (tracking-start m)) v
  step-IsTracked m Event.destroys v =
      subst IsTracked (sym (tracking-destroy m)) (forget-IsTracked (tracking m) v)
  step-IsTracked m Event.resets_connection v = reset_connection_state-IsTracked m v
  step-IsTracked m (Event.sets_auto_recover enabled) v =
      set_auto_recover_enabled-IsTracked m enabled v
  step-IsTracked m (Event.sets_connection_issue issue) v = v
  step-IsTracked m (Event.sets_status status) v =
      dispatch_matchmaking-IsTracked m (set_status status none) refl v
  step-IsTracked m (Event.sends_command command options) v =
      subst IsTracked (sym (tracking-send_game_command config m command options)) v
  step-IsTracked m (Event.socket_reports i e now) v = socket_event-IsTracked config m i e now v
  step-IsTracked m (Event.heartbeat_ticks now) v =
      if-IsTracked m.heartbeat_interval (heartbeat config m now) m
        (heartbeat-IsTracked config m now v) v
  step-IsTracked m (Event.first_snapshot_late playable) v =
      on_first_snapshot_late-IsTracked m m.first_snapshot_timeout playable v
  step-IsTracked m (Event.recovery_ensured i session) v = on_ensured-IsTracked m i _ session refl v
  step-IsTracked m (Event.recovery_fetched i playable response) v =
      on_fetched-IsTracked m (find_recovery i m.recoveries) playable response v
  step-IsTracked m (Event.recovery_rejected i) v =
      on_rejected-IsTracked m (find_recovery i m.recoveries) v
  step-IsTracked m Event.joins_queue v = join_queue-IsTracked m v
  step-IsTracked m (Event.queue_has_session q session now) v =
      queue_session-IsTracked m q session now v
  step-IsTracked m (Event.queue_reports session e) v = queue_event-IsTracked m session e v
  step-IsTracked m (Event.queue_ends q) v = queue_rejected-IsTracked m q none v
  step-IsTracked m (Event.queue_fails q message) v = queue_rejected-IsTracked m q message v
  step-IsTracked m (Event.cancels_queue session) v = cancel_queue-IsTracked m session v
  step-IsTracked m Event.starts_singleplayer v = start_singleplayer-IsTracked m v
  step-IsTracked m (Event.singleplayer_has_session q session) v =
      singleplayer_session-IsTracked m q session v
  step-IsTracked m (Event.singleplayer_is_assigned q session a) v =
      singleplayer_assigned-IsTracked m q session a v
  step-IsTracked m (Event.singleplayer_fails q message) v =
      singleplayer_rejected-IsTracked m q message v
  step-IsTracked m (Event.resumes_match session a play) v =
      resume_resolved_match-IsTracked m session a play v

  run-IsTracked :
      (events : List Event) (m : MatchController)
      → IsTracked (tracking m)
      → IsTracked (tracking (run config m events))
  unfolding run
  run-IsTracked [] m v = v
  run-IsTracked (e ∷ events) m v = run-IsTracked events (step config m e) (step-IsTracked m e v)

new_controller-IsTracked : IsTracked (tracking new_controller)
unfolding new_controller
new_controller-IsTracked = record {
  flight = refl;
  current_pending = λ i h. cc;
  active_pending = λ i h. cc;
  others_aborted = λ i p h. cc;
}

-- After any run of events of a match controller, two recoveries that have not ended and whose
-- abort controllers were not aborted are the same one.
pub one_live_recovery :
    (config : RuntimeConfig) (events : List Event) (i j : ℕ)
    → let t = tracking (run config new_controller events) in
      IsPending i t
      → IsPending j t
      → contains i t.aborted ≡ false
      → contains j t.aborted ≡ false
      → i ≡ j
one_live_recovery config events i j p q a b =
    let v = run-IsTracked config events new_controller new_controller-IsTracked in
    ground (arith, v.others_aborted i, v.others_aborted j)

idle_when_empty :
    (t : Tracking) → IsTracked t → t.pending ≡ [] → (t.in_flight ≡ false) × (t.active ≡ none)
idle_when_empty t v idle = (no_current (Option-cases t.current), no_active (Option-cases t.active))
  where
    no_current : ((t.current ≡ none) ⊎ ((i : ℕ) × (t.current ≡ some i))) → t.in_flight ≡ false
    no_current (inl e) = rw (v.flight, e)
    no_current (inr (i, e)) = cc (rw idle at (v.current_pending i e))

    no_active : ((t.active ≡ none) ⊎ ((i : ℕ) × (t.active ≡ some i))) → t.active ≡ none
    no_active (inl e) = e
    no_active (inr (i, e)) = cc (rw idle at (v.active_pending i e))

start_when_idle :
    (m : MatchController) (session : AuthSessionSnapshot)
    → m.recover_in_flight ≡ false
    → m.state.matchmaking.active_recover_request_id ≡ none
    → m.recoveries ≡ []
    → truthy session.user_id ≡ true
    → truthy session.access_token ≡ true
    → session.onboarding_required ≡ false
    → let n = start_recover m session in
      (n.recoveries
        ≡ record {
          request_id = suc m.recover_request_id;
          intent = m.state.matchmaking.intent_version;
          stage = ensuring;
        }
          ∷ [])
      × (n.state.matchmaking.active_recover_request_id ≡ some (suc m.recover_request_id))
unfolding start_recover dispatch_matchmaking matchmaking_reducer
start_when_idle m session flight active idle u a o = ground arith

-- After any run of events, when no recovery is suspended, starting one for a session with a user,
-- a token and no onboarding suspends exactly one, with a new request that the state tracks.
pub recovery_not_stuck :
    (config : RuntimeConfig) (events : List Event) (session : AuthSessionSnapshot)
    → (run config new_controller events).recoveries ≡ []
    → truthy session.user_id ≡ true
    → truthy session.access_token ≡ true
    → session.onboarding_required ≡ false
    → let m = run config new_controller events in
      let n = start_recover m session in
      (n.recoveries
        ≡ record {
          request_id = suc m.recover_request_id;
          intent = m.state.matchmaking.intent_version;
          stage = ensuring;
        }
          ∷ [])
      × (n.state.matchmaking.active_recover_request_id ≡ some (suc m.recover_request_id))
unfolding start_recover dispatch_matchmaking matchmaking_reducer
recovery_not_stuck config events session idle u a o =
    let m = run config new_controller events in
    let v = run-IsTracked config events new_controller new_controller-IsTracked in
    let free = idle_when_empty (tracking m) v idle in
    start_when_idle m session free.0 free.1 idle u a o

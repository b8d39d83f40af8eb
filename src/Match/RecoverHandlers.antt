-- ===== src/Match/RecoverHandlers.antt =====
-- The handlers of a `MatchController` keep the account of its recoveries.
use geoduels.Base.{
  ℕ, ◌≡◌, refl, sym, subst, ◌∙◌, Bool, true, false, Option, none, some, List, [], ◌∷◌, arith,
  nat_eq, string_eq, is_some, truthy, ◌||◌, Bool-cases, inl, inr, ◌&&◌,
}
use geoduels.Matchmaking.{
  MatchmakingAction, RecoverOutcome, MatchmakingStatus, set_status, recover_started,
  recover_resolved, recover_failed, ws_closed, game_connected, matchmaking_reducer,
}
use geoduels.Matchmaking
use geoduels.Config.{RuntimeConfig}
use geoduels.Session.{AuthSessionSnapshot}
use geoduels.Snapshot.{Snapshot}
use geoduels.Command.{ping}
use geoduels.Socket.{
  SocketEvent, HandlerCall, on_open, on_close, on_error, on_activity, on_snapshot, on_ack_error,
  on_protocol_error,
}
use geoduels.Socket
use geoduels.MatchSession.{QueueEvent}
use geoduels.Match.State.{MatchController, patch_state}
use geoduels.Match.Handlers.{
  recover_if_signed_in, handle, handle_all, handle_open, handle_close, handle_snapshot,
  socket_event, heartbeat, first_snapshot_seen, is_outdated, quiet_options, session_user,
}
use geoduels.Match.Queue.{queue_event, set_queue_error, release_queue}
use geoduels.Match.Tracking.{
  tracking, tracking-note_server_activity, tracking-mark_connection_unhealthy,
  tracking-send_game_command,
}
use geoduels.Match.RecoverOnce.{IsTracked, start_recover-IsTracked, dispatch_matchmaking-IsTracked}
use geoduels.Match.RecoverSteps.{connect_to_assigned_game-IsTracked}

pub recover_if_signed_in-IsTracked :
    (m : MatchController) (session : Option AuthSessionSnapshot)
    → IsTracked (tracking m)
    → IsTracked (tracking (recover_if_signed_in m session))
unfolding recover_if_signed_in
recover_if_signed_in-IsTracked m none v = v
recover_if_signed_in-IsTracked m (some session) v = start_recover-IsTracked m session v

pub tracking-first_snapshot_seen :
    (m : MatchController) (snapshot : Snapshot)
    → tracking (first_snapshot_seen m snapshot) ≡ tracking m
unfolding first_snapshot_seen
tracking-first_snapshot_seen m snapshot = ground arith

module _ (config : RuntimeConfig) where
  pub handle_open-IsTracked :
      (m : MatchController) (now : ℕ)
      → IsTracked (tracking m)
      → IsTracked (tracking (handle_open config m now))
  unfolding handle_open patch_state
  handle_open-IsTracked m now v =
      subst IsTracked (sym (tracking-send_game_command config _ _ _))
        (dispatch_matchmaking-IsTracked _ _ refl v)

  pub handle_close-IsTracked :
      (m : MatchController) (expected : Bool)
      → IsTracked (tracking m)
      → IsTracked (tracking (handle_close config m expected))
  unfolding handle_close patch_state
  handle_close-IsTracked m true v = v
  handle_close-IsTracked m false v =
      elim (Bool-cases (is_some m.state.snapshot || truthy m.state.active_match_id)) [
        | inl t ↦ rw t (
            recover_if_signed_in-IsTracked _ m.active_session
              (dispatch_matchmaking-IsTracked _ _ refl v))
        | inr e ↦ rw e v
      ]

  pub handle_snapshot-IsTracked :
      (m : MatchController) (snapshot : Snapshot) (now : ℕ)
      → IsTracked (tracking m)
      → IsTracked (tracking (handle_snapshot config m snapshot now))
  unfolding handle_snapshot patch_state
  handle_snapshot-IsTracked m snapshot now v =
      elim (Bool-cases (is_outdated m.state.snapshot snapshot)) [
        | inl t ↦ rw t v
        | inr e ↦ rw e (
            subst IsTracked
              (sym (
                tracking-note_server_activity config (first_snapshot_seen m snapshot) now
                ∙ tracking-first_snapshot_seen m snapshot))
              v)
      ]

  pub handle-IsTracked :
      (m : MatchController) (call : HandlerCall) (now : ℕ)
      → IsTracked (tracking m)
      → IsTracked (tracking (handle config m call now))
  unfolding handle patch_state
  handle-IsTracked m on_open now v = handle_open-IsTracked m now v
  handle-IsTracked m (on_close expected) now v = handle_close-IsTracked m expected v
  handle-IsTracked m on_error now v =
      subst IsTracked (sym (tracking-mark_connection_unhealthy config m _ _)) v
  handle-IsTracked m on_activity now v =
      subst IsTracked (sym (tracking-note_server_activity config m now)) v
  handle-IsTracked m (on_snapshot snapshot) now v = handle_snapshot-IsTracked m snapshot now v
  handle-IsTracked m (on_ack_error message) now v = v
  handle-IsTracked m on_protocol_error now v =
      subst IsTracked (sym (tracking-mark_connection_unhealthy config m _ _)) v

  pub handle_all-IsTracked :
      (calls : List HandlerCall) (m : MatchController) (now : ℕ)
      → IsTracked (tracking m)
      → IsTracked (tracking (handle_all config m calls now))
  unfolding handle_all
  handle_all-IsTracked [] m now v = v
  handle_all-IsTracked (call ∷ calls) m now v =
      handle_all-IsTracked calls (handle config m call now) now (handle-IsTracked m call now v)

  pub socket_event-IsTracked :
      (m : MatchController) (i : ℕ) (e : SocketEvent) (now : ℕ)
      → IsTracked (tracking m)
      → IsTracked (tracking (socket_event config m i e now))
  unfolding socket_event
  socket_event-IsTracked m i e now v =
      handle_all-IsTracked (Socket.on_event m.socket_client i e).1 _ now v

  pub tracking-heartbeat :
      (m : MatchController) (now : ℕ) → tracking (heartbeat config m now) ≡ tracking m
  unfolding heartbeat
  tracking-heartbeat m now = ground (
    arith,
    tracking-mark_connection_unhealthy config m config.connection_error_message true,
    tracking-send_game_command config m (ping (some (session_user m.active_session))) quiet_options,
  )

  pub heartbeat-IsTracked :
      (m : MatchController) (now : ℕ)
      → IsTracked (tracking m)
      → IsTracked (tracking (heartbeat config m now))
  heartbeat-IsTracked m now v = subst IsTracked (sym (tracking-heartbeat m now)) v

pub queue_event-IsTracked :
    (m : MatchController) (session : AuthSessionSnapshot) (e : QueueEvent)
    → IsTracked (tracking m)
    → IsTracked (tracking (queue_event m session e))
unfolding queue_event set_queue_error patch_state
queue_event-IsTracked m session (QueueEvent.queue_status status queued_at) v =
    dispatch_matchmaking-IsTracked m _ refl v
queue_event-IsTracked m session (QueueEvent.match_assigned a) v =
    elim (Bool-cases (truthy a.node && truthy a.ticket)) [
      | inl t ↦ rw t (
          connect_to_assigned_game-IsTracked _ session a
            (dispatch_matchmaking-IsTracked m Matchmaking.match_found refl v))
      | inr e ↦ rw e (dispatch_matchmaking-IsTracked m Matchmaking.match_found refl v)
    ]
queue_event-IsTracked m session (QueueEvent.queue_error message) v = v

pub tracking-release_queue :
    (m : MatchController) (q : ℕ) → tracking (release_queue m q) ≡ tracking m
unfolding release_queue
tracking-release_queue m q = ground arith

pub release_queue-IsTracked :
    (m : MatchController) (q : ℕ)
    → IsTracked (tracking m)
    → IsTracked (tracking (release_queue m q))
release_queue-IsTracked m q v = subst IsTracked (sym (tracking-release_queue m q)) v

-- ===== src/Match/Events.antt =====
-- features/matchmaking/controllers/match-controller.ts: everything that can happen to a
-- `MatchController`, one event at a time: a call of a public method, an event of a socket, a timer,
-- or the end of an `await`. Time and the session controller's answers come with the event.
use geoduels.Base.{if◌then◌else◌, ℕ, String, Bool, Option, none, some, List, [], ◌∷◌}
use geoduels.Matchmaking.{MatchmakingStatus, set_status}
use geoduels.Session.{AuthSessionSnapshot}
use geoduels.Config.{RuntimeConfig}
use geoduels.Command.{Command, SendGameCommandOptions}
use geoduels.MatchSession.{Assignment, MatchSessionResponse, QueueEvent}
use geoduels.Socket.{SocketEvent}
use geoduels.Match.State.{
  MatchController, Recovery, ensuring, fetching, patch_state, dispatch_matchmaking,
  send_game_command, reset_connection_state, set_auto_recover_enabled, start, destroy,
}
use geoduels.Match.Recover.{
  find_recovery, recover_ensured, recover_fetched, recover_rejected, first_snapshot_timer,
}
use geoduels.Match.Handlers.{socket_event, heartbeat}
use geoduels.Match.Queue.{
  join_queue, queue_session, queue_event, queue_resolved, queue_rejected, start_singleplayer,
  singleplayer_session, singleplayer_assigned, singleplayer_rejected, cancel_queue,
  resume_resolved_match,
}

pub data Event : Type 0 where
  starts : Event
  destroys : Event
  resets_connection : Event
  sets_auto_recover : Bool → Event
  sets_connection_issue : String → Event
  sets_status : MatchmakingStatus → Event
  sends_command : Command → SendGameCommandOptions → Event
  socket_reports : ℕ → SocketEvent → ℕ → Event
  heartbeat_ticks : ℕ → Event
  first_snapshot_late : Option AuthSessionSnapshot → Event
  recovery_ensured : ℕ → Option AuthSessionSnapshot → Event
  recovery_fetched : ℕ → Option AuthSessionSnapshot → MatchSessionResponse → Event
  recovery_rejected : ℕ → Event
  joins_queue : Event
  queue_has_session : ℕ → Option AuthSessionSnapshot → ℕ → Event
  queue_reports : AuthSessionSnapshot → QueueEvent → Event
  queue_ends : ℕ → Event
  queue_fails : ℕ → Option String → Event
  cancels_queue : Option AuthSessionSnapshot → Event
  starts_singleplayer : Event
  singleplayer_has_session : ℕ → Option AuthSessionSnapshot → Event
  singleplayer_is_assigned : ℕ → AuthSessionSnapshot → Assignment → Event
  singleplayer_fails : ℕ → Option String → Event
  resumes_match : Option AuthSessionSnapshot → Assignment → Bool → Event

-- An answer reaches a recovery only at the `await` where it waits.
unfoldable pub on_ensured :
    MatchController → Option Recovery → Option AuthSessionSnapshot → MatchController
on_ensured m none session = m
on_ensured m (some r) session = elim r.stage [
  | ensuring ↦ recover_ensured m r session
  | fetching target ↦ m
]

unfoldable pub on_fetched :
    MatchController
    → Option Recovery
    → Option AuthSessionSnapshot
    → MatchSessionResponse
    → MatchController
on_fetched m none playable response = m
on_fetched m (some r) playable response = elim r.stage [
  | ensuring ↦ m
  | fetching target ↦ recover_fetched m r playable response
]

unfoldable pub on_rejected : MatchController → Option Recovery → MatchController
on_rejected m none = m
on_rejected m (some r) = recover_rejected m r

unfoldable pub on_first_snapshot_late :
    MatchController → Option String → Option AuthSessionSnapshot → MatchController
on_first_snapshot_late m none playable = m
on_first_snapshot_late m (some target) playable = first_snapshot_timer m target playable

module _ (config : RuntimeConfig) where
  unfoldable pub step : MatchController → Event → MatchController
  unfolding on_ensured on_fetched on_rejected on_first_snapshot_late
  step m starts = start m
  step m destroys = destroy m
  step m resets_connection = reset_connection_state m
  step m (sets_auto_recover enabled) = set_auto_recover_enabled m enabled
  step m (sets_connection_issue issue) =
      patch_state m (record (m.state) { connection_issue = issue })
  step m (sets_status status) = dispatch_matchmaking m (set_status status none)
  step m (sends_command command options) = (send_game_command config m command options).0
  step m (socket_reports i e now) = socket_event config m i e now
  step m (heartbeat_ticks now) = if m.heartbeat_interval then heartbeat config m now else m
  step m (first_snapshot_late playable) = on_first_snapshot_late m m.first_snapshot_timeout playable
  step m (recovery_ensured i session) = on_ensured m (find_recovery i m.recoveries) session
  step m (recovery_fetched i playable response) =
      on_fetched m (find_recovery i m.recoveries) playable response
  step m (recovery_rejected i) = on_rejected m (find_recovery i m.recoveries)
  step m joins_queue = join_queue m
  step m (queue_has_session q session now) = queue_session m q session now
  step m (queue_reports session e) = queue_event m session e
  step m (queue_ends q) = queue_resolved m q
  step m (queue_fails q message) = queue_rejected m q message
  step m (cancels_queue session) = cancel_queue m session
  step m starts_singleplayer = start_singleplayer m
  step m (singleplayer_has_session q session) = singleplayer_session m q session
  step m (singleplayer_is_assigned q session a) = singleplayer_assigned m q session a
  step m (singleplayer_fails q message) = singleplayer_rejected m q message
  step m (resumes_match session a play) = (resume_resolved_match m session a play).0

  unfoldable pub run : MatchController → List Event → MatchController
  run m [] = m
  run m (e ∷ events) = run (step m e) events

-- ===== src/Match/Calls.antt =====
-- features/matchmaking/controllers/match-controller.ts: sending commands, and cancelling a join.
use geoduels.Base.{
  ℕ, ◌≡◌, refl, true, false, some, ◌∷◌, arith, or_else, contains, if◌then◌else◌, nat_eq,
}
use geoduels.Matchmaking.{MatchmakingStatus, is_queueing, matchmaking_reducer}
use geoduels.Config.{RuntimeConfig}
use geoduels.Session.{AuthSessionSnapshot}
use geoduels.Command.{Command, SendGameCommandOptions}
use geoduels.Socket
use geoduels.Match.State.{
  MatchController, sends, send_game_command, patch_state, dispatch_matchmaking, abort_queue,
  abort_recover,
}
use geoduels.Match.Queue.{join_queue, cancel_queue, queue_session, set_queue_error}

-- With an open socket a command goes out, true is returned and nothing else changes; without one
-- nothing goes out and false is returned, a silent call changes nothing, and any other marks the
-- connection as lost with its message, on the queue too while queueing.
pub send_game_command_lem :
    (config : RuntimeConfig) (m : MatchController) (c : Command) (o : SendGameCommandOptions)
    → let (n, sent) = send_game_command config m c o in
      (Socket.is_open m.socket_client ≡ true
        → (sent ≡ true) × (n ≡ record m { log = sends c ∷ m.log }))
      × (Socket.is_open m.socket_client ≡ false
          → (sent ≡ false)
            × (n.log ≡ m.log)
            × (o.silent ≡ true → n ≡ m)
            × (o.silent ≡ false
                → (n.state.connected ≡ false)
                  × (n.state.connection_issue
                      ≡ or_else o.error_message config.connection_error_message)
                  × (n.state.queue_error ≡ (
                      if is_queueing m.state.matchmaking.status
                      then or_else o.error_message config.connection_error_message
                      else m.state.queue_error))))
unfolding send_game_command
send_game_command_lem config m c o = (
  λ h. rw h (refl, refl),
  λ h.
      rw h (refl, ground arith, λ s. ground arith, λ s. (ground arith, ground arith, ground arith)),
)

-- Cancelling a join that still waits for its session sets the status to ready and aborts its
-- controller, and the answer then queues the player all the same under the aborted controller.
pub cancelled_join_still_queues :
    (m : MatchController) (session : AuthSessionSnapshot) (now : ℕ)
    → let joined = join_queue m in
      let cancelled = cancel_queue joined (some session) in
      let answered = queue_session cancelled joined.queues (some session) now in
      (cancelled.state.matchmaking.status ≡ MatchmakingStatus.ready)
      × (contains joined.queues cancelled.aborted_queues ≡ true)
      × (answered.state.matchmaking.status ≡ MatchmakingStatus.queueing)
      × (answered.state.matchmaking.queue_started_at ≡ some now)
      × (answered.queue_abort ≡ some joined.queues)
unfolding join_queue cancel_queue queue_session set_queue_error matchmaking_reducer patch_state
    dispatch_matchmaking abort_queue abort_recover
cancelled_join_still_queues m session now = (refl, ground arith, refl, refl, refl)

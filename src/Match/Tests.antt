-- ===== src/Match/Tests.antt =====
-- Runs of a `MatchController`, and its theorems at concrete inputs.
use geoduels.Base.{
  ℕ, ◌≡◌, refl, true, false, none, some, List, [], ◌∷◌, map, contains, or_else, if◌then◌else◌,
}
use geoduels.Matchmaking.{MatchmakingStatus, is_queueing, matchmaking_reducer}
use geoduels.Snapshot.{Snapshot, Phase, RoundPhase}
use geoduels.Session.{AuthSessionSnapshot}
use geoduels.Config.{runtime_config}
use geoduels.Command.{ping, SendGameCommandOptions}
use geoduels.MatchSession.{Assignment}
use geoduels.Socket
use geoduels.Socket.{on_snapshot, opened, was_closed}
use geoduels.Match.State.{
  MatchController, Stage, new_controller, sends, send_game_command, dispatch_matchmaking,
  patch_state,
}
use geoduels.Match.Recover.{start_recover, first_snapshot_timer, connect_to_assigned_game}
use geoduels.Match.Handlers.{handle_all, socket_event, handle, handle_open, handle_close}
use geoduels.Match.Queue.{join_queue, cancel_queue, queue_session, resume_resolved_match}
use geoduels.Match.Events.{Event, run, step}
use geoduels.Match.Tracking.{tracking}
use geoduels.Match.RecoverOnce.{IsPending}
use geoduels.Match.RecoverRuns.{one_live_recovery, recovery_not_stuck}
use geoduels.Match.Snapshots.{latest, keeps_latest, IsTimedOut, first_snapshot_timer_lem}
use geoduels.Match.Calls.{send_game_command_lem, cancelled_join_still_queues}

abbrev player : AuthSessionSnapshot
player = record {
  user_id = "u1";
  access_token = "t";
  onboarding_required = false;
  auth_migration_required = none;
  can_play = none;
  nickname_input = "";
  recovery_available = none;
  linked_providers = none;
  expires_at = none;
}

abbrev snapshot : ℕ → Snapshot
snapshot n = record {
  match_id = "m1";
  mode = none;
  config = none;
  unranked = none;
  round_results = none;
  teams = [];
  rating_preview = [];
  state = "active";
  phase = Phase.live;
  round_phase = RoundPhase.round_live;
  phase_ends_at = 0;
  round_ms_left = 0;
  current_round = none;
  last_round_result = none;
  players = [];
  self = none;
  event_sequence = n;
  server_unix_ms = none;
}

abbrev seen : MatchController
unfolding new_controller
seen = record new_controller {
  state = record (new_controller.state) { snapshot = some (snapshot 3) };
}

keeps_latest_example :
    (kept : Snapshot) × ((handle_all runtime_config seen
        (map on_snapshot (snapshot 5 ∷ snapshot 4 ∷ []))
        7).state.snapshot
      ≡ some kept)
    × (kept.match_id ≡ "m1")
    × (kept.event_sequence ≡ latest runtime_config 3 (snapshot 5 ∷ snapshot 4 ∷ []))
unfolding seen
keeps_latest_example =
    keeps_latest runtime_config (snapshot 5 ∷ snapshot 4 ∷ []) seen (snapshot 3) 7 refl
      (refl, (refl, tt))

abbrev game : Assignment
game = record {
  match_id = "m1";
  node = "n1";
  ws_path = "";
  ticket = "x";
  source_lobby_id = none;
  source_lobby_invite_code = none;
}

-- A match is resumed, its socket opens and is lost, and the recovery that this starts is cut short.
abbrev lost : List Event
lost =
    Event.resumes_match (some player) game false
    ∷ Event.socket_reports 0 opened 10
    ∷ Event.socket_reports 0 was_closed 20
    ∷ []

after_lost : MatchController
after_lost = run runtime_config new_controller lost

-- One recovery is suspended, and the status says so.
lost_recovers :
    (IsPending 1 (tracking after_lost))
    × (contains 1 after_lost.aborted_recoveries ≡ false)
    × (after_lost.state.matchmaking.status ≡ MatchmakingStatus.recovering)
    × (after_lost.state.connection_issue ≡ "Connection lost. Reconnecting...")
unfolding after_lost run step new_controller resume_resolved_match connect_to_assigned_game
    start_recover matchmaking_reducer dispatch_matchmaking patch_state send_game_command
    socket_event handle_all handle handle_open handle_close Socket.connect Socket.on_event
    Socket.is_open
lost_recovers = (refl, refl, refl, refl)

one_live_recovery_example : ◌≡◌ {A = ℕ} 1 1
unfolding after_lost
one_live_recovery_example =
    one_live_recovery runtime_config lost 1 1 lost_recovers.0 lost_recovers.0 lost_recovers.1
      lost_recovers.1

recovery_not_stuck_example :
    let n = start_recover (run runtime_config new_controller []) player in
    (n.recoveries ≡ record { request_id = 1; intent = 0; stage = Stage.ensuring } ∷ [])
    × (n.state.matchmaking.active_recover_request_id ≡ some 1)
unfolding run new_controller
recovery_not_stuck_example = recovery_not_stuck runtime_config [] player refl refl refl refl

abbrev waiting : MatchController
unfolding new_controller
waiting = record new_controller {
  active_session = some player;
  first_snapshot_recover_attempts = 3;
  first_snapshot_timeout = some "m1";
}

first_snapshot_timer_lem_example : IsTimedOut waiting (first_snapshot_timer waiting "m1" none)
unfolding waiting
first_snapshot_timer_lem_example = first_snapshot_timer_lem waiting "m1" player refl refl refl

abbrev loud : SendGameCommandOptions
loud = record { error_message = none; force_reconnect = true; silent = false }

send_game_command_lem_example :
    let (n, sent) = send_game_command runtime_config seen (ping none) loud in
    (Socket.is_open seen.socket_client ≡ true
      → (sent ≡ true) × (n ≡ record seen { log = sends (ping none) ∷ seen.log }))
    × (Socket.is_open seen.socket_client ≡ false
        → (sent ≡ false)
          × (n.log ≡ seen.log)
          × (loud.silent ≡ true → n ≡ seen)
          × (loud.silent ≡ false
              → (n.state.connected ≡ false)
                × (n.state.connection_issue
                    ≡ or_else loud.error_message runtime_config.connection_error_message)
                × (n.state.queue_error ≡ (
                    if is_queueing seen.state.matchmaking.status
                    then or_else loud.error_message runtime_config.connection_error_message
                    else seen.state.queue_error))))
send_game_command_lem_example = send_game_command_lem runtime_config seen (ping none) loud

cancelled_join_still_queues_example :
    let joined = join_queue new_controller in
    let cancelled = cancel_queue joined (some player) in
    let answered = queue_session cancelled joined.queues (some player) 9 in
    (cancelled.state.matchmaking.status ≡ MatchmakingStatus.ready)
    × (contains joined.queues cancelled.aborted_queues ≡ true)
    × (answered.state.matchmaking.status ≡ MatchmakingStatus.queueing)
    × (answered.state.matchmaking.queue_started_at ≡ some 9)
    × (answered.queue_abort ≡ some joined.queues)
cancelled_join_still_queues_example = cancelled_join_still_queues new_controller player 9

-- ===== src/Match/Tracking.antt =====
-- What a `MatchController` remembers of its recoveries: the fields that say whether one is under
-- way, and how each operation changes them.
use geoduels.Base.{ℕ, ◌≡◌, String, Bool, false, Option, none, List, arith, nat_eq, string_eq}
use geoduels.Matchmaking.{MatchmakingAction}
use geoduels.Matchmaking.Recovery.{track, active_recover_request_id-matchmaking_reducer}
use geoduels.Config.{RuntimeConfig}
use geoduels.Session.{AuthSessionSnapshot}
use geoduels.MatchSession.{Assignment}
use geoduels.Command.{Command, SendGameCommandOptions}
use geoduels.Match.State.{
  MatchController, Recovery, dispatch_matchmaking, abort_recover, clear_recover_tracking,
  note_server_activity, mark_connection_unhealthy, send_game_command, reset_connection_state,
  add_some,
}
use geoduels.Match.Recover.{connect_to_assigned_game}

pub record Tracking : Type 0 where
  pub in_flight : Bool
  pub current : Option ℕ
  pub active : Option ℕ
  pub pending : List Recovery
  pub aborted : List ℕ
  pub last : ℕ

abbrev pub tracking : MatchController → Tracking
tracking m = record {
  in_flight = m.recover_in_flight;
  current = m.recover_abort;
  active = m.state.matchmaking.active_recover_request_id;
  pending = m.recoveries;
  aborted = m.aborted_recoveries;
  last = m.recover_request_id;
}

pub tracking-dispatch_matchmaking :
    (m : MatchController) (a : MatchmakingAction)
    → tracking (dispatch_matchmaking m a)
      ≡ record (tracking m) { active = track m.state.matchmaking.active_recover_request_id a }
unfolding dispatch_matchmaking
tracking-dispatch_matchmaking m a =
    rw (active_recover_request_id-matchmaking_reducer m.state.matchmaking a)

pub tracking-note_server_activity :
    (config : RuntimeConfig) (m : MatchController) (now : ℕ)
    → tracking (note_server_activity config m now) ≡ tracking m
unfolding note_server_activity
tracking-note_server_activity config m now = ground arith

pub tracking-mark_connection_unhealthy :
    (config : RuntimeConfig) (m : MatchController) (message : String) (force : Bool)
    → tracking (mark_connection_unhealthy config m message force) ≡ tracking m
unfolding mark_connection_unhealthy
tracking-mark_connection_unhealthy config m message force = ground arith

pub tracking-send_game_command :
    (config : RuntimeConfig) (m : MatchController) (c : Command) (o : SendGameCommandOptions)
    → tracking (send_game_command config m c o).0 ≡ tracking m
unfolding send_game_command
tracking-send_game_command config m c o = ground arith

pub tracking-connect_to_assigned_game :
    (m : MatchController) (session : AuthSessionSnapshot) (a : Assignment)
    → tracking (connect_to_assigned_game m session a) ≡ tracking m
unfolding connect_to_assigned_game
tracking-connect_to_assigned_game m session a = ground arith

abbrev pub forget : Tracking → Tracking
forget t = record t {
  in_flight = false;
  current = none;
  active = none;
  aborted = add_some t.current t.aborted;
}

-- Aborting the recovery and clearing its tracking.
pub tracking-clear_recover_tracking :
    (m : MatchController)
    → tracking (clear_recover_tracking (abort_recover m)) ≡ forget (tracking m)
unfolding clear_recover_tracking abort_recover
tracking-clear_recover_tracking m = ground arith

pub tracking-reset_connection_state :
    (m : MatchController) → tracking (reset_connection_state m) ≡ forget (tracking m)
unfolding reset_connection_state
tracking-reset_connection_state m = ground arith

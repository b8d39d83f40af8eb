-- ===== src/Game/Calls.antt =====
-- features/game/controllers/game-controller.ts: the calls of the views, with the match controller
-- that they send their commands by. What it emits comes back to `handleMatchChange` at once.
use geoduels.Base.{
  ℕ, String, Bool, true, false, Option, none, some, if◌then◌else◌, ◌==◌, string_eq, truthy, not,
  ◌&&◌, ◌||◌, is_some, ltb,
}
use geoduels.Config.{RuntimeConfig}
use geoduels.Command.{
  Command, SendGameCommandOptions, guess_place, guess_finalize, round_advance, leave_match, forfeit,
}
use geoduels.Matchmaking.{MatchmakingStatus, set_status}
use geoduels.Snapshot.{Snapshot, CurrentRound, LatLng, is_live, is_round_live, is_singleplayer}
use geoduels.Clock
use geoduels.Clock.{get_authoritative_round_ms_left, is_timer_idle}
use geoduels.Match.State
use geoduels.Match.State.{
  MatchController, send_game_command, reset_connection_state, dispatch_matchmaking,
}
use geoduels.Game.State.{GameController, initial_state}
use geoduels.Game.Sounds.{play_guess_sfx}
use geoduels.Game.Health.{is_result_phase}
use geoduels.Game.Sync.{handle_match_change}

pub record GamePage : Type 0 where
  pub game : GameController
  pub match : MatchController

-- `GUESS_INPUT_CUTOFF_MS`.
abbrev pub guess_input_cutoff_ms : ℕ
guess_input_cutoff_ms = 500

-- A time left below the cutoff; `none` is `Infinity`.
abbrev is_below_cutoff : Option ℕ → Bool
is_below_cutoff none = false
is_below_cutoff (some left) = ltb left guess_input_cutoff_ms

unfoldable pub is_guess_input_closed : GameController → Snapshot → ℕ → Bool
unfolding get_authoritative_round_ms_left
is_guess_input_closed g s now =
    not (is_singleplayer s.mode)
    && not (is_round_live s.round_phase && is_timer_idle s)
    && is_below_cutoff (get_authoritative_round_ms_left g.round_clock (some s) now)

module _ (config : RuntimeConfig) (user : String) (now : ℕ) where
  -- The match controller emits.
  unfoldable pub notify : GamePage → GamePage
  unfolding handle_match_change
  notify p =
      if p.game.started && not p.match.destroyed
      then record p { game = handle_match_change config p.game p.match.state.snapshot user now }
      else p

  abbrev pub command_options : SendGameCommandOptions
  command_options = record {
    error_message = some config.game_connection_error_message;
    force_reconnect = true;
    silent = false;
  }

  -- A command that was sent clears the connection issue; one that was not has set it.
  unfoldable pub send_with : GamePage → MatchController × Bool → GamePage × Bool
  unfolding notify State.patch_state
  send_with p sent =
      let m = sent.0 in
      if sent.1
      then (
        notify
            (record p { match = State.patch_state m (record (m.state) { connection_issue = "" }) }),
        true,
      )
      else (notify (record p { match = m }), false)

  unfoldable pub send : GamePage → Command → GamePage × Bool
  unfolding send_game_command send_with
  send p command = send_with p (send_game_command config p.match command command_options)

  -- What a guess leaves after its command.
  abbrev pub placed : LatLng → GamePage × Bool → GamePage
  placed at sent =
      let q = sent.0 in
      if sent.1
      then record q { game = record (q.game) { state = record (q.game.state) { guess = some at } } }
      else q

  -- A call that is refused leaves everything as it is.
  unfoldable pub place_guess_in : GamePage → Snapshot → Option CurrentRound → LatLng → GamePage
  unfolding send is_guess_input_closed
  place_guess_in p s none at = p
  place_guess_in p s (some round) at =
      if not (is_live s.phase)
        || not (is_round_live s.round_phase)
        || p.game.state.guess_submitted
        || is_guess_input_closed p.game s now
      then p
      else placed at (send p (guess_place user s.match_id round.round_id at))

  unfoldable pub place_guess_of : GamePage → Option Snapshot → LatLng → GamePage
  unfolding place_guess_in
  place_guess_of p none at = p
  place_guess_of p (some s) at = place_guess_in p s s.current_round at

  unfoldable pub place_guess : GamePage → LatLng → GamePage
  unfolding place_guess_of
  place_guess p at = place_guess_of p p.match.state.snapshot at

  unfoldable pub finalize_guess_in :
      GamePage → Snapshot → Option CurrentRound → Option LatLng → GamePage
  unfolding send play_guess_sfx
  finalize_guess_in p s (some round) (some at) =
      let sent = send p (guess_finalize user s.match_id round.round_id at) in
      let q = sent.0 in
      let heard = play_guess_sfx q.game s.match_id round.round_id user in
      if not (is_live s.phase) || p.game.state.guess_submitted
      then p
      else if sent.1
      then record q {
        game = record heard { state = record (heard.state) { guess_submitted = true } };
      }
      else q
  finalize_guess_in p s round at = p

  unfoldable pub finalize_guess : GamePage → GamePage
  unfolding finalize_guess_in
  finalize_guess p = elim p.match.state.snapshot [
    | none ↦ p
    | some s ↦ finalize_guess_in p s s.current_round p.game.state.guess
  ]

  -- `advanceRound` and `forfeitMatch`, and whether the command was sent.
  unfoldable pub advance_round_of : GamePage → Option Snapshot → GamePage × Bool
  unfolding send
  advance_round_of p none = (p, false)
  advance_round_of p (some s) =
      let sent = send p (round_advance user s.match_id) in
      if truthy s.match_id && is_singleplayer s.mode && is_result_phase s.phase
      then sent
      else (p, false)

  unfoldable pub advance_round : GamePage → GamePage × Bool
  unfolding advance_round_of
  advance_round p = advance_round_of p p.match.state.snapshot

  unfoldable pub forfeit_match_of : GamePage → Option Snapshot → GamePage × Bool
  unfolding send
  forfeit_match_of p none = (p, false)
  forfeit_match_of p (some s) =
      let sent = send p (forfeit user s.match_id) in
      if truthy s.match_id && not (s.state == "ended") then sent else (p, false)

  unfoldable pub forfeit_match : GamePage → GamePage × Bool
  unfolding forfeit_match_of
  forfeit_match p = forfeit_match_of p p.match.state.snapshot

  abbrev quiet_options : SendGameCommandOptions
  quiet_options = record { error_message = none; force_reconnect = false; silent = true }

  unfoldable pub say_goodbye : MatchController → Option Snapshot → MatchController
  unfolding send_game_command
  say_goodbye m none = m
  say_goodbye m (some s) =
      let sent = (send_game_command config m (leave_match user s.match_id) quiet_options).0 in
      if truthy s.match_id then sent else m

  -- `resetConnectionState` emits once for the tracked recovery, where there is one, and once at its end.
  unfoldable pub leave_game : GamePage → Bool → GamePage
  unfolding say_goodbye notify reset_connection_state dispatch_matchmaking initial_state Clock.reset
  leave_game p onboarding_required =
      let said = record p { match = say_goodbye p.match p.match.state.snapshot } in
      let told =
        (if is_some said.match.state.matchmaking.active_recover_request_id
          then notify said
          else said) in
      let left = notify (record told { match = reset_connection_state told.match }) in
      let status =
        (if onboarding_required then MatchmakingStatus.idle else MatchmakingStatus.ready) in
      notify (record left {
        game = record (left.game) {
          state = initial_state;
          round_clock = Clock.reset left.game.round_clock;
          result_anim_round = "";
        };
        match = dispatch_matchmaking left.match (set_status status none);
      })

  unfoldable pub start : GamePage → GamePage
  unfolding handle_match_change
  start p = if p.game.started then p else record p {
    game =
        handle_match_change config (record (p.game) { destroyed = false; started = true })
          p.match.state.snapshot user now;
  }

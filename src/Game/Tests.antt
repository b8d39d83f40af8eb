-- ===== src/Game/Tests.antt =====
-- A duel of two players.
use geoduels.Base.{ℕ, ◌≡◌, refl, Bool, true, false, none, some, List, [], ◌∷◌, string_eq, length}
use geoduels.Config.{runtime_config}
use geoduels.Command.{guess_place}
use geoduels.Snapshot.{
  Snapshot, SnapshotPlayer, RoundResult, LatLng, CurrentRound, Mode, Phase, RoundPhase,
}
use geoduels.Socket
use geoduels.Socket.{SocketClient, fresh_client, connect, on_event, opened}
use geoduels.Match.State
use geoduels.Match.State.{MatchController, sends}
use geoduels.Game.State.{GameController, new_controller}
use geoduels.Game.Health.{hps, hp_transition, sync_display_hp}
use geoduels.Game.Sync.{handle_match_change}
use geoduels.Game.Calls.{GamePage, place_guess}
use geoduels.Game.Guesses.{guess_after_change}
use geoduels.Game.Heard.{guesses_heard, IsDistinct}
use geoduels.Game.Run.{PageEvent, match_emits, starts_page, finalizes_guess, run}
use geoduels.Game.Once.{guess_heard_once}
use geoduels.Game.Bounds.{AreWithin, result_health_lem}
use geoduels.Game.Placing.{is_guess_open, place_guess_lem}

abbrev at : LatLng
at = record { lat = 1; lng = 2 }

abbrev player : ℕ → Bool → SnapshotPlayer
player hp finalized = record {
  user_id = "";
  display_name = "";
  mmr = 500;
  avatar_url = none;
  is_guest = none;
  is_admin = none;
  team_id = none;
  hp = hp;
  total_score = none;
  finalized = finalized;
  disconnected = false;
}

abbrev round : CurrentRound
round = record { round_id = "r2"; round_number = 2; timer_started = none }

abbrev result : RoundResult
result = record {
  round_id = "r1";
  round_number = 1;
  players =
      ("u1", record { score = 3100; damage_taken = some 900; hp_after_round = some 5100 })
      ∷ ("u2", record { score = 4000; damage_taken = none; hp_after_round = some 6000 })
      ∷ [];
  teams = [];
}

abbrev duel : Phase → Bool → Snapshot
duel phase finalized = record {
  match_id = "m1";
  mode = some Mode.duel;
  config = none;
  unranked = none;
  round_results = none;
  teams = [];
  rating_preview = [];
  state = "active";
  phase = phase;
  round_phase = RoundPhase.round_live;
  phase_ends_at = 90_000;
  round_ms_left = 0;
  current_round = some round;
  last_round_result = some result;
  players = ("u1", player 5100 false) ∷ ("u2", player 6000 finalized) ∷ [];
  self = none;
  event_sequence = 4;
  server_unix_ms = none;
}

-- A guess of the round before.
abbrev guessed : GameController
unfolding new_controller
guessed = record new_controller {
  prev_round_id = "r1";
  state = record (new_controller.state) { guess = some at; guess_submitted = true };
}

guess_after_change_example :
    ((handle_match_change runtime_config guessed (some (duel Phase.live false)) "u1" 7).state.guess
      ≡ none)
    × ((handle_match_change runtime_config guessed
          (some (duel Phase.live false))
          "u1"
          7).state.guess_submitted
        ≡ false)
unfolding guessed
guess_after_change_example =
    guess_after_change runtime_config guessed (some (duel Phase.live false)) "u1" 7

result_health_lem_example :
    AreWithin runtime_config result.players
      (sync_display_hp runtime_config guessed
        (some (duel Phase.round_result false))
        "u1").state.display_hp
    × ((hp_transition (
          sync_display_hp runtime_config guessed
            (some (duel Phase.round_result false))
            "u1")).state.display_hp
        ≡ hps (duel Phase.round_result false).players)
unfolding guessed new_controller
result_health_lem_example =
    result_health_lem runtime_config guessed (duel Phase.round_result false) "u1" result refl refl
      refl

abbrev playing : Bool → MatchController
unfolding State.new_controller
playing finalized = record State.new_controller {
  state = record (State.new_controller.state) { snapshot = some (duel Phase.live finalized) };
  socket_client = (on_event (connect fresh_client) 0 opened).0;
}

-- The opponent finalizes a guess, and the snapshot comes twice.
abbrev opponent_guesses : List PageEvent
opponent_guesses =
    starts_page "u1" 5
    ∷ match_emits (playing true) "u1" 6
    ∷ match_emits (playing true) "u1" 7
    ∷ finalizes_guess "u1" 8
    ∷ []

guess_heard_once_example :
    let g =
      (run runtime_config
        (record { game = new_controller; match = playing false })
        opponent_guesses).game in
    (guesses_heard g.log ≡ length g.guess_sfx_keys) × IsDistinct g.guess_sfx_keys
guess_heard_once_example = guess_heard_once runtime_config (playing false) opponent_guesses

abbrev page : GamePage
page = record { game = new_controller; match = playing false }

place_guess_lem_example :
    let q = place_guess runtime_config "u1" 5 page at in
    let command = guess_place "u1" "m1" "r2" at in
    (is_guess_open page.game (duel Phase.live false) 5 ≡ false → q ≡ page)
    × (is_guess_open page.game (duel Phase.live false) 5 ≡ true
        → Socket.is_open page.match.socket_client ≡ true
        → (q.game.state.guess ≡ some at)
          × (q.match.log ≡ sends command ∷ page.match.log)
          × (q.match.state.connection_issue ≡ ""))
    × (is_guess_open page.game (duel Phase.live false) 5 ≡ true
        → Socket.is_open page.match.socket_client ≡ false
        → (q.match.log ≡ page.match.log)
          × (q.match.state.connection_issue ≡ runtime_config.game_connection_error_message))
unfolding playing
place_guess_lem_example =
    place_guess_lem runtime_config "u1" 5 page (duel Phase.live false) round at refl refl

-- ===== src/Home/Tests.antt =====
-- A duel of two players, shown to each of them, a duel of teams, and a clock.
use geoduels.Base.{
  ℕ, ◌+◌, ◌<◌, ◌*◌, ◌≡◌, refl, String, true, false, none, some, [], ◌∷◌, length, ◌⊎◌,
}
use geoduels.Snapshot.{
  Snapshot, SnapshotPlayer, CurrentRound, RatingDeltaPreview, Mode, Phase, RoundPhase, lookup,
}
use geoduels.Auth.State.{SessionState}
use geoduels.Auth.State as Session
use geoduels.Match.State as Match
use geoduels.Game.State.{GameState}
use geoduels.Game.State as Game
use geoduels.UiPhase.{live_round}
use geoduels.Home.Decimal.{AreDigits, leads, spelled, minutes_text, seconds_text, clock_text_lem}
use geoduels.Home.Model.{
  Params, snapshot, opp_id, players_of, ui_phase, show_result_stage, in_game, can_finalize_guess,
  mm, ss,
}
use geoduels.Home.Result.{
  self_hp, opp_hp, match_outcome, other_outcome, self_elo_delta, opponent_elo_delta,
}
use geoduels.Home.Names.{get_self_queue_name}
use geoduels.Home.Rounds.{IsGuessing, finalize_only_in_round}
use geoduels.Home.Opponents.{AreOpponents, opponents_agree}
use geoduels.Home.Rivals.{is_rival, opponent_is_rival}

abbrev player : String → ℕ → SnapshotPlayer
player id hp = record {
  user_id = id;
  display_name = id;
  mmr = 700;
  avatar_url = none;
  is_guest = none;
  is_admin = none;
  team_id = none;
  hp = hp;
  total_score = none;
  finalized = false;
  disconnected = false;
}

abbrev round : CurrentRound
round = record { round_id = "r2"; round_number = 2; timer_started = some true }

abbrev preview : ℕ → RatingDeltaPreview
preview n = record { win = n; lose = n + 1; draw = n + 2 }

abbrev duel : Snapshot
duel = record {
  match_id = "m1";
  mode = some Mode.duel;
  config = none;
  unranked = none;
  round_results = none;
  teams = [];
  rating_preview = ("u1", preview 10) ∷ ("u2", preview 20) ∷ [];
  state = "active";
  phase = Phase.live;
  round_phase = RoundPhase.round_live;
  phase_ends_at = 90_000;
  round_ms_left = 0;
  current_round = some round;
  last_round_result = none;
  players = ("u1", player "u1" 5100) ∷ ("u2", player "u2" 6000) ∷ [];
  self = none;
  event_sequence = 4;
  server_unix_ms = none;
}

abbrev page : String → Params
page user = record {
  auth = record Session.initial_state { user_id = user };
  match_state = record Match.initial_state { snapshot = some duel };
  game = record Game.initial_state {
    guess = some (record { lat = 1; lng = 2 });
    display_round_seconds = 75;
  };
  round_duration_ms = 45_000;
  home_resume_match_id = "";
  route_match_id = some "m1";
}

clock_of_page : (mm (page "u1") ≡ b'0' ∷ b'1' ∷ []) × (ss (page "u1") ≡ b'1' ∷ b'5' ∷ [])
unfolding mm ss
clock_of_page = (refl, refl)

name_from_email :
    get_self_queue_name (record Session.initial_state { user_id = "u1"; user_email = "ada@x.org" })
    ≡ "ada"
unfolding get_self_queue_name Session.initial_state
name_from_email = refl

clock_text_lem_example :
    AreDigits (minutes_text 6_075)
    × AreDigits (seconds_text 6_075)
    × (spelled 0 (minutes_text 6_075) * 60 + spelled 0 (seconds_text 6_075) ≡ 6_075)
    × (spelled 0 (seconds_text 6_075) < 60)
    × (length (seconds_text 6_075) ≡ 2)
    × ((length (minutes_text 6_075) ≡ 2) ⊎ (leads (minutes_text 6_075) ≡ true))
clock_text_lem_example = clock_text_lem 6_075

finalize_only_in_round_example :
    ((s : Snapshot) × (snapshot (page "u1") ≡ some s) × IsGuessing (page "u1") s)
    × (ui_phase (page "u1") ≡ live_round)
    × (show_result_stage (page "u1") ≡ false)
    × (in_game (page "u1") ≡ true)
unfolding can_finalize_guess Match.initial_state Game.initial_state Session.initial_state
finalize_only_in_round_example = finalize_only_in_round (page "u1") refl

page-AreOpponents : AreOpponents (page "u1") (page "u2") duel (player "u1" 5100) (player "u2" 6000)
unfolding snapshot show_result_stage Match.initial_state Game.initial_state Session.initial_state
page-AreOpponents = record {
  first_sees = refl;
  second_sees = refl;
  is_duel = refl;
  two_players = refl;
  apart = refl;
  named = (refl, refl);
  same_first = refl;
  same_second = refl;
  no_stage = (refl, refl);
}

opponents_agree_example :
    (self_hp (page "u2") ≡ opp_hp (page "u1"))
    × (opp_hp (page "u2") ≡ self_hp (page "u1"))
    × (match_outcome (page "u2") ≡ other_outcome (match_outcome (page "u1")))
    × (self_elo_delta (page "u2") ≡ opponent_elo_delta (page "u1"))
    × (self_elo_delta (page "u1") ≡ opponent_elo_delta (page "u2"))
opponents_agree_example =
    opponents_agree (page "u1") (page "u2") duel (player "u1" 5100) (player "u2" 6000)
      page-AreOpponents

abbrev in_team : String → SnapshotPlayer → SnapshotPlayer
in_team team q = record q { team_id = some team }

abbrev team_duel : Snapshot
team_duel = record duel {
  mode = some Mode.team_duel;
  players =
      ("u3", in_team "a" (player "u3" 6000))
      ∷ ("u1", in_team "a" (player "u1" 6000))
      ∷ ("u2", in_team "b" (player "u2" 6000))
      ∷ [];
}

abbrev team_page : Params
team_page = record (page "u1") {
  match_state = record Match.initial_state { snapshot = some team_duel };
}

opponent_of_team : opp_id team_page ≡ "u2"
unfolding opp_id Match.initial_state Session.initial_state
opponent_of_team = refl

opponent_is_rival_example :
    ((q : SnapshotPlayer) × (lookup (opp_id team_page) (players_of (snapshot team_page)) ≡ some q)
      × (is_rival team_page (opp_id team_page) q ≡ true))
    ⊎ ((opp_id team_page ≡ "") × (is_rival team_page "u3" (in_team "a" (player "u3" 6000)) ≡ false))
unfolding snapshot Match.initial_state Session.initial_state
opponent_is_rival_example =
    opponent_is_rival team_page "u3" (in_team "a" (player "u3" 6000)) (refl, (refl, (refl, tt)))
      refl

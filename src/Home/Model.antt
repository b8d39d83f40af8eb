-- ===== src/Home/Model.antt =====
-- features/home/model/derive-home-model.ts: the part of `deriveHomeModel` that reads the match and the
-- game. Each constant of the function is a definition over its parameters.
use geoduels.Base.{
  ℕ, zero, suc, String, Bool, true, false, Option, none, some, List, [], ◌∷◌, if◌then◌else◌, ◌==◌,
  string_eq, or_else, or_option, or_text, truthy, not, ◌&&◌, ◌||◌, leb, is_some,
}
use geoduels.Snapshot.{
  Snapshot, SnapshotPlayer, SnapshotTeam, RoundResult, Mode, lookup, is_live, is_round_live,
}
use geoduels.Matchmaking.{MatchmakingStatus}
use geoduels.Match.State.{MatchState}
use geoduels.Auth.State.{SessionState}
use geoduels.Game.State.{GameState}
use geoduels.UiPhase.{
  UiPhase, derive_ui_phase, is_round_result, prematch_countdown, live_round, round_result,
  match_end,
}
use geoduels.Home.Decimal.{minutes_text, seconds_text}

-- The parameters that are read here; of the configuration the length of a round.
pub record Params : Type 0 where
  pub auth : SessionState
  pub match_state : MatchState
  pub game : GameState
  pub round_duration_ms : ℕ
  pub home_resume_match_id : String
  pub route_match_id : Option String

abbrev snapshot_match_id : Option Snapshot → String
snapshot_match_id none = ""
snapshot_match_id (some s) = s.match_id

unfoldable pub active_match_id : Params → String
active_match_id p =
    or_text p.home_resume_match_id
      (or_text p.match_state.active_match_id (snapshot_match_id p.match_state.snapshot))

-- The snapshot of the match whose page is open.
unfoldable pub snapshot_of : Option Snapshot → String → Option Snapshot
snapshot_of none route = none
snapshot_of (some s) route = if truthy route && s.match_id == route then some s else none

unfoldable pub snapshot : Params → Option Snapshot
unfolding snapshot_of
snapshot p = snapshot_of p.match_state.snapshot (or_else p.route_match_id "")

abbrev pub mode_or_duel : Option Mode → Mode
mode_or_duel none = Mode.duel
mode_or_duel (some m) = m

unfoldable pub mode_of : Option Snapshot → Mode
mode_of none = Mode.duel
mode_of (some s) = mode_or_duel s.mode

abbrev pub is_single : Mode → Bool
is_single Mode.singleplayer = true
is_single _ = false

abbrev pub is_team : Mode → Bool
is_team Mode.team_duel = true
is_team _ = false

abbrev pub is_free : Mode → Bool
is_free Mode.free_for_all = true
is_free _ = false

abbrev pub is_duel : Mode → Bool
is_duel Mode.duel = true
is_duel _ = false

abbrev pub is_points : Mode → Bool
is_points m = is_single m || is_free m

abbrev pub players_of : Option Snapshot → List (String × SnapshotPlayer)
players_of none = []
players_of (some s) = s.players

abbrev pub teams_of : Option Snapshot → List (String × SnapshotTeam)
teams_of none = []
teams_of (some s) = s.teams

-- `player?.teamId || "a"`.
abbrev pub team_id_of : Option SnapshotPlayer → String
team_id_of none = "a"
team_id_of (some q) = or_text (or_else q.team_id "") "a"

-- The first key with another team, and the first other key.
abbrev pub first_of_other_team : String → List (String × SnapshotPlayer) → String
first_of_other_team team [] = ""
first_of_other_team team ((id, q) ∷ qs) =
    if not (team_id_of (some q) == team) then id else first_of_other_team team qs

abbrev pub first_other {ℓ} : {A : Type ℓ} → String → List (String × A) → String
first_other self [] = ""
first_other self ((id, q) ∷ qs) = if not (id == self) then id else first_other self qs

unfoldable pub self_team_id : Params → String
unfolding snapshot
self_team_id p = team_id_of (lookup p.auth.user_id (players_of (snapshot p)))

unfoldable pub opp_id : Params → String
unfolding snapshot mode_of self_team_id
opp_id p =
    if is_team (mode_of (snapshot p))
    then first_of_other_team (self_team_id p) (players_of (snapshot p))
    else first_other p.auth.user_id (players_of (snapshot p))

unfoldable pub opp_team_id : Params → String
unfolding snapshot mode_of self_team_id
opp_team_id p =
    if is_team (mode_of (snapshot p))
    then first_other (self_team_id p) (teams_of (snapshot p))
    else ""

abbrev pub status_text : MatchmakingStatus → String
status_text MatchmakingStatus.idle = "idle"
status_text MatchmakingStatus.ready = "ready"
status_text MatchmakingStatus.queueing = "queueing"
status_text MatchmakingStatus.matched_connecting = "matched_connecting"
status_text MatchmakingStatus.in_match = "in_match"
status_text MatchmakingStatus.recovering = "recovering"
status_text MatchmakingStatus.abandoned = "abandoned"

-- A countdown that is over is shown as the round.
unfoldable pub started_phase : UiPhase → ℕ → UiPhase
started_phase prematch_countdown ms = if leb ms 0 then live_round else prematch_countdown
started_phase phase ms = phase

unfoldable pub ui_phase : Params → UiPhase
unfolding snapshot derive_ui_phase started_phase
ui_phase p =
    started_phase (derive_ui_phase (snapshot p) (status_text p.match_state.matchmaking.status))
      p.game.round_ms_left

-- `snapshot.lastRoundResult`, or the result that the game keeps of this match.
abbrev kept_result : Option (String × RoundResult) → String → Option RoundResult
kept_result none id = none
kept_result (some (match_id, r)) id = if truthy id && match_id == id then some r else none

unfoldable pub round_result_of :
    Option Snapshot → Option (String × RoundResult) → Option RoundResult
round_result_of none kept = none
round_result_of (some s) kept = or_option s.last_round_result (kept_result kept s.match_id)

unfoldable pub shown_result : Params → Option RoundResult
unfolding snapshot round_result_of
shown_result p = round_result_of (snapshot p) p.game.persisted_round_result_ctx

abbrev one_of : Option RoundResult → List RoundResult
one_of none = []
one_of (some r) = r ∷ []

abbrev results_or : List RoundResult → Option RoundResult → List RoundResult
results_or [] o = one_of o
results_or (r ∷ rs) o = r ∷ rs

unfoldable pub round_results : Params → List RoundResult
unfolding snapshot shown_result
round_results p = elim (snapshot p) [
  | none ↦ []
  | some s ↦ results_or (or_else s.round_results []) (shown_result p)
]

abbrev pub stage_of : UiPhase → Bool → Bool → Bool
stage_of round_result has_result end_page = true
stage_of prematch_countdown has_result end_page = has_result
stage_of match_end has_result end_page = not end_page
stage_of _ has_result end_page = false

unfoldable pub show_result_stage : Params → Bool
unfolding ui_phase shown_result
show_result_stage p = stage_of (ui_phase p) (is_some (shown_result p)) p.game.show_match_end_page

abbrev pub is_in_game : UiPhase → Bool
is_in_game live_round = true
is_in_game prematch_countdown = true
is_in_game round_result = true
is_in_game match_end = true
is_in_game _ = false

unfoldable pub in_game : Params → Bool
unfolding ui_phase
in_game p = is_in_game (ui_phase p)

abbrev pub is_live_round : UiPhase → Bool
is_live_round live_round = true
is_live_round _ = false

abbrev pub is_open : Option Snapshot → Bool
is_open none = false
is_open (some s) = is_some s.current_round && is_live s.phase && is_round_live s.round_phase

unfoldable pub can_finalize_guess : Params → Bool
unfolding snapshot ui_phase
can_finalize_guess p =
    is_open (snapshot p)
    && is_some p.game.guess
    && not p.game.guess_submitted
    && is_live_round (ui_phase p)

abbrev is_between_rounds : Option Snapshot → Bool
is_between_rounds none = false
is_between_rounds (some s) = is_round_result s.phase && not (s.state == "ended")

unfoldable pub can_advance_round : Params → Bool
unfolding snapshot mode_of
can_advance_round p = is_single (mode_of (snapshot p)) && is_between_rounds (snapshot p)

-- `snapshot?.currentRound?.roundNumber || roundResult?.roundNumber || 1`.
abbrev or_number : ℕ → ℕ → ℕ
or_number zero n = n
or_number (suc k) n = suc k

abbrev round_number_of : Option Snapshot → ℕ
round_number_of none = 0
round_number_of (some s) = elim s.current_round [ none ↦ 0 | some r ↦ r.round_number ]

unfoldable pub current_round_number : Params → ℕ
unfolding snapshot shown_result
current_round_number p =
    or_number (round_number_of (snapshot p))
      (or_number (elim (shown_result p) [ none ↦ 0 | some r ↦ r.round_number ]) 1)

-- `damageMultiplier`, in halves.
unfoldable pub damage_multiplier_halves : Params → ℕ
unfolding current_round_number
damage_multiplier_halves p = if leb (current_round_number p) 2 then 2 else current_round_number p

abbrev has_started : Option Snapshot → Bool
has_started none = false
has_started (some s) =
    is_live s.phase
    && is_round_live s.round_phase
    && (elim s.current_round [ none ↦ false | some r ↦ or_else r.timer_started false ])

unfoldable pub is_round_timer_running : Params → Bool
unfolding snapshot mode_of
is_round_timer_running p = is_single (mode_of (snapshot p)) || has_started (snapshot p)

unfoldable pub hide_round_clock : Params → Bool
unfolding ui_phase is_round_timer_running
hide_round_clock p = is_live_round (ui_phase p) && not (is_round_timer_running p)

unfoldable pub mm : Params → List ℕ
unfolding hide_round_clock minutes_text
mm p = if hide_round_clock p then b'-' ∷ b'-' ∷ [] else minutes_text p.game.display_round_seconds

unfoldable pub ss : Params → List ℕ
unfolding hide_round_clock seconds_text
ss p = if hide_round_clock p then b'-' ∷ b'-' ∷ [] else seconds_text p.game.display_round_seconds

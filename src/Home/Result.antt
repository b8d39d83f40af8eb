-- ===== src/Home/Result.antt =====
-- features/home/model/derive-home-model.ts: the health, the results, the timers and the outcome that
-- are shown.
use geoduels.Base.{
  ℕ, zero, suc, ◌+◌, ◌-◌, String, Bool, true, false, Option, none, some, List, [], ◌∷◌,
  if◌then◌else◌, ◌==◌, nat_eq, string_eq, or_else, or_option, truthy, not, ◌&&◌, ltb, leb, is_some,
  length,
}
use geoduels.Snapshot.{
  Snapshot, SnapshotPlayer, SnapshotTeam, PlayerResult, RoundResult, RatingDeltaPreview,
  MatchConfig, RoundTimerMode, lookup, is_live,
}
use geoduels.Game.State.{ResultPhase}
use geoduels.UiPhase.{UiPhase, round_result, match_end}
use geoduels.Home.Model.{
  Params, snapshot, mode_of, is_team, is_points, is_duel, players_of, teams_of, self_team_id,
  opp_id, opp_team_id, ui_phase, shown_result, show_result_stage, is_round_timer_running,
}

abbrev pub team_hp : Option SnapshotTeam → Option ℕ
team_hp none = none
team_hp (some t) = t.hp

abbrev pub player_hp : Option SnapshotPlayer → Option ℕ
player_hp none = none
player_hp (some q) = some q.hp

unfoldable pub self_team_hp : Params → Option ℕ
unfolding snapshot mode_of self_team_id
self_team_hp p =
    if is_team (mode_of (snapshot p))
    then team_hp (lookup (self_team_id p) (teams_of (snapshot p)))
    else none

unfoldable pub opp_team_hp : Params → Option ℕ
unfolding snapshot mode_of opp_team_id
opp_team_hp p =
    if is_team (mode_of (snapshot p)) && truthy (opp_team_id p)
    then team_hp (lookup (opp_team_id p) (teams_of (snapshot p)))
    else none

-- `teamHP ?? displayHP[id] ?? players[id]?.hp ?? 0`.
abbrev pub hp_or : Option ℕ → Option ℕ → Option ℕ → ℕ
hp_or team shown live = or_else (or_option team (or_option shown live)) 0

unfoldable pub live_self_hp : Params → ℕ
unfolding snapshot self_team_hp
live_self_hp p =
    let id = p.auth.user_id in
    hp_or (self_team_hp p) (lookup id p.game.display_hp)
      (player_hp (lookup id (players_of (snapshot p))))

unfoldable pub live_opp_hp : Params → ℕ
unfolding snapshot opp_team_hp opp_id
live_opp_hp p =
    let id = opp_id p in
    hp_or (opp_team_hp p) (lookup id p.game.display_hp)
      (player_hp (lookup id (players_of (snapshot p))))

unfoldable pub self_hp : Params → ℕ
unfolding live_self_hp show_result_stage
self_hp p = if show_result_stage p then p.game.result_shown_hp.self else live_self_hp p

unfoldable pub opp_hp : Params → ℕ
unfolding live_opp_hp show_result_stage
opp_hp p = if show_result_stage p then p.game.result_shown_hp.opp else live_opp_hp p

abbrev total_of : Option SnapshotPlayer → ℕ
total_of none = 0
total_of (some q) = or_else q.total_score 0

unfoldable pub total_score : Params → ℕ
unfolding snapshot
total_score p = total_of (lookup p.auth.user_id (players_of (snapshot p)))

-- `snapshot?.config || {}`.
abbrev config_of : Option Snapshot → MatchConfig
config_of none = record {
  game_ruleset = none;
  round_time_limit_ms = none;
  round_timer_mode = none;
  pressure_time_limit_ms = none;
}
config_of (some s) = or_else s.config (record {
  game_ruleset = none;
  round_time_limit_ms = none;
  round_timer_mode = none;
  pressure_time_limit_ms = none;
})

abbrev is_pressure : Option RoundTimerMode → Bool
is_pressure (some RoundTimerMode.pressure) = true
is_pressure _ = false

abbrev is_fixed : Option RoundTimerMode → Bool
is_fixed (some RoundTimerMode.fixed) = true
is_fixed _ = false

abbrev positive_or : Option ℕ → ℕ → ℕ
positive_or none n = n
positive_or (some zero) n = n
positive_or (some (suc k)) n = suc k

unfoldable pub pressure_time_limit_ms : MatchConfig → ℕ
pressure_time_limit_ms c =
    positive_or c.pressure_time_limit_ms (if is_pressure c.round_timer_mode then 15_000 else 0)

abbrev count_finalized : List (String × SnapshotPlayer) → ℕ
count_finalized [] = 0
count_finalized ((id, q) ∷ qs) = (if q.finalized then 1 else 0) + count_finalized qs

unfoldable pub pressure_timer_active : Params → Bool
unfolding snapshot pressure_time_limit_ms
pressure_timer_active p =
    let qs = players_of (snapshot p) in
    ltb 0 (pressure_time_limit_ms (config_of (snapshot p)))
    && ltb 0 (count_finalized qs)
    && ltb (count_finalized qs) (length qs)

unfoldable pub round_time_limit_ms : Params → ℕ
unfolding snapshot pressure_time_limit_ms pressure_timer_active
round_time_limit_ms p =
    let c = config_of (snapshot p) in
    if pressure_timer_active p
    then pressure_time_limit_ms c
    else if is_fixed c.round_timer_mode
    then or_else c.round_time_limit_ms p.round_duration_ms
    else p.round_duration_ms

abbrev is_live_snapshot : Option Snapshot → Bool
is_live_snapshot none = false
is_live_snapshot (some s) = is_live s.phase

unfoldable pub is_timer_critical : Params → Bool
unfolding snapshot is_round_timer_running
is_timer_critical p =
    is_round_timer_running p && is_live_snapshot (snapshot p) && leb p.game.round_ms_left 15_000

unfoldable pub is_timer_pulse_active : Params → Bool
unfolding snapshot is_round_timer_running
is_timer_pulse_active p =
    is_round_timer_running p && is_live_snapshot (snapshot p) && ltb p.game.round_ms_left 5_000

abbrev is_results_phase : UiPhase → Bool
is_results_phase round_result = true
is_results_phase match_end = true
is_results_phase _ = false

unfoldable pub result_mode : Params → Bool
unfolding ui_phase
result_mode p = is_results_phase (ui_phase p)

abbrev score_in : String → List (String × PlayerResult) → Option ℕ
score_in id rs = elim (lookup id rs) [ none ↦ none | some r ↦ some r.score ]

-- The scores of the result that is shown, a team's where there are teams; no key is empty.
abbrev own_score : Option RoundResult → Bool → String → String → Option ℕ
own_score none team team_id id = none
own_score (some r) team team_id id =
    or_option (if team && truthy team_id then score_in team_id r.teams else none)
      (if truthy id then score_in id r.players else none)

unfoldable pub overlay_self_score : Params → Option ℕ
unfolding snapshot mode_of shown_result self_team_id
overlay_self_score p =
    own_score (shown_result p) (is_team (mode_of (snapshot p))) (self_team_id p) p.auth.user_id

unfoldable pub overlay_opp_score : Params → Option ℕ
unfolding snapshot mode_of shown_result opp_team_id opp_id
overlay_opp_score p =
    own_score (shown_result p) (is_team (mode_of (snapshot p))) (opp_team_id p) (opp_id p)

pub data Winner : Type 0 where
  self opp tie : Winner

abbrev pub winner_of : Option ℕ → Option ℕ → Winner
winner_of (some a) (some b) = if a == b then tie else if ltb b a then self else opp
winner_of _ _ = tie

unfoldable pub result_winner : Params → Winner
unfolding snapshot mode_of overlay_self_score overlay_opp_score
result_winner p =
    if is_points (mode_of (snapshot p))
    then tie
    else winner_of (overlay_self_score p) (overlay_opp_score p)

-- `Math.abs(a - b)`.
abbrev pub damage_of : Option ℕ → Option ℕ → ℕ
damage_of (some a) (some b) = (a - b) + (b - a)
damage_of _ _ = 0

unfoldable pub result_damage : Params → ℕ
unfolding snapshot mode_of overlay_self_score overlay_opp_score
result_damage p =
    if is_points (mode_of (snapshot p))
    then 0
    else damage_of (overlay_self_score p) (overlay_opp_score p)

abbrev is_base : ResultPhase → Bool
is_base ResultPhase.base = true
is_base _ = false

unfoldable pub show_score_reveal : Params → Bool
show_score_reveal p = not (is_base p.game.result_phase)

pub data Outcome : Type 0 where
  win lose draw : Outcome

abbrev pub outcome_of : ℕ → ℕ → Outcome
outcome_of a b = if a == b then draw else if ltb b a then win else lose

unfoldable pub match_outcome : Params → Outcome
unfolding self_hp opp_hp
match_outcome p = outcome_of (self_hp p) (opp_hp p)

abbrev pub is_ranked : Option Snapshot → Bool
is_ranked none = true
is_ranked (some s) = not (or_else s.unranked false)

unfoldable pub is_ranked_duel : Params → Bool
unfolding snapshot mode_of
is_ranked_duel p = is_duel (mode_of (snapshot p)) && is_ranked (snapshot p)

abbrev pub previews_of : Option Snapshot → List (String × RatingDeltaPreview)
previews_of none = []
previews_of (some s) = s.rating_preview

abbrev pub preview_of : Params → String → Option RatingDeltaPreview
preview_of p id =
    if is_ranked_duel p && truthy id then lookup id (previews_of (snapshot p)) else none

unfoldable pub self_rating_preview : Params → Option RatingDeltaPreview
unfolding snapshot is_ranked_duel
self_rating_preview p = preview_of p p.auth.user_id

unfoldable pub opponent_rating_preview : Params → Option RatingDeltaPreview
unfolding snapshot is_ranked_duel opp_id
opponent_rating_preview p = preview_of p (opp_id p)

-- The change that an outcome brings, and the other's outcome.
abbrev pub delta_of : Option RatingDeltaPreview → Outcome → Option ℕ
delta_of none o = none
delta_of (some r) win = some r.win
delta_of (some r) lose = some r.lose
delta_of (some r) draw = some r.draw

abbrev pub other_outcome : Outcome → Outcome
other_outcome win = lose
other_outcome lose = win
other_outcome draw = draw

unfoldable pub self_elo_delta : Params → Option ℕ
unfolding match_outcome self_rating_preview
self_elo_delta p = delta_of (self_rating_preview p) (match_outcome p)

unfoldable pub opponent_elo_delta : Params → Option ℕ
unfolding match_outcome opponent_rating_preview
opponent_elo_delta p = delta_of (opponent_rating_preview p) (other_outcome (match_outcome p))

abbrev guest_of : Option SnapshotPlayer → Bool → Bool
guest_of none otherwise = otherwise
guest_of (some q) otherwise = or_else q.is_guest otherwise

-- Whether a guest or not, both players are there and a ranked duel has ended.
abbrev has_ended : Option Snapshot → Bool
has_ended none = false
has_ended (some s) = s.state == "ended"

abbrev self_player : Params → Option SnapshotPlayer
self_player p = lookup p.auth.user_id (players_of (snapshot p))

abbrev opp_player : Params → Option SnapshotPlayer
opp_player p = if truthy (opp_id p) then lookup (opp_id p) (players_of (snapshot p)) else none

abbrev has_both_in_end : Params → Bool
has_both_in_end p =
    is_ranked_duel p && has_ended (snapshot p) && is_some (self_player p) && is_some (opp_player p)

unfoldable pub self_receives_elo_delta : Params → Bool
unfolding snapshot is_ranked_duel opp_id
self_receives_elo_delta p = has_both_in_end p && not (guest_of (self_player p) p.auth.is_guest)

unfoldable pub opponent_receives_elo_delta : Params → Bool
unfolding snapshot is_ranked_duel opp_id
opponent_receives_elo_delta p = has_both_in_end p && not (guest_of (opp_player p) false)

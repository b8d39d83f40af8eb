-- ===== src/Game/Results.antt =====
-- features/game/controllers/game-controller.ts: the result of a round and of a match.
use Prim.Native.String.{◌++◌ as ◌<>◌}
use geoduels.Base.{
  ltb, or_text, ℕ, String, Bool, true, false, Option, none, some, List, [], ◌∷◌, if◌then◌else◌,
  ◌==◌, string_eq, truthy, not, ◌&&◌, ◌||◌, or_else, is_some,
}
use geoduels.Config.{RuntimeConfig}
use geoduels.Snapshot.{Snapshot, PlayerResult, RoundResult, is_singleplayer, lookup}
use geoduels.Game.State.{
  GameController, ShownHp, ResultPhase, scores, hp_apply, Scheduled, plays_sfx, schedule,
}
use geoduels.Game.Sounds.{play_result_exit_sfx}
use geoduels.Game.Health.{
  is_free_for_all, is_team_duel, is_result_phase, total_score, hp_of, get_animated_start_hp,
  team_of, other_team_id, other_id,
}

-- The results of the two sides of a duel, with the id that stands for the opponent.
abbrev pub opponent_id : Snapshot → String → String
opponent_id s user =
    if is_team_duel s.mode
    then other_team_id s (team_of s user "a") s.players
    else other_id user s.players

abbrev pub self_result : Snapshot → String → RoundResult → Option PlayerResult
self_result s user r =
    if is_team_duel s.mode then lookup (team_of s user "a") r.teams else lookup user r.players

abbrev pub opponent_result : Snapshot → String → RoundResult → Option PlayerResult
opponent_result s user r =
    let id = opponent_id s user in
    if is_team_duel s.mode then lookup (team_of s id "b") r.teams else lookup id r.players

-- The animation of a duel's result, from the health before it.
unfoldable pub animate_result :
    RuntimeConfig
    → GameController
    → Snapshot
    → String
    → RoundResult
    → Option PlayerResult
    → Option PlayerResult
    → GameController
unfolding get_animated_start_hp schedule
animate_result config g s user r (some mine) (some theirs) =
    let opp = opponent_id s user in
    let start : ShownHp = record {
      self =
          get_animated_start_hp config g s user (or_else mine.hp_after_round 0)
            (or_else (hp_of s user) 0);
      opp =
          get_animated_start_hp config g s opp (or_else theirs.hp_after_round 0)
            (or_else (hp_of s opp) 0);
    } in
    schedule
      (plays_sfx
        (record g {
          result_anim_round = r.round_id;
          state = record (g.state) { show_match_end_page = false; result_shown_hp = start };
        })
        "duel-round-result-enter")
      mine theirs
animate_result config g s user r mine theirs = g

-- A result of a game that has no health.
unfoldable pub show_score : GameController → RoundResult → ℕ → GameController
show_score g r score =
    if g.result_anim_round == r.round_id
    then g
    else plays_sfx
        (plays_sfx
          (record g {
            result_animation = none;
            result_anim_round = r.round_id;
            state = record (g.state) {
              show_match_end_page = false;
              result_phase = hp_apply;
              result_shown_hp = record { self = score; opp = 0 };
            };
          })
          "duel-round-result-enter")
        "duel-round-result-score-reveal"

unfoldable pub sync_result_animation_of :
    RuntimeConfig → GameController → Snapshot → String → Option RoundResult → GameController
unfolding animate_result show_score
sync_result_animation_of config g s user none = record g { result_animation = none }
sync_result_animation_of config g s user (some r) =
    if not (truthy s.match_id)
    then record g { result_animation = none }
    else if is_singleplayer s.mode || is_free_for_all s.mode
    then show_score g r (total_score s user)
    else if not (is_result_phase s.phase) && not (s.state == "ended")
    then record g { result_animation = none }
    else if g.result_anim_round == r.round_id
    then g
    else animate_result config g s user r (self_result s user r) (opponent_result s user r)

unfoldable pub sync_result_animation :
    RuntimeConfig → GameController → Option Snapshot → String → GameController
unfolding sync_result_animation_of
sync_result_animation config g none user = record g { result_animation = none }
sync_result_animation config g (some s) user =
    sync_result_animation_of config g s user s.last_round_result

-- `${snapshot?.matchId || 'match'}:${lastRoundResult?.roundId || 'recovered'}:round-result-hide`.
exit_key : Option Snapshot → String
exit_key none = "match:recovered:round-result-hide"
exit_key (some s) =
    or_text s.match_id "match"
    <> (":"
        <> (or_text (elim s.last_round_result [ none ↦ "" | some r ↦ r.round_id ]) "recovered"
            <> ":round-result-hide"))

-- `setShowMatchEndPage`.
unfoldable pub set_show_match_end_page : GameController → Option Snapshot → Bool → GameController
unfolding play_result_exit_sfx exit_key
set_show_match_end_page g s value =
    let key = exit_key s in
    let left =
      (if value && not g.state.show_match_end_page then play_result_exit_sfx g key else g) in
    record left { state = record (left.state) { show_match_end_page = value } }

-- A match that had ended before this page saw it: its end is shown, without an animation.
unfoldable pub sync_recovered_ended_match :
    GameController → Option Snapshot → String → GameController
sync_recovered_ended_match g none user = g
sync_recovered_ended_match g (some s) user =
    if not (s.state == "ended") || is_some s.last_round_result || g.state.show_match_end_page
    then g
    else if is_singleplayer s.mode || is_free_for_all s.mode
    then record g {
      state = record (g.state) {
        result_phase = hp_apply;
        show_match_end_page = false;
        result_shown_hp = record { self = total_score s user; opp = 0 };
      };
    }
    else record g {
      state = record (g.state) {
        result_phase = hp_apply;
        show_match_end_page = true;
        result_shown_hp = record {
          self = or_else (hp_of s user) 0;
          opp = or_else (hp_of s (other_id user s.players)) 0;
        };
      };
    }

-- What the last timer of an animation applies.
unfoldable pub apply_hp : GameController → PlayerResult → PlayerResult → GameController
apply_hp g mine theirs =
    let hit = ltb 0 (or_else mine.damage_taken 0) || ltb 0 (or_else theirs.damage_taken 0) in
    let heard = (if hit then plays_sfx g "duel-round-result-hp-hit" else g) in
    record heard {
      state = record (heard.state) {
        result_phase = hp_apply;
        result_shown_hp = record {
          self = or_else mine.hp_after_round 0;
          opp = or_else theirs.hp_after_round 0;
        };
      };
    }

-- The handler of a timer of the animation.
unfoldable pub show_phase : GameController → Scheduled → ResultPhase → GameController
unfolding apply_hp
show_phase g a hp_apply = apply_hp g a.self_result a.opp_result
show_phase g a scores =
    plays_sfx (record g { state = record (g.state) { result_phase = scores } })
      "duel-round-result-score-reveal"
show_phase g a phase = record g { state = record (g.state) { result_phase = phase } }

-- The next timer of the animation fires.
unfoldable pub fire_animation : GameController → Scheduled → List ResultPhase → GameController
unfolding show_phase
fire_animation g a [] = g
fire_animation g a (phase ∷ phases) =
    show_phase (record g { result_animation = some (record a { pending = phases }) }) a phase

unfoldable pub animation_fires : GameController → GameController
unfolding fire_animation
animation_fires g = elim g.result_animation [ none ↦ g | some a ↦ fire_animation g a a.pending ]

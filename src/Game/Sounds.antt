-- ===== src/Game/Sounds.antt =====
-- features/game/controllers/game-controller.ts: the sounds of a round, each once for its key.
use Prim.Native.String.{◌++◌ as ◌<>◌}
use geoduels.Base.{
  ℕ, String, Bool, true, false, Option, none, some, List, [], ◌∷◌, if◌then◌else◌, ◌==◌, string_eq,
  nat_eq, truthy, not, ◌&&◌, ◌||◌, ltb, or_text, is_some,
}
use geoduels.Snapshot.{
  Snapshot, SnapshotPlayer, is_live, is_round_live, is_round_intro, is_singleplayer, lookup,
  current_round_id,
}
use geoduels.Game.State.{GameController, plays, plays_managed, plays_sfx, has, stop_round_countdown}

-- A guess is heard once for each match, round and player.
unfoldable pub play_guess_sfx : GameController → String → String → String → GameController
play_guess_sfx g match_id round_id player_id =
    let key = match_id <> (":" <> (round_id <> (":guess:" <> player_id))) in
    if has key g.guess_sfx_keys then g else record g {
      guess_sfx_keys = key ∷ g.guess_sfx_keys;
      log = plays "duel-round-guess" ∷ g.log;
    }

unfoldable pub play_result_exit_sfx : GameController → String → GameController
play_result_exit_sfx g key = if has key g.result_exit_sfx_keys then g else record g {
  result_exit_sfx_keys = key ∷ g.result_exit_sfx_keys;
  log = plays "duel-round-result-exit" ∷ g.log;
}

-- A live round that is played.
abbrev pub is_playing : Snapshot → Bool
is_playing s = is_live s.phase && is_round_live s.round_phase

-- `next.currentRound?.roundNumber === 1`.
abbrev is_first_round : Snapshot → Bool
is_first_round s = elim s.current_round [ none ↦ false | some r ↦ r.round_number == 1 ]

-- `current.currentRound?.roundId === id`.
abbrev pub is_round : Snapshot → String → Bool
is_round s id = elim s.current_round [ none ↦ false | some r ↦ r.round_id == id ]

abbrev is_new_live_round : Option Snapshot → Snapshot → String → Bool
is_new_live_round none next id = true
is_new_live_round (some prev) next id =
    not (prev.match_id == next.match_id) || not (is_round prev id) || not (is_playing prev)

unfoldable pub sync_game_start_sfx :
    GameController → Option Snapshot → Option Snapshot → GameController
sync_game_start_sfx g prev none = g
sync_game_start_sfx g prev (some next) =
    let id = current_round_id next in
    let key = next.match_id <> ":game-start" in
    if is_singleplayer next.mode
      && is_playing next
      && truthy id
      && is_first_round next
      && is_new_live_round prev next id
      && not (key == g.game_start_sfx_key)
    then plays_sfx (record g { game_start_sfx_key = key }) "duel-game-start"
    else g

-- A player that is in the last snapshot, and has finalized its guess since.
abbrev pub is_newly_finalized : Option SnapshotPlayer → SnapshotPlayer → Bool
is_newly_finalized none p = false
is_newly_finalized (some old) p = not old.finalized && p.finalized

-- The players that have finalized their guess since the last snapshot.
unfoldable pub play_new_guesses :
    GameController → Snapshot → Snapshot → String → List (String × SnapshotPlayer) → GameController
unfolding play_guess_sfx
play_new_guesses g prev next id [] = g
play_new_guesses g prev next id ((player, p) ∷ ps) =
    let is_new = is_newly_finalized (lookup player prev.players) p in
    play_new_guesses (if is_new then play_guess_sfx g next.match_id id player else g) prev next id
      ps

-- `next.currentRound?.roundId || next.lastRoundResult?.roundId || ''`.
abbrev pub round_or_result_id : Snapshot → String
round_or_result_id s =
    or_text (current_round_id s) (elim s.last_round_result [ none ↦ "" | some r ↦ r.round_id ])

-- `!!next.lastRoundResult?.players?.[id]`.
abbrev pub has_round_result : Snapshot → String → Bool
has_round_result s id = elim s.last_round_result [
  | none ↦ false
  | some r ↦ is_some (lookup id r.players)
]

unfoldable pub sync_guess_sfx :
    GameController → Option Snapshot → Option Snapshot → String → GameController
unfolding play_guess_sfx play_new_guesses
sync_guess_sfx g (some prev) (some next) user =
    let id = round_or_result_id next in
    if not (prev.match_id == next.match_id)
      || not (truthy id)
      || not (is_round prev id)
      || not (is_playing prev)
    then g
    else if is_singleplayer next.mode
    then (if has_round_result next user then play_guess_sfx g next.match_id id user else g)
    else play_new_guesses g prev next id next.players
sync_guess_sfx g prev next user = g

unfoldable pub sync_countdown_loop_snapshot : GameController → Option Snapshot → GameController
unfolding stop_round_countdown
sync_countdown_loop_snapshot g none = stop_round_countdown g
sync_countdown_loop_snapshot g (some s) =
    if is_singleplayer s.mode || not (is_playing s) then stop_round_countdown g else g

sync_intro_countdown_sfx : GameController → Snapshot → ℕ → GameController
sync_intro_countdown_sfx g s seconds =
    let key = s.match_id <> (":" <> (current_round_id s <> ":intro")) in
    if ltb seconds 1 || ltb 3 seconds || key == g.intro_countdown_sfx_key
    then g
    else plays_sfx (record g { intro_countdown_sfx_key = key }) "duel-round-result-countdown"

sync_round_intro_exit_sfx : GameController → Snapshot → ℕ → GameController
unfolding play_result_exit_sfx
sync_round_intro_exit_sfx g s seconds =
    if ltb 0 seconds
    then g
    else play_result_exit_sfx g (s.match_id <> (":" <> (current_round_id s <> ":round-intro-hide")))

sync_round_countdown : GameController → Snapshot → ℕ → GameController
sync_round_countdown g s seconds =
    if truthy g.round_countdown_sfx_key || ltb seconds 1 || ltb 15 seconds then g else record g {
      round_countdown_sfx_key = s.match_id <> (":" <> (current_round_id s <> ":round-countdown"));
      log = plays_managed "duel-round-countdown" ∷ g.log;
    }

unfoldable pub sync_round_sfx : GameController → Snapshot → ℕ → GameController
unfolding stop_round_countdown sync_intro_countdown_sfx sync_round_intro_exit_sfx
    sync_round_countdown
sync_round_sfx g s seconds =
    if is_singleplayer s.mode || not (is_live s.phase)
    then stop_round_countdown g
    else if is_round_intro s.round_phase
    then sync_round_intro_exit_sfx (sync_intro_countdown_sfx (stop_round_countdown g) s seconds) s
        seconds
    else if is_round_live s.round_phase
    then sync_round_countdown g s seconds
    else stop_round_countdown g

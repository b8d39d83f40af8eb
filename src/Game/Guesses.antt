-- ===== src/Game/Guesses.antt =====
-- features/game/controllers/game-controller.ts: the guess of a player.
use geoduels.Base.{
  ℕ, ◌≡◌, refl, ◌∙◌, ap, String, Bool, Option, none, some, List, [], ◌∷◌, arith, if◌then◌else◌,
  ◌==◌, string_eq, nat_eq, ◌&&◌, ◌||◌, Bool-cases, inl, inr,
}
use geoduels.Config.{RuntimeConfig}
use geoduels.Snapshot.{Snapshot, SnapshotPlayer, lookup, RoundResult, PlayerResult, LatLng}
use geoduels.Game.State.{GameController, stop_round_countdown, schedule}
use geoduels.Game.Sounds.{
  sync_game_start_sfx, sync_guess_sfx, play_guess_sfx, play_new_guesses,
  sync_countdown_loop_snapshot, is_playing, is_newly_finalized, round_or_result_id,
}
use geoduels.Game.Health.{sync_display_hp, show_health}
use geoduels.Game.Results.{
  sync_result_animation, sync_result_animation_of, animate_result, show_score,
  sync_recovered_ended_match,
}
use geoduels.Game.Sync.{
  handle_match_change, enter_round, sync_server_time, sync_self_guess, sync_pressure_timer_cap,
  sync_round_timer, sync_opponent_finalized, round_id_of, current_guess, is_finalized,
}

-- The guess, and whether it was submitted.
abbrev pub guess_of : GameController → Option LatLng × Bool
guess_of g = (g.state.guess, g.state.guess_submitted)

guess_of-play_guess_sfx :
    (g : GameController) (match_id id player : String)
    → guess_of (play_guess_sfx g match_id id player) ≡ guess_of g
unfolding play_guess_sfx
guess_of-play_guess_sfx g match_id id player = ground arith

guess_of-play_new_guesses :
    (ps : List (String × SnapshotPlayer)) (g : GameController) (prev next : Snapshot) (id : String)
    → guess_of (play_new_guesses g prev next id ps) ≡ guess_of g
unfolding play_new_guesses
guess_of-play_new_guesses [] g prev next id = refl
guess_of-play_new_guesses ((player, p) ∷ ps) g prev next id =
    guess_of-play_new_guesses ps _ prev next id
    ∙ elim (Bool-cases (is_newly_finalized (lookup player prev.players) p)) [
      | inl new ↦ rw new (guess_of-play_guess_sfx g next.match_id id player)
      | inr known ↦ rw known refl
    ]

guess_of-sync_game_start_sfx :
    (g : GameController) (prev s : Option Snapshot)
    → guess_of (sync_game_start_sfx g prev s) ≡ guess_of g
unfolding sync_game_start_sfx
guess_of-sync_game_start_sfx g prev s = ground arith

guess_of-sync_guess_sfx :
    (g : GameController) (prev s : Option Snapshot) (user : String)
    → guess_of (sync_guess_sfx g prev s user) ≡ guess_of g
unfolding sync_guess_sfx play_guess_sfx
guess_of-sync_guess_sfx g (some prev) (some next) user =
    ground (arith, guess_of-play_new_guesses next.players g prev next (round_or_result_id next))
guess_of-sync_guess_sfx g (some prev) none user = refl
guess_of-sync_guess_sfx g none s user = refl

guess_of-sync_countdown_loop_snapshot :
    (g : GameController) (s : Option Snapshot)
    → guess_of (sync_countdown_loop_snapshot g s) ≡ guess_of g
unfolding sync_countdown_loop_snapshot stop_round_countdown
guess_of-sync_countdown_loop_snapshot g s = ground arith

guess_of-sync_pressure_timer_cap :
    (g : GameController) (s : Option Snapshot) → guess_of (sync_pressure_timer_cap g s) ≡ guess_of g
unfolding sync_pressure_timer_cap
guess_of-sync_pressure_timer_cap g s = ground arith

guess_of-sync_round_timer :
    (g : GameController) (s : Option Snapshot) → guess_of (sync_round_timer g s) ≡ guess_of g
unfolding sync_round_timer stop_round_countdown
guess_of-sync_round_timer g s = ground arith

guess_of-sync_display_hp :
    (config : RuntimeConfig) (g : GameController) (s : Option Snapshot) (user : String)
    → guess_of (sync_display_hp config g s user) ≡ guess_of g
unfolding sync_display_hp show_health
guess_of-sync_display_hp config g s user = ground arith

guess_of-animate_result :
    (config : RuntimeConfig) (g : GameController) (s : Snapshot) (user : String) (r : RoundResult)
    (mine theirs : Option PlayerResult)
    → guess_of (animate_result config g s user r mine theirs) ≡ guess_of g
unfolding animate_result schedule
guess_of-animate_result config g s user r mine theirs = ground arith

guess_of-sync_result_animation :
    (config : RuntimeConfig) (g : GameController) (s : Option Snapshot) (user : String)
    → guess_of (sync_result_animation config g s user) ≡ guess_of g
unfolding sync_result_animation sync_result_animation_of show_score
guess_of-sync_result_animation config g none user = refl
guess_of-sync_result_animation config g (some s) user =
    ground (arith, guess_of-animate_result config g s user)

guess_of-sync_recovered_ended_match :
    (g : GameController) (s : Option Snapshot) (user : String)
    → guess_of (sync_recovered_ended_match g s user) ≡ guess_of g
unfolding sync_recovered_ended_match
guess_of-sync_recovered_ended_match g s user = ground arith

guess_of-sync_opponent_finalized :
    (g : GameController) (prev s : Option Snapshot) (user : String)
    → guess_of (sync_opponent_finalized g prev s user) ≡ guess_of g
unfolding sync_opponent_finalized
guess_of-sync_opponent_finalized g prev s user = ground arith

guess_of-sync_server_time :
    (g : GameController) (s : Option Snapshot) (now : ℕ)
    → guess_of (sync_server_time g s now) ≡ guess_of g
unfolding sync_server_time
guess_of-sync_server_time g s now = ground arith

-- The guess that a snapshot leaves: the server's own for the user in a live round, else the one at
-- hand if the round is the same, else none.
abbrev pub expected_guess : Option Snapshot → String → Bool → Option LatLng → Option LatLng
expected_guess none user is_same old = if is_same then old else none
expected_guess (some s) user is_same old =
    let kept = (if is_same then old else none) in
    if is_playing s then elim (current_guess s user) [ none ↦ kept | some at ↦ some at ] else kept

-- A guess is submitted when the server has finalized the user in a live round, or when it was before
-- in the same round.
abbrev pub expected_submitted : Option Snapshot → String → Bool → Bool → Bool
expected_submitted none user is_same old = is_same && old
expected_submitted (some s) user is_same old =
    (is_playing s && is_finalized s user) || (is_same && old)

guess_of-sync_self_guess :
    (g : GameController) (s : Option Snapshot) (user : String) (is_same submitted : Bool)
    (old : Option LatLng)
    → g.state.guess ≡ (if is_same then old else none)
    → g.state.guess_submitted ≡ (is_same && submitted)
    → guess_of (sync_self_guess g s user)
      ≡ (expected_guess s user is_same old, expected_submitted s user is_same submitted)
unfolding sync_self_guess
guess_of-sync_self_guess g s user is_same submitted old h k = ground arith

guess_of-handle_match_change :
    (config : RuntimeConfig) (g : GameController) (s : Option Snapshot) (user : String) (now : ℕ)
    → guess_of (handle_match_change config g s user now) ≡ (
      expected_guess s user (round_id_of s == g.prev_round_id) g.state.guess,
      expected_submitted s user (round_id_of s == g.prev_round_id) g.state.guess_submitted,
    )
unfolding handle_match_change enter_round
guess_of-handle_match_change config g s user now =
    let prev = g.prev_snapshot in
    let is_same = round_id_of s == g.prev_round_id in
    let entered = enter_round g s in
    let clocked = sync_server_time entered s now in
    let started = sync_game_start_sfx clocked prev s in
    let heard = sync_guess_sfx started prev s user in
    let before : guess_of heard ≡ guess_of entered =
      guess_of-sync_guess_sfx started prev s user
      ∙ guess_of-sync_game_start_sfx clocked prev s
      ∙ guess_of-sync_server_time entered s now in
    let guessed = sync_self_guess heard s user in
    let quiet = sync_countdown_loop_snapshot guessed s in
    let capped = sync_pressure_timer_cap quiet s in
    let timed = sync_round_timer capped s in
    let shown = sync_display_hp config timed s user in
    let animated = sync_result_animation config shown s user in
    let recovered = sync_recovered_ended_match animated s user in
    guess_of-sync_opponent_finalized recovered prev s user
    ∙ guess_of-sync_recovered_ended_match animated s user
    ∙ guess_of-sync_result_animation config shown s user
    ∙ guess_of-sync_display_hp config timed s user
    ∙ guess_of-sync_round_timer capped s
    ∙ guess_of-sync_pressure_timer_cap quiet s
    ∙ guess_of-sync_countdown_loop_snapshot guessed s
    ∙ guess_of-sync_self_guess heard s user is_same g.state.guess_submitted g.state.guess
        (ap (λ (p : Option LatLng × Bool). p.0) before)
        (ap (λ (p : Option LatLng × Bool). p.1) before)

-- After a change of the match the guess is the server's own for the user in a live round, else the
-- one at hand if the round is the same, else none; and it is submitted when the server has
-- finalized the user in a live round, or when it was before in the same round.
pub guess_after_change :
    (config : RuntimeConfig) (g : GameController) (s : Option Snapshot) (user : String) (now : ℕ)
    → ((handle_match_change config g s user now).state.guess
        ≡ expected_guess s user (round_id_of s == g.prev_round_id) g.state.guess)
      × ((handle_match_change config g s user now).state.guess_submitted
          ≡ expected_submitted s user (round_id_of s == g.prev_round_id) g.state.guess_submitted)
guess_after_change config g s user now =
    let all = guess_of-handle_match_change config g s user now in
    (ap (λ (p : Option LatLng × Bool). p.0) all, ap (λ (p : Option LatLng × Bool). p.1) all)

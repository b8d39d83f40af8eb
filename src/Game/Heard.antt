-- ===== src/Game/Heard.antt =====
-- features/game/controllers/game-controller.ts: how often a guess is heard.
use Prim.Native.String.{◌++◌ as ◌<>◌}
use geoduels.Base.{
  not, truthy, ℕ, suc, ◌≡◌, refl, sym, ◌∙◌, subst, String, Bool, true, false, Option, none, some,
  List, [], ◌∷◌, arith, if◌then◌else◌, ◌==◌, string_eq, nat_eq, ◌||◌, length,
}
use geoduels.Config.{RuntimeConfig}
use geoduels.Snapshot.{Snapshot, SnapshotPlayer, RoundResult, PlayerResult, lookup, is_singleplayer}
use geoduels.Game.State.{GameController, SfxCall, plays, has, stop_round_countdown, schedule}
use geoduels.Game.Sounds.{
  sync_game_start_sfx, sync_guess_sfx, play_guess_sfx, play_result_exit_sfx, play_new_guesses,
  is_newly_finalized, round_or_result_id, is_round, is_playing, has_round_result,
  sync_countdown_loop_snapshot, sync_round_sfx,
}
use geoduels.Game.Health.{sync_display_hp, show_health}
use geoduels.Game.Results.{
  sync_result_animation, sync_result_animation_of, animate_result, show_score,
  sync_recovered_ended_match,
}
use geoduels.Game.Sync.{
  handle_match_change, enter_round, sync_server_time, sync_self_guess, sync_pressure_timer_cap,
  sync_round_timer, sync_opponent_finalized,
}

abbrev pub is_guess_sound : SfxCall → Bool
is_guess_sound (plays name) = name == "duel-round-guess"
is_guess_sound _ = false

-- How often a guess was heard.
abbrev pub guesses_heard : List SfxCall → ℕ
guesses_heard [] = 0
guesses_heard (c ∷ cs) = let rest = guesses_heard cs in if is_guess_sound c then suc rest else rest

-- The number of guesses that were heard, and their keys.
abbrev pub heard_of : GameController → ℕ × List String
heard_of g = (guesses_heard g.log, g.guess_sfx_keys)

-- No key is there twice.
abbrev pub IsDistinct : List String → Type 0
IsDistinct [] = Unit
IsDistinct (k ∷ ks) = (has k ks ≡ false) × IsDistinct ks

-- As many guesses were heard as there are keys, all different.
abbrev pub IsHeardOnce : ℕ × List String → Type 0
IsHeardOnce (n, keys) = (n ≡ length keys) × IsDistinct keys

once_more-IsHeardOnce :
    (b : Bool) (n : ℕ) (keys : List String) (key : String)
    → has key keys ≡ b
    → IsHeardOnce (n, keys)
    → IsHeardOnce (if b then (n, keys) else (suc n, key ∷ keys))
once_more-IsHeardOnce true n keys key e v = v
once_more-IsHeardOnce false n keys key e (count, distinct) = (omega arith, (e, distinct))

-- `playGuessSfx`'s key.
abbrev guess_key : String → String → String → String
guess_key match_id id player = match_id <> (":" <> (id <> (":guess:" <> player)))

heard_of-play_guess_sfx :
    (g : GameController) (match_id id player : String)
    → heard_of (play_guess_sfx g match_id id player) ≡ (
        if has (guess_key match_id id player) g.guess_sfx_keys
        then heard_of g
        else (suc (guesses_heard g.log), guess_key match_id id player ∷ g.guess_sfx_keys))
unfolding play_guess_sfx
heard_of-play_guess_sfx g match_id id player = ground arith

pub play_guess_sfx-IsHeardOnce :
    (g : GameController) (match_id id player : String)
    → IsHeardOnce (heard_of g)
    → IsHeardOnce (heard_of (play_guess_sfx g match_id id player))
play_guess_sfx-IsHeardOnce g match_id id player v =
    let key = guess_key match_id id player in
    subst IsHeardOnce (sym (heard_of-play_guess_sfx g match_id id player)) (
      once_more-IsHeardOnce (has key g.guess_sfx_keys) (guesses_heard g.log) g.guess_sfx_keys key
        refl v)

pub if-IsHeardOnce :
    (b : Bool) (g h : GameController)
    → IsHeardOnce (heard_of g)
    → IsHeardOnce (heard_of h)
    → IsHeardOnce (heard_of (if b then g else h))
if-IsHeardOnce true g h v w = v
if-IsHeardOnce false g h v w = w

play_if_new-IsHeardOnce :
    (b : Bool) (g : GameController) (match_id id player : String)
    → IsHeardOnce (heard_of g)
    → IsHeardOnce (heard_of (if b then play_guess_sfx g match_id id player else g))
play_if_new-IsHeardOnce true g match_id id player v =
    play_guess_sfx-IsHeardOnce g match_id id player v
play_if_new-IsHeardOnce false g match_id id player v = v

play_new_guesses-IsHeardOnce :
    (ps : List (String × SnapshotPlayer)) (g : GameController) (prev next : Snapshot) (id : String)
    → IsHeardOnce (heard_of g)
    → IsHeardOnce (heard_of (play_new_guesses g prev next id ps))
unfolding play_new_guesses
play_new_guesses-IsHeardOnce [] g prev next id v = v
play_new_guesses-IsHeardOnce ((player, p) ∷ ps) g prev next id v =
    play_new_guesses-IsHeardOnce ps _ prev next id (
      play_if_new-IsHeardOnce (is_newly_finalized (lookup player prev.players) p) g next.match_id id
        player v)

sync_guess_sfx-IsHeardOnce :
    (g : GameController) (prev s : Option Snapshot) (user : String)
    → IsHeardOnce (heard_of g)
    → IsHeardOnce (heard_of (sync_guess_sfx g prev s user))
unfolding sync_guess_sfx
sync_guess_sfx-IsHeardOnce g none s user v = v
sync_guess_sfx-IsHeardOnce g (some prev) none user v = v
sync_guess_sfx-IsHeardOnce g (some prev) (some next) user v =
    let id = round_or_result_id next in
    if-IsHeardOnce
      (not (prev.match_id == next.match_id)
        || not (truthy id)
        || not (is_round prev id)
        || not (is_playing prev))
      g _ v
      (if-IsHeardOnce (is_singleplayer next.mode) _ _
        (play_if_new-IsHeardOnce (has_round_result next user) g next.match_id id user v)
        (play_new_guesses-IsHeardOnce next.players g prev next id v))

heard_of_before :
    (g : GameController) (prev s : Option Snapshot) (now : ℕ)
    → heard_of (sync_game_start_sfx (sync_server_time (enter_round g s) s now) prev s) ≡ heard_of g
unfolding enter_round sync_server_time sync_game_start_sfx
heard_of_before g prev s now = ground arith

heard_of-sync_self_guess :
    (g : GameController) (s : Option Snapshot) (user : String)
    → heard_of (sync_countdown_loop_snapshot (sync_self_guess g s user) s) ≡ heard_of g
unfolding sync_countdown_loop_snapshot sync_self_guess stop_round_countdown
heard_of-sync_self_guess g s user = ground arith

heard_of_timed :
    (g : GameController) (s : Option Snapshot)
    → heard_of (sync_round_timer (sync_pressure_timer_cap g s) s) ≡ heard_of g
unfolding sync_round_timer sync_pressure_timer_cap stop_round_countdown
heard_of_timed g s = ground arith

heard_of-sync_display_hp :
    (config : RuntimeConfig) (g : GameController) (s : Option Snapshot) (user : String)
    → heard_of (sync_display_hp config g s user) ≡ heard_of g
unfolding sync_display_hp show_health
heard_of-sync_display_hp config g s user = ground arith

heard_of-animate_result :
    (config : RuntimeConfig) (g : GameController) (s : Snapshot) (user : String) (r : RoundResult)
    (mine theirs : Option PlayerResult)
    → heard_of (animate_result config g s user r mine theirs) ≡ heard_of g
unfolding animate_result schedule
heard_of-animate_result config g s user r mine theirs = ground arith

heard_of-sync_result_animation :
    (config : RuntimeConfig) (g : GameController) (s : Option Snapshot) (user : String)
    → heard_of (sync_result_animation config g s user) ≡ heard_of g
unfolding sync_result_animation sync_result_animation_of show_score
heard_of-sync_result_animation config g none user = refl
heard_of-sync_result_animation config g (some s) user =
    ground (arith, heard_of-animate_result config g s user)

heard_of_after :
    (g : GameController) (prev s : Option Snapshot) (user : String)
    → heard_of (sync_opponent_finalized (sync_recovered_ended_match g s user) prev s user)
      ≡ heard_of g
unfolding sync_recovered_ended_match sync_opponent_finalized
heard_of_after g prev s user = ground arith

pub heard_of-sync_round_sfx :
    (g : GameController) (s : Snapshot) (seconds : ℕ)
    → heard_of (sync_round_sfx g s seconds) ≡ heard_of g
unfolding sync_round_sfx stop_round_countdown play_result_exit_sfx
heard_of-sync_round_sfx g s seconds = ground arith

pub handle_match_change-IsHeardOnce :
    (config : RuntimeConfig) (g : GameController) (s : Option Snapshot) (user : String) (now : ℕ)
    → IsHeardOnce (heard_of g)
    → IsHeardOnce (heard_of (handle_match_change config g s user now))
unfolding handle_match_change
handle_match_change-IsHeardOnce config g s user now v =
    let prev = g.prev_snapshot in
    let started = sync_game_start_sfx (sync_server_time (enter_round g s) s now) prev s in
    let heard = sync_guess_sfx started prev s user in
    let w : IsHeardOnce (heard_of heard) =
      sync_guess_sfx-IsHeardOnce started prev s user
        (subst IsHeardOnce (sym (heard_of_before g prev s now)) v) in
    let guessed = sync_countdown_loop_snapshot (sync_self_guess heard s user) s in
    let timed = sync_round_timer (sync_pressure_timer_cap guessed s) s in
    let shown = sync_display_hp config timed s user in
    let animated = sync_result_animation config shown s user in
    subst IsHeardOnce
      (sym (
        heard_of_after animated prev s user
        ∙ heard_of-sync_result_animation config shown s user
        ∙ heard_of-sync_display_hp config timed s user
        ∙ heard_of_timed guessed s
        ∙ heard_of-sync_self_guess heard s user))
      w

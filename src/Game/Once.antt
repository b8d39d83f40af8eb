-- ===== src/Game/Once.antt =====
-- features/game/controllers/game-controller.ts: every guess is heard once, over every run of a page.
use geoduels.Base.{
  ℕ, ◌≡◌, refl, sym, subst, String, Bool, true, false, Option, none, some, List, [], ◌∷◌, arith,
  length, if◌then◌else◌, ◌==◌, string_eq, ◌&&◌, ◌||◌, not, truthy, is_some, nat_eq,
}
use geoduels.Config.{RuntimeConfig}
use geoduels.Command.{Command, guess_place, guess_finalize, round_advance, forfeit}
use geoduels.Snapshot.{Snapshot, CurrentRound, LatLng, is_live, is_round_live, is_singleplayer}
use geoduels.Match.State
use geoduels.Match.State.{
  MatchController, send_game_command, reset_connection_state, dispatch_matchmaking,
}
use geoduels.Matchmaking.{MatchmakingStatus, set_status}
use geoduels.Clock
use geoduels.Clock.{Ticking, tick_running}
use geoduels.Game.State.{GameController, new_controller, initial_state}
use geoduels.Game.Sounds.{play_guess_sfx, play_result_exit_sfx}
use geoduels.Game.Health.{hp_transition, is_result_phase}
use geoduels.Game.Results.{
  animation_fires, fire_animation, show_phase, apply_hp, set_show_match_end_page,
}
use geoduels.Game.Sync.{handle_match_change, clock_ticks, clock_ticks_at, alert_ends}
use geoduels.Game.Calls.{
  GamePage, notify, send, place_guess, finalize_guess, advance_round, forfeit_match, leave_game,
  start, place_guess_in, finalize_guess_in, advance_round_of, forfeit_match_of, say_goodbye,
  command_options, is_guess_input_closed, place_guess_of, send_with,
}
use geoduels.Game.Heard.{
  heard_of, guesses_heard, IsDistinct, IsHeardOnce, handle_match_change-IsHeardOnce,
  play_guess_sfx-IsHeardOnce, heard_of-sync_round_sfx,
}
use geoduels.Game.Run.{
  PageEvent, match_emits, frame, animation_timer, hp_timer, alert_timer, shows_end_page,
  places_guess, finalizes_guess, advances_round, forfeits, starts_page, leaves, step, run,
}

-- The guesses that a page has played were each played once.
record IsQuiet (p : GamePage) : Type 0 where
  pub once : IsHeardOnce (heard_of p.game)

if-IsQuiet : (b : Bool) (p q : GamePage) → IsQuiet p → IsQuiet q → IsQuiet (if b then p else q)
if-IsQuiet true p q v w = v
if-IsQuiet false p q v w = w

if_pair-IsQuiet :
    (b : Bool) (p q : GamePage × Bool) → IsQuiet p.0 → IsQuiet q.0 → IsQuiet (if b then p else q).0
if_pair-IsQuiet true p q v w = v
if_pair-IsQuiet false p q v w = w

module _ (config : RuntimeConfig) (user : String) (now : ℕ) where
  notify-IsQuiet : (p : GamePage) → IsQuiet p → IsQuiet (notify config user now p)
  unfolding notify
  notify-IsQuiet p v =
      let s = p.match.state.snapshot in
      if-IsQuiet (p.game.started && not p.match.destroyed)
        (record p { game = handle_match_change config p.game s user now }) p
        (record { once = handle_match_change-IsHeardOnce config p.game s user now v.once }) v

  send-IsQuiet : (p : GamePage) (c : Command) → IsQuiet p → IsQuiet (send config user now p c).0
  unfolding send send_with
  send-IsQuiet p c v =
      let sent = send_game_command config p.match c (command_options config user now) in
      let cleared = record p {
        match = State.patch_state sent.0 (record (sent.0.state) { connection_issue = "" });
      } in
      let failed = record p { match = sent.0 } in
      if_pair-IsQuiet sent.1 (notify config user now cleared, true)
        (notify config user now failed, false) (notify-IsQuiet cleared (record { once = v.once }))
        (notify-IsQuiet failed (record { once = v.once }))

  place_guess_in-IsQuiet :
      (p : GamePage) (s : Snapshot) (round : Option CurrentRound) (at : LatLng)
      → IsQuiet p
      → IsQuiet (place_guess_in config user now p s round at)
  unfolding place_guess_in
  place_guess_in-IsQuiet p s none at v = v
  place_guess_in-IsQuiet p s (some round) at v =
      let command = guess_place user s.match_id round.round_id at in
      let sent = send config user now p command in
      let w = send-IsQuiet p command v in
      let placed = record (sent.0) {
        game = record (sent.0.game) { state = record (sent.0.game.state) { guess = some at } };
      } in
      if-IsQuiet
        (not (is_live s.phase)
          || not (is_round_live s.round_phase)
          || p.game.state.guess_submitted
          || is_guess_input_closed p.game s now)
        p (if sent.1 then placed else sent.0) v
        (if-IsQuiet sent.1 placed sent.0 (record { once = w.once }) w)

  finalize_guess_in-IsQuiet :
      (p : GamePage) (s : Snapshot) (round : Option CurrentRound) (guess : Option LatLng)
      → IsQuiet p
      → IsQuiet (finalize_guess_in config user now p s round guess)
  unfolding finalize_guess_in
  finalize_guess_in-IsQuiet p s none guess v = v
  finalize_guess_in-IsQuiet p s (some round) none v = v
  finalize_guess_in-IsQuiet p s (some round) (some at) v =
      let command = guess_finalize user s.match_id round.round_id at in
      let sent = send config user now p command in
      let w = send-IsQuiet p command v in
      let heard = play_guess_sfx sent.0.game s.match_id round.round_id user in
      let submitted = record (sent.0) {
        game = record heard { state = record (heard.state) { guess_submitted = true } };
      } in
      if-IsQuiet (not (is_live s.phase) || p.game.state.guess_submitted) p
        (if sent.1 then submitted else sent.0) v
        (if-IsQuiet sent.1 submitted sent.0
          (record {
            once = play_guess_sfx-IsHeardOnce sent.0.game s.match_id round.round_id user w.once;
          })
          w)

  advance_round_of-IsQuiet :
      (p : GamePage) (s : Option Snapshot)
      → IsQuiet p
      → IsQuiet (advance_round_of config user now p s).0
  unfolding advance_round_of
  advance_round_of-IsQuiet p none v = v
  advance_round_of-IsQuiet p (some s) v =
      let command = round_advance user s.match_id in
      if_pair-IsQuiet (truthy s.match_id && is_singleplayer s.mode && is_result_phase s.phase)
        (send config user now p command) (p, false) (send-IsQuiet p command v) v

  forfeit_match_of-IsQuiet :
      (p : GamePage) (s : Option Snapshot)
      → IsQuiet p
      → IsQuiet (forfeit_match_of config user now p s).0
  unfolding forfeit_match_of
  forfeit_match_of-IsQuiet p none v = v
  forfeit_match_of-IsQuiet p (some s) v =
      let command = forfeit user s.match_id in
      if_pair-IsQuiet (truthy s.match_id && not (s.state == "ended"))
        (send config user now p command) (p, false) (send-IsQuiet p command v) v

  leave_game-IsQuiet :
      (p : GamePage) (onboarding : Bool)
      → IsQuiet p
      → IsQuiet (leave_game config user now p onboarding)
  unfolding leave_game
  leave_game-IsQuiet p onboarding v =
      let said = record p { match = say_goodbye config user now p.match p.match.state.snapshot } in
      let said_quiet : IsQuiet said = record { once = v.once } in
      let is_tracked = is_some said.match.state.matchmaking.active_recover_request_id in
      let told = (if is_tracked then notify config user now said else said) in
      let told_quiet =
        if-IsQuiet is_tracked (notify config user now said) said (notify-IsQuiet said said_quiet)
          said_quiet in
      let reset = record told { match = reset_connection_state told.match } in
      let left_quiet = notify-IsQuiet reset (record { once = told_quiet.once }) in
      let left = notify config user now reset in
      let status = (if onboarding then MatchmakingStatus.idle else MatchmakingStatus.ready) in
      notify-IsQuiet
        (record left {
          game = record (left.game) {
            state = initial_state;
            round_clock = Clock.reset left.game.round_clock;
            result_anim_round = "";
          };
          match = dispatch_matchmaking left.match (set_status status none);
        })
        (record { once = left_quiet.once })

  start-IsQuiet : (p : GamePage) → IsQuiet p → IsQuiet (start config user now p)
  unfolding start
  start-IsQuiet p v =
      let fresh = record (p.game) { destroyed = false; started = true } in
      let s = p.match.state.snapshot in
      if-IsQuiet p.game.started p (record p { game = handle_match_change config fresh s user now })
        v (record { once = handle_match_change-IsHeardOnce config fresh s user now v.once })

heard_of-clock_ticks_at :
    (g : GameController) (o : Option Ticking) (now ts : ℕ)
    → heard_of (clock_ticks_at g o now ts) ≡ heard_of g
unfolding clock_ticks_at
heard_of-clock_ticks_at g none now ts = refl
heard_of-clock_ticks_at g (some t) now ts =
    let ticked = tick_running g.round_clock t now ts in
    heard_of-sync_round_sfx (record g { round_clock = ticked.0 }) t.snapshot
      ticked.1.display_round_seconds

heard_of-clock_ticks :
    (g : GameController) (now ts : ℕ) → heard_of (clock_ticks g now ts) ≡ heard_of g
unfolding clock_ticks
heard_of-clock_ticks g now ts = heard_of-clock_ticks_at g g.round_clock.ticking now ts

heard_of-alert_ends : (g : GameController) → heard_of (alert_ends g) ≡ heard_of g
unfolding alert_ends
heard_of-alert_ends g = ground arith

heard_of-hp_transition : (g : GameController) → heard_of (hp_transition g) ≡ heard_of g
unfolding hp_transition
heard_of-hp_transition g = ground arith

heard_of-animation_fires : (g : GameController) → heard_of (animation_fires g) ≡ heard_of g
unfolding animation_fires fire_animation show_phase apply_hp
heard_of-animation_fires g = ground arith

heard_of-set_show_match_end_page :
    (g : GameController) (s : Option Snapshot) (value : Bool)
    → heard_of (set_show_match_end_page g s value) ≡ heard_of g
unfolding set_show_match_end_page play_result_exit_sfx
heard_of-set_show_match_end_page g s value = ground arith

in_game-IsQuiet :
    (p : GamePage) (g : GameController)
    → heard_of g ≡ heard_of p.game
    → IsQuiet p
    → IsQuiet (record p { game = g })
in_game-IsQuiet p g same v = record { once = subst IsHeardOnce (sym same) v.once }

module _ (config : RuntimeConfig) where
  place_guess_of-IsQuiet :
      (user : String) (now : ℕ) (p : GamePage) (s : Option Snapshot) (at : LatLng)
      → IsQuiet p
      → IsQuiet (place_guess_of config user now p s at)
  unfolding place_guess_of
  place_guess_of-IsQuiet user now p none at v = v
  place_guess_of-IsQuiet user now p (some t) at v =
      place_guess_in-IsQuiet config user now p t t.current_round at v

  finalize_guess-IsQuiet :
      (user : String) (now : ℕ) (p : GamePage) (s : Option Snapshot)
      → IsQuiet p
      → IsQuiet (elim s [
        | none ↦ p
        | some t ↦ finalize_guess_in config user now p t t.current_round p.game.state.guess
      ])
  finalize_guess-IsQuiet user now p none v = v
  finalize_guess-IsQuiet user now p (some t) v =
      finalize_guess_in-IsQuiet config user now p t t.current_round p.game.state.guess v

  step-IsQuiet : (p : GamePage) (e : PageEvent) → IsQuiet p → IsQuiet (step config p e)
  unfolding step place_guess finalize_guess advance_round forfeit_match
  step-IsQuiet p (match_emits m user now) v =
      notify-IsQuiet config user now (record p { match = m }) (record { once = v.once })
  step-IsQuiet p (frame now ts) v = in_game-IsQuiet p _ (heard_of-clock_ticks p.game now ts) v
  step-IsQuiet p animation_timer v = in_game-IsQuiet p _ (heard_of-animation_fires p.game) v
  step-IsQuiet p hp_timer v = in_game-IsQuiet p _ (heard_of-hp_transition p.game) v
  step-IsQuiet p alert_timer v = in_game-IsQuiet p _ (heard_of-alert_ends p.game) v
  step-IsQuiet p (shows_end_page value) v =
      in_game-IsQuiet p _ (heard_of-set_show_match_end_page p.game p.match.state.snapshot value) v
  step-IsQuiet p (places_guess user now at) v =
      place_guess_of-IsQuiet user now p p.match.state.snapshot at v
  step-IsQuiet p (finalizes_guess user now) v =
      finalize_guess-IsQuiet user now p p.match.state.snapshot v
  step-IsQuiet p (advances_round user now) v =
      advance_round_of-IsQuiet config user now p p.match.state.snapshot v
  step-IsQuiet p (forfeits user now) v =
      forfeit_match_of-IsQuiet config user now p p.match.state.snapshot v
  step-IsQuiet p (starts_page user now) v = start-IsQuiet config user now p v
  step-IsQuiet p (leaves user now onboarding) v = leave_game-IsQuiet config user now p onboarding v

  run-IsQuiet : (es : List PageEvent) (p : GamePage) → IsQuiet p → IsQuiet (run config p es)
  unfolding run
  run-IsQuiet [] p v = v
  run-IsQuiet (e ∷ es) p v = run-IsQuiet es (step config p e) (step-IsQuiet p e v)

  -- From a new game controller on, over any run of its calls, timers, frames and changes of the
  -- match but destroy, the sound of a guess is played exactly once for each recorded key of a
  -- match, a round and a player, and no key is recorded twice.
  pub guess_heard_once :
      (m : MatchController) (es : List PageEvent)
      → let g = (run config (record { game = new_controller; match = m }) es).game in
        (guesses_heard g.log ≡ length g.guess_sfx_keys) × IsDistinct g.guess_sfx_keys
  unfolding new_controller
  guess_heard_once m es =
      (run-IsQuiet es (record { game = new_controller; match = m })
        (record { once = (refl, tt) })).once

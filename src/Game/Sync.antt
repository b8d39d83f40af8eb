-- ===== src/Game/Sync.antt =====
-- features/game/controllers/game-controller.ts: what a change of the match does, the timers and the
-- clock.
use Prim.Native.String.{◌++◌ as ◌<>◌}
use geoduels.Base.{
  ℕ, suc, min, String, Bool, true, false, Option, none, some, List, [], ◌∷◌, if◌then◌else◌, ◌==◌,
  string_eq, nat_eq, truthy, not, ◌&&◌, ◌||◌, ltb, length,
}
use geoduels.Config.{RuntimeConfig}
use geoduels.Snapshot.{
  Snapshot, SnapshotPlayer, RoundResult, RoundTimerMode, LatLng, Mode, is_singleplayer, lookup,
  current_round_id, is_live,
}
use geoduels.Clock
use geoduels.Clock.{
  RoundClock, RoundClockState, fresh_clock, set_server_time, force_round, pressure_visible_ms,
  is_timer_idle, phase_name, round_phase_name, tick, Ticking, tick_running,
}
use geoduels.Game.State.{GameController, starts_sfx, stop_round_countdown, SfxCall, TimerKey}
use geoduels.Game.Sounds.{
  is_playing, is_round, sync_game_start_sfx, sync_guess_sfx, sync_countdown_loop_snapshot,
  sync_round_sfx,
}
use geoduels.Game.Results.{sync_result_animation, sync_recovered_ended_match}
use geoduels.Game.Health.{is_duel, sync_display_hp, other_id}

-- `snapshot.self.currentGuess` where `self` is the user.
abbrev pub current_guess : Snapshot → String → Option LatLng
current_guess s user = elim s.self [
  | none ↦ none
  | some v ↦ if v.user_id == user then v.current_guess else none
]

abbrev pub is_finalized : Snapshot → String → Bool
is_finalized s id = elim (lookup id s.players) [ none ↦ false | some p ↦ p.finalized ]

unfoldable pub sync_self_guess : GameController → Option Snapshot → String → GameController
sync_self_guess g none user = g
sync_self_guess g (some s) user =
    if is_playing s
    then record g {
      state = record (g.state) {
        guess = elim (current_guess s user) [ none ↦ g.state.guess | some at ↦ some at ];
        guess_submitted = is_finalized s user || g.state.guess_submitted;
      };
    }
    else g

abbrev mode_name : Option Mode → String
mode_name none = "duel"
mode_name (some Mode.duel) = "duel"
mode_name (some Mode.singleplayer) = "singleplayer"
mode_name (some Mode.team_duel) = "team_duel"
mode_name (some Mode.free_for_all) = "free_for_all"

unfoldable pub round_timer_key : Snapshot → TimerKey
round_timer_key s = record {
  text =
      mode_name s.mode
      <> ((":" <> s.match_id)
          <> ((":" <> phase_name s.phase)
              <> ((":" <> round_phase_name s.round_phase)
                  <> ((":" <> current_round_id s)
                      <> (if is_timer_idle s then ":idle" else ":running")))));
  deadline = s.phase_ends_at;
  fallback_ms_left = if ltb 0 s.phase_ends_at then 0 else s.round_ms_left;
}

abbrev pub is_timer_key : Option TimerKey → TimerKey → Bool
is_timer_key none key = false
is_timer_key (some old) key =
    old.text == key.text
    && old.deadline == key.deadline
    && old.fallback_ms_left == key.fallback_ms_left

abbrev stopped_clock : GameController → GameController
stopped_clock g = record g {
  round_timer_sync_key = none;
  round_clock = Clock.reset g.round_clock;
  state = record (g.state) { round_ms_left = 0; display_round_seconds = 0 };
}

unfoldable pub sync_round_timer : GameController → Option Snapshot → GameController
unfolding stop_round_countdown round_timer_key Clock.start Clock.reset
sync_round_timer g none = stop_round_countdown (stopped_clock g)
sync_round_timer g (some s) =
    if is_singleplayer s.mode
    then record (stop_round_countdown (record (stopped_clock g) { intro_countdown_sfx_key = "" })) {
      game_start_sfx_key = "";
    }
    else if is_timer_key g.round_timer_sync_key (round_timer_key s)
    then g
    else record g {
      round_timer_sync_key = some (round_timer_key s);
      round_clock = (Clock.start g.round_clock (some s)).0;
    }

-- A frame of the clock, whose callback plays the sounds and shows the time.
unfoldable pub clock_ticks_at : GameController → Option Ticking → ℕ → ℕ → GameController
unfolding sync_round_sfx tick_running
clock_ticks_at g none now ts = g
clock_ticks_at g (some t) now ts =
    let ticked = tick_running g.round_clock t now ts in
    let heard =
      sync_round_sfx (record g { round_clock = ticked.0 }) t.snapshot
        ticked.1.display_round_seconds in
    record heard {
      state = record (heard.state) {
        round_ms_left = ticked.1.round_ms_left;
        display_round_seconds = ticked.1.display_round_seconds;
      };
    }

unfoldable pub clock_ticks : GameController → ℕ → ℕ → GameController
unfolding clock_ticks_at
clock_ticks g now ts = clock_ticks_at g g.round_clock.ticking now ts

abbrev pub has_pressure_timer : Snapshot → Bool
has_pressure_timer s = elim s.config [
  | none ↦ false
  | some c ↦
      (elim c.pressure_time_limit_ms [ none ↦ false | some n ↦ ltb 0 n ])
      || (elim c.round_timer_mode [ some RoundTimerMode.pressure ↦ true | _ ↦ false ])
]

abbrev pub finalized_count : List (String × SnapshotPlayer) → ℕ
finalized_count [] = 0
finalized_count ((id, p) ∷ ps) =
    let rest = finalized_count ps in if p.finalized then suc rest else rest

unfoldable pub sync_pressure_timer_cap : GameController → Option Snapshot → GameController
unfolding force_round
sync_pressure_timer_cap g none = g
sync_pressure_timer_cap g (some s) =
    let n = finalized_count s.players in
    if not (is_singleplayer s.mode)
      && is_playing s
      && has_pressure_timer s
      && truthy (current_round_id s)
      && ltb 0 n
      && ltb n (length s.players)
    then record g { round_clock = force_round g.round_clock (current_round_id s) }
    else g

-- The opponent of a duel with a pressure timer has finalized its guess, and the user has not.
abbrev is_opponent_finalized : Snapshot → Snapshot → String → Bool
is_opponent_finalized prev next user =
    let opp = other_id user next.players in
    is_live next.phase
    && truthy (current_round_id prev)
    && is_round next (current_round_id prev)
    && truthy opp
    && (elim (lookup opp prev.players) [ none ↦ false | some p ↦ not p.finalized ])
    && is_finalized next opp
    && not (is_finalized next user)

unfoldable pub sync_opponent_finalized :
    GameController → Option Snapshot → Option Snapshot → String → GameController
unfolding force_round
sync_opponent_finalized g (some prev) (some next) user =
    let left = g.state.round_ms_left in
    if is_duel next.mode && has_pressure_timer next && is_opponent_finalized prev next user
    then record g {
      round_clock = force_round g.round_clock (current_round_id next);
      state = record (g.state) {
        round_ms_left = min pressure_visible_ms (if ltb 0 left then left else pressure_visible_ms);
        opponent_guess_alert = true;
      };
      opponent_guess_timer = true;
    }
    else g
sync_opponent_finalized g prev next user = g

-- The timer of a second.
unfoldable pub alert_ends : GameController → GameController
alert_ends g =
    if g.opponent_guess_timer
    then record g {
      state = record (g.state) { opponent_guess_alert = false };
      opponent_guess_timer = false;
    }
    else g

-- The result that is kept while the match has a snapshot.
abbrev pub kept_result :
    Option (String × RoundResult) → Option Snapshot → Option (String × RoundResult)
kept_result old none = none
kept_result old (some s) =
    if truthy s.match_id
    then elim s.last_round_result [ none ↦ old | some r ↦ some (s.match_id, r) ]
    else old

abbrev pub round_id_of : Option Snapshot → String
round_id_of none = ""
round_id_of (some s) = current_round_id s

-- The sounds are started by a snapshot of a match.
abbrev sfx_started : Option Snapshot → List SfxCall → List SfxCall
sfx_started none log = log
sfx_started (some s) log = if truthy s.match_id then starts_sfx ∷ log else log

-- The first part of `handleMatchChange`: the kept result, and the guess, which a new round clears.
unfoldable pub enter_round : GameController → Option Snapshot → GameController
enter_round g s =
    let is_same = round_id_of s == g.prev_round_id in
    record g {
      log = sfx_started s g.log;
      prev_round_id = round_id_of s;
      state = record (g.state) {
        persisted_round_result_ctx = kept_result g.state.persisted_round_result_ctx s;
        guess = if is_same then g.state.guess else none;
        guess_submitted = is_same && g.state.guess_submitted;
      };
    }

unfoldable pub sync_server_time : GameController → Option Snapshot → ℕ → GameController
unfolding set_server_time
sync_server_time g s now = elim s [
  | none ↦ g
  | some t ↦ elim t.server_unix_ms [
    | none ↦ g
    | some server ↦ record g { round_clock = set_server_time g.round_clock server now }
  ]
]

unfoldable pub handle_match_change :
    RuntimeConfig → GameController → Option Snapshot → String → ℕ → GameController
unfolding enter_round sync_server_time sync_game_start_sfx sync_guess_sfx sync_self_guess
    sync_countdown_loop_snapshot sync_pressure_timer_cap sync_round_timer sync_display_hp
    sync_result_animation sync_recovered_ended_match sync_opponent_finalized
handle_match_change config g s user now =
    let prev = g.prev_snapshot in
    let entered = sync_server_time (enter_round g s) s now in
    let heard = sync_guess_sfx (sync_game_start_sfx entered prev s) prev s user in
    let guessed = sync_countdown_loop_snapshot (sync_self_guess heard s user) s in
    let timed = sync_round_timer (sync_pressure_timer_cap guessed s) s in
    let shown = sync_display_hp config timed s user in
    let animated = sync_result_animation config shown s user in
    let recovered = sync_recovered_ended_match animated s user in
    record (sync_opponent_finalized recovered prev s user) { prev_snapshot = s }

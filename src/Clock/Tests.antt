-- ===== src/Clock/Tests.antt =====
-- A forced round with twenty seconds left.
use geoduels.Base.{◌≡◌, ◌≤◌, refl, none, some, [], ◌∷◌, arith, ℕ, min, string_eq}
use geoduels.Snapshot.{Snapshot, Mode, Phase, RoundPhase}
use geoduels.Clock.{
  RoundClock, RoundClockState, Ticking, tick, tick_at, tick_running, next_ms_left, start,
  fresh_clock, force_round, get_authoritative_round_ms_left, set_server_time, pressure_visible_ms,
  timer_key,
}
use geoduels.Clock.Display.{sets_server_time, run, step, seconds_never_rise, tick_is_authoritative}

abbrev live_snapshot : Snapshot
live_snapshot = record {
  match_id = "m";
  mode = some Mode.duel;
  config = none;
  unranked = none;
  round_results = none;
  teams = [];
  rating_preview = [];
  state = "live";
  phase = Phase.live;
  round_phase = RoundPhase.round_live;
  phase_ends_at = 20000;
  round_ms_left = 0;
  current_round = some (record { round_id = "r"; round_number = 1; timer_started = none });
  last_round_result = none;
  players = [];
  self = none;
  event_sequence = 1;
  server_unix_ms = none;
}

abbrev running : RoundClock
running = (start (force_round fresh_clock "r") (some live_snapshot)).0

abbrev ticking : Ticking
ticking = record { snapshot = live_snapshot; last_ts = 0 }

tick_is_authoritative_example :
    (left : ℕ) × (get_authoritative_round_ms_left running (some live_snapshot) 1000 ≡ some left)
    × ((tick running 1000 5).0.round_ms_left ≡ min pressure_visible_ms left)
unfolding start force_round fresh_clock
tick_is_authoritative_example =
    tick_is_authoritative running ticking 1000 5 refl refl refl (omega arith)

abbrev first_shown : RoundClockState
first_shown = record { round_ms_left = 13500; display_round_seconds = 14 }

-- The server's clock turns out to be three seconds behind: there are fifteen seconds left again, and
-- the shown fourteen stay.
abbrev last_shown : RoundClockState
last_shown = record { round_ms_left = 15000; display_round_seconds = 14 }

seconds_never_rise_example : last_shown.display_round_seconds ≤ first_shown.display_round_seconds
unfolding start force_round fresh_clock tick tick_at tick_running next_ms_left run step
    set_server_time timer_key
seconds_never_rise_example =
    seconds_never_rise running ticking 6500 5 6600 6 (sets_server_time 3600 6600 ∷ []) first_shown
      last_shown refl refl (tt, tt) refl

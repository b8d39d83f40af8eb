-- ===== src/Clock.antt =====
-- features/game/lib/round-clock.ts: the clock of a round. Times are whole milliseconds; the offset
-- of the server's clock has a sign.
pub mod Display
mod Tests
use Prim.Native.String.{◌++◌ as ◌<>◌}
use geoduels.Base.{
  ℕ, suc, zero, ◌+◌, ◌-◌, ◌/◌, min, String, Bool, true, false, Option, none, some, List, [], ◌∷◌,
  if◌then◌else◌, ◌==◌, nat_eq, string_eq, truthy, or_else, not, ◌&&◌, ltb, leb, is_value,
}
use geoduels.Snapshot.{Snapshot, Phase, RoundPhase, is_live, is_round_live, current_round_id}

pub data ℤ : Type 0 where
  pos : ℕ → ℤ
  negsuc : ℕ → ℤ

-- The difference of two numbers.
abbrev pub difference : ℕ → ℕ → ℤ
difference a b = if leb b a then pos (a - b) else negsuc (b - a - 1)

-- `Math.max(0, deadline - (now + offset))`.
abbrev pub left_until : ℕ → ℕ → ℤ → ℕ
left_until deadline now (pos k) = deadline - (now + k)
left_until deadline now (negsuc k) = deadline + suc k - now

-- What a running animation frame is closed over, and the time of its last tick.
pub record Ticking : Type 0 where
  pub snapshot : Snapshot
  pub last_ts : ℕ

pub record RoundClock : Type 0 where
  pub ticking : Option Ticking
  pub round_ms_left : ℕ
  pub clock_offset_ms : ℤ
  pub timer_display_key : String
  pub timer_display_sec : ℕ
  pub forced_round_id : String

pub record RoundClockState : Type 0 where
  pub round_ms_left : ℕ
  pub display_round_seconds : ℕ

abbrev pub pressure_visible_ms : ℕ
pressure_visible_ms = 15000

unfoldable pub fresh_clock : RoundClock
fresh_clock = record {
  ticking = none;
  round_ms_left = 0;
  clock_offset_ms = pos 0;
  timer_display_key = "";
  timer_display_sec = 0;
  forced_round_id = "";
}

unfoldable pub set_server_time : RoundClock → ℕ → ℕ → RoundClock
set_server_time c server_unix_ms now = record c { clock_offset_ms = difference server_unix_ms now }

unfoldable pub force_round : RoundClock → String → RoundClock
force_round c id = record c { forced_round_id = id }

unfoldable pub reset : RoundClock → RoundClock
unfolding fresh_clock
reset c = fresh_clock

-- The round has a timer that was not started: `currentRound?.timerStarted === false`.
abbrev pub is_timer_idle : Snapshot → Bool
is_timer_idle s = elim s.current_round [
  | none ↦ false
  | some r ↦ elim r.timer_started [ none ↦ false | some b ↦ not b ]
]

-- The time left; `none` is `Infinity`.
unfoldable pub get_authoritative_round_ms_left : RoundClock → Option Snapshot → ℕ → Option ℕ
get_authoritative_round_ms_left c none now = some 0
get_authoritative_round_ms_left c (some s) now =
    if not (is_live s.phase)
    then some 0
    else if is_round_live s.round_phase && is_timer_idle s
    then none
    else if ltb 0 s.phase_ends_at
    then some (left_until s.phase_ends_at now c.clock_offset_ms)
    else some s.round_ms_left

-- `start`, with what it reports at once.
unfoldable pub start : RoundClock → Option Snapshot → RoundClock × Option RoundClockState
unfolding reset fresh_clock
start c none = (reset c, some (record { round_ms_left = 0; display_round_seconds = 0 }))
start c (some s) = (record c { ticking = some (record { snapshot = s; last_ts = 0 }) }, none)

-- The time left that a tick finds.
unfoldable pub next_ms_left : RoundClock → Snapshot → ℕ → ℕ → ℕ → ℕ
next_ms_left c s last_ts now ts =
    let left = left_until s.phase_ends_at now c.clock_offset_ms in
    let forced = truthy c.forced_round_id && current_round_id s == c.forced_round_id in
    if not (is_live s.phase)
    then s.round_ms_left
    else if ltb 0 s.phase_ends_at
    then (if forced then min pressure_visible_ms left else left)
    else if ltb 0 last_ts
    then c.round_ms_left + last_ts - ts
    else s.round_ms_left

-- The forced round after a tick: another round's force is dropped.
abbrev pub next_forced : RoundClock → Snapshot → String
next_forced c s =
    if is_live s.phase && ltb 0 s.phase_ends_at && not (current_round_id s == c.forced_round_id)
    then ""
    else c.forced_round_id

abbrev pub phase_name : Phase → String
phase_name Phase.live = "live"
phase_name Phase.round_result = "round_result"
phase_name Phase.ended = "ended"

abbrev pub round_phase_name : RoundPhase → String
round_phase_name RoundPhase.round_intro = "round_intro"
round_phase_name RoundPhase.round_live = "round_live"
round_phase_name RoundPhase.round_result = "round_result"
round_phase_name RoundPhase.round_transition = "round_transition"
round_phase_name RoundPhase.ended = "ended"

unfoldable pub timer_key : Snapshot → String
timer_key s =
    s.match_id
    <> ((":" <> current_round_id s)
        <> ((":" <> phase_name s.phase)
            <> ((":" <> round_phase_name s.round_phase)
                <> (if is_timer_idle s then ":idle" else ":running"))))

-- A frame of a running clock at the time `now` and the timestamp `ts`, and what it reports.
unfoldable pub tick_running : RoundClock → Ticking → ℕ → ℕ → RoundClock × RoundClockState
unfolding next_ms_left
tick_running c t now ts =
    let ms = next_ms_left c t.snapshot t.last_ts now ts in
    let raw = (ms + 999) / 1000 in
    let key = timer_key t.snapshot in
    let seconds =
      if c.timer_display_key == key && ltb c.timer_display_sec raw
      then c.timer_display_sec
      else raw in
    (
      record c {
        ticking = some (record t { last_ts = ts });
        round_ms_left = ms;
        timer_display_key = key;
        timer_display_sec = seconds;
        forced_round_id = next_forced c t.snapshot;
      },
      record { round_ms_left = ms; display_round_seconds = seconds },
    )

unfoldable pub tick_at : RoundClock → Option Ticking → ℕ → ℕ → RoundClock × Option RoundClockState
unfolding tick_running
tick_at c none now ts = (c, none)
tick_at c (some t) now ts = ((tick_running c t now ts).0, some (tick_running c t now ts).1)

unfoldable pub tick : RoundClock → ℕ → ℕ → RoundClock × Option RoundClockState
unfolding tick_at
tick c now ts = tick_at c c.ticking now ts

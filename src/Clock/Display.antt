-- ===== src/Clock/Display.antt =====
-- features/game/lib/round-clock.ts: the seconds that the clock shows.
use geoduels.Base.{
  ℕ, ◌≤◌, ◌<◌, ◌≡◌, refl, sym, ◌∙◌, ap, subst, String, true, false, none, some, List, [], ◌∷◌,
  arith, if◌then◌else◌, ◌==◌, nat_eq, string_eq, eq_iff, All, Option-cases, inl, inr, min, truthy,
  ◌&&◌,
}
use geoduels.Snapshot.{Snapshot, is_live, is_round_live, current_round_id}
use geoduels.Clock.{
  RoundClock, RoundClockState, Ticking, tick, tick_at, tick_running, timer_key, start,
  set_server_time, force_round, next_ms_left, get_authoritative_round_ms_left, is_timer_idle,
  pressure_visible_ms, left_until,
}

-- What happens to a clock while it shows a round.
pub data ClockCall : Type 0 where
  ticks : ℕ → ℕ → ClockCall
  sets_server_time : ℕ → ℕ → ClockCall
  forces_round : String → ClockCall
  starts : Snapshot → ClockCall

unfoldable pub step : RoundClock → ClockCall → RoundClock
step c (ticks now ts) = (tick c now ts).0
step c (sets_server_time server now) = set_server_time c server now
step c (forces_round id) = force_round c id
step c (starts s) = (start c (some s)).0

unfoldable pub run : RoundClock → List ClockCall → RoundClock
run c [] = c
run c (call ∷ calls) = run (step c call) calls

-- The clock is started again only for what has the display key `k`.
abbrev pub IsKept : String → ClockCall → Type 0
IsKept k (starts s) = timer_key s ≡ k
IsKept k _ = Unit

-- The clock shows `k`, and so does what it runs for.
record IsShowing (k : String) (c : RoundClock) : Type 0 where
  pub shown : c.timer_display_key ≡ k
  pub runs : (t : Ticking) → c.ticking ≡ some t → timer_key t.snapshot ≡ k

-- A tick of a stopped clock, and of a running one.
tick_stopped : (c : RoundClock) (now ts : ℕ) → c.ticking ≡ none → tick c now ts ≡ (c, none)
unfolding tick tick_at
tick_stopped c now ts stopped = ap (λ o. tick_at c o now ts) stopped

tick_on :
    (c : RoundClock) (t : Ticking) (now ts : ℕ)
    → c.ticking ≡ some t
    → tick c now ts ≡ ((tick_running c t now ts).0, some (tick_running c t now ts).1)
unfolding tick tick_at
tick_on c t now ts on = ap (λ o. tick_at c o now ts) on

tick_running-IsShowing :
    (k : String) (c : RoundClock) (t : Ticking) (now ts : ℕ)
    → timer_key t.snapshot ≡ k
    → IsShowing k (tick_running c t now ts).0
unfolding tick_running
tick_running-IsShowing k c t now ts same = record {
  shown = same;
  runs = λ u h.
      subst (λ o. (v : Ticking) → o ≡ some v → timer_key v.snapshot ≡ k) refl (λ v e. grind arith) u
        h;
}

tick_running_falls :
    (k : String) (c : RoundClock) (t : Ticking) (now ts : ℕ)
    → c.timer_display_key ≡ k
    → timer_key t.snapshot ≡ k
    → (tick_running c t now ts).0.timer_display_sec ≤ c.timer_display_sec
unfolding tick_running
tick_running_falls k c t now ts shown same =
    ground (arith, (eq_iff c.timer_display_key (timer_key t.snapshot)).1 (shown ∙ sym same))

tick-IsShowing :
    (k : String) (c : RoundClock) (now ts : ℕ)
    → IsShowing k c
    → IsShowing k (tick c now ts).0 × ((tick c now ts).0.timer_display_sec ≤ c.timer_display_sec)
tick-IsShowing k c now ts v = elim (Option-cases c.ticking) [
  | inl stopped ↦ rw (tick_stopped c now ts stopped) (v, omega arith)
  | inr (t, on) ↦ rw (tick_on c t now ts on) (
    tick_running-IsShowing k c t now ts (v.runs t on),
    tick_running_falls k c t now ts v.shown (v.runs t on),
  )
]

step-IsShowing :
    (k : String) (c : RoundClock) (call : ClockCall)
    → IsShowing k c
    → IsKept k call
    → IsShowing k (step c call) × ((step c call).timer_display_sec ≤ c.timer_display_sec)
unfolding step set_server_time force_round start
step-IsShowing k c (ticks now ts) v kept = tick-IsShowing k c now ts v
step-IsShowing k c (sets_server_time server now) v kept =
    (record { shown = v.shown; runs = v.runs }, omega arith)
step-IsShowing k c (forces_round id) v kept =
    (record { shown = v.shown; runs = v.runs }, omega arith)
step-IsShowing k c (starts s) v kept =
    (record { shown = v.shown; runs = λ t h. (grind arith) }, omega arith)

run-IsShowing :
    (k : String) (calls : List ClockCall) (c : RoundClock)
    → IsShowing k c
    → All (IsKept k) calls
    → IsShowing k (run c calls) × ((run c calls).timer_display_sec ≤ c.timer_display_sec)
unfolding run
run-IsShowing k [] c v kept = (v, omega arith)
run-IsShowing k (call ∷ calls) c v (here, kept) =
    let (w, le) = step-IsShowing k c call v here in
    let (x, more) = run-IsShowing k calls (step c call) w kept in (x, omega arith)

-- What a tick reports is what the clock keeps.
reported_seconds :
    (c : RoundClock) (now ts : ℕ) (s : RoundClockState)
    → (tick c now ts).1 ≡ some s
    → s.display_round_seconds ≡ (tick c now ts).0.timer_display_sec
unfolding tick tick_at tick_running
reported_seconds c now ts s h = ground arith

first_tick-IsShowing :
    (c : RoundClock) (t : Ticking) (now ts : ℕ)
    → c.ticking ≡ some t
    → IsShowing (timer_key t.snapshot) (tick c now ts).0
first_tick-IsShowing c t now ts on =
    rw (tick_on c t now ts on) (tick_running-IsShowing (timer_key t.snapshot) c t now ts refl)

-- Once a tick has shown the seconds of a round, no later tick shows more, however the server time
-- is set, a round is forced and the clock is started again, as long as it is started for the same
-- match, round, phase and state of the timer.
pub seconds_never_rise :
    (c : RoundClock) (t : Ticking) (now ts later later_ts : ℕ) (calls : List ClockCall)
    (first last : RoundClockState)
    → c.ticking ≡ some t
    → (tick c now ts).1 ≡ some first
    → All (IsKept (timer_key t.snapshot)) calls
    → (tick (run (tick c now ts).0 calls) later later_ts).1 ≡ some last
    → last.display_round_seconds ≤ first.display_round_seconds
seconds_never_rise c t now ts later later_ts calls first last on h kept k =
    let shows = first_tick-IsShowing c t now ts on in
    let (v, le) = run-IsShowing (timer_key t.snapshot) calls (tick c now ts).0 shows kept in
    let (w, more) =
      tick-IsShowing (timer_key t.snapshot) (run (tick c now ts).0 calls) later later_ts v in
    let a = reported_seconds c now ts first h in
    let b = reported_seconds (run (tick c now ts).0 calls) later later_ts last k in omega arith

-- While a round is live with a deadline and its timer is not idle, the time left that a tick keeps
-- is the authoritative one, of the forced round at most 15 seconds.
pub tick_is_authoritative :
    (c : RoundClock) (t : Ticking) (now ts : ℕ)
    → c.ticking ≡ some t
    → is_live t.snapshot.phase ≡ true
    → (is_round_live t.snapshot.round_phase && is_timer_idle t.snapshot) ≡ false
    → 0 < t.snapshot.phase_ends_at
    → (left : ℕ) × (get_authoritative_round_ms_left c (some t.snapshot) now ≡ some left)
      × ((tick c now ts).0.round_ms_left ≡ (
          if truthy c.forced_round_id && current_round_id t.snapshot == c.forced_round_id
          then min pressure_visible_ms left
          else left))
unfolding tick_running next_ms_left get_authoritative_round_ms_left
tick_is_authoritative c t now ts on live running deadline =
    rw (tick_on c t now ts on)
      (left_until t.snapshot.phase_ends_at now c.clock_offset_ms, ground arith, ground arith)

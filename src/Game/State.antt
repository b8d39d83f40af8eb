-- ===== src/Game/State.antt =====
-- features/game/controllers/game-controller.ts: the state of a game and its timers, with
-- features/game/lib/result-animation.ts.
use geoduels.Base.{
  ℕ, String, Bool, true, false, Option, none, some, List, [], ◌∷◌, if◌then◌else◌, ◌==◌, string_eq,
  truthy, ◌||◌,
}
use geoduels.Snapshot.{Snapshot, LatLng, RoundResult, PlayerResult}
use geoduels.Clock
use geoduels.Clock.{RoundClock, fresh_clock}

-- `ResultPhase` of components/ui/types.ts.
pub data ResultPhase : Type 0 where
  base scores crush damage_travel damage_multiplier hp_apply : ResultPhase

pub record ShownHp : Type 0 where
  pub self : ℕ
  pub opp : ℕ

-- A record from ids to numbers is an association list.
pub record GameState : Type 0 where
  pub persisted_round_result_ctx : Option (String × RoundResult)
  pub guess : Option LatLng
  pub round_ms_left : ℕ
  pub display_round_seconds : ℕ
  pub display_hp : List (String × ℕ)
  pub opponent_guess_alert : Bool
  pub guess_submitted : Bool
  pub result_phase : ResultPhase
  pub result_shown_hp : ShownHp
  pub show_match_end_page : Bool

unfoldable pub initial_state : GameState
initial_state = record {
  persisted_round_result_ctx = none;
  guess = none;
  round_ms_left = 0;
  display_round_seconds = 0;
  display_hp = [];
  opponent_guess_alert = false;
  guess_submitted = false;
  result_phase = base;
  result_shown_hp = record { self = 0; opp = 0 };
  show_match_end_page = false;
}

-- What the controller asks the sounds for, the latest first.
pub data SfxCall : Type 0 where
  starts_sfx : SfxCall
  plays : String → SfxCall
  plays_managed : String → SfxCall
  stops : String → SfxCall

-- The timers of a `ResultAnimation` that have not fired, in the order of their times, and the results
-- that its handlers are closed over.
pub record Scheduled : Type 0 where
  pub pending : List ResultPhase
  pub self_result : PlayerResult
  pub opp_result : PlayerResult

-- `roundTimerKey`: the texts, joined by `:`, and the two numbers that end the key. The empty key is
-- `none`.
pub record TimerKey : Type 0 where
  pub text : String
  pub deadline : ℕ
  pub fallback_ms_left : ℕ

pub record GameController : Type 0 where
  pub state : GameState
  pub prev_snapshot : Option Snapshot
  pub prev_round_id : String
  pub prev_seq : ℕ
  pub result_anim_round : String
  pub round_timer_sync_key : Option TimerKey
  pub result_animation : Option Scheduled
  pub round_clock : RoundClock
  pub hp_transition_timer : Option (List (String × ℕ))
  pub opponent_guess_timer : Bool
  pub intro_countdown_sfx_key : String
  pub round_countdown_sfx_key : String
  pub game_start_sfx_key : String
  pub guess_sfx_keys : List String
  pub result_exit_sfx_keys : List String
  pub destroyed : Bool
  pub started : Bool
  pub log : List SfxCall

unfoldable pub new_controller : GameController
unfolding initial_state fresh_clock
new_controller = record {
  state = initial_state;
  prev_snapshot = none;
  prev_round_id = "";
  prev_seq = 0;
  result_anim_round = "";
  round_timer_sync_key = none;
  result_animation = none;
  round_clock = fresh_clock;
  hp_transition_timer = none;
  opponent_guess_timer = false;
  intro_countdown_sfx_key = "";
  round_countdown_sfx_key = "";
  game_start_sfx_key = "";
  guess_sfx_keys = [];
  result_exit_sfx_keys = [];
  destroyed = false;
  started = false;
  log = [];
}

abbrev pub plays_sfx : GameController → String → GameController
plays_sfx g name = record g { log = plays name ∷ g.log }

-- `set.has(key)`.
abbrev pub has : String → List String → Bool
has key [] = false
has key (k ∷ ks) = k == key || has key ks

unfoldable pub stop_round_countdown : GameController → GameController
stop_round_countdown g =
    if truthy g.round_countdown_sfx_key
    then record g { round_countdown_sfx_key = ""; log = stops "duel-round-countdown" ∷ g.log }
    else g

unfoldable pub clear_timers : GameController → GameController
unfolding stop_round_countdown
clear_timers g =
    let stopped = stop_round_countdown g in
    record stopped {
      result_animation = none;
      hp_transition_timer = none;
      opponent_guess_timer = false;
      intro_countdown_sfx_key = "";
      game_start_sfx_key = "";
      guess_sfx_keys = [];
      result_exit_sfx_keys = [];
      round_timer_sync_key = none;
    }

unfoldable pub destroy : GameController → GameController
unfolding clear_timers Clock.reset fresh_clock
destroy g =
    let cleared = clear_timers (record g { destroyed = true; started = false }) in
    record cleared { round_clock = Clock.reset cleared.round_clock }

-- `ResultAnimation.schedule` without reduced motion: the first phase at once, the others by timers.
unfoldable pub schedule : GameController → PlayerResult → PlayerResult → GameController
schedule g self_result opp_result = record g {
  state = record (g.state) { result_phase = base };
  result_animation = some (record {
    pending = scores ∷ crush ∷ damage_travel ∷ damage_multiplier ∷ hp_apply ∷ [];
    self_result = self_result;
    opp_result = opp_result;
  });
}

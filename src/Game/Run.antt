-- ===== src/Game/Run.antt =====
-- features/game/controllers/game-controller.ts: everything that can happen to a game and the match
-- controller that it plays by, but its end by `destroy`.
use geoduels.Base.{ℕ, String, Bool, List, [], ◌∷◌, string_eq, nat_eq}
use geoduels.Config.{RuntimeConfig}
use geoduels.Snapshot.{LatLng}
use geoduels.Match.State.{MatchController}
use geoduels.Game.State.{GameController}
use geoduels.Game.Health.{hp_transition}
use geoduels.Game.Results.{animation_fires, set_show_match_end_page}
use geoduels.Game.Sync.{clock_ticks, alert_ends}
use geoduels.Game.Calls.{
  GamePage, notify, place_guess, finalize_guess, advance_round, forfeit_match, leave_game, start,
}

-- A call carries the user and the time; `match_emits` is any change of the match controller.
pub data PageEvent : Type 0 where
  match_emits : MatchController → String → ℕ → PageEvent
  frame : ℕ → ℕ → PageEvent
  animation_timer hp_timer alert_timer : PageEvent
  shows_end_page : Bool → PageEvent
  places_guess : String → ℕ → LatLng → PageEvent
  finalizes_guess advances_round forfeits starts_page : String → ℕ → PageEvent
  leaves : String → ℕ → Bool → PageEvent

abbrev pub in_game : GamePage → (GameController → GameController) → GamePage
in_game p f = record p { game = f p.game }

module _ (config : RuntimeConfig) where
  unfoldable pub step : GamePage → PageEvent → GamePage
  unfolding notify place_guess finalize_guess advance_round forfeit_match leave_game start
  step p (match_emits m user now) = notify config user now (record p { match = m })
  step p (frame now ts) = in_game p (λ g. clock_ticks g now ts)
  step p animation_timer = in_game p animation_fires
  step p hp_timer = in_game p hp_transition
  step p alert_timer = in_game p alert_ends
  step p (shows_end_page value) =
      in_game p (λ g. set_show_match_end_page g p.match.state.snapshot value)
  step p (places_guess user now at) = place_guess config user now p at
  step p (finalizes_guess user now) = finalize_guess config user now p
  step p (advances_round user now) = (advance_round config user now p).0
  step p (forfeits user now) = (forfeit_match config user now p).0
  step p (starts_page user now) = start config user now p
  step p (leaves user now onboarding) = leave_game config user now p onboarding

  unfoldable pub run : GamePage → List PageEvent → GamePage
  run p [] = p
  run p (e ∷ es) = run (step p e) es

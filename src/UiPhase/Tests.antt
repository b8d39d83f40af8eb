-- ===== src/UiPhase/Tests.antt =====
-- The intro of a round.
use geoduels.Base.{◌≡◌, ◌≢◌, ◌↔◌, false, none, some, [], ◌==◌, string_eq}
use geoduels.Snapshot.{Snapshot, Mode, Phase, RoundPhase}
use geoduels.UiPhase.{
  derive_ui_phase, queueing, match_end, prematch_countdown, lobby, is_transition,
}
use geoduels.UiPhase.Pages.{pages_of_snapshot}

abbrev intro : Snapshot
intro = record {
  match_id = "m1";
  mode = some Mode.duel;
  config = none;
  unranked = none;
  round_results = none;
  teams = [];
  rating_preview = [];
  state = "active";
  phase = Phase.live;
  round_phase = RoundPhase.round_intro;
  phase_ends_at = 0;
  round_ms_left = 0;
  current_round = none;
  last_round_result = none;
  players = [];
  self = none;
  event_sequence = 1;
  server_unix_ms = none;
}

pages_of_snapshot_example :
    (derive_ui_phase (some intro) "queueing" ≡ derive_ui_phase (some intro) "idle")
    × (derive_ui_phase (some intro) "queueing" ≢ queueing)
    × ((derive_ui_phase (some intro) "queueing" ≡ match_end) ↔ (intro.state ≡ "ended"))
    × ((derive_ui_phase (some intro) "queueing" ≡ prematch_countdown) ↔ (
        ((intro.state == "ended") ≡ false)
        × (intro.phase ≡ Phase.live)
        × (intro.round_phase ≡ RoundPhase.round_intro)))
    × ((derive_ui_phase (some intro) "queueing" ≡ lobby) ↔ (
        ((intro.state == "ended") ≡ false)
        × (intro.phase ≡ Phase.ended)
        × (is_transition intro.round_phase ≡ false)))
pages_of_snapshot_example = pages_of_snapshot intro "queueing" "idle"

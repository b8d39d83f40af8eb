-- ===== src/UiPhase.antt =====
-- lib/uiPhase.ts: which page is shown (`UIPhase` of components/ui/types.ts).
pub mod Pages
mod Tests
use geoduels.Base.{
  String, Bool, true, false, Option, none, some, if◌then◌else◌, ◌==◌, string_eq, ◌&&◌, ◌||◌,
}
use geoduels.Snapshot.{Snapshot, Phase, RoundPhase, is_live, is_round_intro}

pub data UiPhase : Type 0 where
  lobby queueing prematch_countdown live_round round_result match_end : UiPhase

abbrev pub is_waiting : String → Bool
is_waiting status =
    status == "queueing"
    || status == "queued"
    || status == "matched"
    || status == "matched_connecting"
    || status == "recovering"

abbrev pub is_round_result : Phase → Bool
is_round_result Phase.round_result = true
is_round_result _ = false

abbrev pub is_transition : RoundPhase → Bool
is_transition RoundPhase.round_transition = true
is_transition _ = false

unfoldable pub derive_ui_phase : Option Snapshot → String → UiPhase
derive_ui_phase none status = if is_waiting status then queueing else lobby
derive_ui_phase (some s) status =
    if s.state == "ended"
    then match_end
    else if is_round_result s.phase
    then round_result
    else if is_transition s.round_phase
    then round_result
    else if is_live s.phase && is_round_intro s.round_phase
    then prematch_countdown
    else if is_live s.phase
    then live_round
    else lobby

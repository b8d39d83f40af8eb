-- ===== src/UiPhase/Pages.antt =====
-- lib/uiPhase.ts: when each page is shown.
use geoduels.Base.{eq_iff, ◌≡◌, ◌≢◌, ◌↔◌, refl, String, false, some, arith, ◌==◌, string_eq}
use geoduels.Snapshot.{Snapshot, Phase, RoundPhase}
use geoduels.UiPhase.{
  lobby, queueing, prematch_countdown, match_end, is_transition, derive_ui_phase,
}

-- With a snapshot the status plays no part and the queue is never shown; the end of the match is
-- shown exactly when it has ended, the countdown exactly in the live intro of a match that has not
-- ended, and the lobby exactly when the phase has ended and neither the match has nor the round is
-- in transition.
pub pages_of_snapshot :
    (s : Snapshot) (status other : String)
    → (derive_ui_phase (some s) status ≡ derive_ui_phase (some s) other)
      × (derive_ui_phase (some s) status ≢ queueing)
      × ((derive_ui_phase (some s) status ≡ match_end) ↔ (s.state ≡ "ended"))
      × ((derive_ui_phase (some s) status ≡ prematch_countdown) ↔ (
          ((s.state == "ended") ≡ false)
          × (s.phase ≡ Phase.live)
          × (s.round_phase ≡ RoundPhase.round_intro)))
      × ((derive_ui_phase (some s) status ≡ lobby) ↔ (
          ((s.state == "ended") ≡ false)
          × (s.phase ≡ Phase.ended)
          × (is_transition s.round_phase ≡ false)))
unfolding derive_ui_phase
pages_of_snapshot s status other = (
  refl,
  (λ h. grind arith),
  (λ h. grind (arith, eq_iff s.state "ended"), λ h. grind (arith, eq_iff s.state "ended")),
  (λ h. (grind arith, grind arith, grind arith), λ h. grind arith),
  (λ h. (grind arith, grind arith, grind arith), λ h. grind arith),
)

-- ===== src/Home/Rounds.antt =====
-- features/home/model/derive-home-model.ts: when a guess can be finalized.
use geoduels.Base.{
  ◌≡◌, refl, ap, String, true, false, Option, none, some, arith, string_eq, or_else, ◌&&◌, is_some,
  eq_iff,
}
use geoduels.Snapshot.{Snapshot, is_live, is_round_live}
use geoduels.UiPhase.{UiPhase, live_round}
use geoduels.Home.Model.{
  shown_result, Params, snapshot, snapshot_of, ui_phase, is_open, show_result_stage, in_game,
  can_finalize_guess, stage_of, is_in_game, is_live_round,
}

-- What there is when a guess can be finalized.
pub record IsGuessing (p : Params) (s : Snapshot) : Type 0 where
  pub of_route : s.match_id ≡ or_else p.route_match_id ""
  pub has_round : is_some s.current_round ≡ true
  pub is_on : (is_live s.phase && is_round_live s.round_phase) ≡ true
  pub has_guess : is_some p.game.guess ≡ true
  pub unsubmitted : p.game.guess_submitted ≡ false

of_route_lem :
    (o : Option Snapshot) (route : String) (s : Snapshot)
    → snapshot_of o route ≡ some s
    → s.match_id ≡ route
unfolding snapshot_of
of_route_lem none route s h = cc
of_route_lem (some t) route s h = grind (arith, eq_iff t.match_id route)

live_round_lem : (u : UiPhase) → is_live_round u ≡ true → u ≡ live_round
live_round_lem UiPhase.lobby h = cc
live_round_lem UiPhase.queueing h = cc
live_round_lem UiPhase.prematch_countdown h = cc
live_round_lem UiPhase.live_round h = refl
live_round_lem UiPhase.round_result h = cc
live_round_lem UiPhase.match_end h = cc

open_lem :
    (p : Params) (o : Option Snapshot)
    → snapshot p ≡ o
    → is_open o ≡ true
    → is_some p.game.guess ≡ true
    → p.game.guess_submitted ≡ false
    → (s : Snapshot) × (snapshot p ≡ some s) × IsGuessing p s
unfolding snapshot
open_lem p none e h g u = cc
open_lem p (some s) e h g u = (
  s,
  e,
  record {
    of_route = of_route_lem p.match_state.snapshot (or_else p.route_match_id "") s e;
    has_round = ground arith;
    is_on = ground arith;
    has_guess = g;
    unsubmitted = u;
  },
)

-- Where a guess can be finalized, there is the snapshot of the match whose page is open, it is in
-- a live round, and there is a guess that has not been submitted; and the game is shown, but no
-- result.
pub finalize_only_in_round :
    (p : Params)
    → can_finalize_guess p ≡ true
    → ((s : Snapshot) × (snapshot p ≡ some s) × IsGuessing p s)
      × (ui_phase p ≡ live_round)
      × (show_result_stage p ≡ false)
      × (in_game p ≡ true)
unfolding can_finalize_guess show_result_stage in_game
finalize_only_in_round p h =
    let u = live_round_lem (ui_phase p) (ground arith) in
    (
      open_lem p (snapshot p) refl (ground arith) (ground arith) (ground arith),
      u,
      ap (λ v. stage_of v (is_some (shown_result p)) p.game.show_match_end_page) u,
      ap (λ v. is_in_game v) u,
    )
